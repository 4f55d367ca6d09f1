-- ===== src/Prelude/Tests.antt =====
-- Boolean tests on numbers and texts, the conditional, and the splits on computed values.
use Prim.Native.Nat.{ℕ, zero, suc, ◌<◌, compare, Ordering}
use Prim.Native.String.{String}
use mathlib.Core.Path.{◌≡◌, refl}
use mathlib.Core.Logic.{◌↔◌, ◌⊎◌, inl, inr, ◌≢◌}
use mathlib.Core.Bool.{Bool, true, false, ◌&&◌}
use mathlib.Core.Option.{Option, none, some}
use native.Mathlib.Omega.{arith}
use text.Mathlib.Text.{◌==◌ as text_eq}
use text.Mathlib.TextEquality.{eq_iff}

abbrev pub ltb : ℕ → ℕ → Bool
ltb a b = elim (compare a b) [ Ordering.lt ↦ true | _ ↦ false ]

abbrev pub leb : ℕ → ℕ → Bool
leb a b = elim (compare a b) [ Ordering.gt ↦ false | _ ↦ true ]

abbrev pub eqb : ℕ → ℕ → Bool
eqb a b = elim (compare a b) [ Ordering.eq ↦ true | _ ↦ false ]

-- Equality of Go strings. It stays shut: proofs use `==_iff`.
infix 50 ◌==◌
unfoldable pub ◌==◌ : String → String → Bool
s == t = text_eq s t

pub ==_iff : (s t : String) → ((s == t) ≡ true) ↔ (s ≡ t)
unfolding ◌==◌
==_iff s t = eq_iff s t

pub ==_refl : (s : String) → (s == s) ≡ true
==_refl s = (==_iff s s).1 refl

pub ==_of_ne : (s t : String) → s ≢ t → (s == t) ≡ false
==_of_ne s t h = ground (arith, ==_iff s t)

pub ne_of_test : (s t : String) → (s == t) ≡ false → s ≢ t
ne_of_test s t h = λ e. ground (arith, h, e, ==_iff s t)

pub ==_sym : (s t : String) → (s == t) ≡ (t == s)
==_sym s t = ground (arith, ==_iff s t, ==_iff t s)

infix 1 if◌then◌else◌
abbrev pub if◌then◌else◌ {ℓ} : {A : Type ℓ} → Bool → A → A → A
if true then x else y = x
if false then x else y = y

pub Bool-cases : (b : Bool) → (b ≡ true) ⊎ (b ≡ false)
Bool-cases true = inl refl
Bool-cases false = inr refl

pub Option-cases {ℓ} : {A : Type ℓ} (o : Option A) → (o ≡ none) ⊎ ((a : A) × (o ≡ some a))
Option-cases none = inl refl
Option-cases (some a) = inr (a, refl)

pub not_true_and_false : (b : Bool) → b ≡ true → b ≢ false
not_true_and_false b h = ground arith

-- A test that holds of every number below a bound.
unfoldable pub all_below : ℕ → (ℕ → Bool) → Bool
all_below zero test = true
all_below (suc bound) test = test bound && all_below bound test

pub all_below_sound :
    (bound : ℕ) (test : ℕ → Bool) (value : ℕ)
    → all_below bound test ≡ true
    → value < bound
    → test value ≡ true
unfolding all_below
all_below_sound zero test value holds below = absurd (omega arith)
all_below_sound (suc bound) test value holds below =
    ground (arith, all_below_sound bound test value)
