-- ===== src/Heartbeat/Entries.antt =====
-- quic/heartbeat/manager.go, heartbeatHeap: the array of entries and the methods that container/heap
-- calls on it. Each entry keeps its place in the array, which Fix and Remove are given.
use cc_im_server.Prelude.{
  String, ℕ, zero, suc, ◌+◌, Bool, true, false, ◌&&◌, Option, none, some, List, [], ◌∷◌, ◌++◌, eqb,
  ltb, length, ◌≡◌, refl, arith, Option-cases, inl, inr,
}

-- `index` is none for an entry outside the heap, -1 in the source.
record HeartbeatEntry : Type 0 where
  pub client_id : String
  pub last_hb_time : ℕ
  pub index : Option ℕ

abbrev get_elem? : List HeartbeatEntry → ℕ → Option HeartbeatEntry
get_elem? [] i = none
get_elem? (e ∷ h) zero = some e
get_elem? (e ∷ h) (suc i) = get_elem? h i

abbrev at_time : Option HeartbeatEntry → ℕ
at_time none = 0
at_time (some e) = e.last_hb_time

-- Both places are in the array; the source panics otherwise.
unfoldable less : List HeartbeatEntry → ℕ → ℕ → Bool
less h i j = ltb (at_time (get_elem? h i)) (at_time (get_elem? h j))

unfoldable put : ℕ → HeartbeatEntry → List HeartbeatEntry → List HeartbeatEntry
put i x [] = []
put zero x (e ∷ h) = x ∷ h
put (suc i) x (e ∷ h) = e ∷ put i x h

exchange :
    List HeartbeatEntry
    → ℕ
    → ℕ
    → Option HeartbeatEntry
    → Option HeartbeatEntry
    → List HeartbeatEntry
unfolding put
exchange h i j (some a) (some b) =
    put j (record a { index = some j }) (put i (record b { index = some i }) h)
exchange h i j a b = h

-- As with `less`, both places are in the array.
unfoldable swap : List HeartbeatEntry → ℕ → ℕ → List HeartbeatEntry
unfolding exchange
swap h i j = exchange h i j (get_elem? h i) (get_elem? h j)

unfoldable push : List HeartbeatEntry → HeartbeatEntry → List HeartbeatEntry
push h x = h ++ (record x { index = some (length h) } ∷ [])

-- The last entry, outside the heap then, and the array without it; the source panics on an empty one.
unfoldable pop : List HeartbeatEntry → List HeartbeatEntry × Option HeartbeatEntry
pop [] = ([], none)
pop (e ∷ []) = ([], some (record e { index = none }))
pop (e ∷ d ∷ h) = let (left, last) = pop (d ∷ h) in (e ∷ left, last)

is_at : ℕ → Option ℕ → Bool
is_at k none = false
is_at k (some i) = eqb i k

-- Every entry keeps its place, counted from `k`.
unfoldable is_indexed : ℕ → List HeartbeatEntry → Bool
unfolding is_at
is_indexed k [] = true
is_indexed k (e ∷ h) = is_at k e.index && is_indexed (k + 1) h

put-is_indexed :
    (k i n : ℕ) (x : HeartbeatEntry) (h : List HeartbeatEntry)
    → x.index ≡ some n
    → k + i ≡ n
    → is_indexed k h ≡ true
    → is_indexed k (put i x h) ≡ true
unfolding is_indexed put
put-is_indexed k i n x [] e p h = refl
put-is_indexed k zero n x (d ∷ ds) e p h = ground (arith, e, p, h)
put-is_indexed k (suc i) n x (d ∷ ds) e p h =
    ground (arith, h, put-is_indexed (k + 1) i n x ds e (omega (arith, p)))

-- Where every entry keeps its place, it does so after a swap.
swap-is_indexed :
    (h : List HeartbeatEntry) (i j : ℕ) → is_indexed 0 h ≡ true → is_indexed 0 (swap h i j) ≡ true
unfolding swap
swap-is_indexed h i j kept = elim (Option-cases (get_elem? h i)) [
  | inl e ↦ ground (arith, e, kept)
  | inr (a, e) ↦ elim (Option-cases (get_elem? h j)) [
    | inl g ↦ ground (arith, e, g, kept)
    | inr (b, g) ↦ ground (
      arith,
      e,
      g,
      put-is_indexed 0 j j (record a { index = some j }) (put i (record b { index = some i }) h)
          refl (omega arith)
          (put-is_indexed 0 i i (record b { index = some i }) h refl (omega arith) kept),
    )
  ]
]

append-is_indexed :
    (k n : ℕ) (x : HeartbeatEntry) (h : List HeartbeatEntry)
    → x.index ≡ some n
    → k + length h ≡ n
    → is_indexed k h ≡ true
    → is_indexed k (h ++ x ∷ []) ≡ true
unfolding is_indexed
append-is_indexed k n x [] e p h = ground (arith, e, p)
append-is_indexed k n x (d ∷ ds) e p h =
    ground (arith, h, append-is_indexed (k + 1) n x ds e (omega (arith, p)))

-- Where every entry keeps its place, it does so after a push, the new one included.
push-is_indexed :
    (h : List HeartbeatEntry) (x : HeartbeatEntry)
    → is_indexed 0 h ≡ true
    → is_indexed 0 (push h x) ≡ true
unfolding push
push-is_indexed h x kept =
    append-is_indexed 0 (length h) (record x { index = some (length h) }) h refl (omega arith) kept

-- Where every entry keeps its place, those that are left do so after a pop.
pop-is_indexed :
    (k : ℕ) (h : List HeartbeatEntry) → is_indexed k h ≡ true → is_indexed k (pop h).0 ≡ true
unfolding pop is_indexed
pop-is_indexed k [] kept = refl
pop-is_indexed k (e ∷ []) kept = refl
pop-is_indexed k (e ∷ d ∷ h) kept = ground (arith, kept, pop-is_indexed (k + 1) (d ∷ h))
