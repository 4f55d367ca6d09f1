-- ===== src/Prelude/Assoc.antt =====
-- Go maps and Redis keyspaces with text keys, as association lists.
use Prim.Native.String.{String}
use mathlib.Core.Path.{◌≡◌, refl}
use mathlib.Core.Option.{Option, none, some}
use mathlib.Core.List.{List, [], ◌∷◌}
use native.Mathlib.Omega.{arith}
use cc_im_server.Prelude.Tests.{◌==◌, if◌then◌else◌, ==_iff}

module _ {ℓ} {V : Type ℓ} where
  unfoldable pub lookup : String → List (String × V) → Option V
  lookup key [] = none
  lookup key ((other, value) ∷ table) = if other == key then some value else lookup key table

  unfoldable pub insert : String → V → List (String × V) → List (String × V)
  insert key value [] = (key, value) ∷ []
  insert key value ((other, found) ∷ table) =
      if other == key then (key, value) ∷ table else (other, found) ∷ insert key value table

  unfoldable pub delete : String → List (String × V) → List (String × V)
  delete key [] = []
  delete key ((other, found) ∷ table) =
      if other == key then delete key table else (other, found) ∷ delete key table

  pub lookup-insert :
      (key other : String) (value : V) (table : List (String × V))
      → lookup other (insert key value table)
        ≡ (if key == other then some value else lookup other table)
  unfolding lookup insert
  lookup-insert key other value [] = refl
  lookup-insert key other value ((first, found) ∷ table) = ground (
    arith,
    ==_iff key other,
    ==_iff first key,
    ==_iff first other,
    lookup-insert key other value table,
  )

  pub lookup-delete :
      (key other : String) (table : List (String × V))
      → lookup other (delete key table) ≡ (if key == other then none else lookup other table)
  unfolding lookup delete
  lookup-delete key other [] = ground arith
  lookup-delete key other ((first, found) ∷ table) =
      ground (
        arith,
        ==_iff key other,
        ==_iff first key,
        ==_iff first other,
        lookup-delete key other table,
      )
