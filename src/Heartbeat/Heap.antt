-- ===== src/Heartbeat/Heap.antt =====
-- container/heap: the operations that the heartbeat manager calls, and what their documentation says
-- for an array whose Less compares times, Swap exchanges two entries, and Push and Pop work at its end,
-- as the methods in Heartbeat.Entries do.
use cc_im_server.Prelude.{
  String, ℕ, ◌+◌, ◌≤◌, true, false, List, [], ◌∷◌, ◌==◌, if◌then◌else◌, count, elem, ◌≡◌,
}

-- The last heartbeat of each client.
abbrev pub Times : Type 0
Times = String → ℕ

-- A heap is the array of its entries, each named by its client; `Less` compares times. An operation at
-- an index is one at the entry which stands there, and
-- which is there once.
pub record Heap : Type 1 where
  pub push : Times → List String → String → List String
  pub pop : Times → List String → List String
  pub fix : Times → List String → String → List String
  pub remove : Times → List String → String → List String
  -- The heap invariant.
  pub Ordered : Times → List String → Type 0
  pub empty-Ordered : (t : Times) → Ordered t []
  -- The minimum is at index 0.
  pub root_min :
      (t : Times) (x y : String) (h : List String) → Ordered t (x ∷ h) → elem y h ≡ true → t x ≤ t y
  -- The invariant is about the entries in the heap only.
  pub same_times :
      (t u : Times) (h : List String)
      → ((y : String) → elem y h ≡ true → t y ≡ u y)
      → Ordered t h
      → Ordered u h
  pub push-Ordered :
      (t : Times) (h : List String) (x : String) → Ordered t h → Ordered t (push t h x)
  pub pop-Ordered :
      (t : Times) (x : String) (h : List String) → Ordered t (x ∷ h) → Ordered t (pop t (x ∷ h))
  -- `Fix` re-establishes the order after the value of one entry has changed.
  pub fix-Ordered :
      (t u : Times) (h : List String) (x : String)
      → ((y : String) → (x == y) ≡ false → t y ≡ u y)
      → Ordered t h
      → count x h ≡ 1
      → Ordered u (fix u h x)
  pub remove-Ordered :
      (t : Times) (h : List String) (x : String) → Ordered t h → Ordered t (remove t h x)
  pub count-push :
      (t : Times) (h : List String) (x y : String) → count y (push t h x) ≡ count y (x ∷ h)
  pub count-pop : (t : Times) (x y : String) (h : List String) → count y (pop t (x ∷ h)) ≡ count y h
  pub count-fix :
      (t : Times) (h : List String) (x y : String) → count x h ≡ 1 → count y (fix t h x) ≡ count y h
  pub count-remove :
      (t : Times) (h : List String) (x y : String)
      → count x h ≡ 1
      → count y h ≡ count y (remove t h x) + (if x == y then 1 else 0)
