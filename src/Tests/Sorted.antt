-- ===== src/Tests/Sorted.antt =====
-- A heap for the runs of the heartbeat manager: a sorted list.
use cc_im_server.Prelude.{
  String, ℕ, suc, ◌+◌, ◌≤◌, Bool, true, false, ◌&&◌, List, [], ◌∷◌, ◌==◌, leb, if◌then◌else◌, count,
  elem, ◌≡◌, refl, ap, arith, ==_iff, ==_refl,
}
use cc_im_server.Heartbeat.Heap.{Times, Heap}
use cc_im_server.Heartbeat.Synced.{other_than}

insert_by : Times → String → List String → List String
insert_by t x [] = x ∷ []
insert_by t x (y ∷ h) = if leb (t x) (t y) then x ∷ y ∷ h else y ∷ insert_by t x h

erase : String → List String → List String
erase x [] = []
erase x (y ∷ h) = if y == x then h else y ∷ erase x h

tail : List String → List String
tail [] = []
tail (x ∷ h) = h

above : ℕ → Times → List String → Bool
above k t [] = true
above k t (y ∷ h) = leb k (t y) && above k t h

sorted : Times → List String → Bool
sorted t [] = true
sorted t (x ∷ h) = above (t x) t h && sorted t h

above-elem :
    (k : ℕ) (t : Times) (y : String) (h : List String)
    → above k t h ≡ true
    → elem y h ≡ true
    → k ≤ t y
unfolding above
above-elem k t y [] a e = cc
above-elem k t y (x ∷ h) a e =
    ground (arith, a, e, above-elem k t y h, ==_iff x y, λ (s : x ≡ y). ap t s)

above_le : (j k : ℕ) (t : Times) (h : List String) → j ≤ k → above k t h ≡ true → above j t h ≡ true
unfolding above
above_le j k t [] le a = refl
above_le j k t (x ∷ h) le a = ground (arith, le, a, above_le j k t h)

above_same :
    (k : ℕ) (t u : Times) (h : List String)
    → ((y : String) → elem y h ≡ true → t y ≡ u y)
    → above k t h ≡ true
    → above k u h ≡ true
unfolding above
above_same k t u [] same a = refl
above_same k t u (x ∷ h) same a = ground (
  arith,
  a,
  same x (ground (arith, ==_refl x)),
  above_same k t u h (λ y e. same y (ground (arith, e))),
)

sorted_same :
    (t u : Times) (h : List String)
    → ((y : String) → elem y h ≡ true → t y ≡ u y)
    → sorted t h ≡ true
    → sorted u h ≡ true
unfolding sorted
sorted_same t u [] same s = refl
sorted_same t u (x ∷ h) same s = ground (
  arith,
  s,
  same x (ground (arith, ==_refl x)),
  above_same (t x) t u h (λ y e. same y (ground (arith, e))),
  sorted_same t u h (λ y e. same y (ground (arith, e))),
)

above-insert_by :
    (k : ℕ) (t : Times) (x : String) (h : List String)
    → above k t h ≡ true
    → k ≤ t x
    → above k t (insert_by t x h) ≡ true
unfolding above insert_by
above-insert_by k t x [] a le = ground (arith, le)
above-insert_by k t x (y ∷ h) a le = ground (arith, a, le, above-insert_by k t x h)

sorted-insert_by :
    (t : Times) (x : String) (h : List String)
    → sorted t h ≡ true
    → sorted t (insert_by t x h) ≡ true
unfolding sorted insert_by above
sorted-insert_by t x [] s = refl
sorted-insert_by t x (y ∷ h) s =
    ground (arith, s, sorted-insert_by t x h, above-insert_by (t y) t x h, above_le (t x) (t y) t h)

above-erase :
    (k : ℕ) (t : Times) (x : String) (h : List String)
    → above k t h ≡ true
    → above k t (erase x h) ≡ true
unfolding above erase
above-erase k t x [] a = refl
above-erase k t x (y ∷ h) a = ground (arith, a, above-erase k t x h)

sorted-erase :
    (t : Times) (x : String) (h : List String) → sorted t h ≡ true → sorted t (erase x h) ≡ true
unfolding sorted erase
sorted-erase t x [] s = refl
sorted-erase t x (y ∷ h) s = ground (arith, s, sorted-erase t x h, above-erase (t y) t x h)

count-insert_by :
    (t : Times) (x y : String) (h : List String) → count y (insert_by t x h) ≡ count y (x ∷ h)
unfolding insert_by
count-insert_by t x y [] = refl
count-insert_by t x y (z ∷ h) = ground (arith, count-insert_by t x y h)

count-erase :
    (x y : String) (h : List String) (n : ℕ)
    → count x h ≡ suc n
    → count y h ≡ count y (erase x h) + (if x == y then 1 else 0)
unfolding erase
count-erase x y [] n e = absurd (omega (arith, e))
count-erase x y (z ∷ h) n e =
    ground (arith, e, count-erase x y h n, ==_iff z x, ==_iff z y, ==_iff x y)

fixed_sorted :
    (t u : Times) (h : List String) (x : String)
    → ((y : String) → (x == y) ≡ false → t y ≡ u y)
    → sorted t h ≡ true
    → count x h ≡ 1
    → sorted u (insert_by u x (erase x h)) ≡ true
fixed_sorted t u h x same s once =
    let gone : count x (erase x h) ≡ 0 =
      ground (arith, once, count-erase x x h 0 once, ==_refl x) in
    sorted-insert_by u x (erase x h) (
      sorted_same t u (erase x h) (λ y e. same y (other_than x y (erase x h) gone e))
        (sorted-erase t x h s))

count_fixed :
    (t : Times) (h : List String) (x y : String)
    → count x h ≡ 1
    → count y (insert_by t x (erase x h)) ≡ count y h
count_fixed t h x y once =
    ground (arith, once, count-insert_by t x y (erase x h), count-erase x y h 0 once)

pub sorted_heap : Heap
unfolding sorted above tail
sorted_heap = record {
  push = λ t h x. insert_by t x h;
  pop = λ t h. tail h;
  fix = λ t h x. insert_by t x (erase x h);
  remove = λ t h x. erase x h;
  Ordered = λ t h. sorted t h ≡ true;
  empty-Ordered = λ t. refl;
  root_min = λ t x y h s e. above-elem (t x) t y h (ground (arith, s)) e;
  same_times = λ t u h same s. sorted_same t u h same s;
  push-Ordered = λ t h x s. sorted-insert_by t x h s;
  pop-Ordered = λ t x h s. ground (arith, s);
  fix-Ordered = λ t u h x same s once. fixed_sorted t u h x same s once;
  remove-Ordered = λ t h x s. sorted-erase t x h s;
  count-push = λ t h x y. count-insert_by t x y h;
  count-pop = λ t x y h. refl;
  count-fix = λ t h x y once. count_fixed t h x y once;
  count-remove = λ t h x y once. count-erase x y h 0 once;
}
