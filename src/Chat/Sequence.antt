-- ===== src/Chat/Sequence.antt =====
-- db/query/room.go: the sequence numbers of a room, which a Redis counter hands out.
use cc_im_server.Prelude.{
  String, ℕ, suc, ◌<◌, ◌≤◌, Bool, true, not, ◌&&◌, ◌||◌, Option, none, some, List, [], ◌∷◌, ◌==◌,
  ltb, if◌then◌else◌, ◌≡◌, refl, arith, ==_iff, ==_refl, Option-cases, inl, inr,
}
use cc_im_server.Prelude.Assoc.{lookup, insert, lookup-insert}
use cc_im_server.Chat.Tables.{Chat, ChatFaults, MessageRow, get_max_room_seq_id}

counted : ChatFaults → Chat → String → ℕ → Chat × Option ℕ
counted f s rid n =
    if f.seq_incr then (s, none) else (record s { seqs = insert rid (suc n) s.seqs }, some (suc n))

-- A counter that is missing is set from the table first.
started : ChatFaults → Chat → String → Option ℕ → Chat × Option ℕ
unfolding counted
started f s rid (some n) = counted f s rid n
started f s rid none =
    let n = get_max_room_seq_id rid s.rows in
    let s' : Chat = record s { seqs = insert rid n s.seqs } in
    let next = counted f s' rid n in if f.max_query || f.seq_init then (s, none) else next

-- The next sequence number; none for an error.
unfoldable pub get_room_seq_id : ChatFaults → Chat → String → Chat × Option ℕ
unfolding started
get_room_seq_id f s rid = if f.seq_get then (s, none) else started f s rid (lookup rid s.seqs)

-- No row of a room has a number above the room's counter.
abbrev pub is_counted : List (String × ℕ) → MessageRow → Bool
is_counted seqs r = elim (lookup r.rid seqs) [ none ↦ true | some n ↦ not (ltb n r.seq_id) ]

abbrev pub all_counted : List (String × ℕ) → List MessageRow → Bool
all_counted seqs [] = true
all_counted seqs (r ∷ rows) = is_counted seqs r && all_counted seqs rows

-- A number above those of all rows of a room.
abbrev pub is_above : String → ℕ → List MessageRow → Bool
is_above rid n [] = true
is_above rid n (r ∷ rows) = (not (r.rid == rid) || ltb r.seq_id n) && is_above rid n rows

above_max :
    (rid : String) (n : ℕ) (rows : List MessageRow)
    → get_max_room_seq_id rid rows < n
    → is_above rid n rows ≡ true
unfolding get_max_room_seq_id
above_max rid n [] h = refl
above_max rid n (r ∷ rows) h = ground (arith, h, above_max rid n rows)

above_counter :
    (rid : String) (n : ℕ) (seqs : List (String × ℕ)) (rows : List MessageRow)
    → lookup rid seqs ≡ some n
    → all_counted seqs rows ≡ true
    → is_above rid (suc n) rows ≡ true
above_counter rid n seqs [] e h = refl
above_counter rid n seqs (r ∷ rows) e h =
    ground (arith, e, h, above_counter rid n seqs rows e, ==_iff r.rid rid)

counted_after :
    (rid : String) (n : ℕ) (seqs : List (String × ℕ)) (rows : List MessageRow)
    → is_above rid n rows ≡ true
    → all_counted seqs rows ≡ true
    → all_counted (insert rid n seqs) rows ≡ true
counted_after rid n seqs [] a h = refl
counted_after rid n seqs (r ∷ rows) a h = ground (
  arith,
  a,
  h,
  counted_after rid n seqs rows,
  lookup-insert rid r.rid n seqs,
  ==_iff rid r.rid,
  ==_iff r.rid rid,
)

max_counted :
    (rid : String) (n : ℕ) (seqs : List (String × ℕ)) (rows : List MessageRow)
    → get_max_room_seq_id rid rows ≤ n
    → all_counted seqs rows ≡ true
    → all_counted (insert rid n seqs) rows ≡ true
unfolding get_max_room_seq_id
max_counted rid n seqs [] a h = refl
max_counted rid n seqs (r ∷ rows) a h = ground (
  arith,
  a,
  h,
  max_counted rid n seqs rows,
  lookup-insert rid r.rid n seqs,
  ==_iff rid r.rid,
  ==_iff r.rid rid,
)

-- What a handler that got the number n may rely on.
abbrev pub Handed : String → Chat → Chat → ℕ → Type 0
Handed rid s s' n = (is_above rid n s.rows ≡ true) × (lookup rid s'.seqs ≡ some n)

counted-Handed :
    (f : ChatFaults) (s : Chat) (rid : String) (k n : ℕ)
    → is_above rid (suc k) s.rows ≡ true
    → (counted f s rid k).1 ≡ some n
    → Handed rid s (counted f s rid k).0 n
unfolding counted
counted-Handed f s rid k n a h =
    (ground (arith, a, h), ground (arith, h, lookup-insert rid rid (suc k) s.seqs, ==_refl rid))

-- A number that is handed out for a room is above those of all its messages, and is the counter's
-- value from then on.
pub get_room_seq_id-Handed :
    (f : ChatFaults) (s : Chat) (rid : String) (n : ℕ)
    → all_counted s.seqs s.rows ≡ true
    → (get_room_seq_id f s rid).1 ≡ some n
    → Handed rid s (get_room_seq_id f s rid).0 n
unfolding get_room_seq_id
get_room_seq_id-Handed f s rid n h e = elim (Option-cases (lookup rid s.seqs)) [
  | inl g ↦
      let m = get_max_room_seq_id rid s.rows in
      let s' : Chat = record s { seqs = insert rid m s.seqs } in
      ground (arith, g, e, counted-Handed f s' rid m n (above_max rid (suc m) s.rows (omega arith)))
  | inr (k, g) ↦
      ground (arith, g, e, counted-Handed f s rid k n (above_counter rid k s.seqs s.rows g h))
]

counted-rows :
    (f : ChatFaults) (s : Chat) (rid : String) (k : ℕ)
    → is_above rid (suc k) s.rows ≡ true
    → all_counted s.seqs s.rows ≡ true
    → ((counted f s rid k).0.rows ≡ s.rows) × (all_counted (counted f s rid k).0.seqs s.rows ≡ true)
unfolding counted
counted-rows f s rid k a h = ground (arith, h, counted_after rid (suc k) s.seqs s.rows a h)

pub get_room_seq_id-counted :
    (f : ChatFaults) (s : Chat) (rid : String)
    → all_counted s.seqs s.rows ≡ true
    → ((get_room_seq_id f s rid).0.rows ≡ s.rows)
      × (all_counted (get_room_seq_id f s rid).0.seqs s.rows ≡ true)
unfolding get_room_seq_id
get_room_seq_id-counted f s rid h = elim (Option-cases (lookup rid s.seqs)) [
  | inl g ↦
      let m = get_max_room_seq_id rid s.rows in
      let s' : Chat = record s { seqs = insert rid m s.seqs } in
      ground (
        arith,
        g,
        h,
        counted-rows f s' rid m (above_max rid (suc m) s.rows (omega arith))
            (max_counted rid m s.seqs s.rows (omega arith) h),
      )
  | inr (k, g) ↦
      ground (arith, g, h, counted-rows f s rid k (above_counter rid k s.seqs s.rows g h) h)
]
