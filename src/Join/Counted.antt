-- ===== src/Join/Counted.antt =====
-- http/handler/room/join_request.go and db/query/room_mute.go: who may accept, and how many members a
-- room counts after a join.
use cc_im_server.Prelude.{
  String, ℕ, ◌+◌, true, Option, none, some, List, [], ◌∷◌, ◌==◌, if◌then◌else◌, eqb, ◌≡◌, ◌⊎◌,
  arith, Option-cases, Bool-cases, inl, inr, ==_iff,
}
use cc_im_server.Mute.State.{RoomUser, can_user_mute_in_room, get_room_user}
use cc_im_server.Join.Desk.{Desk, JoinRoom, Visitor, find_live_room, get_room_by_rid}
use cc_im_server.Join.Enter.{add_member_count}

count_of : Option JoinRoom → Option ℕ
count_of none = none
count_of (some room) = some room.member_count

more_of : Option ℕ → Option ℕ
more_of none = none
more_of (some n) = some (n + 1)

-- How many members a room that is found counts.
unfoldable pub member_count_of : Visitor → Desk → String → Option ℕ
unfolding count_of
member_count_of v d rid = count_of (get_room_by_rid v.faults d rid)

pub manager :
    (v : Visitor) (d : Desk) (rid : String)
    → can_user_mute_in_room v.mute_faults d.chat.mute rid v.uid ≡ true
    → (u : RoomUser) × (get_room_user v.mute_faults d.chat.mute rid v.uid ≡ some u)
      × ((u.role ≡ 1) ⊎ (u.role ≡ 2))
unfolding can_user_mute_in_room
manager v d rid h = elim (Option-cases (get_room_user v.mute_faults d.chat.mute rid v.uid)) [
  | inl e ↦ absurd (ground (arith, e, h))
  | inr (u, e) ↦ elim (Bool-cases (eqb u.role 1)) [
    | inl one ↦ (u, e, inl (ground (arith, one)))
    | inr one ↦ (u, e, inr (ground (arith, e, h, one)))
  ]
]

found_rid :
    (rid : String) (rooms : List JoinRoom) (room : JoinRoom)
    → find_live_room rid rooms ≡ some room
    → room.rid ≡ rid
unfolding find_live_room
found_rid rid [] room h = absurd (ground (arith, h))
found_rid rid (r ∷ rooms) room h = ground (arith, h, found_rid rid rooms room, ==_iff r.rid rid)

count_added :
    (rid other : String) (rooms : List JoinRoom)
    → count_of (find_live_room other (add_member_count rid rooms)) ≡ (
        if other == rid
        then more_of (count_of (find_live_room other rooms))
        else count_of (find_live_room other rooms))
unfolding find_live_room add_member_count count_of more_of
count_added rid other [] = ground arith
count_added rid other (r ∷ rooms) =
    ground
      (arith, count_added rid other rooms, ==_iff r.rid rid, ==_iff r.rid other, ==_iff other rid)

pub counts_one_more :
    (v : Visitor) (d d' : Desk) (rid other : String) (room : JoinRoom)
    → get_room_by_rid v.faults d rid ≡ some room
    → d'.rooms ≡ add_member_count room.rid d.rooms
    → member_count_of v d' other
      ≡ (if other == rid then some (room.member_count + 1) else member_count_of v d other)
unfolding member_count_of get_room_by_rid find_live_room count_of more_of
counts_one_more v d d' rid other room found rooms = ground (
  arith,
  found,
  rooms,
  found_rid rid d.rooms room,
  count_added room.rid other d.rooms,
  ==_iff other rid,
)
