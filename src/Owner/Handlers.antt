-- ===== src/Owner/Handlers.antt =====
-- http/handler/room/room.go and db/query/room_owner.go: RoomUserRoleUpdate, RoomOwnerTransfer,
-- RoomMemberKick and RoomLeave. The notices to members are left out.
use cc_im_server.Prelude.{
  String, ℕ, ◌-◌, Bool, true, false, not, ◌&&◌, ◌||◌, Option, none, some, List, [], ◌∷◌, ◌==◌, eqb,
  if◌then◌else◌,
}
use cc_im_server.Delivery.Store
use cc_im_server.Delivery.Store.{set_room_user_ids_cache}
use cc_im_server.Mute.State.{RoomUser, get_room_user, is_user_of, update_users, is_manager}
use cc_im_server.Chat.Tables.{Call}
use cc_im_server.Join.Desk.{
  Desk, JoinRoom, UserRoomSession, Visitor, JoinFaults, with_chat, get_room_by_rid, has_room_user,
}
use cc_im_server.Join.Enter.{is_member_row}

pub data Answer : Type 0 where
  refused : (reason : String) → Answer
  failed : Answer
  done : Answer

find_any_room : String → List JoinRoom → Option JoinRoom
find_any_room rid [] = none
find_any_room rid (r ∷ rooms) =
    if r.rid == rid && eqb r.delete_time 0 then some r else find_any_room rid rooms

is_gone : Option JoinRoom → Bool
is_gone none = true
is_gone (some r) = eqb r.state 0

-- Whether the request is answered here: the room is dissolved, is not found, or the query fails.
unfoldable pub reject_if_room_dissolved : JoinFaults → Desk → String → Bool
unfolding is_gone find_any_room
reject_if_room_dissolved f d rid =
    not (rid == "") && (f.room_query || is_gone (find_any_room rid d.rooms))

abbrev pub is_live : String → String → RoomUser → Bool
is_live rid uid u = is_user_of rid uid u && eqb u.delete_time 0

unfoldable pub with_role : ℕ → RoomUser → RoomUser
with_role role u = record u { role = role }

-- The update of one role, of the row that is not deleted.
unfoldable pub set_role : String → String → ℕ → List RoomUser → List RoomUser
set_role rid uid role us = update_users (is_live rid uid) (with_role role) us

abbrev pub with_users : Desk → List RoomUser → Desk
with_users d us = with_chat d (record d.chat { mute = record d.chat.mute { users = us } })

pub data Transfer : Type 0 where
  invalid_target : Transfer
  not_owner : Transfer
  broken : Transfer
  transferred : Transfer

unfoldable pub set_create_uid : String → String → List JoinRoom → List JoinRoom
set_create_uid rid uid [] = []
set_create_uid rid uid (r ∷ rooms) =
    let rest = set_create_uid rid uid rooms in
    if r.rid == rid && eqb r.delete_time 0 && eqb r.state 1
    then record r { create_uid = uid } ∷ rest
    else r ∷ rest

transfer_to : Visitor → Desk → String → String → String → Option RoomUser → Desk × Transfer
transfer_to v d rid operator target none = (d, invalid_target)
transfer_to v d rid operator target (some t) =
    let users = set_role rid target 2 (set_role rid operator 0 d.chat.mute.users) in
    let moved : Desk = record (with_users d users) { rooms = set_create_uid rid target d.rooms } in
    if eqb t.role 2
    then (d, invalid_target)
    else if v.faults.member_update
    then (d, broken)
    else (moved, transferred)

transfer_from : Visitor → Desk → String → String → String → Option RoomUser → Desk × Transfer
unfolding transfer_to
transfer_from v d rid operator target none = (d, broken)
transfer_from v d rid operator target (some o) =
    let go_on =
      transfer_to v d rid operator target (get_room_user v.mute_faults d.chat.mute rid target) in
    if not (eqb o.role 2) then (d, not_owner) else go_on

unfoldable pub transfer_room_owner : Visitor → Desk → String → String → String → Desk × Transfer
unfolding transfer_from
transfer_room_owner v d rid operator target =
    let result =
      transfer_from v d rid operator target
        (get_room_user v.mute_faults d.chat.mute rid operator) in
    if rid == "" || operator == "" || target == "" || operator == target
    then (d, invalid_target)
    else result

unfoldable pub answer_transfer : Desk × Transfer → Desk × Answer
answer_transfer (d, invalid_target) = (d, refused "invalid target")
answer_transfer (d, not_owner) = (d, refused "not the owner")
answer_transfer (d, broken) = (d, failed)
answer_transfer (d, transferred) = (d, done)

transfer_in : Visitor → Desk → String → String → Option JoinRoom → Desk × Answer
transfer_in v d rid target none = (d, refused "no room")
transfer_in v d rid target (some room) =
    let (d', member) = has_room_user v d rid target in
    let result = answer_transfer (transfer_room_owner v d' rid v.uid target) in
    if not (eqb room.type 1)
    then (d, refused "no group")
    else if target == v.uid
    then (d, refused "oneself")
    else if not member
    then (d', refused "no member")
    else result

unfoldable pub room_owner_transfer : Visitor → Desk → String → String → Desk × Answer
unfolding transfer_in
room_owner_transfer v d rid target =
    let result = transfer_in v d rid target (get_room_by_rid v.faults d rid) in
    if rid == "" || target == ""
    then (d, refused "bad parameter")
    else if reject_if_room_dissolved v.faults d rid
    then (d, refused "dissolved")
    else result

role_of_member : Visitor → Desk → String → String → ℕ → Option RoomUser → Desk × Answer
role_of_member v d rid target role none = (d, failed)
role_of_member v d rid target role (some u) =
    if eqb u.role role
    then (d, refused "unchanged")
    else if v.faults.member_update
    then (d, failed)
    else (with_users d (set_role rid target role d.chat.mute.users), done)

role_in : Visitor → Desk → String → String → ℕ → Option JoinRoom → Desk × Answer
unfolding role_of_member
role_in v d rid target role none = (d, refused "no room")
role_in v d rid target role (some room) =
    let (d', member) = has_room_user v d rid target in
    let result =
      role_of_member v d' rid target role (get_room_user v.mute_faults d'.chat.mute rid target) in
    if not (room.create_uid == v.uid)
    then (d, refused "not the owner")
    else if not (eqb role 0) && not (eqb role 1)
    then (d, refused "bad role")
    else if not member
    then (d', refused "no member")
    else result

unfoldable pub room_user_role_update : Visitor → Desk → String → String → ℕ → Desk × Answer
unfolding role_in
room_user_role_update v d rid target role =
    let result = role_in v d rid target role (get_room_by_rid v.faults d rid) in
    if rid == "" || target == ""
    then (d, refused "bad parameter")
    else if reject_if_room_dissolved v.faults d rid
    then (d, refused "dissolved")
    else result

-- The soft deletion of a member in both views of `room_user`.
unfoldable pub with_delete_time : ℕ → RoomUser → RoomUser
with_delete_time now u = record u { delete_time = now }

delete_member : String → String → ℕ → List Store.RoomUser → List Store.RoomUser
delete_member rid uid now [] = []
delete_member rid uid now (u ∷ us) =
    let rest = delete_member rid uid now us in
    if is_member_row rid uid u && eqb u.delete_time 0
    then record u { delete_time = now } ∷ rest
    else u ∷ rest

unfoldable pub sub_member_count : String → List JoinRoom → List JoinRoom
sub_member_count rid [] = []
sub_member_count rid (r ∷ rooms) =
    let rest = sub_member_count rid rooms in
    if r.rid == rid then record r { member_count = r.member_count - 1 } ∷ rest else r ∷ rest

hide_session : String → String → ℕ → List UserRoomSession → List UserRoomSession
hide_session rid uid now [] = []
hide_session rid uid now (s ∷ ss) =
    let rest = hide_session rid uid now ss in
    if s.uid == uid && s.rid == rid && eqb s.delete_time 0
    then record s { state = 0; delete_time = now } ∷ rest
    else s ∷ rest

-- The transaction that a kick and a leave share, the refresh of the member cache, and the log.
unfoldable pub remove_member : Visitor → Desk → String → String → String → Desk × Answer
unfolding delete_member hide_session
remove_member v d rid uid op =
    let users = update_users (is_live rid uid) (with_delete_time v.now) d.chat.mute.users in
    let store : Store.Store = record d.chat.members {
      room_users = delete_member rid uid v.now d.chat.members.room_users;
    } in
    let removed : Desk = record d {
      chat = record d.chat {
        mute = record d.chat.mute { users = users };
        members = set_room_user_ids_cache v.member_faults store rid;
        calls = Call.log_operation op uid ∷ d.chat.calls;
      };
      rooms = sub_member_count rid d.rooms;
      sessions = hide_session rid uid v.now d.sessions;
    } in
    if v.faults.member_update then (d, failed) else (removed, done)

kick_ranks : RoomUser → Option RoomUser → Bool
kick_ranks operator none = false
kick_ranks operator (some t) =
    if eqb t.role 2 then false else not (eqb t.role 1) || eqb operator.role 2

kick_by : Visitor → Desk → String → String → Option RoomUser → Bool
unfolding kick_ranks
kick_by v d rid target none = false
kick_by v d rid target (some o) =
    is_manager o.role && kick_ranks o (get_room_user v.mute_faults d.chat.mute rid target)

unfoldable pub can_kick_member_in_room : Visitor → Desk → String → String → String → Bool
unfolding kick_by
can_kick_member_in_room v d rid operator target =
    if operator == target
    then false
    else kick_by v d rid target (get_room_user v.mute_faults d.chat.mute rid operator)

kick_in : Visitor → Desk → String → String → Option JoinRoom → Desk × Answer
kick_in v d rid target none = (d, refused "no room")
kick_in v d rid target (some room) =
    if not (eqb room.type 1)
    then (d, refused "no group")
    else if not (can_kick_member_in_room v d rid v.uid target)
    then (d, refused "not allowed")
    else remove_member v d rid target "member_kick"

unfoldable pub room_member_kick : Visitor → Desk → String → String → Desk × Answer
unfolding kick_in
room_member_kick v d rid target =
    let r = v.trim_space rid in
    let t = v.trim_space target in
    let result = kick_in v d r t (get_room_by_rid v.faults d r) in
    if rid == "" || target == ""
    then (d, refused "bad parameter")
    else if reject_if_room_dissolved v.faults d r
    then (d, refused "dissolved")
    else result

leave_as : Visitor → Desk → String → Option RoomUser → Desk × Answer
leave_as v d rid none = (d, failed)
leave_as v d rid (some u) =
    if eqb u.role 2 then (d, refused "the owner") else remove_member v d rid v.uid "room_leave"

leave_in : Visitor → Desk → String → Option JoinRoom → Desk × Answer
unfolding leave_as
leave_in v d rid none = (d, refused "no room")
leave_in v d rid (some room) =
    let (d', member) = has_room_user v d rid v.uid in
    let result = leave_as v d' rid (get_room_user v.mute_faults d'.chat.mute rid v.uid) in
    if not (eqb room.type 1)
    then (d, refused "no group")
    else if not member
    then (d', refused "no member")
    else result

unfoldable pub room_leave : Visitor → Desk → String → Desk × Answer
unfolding leave_in
room_leave v d rid =
    let r = v.trim_space rid in
    let result = leave_in v d r (get_room_by_rid v.faults d r) in
    if rid == "" then (d, refused "bad parameter") else result
