-- ===== src/Owner/Dissolve.antt =====
-- http/handler/room/room.go and db/query/room_owner.go: RoomDissolve. The notices to members are left
-- out.
use cc_im_server.Prelude.{
  String, Bool, not, ◌&&◌, Option, none, some, List, [], ◌∷◌, ◌==◌, eqb, any, if◌then◌else◌,
}
use cc_im_server.Delivery.Store.{get_room_user_ids_cache}
use cc_im_server.Mute.State.{RoomUser, get_room_user}
use cc_im_server.Chat.Tables.{Call, Room}
use cc_im_server.Join.Desk.{Desk, JoinRoom, Visitor, get_room_by_rid}
use cc_im_server.Owner.Handlers.{Answer, refused, failed, done}

abbrev pub is_active_row : String → JoinRoom → Bool
is_active_row rid r = r.rid == rid && eqb r.delete_time 0 && eqb r.state 1

-- The update of the state in the two views of the table `room`.
unfoldable pub dissolve_rows : String → List JoinRoom → List JoinRoom
dissolve_rows rid [] = []
dissolve_rows rid (r ∷ rooms) =
    let rest = dissolve_rows rid rooms in
    if is_active_row rid r then record r { state = 0 } ∷ rest else r ∷ rest

unfoldable pub dissolve_chat_rooms : String → List Room → List Room
dissolve_chat_rooms rid [] = []
dissolve_chat_rooms rid (r ∷ rooms) =
    let rest = dissolve_chat_rooms rid rooms in
    if r.rid == rid && eqb r.delete_time 0 && eqb r.state 1
    then record r { state = 0 } ∷ rest
    else r ∷ rest

-- The room is dissolved, the members are read from the cache, and the operation is logged.
unfoldable pub dissolved : Visitor → Desk → String → Desk
dissolved v d rid =
    let f = v.member_faults in
    let (store, uids) = get_room_user_ids_cache f.cache_get f d.chat.members rid in
    record d {
      chat = record d.chat {
        rooms = dissolve_chat_rooms rid d.chat.rooms;
        members = store;
        calls = Call.log_operation "room_dissolve" rid ∷ d.chat.calls;
      };
      rooms = dissolve_rows rid d.rooms;
    }

dissolve_as : Visitor → Desk → String → Option RoomUser → Desk × Answer
dissolve_as v d rid none = (d, failed)
dissolve_as v d rid (some u) =
    if not (eqb u.role 2)
    then (d, refused "not the owner")
    else if v.faults.member_update
    then (d, failed)
    else if not (any (is_active_row rid) d.rooms)
    then (d, refused "already dissolved")
    else (dissolved v d rid, done)

dissolve_in : Visitor → Desk → String → Option JoinRoom → Desk × Answer
unfolding dissolve_as
dissolve_in v d rid none = (d, refused "no room")
dissolve_in v d rid (some room) =
    let result = dissolve_as v d rid (get_room_user v.mute_faults d.chat.mute rid v.uid) in
    if not (eqb room.type 1) then (d, refused "no group") else result

unfoldable pub room_dissolve : Visitor → Desk → String → Desk × Answer
unfolding dissolve_in
room_dissolve v d rid =
    let r = v.trim_space rid in
    let result = dissolve_in v d r (get_room_by_rid v.faults d r) in
    if rid == "" then (d, refused "bad parameter") else result
