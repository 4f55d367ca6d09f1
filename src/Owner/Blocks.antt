-- ===== src/Owner/Blocks.antt =====
-- http/handler/room/room.go, db/query/room_block.go and db/query/room_user_block_user.go: members who
-- block a room, or another member in it. The operation logs are left out.
use cc_im_server.Prelude.{
  String, ℕ, Bool, not, ◌&&◌, ◌||◌, Option, none, some, List, [], ◌∷◌, ◌==◌, eqb, if◌then◌else◌,
  elem, is_empty,
}
use cc_im_server.Delivery.Store.{Store, UserRoomBlock, RoomUserBlockUser, get_room_user_ids_cache}
use cc_im_server.Join.Desk.{Desk, JoinRoom, Visitor, with_chat, get_room_by_rid}
use cc_im_server.Owner.Handlers.{Answer, refused, failed, done, reject_if_room_dissolved}

abbrev pub is_block : String → String → UserRoomBlock → Bool
is_block uid rid b = b.uid == uid && b.rid == rid

abbrev pub is_user_block : String → String → String → RoomUserBlockUser → Bool
is_user_block uid rid target b = b.uid == uid && b.rid == rid && b.target_uid == target

-- The first row is restored, if there is one.
unfoldable pub block_room : String → String → List UserRoomBlock → List UserRoomBlock
block_room uid rid [] = record { rid = rid; uid = uid; delete_time = 0 } ∷ []
block_room uid rid (b ∷ bs) =
    let rest = block_room uid rid bs in
    if is_block uid rid b then record b { delete_time = 0 } ∷ bs else b ∷ rest

unfoldable pub unblock_room : String → String → ℕ → List UserRoomBlock → List UserRoomBlock
unblock_room uid rid now [] = []
unblock_room uid rid now (b ∷ bs) =
    let rest = unblock_room uid rid now bs in
    if is_block uid rid b && eqb b.delete_time 0
    then record b { delete_time = now } ∷ rest
    else b ∷ rest

unfoldable pub block_user_in_room :
    String → String → String → List RoomUserBlockUser → List RoomUserBlockUser
block_user_in_room uid rid target [] =
    record { rid = rid; uid = uid; target_uid = target; delete_time = 0 } ∷ []
block_user_in_room uid rid target (b ∷ bs) =
    let rest = block_user_in_room uid rid target bs in
    if is_user_block uid rid target b then record b { delete_time = 0 } ∷ bs else b ∷ rest

unfoldable pub unblock_user_in_room :
    String → String → String → ℕ → List RoomUserBlockUser → List RoomUserBlockUser
unblock_user_in_room uid rid target now [] = []
unblock_user_in_room uid rid target now (b ∷ bs) =
    let rest = unblock_user_in_room uid rid target now bs in
    if is_user_block uid rid target b && eqb b.delete_time 0
    then record b { delete_time = now } ∷ rest
    else b ∷ rest

abbrev pub with_members : Desk → Store → Desk
with_members d s = with_chat d (record d.chat { members = s })

abbrev pub with_room_blocks : Desk → List UserRoomBlock → Desk
with_room_blocks d bs = with_members d (record d.chat.members { room_blocks = bs })

abbrev pub with_user_blocks : Desk → List RoomUserBlockUser → Desk
with_user_blocks d bs = with_members d (record d.chat.members { user_blocks = bs })

-- A block or its end, which is one statement or two.
abbrev written : Visitor → Desk → Desk → Desk × Answer
written v d d' = if v.faults.member_update then (d, failed) else (d', done)

block_as : Visitor → Desk → String → Option (List String) → Desk × Answer
block_as v d rid none = (d, failed)
block_as v d rid (some []) = (d, failed)
block_as v d rid (some (u ∷ us)) =
    if not (elem v.uid (u ∷ us))
    then (d, refused "no member")
    else written v d (with_room_blocks d (block_room v.uid rid d.chat.members.room_blocks))

block_in : Visitor → Desk → String → Option JoinRoom → Desk × Answer
unfolding block_as
block_in v d rid none = (d, refused "no room")
block_in v d rid (some room) =
    let f = v.member_faults in
    let (store, uids) = get_room_user_ids_cache f.cache_get f d.chat.members rid in
    let result = block_as v (with_members d store) rid uids in
    if not (eqb room.type 2) then (d, refused "no private group") else result

unfoldable pub room_block : Visitor → Desk → String → Desk × Answer
unfolding block_in
room_block v d rid =
    let result = block_in v d rid (get_room_by_rid v.faults d rid) in
    if rid == ""
    then (d, refused "bad parameter")
    else if reject_if_room_dissolved v.faults d rid
    then (d, refused "dissolved")
    else result

unfoldable pub room_unblock : Visitor → Desk → String → Desk × Answer
room_unblock v d rid =
    if rid == ""
    then (d, refused "bad parameter")
    else if reject_if_room_dissolved v.faults d rid
    then (d, refused "dissolved")
    else written v d (with_room_blocks d (unblock_room v.uid rid v.now d.chat.members.room_blocks))

block_user_as : Visitor → Desk → String → String → Option (List String) → Desk × Answer
block_user_as v d rid target none = (d, refused "no room")
block_user_as v d rid target (some uids) =
    if is_empty uids
    then (d, refused "no room")
    else if not (elem v.uid uids)
    then (d, refused "no member")
    else if not (elem target uids)
    then (d, refused "target is no member")
    else written v d
        (with_user_blocks d (block_user_in_room v.uid rid target d.chat.members.user_blocks))

unfoldable pub room_block_user : Visitor → Desk → String → String → Desk × Answer
unfolding block_user_as
room_block_user v d rid target =
    let f = v.member_faults in
    let (store, uids) = get_room_user_ids_cache f.cache_get f d.chat.members rid in
    let result = block_user_as v (with_members d store) rid target uids in
    if rid == "" || target == ""
    then (d, refused "bad parameter")
    else if reject_if_room_dissolved v.faults d rid
    then (d, refused "dissolved")
    else if target == v.uid
    then (d, refused "oneself")
    else result

unfoldable pub room_unblock_user : Visitor → Desk → String → String → Desk × Answer
room_unblock_user v d rid target =
    if rid == "" || target == ""
    then (d, refused "bad parameter")
    else if reject_if_room_dissolved v.faults d rid
    then (d, refused "dissolved")
    else written v d (
        with_user_blocks d (unblock_user_in_room v.uid rid target v.now d.chat.members.user_blocks))
