-- ===== src/Owner/RoomBlocks.antt =====
-- http/handler/room/room.go: what the block of a whole room, and its end, change.
use cc_im_server.Prelude.{
  String, ℕ, Bool, false, not, ◌&&◌, ◌||◌, List, [], ◌∷◌, ◌==◌, eqb, map, filter, elem, ◌≡◌, ap,
  ◌∙◌, arith, ==_iff, Option-cases, Bool-cases, inl, inr,
}
use cc_im_server.Delivery.Store.{UserRoomBlock, get_room_user_ids_cache, get_uids_who_blocked_room}
use cc_im_server.Delivery.Acks.{get_cache-KeepsTables}
use cc_im_server.Join.Desk.{Desk, Visitor, get_room_by_rid}
use cc_im_server.Owner.Handlers.{done}
use cc_im_server.Owner.Blocks.{is_block, block_room, unblock_room, room_block, room_unblock}

-- Whether a user blocks a room.
abbrev pub blocks_whole : List UserRoomBlock → String → String → Bool
blocks_whole bs rid uid =
    elem uid (map (λ b. b.uid) (filter (λ b. b.rid == rid && eqb b.delete_time 0) bs))

whole-block :
    (u r rid uid : String) (bs : List UserRoomBlock)
    → blocks_whole (block_room u r bs) rid uid ≡ ((u == uid && r == rid) || blocks_whole bs rid uid)
unfolding block_room
whole-block u r rid uid [] = ground arith
whole-block u r rid uid (b ∷ bs) = elim (Bool-cases (is_block u r b)) [
  | inl same ↦
      let a : b.uid ≡ u = (==_iff b.uid u).0 (ground (arith, same)) in
      let k : b.rid ≡ r = (==_iff b.rid r).0 (ground (arith, same)) in
      ground (arith, same, ap (λ x. x == uid) a, ap (λ x. x == rid) k)
  | inr other ↦ ground (arith, other, whole-block u r rid uid bs)
]

whole-unblock :
    (u r rid uid : String) (now : ℕ) (bs : List UserRoomBlock)
    → eqb now 0 ≡ false
    → blocks_whole (unblock_room u r now bs) rid uid
      ≡ (not (u == uid && r == rid) && blocks_whole bs rid uid)
unfolding unblock_room
whole-unblock u r rid uid now [] later = ground arith
whole-unblock u r rid uid now (b ∷ bs) later =
    let ih = whole-unblock u r rid uid now bs later in
    elim (Bool-cases (is_block u r b)) [
      | inl same ↦
          let a : b.uid ≡ u = (==_iff b.uid u).0 (ground (arith, same)) in
          let k : b.rid ≡ r = (==_iff b.rid r).0 (ground (arith, same)) in
          ground (arith, same, later, ih, ap (λ x. x == uid) a, ap (λ x. x == rid) k)
      | inr other ↦ ground (
        arith,
        other,
        later,
        ih,
        ==_iff b.uid u,
        ==_iff b.rid r,
        ==_iff b.uid uid,
        ==_iff b.rid rid,
        ==_iff u uid,
        ==_iff r rid,
      )
    ]

block_rows :
    (v : Visitor) (d : Desk) (rid : String)
    → (room_block v d rid).1 ≡ done
    → (room_block v d rid).0.chat.members.room_blocks
      ≡ block_room v.uid rid d.chat.members.room_blocks
unfolding room_block
block_rows v d rid h =
    let f = v.member_faults in
    let read = get_room_user_ids_cache f.cache_get f d.chat.members rid in
    let keeps = get_cache-KeepsTables f.cache_get f d.chat.members rid in
    let kept = ap (λ x. block_room v.uid rid x.room_blocks) keeps in
    elim (Option-cases (get_room_by_rid v.faults d rid)) [
      | inl g ↦ absurd (ground (arith, g, h))
      | inr (room, g) ↦ elim (Option-cases read.1) [
        | inl e ↦ absurd (ground (arith, g, e, h))
        | inr ([], e) ↦ absurd (ground (arith, g, e, h))
        | inr (u ∷ us, e) ↦ ground (arith, g, e, h, kept)
      ]
    ]

unblock_rows :
    (v : Visitor) (d : Desk) (rid : String)
    → (room_unblock v d rid).1 ≡ done
    → (room_unblock v d rid).0.chat.members.room_blocks
      ≡ unblock_room v.uid rid v.now d.chat.members.room_blocks
unfolding room_unblock
unblock_rows v d rid h = ground (arith, h)

-- A block of a room that succeeds adds that the user blocks the room, and an unblock that succeeds,
-- with the clock not at 0, takes it away; nothing else changes of who blocks which room.
pub room_blocks_lem :
    (v : Visitor) (d d' : Desk) (rid r uid : String)
    → eqb v.now 0 ≡ false
    → (room_block v d rid).1 ≡ done
    → (room_unblock v d' rid).1 ≡ done
    → (elem uid (get_uids_who_blocked_room (room_block v d rid).0.chat.members r)
        ≡ ((v.uid == uid && rid == r) || elem uid (get_uids_who_blocked_room d.chat.members r)))
      × (elem uid (get_uids_who_blocked_room (room_unblock v d' rid).0.chat.members r) ≡ (
          not (v.uid == uid && rid == r) && elem uid (get_uids_who_blocked_room d'.chat.members r)))
unfolding get_uids_who_blocked_room
room_blocks_lem v d d' rid r uid later blocked unblocked = (
  ap (λ bs. blocks_whole bs r uid) (block_rows v d rid blocked)
      ∙ whole-block v.uid rid r uid d.chat.members.room_blocks,
  ap (λ bs. blocks_whole bs r uid) (unblock_rows v d' rid unblocked)
      ∙ whole-unblock v.uid rid r uid v.now d'.chat.members.room_blocks later,
)
