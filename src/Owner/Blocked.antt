-- ===== src/Owner/Blocked.antt =====
-- http/handler/room/room.go: what a block, and its end, mean for the delivery of messages.
use cc_im_server.Prelude.{
  String, ℕ, Bool, true, false, not, ◌&&◌, ◌||◌, some, List, [], ◌∷◌, ◌==◌, eqb, map, filter, elem,
  ◌≡◌, ◌≢◌, ap, ◌∙◌, arith, ==_iff, ==_refl, Option-cases, Bool-cases, inl, inr,
}
use cc_im_server.Delivery.Store.{
  Faults, RoomMessage, RoomUserBlockUser, get_room_message_by_mid, get_room_user_ids_cache,
  get_uids_who_blocked_user_in_room,
}
use cc_im_server.Delivery.Recipients.{is_wanted}
use cc_im_server.Delivery.Prepare.{failed, members_of, prepare_room_message_notify}
use cc_im_server.Delivery.Acks.{get_cache-KeepsTables}
use cc_im_server.Delivery.Fanout.{Groups, IsOrder, reaches}
use cc_im_server.Delivery.Send.{
  Message, send, send_lem, is_withdraw, mid_of, include_list, exclude_list,
}
use cc_im_server.Join.Desk.{Desk, Visitor}
use cc_im_server.Owner.Handlers.{done}
use cc_im_server.Owner.Blocks.{
  is_user_block, block_user_in_room, unblock_user_in_room, room_block_user, room_unblock_user,
}

-- Whether a user blocks another in a room.
abbrev pub blocks_user : List RoomUserBlockUser → String → String → String → Bool
blocks_user bs rid target uid = elem uid (
    map (λ b. b.uid)
      (filter (λ b. b.rid == rid && b.target_uid == target && eqb b.delete_time 0) bs))

blocks-block :
    (u r t rid target uid : String) (bs : List RoomUserBlockUser)
    → blocks_user (block_user_in_room u r t bs) rid target uid
      ≡ ((u == uid && r == rid && t == target) || blocks_user bs rid target uid)
unfolding block_user_in_room
blocks-block u r t rid target uid [] = ground arith
blocks-block u r t rid target uid (b ∷ bs) = elim (Bool-cases (is_user_block u r t b)) [
  | inl same ↦
      let a : b.uid ≡ u = (==_iff b.uid u).0 (ground (arith, same)) in
      let k : b.rid ≡ r = (==_iff b.rid r).0 (ground (arith, same)) in
      let g : b.target_uid ≡ t = (==_iff b.target_uid t).0 (ground (arith, same)) in
      ground (arith, same, ap (λ x. x == uid) a, ap (λ x. x == rid) k, ap (λ x. x == target) g)
  | inr other ↦ ground (arith, other, blocks-block u r t rid target uid bs)
]

blocks-unblock :
    (u r t rid target uid : String) (now : ℕ) (bs : List RoomUserBlockUser)
    → eqb now 0 ≡ false
    → blocks_user (unblock_user_in_room u r t now bs) rid target uid
      ≡ (not (u == uid && r == rid && t == target) && blocks_user bs rid target uid)
unfolding unblock_user_in_room
blocks-unblock u r t rid target uid now [] later = ground arith
blocks-unblock u r t rid target uid now (b ∷ bs) later =
    let ih = blocks-unblock u r t rid target uid now bs later in
    elim (Bool-cases (is_user_block u r t b)) [
      | inl same ↦
          let a : b.uid ≡ u = (==_iff b.uid u).0 (ground (arith, same)) in
          let k : b.rid ≡ r = (==_iff b.rid r).0 (ground (arith, same)) in
          let g : b.target_uid ≡ t = (==_iff b.target_uid t).0 (ground (arith, same)) in
          ground (
            arith,
            same,
            later,
            ih,
            ap (λ x. x == uid) a,
            ap (λ x. x == rid) k,
            ap (λ x. x == target) g,
          )
      | inr other ↦ ground (
        arith,
        other,
        later,
        ih,
        ==_iff b.uid u,
        ==_iff b.rid r,
        ==_iff b.target_uid t,
        ==_iff b.uid uid,
        ==_iff b.rid rid,
        ==_iff b.target_uid target,
        ==_iff u uid,
        ==_iff r rid,
        ==_iff t target,
      )
    ]

block_user_rows :
    (v : Visitor) (d : Desk) (rid target : String)
    → (room_block_user v d rid target).1 ≡ done
    → (room_block_user v d rid target).0.chat.members.user_blocks
      ≡ block_user_in_room v.uid rid target d.chat.members.user_blocks
unfolding room_block_user
block_user_rows v d rid target h =
    let f = v.member_faults in
    let read = get_room_user_ids_cache f.cache_get f d.chat.members rid in
    let keeps = get_cache-KeepsTables f.cache_get f d.chat.members rid in
    let kept = ap (λ x. block_user_in_room v.uid rid target x.user_blocks) keeps in
    elim (Option-cases read.1) [
      | inl e ↦ absurd (ground (arith, e, h))
      | inr (uids, e) ↦ ground (arith, e, h, kept)
    ]

unblock_user_rows :
    (v : Visitor) (d : Desk) (rid target : String)
    → (room_unblock_user v d rid target).1 ≡ done
    → (room_unblock_user v d rid target).0.chat.members.user_blocks
      ≡ unblock_user_in_room v.uid rid target v.now d.chat.members.user_blocks
unfolding room_unblock_user
unblock_user_rows v d rid target h = ground (arith, h)

-- A block that succeeds adds that the user blocks the target in the room, and an unblock that
-- succeeds, with the clock not at 0, takes it away; nothing else changes of who blocks whom where.
pub blocks_lem :
    (v : Visitor) (d d' : Desk) (rid target r t uid : String)
    → eqb v.now 0 ≡ false
    → (room_block_user v d rid target).1 ≡ done
    → (room_unblock_user v d' rid target).1 ≡ done
    → (elem uid
          (get_uids_who_blocked_user_in_room (room_block_user v d rid target).0.chat.members r t)
        ≡ ((v.uid == uid && rid == r && target == t)
            || elem uid (get_uids_who_blocked_user_in_room d.chat.members r t)))
      × (elem uid (
            get_uids_who_blocked_user_in_room
              (room_unblock_user v d' rid target).0.chat.members
              r
              t)
          ≡ (not (v.uid == uid && rid == r && target == t)
              && elem uid (get_uids_who_blocked_user_in_room d'.chat.members r t)))
unfolding get_uids_who_blocked_user_in_room
blocks_lem v d d' rid target r t uid later blocked unblocked = (
  ap (λ bs. blocks_user bs r t uid) (block_user_rows v d rid target blocked)
      ∙ blocks-block v.uid rid target r t uid d.chat.members.user_blocks,
  ap (λ bs. blocks_user bs r t uid) (unblock_user_rows v d' rid target unblocked)
      ∙ blocks-unblock v.uid rid target r t uid v.now d'.chat.members.user_blocks later,
)

-- After a user has blocked another in a room, no message of the other in that room reaches the user
-- on any node, if it is found, its preparation does not fail, the query of the blocks succeeds, and
-- no publication fails.
pub blocked_not_reached :
    (v : Visitor) (d : Desk) (rid target : String) (f : Faults) (order : Groups → List String)
    (m : Message) (rcm : RoomMessage) (ids : List String)
    → (room_block_user v d rid target).1 ≡ done
    → is_withdraw m ≡ false
    → mid_of m ≢ ""
    → get_room_message_by_mid (room_block_user v d rid target).0.chat.members (mid_of m) ≡ some rcm
    → rcm.rid ≡ rid
    → rcm.sender_uid ≡ target
    → (members_of f (room_block_user v d rid target).0.chat.members rcm.rid).1 ≡ some ids
    → (prepare_room_message_notify f
        (room_block_user v d rid target).0.chat.members
        (mid_of m)
        (include_list m)
        (exclude_list m)).1
      ≢ failed
    → IsOrder order
    → ((n : String) → f.publish n ≡ false)
    → f.user_blocks_query ≡ false
    → (n : String)
    → reaches n v.uid (send f (room_block_user v d rid target).0.chat.members order m).1.0 ≡ false
blocked_not_reached v d rid target f order m rcm ids blocked w named found at by members ok h pub_ok
      query n =
    let s = (room_block_user v d rid target).0.chat.members in
    let blocks : elem v.uid (get_uids_who_blocked_user_in_room s rcm.rid rcm.sender_uid) ≡ true =
      ap (λ x. elem v.uid (get_uids_who_blocked_user_in_room s x rcm.sender_uid)) at
      ∙ ap (λ x. elem v.uid (get_uids_who_blocked_user_in_room s rid x)) by
      ∙ (unfold get_uids_who_blocked_user_in_room in
          ap (λ bs. blocks_user bs rid target v.uid) (block_user_rows v d rid target blocked)
          ∙ blocks-block v.uid rid target rid target v.uid d.chat.members.user_blocks
          ∙ ground (arith, ==_refl v.uid, ==_refl rid, ==_refl target)) in
    let unwanted : is_wanted f s rcm (include_list m) (exclude_list m) v.uid ≡ false =
      unfold is_wanted in ground (arith, query, blocks) in
    send_lem f s order m rcm ids w named found members ok h pub_ok n v.uid
    ∙ ground (arith, unwanted)
