-- ===== src/Join/Entered.antt =====
-- http/handler/room/room.go, joinRoomCommittedAfterValidation: what a join leaves in the tables.
use cc_im_server.Prelude.{
  String, ℕ, Bool, true, ◌&&◌, none, some, List, [], ◌∷◌, eqb, any, length, ◌≡◌, refl, ap, ◌∙◌,
  arith, ==_refl, Option-cases, inl, inr,
}
use cc_im_server.Prelude.Assoc.{lookup}
use cc_im_server.Delivery.Store.{
  Store, Faults, RoomUser, set_room_user_ids_cache, get_room_user_ids,
}
use cc_im_server.Chat.Tables.{Chat, ChatFaults}
use cc_im_server.Chat.Sequence.{get_room_seq_id, all_counted, is_above, get_room_seq_id-Handed}
use cc_im_server.Chat.Accepted.{number-tables}
use cc_im_server.Join.Desk.{Desk, JoinRoom, Visitor, with_chat}
use cc_im_server.Join.Enter.{
  is_member_row, restore_members, upsert_members, upsert_active_room_user_tx, add_member_count,
  join_row, join_tables, after_join, join_room_committed_after_validation,
}

-- Whether a user is in a room now.
abbrev pub is_member : String → String → List RoomUser → Bool
is_member rid uid us = any (λ u. is_member_row rid uid u && eqb u.delete_time 0) us

restore-is_member :
    (rid uid : String) (us : List RoomUser)
    → any (is_member_row rid uid) us ≡ true
    → is_member rid uid (restore_members rid uid us) ≡ true
unfolding restore_members
restore-is_member rid uid [] h = cc
restore-is_member rid uid (u ∷ us) h = ground (arith, h, restore-is_member rid uid us)

pub upsert-is_member :
    (rid uid : String) (us : List RoomUser) → is_member rid uid (upsert_members rid uid us) ≡ true
unfolding upsert_members
upsert-is_member rid uid us = ground (arith, restore-is_member rid uid us, ==_refl rid, ==_refl uid)

length-restore_members :
    (rid uid : String) (us : List RoomUser) → length (restore_members rid uid us) ≡ length us
unfolding restore_members
length-restore_members rid uid [] = refl
length-restore_members rid uid (u ∷ us) = ground (arith, length-restore_members rid uid us)

member_row :
    (rid uid : String) (us : List RoomUser)
    → is_member rid uid us ≡ true
    → any (is_member_row rid uid) us ≡ true
member_row rid uid [] h = cc
member_row rid uid (u ∷ us) h = ground (arith, h, member_row rid uid us)

-- A member who joins again gets no second row.
pub length-upsert_members :
    (rid uid : String) (us : List RoomUser)
    → is_member rid uid us ≡ true
    → length (upsert_members rid uid us) ≡ length us
unfolding upsert_members
length-upsert_members rid uid us h =
    ground (arith, member_row rid uid us h, length-restore_members rid uid us)

cache_keeps :
    (f : Faults) (s : Store) (rid : String)
    → (set_room_user_ids_cache f s rid).room_users ≡ s.room_users
unfolding set_room_user_ids_cache
cache_keeps f s rid = elim (Option-cases (get_room_user_ids f s rid)) [
  | inl e ↦ ground (arith, e)
  | inr (ids, e) ↦ ground (arith, e)
]

number_keeps :
    (f : ChatFaults) (s : Chat) (rid : String)
    → ((get_room_seq_id f s rid).0.members ≡ s.members)
      × ((get_room_seq_id f s rid).0.mute ≡ s.mute)
unfolding get_room_seq_id
number_keeps f s rid = elim (Option-cases (lookup rid s.seqs)) [
  | inl e ↦ (ground (arith, e), ground (arith, e))
  | inr (k, e) ↦ (ground (arith, e), ground (arith, e))
]

-- What a join with this number leaves.
abbrev pub IsJoined : Visitor → String → String → ℕ → Desk → Desk → Type 0
IsJoined v uid rid n d d' =
    (d'.chat.members.room_users ≡ upsert_members rid uid d.chat.members.room_users)
    × (d'.rooms ≡ add_member_count rid d.rooms)
    × (d'.chat.rows ≡ join_row v rid n ∷ d.chat.rows)
    × (d'.requests ≡ d.requests)

-- What a join that fails leaves.
abbrev pub IsUntouched : Desk → Desk → Type 0
IsUntouched d d' =
    (d'.chat.members.room_users ≡ d.chat.members.room_users)
    × (d'.rooms ≡ d.rooms)
    × (d'.chat.rows ≡ d.chat.rows)
    × (d'.requests ≡ d.requests)

module _ (v : Visitor) (d : Desk) (uid : String) (room : JoinRoom) where
  left_tables :
      (n : ℕ) (c : Chat) (requests_kept : c.members ≡ d.chat.members)
      (rows_kept : c.rows ≡ d.chat.rows)
      → IsJoined v uid room.rid n d
          (after_join v (join_tables v (with_chat d c) uid room.rid n).0 uid room.rid)
  unfolding after_join join_tables upsert_active_room_user_tx
  left_tables n c members rows =
      let t = (join_tables v (with_chat d c) uid room.rid n).0 in
      (
        cache_keeps v.member_faults t.chat.members room.rid
            ∙ ap (λ m. upsert_members room.rid uid m.room_users) members,
        refl,
        ap (λ r. join_row v room.rid n ∷ r) rows,
        refl,
      )

  pub join_leaves :
      (rsid : String)
      → (join_room_committed_after_validation v d uid room).1 ≡ some rsid
      → let d' = (join_room_committed_after_validation v d uid room).0 in
        (n : ℕ) × ((get_room_seq_id v.chat_faults d.chat room.rid).1 ≡ some n)
        × IsJoined v uid room.rid n d d'
        × (is_member room.rid uid d'.chat.members.room_users ≡ true)
  unfolding join_room_committed_after_validation
  join_leaves rsid h =
      let got = get_room_seq_id v.chat_faults d.chat room.rid in
      elim (Option-cases got.1) [
        | inl e ↦ absurd (ground (arith, e, h))
        | inr (n, e) ↦
            let (members, _) = number_keeps v.chat_faults d.chat room.rid in
            let (kept, _) = number-tables v.chat_faults d.chat room.rid in
            let all = left_tables n got.0 members (ap (λ p. p.0) kept) in
            let d' =
              after_join v (join_tables v (with_chat d got.0) uid room.rid n).0 uid room.rid in
            let step : (join_room_committed_after_validation v d uid room).0 ≡ d' =
              ground (arith, e, h) in
            let whole : IsJoined v uid room.rid n d
                (join_room_committed_after_validation v d uid room).0 =
              rw step all in
            (
              n,
              e,
              whole,
              ap (is_member room.rid uid) whole.0
                  ∙ upsert-is_member room.rid uid d.chat.members.room_users,
            )
      ]

  -- A join that returns a session makes the user a member, counts one member more in the room, and
  -- adds one system message, whose number is above those of all messages of the room, where no row
  -- had a number above the counter of its room.
  pub join_lem :
      (rsid : String)
      → all_counted d.chat.seqs d.chat.rows ≡ true
      → (join_room_committed_after_validation v d uid room).1 ≡ some rsid
      → let d' = (join_room_committed_after_validation v d uid room).0 in
        (n : ℕ) × (is_above room.rid n d.chat.rows ≡ true)
        × IsJoined v uid room.rid n d d'
        × (is_member room.rid uid d'.chat.members.room_users ≡ true)
  join_lem rsid counted h =
      let (n, e, all, member) = join_leaves rsid h in
      let (above, _) = get_room_seq_id-Handed v.chat_faults d.chat room.rid n counted e in
      (n, above, all, member)

  -- A join that fails changes no table, whatever the reason.
  pub join_failed :
      (join_room_committed_after_validation v d uid room).1 ≡ none
      → IsUntouched d (join_room_committed_after_validation v d uid room).0
  unfolding join_room_committed_after_validation
  join_failed h =
      let got = get_room_seq_id v.chat_faults d.chat room.rid in
      let (members, _) = number_keeps v.chat_faults d.chat room.rid in
      let (kept, _) = number-tables v.chat_faults d.chat room.rid in
      elim (Option-cases got.1) [
        | inl e ↦ (
          ground (arith, e, members),
          ground (arith, e),
          ground (arith, e, kept),
          ground (arith, e),
        )
        | inr (n, e) ↦ (
          ground (arith, e, h, members),
          ground (arith, e, h),
          ground (arith, e, h, kept),
          ground (arith, e, h),
        )
      ]

  pub join-requests : (join_room_committed_after_validation v d uid room).0.requests ≡ d.requests
  unfolding join_room_committed_after_validation after_join join_tables
  join-requests =
      let got = get_room_seq_id v.chat_faults d.chat room.rid in
      elim (Option-cases got.1) [ inl e ↦ ground (arith, e) | inr (n, e) ↦ ground (arith, e) ]
