-- ===== src/Chat/Accepted.antt =====
-- quic/handler/message_handler.go, handlerRoomMessage: what holds of a message that is stored, and
-- what of one that is refused.
use cc_im_server.Prelude.{
  String, ℕ, Bool, true, false, not, ◌||◌, Option, none, some, List, [], ◌∷◌, ◌++◌, map, filter,
  ◌==◌, eqb, is_empty, ◌≡◌, ◌⊎◌, refl, sym, ap, ◌∙◌, arith, ==_refl, Option-cases, inl, inr,
}
use cc_im_server.Prelude.Assoc.{lookup}
use cc_im_server.Delivery.Store.{get_room_user_ids_cache}
use cc_im_server.Mute.Rule.{may_speak, is_user_muted_in_room}
use cc_im_server.Chat.Tables.{
  MessageRow, ContentRow, Room, Chat, ChatFaults, find_existing_room_message, get_room_by_rid_any,
}
use cc_im_server.Chat.Sequence.{
  get_room_seq_id, all_counted, is_above, get_room_seq_id-Handed, get_room_seq_id-counted,
}
use cc_im_server.Chat.Updates.{ClientContent}
use cc_im_server.Chat.Refilled.{
  is_refilled, IsFilled, process_fills, refilled-split, all_of, client_cids, refilled-all_of,
}
use cc_im_server.Chat.Send.{
  Sender, ClientRoomMessage, rejected, sent, Tested, refuse, known, go, take_number, test_mute,
  test_friend, test_room, test_existing, test_message, row_of, insert_message, in_transaction,
  run_transaction, content_rows, send_tested, handler_room_message, after_commit,
}
use cc_im_server.Chat.Tested.{with_members, test_message-IsTested}

commit_fills :
    (env : Sender) (s : Chat) (m : ClientRoomMessage)
    → IsFilled env.new_mid s (after_commit env s m)
unfolding after_commit
commit_fills env s m = process_fills env.faults env.new_mid m.contents _

module _ (env : Sender) (t : Chat) (m : ClientRoomMessage) (n : ℕ) where
  transaction_sent :
      (mid : String)
      → (run_transaction env t m n).1 ≡ sent mid
      → ((run_transaction env t m n).0.rows ≡ row_of env m n ∷ t.rows)
        × ((run_transaction env t m n).0.seqs ≡ t.seqs)
        × (mid ≡ env.new_mid)
        × (is_empty (content_rows env.is_blank env.new_mid m.contents) ≡ false)
        × (is_refilled env.new_mid
              (content_rows env.is_blank env.new_mid m.contents ++ t.contents)
              (run_transaction env t m n).0.contents
            ≡ true)
  unfolding run_transaction in_transaction insert_message
  transaction_sent mid h =
      let stored : Chat = record t {
        rows = row_of env m n ∷ t.rows;
        contents = content_rows env.is_blank env.new_mid m.contents ++ t.contents;
      } in
      let (rows, seqs, filled) = commit_fills env stored m in
      elim (Option-cases (find_existing_room_message t.rows m.rid m.client_mid env.uid)) [
        | inl e ↦ (
          ground (arith, e, h, rows),
          ground (arith, e, h, seqs),
          ground (arith, e, h),
          ground (arith, e, h),
          ground (arith, e, h, filled),
        )
        | inr (r, e) ↦ absurd (ground (arith, e, h))
      ]

  transaction_rejected :
      (code : String)
      → (run_transaction env t m n).1 ≡ rejected code
      → (run_transaction env t m n).0 ≡ t
  unfolding run_transaction in_transaction insert_message
  transaction_rejected code h =
      elim (Option-cases (find_existing_room_message t.rows m.rid m.client_mid env.uid)) [
        | inl e ↦ ground (arith, e, h)
        | inr (r, e) ↦ ground (arith, e, h)
      ]

-- The message tables.
abbrev pub tables : Chat → List MessageRow × List ContentRow
tables s = (s.rows, s.contents)

pub number-tables :
    (f : ChatFaults) (s : Chat) (rid : String)
    → (tables (get_room_seq_id f s rid).0 ≡ tables s)
      × ((get_room_seq_id f s rid).0.calls ≡ s.calls)
unfolding get_room_seq_id
number-tables f s rid = elim (Option-cases (lookup rid s.seqs)) [
  | inl e ↦ (ground (arith, e), ground (arith, e))
  | inr (k, e) ↦ (ground (arith, e), ground (arith, e))
]

module _ (env : Sender) (rid : String) where
  mute-tables : (s : Chat) → tables (test_mute env s rid).0 ≡ tables s
  unfolding test_mute take_number
  mute-tables s = ground (arith, number-tables env.faults s rid)

  room-tables : (s : Chat) (o : Option Room) → tables (test_room env s rid o).0 ≡ tables s
  unfolding test_room test_friend
  room-tables s none = refl
  room-tables s (some room) =
      let cached =
        get_room_user_ids_cache env.member_faults.cache_get env.member_faults s.members rid in
      elim (Option-cases cached.1) [
        | inl e ↦ ground (arith, e, mute-tables s)
        | inr (ids, e) ↦ ground (arith, e, mute-tables s, mute-tables (with_members s cached.0))
      ]

is_known : Tested → Bool
is_known (refuse code) = false
is_known (known mid) = true
is_known (go n) = false

test-tables :
    (env : Sender) (s : Chat) (m : ClientRoomMessage)
    → is_known (test_message env s m).1 ≡ false
    → tables (test_message env s m).0 ≡ tables s
unfolding test_message test_existing is_known
test-tables env s m new =
    elim (Option-cases (find_existing_room_message s.rows m.rid m.client_mid env.uid)) [
      | inl e ↦ ground (arith, e, room-tables env m.rid s (get_room_by_rid_any env.faults s m.rid))
      | inr (r, e) ↦ ground (arith, e, new)
    ]

-- The client ids of the contents that are stored.
abbrev pub filled_cids : (String → Bool) → List ClientContent → List String
filled_cids blank cs =
    map (λ c. c.client_cid) (filter (λ c. not (c.client_cid == "" || blank c.content)) cs)

content_rows-all_of :
    (blank : String → Bool) (mid : String) (cs : List ClientContent)
    → (all_of mid (content_rows blank mid cs) ≡ true)
      × (client_cids (content_rows blank mid cs) ≡ filled_cids blank cs)
unfolding content_rows all_of
content_rows-all_of blank mid [] = (refl, refl)
content_rows-all_of blank mid (c ∷ cs) =
    let (one, two) = content_rows-all_of blank mid cs in
    (ground (arith, one, ==_refl mid), ground (arith, two))

is_empty-cids :
    (cs ds : List ContentRow) → client_cids cs ≡ client_cids ds → is_empty cs ≡ is_empty ds
is_empty-cids [] [] h = refl
is_empty-cids [] (d ∷ ds) h = absurd (ground (arith, h))
is_empty-cids (c ∷ cs) [] h = absurd (ground (arith, h))
is_empty-cids (c ∷ cs) (d ∷ ds) h = refl

Tested-cases :
    (r : Tested)
    → ((code : String) × (r ≡ refuse code))
      ⊎ ((mid : String) × (r ≡ known mid))
      ⊎ ((n : ℕ) × (r ≡ go n))
Tested-cases (refuse code) = inl (code, refl)
Tested-cases (known mid) = inr (inl (mid, refl))
Tested-cases (go n) = inr (inr (n, refl))

module _ (env : Sender) (s : Chat) (m : ClientRoomMessage) where
  went_on :
      (mid : String)
      → (handler_room_message env s m).1 ≡ sent mid
      → (n : ℕ) × ((test_message env s m).1 ≡ go n)
        × (handler_room_message env s m ≡ run_transaction env (test_message env s m).0 m n)
  unfolding handler_room_message send_tested
  went_on mid h = elim (Tested-cases (test_message env s m).1) [
    | inl (code, e) ↦ absurd (ground (arith, e, h))
    | inr (inl (k, e)) ↦ absurd (ground (arith, e, h))
    | inr (inr (n, e)) ↦ (n, e, ground (arith, e))
  ]

  add_counted :
      (n : ℕ) (q : List (String × ℕ)) (rows : List MessageRow)
      → lookup m.rid q ≡ some n
      → all_counted q rows ≡ true
      → all_counted q (row_of env m n ∷ rows) ≡ true
  unfolding row_of
  add_counted n q rows e h = ground (arith, e, h)

  -- Where no row has a number above the counter of its room: a message that is stored gets one row,
  -- with its room, sender and both ids and with a sequence number above those of all messages of its
  -- room, and still no row has a number above the counter of its room. One content is added for each
  -- content of the message that has a client id and is not blank, at least one, and all of them
  -- carry the message's id. No other content changes but for the text and file of contents that
  -- carry this id already.
  pub sent_lem :
      (mid : String)
      → all_counted s.seqs s.rows ≡ true
      → (handler_room_message env s m).1 ≡ sent mid
      → let s' = (handler_room_message env s m).0 in
        (n : ℕ) × (row : MessageRow) × (added : List ContentRow) × (old : List ContentRow)
        × (s'.rows ≡ row ∷ s.rows)
        × ((row.rid ≡ m.rid)
            × (row.seq_id ≡ n)
            × (row.mid ≡ mid)
            × (row.client_mid ≡ m.client_mid)
            × (row.sender_uid ≡ env.uid))
        × (is_above m.rid n s.rows ≡ true)
        × (all_counted s'.seqs s'.rows ≡ true)
        × (s'.contents ≡ added ++ old)
        × (client_cids added ≡ filled_cids env.is_blank m.contents)
        × (is_empty added ≡ false)
        × (all_of mid added ≡ true)
        × (is_refilled mid s.contents old ≡ true)
  unfolding row_of
  sent_lem mid bound h =
      let t = (test_message env s m).0 in
      let (n, gone, run) = went_on mid h in
      let ((store, number, _), _, _) = test_message-IsTested env s m n gone in
      let asked = with_members s store in
      let (rows, seqs, id, some_content, contents) =
        transaction_sent env t m n mid (sym (ap (λ r. r.1) run) ∙ h) in
      let same = test-tables env s m (ap is_known gone ∙ (unfold is_known in refl)) in
      let (above, counter) =
        get_room_seq_id-Handed env.faults asked m.rid n bound (ap (λ r. r.1) number) in
      let (_, kept) = get_room_seq_id-counted env.faults asked m.rid bound in
      let number_seqs = (get_room_seq_id env.faults asked m.rid).0.seqs in
      let here = ap (λ (r : Chat × Option ℕ). r.0.seqs) number in
      let new_seqs = ap (λ r. r.0.seqs) run ∙ seqs ∙ sym here in
      let new_rows = ap (λ r. r.0.rows) run ∙ rows ∙ ap (λ p. row_of env m n ∷ p.0) same in
      let new_contents = content_rows env.is_blank mid m.contents in
      let filled : is_refilled mid (new_contents ++ s.contents)
            (handler_room_message env s m).0.contents
          ≡ true =
        ap
          (λ i.
            is_refilled i (content_rows env.is_blank i m.contents ++ s.contents)
              (handler_room_message env s m).0.contents)
          id
        ∙ ap
            (λ p.
              is_refilled env.new_mid (content_rows env.is_blank env.new_mid m.contents ++ p.1)
                (handler_room_message env s m).0.contents)
            (sym same)
        ∙ ap
            (λ r.
              is_refilled env.new_mid
                (content_rows env.is_blank env.new_mid m.contents ++ t.contents) r.0.contents)
            run
        ∙ contents in
      let (added, old, parts, fresh, kept_old) =
        refilled-split mid new_contents s.contents (handler_room_message env s m).0.contents
          filled in
      let (ours, cids) = refilled-all_of mid new_contents added fresh in
      let (all, named) = content_rows-all_of env.is_blank mid m.contents in
      (
        n,
        row_of env m n,
        added,
        old,
        new_rows,
        (refl, refl, sym id, refl, refl),
        above,
        ap (λ q. all_counted q (handler_room_message env s m).0.rows) new_seqs
            ∙ ap (all_counted number_seqs) new_rows
            ∙ add_counted n number_seqs s.rows counter kept,
        parts,
        cids ∙ named,
        is_empty-cids added new_contents cids
            ∙ ap (λ i. is_empty (content_rows env.is_blank i m.contents)) id
            ∙ some_content,
        ours ∙ all,
        kept_old,
      )

  -- A message is stored only if the mute rules let its sender speak, and only in a room that is there
  -- and not dissolved.
  pub sent_allowed :
      (mid : String)
      → (handler_room_message env s m).1 ≡ sent mid
      → (is_user_muted_in_room env.json env.mute_faults s.mute env.now m.rid env.uid ≡ may_speak)
        × ((room : Room) × (get_room_by_rid_any env.faults s m.rid ≡ some room)
            × (eqb room.state 0 ≡ false))
  sent_allowed mid h =
      let (n, gone, run) = went_on mid h in
      let ((store, number, free), room, _) = test_message-IsTested env s m n gone in (free, room)

  -- A message that is refused leaves both message tables as they were, whatever the reason.
  pub rejected_lem :
      (code : String)
      → (handler_room_message env s m).1 ≡ rejected code
      → tables (handler_room_message env s m).0 ≡ tables s
  unfolding handler_room_message send_tested
  rejected_lem code h =
      let t = (test_message env s m).0 in
      elim (Tested-cases (test_message env s m).1) [
        | inl (c, e) ↦ ground (arith, e, test-tables env s m (rw e (unfold is_known in refl)))
        | inr (inl (k, e)) ↦ absurd (ground (arith, e, h))
        | inr (inr (n, e)) ↦ ground (
          arith,
          e,
          h,
          test-tables env s m (rw e (unfold is_known in refl)),
          transaction_rejected env t m n code,
        )
      ]
