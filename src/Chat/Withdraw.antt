-- ===== src/Chat/Withdraw.antt =====
-- quic/handler/message_handler.go, handlerRoomMessageWithdrawRequest.
use cc_im_server.Prelude.{
  String, ℕ, ◌+◌, Bool, not, ◌&&◌, ◌||◌, Option, none, some, List, [], ◌∷◌, ◌==◌, eqb, ltb,
  if◌then◌else◌,
}
use cc_im_server.Mute.State.{MuteFaults, can_user_mute_in_room}
use cc_im_server.Chat.Tables.{MessageRow, ContentRow, Call, Chat, ChatFaults, find_row}

-- The user of the connection, the clock, and the id of the new content.
pub record Withdrawer : Type 0 where
  pub uid : String
  pub now : ℕ
  pub new_cid : String
  -- encoding/json for the content, from the user, the sender and whether they differ.
  pub show_withdraw : String → String → Bool → String
  pub faults : ChatFaults
  pub mute_faults : MuteFaults

pub data Withdrawal : Type 0 where
  not_found : Withdrawal
  forbidden : Withdrawal
  already : Withdrawal
  too_late : Withdrawal
  failed : Withdrawal
  withdrawn : (mid : String) → Withdrawal

abbrev pub is_numbered : String → ℕ → MessageRow → Bool
is_numbered rid seq_id r = r.rid == rid && eqb r.seq_id seq_id

unfoldable pub get_room_message_by_rid_seq_id : List MessageRow → String → ℕ → Option MessageRow
get_room_message_by_rid_seq_id rows rid seq_id = find_row (is_numbered rid seq_id) rows

unfoldable pub mark_withdrawn : String → ℕ → ℕ → List MessageRow → List MessageRow
mark_withdrawn rid seq_id now [] = []
mark_withdrawn rid seq_id now (r ∷ rows) =
    let rest = mark_withdrawn rid seq_id now rows in
    if is_numbered rid seq_id r then record r { withdraw_time = now } ∷ rest else r ∷ rest

unfoldable pub delete_contents : String → ℕ → List ContentRow → List ContentRow
delete_contents mid now [] = []
delete_contents mid now (c ∷ cs) =
    let rest = delete_contents mid now cs in
    if c.mid == mid then record c { delete_time = now } ∷ rest else c ∷ rest

unfoldable pub withdraw_content : Withdrawer → MessageRow → ContentRow
withdraw_content env r = record {
  mid = r.mid;
  client_cid = env.new_cid;
  type = "user:withdraw";
  type_id = env.uid;
  content = env.show_withdraw env.uid r.sender_uid (not (r.sender_uid == env.uid));
  delete_time = 0;
}

-- The transaction and the calls after it.
withdraw_row : Withdrawer → Chat → String → ℕ → MessageRow → Chat × Withdrawal
withdraw_row env s rid seq_id r =
    let f = env.faults in
    let done : Chat = record s {
      rows = mark_withdrawn rid seq_id env.now s.rows;
      contents = withdraw_content env r ∷ delete_contents r.mid env.now s.contents;
      calls =
          Call.publish_withdraw r.mid
          ∷ Call.log_withdraw r.mid
          ∷ Call.invalidate_last_message rid
          ∷ s.calls;
    } in
    if f.withdraw_update || f.contents_delete || f.contents_create || f.commit
    then (s, failed)
    else (done, withdrawn r.mid)

-- `GetRoomUser` and the test of the role are those of `CanUserMuteInRoom`.
may_withdraw : Withdrawer → Chat → String → MessageRow → Bool
may_withdraw env s rid r =
    r.sender_uid == env.uid || can_user_mute_in_room env.mute_faults s.mute rid env.uid

withdraw_found : Withdrawer → Chat → String → ℕ → Option MessageRow → Chat × Withdrawal
unfolding withdraw_row may_withdraw
withdraw_found env s rid seq_id none = (s, not_found)
withdraw_found env s rid seq_id (some r) =
    let done = withdraw_row env s rid seq_id r in
    if not (may_withdraw env s rid r)
    then (s, forbidden)
    else if ltb 0 r.withdraw_time
    then (s, already)
    else if r.sender_uid == env.uid && ltb (r.create_time + 300000) env.now
    then (s, too_late)
    else done

unfoldable pub handler_room_message_withdraw_request :
    Withdrawer → Chat → String → ℕ → Chat × Withdrawal
unfolding withdraw_found
handler_room_message_withdraw_request env s rid seq_id =
    let found = get_room_message_by_rid_seq_id s.rows rid seq_id in
    if env.faults.existing_query then (s, not_found) else withdraw_found env s rid seq_id found
