-- ===== src/Chat/Send.antt =====
-- quic/handler/message_handler.go, handlerRoomMessage: the tests before the transaction and the
-- transaction, which other handlers may come between.
use cc_im_server.Prelude.{
  String, ℕ, Bool, true, false, not, ◌&&◌, ◌||◌, Option, none, some, List, [], ◌∷◌, ◌++◌, any, ◌==◌,
  eqb, if◌then◌else◌, is_empty,
}
use cc_im_server.Delivery.Store.{Store, Faults, get_room_user_ids_cache}
use cc_im_server.Mute.State.{Json, MuteFaults, touch_room_user_last_speak}
use cc_im_server.Mute.Frequency.{incr_room_message_frequency_count}
use cc_im_server.Mute.Rule.{
  Verdict, may_speak, muted, muted_time_range, muted_frequency, is_user_muted_in_room,
}
use cc_im_server.Chat.Tables.{
  MessageRow, ContentRow, Room, Call, Chat, ChatFaults, is_sent_as, find_existing_room_message,
  get_room_by_rid_any, check_friend_relation,
}
use cc_im_server.Chat.Sequence.{get_room_seq_id}
use cc_im_server.Chat.Updates.{ClientContent, process_cached_file_status_updates}

pub record ClientRoomMessage : Type 0 where
  pub rid : String
  pub client_mid : String
  pub create_time : ℕ
  pub contents : List ClientContent

-- The connection's user and address, the clock, and the message id that the row gets. The other
-- fields are the failures of the calls, and encoding/json and bytes.TrimSpace.
pub record Sender : Type 0 where
  pub uid : String
  pub ip : String
  pub now : ℕ
  pub new_mid : String
  pub json : Json
  pub is_blank : String → Bool
  pub faults : ChatFaults
  pub mute_faults : MuteFaults
  pub member_faults : Faults

-- What the sender is told: a code, or that the message is stored under this id.
pub data Outcome : Type 0 where
  rejected : (code : String) → Outcome
  duplicate : (mid : String) → Outcome
  sent : (mid : String) → Outcome

-- How the tests end: with an error code, with the id of a message that is already there, or with the
-- sequence number for the transaction.
pub data Tested : Type 0 where
  refuse : (code : String) → Tested
  known : (mid : String) → Tested
  go : (seq_id : ℕ) → Tested

abbrev call : Call → Chat → Chat
call c s = record s { calls = c ∷ s.calls }

unfoldable pub answer_duplicate : Sender → Chat → ClientRoomMessage → MessageRow → Chat
answer_duplicate env s m r =
    call (Call.deliver_to_sender r.mid)
      (process_cached_file_status_updates env.faults r.mid m.contents s)

unfoldable pub other_uid : String → List String → String
other_uid uid [] = ""
other_uid uid (u ∷ us) = let rest = other_uid uid us in if u == uid then rest else u

unfoldable pub take_number : Sender → Chat → String → Chat × Tested
take_number env s rid =
    let (s', number) = get_room_seq_id env.faults s rid in
    elim number [ none ↦ (s', refuse "SEND_FAILED") | some n ↦ (s', go n) ]

code_of : Verdict → String
code_of may_speak = ""
code_of muted = "MUTED"
code_of muted_time_range = "MUTED_TIME_RANGE"
code_of muted_frequency = "MUTED_FREQUENCY"

unfoldable pub is_free : Verdict → Bool
is_free may_speak = true
is_free v = false

unfoldable pub test_mute : Sender → Chat → String → Chat × Tested
unfolding code_of
test_mute env s rid =
    let verdict = is_user_muted_in_room env.json env.mute_faults s.mute env.now rid env.uid in
    let go_on = take_number env s rid in
    if is_free verdict then go_on else (s, refuse (code_of verdict))

-- The members of a private chat, with the state of the cache.
unfoldable pub test_friend : Sender → Chat → String → Store × Option (List String) → Chat × Tested
test_friend env s rid (store, none) = (record s { members = store }, refuse "SEND_FAILED")
test_friend env s rid (store, some ids) =
    let s' : Chat = record s { members = store } in
    let other = other_uid env.uid ids in
    let go_on = test_mute env s' rid in
    if not (other == "") && not (check_friend_relation env.faults s' env.uid other)
    then (s', refuse "NOT_FRIEND")
    else go_on

unfoldable pub test_room : Sender → Chat → String → Option Room → Chat × Tested
test_room env s rid none = (s, refuse "INVALID_ROOM")
test_room env s rid (some room) =
    let mute = test_mute env s rid in
    let friend =
      test_friend env s rid
        (get_room_user_ids_cache env.member_faults.cache_get env.member_faults s.members rid) in
    if eqb room.state 0
    then (s, refuse "ROOM_DISSOLVED")
    else if eqb room.type 0 && not room.allow_non_friend_chat
    then friend
    else mute

unfoldable pub test_existing : Sender → Chat → ClientRoomMessage → Option MessageRow → Chat × Tested
test_existing env s m none = test_room env s m.rid (get_room_by_rid_any env.faults s m.rid)
test_existing env s m (some r) = (answer_duplicate env s m r, known r.mid)

-- Everything before the transaction.
unfoldable pub test_message : Sender → Chat → ClientRoomMessage → Chat × Tested
test_message env s m =
    let tested =
      test_existing env s m (find_existing_room_message s.rows m.rid m.client_mid env.uid) in
    if m.rid == "" || m.client_mid == ""
    then (s, refuse "INVALID_MESSAGE")
    else if env.faults.existing_query
    then (s, refuse "SEND_FAILED")
    else tested

-- The row that the transaction inserts.
unfoldable pub row_of : Sender → ClientRoomMessage → ℕ → MessageRow
row_of env m n = record {
  rid = m.rid;
  seq_id = n;
  mid = env.new_mid;
  client_mid = m.client_mid;
  sender_uid = env.uid;
  ip = env.ip;
  client_create_time = m.create_time;
  create_time = env.now;
  withdraw_time = 0;
  delete_time = 0;
}

-- The unique indexes of the table: on the id, on room and number, and on room, sender and client id.
abbrev pub conflicts : MessageRow → MessageRow → Bool
conflicts r x =
    x.mid == r.mid
    || (x.rid == r.rid && eqb x.seq_id r.seq_id)
    || is_sent_as r.rid r.client_mid r.sender_uid x

unfoldable pub content_rows : (String → Bool) → String → List ClientContent → List ContentRow
content_rows blank mid [] = []
content_rows blank mid (c ∷ cs) =
    let rest = content_rows blank mid cs in
    if c.client_cid == "" || blank c.content
    then rest
    else record {
      mid = mid;
      client_cid = c.client_cid;
      type = c.type;
      type_id = c.type_id;
      content = c.content;
      delete_time = 0;
    }
      ∷ rest

-- The calls after the commit.
unfoldable pub after_commit : Sender → Chat → ClientRoomMessage → Chat
after_commit env s m =
    let touched = touch_room_user_last_speak env.mute_faults s.mute m.rid env.uid env.now env.ip in
    let counted =
      incr_room_message_frequency_count env.json env.mute_faults touched env.now m.rid env.uid in
    let called : Chat = record s {
      mute = counted;
      calls =
          Call.deliver_to_sender env.new_mid
          ∷ Call.publish_room_message env.new_mid
          ∷ Call.bump_session m.rid env.now
          ∷ Call.ensure_receiver_session m.rid env.uid
          ∷ s.calls;
    } in
    process_cached_file_status_updates env.faults env.new_mid m.contents called

unfoldable pub insert_message : Sender → Chat → ClientRoomMessage → ℕ → Chat × Outcome
insert_message env s m n =
    let row = row_of env m n in
    let contents = content_rows env.is_blank env.new_mid m.contents in
    let stored : Chat = record s { rows = row ∷ s.rows; contents = contents ++ s.contents } in
    if env.faults.row_create || any (conflicts row) s.rows
    then (s, rejected "SEND_FAILED")
    else if is_empty contents
    then (s, rejected "EMPTY_CONTENT")
    else if env.faults.contents_create || env.faults.commit
    then (s, rejected "SEND_FAILED")
    else (after_commit env stored m, sent env.new_mid)

unfoldable pub in_transaction :
    Sender → Chat → ClientRoomMessage → ℕ → Option MessageRow → Chat × Outcome
in_transaction env s m n (some r) = (answer_duplicate env s m r, duplicate r.mid)
in_transaction env s m n none = insert_message env s m n

unfoldable pub run_transaction : Sender → Chat → ClientRoomMessage → ℕ → Chat × Outcome
run_transaction env s m n =
    let result =
      in_transaction env s m n (find_existing_room_message s.rows m.rid m.client_mid env.uid) in
    if env.faults.tx_query then (s, rejected "SEND_FAILED") else result

-- The handler when nothing comes between.
unfoldable pub send_tested : Sender → ClientRoomMessage → Chat × Tested → Chat × Outcome
send_tested env m (s, refuse code) = (s, rejected code)
send_tested env m (s, known mid) = (s, duplicate mid)
send_tested env m (s, go n) = run_transaction env s m n

-- The request lock of the source is left out: it is released at the end, and its result is not used.
unfoldable pub handler_room_message : Sender → Chat → ClientRoomMessage → Chat × Outcome
handler_room_message env s m = send_tested env m (test_message env s m)
