-- ===== src/Tests/Chat.antt =====
-- Concrete runs of the theorems on sending and withdrawing room messages.
use cc_im_server.Prelude.{
  String, ℕ, List, eqb, ◌⊎◌, arith, true, false, some, none, [], ◌∷◌, ◌++◌, ◌≡◌, refl,
  if◌then◌else◌, ◌==◌, is_empty, ◌&&◌,
}
use cc_im_server.Prelude.Assoc.{lookup, insert}
use cc_im_server.Delivery.Store.{Store}
use cc_im_server.Mute.State.{MuteFaults, get_room_mute_config, get_room_user}
use cc_im_server.Mute.Rule.{is_user_muted_in_room, verdict_from, config_verdict}
use cc_im_server.Chat.Tables.{
  MessageRow, ContentRow, Room, Chat, ChatFaults, find_existing_room_message, get_room_by_rid_any,
  get_max_room_seq_id, find_row,
}
use cc_im_server.Chat.Sequence.{get_room_seq_id, all_counted, is_above}
use cc_im_server.Chat.Send.{
  ClientRoomMessage, Sender, sent, handler_room_message, send_tested, test_message, test_existing,
  test_room, test_mute, is_free, take_number, run_transaction, in_transaction, insert_message,
  row_of, content_rows,
}
use cc_im_server.Chat.Accepted.{tables, filled_cids, sent_lem}
use cc_im_server.Chat.Refilled.{is_refilled, all_of, client_cids}
use cc_im_server.Chat.Withdraw.{
  Withdrawer, withdrawn, get_room_message_by_rid_seq_id, handler_room_message_withdraw_request,
}
use cc_im_server.Chat.Withdrawn.{withdraws, live_of, withdraw_lem}

abbrev no_members : Store
no_members = record {
  messages = [];
  room_users = [];
  room_blocks = [];
  user_blocks = [];
  acks = [];
  withdraw_acks = [];
  mentions = [];
  user_ids_cache = [];
  presence = [];
}

abbrev pub room : Room
room = record { rid = "r"; state = 1; type = 1; allow_non_friend_chat = false; delete_time = 0 }

abbrev old_row : MessageRow
old_row = record {
  rid = "r";
  seq_id = 4;
  mid = "m4";
  client_mid = "c4";
  sender_uid = "bob";
  ip = "";
  client_create_time = 0;
  create_time = 5000;
  withdraw_time = 0;
  delete_time = 0;
}

abbrev chat : Chat
chat = record {
  rows = old_row ∷ [];
  contents =
      record {
        mid = "m4";
        client_cid = "y";
        type = "text";
        type_id = "";
        content = "hi";
        delete_time = 0;
      }
      ∷ [];
  rooms = room ∷ [];
  friends = [];
  members = no_members;
  mute = record { users = []; configs = []; versions = λ rid. none; counts = λ rid v uid w. none };
  seqs = [];
  file_updates = [];
  calls = [];
}

abbrev faults : ChatFaults
faults = record {
  existing_query = false;
  room_query = false;
  friends_query = false;
  seq_get = false;
  max_query = false;
  seq_init = false;
  seq_incr = false;
  tx_query = false;
  row_create = false;
  contents_create = false;
  commit = false;
  withdraw_update = false;
  contents_delete = false;
  cached_get = false;
  content_query = false;
  content_update = false;
  cached_delete = false;
}

abbrev mute_faults : MuteFaults
mute_faults = record {
  user_query = false;
  config_query = false;
  version_get = false;
  count_get = false;
  count_incr = false;
  version_incr = false;
  update = false;
  commit = false;
}

abbrev pub ann : Sender
ann = record {
  uid = "ann";
  ip = "";
  now = 6000;
  new_mid = "m5";
  json = record {
    parse_config = λ t. none;
    parse_users = λ t. none;
    parse_roles = λ t. none;
    show_users = λ us. "";
    show_roles = λ rs. "";
  };
  is_blank = λ t. false;
  faults = faults;
  mute_faults = mute_faults;
  member_faults = record {
    cache_get = false;
    cache_get_again = false;
    cache_get_mentions = false;
    cache_set = false;
    users_query = false;
    room_blocks_query = false;
    user_blocks_query = false;
    acks_create = false;
    acks_commit = false;
    mentions_create = false;
    presence_get = λ uid. false;
    publish = λ node. false;
  };
}

abbrev pub hello : ClientRoomMessage
hello = record {
  rid = "r";
  client_mid = "c5";
  create_time = 5900;
  contents = record { type = "text"; type_id = ""; client_cid = "x"; content = "hello" } ∷ [];
}

hello_sent : (handler_room_message ann chat hello).1 ≡ sent "m5"
unfolding handler_room_message send_tested test_message test_existing test_room test_mute is_free
    take_number get_room_seq_id run_transaction in_transaction insert_message row_of content_rows
    find_existing_room_message find_row get_room_by_rid_any get_max_room_seq_id
    is_user_muted_in_room verdict_from config_verdict get_room_mute_config get_room_user lookup
    insert ◌==◌
hello_sent = refl

all_counted_example : all_counted chat.seqs chat.rows ≡ true
unfolding lookup
all_counted_example = refl

sent_lem_example :
    let s' = (handler_room_message ann chat hello).0 in
    (n : ℕ) × (row : MessageRow) × (added : List ContentRow) × (old : List ContentRow) × (s'.rows
      ≡ row ∷ chat.rows)
    × ((row.rid ≡ "r")
        × (row.seq_id ≡ n)
        × (row.mid ≡ "m5")
        × (row.client_mid ≡ "c5")
        × (row.sender_uid ≡ "ann"))
    × (is_above hello.rid n chat.rows ≡ true)
    × (all_counted s'.seqs s'.rows ≡ true)
    × (s'.contents ≡ added ++ old)
    × (client_cids added ≡ filled_cids ann.is_blank hello.contents)
    × (is_empty added ≡ false)
    × (all_of "m5" added ≡ true)
    × (is_refilled "m5" chat.contents old ≡ true)
sent_lem_example = sent_lem ann chat hello "m5" all_counted_example hello_sent

abbrev bob : Withdrawer
bob = record {
  uid = "bob";
  now = 7000;
  new_cid = "w";
  show_withdraw = λ u v b. "{}";
  faults = faults;
  mute_faults = mute_faults;
}

row_found : get_room_message_by_rid_seq_id chat.rows "r" 4 ≡ some old_row
unfolding get_room_message_by_rid_seq_id find_row ◌==◌
row_found = refl

bob_withdrew : (handler_room_message_withdraw_request bob chat "r" 4).1 ≡ withdrawn "m4"
unfolding handler_room_message_withdraw_request get_room_message_by_rid_seq_id find_row ◌==◌
bob_withdrew = refl

withdraw_lem_example :
    let s' = (handler_room_message_withdraw_request bob chat "r" 4).0 in
    ((withdraws bob chat "r" old_row ≡ true)
      × ((rid' : String) (n : ℕ)
          → get_room_message_by_rid_seq_id s'.rows rid' n ≡ (
              if rid' == "r" && eqb n 4
              then some (record old_row { withdraw_time = 7000 })
              else get_room_message_by_rid_seq_id chat.rows rid' n))
      × ((c : ContentRow) × (c.type ≡ "user:withdraw")
          × (c.type_id ≡ "bob")
          × ((mid : String)
              → live_of mid s'.contents
                ≡ (if mid == "m4" then c ∷ [] else live_of mid chat.contents))))
    ⊎ ((withdraws bob chat "r" old_row ≡ false) × (tables s' ≡ tables chat))
withdraw_lem_example = withdraw_lem bob chat "r" 4 old_row (omega arith) row_found
