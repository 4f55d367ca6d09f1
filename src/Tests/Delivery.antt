-- ===== src/Tests/Delivery.antt =====
-- Concrete runs of the theorems on the delivery of room messages.
use cc_im_server.Prelude.{
  String, true, false, some, List, [], ◌∷◌, ◌++◌, map, ◌≡◌, ◌≢◌, refl, arith, if◌then◌else◌,
  ne_of_test, ◌==◌, elem, count, not, ◌&&◌,
}
use cc_im_server.Prelude.Assoc.{lookup, insert}
use cc_im_server.Connection.Registry.{ClientRegistry}
use cc_im_server.Connection.Stale.{client_of}
use cc_im_server.Delivery.Store.{
  Store, Faults, RoomMessage, RoomUser, get_room_message_by_mid, get_room_user_ids_cache,
  set_room_user_ids_cache, get_room_user_ids, get_uids_who_blocked_room,
  get_uids_who_blocked_user_in_room,
}
use cc_im_server.Delivery.Recipients.{
  recipients_of, is_wanted, filter_room_recipients, drop_blockers, exclude_of,
}
use cc_im_server.Delivery.Prepare.{
  failed, prepared, members_of, prepare_room_message_notify, ack_of, commit_acks, notify_members,
}
use cc_im_server.Delivery.Acks.{prepare_lem}
use cc_im_server.Delivery.Fanout.{Groups, IsOrder, reaches, goes_to}
use cc_im_server.Delivery.Send.{Message, send, send_lem}
use cc_im_server.Delivery.Node.{
  NodeFaults, handle_room_message_deliver, sent_uids, can_send, deliver_lem,
}

abbrev message : RoomMessage
message = record {
  mid = "m1";
  rid = "r";
  sender_uid = "ann";
  seq_id = 4;
  state = 1;
  delete_time = 0;
  withdraw_time = 0;
  contents = [];
}

abbrev member : String → RoomUser
member uid = record { rid = "r"; uid = uid; delete_time = 0 }

abbrev store : Store
store = record {
  messages = message ∷ [];
  room_users = member "ann" ∷ member "bob" ∷ [];
  room_blocks = [];
  user_blocks = [];
  acks = [];
  withdraw_acks = [];
  mentions = [];
  user_ids_cache = [];
  presence = ("bob", "n1") ∷ [];
}

abbrev pub healthy : Faults
healthy = record {
  cache_get = false;
  cache_get_again = false;
  cache_get_mentions = false;
  cache_set = false;
  users_query = false;
  room_blocks_query = false;
  user_blocks_query = false;
  acks_create = false;
  acks_commit = false;
  mentions_create = false;
  presence_get = λ uid. false;
  publish = λ node. false;
}

pub m1_named : ◌≢◌ {A = String} "m1" ""
unfolding ◌==◌
m1_named = ne_of_test "m1" "" refl

found : get_room_message_by_mid store "m1" ≡ some message
unfolding get_room_message_by_mid ◌==◌
found = refl

members : (members_of healthy store "r").1 ≡ some ("ann" ∷ "bob" ∷ [])
unfolding members_of get_room_user_ids_cache set_room_user_ids_cache get_room_user_ids lookup insert
    ◌==◌
members = refl

prepared_bob : (prepare_room_message_notify healthy store "m1" [] []).1 ≡ prepared ("bob" ∷ [])
unfolding prepare_room_message_notify get_room_message_by_mid notify_members members_of
    get_room_user_ids_cache set_room_user_ids_cache get_room_user_ids lookup insert commit_acks
    recipients_of filter_room_recipients drop_blockers exclude_of get_uids_who_blocked_room
    get_uids_who_blocked_user_in_room ◌==◌
prepared_bob = refl

prepare_lem_example :
    ((uid : String)
      → elem uid ("bob" ∷ [])
        ≡ (elem uid ("ann" ∷ "bob" ∷ []) && is_wanted healthy store message [] [] uid))
    × ((prepare_room_message_notify healthy store "m1" [] []).0.acks
        ≡ [] ++ map (ack_of healthy store message) ("bob" ∷ []))
prepare_lem_example =
    prepare_lem healthy store "m1" [] [] message m1_named found ("ann" ∷ "bob" ∷ []) ("bob" ∷ [])
      members prepared_bob

abbrev failing : Faults
failing = record healthy { acks_commit = true }

abbrev pub keys_of : Groups → List String
keys_of g = map (λ e. e.0) g

pub keys_of-IsOrder : IsOrder keys_of
unfolding lookup
keys_of-IsOrder [] k = refl
keys_of-IsOrder ((j, us) ∷ g) k = ground (arith, keys_of-IsOrder g k)

did_not_fail : (prepare_room_message_notify healthy store "m1" [] []).1 ≢ failed
did_not_fail = λ e. ground (arith, e, prepared_bob)

send_lem_example :
    reaches "n1" "bob" (send healthy store keys_of (Message.room_message_notify "m1")).1.0 ≡ (
      elem "bob" ("ann" ∷ "bob" ∷ [])
      && is_wanted healthy store message [] [] "bob"
      && goes_to healthy store "bob" "n1")
send_lem_example =
    send_lem healthy store keys_of (Message.room_message_notify "m1") message ("ann" ∷ "bob" ∷ [])
      refl m1_named found members did_not_fail keys_of-IsOrder (λ n. refl) "n1" "bob"

abbrev node_faults : NodeFaults
node_faults = record { send = λ c. false; publish_task = λ uid. false; queue_client = true }

abbrev registry : ClientRegistry
registry = ("bob", client_of "bob" "s1" 3) ∷ []

abbrev same : List String → List String
same us = us

deliver_lem_example :
    count "bob" (
      sent_uids
        (handle_room_message_deliver node_faults store registry same "m1" ("bob" ∷ "bob" ∷ [])))
    ≡ (if elem "bob" ("bob" ∷ "bob" ∷ [])
          && not ("bob" == "")
          && can_send node_faults registry "bob"
        then 1
        else 0)
deliver_lem_example =
    deliver_lem node_faults store registry same "m1" ("bob" ∷ "bob" ∷ []) message (λ us u. refl)
      m1_named found "bob"
