-- ===== src/Tests/Rooms.antt =====
-- Concrete runs of the theorems on blocks and on dissolved rooms.
use cc_im_server.Prelude.{
  true, false, some, [], ◌∷◌, ◌≡◌, ◌≢◌, refl, arith, ◌==◌, ◌&&◌, ◌||◌, not, eqb, elem,
}
use cc_im_server.Prelude.Assoc.{lookup}
use cc_im_server.Delivery.Store
use cc_im_server.Delivery.Store.{
  get_room_user_ids_cache, get_room_message_by_mid, get_uids_who_blocked_room,
  get_uids_who_blocked_user_in_room,
}
use cc_im_server.Delivery.Prepare.{
  failed, prepared, members_of, commit_acks, prepare_room_message_notify,
}
use cc_im_server.Delivery.Recipients.{
  recipients_of, drop_blockers, filter_room_recipients, exclude_of,
}
use cc_im_server.Delivery.Fanout.{reaches}
use cc_im_server.Delivery.Send.{Message, send}
use cc_im_server.Mute.State.{RoomUser, get_room_user}
use cc_im_server.Chat.Send.{sent, handler_room_message}
use cc_im_server.Join.Desk.{Desk, get_room_by_rid}
use cc_im_server.Owner.Handlers.{
  done, reject_if_room_dissolved, room_owner_transfer, room_user_role_update, room_member_kick,
  room_leave,
}
use cc_im_server.Owner.Blocks.{
  block_user_in_room, room_block, room_unblock, room_block_user, room_unblock_user,
}
use cc_im_server.Owner.Blocked.{blocks_lem, blocked_not_reached}
use cc_im_server.Owner.RoomBlocks.{room_blocks_lem}
use cc_im_server.Owner.Dissolve.{room_dissolve}
use cc_im_server.Owner.Dissolved.{known_states, dissolve_lem}
use cc_im_server.Tests.Delivery.{healthy, keys_of, keys_of-IsOrder, m1_named}
use cc_im_server.Tests.Chat.{ann as sender, hello, room as chat_room}
use cc_im_server.Tests.Join.{desk, ann, room}

-- A message of bob in a room that ann is in with him.
abbrev hall : Desk
hall = record desk {
  chat = record desk.chat {
    rooms = chat_room ∷ [];
    members = record desk.chat.members {
      messages =
          record {
            mid = "m1";
            rid = "r";
            sender_uid = "bob";
            seq_id = 1;
            state = 1;
            delete_time = 0;
            withdraw_time = 0;
            contents = [];
          }
          ∷ [];
      user_ids_cache = ("r", "ann" ∷ "bob" ∷ "carol" ∷ []) ∷ [];
    };
  };
}

abbrev cellar : Desk
cellar = record hall { rooms = record room { type = 2 } ∷ [] }

late : eqb ann.now 0 ≡ false
late = refl

bob_blocked : (room_block_user ann hall "r" "bob").1 ≡ done
unfolding room_block_user ◌==◌ reject_if_room_dissolved get_room_user_ids_cache lookup
bob_blocked = refl

bob_unblocked : (room_unblock_user ann hall "r" "bob").1 ≡ done
unfolding room_unblock_user ◌==◌ reject_if_room_dissolved
bob_unblocked = refl

blocks_lem_example :
    (elem "ann" (
        get_uids_who_blocked_user_in_room
          (room_block_user ann hall "r" "bob").0.chat.members
          "r"
          "bob")
      ≡ (("ann" == "ann" && "r" == "r" && "bob" == "bob")
          || elem "ann" (get_uids_who_blocked_user_in_room hall.chat.members "r" "bob")))
    × (elem "ann" (
          get_uids_who_blocked_user_in_room
            (room_unblock_user ann hall "r" "bob").0.chat.members
            "r"
            "bob")
        ≡ (not ("ann" == "ann" && "r" == "r" && "bob" == "bob")
            && elem "ann" (get_uids_who_blocked_user_in_room hall.chat.members "r" "bob")))
blocks_lem_example =
    blocks_lem ann hall hall "r" "bob" "r" "bob" "ann" late bob_blocked bob_unblocked

room_blocked : (room_block ann cellar "r").1 ≡ done
unfolding room_block ◌==◌ reject_if_room_dissolved get_room_by_rid get_room_user_ids_cache lookup
room_blocked = refl

room_unblocked : (room_unblock ann cellar "r").1 ≡ done
unfolding room_unblock ◌==◌ reject_if_room_dissolved
room_unblocked = refl

room_blocks_lem_example :
    (elem "ann" (get_uids_who_blocked_room (room_block ann cellar "r").0.chat.members "r") ≡ (
      ("ann" == "ann" && "r" == "r")
      || elem "ann" (get_uids_who_blocked_room cellar.chat.members "r")))
    × (elem "ann" (get_uids_who_blocked_room (room_unblock ann cellar "r").0.chat.members "r") ≡ (
        not ("ann" == "ann" && "r" == "r")
        && elem "ann" (get_uids_who_blocked_room cellar.chat.members "r")))
room_blocks_lem_example =
    room_blocks_lem ann cellar cellar "r" "r" "ann" late room_blocked room_unblocked

gone : (room_dissolve ann hall "r").1 ≡ done
unfolding room_dissolve ◌==◌ get_room_by_rid get_room_user
gone = refl

abbrev blocked : Store.Store
blocked = (room_block_user ann hall "r" "bob").0.chat.members

abbrev message : Store.RoomMessage
message = record {
  mid = "m1";
  rid = "r";
  sender_uid = "bob";
  seq_id = 1;
  state = 1;
  delete_time = 0;
  withdraw_time = 0;
  contents = [];
}

found : get_room_message_by_mid blocked "m1" ≡ some message
unfolding get_room_message_by_mid room_block_user ◌==◌ reject_if_room_dissolved
    get_room_user_ids_cache lookup
found = refl

members : (members_of healthy blocked "r").1 ≡ some ("ann" ∷ "bob" ∷ "carol" ∷ [])
unfolding members_of get_room_user_ids_cache lookup room_block_user ◌==◌ reject_if_room_dissolved
members = refl

prepared_carol :
    (prepare_room_message_notify healthy blocked "m1" [] []).1 ≡ prepared ("carol" ∷ [])
unfolding prepare_room_message_notify ◌==◌ get_room_message_by_mid room_block_user
    reject_if_room_dissolved get_room_user_ids_cache lookup members_of commit_acks recipients_of
    drop_blockers filter_room_recipients exclude_of get_uids_who_blocked_room
    get_uids_who_blocked_user_in_room block_user_in_room
prepared_carol = refl

not_failed : (prepare_room_message_notify healthy blocked "m1" [] []).1 ≢ failed
not_failed = λ e. ground (arith, e, prepared_carol)

blocked_not_reached_example :
    reaches "n1" "ann" (send healthy blocked keys_of (Message.room_message_notify "m1")).1.0 ≡ false
blocked_not_reached_example =
    blocked_not_reached ann hall "r" "bob" healthy keys_of (Message.room_message_notify "m1")
      message ("ann" ∷ "bob" ∷ "carol" ∷ []) bob_blocked refl m1_named found refl refl members
      not_failed keys_of-IsOrder (λ n. refl) refl "n1"

known : known_states hall.chat.rooms ≡ true
unfolding known_states
known = refl

dissolve_lem_example :
    ((u : RoomUser) × (get_room_user ann.mute_faults hall.chat.mute "r" "ann" ≡ some u)
      × (eqb u.role 2 ≡ true))
    × ((room_member_kick ann (room_dissolve ann hall "r").0 "r" "bob").1 ≢ done)
    × ((room_owner_transfer ann (room_dissolve ann hall "r").0 "r" "bob").1 ≢ done)
    × ((room_user_role_update ann (room_dissolve ann hall "r").0 "r" "bob" 1).1 ≢ done)
    × ((room_leave ann (room_dissolve ann hall "r").0 "r").1 ≢ done)
    × ((handler_room_message sender (room_dissolve ann hall "r").0.chat hello).1 ≢ sent "m9")
dissolve_lem_example = dissolve_lem ann ann hall "r" "bob" 1 sender hello "m9" gone known refl refl
