-- ===== src/Tests/Owner.antt =====
-- Concrete runs of the theorems on the owner of a room.
use cc_im_server.Prelude.{false, [], ◌∷◌, ◌≡◌, refl, ◌==◌}
use cc_im_server.Prelude.Assoc.{lookup}
use cc_im_server.Delivery.Store.{get_room_user_ids_cache}
use cc_im_server.Mute.State.{RoomUser, get_room_user}
use cc_im_server.Join.Desk.{Desk, get_room_by_rid, has_room_user}
use cc_im_server.Owner.Handlers.{
  done, reject_if_room_dissolved, transfer_room_owner, answer_transfer, room_owner_transfer,
  room_user_role_update, room_member_kick, room_leave,
}
use cc_im_server.Owner.Owned.{IsOwned, only_owner, is_in}
use cc_im_server.Owner.Kept.{users, owner_kept}
use cc_im_server.Owner.Transfers.{transfer_lem}
use cc_im_server.Tests.Join.{desk, ann}

abbrev bob_row : RoomUser
bob_row = record {
  rid = "r";
  uid = "bob";
  role = 0;
  mute_until = 0;
  mute_operator_uid = "";
  last_speak_time = 0;
  last_speak_ip = "";
  delete_time = 0;
}

-- The room of ann, with bob as a member.
abbrev hall : Desk
hall = record desk {
  chat = record desk.chat {
    mute = record desk.chat.mute { users = bob_row ∷ desk.chat.mute.users };
    members = record desk.chat.members { user_ids_cache = ("r", "ann" ∷ "bob" ∷ []) ∷ [] };
  };
}

hall-IsOwned : IsOwned "r" "ann" (users hall)
unfolding only_owner is_in ◌==◌
hall-IsOwned = (refl, refl)

bob_not_owner : ("bob" == "ann") ≡ false
unfolding ◌==◌
bob_not_owner = refl

owner_kept_example :
    IsOwned "r" "ann" (users (room_member_kick ann hall "r" "bob").0)
    × IsOwned "r" "ann" (users (room_leave ann hall "r").0)
    × IsOwned "r" "ann" (users (room_user_role_update ann hall "r" "bob" 1).0)
owner_kept_example = owner_kept ann hall "r" "ann" "bob" "bob" 1 refl bob_not_owner hall-IsOwned

given_to_bob : (room_owner_transfer ann hall "r" "bob").1 ≡ done
unfolding room_owner_transfer reject_if_room_dissolved get_room_by_rid has_room_user
    get_room_user_ids_cache transfer_room_owner answer_transfer get_room_user lookup ◌==◌
given_to_bob = refl

transfer_lem_example :
    (ann.uid ≡ "ann") × IsOwned "r" "bob" (users (room_owner_transfer ann hall "r" "bob").0)
transfer_lem_example = transfer_lem ann hall "r" "ann" "bob" hall-IsOwned given_to_bob

demoted : (room_user_role_update ann hall "r" "ann" 0).1 ≡ done
unfolding room_user_role_update reject_if_room_dissolved get_room_by_rid has_room_user
    get_room_user_ids_cache get_room_user lookup ◌==◌
demoted = refl
