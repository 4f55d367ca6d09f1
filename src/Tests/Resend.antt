-- ===== src/Tests/Resend.antt =====
-- Concrete runs of the theorems on resending.
use cc_im_server.Prelude.{
  String, ℕ, true, false, some, List, [], ◌∷◌, ◌≡◌, refl, arith, if◌then◌else◌, ◌==◌, not, ◌&&◌,
  is_empty, ◌⊎◌, ◌<◌,
}
use cc_im_server.Delivery.Store.{Store, RoomMessage}
use cc_im_server.Delivery.Node.{AckCheck}
use cc_im_server.Resend.Rows.{AckRow, state_of, first_ack}
use cc_im_server.Resend.Room.{
  CheckFaults, ack_check_write, handle_room_message_ack_check,
  handle_room_message_withdraw_ack_check,
}
use cc_im_server.Resend.Outcome.{check_lem, resends, gives_up}
use cc_im_server.Resend.Settled.{Step, here, then_step, Reach-is_settled}
use cc_im_server.Resend.FileStatus.{FileFaults, FileStatusUpdateAckCheck, Keys}

abbrev message : RoomMessage
message = record {
  mid = "m1";
  rid = "r";
  sender_uid = "ann";
  seq_id = 4;
  state = 1;
  delete_time = 0;
  withdraw_time = 0;
  contents = [];
}

abbrev store : Store
store = record {
  messages = message ∷ [];
  room_users = [];
  room_blocks = [];
  user_blocks = [];
  acks = [];
  withdraw_acks = [];
  mentions = [];
  user_ids_cache = [];
  presence = [];
}

abbrev row : ℕ → AckRow
row state = record {
  rid = "r";
  uid = "bob";
  mid = "m1";
  seq_id = 4;
  state = state;
  retry_count = 0;
  last_try_time = 0;
  confirmed_time = 0;
  update_time = 0;
  delete_time = 0;
}

abbrev faults : CheckFaults
faults = record {
  ack_query = false;
  state_update = false;
  publish = false;
  retry_update = false;
  quic_queue_client = true;
}

abbrev check : AckCheck
check = record { rid = "r"; uid = "bob"; mid = "m1"; seq_id = 4; retry_count = 0 }

abbrev rows : List AckRow
rows = row 0 ∷ []

check_lem_example :
    let room = handle_room_message_ack_check faults store 9 rows check in
    let withdraw = handle_room_message_withdraw_ack_check faults store 9 rows check in
    ((is_empty room.resent ≡ not (resends faults rows check))
      × ((m u : String)
          → state_of m u room.rows ≡ (
              if gives_up faults rows check && "m1" == m && "bob" == u
              then some 2
              else state_of m u rows)))
    × ((is_empty withdraw.resent ≡ not (resends faults rows check))
        × ((m u : String)
            → state_of m u withdraw.rows ≡ (
                if gives_up faults rows check && "m1" == m && "bob" == u
                then some 2
                else state_of m u rows)))
check_lem_example = check_lem faults store 9 rows check

pending : state_of "m1" "bob" rows ≡ some 0
unfolding state_of first_ack ◌==◌
pending = refl

abbrev settled : List AckRow
settled = row 1 ∷ []

is_confirmed : state_of "m1" "bob" settled ≡ some 1
unfolding state_of first_ack ◌==◌
is_confirmed = refl

-- A check of the last retry, which has read the row before the confirmation.
abbrev last_check : AckCheck
last_check = record check { retry_count = 3 }

Reach-is_settled_example :
    let late = (ack_check_write faults store 9 settled last_check (some (row 0))).rows in
    (state_of "m1" "bob" late ≡ state_of "m1" "bob" settled)
    ⊎ ((state_of "m1" "bob" late ≡ some 2) × (3 < 5))
Reach-is_settled_example =
    Reach-is_settled store 5 settled
      (ack_check_write faults store 9 settled last_check (some (row 0))).rows "m1" "bob"
      (ground (arith, is_confirmed))
      (then_step here (Step.check_step faults 9 settled last_check (some (row 0)) (omega arith)))

abbrev no_faults : FileFaults
no_faults = record {
  redis_get = false;
  redis_delete = false;
  publish_resend = false;
  publish_next = false;
  quic_queue_client = true;
}

abbrev file_check : FileStatusUpdateAckCheck
file_check = record {
  rid = "r";
  uid = "ann";
  client_cid = "c";
  client_mid = "cm";
  mid = "m";
  cid = "ci";
  retry_count = 0;
}

abbrev keys : Keys
keys = ("file_status_update:ack:c", "1") ∷ []
