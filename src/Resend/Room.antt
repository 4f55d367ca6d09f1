-- ===== src/Resend/Room.antt =====
-- queue/handlers.go and quic/handler/message_handler.go: the checks of the two tables and the
-- acknowledgements that clients send.
use cc_im_server.Prelude.{
  String, ℕ, Bool, true, false, not, Option, none, some, List, [], ◌∷◌, filter, is_empty, eqb, leb,
  if◌then◌else◌,
}
use cc_im_server.Delivery.Store.{
  Store, RoomMessage, get_room_message_by_mid, get_room_message_by_mid_include_withdraw,
}
use cc_im_server.Delivery.Node.{AckCheck}
use cc_im_server.Resend.Rows.{
  AckRow, first_ack, update_all, time_out, retried, confirm, is_of, is_pending,
}

abbrev pub ack_max_retries : ℕ
ack_max_retries = 3

-- Which database calls and publications fail, and whether the queue client of the quic server is
-- configured.
pub record CheckFaults : Type 0 where
  pub ack_query : Bool
  pub state_update : Bool
  pub publish : Bool
  pub retry_update : Bool
  pub quic_queue_client : Bool

-- A resend task on the queue of the quic server.
pub record Resend : Type 0 where
  pub uid : String
  pub message : RoomMessage

-- The table, what is published, and whether the handler returns nil.
pub record Checked : Type 0 where
  pub rows : List AckRow
  pub resent : List Resend
  pub ok : Bool

unchanged : List AckRow → Bool → Checked
unchanged rows ok = record { rows = rows; resent = []; ok = ok }

-- Once the retries are used up.
give_up : CheckFaults → ℕ → List AckRow → AckCheck → Checked
give_up f now rows p =
    if f.state_update
    then unchanged rows false
    else unchanged (update_all (is_of p.mid p.uid) (time_out now) rows) true

resend : CheckFaults → ℕ → List AckRow → AckCheck → Option RoomMessage → Checked
resend f now rows p none = unchanged rows true
resend f now rows p (some rcm) =
    let task : List Resend = record { uid = p.uid; message = rcm } ∷ [] in
    if not f.quic_queue_client
    then unchanged rows true
    else if f.publish
    then unchanged rows false
    else if f.retry_update
    then record { rows = rows; resent = task; ok = false }
    else record {
      rows = update_all (is_of p.mid p.uid) (retried now p.retry_count) rows;
      resent = task;
      ok = true;
    }

check_found :
    CheckFaults → ℕ → List AckRow → AckCheck → Option RoomMessage → Option AckRow → Checked
check_found f now rows p message none = unchanged rows false
check_found f now rows p message (some ack) =
    if eqb ack.state 1
    then unchanged rows true
    else if eqb ack.state 2
    then unchanged rows true
    else if leb ack_max_retries p.retry_count
    then give_up f now rows p
    else resend f now rows p message

-- The body that the two handlers share, with the message that each of them looks up, when nothing
-- comes between its read and its write.
unfoldable pub check_ack : CheckFaults → ℕ → List AckRow → AckCheck → Option RoomMessage → Checked
unfolding check_found give_up resend unchanged
check_ack f now rows p message =
    if f.ack_query
    then unchanged rows false
    else check_found f now rows p message (first_ack p.mid p.uid rows)

-- The write of a check whose read gave this row: a SELECT and an UPDATE, which nothing holds together.
unfoldable pub ack_check_write :
    CheckFaults → Store → ℕ → List AckRow → AckCheck → Option AckRow → Checked
unfolding check_found give_up resend unchanged
ack_check_write f s now rows p ack = check_found f now rows p (get_room_message_by_mid s p.mid) ack

unfoldable pub handle_room_message_ack_check :
    CheckFaults → Store → ℕ → List AckRow → AckCheck → Checked
handle_room_message_ack_check f s now rows p =
    check_ack f now rows p (get_room_message_by_mid s p.mid)

unfoldable pub handle_room_message_withdraw_ack_check :
    CheckFaults → Store → ℕ → List AckRow → AckCheck → Checked
handle_room_message_withdraw_ack_check f s now rows p =
    check_ack f now rows p (get_room_message_by_mid_include_withdraw s p.mid)

-- A confirmation: the table, and whether a ServerRoomMessageAck goes back to the client.
unfoldable pub handler_room_message_ack :
    Bool → Store → ℕ → List AckRow → String → String → List AckRow × Bool
handler_room_message_ack fails s now rows mid uid =
    if fails
    then (rows, false)
    else if is_empty (filter (is_pending mid uid) rows)
    then (rows, false)
    else (
      update_all (is_pending mid uid) (confirm now) rows,
      elim (get_room_message_by_mid s mid) [ none ↦ false | some rcm ↦ true ],
    )

unfoldable pub handler_room_message_withdraw_ack :
    Bool → ℕ → List AckRow → String → String → List AckRow
handler_room_message_withdraw_ack fails now rows mid uid =
    if fails then rows else update_all (is_pending mid uid) (confirm now) rows
