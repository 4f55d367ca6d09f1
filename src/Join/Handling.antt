-- ===== src/Join/Handling.antt =====
-- http/handler/room/join_request.go: accepting and rejecting a request. The tests and the commit are
-- separate, as other handlers may come between.
use cc_im_server.Prelude.{
  String, ℕ, Bool, true, false, not, ◌&&◌, ◌||◌, Option, none, some, List, [], ◌∷◌, ◌==◌, eqb, ltb,
  elem, if◌then◌else◌,
}
use cc_im_server.Mute.State.{can_user_mute_in_room}
use cc_im_server.Chat.Tables.{Call}
use cc_im_server.Join.Desk.{
  Desk, JoinRoom, RoomJoinRequest, Visitor, call, get_room_by_rid, get_room_join_request_by_rjr_id,
  has_room_user,
}
use cc_im_server.Join.Enter.{join_room_committed_after_validation}
use cc_im_server.Join.Requests.{Reply, refused, failed, joined, rejected}

unfoldable pub handled_as : ℕ → String → ℕ → RoomJoinRequest → RoomJoinRequest
handled_as state handler now q = record q {
  state = state;
  handler_uid = handler;
  processed_at = now;
}

-- `UpdateRoomJoinRequestStateWithTx` when the statement succeeds.
unfoldable pub update_room_join_request_state :
    String → String → ℕ → ℕ → List RoomJoinRequest → List RoomJoinRequest
unfolding handled_as
update_room_join_request_state rjr_id handler now state [] = []
update_room_join_request_state rjr_id handler now state (q ∷ qs) =
    let rest = update_room_join_request_state rjr_id handler now state qs in
    if q.rjr_id == rjr_id then handled_as state handler now q ∷ rest else q ∷ rest

-- The tests end with a reason, or with the request and the room.
pub data Checked : Type 0 where
  refuse : (reason : String) → Checked
  go : (q : RoomJoinRequest) → (room : JoinRoom) → Checked

check_applicant : Visitor → RoomJoinRequest → Desk → Option JoinRoom → Desk × Checked
check_applicant v q d none = (d, refuse "no room")
check_applicant v q d (some room) =
    if v.faults.user_query || not (elem q.applicant_uid d.users)
    then (d, refuse "no applicant")
    else (d, go q room)

check_membership : Visitor → RoomJoinRequest → Desk × Bool → Desk × Checked
unfolding check_applicant
check_membership v q (d, true) = (d, refuse "already a member")
check_membership v q (d, false) = check_applicant v q d (get_room_by_rid v.faults d q.rid)

check_request : Visitor → Desk → Option RoomJoinRequest → Desk × Checked
unfolding check_membership
check_request v d none = (d, refuse "no request")
check_request v d (some q) =
    let membership = check_membership v q (has_room_user v d q.rid q.applicant_uid) in
    if not (eqb q.state 0)
    then (d, refuse "already handled")
    else if ltb 0 q.expires_at && ltb q.expires_at v.now
    then (d, refuse "expired")
    else if not (can_user_mute_in_room v.mute_faults d.chat.mute q.rid v.uid)
    then (d, refuse "not allowed")
    else membership

-- The tests of an acceptance. `HasRoomUser` may load the member cache.
unfoldable pub accept_checks : Visitor → Desk → String → Desk × Checked
unfolding check_request
accept_checks v d rjr_id =
    let checked = check_request v d (get_room_join_request_by_rjr_id v.faults d rjr_id) in
    if rjr_id == "" then (d, refuse "bad parameter") else checked

accept_joined : Visitor → String → Desk × Option String → Desk × Reply
accept_joined v rjr_id (d, none) = (d, failed)
accept_joined v rjr_id (d, some rsid) = (
  call (Call.log_operation "room_join_request_accept" rjr_id) (call (Call.push_handled rjr_id) d),
  joined rsid,
)

-- What the transaction of a handling leaves; the states of the notifications are left out.
abbrev pub with_handled : Visitor → Desk → String → ℕ → Desk
with_handled v d rjr_id state = record d {
  requests = update_room_join_request_state rjr_id v.uid v.now state d.requests;
}

-- Everything after the tests: the transaction that handles the request, then the join.
unfoldable pub accept_checked : Visitor → Desk → String → Checked → Desk × Reply
unfolding accept_joined
accept_checked v d rjr_id (refuse reason) = (d, refused reason)
accept_checked v d rjr_id (go q room) =
    let enter =
      accept_joined v rjr_id
        (join_room_committed_after_validation v (with_handled v d rjr_id 2) q.applicant_uid room) in
    if v.faults.state_update || v.faults.notification_update || v.faults.handle_commit
    then (d, failed)
    else enter

-- The whole handler when nothing comes between.
unfoldable pub room_join_request_accept : Visitor → Desk → String → Desk × Reply
room_join_request_accept v d rjr_id =
    let (d', checked) = accept_checks v d rjr_id in accept_checked v d' rjr_id checked

reject_found : Visitor → Desk → String → Option RoomJoinRequest → Desk × Reply
reject_found v d rjr_id none = (d, refused "no request")
reject_found v d rjr_id (some q) =
    let done =
      call (Call.log_operation "room_join_request_reject" rjr_id)
        (call (Call.push_handled rjr_id) (with_handled v d rjr_id 1)) in
    if not (eqb q.state 0)
    then (d, refused "already handled")
    else if not (can_user_mute_in_room v.mute_faults d.chat.mute q.rid v.uid)
    then (d, refused "not allowed")
    else if v.faults.state_update || v.faults.notification_update || v.faults.handle_commit
    then (d, failed)
    else (done, rejected)

unfoldable pub room_join_request_reject : Visitor → Desk → String → Desk × Reply
unfolding reject_found
room_join_request_reject v d rjr_id =
    let result = reject_found v d rjr_id (get_room_join_request_by_rjr_id v.faults d rjr_id) in
    if rjr_id == "" then (d, refused "bad parameter") else result
