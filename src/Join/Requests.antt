-- ===== src/Join/Requests.antt =====
-- http/handler/room/join_request.go and db/query/room_join_request.go: asking to join.
use cc_im_server.Prelude.{
  String, ◌+◌, Bool, true, false, not, ◌&&◌, ◌||◌, Option, none, some, List, [], ◌∷◌, ◌==◌, eqb,
  ltb, any, if◌then◌else◌,
}
use cc_im_server.Chat.Tables.{Call}
use cc_im_server.Join.Desk.{
  Desk, JoinRoom, RoomInvite, RoomJoinRequest, Visitor, call, get_room_by_rid,
  get_active_room_invite_by_token, has_room_user, has_pending_room_join_request,
  get_room_join_request_by_rid_and_applicant, is_of_applicant,
}
use cc_im_server.Join.Enter.{join_room_committed_after_validation}

-- What the user is told: a bad request or a conflict with its reason, a server error, the session's
-- id after a join, or the id of the request that now waits.
pub data Reply : Type 0 where
  refused : (reason : String) → Reply
  failed : Reply
  joined : (rsid : String) → Reply
  waits : (rjr_id : String) → Reply
  rejected : Reply

abbrev pub entered : Desk × Option String → Desk × Reply
entered (d, none) = (d, failed)
entered (d, some rsid) = (d, joined rsid)

-- A room with a password opens by the password or, here, by an invitation.
invite_opens : String → Option RoomInvite → Bool
invite_opens rid none = false
invite_opens rid (some i) = i.rid == rid && i.bypass_password

abbrev is_member_reply : Desk × Bool → JoinRoom → Desk × Option JoinRoom × String
is_member_reply (d, true) room = (d, none, "already joined")
is_member_reply (d, false) room = (d, some room, "")

-- The tests of `validatePublicRoomJoin` on a room that is found: the room, or the reason.
check_room : Visitor → Desk → JoinRoom → String → String → Desk × Option JoinRoom × String
unfolding invite_opens
check_room v d room password invite_token =
    let token = v.trim_space invite_token in
    let member = is_member_reply (has_room_user v d room.rid v.uid) room in
    let rest : Desk × Option JoinRoom × String =
      if eqb room.type 0 then (d, none, "cannot join") else member in
    let by_token : Desk × Option JoinRoom × String =
      if v.faults.invite_query
      then (d, none, "invite query")
      else if not (invite_opens room.rid (get_active_room_invite_by_token d token v.now))
      then (d, none, "invalid invite")
      else rest in
    if room.password == ""
    then rest
    else if not (token == "")
    then by_token
    else if not (v.password_matches room.password password)
    then (d, none, "wrong password")
    else rest

check_found : Visitor → Desk → String → String → Option JoinRoom → Desk × Option JoinRoom × String
unfolding check_room
check_found v d password invite_token none = (d, none, "no room")
check_found v d password invite_token (some room) = check_room v d room password invite_token

unfoldable pub validate_public_room_join :
    Visitor → Desk → String → String → String → Desk × Option JoinRoom × String
unfolding check_found
validate_public_room_join v d rid password invite_token =
    let r = v.trim_space rid in
    let found = check_found v d password invite_token (get_room_by_rid v.faults d r) in
    if r == "" then (d, none, "no room id") else found

-- A repeated request takes the row of the first, which waits again.
unfoldable pub renew : RoomJoinRequest → RoomJoinRequest → RoomJoinRequest
renew q old = record old {
  state = 0;
  message = q.message;
  answer = q.answer;
  expires_at = q.expires_at;
  processed_at = 0;
  handler_uid = "";
}

unfoldable pub save_request : RoomJoinRequest → List RoomJoinRequest → List RoomJoinRequest
save_request q [] = []
save_request q (x ∷ xs) =
    let rest = save_request q xs in if x.rjr_id == q.rjr_id then q ∷ rest else x ∷ rest

unfoldable pub create_or_update :
    Visitor → Desk → RoomJoinRequest → Option RoomJoinRequest → Desk × Option RoomJoinRequest
create_or_update v d q (some old) =
    if v.faults.request_save
    then (d, none)
    else (record d { requests = save_request (renew q old) d.requests }, some (renew q old))
create_or_update v d q none =
    if v.faults.request_save || any (is_of_applicant q.rid q.applicant_uid) d.requests
    then (d, none)
    else (record d { requests = q ∷ d.requests }, some q)

-- The stored request; none for an error.
unfoldable pub create_or_update_room_join_request :
    Visitor → Desk → RoomJoinRequest → Desk × Option RoomJoinRequest
create_or_update_room_join_request v d q =
    if v.faults.request_query
    then (d, none)
    else create_or_update v d q (get_room_join_request_by_rid_and_applicant d q.rid q.applicant_uid)

pub record JoinApply : Type 0 where
  pub rid : String
  pub password : String
  pub token : String
  pub message : String
  pub answer : String

request_of : Visitor → JoinApply → String → String → RoomJoinRequest
request_of v b message answer = record {
  rjr_id = v.new_rjr_id;
  rid = b.rid;
  applicant_uid = v.uid;
  message = message;
  answer = answer;
  state = 0;
  handler_uid = "";
  expires_at = v.now + 604800000;
  processed_at = 0;
  delete_time = 0;
}

stored : Desk × Option RoomJoinRequest → Desk × Reply
stored (d, none) = (d, failed)
stored (d, some q) = (
  call (Call.log_operation "room_join_apply" q.rjr_id) (call (Call.notify_join_request q.rjr_id) d),
  waits q.rjr_id,
)

logged : String → Desk × Reply → Desk × Reply
logged rid (d, joined rsid) = (call (Call.log_operation "room_join_apply" rid) d, joined rsid)
logged rid (d, reply) = (d, reply)

-- An application to a room that was validated.
apply_to : Visitor → Desk → JoinApply → JoinRoom → Desk × Reply
unfolding request_of stored logged
apply_to v d b room =
    let answer = v.trim_space b.answer in
    let text = v.trim_space b.message in
    let message = if room.join_question_enabled then answer else text in
    let expected = v.trim_space room.join_question_answer in
    let ask = stored (create_or_update_room_join_request v d (request_of v b message answer)) in
    let enter = logged b.rid (entered (join_room_committed_after_validation v d v.uid room)) in
    if not room.join_approval_required
    then (d, refused "no approval needed")
    else if room.join_question_enabled && answer == ""
    then (d, refused "answer the question")
    else if room.join_question_enabled && ltb 128 (v.rune_count answer)
    then (d, refused "long answer")
    else if not room.join_question_enabled && ltb 255 (v.rune_count text)
    then (d, refused "long message")
    else if room.join_question_enabled
        && room.join_question_auto_approve
        && not (expected == "")
        && answer == expected
    then enter
    else ask

validated : Visitor → JoinApply → Desk × Option JoinRoom × String → Desk × Reply
unfolding apply_to
validated v b (d, none, reason) = (d, refused reason)
validated v b (d, some room, reason) = apply_to v d b room

unfoldable pub room_join_apply : Visitor → Desk → JoinApply → Desk × Reply
unfolding validated
room_join_apply v d b =
    let result = validated v b (validate_public_room_join v d b.rid b.password b.token) in
    if b.rid == "" then (d, refused "bad parameter") else result

enter_open : Visitor → JoinRoom → Desk × Bool → Desk × Reply
enter_open v room (d, true) = (d, refused "already joined")
enter_open v room (d, false) =
    let enter = entered (join_room_committed_after_validation v d v.uid room) in
    if room.join_approval_required
    then if has_pending_room_join_request v.faults d v.now room.rid v.uid
      then (d, refused "already asked")
      else (d, refused "approval required")
    else enter

open_found : Visitor → Desk → String → Option JoinRoom → Desk × Reply
unfolding enter_open
open_found v d password none = (d, refused "no room")
open_found v d password (some room) =
    let open_room = enter_open v room (has_room_user v d room.rid v.uid) in
    if not (room.password == "") && not (v.password_matches room.password password)
    then (d, refused "wrong password")
    else if eqb room.type 0
    then (d, refused "cannot join")
    else open_room

unfoldable pub room_join : Visitor → Desk → String → String → Desk × Reply
unfolding open_found
room_join v d rid password =
    let result = open_found v d password (get_room_by_rid v.faults d rid) in
    if rid == "" then (d, refused "no room id") else result
