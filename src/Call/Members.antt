-- ===== src/Call/Members.antt =====
-- http/handler/media/stream.go: the handlers of the members of a media call.
use cc_im_server.Prelude.{
  String, ℕ, Bool, true, false, not, ◌&&◌, ◌||◌, Option, none, some, [], ◌∷◌, ◌==◌, ltb, leb,
  if◌then◌else◌, length, elem, ◌-◌, ◌/◌,
}
use cc_im_server.Prelude.Assoc.{delete}
use cc_im_server.Call.Tables.{
  CallInvite, CallState, Calls, Caller, trim, is_call_expired, allow_call_member, append_unique_uid,
  remove_uid, get_invite, get_state, state_of, get_string,
}
use cc_im_server.Call.Sessions.{
  set_user_active_call_mapping, clear_all_user_active_call_mappings_for_call,
  destroy_media_call_session_keys, set_state, notify_end, all_members, clear_user,
  broadcast_stream_call_member_sync, save_media_call_record, leave_call_by_uid, LeaveCallStatus,
  leave_call_expired, leave_call_unauthorized, leave_call_ok,
}

-- `done` carries the Boolean of the answer: whether the call has ended.
pub data Answer : Type 0 where
  refused : (reason : String) → Answer
  unauthorized : (reason : String) → Answer
  failed : Answer
  done : (ended : Bool) → Answer

unfoldable pub joined_in : Caller → String → Calls → Option CallInvite → Calls × Answer
joined_in e call_id c none = (c, refused "expired")
joined_in e call_id c (some i) =
    let s = state_of e c i call_id in
    let s' : CallState = record s { active_uids = append_unique_uid s.active_uids e.visitor.uid } in
    let c1 = set_state call_id s' c in
    let c2 : Calls = record c1 {
      user_active = set_user_active_call_mapping e e.visitor.uid i.call_id c1.user_active;
    } in
    if is_call_expired e i.expire_at
    then (c, refused "expired")
    else if not (allow_call_member i e.visitor.uid)
    then (c, unauthorized "no member")
    else (broadcast_stream_call_member_sync e i.call_id c2, done false)

unfoldable pub mark_call_member_joined : Caller → String → Calls → Calls × Answer
unfolding joined_in
mark_call_member_joined e call_id c =
    let result = joined_in e call_id c (get_invite e.faults.invite_get c call_id) in
    if trim e call_id == "" then (c, refused "bad parameter") else result

left_answer : Calls × LeaveCallStatus → Calls × Answer
left_answer (c, leave_call_expired) = (c, done false)
left_answer (c, leave_call_unauthorized) = (c, unauthorized "no member")
left_answer (c, leave_call_ok) = (c, done false)

unfoldable pub leave_call : Caller → String → Calls → Calls × Answer
unfolding left_answer
leave_call e call_id c =
    let result = left_answer (leave_call_by_uid e e.visitor.uid call_id c) in
    if trim e call_id == "" then (c, refused "bad parameter") else result

-- The end of a call that all have rejected.
unfoldable pub end_rejected : Caller → String → CallInvite → CallState → Calls → Calls
end_rejected e call_id i s c =
    let c1 = set_state call_id s c in
    let c2 = clear_all_user_active_call_mappings_for_call e i s c1 in
    let c3 = notify_end e i "all_rejected" e.visitor.uid (i.inviter_uid ∷ []) c2 in
    let c4 = save_media_call_record e i "all_rejected" e.visitor.uid c3 in
    destroy_media_call_session_keys e i.call_id i.rid c4

unfoldable pub reject_state : Caller → String → CallInvite → CallState → Calls → Calls × Answer
reject_state e call_id i s c =
    let rejected = append_unique_uid s.rejected_uids e.visitor.uid in
    let all = leb (length i.invitee_uids) (length rejected) in
    let s' : CallState = record s { rejected_uids = rejected; ended = all } in
    if s.ended
    then (c, done true)
    else if all
    then (end_rejected e call_id i s' c, done true)
    else (set_state call_id s' c, done false)

reject_in : Caller → String → Calls → Option CallInvite → Calls × Answer
unfolding reject_state
reject_in e call_id c none = (c, refused "expired")
reject_in e call_id c (some i) =
    if is_call_expired e i.expire_at
    then (c, refused "expired")
    else if not (elem e.visitor.uid i.invitee_uids)
    then (c, unauthorized "not invited")
    else reject_state e call_id i (state_of e c i call_id) c

unfoldable pub reject_call_invite : Caller → String → Calls → Calls × Answer
unfolding reject_in
reject_call_invite e call_id c =
    let result = reject_in e call_id c (get_invite e.faults.invite_get c call_id) in
    if trim e call_id == "" then (c, refused "bad parameter") else result

-- The end of a call by one user for all.
unfoldable pub end_for_all : Caller → String → String → CallInvite → CallState → Calls → Calls
end_for_all e call_id reason i s c =
    let s' : CallState = record s { ended = true } in
    let c1 = broadcast_stream_call_member_sync e i.call_id (set_state call_id s' c) in
    let c2 = clear_all_user_active_call_mappings_for_call e i s' c1 in
    let c3 = notify_end e i reason e.visitor.uid (all_members i) c2 in
    let c4 = save_media_call_record e i reason e.visitor.uid c3 in
    destroy_media_call_session_keys e i.call_id i.rid c4

-- A member other than the inviter hangs up in a room.
unfoldable pub hangup_alone : Caller → String → CallInvite → CallState → Calls → Calls × Answer
hangup_alone e call_id i s c =
    let uid = e.visitor.uid in
    let rejected = append_unique_uid s.rejected_uids uid in
    let all = leb (length (all_members i)) (length rejected) in
    let s' : CallState = record s {
      active_uids = remove_uid s.active_uids uid;
      rejected_uids = rejected;
      ended = all;
    } in
    let c1 = set_state call_id s' (clear_user e uid c) in
    let c2 = broadcast_stream_call_member_sync e i.call_id c1 in
    let c3 = clear_all_user_active_call_mappings_for_call e i s' c2 in
    let c4 : Calls = record c3 { room_active = delete i.rid c3.room_active } in
    let c5 = notify_end e i "ended" uid (all_members i) c4 in
    if all then (save_media_call_record e i "ended" uid c5, done true) else (c2, done false)

unfoldable pub hangup_state : Caller → String → CallInvite → CallState → Calls → Calls × Answer
hangup_state e call_id i s c =
    if s.ended
    then (c, done true)
    else if i.call_scene == "friend"
    then (end_for_all e call_id "hangup" i s c, done true)
    else if e.visitor.uid == i.inviter_uid
    then (end_for_all e call_id "ended" i s c, done true)
    else hangup_alone e call_id i s c

hangup_in : Caller → String → Calls → Option CallInvite → Calls × Answer
unfolding hangup_state
hangup_in e call_id c none = (c, done false)
hangup_in e call_id c (some i) =
    if not (allow_call_member i e.visitor.uid)
    then (c, unauthorized "no member")
    else hangup_state e call_id i (state_of e c i call_id) c

unfoldable pub hangup_call : Caller → String → Calls → Calls × Answer
unfolding hangup_in
hangup_call e call_id c =
    let result = hangup_in e call_id c (get_invite e.faults.invite_get c call_id) in
    if trim e call_id == "" then (c, refused "bad parameter") else result

-- What CurrentCall tells of a call: the invitation, its age in seconds, who is in it.
abbrev pub Current : Type 0
Current = CallInvite × ℕ × ℕ

current_of : Caller → String → String → Calls → Option CallInvite → Calls × Option Current
current_of e rid call_id c none = (record c { room_active = delete rid c.room_active }, none)
current_of e rid call_id c (some i) =
    let s = get_state e.faults.state_get c call_id in
    let age =
      if ltb 0 i.create_time && leb i.create_time e.visitor.now
      then (e.visitor.now - i.create_time) / 1000
      else 0 in
    let active = if s.call_id == "" then 0 else length s.active_uids in
    if is_call_expired e i.expire_at || (not (s.call_id == "") && s.ended)
    then (record c { room_active = delete rid c.room_active }, none)
    else (c, some (i, age, active))

unfoldable pub current_call : Caller → String → Calls → Calls × Option Current
unfolding current_of
current_call e rid c =
    let call_id = get_string e.faults.room_get c.room_active rid in
    let result = current_of e rid call_id c (get_invite e.faults.invite_get c call_id) in
    if trim e rid == "" || trim e call_id == "" then (c, none) else result
