-- ===== src/Call/Sessions.antt =====
-- http/handler/media/stream.go: the keys of a call, its notices, and its end.
use cc_im_server.Prelude.{
  String, true, not, ◌&&◌, ◌||◌, Option, none, some, List, [], ◌∷◌, ◌++◌, ◌==◌, if◌then◌else◌,
  length, is_empty,
}
use cc_im_server.Prelude.Assoc.{insert, delete}
use cc_im_server.Call.Tables.{
  CallInvite, CallState, CallRecord, Notice, end_notice, sync_notice, Calls, Caller, trim,
  is_call_expired, call_duration_seconds, allow_call_member, remove_uid, unique_uids, get_invite,
  get_state, state_of, get_string,
}

-- The current calls of users after one is set, and after one is cleared.
unfoldable pub set_user_active_call_mapping :
    Caller → String → String → List (String × String) → List (String × String)
set_user_active_call_mapping e uid call_id table =
    if trim e uid == "" || trim e call_id == ""
    then table
    else insert (trim e uid) (trim e call_id) table

unfoldable pub clear_user_active_call_mapping :
    Caller → String → List (String × String) → List (String × String)
clear_user_active_call_mapping e uid table =
    if trim e uid == "" then table else delete (trim e uid) table

unfoldable pub clear_mappings :
    Caller → List String → List (String × String) → List (String × String)
clear_mappings e [] table = table
clear_mappings e (u ∷ uids) table = clear_mappings e uids (clear_user_active_call_mapping e u table)

-- All whom an end concerns.
unfoldable pub call_uids : CallInvite → CallState → List String
call_uids i s = unique_uids (
    (i.inviter_uid ∷ i.invitee_uids)
    ++ (if s.call_id == "" then [] else s.active_uids ++ s.rejected_uids))

unfoldable pub clear_all_user_active_call_mappings_for_call :
    Caller → CallInvite → CallState → Calls → Calls
clear_all_user_active_call_mappings_for_call e i s c = record c {
  user_active = clear_mappings e (call_uids i s) c.user_active;
}

unfoldable pub destroy_media_call_session_keys : Caller → String → String → Calls → Calls
destroy_media_call_session_keys e call_id rid c =
    let id = trim e call_id in
    let r = trim e rid in
    record c {
      invites = if id == "" then c.invites else delete id c.invites;
      states = if id == "" then c.states else delete id c.states;
      room_active = if r == "" then c.room_active else delete r c.room_active;
    }

abbrev pub set_state : String → CallState → Calls → Calls
set_state call_id s c = record c { states = insert call_id s c.states }

abbrev pub notify : Notice → Calls → Calls
notify n c = record c { notices = n ∷ c.notices }

sync_notices : List Notice → CallState → Option CallInvite → List Notice
sync_notices sent s none = sent
sync_notices sent s (some i) =
    let active = if s.call_id == "" then [] else s.active_uids in
    sync_notice i (length active) (unique_uids ((i.inviter_uid ∷ i.invitee_uids) ++ active)) ∷ sent

unfoldable pub broadcast_stream_call_member_sync : Caller → String → Calls → Calls
unfolding sync_notices
broadcast_stream_call_member_sync e call_id c = record c {
  notices =
      sync_notices c.notices (get_state e.faults.sync_state_get c call_id)
        (get_invite e.faults.sync_invite_get c call_id);
}

unfoldable pub save_media_call_record : Caller → CallInvite → String → String → Calls → Calls
save_media_call_record e i reason op c =
    let row : CallRecord = record {
      invite = i;
      ended_at = e.visitor.now;
      duration_sec = call_duration_seconds e i;
      end_reason = reason;
      operator_uid = op;
    } in
    record c { records = if e.faults.record_create then c.records else row ∷ c.records }

abbrev pub notify_end : Caller → CallInvite → String → String → List String → Calls → Calls
notify_end e i reason op targets c =
    notify (end_notice i reason op targets (call_duration_seconds e i)) c

abbrev pub all_members : CallInvite → List String
all_members i = unique_uids (i.inviter_uid ∷ i.invitee_uids)

unfoldable pub finalize_media_call_session_no_active :
    Caller → CallInvite → CallState → String → Calls → Calls
finalize_media_call_session_no_active e i s op c =
    let s' : CallState = record s { ended = true } in
    let c1 = set_state i.call_id s' c in
    let c2 = clear_all_user_active_call_mappings_for_call e i s' c1 in
    let c3 = broadcast_stream_call_member_sync e i.call_id c2 in
    let c4 = notify_end e i "ended" op (all_members i) c3 in
    let c5 = save_media_call_record e i "ended" op c4 in
    if s.ended then c else destroy_media_call_session_keys e i.call_id i.rid c5

pub data LeaveCallStatus : Type 0 where
  leave_call_expired : LeaveCallStatus
  leave_call_unauthorized : LeaveCallStatus
  leave_call_ok : LeaveCallStatus

abbrev pub clear_user : Caller → String → Calls → Calls
clear_user e uid c = record c { user_active = clear_user_active_call_mapping e uid c.user_active }

unfoldable pub leave_state : Caller → String → String → CallInvite → CallState → Calls → Calls
leave_state e uid call_id i s c =
    let s' : CallState = record s { active_uids = remove_uid s.active_uids uid } in
    let c' = clear_user e uid (set_state call_id s' c) in
    if is_empty s'.active_uids && not s'.ended
    then finalize_media_call_session_no_active e i s' uid c'
    else broadcast_stream_call_member_sync e i.call_id c'

leave_from : Caller → String → String → Calls → Option CallInvite → Calls × LeaveCallStatus
unfolding leave_state
leave_from e uid call_id c none = (clear_user e uid c, leave_call_expired)
leave_from e uid call_id c (some i) =
    if is_call_expired e i.expire_at
    then (clear_user e uid c, leave_call_expired)
    else if not (allow_call_member i uid)
    then (c, leave_call_unauthorized)
    else (leave_state e uid call_id i (state_of e c i call_id) c, leave_call_ok)

-- The result `recall` of the function is always false.
unfoldable pub leave_call_by_uid : Caller → String → String → Calls → Calls × LeaveCallStatus
unfolding leave_from
leave_call_by_uid e uid call_id c =
    let u = trim e uid in
    let id = trim e call_id in
    let result = leave_from e u id c (get_invite e.faults.invite_get c id) in
    if u == "" || id == "" then (c, leave_call_expired) else result

unfoldable pub on_user_message_quic_offline : Caller → String → Calls → Calls
on_user_message_quic_offline e uid c =
    let u = trim e uid in
    let call_id = get_string e.faults.user_get c.user_active u in
    let left = (leave_call_by_uid e u call_id c).0 in
    if u == "" || trim e call_id == "" then c else left

-- The loop over the active members of a room that is empty: those who are still in the call, and the
-- current calls of users after it.
unfoldable pub correct_active :
    Caller → String → List String → List (String × String) → List String × List (String × String)
correct_active e call_id [] table = ([], table)
correct_active e call_id (uid ∷ uids) table =
    let u = trim e uid in
    let here = trim e (get_string e.faults.user_get table u) == call_id in
    let table' = if (u == "") || here then table else clear_user_active_call_mapping e u table in
    let (rest, table'') = correct_active e call_id uids table' in
    (if not (u == "") && here then u ∷ rest else rest, table'')

abbrev drop_pointer : String → Calls → Calls
drop_pointer rid c = record c { room_active = delete rid c.room_active }

unfoldable pub empty_state : Caller → String → String → CallInvite → CallState → Calls → Calls
empty_state e rid op i s c =
    let (alive, table) = correct_active e i.call_id s.active_uids c.user_active in
    let s' : CallState = record s { active_uids = alive } in
    let corrected : Calls = record (set_state i.call_id s' c) { user_active = table } in
    if s.ended
    then drop_pointer rid c
    else if is_empty s.active_uids
    then finalize_media_call_session_no_active e i s op c
    else if not (is_empty alive)
    then corrected
    else finalize_media_call_session_no_active e i s' op corrected

empty_call : Caller → String → String → String → Calls → Option CallInvite → Calls
unfolding empty_state
empty_call e rid op call_id c none =
    destroy_media_call_session_keys e call_id rid (drop_pointer rid c)
empty_call e rid op call_id c (some i) =
    if is_call_expired e i.expire_at
    then destroy_media_call_session_keys e i.call_id i.rid (drop_pointer rid c)
    else empty_state e rid op i (state_of e c i call_id) c

unfoldable pub on_media_room_empty : Caller → String → String → Calls → Calls
unfolding empty_call
on_media_room_empty e rid op c =
    let r = trim e rid in
    let call_id = get_string e.faults.room_get c.room_active r in
    let result = empty_call e r (trim e op) call_id c (get_invite e.faults.invite_get c call_id) in
    if r == "" || trim e call_id == "" then c else result
