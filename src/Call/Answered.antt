-- ===== src/Call/Answered.antt =====
-- http/handler/media/stream.go: what each HTTP handler does to the record of the calls.
use cc_im_server.Prelude.{
  String, true, false, ◌∷◌, leb, length, if◌then◌else◌, ◌≡◌, refl, arith, Option-cases, Bool-cases,
  inl, inr, ◌∙◌, sym,
}
use cc_im_server.Prelude.Assoc.{insert}
use cc_im_server.Call.Tables.{
  CallInvite, CallState, CallRecord, Calls, Caller, trim, append_unique_uid, remove_uid,
  call_duration_seconds, get_invite, state_of, get_string,
}
use cc_im_server.Call.Sessions.{
  clear_all_user_active_call_mappings_for_call, broadcast_stream_call_member_sync, set_state,
  save_media_call_record, destroy_media_call_session_keys, all_members,
}
use cc_im_server.Call.Members.{
  joined_in, mark_call_member_joined, leave_call, reject_state, end_rejected, reject_call_invite,
  end_for_all, hangup_alone, hangup_state, hangup_call, current_call,
}
use cc_im_server.Call.Handlers.{accept_call_invite, issue_join_sign_data}
use cc_im_server.Call.Intact.{IsStored, IsIntact, held, set_keeps, destroy_keeps, record_keeps}
use cc_im_server.Call.Kept.{leave_keeps}

pub joined_keeps :
    (e : Caller) (k : String) (c : Calls)
    → e.faults.state_get ≡ false
    → IsIntact c
    → IsIntact (mark_call_member_joined e k c).0
unfolding mark_call_member_joined joined_in broadcast_stream_call_member_sync
joined_keeps e k c healthy h id = elim (Option-cases (get_invite e.faults.invite_get c k)) [
  | inl g ↦ ground (arith, g, h id)
  | inr (i, g) ↦
      let s = state_of e c i k in
      let (a, b, n, n') = (held e c e.faults.invite_get k i healthy (h k) g).0 in
      let s' : CallState = record s {
        active_uids = append_unique_uid s.active_uids e.visitor.uid;
      } in
      let kept = set_keeps id k i s s' c.invites c.states c.records a b refl refl (h id) in
      ground (arith, g, h id, kept)
]

pub leave_call_keeps :
    (e : Caller) (k : String) (c : Calls)
    → e.faults.state_get ≡ false
    → IsIntact c
    → IsIntact (leave_call e k c).0
unfolding leave_call
leave_call_keeps e k c healthy h id =
    ground (arith, h id, leave_keeps e e.visitor.uid k c healthy h id)

-- The row that an end adds.
abbrev row_of : Caller → CallInvite → String → String → CallRecord
row_of e i reason op = record {
  invite = i;
  ended_at = e.visitor.now;
  duration_sec = call_duration_seconds e i;
  end_reason = reason;
  operator_uid = op;
}

-- An end whose keys are deleted.
end_keeps :
    (e : Caller) (k reason op : String) (i : CallInvite) (s s' : CallState) (c : Calls)
    → IsStored c k i s
    → s.ended ≡ false
    → s'.call_id ≡ s.call_id
    → s'.ended ≡ true
    → IsIntact c
    → IsIntact (
        destroy_media_call_session_keys e i.call_id i.rid
          (save_media_call_record e i reason op (set_state k s' c)))
unfolding save_media_call_record destroy_media_call_session_keys
end_keeps e k reason op i s s' c (a, b, n, n') running same ends h id =
    let row = row_of e i reason op in
    let f = e.faults.record_create in
    destroy_keeps id (trim e i.call_id) c.invites (insert k s' c.states)
      (if f then c.records else row ∷ c.records)
      (record_keeps id k i s s' row f c.invites c.states c.records a b running same ends n (h id))

reject_state_keeps :
    (e : Caller) (k : String) (i : CallInvite) (s : CallState) (c : Calls)
    → IsStored c k i s
    → IsIntact c
    → IsIntact (reject_state e k i s c).0
unfolding reject_state end_rejected clear_all_user_active_call_mappings_for_call
    save_media_call_record destroy_media_call_session_keys
reject_state_keeps e k i s c stored h id =
    let rejected = append_unique_uid s.rejected_uids e.visitor.uid in
    let all = leb (length i.invitee_uids) (length rejected) in
    let s' : CallState = record s { rejected_uids = rejected; ended = all } in
    elim (Bool-cases s.ended) [
      | inl over ↦ ground (arith, over, h id)
      | inr running ↦ elim (Bool-cases all) [
        | inl yes_all ↦
            let kept =
              end_keeps e k "all_rejected" e.visitor.uid i s s' c stored running refl yes_all h
                id in
            ground (arith, running, yes_all, kept)
        | inr some_left ↦
            let kept =
              set_keeps id k i s s' c.invites c.states c.records stored.0 stored.1 refl
                (some_left ∙ sym running) (h id) in
            ground (arith, running, some_left, kept)
      ]
    ]

pub reject_keeps :
    (e : Caller) (k : String) (c : Calls)
    → e.faults.state_get ≡ false
    → IsIntact c
    → IsIntact (reject_call_invite e k c).0
unfolding reject_call_invite
reject_keeps e k c healthy h id = elim (Option-cases (get_invite e.faults.invite_get c k)) [
  | inl g ↦ ground (arith, g, h id)
  | inr (i, g) ↦
      let stored = (held e c e.faults.invite_get k i healthy (h k) g).0 in
      ground (arith, g, h id, reject_state_keeps e k i (state_of e c i k) c stored h id)
]

alone_keeps :
    (e : Caller) (k : String) (i : CallInvite) (s : CallState) (c : Calls)
    → IsStored c k i s
    → s.ended ≡ false
    → IsIntact c
    → IsIntact (hangup_alone e k i s c).0
unfolding hangup_alone clear_all_user_active_call_mappings_for_call save_media_call_record
    broadcast_stream_call_member_sync
alone_keeps e k i s c (a, b, n, n') running h id =
    let uid = e.visitor.uid in
    let rejected = append_unique_uid s.rejected_uids uid in
    let all = leb (length (all_members i)) (length rejected) in
    let s' : CallState = record s {
      active_uids = remove_uid s.active_uids uid;
      rejected_uids = rejected;
      ended = all;
    } in
    let f = e.faults.record_create in
    let row = row_of e i "ended" uid in
    elim (Bool-cases all) [
      | inl yes_all ↦
          let kept =
            record_keeps id k i s s' row f c.invites c.states c.records a b running refl yes_all n
              (h id) in
          ground (arith, yes_all, kept)
      | inr some_left ↦
          let kept =
            set_keeps id k i s s' c.invites c.states c.records a b refl (some_left ∙ sym running)
              (h id) in
          ground (arith, some_left, kept)
    ]

hangup_state_keeps :
    (e : Caller) (k : String) (i : CallInvite) (s : CallState) (c : Calls)
    → IsStored c k i s
    → IsIntact c
    → IsIntact (hangup_state e k i s c).0
unfolding hangup_state end_for_all clear_all_user_active_call_mappings_for_call
    save_media_call_record destroy_media_call_session_keys broadcast_stream_call_member_sync
hangup_state_keeps e k i s c stored h id =
    let s' : CallState = record s { ended = true } in
    elim (Bool-cases s.ended) [
      | inl over ↦ ground (arith, over, h id)
      | inr running ↦
          let kept = λ (reason : String).
            end_keeps e k reason e.visitor.uid i s s' c stored running refl refl h id in
          ground
            (arith, running, kept "hangup", kept "ended", alone_keeps e k i s c stored running h id)
    ]

pub hangup_keeps :
    (e : Caller) (k : String) (c : Calls)
    → e.faults.state_get ≡ false
    → IsIntact c
    → IsIntact (hangup_call e k c).0
unfolding hangup_call
hangup_keeps e k c healthy h id = elim (Option-cases (get_invite e.faults.invite_get c k)) [
  | inl g ↦ ground (arith, g, h id)
  | inr (i, g) ↦
      let stored = (held e c e.faults.invite_get k i healthy (h k) g).0 in
      ground (arith, g, h id, hangup_state_keeps e k i (state_of e c i k) c stored h id)
]

pub current_keeps :
    (e : Caller) (rid : String) (c : Calls) → IsIntact c → IsIntact (current_call e rid c).0
unfolding current_call
current_keeps e rid c h id =
    let k = get_string e.faults.room_get c.room_active rid in
    elim (Option-cases (get_invite e.faults.invite_get c k)) [
      | inl g ↦ ground (arith, g, h id)
      | inr (i, g) ↦ ground (arith, g, h id)
    ]

pub accept_keeps :
    (e : Caller) (k : String) (c : Calls) → IsIntact c → IsIntact (accept_call_invite e k c).0
unfolding accept_call_invite issue_join_sign_data
accept_keeps e k c h id = elim (Option-cases (get_invite e.faults.invite_get c k)) [
  | inl g ↦ ground (arith, g, h id)
  | inr (i, g) ↦ ground (arith, g, h id)
]
