-- ===== src/Call/Kept.antt =====
-- http/handler/media/stream.go: what each handler does to the record of the calls.
use cc_im_server.Prelude.{
  String, true, false, some, ◌∷◌, if◌then◌else◌, ◌≡◌, refl, arith, Option-cases, Bool-cases,
  ==_refl, inl, inr, ap, ◌∙◌, sym,
}
use cc_im_server.Prelude.Assoc.{lookup, insert, lookup-insert}
use cc_im_server.Call.Tables.{
  CallInvite, CallState, CallRecord, Calls, Caller, trim, remove_uid, call_duration_seconds,
  get_invite, state_of, get_string,
}
use cc_im_server.Call.Sessions.{
  clear_all_user_active_call_mappings_for_call, broadcast_stream_call_member_sync, set_state,
  save_media_call_record, destroy_media_call_session_keys, finalize_media_call_session_no_active,
  leave_state, empty_state, clear_user, leave_call_by_uid, on_user_message_quic_offline,
  on_media_room_empty, correct_active,
}
use cc_im_server.Call.Intact.{IsStored, IsIntact, held, set_keeps, destroy_keeps, record_keeps}

-- The end of a stored call; the handler has `s'` for its state `s`, with other active users maybe.
pub finalize_keeps :
    (e : Caller) (i : CallInvite) (s s' : CallState) (op : String) (c : Calls)
    → IsStored c i.call_id i s
    → s'.call_id ≡ s.call_id
    → s'.ended ≡ s.ended
    → IsIntact c
    → IsIntact (finalize_media_call_session_no_active e i s' op c)
unfolding finalize_media_call_session_no_active clear_all_user_active_call_mappings_for_call
    broadcast_stream_call_member_sync save_media_call_record destroy_media_call_session_keys
finalize_keeps e i s s' op c (a, b, k, k') same ends h id =
    let closed : CallState = record s' { ended = true } in
    let row : CallRecord = record {
      invite = i;
      ended_at = e.visitor.now;
      duration_sec = call_duration_seconds e i;
      end_reason = "ended";
      operator_uid = op;
    } in
    let rows = if e.faults.record_create then c.records else row ∷ c.records in
    elim (Bool-cases s'.ended) [
      | inl over ↦ ground (arith, over, h id)
      | inr running ↦
          let kept =
            record_keeps id i.call_id i s closed row e.faults.record_create c.invites c.states
              c.records a b (sym ends ∙ running) same refl refl (h id) in
          let gone =
            destroy_keeps id (trim e i.call_id) c.invites (insert i.call_id closed c.states) rows
              kept in
          ground (arith, running, gone)
    ]

pub set_state-IsStored :
    (k : String) (i : CallInvite) (s s' : CallState) (c : Calls)
    → IsStored c k i s
    → s'.call_id ≡ s.call_id
    → IsStored (set_state k s' c) i.call_id i s'
set_state-IsStored k i s s' c (a, b, n, n') same =
    let found : lookup k (insert k s' c.states) ≡ some s' =
      ground (arith, lookup-insert k k s' c.states, ==_refl k) in
    (
      ap (λ id. lookup id c.invites) n ∙ a,
      ap (λ id. lookup id (insert k s' c.states)) n ∙ found,
      refl,
      same ∙ n' ∙ sym n,
    )

leave_state_keeps :
    (e : Caller) (uid k : String) (i : CallInvite) (s : CallState) (c : Calls)
    → IsStored c k i s
    → IsIntact c
    → IsIntact (leave_state e uid k i s c)
unfolding leave_state broadcast_stream_call_member_sync
leave_state_keeps e uid k i s c stored h id =
    let s' : CallState = record s { active_uids = remove_uid s.active_uids uid } in
    let c' = clear_user e uid (set_state k s' c) in
    let kept : IsIntact c' =
      λ j. set_keeps j k i s s' c.invites c.states c.records stored.0 stored.1 refl refl (h j) in
    let over =
      finalize_keeps e i s' s' uid c' (set_state-IsStored k i s s' c stored refl) refl refl kept
        id in
    ground (arith, kept id, over)

pub leave_keeps :
    (e : Caller) (uid call_id : String) (c : Calls)
    → e.faults.state_get ≡ false
    → IsIntact c
    → IsIntact (leave_call_by_uid e uid call_id c).0
unfolding leave_call_by_uid
leave_keeps e uid call_id c healthy h id =
    let u = trim e uid in
    let k = trim e call_id in
    elim (Option-cases (get_invite e.faults.invite_get c k)) [
      | inl g ↦ ground (arith, g, h id)
      | inr (i, g) ↦
          let stored = (held e c e.faults.invite_get k i healthy (h k) g).0 in
          ground (arith, g, h id, leave_state_keeps e u k i (state_of e c i k) c stored h id)
    ]

pub offline_keeps :
    (e : Caller) (uid : String) (c : Calls)
    → e.faults.state_get ≡ false
    → IsIntact c
    → IsIntact (on_user_message_quic_offline e uid c)
unfolding on_user_message_quic_offline
offline_keeps e uid c healthy h id =
    let call_id = get_string e.faults.user_get c.user_active (trim e uid) in
    ground (arith, h id, leave_keeps e (trim e uid) call_id c healthy h id)

empty_state_keeps :
    (e : Caller) (rid op k : String) (i : CallInvite) (s : CallState) (c : Calls)
    → IsStored c k i s
    → IsIntact c
    → IsIntact (empty_state e rid op i s c)
unfolding empty_state
empty_state_keeps e rid op k i s c stored h id =
    let alive = (correct_active e i.call_id s.active_uids c.user_active).0 in
    let table = (correct_active e i.call_id s.active_uids c.user_active).1 in
    let s' : CallState = record s { active_uids = alive } in
    let c' : Calls = record (set_state i.call_id s' c) { user_active = table } in
    let named : IsStored c i.call_id i s = (
      ap (λ j. lookup j c.invites) stored.2 ∙ stored.0,
      ap (λ j. lookup j c.states) stored.2 ∙ stored.1,
      refl,
      stored.3 ∙ sym stored.2,
    ) in
    let kept : IsIntact c' = λ j.
      set_keeps j i.call_id i s s' c.invites c.states c.records named.0 named.1 refl refl (h j) in
    let at_once = finalize_keeps e i s s op c named refl refl h id in
    let over =
      finalize_keeps e i s' s' op c' (set_state-IsStored i.call_id i s s' c named refl) refl refl
        kept id in
    ground (arith, h id, kept id, at_once, over)

pub empty_keeps :
    (e : Caller) (rid op : String) (c : Calls)
    → e.faults.state_get ≡ false
    → IsIntact c
    → IsIntact (on_media_room_empty e rid op c)
unfolding on_media_room_empty destroy_media_call_session_keys
empty_keeps e rid op c healthy h id =
    let r = trim e rid in
    let k = get_string e.faults.room_get c.room_active r in
    elim (Option-cases (get_invite e.faults.invite_get c k)) [
      | inl g ↦
          let gone = destroy_keeps id (trim e k) c.invites c.states c.records (h id) in
          ground (arith, g, h id, gone)
      | inr (i, g) ↦
          let stored = (held e c e.faults.invite_get k i healthy (h k) g).0 in
          let gone = destroy_keeps id (trim e i.call_id) c.invites c.states c.records (h id) in
          ground (
            arith,
            g,
            h id,
            gone,
            empty_state_keeps e r (trim e op) k i (state_of e c i k) c stored h id,
          )
    ]
