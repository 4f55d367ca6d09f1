-- ===== src/Call/Emptied.antt =====
-- http/handler/media/stream.go: the media server tells that a room has no connection left.
use cc_im_server.Prelude.{
  String, Bool, true, false, ◌||◌, none, some, ◌==◌, is_empty, if◌then◌else◌, ◌≡◌, ◌⊎◌, arith,
  ==_iff, ==_refl, Bool-cases, inl, inr, ap, ◌∙◌, sym,
}
use mathlib.Core.Path.{subst}
use cc_im_server.Prelude.Assoc.{lookup, insert, delete, lookup-insert, lookup-delete}
use cc_im_server.Call.Tables.{
  CallInvite, CallState, Calls, Caller, trim, is_call_expired, get_invite, state_of, get_string,
}
use cc_im_server.Call.Sessions.{
  correct_active, empty_state, on_media_room_empty, finalize_media_call_session_no_active,
  destroy_media_call_session_keys, broadcast_stream_call_member_sync, save_media_call_record,
  clear_all_user_active_call_mappings_for_call, set_state,
}
use cc_im_server.Call.Intact.{IsStored, found_lem, state_of_lem}
use cc_im_server.Call.Over.{IsTrimmed}
use cc_im_server.Call.Corrected.{all_current, correct_lem}

finalized_pointer :
    (e : Caller) (rid op : String) (i : CallInvite) (s : CallState) (c : Calls)
    → s.ended ≡ false
    → trim e rid ≡ rid
    → (rid == "") ≡ false
    → i.rid ≡ rid
    → lookup rid (finalize_media_call_session_no_active e i s op c).room_active ≡ none
unfolding finalize_media_call_session_no_active destroy_media_call_session_keys
    broadcast_stream_call_member_sync save_media_call_record
    clear_all_user_active_call_mappings_for_call
finalized_pointer e rid op i s c running tr tr' placed =
    let t : trim e i.rid ≡ rid = ap (trim e) placed ∙ tr in
    let full : (trim e i.rid == "") ≡ false = ap (λ x. x == "") t ∙ tr' in
    let is : (trim e i.rid == rid) ≡ true = (==_iff (trim e i.rid) rid).1 t in
    ground (arith, running, full, is, lookup-delete (trim e i.rid) rid c.room_active)

-- The room names no call, or the call goes on with users of each of whom it is the current call.
abbrev pub IsFreed : Caller → String → String → Calls → Type 0
IsFreed e rid k c =
    (lookup rid c.room_active ≡ none)
    ⊎ ((s : CallState) × (lookup k c.states ≡ some s)
        × (is_empty s.active_uids ≡ false)
        × (all_current e k c.user_active s.active_uids ≡ true))

-- The room's current call, told of an empty room.
emptied :
    (e : Caller) (rid op k : String) (i : CallInvite) (s : CallState) (c : Calls)
    → IsStored c k i s
    → ((t : String) → trim e (trim e t) ≡ trim e t)
    → IsTrimmed e rid
    → i.rid ≡ rid
    → IsFreed e rid k (empty_state e rid op i s c)
unfolding empty_state
emptied e rid op k i s c (a, b, n, n') twice (tr, tr') placed =
    let fixed = correct_active e i.call_id s.active_uids c.user_active in
    let s' : CallState = record s { active_uids = fixed.0 } in
    let gone = lookup-delete rid rid c.room_active in
    let fixed_calls : Calls = record (set_state i.call_id s' c) { user_active = fixed.1 } in
    let stored : lookup k (insert i.call_id s' c.states) ≡ some s' =
      ground (arith, lookup-insert i.call_id k s' c.states, (==_iff i.call_id k).1 n) in
    let right : all_current e k fixed.1 fixed.0 ≡ true =
      ap (λ j. all_current e j fixed.1 fixed.0) (sym n)
      ∙ correct_lem e i.call_id s.active_uids c.user_active twice in
    let ends = λ (x : CallState) (c' : Calls) (running : x.ended ≡ false).
      finalized_pointer e rid op i x c' running tr tr' placed in
    elim (Bool-cases s.ended) [
      | inl over ↦ inl (ground (arith, over, gone, ==_refl rid))
      | inr running ↦ elim (Bool-cases (is_empty s.active_uids)) [
        | inl none_in ↦ inl (ground (arith, running, none_in, ends s c running))
        | inr some_in ↦ elim (Bool-cases (is_empty fixed.0)) [
          | inl none_left ↦
              inl (ground (arith, running, some_in, none_left, ends s' fixed_calls running))
          | inr some_left ↦ inr (
            s',
            ground (arith, running, some_in, some_left, stored),
            some_left,
            ground (arith, running, some_in, some_left, right),
          )
        ]
      ]
    ]

dropped :
    (e : Caller) (rid call_id other : String) (c : Calls)
    → trim e rid ≡ rid
    → lookup rid
        (destroy_media_call_session_keys e call_id other
          (record c { room_active = delete (trim e rid) c.room_active })).room_active
      ≡ none
unfolding destroy_media_call_session_keys
dropped e rid call_id other c tr =
    let gone = lookup-delete (trim e rid) rid c.room_active in
    let again = lookup-delete (trim e other) rid (delete (trim e rid) c.room_active) in
    ground (arith, gone, again, (==_iff (trim e rid) rid).1 tr)

-- What happens to a call that is found.
found_step :
    (e : Caller) (rid op : String) (i : CallInvite) (c : Calls)
    → get_invite e.faults.invite_get c (get_string e.faults.room_get c.room_active (trim e rid))
      ≡ some i
    → (trim e rid == "") ≡ false
    → (trim e (get_string e.faults.room_get c.room_active (trim e rid)) == "") ≡ false
    → on_media_room_empty e rid op c ≡ (
        if is_call_expired e i.expire_at
        then destroy_media_call_session_keys e i.call_id i.rid
            (record c { room_active = delete (trim e rid) c.room_active })
        else empty_state e
            (trim e rid)
            (trim e op)
            i
            (state_of e c i (get_string e.faults.room_get c.room_active (trim e rid)))
            c)
unfolding on_media_room_empty
found_step e rid op i c found room call = ground (arith, found, room, call)

-- When the media server tells that a room is empty, and the room's current call is stored and the
-- reads of the call succeed, either the room names no call afterwards, or the call goes on with users
-- of each of whom it is the current call. Trimming twice is trimming once, and neither identifier is
-- empty or has blanks round it.
pub room_empty_lem :
    (e : Caller) (rid op k : String) (i : CallInvite) (s : CallState) (c : Calls)
    → (e.faults.invite_get || e.faults.state_get || e.faults.room_get) ≡ false
    → ((t : String) → trim e (trim e t) ≡ trim e t)
    → IsTrimmed e rid
    → IsTrimmed e k
    → lookup rid c.room_active ≡ some k
    → IsStored c k i s
    → i.rid ≡ rid
    → IsFreed e rid k (on_media_room_empty e rid op c)
room_empty_lem e rid op k i s c ok twice (tr, tr') (tk, tk') at stored placed =
    let f = e.faults.invite_get in
    let named = λ (t : String) (p : t ≡ k). ap (λ x. x == "") p ∙ tk' in
    let key : get_string e.faults.room_get c.room_active (trim e rid) ≡ k =
      ap (get_string e.faults.room_get c.room_active) tr
      ∙ (unfold get_string in ground (arith, ok, at)) in
    let found : get_invite f c (get_string e.faults.room_get c.room_active (trim e rid)) ≡ some i =
      ap (get_invite f c) key
      ∙ found_lem f c k i (ground (arith, ok)) stored.0 (named i.call_id stored.2) in
    let of : state_of e c i (get_string e.faults.room_get c.room_active (trim e rid)) ≡ s =
      ap (state_of e c i) key
      ∙ state_of_lem e c i k s (ground (arith, ok)) stored.1 (named s.call_id stored.3) in
    let room : (trim e rid == "") ≡ false = ap (λ x. x == "") tr ∙ tr' in
    let call : (trim e (get_string e.faults.room_get c.room_active (trim e rid)) == "") ≡ false =
      ap (λ x. trim e x == "") key ∙ ap (λ x. x == "") tk ∙ tk' in
    let step = found_step e rid op i c found room call in
    let gone : Calls =
      destroy_media_call_session_keys e i.call_id i.rid
        (record c { room_active = delete (trim e rid) c.room_active }) in
    let state = state_of e c i (get_string e.faults.room_get c.room_active (trim e rid)) in
    let goes_on = λ (x : CallState). empty_state e (trim e rid) (trim e op) i x c in
    let pick = λ (b : Bool). if b then gone else goes_on state in
    let at_once =
      λ (early : is_call_expired e i.expire_at ≡ false). ap pick early ∙ ap goes_on of in
    elim (Bool-cases (is_call_expired e i.expire_at)) [
      | inl late ↦ inl (
          ap (λ x. lookup rid x.room_active) (step ∙ ap pick late)
          ∙ dropped e rid i.call_id i.rid c tr)
      | inr early ↦
          subst (IsFreed e rid k)
            (sym (step ∙ at_once early ∙ ap (λ r. empty_state e r (trim e op) i s c) tr))
            (emptied e rid (trim e op) k i s c stored twice (tr, tr') placed)
    ]
