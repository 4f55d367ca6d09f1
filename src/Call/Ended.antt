-- ===== src/Call/Ended.antt =====
-- http/handler/media/stream.go: how a call ends, by a hang-up, by the last who leaves or rejects.
use cc_im_server.Prelude.{
  String, true, false, ◌||◌, some, ◌==◌, elem, leb, length, if◌then◌else◌, ◌≡◌, arith, Bool-cases,
  inl, inr, ap, ◌∙◌, sym,
}
use cc_im_server.Call.Tables.{
  CallInvite, CallState, Calls, Caller, trim, is_call_expired, allow_call_member, append_unique_uid,
  get_invite, state_of,
}
use cc_im_server.Call.Members.{
  done, mark_call_member_joined, end_rejected, reject_state, reject_call_invite, end_for_all,
  hangup_state, hangup_call,
}
use cc_im_server.Call.Handlers.{accept_call_invite}
use cc_im_server.Call.Intact.{IsStored}
use cc_im_server.Call.Over.{
  IsOver, IsTrimmed, IsOver-of_eq, end_IsOver, rejected_IsOver, gone_refuses,
}

-- A call that is stored, and is found by a request, with the state the handlers work on.
abbrev pub IsFound : Caller → Calls → String → CallInvite → CallState → Type 0
IsFound e c k i s =
    IsStored c k i s × (get_invite e.faults.invite_get c k ≡ some i) × (state_of e c i k ≡ s)

-- In a call that is found and runs, a hang-up by one of its two friends, or by the inviter in a room,
-- ends it: nothing of the call is left in Redis, its room names no call, no member is in it, and no
-- one joins or accepts it any more. No identifier is empty or has blanks round it.
pub hangup_lem :
    (e again : Caller) (k uid : String) (i : CallInvite) (s : CallState) (c : Calls)
    → IsTrimmed e k
    → IsTrimmed e i.rid
    → IsTrimmed e uid
    → IsFound e c k i s
    → s.ended ≡ false
    → allow_call_member i e.visitor.uid ≡ true
    → (i.call_scene == "friend" || e.visitor.uid == i.inviter_uid) ≡ true
    → allow_call_member i uid ≡ true
    → ((hangup_call e k c).1 ≡ done true)
      × IsOver k i.rid uid (hangup_call e k c).0
      × ((mark_call_member_joined again k (hangup_call e k c).0).0 ≡ (hangup_call e k c).0)
      × ((accept_call_invite again k (hangup_call e k c).0).0 ≡ (hangup_call e k c).0)
unfolding hangup_call hangup_state
hangup_lem e again k uid i s c (tk, tk') ts tu (stored, found, of) running member all other =
    let k_is = stored.2 in
    let ti : IsTrimmed e i.call_id =
      (ap (trim e) k_is ∙ tk ∙ sym k_is, ap (λ t. t == "") k_is ∙ tk') in
    let named : (trim e k == "") ≡ false = ap (λ t. t == "") tk ∙ tk' in
    let over = λ (reason : String). end_IsOver e k reason uid i s c ti ts tu other in
    let step : (hangup_call e k c).0 ≡ (
        if i.call_scene == "friend"
        then end_for_all e k "hangup" i s c
        else end_for_all e k "ended" i s c) =
      ground (arith, found, of, running, member, all, named) in
    let answer : (hangup_call e k c).1 ≡ done true =
      ground (arith, found, of, running, member, all, named) in
    let gone : IsOver k i.rid uid (hangup_call e k c).0 =
      elim (Bool-cases (i.call_scene == "friend")) [
        | inl f ↦
            IsOver-of_eq k i.call_id i.rid uid (hangup_call e k c).0
              (end_for_all e k "hangup" i s c) (ground (arith, step, f)) k_is (over "hangup")
        | inr f ↦
            IsOver-of_eq k i.call_id i.rid uid (hangup_call e k c).0 (end_for_all e k "ended" i s c)
              (ground (arith, step, f)) k_is (over "ended")
      ] in
    let refuses = gone_refuses again k (hangup_call e k c).0 gone.0 in
    (answer, gone, refuses.0, refuses.1)

-- In a call that is found, runs and has not expired, a rejection by an invitee after which all have
-- rejected or hung up once ends the call, whoever is still in it: nothing of it is left in Redis, its
-- room names no call, and no member is in it. No identifier is empty or has blanks round it.
pub reject_lem :
    (e : Caller) (k uid : String) (i : CallInvite) (s : CallState) (c : Calls)
    → IsTrimmed e k
    → IsTrimmed e i.rid
    → IsTrimmed e uid
    → IsFound e c k i s
    → is_call_expired e i.expire_at ≡ false
    → s.ended ≡ false
    → elem e.visitor.uid i.invitee_uids ≡ true
    → leb (length i.invitee_uids) (length (append_unique_uid s.rejected_uids e.visitor.uid)) ≡ true
    → allow_call_member i uid ≡ true
    → ((reject_call_invite e k c).1 ≡ done true) × IsOver k i.rid uid (reject_call_invite e k c).0
unfolding reject_call_invite reject_state
reject_lem e k uid i s c (tk, tk') ts tu (stored, found, of) fresh running invited all other =
    let k_is = stored.2 in
    let ti : IsTrimmed e i.call_id =
      (ap (trim e) k_is ∙ tk ∙ sym k_is, ap (λ t. t == "") k_is ∙ tk') in
    let named : (trim e k == "") ≡ false = ap (λ t. t == "") tk ∙ tk' in
    let rejected = append_unique_uid s.rejected_uids e.visitor.uid in
    let s' : CallState = record s { rejected_uids = rejected; ended = true } in
    (
      ground (arith, found, of, fresh, running, invited, all, named),
      IsOver-of_eq k i.call_id i.rid uid (reject_call_invite e k c).0 (end_rejected e k i s' c)
          (ground (arith, found, of, fresh, running, invited, all, named)) k_is
          (rejected_IsOver e k uid i s' c ti ts tu other),
    )
