-- ===== src/Call/Started.antt =====
-- http/handler/media/stream.go: what the creation of a call does to the record of the calls.
use cc_im_server.Prelude.{
  String, false, Option, none, some, ◌==◌, ◌≡◌, refl, arith, ==_iff, Option-cases, inl, inr, ap,
  ◌∙◌, sym,
}
use cc_im_server.Prelude.Assoc.{lookup}
use cc_im_server.Join.Desk.{Desk}
use cc_im_server.Call.Tables.{
  CallInvite, Calls, Caller, trim, get_invite, get_state, state_of, get_string,
}
use cc_im_server.Call.Sessions.{
  clear_all_user_active_call_mappings_for_call, broadcast_stream_call_member_sync,
  save_media_call_record, destroy_media_call_session_keys, finalize_media_call_session_no_active,
}
use cc_im_server.Call.Handlers.{
  issue_join_sign_data, clear_room, CallRequest, Invitees, invitees, not_allowed, no_session,
  query_failed, check_call, new_invite, start_call, create_with, create_call_invite,
}
use cc_im_server.Call.Intact.{times, IsStored, IsIntact, held, destroy_keeps, create_keeps}
use cc_im_server.Call.Kept.{finalize_keeps}

cleared_keeps :
    (e : Caller) (rid : String) (c c' : Calls)
    → e.faults.state_get ≡ false
    → clear_room e rid c ≡ some c'
    → IsIntact c
    → IsIntact c'
unfolding clear_room destroy_media_call_session_keys
cleared_keeps e rid c c' healthy cleared h id =
    let k = get_string e.faults.room_get c.room_active rid in
    let s = get_state e.faults.state_get c k in
    elim (Option-cases (get_invite e.faults.invite_get c k)) [
      | inl g ↦
          let gone = destroy_keeps id (trim e k) c.invites c.states c.records (h id) in
          ground (arith, g, h id, gone, cleared)
      | inr (i, g) ↦
          let ((a, b, n, n'), got) = held e c e.faults.invite_get k i healthy (h k) g in
          let same : s.call_id ≡ (state_of e c i k).call_id = ap (λ x. x.call_id) got in
          let named : IsStored c i.call_id i (state_of e c i k) = (
            ap (λ j. lookup j c.invites) n ∙ a,
            ap (λ j. lookup j c.states) n ∙ b,
            refl,
            n' ∙ sym n,
          ) in
          let kept =
            finalize_keeps e i (state_of e c i k) s e.visitor.uid c named same
              (ap (λ x. x.ended) got) h id in
          ground (arith, g, h id, kept, cleared)
    ]

-- Making room for a call adds no record under an identifier that no call has.
cleared_fresh :
    (e : Caller) (rid new : String) (c c' : Calls)
    → e.faults.state_get ≡ false
    → clear_room e rid c ≡ some c'
    → IsIntact c
    → lookup new c.invites ≡ none
    → times new c.records ≡ 0
    → times new c'.records ≡ 0
unfolding clear_room destroy_media_call_session_keys finalize_media_call_session_no_active
    clear_all_user_active_call_mappings_for_call broadcast_stream_call_member_sync
    save_media_call_record times
cleared_fresh e rid new c c' healthy cleared h free fresh =
    let k = get_string e.faults.room_get c.room_active rid in
    elim (Option-cases (get_invite e.faults.invite_get c k)) [
      | inl g ↦ ground (arith, g, fresh, cleared)
      | inr (i, g) ↦
          let (a, b, n, n') = (held e c e.faults.invite_get k i healthy (h k) g).0 in
          let other : (i.call_id == new) ≡ false =
            ground (arith, free, a, n, ==_iff i.call_id new, ap (λ j. lookup j c.invites) n ∙ a) in
          ground (arith, g, fresh, cleared, other)
    ]

started_keeps :
    (e : Caller) (i : CallInvite) (o : Option Calls) (c : Calls)
    → IsIntact c
    → ((c' : Calls) → o ≡ some c' → IsIntact c' × (times i.call_id c'.records ≡ 0))
    → IsIntact (start_call e i o c).0
unfolding start_call issue_join_sign_data
started_keeps e i none c h free id = h id
started_keeps e i (some c') c h free id =
    let (kept, fresh) = free c' refl in
    let created = create_keeps id i c'.invites c'.states c'.records fresh (kept id) in
    ground (arith, kept id, created)

created_keeps :
    (e : Caller) (req : CallRequest) (called : Invitees) (c : Calls)
    → e.faults.state_get ≡ false
    → lookup e.new_call_id c.invites ≡ none
    → times e.new_call_id c.records ≡ 0
    → IsIntact c
    → IsIntact (create_with e req called c).0
unfolding create_with new_invite
created_keeps e req (not_allowed reason) c healthy free fresh h = h
created_keeps e req no_session c healthy free fresh h = h
created_keeps e req query_failed c healthy free fresh h = h
created_keeps e req (invitees uids scene) c healthy free fresh h =
    let rid = trim e req.rid in
    started_keeps e (new_invite e req uids scene) (clear_room e rid c) c h (λ c' cleared. (
      cleared_keeps e rid c c' healthy cleared h,
      cleared_fresh e rid e.new_call_id c c' healthy cleared h free fresh,
    ))

-- The identifier of the new call is new: no call that is stored has it, and no record.
pub create_call_keeps :
    (e : Caller) (d : Desk) (req : CallRequest) (c : Calls)
    → e.faults.state_get ≡ false
    → lookup e.new_call_id c.invites ≡ none
    → times e.new_call_id c.records ≡ 0
    → IsIntact c
    → IsIntact (create_call_invite e d req c).1
unfolding create_call_invite
create_call_keeps e d req c healthy free fresh h =
    created_keeps e req (check_call e d req).1 c healthy free fresh h
