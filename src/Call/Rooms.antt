-- ===== src/Call/Rooms.antt =====
-- http/handler/media/stream.go: a room has one call at a time.
use cc_im_server.Prelude.{
  String, Bool, true, false, not, ◌||◌, Option, none, some, ◌==◌, is_empty, if◌then◌else◌, suc, ◌≡◌,
  ◌≢◌, refl, arith, ==_iff, ==_refl, Bool-cases, inl, inr, ap, ◌∙◌, sym,
}
use cc_im_server.Prelude.Assoc.{lookup, insert, lookup-insert}
use cc_im_server.Join.Desk.{Desk}
use cc_im_server.Call.Tables.{
  CallInvite, CallState, fresh_state, Calls, Caller, trim, allow_call_member, get_state, get_string,
}
use cc_im_server.Call.Sessions.{
  finalize_media_call_session_no_active, destroy_media_call_session_keys,
  clear_all_user_active_call_mappings_for_call, broadcast_stream_call_member_sync,
  save_media_call_record,
}
use cc_im_server.Call.Members.{done}
use cc_im_server.Call.Handlers.{
  clear_room, CallRequest, Invitees, invitees, not_allowed, no_session, query_failed, check_call,
  new_invite, start_call, create_with, create_call_invite, issue_join_sign_data,
}
use cc_im_server.Call.Intact.{times, IsStored, found_lem}
use cc_im_server.Call.Over.{IsTrimmed, finalized_IsOver}
use cc_im_server.Call.Reach.{is_running}

-- The reads of a request and the write of a record succeed.
abbrev pub reads_succeed : Caller → Bool
reads_succeed e =
    not (e.faults.invite_get || e.faults.state_get || e.faults.room_get || e.faults.record_create)

-- The current call of a room, when it runs, is a bar to a new one exactly if someone is in it.
clear_room_lem :
    (e : Caller) (rid k : String) (i : CallInvite) (s : CallState) (c : Calls)
    → reads_succeed e ≡ true
    → IsTrimmed e k
    → lookup rid c.room_active ≡ some k
    → IsStored c k i s
    → s.ended ≡ false
    → clear_room e rid c ≡ (
        if is_empty s.active_uids
        then some (finalize_media_call_session_no_active e i s e.visitor.uid c)
        else none)
unfolding clear_room get_string get_state
clear_room_lem e rid k i s c ok (tk, tk') at (a, b, n, n') running =
    let named : (trim e k == "") ≡ false = ap (λ t. t == "") tk ∙ tk' in
    let s_named : (s.call_id == "") ≡ false = ap (λ t. t == "") n' ∙ tk' in
    let i_named : (i.call_id == "") ≡ false = ap (λ t. t == "") n ∙ tk' in
    let found = found_lem e.faults.invite_get c k i (ground (arith, ok)) a i_named in
    ground (arith, ok, at, a, b, named, s_named, running, found)

started_lem :
    (e : Caller) (i : CallInvite) (o : Option Calls) (c c1 : Calls)
    → o ≡ some c1
    → (start_call e i o c).1 ≡ done false
    → ((start_call e i o c).0.invites ≡ insert i.call_id i c1.invites)
      × ((start_call e i o c).0.states ≡ insert i.call_id (fresh_state i) c1.states)
      × ((start_call e i o c).0.room_active ≡ insert i.rid i.call_id c1.room_active)
      × ((start_call e i o c).0.user_active ≡ c1.user_active)
      × ((start_call e i o c).0.records ≡ c1.records)
unfolding start_call issue_join_sign_data
started_lem e i o c c1 is answered = (
  ground (arith, is, answered),
  ground (arith, is, answered),
  ground (arith, is, answered),
  ground (arith, is, answered),
  ground (arith, is, answered),
)

-- The record of an end.
finalized_times :
    (e : Caller) (op : String) (i : CallInvite) (s : CallState) (c : Calls)
    → reads_succeed e ≡ true
    → s.ended ≡ false
    → times i.call_id (finalize_media_call_session_no_active e i s op c).records
      ≡ suc (times i.call_id c.records)
unfolding finalize_media_call_session_no_active broadcast_stream_call_member_sync
    save_media_call_record destroy_media_call_session_keys
    clear_all_user_active_call_mappings_for_call times
finalized_times e op i s c ok running = ground (arith, ok, running, ==_refl i.call_id)

busy_room :
    (e : Caller) (i : CallInvite) (o : Option Calls) (c : Calls)
    → o ≡ none
    → (start_call e i o c).1 ≢ done false
unfolding start_call
busy_room e i o c is = λ answered. ground (arith, is, answered)

IsTrimmed-of_eq : (e : Caller) (s t : String) → s ≡ t → IsTrimmed e s → IsTrimmed e t
IsTrimmed-of_eq e s t same (a, b) =
    (ap (trim e) (sym same) ∙ a ∙ same, ap (λ x. x == "") (sym same) ∙ b)

created_with :
    (e : Caller) (req : CallRequest) (called : Invitees) (k uid : String) (i : CallInvite)
    (s : CallState) (c : Calls)
    → reads_succeed e ≡ true
    → IsTrimmed e k
    → IsTrimmed e i.rid
    → IsTrimmed e uid
    → trim e req.rid ≡ i.rid
    → lookup i.rid c.room_active ≡ some k
    → IsStored c k i s
    → s.ended ≡ false
    → allow_call_member i uid ≡ true
    → lookup e.new_call_id c.invites ≡ none
    → (create_with e req called c).1 ≡ done false
    → (is_empty s.active_uids ≡ true)
      × (lookup k (create_with e req called c).0.invites ≡ none)
      × (lookup k (create_with e req called c).0.states ≡ none)
      × (lookup uid (create_with e req called c).0.user_active ≡ none)
      × (times k (create_with e req called c).0.records ≡ suc (times k c.records))
      × (lookup i.rid (create_with e req called c).0.room_active ≡ some e.new_call_id)
      × (is_running e.new_call_id (create_with e req called c).0 ≡ true)
unfolding create_with is_running
created_with e req (not_allowed reason) k uid i s c ok tk ts tu placed at stored running member new
      answered =
    absurd (ground (arith, answered))
created_with e req no_session k uid i s c ok tk ts tu placed at stored running member new answered =
    absurd (ground (arith, answered))
created_with e req query_failed k uid i s c ok tk ts tu placed at stored running member new
      answered =
    absurd (ground (arith, answered))
created_with e req (invitees uids scene) k uid i s c ok tk ts tu placed at stored running member new
      answered =
    let inv = new_invite e req uids scene in
    let named : inv.call_id ≡ e.new_call_id = unfold new_invite in refl in
    let in_room : inv.rid ≡ trim e req.rid = unfold new_invite in refl in
    let c1 = finalize_media_call_session_no_active e i s e.visitor.uid c in
    let room = clear_room_lem e i.rid k i s c ok tk at stored running in
    let room' : clear_room e (trim e req.rid) c
        ≡ (if is_empty s.active_uids then some c1 else none) =
      ap (λ r. clear_room e r c) placed ∙ room in
    let other : (e.new_call_id == k) ≡ false =
      ground (arith, new, stored.0, ==_iff e.new_call_id k, ap (λ t. lookup t c.invites)) in
    elim (Bool-cases (is_empty s.active_uids)) [
      | inl free ↦
          let started =
            started_lem e inv (clear_room e (trim e req.rid) c) c c1 (ground (arith, room', free))
              answered in
          let over =
            finalized_IsOver e uid e.visitor.uid i s c running
              (IsTrimmed-of_eq e k i.call_id (sym stored.2) tk) ts tu member in
          let k_is = stored.2 in
          (
            free,
            ground (
              arith,
              started.0,
              named,
              other,
              lookup-insert inv.call_id k inv c1.invites,
              ap (λ t. lookup t c1.invites) k_is,
              over.0,
            ),
            ground (
              arith,
              started.1,
              named,
              other,
              lookup-insert inv.call_id k (fresh_state inv) c1.states,
              ap (λ t. lookup t c1.states) k_is,
              over.1,
            ),
            ap (lookup uid) started.3 ∙ over.3,
            ap (times k) started.4
                ∙ ap (λ t. times t c1.records) (sym k_is)
                ∙ finalized_times e e.visitor.uid i s c ok running
                ∙ ap (λ t. suc (times t c.records)) k_is,
            ground (
              arith,
              started.2,
              named,
              lookup-insert inv.rid i.rid inv.call_id c1.room_active,
              in_room ∙ placed,
              ==_iff inv.rid i.rid,
            ),
            ground (
              arith,
              started.0,
              started.1,
              named,
              lookup-insert inv.call_id e.new_call_id inv c1.invites,
              lookup-insert inv.call_id e.new_call_id (fresh_state inv) c1.states,
              ==_iff inv.call_id e.new_call_id,
            ),
          )
      | inr busy ↦ absurd (
          busy_room e inv (clear_room e (trim e req.rid) c) c (ground (arith, room', busy))
            answered)
    ]

-- A call that is created in a room whose current call runs finds no one in that call, ends it with
-- one record, leaves nothing of it and none of its members in it, and becomes the room's current call,
-- which runs. The reads and the write of the record succeed, the identifier of the new call is new,
-- and no identifier is empty or has blanks round it.
pub created_lem :
    (e : Caller) (d : Desk) (req : CallRequest) (k uid : String) (i : CallInvite) (s : CallState)
    (c : Calls)
    → reads_succeed e ≡ true
    → IsTrimmed e k
    → IsTrimmed e i.rid
    → IsTrimmed e uid
    → trim e req.rid ≡ i.rid
    → lookup i.rid c.room_active ≡ some k
    → IsStored c k i s
    → s.ended ≡ false
    → allow_call_member i uid ≡ true
    → lookup e.new_call_id c.invites ≡ none
    → (create_call_invite e d req c).2 ≡ done false
    → (is_empty s.active_uids ≡ true)
      × (lookup k (create_call_invite e d req c).1.invites ≡ none)
      × (lookup k (create_call_invite e d req c).1.states ≡ none)
      × (lookup uid (create_call_invite e d req c).1.user_active ≡ none)
      × (times k (create_call_invite e d req c).1.records ≡ suc (times k c.records))
      × (lookup i.rid (create_call_invite e d req c).1.room_active ≡ some e.new_call_id)
      × (is_running e.new_call_id (create_call_invite e d req c).1 ≡ true)
unfolding create_call_invite
created_lem e d req k uid i s c ok tk ts tu placed at stored running member new answered =
    created_with e req (check_call e d req).1 k uid i s c ok tk ts tu placed at stored running
      member new answered
