-- ===== src/Call/Reach.antt =====
-- http/handler/media/stream.go: every history of calls in which the requests and events are handled
-- one after another. Call.Races is about two that meet.
use cc_im_server.Prelude.{
  String, ℕ, Bool, true, false, not, ◌&&◌, Option, none, some, [], ◌≤◌, eqb, ◌≡◌, refl, arith,
  Option-cases, inl, inr,
}
use cc_im_server.Prelude.Assoc.{lookup}
use cc_im_server.Join.Desk.{Desk}
use cc_im_server.Call.Tables.{CallInvite, CallState, Calls, Caller}
use cc_im_server.Call.Sessions.{on_user_message_quic_offline, on_media_room_empty}
use cc_im_server.Call.Members.{
  mark_call_member_joined, leave_call, reject_call_invite, hangup_call, current_call,
}
use cc_im_server.Call.Handlers.{
  CallRequest, create_call_invite, accept_call_invite, issue_join_sign, issue_join_sign_data,
}
use cc_im_server.Call.Intact.{times, intact, IsIntact}
use cc_im_server.Call.Kept.{offline_keeps, empty_keeps}
use cc_im_server.Call.Started.{create_call_keeps}
use cc_im_server.Call.Answered.{
  joined_keeps, leave_call_keeps, reject_keeps, hangup_keeps, current_keeps, accept_keeps,
}

abbrev pub no_calls : Calls
no_calls = record {
  invites = [];
  states = [];
  room_active = [];
  user_active = [];
  join_keys = [];
  records = [];
  notices = [];
}

-- A request is handled or an event is, from its first read to its last write: the reads of the states of calls succeed, and the identifier
-- of a new call is new.
pub data Step : Calls → Calls → Type 0 where
  creates :
      (c : Calls) (e : Caller) (d : Desk) (req : CallRequest)
      → e.faults.state_get ≡ false
      → lookup e.new_call_id c.invites ≡ none
      → times e.new_call_id c.records ≡ 0
      → Step c (create_call_invite e d req c).1
  joins :
      (c : Calls) (e : Caller) (call_id : String)
      → e.faults.state_get ≡ false
      → Step c (mark_call_member_joined e call_id c).0
  leaves :
      (c : Calls) (e : Caller) (call_id : String)
      → e.faults.state_get ≡ false
      → Step c (leave_call e call_id c).0
  rejects :
      (c : Calls) (e : Caller) (call_id : String)
      → e.faults.state_get ≡ false
      → Step c (reject_call_invite e call_id c).0
  hangs_up :
      (c : Calls) (e : Caller) (call_id : String)
      → e.faults.state_get ≡ false
      → Step c (hangup_call e call_id c).0
  accepts : (c : Calls) (e : Caller) (call_id : String) → Step c (accept_call_invite e call_id c).0
  asks : (c : Calls) (e : Caller) (rid : String) → Step c (current_call e rid c).0
  signs :
      (c : Calls) (e : Caller) (rid role : String) (seconds : ℕ)
      → Step c (issue_join_sign e rid role seconds c).0
  goes_offline :
      (c : Calls) (e : Caller) (uid : String)
      → e.faults.state_get ≡ false
      → Step c (on_user_message_quic_offline e uid c)
  empties :
      (c : Calls) (e : Caller) (rid op : String)
      → e.faults.state_get ≡ false
      → Step c (on_media_room_empty e rid op c)

pub data Reach : Calls → Type 0 where
  start : Reach no_calls
  next : {c c' : Calls} → Reach c → Step c c' → Reach c'

sign_keeps :
    (e : Caller) (rid role : String) (seconds : ℕ) (c : Calls)
    → IsIntact c
    → IsIntact (issue_join_sign e rid role seconds c).0
unfolding issue_join_sign issue_join_sign_data
sign_keeps e rid role seconds c h id = ground (arith, h id)

Step-IsIntact : {c c' : Calls} → Step c c' → IsIntact c → IsIntact c'
Step-IsIntact (creates c e d req ok free fresh) h = create_call_keeps e d req c ok free fresh h
Step-IsIntact (joins c e k ok) h = joined_keeps e k c ok h
Step-IsIntact (leaves c e k ok) h = leave_call_keeps e k c ok h
Step-IsIntact (rejects c e k ok) h = reject_keeps e k c ok h
Step-IsIntact (hangs_up c e k ok) h = hangup_keeps e k c ok h
Step-IsIntact (accepts c e k) h = accept_keeps e k c h
Step-IsIntact (asks c e rid) h = current_keeps e rid c h
Step-IsIntact (signs c e rid role seconds) h = sign_keeps e rid role seconds c h
Step-IsIntact (goes_offline c e uid ok) h = offline_keeps e uid c ok h
Step-IsIntact (empties c e rid op ok) h = empty_keeps e rid op c ok h

pub reach-IsIntact : {c : Calls} → Reach c → IsIntact c
unfolding intact times lookup
reach-IsIntact start id = refl
reach-IsIntact (next r s) id = Step-IsIntact s (reach-IsIntact r) id

running_of : Option CallInvite → Option CallState → Bool
running_of none s = false
running_of (some i) none = true
running_of (some i) (some s) = not s.ended

-- The call has an invitation, and its state does not say that it has ended.
unfoldable pub is_running : String → Calls → Bool
unfolding running_of
is_running id c = running_of (lookup id c.invites) (lookup id c.states)

-- As long as requests and events are handled one after another, from the empty store, the reads of
-- call states succeed and new calls get new identifiers, the end of a call is recorded at most once, and no recorded call still runs.
pub recorded_once :
    {c : Calls} (id : String)
    → Reach c
    → (times id c.records ≤ 1) × ((is_running id c && not (eqb (times id c.records) 0)) ≡ false)
unfolding intact is_running
recorded_once {c} id r =
    let h = reach-IsIntact r id in
    elim (Option-cases (lookup id c.invites)) [
      | inl a ↦ (ground (arith, a, h), ground (arith, a, h))
      | inr (i, a) ↦ elim (Option-cases (lookup id c.states)) [
        | inl b ↦ absurd (ground (arith, a, b, h))
        | inr (s, b) ↦ (ground (arith, a, b, h), ground (arith, a, b, h))
      ]
    ]
