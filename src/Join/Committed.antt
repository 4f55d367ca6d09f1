-- ===== src/Join/Committed.antt =====
-- http/handler/room/join_request.go: what committing an acceptance leaves of the request.
use cc_im_server.Prelude.{
  String, ℕ, suc, Bool, true, false, not, ◌||◌, Option, none, some, List, [], ◌∷◌, ◌==◌, eqb, ◌≡◌,
  refl, sym, ap, ◌∙◌, arith, Option-cases, Bool-cases, inl, inr,
}
use cc_im_server.Chat.Tables.{Chat}
use cc_im_server.Join.Desk.{
  Desk, JoinRoom, RoomJoinRequest, Visitor, find_request, is_request, get_room_by_rid,
  get_room_join_request_by_rjr_id, with_chat,
}
use cc_im_server.Join.Enter.{join_room_committed_after_validation}
use cc_im_server.Join.Requests.{refused, joined}
use cc_im_server.Join.Handling.{
  update_room_join_request_state, go, accept_checks, accept_checked, with_handled,
  room_join_request_accept, room_join_request_reject,
}
use cc_im_server.Join.Entered.{join-requests}

waits_no_more : Option RoomJoinRequest → Bool
waits_no_more none = true
waits_no_more (some q) = not (eqb q.state 0)

-- The request, if it is there, waits no more.
unfoldable pub is_handled : String → List RoomJoinRequest → Bool
unfolding waits_no_more
is_handled rjr_id qs = waits_no_more (find_request (is_request rjr_id) qs)

abbrev pub IsHandled : String → List RoomJoinRequest → Type 0
IsHandled rjr_id qs =
    (q : RoomJoinRequest) → find_request (is_request rjr_id) qs ≡ some q → eqb q.state 0 ≡ false

pub handled_flag :
    (rjr_id : String) (qs : List RoomJoinRequest)
    → IsHandled rjr_id qs
    → is_handled rjr_id qs ≡ true
unfolding is_handled
handled_flag rjr_id qs h = elim (Option-cases (find_request (is_request rjr_id) qs)) [
  | inl e ↦ ground (arith, e)
  | inr (q, e) ↦ ground (arith, e, h q e)
]

pub find-update :
    (rjr_id handler : String) (now state : ℕ) (qs : List RoomJoinRequest) (q : RoomJoinRequest)
    → find_request
        (is_request rjr_id)
        (update_room_join_request_state rjr_id handler now (suc state) qs)
      ≡ some q
    → eqb q.state 0 ≡ false
unfolding find_request update_room_join_request_state
find-update rjr_id handler now state [] q h = absurd (ground (arith, h))
find-update rjr_id handler now state (x ∷ qs) q h =
    ground (arith, h, find-update rjr_id handler now state qs q)

pub room-with_chat :
    (v : Visitor) (d : Desk) (c : Chat) (rid : String)
    → get_room_by_rid v.faults (with_chat d c) rid ≡ get_room_by_rid v.faults d rid
unfolding get_room_by_rid
room-with_chat v d c rid = refl

-- Neither handler does anything with a request that waits no more.
pub handled_refused :
    (again : Visitor) (d : Desk) (rjr_id : String)
    → IsHandled rjr_id d.requests
    → ((reason : String) × (room_join_request_accept again d rjr_id ≡ (d, refused reason)))
      × ((reason : String) × (room_join_request_reject again d rjr_id ≡ (d, refused reason)))
unfolding room_join_request_accept accept_checks accept_checked room_join_request_reject
    get_room_join_request_by_rjr_id
handled_refused again d rjr_id handled = elim (Bool-cases (rjr_id == "")) [
  | inl e ↦ (("bad parameter", ground (arith, e)), ("bad parameter", ground (arith, e)))
  | inr e ↦ elim (Bool-cases again.faults.request_query) [
    | inl q ↦ (("no request", ground (arith, e, q)), ("no request", ground (arith, e, q)))
    | inr q ↦ elim (Option-cases (find_request (is_request rjr_id) d.requests)) [
      | inl f ↦ (("no request", ground (arith, e, q, f)), ("no request", ground (arith, e, q, f)))
      | inr (r, f) ↦ (
        ("already handled", ground (arith, e, q, f, handled r f)),
        ("already handled", ground (arith, e, q, f, handled r f)),
      )
    ]
  ]
]

module _ (v : Visitor) (d : Desk) (rjr_id : String) where
  -- What becomes of the requests in an acceptance that passed its tests and was committed.
  committed_requests :
      (q : RoomJoinRequest) (room : JoinRoom)
      → (v.faults.state_update || v.faults.notification_update || v.faults.handle_commit) ≡ false
      → (join_room_committed_after_validation v
          (with_handled v d rjr_id 2)
          q.applicant_uid
          room).0.requests
        ≡ (with_handled v d rjr_id 2).requests
      → (accept_checked v d rjr_id (go q room)).0.requests ≡ (with_handled v d rjr_id 2).requests
  unfolding accept_checked
  committed_requests q room ok kept =
      elim (Option-cases
        (join_room_committed_after_validation v (with_handled v d rjr_id 2) q.applicant_uid
          room).1) [
            | inl e ↦ ground (arith, ok, kept, e)
            | inr (r, e) ↦ ground (arith, ok, kept, e)
          ]

  pub go-IsHandled :
      (q : RoomJoinRequest) (room : JoinRoom)
      → (v.faults.state_update || v.faults.notification_update || v.faults.handle_commit) ≡ false
      → IsHandled rjr_id (accept_checked v d rjr_id (go q room)).0.requests
  go-IsHandled q room ok r found =
      let kept =
        committed_requests q room ok
          (join-requests v (with_handled v d rjr_id 2) q.applicant_uid room) in
      find-update rjr_id v.uid v.now 1 d.requests r
        (sym (ap (λ qs. find_request (is_request rjr_id) qs) kept) ∙ found)

  pub went_through :
      (q : RoomJoinRequest) (room : JoinRoom) (rsid : String)
      → (accept_checked v d rjr_id (go q room)).1 ≡ joined rsid
      → ((v.faults.state_update || v.faults.notification_update || v.faults.handle_commit) ≡ false)
        × ((join_room_committed_after_validation v
              (with_handled v d rjr_id 2)
              q.applicant_uid
              room).1
            ≡ some rsid)
        × ((accept_checked v d rjr_id (go q room)).0.chat.members
            ≡ (join_room_committed_after_validation v
                (with_handled v d rjr_id 2)
                q.applicant_uid
                room).0.chat.members)
        × ((accept_checked v d rjr_id (go q room)).0.rooms
            ≡ (join_room_committed_after_validation v
                (with_handled v d rjr_id 2)
                q.applicant_uid
                room).0.rooms)
  unfolding accept_checked
  went_through q room rsid h =
      elim (Option-cases
        (join_room_committed_after_validation v (with_handled v d rjr_id 2) q.applicant_uid
          room).1) [
            | inl e ↦ absurd (ground (arith, h, e))
            | inr (r, e) ↦ (
              ground (arith, h, e),
              ground (arith, h, e),
              ground (arith, h, e),
              ground (arith, h, e),
            )
          ]
