-- ===== src/Join/Attempts.antt =====
-- http/handler/room/join_request.go: later attempts to accept or reject a request, by anyone, one
-- after another.
use cc_im_server.Prelude.{String, List, [], ◌∷◌, map, ◌≡◌, refl, arith}
use cc_im_server.Join.Desk.{Desk, Visitor}
use cc_im_server.Join.Requests.{Reply, refused}
use cc_im_server.Join.Handling.{room_join_request_accept, room_join_request_reject}
use cc_im_server.Join.Committed.{IsHandled, handled_refused}

pub data Attempt : Type 0 where
  accepts : (v : Visitor) → Attempt
  rejects : (v : Visitor) → Attempt

unfoldable attempt : String → Desk → Attempt → Desk × Reply
attempt rjr_id d (accepts v) = room_join_request_accept v d rjr_id
attempt rjr_id d (rejects v) = room_join_request_reject v d rjr_id

-- What the attempts leave, and how each is answered.
unfoldable pub attempts : String → Desk → List Attempt → Desk × List Reply
unfolding attempt
attempts rjr_id d [] = (d, [])
attempts rjr_id d (a ∷ more) =
    let (d', reply) = attempt rjr_id d a in
    let (last, replies) = attempts rjr_id d' more in (last, reply ∷ replies)

attempt_refused :
    (rjr_id : String) (d : Desk) (a : Attempt)
    → IsHandled rjr_id d.requests
    → (reason : String) × (attempt rjr_id d a ≡ (d, refused reason))
unfolding attempt
attempt_refused rjr_id d (accepts v) h = (handled_refused v d rjr_id h).0
attempt_refused rjr_id d (rejects v) h = (handled_refused v d rjr_id h).1

-- Every attempt is refused, and nothing changes.
pub attempts_refused :
    (rjr_id : String) (d : Desk) (more : List Attempt)
    → IsHandled rjr_id d.requests
    → (reasons : List String) × (attempts rjr_id d more ≡ (d, map refused reasons))
unfolding attempts
attempts_refused rjr_id d [] h = ([], refl)
attempts_refused rjr_id d (a ∷ more) h =
    let (reason, one) = attempt_refused rjr_id d a h in
    let (reasons, rest) = attempts_refused rjr_id d more h in
    (reason ∷ reasons, unfold attempt in ground (arith, one, rest))
