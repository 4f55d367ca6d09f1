-- ===== src/Join/Handled.antt =====
-- http/handler/room/join_request.go: a request is handled once, unless two handlers meet.
use cc_im_server.Prelude.{
  String, ◌+◌, true, false, ◌&&◌, ◌||◌, none, some, List, map, ◌==◌, if◌then◌else◌, eqb, ltb, ◌≡◌,
  ◌⊎◌, refl, sym, ap, ◌∙◌, arith, Option-cases, inl, inr,
}
use cc_im_server.Mute.State.{RoomUser, can_user_mute_in_room, get_room_user}
use cc_im_server.Join.Desk.{
  Desk, JoinRoom, RoomJoinRequest, Visitor, find_request, is_request, get_room_by_rid,
  get_room_join_request_by_rjr_id, has_room_user,
}
use cc_im_server.Join.Enter.{add_member_count, join_room_committed_after_validation}
use cc_im_server.Join.Requests.{refused, failed, joined, rejected}
use cc_im_server.Join.Handling.{
  Checked, refuse, go, accept_checks, accept_checked, with_handled, room_join_request_accept,
  room_join_request_reject,
}
use cc_im_server.Join.Entered.{is_member, join_leaves, join_failed}
use cc_im_server.Join.Attempts.{Attempt, attempts, attempts_refused}
use cc_im_server.Join.Counted.{member_count_of, manager, counts_one_more}
use cc_im_server.Join.Committed.{
  is_handled, IsHandled, handled_flag, find-update, room-with_chat, go-IsHandled, went_through,
}

Checked-cases :
    (c : Checked)
    → ((reason : String) × (c ≡ refuse reason))
      ⊎ ((q : RoomJoinRequest) × (room : JoinRoom) × (c ≡ go q room))
Checked-cases (refuse reason) = inl (reason, refl)
Checked-cases (go q room) = inr (q, room, refl)

module _ (v : Visitor) (d : Desk) (rjr_id : String) where
  -- What the tests of an acceptance have found.
  checks_found :
      (q : RoomJoinRequest) (room : JoinRoom)
      → (accept_checks v d rjr_id).1 ≡ go q room
      → (get_room_join_request_by_rjr_id v.faults d rjr_id ≡ some q)
        × (eqb q.state 0 ≡ true)
        × ((ltb 0 q.expires_at && ltb q.expires_at v.now) ≡ false)
        × (can_user_mute_in_room v.mute_faults d.chat.mute q.rid v.uid ≡ true)
        × (get_room_by_rid v.faults d q.rid ≡ some room)
        × ((accept_checks v d rjr_id).0.requests ≡ d.requests)
        × ((accept_checks v d rjr_id).0.rooms ≡ d.rooms)
  unfolding accept_checks has_room_user
  checks_found q room h = elim (Option-cases (get_room_join_request_by_rjr_id v.faults d rjr_id)) [
    | inl e ↦ absurd (ground (arith, e, h))
    | inr (r, e) ↦
        let here = (has_room_user v d r.rid r.applicant_uid).0 in
        let same = room-with_chat v d here.chat r.rid in
        elim (Option-cases (get_room_by_rid v.faults d r.rid)) [
          | inl g ↦ absurd (ground (arith, e, h, g, same))
          | inr (found, g) ↦ (
            ground (arith, e, h, g, same),
            ground (arith, e, h, g, same),
            ground (arith, e, h, g, same),
            ground (arith, e, h, g, same),
            ground (arith, e, h, g, same),
            ground (arith, e, h, g, same),
            ground (arith, e, h, g, same),
          )
        ]
  ]

  -- Accepting a request brings the applicant in only after all tests: the request waited and had
  -- not expired, the handler has the role of an administrator or the owner in the room, and the room
  -- is there. Then the applicant is a member, the room counts one member more and every other room
  -- the same, and the request waits no more.
  pub accept_lem :
      (rsid : String)
      → (room_join_request_accept v d rjr_id).1 ≡ joined rsid
      → let d' = (room_join_request_accept v d rjr_id).0 in
        (q : RoomJoinRequest) × (room : JoinRoom) × (get_room_join_request_by_rjr_id v.faults d
            rjr_id
          ≡ some q)
        × (eqb q.state 0 ≡ true)
        × ((ltb 0 q.expires_at && ltb q.expires_at v.now) ≡ false)
        × (u : RoomUser) × (get_room_user v.mute_faults d.chat.mute q.rid v.uid ≡ some u)
        × ((u.role ≡ 1) ⊎ (u.role ≡ 2))
        × (get_room_by_rid v.faults d q.rid ≡ some room)
        × (is_member room.rid q.applicant_uid d'.chat.members.room_users ≡ true)
        × ((rid : String)
            → member_count_of v d' rid
              ≡ (if rid == q.rid then some (room.member_count + 1) else member_count_of v d rid))
        × (is_handled rjr_id d'.requests ≡ true)
  unfolding room_join_request_accept
  accept_lem rsid h = elim (Checked-cases (accept_checks v d rjr_id).1) [
    | inl (reason, e) ↦ absurd (unfold accept_checked in ground (arith, e, h))
    | inr (q, room, e) ↦
        let d1 = (accept_checks v d rjr_id).0 in
        let (found, waits, fresh, may, here, _, rooms) = checks_found q room e in
        let step : room_join_request_accept v d rjr_id ≡ accept_checked v d1 rjr_id (go q room) =
          ap (accept_checked v d1 rjr_id) e in
        let (ok, in_room, members_kept, rooms_kept) =
          went_through v d1 rjr_id q room rsid (sym (ap (λ r. r.1) step) ∙ h) in
        let (u, ranked, manages) = manager v d q.rid may in
        let (n, _, (_, counted_in, _, _), member) =
          join_leaves v (with_handled v d1 rjr_id 2) q.applicant_uid room rsid in_room in
        (
          q,
          room,
          found,
          waits,
          fresh,
          u,
          ranked,
          manages,
          here,
          rw (step, members_kept) member,
          λ rid. counts_one_more v d (room_join_request_accept v d rjr_id).0 q.rid rid room here (
              ap (λ r. r.0.rooms) step
              ∙ rooms_kept
              ∙ counted_in
              ∙ ap (add_member_count room.rid) rooms),
          ap (λ o. is_handled rjr_id o.0.requests) step
              ∙ handled_flag rjr_id (accept_checked v d1 rjr_id (go q room)).0.requests
                  (go-IsHandled v d1 rjr_id q room ok),
        )
  ]

  reject-IsHandled :
      (room_join_request_reject v d rjr_id).1 ≡ rejected
      → IsHandled rjr_id (room_join_request_reject v d rjr_id).0.requests
  unfolding room_join_request_reject
  reject-IsHandled h r get =
      elim (Option-cases (get_room_join_request_by_rjr_id v.faults d rjr_id)) [
        | inl e ↦ absurd (ground (arith, e, h))
        | inr (q, e) ↦ find-update rjr_id v.uid v.now 0 d.requests r (ground (arith, e, h, get))
      ]

  accept-IsHandled :
      (rsid : String)
      → (room_join_request_accept v d rjr_id).1 ≡ joined rsid
      → IsHandled rjr_id (room_join_request_accept v d rjr_id).0.requests
  unfolding room_join_request_accept
  accept-IsHandled rsid h = elim (Checked-cases (accept_checks v d rjr_id).1) [
    | inl (reason, e) ↦ absurd (unfold accept_checked in ground (arith, e, h))
    | inr (q, room, e) ↦
        let d1 = (accept_checks v d rjr_id).0 in
        let step : room_join_request_accept v d rjr_id ≡ accept_checked v d1 rjr_id (go q room) =
          ap (accept_checked v d1 rjr_id) e in
        let (ok, _, _, _) = went_through v d1 rjr_id q room rsid (sym (ap (λ r. r.1) step) ∙ h) in
        λ r get.
          go-IsHandled v d1 rjr_id q room ok r
            (sym (ap (λ o. find_request (is_request rjr_id) o.0.requests) step) ∙ get)
  ]

  stays_handled :
      (d' : Desk) (more : List Attempt)
      → IsHandled rjr_id d'.requests
      → (is_handled rjr_id d'.requests ≡ true)
        × ((reasons : List String) × (attempts rjr_id d' more ≡ (d', map refused reasons)))
  stays_handled d' more h = (handled_flag rjr_id d'.requests h, attempts_refused rjr_id d' more h)

  -- Once a request has been accepted, with the applicant brought in, or rejected, it waits no more,
  -- and however many times it is then accepted or rejected, by anyone and one after another, each
  -- attempt is refused and changes nothing. No new application comes between, which would renew it.
  pub handled_once :
      (more : List Attempt) (d' : Desk) (rsid : String)
      → (room_join_request_accept v d rjr_id ≡ (d', joined rsid))
        ⊎ (room_join_request_reject v d rjr_id ≡ (d', rejected))
      → (is_handled rjr_id d'.requests ≡ true)
        × ((reasons : List String) × (attempts rjr_id d' more ≡ (d', map refused reasons)))
  handled_once more d' rsid (inl h) = stays_handled d' more (λ r get.
      accept-IsHandled rsid (ap (λ o. o.1) h) r
        (ap (λ o. find_request (is_request rjr_id) o.0.requests) h ∙ get))
  handled_once more d' rsid (inr h) = stays_handled d' more (λ r get.
      reject-IsHandled (ap (λ o. o.1) h) r
        (ap (λ o. find_request (is_request rjr_id) o.0.requests) h ∙ get))

-- When the join fails after the handling of a request was committed, the tables of members and rooms
-- stay as they were, but the request waits no more, and however many times it is then accepted or
-- rejected, by anyone and one after another, each attempt is refused and changes nothing. No new
-- application comes between, which would renew it.
pub accepted_not_joined :
    (v : Visitor) (more : List Attempt) (d : Desk) (rjr_id : String) (q : RoomJoinRequest)
    (room : JoinRoom)
    → (v.faults.state_update || v.faults.notification_update || v.faults.handle_commit) ≡ false
    → (join_room_committed_after_validation v (with_handled v d rjr_id 2) q.applicant_uid room).1
      ≡ none
    → let (d', reply) = accept_checked v d rjr_id (go q room) in
      (reply ≡ failed)
      × (d'.chat.members.room_users ≡ d.chat.members.room_users)
      × (d'.rooms ≡ d.rooms)
      × (is_handled rjr_id d'.requests ≡ true)
      × ((reasons : List String) × (attempts rjr_id d' more ≡ (d', map refused reasons)))
accepted_not_joined v more d rjr_id q room ok fails =
    let kept = join_failed v (with_handled v d rjr_id 2) q.applicant_uid room fails in
    let handled =
      stays_handled v d rjr_id (accept_checked v d rjr_id (go q room)).0 more
        (go-IsHandled v d rjr_id q room ok) in
    (
      unfold accept_checked in ground (arith, ok, fails),
      unfold accept_checked in ground (arith, ok, fails, kept),
      unfold accept_checked in ground (arith, ok, fails, kept),
      handled.0,
      handled.1,
    )
