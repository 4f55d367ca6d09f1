-- ===== src/Join/Asked.antt =====
-- db/query/room_join_request.go, CreateOrUpdateRoomJoinRequest: one waiting request for a room and an
-- applicant.
use cc_im_server.Prelude.{
  String, ◌≤◌, Bool, true, false, ◌&&◌, some, List, [], ◌∷◌, ◌==◌, eqb, length, ◌≡◌, refl, arith,
  ==_iff, ==_refl, Option-cases, Bool-cases, inl, inr,
}
use cc_im_server.Join.Desk.{
  Desk, RoomJoinRequest, Visitor, find_request, is_of_applicant,
  get_room_join_request_by_rid_and_applicant, has_pending_room_join_request,
}
use cc_im_server.Join.Requests.{
  renew, save_request, create_or_update, create_or_update_room_join_request,
}

abbrev is_live : String → String → RoomJoinRequest → Bool
is_live rid uid q = is_of_applicant rid uid q && eqb q.delete_time 0

find_is :
    (p : RoomJoinRequest → Bool) (xs : List RoomJoinRequest) (q : RoomJoinRequest)
    → find_request p xs ≡ some q
    → p q ≡ true
unfolding find_request
find_is p [] q h = absurd (ground (arith, h))
find_is p (x ∷ xs) q h = elim (Bool-cases (p x)) [
  | inl e ↦
      let same : some x ≡ some q = rw (← h) (ground (arith, e)) in
      let here : x ≡ q = cc in rw (← here) e
  | inr e ↦ find_is p xs q (ground (arith, e, h))
]

find-save :
    (p : RoomJoinRequest → Bool) (new old : RoomJoinRequest) (xs : List RoomJoinRequest)
    → find_request p xs ≡ some old
    → new.rjr_id ≡ old.rjr_id
    → p new ≡ true
    → find_request p (save_request new xs) ≡ some new
unfolding find_request save_request
find-save p new old [] h same good = absurd (ground (arith, h))
find-save p new old (x ∷ xs) h same good = elim (Bool-cases (x.rjr_id == new.rjr_id)) [
  | inl e ↦ ground (arith, e, good)
  | inr e ↦ elim (Bool-cases (p x)) [
    | inl g ↦ absurd (ground (arith, e, g, h, same, ==_iff x.rjr_id new.rjr_id))
    | inr g ↦ ground (arith, e, g, find-save p new old xs (ground (arith, g, h)) same good)
  ]
]

length-save_request :
    (new : RoomJoinRequest) (xs : List RoomJoinRequest) → length (save_request new xs) ≡ length xs
unfolding save_request
length-save_request new [] = refl
length-save_request new (x ∷ xs) = ground (arith, length-save_request new xs)

-- What a stored request leaves for its room and applicant.
found_after :
    (v : Visitor) (d : Desk) (q r : RoomJoinRequest)
    → (create_or_update_room_join_request v d q).1 ≡ some r
    → eqb q.state 0 ≡ true
    → eqb q.delete_time 0 ≡ true
    → let d' = (create_or_update_room_join_request v d q).0 in
      (get_room_join_request_by_rid_and_applicant d' q.rid q.applicant_uid ≡ some r)
      × (eqb r.state 0 ≡ true)
      × (r.expires_at ≡ q.expires_at)
unfolding create_or_update_room_join_request get_room_join_request_by_rid_and_applicant
found_after v d q r h waits live =
    elim (Option-cases (get_room_join_request_by_rid_and_applicant d q.rid q.applicant_uid)) [
      | inl e ↦ (
        unfold create_or_update find_request in
            ground (arith, e, h, live, ==_refl q.rid, ==_refl q.applicant_uid),
        unfold create_or_update in ground (arith, e, h, waits),
        unfold create_or_update in ground (arith, e, h),
      )
      | inr (old, e) ↦
          let p = is_live q.rid q.applicant_uid in
          let good = find_is p d.requests old e in
          let found : find_request p (save_request (renew q old) d.requests) ≡ some (renew q old) =
            find-save p (renew q old) old d.requests e (unfold renew in refl)
              (unfold renew in good) in
          (
            unfold create_or_update in ground (arith, e, h, found),
            unfold create_or_update renew in ground (arith, e, h),
            unfold create_or_update renew in ground (arith, e, h),
          )
    ]

length_again :
    (v : Visitor) (d : Desk) (q old : RoomJoinRequest)
    → get_room_join_request_by_rid_and_applicant d q.rid q.applicant_uid ≡ some old
    → length (create_or_update_room_join_request v d q).0.requests ≡ length d.requests
unfolding create_or_update_room_join_request create_or_update
length_again v d q old e = ground (arith, e, length-save_request (renew q old) d.requests)

-- A request that is stored waits until it expires, and another request of the same applicant for the
-- same room adds no row.
pub asked_lem :
    (v w : Visitor) (d : Desk) (q r again : RoomJoinRequest)
    → (create_or_update_room_join_request v d q).1 ≡ some r
    → eqb q.state 0 ≡ true
    → eqb q.delete_time 0 ≡ true
    → w.faults.request_query ≡ false
    → w.now ≤ q.expires_at
    → again.rid ≡ q.rid
    → again.applicant_uid ≡ q.applicant_uid
    → let d' = (create_or_update_room_join_request v d q).0 in
      (has_pending_room_join_request w.faults d' w.now q.rid q.applicant_uid ≡ true)
      × (length (create_or_update_room_join_request w d' again).0.requests ≡ length d'.requests)
unfolding has_pending_room_join_request
asked_lem v w d q r again h waits live query fresh same_rid same_uid =
    let d' = (create_or_update_room_join_request v d q).0 in
    let (found, waiting, until) = found_after v d q r h waits live in
    (
      ground (arith, query, found, waiting, until, fresh),
      length_again w d' again r (rw (same_rid, same_uid) found),
    )
