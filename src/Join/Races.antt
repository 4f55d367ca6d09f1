-- ===== src/Join/Races.antt =====
-- http/handler/room/join_request.go: two handlers accept one request at the same time.
use cc_im_server.Prelude.{String, true, length, ◌≡◌, sym, ap, ◌∙◌}
use cc_im_server.Join.Desk.{Desk, JoinRoom, RoomJoinRequest, Visitor}
use cc_im_server.Join.Enter.{add_member_count, upsert_members}
use cc_im_server.Join.Requests.{joined}
use cc_im_server.Join.Handling.{go, accept_checked, with_handled}
use cc_im_server.Join.Entered.{is_member, join_leaves, length-upsert_members}
use cc_im_server.Join.Committed.{went_through}

-- What an acceptance after the tests leaves, if it brings the applicant in.
accepted_tables :
    (v : Visitor) (d : Desk) (rjr_id : String) (q : RoomJoinRequest) (room : JoinRoom)
    (rsid : String)
    → (accept_checked v d rjr_id (go q room)).1 ≡ joined rsid
    → let d' = (accept_checked v d rjr_id (go q room)).0 in
      (d'.rooms ≡ add_member_count room.rid d.rooms)
      × (d'.chat.members.room_users
          ≡ upsert_members room.rid q.applicant_uid d.chat.members.room_users)
      × (is_member room.rid q.applicant_uid d'.chat.members.room_users ≡ true)
accepted_tables v d rjr_id q room rsid h =
    let (ok, in_room, members, rooms) = went_through v d rjr_id q room rsid h in
    let (n, _, (users, counted, _, _), member) =
      join_leaves v (with_handled v d rjr_id 2) q.applicant_uid room rsid in_room in
    (
      rooms ∙ counted,
      ap (λ m. m.room_users) members ∙ users,
      ap (λ m. is_member room.rid q.applicant_uid m.room_users) members ∙ member,
    )

-- When the tests of two acceptances of one request have both passed before either is committed, and
-- both bring the applicant in, the room counts two members more, while the second adds no row of a
-- member.
pub double_accept :
    (v w : Visitor) (d d' d'' : Desk) (rjr_id : String) (q : RoomJoinRequest) (room : JoinRoom)
    (first second : String)
    → accept_checked v d rjr_id (go q room) ≡ (d', joined first)
    → accept_checked w d' rjr_id (go q room) ≡ (d'', joined second)
    → (d''.rooms ≡ add_member_count room.rid (add_member_count room.rid d.rooms))
      × (length d''.chat.members.room_users ≡ length d'.chat.members.room_users)
double_accept v w d d' d'' rjr_id q room first second h k =
    let (rooms, _, member) = accepted_tables v d rjr_id q room first (ap (λ r. r.1) h) in
    let (rooms', users', _) = accepted_tables w d' rjr_id q room second (ap (λ r. r.1) k) in
    let is_first = ap (λ r. r.0) h in
    let is_second = ap (λ r. r.0) k in
    let in_room =
      sym (ap (λ (t : Desk). is_member room.rid q.applicant_uid t.chat.members.room_users) is_first)
      ∙ member in
    (
      sym (ap (λ (t : Desk). t.rooms) is_second)
          ∙ rooms'
          ∙ ap (add_member_count room.rid) (sym (ap (λ (t : Desk). t.rooms) is_first) ∙ rooms),
      sym (ap (λ (t : Desk). length t.chat.members.room_users) is_second)
          ∙ ap length users'
          ∙ length-upsert_members room.rid q.applicant_uid d'.chat.members.room_users in_room,
    )
