-- ===== src/Owner/Dissolved.antt =====
-- http/handler/room/room.go and quic/handler/message_handler.go: what is left to do in a dissolved
-- room.
use cc_im_server.Prelude.{
  String, ℕ, Bool, true, ◌&&◌, Option, none, some, List, [], ◌∷◌, eqb, ltb, ◌≡◌, ◌≢◌, ap, ◌∙◌,
  arith, Option-cases, inl, inr,
}
use cc_im_server.Mute.State.{RoomUser, get_room_user}
use cc_im_server.Chat.Tables.{
  Chat, ChatFaults, Room, get_room_by_rid_any, find_existing_room_message,
}
use cc_im_server.Chat.Send.{
  Sender, ClientRoomMessage, sent, send_tested, handler_room_message, test_message, test_existing,
  test_room,
}
use cc_im_server.Join.Desk.{Desk, JoinRoom, JoinFaults, Visitor, get_room_by_rid}
use cc_im_server.Owner.Handlers.{
  done, room_user_role_update, room_owner_transfer, room_member_kick, room_leave,
}
use cc_im_server.Owner.Dissolve.{dissolve_rows, dissolve_chat_rooms, dissolved, room_dissolve}

-- No row of the room is active in the join view.
gone_room :
    (f : JoinFaults) (d : Desk) (rid : String) (rooms : List JoinRoom)
    → get_room_by_rid f (record d { rooms = dissolve_rows rid rooms }) rid ≡ none
unfolding get_room_by_rid dissolve_rows
gone_room f d rid [] = ground arith
gone_room f d rid (r ∷ rooms) = ground (arith, gone_room f d rid rooms)

-- Every row of the chat view is active or dissolved.
unfoldable pub known_states : List Room → Bool
known_states [] = true
known_states (r ∷ rooms) = ltb r.state 2 && known_states rooms

abbrev state_of_room : Option Room → ℕ
state_of_room none = 0
state_of_room (some r) = r.state

gone_chat_room :
    (f : ChatFaults) (s : Chat) (rid : String) (rooms : List Room)
    → known_states rooms ≡ true
    → state_of_room (get_room_by_rid_any f (record s { rooms = dissolve_chat_rooms rid rooms }) rid)
      ≡ 0
unfolding get_room_by_rid_any dissolve_chat_rooms known_states
gone_chat_room f s rid [] known = ground arith
gone_chat_room f s rid (r ∷ rooms) known = ground (arith, known, gone_chat_room f s rid rooms)

-- A handler that finds no room refuses.
refuse_all :
    (w : Visitor) (d : Desk) (rid target : String) (role : ℕ)
    → w.trim_space rid ≡ rid
    → get_room_by_rid w.faults d rid ≡ none
    → ((room_member_kick w d rid target).1 ≢ done)
      × ((room_owner_transfer w d rid target).1 ≢ done)
      × ((room_user_role_update w d rid target role).1 ≢ done)
      × ((room_leave w d rid).1 ≢ done)
unfolding room_member_kick room_owner_transfer room_user_role_update room_leave
refuse_all w d rid target role trimmed none_found =
    let found : get_room_by_rid w.faults d (w.trim_space rid) ≡ none =
      ap (get_room_by_rid w.faults d) trimmed ∙ none_found in
    (
      λ h. ground (arith, found, h),
      λ h. ground (arith, none_found, h),
      λ h. ground (arith, none_found, h),
      λ h. ground (arith, found, h),
    )

refuse_message :
    (env : Sender) (s : Chat) (m : ClientRoomMessage) (mid : String)
    → state_of_room (get_room_by_rid_any env.faults s m.rid) ≡ 0
    → (handler_room_message env s m).1 ≢ sent mid
unfolding handler_room_message test_message test_existing test_room send_tested
refuse_message env s m mid gone =
    elim (Option-cases (find_existing_room_message s.rows m.rid m.client_mid env.uid)) [
      | inl e ↦ elim (Option-cases (get_room_by_rid_any env.faults s m.rid)) [
        | inl g ↦ λ h. ground (arith, e, g, h)
        | inr (room, g) ↦ λ h. ground (arith, e, g, gone, h)
      ]
      | inr (r, e) ↦ λ h. ground (arith, e, h)
    ]

dissolved_step :
    (v : Visitor) (d : Desk) (rid : String)
    → (room_dissolve v d rid).1 ≡ done
    → (u : RoomUser) × (get_room_user v.mute_faults d.chat.mute (v.trim_space rid) v.uid ≡ some u)
      × (eqb u.role 2 ≡ true)
      × ((room_dissolve v d rid).0 ≡ dissolved v d (v.trim_space rid))
unfolding room_dissolve
dissolved_step v d rid h =
    let r = v.trim_space rid in
    elim (Option-cases (get_room_by_rid v.faults d r)) [
      | inl e ↦ absurd (ground (arith, e, h))
      | inr (room, e) ↦ elim (Option-cases (get_room_user v.mute_faults d.chat.mute r v.uid)) [
        | inl g ↦ absurd (ground (arith, e, g, h))
        | inr (u, g) ↦ (u, g, ground (arith, e, g, h), ground (arith, e, g, h))
      ]
    ]

-- A room that is dissolved was so by a member with the owner's role, and nothing succeeds in it any
-- more, whoever asks: no kick, transfer, change of a role or leave, and no message to it is stored.
-- The room's rows are active or dissolved, and its trimmed name has no blanks round it.
pub dissolve_lem :
    (v w : Visitor) (d : Desk) (rid target : String) (role : ℕ) (env : Sender)
    (m : ClientRoomMessage) (mid : String)
    → (room_dissolve v d rid).1 ≡ done
    → known_states d.chat.rooms ≡ true
    → w.trim_space (v.trim_space rid) ≡ v.trim_space rid
    → m.rid ≡ v.trim_space rid
    → ((u : RoomUser) × (get_room_user v.mute_faults d.chat.mute (v.trim_space rid) v.uid ≡ some u)
        × (eqb u.role 2 ≡ true))
      × ((room_member_kick w (room_dissolve v d rid).0 (v.trim_space rid) target).1 ≢ done)
      × ((room_owner_transfer w (room_dissolve v d rid).0 (v.trim_space rid) target).1 ≢ done)
      × ((room_user_role_update w (room_dissolve v d rid).0 (v.trim_space rid) target role).1
          ≢ done)
      × ((room_leave w (room_dissolve v d rid).0 (v.trim_space rid)).1 ≢ done)
      × ((handler_room_message env (room_dissolve v d rid).0.chat m).1 ≢ sent mid)
dissolve_lem v w d rid target role env m mid h known trimmed to =
    let r = v.trim_space rid in
    let d' = (room_dissolve v d rid).0 in
    let (u, found, owner, step) = dissolved_step v d rid h in
    let gone : get_room_by_rid w.faults d' r ≡ none =
      ap (λ x. get_room_by_rid w.faults x r) step
      ∙ (unfold dissolved in gone_room w.faults (dissolved v d r) r d.rooms) in
    let silent : state_of_room (get_room_by_rid_any env.faults d'.chat m.rid) ≡ 0 =
      ap (λ x. state_of_room (get_room_by_rid_any env.faults x.chat m.rid)) step
      ∙ ap (λ t. state_of_room (get_room_by_rid_any env.faults (dissolved v d r).chat t)) to
      ∙ (unfold dissolved in
          gone_chat_room env.faults (dissolved v d r).chat r d.chat.rooms known) in
    let refused = refuse_all w d' r target role trimmed gone in
    (
      (u, found, owner),
      refused.0,
      refused.1,
      refused.2,
      refused.3,
      refuse_message env d'.chat m mid silent,
    )
