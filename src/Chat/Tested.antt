-- ===== src/Chat/Tested.antt =====
-- quic/handler/message_handler.go, handlerRoomMessage: what the tests before the transaction have found.
use cc_im_server.Prelude.{
  String, ℕ, true, false, not, ◌&&◌, Option, none, some, List, eqb, ◌≡◌, refl, sym, ap, ◌∙◌, arith,
  Option-cases, Bool-cases, inl, inr,
}
use cc_im_server.Delivery.Store.{Store, get_room_user_ids_cache}
use cc_im_server.Mute.Rule.{
  Verdict, may_speak, muted, muted_time_range, muted_frequency, is_user_muted_in_room,
}
use cc_im_server.Chat.Tables.{Room, Chat, find_existing_room_message, get_room_by_rid_any}
use cc_im_server.Chat.Sequence.{get_room_seq_id}
use cc_im_server.Chat.Send.{
  Sender, ClientRoomMessage, Tested, go, take_number, is_free, test_mute, test_friend, test_room,
  test_existing, test_message,
}

abbrev pub with_members : Chat → Store → Chat
with_members s store = record s { members = store }

free_of : (v : Verdict) → is_free v ≡ true → v ≡ may_speak
unfolding is_free
free_of may_speak h = refl
free_of muted h = cc
free_of muted_time_range h = cc
free_of muted_frequency h = cc

module _ (env : Sender) (s : Chat) (rid : String) where
  -- The tests have ended with the number n, taken in the state with this member cache.
  abbrev pub Passes : Chat × Tested → ℕ → Type 0
  Passes r n =
      (store : Store) × (get_room_seq_id env.faults (with_members s store) rid ≡ (r.0, some n))
      × (is_user_muted_in_room env.json env.mute_faults s.mute env.now rid env.uid ≡ may_speak)

  take_number-Passes :
      (store : Store) (n : ℕ)
      → is_user_muted_in_room env.json env.mute_faults s.mute env.now rid env.uid ≡ may_speak
      → (take_number env (with_members s store) rid).1 ≡ go n
      → Passes (take_number env (with_members s store) rid) n
  unfolding take_number
  take_number-Passes store n free h =
      let got = get_room_seq_id env.faults (with_members s store) rid in
      elim (Option-cases got.1) [
        | inl e ↦ absurd (ground (arith, e, h))
        | inr (k, e) ↦ (store, ground (arith, e, h), free)
      ]

  test_mute-Passes :
      (store : Store) (n : ℕ)
      → (test_mute env (with_members s store) rid).1 ≡ go n
      → Passes (test_mute env (with_members s store) rid) n
  unfolding test_mute
  test_mute-Passes store n h =
      let v = is_user_muted_in_room env.json env.mute_faults s.mute env.now rid env.uid in
      elim (Bool-cases (is_free v)) [
        | inl e ↦
            let step : test_mute env (with_members s store) rid
                ≡ take_number env (with_members s store) rid =
              ground (arith, e) in
            rw step (take_number-Passes store n (free_of v e) (sym (ap (λ r. r.1) step) ∙ h))
        | inr e ↦ absurd (ground (arith, e, h))
      ]

  test_friend-Passes :
      (m : Store × Option (List String)) (n : ℕ)
      → (test_friend env s rid m).1 ≡ go n
      → Passes (test_friend env s rid m) n
  unfolding test_friend
  test_friend-Passes (store, none) n h = absurd (ground (arith, h))
  test_friend-Passes (store, some ids) n h =
      let step : test_friend env s rid (store, some ids)
          ≡ test_mute env (with_members s store) rid =
        ground (arith, h) in
      rw step (test_mute-Passes store n (sym (ap (λ r. r.1) step) ∙ h))

  test_room-Passes :
      (o : Option Room) (n : ℕ)
      → (test_room env s rid o).1 ≡ go n
      → Passes (test_room env s rid o) n
        × ((room : Room) × (o ≡ some room) × (eqb room.state 0 ≡ false))
  unfolding test_room
  test_room-Passes none n h = absurd (ground (arith, h))
  test_room-Passes (some room) n h =
      let cached =
        get_room_user_ids_cache env.member_faults.cache_get env.member_faults s.members rid in
      elim (Bool-cases (eqb room.type 0 && not room.allow_non_friend_chat)) [
        | inl e ↦
            let step : test_room env s rid (some room) ≡ test_friend env s rid cached =
              ground (arith, e, h) in
            (
              rw step (test_friend-Passes cached n (sym (ap (λ r. r.1) step) ∙ h)),
              (room, refl, ground (arith, h)),
            )
        | inr e ↦
            let step : test_room env s rid (some room)
                ≡ test_mute env (with_members s s.members) rid =
              ground (arith, e, h) in
            (
              rw step (test_mute-Passes s.members n (sym (ap (λ r. r.1) step) ∙ h)),
              (room, refl, ground (arith, h)),
            )
      ]

-- What the tests of a message that goes on to the transaction have found.
abbrev pub IsTested : Sender → Chat → ClientRoomMessage → ℕ → Type 0
IsTested env s m n =
    Passes env s m.rid (test_message env s m) n
    × ((room : Room) × (get_room_by_rid_any env.faults s m.rid ≡ some room)
        × (eqb room.state 0 ≡ false))
    × (find_existing_room_message s.rows m.rid m.client_mid env.uid ≡ none)

pub test_message-IsTested :
    (env : Sender) (s : Chat) (m : ClientRoomMessage) (n : ℕ)
    → (test_message env s m).1 ≡ go n
    → IsTested env s m n
unfolding test_message test_existing
test_message-IsTested env s m n h =
    elim (Option-cases (find_existing_room_message s.rows m.rid m.client_mid env.uid)) [
      | inl e ↦
          let room = get_room_by_rid_any env.faults s m.rid in
          let step : test_message env s m ≡ test_room env s m.rid room = ground (arith, e, h) in
          let (passes, found) =
            test_room-Passes env s m.rid room n (sym (ap (λ r. r.1) step) ∙ h) in
          (rw step passes, found, e)
      | inr (r, e) ↦ absurd (ground (arith, e, h))
    ]
