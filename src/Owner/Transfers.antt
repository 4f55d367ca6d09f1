-- ===== src/Owner/Transfers.antt =====
-- http/handler/room/room.go: the transfer of a room, and an owner without the role.
use cc_im_server.Prelude.{
  String, ℕ, true, false, ◌&&◌, List, [], ◌∷◌, ◌==◌, eqb, any, ◌≡◌, refl, sym, ap, ◌∙◌, arith,
  ==_iff, Option-cases, Bool-cases, inl, inr,
}
use cc_im_server.Mute.State.{RoomUser, get_room_user, update_users}
use cc_im_server.Join.Desk.{Desk, Visitor, get_room_by_rid, has_room_user}
use cc_im_server.Owner.Handlers.{
  done, with_role, set_role, Transfer, answer_transfer, transfer_room_owner, transferred,
  room_owner_transfer, room_user_role_update,
}
use cc_im_server.Owner.Owned.{
  only_owner, is_in, IsOwned, found_owner, found_in, role_in_keeps, transfer_keeps,
}
use cc_im_server.Owner.Kept.{users, user_found}

transferred_lem :
    (v : Visitor) (d : Desk) (rid o operator target : String)
    → IsOwned rid o (users d)
    → (transfer_room_owner v d rid operator target).1 ≡ transferred
    → ((operator == o) ≡ true)
      × ((operator == target) ≡ false)
      × (is_in rid target (users d) ≡ true)
      × (users (transfer_room_owner v d rid operator target).0
          ≡ set_role rid target 2 (set_role rid operator 0 (users d)))
unfolding transfer_room_owner
transferred_lem v d rid o operator target (only, here) h =
    elim (Option-cases (get_room_user v.mute_faults d.chat.mute rid operator)) [
      | inl e ↦ absurd (ground (arith, e, h))
      | inr (u, e) ↦ elim (Option-cases (get_room_user v.mute_faults d.chat.mute rid target)) [
        | inl g ↦ absurd (ground (arith, e, g, h))
        | inr (t, g) ↦
            let owner =
              found_owner rid o operator (users d) u only
                (user_found v.mute_faults d.chat.mute rid operator u e) in
            (
              ground (arith, e, g, h, owner),
              ground (arith, e, g, h),
              found_in rid target (users d) t (user_found v.mute_faults d.chat.mute rid target t g),
              ground (arith, e, g, h),
            )
      ]
    ]

answered :
    (r : Desk × Transfer)
    → (answer_transfer r).1 ≡ done
    → (r.1 ≡ transferred) × ((answer_transfer r).0 ≡ r.0)
unfolding answer_transfer
answered (d, Transfer.invalid_target) h = absurd (ground (arith, h))
answered (d, Transfer.not_owner) h = absurd (ground (arith, h))
answered (d, Transfer.broken) h = absurd (ground (arith, h))
answered (d, Transfer.transferred) h = (refl, refl)

-- In a room with exactly one owner, a transfer that succeeds was asked for by the owner, and makes
-- the target the only owner.
pub transfer_lem :
    (v : Visitor) (d : Desk) (rid o target : String)
    → IsOwned rid o (users d)
    → (room_owner_transfer v d rid target).1 ≡ done
    → (v.uid ≡ o) × IsOwned rid target (users (room_owner_transfer v d rid target).0)
unfolding room_owner_transfer
transfer_lem v d rid o target owned h =
    let d' = (has_room_user v d rid target).0 in
    let owned' : IsOwned rid o (users d') = unfold has_room_user in owned in
    let result = transfer_room_owner v d' rid v.uid target in
    let step : room_owner_transfer v d rid target ≡ answer_transfer result =
      elim (Option-cases (get_room_by_rid v.faults d rid)) [
        | inl e ↦ absurd (ground (arith, e, h))
        | inr (room, e) ↦ ground (arith, e, h)
      ] in
    let (moved, state) = answered result (sym (ap (λ r. r.1) step) ∙ h) in
    let (owner, ne, inside, rows) = transferred_lem v d' rid o v.uid target owned' moved in
    let is_o : v.uid ≡ o = (==_iff v.uid o).0 owner in
    let other : (o == target) ≡ false = sym (ap (λ t. t == target) is_o) ∙ ne in
    let after = ap (λ r. users r.0) step ∙ ap users state ∙ rows in
    (
      is_o,
      (
        ap (only_owner rid target) after
            ∙ ap (λ t. only_owner rid target (set_role rid target 2 (set_role rid t 0 (users d'))))
                is_o
            ∙ transfer_keeps rid o target (users d') other owned'.0,
        ap (is_in rid target) after
            ∙ role_in_keeps rid target target 2 (set_role rid v.uid 0 (users d'))
                (role_in_keeps rid v.uid target 0 (users d') inside),
      ),
    )

nobody_owns :
    (rid o : String) (role : ℕ) (us : List RoomUser)
    → eqb role 2 ≡ false
    → only_owner rid o us ≡ true
    → any (λ u. u.rid == rid && eqb u.delete_time 0 && eqb u.role 2) (set_role rid o role us)
      ≡ false
unfolding only_owner set_role update_users with_role
nobody_owns rid o role [] low h = refl
nobody_owns rid o role (x ∷ us) low h = ground (arith, low, h, nobody_owns rid o role us)

-- When the only owner of a room changes their own role, which the handler lets the recorded creator
-- do, no member has the owner's role afterwards.
pub demoted_lem :
    (v : Visitor) (d : Desk) (rid : String) (role : ℕ)
    → IsOwned rid v.uid (users d)
    → (room_user_role_update v d rid v.uid role).1 ≡ done
    → any
        (λ u. u.rid == rid && eqb u.delete_time 0 && eqb u.role 2)
        (users (room_user_role_update v d rid v.uid role).0)
      ≡ false
unfolding room_user_role_update
demoted_lem v d rid role owned h =
    let d' = (has_room_user v d rid v.uid).0 in
    let owned' : IsOwned rid v.uid (users d') = unfold has_room_user in owned in
    elim (Option-cases (get_room_by_rid v.faults d rid)) [
      | inl e ↦ absurd (ground (arith, e, h))
      | inr (room, e) ↦ elim (Option-cases (get_room_user v.mute_faults d'.chat.mute rid v.uid)) [
        | inl g ↦ absurd (ground (arith, e, g, h))
        | inr (u, g) ↦ elim (Bool-cases (eqb role 2)) [
          | inl top ↦ absurd (ground (arith, e, g, top, h))
          | inr low ↦
              ground (arith, e, g, low, h, nobody_owns rid v.uid role (users d') low owned'.0)
        ]
      ]
    ]
