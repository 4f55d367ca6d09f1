-- ===== src/Owner/Kept.antt =====
-- http/handler/room/room.go: kicks, leaves and roles keep the owner of a room.
use cc_im_server.Prelude.{
  String, ℕ, true, false, some, List, ◌==◌, eqb, ◌≡◌, sym, ap, ◌∙◌, arith, Option-cases, Bool-cases,
  inl, inr,
}
use cc_im_server.Mute.State.{RoomUser, MuteFaults, MuteState, first_user, get_room_user}
use cc_im_server.Join.Desk.{Desk, Visitor, get_room_by_rid, has_room_user}
use cc_im_server.Owner.Handlers.{
  room_user_role_update, remove_member, can_kick_member_in_room, room_member_kick, room_leave,
}
use cc_im_server.Owner.Owned.{
  only_owner, is_in, IsOwned, found_owner, role_keeps, role_in_keeps, remove_keeps, remove_in_keeps,
}

abbrev pub users : Desk → List RoomUser
users d = d.chat.mute.users

pub user_found :
    (f : MuteFaults) (s : MuteState) (rid uid : String) (u : RoomUser)
    → get_room_user f s rid uid ≡ some u
    → first_user rid uid s.users ≡ some u
unfolding get_room_user
user_found f s rid uid u h = ground (arith, h)

removed_keeps :
    (v : Visitor) (d : Desk) (rid o uid op : String)
    → (uid == o) ≡ false
    → IsOwned rid o (users d)
    → IsOwned rid o (users (remove_member v d rid uid op).0)
unfolding remove_member
removed_keeps v d rid o uid op ne (only, here) = (
  ground (arith, only, remove_keeps rid o uid v.now (users d) ne only),
  ground (arith, here, remove_in_keeps rid o uid v.now (users d) ne here),
)

-- A kick that is allowed is not one of the owner.
kicked_other :
    (v : Visitor) (d : Desk) (rid o operator target : String)
    → only_owner rid o (users d) ≡ true
    → can_kick_member_in_room v d rid operator target ≡ true
    → (target == o) ≡ false
unfolding can_kick_member_in_room
kicked_other v d rid o operator target only may =
    elim (Option-cases (get_room_user v.mute_faults d.chat.mute rid operator)) [
      | inl e ↦ absurd (ground (arith, e, may))
      | inr (u, e) ↦ elim (Option-cases (get_room_user v.mute_faults d.chat.mute rid target)) [
        | inl g ↦ absurd (ground (arith, e, g, may))
        | inr (t, g) ↦ ground (
          arith,
          e,
          g,
          may,
          found_owner rid o target (users d) t only
              (user_found v.mute_faults d.chat.mute rid target t g),
        )
      ]
    ]

kick_keeps :
    (v : Visitor) (d : Desk) (rid o target : String)
    → IsOwned (v.trim_space rid) o (users d)
    → IsOwned (v.trim_space rid) o (users (room_member_kick v d rid target).0)
unfolding room_member_kick
kick_keeps v d rid o target owned =
    let r = v.trim_space rid in
    let t = v.trim_space target in
    elim (Bool-cases (can_kick_member_in_room v d r v.uid t)) [
      | inl may ↦
          let other = kicked_other v d r o v.uid t owned.0 may in
          let kept = removed_keeps v d r o t "member_kick" other owned in
          elim (Option-cases (get_room_by_rid v.faults d r)) [
            | inl e ↦ (ground (arith, e, owned), ground (arith, e, owned))
            | inr (room, e) ↦
                (ground (arith, e, may, owned, kept), ground (arith, e, may, owned, kept))
          ]
      | inr no_kick ↦ elim (Option-cases (get_room_by_rid v.faults d r)) [
        | inl e ↦ (ground (arith, e, owned), ground (arith, e, owned))
        | inr (room, e) ↦ (ground (arith, e, no_kick, owned), ground (arith, e, no_kick, owned))
      ]
    ]

-- A leave by the owner is refused; one by another member keeps the owner.
leave_keeps :
    (v : Visitor) (d : Desk) (rid o : String)
    → IsOwned (v.trim_space rid) o (users d)
    → IsOwned (v.trim_space rid) o (users (room_leave v d rid).0)
unfolding room_leave
leave_keeps v d rid o owned =
    let r = v.trim_space rid in
    let d' = (has_room_user v d r v.uid).0 in
    let owned' : IsOwned r o (users d') = unfold has_room_user in owned in
    elim (Option-cases (get_room_by_rid v.faults d r)) [
      | inl e ↦ (ground (arith, e, owned), ground (arith, e, owned))
      | inr (room, e) ↦ elim (Option-cases (get_room_user v.mute_faults d'.chat.mute r v.uid)) [
        | inl g ↦ (ground (arith, e, g, owned, owned'), ground (arith, e, g, owned, owned'))
        | inr (u, g) ↦ elim (Bool-cases (eqb u.role 2)) [
          | inl top ↦
              (ground (arith, e, g, top, owned, owned'), ground (arith, e, g, top, owned, owned'))
          | inr low ↦
              let found = user_found v.mute_faults d'.chat.mute r v.uid u g in
              let other : (v.uid == o) ≡ false =
                ground (arith, low, found_owner r o v.uid (users d') u owned'.0 found) in
              let kept = removed_keeps v d' r o v.uid "room_leave" other owned' in
              (
                ground (arith, e, g, low, owned, owned', kept),
                ground (arith, e, g, low, owned, owned', kept),
              )
        ]
      ]
    ]

role_update_keeps :
    (v : Visitor) (d : Desk) (rid o target : String) (role : ℕ)
    → (target == o) ≡ false
    → IsOwned rid o (users d)
    → IsOwned rid o (users (room_user_role_update v d rid target role).0)
unfolding room_user_role_update
role_update_keeps v d rid o target role other owned =
    let d' = (has_room_user v d rid target).0 in
    let owned' : IsOwned rid o (users d') = unfold has_room_user in owned in
    elim (Option-cases (get_room_by_rid v.faults d rid)) [
      | inl e ↦ (ground (arith, e, owned), ground (arith, e, owned))
      | inr (room, e) ↦ elim (Option-cases (get_room_user v.mute_faults d'.chat.mute rid target)) [
        | inl g ↦ (ground (arith, e, g, owned, owned'), ground (arith, e, g, owned, owned'))
        | inr (u, g) ↦
            let kept = λ (low : eqb role 2 ≡ false).
              role_keeps rid o target role (users d') other low owned'.0 in
            let still = role_in_keeps rid target o role (users d') owned'.1 in
            elim (Bool-cases (eqb role 2)) [
              | inl top ↦ (
                ground (arith, e, g, top, owned, owned'),
                ground (arith, e, g, top, owned, owned'),
              )
              | inr low ↦ (
                ground (arith, e, g, low, owned, owned', kept low),
                ground (arith, e, g, low, owned, owned', still),
              )
            ]
      ]
    ]

-- In a room with exactly one owner, whose id has no blanks round it, every kick and every leave,
-- whoever asks for it, keeps that owner, and so does every change of the role of another user.
pub owner_kept :
    (v : Visitor) (d : Desk) (rid o target other : String) (role : ℕ)
    → v.trim_space rid ≡ rid
    → (other == o) ≡ false
    → IsOwned rid o (users d)
    → IsOwned rid o (users (room_member_kick v d rid target).0)
      × IsOwned rid o (users (room_leave v d rid).0)
      × IsOwned rid o (users (room_user_role_update v d rid other role).0)
owner_kept v d rid o target other role trimmed ne owned =
    let here : IsOwned (v.trim_space rid) o (users d) = rw trimmed owned in
    let kick = kick_keeps v d rid o target here in
    let leave = leave_keeps v d rid o here in
    let kicked = users (room_member_kick v d rid target).0 in
    let left = users (room_leave v d rid).0 in
    (
      (
        sym (ap (λ r. only_owner r o kicked) trimmed) ∙ kick.0,
        sym (ap (λ r. is_in r o kicked) trimmed) ∙ kick.1,
      ),
      (
        sym (ap (λ r. only_owner r o left) trimmed) ∙ leave.0,
        sym (ap (λ r. is_in r o left) trimmed) ∙ leave.1,
      ),
      role_update_keeps v d rid o other role ne owned,
    )
