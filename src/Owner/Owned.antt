-- ===== src/Owner/Owned.antt =====
-- http/handler/room/room.go: a room has one owner, whatever handlers run.
use cc_im_server.Prelude.{
  String, ℕ, Bool, true, false, not, ◌&&◌, some, List, [], ◌∷◌, ◌==◌, eqb, any, if◌then◌else◌, ◌≡◌,
  refl, ap, arith, ==_iff, Bool-cases, inl, inr,
}
use cc_im_server.Mute.State.{RoomUser, first_user, update_users}
use cc_im_server.Owner.Handlers.{is_live, with_role, with_delete_time, set_role}

-- Every row of a member of the room has the owner's role exactly if it is the row of `o`.
unfoldable pub only_owner : String → String → List RoomUser → Bool
only_owner rid o [] = true
only_owner rid o (u ∷ us) =
    let rest = only_owner rid o us in
    if u.rid == rid && eqb u.delete_time 0
    then (if u.uid == o then eqb u.role 2 else not (eqb u.role 2)) && rest
    else rest

unfoldable pub is_in : String → String → List RoomUser → Bool
is_in rid o us = any (is_live rid o) us

-- The user is a member of the room, and its only owner.
abbrev pub IsOwned : String → String → List RoomUser → Type 0
IsOwned rid o us = (only_owner rid o us ≡ true) × (is_in rid o us ≡ true)

-- A member whose row has the owner's role is the owner.
pub found_owner :
    (rid o uid : String) (us : List RoomUser) (u : RoomUser)
    → only_owner rid o us ≡ true
    → first_user rid uid us ≡ some u
    → eqb u.role 2 ≡ (uid == o)
unfolding only_owner first_user
found_owner rid o uid [] u h e = absurd (ground (arith, e))
found_owner rid o uid (x ∷ us) u h e = elim (Bool-cases (is_live rid uid x)) [
  | inl g ↦
      let same : x.uid ≡ uid = (==_iff x.uid uid).0 (ground (arith, g)) in
      let is_o : (x.uid == o) ≡ (uid == o) = ap (λ t. t == o) same in ground (arith, g, h, e, is_o)
  | inr g ↦ found_owner rid o uid us u (ground (arith, h)) (ground (arith, g, e))
]

pub found_in :
    (rid uid : String) (us : List RoomUser) (u : RoomUser)
    → first_user rid uid us ≡ some u
    → is_in rid uid us ≡ true
unfolding is_in first_user
found_in rid uid [] u e = absurd (ground (arith, e))
found_in rid uid (x ∷ us) u e = ground (arith, e, found_in rid uid us u)

-- Setting a role that is not the owner's, for another member than the owner, keeps the owner.
pub role_keeps :
    (rid o uid : String) (role : ℕ) (us : List RoomUser)
    → (uid == o) ≡ false
    → eqb role 2 ≡ false
    → only_owner rid o us ≡ true
    → only_owner rid o (set_role rid uid role us) ≡ true
unfolding only_owner set_role update_users with_role
role_keeps rid o uid role [] ne low h = refl
role_keeps rid o uid role (x ∷ us) ne low h = ground (
  arith,
  ne,
  low,
  h,
  role_keeps rid o uid role us,
  ==_iff x.uid uid,
  ==_iff x.uid o,
  ==_iff uid o,
)

pub role_in_keeps :
    (rid uid o : String) (role : ℕ) (us : List RoomUser)
    → is_in rid o us ≡ true
    → is_in rid o (set_role rid uid role us) ≡ true
unfolding is_in set_role update_users with_role
role_in_keeps rid uid o role [] h = cc
role_in_keeps rid uid o role (x ∷ us) h = ground (arith, h, role_in_keeps rid uid o role us)

-- The two updates of a transfer make the target the only owner.
pub transfer_keeps :
    (rid o target : String) (us : List RoomUser)
    → (o == target) ≡ false
    → only_owner rid o us ≡ true
    → only_owner rid target (set_role rid target 2 (set_role rid o 0 us)) ≡ true
unfolding only_owner set_role update_users with_role
transfer_keeps rid o target [] ne h = refl
transfer_keeps rid o target (x ∷ us) ne h = ground (
  arith,
  ne,
  h,
  transfer_keeps rid o target us,
  ==_iff x.uid target,
  ==_iff x.uid o,
  ==_iff o target,
)

-- Removing another member than the owner keeps the owner.
pub remove_keeps :
    (rid o uid : String) (now : ℕ) (us : List RoomUser)
    → (uid == o) ≡ false
    → only_owner rid o us ≡ true
    → only_owner rid o (update_users (is_live rid uid) (with_delete_time now) us) ≡ true
unfolding only_owner update_users with_delete_time
remove_keeps rid o uid now [] ne h = refl
remove_keeps rid o uid now (x ∷ us) ne h =
    ground
      (arith, ne, h, remove_keeps rid o uid now us, ==_iff x.uid uid, ==_iff x.uid o, ==_iff uid o)

pub remove_in_keeps :
    (rid o uid : String) (now : ℕ) (us : List RoomUser)
    → (uid == o) ≡ false
    → is_in rid o us ≡ true
    → is_in rid o (update_users (is_live rid uid) (with_delete_time now) us) ≡ true
unfolding is_in update_users with_delete_time
remove_in_keeps rid o uid now [] ne h = cc
remove_in_keeps rid o uid now (x ∷ us) ne h =
    ground (
      arith,
      ne,
      h,
      remove_in_keeps rid o uid now us,
      ==_iff x.uid uid,
      ==_iff x.uid o,
      ==_iff uid o,
    )
