-- ===== src/Mute/Effect.antt =====
-- What the operations of room_mute.go change for the members of a room.
use cc_im_server.Prelude.{
  String, ℕ, ◌+◌, ◌*◌, ◌<◌, true, ◌&&◌, Option, none, some, ◌==◌, ltb, if◌then◌else◌, ◌≡◌, ◌≢◌,
  refl, ap, ◌∙◌, arith, ==_iff, List, [], ◌∷◌, Option-cases, inl, inr,
}
use native.Mathlib.Nat
use cc_im_server.Mute.State.{
  RoomUser, Json, MuteState, MuteFaults, RoomMuteConfig, get_room_mute_config, get_room_user,
  first_user, first_config, update_users, set_mute, is_user_of, mute_deadline, mute_user_in_room,
  unmute_user_in_room,
}
use cc_im_server.Mute.Frequency.{is_user_over_frequency_limit}
use cc_im_server.Mute.Rule.{
  muted, config_verdict, strategy_verdict, is_user_muted_in_room, verdict_from,
}
use cc_im_server.Mute.Update.{update_configs}

unfoldable pub map_option {ℓ} : {A : Type ℓ} → (A → A) → Option A → Option A
map_option g none = none
map_option g (some a) = some (g a)

pub first-update_configs :
    (rid : String) (g : RoomMuteConfig → RoomMuteConfig)
    → ((x : RoomMuteConfig) → ((g x).rid ≡ x.rid) × ((g x).delete_time ≡ x.delete_time))
    → (cs : List RoomMuteConfig)
    → first_config rid (update_configs rid g cs) ≡ map_option g (first_config rid cs)
unfolding first_config update_configs map_option
first-update_configs rid g keeps [] = refl
first-update_configs rid g keeps (c ∷ cs) =
    ground (arith, first-update_configs rid g keeps cs, keeps c)

first-update_users :
    (rid uid r u : String) (until : ℕ) (operator : String) (us : List RoomUser)
    → first_user r u (update_users (is_user_of rid uid) (set_mute until operator) us) ≡ (
        if rid == r && uid == u
        then map_option (set_mute until operator) (first_user r u us)
        else first_user r u us)
unfolding first_user update_users map_option set_mute
first-update_users rid uid r u until operator [] = ground arith
first-update_users rid uid r u until operator (x ∷ us) = ground (
  arith,
  first-update_users rid uid r u until operator us,
  ==_iff x.rid rid,
  ==_iff x.rid r,
  ==_iff rid r,
  ==_iff x.uid uid,
  ==_iff x.uid u,
  ==_iff uid u,
)

-- The deadline of a mute whose nanoseconds fit into an int64.
deadline_fits :
    (now d : ℕ) → d * 1000000000 < 9223372036854775808 → mute_deadline now d ≡ now + d * 1000
unfolding mute_deadline
deadline_fits now d h =
    let small : d * 1000000000 < 18446744073709551616 = omega (arith, h) in
    ground (arith, h, Nat.mod-eq_of_lt small)

abbrev with_mute : MuteState → String → String → ℕ → String → MuteState
with_mute s rid uid until op = record s {
  users = update_users (is_user_of rid uid) (set_mute until op) s.users;
}

module _ (j : Json) (f : MuteFaults) where
  verdict-users :
      (s : MuteState) (us : List RoomUser) (now : ℕ) (r u : String)
      → is_user_muted_in_room j f (record s { users = us }) now r u
        ≡ verdict_from j f s now u
            (get_room_user f (record s { users = us }) r u)
            (get_room_mute_config f s r)
  unfolding is_user_muted_in_room verdict_from get_room_mute_config config_verdict strategy_verdict
      is_user_over_frequency_limit
  verdict-users s us now r u = refl

  get-with_mute :
      (s : MuteState) (until : ℕ) (rid uid op : String) (r u : String)
      → get_room_user f (with_mute s rid uid until op) r u ≡ (
          if rid == r && uid == u
          then map_option (set_mute until op) (get_room_user f s r u)
          else get_room_user f s r u)
  unfolding get_room_user map_option
  get-with_mute s until rid uid op r u =
      ground (arith, first-update_users rid uid r u until op s.users)

  verdict_muted :
      (s : MuteState) (until now : ℕ) (op u : String) (x : RoomUser) (c : Option RoomMuteConfig)
      → verdict_from j f s now u (some (set_mute until op x)) c
        ≡ (if ltb now until then muted else config_verdict j f s now u x.role c)
  unfolding verdict_from set_mute
  verdict_muted s until now op u x c = ground arith

  with_mute_lem :
      (s : MuteState) (until : ℕ) (rid uid op : String) (x : RoomUser) (now : ℕ) (r u : String)
      → get_room_user f s rid uid ≡ some x
      → is_user_muted_in_room j f (with_mute s rid uid until op) now r u ≡ (
          if rid == r && uid == u
          then if ltb now until
            then muted
            else config_verdict j f s now uid x.role (get_room_mute_config f s rid)
          else is_user_muted_in_room j f s now r u)
  unfolding is_user_muted_in_room map_option
  with_mute_lem s until rid uid op x now r u found =
      let c = get_room_mute_config f s r in
      verdict-users s (update_users (is_user_of rid uid) (set_mute until op) s.users) now r u
      ∙ ap (λ o. verdict_from j f s now u o c) (get-with_mute s until rid uid op r u)
      ∙ ground (arith, found, verdict_muted s until now op u x c, ==_iff rid r, ==_iff uid u)

  mute_step :
      (s : MuteState) (t d : ℕ) (rid uid op : String)
      → (mute_user_in_room f s t rid uid op d).1 ≡ true
      → ((mute_user_in_room f s t rid uid op d).0 ≡ with_mute s rid uid (mute_deadline t d) op)
        × ((unmute_user_in_room f s rid uid).0 ≡ with_mute s rid uid 0 "")
        × (get_room_user f s rid uid ≢ none)
  unfolding mute_user_in_room unmute_user_in_room
  mute_step s t d rid uid op ok = ground (arith, ok)

  -- After a mute that commits, for a time whose nanoseconds fit into an int64: the member is muted
  -- before the deadline, whatever the role and the config of the room, and from then on as if the
  -- mute had been lifted; every other member, in any room, is muted or not as before.
  pub mute_user_lem :
      (s : MuteState) (t d : ℕ) (rid uid op : String)
      → d * 1000000000 < 9223372036854775808
      → (mute_user_in_room f s t rid uid op d).1 ≡ true
      → (now : ℕ) (r u : String)
      → is_user_muted_in_room j f (mute_user_in_room f s t rid uid op d).0 now r u ≡ (
          if rid == r && uid == u
          then if ltb now (t + d * 1000)
            then muted
            else is_user_muted_in_room j f (unmute_user_in_room f s rid uid).0 now r u
          else is_user_muted_in_room j f s now r u)
  mute_user_lem s t d rid uid op fits ok now r u =
      let (a, b, present) = mute_step s t d rid uid op ok in
      elim (Option-cases (get_room_user f s rid uid)) [
        | inl e ↦ absurd (present e)
        | inr (x, e) ↦
            ap (λ y. is_user_muted_in_room j f y now r u) a
            ∙ ground (
              arith,
              ap (λ y. is_user_muted_in_room j f y now r u) b,
              with_mute_lem s (mute_deadline t d) rid uid op x now r u e,
              with_mute_lem s 0 rid uid "" x now r u e,
              deadline_fits t d fits,
            )
      ]
