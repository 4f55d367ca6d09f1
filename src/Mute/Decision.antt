-- ===== src/Mute/Decision.antt =====
-- Who may speak after the mute config of a room was changed.
use cc_im_server.Prelude.{
  String, ℕ, suc, Bool, true, false, not, ◌&&◌, ◌||◌, some, eqb, elem, any, if◌then◌else◌, ◌≡◌, ◌≢◌,
  refl, ap, ◌∙◌, arith, ==_of_ne, Option-cases, inl, inr,
}
use cc_im_server.Mute.State.{
  Json, MuteState, MuteFaults, RoomMuteConfig, get_room_mute_config, get_room_user, first_config,
  is_manager,
}
use cc_im_server.Mute.Frequency.{has_frequency, has_time_range, reset_room_mute_frequency_count}
use cc_im_server.Mute.Rule.{
  may_speak, muted, muted_time_range, config_verdict, strategy_verdict, is_user_muted_in_room,
  verdict_from, is_strategy_mute_active, is_mute_rule_window_active, can_speak_by_except,
  can_speak_by_role, personal_mute, role_of,
}
use cc_im_server.Mute.Update.{
  RoomMuteConfigRuleParams, updated, set_room_mute_config_rule, mute_all_params, set_room_mute_all,
}
use cc_im_server.Mute.Effect.{map_option, first-update_configs}

module _ (j : Json) (f : MuteFaults) where
  set_config :
      (s : MuteState) (rid by_uid : String) (p : RoomMuteConfigRuleParams)
      → (set_room_mute_config_rule j f s rid by_uid p).1 ≡ true
      → (c : RoomMuteConfig) × (get_room_mute_config f s rid ≡ some c)
        × (get_room_mute_config f (set_room_mute_config_rule j f s rid by_uid p).0 rid
            ≡ some (updated j by_uid p (suc c.version) c))
        × ((uid : String)
            → get_room_user f (set_room_mute_config_rule j f s rid by_uid p).0 rid uid
              ≡ get_room_user f s rid uid)
  unfolding set_room_mute_config_rule get_room_user updated reset_room_mute_frequency_count
      map_option get_room_mute_config
  set_config s rid by_uid p ok = elim (Option-cases (first_config rid s.configs)) [
    | inl e ↦ absurd (ground (arith, e, ok))
    | inr (c, e) ↦ (
      c,
      ground (arith, e, ok),
      ground (
        arith,
        e,
        ok,
        first-update_configs rid (updated j by_uid p (suc c.version)) (λ x. (refl, refl)) s.configs,
      ),
      λ uid. ground (arith, e, ok),
    )
  ]

  verdict_of :
      (s : MuteState) (now : ℕ) (rid uid : String) (c : RoomMuteConfig)
      → get_room_mute_config f s rid ≡ some c
      → is_user_muted_in_room j f s now rid uid ≡ (
          if personal_mute (get_room_user f s rid uid) now
          then muted
          else config_verdict j f s now uid (role_of (get_room_user f s rid uid)) (some c))
  unfolding is_user_muted_in_room verdict_from
  verdict_of s now rid uid c e =
      ap (λ o. verdict_from j f s now uid (get_room_user f s rid uid) o) e

  all_verdict :
      (s : MuteState) (now t : ℕ) (uid by_uid reason : String) (mute : Bool) (role v : ℕ)
      (c : RoomMuteConfig)
      → config_verdict j f s now uid role
          (some (updated j by_uid (mute_all_params mute reason t) v c))
        ≡ (if mute && not (is_manager role) then muted else may_speak)
  unfolding config_verdict updated mute_all_params is_strategy_mute_active
  all_verdict s now t uid by_uid reason mute role v c = ground arith

  -- After a mute of all is switched on or off with success, at every time: who is not muted in person
  -- may speak, except that while it is on only administrators and the owner may.
  pub mute_all_lem :
      (s : MuteState) (t : ℕ) (rid by_uid reason : String) (mute : Bool)
      → (set_room_mute_all j f s t rid mute by_uid reason).1 ≡ true
      → (now : ℕ) (uid : String)
      → let ru = get_room_user f s rid uid in
        is_user_muted_in_room j f (set_room_mute_all j f s t rid mute by_uid reason).0 now rid uid
        ≡ (if personal_mute ru now || (mute && not (is_manager (role_of ru)))
            then muted
            else may_speak)
  unfolding set_room_mute_all
  mute_all_lem s t rid by_uid reason mute ok now uid =
      let p = mute_all_params mute reason t in
      let s' = (set_room_mute_config_rule j f s rid by_uid p).0 in
      let (c, found, found', users) = set_config s rid by_uid p ok in
      verdict_of s' now rid uid (updated j by_uid p (suc c.version) c) found'
      ∙ ap
          (λ o.
            if personal_mute o now
            then muted
            else config_verdict j f s' now uid (role_of o)
                (some (updated j by_uid p (suc c.version) c)))
          (users uid)
      ∙ ground (
        arith,
        all_verdict s' now t uid by_uid reason mute (role_of (get_room_user f s rid uid))
            (suc c.version) c,
      )

  rule_verdict :
      (s : MuteState) (now : ℕ) (uid by_uid : String) (p : RoomMuteConfigRuleParams) (role v : ℕ)
      (c : RoomMuteConfig)
      → p.is_mute_all ≡ false
      → p.is_active ≡ true
      → has_time_range p.rule_type ≡ false
      → has_frequency p.rule_type ≡ false
      → j.parse_users (j.show_users p.except_users) ≡ some p.except_users
      → j.show_users p.except_users ≢ ""
      → j.parse_roles (j.show_roles p.allow_roles) ≡ some p.allow_roles
      → j.show_roles p.allow_roles ≢ ""
      → config_verdict j f s now uid role (some (updated j by_uid p v c)) ≡ (
          if elem uid p.except_users || any (λ r. eqb role r) p.allow_roles
          then may_speak
          else muted_time_range)
  unfolding config_verdict updated is_strategy_mute_active is_mute_rule_window_active
      strategy_verdict can_speak_by_except can_speak_by_role
  rule_verdict s now uid by_uid p role v c all active tr fr users named roles roled = ground (
    arith,
    all,
    active,
    tr,
    fr,
    users,
    roles,
    ==_of_ne (j.show_users p.except_users) "" named,
    ==_of_ne (j.show_roles p.allow_roles) "" roled,
  )

  -- After a rule is set that is active, with no time range and no frequency limit, and whose two
  -- lists are read back from their JSON as they were stored: who is not muted in person may speak
  -- exactly if named as an exception or holding an allowed role.
  pub rule_lem :
      (s : MuteState) (rid by_uid : String) (p : RoomMuteConfigRuleParams)
      → p.is_mute_all ≡ false
      → p.is_active ≡ true
      → has_time_range p.rule_type ≡ false
      → has_frequency p.rule_type ≡ false
      → j.parse_users (j.show_users p.except_users) ≡ some p.except_users
      → j.show_users p.except_users ≢ ""
      → j.parse_roles (j.show_roles p.allow_roles) ≡ some p.allow_roles
      → j.show_roles p.allow_roles ≢ ""
      → (set_room_mute_config_rule j f s rid by_uid p).1 ≡ true
      → (now : ℕ) (uid : String)
      → let ru = get_room_user f s rid uid in
        is_user_muted_in_room j f (set_room_mute_config_rule j f s rid by_uid p).0 now rid uid ≡ (
          if personal_mute ru now
          then muted
          else if elem uid p.except_users || any (λ r. eqb (role_of ru) r) p.allow_roles
          then may_speak
          else muted_time_range)
  rule_lem s rid by_uid p all active tr fr users named roles roled ok now uid =
      let s' = (set_room_mute_config_rule j f s rid by_uid p).0 in
      let (c, found, found', same) = set_config s rid by_uid p ok in
      let v = suc c.version in
      verdict_of s' now rid uid (updated j by_uid p v c) found'
      ∙ ap
          (λ o.
            if personal_mute o now
            then muted
            else config_verdict j f s' now uid (role_of o) (some (updated j by_uid p v c)))
          (same uid)
      ∙ ap (λ x. if personal_mute (get_room_user f s rid uid) now then muted else x)
          (rule_verdict s' now uid by_uid p (role_of (get_room_user f s rid uid)) v c all active tr
            fr users named roles roled)
