-- ===== src/Mute/Rule.antt =====
-- db/query/room_mute.go: the decision whether a member is muted.
use cc_im_server.Prelude.{
  String, ℕ, Bool, true, false, not, ◌&&◌, ◌||◌, Option, none, some, List, [], any, elem, ◌==◌, eqb,
  ltb, if◌then◌else◌,
}
use cc_im_server.Mute.State.{
  RoomUser, RoomMuteConfig, RuleConfig, Json, MuteState, MuteFaults, get_room_user,
  get_room_mute_config, is_manager,
}
use cc_im_server.Mute.Frequency.{is_user_over_frequency_limit, has_time_range, has_frequency}

-- The results (false, ""), (true, "MUTED"), (true, "MUTED_TIME_RANGE") and (true, "MUTED_FREQUENCY").
pub data Verdict : Type 0 where
  may_speak : Verdict
  muted : Verdict
  muted_time_range : Verdict
  muted_frequency : Verdict

in_window : Option RuleConfig → ℕ → Bool
in_window none now = true
in_window (some cfg) now =
    if ltb 0 cfg.start_at.whole && ltb now cfg.start_at.whole
    then false
    else if ltb 0 cfg.end_at.whole && ltb cfg.end_at.whole now
    then false
    else true

unfoldable pub is_mute_rule_window_active : Json → ℕ → String → ℕ → Bool
unfolding in_window
is_mute_rule_window_active j rule_type rule_config now =
    if not (has_time_range rule_type) || rule_config == ""
    then true
    else in_window (j.parse_config rule_config) now

in_effect : RoomMuteConfig → ℕ → Bool
in_effect cfg now =
    if has_time_range cfg.rule_type
    then not (ltb 0 cfg.effective_at && ltb now cfg.effective_at)
      && not (ltb 0 cfg.expires_at && ltb cfg.expires_at now)
    else true

-- `isStrategyMuteActive` after all the tests.
unfoldable pub is_strategy_mute_active : Json → RoomMuteConfig → ℕ → Bool
unfolding in_effect
is_strategy_mute_active j cfg now =
    not cfg.is_mute_all
    && cfg.is_active
    && in_effect cfg now
    && is_mute_rule_window_active j cfg.rule_type cfg.rule_config now

users_of : Option (List String) → List String
users_of none = []
users_of (some us) = us

unfoldable pub can_speak_by_except : Json → RoomMuteConfig → String → Bool
unfolding users_of
can_speak_by_except j cfg uid =
    if cfg.except_users == "" then false else elem uid (users_of (j.parse_users cfg.except_users))

roles_of : Option (List ℕ) → List ℕ
roles_of none = []
roles_of (some rs) = rs

unfoldable pub can_speak_by_role : Json → RoomMuteConfig → ℕ → Bool
unfolding roles_of
can_speak_by_role j cfg role =
    if cfg.allow_roles == ""
    then false
    else any (λ r. eqb role r) (roles_of (j.parse_roles cfg.allow_roles))

unfoldable pub strategy_verdict :
    Json → MuteFaults → MuteState → ℕ → RoomMuteConfig → String → ℕ → Verdict
strategy_verdict j f s now cfg uid role =
    if not (can_speak_by_except j cfg uid) && not (can_speak_by_role j cfg role)
    then muted_time_range
    else if has_frequency cfg.rule_type
        && not (cfg.rule_config == "")
        && is_user_over_frequency_limit j f s cfg.rid uid now cfg.rule_config
    then muted_frequency
    else may_speak

unfoldable pub config_verdict :
    Json → MuteFaults → MuteState → ℕ → String → ℕ → Option RoomMuteConfig → Verdict
config_verdict j f s now uid role none = may_speak
config_verdict j f s now uid role (some cfg) =
    let strategy = strategy_verdict j f s now cfg uid role in
    if not cfg.is_mute_all && not (is_strategy_mute_active j cfg now)
    then may_speak
    else if cfg.is_mute_all
    then if is_manager role then may_speak else muted
    else strategy

unfoldable pub personal_mute : Option RoomUser → ℕ → Bool
personal_mute none now = false
personal_mute (some u) now = ltb 0 u.mute_until && ltb now u.mute_until

-- The role of the zero value, when no row is read, is that of a member.
unfoldable pub role_of : Option RoomUser → ℕ
role_of none = 0
role_of (some u) = u.role

unfoldable pub verdict_from :
    Json → MuteFaults → MuteState → ℕ → String → Option RoomUser → Option RoomMuteConfig → Verdict
unfolding personal_mute role_of
verdict_from j f s now uid ru cfg =
    let config = config_verdict j f s now uid (role_of ru) cfg in
    if personal_mute ru now then muted else config

unfoldable pub is_user_muted_in_room : Json → MuteFaults → MuteState → ℕ → String → String → Verdict
is_user_muted_in_room j f s now rid uid =
    verdict_from j f s now uid (get_room_user f s rid uid) (get_room_mute_config f s rid)
