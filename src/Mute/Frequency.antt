-- ===== src/Mute/Frequency.antt =====
-- db/query/room_mute.go: the limit on how often a member speaks, by counters for fixed windows.
use cc_im_server.Prelude.{
  String, ℕ, suc, ◌*◌, ◌/◌, ◌%◌, Bool, false, not, ◌&&◌, ◌||◌, Option, none, some, ◌==◌, eqb, ltb,
  if◌then◌else◌,
}
use cc_im_server.Mute.State.{
  RuleConfig, Json, MuteState, MuteFaults, RoomMuteConfig, Counters, get_room_mute_config,
}

-- The window in milliseconds, as the bits of an int64, and the most messages in a window.
pub record Frequency : Type 0 where
  pub window_ms : ℕ
  pub max_msg : ℕ

abbrev pub int64 : ℕ → ℕ
int64 n = n % 18446744073709551616

frequency_of : ℕ → ℕ → ℕ → Option Frequency
frequency_of val unit_ms max_msg =
    some (record { window_ms = int64 (val * unit_ms); max_msg = max_msg })

by_unit : RuleConfig → Option Frequency
unfolding frequency_of
by_unit cfg =
    let val = cfg.interval_value.whole in
    let max_msg = cfg.max_messages.whole in
    if cfg.interval_unit == "minute"
    then frequency_of val 60000 max_msg
    else if cfg.interval_unit == "hour"
    then frequency_of val 3600000 max_msg
    else if cfg.interval_unit == "day"
    then frequency_of val 86400000 max_msg
    else none

unfoldable pub frequency_config : Option RuleConfig → Option Frequency
unfolding by_unit
frequency_config none = none
frequency_config (some cfg) =
    if cfg.interval_unit == "" || not cfg.interval_value.positive || not cfg.max_messages.positive
    then none
    else by_unit cfg

unfoldable pub parse_frequency_rule_config : Json → String → Option Frequency
unfolding frequency_config
parse_frequency_rule_config j rule_config = frequency_config (j.parse_config rule_config)

-- `windowMs > 0`, on the bits of an int64.
abbrev pub is_window : ℕ → Bool
is_window window_ms = ltb 0 window_ms && ltb window_ms 9223372036854775808

unfoldable pub version_of : MuteFaults → MuteState → String → ℕ
version_of f s rid = if f.version_get then 0 else elim (s.versions rid) [ none ↦ 0 | some v ↦ v ]

-- The counter that the current window reads. A missing key is an error.
unfoldable pub count_of : MuteFaults → MuteState → String → String → ℕ → ℕ → Option ℕ
unfolding version_of
count_of f s rid uid now window_ms =
    if f.count_get then none else s.counts rid (version_of f s rid) uid (now / window_ms)

-- The test of `isUserOverFrequencyLimit` and of `GetFrequencyMuteUntil`.
over_count : Option ℕ → ℕ → Bool
over_count none max_msg = false
over_count (some count) max_msg = not (ltb count max_msg)

over_limit : MuteFaults → MuteState → String → String → ℕ → Option Frequency → Bool
unfolding over_count count_of
over_limit f s rid uid now none = false
over_limit f s rid uid now (some q) =
    is_window q.window_ms && over_count (count_of f s rid uid now q.window_ms) q.max_msg

unfoldable pub is_user_over_frequency_limit :
    Json → MuteFaults → MuteState → String → String → ℕ → String → Bool
unfolding over_limit
is_user_over_frequency_limit j f s rid uid now rule_config =
    over_limit f s rid uid now (parse_frequency_rule_config j rule_config)

until_end : MuteFaults → MuteState → String → String → ℕ → Option Frequency → Option ℕ
unfolding over_count count_of
until_end f s rid uid now none = none
until_end f s rid uid now (some q) =
    if not (is_window q.window_ms)
    then none
    else if over_count (count_of f s rid uid now q.window_ms) q.max_msg
    then some (suc (now / q.window_ms) * q.window_ms)
    else none

unfoldable pub get_frequency_mute_until :
    Json → MuteFaults → MuteState → String → String → ℕ → String → Option ℕ
unfolding until_end
get_frequency_mute_until j f s rid uid now rule_config =
    until_end f s rid uid now (parse_frequency_rule_config j rule_config)

or_zero : Option ℕ → ℕ
or_zero none = 0
or_zero (some n) = n

unfoldable pub incr_count : Counters → String → ℕ → String → ℕ → Counters
unfolding or_zero
incr_count counts rid v uid w = λ rid' v' uid' w'.
    if rid == rid' && eqb v v' && uid == uid' && eqb w w'
    then some (suc (or_zero (counts rid v uid w)))
    else counts rid' v' uid' w'

abbrev pub has_time_range : ℕ → Bool
has_time_range rule_type = eqb (rule_type % 2) 1

abbrev pub has_frequency : ℕ → Bool
has_frequency rule_type = eqb ((rule_type / 2) % 2) 1

incr_in : MuteFaults → MuteState → ℕ → String → String → Option Frequency → MuteState
unfolding incr_count version_of
incr_in f s now rid uid none = s
incr_in f s now rid uid (some q) =
    if not (is_window q.window_ms) || f.count_incr
    then s
    else record s { counts = incr_count s.counts rid (version_of f s rid) uid (now / q.window_ms) }

incr_config :
    Json → MuteFaults → MuteState → ℕ → String → String → Option RoomMuteConfig → MuteState
unfolding incr_in
incr_config j f s now rid uid none = s
incr_config j f s now rid uid (some cfg) =
    if not (has_frequency cfg.rule_type) || cfg.rule_config == ""
    then s
    else incr_in f s now rid uid (parse_frequency_rule_config j cfg.rule_config)

unfoldable pub incr_room_message_frequency_count :
    Json → MuteFaults → MuteState → ℕ → String → String → MuteState
unfolding incr_config
incr_room_message_frequency_count j f s now rid uid =
    incr_config j f s now rid uid (get_room_mute_config f s rid)

unfoldable pub reset_room_mute_frequency_count : MuteFaults → MuteState → String → MuteState
unfolding or_zero
reset_room_mute_frequency_count f s rid = if f.version_incr then s else record s {
  versions = λ r. if rid == r then some (suc (or_zero (s.versions rid))) else s.versions r;
}
