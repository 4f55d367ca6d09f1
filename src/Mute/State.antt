-- ===== src/Mute/State.antt =====
-- The tables and Redis counters of room_mute.go, and the JSON texts stored in them.
use cc_im_server.Prelude.{
  String, ℕ, Bool, true, false, ◌&&◌, ◌||◌, Option, none, some, List, [], ◌∷◌, ◌==◌, eqb, ltb,
  if◌then◌else◌, ◌+◌, ◌-◌, ◌*◌, ◌/◌, ◌%◌,
}

-- Columns that no operation here reads are left out. `role` is 0 for a member, 1 for an
-- administrator and 2 for the owner.
pub record RoomUser : Type 0 where
  pub rid : String
  pub uid : String
  pub role : ℕ
  pub mute_until : ℕ
  pub mute_operator_uid : String
  pub last_speak_time : ℕ
  pub last_speak_ip : String
  pub delete_time : ℕ

-- `rule_type` is the int8 bit mask, read as a number below 256.
pub record RoomMuteConfig : Type 0 where
  pub rid : String
  pub is_mute_all : Bool
  pub mute_all_by : String
  pub mute_all_reason : String
  pub rule_type : ℕ
  pub rule_config : String
  pub allow_roles : String
  pub except_users : String
  pub effective_at : ℕ
  pub expires_at : ℕ
  pub is_active : Bool
  pub version : ℕ
  pub delete_time : ℕ

-- A JSON number as Go reads it: whether the float64 is above 0, and its conversion to int64, which
-- is 0 here for a number below 0. A missing entry is not above 0.
pub record Number : Type 0 where
  pub positive : Bool
  pub whole : ℕ

-- The entries that are read from a rule config that is a JSON object.
pub record RuleConfig : Type 0 where
  pub interval_unit : String
  pub interval_value : Number
  pub max_messages : Number
  pub start_at : Number
  pub end_at : Number

-- encoding/json: none when the text does not parse.
pub record Json : Type 0 where
  pub parse_config : String → Option RuleConfig
  pub parse_users : String → Option (List String)
  pub parse_roles : String → Option (List ℕ)
  pub show_users : List String → String
  pub show_roles : List ℕ → String

-- A counter key `room_mute_freq:<rid>:<version>:<uid>:<window>`. Ids hold no colon, so the parts
-- determine the text. The expiry is left out: a key outlives its window by a minute.
abbrev pub Counters : Type 0
Counters = (rid : String) → (version : ℕ) → (uid : String) → (window_id : ℕ) → Option ℕ

pub record MuteState : Type 0 where
  pub users : List RoomUser
  pub configs : List RoomMuteConfig
  pub versions : String → Option ℕ
  pub counts : Counters

pub record MuteFaults : Type 0 where
  pub user_query : Bool
  pub config_query : Bool
  pub version_get : Bool
  pub count_get : Bool
  pub count_incr : Bool
  pub version_incr : Bool
  pub update : Bool
  pub commit : Bool

abbrev pub is_user_of : String → String → RoomUser → Bool
is_user_of rid uid u = u.rid == rid && u.uid == uid

unfoldable pub first_user : String → String → List RoomUser → Option RoomUser
first_user rid uid [] = none
first_user rid uid (u ∷ us) =
    if is_user_of rid uid u && eqb u.delete_time 0 then some u else first_user rid uid us

unfoldable pub first_config : String → List RoomMuteConfig → Option RoomMuteConfig
first_config rid [] = none
first_config rid (c ∷ cs) =
    if c.rid == rid && eqb c.delete_time 0 then some c else first_config rid cs

unfoldable pub get_room_user : MuteFaults → MuteState → String → String → Option RoomUser
unfolding first_user
get_room_user f s rid uid = if f.user_query then none else first_user rid uid s.users

unfoldable pub get_room_mute_config : MuteFaults → MuteState → String → Option RoomMuteConfig
unfolding first_config
get_room_mute_config f s rid = if f.config_query then none else first_config rid s.configs

unfoldable pub update_users :
    (RoomUser → Bool) → (RoomUser → RoomUser) → List RoomUser → List RoomUser
update_users p g [] = []
update_users p g (u ∷ us) = if p u then g u ∷ update_users p g us else u ∷ update_users p g us

set_speak : ℕ → String → RoomUser → RoomUser
set_speak t ip u = record u { last_speak_time = t; last_speak_ip = ip }

-- The table, unless the update fails.
unfoldable pub touch_room_user_last_speak :
    MuteFaults → MuteState → String → String → ℕ → String → MuteState
unfolding update_users set_speak
touch_room_user_last_speak f s rid uid speak_time speak_ip =
    let is_older = λ (u : RoomUser).
      is_user_of rid uid u && eqb u.delete_time 0 && ltb u.last_speak_time speak_time in
    if f.update
    then s
    else record s { users = update_users is_older (set_speak speak_time speak_ip) s.users }

unfoldable pub set_mute : ℕ → String → RoomUser → RoomUser
set_mute until operator u = record u { mute_until = until; mute_operator_uid = operator }

muted_user :
    MuteFaults → MuteState → String → String → ℕ → String → Option RoomUser → MuteState × Bool
unfolding update_users set_mute
muted_user f s rid uid until operator none = (s, false)
muted_user f s rid uid until operator (some u) = if f.update || f.commit then (s, false) else (
  record s { users = update_users (is_user_of rid uid) (set_mute until operator) s.users },
  true,
)

-- time.Now().Add(d seconds).UnixMilli(), with the int64 nanoseconds wrapping around.
unfoldable pub mute_deadline : ℕ → ℕ → ℕ
mute_deadline now duration_sec =
    let ns = (duration_sec * 1000000000) % 18446744073709551616 in
    if ltb ns 9223372036854775808
    then now + ns / 1000000
    else now - (18446744073709551616 - ns) / 1000000

-- Whether the transaction commits, with the state after it.
unfoldable pub mute_user_in_room :
    MuteFaults → MuteState → ℕ → String → String → String → ℕ → MuteState × Bool
unfolding muted_user
mute_user_in_room f s now rid target_uid operator_uid duration_sec =
    muted_user f s rid target_uid (mute_deadline now duration_sec) operator_uid
      (get_room_user f s rid target_uid)

unfoldable pub unmute_user_in_room : MuteFaults → MuteState → String → String → MuteState × Bool
unfolding muted_user
unmute_user_in_room f s rid target_uid =
    muted_user f s rid target_uid 0 "" (get_room_user f s rid target_uid)

abbrev pub is_manager : ℕ → Bool
is_manager role = eqb role 1 || eqb role 2

unfoldable pub can_user_mute_in_room : MuteFaults → MuteState → String → String → Bool
can_user_mute_in_room f s rid uid = elim (get_room_user f s rid uid) [
  | none ↦ false
  | some u ↦ is_manager u.role
]
