-- ===== src/Tests/Mute.antt =====
-- Concrete runs of the theorems on mute rules.
use cc_im_server.Prelude.{
  String, ℕ, true, false, some, none, [], ◌∷◌, ◌≡◌, ◌≢◌, refl, arith, if◌then◌else◌, ne_of_test,
  ◌==◌, ◌&&◌, ltb, leb, ◌+◌, ◌*◌,
}
use cc_im_server.Mute.State.{
  Json, Number, RuleConfig, MuteState, MuteFaults, RoomUser, RoomMuteConfig, get_room_user,
  get_room_mute_config, mute_user_in_room, unmute_user_in_room,
}
use cc_im_server.Mute.Frequency.{
  Frequency, is_user_over_frequency_limit, parse_frequency_rule_config,
}
use cc_im_server.Mute.Rule.{muted, is_user_muted_in_room}
use cc_im_server.Mute.Update.{
  RoomMuteConfigRuleParams, set_room_mute_config_rule, set_room_mute_all,
}
use cc_im_server.Mute.Window.{limit_lem, count_messages}
use cc_im_server.Mute.Effect.{mute_user_lem}

abbrev user : String → ℕ → RoomUser
user uid role = record {
  rid = "r";
  uid = uid;
  role = role;
  mute_until = 0;
  mute_operator_uid = "";
  last_speak_time = 0;
  last_speak_ip = "";
  delete_time = 0;
}

-- Two messages a minute.
abbrev config : RoomMuteConfig
config = record {
  rid = "r";
  is_mute_all = false;
  mute_all_by = "";
  mute_all_reason = "";
  rule_type = 2;
  rule_config = "cfg";
  allow_roles = "roles";
  except_users = "users";
  effective_at = 0;
  expires_at = 0;
  is_active = true;
  version = 1;
  delete_time = 0;
}

abbrev number : ℕ → Number
number n = record { positive = ltb 0 n; whole = n }

abbrev rule : RuleConfig
rule = record {
  interval_unit = "minute";
  interval_value = number 1;
  max_messages = number 2;
  start_at = number 0;
  end_at = number 0;
}

abbrev json : Json
json = record {
  parse_config = λ t. some rule;
  parse_users = λ t. some ("cid" ∷ []);
  parse_roles = λ t. some (1 ∷ []);
  show_users = λ us. "users";
  show_roles = λ rs. "roles";
}

abbrev state : MuteState
state = record {
  users = user "ann" 2 ∷ user "bob" 0 ∷ [];
  configs = config ∷ [];
  versions = λ rid. none;
  counts = λ rid v uid w. none;
}

abbrev faults : MuteFaults
faults = record {
  user_query = false;
  config_query = false;
  version_get = false;
  count_get = false;
  count_incr = false;
  version_incr = false;
  update = false;
  commit = false;
}

abbrev frequency : Frequency
frequency = record { window_ms = 60000; max_msg = 2 }

found : get_room_mute_config faults state "r" ≡ some config
unfolding get_room_mute_config ◌==◌
found = refl

parsed : parse_frequency_rule_config json "cfg" ≡ some frequency
unfolding parse_frequency_rule_config ◌==◌
parsed = refl

named : (s : String) → (s == "") ≡ false → s ≢ ""
named s h = ne_of_test s "" h

limit_lem_example :
    is_user_over_frequency_limit json faults
      (count_messages json faults state "r" (("bob", 61000) ∷ ("bob", 60001) ∷ ("ann", 60000) ∷ []))
      "r"
      "bob"
      62000
      "cfg"
    ≡ (ltb 0 2 && leb 2 2)
unfolding ◌==◌
limit_lem_example =
    limit_lem json faults "r" config frequency refl (named "cfg" refl) parsed refl refl state
      (("bob", 61000) ∷ ("bob", 60001) ∷ ("ann", 60000) ∷ []) "bob" 62000 found refl (λ u k. refl)

muted_bob : (mute_user_in_room faults state 1000 "r" "bob" "ann" 60).1 ≡ true
unfolding mute_user_in_room get_room_user ◌==◌
muted_bob = refl

mute_user_lem_example :
    is_user_muted_in_room json faults
      (mute_user_in_room faults state 1000 "r" "bob" "ann" 60).0
      5000
      "r"
      "bob"
    ≡ (if "r" == "r" && "bob" == "bob"
        then if ltb 5000 (1000 + 60 * 1000)
          then muted
          else is_user_muted_in_room json faults
              (unmute_user_in_room faults state "r" "bob").0
              5000
              "r"
              "bob"
        else is_user_muted_in_room json faults state 5000 "r" "bob")
mute_user_lem_example =
    mute_user_lem json faults state 1000 60 "r" "bob" "ann" (omega arith) muted_bob 5000 "r" "bob"

all_muted : (set_room_mute_all json faults state 1000 "r" true "ann" "quiet").1 ≡ true
unfolding set_room_mute_all set_room_mute_config_rule get_room_mute_config ◌==◌
all_muted = refl

abbrev params : RoomMuteConfigRuleParams
params = record {
  is_mute_all = false;
  reason = "";
  rule_type = 0;
  rule_config = "";
  allow_roles = 1 ∷ [];
  except_users = "cid" ∷ [];
  effective_at = 0;
  expires_at = 0;
  is_active = true;
}

rule_set : (set_room_mute_config_rule json faults state "r" "ann" params).1 ≡ true
unfolding set_room_mute_config_rule get_room_mute_config ◌==◌
rule_set = refl

abbrev crowded : MuteState
crowded = record state { counts = λ rid v uid w. some 5 }
