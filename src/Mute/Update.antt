-- ===== src/Mute/Update.antt =====
-- db/query/room_mute.go: changing the mute config of a room.
use cc_im_server.Prelude.{
  String, ℕ, suc, Bool, true, false, Option, none, some, List, [], ◌∷◌, ◌==◌, if◌then◌else◌,
}
use cc_im_server.Mute.State.{RoomMuteConfig, Json, MuteState, MuteFaults, get_room_mute_config}
use cc_im_server.Mute.Frequency.{reset_room_mute_frequency_count}

-- Nil slices are empty lists: the code makes them so before it stores them.
pub record RoomMuteConfigRuleParams : Type 0 where
  pub is_mute_all : Bool
  pub reason : String
  pub rule_type : ℕ
  pub rule_config : String
  pub allow_roles : List ℕ
  pub except_users : List String
  pub effective_at : ℕ
  pub expires_at : ℕ
  pub is_active : Bool

unfoldable pub updated :
    Json → String → RoomMuteConfigRuleParams → ℕ → RoomMuteConfig → RoomMuteConfig
updated j by_uid p version c = record c {
  is_mute_all = p.is_mute_all;
  mute_all_by = by_uid;
  mute_all_reason = p.reason;
  rule_type = p.rule_type;
  rule_config = if p.rule_config == "" then "{}" else p.rule_config;
  allow_roles = j.show_roles p.allow_roles;
  except_users = j.show_users p.except_users;
  effective_at = p.effective_at;
  expires_at = p.expires_at;
  is_active = p.is_active;
  version = version;
}

unfoldable pub update_configs :
    String → (RoomMuteConfig → RoomMuteConfig) → List RoomMuteConfig → List RoomMuteConfig
update_configs rid g [] = []
update_configs rid g (c ∷ cs) =
    if c.rid == rid then g c ∷ update_configs rid g cs else c ∷ update_configs rid g cs

set_found :
    Json
    → MuteFaults
    → MuteState
    → String
    → String
    → RoomMuteConfigRuleParams
    → Option RoomMuteConfig
    → MuteState × Bool
unfolding updated update_configs
set_found j f s rid by_uid p none = (s, false)
set_found j f s rid by_uid p (some cfg) =
    let s' : MuteState = record s {
      configs = update_configs rid (updated j by_uid p (suc cfg.version)) s.configs;
    } in
    if f.update then (s, false) else (reset_room_mute_frequency_count f s' rid, true)

-- The state after it, and whether it returns nil.
unfoldable pub set_room_mute_config_rule :
    Json → MuteFaults → MuteState → String → String → RoomMuteConfigRuleParams → MuteState × Bool
unfolding set_found
set_room_mute_config_rule j f s rid by_uid p =
    set_found j f s rid by_uid p (get_room_mute_config f s rid)

unfoldable pub mute_all_params : Bool → String → ℕ → RoomMuteConfigRuleParams
mute_all_params mute reason now = record {
  is_mute_all = mute;
  reason = reason;
  rule_type = 0;
  rule_config = "{}";
  allow_roles = 1 ∷ 2 ∷ [];
  except_users = [];
  effective_at = now;
  expires_at = 0;
  is_active = false;
}

unfoldable pub set_room_mute_all :
    Json → MuteFaults → MuteState → ℕ → String → Bool → String → String → MuteState × Bool
unfolding mute_all_params
set_room_mute_all j f s now rid mute by_uid reason =
    set_room_mute_config_rule j f s rid by_uid (mute_all_params mute reason now)
