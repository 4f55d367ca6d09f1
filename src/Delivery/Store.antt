-- ===== src/Delivery/Store.antt =====
-- The tables and Redis keys that the delivery of a message reads and writes, and the queries of
-- db/query over them. `Faults` says which external calls fail; the code goes on or stops at each.
use cc_im_server.Prelude.{
  String, ℕ, Bool, ◌&&◌, Option, none, some, List, [], ◌∷◌, map, filter, ◌==◌, eqb, if◌then◌else◌,
}
use cc_im_server.Prelude.Assoc.{lookup, insert}

-- A row of room_message_content: its type, and the uid that its JSON names if it decodes as a
-- mention of one user.
pub record Content : Type 0 where
  pub type : String
  pub at_uid : Option String

pub record RoomMessage : Type 0 where
  pub mid : String
  pub rid : String
  pub sender_uid : String
  pub seq_id : ℕ
  pub state : ℕ
  pub delete_time : ℕ
  pub withdraw_time : ℕ
  pub contents : List Content

pub record RoomUser : Type 0 where
  pub rid : String
  pub uid : String
  pub delete_time : ℕ

pub record UserRoomBlock : Type 0 where
  pub rid : String
  pub uid : String
  pub delete_time : ℕ

pub record RoomUserBlockUser : Type 0 where
  pub rid : String
  pub uid : String
  pub target_uid : String
  pub delete_time : ℕ

pub record RoomMessageAck : Type 0 where
  pub rid : String
  pub uid : String
  pub mid : String
  pub seq_id : ℕ
  pub state : ℕ
  pub is_offline : Bool

pub record RoomMessageWithdrawAck : Type 0 where
  pub rid : String
  pub uid : String
  pub mid : String
  pub seq_id : ℕ
  pub state : ℕ

pub record RoomMessageMention : Type 0 where
  pub rid : String
  pub mid : String
  pub seq_id : ℕ
  pub uid : String
  pub sender_uid : String
  pub is_at_all : Bool
  pub is_read : Bool

pub record Store : Type 0 where
  pub messages : List RoomMessage
  pub room_users : List RoomUser
  pub room_blocks : List UserRoomBlock
  pub user_blocks : List RoomUserBlockUser
  pub acks : List RoomMessageAck
  pub withdraw_acks : List RoomMessageWithdrawAck
  pub mentions : List RoomMessageMention
  -- Redis: the cached members of a room, and the node of each user who is present now.
  pub user_ids_cache : List (String × List String)
  pub presence : List (String × String)

pub record Faults : Type 0 where
  -- Reads of the member cache: the first, the one after a refresh, the one for a mention of all.
  pub cache_get : Bool
  pub cache_get_again : Bool
  pub cache_get_mentions : Bool
  pub cache_set : Bool
  pub users_query : Bool
  pub room_blocks_query : Bool
  pub user_blocks_query : Bool
  pub acks_create : Bool
  pub acks_commit : Bool
  pub mentions_create : Bool
  pub presence_get : String → Bool
  pub publish : String → Bool

abbrev pub find_first : (RoomMessage → Bool) → List RoomMessage → Option RoomMessage
find_first p [] = none
find_first p (m ∷ ms) = if p m then some m else find_first p ms

-- The zero value of the struct.
abbrev pub no_message : RoomMessage
no_message = record {
  mid = "";
  rid = "";
  sender_uid = "";
  seq_id = 0;
  state = 0;
  delete_time = 0;
  withdraw_time = 0;
  contents = [];
}

-- `Find` of GORM allocates the struct that its argument points to, so the two queries return none,
-- for a nil pointer, never: a row that is missing gives the zero value.
abbrev pub allocated : Option RoomMessage → Option RoomMessage
allocated none = some no_message
allocated (some m) = some m

unfoldable pub get_room_message_by_mid : Store → String → Option RoomMessage
get_room_message_by_mid s mid = allocated (
    find_first (λ m. m.mid == mid && eqb m.state 1 && eqb m.delete_time 0 && eqb m.withdraw_time 0)
      s.messages)

unfoldable pub get_room_message_by_mid_include_withdraw : Store → String → Option RoomMessage
get_room_message_by_mid_include_withdraw s mid =
    allocated (find_first (λ m. m.mid == mid && eqb m.state 1 && eqb m.delete_time 0) s.messages)

unfoldable pub get_room_user_ids : Faults → Store → String → Option (List String)
get_room_user_ids f s rid =
    if f.users_query
    then none
    else some (map (λ u. u.uid) (filter (λ u. u.rid == rid && eqb u.delete_time 0) s.room_users))

cache_ids : Faults → Store → String → Option (List String) → Store
cache_ids f s rid none = s
cache_ids f s rid (some ids) =
    if f.cache_set then s else record s { user_ids_cache = insert rid ids s.user_ids_cache }

unfoldable pub set_room_user_ids_cache : Faults → Store → String → Store
unfolding cache_ids
set_room_user_ids_cache f s rid = cache_ids f s rid (get_room_user_ids f s rid)

cached_or_loaded : Faults → Store → String → Option (List String) → Store × Option (List String)
cached_or_loaded f s rid (some ids) = (s, some ids)
cached_or_loaded f s rid none =
    let s' = set_room_user_ids_cache f s rid in (s', lookup rid s'.user_ids_cache)

-- none stands for an error; `fails` says whether Redis answers.
unfoldable pub get_room_user_ids_cache :
    Bool → Faults → Store → String → Store × Option (List String)
unfolding cached_or_loaded
get_room_user_ids_cache fails f s rid =
    if fails then (s, none) else cached_or_loaded f s rid (lookup rid s.user_ids_cache)

unfoldable pub get_uids_who_blocked_room : Store → String → List String
get_uids_who_blocked_room s rid =
    map (λ b. b.uid) (filter (λ b. b.rid == rid && eqb b.delete_time 0) s.room_blocks)

unfoldable pub get_uids_who_blocked_user_in_room : Store → String → String → List String
get_uids_who_blocked_user_in_room s rid sender =
    map (λ b. b.uid)
      (filter (λ b. b.rid == rid && b.target_uid == sender && eqb b.delete_time 0) s.user_blocks)
