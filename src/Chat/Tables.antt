-- ===== src/Chat/Tables.antt =====
-- The tables that sending and withdrawing a room message read and write, and the queries on them.
use cc_im_server.Prelude.{
  String, ℕ, Bool, false, not, ◌&&◌, ◌||◌, Option, none, some, List, [], ◌∷◌, ◌==◌, eqb, ltb,
  if◌then◌else◌,
}
use cc_im_server.Delivery.Store.{Store}
use cc_im_server.Mute.State.{MuteState}

pub record MessageRow : Type 0 where
  pub rid : String
  pub seq_id : ℕ
  pub mid : String
  pub client_mid : String
  pub sender_uid : String
  pub ip : String
  pub client_create_time : ℕ
  pub create_time : ℕ
  pub withdraw_time : ℕ
  pub delete_time : ℕ

pub record ContentRow : Type 0 where
  pub mid : String
  pub client_cid : String
  pub type : String
  pub type_id : String
  pub content : String
  pub delete_time : ℕ

-- `state` is 0 for a dissolved room; `type` is 0 for a private chat.
pub record Room : Type 0 where
  pub rid : String
  pub state : ℕ
  pub type : ℕ
  pub allow_non_friend_chat : Bool
  pub delete_time : ℕ

pub record UserFriend : Type 0 where
  pub uid : String
  pub friend_uid : String
  pub friend_delete_time : ℕ

-- The calls that a handler makes of code outside this component, latest first.
pub data Call : Type 0 where
  ensure_receiver_session : (rid : String) → (sender_uid : String) → Call
  bump_session : (rid : String) → (create_time : ℕ) → Call
  publish_room_message : (mid : String) → Call
  publish_withdraw : (mid : String) → Call
  deliver_to_sender : (mid : String) → Call
  publish_content_update : (mid : String) → (client_cid : String) → Call
  ack_file_status : (client_cid : String) → Call
  keep_file_ack : (client_cid : String) → Call
  invalidate_last_message : (rid : String) → Call
  log_withdraw : (mid : String) → Call
  notify_room_message : (mid : String) → Call
  add_to_online_set : (rid : String) → (uid : String) → Call
  notify_join_request : (rjr_id : String) → Call
  push_handled : (rjr_id : String) → Call
  log_operation : (op : String) → (related_id : String) → Call

-- The result of an upload, for the content with this client id.
pub record ClientFileStatusUpdate : Type 0 where
  pub client_cid : String
  pub uf_id : String
  pub content : String

-- `members` holds the member table and its cache; `seqs` are Redis counters, and `file_updates` the
-- results of uploads that Redis keeps under client ids.
pub record Chat : Type 0 where
  pub rows : List MessageRow
  pub contents : List ContentRow
  pub rooms : List Room
  pub friends : List UserFriend
  pub members : Store
  pub mute : MuteState
  pub seqs : List (String × ℕ)
  pub file_updates : List (String × ClientFileStatusUpdate)
  pub calls : List Call

pub record ChatFaults : Type 0 where
  pub existing_query : Bool
  pub room_query : Bool
  pub friends_query : Bool
  pub seq_get : Bool
  pub max_query : Bool
  pub seq_init : Bool
  pub seq_incr : Bool
  pub tx_query : Bool
  pub row_create : Bool
  pub contents_create : Bool
  pub commit : Bool
  pub withdraw_update : Bool
  pub contents_delete : Bool
  -- The reads and writes of processCachedFileStatusUpdates.
  pub cached_get : Bool
  pub content_query : Bool
  pub content_update : Bool
  pub cached_delete : Bool

abbrev pub is_sent_as : String → String → String → MessageRow → Bool
is_sent_as rid client_mid uid r = r.rid == rid && r.client_mid == client_mid && r.sender_uid == uid

unfoldable pub find_row : (MessageRow → Bool) → List MessageRow → Option MessageRow
find_row p [] = none
find_row p (r ∷ rows) = if p r then some r else find_row p rows

unfoldable pub find_existing_room_message :
    List MessageRow → String → String → String → Option MessageRow
find_existing_room_message rows rid client_mid uid =
    find_row (λ r. is_sent_as rid client_mid uid r && eqb r.delete_time 0) rows

find_room : String → List Room → Option Room
find_room rid [] = none
find_room rid (r ∷ rooms) =
    if r.rid == rid && eqb r.delete_time 0 then some r else find_room rid rooms

unfoldable pub get_room_by_rid_any : ChatFaults → Chat → String → Option Room
unfolding find_room
get_room_by_rid_any f s rid = if f.room_query then none else find_room rid s.rooms

-- The last row of one direction: whether it is there, and whether the friend is deleted in it.
last_friend : String → String → List UserFriend → Option Bool
last_friend uid friend_uid [] = none
last_friend uid friend_uid (r ∷ rows) = elim (last_friend uid friend_uid rows) [
  | some deleted ↦ some deleted
  | none ↦
      if r.uid == uid && r.friend_uid == friend_uid
      then some (not (eqb r.friend_delete_time 0))
      else none
]

is_kept : Option Bool → Bool
is_kept none = false
is_kept (some deleted) = not deleted

-- The first result of the function; the other is not used here.
unfoldable pub check_friend_relation : ChatFaults → Chat → String → String → Bool
unfolding is_kept last_friend
check_friend_relation f s uid friend_uid =
    if uid == "" || friend_uid == "" || uid == friend_uid || f.friends_query
    then false
    else is_kept (last_friend uid friend_uid s.friends)
      && is_kept (last_friend friend_uid uid s.friends)

abbrev pub max : ℕ → ℕ → ℕ
max a b = if ltb a b then b else a

unfoldable pub get_max_room_seq_id : String → List MessageRow → ℕ
get_max_room_seq_id rid [] = 0
get_max_room_seq_id rid (r ∷ rows) =
    if r.rid == rid
    then max r.seq_id (get_max_room_seq_id rid rows)
    else get_max_room_seq_id rid rows
