-- ===== src/Join/Desk.antt =====
-- The tables that joining a room reads and writes, and the queries of db/query on them.
use cc_im_server.Prelude.{
  String, ℕ, Bool, false, not, ◌&&◌, Option, none, some, List, [], ◌∷◌, ◌==◌, eqb, ltb,
  if◌then◌else◌, elem,
}
use cc_im_server.Delivery.Store.{Faults, get_room_user_ids_cache}
use cc_im_server.Mute.State.{MuteFaults}
use cc_im_server.Chat.Tables.{Call, Chat, ChatFaults}

-- Columns of the table `room` that joining reads or writes.
pub record JoinRoom : Type 0 where
  pub rid : String
  pub create_uid : String
  pub state : ℕ
  pub type : ℕ
  pub password : String
  pub member_count : ℕ
  pub join_approval_required : Bool
  pub join_question_enabled : Bool
  pub join_question_auto_approve : Bool
  pub join_question_answer : String
  pub delete_time : ℕ

-- `state` is 0 for a request that waits, 1 for a rejected one and 2 for an accepted one.
pub record RoomJoinRequest : Type 0 where
  pub rjr_id : String
  pub rid : String
  pub applicant_uid : String
  pub message : String
  pub answer : String
  pub state : ℕ
  pub handler_uid : String
  pub expires_at : ℕ
  pub processed_at : ℕ
  pub delete_time : ℕ

pub record UserRoomSession : Type 0 where
  pub rsid : String
  pub uid : String
  pub rid : String
  pub state : ℕ
  pub last_seq_id : ℕ
  pub is_top : Bool
  pub delete_time : ℕ

pub record RoomInvite : Type 0 where
  pub token : String
  pub rid : String
  pub bypass_password : Bool
  pub expires_at : ℕ
  pub delete_time : ℕ

-- `chat` holds the messages, the members with their cache, and the members' roles and mutes: the
-- table `room_user` stands there in two views. `users` are the uids that `GetUserByUid` finds.
pub record Desk : Type 0 where
  pub chat : Chat
  pub rooms : List JoinRoom
  pub requests : List RoomJoinRequest
  pub sessions : List UserRoomSession
  pub invites : List RoomInvite
  pub users : List String

pub record JoinFaults : Type 0 where
  pub request_query : Bool
  pub room_query : Bool
  pub invite_query : Bool
  pub user_query : Bool
  pub request_save : Bool
  pub state_update : Bool
  pub notification_update : Bool
  pub handle_commit : Bool
  -- Any statement of the transaction of a join, or its commit.
  pub join_transaction : Bool
  -- Any statement that removes a member, changes a role, sets or ends a block, or dissolves a room.
  pub member_update : Bool

-- The user of the request, the clock, what the server makes up, and the failures. The texts are
-- strings.TrimSpace, utf8.RuneCountInString and bcrypt.
pub record Visitor : Type 0 where
  pub uid : String
  pub now : ℕ
  pub ip : String
  pub new_mid : String
  pub new_client_mid : String
  pub new_cid : String
  pub new_rsid : String
  pub new_rjr_id : String
  pub trim_space : String → String
  pub rune_count : String → ℕ
  pub password_matches : String → String → Bool
  pub faults : JoinFaults
  pub chat_faults : ChatFaults
  pub mute_faults : MuteFaults
  pub member_faults : Faults

abbrev pub with_chat : Desk → Chat → Desk
with_chat d c = record d { chat = c }

abbrev pub call : Call → Desk → Desk
call c d = record d { chat = record d.chat { calls = c ∷ d.chat.calls } }

unfoldable pub find_live_room : String → List JoinRoom → Option JoinRoom
find_live_room rid [] = none
find_live_room rid (r ∷ rooms) =
    if r.rid == rid && eqb r.state 1 && eqb r.delete_time 0
    then some r
    else find_live_room rid rooms

-- `GetRoomByRid`: none for an error and for a room that is dissolved.
unfoldable pub get_room_by_rid : JoinFaults → Desk → String → Option JoinRoom
unfolding find_live_room
get_room_by_rid f d rid = if f.room_query then none else find_live_room rid d.rooms

unfoldable pub find_request :
    (RoomJoinRequest → Bool) → List RoomJoinRequest → Option RoomJoinRequest
find_request p [] = none
find_request p (q ∷ qs) = if p q then some q else find_request p qs

abbrev pub is_request : String → RoomJoinRequest → Bool
is_request rjr_id q = q.rjr_id == rjr_id && eqb q.delete_time 0

-- none for an error too.
unfoldable pub get_room_join_request_by_rjr_id : JoinFaults → Desk → String → Option RoomJoinRequest
get_room_join_request_by_rjr_id f d rjr_id =
    if f.request_query then none else find_request (is_request rjr_id) d.requests

abbrev pub is_of_applicant : String → String → RoomJoinRequest → Bool
is_of_applicant rid uid q = q.rid == rid && q.applicant_uid == uid

-- A unique index keeps one row of a room and an applicant, so no order is needed.
unfoldable pub get_room_join_request_by_rid_and_applicant :
    Desk → String → String → Option RoomJoinRequest
get_room_join_request_by_rid_and_applicant d rid uid =
    find_request (λ q. is_of_applicant rid uid q && eqb q.delete_time 0) d.requests

is_waiting : ℕ → Option RoomJoinRequest → Bool
is_waiting now none = false
is_waiting now (some q) = eqb q.state 0 && not (ltb 0 q.expires_at && ltb q.expires_at now)

-- Whether `GetPendingRoomJoinRequestByRidAndApplicant` returns a request.
unfoldable pub has_pending_room_join_request : JoinFaults → Desk → ℕ → String → String → Bool
unfolding is_waiting
has_pending_room_join_request f d now rid uid =
    if f.request_query
    then false
    else is_waiting now (get_room_join_request_by_rid_and_applicant d rid uid)

is_listed : String → Option (List String) → Bool
is_listed uid none = false
is_listed uid (some uids) = elem uid uids

-- `HasRoomUser` asks the member cache, which may load it; an error counts as not a member.
unfoldable pub has_room_user : Visitor → Desk → String → String → Desk × Bool
unfolding is_listed
has_room_user v d rid uid =
    let (store, uids) =
      get_room_user_ids_cache v.member_faults.cache_get v.member_faults d.chat.members rid in
    (with_chat d (record d.chat { members = store }), is_listed uid uids)

find_invite : String → ℕ → List RoomInvite → Option RoomInvite
find_invite token now [] = none
find_invite token now (i ∷ is) =
    if i.token == token && eqb i.delete_time 0 && ltb now i.expires_at
    then some i
    else find_invite token now is

unfoldable pub get_active_room_invite_by_token : Desk → String → ℕ → Option RoomInvite
unfolding find_invite
get_active_room_invite_by_token d token now = find_invite token now d.invites
