-- ===== src/Join/Enter.antt =====
-- http/handler/room/room.go, joinRoomCommittedAfterValidation; and db/query/room_user_rejoin.go.
use cc_im_server.Prelude.{
  String, ℕ, suc, Bool, false, ◌&&◌, ◌||◌, Option, none, some, List, [], ◌∷◌, ◌==◌, any,
  if◌then◌else◌,
}
use cc_im_server.Delivery.Store.{RoomUser, set_room_user_ids_cache}
use cc_im_server.Mute.State.{MuteState}
use cc_im_server.Mute.State
use cc_im_server.Chat.Tables.{MessageRow, ContentRow, Call, Chat}
use cc_im_server.Chat.Sequence.{get_room_seq_id}
use cc_im_server.Chat.Send.{conflicts}
use cc_im_server.Join.Desk.{Desk, JoinRoom, UserRoomSession, Visitor, with_chat}

abbrev pub is_member_row : String → String → RoomUser → Bool
is_member_row rid uid u = u.rid == rid && u.uid == uid

-- The view of `room_user` that holds who is a member.
unfoldable pub restore_members : String → String → List RoomUser → List RoomUser
restore_members rid uid [] = []
restore_members rid uid (u ∷ us) =
    let rest = restore_members rid uid us in
    if is_member_row rid uid u then record u { delete_time = 0 } ∷ rest else u ∷ rest

unfoldable pub upsert_members : String → String → List RoomUser → List RoomUser
upsert_members rid uid us =
    if any (is_member_row rid uid) us
    then restore_members rid uid us
    else record { rid = rid; uid = uid; delete_time = 0 } ∷ us

-- The view that holds roles and mutes. A new row has the columns' defaults.
restore_roles : String → String → List State.RoomUser → List State.RoomUser
restore_roles rid uid [] = []
restore_roles rid uid (u ∷ us) =
    let rest = restore_roles rid uid us in
    if State.is_user_of rid uid u
    then record u { delete_time = 0; role = 0; mute_until = 0; mute_operator_uid = "" } ∷ rest
    else u ∷ rest

upsert_roles : String → String → List State.RoomUser → List State.RoomUser
unfolding restore_roles
upsert_roles rid uid us =
    if any (State.is_user_of rid uid) us
    then restore_roles rid uid us
    else record {
      rid = rid;
      uid = uid;
      role = 0;
      mute_until = 0;
      mute_operator_uid = "";
      last_speak_time = 0;
      last_speak_ip = "";
      delete_time = 0;
    }
      ∷ us

-- `UpsertActiveRoomUserTx` when the statements succeed.
unfoldable pub upsert_active_room_user_tx : Chat → String → String → Chat
unfolding upsert_roles
upsert_active_room_user_tx c rid uid = record c {
  members = record c.members { room_users = upsert_members rid uid c.members.room_users };
  mute = record c.mute { users = upsert_roles rid uid c.mute.users };
}

unfoldable pub add_member_count : String → List JoinRoom → List JoinRoom
add_member_count rid [] = []
add_member_count rid (r ∷ rooms) =
    let rest = add_member_count rid rooms in
    if r.rid == rid then record r { member_count = suc r.member_count } ∷ rest else r ∷ rest

clear_top : String → List UserRoomSession → List UserRoomSession
clear_top uid [] = []
clear_top uid (s ∷ ss) =
    let rest = clear_top uid ss in
    if s.uid == uid then record s { is_top = false } ∷ rest else s ∷ rest

is_session : String → String → UserRoomSession → Bool
is_session uid rid s = s.uid == uid && s.rid == rid

restore_sessions : String → String → ℕ → List UserRoomSession → List UserRoomSession
unfolding is_session
restore_sessions uid rid n [] = []
restore_sessions uid rid n (s ∷ ss) =
    let rest = restore_sessions uid rid n ss in
    if is_session uid rid s
    then record s { delete_time = 0; state = 1; last_seq_id = n; is_top = false } ∷ rest
    else s ∷ rest

first_rsid : String → String → List UserRoomSession → Option String
unfolding is_session
first_rsid uid rid [] = none
first_rsid uid rid (s ∷ ss) = if is_session uid rid s then some s.rsid else first_rsid uid rid ss

upsert_session :
    String
    → String
    → String
    → ℕ
    → List UserRoomSession
    → Option String
    → List UserRoomSession × String
unfolding restore_sessions
upsert_session uid rid new_rsid n ss (some rsid) = (restore_sessions uid rid n ss, rsid)
upsert_session uid rid new_rsid n ss none = (
  record {
    rsid = new_rsid;
    uid = uid;
    rid = rid;
    state = 1;
    last_seq_id = n;
    is_top = false;
    delete_time = 0;
  }
      ∷ ss,
  new_rsid,
)

-- `UpsertActiveUserRoomSessionTx`: the sessions and the id of the session.
unfoldable pub upsert_active_user_room_session_tx :
    List UserRoomSession → String → String → String → ℕ → List UserRoomSession × String
unfolding upsert_session first_rsid
upsert_active_user_room_session_tx ss uid rid new_rsid n =
    upsert_session uid rid new_rsid n ss (first_rsid uid rid ss)

-- The system message of a join without an invitation.
unfoldable pub join_row : Visitor → String → ℕ → MessageRow
join_row v rid n = record {
  rid = rid;
  seq_id = n;
  mid = v.new_mid;
  client_mid = v.new_client_mid;
  sender_uid = "system";
  ip = v.ip;
  client_create_time = 0;
  create_time = v.now;
  withdraw_time = 0;
  delete_time = 0;
}

join_content : Visitor → String → ContentRow
join_content v uid = record {
  mid = v.new_mid;
  client_cid = v.new_cid;
  type = "user:join";
  type_id = uid;
  content = "{}";
  delete_time = 0;
}

-- The tables once the transaction is committed.
unfoldable pub join_tables : Visitor → Desk → String → String → ℕ → Desk × String
unfolding clear_top join_content
join_tables v d uid rid n =
    let c = upsert_active_room_user_tx d.chat rid uid in
    let (sessions, rsid) =
      upsert_active_user_room_session_tx (clear_top uid d.sessions) uid rid v.new_rsid n in
    (
      record d {
        chat = record c {
          rows = join_row v rid n ∷ c.rows;
          contents = join_content v uid ∷ c.contents;
        };
        rooms = add_member_count rid d.rooms;
        sessions = sessions;
      },
      rsid,
    )

-- The cache of the members, and the calls, after the commit.
unfoldable pub after_join : Visitor → Desk → String → String → Desk
after_join v d uid rid =
    let store = set_room_user_ids_cache v.member_faults d.chat.members rid in
    with_chat d (record d.chat {
      members = store;
      calls =
          Call.log_operation "room_join" rid
          ∷ Call.add_to_online_set rid uid
          ∷ Call.notify_room_message v.new_mid
          ∷ Call.bump_session rid v.now
          ∷ d.chat.calls;
    })

join_numbered : Visitor → Desk → String → String → Option ℕ → Desk × Option String
join_numbered v d uid rid none = (d, none)
join_numbered v d uid rid (some n) =
    let (joined, rsid) = join_tables v d uid rid n in
    if v.faults.join_transaction || any (conflicts (join_row v rid n)) d.chat.rows
    then (d, none)
    else (after_join v joined uid rid, some rsid)

-- The session's id; none for an error.
unfoldable pub join_room_committed_after_validation :
    Visitor → Desk → String → JoinRoom → Desk × Option String
unfolding join_numbered
join_room_committed_after_validation v d uid room =
    let (c, n) = get_room_seq_id v.chat_faults d.chat room.rid in
    join_numbered v (with_chat d c) uid room.rid n
