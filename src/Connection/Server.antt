-- ===== src/Connection/Server.antt =====
-- quic/server/server.go and push/presence.go: how a node follows the connections of its users.
--
-- A server made by `NewServer` has a heartbeat manager and an event bus. Times are milliseconds,
-- and are arguments. Of `handleUserOffline` and of the session queries the model keeps the calls.
use cc_im_server.Prelude.{
  String, ℕ, ◌+◌, Bool, true, false, ◌&&◌, ◌||◌, not, Option, none, some, List, [], ◌∷◌, ◌==◌, eqb,
  ltb, if◌then◌else◌,
}
use cc_im_server.Prelude.Assoc.{lookup, insert, delete}
use cc_im_server.Connection.Key.{
  heartbeat_client_key, legacy_heartbeat_client_key, parse_heartbeat_client_key,
}
use cc_im_server.Connection.Registry.{
  Client, ClientRegistry, get, register, is_current_conn, remove_if_match, snapshot_for_replace,
  snapshot_all, clear,
}

pub record Offline : Type 0 where
  pub uid : String
  pub subtype : String
  pub reason : String

pub record Server : Type 0 where
  pub reg : ClientRegistry
  pub node_id : String
  -- Redis: the node of a user, and when the entry expires.
  pub presence : List (String × (String × ℕ))
  pub redis_up : Bool
  -- The heartbeat manager: the last heartbeat of each key.
  pub heartbeats : List (String × ℕ)
  -- The calls made of the session layer and of the connections, newest first.
  pub offlines : List Offline
  pub logged_out : List String
  pub online_status : List (String × String)
  pub status_heartbeats : List String
  pub force_offline : List ℕ
  pub closed : List ℕ
  pub is_shutdown : Bool

-- pkg/events: the payload of the heartbeat, close and timeout events.
pub record ConnEvent : Type 0 where
  pub uid : String
  pub sid : String
  pub conn_id : ℕ
  pub reason : String

abbrev pub presence_ttl : ℕ
presence_ttl = 120000

unfoldable pub presence_register : Server → String → String → ℕ → Server
presence_register s uid node now =
    if uid == "" || node == "" || not s.redis_up
    then s
    else record s { presence = insert uid (node, now + presence_ttl) s.presence }

unfoldable pub presence_unregister : Server → String → Server
presence_unregister s uid =
    if uid == "" || not s.redis_up then s else record s { presence = delete uid s.presence }

unfoldable pub presence_refresh : Server → String → String → ℕ → Server
presence_refresh s uid node now = presence_register s uid node now

-- The node of an entry that has not expired.
unfoldable pub live_node : ℕ → Option (String × ℕ) → Option String
live_node now none = none
live_node now (some (node, expires)) = if ltb now expires then some node else none

unfoldable pub node_for_user : Server → ℕ → String → Option String
node_for_user s now uid =
    if uid == "" then none else if s.redis_up then live_node now (lookup uid s.presence) else none

update_heartbeat : Server → String → ℕ → Server
update_heartbeat s key now = record s { heartbeats = insert key now s.heartbeats }

remove_client : Server → String → Server
remove_client s key = record s { heartbeats = delete key s.heartbeats }

unfoldable pub remove_heartbeat_keys : Server → String → String → ℕ → Server
unfolding remove_client
remove_heartbeat_keys s uid sid conn_id =
    if uid == "" || sid == ""
    then s
    else let s' =
        if eqb conn_id 0 then s else remove_client s (heartbeat_client_key uid sid conn_id) in
      remove_client s' (legacy_heartbeat_client_key uid sid)

unfoldable pub handle_user_offline : Server → String → String → String → Server
handle_user_offline s uid subtype reason = record s {
  offlines = record { uid = uid; subtype = subtype; reason = reason } ∷ s.offlines;
}

-- Closing a connection; a nil connection, with identifier 0, is left alone.
unfoldable pub close_conn : Server → ℕ → Server
close_conn s conn_id = if eqb conn_id 0 then s else record s { closed = conn_id ∷ s.closed }

heartbeat_conn : Option Client → String → ℕ
heartbeat_conn none sid = 0
heartbeat_conn (some c) sid = if c.sid == sid then c.conn_id else 0

unfoldable pub on_heartbeat_update : Server → ℕ → ConnEvent → Server
unfolding heartbeat_conn update_heartbeat
on_heartbeat_update s now e =
    if e.uid == "" || e.sid == ""
    then s
    else let conn_id : ℕ =
        if eqb e.conn_id 0 then heartbeat_conn (get s.reg e.uid) e.sid else e.conn_id in
      let s1 = update_heartbeat s (heartbeat_client_key e.uid e.sid conn_id) now in
      let s2 : Server = record s1 { status_heartbeats = e.uid ∷ s1.status_heartbeats } in
      presence_refresh s2 e.uid s2.node_id now

-- What follows the removal of `removed` from the registry.
after_removal : Server → String → String → ℕ → Bool → ClientRegistry × Option Client → Server
unfolding close_conn
after_removal s uid sid conn_id force (reg', none) = s
after_removal s uid sid conn_id force (reg', some removed) =
    let s1 = presence_unregister (record s { reg = reg' }) uid in
    let s2 = if force then close_conn s1 removed.conn_id else s1 in
    remove_heartbeat_keys s2 uid sid conn_id

unfoldable pub unregister_live_client : Server → String → String → ℕ → Bool → Server
unfolding after_removal
unregister_live_client s uid sid conn_id force =
    after_removal s uid sid conn_id force (remove_if_match s.reg uid sid conn_id)

unfoldable pub on_client_close : Server → ConnEvent → Server
unfolding handle_user_offline
on_client_close s e =
    if e.uid == "" || e.sid == ""
    then s
    else if not (is_current_conn s.reg e.uid e.sid e.conn_id)
    then s
    else unregister_live_client (handle_user_offline s e.uid "normal" e.reason) e.uid e.sid
        e.conn_id false

unfoldable pub on_client_timeout : Server → ConnEvent → Server
unfolding handle_user_offline
on_client_timeout s e =
    if e.uid == "" || e.sid == ""
    then s
    else if not (is_current_conn s.reg e.uid e.sid e.conn_id)
    then s
    else unregister_live_client (handle_user_offline s e.uid "timeout" "心跳超时") e.uid e.sid e.conn_id
        true

register_user : Server → ℕ → Client → Option String → Server
unfolding update_heartbeat
register_user s now c none = s
register_user s now c (some uid) =
    let s1 = presence_register (record s { reg = register s.reg (some c) }) uid s.node_id now in
    let s2 = remove_heartbeat_keys s1 uid c.sid c.conn_id in
    update_heartbeat s2 (heartbeat_client_key uid c.sid c.conn_id) now

unfoldable pub register_live_client : Server → ℕ → Client → Server
unfolding register_user
register_live_client s now c = register_user s now c c.user

-- The logout, the notice and the closing of a connection that is replaced.
unfoldable pub announce_replaced : Server → Client → String → Server
unfolding close_conn
announce_replaced s old new_sid =
    let s1 : Server =
      if not (old.sid == "") && not (new_sid == "") && not (old.sid == new_sid)
      then record s { logged_out = old.sid ∷ s.logged_out }
      else s in
    close_conn (record s1 { force_offline = old.conn_id ∷ s1.force_offline }) old.conn_id

replace_user : Server → Client → String → Option String → Server
replace_user s old new_sid none = s
replace_user s old new_sid (some uid) =
    unregister_live_client (announce_replaced s old new_sid) uid old.sid old.conn_id false

-- The old connection is told and closed; `handleUserOffline` is not called.
unfoldable pub disconnect_replaced_client : Server → Option Client → String → Server
unfolding replace_user
disconnect_replaced_client s none new_sid = s
disconnect_replaced_client s (some old) new_sid = replace_user s old new_sid old.user

-- The event that a timed-out heartbeat key gives rise to, if any, and the new state.
timeout_of : Server → String → String → ℕ → Option Client → Server × Option ConnEvent
timeout_of s uid sid conn_id live =
    let event : ℕ → Server × Option ConnEvent =
      λ id. (s, some (record { uid = uid; sid = sid; conn_id = id; reason = "" })) in
    if eqb conn_id 0
    then elim live [
      | none ↦ (remove_heartbeat_keys s uid sid 0, none)
      | some c ↦ if c.sid == sid then event c.conn_id else (remove_heartbeat_keys s uid sid 0, none)
    ]
    else event conn_id

unfoldable pub handle_client_timeout : Server → String → Server × Option ConnEvent
unfolding timeout_of
handle_client_timeout s key = elim (parse_heartbeat_client_key key) [
  | none ↦ (s, none)
  | some (uid, sid, conn_id) ↦ timeout_of s uid sid conn_id (get s.reg uid)
]

-- `handleConnect` from the point where the connection is authenticated.
unfoldable pub handle_connect : Server → ℕ → String → String → ℕ → Server
handle_connect s now uid sid conn_id =
    let s1 = disconnect_replaced_client s (snapshot_for_replace s.reg uid) sid in
    let s2 : Server =
      if sid == "" then s1 else record s1 { online_status = (uid, sid) ∷ s1.online_status } in
    register_live_client s2 now (record { user = some uid; sid = sid; conn_id = conn_id })

unfoldable pub offline_all : Server → List Client → Server
unfolding handle_user_offline
offline_all s [] = s
offline_all s (c ∷ cs) =
    let s' : Server = elim c.user [
      | none ↦ s
      | some uid ↦ handle_user_offline s uid "server_shutdown" "服务器关闭"
    ] in
    offline_all s' cs

unfoldable pub close_all : Server → List Client → Server
unfolding close_conn
close_all s [] = s
close_all s (c ∷ cs) = close_all (close_conn s c.conn_id) cs

-- The goroutines of `Shutdown` in the order in which they are started.
unfoldable pub shutdown : Server → Server
unfolding offline_all close_all
shutdown s =
    if s.is_shutdown
    then s
    else let clients = snapshot_all s.reg in
      let s1 : Server = record s { is_shutdown = true; reg = clear s.reg } in
      close_all (offline_all s1 clients) clients
