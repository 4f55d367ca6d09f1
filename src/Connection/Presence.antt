-- ===== src/Connection/Presence.antt =====
-- push/presence.go behind quic/server: what becomes of the presence entry of a user.
use cc_im_server.Prelude.{
  String, ℕ, ◌+◌, true, false, none, some, ◌≡◌, ◌≢◌, refl, ap, ◌∙◌, arith, ==_refl, ==_of_ne,
}
use cc_im_server.Prelude.Assoc.{lookup, lookup-insert, lookup-delete}
use cc_im_server.Connection.Reach.{beat-reg}
use cc_im_server.Connection.Registry.{get, remove_if_match}
use cc_im_server.Connection.Server.{
  Server, ConnEvent, presence_register, presence_refresh, presence_unregister,
  remove_heartbeat_keys, unregister_live_client, on_client_close, on_heartbeat_update,
  handle_user_offline, presence_ttl,
}
use cc_im_server.Connection.Timeout.{IsLive, live_current, live_removed}

module _ (s : Server) (e : ConnEvent) where
  abbrev IsNamed : Type 0
  IsNamed = (e.uid ≢ "") × (e.sid ≢ "") × (s.redis_up ≡ true)

  unregister-presence :
      IsNamed
      → IsLive s e.uid e.sid e.conn_id
      → lookup e.uid (unregister_live_client s e.uid e.sid e.conn_id false).presence ≡ none
  unfolding unregister_live_client remove_if_match get presence_unregister remove_heartbeat_keys
  unregister-presence (hu, hs, up) (live, nz) = ground (
    arith,
    live,
    nz,
    up,
    ==_of_ne e.uid "" hu,
    ==_of_ne e.sid "" hs,
    ==_refl e.sid,
    ==_refl e.uid,
    lookup-delete e.uid e.uid s.presence,
  )

  unregister-node : (unregister_live_client s e.uid e.sid e.conn_id false).node_id ≡ s.node_id
  unfolding unregister_live_client remove_if_match presence_unregister remove_heartbeat_keys
  unregister-node = ground arith

  unregister-redis : (unregister_live_client s e.uid e.sid e.conn_id false).redis_up ≡ s.redis_up
  unfolding unregister_live_client remove_if_match presence_unregister remove_heartbeat_keys
  unregister-redis = ground arith

-- Closing a user's live connection deletes the user's presence entry whatever node the entry
-- names, so also when the user has meanwhile connected to another node.
pub close_erases_presence :
    (s : Server) (e : ConnEvent) (node : String) (expires : ℕ)
    → IsNamed s e
    → IsLive s e.uid e.sid e.conn_id
    → lookup e.uid s.presence ≡ some (node, expires)
    → node ≢ s.node_id
    → lookup e.uid (on_client_close s e).presence ≡ none
unfolding on_client_close
close_erases_presence s e node expires (hu, hs, up) live held other =
    let s' = handle_user_offline s e.uid "normal" e.reason in
    let still : IsLive s' e.uid e.sid e.conn_id = unfold handle_user_offline in live in
    let up' : s'.redis_up ≡ true = unfold handle_user_offline in up in
    ground (
      arith,
      ==_of_ne e.uid "" hu,
      ==_of_ne e.sid "" hs,
      live_current s e.uid e.sid e.conn_id live,
      unregister-presence s' e (hu, hs, up') still,
    )

close_live :
    (s : Server) (e : ConnEvent)
    → e.uid ≢ ""
    → e.sid ≢ ""
    → IsLive s e.uid e.sid e.conn_id
    → on_client_close s e
      ≡ unregister_live_client
          (handle_user_offline s e.uid "normal" e.reason)
          e.uid
          e.sid
          e.conn_id
          false
unfolding on_client_close
close_live s e hu hs live =
    ground
      (arith, ==_of_ne e.uid "" hu, ==_of_ne e.sid "" hs, live_current s e.uid e.sid e.conn_id live)

beat-presence :
    (t : Server) (e : ConnEvent) (now : ℕ)
    → IsNamed t e
    → t.node_id ≢ ""
    → lookup e.uid (on_heartbeat_update t now e).presence ≡ some (t.node_id, now + presence_ttl)
unfolding on_heartbeat_update presence_refresh presence_register
beat-presence t e now (hu, hs, up) hn = ground (
  arith,
  up,
  ==_of_ne e.uid "" hu,
  ==_of_ne e.sid "" hs,
  ==_of_ne t.node_id "" hn,
  ==_refl e.uid,
  lookup-insert e.uid e.uid (t.node_id, now + presence_ttl) t.presence,
)

-- A heartbeat of a connection that is handled after its close event makes the user present on the
-- node again, for as long as an entry lives, though the registry has no connection of the user.
pub late_heartbeat :
    (s : Server) (e : ConnEvent) (now : ℕ)
    → IsNamed s e
    → s.node_id ≢ ""
    → IsLive s e.uid e.sid e.conn_id
    → let t = on_heartbeat_update (on_client_close s e) now e in
      (get t.reg e.uid ≡ none) × (lookup e.uid t.presence ≡ some (s.node_id, now + presence_ttl))
late_heartbeat s e now (hu, hs, up) hn live =
    let s' = handle_user_offline s e.uid "normal" e.reason in
    let t = unregister_live_client s' e.uid e.sid e.conn_id false in
    let still : IsLive s' e.uid e.sid e.conn_id = unfold handle_user_offline in live in
    let up' : t.redis_up ≡ true = unregister-redis s' e ∙ (unfold handle_user_offline in up) in
    let node' : t.node_id ≡ s.node_id =
      unregister-node s' e ∙ (unfold handle_user_offline in refl) in
    let gone = live_removed s' e.uid e.sid e.conn_id false still in
    rw (close_live s e hu hs live) (
      rw (beat-reg t now e) gone,
      beat-presence t e now (hu, hs, up') (rw node' hn)
          ∙ ap (λ n. some (n, now + presence_ttl)) node',
    )
