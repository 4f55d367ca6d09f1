-- ===== src/Connection/Replace.antt =====
-- quic/server: what accepting a connection does to the node's state.
use cc_im_server.Prelude.{
  String, ℕ, ◌+◌, true, false, ◌||◌, some, List, ◌∷◌, ◌==◌, if◌then◌else◌, ◌≡◌, ◌≢◌, arith, ==_refl,
  ==_of_ne,
}
use cc_im_server.Prelude.Assoc.{lookup, lookup-insert}
use cc_im_server.Connection.Key.{heartbeat_client_key}
use cc_im_server.Connection.Stale.{client_of}
use cc_im_server.Connection.Registry.{Client, get, remove_if_match, snapshot_for_replace}
use cc_im_server.Connection.Server.{
  Server, presence_register, presence_unregister, remove_heartbeat_keys, unregister_live_client,
  register_live_client, handle_connect, disconnect_replaced_client, announce_replaced, Offline,
  presence_ttl,
}

-- Registering a connection marks the user as present on this node and starts its heartbeat.
register_presence :
    (s : Server) (now : ℕ) (uid sid : String) (conn_id : ℕ)
    → s.redis_up ≡ true
    → uid ≢ ""
    → s.node_id ≢ ""
    → lookup uid (register_live_client s now (client_of uid sid conn_id)).presence
      ≡ some (s.node_id, now + presence_ttl)
unfolding register_live_client presence_register remove_heartbeat_keys
register_presence s now uid sid conn_id up hu hn = ground (
  arith,
  ==_of_ne uid "" hu,
  ==_of_ne s.node_id "" hn,
  ==_refl uid,
  lookup-insert uid uid (s.node_id, now + presence_ttl) s.presence,
)

register_heartbeat :
    (s : Server) (now : ℕ) (uid sid : String) (conn_id : ℕ)
    → lookup
        (heartbeat_client_key uid sid conn_id)
        (register_live_client s now (client_of uid sid conn_id)).heartbeats
      ≡ some now
unfolding register_live_client
register_heartbeat s now uid sid conn_id =
    rw (lookup-insert, ==_refl (heartbeat_client_key uid sid conn_id))

abbrev pub logout_of : Server → Client → String → List String
logout_of s old sid =
    if old.sid == "" || sid == "" || old.sid == sid then s.logged_out else old.sid ∷ s.logged_out

-- The calls that the server has made of connections and sessions.
abbrev pub Calls : Type 0
Calls = List ℕ × List Offline × List String × List ℕ

abbrev pub calls : Server → Calls
calls s = (s.closed, s.offlines, s.logged_out, s.force_offline)

pub calls-register :
    (s : Server) (now : ℕ) (uid sid : String) (conn_id : ℕ)
    → calls (register_live_client s now (client_of uid sid conn_id)) ≡ calls s
unfolding register_live_client presence_register remove_heartbeat_keys
calls-register s now uid sid conn_id = ground arith

pub calls-unregister :
    (s : Server) (uid sid : String) (conn_id : ℕ)
    → calls (unregister_live_client s uid sid conn_id false) ≡ calls s
unfolding unregister_live_client presence_unregister remove_heartbeat_keys remove_if_match
calls-unregister s uid sid conn_id = ground arith

calls-announce :
    (s : Server) (sid : String) (old : Client)
    → old.conn_id ≢ 0
    → calls (announce_replaced s old sid)
      ≡ (old.conn_id ∷ s.closed, s.offlines, logout_of s old sid, old.conn_id ∷ s.force_offline)
unfolding announce_replaced
calls-announce s sid old c = ground arith

calls-disconnect :
    (s : Server) (uid sid : String) (old : Client)
    → old.user ≡ some uid
    → old.conn_id ≢ 0
    → calls (disconnect_replaced_client s (some old) sid)
      ≡ (old.conn_id ∷ s.closed, s.offlines, logout_of s old sid, old.conn_id ∷ s.force_offline)
unfolding disconnect_replaced_client
calls-disconnect s uid sid old u c = ground (
  arith,
  u,
  calls-announce s sid old c,
  calls-unregister (announce_replaced s old sid) uid old.sid old.conn_id,
)

-- Accepting a connection of a user who already has one tells the old one, closes it, and does not
-- run the offline procedure. The old session is logged out exactly when both sessions have a name
-- and the names differ.
pub replace_lem :
    (s : Server) (now : ℕ) (uid sid : String) (conn_id : ℕ) (old : Client)
    → get s.reg uid ≡ some old
    → old.user ≡ some uid
    → old.conn_id ≢ 0
    → calls (handle_connect s now uid sid conn_id)
      ≡ (old.conn_id ∷ s.closed, s.offlines, logout_of s old sid, old.conn_id ∷ s.force_offline)
unfolding handle_connect get snapshot_for_replace
replace_lem s now uid sid conn_id old g u c =
    rw (calls-register _ now uid sid conn_id)
      (ground (arith, g, calls-disconnect s uid sid old u c))
