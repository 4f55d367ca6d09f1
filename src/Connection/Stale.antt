-- ===== src/Connection/Stale.antt =====
-- quic/server: one live connection per user, and events of replaced connections do nothing.
use cc_im_server.Prelude.{
  String, ℕ, Bool, true, false, ◌||◌, not, some, ◌∷◌, ◌==◌, ◌≡◌, ◌≢◌, arith, ==_refl,
}
use cc_im_server.Prelude.Assoc.{insert, lookup-insert, lookup-delete}
use cc_im_server.Connection.Registry.{
  Client, get, register, is_current_conn, remove_if_match, remove_if_match_lem,
}
use cc_im_server.Connection.Server.{
  Server, ConnEvent, presence_register, presence_unregister, remove_heartbeat_keys,
  unregister_live_client, on_client_close, on_client_timeout, register_live_client, handle_connect,
}

abbrev pub client_of : String → String → ℕ → Client
client_of uid sid conn_id = record { user = some uid; sid = sid; conn_id = conn_id }

pub reg-unregister :
    (s : Server) (uid sid : String) (conn_id : ℕ) (force : Bool)
    → (unregister_live_client s uid sid conn_id force).reg
      ≡ (remove_if_match s.reg uid sid conn_id).0
unfolding unregister_live_client presence_unregister remove_heartbeat_keys remove_if_match
reg-unregister s uid sid conn_id force = ground arith

reg-presence_register :
    (s : Server) (uid node : String) (now : ℕ) → (presence_register s uid node now).reg ≡ s.reg
unfolding presence_register
reg-presence_register s uid node now = ground arith

reg-remove_heartbeat_keys :
    (s : Server) (uid sid : String) (conn_id : ℕ)
    → (remove_heartbeat_keys s uid sid conn_id).reg ≡ s.reg
unfolding remove_heartbeat_keys
reg-remove_heartbeat_keys s uid sid conn_id = ground arith

pub reg-register_live_client :
    (s : Server) (now : ℕ) (uid sid : String) (conn_id : ℕ)
    → (register_live_client s now (client_of uid sid conn_id)).reg
      ≡ insert uid (client_of uid sid conn_id) s.reg
unfolding register_live_client register presence_register remove_heartbeat_keys
reg-register_live_client s now uid sid conn_id = ground arith

-- After a connection is accepted it is the user's current one, whatever was registered before.
pub get-handle_connect :
    (s : Server) (now : ℕ) (uid sid : String) (conn_id : ℕ)
    → get (handle_connect s now uid sid conn_id).reg uid ≡ some (client_of uid sid conn_id)
unfolding get handle_connect
get-handle_connect s now uid sid conn_id =
    rw (reg-register_live_client _ now uid sid conn_id, lookup-insert, ==_refl uid)

stale_after_connect :
    (s : Server) (now : ℕ) (uid sid : String) (conn_id : ℕ) (sid' : String) (old : ℕ)
    → old ≢ conn_id
    → is_current_conn (handle_connect s now uid sid conn_id).reg uid sid' old ≡ false
unfolding is_current_conn get
stale_after_connect s now uid sid conn_id sid' old h =
    ground (arith, get-handle_connect s now uid sid conn_id)

-- Once a user has connected anew, a close event or a timeout event that names another connection
-- of the user changes nothing at all: the new connection stays registered, the user stays present,
-- and the offline procedure does not run.
pub stale_events_ignored :
    (s : Server) (now : ℕ) (uid sid : String) (conn_id : ℕ) (e : ConnEvent)
    → e.uid ≡ uid
    → e.conn_id ≢ conn_id
    → let t = handle_connect s now uid sid conn_id in
      (on_client_close t e ≡ t)
      × (on_client_timeout t e ≡ t)
      × (get t.reg uid ≡ some (client_of uid sid conn_id))
unfolding on_client_close on_client_timeout
stale_events_ignored s now uid sid conn_id e u h =
    let stale = stale_after_connect s now uid sid conn_id e.sid e.conn_id h in
    (ground (arith, u, stale), ground (arith, u, stale), get-handle_connect s now uid sid conn_id)

not_current_removed :
    (s : Server) (uid sid : String) (conn_id : ℕ) (force : Bool)
    → is_current_conn s.reg uid sid conn_id ≡ true
    → is_current_conn (unregister_live_client s uid sid conn_id force).reg uid sid conn_id ≡ false
unfolding is_current_conn
not_current_removed s uid sid conn_id force h =
    rw (reg-unregister s uid sid conn_id force, remove_if_match_lem s.reg uid sid conn_id)
      (ground (arith, lookup-delete uid uid s.reg, ==_refl uid))

-- An event on which neither handler acts.
abbrev ignored : Server → ConnEvent → Bool
ignored s e = e.uid == "" || e.sid == "" || not (is_current_conn s.reg e.uid e.sid e.conn_id)

close-ignored :
    (s : Server) (e : ConnEvent)
    → ignored s e ≡ true
    → (on_client_close s e ≡ s) × (on_client_timeout s e ≡ s)
unfolding on_client_close on_client_timeout
close-ignored s e h = ground arith

ignored_after :
    (s : Server) (e e' : ConnEvent)
    → e'.uid ≡ e.uid
    → e'.sid ≡ e.sid
    → e'.conn_id ≡ e.conn_id
    → (ignored (on_client_close s e) e' ≡ true) × (ignored (on_client_timeout s e) e' ≡ true)
unfolding on_client_close on_client_timeout
ignored_after s e e' u i c =
    let removed =
      λ (s' : Server) (force : Bool). not_current_removed s' e.uid e.sid e.conn_id force in
    (
      ground (arith, u, i, c, removed (offline s e "normal" e.reason) false),
      ground (arith, u, i, c, removed (offline s e "timeout" "心跳超时") true),
    )
  where
    offline : Server → ConnEvent → String → String → Server
    offline s e subtype reason = record s {
      offlines = record { uid = e.uid; subtype = subtype; reason = reason } ∷ s.offlines;
    }

-- A close event and a timeout event of one connection, in any order and however often, have the
-- effect of the first: the offline procedure runs at most once for a connection.
pub close_once :
    (s : Server) (e e' : ConnEvent)
    → e'.uid ≡ e.uid
    → e'.sid ≡ e.sid
    → e'.conn_id ≡ e.conn_id
    → (on_client_close (on_client_close s e) e' ≡ on_client_close s e)
      × (on_client_timeout (on_client_close s e) e' ≡ on_client_close s e)
      × (on_client_close (on_client_timeout s e) e' ≡ on_client_timeout s e)
      × (on_client_timeout (on_client_timeout s e) e' ≡ on_client_timeout s e)
close_once s e e' u i c =
    let (after_close, after_timeout) = ignored_after s e e' u i c in
    let (cc1, ct) = close-ignored (on_client_close s e) e' after_close in
    let (tc, tt1) = close-ignored (on_client_timeout s e) e' after_timeout in (cc1, ct, tc, tt1)
