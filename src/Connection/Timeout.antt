-- ===== src/Connection/Timeout.antt =====
-- quic/server: a connection whose heartbeat stops, and the presence entry after an offline event.
use cc_im_server.Prelude.{
  String, ℕ, Bool, true, none, some, ◌∷◌, ◌≡◌, ◌≢◌, arith, ==_refl, ==_of_ne, ◌<◌, ◌^◌,
}
use cc_im_server.Prelude.Assoc.{lookup-delete}
use cc_im_server.Connection.Key.{heartbeat_client_key, NoBar, parse-heartbeat_client_key}
use cc_im_server.Connection.Stale.{client_of, reg-unregister}
use cc_im_server.Connection.Registry.{get, is_current_conn, remove_if_match, remove_if_match_lem}
use cc_im_server.Connection.Server.{
  Server, ConnEvent, presence_unregister, remove_heartbeat_keys, unregister_live_client,
  on_client_timeout, handle_client_timeout, close_conn, handle_user_offline,
}

module _ (s : Server) (uid sid : String) (conn_id : ℕ) where
  abbrev pub IsLive : Type 0
  IsLive = (get s.reg uid ≡ some (client_of uid sid conn_id)) × (conn_id ≢ 0)

  pub live_current : IsLive → is_current_conn s.reg uid sid conn_id ≡ true
  unfolding is_current_conn get
  live_current h = ground (arith, h.0, h.1, ==_refl sid)

  pub live_removed :
      (force : Bool) → IsLive → get (unregister_live_client s uid sid conn_id force).reg uid ≡ none
  unfolding get
  live_removed force h =
      rw
        (
          reg-unregister s uid sid conn_id force,
          remove_if_match_lem s.reg uid sid conn_id,
          live_current h,
        )
        (ground (arith, lookup-delete uid uid s.reg, ==_refl uid))

  live_calls :
      IsLive
      → ((unregister_live_client s uid sid conn_id true).closed ≡ conn_id ∷ s.closed)
        × ((unregister_live_client s uid sid conn_id true).offlines ≡ s.offlines)
  unfolding unregister_live_client remove_if_match get presence_unregister remove_heartbeat_keys
      close_conn
  live_calls h = (ground (arith, h.0, h.1, ==_refl sid), ground (arith, h.0, h.1, ==_refl sid))

-- A heartbeat key that times out for the user's current connection gives rise to the timeout event
-- of that connection, and handling it removes the connection, closes it and runs the offline
-- procedure once. The user and the session have names without a bar, the identifier fits 64 bits
-- and is not 0.
pub timeout_chain :
    (s : Server) (uid sid : String) (conn_id : ℕ)
    → uid ≢ ""
    → sid ≢ ""
    → NoBar uid
    → NoBar sid
    → conn_id < 2 ^ 64
    → conn_id ≢ 0
    → get s.reg uid ≡ some (client_of uid sid conn_id)
    → (e : ConnEvent) × (handle_client_timeout s (heartbeat_client_key uid sid conn_id)
        ≡ (s, some e))
      × (get (on_client_timeout s e).reg uid ≡ none)
      × ((on_client_timeout s e).closed ≡ conn_id ∷ s.closed)
      × ((on_client_timeout s e).offlines
          ≡ record { uid = uid; subtype = "timeout"; reason = "心跳超时" } ∷ s.offlines)
unfolding handle_client_timeout on_client_timeout
timeout_chain s uid sid conn_id hu hs bu bs fits nz live =
    let s' = handle_user_offline s uid "timeout" "心跳超时" in
    let held : IsLive s' uid sid conn_id = unfold handle_user_offline in (live, nz) in
    let current = live_current s uid sid conn_id (live, nz) in
    let gone = live_removed s' uid sid conn_id true held in
    let made = live_calls s' uid sid conn_id held in
    let named = ==_of_ne uid "" hu in
    let named' = ==_of_ne sid "" hs in
    (
      record { uid = uid; sid = sid; conn_id = conn_id; reason = "" },
      ground (arith, parse-heartbeat_client_key uid sid conn_id hu hs bu bs fits, nz),
      ground (arith, named, named', current, gone),
      ground (arith, named, named', current, made.0),
      unfold handle_user_offline in ground (arith, named, named', current, made.1),
    )
