-- ===== src/Connection/Reach.antt =====
-- quic/server: the registry over every history of a node.
use cc_im_server.Prelude.{
  String, ℕ, Bool, true, false, Option, none, some, List, [], ◌∷◌, ◌==◌, ◌≡◌, ◌≢◌, refl, ap, ◌∙◌,
  arith, ==_iff, Bool-cases, Option-cases, inl, inr,
}
use cc_im_server.Prelude.Assoc.{lookup, insert, lookup-insert, lookup-delete}
use cc_im_server.Connection.Stale.{
  client_of, reg-unregister, reg-register_live_client, get-handle_connect,
}
use cc_im_server.Connection.Registry.{
  Client, ClientRegistry, get, remove_if_match, remove_if_match_lem, snapshot_for_replace, clear,
  snapshot_all,
}
use cc_im_server.Connection.Server.{
  Server, ConnEvent, presence_register, presence_refresh, remove_heartbeat_keys,
  unregister_live_client, on_client_close, on_client_timeout, on_heartbeat_update, handle_connect,
  handle_client_timeout, shutdown, offline_all, close_all, close_conn, handle_user_offline,
  disconnect_replaced_client, announce_replaced,
}

-- What can happen to a node: a connection is accepted, with the address of a live object for its
-- identifier, or an event is handled.
pub data Step : Server → Server → Type 0 where
  connects :
      (s : Server) (now : ℕ) (uid sid : String) (conn_id : ℕ)
      → conn_id ≢ 0
      → Step s (handle_connect s now uid sid conn_id)
  closes : (s : Server) (e : ConnEvent) → Step s (on_client_close s e)
  times_out : (s : Server) (e : ConnEvent) → Step s (on_client_timeout s e)
  beats : (s : Server) (now : ℕ) (e : ConnEvent) → Step s (on_heartbeat_update s now e)
  key_times_out : (s : Server) (key : String) → Step s (handle_client_timeout s key).0
  shuts_down : (s : Server) → Step s (shutdown s)

pub data Reach (s : Server) : Server → Type 0 where
  here : Reach s s
  next : {t u : Server} → Reach s t → Step t u → Reach s u

-- Every entry is a connection of the user under whose name it stands.
abbrev pub IsKeyed : Server → Type 0
IsKeyed s =
    (uid : String) (c : Client) → get s.reg uid ≡ some c → (c.user ≡ some uid) × (c.conn_id ≢ 0)

-- No entry is new.
abbrev Shrinks : ClientRegistry → ClientRegistry → Type 0
Shrinks r r' = (j : String) (c : Client) → get r' j ≡ some c → get r j ≡ some c

remove_if_match-Shrinks :
    (r : ClientRegistry) (uid sid : String) (conn_id : ℕ)
    → Shrinks r (remove_if_match r uid sid conn_id).0
unfolding get
remove_if_match-Shrinks r uid sid conn_id j c h =
    ground (arith, h, remove_if_match_lem r uid sid conn_id, lookup-delete uid j r)

unregister-Shrinks :
    (s : Server) (uid sid : String) (conn_id : ℕ) (force : Bool)
    → Shrinks s.reg (unregister_live_client s uid sid conn_id force).reg
unregister-Shrinks s uid sid conn_id force j c h =
    remove_if_match-Shrinks s.reg uid sid conn_id j c
      (rw (reg-unregister s uid sid conn_id force) at h)

close-Shrinks : (s : Server) (e : ConnEvent) → Shrinks s.reg (on_client_close s e).reg
unfolding on_client_close
close-Shrinks s e j c h =
    ground (arith, h, unregister-Shrinks (offline s) e.uid e.sid e.conn_id false j c)
  where
    offline : Server → Server
    offline s = record s {
      offlines = record { uid = e.uid; subtype = "normal"; reason = e.reason } ∷ s.offlines;
    }

timeout-Shrinks : (s : Server) (e : ConnEvent) → Shrinks s.reg (on_client_timeout s e).reg
unfolding on_client_timeout
timeout-Shrinks s e j c h =
    ground (arith, h, unregister-Shrinks (offline s) e.uid e.sid e.conn_id true j c)
  where
    offline : Server → Server
    offline s = record s {
      offlines = record { uid = e.uid; subtype = "timeout"; reason = "心跳超时" } ∷ s.offlines;
    }

pub beat-reg : (s : Server) (now : ℕ) (e : ConnEvent) → (on_heartbeat_update s now e).reg ≡ s.reg
unfolding on_heartbeat_update presence_refresh presence_register
beat-reg s now e = ground arith

key_timeout-reg : (s : Server) (key : String) → (handle_client_timeout s key).0.reg ≡ s.reg
unfolding handle_client_timeout remove_heartbeat_keys
key_timeout-reg s key = ground arith

disconnect-Shrinks :
    (s : Server) (old : Option Client) (sid : String)
    → Shrinks s.reg (disconnect_replaced_client s old sid).reg
unfolding disconnect_replaced_client announce_replaced
disconnect-Shrinks s none sid j c h = h
disconnect-Shrinks s (some old) sid j c h = elim (Option-cases old.user) [
  | inl e ↦ ground (arith, e, h)
  | inr (uid, e) ↦ ground (
    arith,
    e,
    h,
    unregister-Shrinks (announce_replaced s old sid) uid old.sid old.conn_id false j c,
  )
]

get-insert_other :
    (uid j : String) (v : Client) (r : ClientRegistry) (c : Client)
    → (uid == j) ≡ false
    → get (insert uid v r) j ≡ some c
    → get r j ≡ some c
unfolding get
get-insert_other uid j v r c ne h = ground (arith, lookup-insert uid j v r)

reg-connect :
    (s : Server) (now : ℕ) (uid sid : String) (conn_id : ℕ)
    → (handle_connect s now uid sid conn_id).reg
      ≡ insert uid
          (client_of uid sid conn_id)
          (disconnect_replaced_client s (get s.reg uid) sid).reg
unfolding handle_connect get snapshot_for_replace
reg-connect s now uid sid conn_id =
    rw (reg-register_live_client _ now uid sid conn_id) (ground arith)

-- Accepting a connection of one user adds no entry of another.
connect-get :
    (s : Server) (now : ℕ) (uid sid : String) (conn_id : ℕ) (j : String) (c : Client)
    → get (handle_connect s now uid sid conn_id).reg j ≡ some c
    → (uid == j) ≡ false
    → get s.reg j ≡ some c
connect-get s now uid sid conn_id j c h ne = disconnect-Shrinks s (get s.reg uid) sid j c (old h)
  where
    old :
        get (handle_connect s now uid sid conn_id).reg j ≡ some c
        → get (disconnect_replaced_client s (get s.reg uid) sid).reg j ≡ some c
    old h =
        get-insert_other uid j (client_of uid sid conn_id) _ c ne
          (rw (reg-connect s now uid sid conn_id) at h)

connect-IsKeyed :
    (s : Server) (now : ℕ) (uid sid : String) (conn_id : ℕ)
    → conn_id ≢ 0
    → IsKeyed s
    → IsKeyed (handle_connect s now uid sid conn_id)
connect-IsKeyed s now uid sid conn_id nz k j c h = elim (Bool-cases (uid == j)) [
  | inl e ↦ ground (arith, h, get-handle_connect s now uid sid conn_id, (==_iff uid j).0 e)
  | inr ne ↦ k j c (connect-get s now uid sid conn_id j c h ne)
]

-- What the loops of `shutdown` leave alone.
abbrev shell : Server → ClientRegistry × Bool
shell s = (s.reg, s.is_shutdown)

offline_all-shell : (s : Server) (cs : List Client) → shell (offline_all s cs) ≡ shell s
unfolding offline_all
offline_all-shell s [] = refl
offline_all-shell s (c ∷ cs) = elim (Option-cases c.user) [
  | inl e ↦ ground (arith, e, offline_all-shell s cs)
  | inr (uid, e) ↦
      ground (arith, e, offline_all-shell (handle_user_offline s uid "server_shutdown" "服务器关闭") cs)
]

close_all-shell : (s : Server) (cs : List Client) → shell (close_all s cs) ≡ shell s
unfolding close_all close_conn
close_all-shell s [] = refl
close_all-shell s (c ∷ cs) = close_all-shell (close_conn s c.conn_id) cs ∙ ground arith

shutdown-shell : (s : Server) → s.is_shutdown ≡ false → shell (shutdown s) ≡ ([], true)
unfolding shutdown clear
shutdown-shell s h =
    let s1 : Server = record s { is_shutdown = true; reg = [] } in
    let cs = snapshot_all s.reg in
    ground (arith, h, close_all-shell (offline_all s1 cs) cs, offline_all-shell s1 cs)

shutdown_again : (s : Server) → s.is_shutdown ≡ true → shutdown s ≡ s
unfolding shutdown
shutdown_again s h = ground (arith, h)

-- Shutting down empties the registry, and a second shutdown changes nothing.
pub shutdown_lem :
    (s : Server)
    → s.is_shutdown ≡ false
    → ((shutdown s).reg ≡ []) × (shutdown (shutdown s) ≡ shutdown s)
shutdown_lem s h =
    let e = shutdown-shell s h in (ap (λ p. p.0) e, shutdown_again (shutdown s) (ap (λ p. p.1) e))

shutdown-Shrinks : (s : Server) → Shrinks s.reg (shutdown s).reg
unfolding get lookup
shutdown-Shrinks s j c h = elim (Bool-cases s.is_shutdown) [
  | inl e ↦ rw (shutdown_again s e) at h
  | inr e ↦ ground (arith, h, (shutdown_lem s e).0)
]

Step-IsKeyed : {s t : Server} → Step s t → IsKeyed s → IsKeyed t
Step-IsKeyed (connects s now uid sid conn_id nz) k = connect-IsKeyed s now uid sid conn_id nz k
Step-IsKeyed (closes s e) k = λ j c h. k j c (close-Shrinks s e j c h)
Step-IsKeyed (times_out s e) k = λ j c h. k j c (timeout-Shrinks s e j c h)
Step-IsKeyed (beats s now e) k = λ j c h. k j c (rw (beat-reg s now e) at h)
Step-IsKeyed (key_times_out s key) k = λ j c h. k j c (rw (key_timeout-reg s key) at h)
Step-IsKeyed (shuts_down s) k = λ j c h. k j c (shutdown-Shrinks s j c h)

pub Reach-IsKeyed : {s t : Server} → Reach s t → IsKeyed s → IsKeyed t
Reach-IsKeyed here k = k
Reach-IsKeyed (next r st) k = Step-IsKeyed st (Reach-IsKeyed r k)

-- Over every history of a node that starts with an empty registry, an entry of the registry is a
-- connection of the user under whose name it stands, and has an identifier.
pub Reach-get :
    {s t : Server}
    → s.reg ≡ []
    → Reach s t
    → (uid : String) (c : Client) → get t.reg uid ≡ some c
    → (c.user ≡ some uid) × (c.conn_id ≢ 0)
unfolding get lookup
Reach-get empty r uid c h = Reach-IsKeyed r (λ j d g. ground (arith, empty, g)) uid c h
