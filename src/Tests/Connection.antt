-- ===== src/Tests/Connection.antt =====
-- Concrete runs of the theorems on the connections of a node.
use cc_im_server.Prelude.{
  String, ℕ, true, false, some, none, [], ◌∷◌, ◌≡◌, ◌≢◌, refl, arith, if◌then◌else◌, ==_iff,
  ne_of_test, ◌==◌,
}
use cc_im_server.Prelude.Assoc.{lookup, delete}
use cc_im_server.Connection.Key.{heartbeat_client_key, NoBar}
use cc_im_server.Connection.Registry.{
  Client, get, is_current_conn, remove_if_match, remove_if_match_lem,
}
use cc_im_server.Connection.Server.{
  Server, ConnEvent, handle_connect, on_client_close, on_client_timeout, handle_client_timeout,
  shutdown,
}
use cc_im_server.Connection.Stale.{client_of, stale_events_ignored}
use cc_im_server.Connection.Reach.{Step, here, next, Reach-get, shutdown_lem}
use cc_im_server.Connection.Timeout.{timeout_chain}
use cc_im_server.Connection.Presence.{close_erases_presence}

-- A node with one connection of ann.
abbrev old : Client
old = client_of "ann" "s1" 7

abbrev node : Server
node = record {
  reg = ("ann", old) ∷ [];
  node_id = "n1";
  presence = ("ann", ("n2", 500)) ∷ [];
  redis_up = true;
  heartbeats = [];
  offlines = [];
  logged_out = [];
  online_status = [];
  status_heartbeats = [];
  force_offline = [];
  closed = [];
  is_shutdown = false;
}

abbrev fresh : Server
fresh = record node { reg = [] }

abbrev event : ConnEvent
event = record { uid = "ann"; sid = "s1"; conn_id = 7; reason = "bye" }

remove_if_match_lem_example : remove_if_match node.reg "ann" "s1" 7 ≡ (
    if is_current_conn node.reg "ann" "s1" 7
    then (delete "ann" node.reg, lookup "ann" node.reg)
    else (node.reg, none))
remove_if_match_lem_example = remove_if_match_lem node.reg "ann" "s1" 7

ann_named : ◌≢◌ {A = String} "ann" ""
ann_named = λ e. cc

s1_named : ◌≢◌ {A = String} "s1" ""
s1_named = λ e. cc

ann-NoBar : NoBar "ann"
ann-NoBar = ground arith

s1-NoBar : NoBar "s1"
s1-NoBar = ground arith

stale_events_ignored_example :
    let t = handle_connect node 1000 "ann" "s2" 8 in
    (on_client_close t event ≡ t)
    × (on_client_timeout t event ≡ t)
    × (get t.reg "ann" ≡ some (client_of "ann" "s2" 8))
stale_events_ignored_example = stale_events_ignored node 1000 "ann" "s2" 8 event refl (omega arith)

in_presence : lookup "ann" node.presence ≡ some ("n2", 500)
unfolding lookup
in_presence = ground (arith, ==_iff "ann" "ann")

current_held : get node.reg "ann" ≡ some old
unfolding get lookup
current_held = ground (arith, ==_iff "ann" "ann")

eight : ◌≢◌ {A = ℕ} 8 0
eight = omega arith

Reach-get_example :
    let t = handle_connect fresh 1000 "ann" "s2" 8 in
    (client_of "ann" "s2" 8).user ≡ some "ann" × ((client_of "ann" "s2" 8).conn_id ≢ 0)
Reach-get_example =
    Reach-get {s = fresh} refl (next here (Step.connects fresh 1000 "ann" "s2" 8 eight)) "ann"
      (client_of "ann" "s2" 8)
      (stale_events_ignored fresh 1000 "ann" "s2" 8 event refl (omega arith)).2

shutdown_lem_example : ((shutdown node).reg ≡ []) × (shutdown (shutdown node) ≡ shutdown node)
shutdown_lem_example = shutdown_lem node refl

timeout_chain_example :
    (e : ConnEvent) × (handle_client_timeout node (heartbeat_client_key "ann" "s1" 7)
      ≡ (node, some e))
    × (get (on_client_timeout node e).reg "ann" ≡ none)
    × ((on_client_timeout node e).closed ≡ 7 ∷ [])
    × ((on_client_timeout node e).offlines
        ≡ record { uid = "ann"; subtype = "timeout"; reason = "心跳超时" } ∷ [])
timeout_chain_example =
    timeout_chain node "ann" "s1" 7 ann_named s1_named ann-NoBar s1-NoBar (omega arith)
      (omega arith) current_held

close_erases_presence_example : lookup "ann" (on_client_close node event).presence ≡ none
unfolding ◌==◌
close_erases_presence_example =
    close_erases_presence node event "n2" 500 (ann_named, s1_named, refl)
      (current_held, omega arith) in_presence (ne_of_test "n2" "n1" refl)
