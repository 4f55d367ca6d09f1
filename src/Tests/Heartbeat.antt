-- ===== src/Tests/Heartbeat.antt =====
-- Concrete runs of the theorems on the heartbeat manager.
use cc_im_server.Prelude.{
  true, false, not, none, ◌≡◌, ◌≤◌, ltb, length, elem, if◌then◌else◌, ◌&&◌, ◌||◌,
}
use cc_im_server.Prelude.Assoc.{lookup}
use cc_im_server.Heartbeat.Manager.{Manager, new_manager, update_heartbeat, check_timeouts}
use cc_im_server.Heartbeat.Synced.{IsSynced}
use cc_im_server.Heartbeat.Overdue.{is_overdue, check_timeouts_lem}
use cc_im_server.Heartbeat.Reach.{Reach, Reach-IsSynced}
use cc_im_server.Tests.Sorted.{sorted_heap}

abbrev two_clients : Manager
two_clients =
    update_heartbeat sorted_heap (update_heartbeat sorted_heap (new_manager 30) "a" 5) "b" 60

reached : Reach sorted_heap two_clients
reached =
    Reach.beat (update_heartbeat sorted_heap (new_manager 30) "a" 5) "b" 60
      (Reach.beat (new_manager 30) "a" 5 (Reach.started 30))

Reach-IsSynced_example : IsSynced sorted_heap two_clients
Reach-IsSynced_example = Reach-IsSynced sorted_heap two_clients reached

check_timeouts_lem_example :
    let (left, ids) = check_timeouts sorted_heap two_clients 40 in
    (lookup "a" left.entries ≡ (if elem "a" ids then none else lookup "a" two_clients.entries))
    × ((not (elem "a" ids) || is_overdue two_clients 40 "a") ≡ true)
    × (length ids ≤ 100)
    × ((ltb (length ids) 100 && not (elem "a" ids) && is_overdue two_clients 40 "a") ≡ false)
check_timeouts_lem_example =
    check_timeouts_lem sorted_heap 40 two_clients "a"
      (Reach-IsSynced sorted_heap two_clients reached)
