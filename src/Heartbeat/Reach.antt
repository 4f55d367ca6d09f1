-- ===== src/Heartbeat/Reach.antt =====
-- quic/heartbeat/manager.go: the states of a manager.
use cc_im_server.Prelude.{String, ℕ, [], refl}
use cc_im_server.Prelude.Assoc.{lookup}
use cc_im_server.Heartbeat.Heap.{Heap}
use cc_im_server.Heartbeat.Manager.{
  Manager, times, new_manager, update_heartbeat, remove_client, check_timeouts,
}
use cc_im_server.Heartbeat.Synced.{IsSynced, update-IsSynced, remove-IsSynced}
use cc_im_server.Heartbeat.Overdue.{check-IsSynced}

-- The states that a manager reaches, as every operation holds the lock.
pub data Reach (ops : Heap) : Manager → Type 0 where
  started : (timeout : ℕ) → Reach ops (new_manager timeout)
  beat :
      (m : Manager)
      → (id : String) → (now : ℕ) → Reach ops m
      → Reach ops (update_heartbeat ops m id now)
  gone : (m : Manager) → (id : String) → Reach ops m → Reach ops (remove_client ops m id)
  checked : (m : Manager) → (now : ℕ) → Reach ops m → Reach ops (check_timeouts ops m now).0

start-IsSynced : (ops : Heap) (timeout : ℕ) → IsSynced ops (new_manager timeout)
unfolding new_manager lookup
start-IsSynced ops timeout = (ops.empty-Ordered (times []), λ y. refl)

-- In every state that a manager reaches, the heap is in order, and it holds each client of the map once
-- and no other.
pub Reach-IsSynced : (ops : Heap) (m : Manager) → Reach ops m → IsSynced ops m
Reach-IsSynced ops m (Reach.started timeout) = start-IsSynced ops timeout
Reach-IsSynced ops m (Reach.beat n id now r) = update-IsSynced ops n (Reach-IsSynced ops n r) id now
Reach-IsSynced ops m (Reach.gone n id r) = remove-IsSynced ops n (Reach-IsSynced ops n r) id
Reach-IsSynced ops m (Reach.checked n now r) = check-IsSynced ops now n (Reach-IsSynced ops n r)
