-- ===== src/Heartbeat/Manager.antt =====
-- quic/heartbeat/manager.go.
use cc_im_server.Prelude.{
  String, ℕ, zero, suc, ◌+◌, Option, none, some, List, [], ◌∷◌, ltb, if◌then◌else◌, length,
}
use cc_im_server.Prelude.Assoc.{lookup, insert, delete}
use cc_im_server.Heartbeat.Heap.{Times, Heap}

-- `entries` gives the time in the entry of a client; the heap holds the same entries, so a time that is
-- set in one is set in the other.
pub record Manager : Type 0 where
  pub entries : List (String × ℕ)
  pub heap : List String
  pub timeout : ℕ

abbrev pub batch_size : ℕ
batch_size = 100

unfoldable pub new_manager : ℕ → Manager
new_manager timeout = record { entries = []; heap = []; timeout = timeout }

abbrev or_zero : Option ℕ → ℕ
or_zero none = 0
or_zero (some t) = t

unfoldable pub times : List (String × ℕ) → Times
times entries x = or_zero (lookup x entries)

unfoldable pub get_last_heartbeat : Manager → String → Option ℕ
get_last_heartbeat m id = lookup id m.entries

module _ (ops : Heap) where
  update_entry : Manager → String → ℕ → Option ℕ → Manager
  update_entry m id now (some old) =
      let entries = insert id now m.entries in
      record m { entries = entries; heap = ops.fix (times entries) m.heap id }
  update_entry m id now none =
      let entries = insert id now m.entries in
      record m { entries = entries; heap = ops.push (times entries) m.heap id }

  unfoldable pub update_heartbeat : Manager → String → ℕ → Manager
  unfolding update_entry
  update_heartbeat m id now = update_entry m id now (lookup id m.entries)

  remove_entry : Manager → String → Option ℕ → Manager
  remove_entry m id none = m
  remove_entry m id (some t) = record m {
    heap = ops.remove (times m.entries) m.heap id;
    entries = delete id m.entries;
  }

  unfoldable pub remove_client : Manager → String → Manager
  unfolding remove_entry
  remove_client m id = remove_entry m id (lookup id m.entries)

  -- The entry at the root, taken out.
  unfoldable pub take_root : Manager → String → Manager
  take_root m id = record m {
    heap = ops.pop (times m.entries) m.heap;
    entries = delete id m.entries;
  }

  -- The loop of `checkTimeouts` with the rounds that the batch has left.
  unfoldable pub check_loop : ℕ → Manager → ℕ → List String → Manager × List String
  check_loop zero m now [] = (m, [])
  check_loop zero m now (id ∷ h) = (m, [])
  check_loop (suc rounds) m now [] = (m, [])
  check_loop (suc rounds) m now (id ∷ h) =
      let last = times m.entries id in
      let m' = take_root m id in
      let (left, ids) = check_loop rounds m' now m'.heap in
      let fixed : Manager = record m { heap = ops.fix (times m.entries) m.heap id } in
      if ltb now (last + m.timeout)
      then (m, [])
      else if ltb (last + m.timeout) now
      then (left, id ∷ ids)
      else (fixed, [])

  -- The manager after a check, and the clients that the callback is called with, in order.
  unfoldable pub check_timeouts : Manager → ℕ → Manager × List String
  check_timeouts m now = check_loop batch_size m now m.heap

unfoldable pub oldest : Manager → List String → Option ℕ
oldest m [] = none
oldest m (id ∷ h) = some (times m.entries id)

unfoldable pub get_stats : Manager → ℕ × Option ℕ
get_stats m = (length m.entries, oldest m m.heap)

-- The loop of `GetTimeoutCount`, which stops at the first entry that is not overdue.
unfoldable pub count_overdue : Manager → ℕ → ℕ → List String → ℕ
count_overdue m warning now [] = 0
count_overdue m warning now (id ∷ h) =
    let rest = count_overdue m warning now h in
    if ltb (times m.entries id + warning) now then suc rest else 0

unfoldable pub get_timeout_count : Manager → ℕ → ℕ → ℕ
get_timeout_count m warning now = count_overdue m warning now m.heap
