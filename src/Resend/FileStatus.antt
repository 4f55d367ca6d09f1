-- ===== src/Resend/FileStatus.antt =====
-- queue/handlers.go, redis/client.go and quic/server/event.go: resending a file status update, whose
-- pending acknowledgement is a Redis key.
use cc_im_server.Prelude.{
  String, ℕ, suc, ◌<◌, Bool, true, false, not, ◌&&◌, Option, none, some, List, [], ◌∷◌, leb, ltb,
  if◌then◌else◌, ◌≡◌, ◌≢◌, arith, ==_refl,
}
use Prim.Native.String.{◌++◌ as text_append}
use cc_im_server.Prelude.Assoc.{lookup, delete, lookup-delete}
use cc_im_server.Resend.Room.{ack_max_retries}

pub record FileStatusUpdateAckCheck : Type 0 where
  pub rid : String
  pub uid : String
  pub client_cid : String
  pub client_mid : String
  pub mid : String
  pub cid : String
  pub retry_count : ℕ

-- Redis keys with their values.
abbrev pub Keys : Type 0
Keys = List (String × String)

-- Which calls fail, and whether the queue client of the quic server is configured.
pub record FileFaults : Type 0 where
  pub redis_get : Bool
  pub redis_delete : Bool
  pub publish_resend : Bool
  pub publish_next : Bool
  pub quic_queue_client : Bool

-- none for an error.
unfoldable pub exists : Bool → Keys → String → Option Bool
exists fails keys key = elim (lookup key keys) [
  | none ↦ none
  | some v ↦ if fails then none else some true
]

unfoldable pub ack_key : String → String
ack_key client_cid = text_append "file_status_update:ack:" client_cid

-- A task on the queue of the quic server, delayed or not.
pub record Task : Type 0 where
  pub payload : FileStatusUpdateAckCheck
  pub delayed : Bool

pub record FileChecked : Type 0 where
  pub keys : Keys
  pub tasks : List Task
  pub ok : Bool

nothing : Keys → Bool → FileChecked
nothing keys ok = record { keys = keys; tasks = []; ok = ok }

next_payload : FileStatusUpdateAckCheck → FileStatusUpdateAckCheck
next_payload p = record p { retry_count = suc p.retry_count }

next_check : FileFaults → FileStatusUpdateAckCheck → List Task
unfolding next_payload
next_check f p =
    if ltb (suc p.retry_count) ack_max_retries && not f.publish_next
    then record { payload = next_payload p; delayed = true } ∷ []
    else []

check_pending : FileFaults → Keys → FileStatusUpdateAckCheck → FileChecked
check_pending f keys p =
    if leb ack_max_retries p.retry_count
    then nothing (if f.redis_delete then keys else delete (ack_key p.client_cid) keys) true
    else if not f.quic_queue_client
    then nothing keys true
    else if f.publish_resend
    then nothing keys false
    else record {
      keys = keys;
      tasks = record { payload = next_payload p; delayed = false } ∷ next_check f p;
      ok = true;
    }

check_existing : FileFaults → Keys → FileStatusUpdateAckCheck → Option Bool → FileChecked
check_existing f keys p none = nothing keys false
check_existing f keys p (some false) = nothing keys true
check_existing f keys p (some true) = check_pending f keys p

unfoldable pub handle_file_status_update_ack_check :
    FileFaults → Keys → FileStatusUpdateAckCheck → FileChecked
unfolding check_existing check_pending nothing next_check next_payload
handle_file_status_update_ack_check f keys p =
    check_existing f keys p (exists f.redis_get keys (ack_key p.client_cid))

-- The client's acknowledgement removes the key.
unfoldable pub handler_file_status_update_ack : Bool → Keys → String → Keys
handler_file_status_update_ack fails keys client_cid =
    if fails then keys else delete (ack_key client_cid) keys

-- What the quic server does with such a task: true for a resend, false for nothing but a warning.
unfoldable pub quic_handles_as_resend : FileStatusUpdateAckCheck → Bool
quic_handles_as_resend p = ltb 0 p.retry_count

-- A check after the client's acknowledgement publishes no task and fails: it never takes the branch
-- for an acknowledged update, since `exists` returns an error for a missing key.
pub acked-fails :
    (f : FileFaults) (keys : Keys) (p : FileStatusUpdateAckCheck)
    → let checked =
        handle_file_status_update_ack_check f
          (handler_file_status_update_ack false keys p.client_cid)
          p in
      (checked.tasks ≡ []) × (checked.ok ≡ false)
unfolding handle_file_status_update_ack_check handler_file_status_update_ack exists
acked-fails f keys p = ground (
  arith,
  lookup-delete (ack_key p.client_cid) (ack_key p.client_cid) keys,
  ==_refl (ack_key p.client_cid),
)

abbrev pub all_resends : List Task → Bool
all_resends [] = true
all_resends (t ∷ ts) = quic_handles_as_resend t.payload && all_resends ts

-- Every task that a check publishes, the delayed "next check" included, is one that the quic server
-- takes for a resend; none of them is checked again.
pub tasks-all_resends :
    (f : FileFaults) (keys : Keys) (p : FileStatusUpdateAckCheck)
    → all_resends (handle_file_status_update_ack_check f keys p).tasks ≡ true
unfolding handle_file_status_update_ack_check exists quic_handles_as_resend
tasks-all_resends f keys p = ground arith

-- A check returns nil only while the acknowledgement is pending, and publishes at most two tasks, and
-- none once the retries are used up.
pub file_check_lem :
    (f : FileFaults) (keys : Keys) (p : FileStatusUpdateAckCheck)
    → let checked = handle_file_status_update_ack_check f keys p in
      (checked.ok ≡ true → lookup (ack_key p.client_cid) keys ≢ none)
      × (checked.tasks ≢ [] → (p.retry_count < ack_max_retries) × (checked.keys ≡ keys))
unfolding handle_file_status_update_ack_check exists
file_check_lem f keys p = ground arith
