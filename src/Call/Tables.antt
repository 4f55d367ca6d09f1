-- ===== src/Call/Tables.antt =====
-- http/handler/media/stream.go and pkg/publishermedia: what Redis holds of a media call.
use cc_im_server.Prelude.{
  String, ℕ, Bool, false, not, ◌&&◌, ◌||◌, Option, none, some, List, [], ◌∷◌, ◌==◌, eqb, ltb, leb,
  if◌then◌else◌, elem, ◌-◌, ◌/◌,
}
use cc_im_server.Prelude.Assoc.{lookup}
use cc_im_server.Media.Sign.{JoinRequest, JoinParams}
use cc_im_server.Join.Desk.{Visitor}

pub record PublisherMedia : Type 0 where
  pub width : ℕ
  pub height : ℕ
  pub fps : ℕ
  pub bitrate : ℕ

unfoldable pub valid : PublisherMedia → Bool
valid p =
    leb 160 p.width
    && leb p.width 3840
    && leb 120 p.height
    && leb p.height 2160
    && leb 1 p.fps
    && leb p.fps 60
    && leb 100000 p.bitrate
    && leb p.bitrate 12000000

-- An `expire_at` of 0 means never.
pub record CallInvite : Type 0 where
  pub call_id : String
  pub rid : String
  pub call_type : String
  pub call_scene : String
  pub inviter_uid : String
  pub invitee_uids : List String
  pub create_time : ℕ
  pub expire_at : ℕ
  pub publisher_media : PublisherMedia

-- The Go structure repeats the other fields of the invitation, which nothing reads.
pub record CallState : Type 0 where
  pub call_id : String
  pub active_uids : List String
  pub rejected_uids : List String
  pub ended : Bool

abbrev pub zero_state : CallState
zero_state = record { call_id = ""; active_uids = []; rejected_uids = []; ended = false }

abbrev pub fresh_state : CallInvite → CallState
fresh_state i = record { call_id = i.call_id; active_uids = []; rejected_uids = []; ended = false }

-- A row of media_call_record, without the columns that it copies from the invitation.
pub record CallRecord : Type 0 where
  pub invite : CallInvite
  pub ended_at : ℕ
  pub duration_sec : ℕ
  pub end_reason : String
  pub operator_uid : String

-- What is sent to the users of a call, latest first.
pub data Notice : Type 0 where
  end_notice :
      (invite : CallInvite)
      → (reason operator_uid : String) → (targets : List String) → (duration_sec : ℕ) → Notice
  sync_notice : (invite : CallInvite) → (active_count : ℕ) → (targets : List String) → Notice
  join_notice : (invite : CallInvite) → (target quic_addr : String) → (sign : JoinRequest) → Notice
  invite_notice : (invite : CallInvite) → Notice

-- The Redis keys of calls, each kind a table; `join_keys` are those of join signs, with their whole
-- key. `room_active` and `user_active` name the current call of a room and of a user.
pub record Calls : Type 0 where
  pub invites : List (String × CallInvite)
  pub states : List (String × CallState)
  pub room_active : List (String × String)
  pub user_active : List (String × String)
  pub join_keys : List (String × String)
  pub records : List CallRecord
  pub notices : List Notice

-- The reads that fail, and the writes whose failure the code acts on.
pub record CallFaults : Type 0 where
  pub invite_get : Bool
  pub state_get : Bool
  pub room_get : Bool
  pub user_get : Bool
  pub sync_invite_get : Bool
  pub sync_state_get : Bool
  pub invite_set : Bool
  pub sign_set : Bool
  pub record_create : Bool

-- Who calls, and what the server reads or makes up: the clock is `visitor.now` in milliseconds and
-- `nanos` more; `quic_addr` is the node that `pickClusterMediaQuicAddr` picks.
pub record Caller : Type 0 where
  pub visitor : Visitor
  pub sid : String
  pub nanos : ℕ
  pub new_call_id : String
  pub new_nonce : String
  pub quic_addr : String
  pub params : JoinParams
  pub to_json : JoinRequest → String
  pub faults : CallFaults

abbrev pub trim : Caller → String → String
trim e s = e.visitor.trim_space s

unfoldable pub is_call_expired : Caller → ℕ → Bool
is_call_expired e expire_at = not (eqb expire_at 0) && ltb expire_at e.visitor.now

unfoldable pub call_duration_seconds : Caller → CallInvite → ℕ
call_duration_seconds e i =
    if eqb i.create_time 0 || ltb e.visitor.now i.create_time
    then 0
    else (e.visitor.now - i.create_time) / 1000

unfoldable pub allow_call_member : CallInvite → String → Bool
allow_call_member i uid = (uid == i.inviter_uid) || elem uid i.invitee_uids

unfoldable pub add_last : String → List String → List String
add_last uid [] = uid ∷ []
add_last uid (v ∷ list) = v ∷ add_last uid list

unfoldable pub append_unique_uid : List String → String → List String
unfolding add_last
append_unique_uid list uid = if elem uid list then list else add_last uid list

unfoldable pub remove_uid : List String → String → List String
remove_uid [] uid = []
remove_uid (v ∷ list) uid = let out = remove_uid list uid in if v == uid then out else v ∷ out

-- `seen` is the map of the texts kept so far.
unfoldable pub unique_from : List String → List String → List String
unique_from seen [] = []
unique_from seen (uid ∷ list) =
    let skip = (uid == "") || elem uid seen in
    let out = unique_from (if skip then seen else uid ∷ seen) list in
    if skip then out else uid ∷ out

abbrev pub unique_uids : List String → List String
unique_uids list = unique_from [] list

usable : Option CallInvite → Option CallInvite
usable none = none
usable (some i) = if i.call_id == "" then none else some i

-- none where the read fails, and for a missing or an empty invitation.
unfoldable pub get_invite : Bool → Calls → String → Option CallInvite
unfolding usable
get_invite fails c call_id = if fails then none else usable (lookup call_id c.invites)

or_zero : Option CallState → CallState
or_zero none = zero_state
or_zero (some s) = s

unfoldable pub get_state : Bool → Calls → String → CallState
unfolding or_zero
get_state fails c call_id = if fails then zero_state else or_zero (lookup call_id c.states)

-- The state of a call that the handlers work on: a new one where none is stored.
unfoldable pub state_of : Caller → Calls → CallInvite → String → CallState
state_of e c i call_id =
    let s = get_state e.faults.state_get c call_id in if s.call_id == "" then fresh_state i else s

or_empty : Option String → String
or_empty none = ""
or_empty (some s) = s

-- The text under a key, the empty one for a missing key or a failed read.
unfoldable pub get_string : Bool → List (String × String) → String → String
unfolding or_empty
get_string fails table key = if fails then "" else or_empty (lookup key table)
