-- ===== src/Media/Hub.antt =====
-- media/streaming/server.go: the rooms and their hubs. A hub is a shared object: a join that has
-- found it keeps it while another goroutine takes it out of the map.
use cc_im_server.Prelude.{
  String, ℕ, suc, Bool, true, false, Option, none, some, List, [], ◌∷◌, is_empty, ◌==◌, eqb,
  if◌then◌else◌,
}
use cc_im_server.Prelude.Assoc.{lookup, insert, delete}
use cc_im_server.Media.Frame.{Bytes, write_frame, relayed}

-- `stream` names the QUIC stream of the client.
pub record MediaClient : Type 0 where
  pub uid : String
  pub rid : String
  pub role : String
  pub stream : ℕ

abbrev pub Clients : Type 0
Clients = List (String × MediaClient)

-- The map from rooms to hubs, and the hubs that were ever made, by their addresses.
pub record Server : Type 0 where
  pub rooms : List (String × ℕ)
  pub hubs : ℕ → Clients
  pub next : ℕ

abbrev pub new_server : Server
new_server = record { rooms = []; hubs = λ h. []; next = 0 }

abbrev pub set_hub : (ℕ → Clients) → ℕ → Clients → ℕ → Clients
set_hub hubs h m k = if eqb h k then m else hubs k

room_or_new : Server → String → Option ℕ → Server × ℕ
room_or_new s rid (some h) = (s, h)
room_or_new s rid none = (
  record { rooms = insert rid s.next s.rooms; hubs = set_hub s.hubs s.next []; next = suc s.next },
  s.next,
)

-- One step under `roomsMu`.
unfoldable pub get_or_create_room : Server → String → Server × ℕ
unfolding room_or_new
get_or_create_room s rid = room_or_new s rid (lookup rid s.rooms)

-- One step under the mutex of the hub.
unfoldable pub put_client : Server → ℕ → MediaClient → Server
put_client s h c = record s { hubs = set_hub s.hubs h (insert c.uid c (s.hubs h)) }

unfoldable pub add_client : Server → MediaClient → Server
add_client s c = let (s', h) = get_or_create_room s c.rid in put_client s' h c

-- One step under the mutex of the hub; whether the hub is empty after it.
unfoldable pub take_client : Server → ℕ → MediaClient → Server × Bool
take_client s h c =
    let left = delete c.uid (s.hubs h) in (record s { hubs = set_hub s.hubs h left }, is_empty left)

-- One step under `roomsMu`, only when the hub was empty.
unfoldable pub drop_room : Server → String → Server
drop_room s rid = record s { rooms = delete rid s.rooms }

unfoldable pub remove_client : Server → MediaClient → Server × Bool
remove_client s c = elim (lookup c.rid s.rooms) [
  | none ↦ (s, true)
  | some h ↦
      let (s', empty) = take_client s h c in
      if empty then (drop_room s' c.rid, true) else (s', false)
]

-- A frame written to a stream. Failed writes are logged only.
pub record Written : Type 0 where
  pub uid : String
  pub stream : ℕ
  pub bytes : Bytes

unfoldable pub write_all : (String → Bytes) → String → Bytes → Clients → List Written
write_all bytes_of sender payload [] = []
write_all bytes_of sender payload ((uid, c) ∷ m) =
    let rest = write_all bytes_of sender payload m in
    if uid == sender
    then rest
    else record {
      uid = uid;
      stream = c.stream;
      bytes = write_frame (relayed (bytes_of sender) payload);
    }
      ∷ rest

unfoldable pub broadcast : (String → Bytes) → Server → String → String → Bytes → List Written
broadcast bytes_of s rid sender payload = elim (lookup rid s.rooms) [
  | none ↦ []
  | some h ↦ write_all bytes_of sender payload (s.hubs h)
]

-- The client that the server holds for a user in a room.
unfoldable pub client_of : Server → String → String → Option MediaClient
client_of s rid uid = elim (lookup rid s.rooms) [ none ↦ none | some h ↦ lookup uid (s.hubs h) ]
