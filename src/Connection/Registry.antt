-- ===== src/Connection/Registry.antt =====
-- quic/server/client_registry.go: at most one live QUIC connection per user. The mutex makes each
-- method one atomic step. `register` never stores nil, so the map holds no nil entry.
use cc_im_server.Prelude.{
  String, ℕ, Bool, false, ◌&&◌, ◌||◌, not, Option, none, some, List, [], map, length, ◌==◌, eqb,
  if◌then◌else◌, ◌≡◌, arith,
}
use cc_im_server.Prelude.Assoc.{lookup, insert, delete, lookup-insert}

-- quic/client/client.go: `user` is none for a nil user, `conn_id` is 0 for a nil connection.
pub record Client : Type 0 where
  pub user : Option String
  pub sid : String
  pub conn_id : ℕ

abbrev pub ClientRegistry : Type 0
ClientRegistry = List (String × Client)

unfoldable pub new_client_registry : ClientRegistry
new_client_registry = []

unfoldable pub get : ClientRegistry → String → Option Client
get r uid = lookup uid r

register_user : ClientRegistry → Client → Option String → ClientRegistry
register_user r c none = r
register_user r c (some uid) = insert uid c r

unfoldable pub register : ClientRegistry → Option Client → ClientRegistry
unfolding register_user
register r none = r
register r (some c) = register_user r c c.user

-- The sid and connection test that `isCurrentConn` and `removeIfMatch` share.
abbrev pub same_conn : Client → String → ℕ → Bool
same_conn c sid conn_id = c.sid == sid && eqb c.conn_id conn_id

unfoldable pub is_current_conn : ClientRegistry → String → String → ℕ → Bool
is_current_conn r uid sid conn_id =
    if eqb conn_id 0
    then false
    else elim (lookup uid r) [ none ↦ false | some c ↦ same_conn c sid conn_id ]

unfoldable pub remove_if_match :
    ClientRegistry → String → String → ℕ → ClientRegistry × Option Client
remove_if_match r uid sid conn_id = elim (lookup uid r) [
  | none ↦ (r, none)
  | some c ↦
      if not (c.sid == sid) || eqb conn_id 0 || not (eqb c.conn_id conn_id)
      then (r, none)
      else (delete uid r, some c)
]

unfoldable pub snapshot_for_replace : ClientRegistry → String → Option Client
snapshot_for_replace r uid = lookup uid r

unfoldable pub len : ClientRegistry → ℕ
len r = length r

unfoldable pub snapshot_all : ClientRegistry → List Client
snapshot_all r = map (λ e. e.1) r

unfoldable pub clear : ClientRegistry → ClientRegistry
clear r = []

-- Removal and the currency test agree: a removal takes effect exactly when the connection named
-- is the current one, and then it returns that connection and deletes this user only.
pub remove_if_match_lem :
    (r : ClientRegistry) (uid sid : String) (conn_id : ℕ)
    → remove_if_match r uid sid conn_id
      ≡ (if is_current_conn r uid sid conn_id then (delete uid r, lookup uid r) else (r, none))
unfolding remove_if_match is_current_conn
remove_if_match_lem r uid sid conn_id = ground arith

pub get-register :
    (r : ClientRegistry) (c : Client) (uid j : String)
    → c.user ≡ some uid
    → get (register r (some c)) j ≡ (if uid == j then some c else get r j)
unfolding get register
get-register r c uid j h = ground (arith, lookup-insert uid j c r)
