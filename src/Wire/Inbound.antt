-- ===== src/Wire/Inbound.antt =====
-- quic/handler/message_handler.go, run: what becomes of the packets of a connection; and the versions
-- of outgoing messages.
use cc_im_server.Prelude.{
  String, ℕ, suc, Bool, true, false, not, ◌&&◌, Option, none, some, List, [], ◌∷◌, ◌==◌, eqb, leb,
  if◌then◌else◌,
}
use cc_im_server.Media.Frame.{Bytes}

pub record Entity : Type 0 where
  pub token : String
  pub version : ℕ
  pub message_type : ℕ
  pub body : Bytes

pub record Claims : Type 0 where
  pub subject : String
  pub sid : String

-- MessagePack, strings.TrimSpace, the JWT library, and the session query, none for an error.
pub record Inputs : Type 0 where
  pub uid : String
  pub unpack : Bytes → Option Entity
  pub trim_space : String → String
  pub validate_jwt : String → Option Claims
  pub validate_active_user_session : String → String → Option Bool

-- What a handler has done: the messages dispatched, latest first, the notices of a stale version, and
-- whether the connection was closed.
pub record Inbound : Type 0 where
  pub last_incoming_version : ℕ
  pub dispatched : List Entity
  pub notices : List ℕ
  pub closed : Bool

abbrev pub start : Inbound
start = record { last_incoming_version = 0; dispatched = []; notices = []; closed = false }

is_yes : Option Bool → Bool
is_yes none = false
is_yes (some b) = b

check_claims : Inputs → Option Claims → Bool
unfolding is_yes
check_claims i none = false
check_claims i (some c) =
    c.subject == i.uid && not (c.sid == "") && is_yes (i.validate_active_user_session i.uid c.sid)

unfoldable pub validate_message_token : Inputs → String → Bool
unfolding check_claims
validate_message_token i token =
    let t = i.trim_space token in
    let checked = check_claims i (i.validate_jwt t) in if t == "" then false else checked

unfoldable pub is_invalid_incoming_version : Inbound → ℕ → Inbound × Bool
is_invalid_incoming_version h version =
    if leb version h.last_incoming_version
    then (h, true)
    else (record h { last_incoming_version = version }, false)

dispatch : Inbound → Entity → Inbound
unfolding is_invalid_incoming_version
dispatch h e =
    let (h', stale) = is_invalid_incoming_version h e.version in
    if stale
    then record h' { notices = e.version ∷ h'.notices }
    else record h' { dispatched = e ∷ h'.dispatched }

receive : Inputs → Inbound → Option Entity → Inbound
unfolding dispatch
receive i h none = h
receive i h (some e) =
    let accepted = dispatch h e in
    if validate_message_token i e.token then accepted else record h { closed = true }

-- The body of the loop for one packet; nothing is read after the connection was closed.
unfoldable pub on_packet : Inputs → Inbound → Bytes → Inbound
unfolding receive
on_packet i h packet =
    let received = receive i h (i.unpack packet) in if h.closed then h else received

unfoldable pub on_packets : Inputs → Inbound → List Bytes → Inbound
on_packets i h [] = h
on_packets i h (p ∷ ps) = on_packets i (on_packet i h p) ps

-- The versions of outgoing messages: uint32, never 0.
unfoldable pub next_outgoing_version : ℕ → ℕ
next_outgoing_version v = if eqb v 4294967295 then 1 else suc v
