-- ===== src/Wire/Versions.antt =====
-- quic/handler/message_handler.go, run: versions rise, and a repeated message is not dispatched.
use cc_im_server.Prelude.{
  ℕ, suc, ◌≤◌, Bool, true, false, ◌&&◌, ◌||◌, some, List, [], ◌∷◌, eqb, ltb, leb, if◌then◌else◌,
  ◌≡◌, refl, ◌∙◌, arith, Option-cases, inl, inr,
}
use cc_im_server.Media.Frame.{Bytes}
use cc_im_server.Wire.Inbound.{
  Entity, Inputs, Inbound, start, validate_message_token, on_packet, on_packets,
  next_outgoing_version,
}

-- From the latest message to the first, the versions fall strictly, from below a bound to above 0,
-- and every token is valid.
abbrev pub is_falling : Inputs → ℕ → List Entity → Bool
is_falling i bound [] = true
is_falling i bound (e ∷ es) =
    ltb e.version bound
    && ltb 0 e.version
    && validate_message_token i e.token
    && is_falling i e.version es

falling_mono :
    (i : Inputs) (v w : ℕ) (es : List Entity)
    → v ≤ w
    → is_falling i v es ≡ true
    → is_falling i w es ≡ true
falling_mono i v w [] le h = refl
falling_mono i v w (e ∷ es) le h = ground (arith, le, h)

packet_falling :
    (i : Inputs) (h : Inbound) (p : Bytes)
    → is_falling i (suc h.last_incoming_version) h.dispatched ≡ true
    → is_falling i (suc (on_packet i h p).last_incoming_version) (on_packet i h p).dispatched ≡ true
unfolding on_packet
packet_falling i h p known = elim (Option-cases (i.unpack p)) [
  | inl e ↦ ground (arith, e, known)
  | inr (m, e) ↦
      ground (arith, e, known, falling_mono i (suc h.last_incoming_version) m.version h.dispatched)
]

packets_falling :
    (i : Inputs) (h : Inbound) (ps : List Bytes)
    → is_falling i (suc h.last_incoming_version) h.dispatched ≡ true
    → is_falling i (suc (on_packets i h ps).last_incoming_version) (on_packets i h ps).dispatched
      ≡ true
unfolding on_packets
packets_falling i h [] known = known
packets_falling i h (p ∷ ps) known =
    packets_falling i (on_packet i h p) ps (packet_falling i h p known)

-- Whatever packets a connection receives, the messages that it dispatches have valid tokens, and
-- versions that rise strictly from one to the next, above 0 and up to the last version recorded.
pub on_packets-is_falling :
    (i : Inputs) (ps : List Bytes)
    → let h = on_packets i start ps in
      is_falling i (suc h.last_incoming_version) h.dispatched ≡ true
on_packets-is_falling i ps = packets_falling i start ps refl

-- A message of this version has no effect any more.
abbrev is_past : ℕ → Inbound → Bool
is_past v h = h.closed || leb v h.last_incoming_version

packet_past :
    (i : Inputs) (h : Inbound) (p : Bytes) (v : ℕ)
    → is_past v h ≡ true
    → is_past v (on_packet i h p) ≡ true
unfolding on_packet
packet_past i h p v past = elim (Option-cases (i.unpack p)) [
  | inl e ↦ ground (arith, e, past)
  | inr (m, e) ↦ ground (arith, e, past)
]

packets_past :
    (i : Inputs) (h : Inbound) (ps : List Bytes) (v : ℕ)
    → is_past v h ≡ true
    → is_past v (on_packets i h ps) ≡ true
unfolding on_packets
packets_past i h [] v past = past
packets_past i h (p ∷ ps) v past = packets_past i (on_packet i h p) ps v (packet_past i h p v past)

past_after :
    (i : Inputs) (h : Inbound) (p : Bytes) (e : Entity)
    → i.unpack p ≡ some e
    → is_past e.version (on_packet i h p) ≡ true
unfolding on_packet
past_after i h p e read = ground (arith, read)

past_ignored :
    (again : Inputs) (h : Inbound) (p : Bytes) (e : Entity)
    → again.unpack p ≡ some e
    → is_past e.version h ≡ true
    → (on_packet again h p).dispatched ≡ h.dispatched
unfolding on_packet
past_ignored again h p e read past = ground (arith, read, past)

-- A packet that comes a second time on a connection, whatever comes between, dispatches nothing, also
-- when its token has become valid since.
pub repeated_packet :
    (i again : Inputs) (h : Inbound) (p : Bytes) (ps : List Bytes)
    → again.unpack p ≡ i.unpack p
    → let between = on_packets i (on_packet i h p) ps in
      (on_packet again between p).dispatched ≡ between.dispatched
repeated_packet i again h p ps same =
    let between = on_packets i (on_packet i h p) ps in
    elim (Option-cases (i.unpack p)) [
      | inl e ↦ unfold on_packet in ground (arith, e, same)
      | inr (m, e) ↦
          past_ignored again between p m (same ∙ e)
            (packets_past i (on_packet i h p) ps m.version (past_after i h p m e))
    ]

-- On an open connection, a message with a valid token and the version that follows the last one, as
-- outgoing messages are numbered, is dispatched, except after version 4294967295: there the numbering
-- starts at 1 again, and the message is refused.
pub next_dispatched :
    (i : Inputs) (h : Inbound) (p : Bytes) (e : Entity)
    → h.closed ≡ false
    → h.last_incoming_version ≤ 4294967295
    → i.unpack p ≡ some e
    → validate_message_token i e.token ≡ true
    → e.version ≡ next_outgoing_version h.last_incoming_version
    → (on_packet i h p).dispatched
      ≡ (if eqb h.last_incoming_version 4294967295 then h.dispatched else e ∷ h.dispatched)
unfolding on_packet next_outgoing_version
next_dispatched i h p e alive bound read valid numbered =
    ground (arith, alive, bound, read, valid, numbered)
