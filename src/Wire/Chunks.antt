-- ===== src/Wire/Chunks.antt =====
-- quic/handler/message_handler.go, the read loop: the messages of a stream do not depend on how it is
-- cut into chunks.
use cc_im_server.Prelude.{
  ℕ, zero, suc, ◌≤◌, ◌<◌, false, none, List, [], ◌∷◌, ◌++◌, map, length, length-append, is_empty,
  ◌≡◌, ◌⊎◌, refl, sym, ap, ◌∙◌, arith, inl, inr,
}
use mathlib.Core.List.{append-nil, append_assoc}
use cc_im_server.Media.Frame.{Bytes, put_uint32}
use cc_im_server.Wire.Packet.{Aead, try_parse, add_data, encode, Opens, parse-encode}
use cc_im_server.Wire.Drain.{drain, parse_all, try_parse-split, drain-none, drain-some, drain-empty}

-- The outer loop over the chunks that `Read` returns.
unfoldable pub run : Aead → Bytes → List Bytes → List Bytes × Bytes
run a buffer [] = ([], buffer)
run a buffer (chunk ∷ chunks) =
    let (packets, left) = parse_all a (add_data buffer chunk) in
    let (more, last) = run a left chunks in (packets ++ more, last)

abbrev pub concat : List Bytes → Bytes
concat [] = []
concat (c ∷ cs) = c ++ concat cs

-- The stream of a list of messages with their nonces.
abbrev pub stream_of : Aead → List (Bytes × Bytes) → Bytes
stream_of a [] = []
stream_of a ((nonce, bytes) ∷ ms) = encode a nonce bytes ++ stream_of a ms

abbrev pub AllOpen : Aead → List (Bytes × Bytes) → Type 0
AllOpen a [] = Unit {0}
AllOpen a ((nonce, bytes) ∷ ms) = (is_empty bytes ≡ false) × Opens a nonce bytes × AllOpen a ms

abbrev texts : List (Bytes × Bytes) → List Bytes
texts ms = map (λ m. m.1) ms

-- Two ways to cut the same bytes: the first part has all of `e`, or only a beginning.
cut_at :
    (e b c t : Bytes)
    → b ++ c ≡ e ++ t
    → ((b' : Bytes) × (b ≡ e ++ b') × (b' ++ c ≡ t))
      ⊎ ((d : Bytes) × (e ≡ b ++ d) × (length b < length e))
cut_at [] b c t h = inl (b, refl, h)
cut_at (x ∷ e) [] c t h = inr (x ∷ e, refl, omega arith)
cut_at (x ∷ e) (y ∷ b) c t h =
    let head : y ≡ x = ground (arith, h) in
    elim (cut_at e b c t (ground (arith, h))) [
      | inl (b', is, rest) ↦ inl (b', ground (arith, head, is), rest)
      | inr (d, is, lt) ↦ inr (d, ground (arith, head, is), omega (arith, lt))
    ]

module _ (a : Aead) where
  -- A packet that is not complete stays in the buffer.
  part_stays :
      (nonce bytes b d : Bytes)
      → Opens a nonce bytes
      → encode a nonce bytes ≡ b ++ d
      → length b < length (encode a nonce bytes)
      → try_parse a b ≡ (none, b)
  part_stays nonce bytes b d opens is lt = elim (try_parse-split a b d) [
    | inl e ↦ e
    | inr e ↦
        let whole = parse-encode a nonce bytes [] opens in
        let same : b ++ d ≡ encode a nonce bytes ++ [] =
          sym is ∙ sym (append-nil (encode a nonce bytes)) in
        let none_left : (try_parse a b).1 ++ d ≡ [] =
          sym (ap (λ o. o.1) e) ∙ ap (λ s. (try_parse a s).1) same ∙ ap (λ o. o.1) whole in
        absurd (
          omega (
            arith,
            lt,
            ap (λ s. length s) is,
            length-append b d,
            length-append (try_parse a b).1 d,
            ap (λ s. length s) none_left,
          ))
  ]

  drain_part : (f : ℕ) (b : Bytes) → try_parse a b ≡ (none, b) → drain a f b ≡ ([], b)
  drain_part zero b e = unfold drain in refl
  drain_part (suc f) b e = drain-none a f b (ap (λ o. o.0) e) ∙ ap (λ o. ([], o.1)) e

  drain_whole :
      (f : ℕ) (nonce bytes rest : Bytes)
      → is_empty bytes ≡ false
      → Opens a nonce bytes
      → drain a (suc f) (encode a nonce bytes ++ rest)
        ≡ (bytes ∷ (drain a f rest).0, (drain a f rest).1)
  drain_whole f nonce [] rest text opens = absurd (ground (arith, text))
  drain_whole f nonce (x ∷ bytes) rest text opens =
      let parse = parse-encode a nonce (x ∷ bytes) rest opens in
      drain-some a f (encode a nonce (x ∷ bytes) ++ rest) (x ∷ bytes) (ap (λ o. o.0) parse)
      ∙ ap (λ o. ((x ∷ bytes) ∷ (drain a f o.1).0, (drain a f o.1).1)) parse

  encode_full : (nonce bytes : Bytes) → 0 < length (encode a nonce bytes)
  unfolding encode put_uint32
  encode_full nonce bytes = omega arith

  -- What stays in the buffer, when all messages that are complete are taken.
  IsPart : List (Bytes × Bytes) → Bytes → Type 0
  IsPart [] left = left ≡ []
  IsPart ((nonce, bytes) ∷ ms) left = length left < length (encode a nonce bytes)

  -- The inner loop has taken the messages before these, of which a part is left.
  abbrev Takes : Bytes → List (Bytes × Bytes) → List Bytes × Bytes → Type 0
  Takes c ms r =
      (ms' : List (Bytes × Bytes)) × AllOpen a ms'
      × (texts ms ≡ r.0 ++ texts ms')
      × (r.1 ++ c ≡ stream_of a ms')
      × IsPart ms' r.1

  drain-Takes :
      (f : ℕ) (b c : Bytes) (ms : List (Bytes × Bytes))
      → length b ≤ f
      → AllOpen a ms
      → b ++ c ≡ stream_of a ms
      → Takes c ms (drain a f b)
  unfolding IsPart
  drain-Takes f [] c [] h opens is = rw (drain-empty a f) ([], tt, refl, is, refl)
  drain-Takes f (x ∷ b) c [] h opens is = absurd (ground (arith, is))
  drain-Takes zero b c ((nonce, bytes) ∷ ms) h (text, opens, rest) is =
      let first = cut_at (encode a nonce bytes) b c (stream_of a ms) is in
      elim first [
        | inl (b', whole, left) ↦ absurd (
            omega (
              arith,
              h,
              encode_full nonce bytes,
              ap (λ s. length s) whole,
              length-append (encode a nonce bytes) b',
            ))
        | inr (d, part, lt) ↦
            rw (drain_part zero b (part_stays nonce bytes b d opens part lt))
              ((nonce, bytes) ∷ ms, (text, opens, rest), refl, is, lt)
      ]
  drain-Takes (suc f) b c ((nonce, bytes) ∷ ms) h (text, opens, rest) is =
      elim (cut_at (encode a nonce bytes) b c (stream_of a ms) is) [
        | inl (b', whole, left) ↦
            let shorter : length b' ≤ f = omega (
              arith,
              h,
              encode_full nonce bytes,
              ap (λ s. length s) whole,
              length-append (encode a nonce bytes) b',
            ) in
            let (ms', opens', same, bytes_left, part) = drain-Takes f b' c ms shorter rest left in
            rw (whole, drain_whole f nonce bytes b' text opens)
              (ms', opens', ap (λ ps. bytes ∷ ps) same, bytes_left, part)
        | inr (d, part, lt) ↦
            rw (drain_part (suc f) b (part_stays nonce bytes b d opens part lt))
              ((nonce, bytes) ∷ ms, (text, opens, rest), refl, is, lt)
      ]

  run_takes :
      (b : Bytes) (chunks : List Bytes) (ms : List (Bytes × Bytes))
      → AllOpen a ms
      → b ++ concat chunks ≡ stream_of a ms
      → IsPart ms b
      → run a b chunks ≡ (texts ms, [])
  unfolding run IsPart parse_all add_data
  run_takes b [] [] opens is part = ap (λ left. ([], left)) part
  run_takes b [] ((nonce, bytes) ∷ ms) opens is part = absurd (
      omega (
        arith,
        part,
        ap (λ s. length s) (sym (append-nil b) ∙ is),
        length-append (encode a nonce bytes) (stream_of a ms),
      ))
  run_takes b (chunk ∷ chunks) ms opens is part =
      let got = drain a (length (b ++ chunk)) (b ++ chunk) in
      let (ms', opens', same, bytes_left, part') =
        drain-Takes (length (b ++ chunk)) (b ++ chunk) (concat chunks) ms (omega arith) opens
          (append_assoc b chunk (concat chunks) ∙ is) in
      ap (λ r. (got.0 ++ r.0, r.1)) (run_takes got.1 chunks ms' opens' bytes_left part')
      ∙ ap (λ ps. (ps, [])) (sym same)

  encode_none : (ms : List (Bytes × Bytes)) → IsPart ms []
  unfolding IsPart
  encode_none [] = refl
  encode_none ((nonce, bytes) ∷ ms) = encode_full nonce bytes

-- Messages that are not empty, and that the cipher opens again as they were, are received as they were
-- sent when they are encoded one after the other: each once and in order, and nothing is left in the
-- buffer, however the stream is cut into chunks.
pub run-stream_of :
    (a : Aead) (ms : List (Bytes × Bytes)) (chunks : List Bytes)
    → AllOpen a ms
    → concat chunks ≡ stream_of a ms
    → run a [] chunks ≡ (map (λ m. m.1) ms, [])
run-stream_of a ms chunks opens cut = run_takes a [] chunks ms opens cut (encode_none a ms)
