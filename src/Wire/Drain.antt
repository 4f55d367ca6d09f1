-- ===== src/Wire/Drain.antt =====
-- quic/handler/message_handler.go, the read loop: the packets of a buffer, and those of a longer one.
use cc_im_server.Prelude.{
  ℕ, zero, suc, ◌+◌, ◌<◌, ◌≤◌, Option, none, some, List, [], ◌∷◌, ◌++◌, length, ◌≡◌, refl, ap, ◌∙◌,
  arith, Option-cases, inl, inr, ◌⊎◌,
}
use cc_im_server.Media.Frame.{Bytes, uint32, read_full}
use cc_im_server.Wire.Packet.{Aead, try_parse, take_packet, take_blob}

-- The inner loop, on fuel: the packets and what stays in the buffer.
unfoldable pub drain : Aead → ℕ → Bytes → List Bytes × Bytes
drain a zero buffer = ([], buffer)
drain a (suc fuel) buffer =
    let (packet, rest) = try_parse a buffer in
    let (packets, left) = drain a fuel rest in
    elim packet [ none ↦ ([], rest) | some p ↦ (p ∷ packets, left) ]

-- Every packet takes four bytes at least, so the length of the buffer is fuel enough.
unfoldable pub parse_all : Aead → Bytes → List Bytes × Bytes
parse_all a buffer = drain a (length buffer) buffer

read_full-more :
    (n : ℕ) (b c xs rest : Bytes)
    → read_full n b ≡ some (xs, rest)
    → read_full n (b ++ c) ≡ some (xs, rest ++ c)
unfolding read_full
read_full-more zero b c xs rest h = ground (arith, h)
read_full-more (suc n) [] c xs rest h = absurd (ground (arith, h))
read_full-more (suc n) (x ∷ b) c xs rest h = elim (Option-cases (read_full n b)) [
  | inl e ↦ absurd (ground (arith, e, h))
  | inr ((ys, r), e) ↦ ground (arith, e, h, read_full-more n b c ys r e)
]

read_full-shorter :
    (n : ℕ) (b xs rest : Bytes) → read_full n b ≡ some (xs, rest) → length b ≡ n + length rest
unfolding read_full
read_full-shorter zero b xs rest h = ground (arith, h)
read_full-shorter (suc n) [] xs rest h = absurd (ground (arith, h))
read_full-shorter (suc n) (x ∷ b) xs rest h = elim (Option-cases (read_full n b)) [
  | inl e ↦ absurd (ground (arith, e, h))
  | inr ((ys, r), e) ↦ ground (arith, e, h, read_full-shorter n b ys r e)
]

blob-shorter :
    (a : Aead) (b p rest r : Bytes) (n : ℕ)
    → take_blob a b (read_full n r) ≡ (some p, rest)
    → length rest ≤ length r
unfolding take_blob
blob-shorter a b p rest r n h = elim (Option-cases (read_full n r)) [
  | inl e ↦ absurd (ground (arith, e, h))
  | inr ((xs, left), e) ↦ ground (arith, e, h, read_full-shorter n r xs left e)
]

packet-shorter :
    (a : Aead) (b p rest : Bytes) (o : Option (Bytes × Bytes))
    → read_full 4 b ≡ o
    → take_packet a b o ≡ (some p, rest)
    → length rest < length b
unfolding take_packet
packet-shorter a b p rest none e h = absurd (ground (arith, h))
packet-shorter a b p rest (some ([], r)) e h = absurd (ground (arith, h))
packet-shorter a b p rest (some (w ∷ [], r)) e h = absurd (ground (arith, h))
packet-shorter a b p rest (some (w ∷ x ∷ [], r)) e h = absurd (ground (arith, h))
packet-shorter a b p rest (some (w ∷ x ∷ y ∷ [], r)) e h = absurd (ground (arith, h))
packet-shorter a b p rest (some (w ∷ x ∷ y ∷ z ∷ [], r)) e h =
    let tail = blob-shorter a b p rest r (uint32 w x y z) h in
    omega (arith, tail, read_full-shorter 4 b (w ∷ x ∷ y ∷ z ∷ []) r e)
packet-shorter a b p rest (some (w ∷ x ∷ y ∷ z ∷ v ∷ u, r)) e h = absurd (ground (arith, h))

-- Bytes that come later change what is taken from a buffer only when nothing is.
abbrev IsSplit : Aead → Bytes → Bytes → Option (Bytes × Bytes) → Type 0
IsSplit a b c o =
    (take_packet a b o ≡ (none, b))
    ⊎ (take_packet a (b ++ c) (read_full 4 (b ++ c))
        ≡ ((take_packet a b o).0, (take_packet a b o).1 ++ c))

packet-IsSplit :
    (a : Aead) (b c : Bytes) (o : Option (Bytes × Bytes)) → read_full 4 b ≡ o → IsSplit a b c o
unfolding take_packet take_blob
packet-IsSplit a b c none e = inl refl
packet-IsSplit a b c (some ([], r)) e = inl refl
packet-IsSplit a b c (some (w ∷ [], r)) e = inl refl
packet-IsSplit a b c (some (w ∷ x ∷ [], r)) e = inl refl
packet-IsSplit a b c (some (w ∷ x ∷ y ∷ [], r)) e = inl refl
packet-IsSplit a b c (some (w ∷ x ∷ y ∷ z ∷ [], r)) e =
    elim (Option-cases (read_full (uint32 w x y z) r)) [
      | inl g ↦ inl (ground (arith, g))
      | inr ((blob, left), g) ↦ inr (
          ground (
            arith,
            g,
            read_full-more 4 b c (w ∷ x ∷ y ∷ z ∷ []) r e,
            read_full-more (uint32 w x y z) r c blob left g,
          ))
    ]
packet-IsSplit a b c (some (w ∷ x ∷ y ∷ z ∷ v ∷ u, r)) e = inl refl

pub try_parse-split :
    (a : Aead) (b c : Bytes)
    → (try_parse a b ≡ (none, b))
      ⊎ (try_parse a (b ++ c) ≡ ((try_parse a b).0, (try_parse a b).1 ++ c))
unfolding try_parse
try_parse-split a b c = packet-IsSplit a b c (read_full 4 b) refl

pub try_parse-shorter :
    (a : Aead) (b p rest : Bytes) → try_parse a b ≡ (some p, rest) → length rest < length b
unfolding try_parse
try_parse-shorter a b p rest h = packet-shorter a b p rest (read_full 4 b) refl h

pub parsed :
    (a : Aead) (b p : Bytes)
    → (try_parse a b).0 ≡ some p
    → try_parse a b ≡ (some p, (try_parse a b).1)
parsed a b p e = ap (λ o. (o, (try_parse a b).1)) e

pub drain-none :
    (a : Aead) (f : ℕ) (b : Bytes)
    → (try_parse a b).0 ≡ none
    → drain a (suc f) b ≡ ([], (try_parse a b).1)
unfolding drain
drain-none a f b e = ground (arith, e)

pub drain-some :
    (a : Aead) (f : ℕ) (b p : Bytes)
    → (try_parse a b).0 ≡ some p
    → drain a (suc f) b ≡ (p ∷ (drain a f (try_parse a b).1).0, (drain a f (try_parse a b).1).1)
unfolding drain
drain-some a f b p e = ground (arith, e)

pub stuck : (a : Aead) (b : Bytes) → length b ≤ 0 → (try_parse a b).0 ≡ none
stuck a b h = elim (Option-cases (try_parse a b).0) [
  | inl e ↦ e
  | inr (p, e) ↦
      absurd (omega (arith, h, try_parse-shorter a b p (try_parse a b).1 (parsed a b p e)))
]

pub drain-empty : (a : Aead) (f : ℕ) → drain a f [] ≡ ([], [])
unfolding drain try_parse take_packet read_full
drain-empty a zero = refl
drain-empty a (suc f) = refl

-- The inner loop as the source has it, with no bound: it goes on as long as packets come.
pub data Loop (a : Aead) : Bytes → List Bytes → Bytes → Type 0 where
  ends : (b : Bytes) → (try_parse a b).0 ≡ none → Loop a b [] (try_parse a b).1
  goes_on :
      (b p left : Bytes) (packets : List Bytes)
      → (try_parse a b).0 ≡ some p
      → Loop a (try_parse a b).1 packets left
      → Loop a b (p ∷ packets) left

drain-Loop :
    (a : Aead) (fuel : ℕ) (b : Bytes)
    → length b ≤ fuel
    → (r : List Bytes × Bytes) → drain a fuel b ≡ r
    → Loop a b r.0 r.1
drain-Loop a zero [] h r e =
    rw (← e, drain-empty a zero) (unfold try_parse read_full take_packet in ends [] refl)
drain-Loop a zero (x ∷ b) h r e = absurd (omega (arith, h))
drain-Loop a (suc f) b h r e = elim (Option-cases (try_parse a b).0) [
  | inl g ↦ rw (← e, drain-none a f b g) (ends b g)
  | inr (p, g) ↦
      let rest = (try_parse a b).1 in
      let shorter = try_parse-shorter a b p rest (parsed a b p g) in
      rw (← e, drain-some a f b p g)
        (goes_on b p (drain a f rest).1 (drain a f rest).0 g
          (drain-Loop a f rest (omega (arith, h, shorter)) (drain a f rest) refl))
]

Loop-drain :
    (a : Aead) (fuel : ℕ) (b left : Bytes) (packets : List Bytes)
    → length b ≤ fuel
    → Loop a b packets left
    → drain a fuel b ≡ (packets, left)
Loop-drain a zero [] _ _ h (ends _ g) = unfold try_parse read_full take_packet in drain-empty a zero
Loop-drain a zero (x ∷ b) _ _ h l = absurd (omega (arith, h))
Loop-drain a zero [] _ _ h (goes_on _ p left packets g l) = absurd (ground (arith, g, stuck a [] h))
Loop-drain a (suc f) b _ _ h (ends _ g) = drain-none a f b g
Loop-drain a (suc f) b _ _ h (goes_on _ p left packets g l) =
    let rest = (try_parse a b).1 in
    let shorter = try_parse-shorter a b p rest (parsed a b p g) in
    drain-some a f b p g
    ∙ ap (λ r. (p ∷ r.0, r.1)) (Loop-drain a f rest left packets (omega (arith, h, shorter)) l)

-- The inner loop comes to its end on every buffer, whatever the cipher: with as many rounds as the
-- buffer has bytes, or any more, the bounded loop gives the packets and the bytes left over that the
-- loop without a bound gives.
pub parse_all_ends :
    (a : Aead) (fuel : ℕ) (buffer : Bytes)
    → length buffer ≤ fuel
    → Loop a buffer (parse_all a buffer).0 (parse_all a buffer).1
      × (drain a fuel buffer ≡ parse_all a buffer)
unfolding parse_all
parse_all_ends a fuel buffer enough =
    let loop = drain-Loop a (length buffer) buffer (omega arith) (parse_all a buffer) refl in
    (loop, Loop-drain a fuel buffer (parse_all a buffer).1 (parse_all a buffer).0 enough loop)
