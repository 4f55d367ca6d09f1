-- ===== src/Media/Frame.antt =====
-- media/streaming/server.go: frames with a length of four bytes on a stream of bytes.
use cc_im_server.Prelude.{
  ℕ, zero, suc, ◌+◌, ◌*◌, ◌/◌, ◌%◌, ◌<◌, Option, none, some, List, [], ◌∷◌, ◌++◌, length, eqb,
  if◌then◌else◌, ◌≡◌, refl, ap, ◌∙◌, arith,
}

-- Bytes are numbers below 256.
abbrev pub Bytes : Type 0
Bytes = List ℕ

-- binary.BigEndian.PutUint32(uint32(n)) and Uint32.
unfoldable pub put_uint32 : ℕ → Bytes
put_uint32 n = (n / 16777216) % 256 ∷ (n / 65536) % 256 ∷ (n / 256) % 256 ∷ n % 256 ∷ []

unfoldable pub uint32 : ℕ → ℕ → ℕ → ℕ → ℕ
uint32 a b c d = a * 16777216 + b * 65536 + c * 256 + d

-- io.ReadFull: the first n bytes and the others, or none when the stream ends before.
cons_first : ℕ → Option (Bytes × Bytes) → Option (Bytes × Bytes)
cons_first x none = none
cons_first x (some (xs, rest)) = some (x ∷ xs, rest)

unfoldable pub read_full : ℕ → Bytes → Option (Bytes × Bytes)
unfolding cons_first
read_full zero stream = some ([], stream)
read_full (suc n) [] = none
read_full (suc n) (x ∷ stream) = cons_first x (read_full n stream)

read_data : Option (Bytes × Bytes) → Option (Bytes × Bytes)
read_data (some (a ∷ b ∷ c ∷ d ∷ [], rest)) =
    if eqb (uint32 a b c d) 0 then some ([], rest) else read_full (uint32 a b c d) rest
read_data o = none

unfoldable pub read_frame : Bytes → Option (Bytes × Bytes)
unfolding read_data
read_frame stream = read_data (read_full 4 stream)

-- What is written to the stream when no write fails.
unfoldable pub write_frame : Bytes → Bytes
write_frame payload = put_uint32 (length payload) ++ payload

-- The frame that tells a receiver who sent it: the length of the uid in two bytes, the uid and the
-- payload.
unfoldable pub relayed : Bytes → Bytes → Bytes
relayed uid_bytes payload =
    (length uid_bytes / 256) % 256 ∷ length uid_bytes % 256 ∷ uid_bytes ++ payload

-- What a receiver reads from it.
unfoldable pub split_relayed : Bytes → Option (Bytes × Bytes)
split_relayed (hi ∷ lo ∷ body) = read_full (hi * 256 + lo) body
split_relayed body = none

pub uint32-put :
    (n : ℕ)
    → n < 4294967296
    → uint32 ((n / 16777216) % 256) ((n / 65536) % 256) ((n / 256) % 256) (n % 256) ≡ n
unfolding uint32
uint32-put n h = omega (arith, h)

pub read_full-append : (xs rest : Bytes) → read_full (length xs) (xs ++ rest) ≡ some (xs, rest)
unfolding read_full
read_full-append [] rest = refl
read_full-append (x ∷ xs) rest = ground (arith, read_full-append xs rest)

empty_of_length : (xs : Bytes) → length xs ≡ 0 → xs ≡ []
empty_of_length [] h = refl
empty_of_length (x ∷ xs) h = absurd (omega (arith, h))

-- A frame of fewer than 2^32 bytes is read back whole, and what follows it on the stream is left.
pub read-write_frame :
    (payload rest : Bytes)
    → length payload < 4294967296
    → read_frame (write_frame payload ++ rest) ≡ some (payload, rest)
unfolding read_frame write_frame put_uint32 read_full
read-write_frame payload rest h =
    ground
      (arith, uint32-put (length payload) h, read_full-append payload rest, empty_of_length payload)

-- A receiver of a relayed frame reads the sender's uid and the payload, for a uid of fewer than 2^16
-- bytes.
pub split-relayed :
    (uid_bytes payload : Bytes)
    → length uid_bytes < 65536
    → split_relayed (relayed uid_bytes payload) ≡ some (uid_bytes, payload)
unfolding split_relayed relayed
split-relayed uid_bytes payload h =
    let n : (length uid_bytes / 256) % 256 * 256 + length uid_bytes % 256 ≡ length uid_bytes =
      omega (arith, h) in
    ap (λ k. read_full k (uid_bytes ++ payload)) n ∙ read_full-append uid_bytes payload
