-- ===== src/Wire/Packet.antt =====
-- quic/handler/protocol/four-yte_protocol.go: sealed packets with a length of four bytes; and
-- pkg/protocol/stream.go: the type of a stream in three bytes.
use cc_im_server.Prelude.{
  ℕ, ◌<◌, Bool, Option, none, some, [], ◌∷◌, ◌++◌, length, eqb, ◌≡◌, sym, ap, ◌∙◌, arith, ◌&&◌,
}
use cc_im_server.Media.Frame.{Bytes, put_uint32, uint32, read_full, uint32-put, read_full-append}

-- crypto/cipher: the AEAD of the session key. A nonce has 12 bytes.
pub record Aead : Type 0 where
  pub seal : (nonce : Bytes) → (plain : Bytes) → Bytes
  pub open_sealed : (nonce : Bytes) → (cipher : Bytes) → Option Bytes

abbrev pub nonce_size : ℕ
nonce_size = 12

-- A slice that `open_sealed` appends nothing to is nil, so an empty plain text is none; an error gives
-- a slice that is empty and not nil.
abbrev pub plain_of : Bytes → Option Bytes
plain_of [] = none
plain_of (x ∷ xs) = some (x ∷ xs)

or_empty : Option Bytes → Option Bytes
or_empty none = some []
or_empty (some plain) = plain_of plain

open_parts : Aead → Option (Bytes × Bytes) → Option Bytes
unfolding or_empty
open_parts a none = some []
open_parts a (some (nonce, cipher)) = or_empty (a.open_sealed nonce cipher)

-- The plain text of a blob; the empty text for a blob that is too short or does not open.
unfoldable pub open_blob : Aead → Bytes → Option Bytes
unfolding open_parts
open_blob a blob = open_parts a (read_full nonce_size blob)

unfoldable pub take_blob : Aead → Bytes → Option (Bytes × Bytes) → Option Bytes × Bytes
take_blob a buffer none = (none, buffer)
take_blob a buffer (some (blob, rest)) = (open_blob a blob, rest)

unfoldable pub take_packet : Aead → Bytes → Option (Bytes × Bytes) → Option Bytes × Bytes
take_packet a buffer (some (w ∷ x ∷ y ∷ z ∷ [], rest)) =
    take_blob a buffer (read_full (uint32 w x y z) rest)
take_packet a buffer o = (none, buffer)

-- A packet from the buffer and what is left of it; none for nil, which a packet that is not complete
-- gives, and one with an empty plain text.
unfoldable pub try_parse : Aead → Bytes → Option Bytes × Bytes
try_parse a buffer = take_packet a buffer (read_full 4 buffer)

unfoldable pub add_data : Bytes → Bytes → Bytes
add_data buffer chunk = buffer ++ chunk

-- `nonce` is what crypto/rand returns. The length is that of the blob as an uint32.
unfoldable pub encode : Aead → Bytes → Bytes → Bytes
encode a nonce bytes = let blob = nonce ++ a.seal nonce bytes in put_uint32 (length blob) ++ blob

-- A nonce and a packet whose blob fits into an uint32, and an AEAD that opens what it sealed.
abbrev pub Opens : Aead → Bytes → Bytes → Type 0
Opens a nonce bytes =
    (length nonce ≡ 12)
    × (length (nonce ++ a.seal nonce bytes) < 4294967296)
    × (a.open_sealed nonce (a.seal nonce bytes) ≡ some bytes)

open_blob-sealed :
    (a : Aead) (nonce bytes : Bytes)
    → Opens a nonce bytes
    → open_blob a (nonce ++ a.seal nonce bytes) ≡ plain_of bytes
unfolding open_blob
open_blob-sealed a nonce bytes (size, _, opens) =
    let split : read_full nonce_size (nonce ++ a.seal nonce bytes)
        ≡ some (nonce, a.seal nonce bytes) =
      ap (λ n. read_full n (nonce ++ a.seal nonce bytes)) (sym size)
      ∙ read_full-append nonce (a.seal nonce bytes) in
    ground (arith, split, opens)

-- A text that was encoded is parsed back as it was, whatever bytes follow it, and these stay in the
-- buffer; an empty text is taken from the buffer and reported as no packet.
pub parse-encode :
    (a : Aead) (nonce bytes rest : Bytes)
    → Opens a nonce bytes
    → try_parse a (encode a nonce bytes ++ rest) ≡ (plain_of bytes, rest)
unfolding try_parse take_packet take_blob encode put_uint32 read_full
parse-encode a nonce bytes rest h =
    let blob = nonce ++ a.seal nonce bytes in
    ground (
      arith,
      uint32-put (length blob) h.1,
      read_full-append blob rest,
      open_blob-sealed a nonce bytes h,
    )

-- pkg/protocol/stream.go. The fields are bytes.
pub record StreamType : Type 0 where
  pub category : ℕ
  pub sub_type : ℕ
  pub version : ℕ

unfoldable pub to_bytes : StreamType → Bytes
to_bytes t = t.category ∷ t.sub_type ∷ t.version ∷ []

unfoldable pub from_bytes : Bytes → Option StreamType
from_bytes (c ∷ s ∷ v ∷ rest) = some (record { category = c; sub_type = s; version = v })
from_bytes bytes = none

unfoldable pub equal : StreamType → StreamType → Bool
equal s t = eqb s.category t.category && eqb s.sub_type t.sub_type && eqb s.version t.version
