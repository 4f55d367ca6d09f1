-- ===== src/Tests/Wire.antt =====
-- Concrete runs of the theorems on the packets of a connection.
use cc_im_server.Prelude.{ℕ, true, Option, some, none, List, [], ◌∷◌, ◌++◌, ◌≡◌, refl, arith, ◌==◌}
use cc_im_server.Media.Frame.{Bytes, put_uint32}
use cc_im_server.Wire.Packet.{Aead, try_parse, encode, plain_of, parse-encode}
use cc_im_server.Wire.Drain.{Loop, drain, parse_all, parse_all_ends}
use cc_im_server.Wire.Chunks.{run, stream_of, run-stream_of}
use cc_im_server.Wire.Inbound.{Entity, Inputs, start, on_packet, on_packets, validate_message_token}
use cc_im_server.Wire.Versions.{repeated_packet}

abbrev nonce : Bytes
nonce = 0 ∷ 0 ∷ 0 ∷ 0 ∷ 0 ∷ 0 ∷ 0 ∷ 0 ∷ 0 ∷ 0 ∷ 0 ∷ 0 ∷ []

-- A cipher that adds one byte.
aead_open : Bytes → Option Bytes
aead_open [] = none
aead_open (x ∷ []) = none
aead_open (x ∷ y ∷ xs) = some (y ∷ xs)

abbrev aead : Aead
unfolding aead_open
aead = record { seal = λ n plain. 7 ∷ plain; open_sealed = λ n cipher. aead_open cipher }

parse-encode_example :
    try_parse aead (encode aead nonce (5 ∷ []) ++ 9 ∷ []) ≡ (plain_of (5 ∷ []), 9 ∷ [])
unfolding aead_open
parse-encode_example = parse-encode aead nonce (5 ∷ []) (9 ∷ []) (refl, omega arith, refl)

abbrev two : List (Bytes × Bytes)
two = (nonce, 5 ∷ []) ∷ (nonce, 6 ∷ 7 ∷ []) ∷ []

run-stream_of_example : run aead [] (stream_of aead two ∷ []) ≡ ((5 ∷ []) ∷ (6 ∷ 7 ∷ []) ∷ [], [])
unfolding aead_open encode put_uint32
run-stream_of_example =
    run-stream_of aead two (stream_of aead two ∷ [])
      (refl, (refl, omega arith, refl), (refl, (refl, omega arith, refl), tt)) refl

parse_all_ends_example :
    Loop aead (1 ∷ []) (parse_all aead (1 ∷ [])).0 (parse_all aead (1 ∷ [])).1
    × (drain aead 9 (1 ∷ []) ≡ parse_all aead (1 ∷ []))
parse_all_ends_example = parse_all_ends aead 9 (1 ∷ []) (omega arith)

abbrev ping : ℕ → Entity
ping v = record { token = "t"; version = v; message_type = 1; body = [] }

abbrev ping_of : Bytes → Option Entity
ping_of [] = none
ping_of (v ∷ xs) = some (ping v)

abbrev inputs : Inputs
inputs = record {
  uid = "ann";
  unpack = ping_of;
  trim_space = λ t. t;
  validate_jwt = λ t. some (record { subject = "ann"; sid = "s" });
  validate_active_user_session = λ uid sid. some true;
}

repeated_packet_example :
    let between = on_packets inputs (on_packet inputs start (2 ∷ [])) ((3 ∷ []) ∷ []) in
    (on_packet inputs between (2 ∷ [])).dispatched ≡ between.dispatched
repeated_packet_example = repeated_packet inputs inputs start (2 ∷ []) ((3 ∷ []) ∷ []) refl

valid_token : validate_message_token inputs "t" ≡ true
unfolding validate_message_token ◌==◌
valid_token = refl
