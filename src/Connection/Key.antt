-- ===== src/Connection/Key.antt =====
-- quic/server/server.go: the keys under which the heartbeat manager knows a connection.
use Prim.Native.Char.{Char, code}
use Prim.Native.String.{String, [], ◌∷◌, ◌++◌}
use mathlib.Core.Option
use native.Mathlib.Nat.{pow-suc}
use text.Mathlib.TextLemmas.{nil-append, cons-append}
use cc_im_server.Prelude.{
  ℕ, zero, suc, ◌+◌, ◌-◌, ◌*◌, ◌/◌, ◌%◌, ◌^◌, ◌<◌, Bool, true, false, ◌&&◌, ◌||◌, Option, none,
  some, ◌==◌, eqb, ltb, leb, if◌then◌else◌, ◌≡◌, ◌≢◌, refl, arith, ==_of_ne, Option-cases, inl, inr,
  ap, ◌∙◌, all_below, all_below_sound,
}

hex_digit : ℕ → Char
hex_digit d =
    if eqb d 0
    then "0"
    else if eqb d 1
    then "1"
    else if eqb d 2
    then "2"
    else if eqb d 3
    then "3"
    else if eqb d 4
    then "4"
    else if eqb d 5
    then "5"
    else if eqb d 6
    then "6"
    else if eqb d 7
    then "7"
    else if eqb d 8
    then "8"
    else if eqb d 9
    then "9"
    else if eqb d 10
    then "a"
    else if eqb d 11
    then "b"
    else if eqb d 12
    then "c"
    else if eqb d 13
    then "d"
    else if eqb d 14
    then "e"
    else "f"

-- A digit of base 16 in either case, by its code point.
hex_value : ℕ → Option ℕ
hex_value c =
    if leb b'0' c && leb c b'9'
    then some (c - b'0')
    else if leb b'a' c && leb c b'f'
    then some (c - b'a' + 10)
    else if leb b'A' c && leb c b'F'
    then some (c - b'A' + 10)
    else none

-- `k` digits of `n` in front of `rest`, the least significant last.
hex_go : ℕ → ℕ → String → String
hex_go zero n rest = rest
hex_go (suc k) n rest = hex_go k (n / 16) (hex_digit (n % 16) ∷ rest)

-- `%016x` of a 64-bit value.
format_conn_id : ℕ → String
format_conn_id n = hex_go 16 n ""

parse_hex : ℕ → String → Option ℕ
parse_hex acc [] = some acc
parse_hex acc (c ∷ s) =
    let rest = λ (d : ℕ). parse_hex (acc * 16 + d) s in
    elim (hex_value (code c)) [ none ↦ none | some d ↦ rest d ]

below_word : ℕ → Option ℕ
below_word n = if ltb n (2 ^ 64) then some n else none

-- `strconv.ParseUint(s, 16, 64)`, none for any error.
parse_uint_hex : String → Option ℕ
parse_uint_hex s =
    if s == "" then none else elim (parse_hex 0 s) [ none ↦ none | some n ↦ below_word n ]

-- The text before the first `|` and the text after it.
cut : String → Option (String × String)
cut [] = none
cut (c ∷ s) = if eqb (code c) b'|' then some ("", s) else Option.map (λ p. (c ∷ p.0, p.1)) (cut s)

pub heartbeat_client_key : String → String → ℕ → String
heartbeat_client_key uid sid conn_id = uid ++ ("|" ∷ (sid ++ ("|" ∷ format_conn_id conn_id)))

pub legacy_heartbeat_client_key : String → String → String
legacy_heartbeat_client_key uid sid = uid ++ ("|" ∷ sid)

conn_or_zero : Option ℕ → ℕ
conn_or_zero none = 0
conn_or_zero (some id) = id

checked : String → String → ℕ → Option (String × String × ℕ)
checked uid sid conn_id = if uid == "" || sid == "" then none else some (uid, sid, conn_id)

-- `strings.SplitN(key, "|", 3)` and the reading of its parts.
pub parse_heartbeat_client_key : String → Option (String × String × ℕ)
parse_heartbeat_client_key key = elim (cut key) [
  | none ↦ none
  | some (uid, rest) ↦ elim (cut rest) [
    | none ↦ checked uid rest 0
    | some (sid, hex) ↦ checked uid sid (conn_or_zero (parse_uint_hex hex))
  ]
]

abbrev pub NoBar : String → Type 0
NoBar [] = Unit {0}
NoBar (c ∷ s) = (code c ≢ b'|') × NoBar s

hex_ok : ℕ → Bool
unfolding hex_value hex_digit
hex_ok d = elim (hex_value (code (hex_digit d))) [ none ↦ false | some e ↦ eqb e d ]

hex_table : all_below 16 hex_ok ≡ true
unfolding hex_ok all_below
hex_table = refl

hex_ok_sound : (d : ℕ) → hex_ok d ≡ true → hex_value (code (hex_digit d)) ≡ some d
unfolding hex_ok
hex_ok_sound d e = elim (Option-cases (hex_value (code (hex_digit d)))) [
  | inl n ↦ ground (arith, n)
  | inr (v, n) ↦ ground (arith, n)
]

hex_value-hex_digit : (d : ℕ) → d < 16 → hex_value (code (hex_digit d)) ≡ some d
hex_value-hex_digit d h = hex_ok_sound d (all_below_sound 16 hex_ok d hex_table h)

parse_hex_nil : (acc : ℕ) → parse_hex acc "" ≡ some acc
unfolding parse_hex
parse_hex_nil acc = refl

parse_hex-digit :
    (acc d : ℕ) (s : String) → d < 16 → parse_hex acc (hex_digit d ∷ s) ≡ parse_hex (acc * 16 + d) s
unfolding parse_hex
parse_hex-digit acc d s h = ground (arith, hex_value-hex_digit d h)

parse_hex-hex_go :
    (k n acc p : ℕ) (rest : String)
    → p ≡ 16 ^ k
    → n < p
    → parse_hex acc (hex_go k n rest) ≡ parse_hex (acc * p + n) rest
unfolding hex_go
parse_hex-hex_go zero n acc p rest e h = ap (λ t. parse_hex t rest) (grind arith)
parse_hex-hex_go (suc k) n acc p rest e h =
    let step : p ≡ 16 * 16 ^ k = omega (arith, e, pow-suc 16 k) in
    parse_hex-hex_go k (n / 16) acc (16 ^ k) (hex_digit (n % 16) ∷ rest) refl (omega arith)
    ∙ parse_hex-digit (acc * 16 ^ k + n / 16) (n % 16) rest (omega arith)
    ∙ ap (λ t. parse_hex t rest) (omega (arith, ap (λ (t : ℕ). acc * t) step))

cut-append : (u s : String) → NoBar u → cut (u ++ ("|" ∷ s)) ≡ some (u, s)
unfolding cut
cut-append [] s h = rw nil-append refl
cut-append (c ∷ u) s h = rw (cons-append, cut-append u s h.1, cut) (ground arith)

cut-NoBar : (u : String) → NoBar u → cut u ≡ none
unfolding cut
cut-NoBar [] h = refl
cut-NoBar (c ∷ u) h = ground (arith, cut-NoBar u h.1)

hex_go-ne-nil : (k n : ℕ) (c : Char) (s : String) → hex_go k n (c ∷ s) ≢ ""
unfolding hex_go
hex_go-ne-nil zero n c s e = cc
hex_go-ne-nil (suc k) n c s e = hex_go-ne-nil k (n / 16) (hex_digit (n % 16)) (c ∷ s) e

format_conn_id-ne-nil : (n : ℕ) → format_conn_id n ≢ ""
unfolding format_conn_id hex_go
format_conn_id-ne-nil n = hex_go-ne-nil 15 (n / 16) (hex_digit (n % 16)) ""

parse_uint_hex-format_conn_id : (n : ℕ) → n < 2 ^ 64 → parse_uint_hex (format_conn_id n) ≡ some n
unfolding parse_uint_hex below_word format_conn_id
parse_uint_hex-format_conn_id n h = ground (
  arith,
  ==_of_ne (hex_go 16 n "") "" (format_conn_id-ne-nil n),
  parse_hex-hex_go 16 n 0 (2 ^ 64) "" refl h,
  parse_hex_nil (0 * 2 ^ 64 + n),
)

-- Parsing the key of a connection gives back its user, its session and its identifier, when
-- neither text is empty or holds a bar and the identifier fits 64 bits.
pub parse-heartbeat_client_key :
    (uid sid : String) (conn_id : ℕ)
    → uid ≢ ""
    → sid ≢ ""
    → NoBar uid
    → NoBar sid
    → conn_id < 2 ^ 64
    → parse_heartbeat_client_key (heartbeat_client_key uid sid conn_id) ≡ some (uid, sid, conn_id)
unfolding parse_heartbeat_client_key heartbeat_client_key checked conn_or_zero
parse-heartbeat_client_key uid sid conn_id hu hs bu bs hc = ground (
  arith,
  cut-append uid (sid ++ ("|" ∷ format_conn_id conn_id)) bu,
  cut-append sid (format_conn_id conn_id) bs,
  parse_uint_hex-format_conn_id conn_id hc,
  ==_of_ne uid "" hu,
  ==_of_ne sid "" hs,
)

-- A key of the older form has no identifier, which reads as 0.
pub parse-legacy_heartbeat_client_key :
    (uid sid : String)
    → uid ≢ ""
    → sid ≢ ""
    → NoBar uid
    → NoBar sid
    → parse_heartbeat_client_key (legacy_heartbeat_client_key uid sid) ≡ some (uid, sid, 0)
unfolding parse_heartbeat_client_key legacy_heartbeat_client_key checked
parse-legacy_heartbeat_client_key uid sid hu hs bu bs =
    ground (arith, cut-append uid sid bu, cut-NoBar sid bs, ==_of_ne uid "" hu, ==_of_ne sid "" hs)
