-- ===== src/Media/Sign.antt =====
-- media/streaming/server.go: the join sign, which is checked and used up in one Redis script.
use cc_im_server.Prelude.{
  String, ℕ, Bool, false, not, ◌&&◌, ◌||◌, Option, none, some, List, ◌==◌, eqb, ltb, if◌then◌else◌,
  ◌≡◌, ◌≢◌, ap, arith, ==_iff, ==_refl, Option-cases, inl, inr,
}
use Prim.Native.String.{◌++◌ as text_append}
use cc_im_server.Prelude.Assoc.{lookup, delete, lookup-delete}

pub record JoinRequest : Type 0 where
  pub uid : String
  pub sid : String
  pub rid : String
  pub role : String
  pub nonce : String
  pub expire_at : ℕ
  pub sign : String

pub data JoinResult : Type 0 where
  ok : JoinResult
  missing_parameter : JoinResult
  expired : JoinResult
  bad_sign : JoinResult
  redis_failed : JoinResult
  missing_or_used : JoinResult
  corrupt : JoinResult
  mismatch : JoinResult

-- The HMAC over the fields of a request, and encoding/json for the cached request.
pub record JoinParams : Type 0 where
  pub make_media_join_sign : (uid sid rid role nonce : String) → (expire_at : ℕ) → String
  pub parse : String → Option JoinRequest

unfoldable pub sign_key : String → String
sign_key nonce = text_append "media:join:sign:" nonce

same_request : JoinRequest → JoinRequest → Bool
same_request a b =
    a.uid == b.uid
    && a.sid == b.sid
    && a.rid == b.rid
    && a.sign == b.sign
    && eqb a.expire_at b.expire_at

-- `later` is the time of the second reading of the clock.
check_cached : ℕ → JoinRequest → Option JoinRequest → JoinResult
unfolding same_request
check_cached later req none = corrupt
check_cached later req (some cached) =
    if not (same_request cached req)
    then mismatch
    else if ltb cached.expire_at later
    then expired
    else ok

check_raw : JoinParams → ℕ → JoinRequest → Option String → JoinResult
unfolding check_cached
check_raw p later req none = missing_or_used
check_raw p later req (some raw) =
    if raw == "" then missing_or_used else check_cached later req (p.parse raw)

-- The Redis keys after it, and the result. The script reads and deletes the key in one step.
unfoldable pub consume_and_verify_join_sign :
    JoinParams
    → Bool
    → List (String × String)
    → ℕ
    → ℕ
    → JoinRequest
    → List (String × String) × JoinResult
unfolding check_raw
consume_and_verify_join_sign p redis_fails keys now later req =
    let expected =
      p.make_media_join_sign req.uid req.sid req.rid req.role req.nonce req.expire_at in
    let key = sign_key req.nonce in
    let checked = check_raw p later req (lookup key keys) in
    if req.uid == "" || req.sid == "" || req.rid == "" || req.nonce == "" || req.sign == ""
    then (keys, missing_parameter)
    else if ltb req.expire_at now
    then (keys, expired)
    else if not (expected == req.sign)
    then (keys, bad_sign)
    else if redis_fails
    then (keys, redis_failed)
    else (delete key keys, checked)

stored :
    (p : JoinParams) (down : Bool) (keys : List (String × String)) (now later : ℕ)
    (req : JoinRequest)
    → (consume_and_verify_join_sign p down keys now later req).1 ≡ ok
    → (raw : String) × (cached : JoinRequest) × (lookup (sign_key req.nonce) keys ≡ some raw)
      × (p.parse raw ≡ some cached)
unfolding consume_and_verify_join_sign
stored p down keys now later req accepted = elim (Option-cases (lookup (sign_key req.nonce) keys)) [
  | inl e ↦ absurd (ground (arith, e, accepted))
  | inr (raw, e) ↦ elim (Option-cases (p.parse raw)) [
    | inl e' ↦ absurd (ground (arith, e, e', accepted))
    | inr (cached, e') ↦ (raw, cached, e, e')
  ]
]

accepted_now :
    (p : JoinParams) (down : Bool) (keys : List (String × String)) (now later : ℕ)
    (req : JoinRequest) (raw : String) (cached : JoinRequest)
    → lookup (sign_key req.nonce) keys ≡ some raw
    → p.parse raw ≡ some cached
    → (consume_and_verify_join_sign p down keys now later req).1 ≡ ok
    → (p.make_media_join_sign req.uid req.sid req.rid req.role req.nonce req.expire_at ≡ req.sign)
      × (ltb req.expire_at now ≡ false)
      × (ltb req.expire_at later ≡ false)
      × ((consume_and_verify_join_sign p down keys now later req).0
          ≡ delete (sign_key req.nonce) keys)
unfolding consume_and_verify_join_sign
accepted_now p down keys now later req raw cached e e' accepted =
    let expected =
      p.make_media_join_sign req.uid req.sid req.rid req.role req.nonce req.expire_at in
    (
      ground (arith, e, e', accepted, ==_iff expected req.sign),
      ground (arith, e, e', accepted),
      ground (arith, e, e', accepted),
      ground (arith, e, e', accepted),
    )

used_up :
    (p : JoinParams) (down : Bool) (key : String) (keys : List (String × String)) (now later : ℕ)
    (req : JoinRequest)
    → sign_key req.nonce ≡ key
    → (keys' : List (String × String)) → keys' ≡ delete key keys
    → (consume_and_verify_join_sign p down keys' now later req).1 ≢ ok
unfolding consume_and_verify_join_sign
used_up p down key keys now later req e keys' e' =
    let gone = lookup-delete key key keys in ground (arith, e, e', gone, ==_refl key)

-- A request that is accepted carries the sign made from its own fields and has not expired, and its
-- sign is used up: no request with the same nonce is accepted afterwards, whenever it comes.
pub accepted_once :
    (p : JoinParams) (down : Bool) (keys : List (String × String)) (now later : ℕ)
    (req : JoinRequest)
    → (consume_and_verify_join_sign p down keys now later req).1 ≡ ok
    → (again : JoinRequest) → again.nonce ≡ req.nonce
    → (refused : Bool) (now' later' : ℕ)
    → (p.make_media_join_sign req.uid req.sid req.rid req.role req.nonce req.expire_at ≡ req.sign)
      × (ltb req.expire_at now ≡ false)
      × (ltb req.expire_at later ≡ false)
      × ((consume_and_verify_join_sign p refused
            (consume_and_verify_join_sign p down keys now later req).0
            now'
            later'
            again).1
          ≢ ok)
accepted_once p down keys now later req accepted again same refused now' later' =
    let (raw, cached, a, b) = stored p down keys now later req accepted in
    let first = accepted_now p down keys now later req raw cached a b accepted in
    (
      first.0,
      first.1,
      first.2,
      used_up p refused (sign_key req.nonce) keys now' later' again (ap sign_key same)
          (consume_and_verify_join_sign p down keys now later req).0 first.3,
    )
