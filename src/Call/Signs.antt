-- ===== src/Call/Signs.antt =====
-- http/handler/media/stream.go and media/streaming/server.go: the join signs that calls issue.
use cc_im_server.Prelude.{
  String, ℕ, true, false, not, ◌&&◌, ◌||◌, some, ◌==◌, ltb, elem, ◌+◌, ◌*◌, ◌/◌, ◌≤◌, ◌<◌, ◌≡◌,
  refl, arith, ==_iff, ==_refl, Bool-cases, inl, inr, ap, ◌∙◌, sym,
}
use cc_im_server.Prelude.Assoc.{lookup, insert, lookup-insert}
use cc_im_server.Media.Sign.{JoinRequest, ok, sign_key, consume_and_verify_join_sign}
use cc_im_server.Call.Tables.{CallInvite, Calls, Caller, trim, get_invite, get_state, get_string}
use cc_im_server.Call.Members.{done}
use cc_im_server.Call.Handlers.{
  after, make_sign, issue_join_sign_data, issue_join_sign, wrapped_ttl, accept_call_invite,
}

-- The media server accepts a sign that is stored, until it expires.
stored_verifies :
    (e : Caller) (c : Calls) (uid sid rid role : String) (ttl now later : ℕ)
    → e.params.parse (e.to_json (make_sign e uid sid rid role ttl))
      ≡ some (make_sign e uid sid rid role ttl)
    → (e.to_json (make_sign e uid sid rid role ttl) == "") ≡ false
    → (uid == "" || sid == "" || rid == "" || e.new_nonce == "") ≡ false
    → ((make_sign e uid sid rid role ttl).sign == "") ≡ false
    → ltb (after e ttl) now ≡ false
    → ltb (after e ttl) later ≡ false
    → (consume_and_verify_join_sign e.params false
        (insert (sign_key e.new_nonce) (e.to_json (make_sign e uid sid rid role ttl)) c.join_keys)
        now
        later
        (make_sign e uid sid rid role ttl)).1
      ≡ ok
unfolding consume_and_verify_join_sign make_sign
stored_verifies e c uid sid rid role ttl now later parses text full signed early still =
    let q = make_sign e uid sid rid role ttl in
    let key = sign_key e.new_nonce in
    let found : lookup key (insert key (e.to_json q) c.join_keys) ≡ some (e.to_json q) =
      ground (arith, lookup-insert key key (e.to_json q) c.join_keys, ==_refl key) in
    ground (
      arith,
      found,
      parses,
      text,
      full,
      signed,
      early,
      still,
      ==_refl uid,
      ==_refl sid,
      ==_refl rid,
      ==_refl q.sign,
    )

-- A member whose acceptance of a call that is found succeeds, where the read of the call's state does
-- not fail, was invited, and the call has not ended and is the current one of its room; and the media server, when Redis answers, accepts the sign that
-- is issued, as long as it has not expired, if its encoding is not empty and can be read back, and
-- neither an identifier nor the sign is empty.
pub accept_call_lem :
    (e : Caller) (call_id : String) (c : Calls) (i : CallInvite) (now later : ℕ)
    → e.params.parse (e.to_json (make_sign e e.visitor.uid e.sid i.rid "subscriber" 45000000000))
      ≡ some (make_sign e e.visitor.uid e.sid i.rid "subscriber" 45000000000)
    → (e.to_json (make_sign e e.visitor.uid e.sid i.rid "subscriber" 45000000000) == "") ≡ false
    → ((make_sign e e.visitor.uid e.sid i.rid "subscriber" 45000000000).sign == "") ≡ false
    → (e.visitor.uid == "" || e.sid == "" || i.rid == "" || e.new_nonce == "") ≡ false
    → ltb (after e 45000000000) now ≡ false
    → ltb (after e 45000000000) later ≡ false
    → e.faults.state_get ≡ false
    → get_invite e.faults.invite_get c call_id ≡ some i
    → (accept_call_invite e call_id c).1 ≡ done false
    → (elem e.visitor.uid i.invitee_uids ≡ true)
      × ((not ((get_state false c call_id).call_id == "") && (get_state false c call_id).ended)
          ≡ false)
      × (trim e (get_string e.faults.room_get c.room_active i.rid) ≡ i.call_id)
      × ((consume_and_verify_join_sign e.params false
            (accept_call_invite e call_id c).0.join_keys
            now
            later
            (make_sign e e.visitor.uid e.sid i.rid "subscriber" 45000000000)).1
          ≡ ok)
unfolding accept_call_invite issue_join_sign_data
accept_call_lem e call_id c i now later parses text signed full early still read found accepted =
    let q = make_sign e e.visitor.uid e.sid i.rid "subscriber" 45000000000 in
    let current = trim e (get_string e.faults.room_get c.room_active i.rid) in
    let keys : (accept_call_invite e call_id c).0.join_keys
        ≡ insert (sign_key q.nonce) (e.to_json q) c.join_keys =
      ground (arith, found, accepted) in
    let nonce : q.nonce ≡ e.new_nonce = unfold make_sign in refl in
    let verified =
      stored_verifies e c e.visitor.uid e.sid i.rid "subscriber" 45000000000 now later parses text
        full signed early still in
    (
      ground (arith, found, accepted),
      ground (arith, read, found, accepted),
      ground (arith, found, accepted, ==_iff current i.call_id),
      ap (λ ks. (consume_and_verify_join_sign e.params false ks now later q).1)
            (keys ∙ ap (λ n. insert (sign_key n) (e.to_json q) c.join_keys) nonce)
          ∙ verified,
    )

expires_within :
    (now nanos ttl : ℕ)
    → nanos < 1000000
    → 10000000000 ≤ ttl
    → ttl ≤ 120000000000
    → (now + 10000 ≤ (now * 1000000 + nanos + ttl) / 1000000)
      × ((now * 1000000 + nanos + ttl) / 1000000 ≤ now + 120000)
expires_within now nanos ttl small low high = (omega arith, omega arith)

-- A sign that a request gets is for its own user and the room it names, and expires between ten
-- seconds and two minutes later, also where the product of its lifetime exceeds 64 bits. The clock
-- has fewer than a million nanoseconds above its milliseconds.
pub issue_lem :
    (e : Caller) (rid role : String) (seconds : ℕ) (c : Calls) (q : JoinRequest)
    → e.nanos < 1000000
    → (issue_join_sign e rid role seconds c).1 ≡ some q
    → (q.uid ≡ e.visitor.uid)
      × (q.rid ≡ trim e rid)
      × (e.visitor.now + 10000 ≤ q.expire_at)
      × (q.expire_at ≤ e.visitor.now + 120000)
unfolding issue_join_sign issue_join_sign_data make_sign after
issue_lem e rid role seconds c q small issued =
    let ttl = wrapped_ttl seconds in
    elim (Bool-cases (ltb ttl 10000000000 || ltb 120000000000 ttl)) [
      | inl out ↦ absurd (ground (arith, out, issued))
      | inr within ↦
          let bounds =
            expires_within e.visitor.now e.nanos ttl small (ground (arith, within))
              (ground (arith, within)) in
          let is_q : make_sign e e.visitor.uid e.sid (trim e rid) (trim e role) ttl ≡ q =
            ground (arith, within, issued) in
          (
            sym (ap (λ x. x.uid) is_q),
            sym (ap (λ x. x.rid) is_q),
            ground (arith, bounds.0, ap (λ x. x.expire_at) is_q),
            ground (arith, bounds.1, ap (λ x. x.expire_at) is_q),
          )
    ]
