-- ===== src/Delivery/Node.antt =====
-- quic/server/event.go: what a node does with a deliver message on its channel.
use cc_im_server.Prelude.{
  String, ℕ, Bool, true, false, not, ◌&&◌, Option, none, some, List, [], ◌∷◌, ◌++◌, map, filter,
  ◌==◌, elem, count, count-of_elem, if◌then◌else◌, ◌≡◌, ◌≢◌, refl, ap, ◌∙◌, arith, ==_iff, ==_of_ne,
  Bool-cases, inl, inr,
}
use cc_im_server.Connection.Registry.{Client, ClientRegistry, get}
use cc_im_server.Delivery.Store.{
  Store, RoomMessage, get_room_message_by_mid, get_room_message_by_mid_include_withdraw,
}

-- Which sends and which task publications fail, and whether there is a queue client.
pub record NodeFaults : Type 0 where
  pub send : Client → Bool
  pub publish_task : String → Bool
  pub queue_client : Bool

-- A message written to the stream of a client.
pub record Sent : Type 0 where
  pub uid : String
  pub client : Client
  pub mid : String

-- queue/tasks.go: the payload of an ACK check, which is due after the ACK timeout.
pub record AckCheck : Type 0 where
  pub rid : String
  pub uid : String
  pub mid : String
  pub seq_id : ℕ
  pub retry_count : ℕ

pub record Effects : Type 0 where
  pub sent : List Sent
  pub checks : List AckCheck

abbrev pub no_effects : Effects
no_effects = record { sent = []; checks = [] }

-- The set of the targets that are not empty.
seen_of : List String → List String
seen_of [] = []
seen_of (u ∷ us) =
    let rest = seen_of us in if u == "" then rest else if elem u rest then rest else u ∷ rest

ack_check_of : RoomMessage → String → AckCheck
ack_check_of rcm uid = record {
  rid = rcm.rid;
  uid = uid;
  mid = rcm.mid;
  seq_id = rcm.seq_id;
  retry_count = 0;
}

check_for : NodeFaults → RoomMessage → String → List AckCheck
check_for f rcm uid =
    if f.queue_client && not (f.publish_task uid) then ack_check_of rcm uid ∷ [] else []

-- The body of the loop for one user and the client found for it.
deliver_to : NodeFaults → RoomMessage → String → Option Client → Effects → Effects
deliver_to f rcm uid none rest = rest
deliver_to f rcm uid (some c) rest = if f.send c then rest else record {
  sent = record { uid = uid; client = c; mid = rcm.mid } ∷ rest.sent;
  checks = check_for f rcm uid ++ rest.checks;
}

unfoldable pub deliver_loop : NodeFaults → ClientRegistry → RoomMessage → List String → Effects
unfolding deliver_to check_for ack_check_of
deliver_loop f r rcm [] = no_effects
deliver_loop f r rcm (uid ∷ uids) = deliver_to f rcm uid (get r uid) (deliver_loop f r rcm uids)

deliver_found : NodeFaults → ClientRegistry → List String → Option RoomMessage → Effects
deliver_found f r uids none = no_effects
deliver_found f r uids (some rcm) = deliver_loop f r rcm uids

-- `order` is the order in which Go happens to range over the set of targets.
unfoldable pub handle_room_message_deliver :
    NodeFaults
    → Store
    → ClientRegistry
    → (List String → List String)
    → String
    → List String
    → Effects
unfolding deliver_found seen_of
handle_room_message_deliver f s r order mid target_uids =
    if mid == ""
    then no_effects
    else deliver_found f r (order (seen_of target_uids)) (get_room_message_by_mid s mid)

-- A withdrawal goes to the targets as they are listed, the empty text left out.
unfoldable pub handle_room_message_withdraw_deliver :
    NodeFaults → Store → ClientRegistry → String → List String → Effects
unfolding deliver_found
handle_room_message_withdraw_deliver f s r mid target_uids =
    if mid == ""
    then no_effects
    else deliver_found f r (filter (λ u. not (u == "")) target_uids)
        (get_room_message_by_mid_include_withdraw s mid)

-- Whether a message can be written to the user: a client is registered and its stream takes it.
unfoldable pub can_send : NodeFaults → ClientRegistry → String → Bool
can_send f r uid = elim (get r uid) [ none ↦ false | some c ↦ not (f.send c) ]

abbrev pub sent_uids : Effects → List String
sent_uids e = map (λ x. x.uid) e.sent

abbrev pub check_uids : Effects → List String
check_uids e = map (λ x. x.uid) e.checks

-- An order of a set has each of its elements as often as the set.
abbrev pub IsSetOrder : (List String → List String) → Type 0
IsSetOrder order = (us : List String) (u : String) → count u (order us) ≡ count u us

elem-of_count : (u : String) (us : List String) → count u us ≡ 0 → elem u us ≡ false
elem-of_count u [] h = refl
elem-of_count u (x ∷ us) h = ground (arith, h, elem-of_count u us)

count-seen_of :
    (u : String) (us : List String)
    → count u (seen_of us) ≡ (if elem u us && not (u == "") then 1 else 0)
unfolding seen_of
count-seen_of u [] = refl
count-seen_of u (x ∷ us) = elim (Bool-cases (x == u)) [
  | inl e ↦ ground (
    arith,
    e,
    (==_iff x u).0 e,
    count-seen_of u us,
    count-of_elem u (seen_of us),
    elem-of_count u (seen_of us),
  )
  | inr e ↦ ground (arith, e, count-seen_of u us)
]

module _ (f : NodeFaults) (s : Store) (r : ClientRegistry) where
  count-deliver_loop :
      (rcm : RoomMessage) (u : String) (us : List String)
      → count u (sent_uids (deliver_loop f r rcm us)) ≡ (if can_send f r u then count u us else 0)
  unfolding deliver_loop can_send
  count-deliver_loop rcm u [] = ground arith
  count-deliver_loop rcm u (x ∷ us) = elim (Bool-cases (x == u)) [
    | inl e ↦ ground (arith, e, (==_iff x u).0 e, count-deliver_loop rcm u us)
    | inr e ↦ ground (arith, e, count-deliver_loop rcm u us)
  ]

  -- With a queue client that takes every task, the checks are for the users sent to, in order.
  checks-deliver_loop :
      (rcm : RoomMessage)
      → f.queue_client ≡ true
      → ((uid : String) → f.publish_task uid ≡ false)
      → (us : List String)
      → check_uids (deliver_loop f r rcm us) ≡ sent_uids (deliver_loop f r rcm us)
  unfolding deliver_loop
  checks-deliver_loop rcm q ok [] = refl
  checks-deliver_loop rcm q ok (x ∷ us) = ground (arith, q, ok x, checks-deliver_loop rcm q ok us)

  -- A node that gets a deliver message writes the message exactly once to each target whose client
  -- can be written to, however often the target is listed and in whatever order Go ranges over the
  -- set, and to nobody else.
  pub deliver_lem :
      (order : List String → List String) (mid : String) (targets : List String) (rcm : RoomMessage)
      → IsSetOrder order
      → mid ≢ ""
      → get_room_message_by_mid s mid ≡ some rcm
      → (u : String)
      → count u (sent_uids (handle_room_message_deliver f s r order mid targets))
        ≡ (if elem u targets && not (u == "") && can_send f r u then 1 else 0)
  unfolding handle_room_message_deliver
  deliver_lem order mid targets rcm h named found u =
      let us = seen_of targets in
      let step : handle_room_message_deliver f s r order mid targets
          ≡ deliver_loop f r rcm (order us) =
        ground (arith, found, ==_of_ne mid "" named) in
      ap (λ e. count u (sent_uids e)) step
      ∙ ground (arith, count-deliver_loop rcm u (order us), h us u, count-seen_of u targets)

  deliver_found-checks :
      (q : f.queue_client ≡ true) (ok : (uid : String) → f.publish_task uid ≡ false)
      (us : List String) (o : Option RoomMessage)
      → check_uids (deliver_found f r us o) ≡ sent_uids (deliver_found f r us o)
  unfolding deliver_found
  deliver_found-checks q ok us none = refl
  deliver_found-checks q ok us (some rcm) = checks-deliver_loop rcm q ok us

  -- When the node has a queue client that takes every task, a deliver message and a withdrawal
  -- schedule an ACK check for exactly the users written to, in the order of the writes.
  pub deliver_checked :
      (order : List String → List String) (mid : String) (targets : List String)
      → f.queue_client ≡ true
      → ((uid : String) → f.publish_task uid ≡ false)
      → (check_uids (handle_room_message_deliver f s r order mid targets)
          ≡ sent_uids (handle_room_message_deliver f s r order mid targets))
        × (check_uids (handle_room_message_withdraw_deliver f s r mid targets)
            ≡ sent_uids (handle_room_message_withdraw_deliver f s r mid targets))
  unfolding handle_room_message_deliver handle_room_message_withdraw_deliver
  deliver_checked order mid targets q ok =
      let sent = get_room_message_by_mid s mid in
      let withdrawn = get_room_message_by_mid_include_withdraw s mid in
      let filled = filter (λ u. not (u == "")) targets in
      (
        ground (arith, deliver_found-checks q ok (order (seen_of targets)) sent),
        ground (arith, deliver_found-checks q ok filled withdrawn),
      )
