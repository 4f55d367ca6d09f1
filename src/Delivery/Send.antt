-- ===== src/Delivery/Send.antt =====
-- push/send.go: from a room message or a withdrawal to the publications, first the preparation and
-- then the fan-out.
use cc_im_server.Prelude.{
  String, Bool, true, false, ◌&&◌, Option, none, some, List, [], ◌++◌, map, ◌==◌, elem, ◌≡◌, ◌≢◌,
  refl, ap, ◌∙◌, arith, Option-cases, inl, inr,
}
use cc_im_server.Delivery.Store.{Store, Faults, RoomMessage, get_room_message_by_mid}
use cc_im_server.Delivery.Recipients.{is_wanted, recipients_of}
use cc_im_server.Delivery.Prepare.{
  Prepared, failed, prepared, members_of, commit_acks, notify_members, ack_of,
  prepare_room_message_notify, prepare_room_message_withdraw, parse_and_create_mentions,
  create_room_message_mentions,
}
use cc_im_server.Delivery.Acks.{prepare_lem, get_cache-KeepsTables, members_of-KeepsTables}
use cc_im_server.Delivery.Fanout.{
  node_for_user, Groups, Published, fanout_room_message_delivery, IsOrder, reaches, goes_to,
}
use cc_im_server.Delivery.Routing.{reaches-fanout}

-- notify: the messages of `Send` that concern one room message.
pub data Message : Type 0 where
  room_message_notify : (mid : String) → Message
  room_message_notify_include_uids : (mid : String) → (uid_list : List String) → Message
  room_message_notify_exclude_uids : (mid : String) → (exclude_uid_list : List String) → Message
  room_message_withdraw_notify : (mid : String) → Message

-- The fan-out of what a preparation returns. A withdrawal has the same fan-out with another type of
-- message.
unfoldable pub send_prepared :
    Faults → (Groups → List String) → String → Store × Prepared → Store × (List Published × Bool)
send_prepared f order mid (t, failed) = (t, ([], false))
send_prepared f order mid (t, prepared rec) = (t, fanout_room_message_delivery f t order mid rec)

unfoldable pub send :
    Faults → Store → (Groups → List String) → Message → Store × (List Published × Bool)
send f s order (Message.room_message_notify mid) =
    send_prepared f order mid (prepare_room_message_notify f s mid [] [])
send f s order (Message.room_message_notify_include_uids mid uid_list) =
    send_prepared f order mid (prepare_room_message_notify f s mid uid_list [])
send f s order (Message.room_message_notify_exclude_uids mid exclude_uid_list) =
    send_prepared f order mid (prepare_room_message_notify f s mid [] exclude_uid_list)
send f s order (Message.room_message_withdraw_notify mid) =
    send_prepared f order mid (prepare_room_message_withdraw f s mid)

-- The message, the include list and the exclude list that a notification is about.
abbrev pub mid_of : Message → String
mid_of (Message.room_message_notify mid) = mid
mid_of (Message.room_message_notify_include_uids mid uid_list) = mid
mid_of (Message.room_message_notify_exclude_uids mid exclude_uid_list) = mid
mid_of (Message.room_message_withdraw_notify mid) = mid

abbrev pub include_list : Message → List String
include_list (Message.room_message_notify_include_uids mid uid_list) = uid_list
include_list m = []

abbrev pub exclude_list : Message → List String
exclude_list (Message.room_message_notify_exclude_uids mid exclude_uid_list) = exclude_uid_list
exclude_list m = []

abbrev pub is_withdraw : Message → Bool
is_withdraw (Message.room_message_withdraw_notify mid) = true
is_withdraw m = false

send-notify :
    (f : Faults) (s : Store) (order : Groups → List String) (m : Message)
    → is_withdraw m ≡ false
    → send f s order m
      ≡ send_prepared f order
          (mid_of m)
          (prepare_room_message_notify f s (mid_of m) (include_list m) (exclude_list m))
unfolding send
send-notify f s order (Message.room_message_notify mid) h = refl
send-notify f s order (Message.room_message_notify_include_uids mid uid_list) h = refl
send-notify f s order (Message.room_message_notify_exclude_uids mid exclude_uid_list) h = refl
send-notify f s order (Message.room_message_withdraw_notify mid) h = cc

mentions-presence :
    (f : Faults) (s : Store) (rcm : RoomMessage)
    → (parse_and_create_mentions f s rcm).presence ≡ s.presence
unfolding parse_and_create_mentions create_room_message_mentions
mentions-presence f s rcm = ground (arith, get_cache-KeepsTables f.cache_get_mentions f s rcm.rid)

commit_acks-presence :
    (f : Faults) (s : Store) (rcm : RoomMessage) (rs : List String)
    → (commit_acks f s rcm rs).0.presence ≡ s.presence
unfolding commit_acks
commit_acks-presence f s rcm rs =
    let s' : Store = record s { acks = s.acks ++ map (ack_of f s rcm) rs } in
    ground (arith, mentions-presence f s' rcm)

members-presence :
    (f : Faults) (rcm : RoomMessage) (include exclude : List String)
    (m : Store × Option (List String))
    → (notify_members f rcm include exclude m).0.presence ≡ m.0.presence
unfolding notify_members
members-presence f rcm include exclude (t, none) = refl
members-presence f rcm include exclude (t, some ids) =
    ground (arith, commit_acks-presence f t rcm (recipients_of f t rcm ids include exclude))

prepare-presence :
    (f : Faults) (s : Store) (mid : String) (include exclude : List String)
    → (prepare_room_message_notify f s mid include exclude).0.presence ≡ s.presence
unfolding prepare_room_message_notify
prepare-presence f s mid include exclude = elim (Option-cases (get_room_message_by_mid s mid)) [
  | inl e ↦ ground (arith, e)
  | inr (rcm, e) ↦ ground (
    arith,
    e,
    members-presence f rcm include exclude (members_of f s rcm.rid),
    members_of-KeepsTables f s rcm.rid,
  )
]

goes_to-presence :
    (f : Faults) (s t : Store) (u n : String)
    → t.presence ≡ s.presence
    → goes_to f t u n ≡ goes_to f s u n
unfolding goes_to node_for_user
goes_to-presence f s t u n e = ground (arith, e)

wanted-filled :
    (f : Faults) (s : Store) (rcm : RoomMessage) (include exclude : List String) (u : String)
    → is_wanted f s rcm include exclude u ≡ true
    → (u == "") ≡ false
unfolding is_wanted
wanted-filled f s rcm include exclude u h = ground (arith, h)

is_prepared : (p : Prepared) → p ≢ failed → (us : List String) × (p ≡ prepared us)
is_prepared failed h = absurd (h refl)
is_prepared (prepared us) h = (us, refl)

-- A room message that is found and whose preparation does not fail, sent with no publication
-- failing: a user is reached on a node if and only if the user is a member of the room, is wanted,
-- and is present on that node.
pub send_lem :
    (f : Faults) (s : Store) (order : Groups → List String) (m : Message) (rcm : RoomMessage)
    (ids : List String)
    → is_withdraw m ≡ false
    → mid_of m ≢ ""
    → get_room_message_by_mid s (mid_of m) ≡ some rcm
    → (members_of f s rcm.rid).1 ≡ some ids
    → (prepare_room_message_notify f s (mid_of m) (include_list m) (exclude_list m)).1 ≢ failed
    → IsOrder order
    → ((n : String) → f.publish n ≡ false)
    → (n u : String)
    → reaches n u (send f s order m).1.0
      ≡ (elem u ids && is_wanted f s rcm (include_list m) (exclude_list m) u && goes_to f s u n)
unfolding send_prepared
send_lem f s order m rcm ids w named found members ok h pub_ok n u =
    let inc = include_list m in
    let exc = exclude_list m in
    let p = prepare_room_message_notify f s (mid_of m) inc exc in
    let (us, e) = is_prepared p.1 ok in
    let rows = prepare_lem f s (mid_of m) inc exc rcm named found ids us members e in
    let step : send f s order m ≡ (p.0, fanout_room_message_delivery f p.0 order (mid_of m) us) =
      send-notify f s order m w ∙ ap (λ o. send_prepared f order (mid_of m) (p.0, o)) e in
    ap (λ (r : Store × (List Published × Bool)). reaches n u r.1.0) step
    ∙ ground (
      arith,
      reaches-fanout f p.0 order (mid_of m) us h named pub_ok n u,
      rows.0 u,
      wanted-filled f s rcm inc exc u,
      goes_to-presence f s p.0 u n (prepare-presence f s (mid_of m) inc exc),
    )
