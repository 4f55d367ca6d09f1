-- ===== src/Delivery/Recipients.antt =====
-- notifycoord/room.go: who is to receive a message.
use cc_im_server.Prelude.{
  String, Bool, not, ◌&&◌, ◌||◌, List, [], ◌∷◌, ◌++◌, filter, ◌==◌, elem, elem-append, is_empty,
  if◌then◌else◌, ◌≡◌, refl, arith, ==_iff, Bool-cases, inl, inr,
}
use cc_im_server.Delivery.Store.{
  Store, Faults, RoomMessage, get_uids_who_blocked_room, get_uids_who_blocked_user_in_room,
}

-- The loop over the members. The include and exclude sets are lists without the empty text.
filter_loop : List String → List String → Bool → List String → List String
filter_loop inc exc use_include [] = []
filter_loop inc exc use_include (uid ∷ uids) =
    let rest = filter_loop inc exc use_include uids in
    if uid == ""
    then rest
    else if elem uid exc
    then rest
    else if use_include && not (elem uid inc)
    then rest
    else uid ∷ rest

-- The set made of a list: its texts that are not empty.
abbrev set_of : List String → List String
set_of = filter (λ uid. not (uid == ""))

unfoldable pub filter_room_recipients : List String → List String → List String → List String
unfolding filter_loop
filter_room_recipients room_user_ids include exclude =
    filter_loop (set_of include) (set_of exclude) (not (is_empty (set_of include))) room_user_ids

-- The second filter, by those who blocked the sender in this room.
unfoldable pub drop_blockers : List String → List String → List String
drop_blockers blockers [] = []
drop_blockers blockers (uid ∷ uids) =
    let rest = drop_blockers blockers uids in if elem uid blockers then rest else uid ∷ rest

-- The exclude list with the users who blocked the room, unless that query fails, and the sender.
unfoldable pub exclude_of : Faults → Store → RoomMessage → List String → List String
exclude_of f s rcm exclude =
    let exclude1 =
      if f.room_blocks_query then exclude else exclude ++ get_uids_who_blocked_room s rcm.rid in
    if rcm.sender_uid == "" then exclude1 else exclude1 ++ rcm.sender_uid ∷ []

-- From the members of the room to those whom the message goes to. A block query that fails is
-- passed over.
unfoldable pub recipients_of :
    Faults → Store → RoomMessage → List String → List String → List String → List String
recipients_of f s rcm room_user_ids include exclude =
    let recipients = filter_room_recipients room_user_ids include (exclude_of f s rcm exclude) in
    if f.user_blocks_query
    then recipients
    else drop_blockers (get_uids_who_blocked_user_in_room s rcm.rid rcm.sender_uid) recipients

-- Who is wanted, said for one user: not excluded, not the sender, in the include set if there is
-- one, and blocking neither the room nor the sender, as far as the block queries succeed.
unfoldable pub is_wanted : Faults → Store → RoomMessage → List String → List String → String → Bool
is_wanted f s rcm include exclude uid =
    not (uid == "")
    && not (elem uid exclude)
    && not (uid == rcm.sender_uid)
    && (is_empty (set_of include) || elem uid include)
    && (f.room_blocks_query || not (elem uid (get_uids_who_blocked_room s rcm.rid)))
    && (f.user_blocks_query
        || not (elem uid (get_uids_who_blocked_user_in_room s rcm.rid rcm.sender_uid)))

elem-set_of :
    (uid : String) (xs : List String) → elem uid (set_of xs) ≡ (elem uid xs && not (uid == ""))
elem-set_of uid [] = refl
elem-set_of uid (x ∷ xs) =
    ground (arith, elem-set_of uid xs, ==_iff x uid, ==_iff x "", ==_iff uid "")

elem-filter_loop :
    (inc exc : List String) (only : Bool) (uid : String) (xs : List String)
    → elem uid (filter_loop inc exc only xs)
      ≡ (elem uid xs && (not (uid == "") && not (elem uid exc) && (not only || elem uid inc)))
unfolding filter_loop
elem-filter_loop inc exc only uid [] = refl
elem-filter_loop inc exc only uid (x ∷ xs) = elim (Bool-cases (x == uid)) [
  | inl e ↦ ground (arith, e, (==_iff x uid).0 e, elem-filter_loop inc exc only uid xs)
  | inr e ↦ ground (arith, e, elem-filter_loop inc exc only uid xs)
]

elem-drop_blockers :
    (bs : List String) (uid : String) (xs : List String)
    → elem uid (drop_blockers bs xs) ≡ (elem uid xs && not (elem uid bs))
unfolding drop_blockers
elem-drop_blockers bs uid [] = refl
elem-drop_blockers bs uid (x ∷ xs) = elim (Bool-cases (x == uid)) [
  | inl e ↦ ground (arith, e, (==_iff x uid).0 e, elem-drop_blockers bs uid xs)
  | inr e ↦ ground (arith, e, elem-drop_blockers bs uid xs)
]

elem-filter_room_recipients :
    (uid : String) (ids include exclude : List String)
    → elem uid (filter_room_recipients ids include exclude) ≡ (
        elem uid ids
        && (not (uid == "")
            && not (elem uid exclude)
            && (is_empty (set_of include) || elem uid include)))
unfolding filter_room_recipients
elem-filter_room_recipients uid ids include exclude = ground (
  arith,
  elem-filter_loop (set_of include) (set_of exclude) (not (is_empty (set_of include))) uid ids,
  elem-set_of uid include,
  elem-set_of uid exclude,
)

elem-exclude_of :
    (f : Faults) (s : Store) (rcm : RoomMessage) (exclude : List String) (uid : String)
    → elem uid (exclude_of f s rcm exclude) ≡ (
        elem uid exclude
        || (not f.room_blocks_query && elem uid (get_uids_who_blocked_room s rcm.rid))
        || (not (rcm.sender_uid == "") && rcm.sender_uid == uid))
unfolding exclude_of
elem-exclude_of f s rcm exclude uid =
    let blocked = get_uids_who_blocked_room s rcm.rid in
    ground (
      arith,
      elem-append uid exclude blocked,
      elem-append uid exclude (rcm.sender_uid ∷ []),
      elem-append uid (exclude ++ blocked) (rcm.sender_uid ∷ []),
    )

-- The two filter loops and the include and exclude sets together compute the plain condition, for
-- every member, whichever block query fails.
pub elem-recipients_of :
    (f : Faults) (s : Store) (rcm : RoomMessage) (ids include exclude : List String) (uid : String)
    → elem uid (recipients_of f s rcm ids include exclude)
      ≡ (elem uid ids && is_wanted f s rcm include exclude uid)
unfolding recipients_of is_wanted
elem-recipients_of f s rcm ids include exclude uid =
    let exc = exclude_of f s rcm exclude in
    let kept = filter_room_recipients ids include exc in
    let blockers = get_uids_who_blocked_user_in_room s rcm.rid rcm.sender_uid in
    ground (
      arith,
      elem-exclude_of f s rcm exclude uid,
      elem-filter_room_recipients uid ids include exc,
      elem-drop_blockers blockers uid kept,
      ==_iff uid "",
      ==_iff rcm.sender_uid "",
      ==_iff uid rcm.sender_uid,
      ==_iff rcm.sender_uid uid,
    )
