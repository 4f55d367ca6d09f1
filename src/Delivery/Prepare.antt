-- ===== src/Delivery/Prepare.antt =====
-- notifycoord/room.go and withdraw.go: the acknowledgement and mention rows of a message.
use cc_im_server.Prelude.{
  String, Bool, true, false, not, ◌&&◌, ◌||◌, Option, none, some, List, [], ◌∷◌, ◌++◌, map, filter,
  ◌==◌, is_empty, if◌then◌else◌,
}
use cc_im_server.Prelude.Assoc.{lookup}
use cc_im_server.Delivery.Store.{
  Content, Store, Faults, RoomMessage, RoomMessageAck, RoomMessageWithdrawAck, RoomMessageMention,
  get_room_message_by_mid, get_room_message_by_mid_include_withdraw, get_room_user_ids_cache,
  set_room_user_ids_cache,
}
use cc_im_server.Delivery.Recipients.{recipients_of}

-- What a preparation returns: an error, or the users to send to. A nil list is the empty one.
pub data Prepared : Type 0 where
  failed : Prepared
  prepared : List String → Prepared

add_mention : Content → List String → List String
add_mention c mentions =
    if c.type == "user:at:user"
    then elim c.at_uid [
      | none ↦ mentions
      | some uid ↦ if uid == "" then mentions else mentions ++ uid ∷ []
    ]
    else mentions

-- The loop over the contents, which a mention of all breaks off.
parse_loop : List String → List Content → List String × Bool
parse_loop mentions [] = (mentions, false)
parse_loop mentions (c ∷ cs) =
    let rest = parse_loop (add_mention c mentions) cs in
    if c.type == "user:at:all" then (mentions, true) else rest

mention_row : RoomMessage → Bool → String → RoomMessageMention
mention_row rcm at_all uid = record {
  rid = rcm.rid;
  mid = rcm.mid;
  seq_id = rcm.seq_id;
  uid = uid;
  sender_uid = rcm.sender_uid;
  is_at_all = at_all;
  is_read = false;
}

insert_mentions : Faults → Store → List RoomMessageMention → Store
insert_mentions f s rows =
    if is_empty rows || f.mentions_create then s else record s { mentions = s.mentions ++ rows }

mentions_for : Faults → RoomMessage → Bool → Store × Option (List String) → Store
unfolding mention_row insert_mentions
mentions_for f rcm at_all (s, none) = s
mentions_for f rcm at_all (s, some uids) =
    insert_mentions f s
      (map (mention_row rcm at_all) (filter (λ uid. not (uid == rcm.sender_uid)) uids))

unfoldable pub create_room_message_mentions :
    Faults → Store → RoomMessage → List String → Bool → Store
unfolding mentions_for
create_room_message_mentions f s rcm mentions at_all =
    if is_empty mentions && not at_all
    then s
    else if at_all
    then mentions_for f rcm true (get_room_user_ids_cache f.cache_get_mentions f s rcm.rid)
    else mentions_for f rcm false (s, some mentions)

mentions_of : Faults → Store → RoomMessage → List String × Bool → Store
mentions_of f s rcm (mentions, at_all) =
    if at_all || not (is_empty mentions)
    then create_room_message_mentions f s rcm mentions at_all
    else s

unfoldable pub parse_and_create_mentions : Faults → Store → RoomMessage → Store
unfolding mentions_of parse_loop add_mention
parse_and_create_mentions f s rcm = mentions_of f s rcm (parse_loop [] rcm.contents)

is_offline : Faults → Store → String → Bool
is_offline f s uid =
    f.presence_get uid || elim (lookup uid s.presence) [ none ↦ true | some node ↦ false ]

unfoldable pub ack_of : Faults → Store → RoomMessage → String → RoomMessageAck
unfolding is_offline
ack_of f s rcm uid = record {
  rid = rcm.rid;
  uid = uid;
  mid = rcm.mid;
  seq_id = rcm.seq_id;
  state = 0;
  is_offline = is_offline f s uid;
}

refreshed : Store × Option (List String) → Store × Option (List String)
refreshed (s, none) = (s, some [])
refreshed (s, some ids) = (s, some ids)

members_from : Faults → String → Store × Option (List String) → Store × Option (List String)
unfolding refreshed
members_from f rid (s, none) = (s, none)
members_from f rid (s, some ids) =
    if is_empty ids
    then refreshed
        (get_room_user_ids_cache f.cache_get_again f (set_room_user_ids_cache f s rid) rid)
    else (s, some ids)

-- The members of the room, with one refresh of an empty cache entry; none for an error.
unfoldable pub members_of : Faults → Store → String → Store × Option (List String)
unfolding members_from
members_of f s rid = members_from f rid (get_room_user_ids_cache f.cache_get f s rid)

-- The acknowledgement rows, in one transaction, and the mentions after it.
unfoldable pub commit_acks : Faults → Store → RoomMessage → List String → Store × Prepared
commit_acks f s rcm recipients =
    if is_empty recipients
    then (s, prepared [])
    else if f.acks_create || f.acks_commit
    then (s, failed)
    else let s' : Store = record s { acks = s.acks ++ map (ack_of f s rcm) recipients } in
      (parse_and_create_mentions f s' rcm, prepared recipients)

unfoldable pub notify_members :
    Faults
    → RoomMessage
    → List String
    → List String
    → Store × Option (List String)
    → Store × Prepared
notify_members f rcm include exclude (s, none) = (s, failed)
notify_members f rcm include exclude (s, some ids) =
    if is_empty ids
    then (s, prepared [])
    else commit_acks f s rcm (recipients_of f s rcm ids include exclude)

notify_found : Faults → Store → List String → List String → Option RoomMessage → Store × Prepared
unfolding notify_members
notify_found f s include exclude none = (s, prepared [])
notify_found f s include exclude (some rcm) =
    notify_members f rcm include exclude (members_of f s rcm.rid)

unfoldable pub prepare_room_message_notify :
    Faults → Store → String → List String → List String → Store × Prepared
unfolding notify_found
prepare_room_message_notify f s mid include exclude =
    if mid == ""
    then (s, prepared [])
    else notify_found f s include exclude (get_room_message_by_mid s mid)

unfoldable pub withdraw_ack_of : RoomMessage → String → RoomMessageWithdrawAck
withdraw_ack_of rcm uid = record {
  rid = rcm.rid;
  uid = uid;
  mid = rcm.mid;
  seq_id = rcm.seq_id;
  state = 0;
}

unfoldable pub withdraw_members :
    Faults → RoomMessage → Store × Option (List String) → Store × Prepared
withdraw_members f rcm (s, none) = (s, failed)
withdraw_members f rcm (s, some ids) =
    if is_empty ids
    then (s, prepared [])
    else if f.acks_create || f.acks_commit
    then (s, failed)
    else (
      record s { withdraw_acks = s.withdraw_acks ++ map (withdraw_ack_of rcm) ids },
      prepared ids,
    )

withdraw_found : Faults → Store → Option RoomMessage → Store × Prepared
unfolding withdraw_members
withdraw_found f s none = (s, prepared [])
withdraw_found f s (some rcm) =
    withdraw_members f rcm (get_room_user_ids_cache f.cache_get f s rcm.rid)

unfoldable pub prepare_room_message_withdraw : Faults → Store → String → Store × Prepared
unfolding withdraw_found
prepare_room_message_withdraw f s mid =
    if mid == ""
    then (s, prepared [])
    else withdraw_found f s (get_room_message_by_mid_include_withdraw s mid)
