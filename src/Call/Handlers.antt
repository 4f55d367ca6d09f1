-- ===== src/Call/Handlers.antt =====
-- http/handler/media/stream.go: the handlers that start and accept media calls, and issue join signs.
use cc_im_server.Prelude.{
  String, ℕ, Bool, false, not, ◌&&◌, ◌||◌, Option, none, some, List, [], ◌∷◌, ◌==◌, eqb, ltb,
  if◌then◌else◌, filter, elem, is_empty, ◌+◌, ◌*◌, ◌/◌, ◌%◌, ◌^◌,
}
use cc_im_server.Prelude.Assoc.{insert}
use cc_im_server.Delivery.Store.{get_room_user_ids_cache}
use cc_im_server.Chat.Tables.{check_friend_relation}
use cc_im_server.Join.Desk.{Desk, JoinRoom, get_room_by_rid}
use cc_im_server.Media.Sign.{JoinRequest, sign_key}
use cc_im_server.Call.Tables.{
  PublisherMedia, valid, CallInvite, CallState, fresh_state, Calls, Caller, trim, join_notice,
  invite_notice, is_call_expired, get_invite, get_state, get_string,
}
use cc_im_server.Call.Sessions.{
  destroy_media_call_session_keys, notify, finalize_media_call_session_no_active,
}
use cc_im_server.Call.Members.{Answer, refused, unauthorized, failed, done}

-- The time in milliseconds some nanoseconds from now.
unfoldable pub after : Caller → ℕ → ℕ
after e ttl = (e.visitor.now * 1000000 + e.nanos + ttl) / 1000000

unfoldable pub make_sign : Caller → String → String → String → String → ℕ → JoinRequest
make_sign e uid sid rid role ttl = record {
  uid = uid;
  sid = sid;
  rid = rid;
  role = role;
  nonce = e.new_nonce;
  expire_at = after e ttl;
  sign = e.params.make_media_join_sign uid sid rid role e.new_nonce (after e ttl);
}

abbrev pub store_sign : Caller → JoinRequest → Calls → Calls
store_sign e sign c = record c {
  join_keys = insert (sign_key sign.nonce) (e.to_json sign) c.join_keys;
}

-- none where the sign cannot be stored.
unfoldable pub issue_join_sign_data :
    Caller → String → String → String → String → ℕ → Calls → Calls × Option JoinRequest
issue_join_sign_data e uid sid rid role ttl c =
    let sign = make_sign e uid sid rid role ttl in
    if e.faults.sign_set then (c, none) else (store_sign e sign c, some sign)

-- The sign test of a signed integer of 64 bits, which is given by its pattern of bits.
abbrev is_positive : ℕ → Bool
is_positive n = ltb 0 (n % 2 ^ 64) && ltb (n % 2 ^ 64) (2 ^ 63)

-- `ttl_seconds` times a second, a product of 64 bits.
abbrev pub wrapped_ttl : ℕ → ℕ
wrapped_ttl seconds = (seconds * 1000000000) % 2 ^ 64

unfoldable pub issue_join_sign : Caller → String → String → ℕ → Calls → Calls × Option JoinRequest
issue_join_sign e rid role seconds c =
    let r = trim e rid in
    let o = trim e role in
    let ttl = wrapped_ttl seconds in
    if e.sid == ""
      || r == ""
      || not (o == "publisher" || o == "subscriber")
      || not (is_positive seconds)
    then (c, none)
    else if ltb ttl 10000000000 || ltb 120000000000 ttl
    then (c, none)
    else issue_join_sign_data e e.visitor.uid e.sid r o ttl c

pub record CallRequest : Type 0 where
  pub rid : String
  pub call_type : String
  pub ttl : ℕ
  pub publisher_media : PublisherMedia

-- Who may be called in a room, and the scene; or why no one is.
pub data Invitees : Type 0 where
  not_allowed : (reason : String) → Invitees
  no_session : Invitees
  query_failed : Invitees
  invitees : (uids : List String) → (scene : String) → Invitees

private_scene : Caller → Desk → List String → Invitees
private_scene e d [] = not_allowed "two members only"
private_scene e d (other ∷ []) =
    if e.visitor.chat_faults.friends_query
    then query_failed
    else if check_friend_relation e.visitor.chat_faults d.chat e.visitor.uid other
    then invitees (other ∷ []) "friend"
    else not_allowed "not friends"
private_scene e d (other ∷ another ∷ uids) = not_allowed "two members only"

unfoldable pub scene_of : Caller → Desk → JoinRoom → List String → Invitees
unfolding private_scene
scene_of e d room uids =
    if is_empty uids
    then not_allowed "nobody to call"
    else if eqb room.type 1
    then invitees uids "room"
    else if eqb room.type 0
    then private_scene e d uids
    else not_allowed "bad room"

invitees_in : Caller → Desk → JoinRoom → Option (List String) → Invitees
invitees_in e d room none = not_allowed "no members"
invitees_in e d room (some uids) =
    let others = filter (λ u. not (u == "") && not (u == e.visitor.uid)) uids in
    if is_empty uids then not_allowed "no members" else scene_of e d room others

invitees_of : Caller → Desk → String → Option JoinRoom → Desk × Invitees
unfolding invitees_in
invitees_of e d rid none = (d, not_allowed "no room")
invitees_of e d rid (some room) =
    let f = e.visitor.member_faults in
    let (store, uids) = get_room_user_ids_cache f.cache_get f d.chat.members rid in
    let d' : Desk = record d { chat = record d.chat { members = store } } in
    (d', invitees_in e d' room uids)

-- The checks of CreateCallInvite up to the current call of the room. The member cache may be loaded.
unfoldable pub check_call : Caller → Desk → CallRequest → Desk × Invitees
unfolding invitees_of
check_call e d req =
    let rid = trim e req.rid in
    let call_type = trim e req.call_type in
    let result = invitees_of e d rid (get_room_by_rid e.visitor.faults d rid) in
    if e.sid == ""
    then (d, no_session)
    else if rid == ""
        || not (call_type == "audio" || call_type == "video")
        || not (is_positive req.ttl)
        || not (valid req.publisher_media)
    then (d, not_allowed "bad parameter")
    else result

make_room_for : Caller → String → String → CallState → Calls → Option CallInvite → Calls
make_room_for e rid old s c none = destroy_media_call_session_keys e old rid c
make_room_for e rid old s c (some i) = finalize_media_call_session_no_active e i s e.visitor.uid c

-- The end of the call that the room still names; none if someone is in it.
unfoldable pub clear_room : Caller → String → Calls → Option Calls
unfolding make_room_for
clear_room e rid c =
    let old = get_string e.faults.room_get c.room_active rid in
    let s = get_state e.faults.state_get c old in
    let free = some (make_room_for e rid old s c (get_invite e.faults.invite_get c old)) in
    if trim e old == ""
    then some c
    else if not (s.call_id == "") && not s.ended && not (is_empty s.active_uids)
    then none
    else free

unfoldable pub new_invite : Caller → CallRequest → List String → String → CallInvite
new_invite e req uids scene = record {
  call_id = e.new_call_id;
  rid = trim e req.rid;
  call_type = trim e req.call_type;
  call_scene = scene;
  inviter_uid = e.visitor.uid;
  invitee_uids = uids;
  create_time = e.visitor.now;
  expire_at = 0;
  publisher_media = req.publisher_media;
}

abbrev pub store_call : CallInvite → Calls → Calls
store_call i c = record c {
  invites = insert i.call_id i c.invites;
  states = insert i.call_id (fresh_state i) c.states;
  room_active = insert i.rid i.call_id c.room_active;
}

announce : Caller → CallInvite → Calls × Option JoinRequest → Calls × Answer
announce e i (c, none) = (c, failed)
announce e i (c, some sign) =
    (notify (invite_notice i) (notify (join_notice i e.visitor.uid e.quic_addr sign) c), done false)

unfoldable pub start_call : Caller → CallInvite → Option Calls → Calls → Calls × Answer
unfolding announce
start_call e i none c = (c, refused "busy")
start_call e i (some c') c =
    let started = announce e i (
      issue_join_sign_data e e.visitor.uid e.sid i.rid "publisher" 45000000000 (store_call i c')) in
    if e.faults.invite_set then (c', failed) else started

unfoldable pub create_with : Caller → CallRequest → Invitees → Calls → Calls × Answer
unfolding start_call
create_with e req (not_allowed reason) c = (c, refused reason)
create_with e req no_session c = (c, unauthorized "no session")
create_with e req query_failed c = (c, failed)
create_with e req (invitees uids scene) c =
    start_call e (new_invite e req uids scene) (clear_room e (trim e req.rid) c) c

unfoldable pub create_call_invite : Caller → Desk → CallRequest → Calls → Desk × Calls × Answer
unfolding create_with
create_call_invite e d req c =
    let (d', called) = check_call e d req in
    let (c', answer) = create_with e req called c in (d', c', answer)

accepted_with : Caller → CallInvite → Calls × Option JoinRequest → Calls × Answer
accepted_with e i (c, none) = (c, failed)
accepted_with e i (c, some sign) =
    (notify (join_notice i e.visitor.uid e.quic_addr sign) c, done false)

accept_in : Caller → String → Calls → Option CallInvite → Calls × Answer
unfolding accepted_with
accept_in e call_id c none = (c, refused "no invitation")
accept_in e call_id c (some i) =
    let s = get_state e.faults.state_get c call_id in
    let current = get_string e.faults.room_get c.room_active i.rid in
    let result =
      accepted_with e i
        (issue_join_sign_data e e.visitor.uid e.sid i.rid "subscriber" 45000000000 c) in
    if is_call_expired e i.expire_at
    then (c, refused "expired")
    else if not (elem e.visitor.uid i.invitee_uids)
    then (c, unauthorized "not invited")
    else if not (s.call_id == "") && s.ended
    then (c, refused "ended")
    else if not (trim e current == i.call_id)
    then (c, refused "not current")
    else result

unfoldable pub accept_call_invite : Caller → String → Calls → Calls × Answer
unfolding accept_in
accept_call_invite e call_id c =
    let result = accept_in e call_id c (get_invite e.faults.invite_get c call_id) in
    if e.sid == ""
    then (c, unauthorized "no session")
    else if trim e call_id == ""
    then (c, refused "bad parameter")
    else result
