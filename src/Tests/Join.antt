-- ===== src/Tests/Join.antt =====
-- Concrete runs of the theorems on joining a room.
use cc_im_server.Prelude.{
  String, true, false, some, none, [], ◌∷◌, ◌≡◌, refl, ◌==◌, eqb, ltb, inl, ap, ◌&&◌, ◌+◌, ◌⊎◌,
  List, map, if◌then◌else◌,
}
use cc_im_server.Prelude.Assoc.{lookup, insert}
use cc_im_server.Delivery.Store.{get_room_user_ids_cache}
use cc_im_server.Mute.State.{MuteState, MuteFaults, can_user_mute_in_room}
use cc_im_server.Mute.State
use cc_im_server.Chat.Tables.{Chat, get_max_room_seq_id}
use cc_im_server.Chat.Sequence.{get_room_seq_id}
use cc_im_server.Join.Desk.{
  Desk, JoinRoom, RoomJoinRequest, Visitor, JoinFaults, get_room_by_rid,
  get_room_join_request_by_rjr_id, find_request, has_room_user,
}
use cc_im_server.Join.Enter.{
  join_room_committed_after_validation, join_tables, join_row, after_join,
  upsert_active_room_user_tx, upsert_active_user_room_session_tx,
}
use cc_im_server.Join.Requests.{refused, failed, joined}
use cc_im_server.Join.Handling.{
  go, accept_checks, accept_checked, with_handled, update_room_join_request_state,
  room_join_request_accept,
}
use cc_im_server.Join.Entered.{is_member}
use cc_im_server.Join.Attempts.{Attempt, attempts}
use cc_im_server.Join.Counted.{member_count_of}
use cc_im_server.Join.Committed.{is_handled}
use cc_im_server.Join.Handled.{accept_lem, handled_once, accepted_not_joined}

abbrev owner : State.RoomUser
owner = record {
  rid = "r";
  uid = "ann";
  role = 2;
  mute_until = 0;
  mute_operator_uid = "";
  last_speak_time = 0;
  last_speak_ip = "";
  delete_time = 0;
}

abbrev pub chat : Chat
chat = record {
  rows = [];
  contents = [];
  rooms = [];
  friends = [];
  members = record {
    messages = [];
    room_users = record { rid = "r"; uid = "ann"; delete_time = 0 } ∷ [];
    room_blocks = [];
    user_blocks = [];
    acks = [];
    withdraw_acks = [];
    mentions = [];
    user_ids_cache = ("r", "ann" ∷ []) ∷ [];
    presence = [];
  };
  mute = record {
    users = owner ∷ [];
    configs = [];
    versions = λ rid. none;
    counts = λ rid v uid w. none;
  };
  seqs = [];
  file_updates = [];
  calls = [];
}

abbrev pub room : JoinRoom
room = record {
  rid = "r";
  create_uid = "ann";
  state = 1;
  type = 1;
  password = "";
  member_count = 1;
  join_approval_required = true;
  join_question_enabled = false;
  join_question_auto_approve = false;
  join_question_answer = "";
  delete_time = 0;
}

abbrev request : RoomJoinRequest
request = record {
  rjr_id = "q";
  rid = "r";
  applicant_uid = "bob";
  message = "";
  answer = "";
  state = 0;
  handler_uid = "";
  expires_at = 9000;
  processed_at = 0;
  delete_time = 0;
}

abbrev pub desk : Desk
desk = record {
  chat = chat;
  rooms = room ∷ [];
  requests = request ∷ [];
  sessions = [];
  invites = [];
  users = "bob" ∷ [];
}

abbrev pub healthy : JoinFaults
healthy = record {
  request_query = false;
  room_query = false;
  invite_query = false;
  user_query = false;
  request_save = false;
  state_update = false;
  notification_update = false;
  handle_commit = false;
  join_transaction = false;
  member_update = false;
}

abbrev pub ann : Visitor
ann = record {
  uid = "ann";
  now = 5000;
  ip = "";
  new_mid = "m1";
  new_client_mid = "c1";
  new_cid = "x1";
  new_rsid = "s1";
  new_rjr_id = "q2";
  trim_space = λ t. t;
  rune_count = λ t. 0;
  password_matches = λ a b. true;
  faults = healthy;
  chat_faults = record {
    existing_query = false;
    room_query = false;
    friends_query = false;
    seq_get = false;
    max_query = false;
    seq_init = false;
    seq_incr = false;
    tx_query = false;
    row_create = false;
    contents_create = false;
    commit = false;
    withdraw_update = false;
    contents_delete = false;
    cached_get = false;
    content_query = false;
    content_update = false;
    cached_delete = false;
  };
  mute_faults = record {
    user_query = false;
    config_query = false;
    version_get = false;
    count_get = false;
    count_incr = false;
    version_incr = false;
    update = false;
    commit = false;
  };
  member_faults = record {
    cache_get = false;
    cache_get_again = false;
    cache_get_mentions = false;
    cache_set = false;
    users_query = false;
    room_blocks_query = false;
    user_blocks_query = false;
    acks_create = false;
    acks_commit = false;
    mentions_create = false;
    presence_get = λ uid. false;
    publish = λ node. false;
  };
}

accepted_bob : (room_join_request_accept ann desk "q").1 ≡ joined "s1"
unfolding room_join_request_accept accept_checks accept_checked get_room_join_request_by_rjr_id
    find_request has_room_user get_room_by_rid get_room_user_ids_cache can_user_mute_in_room
    update_room_join_request_state join_room_committed_after_validation get_room_seq_id
    get_max_room_seq_id join_row join_tables upsert_active_user_room_session_tx lookup insert ◌==◌
    State.get_room_user
accepted_bob = refl

accept_lem_example :
    let d' = (room_join_request_accept ann desk "q").0 in
    (q : RoomJoinRequest) × (r : JoinRoom) × (get_room_join_request_by_rjr_id ann.faults desk "q"
      ≡ some q)
    × (eqb q.state 0 ≡ true)
    × ((ltb 0 q.expires_at && ltb q.expires_at ann.now) ≡ false)
    × (u : State.RoomUser) × (State.get_room_user ann.mute_faults desk.chat.mute q.rid ann.uid
        ≡ some u)
    × ((u.role ≡ 1) ⊎ (u.role ≡ 2))
    × (get_room_by_rid ann.faults desk q.rid ≡ some r)
    × (is_member r.rid q.applicant_uid d'.chat.members.room_users ≡ true)
    × ((rid : String)
        → member_count_of ann d' rid
          ≡ (if rid == q.rid then some (r.member_count + 1) else member_count_of ann desk rid))
    × (is_handled "q" d'.requests ≡ true)
accept_lem_example = accept_lem ann desk "q" "s1" accepted_bob

abbrev accepted_desk : Desk
accepted_desk = (room_join_request_accept ann desk "q").0

abbrev again : List Attempt
again = Attempt.accepts ann ∷ Attempt.rejects ann ∷ []

handled_once_example :
    (is_handled "q" accepted_desk.requests ≡ true)
    × ((reasons : List String) × (attempts "q" accepted_desk again
          ≡ (accepted_desk, map refused reasons)))
handled_once_example =
    handled_once ann desk "q" again accepted_desk "s1"
      (inl (ap (λ r. (accepted_desk, r)) accepted_bob))

abbrev unlucky : Visitor
unlucky = record ann { faults = record healthy { join_transaction = true } }

bob_kept_out :
    (join_room_committed_after_validation unlucky (with_handled unlucky desk "q" 2) "bob" room).1
    ≡ none
unfolding join_room_committed_after_validation get_room_seq_id get_max_room_seq_id lookup
bob_kept_out = refl

accepted_not_joined_example :
    let (d', reply) = accept_checked unlucky desk "q" (go request room) in
    (reply ≡ failed)
    × (d'.chat.members.room_users ≡ desk.chat.members.room_users)
    × (d'.rooms ≡ desk.rooms)
    × (is_handled "q" d'.requests ≡ true)
    × ((reasons : List String) × (attempts "q" d' again ≡ (d', map refused reasons)))
accepted_not_joined_example =
    accepted_not_joined unlucky again desk "q" request room refl bob_kept_out

-- Another handler of the same request, in the same millisecond.
abbrev eve : Visitor
eve = record ann { new_mid = "m2"; new_client_mid = "c2"; new_cid = "x2"; new_rsid = "s2" }

abbrev first_desk : Desk
first_desk = (accept_checked ann desk "q" (go request room)).0

first_joined : (accept_checked ann desk "q" (go request room)).1 ≡ joined "s1"
unfolding accept_checked join_room_committed_after_validation get_room_seq_id get_max_room_seq_id
    join_row join_tables upsert_active_user_room_session_tx lookup insert ◌==◌
first_joined = refl

second_joined : (accept_checked eve first_desk "q" (go request room)).1 ≡ joined "s1"
unfolding accept_checked join_room_committed_after_validation get_room_seq_id get_max_room_seq_id
    join_row join_tables after_join upsert_active_room_user_tx upsert_active_user_room_session_tx
    lookup insert ◌==◌
second_joined = refl

abbrev second_desk : Desk
second_desk = (accept_checked eve first_desk "q" (go request room)).0
