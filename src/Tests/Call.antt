-- ===== src/Tests/Call.antt =====
-- Concrete runs of the theorems on media calls.
use cc_im_server.Prelude.{
  true, false, some, none, [], ◌∷◌, ◌≡◌, ◌≤◌, ◌+◌, refl, ◌⊎◌, arith, ◌==◌, not, ◌&&◌, eqb, elem,
  is_empty, suc, ◌||◌, leb, ltb, length,
}
use cc_im_server.Prelude.Assoc.{lookup}
use cc_im_server.Delivery.Store.{get_room_user_ids_cache}
use cc_im_server.Join.Desk.{Desk, get_room_by_rid}
use cc_im_server.Media.Sign.{JoinRequest, ok, consume_and_verify_join_sign}
use cc_im_server.Media.Hub.{MediaClient, new_server, client_of}
use cc_im_server.Media.Rooms.{new_server-IsSeparate}
use cc_im_server.Call.Gone.{on_client_gone, client_gone_lem}
use cc_im_server.Call.Tables.{
  remove_uid, CallInvite, Calls, Caller, PublisherMedia, trim, get_invite, get_state, state_of,
  get_string, is_call_expired, allow_call_member, append_unique_uid, fresh_state, valid, CallState,
}
use cc_im_server.Call.Sessions.{on_media_room_empty}
use cc_im_server.Call.Members.{
  done, mark_call_member_joined, leave_call, reject_call_invite, hangup_call,
}
use cc_im_server.Call.Handlers.{
  CallRequest, after, make_sign, issue_join_sign, issue_join_sign_data, accept_call_invite,
  create_call_invite, check_call, scene_of, clear_room,
}
use cc_im_server.Call.Intact.{times, IsStored}
use cc_im_server.Call.Reach.{
  Reach, start, next, no_calls, creates, joins, hangs_up, is_running, recorded_once,
}
use cc_im_server.Call.Signs.{accept_call_lem, issue_lem}
use cc_im_server.Call.Over.{IsOver, IsTrimmed}
use cc_im_server.Call.Ended.{IsFound, hangup_lem, reject_lem}
use cc_im_server.Call.Left.{joined_left_lem}
use cc_im_server.Call.Rooms.{created_lem}
use cc_im_server.Call.Emptied.{IsFreed, room_empty_lem}
use cc_im_server.Tests.Join.{desk, ann}

abbrev media : PublisherMedia
media = record { width = 640; height = 480; fps = 30; bitrate = 800000 }

abbrev sign : JoinRequest
sign = record {
  uid = "bob";
  sid = "s";
  rid = "r";
  role = "subscriber";
  nonce = "n";
  expire_at = 50000;
  sign = "sig";
}

abbrev caller : Caller
caller = record {
  visitor = record ann { now = 5000 };
  sid = "s";
  nanos = 0;
  new_call_id = "k2";
  new_nonce = "n";
  quic_addr = "q:1";
  params = record {
    make_media_join_sign = λ uid sid rid role nonce expire_at. "sig";
    parse = λ raw. some sign;
  };
  to_json = λ q. "{}";
  faults = record {
    invite_get = false;
    state_get = false;
    room_get = false;
    user_get = false;
    sync_invite_get = false;
    sync_state_get = false;
    invite_set = false;
    sign_set = false;
    record_create = false;
  };
}

abbrev bob : Caller
bob = record caller { visitor = record caller.visitor { uid = "bob" } }

abbrev invite : CallInvite
invite = record {
  call_id = "k";
  rid = "r";
  call_type = "audio";
  call_scene = "room";
  inviter_uid = "ann";
  invitee_uids = "bob" ∷ [];
  create_time = 1000;
  expire_at = 0;
  publisher_media = media;
}

-- A call that no one has joined yet.
abbrev calls : Calls
calls = record no_calls {
  invites = ("k", invite) ∷ [];
  states = ("k", fresh_state invite) ∷ [];
  room_active = ("r", "k") ∷ [];
}

k-IsTrimmed : IsTrimmed caller "k"
unfolding ◌==◌
k-IsTrimmed = (refl, refl)

r-IsTrimmed : IsTrimmed caller "r"
unfolding ◌==◌
r-IsTrimmed = (refl, refl)

bob-IsTrimmed : IsTrimmed caller "bob"
unfolding ◌==◌
bob-IsTrimmed = (refl, refl)

calls-IsStored : IsStored calls "k" invite (fresh_state invite)
unfolding lookup ◌==◌
calls-IsStored = (refl, refl, refl, refl)

calls-IsFound : IsFound caller calls "k" invite (fresh_state invite)
unfolding lookup ◌==◌ get_invite state_of get_state
calls-IsFound = ((refl, refl, refl, refl), refl, refl)

bob-IsFound : IsFound bob calls "k" invite (fresh_state invite)
unfolding lookup ◌==◌ get_invite state_of get_state
bob-IsFound = ((refl, refl, refl, refl), refl, refl)

member : allow_call_member invite "bob" ≡ true
unfolding allow_call_member ◌==◌
member = refl

inviter : allow_call_member invite "ann" ≡ true
unfolding allow_call_member ◌==◌
inviter = refl

by_inviter : (invite.call_scene == "friend" || caller.visitor.uid == invite.inviter_uid) ≡ true
unfolding ◌==◌
by_inviter = refl

hangup_lem_example :
    ((hangup_call caller "k" calls).1 ≡ done true)
    × IsOver "k" "r" "bob" (hangup_call caller "k" calls).0
    × ((mark_call_member_joined bob "k" (hangup_call caller "k" calls).0).0
        ≡ (hangup_call caller "k" calls).0)
    × ((accept_call_invite bob "k" (hangup_call caller "k" calls).0).0
        ≡ (hangup_call caller "k" calls).0)
hangup_lem_example =
    hangup_lem caller bob "k" "bob" invite (fresh_state invite) calls k-IsTrimmed r-IsTrimmed
      bob-IsTrimmed calls-IsFound refl inviter by_inviter member

never_late : is_call_expired bob invite.expire_at ≡ false
unfolding is_call_expired
never_late = refl

invited : elem "bob" invite.invitee_uids ≡ true
unfolding ◌==◌
invited = refl

last_one :
    leb
      (length invite.invitee_uids)
      (length (append_unique_uid (fresh_state invite).rejected_uids "bob"))
    ≡ true
unfolding append_unique_uid ◌==◌
last_one = refl

reject_lem_example :
    ((reject_call_invite bob "k" calls).1 ≡ done true)
    × IsOver "k" "r" "bob" (reject_call_invite bob "k" calls).0
reject_lem_example =
    reject_lem bob "k" "bob" invite (fresh_state invite) calls k-IsTrimmed r-IsTrimmed bob-IsTrimmed
      bob-IsFound never_late refl invited last_one member

not_in : elem "bob" (fresh_state invite).active_uids ≡ false
not_in = refl

joined_left_lem_example :
    ((is_empty (fresh_state invite).active_uids ≡ true)
      × IsOver "k" "r" "bob" (leave_call bob "k" (mark_call_member_joined bob "k" calls).0).0)
    ⊎ ((is_empty (fresh_state invite).active_uids ≡ false)
        × (lookup "k" (leave_call bob "k" (mark_call_member_joined bob "k" calls).0).0.states
            ≡ some (fresh_state invite))
        × (lookup "bob" (leave_call bob "k" (mark_call_member_joined bob "k" calls).0).0.user_active
            ≡ none))
joined_left_lem_example =
    joined_left_lem bob "k" invite (fresh_state invite) calls k-IsTrimmed r-IsTrimmed bob-IsTrimmed
      refl refl bob-IsFound never_late refl member not_in

bob_sign : make_sign bob "bob" "s" "r" "subscriber" 45000000000 ≡ sign
unfolding make_sign after
bob_sign = refl

sign_parses :
    bob.params.parse (bob.to_json (make_sign bob "bob" "s" "r" "subscriber" 45000000000))
    ≡ some (make_sign bob "bob" "s" "r" "subscriber" 45000000000)
unfolding make_sign after
sign_parses = refl

sign_text : (bob.to_json (make_sign bob "bob" "s" "r" "subscriber" 45000000000) == "") ≡ false
unfolding ◌==◌
sign_text = refl

sign_full : ((make_sign bob "bob" "s" "r" "subscriber" 45000000000).sign == "") ≡ false
unfolding ◌==◌ make_sign
sign_full = refl

all_named : ("bob" == "" || "s" == "" || "r" == "" || "n" == "") ≡ false
unfolding ◌==◌
all_named = refl

in_time : ltb (after bob 45000000000) 6000 ≡ false
unfolding after
in_time = refl

bob_found : get_invite false calls "k" ≡ some invite
unfolding get_invite lookup ◌==◌
bob_found = refl

bob_accepts : (accept_call_invite bob "k" calls).1 ≡ done false
unfolding accept_call_invite issue_join_sign_data get_invite get_state get_string is_call_expired
    lookup ◌==◌
bob_accepts = refl

accept_call_lem_example :
    (elem "bob" invite.invitee_uids ≡ true)
    × ((not ((get_state false calls "k").call_id == "") && (get_state false calls "k").ended)
        ≡ false)
    × (trim bob (get_string false calls.room_active "r") ≡ "k")
    × ((consume_and_verify_join_sign bob.params false
          (accept_call_invite bob "k" calls).0.join_keys
          6000
          6000
          (make_sign bob "bob" "s" "r" "subscriber" 45000000000)).1
        ≡ ok)
accept_call_lem_example =
    accept_call_lem bob "k" calls invite 6000 6000 sign_parses sign_text sign_full all_named in_time
      in_time refl bob_found bob_accepts

abbrev own_sign : JoinRequest
own_sign = make_sign caller "ann" "s" "r" "publisher" 30000000000

issued : (issue_join_sign caller "r" "publisher" 30 calls).1 ≡ some own_sign
unfolding issue_join_sign issue_join_sign_data ◌==◌
issued = refl

issue_lem_example :
    (own_sign.uid ≡ "ann")
    × (own_sign.rid ≡ "r")
    × (5000 + 10000 ≤ own_sign.expire_at)
    × (own_sign.expire_at ≤ 5000 + 120000)
issue_lem_example = issue_lem caller "r" "publisher" 30 calls own_sign (omega arith) issued

abbrev asked : CallRequest
asked = record { rid = "r"; call_type = "audio"; ttl = 30; publisher_media = media }

-- The room of ann, with bob as a member.
abbrev hall : Desk
hall = record desk {
  chat = record desk.chat {
    members = record desk.chat.members { user_ids_cache = ("r", "ann" ∷ "bob" ∷ []) ∷ [] };
  };
}

new_id : lookup "k2" calls.invites ≡ none
unfolding lookup ◌==◌
new_id = refl

pointer : lookup "r" calls.room_active ≡ some "k"
unfolding lookup ◌==◌
pointer = refl

called : (create_call_invite caller hall asked calls).2 ≡ done false
unfolding create_call_invite check_call ◌==◌ valid get_room_by_rid get_room_user_ids_cache lookup
    scene_of clear_room get_string get_state issue_join_sign_data
called = refl

created_lem_example :
    let c = (create_call_invite caller hall asked calls).1 in
    (is_empty (fresh_state invite).active_uids ≡ true)
    × (lookup "k" c.invites ≡ none)
    × (lookup "k" c.states ≡ none)
    × (lookup "bob" c.user_active ≡ none)
    × (times "k" c.records ≡ suc (times "k" calls.records))
    × (lookup "r" c.room_active ≡ some "k2")
    × (is_running "k2" c ≡ true)
created_lem_example =
    created_lem caller hall asked "k" "bob" invite (fresh_state invite) calls refl k-IsTrimmed
      r-IsTrimmed bob-IsTrimmed refl pointer calls-IsStored refl member new_id called

room_empty_lem_example : IsFreed caller "r" "k" (on_media_room_empty caller "r" "ann" calls)
room_empty_lem_example =
    room_empty_lem caller "r" "ann" "k" invite (fresh_state invite) calls refl (λ t. refl)
      r-IsTrimmed k-IsTrimmed pointer calls-IsStored refl

none_stored : lookup "k2" no_calls.invites ≡ none
unfolding lookup
none_stored = refl

none_recorded : times "k2" no_calls.records ≡ 0
unfolding times
none_recorded = refl

-- Ann calls bob, who joins, and hangs up.
abbrev one_call : Calls
one_call =
    (hangup_call caller "k2"
      (mark_call_member_joined bob "k2" (create_call_invite caller hall asked no_calls).1).0).0

one_call_reached : Reach one_call
one_call_reached =
    next
      (next (next start (creates no_calls caller hall asked refl none_stored none_recorded))
        (joins (create_call_invite caller hall asked no_calls).1 bob "k2" refl))
      (hangs_up
        (mark_call_member_joined bob "k2" (create_call_invite caller hall asked no_calls).1).0
        caller "k2" refl)

recorded_once_example :
    (times "k2" one_call.records ≤ 1)
    × ((is_running "k2" one_call && not (eqb (times "k2" one_call.records) 0)) ≡ false)
recorded_once_example = recorded_once "k2" one_call_reached

abbrev bob_client : MediaClient
bob_client = record { uid = "bob"; rid = "r"; role = "subscriber"; stream = 1 }

-- Bob is in the call alone.
abbrev alone : CallState
alone = record (fresh_state invite) { active_uids = "bob" ∷ [] }

abbrev calls_alone : Calls
calls_alone = record calls { states = ("k", alone) ∷ []; user_active = ("bob", "k") ∷ [] }

alone-IsStored : IsStored calls_alone "k" invite alone
unfolding lookup ◌==◌
alone-IsStored = (refl, refl, refl, refl)

bob_current : lookup "bob" calls_alone.user_active ≡ some "k"
unfolding lookup ◌==◌
bob_current = refl

bob_last : is_empty (remove_uid alone.active_uids "bob") ≡ true
unfolding remove_uid ◌==◌
bob_last = refl

client_gone_lem_example :
    (client_of (on_client_gone bob new_server bob_client calls_alone).0 "r" "bob" ≡ none)
    × IsOver "k" "r" "bob" (on_client_gone bob new_server bob_client calls_alone).1
client_gone_lem_example =
    client_gone_lem bob new_server bob_client "k" invite alone calls_alone new_server-IsSeparate
      refl refl k-IsTrimmed r-IsTrimmed bob-IsTrimmed refl bob_current alone-IsStored never_late
      refl bob_last member

-- A call of two friends, in which both hang up at once.
abbrev friends_call : CallInvite
friends_call = record invite { call_scene = "friend" }

abbrev friends_calls : Calls
friends_calls = record calls {
  invites = ("k", friends_call) ∷ [];
  states = ("k", fresh_state friends_call) ∷ [];
}
