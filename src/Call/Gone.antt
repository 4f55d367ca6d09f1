-- ===== src/Call/Gone.antt =====
-- media/streaming/server.go and http/handler/media/stream.go: a media connection that ends.
use cc_im_server.Prelude.{
  String, true, false, none, some, ◌==◌, is_empty, if◌then◌else◌, ◌≡◌, refl, arith, ==_refl,
  Bool-cases, inl, inr, ap, ◌∙◌, sym, ◌||◌,
}
use cc_im_server.Prelude.Assoc.{lookup}
use cc_im_server.Media.Hub.{Server, MediaClient, remove_client, client_of}
use cc_im_server.Media.Rooms.{IsSeparate, remove_client-client_of}
use cc_im_server.Call.Tables.{
  CallInvite, CallState, Calls, Caller, trim, is_call_expired, allow_call_member, remove_uid,
  get_string,
}
use cc_im_server.Call.Sessions.{
  leave_state, leave_call_by_uid, on_user_message_quic_offline, on_media_room_empty,
}
use cc_im_server.Call.Intact.{IsStored, found_lem, state_of_lem}
use cc_im_server.Call.Over.{IsOver, IsTrimmed, IsOver-of_eq}
use cc_im_server.Call.Left.{left_lem, last_IsOver}

-- What `handleConn` does when the read loop of a client ends.
unfoldable pub on_client_gone : Caller → Server → MediaClient → Calls → Server × Calls
on_client_gone e server client c =
    let (server', empty) = remove_client server client in
    let c' = on_user_message_quic_offline e client.uid c in
    let c'' = on_media_room_empty e client.rid client.uid c' in (server', if empty then c'' else c')

offline_lem :
    (e : Caller) (uid k : String) (i : CallInvite) (s : CallState) (c : Calls)
    → (e.faults.invite_get || e.faults.state_get || e.faults.user_get) ≡ false
    → IsTrimmed e k
    → IsTrimmed e uid
    → lookup uid c.user_active ≡ some k
    → IsStored c k i s
    → is_call_expired e i.expire_at ≡ false
    → allow_call_member i uid ≡ true
    → on_user_message_quic_offline e uid c ≡ leave_state e uid k i s c
unfolding on_user_message_quic_offline
offline_lem e uid k i s c ok (tk, tk') (tu, tu') current (a, b, n, n') fresh member =
    let named = λ (t : String) (p : t ≡ k). ap (λ x. x == "") p ∙ tk' in
    let found = found_lem e.faults.invite_get c k i (ground (arith, ok)) a (named i.call_id n) in
    let of = state_of_lem e c i k s (ground (arith, ok)) b (named s.call_id n') in
    let key : get_string e.faults.user_get c.user_active (trim e uid) ≡ k =
      ap (get_string e.faults.user_get c.user_active) tu
      ∙ (unfold get_string in ground (arith, ok, current)) in
    let user : (trim e uid == "") ≡ false = ap (λ x. x == "") tu ∙ tu' in
    let call : (trim e (get_string e.faults.user_get c.user_active (trim e uid)) == "") ≡ false =
      ap (λ x. trim e x == "") key ∙ ap (λ x. x == "") tk ∙ tk' in
    let step : on_user_message_quic_offline e uid c
        ≡ (leave_call_by_uid e (trim e uid)
            (get_string e.faults.user_get c.user_active (trim e uid)) c).0 =
      ground (arith, user, call) in
    step
    ∙ ap
        (λ u. (leave_call_by_uid e u (get_string e.faults.user_get c.user_active (trim e uid)) c).0)
        tu
    ∙ ap (λ t. (leave_call_by_uid e uid t c).0) key
    ∙ left_lem e uid k i s c (tk, tk') (tu, tu') found of fresh member

-- A room that names no call is left as it is.
unnamed_room :
    (e : Caller) (rid op : String) (c : Calls)
    → trim e "" ≡ ""
    → trim e rid ≡ rid
    → lookup rid c.room_active ≡ none
    → on_media_room_empty e rid op c ≡ c
unfolding on_media_room_empty
unnamed_room e rid op c blank tr gone =
    let key : get_string e.faults.room_get c.room_active (trim e rid) ≡ "" =
      ap (get_string e.faults.room_get c.room_active) tr
      ∙ (unfold get_string in ground (arith, gone)) in
    let none_named : (trim e (get_string e.faults.room_get c.room_active (trim e rid)) == "")
        ≡ true =
      ap (λ x. trim e x == "") key ∙ ap (λ x. x == "") blank ∙ ==_refl "" in
    ground (arith, none_named)

-- When the media connection of a user ends whose current call runs, has not expired and has the user
-- as its member, and no one else is in it, the media server holds no client of the user in the room,
-- and the call is over: nothing of it is left in Redis, its room names no call and the user is in
-- none. The reads of Redis succeed, and no identifier is empty or has blanks round it.
pub client_gone_lem :
    (e : Caller) (server : Server) (client : MediaClient) (k : String) (i : CallInvite)
    (s : CallState) (c : Calls)
    → IsSeparate server
    → (e.faults.invite_get || e.faults.state_get || e.faults.user_get) ≡ false
    → trim e "" ≡ ""
    → IsTrimmed e k
    → IsTrimmed e client.rid
    → IsTrimmed e client.uid
    → i.rid ≡ client.rid
    → lookup client.uid c.user_active ≡ some k
    → IsStored c k i s
    → is_call_expired e i.expire_at ≡ false
    → s.ended ≡ false
    → is_empty (remove_uid s.active_uids client.uid) ≡ true
    → allow_call_member i client.uid ≡ true
    → (client_of (on_client_gone e server client c).0 client.rid client.uid ≡ none)
      × IsOver k client.rid client.uid (on_client_gone e server client c).1
unfolding on_client_gone
client_gone_lem e server client k i s c sep ok blank tk ts tu placed current stored fresh running
      last member =
    let uid = client.uid in
    let gone = leave_state e uid k i s c in
    let c' = on_user_message_quic_offline e uid c in
    let left = offline_lem e uid k i s c ok tk tu current stored fresh member in
    let ti : IsTrimmed e i.rid =
      (ap (trim e) placed ∙ ts.0 ∙ sym placed, ap (λ x. x == "") placed ∙ ts.1) in
    let over = last_IsOver e uid k i s c tk ti tu stored.2 running last member in
    let over' : IsOver k i.rid uid c' = IsOver-of_eq k k i.rid uid c' gone left refl over in
    let room : lookup client.rid c'.room_active ≡ none =
      ap (λ r. lookup r c'.room_active) (sym placed) ∙ over'.2 in
    let same = unnamed_room e client.rid uid c' blank ts.0 room in
    let after = (on_client_gone e server client c).1 in
    let is : after ≡ c' = elim (Bool-cases (remove_client server client).1) [
      | inl empty ↦ ground (arith, empty, same)
      | inr others ↦ ground (arith, others)
    ] in
    let out = remove_client-client_of server client client.rid uid sep in
    (
      ground (arith, out, ==_refl client.rid, ==_refl uid),
      IsOver-of_eq k k client.rid uid after c' is refl (over'.0, over'.1, room, over'.3),
    )
