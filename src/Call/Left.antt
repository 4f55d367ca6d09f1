-- ===== src/Call/Left.antt =====
-- http/handler/media/stream.go: a member who joins a call and leaves it.
use cc_im_server.Prelude.{
  String, true, false, none, some, List, [], ◌∷◌, ◌==◌, elem, is_empty, ◌≡◌, refl, arith, ==_iff,
  ==_refl, ◌⊎◌, Bool-cases, inl, inr, ap, ◌∙◌, sym,
}
use cc_im_server.Prelude.Assoc.{lookup, insert, lookup-insert, lookup-delete}
use cc_im_server.Call.Tables.{
  CallInvite, CallState, Calls, Caller, trim, is_call_expired, allow_call_member, add_last,
  append_unique_uid, remove_uid, get_invite, state_of,
}
use cc_im_server.Call.Sessions.{
  clear_user_active_call_mapping, set_user_active_call_mapping, leave_state, leave_call_by_uid,
  broadcast_stream_call_member_sync, set_state, finalize_media_call_session_no_active, clear_user,
}
use cc_im_server.Call.Members.{done, joined_in, mark_call_member_joined, leave_call}
use cc_im_server.Call.Intact.{found_lem, state_of_lem}
use cc_im_server.Call.Over.{IsOver, IsTrimmed, IsOver-of_eq, finalized_IsOver}
use cc_im_server.Call.Ended.{IsFound}

removed_new :
    (uid : String) (list : List String) → elem uid list ≡ false → remove_uid list uid ≡ list
unfolding remove_uid
removed_new uid [] new = refl
removed_new uid (v ∷ list) new =
    ground (arith, new, ap (λ r. v ∷ r) (removed_new uid list (ground (arith, new))))

removed_last :
    (uid : String) (list : List String)
    → elem uid list ≡ false
    → remove_uid (add_last uid list) uid ≡ list
unfolding remove_uid add_last
removed_last uid [] new = ground (arith, ==_refl uid)
removed_last uid (v ∷ list) new =
    ground (arith, new, ap (λ r. v ∷ r) (removed_last uid list (ground (arith, new))))

remove_added :
    (uid : String) (list : List String)
    → elem uid list ≡ false
    → remove_uid (append_unique_uid list uid) uid ≡ list
unfolding append_unique_uid
remove_added uid list new = ground (arith, new, removed_last uid list new)

-- A leave that is let through.
pub left_lem :
    (e : Caller) (uid k : String) (i : CallInvite) (s : CallState) (c : Calls)
    → IsTrimmed e k
    → IsTrimmed e uid
    → get_invite e.faults.invite_get c k ≡ some i
    → state_of e c i k ≡ s
    → is_call_expired e i.expire_at ≡ false
    → allow_call_member i uid ≡ true
    → (leave_call_by_uid e uid k c).0 ≡ leave_state e uid k i s c
unfolding leave_call_by_uid
left_lem e uid k i s c (tk, tk') (tu, tu') found of fresh member =
    let named : (trim e k == "") ≡ false = ap (λ t. t == "") tk ∙ tk' in
    let user : (trim e uid == "") ≡ false = ap (λ t. t == "") tu ∙ tu' in
    let found' : get_invite e.faults.invite_get c (trim e k) ≡ some i =
      ap (get_invite e.faults.invite_get c) tk ∙ found in
    let member' : allow_call_member i (trim e uid) ≡ true = ap (allow_call_member i) tu ∙ member in
    let step : (leave_call_by_uid e uid k c).0
        ≡ leave_state e (trim e uid) (trim e k) i (state_of e c i (trim e k)) c =
      ground (arith, named, user, found', fresh, member') in
    step
    ∙ ap (λ u. leave_state e u (trim e k) i (state_of e c i (trim e k)) c) tu
    ∙ ap (λ t. leave_state e uid t i (state_of e c i t) c) tk
    ∙ ap (λ x. leave_state e uid k i x c) of

requested_lem :
    (e : Caller) (k : String) (c : Calls)
    → IsTrimmed e k
    → (leave_call e k c).0 ≡ (leave_call_by_uid e e.visitor.uid k c).0
unfolding leave_call
requested_lem e k c (tk, tk') =
    let named : (trim e k == "") ≡ false = ap (λ t. t == "") tk ∙ tk' in ground (arith, named)

-- A leave by the only one in a call that runs.
pub last_IsOver :
    (e : Caller) (uid k : String) (i : CallInvite) (s : CallState) (c : Calls)
    → IsTrimmed e k
    → IsTrimmed e i.rid
    → IsTrimmed e uid
    → i.call_id ≡ k
    → s.ended ≡ false
    → is_empty (remove_uid s.active_uids uid) ≡ true
    → allow_call_member i uid ≡ true
    → IsOver k i.rid uid (leave_state e uid k i s c)
unfolding leave_state
last_IsOver e uid k i s c tk ts tu named running last member =
    let s' : CallState = record s { active_uids = remove_uid s.active_uids uid } in
    let c' = clear_user e uid (set_state k s' c) in
    let ti : IsTrimmed e i.call_id =
      (ap (trim e) named ∙ tk.0 ∙ sym named, ap (λ x. x == "") named ∙ tk.1) in
    IsOver-of_eq k i.call_id i.rid uid (leave_state e uid k i s c)
      (finalize_media_call_session_no_active e i s' uid c') (ground (arith, last, running)) named
      (finalized_IsOver e uid uid i s' c' running ti ts tu member)

-- A request to join that is let through.
entered_lem :
    (e : Caller) (k : String) (i : CallInvite) (s : CallState) (c : Calls)
    → IsTrimmed e k
    → get_invite e.faults.invite_get c k ≡ some i
    → state_of e c i k ≡ s
    → is_call_expired e i.expire_at ≡ false
    → allow_call_member i e.visitor.uid ≡ true
    → ((mark_call_member_joined e k c).1 ≡ done false)
      × ((mark_call_member_joined e k c).0.invites ≡ c.invites)
      × ((mark_call_member_joined e k c).0.states
          ≡ insert k
              (record s { active_uids = append_unique_uid s.active_uids e.visitor.uid })
              c.states)
      × ((mark_call_member_joined e k c).0.user_active
          ≡ set_user_active_call_mapping e e.visitor.uid i.call_id c.user_active)
unfolding mark_call_member_joined joined_in broadcast_stream_call_member_sync
entered_lem e k i s c (tk, tk') found of fresh member =
    let named : (trim e k == "") ≡ false = ap (λ t. t == "") tk ∙ tk' in
    let joined : CallState → CallState =
      λ x. record x { active_uids = append_unique_uid x.active_uids e.visitor.uid } in
    (
      ground (arith, found, fresh, member, named),
      ground (arith, found, fresh, member, named),
      ground (arith, found, fresh, member, named, ap (λ x. insert k (joined x) c.states) of),
      ground (arith, found, fresh, member, named),
    )

cleared_one :
    (e : Caller) (uid : String) (table : List (String × String))
    → IsTrimmed e uid
    → lookup uid (clear_user_active_call_mapping e uid table) ≡ none
unfolding clear_user_active_call_mapping
cleared_one e uid table (tu, tu') =
    let full : (trim e uid == "") ≡ false = ap (λ t. t == "") tu ∙ tu' in
    let test : (trim e uid == uid) ≡ true = (==_iff (trim e uid) uid).1 tu in
    ground (arith, full, test, lookup-delete (trim e uid) uid table)

-- When a member who is not in it joins a call that is found, runs and has not expired, and then leaves
-- it, the call ends if no one else is in it, and nothing of it is left in Redis; else its state is
-- again as it was. The member is in no call. The reads succeed, and no identifier is empty or has
-- blanks round it.
pub joined_left_lem :
    (e : Caller) (k : String) (i : CallInvite) (s : CallState) (c : Calls)
    → IsTrimmed e k
    → IsTrimmed e i.rid
    → IsTrimmed e e.visitor.uid
    → e.faults.invite_get ≡ false
    → e.faults.state_get ≡ false
    → IsFound e c k i s
    → is_call_expired e i.expire_at ≡ false
    → s.ended ≡ false
    → allow_call_member i e.visitor.uid ≡ true
    → elem e.visitor.uid s.active_uids ≡ false
    → ((is_empty s.active_uids ≡ true)
        × IsOver k i.rid e.visitor.uid (leave_call e k (mark_call_member_joined e k c).0).0)
      ⊎ ((is_empty s.active_uids ≡ false)
          × (lookup k (leave_call e k (mark_call_member_joined e k c).0).0.states ≡ some s)
          × (lookup e.visitor.uid (leave_call e k (mark_call_member_joined e k c).0).0.user_active
              ≡ none))
unfolding leave_state
joined_left_lem e k i s c tk ts tu ok ok' (stored, found, of) fresh running member new =
    let uid = e.visitor.uid in
    let c' = (mark_call_member_joined e k c).0 in
    let (answer, same, states, mapped) = entered_lem e k i s c tk found of fresh member in
    let s1 : CallState = record s { active_uids = append_unique_uid s.active_uids uid } in
    let held : lookup k c'.states ≡ some s1 =
      ap (lookup k) states ∙ ground (arith, lookup-insert k k s1 c.states, ==_refl k) in
    let named = λ (t : String) (p : t ≡ k). ap (λ x. x == "") p ∙ tk.1 in
    let found' =
      found_lem e.faults.invite_get c' k i ok (ap (lookup k) same ∙ stored.0)
        (named i.call_id stored.2) in
    let of' = state_of_lem e c' i k s1 ok' held (named s.call_id stored.3) in
    let left = requested_lem e k c' tk ∙ left_lem e uid k i s1 c' tk tu found' of' fresh member in
    let back : remove_uid s1.active_uids uid ≡ s.active_uids = remove_added uid s.active_uids new in
    let s2 : CallState = record s1 { active_uids = remove_uid s1.active_uids uid } in
    let c2 = clear_user e uid (set_state k s2 c') in
    let test = ap (λ l. is_empty l) back in
    let is_s : s2 ≡ s = ap (λ l. record s { active_uids = l }) back in
    elim (Bool-cases (is_empty s.active_uids)) [
      | inl last ↦ inl (
        last,
        IsOver-of_eq k k i.rid uid (leave_call e k c').0 (leave_state e uid k i s1 c') left refl
            (last_IsOver e uid k i s1 c' tk ts tu stored.2 running (test ∙ last) member),
      )
      | inr others ↦
          let at : (leave_call e k c').0 ≡ broadcast_stream_call_member_sync e i.call_id c2 =
            left ∙ ground (arith, test, others) in
          let stays : lookup k (insert k s2 c'.states) ≡ some s2 =
            ground (arith, lookup-insert k k s2 c'.states, ==_refl k) in
          let synced = broadcast_stream_call_member_sync e i.call_id c2 in
          let kept : lookup k synced.states ≡ some s2 =
            unfold broadcast_stream_call_member_sync in stays in
          let out : lookup uid synced.user_active ≡ none =
            unfold broadcast_stream_call_member_sync in cleared_one e uid c'.user_active tu in
          inr (
            others,
            ap (λ x. lookup k x.states) at ∙ kept ∙ ap some is_s,
            ap (λ x. lookup uid x.user_active) at ∙ out,
          )
    ]
