-- ===== src/Call/Over.antt =====
-- http/handler/media/stream.go: what is left in Redis of a call that has ended.
use cc_im_server.Prelude.{
  String, true, false, ◌||◌, none, List, [], ◌∷◌, ◌++◌, ◌==◌, elem, elem-append, if◌then◌else◌, ◌≡◌,
  refl, arith, ==_iff, ==_sym, Bool-cases, inl, inr, ap, ◌∙◌, sym,
}
use cc_im_server.Prelude.Assoc.{lookup, lookup-delete}
use cc_im_server.Call.Tables.{
  CallInvite, CallState, Calls, Caller, trim, allow_call_member, unique_from, get_invite,
}
use cc_im_server.Call.Sessions.{
  clear_user_active_call_mapping, clear_mappings, call_uids,
  clear_all_user_active_call_mappings_for_call, broadcast_stream_call_member_sync, set_state,
  save_media_call_record, destroy_media_call_session_keys, finalize_media_call_session_no_active,
}
use cc_im_server.Call.Members.{joined_in, mark_call_member_joined, end_rejected, end_for_all}
use cc_im_server.Call.Handlers.{accept_call_invite}

elem-unique_from :
    (uid : String) (seen list : List String)
    → (uid == "") ≡ false
    → elem uid seen ≡ false
    → elem uid list ≡ true
    → elem uid (unique_from seen list) ≡ true
unfolding unique_from
elem-unique_from uid seen [] full new h = absurd (ground (arith, h))
elem-unique_from uid seen (u ∷ list) full new h = elim (Bool-cases (u == uid)) [
  | inl same ↦
      let is_uid : u ≡ uid = (==_iff u uid).0 same in
      let u_full : (u == "") ≡ false = ap (λ t. t == "") is_uid ∙ full in
      let u_new : elem u seen ≡ false = ap (λ t. elem t seen) is_uid ∙ new in
      ground (arith, same, u_full, u_new)
  | inr other ↦
      let rest = λ (seen' : List String) (new' : elem uid seen' ≡ false).
        elem-unique_from uid seen' list full new' (ground (arith, other, h)) in
      elim (Bool-cases ((u == "") || elem u seen)) [
        | inl skip ↦ ground (arith, skip, rest seen new)
        | inr keep ↦ ground (arith, keep, other, rest (u ∷ seen) (ground (arith, other, new)))
      ]
]

-- A user of the call is among those whom its end concerns.
pub elem-call_uids :
    (i : CallInvite) (s : CallState) (uid : String)
    → (uid == "") ≡ false
    → allow_call_member i uid ≡ true
    → elem uid (call_uids i s) ≡ true
unfolding call_uids allow_call_member
elem-call_uids i s uid full member =
    let own = i.inviter_uid ∷ i.invitee_uids in
    let rest = if s.call_id == "" then [] else s.active_uids ++ s.rejected_uids in
    let inside : elem uid own ≡ true = ground (arith, member, ==_sym uid i.inviter_uid) in
    elem-unique_from uid [] (own ++ rest) full refl
      (elem-append uid own rest ∙ ground (arith, inside))

clear_keeps_none :
    (e : Caller) (uid : String) (list : List String) (table : List (String × String))
    → lookup uid table ≡ none
    → lookup uid (clear_mappings e list table) ≡ none
unfolding clear_mappings clear_user_active_call_mapping
clear_keeps_none e uid [] table h = h
clear_keeps_none e uid (u ∷ list) table h =
    clear_keeps_none e uid list (clear_user_active_call_mapping e u table)
      (ground (arith, h, lookup-delete (trim e u) uid table))

pub cleared_lem :
    (e : Caller) (uid : String) (list : List String) (table : List (String × String))
    → trim e uid ≡ uid
    → (uid == "") ≡ false
    → elem uid list ≡ true
    → lookup uid (clear_mappings e list table) ≡ none
unfolding clear_mappings clear_user_active_call_mapping
cleared_lem e uid [] table trimmed full h = absurd (ground (arith, h))
cleared_lem e uid (u ∷ list) table trimmed full h = elim (Bool-cases (u == uid)) [
  | inl same ↦
      let is_uid : trim e u ≡ uid = ap (trim e) ((==_iff u uid).0 same) ∙ trimmed in
      let test : (trim e u == uid) ≡ true = (==_iff (trim e u) uid).1 is_uid in
      let some_uid : (trim e u == "") ≡ false = ap (λ t. t == "") is_uid ∙ full in
      clear_keeps_none e uid list (clear_user_active_call_mapping e u table)
        (ground (arith, some_uid, test, lookup-delete (trim e u) uid table))
  | inr other ↦
      cleared_lem e uid list (clear_user_active_call_mapping e u table) trimmed full
        (ground (arith, other, h))
]

-- Nothing is left of the call, its room names no call, and the user is in none.
abbrev pub IsOver : String → String → String → Calls → Type 0
IsOver call_id rid uid c =
    (lookup call_id c.invites ≡ none)
    × (lookup call_id c.states ≡ none)
    × (lookup rid c.room_active ≡ none)
    × (lookup uid c.user_active ≡ none)

pub IsOver-of_eq :
    (k k' rid uid : String) (c c' : Calls)
    → c ≡ c'
    → k' ≡ k
    → IsOver k' rid uid c'
    → IsOver k rid uid c
IsOver-of_eq k k' rid uid c c' at same (a, b, d, f) = (
  ap (λ x. lookup k x.invites) at ∙ ap (λ t. lookup t c'.invites) (sym same) ∙ a,
  ap (λ x. lookup k x.states) at ∙ ap (λ t. lookup t c'.states) (sym same) ∙ b,
  ap (λ x. lookup rid x.room_active) at ∙ d,
  ap (λ x. lookup uid x.user_active) at ∙ f,
)

-- A text that is not empty and has no blanks round it.
abbrev pub IsTrimmed : Caller → String → Type 0
IsTrimmed e text = (trim e text ≡ text) × ((text == "") ≡ false)

pub destroyed_lem :
    (e : Caller) (uid : String) (i : CallInvite) (s : CallState) (c : Calls)
    → IsTrimmed e i.call_id
    → IsTrimmed e i.rid
    → IsTrimmed e uid
    → allow_call_member i uid ≡ true
    → IsOver i.call_id i.rid uid (
        destroy_media_call_session_keys e i.call_id i.rid
          (clear_all_user_active_call_mappings_for_call e i s c))
unfolding destroy_media_call_session_keys clear_all_user_active_call_mappings_for_call
destroyed_lem e uid i s c (k, k') (r, r') (u, u') member =
    let named : (trim e i.call_id == "") ≡ false = ap (λ t. t == "") k ∙ k' in
    let placed : (trim e i.rid == "") ≡ false = ap (λ t. t == "") r ∙ r' in
    let is_k : (trim e i.call_id == i.call_id) ≡ true = (==_iff (trim e i.call_id) i.call_id).1 k in
    let is_r : (trim e i.rid == i.rid) ≡ true = (==_iff (trim e i.rid) i.rid).1 r in
    (
      ground (arith, named, is_k, lookup-delete (trim e i.call_id) i.call_id c.invites),
      ground (arith, named, is_k, lookup-delete (trim e i.call_id) i.call_id c.states),
      ground (arith, placed, is_r, lookup-delete (trim e i.rid) i.rid c.room_active),
      cleared_lem e uid (call_uids i s) c.user_active u u' (elem-call_uids i s uid u' member),
    )

pub end_IsOver :
    (e : Caller) (k reason uid : String) (i : CallInvite) (s : CallState) (c : Calls)
    → IsTrimmed e i.call_id
    → IsTrimmed e i.rid
    → IsTrimmed e uid
    → allow_call_member i uid ≡ true
    → IsOver i.call_id i.rid uid (end_for_all e k reason i s c)
unfolding end_for_all broadcast_stream_call_member_sync save_media_call_record
    destroy_media_call_session_keys clear_all_user_active_call_mappings_for_call
end_IsOver e k reason uid i s c tk tr tu member =
    let s' : CallState = record s { ended = true } in
    let over = destroyed_lem e uid i s' (set_state k s' c) tk tr tu member in
    (over.0, over.1, over.2, over.3)

pub rejected_IsOver :
    (e : Caller) (k uid : String) (i : CallInvite) (s : CallState) (c : Calls)
    → IsTrimmed e i.call_id
    → IsTrimmed e i.rid
    → IsTrimmed e uid
    → allow_call_member i uid ≡ true
    → IsOver i.call_id i.rid uid (end_rejected e k i s c)
unfolding end_rejected save_media_call_record destroy_media_call_session_keys
    clear_all_user_active_call_mappings_for_call
rejected_IsOver e k uid i s c tk tr tu member =
    let over = destroyed_lem e uid i s (set_state k s c) tk tr tu member in
    (over.0, over.1, over.2, over.3)

pub finalized_IsOver :
    (e : Caller) (uid op : String) (i : CallInvite) (s : CallState) (c : Calls)
    → s.ended ≡ false
    → IsTrimmed e i.call_id
    → IsTrimmed e i.rid
    → IsTrimmed e uid
    → allow_call_member i uid ≡ true
    → IsOver i.call_id i.rid uid (finalize_media_call_session_no_active e i s op c)
unfolding finalize_media_call_session_no_active broadcast_stream_call_member_sync
    save_media_call_record destroy_media_call_session_keys
    clear_all_user_active_call_mappings_for_call
finalized_IsOver e uid op i s c running tk tr tu member =
    let s' : CallState = record s { ended = true } in
    let over = destroyed_lem e uid i s' (set_state i.call_id s' c) tk tr tu member in
    (
      ground (arith, running, over.0),
      ground (arith, running, over.1),
      ground (arith, running, over.2),
      ground (arith, running, over.3),
    )

-- After a call is gone, no one joins it or accepts it.
pub gone_refuses :
    (e : Caller) (k : String) (c : Calls)
    → lookup k c.invites ≡ none
    → ((mark_call_member_joined e k c).0 ≡ c) × ((accept_call_invite e k c).0 ≡ c)
unfolding mark_call_member_joined joined_in accept_call_invite get_invite
gone_refuses e k c gone = (ground (arith, gone), ground (arith, gone))
