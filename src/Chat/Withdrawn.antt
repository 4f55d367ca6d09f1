-- ===== src/Chat/Withdrawn.antt =====
-- quic/handler/message_handler.go, handlerRoomMessageWithdrawRequest: who withdraws what, and when.
use cc_im_server.Prelude.{
  String, ℕ, ◌+◌, ◌<◌, Bool, true, false, not, ◌&&◌, ◌||◌, some, List, [], ◌∷◌, filter, ◌==◌, ltb,
  eqb, if◌then◌else◌, ◌≡◌, ◌≢◌, ◌⊎◌, refl, sym, ap, ◌∙◌, arith, Option-cases, Bool-cases, ==_iff,
  inl, inr,
}
use cc_im_server.Mute.State.{can_user_mute_in_room}
use cc_im_server.Chat.Tables.{MessageRow, ContentRow, Chat, find_row}
use cc_im_server.Chat.Accepted.{tables}
use cc_im_server.Chat.Withdraw.{
  Withdrawer, withdrawn, get_room_message_by_rid_seq_id, mark_withdrawn, delete_contents,
  withdraw_content, handler_room_message_withdraw_request,
}

-- Whether a user may withdraw a message: its sender within five minutes, anyone else only as an
-- administrator or the owner of the room.
abbrev pub may_withdraw_now : Withdrawer → Chat → String → MessageRow → Bool
may_withdraw_now env s rid r =
    if r.sender_uid == env.uid
    then not (ltb (r.create_time + 300000) env.now)
    else can_user_mute_in_room env.mute_faults s.mute rid env.uid

-- When a request for a message that is found withdraws it.
abbrev pub withdraws : Withdrawer → Chat → String → MessageRow → Bool
withdraws env s rid r =
    let f = env.faults in
    not
      (f.existing_query || f.withdraw_update || f.contents_delete || f.contents_create || f.commit)
    && may_withdraw_now env s rid r
    && not (ltb 0 r.withdraw_time)

-- The contents of a message that are not deleted.
abbrev pub live_of : String → List ContentRow → List ContentRow
live_of mid cs = filter (λ c. c.mid == mid && eqb c.delete_time 0) cs

live_of-delete_contents :
    (k mid : String) (now : ℕ) (cs : List ContentRow)
    → 0 < now
    → live_of k (delete_contents mid now cs) ≡ (if k == mid then [] else live_of k cs)
unfolding delete_contents
live_of-delete_contents k mid now [] pos = ground arith
live_of-delete_contents k mid now (c ∷ cs) pos = ground (
  arith,
  pos,
  live_of-delete_contents k mid now cs pos,
  ==_iff c.mid k,
  ==_iff c.mid mid,
  ==_iff k mid,
)

other-mark_withdrawn :
    (rid rid' : String) (seq_id n now : ℕ) (rows : List MessageRow)
    → (rid' == rid && eqb n seq_id) ≡ false
    → get_room_message_by_rid_seq_id (mark_withdrawn rid seq_id now rows) rid' n
      ≡ get_room_message_by_rid_seq_id rows rid' n
unfolding get_room_message_by_rid_seq_id find_row mark_withdrawn
other-mark_withdrawn rid rid' seq_id n now [] h = refl
other-mark_withdrawn rid rid' seq_id n now (x ∷ rows) h = ground (
  arith,
  h,
  other-mark_withdrawn rid rid' seq_id n now rows,
  ==_iff x.rid rid,
  ==_iff x.rid rid',
  ==_iff rid' rid,
)

found-mark_withdrawn :
    (rid rid' : String) (seq_id n now : ℕ) (rows : List MessageRow) (r : MessageRow)
    → get_room_message_by_rid_seq_id rows rid seq_id ≡ some r
    → get_room_message_by_rid_seq_id (mark_withdrawn rid seq_id now rows) rid' n ≡ (
        if rid' == rid && eqb n seq_id
        then some (record r { withdraw_time = now })
        else get_room_message_by_rid_seq_id rows rid' n)
unfolding get_room_message_by_rid_seq_id find_row mark_withdrawn
found-mark_withdrawn rid rid' seq_id n now [] r h = absurd (ground (arith, h))
found-mark_withdrawn rid rid' seq_id n now (x ∷ rows) r h = ground (
  arith,
  h,
  found-mark_withdrawn rid rid' seq_id n now rows r,
  other-mark_withdrawn rid rid' seq_id n now rows,
  ==_iff x.rid rid,
  ==_iff x.rid rid',
  ==_iff rid' rid,
)

live_of-withdrawn :
    (env : Withdrawer) (r : MessageRow) (mid : String) (cs : List ContentRow)
    → 0 < env.now
    → live_of mid (withdraw_content env r ∷ delete_contents r.mid env.now cs)
      ≡ (if mid == r.mid then withdraw_content env r ∷ [] else live_of mid cs)
unfolding withdraw_content
live_of-withdrawn env r mid cs pos = ground (
  arith,
  pos,
  live_of-delete_contents mid r.mid env.now cs pos,
  ==_iff r.mid mid,
  ==_iff mid r.mid,
)

-- A request for a message that is found withdraws it exactly when it is not withdrawn yet, may be
-- withdrawn by this user now, and no database call fails. Then the time stands in its row, and no
-- other row changes; all that is left of its contents is a new one that names the user, and those of
-- other messages stay. Otherwise no message table changes. The clock is not zero.
pub withdraw_lem :
    (env : Withdrawer) (s : Chat) (rid : String) (seq_id : ℕ) (r : MessageRow)
    → 0 < env.now
    → get_room_message_by_rid_seq_id s.rows rid seq_id ≡ some r
    → let s' = (handler_room_message_withdraw_request env s rid seq_id).0 in
      ((withdraws env s rid r ≡ true)
        × ((rid' : String) (n : ℕ)
            → get_room_message_by_rid_seq_id s'.rows rid' n ≡ (
                if rid' == rid && eqb n seq_id
                then some (record r { withdraw_time = env.now })
                else get_room_message_by_rid_seq_id s.rows rid' n))
        × ((c : ContentRow) × (c.type ≡ "user:withdraw")
            × (c.type_id ≡ env.uid)
            × ((mid : String)
                → live_of mid s'.contents
                  ≡ (if mid == r.mid then c ∷ [] else live_of mid s.contents))))
      ⊎ ((withdraws env s rid r ≡ false) × (tables s' ≡ tables s))
withdraw_lem env s rid seq_id r pos found =
    let s' = (handler_room_message_withdraw_request env s rid seq_id).0 in
    let step : tables s' ≡ (
        if withdraws env s rid r
        then (
          mark_withdrawn rid seq_id env.now s.rows,
          withdraw_content env r ∷ delete_contents r.mid env.now s.contents,
        )
        else tables s) =
      unfold handler_room_message_withdraw_request in ground (arith, found) in
    elim (Bool-cases (withdraws env s rid r)) [
      | inl e ↦
          let rows : s'.rows ≡ mark_withdrawn rid seq_id env.now s.rows = ground (arith, step, e) in
          let contents : s'.contents
              ≡ withdraw_content env r ∷ delete_contents r.mid env.now s.contents =
            ground (arith, step, e) in
          inl (
            e,
            λ rid' n.
                ap (λ rs. get_room_message_by_rid_seq_id rs rid' n) rows
                ∙ found-mark_withdrawn rid rid' seq_id n env.now s.rows r found,
            (
              withdraw_content env r,
              unfold withdraw_content in refl,
              unfold withdraw_content in refl,
              λ mid. ap (live_of mid) contents ∙ live_of-withdrawn env r mid s.contents pos,
            ),
          )
      | inr e ↦ inr (e, ground (arith, step, e))
    ]

find-mark_withdrawn :
    (rid : String) (seq_id now : ℕ) (rows : List MessageRow) (r : MessageRow)
    → get_room_message_by_rid_seq_id (mark_withdrawn rid seq_id now rows) rid seq_id ≡ some r
    → r.withdraw_time ≡ now
unfolding get_room_message_by_rid_seq_id find_row mark_withdrawn
find-mark_withdrawn rid seq_id now [] r h = absurd (ground (arith, h))
find-mark_withdrawn rid seq_id now (x ∷ rows) r h =
    ground (arith, h, find-mark_withdrawn rid seq_id now rows r)

succeeded :
    (env : Withdrawer) (s : Chat) (rid : String) (seq_id : ℕ) (mid : String)
    → (handler_room_message_withdraw_request env s rid seq_id).1 ≡ withdrawn mid
    → (handler_room_message_withdraw_request env s rid seq_id).0.rows
      ≡ mark_withdrawn rid seq_id env.now s.rows
unfolding handler_room_message_withdraw_request
succeeded env s rid seq_id mid h =
    elim (Option-cases (get_room_message_by_rid_seq_id s.rows rid seq_id)) [
      | inl e ↦ absurd (ground (arith, e, h))
      | inr (r, e) ↦ ground (arith, e, h)
    ]

request_marked :
    (again : Withdrawer) (s : Chat) (rid : String) (seq_id t : ℕ)
    → 0 < t
    → ((r : MessageRow)
        → get_room_message_by_rid_seq_id s.rows rid seq_id ≡ some r
        → r.withdraw_time ≡ t)
    → (k : String)
    → ((handler_room_message_withdraw_request again s rid seq_id).1 ≢ withdrawn k)
      × (tables (handler_room_message_withdraw_request again s rid seq_id).0 ≡ tables s)
unfolding handler_room_message_withdraw_request
request_marked again s rid seq_id t pos marked k =
    elim (Option-cases (get_room_message_by_rid_seq_id s.rows rid seq_id)) [
      | inl e ↦ (λ h. ground (arith, e, h), ground (arith, e))
      | inr (r, e) ↦
          (λ h. ground (arith, e, h, pos, marked r e), ground (arith, e, pos, marked r e))
    ]

-- A message is withdrawn only once: after a request that withdrew it, no further request for the same
-- number, by any user, withdraws anything or changes a message table.
pub withdraw_once :
    (env again : Withdrawer) (s : Chat) (rid : String) (seq_id : ℕ) (mid : String)
    → 0 < env.now
    → (handler_room_message_withdraw_request env s rid seq_id).1 ≡ withdrawn mid
    → (k : String)
    → let s' = (handler_room_message_withdraw_request env s rid seq_id).0 in
      ((handler_room_message_withdraw_request again s' rid seq_id).1 ≢ withdrawn k)
      × (tables (handler_room_message_withdraw_request again s' rid seq_id).0 ≡ tables s')
withdraw_once env again s rid seq_id mid pos h k =
    let s' = (handler_room_message_withdraw_request env s rid seq_id).0 in
    let marked = succeeded env s rid seq_id mid h in
    request_marked again s' rid seq_id env.now pos
      (λ r e.
        find-mark_withdrawn rid seq_id env.now s.rows r
          (ap (λ rows. get_room_message_by_rid_seq_id rows rid seq_id) (sym marked) ∙ e))
      k
