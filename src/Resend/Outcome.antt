-- ===== src/Resend/Outcome.antt =====
-- What a check and a confirmation do, on every branch.
use cc_im_server.Prelude.{
  String, ℕ, Bool, true, false, not, ◌&&◌, Option, none, some, List, [], ◌∷◌, filter, is_empty,
  ◌==◌, eqb, leb, if◌then◌else◌, ◌≡◌, refl, arith, ==_iff,
}
use cc_im_server.Delivery.Store.{
  Store, RoomMessage, allocated, get_room_message_by_mid, get_room_message_by_mid_include_withdraw,
}
use cc_im_server.Delivery.Node.{AckCheck}
use cc_im_server.Resend.Rows.{
  AckRow, first_ack, update_all, time_out, retried, confirm, is_of, is_pending, state_of,
}
use cc_im_server.Resend.Room.{
  CheckFaults, check_ack, ack_max_retries, handler_room_message_ack, handle_room_message_ack_check,
  handle_room_message_withdraw_ack_check,
}

abbrev pub is_open : Option ℕ → Bool
is_open none = false
is_open (some k) = not (eqb k 1) && not (eqb k 2)

-- When a check publishes a resend task.
abbrev pub resends : CheckFaults → List AckRow → AckCheck → Bool
resends f rows p =
    not f.ack_query
    && is_open (state_of p.mid p.uid rows)
    && not (leb ack_max_retries p.retry_count)
    && f.quic_queue_client
    && not f.publish

-- When a check writes the state of timed out.
abbrev pub gives_up : CheckFaults → List AckRow → AckCheck → Bool
gives_up f rows p =
    not f.ack_query
    && is_open (state_of p.mid p.uid rows)
    && leb ack_max_retries p.retry_count
    && not f.state_update

abbrev pub two_of : Option ℕ → Option ℕ
two_of none = none
two_of (some k) = some 2

abbrev pub one_of : Option ℕ → Option ℕ
one_of none = none
one_of (some k) = if eqb k 0 then some 1 else some k

pub state-time_out :
    (m u mid uid : String) (now : ℕ) (rows : List AckRow)
    → state_of m u (update_all (is_of mid uid) (time_out now) rows)
      ≡ (if mid == m && uid == u then two_of (state_of m u rows) else state_of m u rows)
unfolding state_of update_all
state-time_out m u mid uid now [] = ground arith
state-time_out m u mid uid now (a ∷ rows) = ground (
  arith,
  state-time_out m u mid uid now rows,
  ==_iff a.mid mid,
  ==_iff a.uid uid,
  ==_iff a.mid m,
  ==_iff a.uid u,
  ==_iff mid m,
  ==_iff uid u,
)

pub state-retried :
    (m u mid uid : String) (now n : ℕ) (rows : List AckRow)
    → state_of m u (update_all (is_of mid uid) (retried now n) rows) ≡ state_of m u rows
unfolding state_of update_all
state-retried m u mid uid now n [] = refl
state-retried m u mid uid now n (a ∷ rows) = ground (arith, state-retried m u mid uid now n rows)

pub state-confirm :
    (m u mid uid : String) (now : ℕ) (rows : List AckRow)
    → state_of m u (update_all (is_pending mid uid) (confirm now) rows)
      ≡ (if mid == m && uid == u then one_of (state_of m u rows) else state_of m u rows)
unfolding state_of update_all
state-confirm m u mid uid now [] = ground arith
state-confirm m u mid uid now (a ∷ rows) = ground (
  arith,
  state-confirm m u mid uid now rows,
  ==_iff a.mid mid,
  ==_iff a.uid uid,
  ==_iff a.mid m,
  ==_iff a.uid u,
  ==_iff mid m,
  ==_iff uid u,
)

none_pending :
    (mid uid m u : String) (rows : List AckRow)
    → is_empty (filter (is_pending mid uid) rows) ≡ true
    → (if mid == m && uid == u then one_of (state_of m u rows) else state_of m u rows)
      ≡ state_of m u rows
unfolding state_of
none_pending mid uid m u [] h = ground arith
none_pending mid uid m u (a ∷ rows) h = ground (
  arith,
  h,
  none_pending mid uid m u rows,
  ==_iff a.mid m,
  ==_iff a.uid u,
  ==_iff mid m,
  ==_iff uid u,
)

pub state_of-first :
    (mid uid : String) (rows : List AckRow)
    → state_of mid uid rows ≡ elim (first_ack mid uid rows) [ none ↦ none | some a ↦ some a.state ]
unfolding state_of
state_of-first mid uid rows = refl

-- The pointer that either query returns is never nil.
never_nil : (o : Option RoomMessage) → (rcm : RoomMessage) × (allocated o ≡ some rcm)
never_nil none = (_, refl)
never_nil (some m) = (m, refl)

message_given :
    (s : Store) (mid : String)
    → ((rcm : RoomMessage) × (get_room_message_by_mid s mid ≡ some rcm))
      × ((rcm : RoomMessage) × (get_room_message_by_mid_include_withdraw s mid ≡ some rcm))
unfolding get_room_message_by_mid get_room_message_by_mid_include_withdraw
message_given s mid = (never_nil _, never_nil _)

module _ (f : CheckFaults) (now : ℕ) (rows : List AckRow) (p : AckCheck)
    (message : Option RoomMessage) where
  check-resent :
      (rcm : RoomMessage)
      → message ≡ some rcm
      → is_empty (check_ack f now rows p message).resent ≡ not (resends f rows p)
  unfolding check_ack state_of
  check-resent rcm e = rw e (ground arith)

  check-state :
      (m u : String)
      → state_of m u (check_ack f now rows p message).rows
        ≡ (if gives_up f rows p && p.mid == m && p.uid == u then some 2 else state_of m u rows)
  unfolding check_ack
  check-state m u = ground (
    arith,
    state_of-first p.mid p.uid rows,
    state-time_out m u p.mid p.uid now rows,
    state-retried m u p.mid p.uid now p.retry_count rows,
    ==_iff p.mid m,
    ==_iff p.uid u,
  )

check-confirmed :
    (f : CheckFaults) (now : ℕ) (rows : List AckRow) (p : AckCheck) (message : Option RoomMessage)
    → state_of p.mid p.uid rows ≡ some 1
    → ((check_ack f now rows p message).resent ≡ [])
      × ((check_ack f now rows p message).rows ≡ rows)
unfolding check_ack
check-confirmed f now rows p message h = ground (arith, h, state_of-first p.mid p.uid rows)

-- Either check publishes a resend exactly when its row is found neither confirmed nor timed out, the
-- retries are not used up, and the queue takes the task, whether or not the message is there, deleted
-- or withdrawn; and, when nothing comes between its read and its write, it changes the state of a row only to write "timed out" to its own rows, exactly when they are neither confirmed
-- nor timed out, the retries are used up, and the update succeeds.
pub check_lem :
    (f : CheckFaults) (s : Store) (now : ℕ) (rows : List AckRow) (p : AckCheck)
    → let room = handle_room_message_ack_check f s now rows p in
      let withdraw = handle_room_message_withdraw_ack_check f s now rows p in
      ((is_empty room.resent ≡ not (resends f rows p))
        × ((m u : String)
            → state_of m u room.rows ≡ (
                if gives_up f rows p && p.mid == m && p.uid == u
                then some 2
                else state_of m u rows)))
      × ((is_empty withdraw.resent ≡ not (resends f rows p))
          × ((m u : String)
              → state_of m u withdraw.rows ≡ (
                  if gives_up f rows p && p.mid == m && p.uid == u
                  then some 2
                  else state_of m u rows)))
unfolding handle_room_message_ack_check handle_room_message_withdraw_ack_check
check_lem f s now rows p =
    let sent = get_room_message_by_mid s p.mid in
    let any_sent = get_room_message_by_mid_include_withdraw s p.mid in
    let ((rcm, found), (any_rcm, any_found)) = message_given s p.mid in
    (
      (check-resent f now rows p sent rcm found, check-state f now rows p sent),
      (check-resent f now rows p any_sent any_rcm any_found, check-state f now rows p any_sent),
    )

-- A confirmation moves the rows of its own message and user from 0 to 1, and no other state.
pub confirm-state :
    (s : Store) (now : ℕ) (rows : List AckRow) (mid uid m u : String)
    → state_of m u (handler_room_message_ack false s now rows mid uid).0
      ≡ (if mid == m && uid == u then one_of (state_of m u rows) else state_of m u rows)
unfolding handler_room_message_ack
confirm-state s now rows mid uid m u = ground (
  arith,
  state-confirm m u mid uid now rows,
  none_pending mid uid m u rows,
  ==_iff mid m,
  ==_iff uid u,
)

-- Once a client has confirmed a message, no later check of that message and user publishes a resend
-- or changes the table, whatever fails and however many retries the check has counted.
pub confirmed-no_resend :
    (s : Store) (t : ℕ) (rows : List AckRow) (mid uid : String)
    → state_of mid uid rows ≡ some 0
    → (f : CheckFaults) (now : ℕ) (p : AckCheck) → p.mid ≡ mid
    → p.uid ≡ uid
    → let confirmed = (handler_room_message_ack false s t rows mid uid).0 in
      let checked = handle_room_message_ack_check f s now confirmed p in
      (checked.resent ≡ []) × (checked.rows ≡ confirmed)
unfolding handle_room_message_ack_check
confirmed-no_resend s t rows mid uid h f now p e1 e2 =
    let confirmed = (handler_room_message_ack false s t rows mid uid).0 in
    check-confirmed f now confirmed p (get_room_message_by_mid s p.mid) (
      ground (
        arith,
        h,
        e1,
        e2,
        confirm-state s t rows mid uid p.mid p.uid,
        ==_iff mid p.mid,
        ==_iff uid p.uid,
      ))
