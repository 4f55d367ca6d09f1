-- ===== src/Resend/Settled.antt =====
-- The life of the rows of a table: checks and confirmations in any order, where confirmations and
-- other checks may come between the read of a check and its write.
use cc_im_server.Prelude.{
  String, ℕ, ◌<◌, ◌≤◌, Bool, true, false, not, ◌&&◌, ◌||◌, Option, none, some, List, ◌==◌, eqb, leb,
  if◌then◌else◌, ◌≡◌, ◌≢◌, ◌⊎◌, inl, inr, refl, ap, ◌∙◌, arith, ==_refl, Bool-cases,
}
use cc_im_server.Delivery.Store.{Store}
use cc_im_server.Delivery.Node.{AckCheck}
use cc_im_server.Resend.Rows.{AckRow, first_ack, state_of}
use cc_im_server.Resend.Room.{
  CheckFaults, ack_max_retries, check_ack, handle_room_message_ack_check, ack_check_write,
  handler_room_message_ack,
}
use cc_im_server.Resend.Outcome.{
  two_of, state-time_out, state-retried, state_of-first, confirm-state,
}

-- One step on the table of RoomMessageAck: the write of a check, whatever row its read gave before,
-- or a confirmation, which is a single UPDATE. `bound` limits the retry counts that checks carry.
pub data Step (s : Store) (bound : ℕ) : List AckRow → List AckRow → Type 0 where
  check_step :
      (f : CheckFaults) (now : ℕ) (rows : List AckRow) (p : AckCheck) (read : Option AckRow)
      → p.retry_count < bound
      → Step s bound rows (ack_check_write f s now rows p read).rows
  confirm_step :
      (now : ℕ) (rows : List AckRow) (mid uid : String)
      → Step s bound rows (handler_room_message_ack false s now rows mid uid).0

pub data Reach (s : Store) (bound : ℕ) : List AckRow → List AckRow → Type 0 where
  here : {rows : List AckRow} → Reach s bound rows rows
  then_step :
      {rows rows' rows'' : List AckRow}
      → Reach s bound rows rows'
      → Step s bound rows' rows''
      → Reach s bound rows rows''

abbrev pub is_settled : Option ℕ → Bool
is_settled none = false
is_settled (some k) = eqb k 1 || eqb k 2

-- Whether a check whose read gave this row writes the state of timed out.
abbrev times_out : CheckFaults → AckCheck → Option AckRow → Bool
times_out f p none = false
times_out f p (some a) =
    not (eqb a.state 1)
    && not (eqb a.state 2)
    && leb ack_max_retries p.retry_count
    && not f.state_update

-- The handler is its read and its write.
check-write :
    (f : CheckFaults) (s : Store) (now : ℕ) (rows : List AckRow) (p : AckCheck)
    → f.ack_query ≡ false
    → handle_room_message_ack_check f s now rows p
      ≡ ack_check_write f s now rows p (first_ack p.mid p.uid rows)
unfolding handle_room_message_ack_check check_ack ack_check_write
check-write f s now rows p read = ground (arith, read)

write-state :
    (f : CheckFaults) (s : Store) (now : ℕ) (rows : List AckRow) (p : AckCheck)
    (read : Option AckRow) (m u : String)
    → state_of m u (ack_check_write f s now rows p read).rows ≡ (
        if times_out f p read && p.mid == m && p.uid == u
        then two_of (state_of m u rows)
        else state_of m u rows)
unfolding ack_check_write
write-state f s now rows p none m u = ground arith
write-state f s now rows p (some a) m u = ground (
  arith,
  state-time_out m u p.mid p.uid now rows,
  state-retried m u p.mid p.uid now p.retry_count rows,
)

late_of :
    {bound : ℕ} (f : CheckFaults) (p : AckCheck) (read : Option AckRow)
    → times_out f p read ≡ true
    → p.retry_count < bound
    → ack_max_retries < bound
late_of f p none e lt = cc
late_of f p (some a) e lt = ground (arith, e, lt)

Step-is_settled :
    (s : Store) (bound : ℕ) (rows rows' : List AckRow) (mid uid : String)
    → is_settled (state_of mid uid rows) ≡ true
    → Step s bound rows rows'
    → (state_of mid uid rows' ≡ state_of mid uid rows)
      ⊎ ((state_of mid uid rows' ≡ some 2) × (ack_max_retries < bound))
Step-is_settled s bound _ _ mid uid h (check_step f now rows p read lt) =
    let wrote = write-state f s now rows p read mid uid in
    elim (Bool-cases (times_out f p read && p.mid == mid && p.uid == uid)) [
      | inl e ↦ inr (ground (arith, h, wrote, e), late_of f p read (ground (arith, e)) lt)
      | inr e ↦ inl (ground (arith, wrote, e))
    ]
Step-is_settled s bound _ _ mid uid h (confirm_step now rows m u) =
    inl (ground (arith, h, confirm-state s now rows m u mid uid))

-- A row that is confirmed or timed out keeps its state, whatever checks and confirmations follow and
-- however the reads and writes of the checks mix with them, or is marked as timed out; and this only
-- if some check carries a retry count of the maximum or above.
pub Reach-is_settled :
    (s : Store) (bound : ℕ) (rows rows' : List AckRow) (mid uid : String)
    → is_settled (state_of mid uid rows) ≡ true
    → Reach s bound rows rows'
    → (state_of mid uid rows' ≡ state_of mid uid rows)
      ⊎ ((state_of mid uid rows' ≡ some 2) × (ack_max_retries < bound))
Reach-is_settled s bound rows rows' mid uid h here = inl refl
Reach-is_settled s bound rows rows' mid uid h (then_step {rows' = mid_rows} r st) =
    elim (Reach-is_settled s bound rows mid_rows mid uid h r) [
      | inl e ↦ elim (Step-is_settled s bound mid_rows rows' mid uid (ap is_settled e ∙ h) st) [
        | inl e' ↦ inl (e' ∙ e)
        | inr late ↦ inr late
      ]
      | inr (two, late) ↦
          elim (Step-is_settled s bound mid_rows rows' mid uid (ap is_settled two) st) [
            | inl e' ↦ inr (e' ∙ two, late)
            | inr late' ↦ inr late'
          ]
    ]

-- When a check whose retries are used up reads its row before the user confirms the message, and
-- writes after, the confirmation is overwritten by "timed out".
pub confirmation_lost :
    (f : CheckFaults) (s : Store) (t now : ℕ) (rows : List AckRow) (p : AckCheck) (a : AckRow)
    → first_ack p.mid p.uid rows ≡ some a
    → a.state ≡ 0
    → ack_max_retries ≤ p.retry_count
    → f.state_update ≡ false
    → let confirmed = (handler_room_message_ack false s t rows p.mid p.uid).0 in
      (state_of p.mid p.uid confirmed ≡ some 1)
      × (state_of p.mid p.uid
            (ack_check_write f s now confirmed p (first_ack p.mid p.uid rows)).rows
          ≡ some 2)
confirmation_lost f s t now rows p a read waits used ok =
    let confirmed = (handler_room_message_ack false s t rows p.mid p.uid).0 in
    let before = state_of-first p.mid p.uid rows in
    let sure = confirm-state s t rows p.mid p.uid p.mid p.uid in
    let late = write-state f s now confirmed p (some a) p.mid p.uid in
    let one : state_of p.mid p.uid confirmed ≡ some 1 =
      ground (arith, read, waits, before, sure, ==_refl p.mid, ==_refl p.uid) in
    (
      one,
      ap (λ o. state_of p.mid p.uid (ack_check_write f s now confirmed p o).rows) read
          ∙ ground (arith, waits, used, ok, one, late, ==_refl p.mid, ==_refl p.uid),
    )

Step-timed_out :
    (s : Store) (rows rows' : List AckRow) (mid uid : String)
    → state_of mid uid rows ≢ some 2
    → Step s ack_max_retries rows rows'
    → state_of mid uid rows' ≢ some 2
Step-timed_out s _ _ mid uid h (check_step f now rows p read lt) =
    let early : times_out f p read ≡ false = elim (Bool-cases (times_out f p read)) [
      | inl e ↦ absurd (omega (arith, late_of f p read e lt))
      | inr e ↦ e
    ] in
    ground (arith, h, early, write-state f s now rows p read mid uid)
Step-timed_out s _ _ mid uid h (confirm_step now rows m u) =
    ground (arith, h, confirm-state s now rows m u mid uid)

-- As long as every check carries a retry count below the maximum, as those that the nodes schedule
-- do, no row is ever marked as timed out.
pub Reach-timed_out :
    (s : Store) (rows rows' : List AckRow) (mid uid : String)
    → state_of mid uid rows ≢ some 2
    → Reach s ack_max_retries rows rows'
    → state_of mid uid rows' ≢ some 2
Reach-timed_out s rows rows' mid uid h here = h
Reach-timed_out s rows rows' mid uid h (then_step {rows' = mid_rows} r st) =
    Step-timed_out s mid_rows rows' mid uid (Reach-timed_out s rows mid_rows mid uid h r) st
