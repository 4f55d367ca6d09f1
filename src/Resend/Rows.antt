-- ===== src/Resend/Rows.antt =====
-- The tables of RoomMessageAck and RoomMessageWithdrawAck, whose rows have the same columns. The
-- state is 0 for sent, 1 for confirmed by the client and 2 for timed out.
use cc_im_server.Prelude.{
  String, ℕ, suc, Bool, ◌&&◌, Option, none, some, List, [], ◌∷◌, ◌==◌, eqb, if◌then◌else◌,
}

pub record AckRow : Type 0 where
  pub rid : String
  pub uid : String
  pub mid : String
  pub seq_id : ℕ
  pub state : ℕ
  pub retry_count : ℕ
  pub last_try_time : ℕ
  pub confirmed_time : ℕ
  pub update_time : ℕ
  pub delete_time : ℕ

abbrev pub is_of : String → String → AckRow → Bool
is_of mid uid a = a.mid == mid && a.uid == uid

-- The row that a check reads.
unfoldable pub first_ack : String → String → List AckRow → Option AckRow
first_ack mid uid [] = none
first_ack mid uid (a ∷ rows) =
    if is_of mid uid a && eqb a.delete_time 0 then some a else first_ack mid uid rows

unfoldable pub update_all : (AckRow → Bool) → (AckRow → AckRow) → List AckRow → List AckRow
update_all p g [] = []
update_all p g (a ∷ rows) = if p a then g a ∷ update_all p g rows else a ∷ update_all p g rows

-- What the three updates set, at a time in milliseconds.
abbrev pub time_out : ℕ → AckRow → AckRow
time_out now a = record a { state = 2; update_time = now }

abbrev pub retried : ℕ → ℕ → AckRow → AckRow
retried now retry_count a = record a {
  retry_count = suc retry_count;
  last_try_time = now;
  update_time = now;
}

abbrev pub confirm : ℕ → AckRow → AckRow
confirm now a = record a { state = 1; confirmed_time = now; update_time = now }

-- The rows that a confirmation by the client updates.
abbrev pub is_pending : String → String → AckRow → Bool
is_pending mid uid a = is_of mid uid a && eqb a.state 0

-- The state of the row that a check reads.
unfoldable pub state_of : String → String → List AckRow → Option ℕ
unfolding first_ack
state_of mid uid rows = elim (first_ack mid uid rows) [ none ↦ none | some a ↦ some a.state ]
