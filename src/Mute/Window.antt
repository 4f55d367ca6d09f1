-- ===== src/Mute/Window.antt =====
-- The frequency limit: the two functions that read it agree, and what a message adds to it.
use cc_im_server.Prelude.{
  String, ℕ, suc, ◌+◌, ◌*◌, ◌/◌, ◌<◌, ◌≤◌, Bool, true, false, not, ◌&&◌, Option, none, some, ◌==◌,
  eqb, ltb, leb, if◌then◌else◌, ◌≡◌, ◌≢◌, refl, ap, ◌∙◌, arith, ==_iff, ==_refl, ==_of_ne, List, [],
  ◌∷◌,
}
use native.Mathlib.Nat
use cc_im_server.Mute.State.{
  Json, MuteState, MuteFaults, RoomMuteConfig, Counters, get_room_mute_config,
}
use cc_im_server.Mute.Frequency.{
  Frequency, parse_frequency_rule_config, is_window, version_of, is_user_over_frequency_limit,
  get_frequency_mute_until, incr_count, incr_room_message_frequency_count, has_frequency,
}

abbrev pub is_some {ℓ} : {A : Type ℓ} → Option A → Bool
is_some none = false
is_some (some a) = true

-- The end of a window lies after each of its times, by at most the length of a window.
window_end : (now w : ℕ) → 0 < w → (now < suc (now / w) * w) × (suc (now / w) * w ≤ now + w)
window_end now w h =
    let above = Nat.lt-div-mul-add {a = now} h in
    let below = Nat.div-mul-le_self now w in
    let q = now / w in
    let e : suc q * w ≡ q * w + w = omega arith in
    (omega (arith, e, above), omega (arith, e, below))

is_window-pos : (w : ℕ) → is_window w ≡ true → 0 < w
is_window-pos w h = ground (arith, h)

-- When the end of a frequency mute is returned, the member is over the limit, and the end is later
-- than now, by at most the length of the window.
pub mute_until_lem :
    (j : Json) (f : MuteFaults) (s : MuteState) (rid uid : String) (now : ℕ) (rule_config : String)
    (t : ℕ) (q : Frequency)
    → get_frequency_mute_until j f s rid uid now rule_config ≡ some t
    → parse_frequency_rule_config j rule_config ≡ some q
    → (is_user_over_frequency_limit j f s rid uid now rule_config ≡ true)
      × (now < t)
      × (t ≤ now + q.window_ms)
unfolding get_frequency_mute_until is_user_over_frequency_limit
mute_until_lem j f s rid uid now rule_config t q h e =
    ground (arith, e, h, is_window-pos q.window_ms, window_end now q.window_ms)

-- The messages of a room in the order of their sending, latest first: the sender and the time.
abbrev pub Messages : Type 0
Messages = List (String × ℕ)

-- How many of them a member sent in one window.
abbrev pub sent_in : String → ℕ → ℕ → Messages → ℕ
sent_in uid w window_id [] = 0
sent_in uid w window_id ((u, t) ∷ ms) =
    if u == uid && eqb (t / w) window_id
    then suc (sent_in uid w window_id ms)
    else sent_in uid w window_id ms

-- The state after the messages have been counted.
unfoldable pub count_messages : Json → MuteFaults → MuteState → String → Messages → MuteState
count_messages j f s rid [] = s
count_messages j f s rid ((u, t) ∷ ms) =
    incr_room_message_frequency_count j f (count_messages j f s rid ms) t rid u

all_counts : Counters → String → ℕ → ℕ → Messages → Counters
all_counts c rid v w [] = c
all_counts c rid v w ((u, t) ∷ ms) = incr_count (all_counts c rid v w ms) rid v u (t / w)

all_counts_lem :
    (c : Counters) (rid : String) (v w : ℕ)
    → ((u : String) (k : ℕ) → c rid v u k ≡ none)
    → (ms : Messages) (uid : String) (k : ℕ)
    → all_counts c rid v w ms rid v uid k
      ≡ (if eqb (sent_in uid w k ms) 0 then none else some (sent_in uid w k ms))
unfolding all_counts incr_count
all_counts_lem c rid v w fresh [] uid k = fresh uid k
all_counts_lem c rid v w fresh ((u, t) ∷ ms) uid k = ground (
  arith,
  all_counts_lem c rid v w fresh ms uid k,
  all_counts_lem c rid v w fresh ms u (t / w),
  ==_iff u uid,
  ==_refl rid,
)

module _ (j : Json) (f : MuteFaults) (rid : String) (cfg : RoomMuteConfig) (q : Frequency)
    (frequency : has_frequency cfg.rule_type ≡ true) (filled : cfg.rule_config ≢ "")
    (parsed : parse_frequency_rule_config j cfg.rule_config ≡ some q)
    (window : is_window q.window_ms ≡ true) (incr_ok : f.count_incr ≡ false) where
  incr_step :
      (s : MuteState) (t : ℕ) (u : String)
      → get_room_mute_config f s rid ≡ some cfg
      → incr_room_message_frequency_count j f s t rid u
        ≡ record s { counts = incr_count s.counts rid (version_of f s rid) u (t / q.window_ms) }
  unfolding incr_room_message_frequency_count
  incr_step s t u found =
      ground (arith, found, frequency, ==_of_ne cfg.rule_config "" filled, parsed, window, incr_ok)

  count_messages_step :
      (s : MuteState) (ms : Messages)
      → get_room_mute_config f s rid ≡ some cfg
      → count_messages j f s rid ms
        ≡ record s { counts = all_counts s.counts rid (version_of f s rid) q.window_ms ms }
  unfolding count_messages all_counts get_room_mute_config version_of
  count_messages_step s [] found = refl
  count_messages_step s ((u, t) ∷ ms) found =
      let c = all_counts s.counts rid (version_of f s rid) q.window_ms ms in
      let counted : MuteState = record s { counts = c } in
      ap (λ x. incr_room_message_frequency_count j f x t rid u) (count_messages_step s ms found)
      ∙ incr_step counted t u found

  over_step :
      (s : MuteState) (uid : String) (now : ℕ) (c : Counters)
      → f.count_get ≡ false
      → is_user_over_frequency_limit j f (record s { counts = c }) rid uid now cfg.rule_config
        ≡ elim (c rid (version_of f s rid) uid (now / q.window_ms)) [
          | none ↦ false
          | some n ↦ not (ltb n q.max_msg)
        ]
  unfolding is_user_over_frequency_limit version_of
  over_step s uid now c ok = ground (arith, ok, parsed, window)

  -- From counters that hold nothing yet for the current version, with the limit switched on and Redis
  -- answering: after any messages by any members at any times, a member is over the limit exactly
  -- when that member has sent at least one and at least `max_msg` of them in the current window.
  pub limit_lem :
      (s : MuteState) (ms : Messages) (uid : String) (now : ℕ)
      → get_room_mute_config f s rid ≡ some cfg
      → f.count_get ≡ false
      → ((u : String) (k : ℕ) → s.counts rid (version_of f s rid) u k ≡ none)
      → is_user_over_frequency_limit j f (count_messages j f s rid ms) rid uid now cfg.rule_config
        ≡ (ltb 0 (sent_in uid q.window_ms (now / q.window_ms) ms)
            && leb q.max_msg (sent_in uid q.window_ms (now / q.window_ms) ms))
  limit_lem s ms uid now found ok fresh =
      let w = q.window_ms in
      let c = all_counts s.counts rid (version_of f s rid) w ms in
      ap (λ x. is_user_over_frequency_limit j f x rid uid now cfg.rule_config)
        (count_messages_step s ms found)
      ∙ over_step s uid now c ok
      ∙ ground (arith, all_counts_lem s.counts rid (version_of f s rid) w fresh ms uid (now / w))
