-- ===== src/Call/Corrected.antt =====
-- http/handler/media/stream.go: the check of who is still in a call.
use cc_im_server.Prelude.{
  String, Bool, true, false, not, ◌&&◌, ◌||◌, List, [], ◌∷◌, ◌==◌, if◌then◌else◌, ◌≡◌, refl, arith,
  ==_iff, Bool-cases, inl, inr, ap, ◌∙◌,
}
use cc_im_server.Prelude.Assoc.{lookup-delete}
use cc_im_server.Call.Tables.{Caller, trim, get_string}
use cc_im_server.Call.Sessions.{clear_user_active_call_mapping, correct_active}

abbrev pub points_to : Caller → String → List (String × String) → String → Bool
points_to e call_id table uid = trim e (get_string e.faults.user_get table uid) == call_id

-- The current call of every one of these users is the call.
unfoldable pub all_current : Caller → String → List (String × String) → List String → Bool
all_current e call_id table [] = true
all_current e call_id table (uid ∷ uids) =
    points_to e call_id table uid && all_current e call_id table uids

cleared_other :
    (e : Caller) (call_id u v : String) (table : List (String × String))
    → points_to e call_id table (trim e u) ≡ false
    → points_to e call_id table v ≡ true
    → get_string e.faults.user_get (clear_user_active_call_mapping e u table) v
      ≡ get_string e.faults.user_get table v
unfolding clear_user_active_call_mapping get_string
cleared_other e call_id u v table away here = ground (
  arith,
  away,
  here,
  lookup-delete (trim e u) v table,
  ==_iff (trim e u) v,
  ap (points_to e call_id table),
)

-- The loop leaves alone the users whose current call is the call.
kept_current :
    (e : Caller) (call_id v : String) (uids : List String) (table : List (String × String))
    → ((t : String) → trim e (trim e t) ≡ trim e t)
    → points_to e call_id table v ≡ true
    → get_string e.faults.user_get (correct_active e call_id uids table).1 v
      ≡ get_string e.faults.user_get table v
unfolding correct_active
kept_current e call_id v [] table twice here = refl
kept_current e call_id v (u ∷ uids) table twice here =
    let out = (trim e u == "") || points_to e call_id table (trim e u) in
    let cleared = clear_user_active_call_mapping e (trim e u) table in
    let next = if out then table else cleared in
    let same : get_string e.faults.user_get next v ≡ get_string e.faults.user_get table v =
      elim (Bool-cases out) [
        | inl stays ↦ ap (λ b. get_string e.faults.user_get (if b then table else cleared) v) stays
        | inr goes ↦
            ap (λ b. get_string e.faults.user_get (if b then table else cleared) v) goes
            ∙ cleared_other e call_id (trim e u) v table
                (ap (points_to e call_id table) (twice u) ∙ ground (arith, goes)) here
      ] in
    let here' : points_to e call_id next v ≡ true = ap (λ t. trim e t == call_id) same ∙ here in
    kept_current e call_id v uids next twice here' ∙ same

pub correct_lem :
    (e : Caller) (call_id : String) (uids : List String) (table : List (String × String))
    → ((t : String) → trim e (trim e t) ≡ trim e t)
    → all_current e call_id
        (correct_active e call_id uids table).1
        (correct_active e call_id uids table).0
      ≡ true
unfolding correct_active all_current
correct_lem e call_id [] table twice = refl
correct_lem e call_id (u ∷ uids) table twice =
    let v = trim e u in
    let out = (v == "") || points_to e call_id table v in
    let cleared = clear_user_active_call_mapping e (trim e u) table in
    let next = if out then table else cleared in
    let rest = correct_lem e call_id uids next twice in
    elim (Bool-cases (not (v == "") && points_to e call_id table v)) [
      | inl here ↦
          let points : points_to e call_id table v ≡ true = ground (arith, here) in
          let out_is : out ≡ true = ground (arith, points) in
          let next_is : next ≡ table = ap (λ b. if b then table else cleared) out_is in
          let still : points_to e call_id next v ≡ true =
            ap (λ t. points_to e call_id t v) next_is ∙ points in
          let same = kept_current e call_id v uids next twice still in
          let kept : points_to e call_id (correct_active e call_id uids next).1 v ≡ true =
            ap (λ t. trim e t == call_id) same ∙ still in
          let whole : all_current e call_id (correct_active e call_id uids next).1
                (v ∷ (correct_active e call_id uids next).0)
              ≡ true =
            ground (arith, kept, rest) in
          ap
            (λ b. all_current e call_id (correct_active e call_id uids next).1 (
              if b
              then v ∷ (correct_active e call_id uids next).0
              else (correct_active e call_id uids next).0))
            here
          ∙ whole
      | inr away ↦
          ap
            (λ b. all_current e call_id (correct_active e call_id uids next).1 (
              if b
              then v ∷ (correct_active e call_id uids next).0
              else (correct_active e call_id uids next).0))
            away
          ∙ rest
    ]
