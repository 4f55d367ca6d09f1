-- ===== src/Call/Intact.antt =====
-- http/handler/media/stream.go: how the keys and the record of one call belong together.
use cc_im_server.Prelude.{
  String, ℕ, Bool, true, false, ◌&&◌, ◌||◌, Option, none, some, List, [], ◌∷◌, ◌==◌, eqb, leb,
  if◌then◌else◌, suc, ◌≡◌, arith, ==_iff, Option-cases, inl, inr, ap, ◌∙◌, sym,
}
use cc_im_server.Prelude.Assoc.{lookup, insert, delete, lookup-insert, lookup-delete}
use cc_im_server.Call.Tables.{
  CallInvite, CallState, fresh_state, CallRecord, Calls, Caller, get_invite, get_state, state_of,
}

unfoldable pub times : String → List CallRecord → ℕ
times id [] = 0
times id (r ∷ rows) = let n = times id rows in if r.invite.call_id == id then suc n else n

-- A call that has an invitation has a state, and is recorded once if it has ended and else never;
-- a call that has none is recorded at most once.
intact_entry : String → ℕ → Option CallInvite → Option CallState → Bool
intact_entry id n none s = leb n 1
intact_entry id n (some i) none = false
intact_entry id n (some i) (some s) =
    i.call_id == id && s.call_id == id && (eqb n 0 || (eqb n 1 && s.ended))

unfoldable pub intact :
    String → List (String × CallInvite) → List (String × CallState) → List CallRecord → Bool
unfolding intact_entry
intact id invites states rows =
    intact_entry id (times id rows) (lookup id invites) (lookup id states)

abbrev pub IsIntact : Calls → Type 0
IsIntact c = (id : String) → intact id c.invites c.states c.records ≡ true

-- A call that is stored with its state.
abbrev pub IsStored : Calls → String → CallInvite → CallState → Type 0
IsStored c id i s =
    (lookup id c.invites ≡ some i)
    × (lookup id c.states ≡ some s)
    × (i.call_id ≡ id)
    × (s.call_id ≡ id)

pub found_lem :
    (fails : Bool) (c : Calls) (k : String) (i : CallInvite)
    → fails ≡ false
    → lookup k c.invites ≡ some i
    → (i.call_id == "") ≡ false
    → get_invite fails c k ≡ some i
unfolding get_invite
found_lem fails c k i ok a named = ground (arith, ok, a, named)

pub state_of_lem :
    (e : Caller) (c : Calls) (i : CallInvite) (k : String) (s : CallState)
    → e.faults.state_get ≡ false
    → lookup k c.states ≡ some s
    → (s.call_id == "") ≡ false
    → state_of e c i k ≡ s
unfolding state_of get_state
state_of_lem e c i k s ok b named = ground (arith, ok, b, named)

-- A call whose invitation is found is stored with the state that the handlers work on.
pub held :
    (e : Caller) (c : Calls) (fails : Bool) (id : String) (i : CallInvite)
    → e.faults.state_get ≡ false
    → intact id c.invites c.states c.records ≡ true
    → get_invite fails c id ≡ some i
    → IsStored c id i (state_of e c i id) × (get_state e.faults.state_get c id ≡ state_of e c i id)
unfolding intact get_invite get_state state_of
held e c fails id i healthy h found = elim (Option-cases (lookup id c.invites)) [
  | inl a ↦ absurd (ground (arith, a, found))
  | inr (i', a) ↦ elim (Option-cases (lookup id c.states)) [
    | inl b ↦ absurd (ground (arith, a, b, h))
    | inr (s, b) ↦
        let same : i' ≡ i = ground (arith, a, found) in
        let named : (i'.call_id == "") ≡ false = ground (arith, a, found) in
        let k : i'.call_id ≡ id = ground (arith, a, b, h, ==_iff i'.call_id id) in
        let k' : s.call_id ≡ id = ground (arith, a, b, h, ==_iff s.call_id id) in
        let named' : (s.call_id == "") ≡ false = sym (ap (λ t. t == "") (k ∙ sym k')) ∙ named in
        let got : get_state e.faults.state_get c id ≡ s = ground (arith, b, healthy) in
        let of : state_of e c i id ≡ s = ground (arith, b, healthy, named') in
        (
          (
            a ∙ ap some same,
            b ∙ ap some (sym of),
            sym (ap (λ x. x.call_id) same) ∙ k,
            ap (λ x. x.call_id) of ∙ k',
          ),
          got ∙ sym of,
        )
  ]
]

-- A new state of a call that has as much ended as the old one.
pub set_keeps :
    (id k : String) (i : CallInvite) (s s' : CallState) (invites : List (String × CallInvite))
    (states : List (String × CallState)) (rows : List CallRecord)
    → lookup k invites ≡ some i
    → lookup k states ≡ some s
    → s'.call_id ≡ s.call_id
    → s'.ended ≡ s.ended
    → intact id invites states rows ≡ true
    → intact id invites (insert k s' states) rows ≡ true
unfolding intact
set_keeps id k i s s' invites states rows a b same ends h =
    let moved = lookup-insert k id s' states in
    elim (Option-cases (lookup id invites)) [
      | inl e ↦ ground (arith, e, h)
      | inr (i', e) ↦ elim (Option-cases (lookup id states)) [
        | inl e' ↦ absurd (ground (arith, e, e', h))
        | inr (s'', e') ↦ ground (arith, a, b, same, ends, h, e, e', moved, ==_iff k id)
      ]
    ]

pub destroy_keeps :
    (id t : String) (invites : List (String × CallInvite)) (states : List (String × CallState))
    (rows : List CallRecord)
    → intact id invites states rows ≡ true
    → intact id
        (if t == "" then invites else delete t invites)
        (if t == "" then states else delete t states)
        rows
      ≡ true
unfolding intact
destroy_keeps id t invites states rows h =
    let gone = lookup-delete t id invites in
    let gone' = lookup-delete t id states in
    elim (Option-cases (lookup id invites)) [
      | inl e ↦ ground (arith, e, h, gone, gone')
      | inr (i, e) ↦ elim (Option-cases (lookup id states)) [
        | inl e' ↦ absurd (ground (arith, e, e', h))
        | inr (s, e') ↦ ground (arith, e, e', h, gone, gone')
      ]
    ]

-- The end of a call that had not ended, with its record unless that fails.
pub record_keeps :
    (id k : String) (i : CallInvite) (s s' : CallState) (r : CallRecord) (fails : Bool)
    (invites : List (String × CallInvite)) (states : List (String × CallState))
    (rows : List CallRecord)
    → lookup k invites ≡ some i
    → lookup k states ≡ some s
    → s.ended ≡ false
    → s'.call_id ≡ s.call_id
    → s'.ended ≡ true
    → r.invite.call_id ≡ k
    → intact id invites states rows ≡ true
    → intact id invites (insert k s' states) (if fails then rows else r ∷ rows) ≡ true
unfolding intact times
record_keeps id k i s s' r fails invites states rows a b running same ends named h =
    let moved = lookup-insert k id s' states in
    elim (Option-cases (lookup id invites)) [
      | inl e ↦ ground (arith, a, named, e, h, ==_iff k id, ==_iff r.invite.call_id id)
      | inr (i', e) ↦ elim (Option-cases (lookup id states)) [
        | inl e' ↦ absurd (ground (arith, e, e', h))
        | inr (s'', e') ↦ ground (
          arith,
          a,
          b,
          running,
          same,
          ends,
          named,
          h,
          e,
          e',
          moved,
          ==_iff k id,
          ==_iff r.invite.call_id id,
        )
      ]
    ]

-- A call under an identifier that is not recorded yet.
pub create_keeps :
    (id : String) (i : CallInvite) (invites : List (String × CallInvite))
    (states : List (String × CallState)) (rows : List CallRecord)
    → times i.call_id rows ≡ 0
    → intact id invites states rows ≡ true
    → intact id (insert i.call_id i invites) (insert i.call_id (fresh_state i) states) rows ≡ true
unfolding intact
create_keeps id i invites states rows fresh h = ground (
  arith,
  fresh,
  h,
  lookup-insert i.call_id id i invites,
  lookup-insert i.call_id id (fresh_state i) states,
  ==_iff i.call_id id,
)
