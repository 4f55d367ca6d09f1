-- ===== src/Heartbeat/Synced.antt =====
-- quic/heartbeat/manager.go: the map and the heap hold the same clients, each once, in every state.
use cc_im_server.Prelude.{
  String, ℕ, suc, true, false, Option, none, some, List, [], ◌∷◌, ◌==◌, ltb, count, elem, ◌≡◌, refl,
  ap, ◌∙◌, arith, ==_iff, ==_refl, Option-cases, Bool-cases, inl, inr,
}
use cc_im_server.Prelude.Assoc.{lookup, insert, delete, lookup-insert, lookup-delete}
use cc_im_server.Heartbeat.Heap.{Heap}
use cc_im_server.Heartbeat.Manager.{Manager, times, update_heartbeat, remove_client, take_root}

abbrev pub present : Option ℕ → ℕ
present none = 0
present (some t) = 1

abbrev pub IsSynced : Heap → Manager → Type 0
IsSynced ops m =
    ops.Ordered (times m.entries) m.heap
    × ((y : String) → count y m.heap ≡ present (lookup y m.entries))

pub elem-count : (y : String) (h : List String) → elem y h ≡ ltb 0 (count y h)
elem-count y [] = refl
elem-count y (x ∷ h) = ground (arith, elem-count y h)

times-insert :
    (entries : List (String × ℕ)) (id y : String) (now : ℕ)
    → (id == y) ≡ false
    → times entries y ≡ times (insert id now entries) y
unfolding times
times-insert entries id y now ne = ground (arith, ne, lookup-insert id y now entries)

times-delete :
    (entries : List (String × ℕ)) (id y : String)
    → (id == y) ≡ false
    → times entries y ≡ times (delete id entries) y
unfolding times
times-delete entries id y ne = ground (arith, ne, lookup-delete id y entries)

-- A client that is counted is another than one that is not.
pub other_than :
    (id y : String) (h : List String) → count id h ≡ 0 → elem y h ≡ true → (id == y) ≡ false
other_than id y h none_here here = elim (Bool-cases (id == y)) [
  | inl e ↦
      let same : id ≡ y = (==_iff id y).0 e in
      absurd (ground (arith, none_here, here, elem-count y h, same))
  | inr e ↦ e
]

module _ (ops : Heap) (m : Manager) (synced : IsSynced ops m) where
  pub update-IsSynced : (id : String) (now : ℕ) → IsSynced ops (update_heartbeat ops m id now)
  unfolding update_heartbeat
  update-IsSynced id now =
      let entries = insert id now m.entries in
      elim (Option-cases (lookup id m.entries)) [
        | inl e ↦
            let absent : count id m.heap ≡ 0 = ground (arith, e, synced.1 id) in
            let kept =
              ops.same_times (times m.entries) (times entries) m.heap
                (λ y here. times-insert m.entries id y now (other_than id y m.heap absent here))
                synced.0 in
            let ordered = ops.push-Ordered (times entries) m.heap id kept in
            (
              rw e ordered,
              λ y. ground (
                arith,
                e,
                ops.count-push (times entries) m.heap id y,
                synced.1 y,
                lookup-insert id y now m.entries,
                ==_iff id y,
              ),
            )
        | inr (old, e) ↦
            let here : count id m.heap ≡ 1 = ground (arith, e, synced.1 id) in
            let ordered =
              ops.fix-Ordered (times m.entries) (times entries) m.heap id
                (λ y ne. times-insert m.entries id y now ne) synced.0 here in
            (
              rw e ordered,
              λ y. ground (
                arith,
                e,
                here,
                ops.count-fix (times entries) m.heap id y here,
                synced.1 y,
                lookup-insert id y now m.entries,
                ==_iff id y,
              ),
            )
      ]

  pub remove-IsSynced : (id : String) → IsSynced ops (remove_client ops m id)
  unfolding remove_client
  remove-IsSynced id = elim (Option-cases (lookup id m.entries)) [
    | inl e ↦ rw e synced
    | inr (old, e) ↦
        let here : count id m.heap ≡ 1 = ground (arith, e, synced.1 id) in
        let h = ops.remove (times m.entries) m.heap id in
        let absent : count id h ≡ 0 = ground (
          arith,
          e,
          here,
          synced.1 id,
          ops.count-remove (times m.entries) m.heap id id here,
          ==_refl id,
        ) in
        let ordered =
          ops.same_times (times m.entries) (times (delete id m.entries)) h
            (λ y at. times-delete m.entries id y (other_than id y h absent at))
            (ops.remove-Ordered (times m.entries) m.heap id synced.0) in
        (
          rw e ordered,
          λ y. ground (
            arith,
            e,
            ops.count-remove (times m.entries) m.heap id y here,
            synced.1 y,
            lookup-delete id y m.entries,
            ==_iff id y,
          ),
        )
  ]

  pub root-IsSynced :
      (id : String) (h : List String) → m.heap ≡ id ∷ h → IsSynced ops (take_root ops m id)
  unfolding take_root
  root-IsSynced id h e =
      let t = times m.entries in
      let popped = ops.pop t (id ∷ h) in
      let once : suc (count id h) ≡ present (lookup id m.entries) =
        ground (arith, ap (count id) e, synced.1 id, ==_refl id) in
      let absent : count id popped ≡ 0 = elim (Option-cases (lookup id m.entries)) [
        | inl g ↦ absurd (ground (arith, g, once))
        | inr (last, g) ↦ ground (arith, g, once, ops.count-pop t id id h)
      ] in
      let ordered =
        ops.same_times t (times (delete id m.entries)) popped
          (λ y at. times-delete m.entries id y (other_than id y popped absent at))
          (ops.pop-Ordered t id h (rw (← e) synced.0)) in
      (
        rw e ordered,
        λ y.
            ap (λ heap. count y (ops.pop t heap)) e
            ∙ ground (
              arith,
              absent,
              once,
              ops.count-pop t id y h,
              ap (count y) e,
              synced.1 y,
              lookup-delete id y m.entries,
              ==_iff id y,
            ),
      )
