-- ===== src/Heartbeat/Overdue.antt =====
-- quic/heartbeat/manager.go, checkTimeouts: which clients a check reports.
use cc_im_server.Prelude.{
  String, ℕ, zero, suc, ◌+◌, ◌≤◌, ◌<◌, Bool, true, false, not, ◌&&◌, ◌||◌, Option, none, some, List,
  [], ◌∷◌, ◌==◌, ltb, if◌then◌else◌, count, elem, length, ◌≡◌, refl, ap, ◌∙◌, arith, ==_iff,
  ==_refl, Option-cases, Bool-cases, inl, inr,
}
use cc_im_server.Prelude.Assoc.{lookup, lookup-delete}
use cc_im_server.Heartbeat.Heap.{Heap}
use cc_im_server.Heartbeat.Manager.{
  Manager, times, take_root, check_loop, check_timeouts, batch_size,
}
use cc_im_server.Heartbeat.Synced.{present, IsSynced, elem-count, root-IsSynced}

late : ℕ → ℕ → Option ℕ → Bool
late timeout now none = false
late timeout now (some last) = ltb (last + timeout) now

-- The client is known, and its last heartbeat is longer ago than the timeout.
unfoldable pub is_overdue : Manager → ℕ → String → Bool
unfolding late
is_overdue m now y = late m.timeout now (lookup y m.entries)

-- What a check from this state with these rounds must give.
pub record Reports (m : Manager) (now rounds : ℕ) (left : Manager) (ids : List String)
    : Type 0 where
  pub timeout_kept : left.timeout ≡ m.timeout
  pub taken :
      (y : String) → lookup y left.entries ≡ (if elem y ids then none else lookup y m.entries)
  pub overdue : (y : String) → elem y ids ≡ true → is_overdue m now y ≡ true
  pub bounded : length ids ≤ rounds
  pub complete : (y : String) → length ids < rounds → is_overdue left now y ≡ false

module _ (ops : Heap) (now : ℕ) where
  nothing : (m : Manager) → Reports m now 0 m []
  nothing m = record {
    timeout_kept = refl;
    taken = λ y. refl;
    overdue = λ y h. cc;
    bounded = omega arith;
    complete = λ y h. absurd (omega (arith, h));
  }

  -- Where the root is not overdue, no client is.
  root_fresh :
      (m : Manager) (id : String) (h : List String)
      → IsSynced ops m
      → m.heap ≡ id ∷ h
      → ltb (times m.entries id + m.timeout) now ≡ false
      → (y : String) → is_overdue m now y ≡ false
  unfolding is_overdue
  root_fresh m id h (ordered, counted) e fresh y = elim (Option-cases (lookup y m.entries)) [
    | inl g ↦ ground (arith, g)
    | inr (last, g) ↦
        let time : times m.entries y ≡ last = unfold times in ground (arith, g) in
        let here : elem y (id ∷ h) ≡ true =
          ground (arith, g, counted y, ap (count y) e, elem-count y (id ∷ h)) in
        elim (Bool-cases (id == y)) [
          | inl s ↦ let same : id ≡ y = (==_iff id y).0 s in ground (arith, g, fresh, time, same)
          | inr s ↦
              let below : times m.entries id ≤ times m.entries y =
                ops.root_min (times m.entries) id y h (rw (← e) ordered)
                  (ground (arith, here, s)) in
              ground (arith, g, fresh, time, below)
        ]
  ]

  stops :
      (m : Manager) (id : String) (h : List String) (rounds : ℕ)
      → IsSynced ops m
      → m.heap ≡ id ∷ h
      → ltb (times m.entries id + m.timeout) now ≡ false
      → Reports m now rounds m []
  stops m id h rounds synced e fresh = record {
    timeout_kept = refl;
    taken = λ y. refl;
    overdue = λ y at. cc;
    bounded = omega arith;
    complete = λ y at. root_fresh m id h synced e fresh y;
  }

  taken_more :
      (m left : Manager) (id : String) (h ids : List String) (rounds : ℕ)
      → IsSynced ops m
      → m.heap ≡ id ∷ h
      → ltb (times m.entries id + m.timeout) now ≡ true
      → Reports (take_root ops m id) now rounds left ids
      → Reports m now (suc rounds) left (id ∷ ids)
  unfolding take_root is_overdue times
  taken_more m left id h ids rounds (_, counted) e late_root rest =
      let known : present (lookup id m.entries) ≡ suc (count id h) =
        ground (arith, counted id, ap (count id) e, ==_refl id) in
      record {
        timeout_kept = rest.timeout_kept;
        taken = λ y. ground (arith, rest.taken y, lookup-delete id y m.entries);
        overdue = λ y at. elim (Bool-cases (id == y)) [
          | inl s ↦
              let same : id ≡ y = (==_iff id y).0 s in
              elim (Option-cases (lookup id m.entries)) [
                | inl g ↦ absurd (ground (arith, g, known))
                | inr (last, g) ↦
                    ground (arith, g, late_root, same, ap (λ x. lookup x m.entries) same)
              ]
          | inr s ↦
              ground
                (arith, s, rest.overdue y (ground (arith, s, at)), lookup-delete id y m.entries)
        ];
        bounded = omega (arith, rest.bounded);
        complete = λ y at. rest.complete y (omega (arith, at));
      }

  fixed_root :
      (m : Manager) (id : String) (h : List String)
      → IsSynced ops m
      → m.heap ≡ id ∷ h
      → IsSynced ops (record m { heap = ops.fix (times m.entries) m.heap id })
  fixed_root m id h (ordered, counted) e =
      let t = times m.entries in
      let here : count id m.heap ≡ 1 = elim (Option-cases (lookup id m.entries)) [
        | inl g ↦ absurd (ground (arith, g, counted id, ap (count id) e, ==_refl id))
        | inr (last, g) ↦ ground (arith, g, counted id)
      ] in
      (
        ops.fix-Ordered t t m.heap id (λ y ne. refl) ordered here,
        λ y. ops.count-fix t m.heap id y here ∙ counted y,
      )

  nobody : (m : Manager) → IsSynced ops m → m.heap ≡ [] → (y : String) → is_overdue m now y ≡ false
  unfolding is_overdue
  nobody m (_, counted) e y = elim (Option-cases (lookup y m.entries)) [
    | inl g ↦ ground (arith, g)
    | inr (last, g) ↦ absurd (ground (arith, g, counted y, ap (count y) e))
  ]

  loop_reports :
      (rounds : ℕ) (m : Manager) (h : List String)
      → IsSynced ops m
      → m.heap ≡ h
      → Reports m now rounds (check_loop ops rounds m now h).0 (check_loop ops rounds m now h).1
        × IsSynced ops (check_loop ops rounds m now h).0
  loop_reports zero m [] synced e = unfold check_loop in (nothing m, synced)
  loop_reports zero m (id ∷ h) synced e = unfold check_loop in (nothing m, synced)
  loop_reports (suc rounds) m [] synced e =
      unfold check_loop in
      (
        record {
          timeout_kept = refl;
          taken = λ y. refl;
          overdue = λ y at. cc;
          bounded = omega arith;
          complete = λ y at. nobody m synced e y;
        },
        synced,
      )
  loop_reports (suc rounds) m (id ∷ h) synced e =
      let m' = take_root ops m id in
      let (rest, kept) = loop_reports rounds m' m'.heap (root-IsSynced ops m synced id h e) refl in
      let last = times m.entries id in
      elim (Bool-cases (ltb now (last + m.timeout))) [
        | inl early ↦
            let step : check_loop ops (suc rounds) m now (id ∷ h) ≡ (m, []) =
              unfold check_loop in ground (arith, early) in
            rw step (stops m id h (suc rounds) synced e (ground (arith, early)), synced)
        | inr due ↦ elim (Bool-cases (ltb (last + m.timeout) now)) [
          | inl over ↦
              let more = check_loop ops rounds m' now m'.heap in
              let step : check_loop ops (suc rounds) m now (id ∷ h) ≡ (more.0, id ∷ more.1) =
                unfold check_loop in ground (arith, due, over) in
              rw step (taken_more m more.0 id h more.1 rounds synced e over rest, kept)
          | inr exact ↦
              let m'' : Manager = record m { heap = ops.fix (times m.entries) m.heap id } in
              let step : check_loop ops (suc rounds) m now (id ∷ h) ≡ (m'', []) =
                unfold check_loop in ground (arith, due, exact) in
              rw step (
                record {
                  timeout_kept = refl;
                  taken = λ y. refl;
                  overdue = λ y at. cc;
                  bounded = omega arith;
                  complete = λ y at. unfold is_overdue in root_fresh m id h synced e exact y;
                },
                fixed_root m id h synced e,
              )
        ]
      ]

  -- Where the heap is in order and holds each client of the map once: every client that a check
  -- reports is overdue, and is forgotten, while every other client keeps its last heartbeat; a
  -- check reports a batch of 100 clients at most, and if it reports fewer, it reports every client
  -- that is overdue.
  pub check_timeouts_lem :
      (m : Manager) (y : String)
      → IsSynced ops m
      → let (left, ids) = check_timeouts ops m now in
        (lookup y left.entries ≡ (if elem y ids then none else lookup y m.entries))
        × ((not (elem y ids) || is_overdue m now y) ≡ true)
        × (length ids ≤ 100)
        × ((ltb (length ids) 100 && not (elem y ids) && is_overdue m now y) ≡ false)
  unfolding check_timeouts
  check_timeouts_lem m y synced =
      let r = check_loop ops batch_size m now m.heap in
      let (reports, _) = loop_reports batch_size m m.heap synced refl in
      let over = reports.overdue y in
      (
        reports.taken y,
        elim (Bool-cases (elem y r.1)) [
          | inl e ↦ ground (arith, e, reports.overdue y e)
          | inr e ↦ ground (arith, e)
        ],
        reports.bounded,
        elim (Bool-cases (ltb (length r.1) 100)) [
          | inl e ↦
              unfold is_overdue in
              ground (
                arith,
                e,
                reports.taken y,
                reports.timeout_kept,
                reports.complete y (ground (arith, e)),
              )
          | inr e ↦ ground (arith, e)
        ],
      )

  pub check-IsSynced : (m : Manager) → IsSynced ops m → IsSynced ops (check_timeouts ops m now).0
  unfolding check_timeouts
  check-IsSynced m synced = (loop_reports batch_size m m.heap synced refl).1
