-- ===== src/Delivery/Routing.antt =====
-- push: every recipient who is present is reached, on the node that holds the connection.
use cc_im_server.Prelude.{
  String, ◌+◌, ◌≤◌, true, false, not, ◌&&◌, ◌||◌, some, List, [], ◌∷◌, ◌++◌, ◌==◌, elem,
  elem-append, is_empty, count, if◌then◌else◌, ◌≡◌, ◌≢◌, refl, ap, ◌∙◌, arith, ==_iff, ==_of_ne,
  Bool-cases, Option-cases, inl, inr,
}
use cc_im_server.Prelude.Assoc.{lookup, lookup-insert}
use cc_im_server.Delivery.Store.{Store, Faults}
use cc_im_server.Delivery.Fanout.{
  node_for_user, Groups, group, place, group_loop, group_uids_by_node, fanout_loop,
  fanout_room_message_delivery, IsOrder, reaches, goes_to,
}

elem-place :
    (m v u n : String) (out : Groups)
    → elem u (group n (place (some m) v out)) ≡ (elem u (group n out) || (m == n && v == u))
unfolding place group
elem-place m v u n out = elim (Bool-cases (m == n)) [
  | inl e ↦ ground (
    arith,
    e,
    (==_iff m n).0 e,
    lookup-insert m n (group m out ++ v ∷ []) out,
    elem-append u (group m out) (v ∷ []),
  )
  | inr e ↦ ground (arith, e, lookup-insert m n (group m out ++ v ∷ []) out)
]

empty_elem : (u : String) (us : List String) → is_empty us ≡ true → elem u us ≡ false
empty_elem u [] h = refl
empty_elem u (x ∷ us) h = cc

elem-place_for :
    (f : Faults) (s : Store) (v u n : String) (out : Groups)
    → elem u (group n (place (node_for_user f s v) v out))
      ≡ (elem u (group n out) || (v == u && goes_to f s v n))
unfolding goes_to place
elem-place_for f s v u n out = elim (Option-cases (node_for_user f s v)) [
  | inl e ↦ rw e (ground arith)
  | inr (m, e) ↦ rw e (ground (arith, elem-place m v u n out))
]

-- What the loop adds for one user and one node.
elem-group_loop :
    (f : Faults) (s : Store) (u n : String) (seen : List String) (out : Groups) (uids : List String)
    → elem u (group n (group_loop f s seen out uids)) ≡ (
        elem u (group n out)
        || (elem u uids && not (u == "") && not (elem u seen) && goes_to f s u n))
unfolding group_loop
elem-group_loop f s u n seen out [] = ground arith
elem-group_loop f s u n seen out (v ∷ uids) =
    let skipped = elem-group_loop f s u n seen out uids in
    let placed = elem-group_loop f s u n (v ∷ seen) (place (node_for_user f s v) v out) uids in
    let added = elem-place_for f s v u n out in
    elim (Bool-cases (v == u)) [
      | inl e ↦ ground (arith, e, (==_iff v u).0 e, skipped, placed, added)
      | inr e ↦ ground (arith, e, skipped, placed, added)
    ]

count-append : (a : String) (xs ys : List String) → count a (xs ++ ys) ≡ count a xs + count a ys
count-append a [] ys = omega arith
count-append a (x ∷ xs) ys = ground (arith, count-append a xs ys)

count-place :
    (f : Faults) (s : Store) (v u n : String) (out : Groups)
    → count u (group n (place (node_for_user f s v) v out))
      ≤ count u (group n out) + (if v == u then 1 else 0)
unfolding place group
count-place f s v u n out = elim (Option-cases (node_for_user f s v)) [
  | inl e ↦ rw e (omega arith)
  | inr (m, e) ↦ elim (Bool-cases (m == n)) [
    | inl k ↦ ground (
      arith,
      e,
      k,
      (==_iff m n).0 k,
      lookup-insert m n (group m out ++ v ∷ []) out,
      count-append u (group m out) (v ∷ []),
    )
    | inr k ↦ ground (arith, e, k, lookup-insert m n (group m out ++ v ∷ []) out)
  ]
]

-- No user stands twice in the group of a node.
count-group_loop :
    (f : Faults) (s : Store) (u n : String) (seen : List String) (out : Groups) (uids : List String)
    → count u (group n out) ≤ (if elem u seen then 1 else 0)
    → count u (group n (group_loop f s seen out uids)) ≤ 1
unfolding group_loop
count-group_loop f s u n seen out [] h = ground (arith, h)
count-group_loop f s u n seen out (v ∷ uids) h =
    let skipped = count-group_loop f s u n seen out uids h in
    let placed = count-group_loop f s u n (v ∷ seen) (place (node_for_user f s v) v out) uids in
    let added = count-place f s v u n out in
    ground (arith, skipped, placed, added, ==_iff v u, ==_iff u v)

module _ (f : Faults) (mid : String) (g : Groups) where
  reaches-fanout_loop :
      ((n : String) → f.publish n ≡ false)
      → (keys : List String) (n u : String)
      → reaches n u (fanout_loop f mid g keys).0
        ≡ (elem n keys && not (n == "") && elem u (group n g))
  unfolding fanout_loop
  reaches-fanout_loop ok [] n u = refl
  reaches-fanout_loop ok (k ∷ keys) n u =
      let ih = reaches-fanout_loop ok keys n u in
      elim (Bool-cases (k == n)) [
        | inl e ↦ ground (arith, e, (==_iff k n).0 e, ok k, ih, empty_elem u (group k g))
        | inr e ↦ ground (arith, e, ok k, ih)
      ]

goes_to-blank : (f : Faults) (s : Store) (u : String) → goes_to f s u "" ≡ false
unfolding goes_to node_for_user
goes_to-blank f s u = ground arith

-- The group of a node is not empty only under a key of the map.
elem-order :
    (order : Groups → List String) (g : Groups) (n u : String)
    → IsOrder order
    → (elem n (order g) && elem u (group n g)) ≡ elem u (group n g)
unfolding group
elem-order order g n u h = elim (Option-cases (lookup n g)) [
  | inl e ↦ ground (arith, e, h g n)
  | inr (us, e) ↦ ground (arith, e, h g n)
]

module _ (f : Faults) (s : Store) (order : Groups → List String) (mid : String)
    (uids : List String) where
  elem-grouped :
      (n u : String)
      → elem u (group n (group_uids_by_node f s uids))
        ≡ (elem u uids && not (u == "") && goes_to f s u n)
  unfolding group_uids_by_node group lookup
  elem-grouped n u = ground (arith, elem-group_loop f s u n [] [] uids)

  -- No user is named twice to the same node.
  pub count-grouped : (n u : String) → count u (group n (group_uids_by_node f s uids)) ≤ 1
  unfolding group_uids_by_node group lookup
  count-grouped n u = count-group_loop f s u n [] [] uids (omega arith)

  fanout_step :
      mid ≢ ""
      → fanout_room_message_delivery f s order mid uids
        ≡ fanout_loop f mid (group_uids_by_node f s uids) (order (group_uids_by_node f s uids))
  unfolding fanout_room_message_delivery
  fanout_step named = ground (arith, ==_of_ne mid "" named)

  -- When no publication fails and Go ranges over the map in any order of its keys, a publication to
  -- a node names exactly those of the given users whose present node it is.
  pub reaches-fanout :
      IsOrder order
      → mid ≢ ""
      → ((n : String) → f.publish n ≡ false)
      → (n u : String)
      → reaches n u (fanout_room_message_delivery f s order mid uids).0
        ≡ (elem u uids && not (u == "") && goes_to f s u n)
  reaches-fanout h named ok n u =
      let g = group_uids_by_node f s uids in
      ap (λ p. reaches n u p.0) (fanout_step named)
      ∙ ground (
        arith,
        reaches-fanout_loop f mid g ok (order g) n u,
        elem-order order g n u h,
        elem-grouped n u,
        goes_to-blank f s u,
        ==_iff n "",
      )
