-- ===== src/Delivery/Fanout.antt =====
-- push/presence.go and push/fanout.go: users by node, and one publication for each node.
use cc_im_server.Prelude.{
  String, Bool, true, false, ◌&&◌, ◌||◌, Option, none, some, List, [], ◌∷◌, ◌++◌, any, ◌==◌, elem,
  is_empty, if◌then◌else◌, ◌≡◌,
}
use cc_im_server.Prelude.Assoc.{lookup, insert}
use cc_im_server.Delivery.Store.{Store, Faults}

-- The node of a user who is present; none also for an error and for an empty text.
filled : Option String → Option String
filled none = none
filled (some node) = if node == "" then none else some node

unfoldable pub node_for_user : Faults → Store → String → Option String
unfolding filled
node_for_user f s uid =
    if uid == "" || f.presence_get uid then none else filled (lookup uid s.presence)

abbrev pub Groups : Type 0
Groups = List (String × List String)

or_nil : Option (List String) → List String
or_nil none = []
or_nil (some us) = us

unfoldable pub group : String → Groups → List String
unfolding or_nil
group node g = or_nil (lookup node g)

unfoldable pub place : Option String → String → Groups → Groups
place none uid out = out
place (some node) uid out = insert node (group node out ++ uid ∷ []) out

unfoldable pub group_loop : Faults → Store → List String → Groups → List String → Groups
group_loop f s seen out [] = out
group_loop f s seen out (uid ∷ uids) =
    let skipped = group_loop f s seen out uids in
    let placed = group_loop f s (uid ∷ seen) (place (node_for_user f s uid) uid out) uids in
    if uid == "" then skipped else if elem uid seen then skipped else placed

unfoldable pub group_uids_by_node : Faults → Store → List String → Groups
group_uids_by_node f s uids = group_loop f s [] [] uids

-- A deliver message on the channel of one node.
pub record Published : Type 0 where
  pub node : String
  pub mid : String
  pub target_uids : List String

-- The loop over the nodes of the map, in the order `keys`, until a publication fails; whether all
-- succeeded. Publishing to the node with an empty name does nothing.
unfoldable pub fanout_loop : Faults → String → Groups → List String → List Published × Bool
fanout_loop f mid g [] = ([], true)
fanout_loop f mid g (node ∷ keys) =
    let (rest, done) = fanout_loop f mid g keys in
    if is_empty (group node g)
    then (rest, done)
    else if node == ""
    then (rest, done)
    else if f.publish node
    then ([], false)
    else (record { node = node; mid = mid; target_uids = group node g } ∷ rest, done)

-- `order` is the order in which Go happens to range over the map.
unfoldable pub fanout_room_message_delivery :
    Faults → Store → (Groups → List String) → String → List String → List Published × Bool
fanout_room_message_delivery f s order mid recipients =
    let g = group_uids_by_node f s recipients in
    if mid == "" then ([], true) else fanout_loop f mid g (order g)

-- An order of a map visits its keys and nothing else.
abbrev pub IsOrder : (Groups → List String) → Type 0
IsOrder order =
    (g : Groups) (k : String)
    → elem k (order g) ≡ elim (lookup k g) [ none ↦ false | some us ↦ true ]

-- Whether a publication to the node names the user.
abbrev pub reaches : String → String → List Published → Bool
reaches node uid = any (λ p. p.node == node && elem uid p.target_uids)

unfoldable pub goes_to : Faults → Store → String → String → Bool
goes_to f s uid node = elim (node_for_user f s uid) [ none ↦ false | some n ↦ n == node ]
