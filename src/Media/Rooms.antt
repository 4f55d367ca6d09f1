-- ===== src/Media/Rooms.antt =====
-- media/streaming/server.go: joins and leaves as updates of a map from room and user to client.
use cc_im_server.Prelude.{
  String, ℕ, ◌<◌, Bool, true, false, not, ◌&&◌, Option, none, some, List, [], ◌∷◌, is_empty, any,
  ◌==◌, if◌then◌else◌, ◌≡◌, refl, ◌∙◌, arith, ==_iff, ==_refl, Bool-cases, Option-cases, inl, inr,
}
use cc_im_server.Prelude.Assoc.{lookup, delete, lookup-insert, lookup-delete}
use cc_im_server.Media.Frame.{Bytes}
use cc_im_server.Media.Hub.{
  MediaClient, Clients, Server, new_server, get_or_create_room, put_client, add_client, take_client,
  drop_room, remove_client, Written, write_all, broadcast, client_of,
}

-- Two rooms have two hubs, and the address of the next hub is not in use.
abbrev pub IsSeparate : Server → Type 0
IsSeparate s =
    ((r r' : String) (h : ℕ) → lookup r s.rooms ≡ some h → lookup r' s.rooms ≡ some h → r ≡ r')
    × ((r : String) (h : ℕ) → lookup r s.rooms ≡ some h → h < s.next)

pub new_server-IsSeparate : IsSeparate new_server
unfolding lookup
new_server-IsSeparate = (λ r r' h e e'. ground (arith, e), λ r h e. ground (arith, e))

put_client-client_of :
    (s : Server) (h : ℕ) (c : MediaClient) (r u : String)
    → IsSeparate s
    → lookup c.rid s.rooms ≡ some h
    → client_of (put_client s h c) r u
      ≡ (if c.rid == r && c.uid == u then some c else client_of s r u)
unfolding put_client client_of
put_client-client_of s h c r u sep found = elim (Option-cases (lookup r s.rooms)) [
  | inl e ↦ ground (arith, e, found, ==_iff c.rid r)
  | inr (k, e) ↦
      ground (arith, e, found, ==_iff c.rid r, sep.0 c.rid r h, lookup-insert c.uid u c (s.hubs h))
]

create-client_of :
    (s : Server) (rid r u : String)
    → IsSeparate s
    → client_of (get_or_create_room s rid).0 r u ≡ client_of s r u
unfolding get_or_create_room client_of lookup
create-client_of s rid r u sep = elim (Option-cases (lookup r s.rooms)) [
  | inl e ↦ ground (arith, e, lookup-insert rid r s.next s.rooms, ==_iff rid r)
  | inr (k, e) ↦ ground (arith, e, lookup-insert rid r s.next s.rooms, ==_iff rid r, sep.1 r k e)
]

create-found :
    (s : Server) (rid : String)
    → lookup rid (get_or_create_room s rid).0.rooms ≡ some (get_or_create_room s rid).1
unfolding get_or_create_room
create-found s rid = ground (arith, lookup-insert rid rid s.next s.rooms, ==_refl rid)

create-IsSeparate :
    (s : Server) (rid : String) → IsSeparate s → IsSeparate (get_or_create_room s rid).0
unfolding get_or_create_room
create-IsSeparate s rid sep = elim (Option-cases (lookup rid s.rooms)) [
  | inl e ↦ (
    λ r r' h a b. ground (
      arith,
      e,
      a,
      b,
      lookup-insert rid r s.next s.rooms,
      lookup-insert rid r' s.next s.rooms,
      ==_iff rid r,
      ==_iff rid r',
      sep.0 r r' h,
      sep.1 r h,
      sep.1 r' h,
    ),
    λ r h a. ground (arith, e, a, lookup-insert rid r s.next s.rooms, ==_iff rid r, sep.1 r h),
  )
  | inr (k, e) ↦ (
    λ r r' h a b. ground (arith, e, a, b, sep.0 r r' h),
    λ r h a. ground (arith, e, a, sep.1 r h),
  )
]

-- A join stores the client for its room and user, and changes no other entry.
pub add_client-client_of :
    (s : Server) (c : MediaClient) (r u : String)
    → IsSeparate s
    → client_of (add_client s c) r u
      ≡ (if c.rid == r && c.uid == u then some c else client_of s r u)
unfolding add_client
add_client-client_of s c r u sep =
    let made = get_or_create_room s c.rid in
    put_client-client_of made.0 made.1 c r u (create-IsSeparate s c.rid sep) (create-found s c.rid)
    ∙ ground (arith, create-client_of s c.rid r u sep)

empty_lookup : (m : Clients) (u : String) → is_empty m ≡ true → lookup u m ≡ none
unfolding lookup
empty_lookup [] u h = refl
empty_lookup (x ∷ m) u h = cc

-- A leave removes whatever client is stored for its room and user, and changes no other entry.
pub remove_client-client_of :
    (s : Server) (c : MediaClient) (r u : String)
    → IsSeparate s
    → client_of (remove_client s c).0 r u
      ≡ (if c.rid == r && c.uid == u then none else client_of s r u)
unfolding remove_client take_client drop_room client_of
remove_client-client_of s c r u sep = elim (Option-cases (lookup c.rid s.rooms)) [
  | inl e ↦ ground (arith, e, ==_iff c.rid r)
  | inr (h, e) ↦
      let left = delete c.uid (s.hubs h) in
      ground (
        arith,
        e,
        sep.0 c.rid r h e,
        lookup-delete c.rid r s.rooms,
        lookup-delete c.uid u (s.hubs h),
        empty_lookup left u,
        ==_iff c.rid r,
      )
]

-- Joins and leaves keep rooms on separate hubs.
pub add_remove-IsSeparate :
    (s : Server) (c : MediaClient)
    → IsSeparate s
    → IsSeparate (add_client s c) × IsSeparate (remove_client s c).0
unfolding add_client put_client remove_client take_client drop_room
add_remove-IsSeparate s c sep =
    let made = create-IsSeparate s c.rid sep in
    (
      (λ r r' h a b. made.0 r r' h a b, λ r h a. made.1 r h a),
      elim (Option-cases (lookup c.rid s.rooms)) [
        | inl e ↦ (
          λ r r' h a b. ground (arith, e, a, b, sep.0 r r' h),
          λ r h a. ground (arith, e, a, sep.1 r h),
        )
        | inr (k, e) ↦ (
          λ r r' h a b. ground (
            arith,
            e,
            a,
            b,
            lookup-delete c.rid r s.rooms,
            lookup-delete c.rid r' s.rooms,
            sep.0 r r' h,
          ),
          λ r h a. ground (arith, e, a, lookup-delete c.rid r s.rooms, sep.1 r h),
        )
      ],
    )

abbrev pub writes_to : String → List Written → Bool
writes_to u = any (λ w. w.uid == u)

abbrev pub is_stored : Option MediaClient → Bool
is_stored none = false
is_stored (some c) = true

write_all-writes_to :
    (bytes_of : String → Bytes) (sender : String) (payload : Bytes) (u : String) (m : Clients)
    → writes_to u (write_all bytes_of sender payload m)
      ≡ (not (u == sender) && is_stored (lookup u m))
unfolding write_all lookup
write_all-writes_to bytes_of sender payload u [] = ground arith
write_all-writes_to bytes_of sender payload u ((x, c) ∷ m) = elim (Bool-cases (x == u)) [
  | inl e ↦ ground (arith, e, (==_iff x u).0 e, write_all-writes_to bytes_of sender payload u m)
  | inr e ↦ ground (arith, e, write_all-writes_to bytes_of sender payload u m)
]

-- A frame is relayed to exactly those users who have a client in the room, the sender excepted.
pub broadcast_lem :
    (bytes_of : String → Bytes) (s : Server) (rid sender : String) (payload : Bytes) (u : String)
    → writes_to u (broadcast bytes_of s rid sender payload)
      ≡ (not (u == sender) && is_stored (client_of s rid u))
unfolding broadcast client_of
broadcast_lem bytes_of s rid sender payload u = elim (Option-cases (lookup rid s.rooms)) [
  | inl e ↦ ground (arith, e)
  | inr (h, e) ↦ ground (arith, e, write_all-writes_to bytes_of sender payload u (s.hubs h))
]
