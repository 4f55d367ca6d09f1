-- ===== src/Media/Races.antt =====
-- media/streaming/server.go: a reconnect before the old connection has left, and a join while the last
-- member leaves.
use cc_im_server.Prelude.{String, ℕ, true, false, none, some, ◌≡◌, arith, ==_refl}
use cc_im_server.Prelude.Assoc.{lookup, lookup-delete}
use cc_im_server.Media.Frame.{Bytes}
use cc_im_server.Media.Hub.{
  MediaClient, Server, add_client, take_client, drop_room, remove_client, broadcast, client_of,
}
use cc_im_server.Media.Rooms.{
  IsSeparate, add_client-client_of, add_remove-IsSeparate, remove_client-client_of, writes_to,
  broadcast_lem,
}

-- When a user joins a room again before the old connection has left, the leave of the old one removes
-- the new client: no frame in the room reaches that user, although the new connection is open.
pub reconnect_lost :
    (s : Server) (old new : MediaClient)
    → IsSeparate s
    → new.rid ≡ old.rid
    → new.uid ≡ old.uid
    → (bytes_of : String → Bytes) (sender : String) (payload : Bytes)
    → writes_to new.uid (
        broadcast bytes_of
          (remove_client (add_client (add_client s old) new) old).0
          new.rid
          sender
          payload)
      ≡ false
reconnect_lost s old new sep rids uids bytes_of sender payload =
    let s1 = add_client s old in
    let s2 = add_client s1 new in
    let sep1 = (add_remove-IsSeparate s old sep).0 in
    let sep2 = (add_remove-IsSeparate s1 new sep1).0 in
    ground (
      arith,
      rids,
      uids,
      broadcast_lem bytes_of (remove_client s2 old).0 new.rid sender payload new.uid,
      remove_client-client_of s2 old new.rid new.uid sep2,
      ==_refl old.rid,
      ==_refl old.uid,
    )

dropped : (s : Server) (rid uid : String) → client_of (drop_room s rid) rid uid ≡ none
unfolding client_of drop_room
dropped s rid uid = ground (arith, lookup-delete rid rid s.rooms, ==_refl rid)

-- The interleaving in which `c` leaves as the last member and, between the step that empties the hub
-- and the step that removes the room, another user joins.
unfoldable pub join_while_leaving : Server → ℕ → MediaClient → MediaClient → Server
join_while_leaving s h c joined = drop_room (add_client (take_client s h c).0 joined) c.rid

-- A join is lost when it falls between the two steps of the last member's leave: no frame in the room
-- reaches the user who joined, whereas the same join after the leave is stored.
pub join_lost :
    (s : Server) (h : ℕ) (c joined : MediaClient)
    → IsSeparate s
    → lookup c.rid s.rooms ≡ some h
    → (take_client s h c).1 ≡ true
    → joined.rid ≡ c.rid
    → (bytes_of : String → Bytes) (sender : String) (payload : Bytes)
    → (writes_to joined.uid
          (broadcast bytes_of (join_while_leaving s h c joined) joined.rid sender payload)
        ≡ false)
      × (client_of (add_client (remove_client s c).0 joined) joined.rid joined.uid ≡ some joined)
unfolding join_while_leaving
join_lost s h c joined sep found last rids bytes_of sender payload =
    let s1 = add_client (take_client s h c).0 joined in
    let left = (remove_client s c).0 in
    (
      ground (
        arith,
        rids,
        broadcast_lem bytes_of (drop_room s1 c.rid) joined.rid sender payload joined.uid,
        dropped s1 c.rid joined.uid,
      ),
      ground (
        arith,
        add_client-client_of left joined joined.rid joined.uid (add_remove-IsSeparate s c sep).1,
        ==_refl joined.rid,
        ==_refl joined.uid,
      ),
    )
