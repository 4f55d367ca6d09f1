-- ===== src/Lib.antt =====
-- cc-im-server: an instant messaging server in several processes. QUIC servers hold the connections
-- of users, a presence table in Redis names the node of each user, HTTP and queue workers prepare
-- messages and send them to the nodes, and a media server relays frames in rooms.
--
-- Wire models quic/handler/protocol/four-yte_protocol.go and the read loop of
-- quic/handler/message_handler.go, from the bytes of a stream to the messages that are dispatched.
-- Chat models sending and withdrawing a room message in the same file, with the queries of db/query; it
-- asks Mute, the rules of db/query/room_mute.go, whether the sender may speak, and writes the tables
-- that Delivery reads. Delivery models notifycoord, push and the deliver handlers of
-- quic/server/event.go, and Resend the ACK checks of queue/handlers.go and the ACK handlers. Connection
-- models quic/server/client_registry.go and the connection events of quic/server/server.go, Heartbeat
-- the manager of quic/heartbeat/manager.go that raises the timeouts. Join models joining a room in
-- http/handler/room/room.go and http/handler/room/join_request.go, and Owner roles, transfers, kicks,
-- leaves, blocks and the dissolving of a room in http/handler/room/room.go, with db/query/room_owner.go,
-- db/query/room_block.go and db/query/room_user_block_user.go; both work on the member cache and the
-- blocks that Delivery reads, the roles of Mute and the sequence numbers of Chat. Media models
-- media/streaming/server.go, and Call the media calls of http/handler/media/stream.go, from the
-- invitation to the record of the end: their keys in Redis, the join signs that Media checks, and the
-- callbacks from the connection and the media servers.
--
-- Each function has the name of the source in snake case, and takes the state of its component and gives
-- the new one; tables are lists, maps and Redis keyspaces association lists. Failures of the database
-- and of Redis are Boolean fields of a record of faults. Where other handlers may come between the tests
-- and the transaction of a handler, the two are functions of their own: the transaction of a message and
-- of a join, the write of an ACK check, and a hang-up with a state that was read before. A history of
-- calls handles the requests and events one after another; Call.Races is about two hang-ups that meet.
--
-- In Call a write to Redis whose error the code ignores succeeds, and keys have no time to live, since
-- every invitation is written without one; the clock is read once in a request.
--
-- Parameters: strings.TrimSpace, the AEAD, MessagePack, JSON, JWT, bcrypt and HMAC, and container/heap,
-- whose documented laws are fields of Heartbeat.Heap; they stand for container/heap together with the
-- methods Less, Swap, Push and Pop of heartbeatHeap, which Heartbeat.Entries models with the index that
-- they keep in each entry.
--
-- Bounds: the parsing loop takes as fuel the length of its buffer, which is enough, since a packet takes
-- four bytes at least; a timeout check recurs on the 100 rounds of its batch; all other loops are over
-- lists. Versions are uint32 and lengths of packets are below 2^32.
--
-- Not modelled: the other HTTP handlers, uploads, configuration and logging, the definitions of tables
-- and the test data; notices to members and operation logs are at most recorded as calls.
pub mod Prelude
pub mod Connection
pub mod Delivery
pub mod Resend
pub mod Mute
pub mod Media
pub mod Chat
pub mod Wire
pub mod Join
pub mod Heartbeat
pub mod Owner
pub mod Call
pub mod Tests
