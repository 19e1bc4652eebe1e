-- ===== src/Lib.antt =====
-- AnyCable-Go, a server for real-time messages to the clients of a web application: a client opens
-- a connection (a session), subscribes to channels, each of which listens to streams, and receives
-- what is published to these streams.
--
-- How the parts work together. A session (node/session.go) passes the client's commands to the node
-- (node/node.go), which asks the controller (an RPC server through rpc/, or a local one) and does
-- what its answer says: it starts and stops streams, in the hub (hub/hub.go) and in the broker (broker/), merges
-- state, and publishes messages. The broker stamps a publication with an offset, keeps it for clients
-- that come back, and broadcasts it to every node. There the hub gives it to one of its gates
-- (hub/gate.go), which sends it to the sessions of the stream. A session's outgoing messages wait in
-- a queue (utils/queue.go). The broker also knows who is present in a stream. The
-- end of a session goes through a queue (node/disconnect_queue.go) to the controller.
--
-- Files and code:
--   Prelude          lists over the native numbers, equality, and Go's maps as association lists
--                    (Prelude/Dict).
--   Utils/Queue      utils/queue.go. `new_queue`, `add`, `push`, `remove`, `close`, `clear`, `wait`,
--                    `resize` are the methods. Below it: the ring read as a list, the invariant, the
--                    specification by lists, and the refinement.
--   Utils/PriorityQueue
--                    utils/priority_queue.go, over the loops of Go's container/heap: `up` and `down`,
--                    and `settle` for what Fix and Remove do. Sifts, Loops and Laws prove the order.
--   Utils/MessageVerifier
--                    utils/message_verifier.go, on lists of bytes, with the digest as a parameter.
--   Common           common/common.go: messages, and in Common/Env the session's environment.
--   Broker/Memstream `memstream` of broker/memory.go: the history of one stream.
--   Broker/Memory    the history part of `Memory` in the same file.
--   Broker/Presence  its presence part. Joins, Leaves and Events are about `PresenceAdd` and
--                    `PresenceRemove`, Sweep and Expiry about `expirePresence`.
--   Broker/Sessions  its sessions' cache, with `expireSessionsCache`; Refine is about the whole.
--   Broker/Tracker   `StreamsTracker` of broker/broker.go, and the calls of the broadcaster.
--   Broker/Legacy    `LegacyBroker` of broker/broker.go.
--   Hub/Gate, Hub    hub/gate.go and hub/hub.go; Hub/Index is the choice of a gate by hash.
--   Encoders         encoders/encoding_cache.go.
--   Node             node/: Subscriptions is subscription_state.go; State is what a command works
--                    on; Replies, Presence, Commands and Requests are the parts of node.go, and
--                    Departure is how a client goes. Agreement, Leak and Goodbye are about them.
--                    CacheEntry is the JSON of a cached session (node/session.go). Auth is
--                    `Authenticate`, and Restore is `TryRestoreSession` with
--                    `RestoreFromCache` of session.go.
--   Node/Disconnector
--                    node/disconnect_queue.go, with the steps of its routines in any order.
--   Session          node/session.go, the connection: Timers is `SessionTimers`, Frames is
--                    `sendFrame` and the ways to close, Writer is `SendMessages`, Events is what the
--                    timer's events do.
--   Rpc              rpc/: Barrier is barrier.go; Retry and Calls are `retry` and the calls of rpc.go;
--                    Protocol is protocol/protocol.go, the messages to the application.
--   Streams          streams/controller.go, the local controller for signed streams.
--   Router           router/router.go, the choice of a controller by channel.
--   Tests            runs on small inputs.
--
-- Conventions. A method that holds a lock is one step. A function of the clock takes the time as an
-- argument. An unsigned 64-bit number is a natural number with its `% 2 ^ 64` written out,
-- but for the counters of metrics, which only count up. A read
-- past the end of a slice is the result `panic` (or `none`, in Utils/Queue). Go goes through a map in
-- any order; here the order is that of the association list, and no result is about the order of two
-- entries. Loops go through a list where they can. Five run on fuel, and are proved to have enough: `up`
-- and `down` get one round more than there are slots, which the order of the heap at their end needs;
-- `expire_loop` gets one more than there are deadlines; `send_frame`, which calls itself to tell a
-- slow client, gets two; and `retry` gets a round for each hundredth of a second of a command's
-- timeout, and one more.
-- Parameters stand for the JSON and base64 decoders and encoders, for the digest of the message
-- verifier (for the verifier itself, where the streams controller uses it), and for what the error
-- library says of a decorated error; the controller's answer to the node, and what the controller's
-- client meets in each round, are arguments.
--
-- Not modelled: the transports of the RPC client, identification, the Pusher protocol, durable
-- streams and server-sent events; network, configuration, metrics, and the brokers and adapters that
-- call an external server.
pub mod Prelude
pub mod Utils
pub mod Common
pub mod Broker
pub mod Hub
pub mod Encoders
pub mod Node
pub mod Streams
pub mod Router
pub mod Tests
pub mod Rpc
pub mod Session
