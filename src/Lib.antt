-- ===== src/Lib.antt =====
-- Verification of go-wst, a Go library for real-time servers over WebSocket, WebTransport, or both,
-- with an in-memory hub for connections and a polling mode without connections.
--
-- The parts of the program, and the modules that model them:
--
-- * `internal/protocol` (Protocol): messages and requests of the polling mode, the interface of a
--   message store as a record of operations, and what an authenticator is asked. `any` is a data
--   type with the values that the code tells apart. Connection is the interface of a connection, as
--   operations on the state of all connections, with the laws that its users rely on; Wrapper makes
--   it from the methods of a struct. Server is the interface of the servers with what it promises,
--   which Server/Interface of Ws, Wt and Hybrid keeps. Codec is the raw codec.
-- * `internal/buffer` (Buffer): the pool of buffers, each by its length and capacity.
-- * The user index (Registry), a map from users to their connections by ID. `BindUser` and
--   `unregisterConnection` of ws/server.go and wt/server.go and the hub's `BindUser` and `Unregister`
--   change it by the same statements. Registry/Mirror and Registry/Counting hold what the three
--   servers share of a map and a count that the threads of many handlers change.
-- * `stateful` (Stateful): PowerOf2 is `nextPowerOf2`, Hash is the hash of `getShard`, Hub is the
--   sharded hub, Hub/Refinement its view without shards, and Heartbeat the loop and its check for
--   idle connections, and `AtomicCounter`. The shards are a list; a connection is a pointer, a number;
--   its ID is a function of the pointer and its user is state beside the hub. An index out of range
--   is a panic.
-- * `stateless` (Stateless): Store is `MemoryStore`, Server and Handler the types of
--   stateless/server.go, over any store. The clock is an argument.
-- * `ws` (Ws): Connection is the wrapper of a socket, Server the registries and Handler the function
--   `HandleWebSocket`, in which the authenticator and the user's callbacks come in by their results.
--   Pumps are `readPump` and `writePump` of one connection, and Life is `Start` and `Stop`.
--   Connection/Interface makes the wrapper an implementation of the interface of a connection.
-- * `wt` (Wt): the same for WebTransport, with `handleWebTransport`; Pumps are `handleStream`, once
--   for each stream, and `writePump`. Config is wt/config.go: where the certificate comes from, with
--   the temporary files, over the operations of the package `os`. Stop is `Stop`, with what the
--   handlers do before and during it.
-- * `hybrid` (Hybrid): Authenticator is hybrid/authenticator.go, Config the configuration and its
--   defaults, Fallback the manager that chooses a protocol for a client, and Server the server over
--   the other two: its registries, the handlers that it gives them, the negotiation, and in
--   Server/Sending what it sends and lists. Settings are the options of `NewServer` and what they
--   hand to the WebSocket server; Serving is the hybrid server as the handler of the WebSocket
--   server, over all interleavings of the runs of `HandleWebSocket`; Life is `Start` and `Stop` over
--   those of the two servers, where the order in which a service group stops them is an argument.
-- * `example/internal/chat` (Chat): the chat handler with its rooms, over any connections that keep
--   the laws of their interface.
-- * `example/notification` (Notification): its `OnMessage` over a message store and the same
--   connections.
-- * `example/authhook` (Authhook): the tokens that it makes, its recording handler with `waitConn`,
--   and the server that it starts.
-- * Prelude has what these share: lists, integers, dictionaries, bits, panics, results, sums over
--   threads. Tests applies the theorems at concrete inputs.
--
-- How the state corresponds: a struct is a record with a field for each field that the modelled code
-- reads or writes; a Go map is a list of keys with values, which is gone through in the order of the
-- list; an `int64` or `int` is an integer whose steps up and down wrap around at 2^63; a byte is a
-- number. A mutex that is held over a whole operation makes it one step. The handlers run
-- concurrently: each is a thread with a phase, `step` is the code between two points at which another
-- thread can come in, and a schedule says which thread goes next and what it meets. All interleavings
-- are all schedules. Code that is not in the repository (the transports, the JWT library, the
-- formatting of a float) is an argument or an input.
--
-- Bounds: the hub's shards are rounded up to a power of two below 2^33, since the bit trick needs a
-- request of at most 2^32; counters are followed below 2^63, which is where an `int64` wraps around.
-- Only `waitConn` of example/authhook, which loops until a deadline, uses fuel: the number of its
-- rounds, of which the pauses in its timeout and one more are enough. Every other loop goes over a
-- list or a number that is given.
--
-- Not modelled: what the HTTP and transport libraries do between `Start` and `Stop`, with `Start` of
-- the WebTransport server, which only calls them; deadlines and accessors of the transports, the JSON
-- codec, and the example programs that only set up a server or dial one. Of the callbacks only the
-- result of `OnConnect`, the calls of `OnMessage` and `OnDisconnect`, and the users that a handler
-- gives to its own connection play a part. A write to a WebSocket is one step: runs in which `Close`
-- writes while the write pump does, over which the library of the socket panics, are left out. That
-- the `WaitGroup` of the WebTransport server panics over an `Add` during its `Wait` is an outcome of
-- the wait that is given, and not derived from the steps of the handlers. Which paths `HandleFunc`
-- takes and whether an HTTP server gets its address are given too.
pub mod Authhook
pub mod Buffer
pub mod Chat
pub mod Hybrid
pub mod Notification
pub mod Prelude
pub mod Protocol
pub mod Registry
pub mod Stateful
pub mod Stateless
pub mod Tests
pub mod Ws
pub mod Wt
