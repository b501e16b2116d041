-- ===== src/Lib.antt =====
-- cosnet, a network library for game servers: sockets over TCP, UDP and WebSocket that exchange
-- messages with a head of ten bytes, and a manager that keeps the sockets.
--
-- The parts of the program. Package `message` has the message with its head, its path or code and its
-- body, the table of magic numbers that gives each message its byte order, its kind and its binder,
-- and the pool of messages. Packages `tcp`, `udp` and `wss` bring messages to and from connections;
-- `wss` can have a transform for SOCKET.IO packets. The root package has the manager `Sockets` and
-- the `Socket`: a goroutine reads messages from the connection of a socket and hands them to handlers,
-- another writes the queued ones, and a daemon sends heartbeats, which end sockets that are idle.
--
-- The files, and the code that they model:
--   Prelude           integers, byte orders, decimal text, and results: `Result` has an error value or
--                     a panic, and a `Method` maps a state to a state and a result
--   Message/Flag      message/flag.go
--   Message/Magic     message/magic.go
--   Message/Slice     byte slices with the array behind their length, which Go's reslicing reads
--   Message/Env       message/options.go, message/transform.go, and the parameters: the binders, gzip,
--                     and the contents of arrays that the runtime allocates
--   Message/Head      message/head.go; Head/Wire has the round trip of the head
--   Message/Object    the struct of message/message.go
--   Message/Read      `Code`, `Path`, `Body`, `Confirm`, `Unmarshal` (`code_of`, `path_of`, `body_of`, …)
--   Message/Marshal   `MarshalPath`, `MarshalCode`, `Marshal`; Marshal/Layout says what they leave
--   Message/Transfer  `Bytes`, `Write`, `Reset`, `Release`, `decompress`; its children have the proofs
--   Message/RoundTrip a message that is filled and read
--   Message/Reuse     a message that is released and used again
--   Message/Pool      message/pool.go
--   Tcp               tcp/conn.go; Stream, Delivery, Mismatch and Malformed have the proofs
--   Wss/SocketIo      wss/socket.io.go, every handler and builder, with the frames that are sent and
--                     the packet types that are reported kept in a `Session`
--   Wss/Conn          wss/conn.go, wss/listener.go and wss/options.go; Conn/Frames has the round trip,
--                     Conn/Requests and Conn/Listening what becomes of the connections
--   Config            options.go and events.go
--   Sockets/State     the structs `Socket` and `Sockets`: every socket ever created in `heap`, the keys
--                     of the manager's map in `sockets`, the counters, and what was emitted and closed
--   Sockets/Lifecycle the methods of socket.go and sockets.go that make, keep and end connections
--   Sockets/Frame, Lists, Disconnect, Invariant, Preserved, Touched, Connecting: what they keep
--   Sockets/Sending   `Write`, `Send`, `SendWithMagic` of socket.go; Sending/Ownership says where a
--                     message is afterwards
--   Sockets/Dialing   `tryConnect` of sockets.go
--   Sockets/Clients   `Connect` and the goroutine of `tryReconnect` with their tries; Clients/Tries and
--                     Clients/Ends have the proofs
--   Sockets/Runs      sequences of these methods; Timing, with Timing/Idle, Admission and
--                     Reconnection: what they do
--   Sockets/Graph     the graph of the statuses of a socket, which every method follows; Graph/Steps and
--                     Graph/Paths have the proof
--   Sockets/Race      `disconnect`, `tryReconnect`, `release` and `Close` by several goroutines, one
--                     atomic access at a time; Race/Exclusive and Race/Turns have the proof,
--                     Race/Alone compares a goroutine with `disconnect` of Sockets/Lifecycle, and
--                     Race/Stale has one that comes late
--   Sockets/Serving   `Matcher`, `Range`, `Listen`, `Accept`, `Start`, `stop`, `Address` and `daemon`
--   Sockets/Events    `On`, `Emit` and `Errorf` with the functions that are registered
--   Handler           handler.go and context.go; Handler/Incoming has `readMsgTrue` and `handle` of
--                     socket.go; Answers, Filtering and Incoming/Steady have the proofs
--   Goroutines        `readMsg`, `writeMsg` and `writeMsgTrue` of socket.go; Reading and Writing have the
--                     proofs on a TCP stream
--   Udp               udp/listener.go and udp/conn.go, over the structs and options in Udp/State
--   Udp/Mailboxes     what the UDP listener promises; Represents, Found, Arrivals and Refinement show that
--                     it keeps to it
--   Udp/Actions       what its goroutines do, in any order; Udp/Routing, with Routing/Kept and
--                     Routing/Made, says which connections a packet changes after that
--   Udp/Closing, Delivery, Loop: how it is closed, a message through it, and the loop that reads
--                     packets
--   Calls             a whole call over TCP, from the client's `SendWithMagic` through the server's
--                     method and back, and calls one behind the other; Carried, Answered,
--                     Queued, Pipelined and Exchanged have the proofs
--   Tests             concrete environments and managers, and the theorems at them
--
-- Bounds. Numbers of 32 bits wrap around as in Go (`to_int32`, `to_uint32`, `add_int32`); the id
-- counter of 64 bits and the counter of connections do not wrap in the model. The digits of a number
-- are taken on fuel, one more than the number, which each round divides by ten. `try_connect` runs on
-- fuel; one more than the number of tries that are left is enough, since each try takes one. The loops
-- of the two goroutines of a socket run for the number of rounds after which the program or the socket
-- is stopped, which the theorems take as an argument; the goroutine that writes also ends where its
-- queue is empty and the channel `stop` is closed. The theorems take both to have a connection. Every
-- other loop is over a list.
--
-- What the model leaves out. Outside Sockets/Race a method of a socket runs without interruption, so
-- its compare-and-swaps succeed, and the handlers that the program registers for events do not change
-- the manager. Reading and writing of connections is over bytes that are there, until the end of the
-- stream. A `Write` that has to wait has the outcome `waits`; where the queue and the end of the socket
-- are both ready, an argument says which case `select` takes. The queue of a socket holds
-- `WriteChanSize` messages, as the manager's options have it, which no method changes. What the network
-- does is a parameter of `try_connect`, whose result is an argument of `reconnect_done` and
-- `connected_to`, in runs any result; `connect_to` and `try_reconnect` put them together, with nothing
-- else happening between the tries. Whether the program has stopped is an argument of `create`, and
-- of each round of `accept_loop`, once for the test of the loop and once for `Create`. Of `Range`,
-- `heartbeat_all` has the calls in some order. The registry and reflection are the record `Node` of what a handler asks a node,
-- and the registry's search is a parameter; a method of the program may do anything to the manager. Of
-- a UDP socket the model has the packets that come and go; a channel of size 0 has no room, and a
-- receiver that already waits on it is not modelled. The registration of services, the default
-- manager and the TCP listener are not modelled: they delegate to the registry, to a manager and to
-- package net.
pub mod Prelude
pub mod Message
pub mod Tcp
pub mod Wss
pub mod Config
pub mod Sockets
pub mod Handler
pub mod Goroutines
pub mod Udp
pub mod Calls
pub mod Tests
