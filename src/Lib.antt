-- ===== src/Lib.antt =====
-- kcp-rs: a reliable, connection-oriented stream over packets. A C library keeps the KCP protocol;
-- the Rust code wraps it (`Kcp`), runs one task per connection (`Task` in src/stream.rs) with a SYN
-- and a FIN handshake of its own, and offers connections over UDP and other transports.
--
-- Config        src/config.rs: the settings `KcpConfig`, `random_session_id`.
-- Ffi           src/ffi.rs: the constants, the control block `IKCPCB`, and the C library as a
--               parameter: an `Engine` is the functions that the Rust code calls. What the code relies
--               on is in Ffi/Laws: `SendLaws`, `RecvLaws`, `InputLaws`, `NodelayLaws`, `NumberLaws`,
--               `ArrivalLaws`, each a record that a theorem takes as a hypothesis where it needs one.
--               `ArrivalLaws` is the library's contract for a peer that numbers the fragments of a
--               message as `ikcp_send` does, not for any packet.
-- Protocol      src/protocol.rs. Packet: a packet as a list of bytes, the functions that read and write
--               its header, `none` for a fault (an index out of range or an unchecked read outside the
--               buffer); Payload and Packet/Header: the theorems on them. Conv: conversation numbers
--               and `max_frame_size`. Kcp: the connection object, each method as a function that gives
--               the new object and its result; Kcp/Clock, Kcp/Queue, Kcp/Recv: the theorems.
-- Stream        src/stream.rs. Handshake and Flags: the states and the flag set. Task: the state of the
--               task and the monad in which its methods are written (state, and `none` for a panic);
--               Task/Syn, Task/Fin, Task/Input, Task/Sending: the methods, by the part of the work;
--               Run: `run` as the part before the loop (`start`), the head of a turn (`loop_head`), the
--               branch of `select!` that is taken (`on_event`), and what follows the loop (`finish`).
--               Order, Closing, FinPacket, Runs, Hostile, Sent, Syn, Agreed: the theorems. Delivery: the
--               way of the messages from the C library to the application, over any turns.
--               Number: the number of a server's connection, from the beginning of `run` to its end.
-- Channels      The ends of tokio's mpsc channels, parameters, and what their documentation says.
-- KcpStream     src/stream.rs, the application's end of a connection: `poll_next`, `poll_read`,
--               `poll_write` and the `Sink`; KcpStream/Closing: `poll_close`, `wait_connection`,
--               `connect`, `accept`. Received, Reading, Chunks, Writing, Accepted and
--               Closing/Laws: the theorems. Delivered: `Task` and `KcpStream` together.
-- HalfClose     src/halfclose.rs and src/lib.rs: a poll of a task (`poll_task`), `create_task`,
--               `shutdown`, and the steps of the pool. Spent, Resets, Counter, Ending: the theorems.
-- Transport     src/transport: `DuplexStream`, `UnboundedSink`, `UdpMpscStream`, `UdpStream`. Peer,
--               Closed: the theorems.
-- Hashlink      The crate hashlink's `LinkedHashMap`, a parameter, and `MapLaws`, what its documentation
--               says.
-- ConvCache     src/conv.rs: the conversation numbers that are kept back for a while.
-- Listener      src/udp.rs: the listener's tables of sessions, `get_session`, the messages and
--               `kill_session`; Agreement, Peers, Leaving, Reached: the theorems, over the steps that
--               the listener can take. Run: the loop, a turn at a time; Run/Safe, Run/Answered,
--               Run/Closing: the theorems on it. Front: `KcpUdpStream`, the application's end. Accepting:
--               `accept_stream`, what a session tells the listener.
-- Example       A small concrete engine, concrete maps, channels and sockets, and the theorems at
--               concrete inputs.
--
-- How the parts meet: `KcpStream` and `Task` share two channels, of which `Channels` is the end that
-- `KcpStream` holds; `poll_write` hands over frames that `Task` gives to `Kcp::send`, and `poll_read`
-- reads those that `Task` sends as `Output`. The listener's loop hands each packet to the session that
-- `get_session` answers, and a `UdpMpscStream` carries it to that session's `Task`. A `Task` that ends
-- leaves its transport to the pool of half-closed connections.
--
-- Choices. Bytes and integers are natural numbers; a u32 that wraps has its `% 2 ^ 32` written out. The
-- plain `+` and `*` of the code on u32 wrap as in a release build; a debug build panics there. Time
-- stands still within a method and within a turn of the loop. What the channels, the transport, the
-- clock and the random generator answer are arguments: an event of `select!` carries the answers that
-- its calls get. An asynchronous call that waits is one step.
-- Fuel: `fin_loop` has seven rounds, one more than the states that it can pass; `payload_loop` has one
-- round more than the packet has bytes, and a round takes 24 of them; `rand_conv` and
-- `allocate` have the fuel that the caller gives, and their theorems say how much is enough;
-- `update_loop` has one round more than the cache has entries; `recv_loop`, `fill_loop` and
-- `udp_poll_next` have the fuel that the caller gives, and more than the items that wait is enough;
-- `close_all` is given the answers of the polls to come.
--
-- Not modelled: the C code itself; logging; the memory management behind the C control block
-- (`user`, `Drop`); sockets, names and timers, which are arguments; the accessors of the transports,
-- which hand out what they hold, and `size_hint` and `is_terminated`, which ask it; how tasks are
-- scheduled, beyond the order of the steps that a theorem ranges over.
mod Base
pub mod Config
pub mod Ffi
pub mod Protocol
pub mod Hashlink
pub mod ConvCache
pub mod Stream
pub mod Transport
pub mod Channels
pub mod HalfClose
pub mod KcpStream
pub mod Listener
pub mod Example
