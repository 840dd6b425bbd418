-- ===== src/KcpStream.antt =====
-- src/stream.rs: `KcpStream`, the application's end of a connection: reading, writing and closing.
-- `none` is a panic, or a loop that ran out of fuel. The token of the connection is whether it has been
-- cancelled, the handle of the task whether it is still held.
pub mod Received
pub mod Reading
pub mod Delivered
pub mod Chunks
pub mod Writing
pub mod Accepted
pub mod Closing
use mathlib.Core.Option
use kcp_rs.Base.{
  ℕ, zero, suc, ◌+◌, min, max, Bool, true, false, not, Option, none, some, List, [], ◌∷◌, Bytes,
  length, take, drop, ltb, if◌then◌else◌, ErrorKind, invalid_input, timed_out, not_connected, Io,
  ok, err, panic,
}
use kcp_rs.Config.{KcpConfig}
use kcp_rs.Channels.{Poll, ready, pending, Receiver, PollSender}
use kcp_rs.Protocol.Conv.{syn_conv, is_valid_conv, max_frame_size}
use kcp_rs.Protocol.Packet.{◌>>=◌}
use kcp_rs.Stream.Task.{Output, established, frame}

-- The channels to the task and from it.
pub record Channels : Type 1 where
  pub input : PollSender Bytes
  pub output : Receiver Output

pub record KcpStream ⦃C : Channels⦄ : Type 0 where
  pub config : KcpConfig
  pub conv : ℕ
  pub input_sink : C.input.State
  pub output_rx : C.output.State
  pub cancelled : Bool
  pub task : Bool
  pub read_buf : Option Bytes

-- `map_err` to NotConnected.
abbrev pub or_not_connected : Bool → Io (Unit {0})
or_not_connected true = ok tt
or_not_connected false = err not_connected

abbrev pub poll_map : {A B : Type 0} → (A → B) → Poll A → Poll B
poll_map f (ready a) = ready (f a)
poll_map f pending = pending

-- How the `while` loop of `poll_read` ends.
pub data Fill : Type 0 where
  filled ended waiting : Fill
  fill_failed : ErrorKind → Fill

-- `slice::chunks`, which panics for the size 0.
abbrev chunks_from : ℕ → ℕ → Bytes → List Bytes
chunks_from zero size buf = []
chunks_from (suc fuel) size [] = []
chunks_from (suc fuel) size (b ∷ buf) =
    take size (b ∷ buf) ∷ chunks_from fuel size (drop size (b ∷ buf))

unfoldable pub chunks : ℕ → Bytes → Option (List Bytes)
chunks zero buf = none
chunks (suc size) buf = some (chunks_from (length buf) (suc size) buf)

module _ ⦃C : Channels⦄ where
  -- The task that is spawned, as far as its stream sees it: the ends of its channels, and the first
  -- message that it sends, if it sends one.
  pub record Spawned : Type 0 where
    pub input : C.input.State
    pub output : C.output.State
    pub answer : Option Output

  -- `tokio::spawn` of a task over channels of these sizes, with its settings and its number.
  abbrev pub Spawn : Type 0
  Spawn = (input_size output_size : ℕ) → KcpConfig → ℕ → Spawned

  -- `KcpStream::new`: the channels and the task, and the stream.
  unfoldable pub spawn_task : Spawn → KcpConfig → ℕ → Spawned
  spawn_task spawn config conv = spawn (max config.snd_wnd 8) (max config.rcv_wnd 16) config conv

  unfoldable pub stream_new : KcpConfig → C.input.State → C.output.State → KcpStream
  stream_new config input output = record {
    config = config;
    conv = 0;
    input_sink = input;
    output_rx = output;
    cancelled = false;
    task = true;
    read_buf = none;
  }

  -- The loop of `poll_next`: the message of the connection is passed over.
  unfoldable pub after_recv :
      (C.output.State → Option (C.output.State × Poll (Option (Io Bytes))))
      → C.output.State × Poll (Option Output)
      → Option (C.output.State × Poll (Option (Io Bytes)))
  after_recv again (rx, pending) = some (rx, pending)
  after_recv again (rx, ready none) = some (rx, ready none)
  after_recv again (rx, ready (some (frame x))) = some (rx, ready (some (ok x)))
  after_recv again (rx, ready (some (established conv))) = again rx

  unfoldable pub recv_loop : ℕ → C.output.State → Option (C.output.State × Poll (Option (Io Bytes)))
  recv_loop zero rx = none
  recv_loop (suc fuel) rx = after_recv (recv_loop fuel) (C.output.poll_recv rx)

  unfoldable pub next_of :
      ℕ → KcpStream → Option Bytes → Option (KcpStream × Poll (Option (Io Bytes)))
  next_of fuel s (some x) = some (record s { read_buf = none }, ready (some (ok x)))
  next_of fuel s none = do r ← recv_loop fuel s.output_rx; some (record s { output_rx = r.0 }, r.1)

  unfoldable pub poll_next : ℕ → KcpStream → Option (KcpStream × Poll (Option (Io Bytes)))
  unfolding next_of
  poll_next fuel s = next_of fuel s s.read_buf

  -- The loop of `poll_read`: an empty frame is passed over.
  unfoldable pub after_next :
      (KcpStream → Option (KcpStream × Fill))
      → KcpStream × Poll (Option (Io Bytes))
      → Option (KcpStream × Fill)
  after_next again (s, pending) = some (s, waiting)
  after_next again (s, ready none) = some (s, ended)
  after_next again (s, ready (some (err e))) = some (s, fill_failed e)
  after_next again (s, ready (some panic)) = none
  after_next again (s, ready (some (ok []))) = again s
  after_next again (s, ready (some (ok (b ∷ x)))) = again (record s { read_buf = some (b ∷ x) })

  unfoldable pub fill_step :
      ℕ
      → (KcpStream → Option (KcpStream × Fill))
      → KcpStream
      → Option Bytes
      → Option (KcpStream × Fill)
  fill_step fuel again s (some x) = some (s, filled)
  fill_step fuel again s none = do r ← poll_next fuel s; after_next again r

  unfoldable pub fill_loop : ℕ → ℕ → KcpStream → Option (KcpStream × Fill)
  fill_loop fuel zero s = none
  fill_loop fuel (suc rounds) s = fill_step fuel (fill_loop fuel rounds) s s.read_buf

  -- The bytes that go into a buffer with room for `room`, and what is left of the chunk.
  abbrev pub take_chunk : KcpStream → ℕ → Option Bytes → KcpStream × Bytes
  take_chunk s room none = (s, [])
  take_chunk s room (some chunk) =
      let len = min (length chunk) room in
      (
        record s { read_buf = if ltb len (length chunk) then some (drop len chunk) else none },
        take len chunk,
      )

  unfoldable pub after_fill : ℕ → KcpStream × Fill → KcpStream × Bytes × Poll (Io (Unit {0}))
  after_fill room (s, waiting) = (s, [], pending)
  after_fill room (s, ended) = (s, [], ready (ok tt))
  after_fill room (s, fill_failed e) = (s, [], ready (err e))
  after_fill room (s, filled) =
      let (s', put) = take_chunk s room s.read_buf in (s', put, ready (ok tt))

  -- The result is the new state, the bytes that were put into the buffer, and what is reported.
  unfoldable pub poll_read : ℕ → KcpStream → ℕ → Option (KcpStream × Bytes × Poll (Io (Unit {0})))
  poll_read fuel s zero = some (s, [], ready (ok tt))
  poll_read fuel s (suc room) = do r ← fill_loop fuel fuel s; some (after_fill (suc room) r)

  unfoldable pub poll_ready : KcpStream → KcpStream × Poll (Io (Unit {0}))
  poll_ready s =
      let (sink, r) = C.input.poll_ready s.input_sink in
      (record s { input_sink = sink }, poll_map or_not_connected r)

  unfoldable pub start_send : KcpStream → Bytes → Option (KcpStream × Io (Unit {0}))
  start_send s item = do
    r ← C.input.start_send s.input_sink item
    some (record s { input_sink = r.0 }, or_not_connected r.1)

  unfoldable pub poll_flush : KcpStream → KcpStream × Poll (Io (Unit {0}))
  poll_flush s = (s, ready (ok tt))

  -- The loop over the chunks stops early with the bytes sent so far, if there are some.
  abbrev pub stopped : ℕ → Poll (Io ℕ) → Poll (Io ℕ)
  stopped len report = if ltb 0 len then ready (ok len) else report

  unfoldable pub after_start :
      (KcpStream → Option (KcpStream × Poll (Io ℕ)))
      → ℕ
      → KcpStream × Io (Unit {0})
      → Option (KcpStream × Poll (Io ℕ))
  after_start again len (s, ok u) = again s
  after_start again len (s, err e) = some (s, stopped len (ready (err e)))
  after_start again len (s, panic) = none

  unfoldable pub after_ready :
      (KcpStream → Option (KcpStream × Poll (Io ℕ)))
      → Bytes
      → ℕ
      → KcpStream × Poll (Io (Unit {0}))
      → Option (KcpStream × Poll (Io ℕ))
  after_ready again chunk len (s, pending) = some (s, stopped len pending)
  after_ready again chunk len (s, ready (err e)) = some (s, stopped len (ready (err e)))
  after_ready again chunk len (s, ready panic) = none
  after_ready again chunk len (s, ready (ok u)) = do r ← start_send s chunk; after_start again len r

  unfoldable pub write_loop : List Bytes → ℕ → KcpStream → Option (KcpStream × Poll (Io ℕ))
  write_loop [] len s = some (s, ready (ok len))
  write_loop (chunk ∷ rest) len s =
      after_ready (write_loop rest (len + length chunk)) chunk len (poll_ready s)

  unfoldable pub poll_write : KcpStream → Bytes → Option (KcpStream × Poll (Io ℕ))
  poll_write s [] = some (s, ready (ok 0))
  poll_write s (b ∷ buf) = do cs ← chunks (max_frame_size s.config.mtu) (b ∷ buf); write_loop cs 0 s
