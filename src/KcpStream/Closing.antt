-- ===== src/KcpStream/Closing.antt =====
-- src/stream.rs: how a `KcpStream` is closed, and how `connect` and `accept` make one.
pub mod Laws
use mathlib.Core.Option
use kcp_rs.Base.{
  ◌≡◌, ℕ, Bool, true, false, Option, none, some, List, [], ◌∷◌, if◌then◌else◌, ErrorKind,
  invalid_input, timed_out, Io, ok, err,
}
use kcp_rs.Config.{KcpConfig}
use kcp_rs.Channels.{Poll, ready, pending}
use kcp_rs.KcpStream.{Channels, KcpStream, stream_new, Spawned, Spawn, spawn_task}
use kcp_rs.Protocol.Conv.{syn_conv, is_valid_conv}
use kcp_rs.Protocol.Packet.{◌>>=◌}
use kcp_rs.Stream.Task.{Output, established, frame}

module _ ⦃C : Channels⦄ where
  unfoldable pub shutdown_immediately : KcpStream → KcpStream
  shutdown_immediately s = record s { input_sink = C.input.close (C.input.abort_send s.input_sink) }

  unfoldable pub try_close : KcpStream → KcpStream
  try_close s = record s { cancelled = true; output_rx = C.output.close s.output_rx }

  -- The task's handle, when it is held, gives `Ready` when the task is over.
  unfoldable pub join_task : KcpStream → Bool → Bool → KcpStream × Poll (Io (Unit {0}))
  join_task s false over = (s, ready (ok tt))
  join_task s true over = if over then (record s { task = false }, ready (ok tt)) else (s, pending)

  unfoldable pub after_close :
      KcpStream → Bool → C.input.State × Poll Bool → KcpStream × Poll (Io (Unit {0}))
  unfolding try_close join_task
  after_close s over (sink, pending) = (record s { input_sink = sink }, pending)
  after_close s over (sink, ready okay) =
      join_task (try_close (record s { input_sink = sink })) s.task over

  -- `over` is whether the task is over.
  unfoldable pub poll_close : KcpStream → Bool → KcpStream × Poll (Io (Unit {0}))
  unfolding after_close
  poll_close s over = after_close s over (C.input.poll_close s.input_sink)

  -- That of `AsyncWrite`.
  unfoldable pub poll_shutdown : KcpStream → Bool → KcpStream × Poll (Io (Unit {0}))
  unfolding poll_close
  poll_shutdown s over = poll_close s over

  -- `close().await`: it is polled until it is ready. The answers are whether the task is over, and none
  -- is left when it is still pending after the last of them.
  unfoldable pub after_poll :
      (KcpStream → Option KcpStream) → KcpStream × Poll (Io (Unit {0})) → Option KcpStream
  after_poll again (s, pending) = again s
  after_poll again (s, ready r) = some s

  unfoldable pub close_all : List Bool → KcpStream → Option KcpStream
  close_all [] s = none
  close_all (over ∷ more) s = after_poll (close_all more) (poll_close s over)

  -- `wait_connection`: `answer` is the first message of the task. An error comes with the stream
  -- as `drop` leaves it.
  unfoldable pub wait_connection :
      KcpStream → Option Output → List Bool → Option (KcpStream × Io (Unit {0}))
  wait_connection s (some (established conv)) overs = some (record s { conv = conv }, ok tt)
  wait_connection s (some (frame x)) overs = do
    s' ← close_all overs s
    some (try_close s', err timed_out)
  wait_connection s none overs = do s' ← close_all overs s; some (try_close s', err timed_out)

  -- The new stream of a task.
  abbrev pub stream_of : KcpConfig → Spawned → KcpStream
  stream_of config p = stream_new config p.input p.output

  unfoldable pub connect : KcpConfig → Spawn → List Bool → Option (KcpStream × Io (Unit {0}))
  connect config spawn overs =
      let p = spawn_task spawn config syn_conv in
      wait_connection (stream_of config p) p.answer overs

  -- None in the first place: there is no stream and no task.
  unfoldable pub accept :
      KcpConfig → ℕ → Spawn → List Bool → Option (Option KcpStream × Io (Unit {0}))
  accept config conv spawn overs =
      let p = spawn_task spawn config conv in
      let waited = wait_connection (stream_of config p) p.answer overs in
      if is_valid_conv conv
      then (do r ← waited; some (some r.0, r.1))
      else some (none, err invalid_input)
