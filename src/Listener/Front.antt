-- ===== src/Listener/Front.antt =====
-- src/udp.rs: `KcpUdpStream`, the application's end of a listener, and how a client chooses its addresses.
-- The binding of sockets and the lookup of names are outside; what they give is an argument.
use kcp_rs.Base.{
  ℕ, Bool, true, false, Option, none, some, List, [], ◌∷◌, length, replicate, max, ◌==◌,
  if◌then◌else◌, not_connected, addr_not_available, Io, ok, err, panic,
}
use kcp_rs.Config.{KcpConfig}
use kcp_rs.Channels.{Poll, Receiver}
use kcp_rs.Listener.{SocketAddr}

-- The streams come with the addresses of their peers. `task` is whether the task's handle is held.
module _ {Stream : Type 0} (R : Receiver (Stream × SocketAddr)) where
  pub record KcpUdpStream : Type 0 where
    pub config : KcpConfig
    pub stream_rx : R.State
    pub cancelled : Bool
    pub task : Bool

  -- The size of the channel of the streams.
  abbrev pub backlog_size : ℕ → ℕ
  backlog_size backlog = max backlog 8

  -- `channel size` is the receiver of a new channel.
  unfoldable pub socket_listen : KcpConfig → ℕ → (ℕ → R.State) → KcpUdpStream
  socket_listen config backlog channel = record {
    config = config;
    stream_rx = channel (backlog_size backlog);
    cancelled = false;
    task = true;
  }

  -- `bound` is the socket, or why there is none.
  unfoldable pub listen : KcpConfig → ℕ → (ℕ → R.State) → Io (Unit {0}) → Io KcpUdpStream
  unfolding socket_listen
  listen config backlog channel (ok socket) = ok (socket_listen config backlog channel)
  listen config backlog channel (err e) = err e
  listen config backlog channel panic = panic

  -- `recv().await` gives `item` in the end.
  unfoldable pub accepted : Option (Stream × SocketAddr) → Io (Stream × SocketAddr)
  accepted none = err not_connected
  accepted (some item) = ok item

  -- `drop`, and `close` before it waits for the task.
  unfoldable pub cancel : KcpUdpStream → KcpUdpStream
  cancel u = record u { cancelled = true; stream_rx = R.close u.stream_rx }

  -- `close`, when the task has ended.
  unfoldable pub close_listener : KcpUdpStream → KcpUdpStream
  unfolding cancel
  close_listener u =
      let cancelled = cancel u in if u.task then record cancelled { task = false } else u

  unfoldable pub next_stream : KcpUdpStream → KcpUdpStream × Poll (Option (Stream × SocketAddr))
  next_stream u = let (rx, r) = R.poll_recv u.stream_rx in (record u { stream_rx = rx }, r)

-- The first of the addresses that a name stands for.
unfoldable pub first_address : Io (List SocketAddr) → Io SocketAddr
first_address (ok []) = err addr_not_available
first_address (ok (addr ∷ addrs)) = ok addr
first_address (err e) = err e
first_address panic = panic

-- The address that a client binds: of the family of the server's, the unspecified one, port 0.
unfoldable pub local_address : SocketAddr → SocketAddr
local_address addr = if length addr.0 == 4 then (replicate 4 0, 0) else (replicate 16 0, 0)

-- `?`, and `map`.
abbrev pub and_then : {A B : Type 0} → Io A → (A → Io B) → Io B
and_then (ok a) f = f a
and_then (err e) f = err e
and_then panic f = panic

-- `found` is what the lookup of the name gives, `open_stream` what `KcpStream::connect` gives.
unfoldable pub socket_connect :
    {Stream : Type 0} → Io (List SocketAddr) → (SocketAddr → Io Stream) → Io (Stream × SocketAddr)
unfolding first_address
socket_connect found open_stream =
    and_then (first_address found) λ addr. and_then (open_stream addr) λ stream. ok (stream, addr)

-- `KcpUdpStream::connect`: `bind` is what the binding of an address gives, and an address stands for
-- itself in the second lookup.
unfoldable pub connect_to :
    {Stream : Type 0}
    → Io (List SocketAddr)
    → (SocketAddr → Io (Unit {0}))
    → (SocketAddr → Io Stream)
    → Io (Stream × SocketAddr)
unfolding first_address local_address socket_connect
connect_to found bind open_stream = and_then (first_address found) λ addr.
    and_then (bind (local_address addr)) λ socket. socket_connect (ok (addr ∷ [])) open_stream
