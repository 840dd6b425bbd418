-- ===== src/Transport.antt =====
-- src/transport: the streams that carry packets. A sink or a stream of another crate is a parameter.
pub mod Peer
pub mod Closed
use mathlib.Core.Option
use kcp_rs.Base.{
  ℕ, zero, suc, Bool, true, false, Option, none, some, List, [], ◌∷◌, Bytes, if◌then◌else◌,
  ErrorKind, not_connected, Io, ok, err,
}
use kcp_rs.Channels.{Poll, ready, pending, Receiver}
use kcp_rs.Listener.{SocketAddr, same_addr}

-- futures::Stream.
pub record Stream (A : Type 0) : Type 1 where
  pub State : Type 0
  pub poll_next : State → State × Poll (Option A)

-- futures::Sink.
pub record Sink (Item : Type 0) : Type 1 where
  pub State : Type 0
  pub poll_ready : State → State × Poll (Io (Unit {0}))
  pub start_send : State → Item → State × Io (Unit {0})
  pub poll_flush : State → State × Poll (Io (Unit {0}))
  pub poll_close : State → State × Poll (Io (Unit {0}))

module _ {Item A : Type 0} (Si : Sink Item) (St : Stream A) where
  pub record DuplexStream : Type 0 where
    pub sink : Si.State
    pub stream : St.State

  unfoldable pub duplex_new : Si.State → St.State → DuplexStream
  duplex_new sink stream = record { sink = sink; stream = stream }

  -- `DuplexStream::new(PollSender::new(sender), ReceiverStream::new(receiver))`, of an mpsc channel's two
  -- ends; the two wrappers are of other crates.
  unfoldable pub tokio_mpsc_stream :
      {S R : Type 0} → (S → Si.State) → (R → St.State) → S → R → DuplexStream
  unfolding duplex_new
  tokio_mpsc_stream wrap_sender wrap_receiver sender receiver =
      duplex_new (wrap_sender sender) (wrap_receiver receiver)

  unfoldable pub split_into : DuplexStream → Si.State × St.State
  split_into d = (d.sink, d.stream)

  -- The `Sink` of a duplex stream.
  abbrev pub duplex_sink : Sink Item
  duplex_sink = record {
    State = DuplexStream;
    poll_ready = λ d. (let (sink, r) = Si.poll_ready d.sink in (record d { sink = sink }, r));
    start_send =
        λ d item. (let (sink, r) = Si.start_send d.sink item in (record d { sink = sink }, r));
    poll_flush = λ d. (let (sink, r) = Si.poll_flush d.sink in (record d { sink = sink }, r));
    poll_close = λ d. (let (sink, r) = Si.poll_close d.sink in (record d { sink = sink }, r));
  }

  -- Its `Stream`.
  abbrev pub duplex_stream : Stream A
  duplex_stream = record {
    State = DuplexStream;
    poll_next = λ d. (let (stream, r) = St.poll_next d.stream in (record d { stream = stream }, r));
  }

-- tokio::sync::mpsc::UnboundedSender. The Boolean is whether the result is `Ok`.
pub record UnboundedSender (Item : Type 0) : Type 1 where
  pub State : Type 0
  pub send : State → Item → State × Bool

abbrev pub sent_or_not_connected : Bool → Io (Unit {0})
sent_or_not_connected true = ok tt
sent_or_not_connected false = err not_connected

-- A sender that has not been taken away.
abbrev pub is_held : {S : Type 0} → Option S → Poll (Io (Unit {0}))
is_held (some s) = ready (ok tt)
is_held none = ready (err not_connected)

module _ {Item : Type 0} (U : UnboundedSender Item) where
  pub record UnboundedSink : Type 0 where
    pub sender : Option U.State

  unfoldable pub unbounded_new : U.State → UnboundedSink
  unbounded_new sender = record { sender = some sender }

  abbrev pub send_through : Option U.State → Item → Option U.State × Io (Unit {0})
  send_through none item = (none, err not_connected)
  send_through (some s) item =
      let (s', okay) = U.send s item in (some s', sent_or_not_connected okay)

  abbrev pub unbounded_sink : Sink Item
  unbounded_sink = record {
    State = UnboundedSink;
    poll_ready = λ u. (u, is_held u.sender);
    start_send = λ u item.
        (let (sender, r) = send_through u.sender item in (record u { sender = sender }, r));
    poll_flush = λ u. (u, is_held u.sender);
    poll_close = λ u. (record u { sender = none }, ready (ok tt));
  }

module _ (U : UnboundedSender (Bytes × SocketAddr)) (R : Receiver Bytes) where
  pub record UdpMpscStream : Type 0 where
    pub sink : Option U.State
    pub stream : R.State
    pub peer_addr : SocketAddr

  unfoldable pub mpsc_new : Option U.State → R.State → SocketAddr → UdpMpscStream
  mpsc_new sink stream peer_addr = record { sink = sink; stream = stream; peer_addr = peer_addr }

  abbrev pub mpsc_sink : Sink Bytes
  mpsc_sink = record {
    State = UdpMpscStream;
    poll_ready = λ u. (u, is_held u.sink);
    start_send = λ u item.
        (let (sink, r) = send_through U u.sink (item, u.peer_addr) in
          (record u { sink = sink }, r));
    poll_flush = λ u. (u, is_held u.sink);
    poll_close = λ u. (record u { sink = none }, ready (ok tt));
  }

  abbrev pub mpsc_stream : Stream Bytes
  mpsc_stream = record {
    State = UdpMpscStream;
    poll_next = λ u. (let (stream, r) = R.poll_recv u.stream in (record u { stream = stream }, r));
  }

-- tokio_util::udp::UdpFramed. What it yields is a packet with its sender's address, or an error of the
-- socket (none).
pub record UdpFramed : Type 1 where
  pub State : Type 0
  pub poll_next : State → State × Poll (Option (Option (Bytes × SocketAddr)))
  pub poll_ready : State → State × Poll (Io (Unit {0}))
  pub start_send : State → Bytes × SocketAddr → State × Io (Unit {0})
  pub poll_flush : State → State × Poll (Io (Unit {0}))
  pub poll_close : State → State × Poll (Io (Unit {0}))

module _ ⦃F : UdpFramed⦄ where
  pub record UdpStream : Type 0 where
    pub udp : F.State
    pub peer_addr : SocketAddr

  unfoldable pub udp_new : F.State → SocketAddr → UdpStream
  udp_new udp peer_addr = record { udp = udp; peer_addr = peer_addr }

  abbrev pub udp_sink : Sink Bytes
  udp_sink = record {
    State = UdpStream;
    poll_ready = λ u. (let (udp, r) = F.poll_ready u.udp in (record u { udp = udp }, r));
    start_send = λ u item.
        (let (udp, r) = F.start_send u.udp (item, u.peer_addr) in (record u { udp = udp }, r));
    poll_flush = λ u. (let (udp, r) = F.poll_flush u.udp in (record u { udp = udp }, r));
    poll_close = λ u. (let (udp, r) = F.poll_close u.udp in (record u { udp = udp }, r));
  }

  -- The loop of `poll_next`: other senders' packets and the errors are passed over.
  unfoldable pub after_packet :
      (UdpStream → Option (UdpStream × Poll (Option Bytes)))
      → UdpStream
      → Poll (Option (Option (Bytes × SocketAddr)))
      → Option (UdpStream × Poll (Option Bytes))
  after_packet again u pending = some (u, pending)
  after_packet again u (ready none) = some (u, ready none)
  after_packet again u (ready (some none)) = again u
  after_packet again u (ready (some (some (packet, addr)))) =
      let rest = again u in
      if same_addr addr u.peer_addr then some (u, ready (some packet)) else rest

  unfoldable pub udp_poll_next : ℕ → UdpStream → Option (UdpStream × Poll (Option Bytes))
  unfolding after_packet
  udp_poll_next zero u = none
  udp_poll_next (suc fuel) u =
      let (udp, r) = F.poll_next u.udp in
      after_packet (udp_poll_next fuel) (record u { udp = udp }) r
