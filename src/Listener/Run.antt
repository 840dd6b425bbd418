-- ===== src/Listener/Run.antt =====
-- src/udp.rs: `Task::run`, the loop of the listener. What arrives, the queue of packets to send and the
-- messages of the sessions are given with each turn; the token, whose children end the streams, is
-- outside. `none` is a fault in a packet, or fuel that ran out.
pub mod Safe
pub mod Answered
pub mod Closing
use mathlib.Core.Option
use kcp_rs.Base.{
  ℕ, zero, suc, ◌-◌, ◌^◌, Bool, true, false, Option, none, some, List, [], ◌∷◌, ◌++◌, Bytes, take,
  if◌then◌else◌,
}
use kcp_rs.Config.{listener_task_loop}
use kcp_rs.Hashlink.{LinkedHashMap}
use kcp_rs.Protocol.Packet.{◌>>=◌}
use kcp_rs.Listener.{
  Tables, Listener, Session, SocketAddr, get_session, on_connect, on_disconnect, close,
}

-- What the world gives to `get_session`.
pub record World : Type 0 where
  pub permitted : Bool
  pub random : ℕ → ℕ
  pub fuel : ℕ
  pub now : ℕ

-- What the socket gives.
pub data Incoming : Type 0 where
  packet_from : Bytes → SocketAddr → World → Incoming
  socket_error socket_ended : Incoming

-- A stream is known by its conversation number.
pub data Message : Type 0 where
  connect_message disconnect_message : ℕ → Message

-- What became ready in the `select!` of a turn. `more` is what the socket gives without waiting, and
-- `queue` what `try_recv` gives of the packets to send.
pub data Event : Type 0 where
  received : (first : Incoming) (more : List Incoming) → Event
  feed : (item : Bytes × SocketAddr) (queue : List (Bytes × SocketAddr)) → Event
  message : Message → Event
  cancelled : Event

-- What the listener gives out: packets to sessions, with the address they came from; streams to the
-- application; packets to the socket.
pub record Out : Type 0 where
  pub delivered : List (Session × Bytes × SocketAddr)
  pub accepted : List (ℕ × SocketAddr)
  pub sent : List (Bytes × SocketAddr)

abbrev pub nothing_out : Out
nothing_out = record { delivered = []; accepted = []; sent = [] }

abbrev pub and_out : Out → Out → Out
and_out a b = record {
  delivered = a.delivered ++ b.delivered;
  accepted = a.accepted ++ b.accepted;
  sent = a.sent ++ b.sent;
}

-- A turn: its time, what `try_recv` of the messages gives at its head, and its event.
pub record Turn : Type 0 where
  pub now : ℕ
  pub waiting_message : Option Message
  pub event : Event

module _ ⦃T : Tables⦄ where
  abbrev pub deliver : Option Session → Bytes → SocketAddr → Out
  deliver none packet addr = nothing_out
  deliver (some s) packet addr = record nothing_out { delivered = (s, packet, addr) ∷ [] }

  -- The `for` loop over what is received, with the rounds that are left. The last round takes one more
  -- from the socket, and drops it.
  unfoldable pub receive : ℕ → Incoming → List Incoming → Listener → Option (Listener × Out)
  receive zero recved more l = some (l, nothing_out)
  receive (suc rounds) socket_error more l = some (l, nothing_out)
  receive (suc rounds) socket_ended more l = some (close l, nothing_out)
  receive (suc rounds) (packet_from packet addr w) [] l = do
    r ← get_session l packet addr w.permitted w.random w.fuel w.now
    some (r.0, deliver r.1 packet addr)
  receive (suc rounds) (packet_from packet addr w) (x ∷ more) l = do
    r ← get_session l packet addr w.permitted w.random w.fuel w.now
    rest ← receive rounds x more r.0
    some (rest.0, and_out (deliver r.1 packet addr) rest.1)

  -- `try_send`: it sends at most `max` of the queue.
  unfoldable pub try_send : ℕ → List (Bytes × SocketAddr) → Out
  try_send max queue = record nothing_out { sent = take max queue }

  abbrev pub hand_over : ℕ → Option SocketAddr → Out
  hand_over conv none = nothing_out
  hand_over conv (some addr) = record nothing_out { accepted = (conv, addr) ∷ [] }

  -- `now` is the time of the listener's clock.
  unfoldable pub process_msg : ℕ → Message → Listener → Option (Listener × Out)
  process_msg now (connect_message conv) l =
      let (l', to) = on_connect l conv in some (l', hand_over conv to)
  process_msg now (disconnect_message conv) l = do
    l' ← on_disconnect now l conv
    some (l', nothing_out)

  unfoldable pub on_event : ℕ → Event → Listener → Option (Listener × Out)
  unfolding receive try_send process_msg
  on_event now (received first more) l = receive listener_task_loop first more l
  on_event now (feed item queue) l =
      some
        (l, and_out (record nothing_out { sent = item ∷ [] }) (try_send listener_task_loop queue))
  on_event now (message msg) l = process_msg now msg l
  on_event now cancelled l = some (close l, nothing_out)

  -- The head of a turn. The Boolean is whether the loop is left.
  unfoldable pub drain :
      ℕ → Option Message → List (ℕ × Session) → Listener → Option (Listener × Out × Bool)
  unfolding process_msg
  drain now (some msg) sessions l = do r ← process_msg now msg l; some (r.0, r.1, false)
  drain now none [] l = some (l, nothing_out, true)
  drain now none (s ∷ sessions) l = some (l, nothing_out, false)

  unfoldable pub turn_head : ℕ → Option Message → Listener → Option (Listener × Out × Bool)
  unfolding drain
  turn_head now msg l =
      let drained = drain now msg (T.sessions.entries l.conv_map) l in
      if l.is_closing then drained else some (l, nothing_out, false)

  -- Behind the head of a turn.
  unfoldable pub go_round :
      (Listener → Option (Listener × Out × Bool))
      → Turn
      → Listener × Out × Bool
      → Option (Listener × Out × Bool)
  go_round again t (l, out, true) = some (l, out, true)
  go_round again t (l, out, false) = do
    r ← on_event t.now t.event l
    rest ← again r.0
    some (rest.0, and_out (and_out out r.1) rest.1, rest.2)

  unfoldable pub run_turns : List Turn → Listener → Option (Listener × Out × Bool)
  run_turns [] l = some (l, nothing_out, false)
  run_turns (t ∷ ts) l = do r ← turn_head t.now t.waiting_message l; go_round (run_turns ts) t r

  -- Behind the loop: what is still in the queue goes out.
  unfoldable pub finish_run : List (Bytes × SocketAddr) → Out
  unfolding try_send
  finish_run queue = try_send (2 ^ 64 - 1) queue
