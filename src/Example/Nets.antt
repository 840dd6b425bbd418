-- ===== src/Example/Nets.antt =====
-- The theorems on the transports, on the listener's loop and on the handshake at concrete inputs.
use mathlib.Core.Option.{some-injective}
use mathlib.Core.Path.{subst}
use kcp_rs.Base.{
  ℕ, ◌+◌, ◌≡◌, refl, sym, ap, true, Option, none, some, List, [], ◌∷◌, ◌++◌, Bytes, arith, ok, inl,
  inr,
}
use kcp_rs.Config.{listener_conv_timeout}
use kcp_rs.Channels.{Poll, ready, pending}
use kcp_rs.ConvCache.{cache_new, cache_update, is_free}
use kcp_rs.Protocol.Conv.{is_valid_conv}
use kcp_rs.Listener.{Listener, SocketAddr, listener_new, get_session, in_use, session_of}
use kcp_rs.Listener.Reached.{initially}
use kcp_rs.Listener.Run.{
  World, packet_from, socket_ended, received, message, disconnect_message, Turn, run_turns,
}
use kcp_rs.Listener.Run.Safe.{Holds, IsSafeTurn, run_turns-Safe}
use kcp_rs.Listener.Run.Closing.Forgets.{Forgotten, run_turns-Forgotten}
use kcp_rs.Listener.Run.Answered.{Gives, HasNumber, get_session-Gives}
use kcp_rs.Transport.{UdpFramed, UdpStream, udp_poll_next, UnboundedSender, unbounded_sink}
use kcp_rs.Transport.Peer.{UdpFramedLaws, Polled, Yields, udp_poll_next-Yields}
use kcp_rs.Transport.Closed.{
  ready_call, close_call, send_call, call_all, refusals, unbounded_sink-refusals,
}
use kcp_rs.Example.Maps.{
  keyed, syn_packet, peer, toy_laws, numbers, number_map, toy_map-MapLaws, tables, with_first,
}

abbrev Socket : Type 0
Socket = List (Option (Bytes × SocketAddr))

abbrev socket_next : Socket → Socket × Poll (Option (Option (Bytes × SocketAddr)))
socket_next [] = ([], pending)
socket_next (x ∷ q) = (q, ready (some x))

instance abbrev socket : UdpFramed
socket = record {
  State = Socket;
  poll_next = socket_next;
  poll_ready = λ s. (s, ready (ok tt));
  start_send = λ s x. (s, ok tt);
  poll_flush = λ s. (s, ready (ok tt));
  poll_close = λ s. (s, ready (ok tt));
}

next_case :
    (s s' : Socket) (x : Option (Bytes × SocketAddr))
    → socket_next s ≡ (s', ready (some x))
    → s ≡ x ∷ s'
next_case [] s' x e = absurd (ground arith)
next_case (y ∷ q) s' x e = ground arith

end_case : (s s' : Socket) → socket_next s ≡ (s', ready none) → (s ≡ []) × (s' ≡ [])
end_case [] s' e = absurd (ground arith)
end_case (y ∷ q) s' e = absurd (ground arith)

wait_case : (s s' : Socket) → socket_next s ≡ (s', pending) → s' ≡ s
wait_case [] s' e = sym (ap (λ r. r.0) e)
wait_case (y ∷ q) s' e = absurd (ground arith)

abbrev socket-UdpFramedLaws : UdpFramedLaws
socket-UdpFramedLaws = record {
  incoming = λ s. s;
  next_some = next_case;
  next_none = end_case;
  next_pending = wait_case;
}

abbrev stranger : SocketAddr
stranger = (10 ∷ 0 ∷ 0 ∷ 1 ∷ [], 9)

-- An error, a stranger's packet, and one of the peer.
abbrev udp : UdpStream
udp = record { udp = none ∷ some (1 ∷ [], stranger) ∷ some (2 ∷ [], peer) ∷ []; peer_addr = peer }

udp_poll_next-Yields_example :
    (u' : UdpStream) × (p : Poll (Option Bytes)) × (udp_poll_next 4 udp ≡ some (u', p))
    × (u'.peer_addr ≡ peer)
    × Polled udp u' p
    × Yields socket-UdpFramedLaws udp u' p
udp_poll_next-Yields_example = udp_poll_next-Yields socket-UdpFramedLaws 4 udp (omega arith)

abbrev toy_unbounded : {A : Type 0} → UnboundedSender A
toy_unbounded {A} = record { State = List A; send = λ s x. (s ++ (x ∷ []), true) }

unbounded_sink-refusals_example :
    call_all {Item = ℕ}
      (unbounded_sink toy_unbounded)
      (close_call ∷ ready_call ∷ send_call 3 ∷ [])
      (record { sender = some [] })
    ≡ refusals {Item = ℕ} (close_call ∷ ready_call ∷ send_call 3 ∷ [])
unbounded_sink-refusals_example =
    unbounded_sink-refusals toy_unbounded (ready_call ∷ send_call 3 ∷ [])
      (record { sender = some [] })

abbrev world : World
world = record { permitted = true; random = λ i. i + 5; fuel = 3; now = 0 }

-- A SYN packet comes twice, and the socket ends.
abbrev turns : List Turn
turns =
    record {
      now = 0;
      waiting_message = none;
      event =
          received (packet_from syn_packet peer world)
            (packet_from syn_packet peer world ∷ socket_ended ∷ []);
    }
    ∷ []

run_turns-Safe_example : Holds (IsSafeTurn toy_laws keyed) (run_turns turns (listener_new keyed))
run_turns-Safe_example = run_turns-Safe toy_laws keyed turns (listener_new keyed) initially

-- A listener with a session that closes: a client comes too late, and the session ends.
abbrev leaving : Listener
leaving = record with_first { is_closing = true }

abbrev last_turns : List Turn
last_turns =
    record {
      now = 0;
      waiting_message = none;
      event = received (packet_from syn_packet stranger world) [];
    }
    ∷ record { now = 1; waiting_message = none; event = message (disconnect_message 5) }
    ∷ []

run_turns-Forgotten_example : Holds (Forgotten toy_laws 5) (run_turns last_turns leaving)
run_turns-Forgotten_example =
    run_turns-Forgotten toy_laws 5 last_turns leaving refl (inr (inr (inl (inr refl))))

-- The first draw is a number for the session.
first_number : HasNumber (toy_map-MapLaws numbers) (listener_new keyed) world
unfolding cache_update listener_new cache_new is_valid_conv
first_number = (
  0,
  omega arith,
  refl,
  λ c e.
      subst
        (λ c.
          is_free ⦃H = number_map⦄ (λ conv. in_use (session_of (listener_new keyed) conv)) c 5
          ≡ true)
        (some-injective (cache_new ⦃H = number_map⦄ listener_conv_timeout) c e) refl,
)

get_session-Gives_example :
    Gives (get_session (listener_new keyed) syn_packet peer true (λ i. i + 5) 3 0)
get_session-Gives_example =
    get_session-Gives (toy_map-MapLaws numbers) (listener_new keyed) syn_packet peer world
      first_number
