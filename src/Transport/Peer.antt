-- ===== src/Transport/Peer.antt =====
-- src/transport/udp.rs: `UdpStream` yields the packets of its peer.
use kcp_rs.Base.{
  ℕ, zero, suc, ◌<◌, ◌≡◌, refl, sym, ap, ◌∙◌, Option, none, some, List, [], ◌∷◌, Bytes, length,
  if◌then◌else◌, Bool-cases, inl, inr, arith, true, false,
}
use kcp_rs.Channels.{Poll, ready, pending}
use kcp_rs.Listener.{SocketAddr, same_addr}
use kcp_rs.Transport.{UdpFramed, UdpStream, after_packet, udp_poll_next}

-- `incoming` is what the socket is to yield, in order. That a poll is ready with nothing means the end.
pub record UdpFramedLaws ⦃F : UdpFramed⦄ : Type 0 where
  pub incoming : F.State → List (Option (Bytes × SocketAddr))
  pub next_some :
      (s s' : F.State) (x : Option (Bytes × SocketAddr))
      → F.poll_next s ≡ (s', ready (some x))
      → incoming s ≡ x ∷ incoming s'
  pub next_none :
      (s s' : F.State) → F.poll_next s ≡ (s', ready none) → (incoming s ≡ []) × (incoming s' ≡ [])
  pub next_pending : (s s' : F.State) → F.poll_next s ≡ (s', pending) → incoming s' ≡ incoming s

-- The packets from one sender.
abbrev pub packets_from : SocketAddr → List (Option (Bytes × SocketAddr)) → List Bytes
packets_from peer [] = []
packets_from peer (none ∷ q) = packets_from peer q
packets_from peer (some (packet, addr) ∷ q) =
    let rest = packets_from peer q in if same_addr addr peer then packet ∷ rest else rest

module _ ⦃F : UdpFramed⦄ where
  -- The socket after polls whose answers are passed over: errors, and packets of other addresses than
  -- `peer`.
  pub data Passes (peer : SocketAddr) : F.State → F.State → Type 0 where
    nothing_yet : {s : F.State} → Passes peer s s
    error_first :
        {s t u : F.State}
        → F.poll_next s ≡ (t, ready (some none))
        → Passes peer t u
        → Passes peer s u
    stranger_first :
        {s t u : F.State} (packet : Bytes) (addr : SocketAddr)
        → F.poll_next s ≡ (t, ready (some (some (packet, addr))))
        → same_addr addr peer ≡ false
        → Passes peer t u
        → Passes peer s u

  -- `p` is what the stream gives for the next answer of the socket in `s`, which leaves it in `t`.
  abbrev pub Answers : SocketAddr → F.State → F.State → Poll (Option Bytes) → Type 0
  Answers peer s t pending = F.poll_next s ≡ (t, pending)
  Answers peer s t (ready none) = F.poll_next s ≡ (t, ready none)
  Answers peer s t (ready (some packet)) =
      (addr : SocketAddr) × (F.poll_next s ≡ (t, ready (some (some (packet, addr)))))
      × (same_addr addr peer ≡ true)

  -- Some answers of the socket were passed over, and the next is what the stream gives.
  abbrev pub Polled : UdpStream → UdpStream → Poll (Option Bytes) → Type 0
  Polled u u' p = (s : F.State) × Passes u.peer_addr u.udp s × Answers u.peer_addr s u'.udp p

module _ ⦃F : UdpFramed⦄ (laws : UdpFramedLaws) where
  -- The packets that the stream is still to yield.
  abbrev pub to_come : UdpStream → List Bytes
  to_come u = packets_from u.peer_addr (laws.incoming u.udp)

  abbrev pub Yields : UdpStream → UdpStream → Poll (Option Bytes) → Type 0
  Yields u u' pending = to_come u ≡ to_come u'
  Yields u u' (ready none) = (to_come u ≡ []) × (to_come u' ≡ [])
  Yields u u' (ready (some packet)) = to_come u ≡ packet ∷ to_come u'

  abbrev Selects : UdpStream → Option (UdpStream × Poll (Option Bytes)) → Type 0
  Selects u r =
      (u' : UdpStream) × (p : Poll (Option Bytes)) × (r ≡ some (u', p))
      × (u'.peer_addr ≡ u.peer_addr)
      × Polled u u' p
      × Yields u u' p

  Yields-passed :
      (u v w : UdpStream) (p : Poll (Option Bytes))
      → to_come u ≡ to_come v
      → Yields v w p
      → Yields u w p
  Yields-passed u v w pending e y = e ∙ y
  Yields-passed u v w (ready none) e (y, y') = (e ∙ y, y')
  Yields-passed u v w (ready (some packet)) e y = e ∙ y

  Selects-passed :
      (u : UdpStream) (udp : F.State) (r : Option (UdpStream × Poll (Option Bytes)))
      → ((s : F.State) → Passes u.peer_addr udp s → Passes u.peer_addr u.udp s)
      → to_come u ≡ to_come (record u { udp = udp })
      → Selects (record u { udp = udp }) r
      → Selects u r
  Selects-passed u udp r more e (w, p, run, same, (s, passes, answers), y) = (
    w,
    p,
    run,
    same,
    (s, more s passes, answers),
    Yields-passed u (record u { udp = udp }) w p e y,
  )

  next_step :
      (fuel : ℕ) (u : UdpStream) (udp : F.State) (p : Poll (Option (Option (Bytes × SocketAddr))))
      → ((v : UdpStream) → length (laws.incoming v.udp) < fuel → Selects v (udp_poll_next fuel v))
      → length (laws.incoming u.udp) < suc fuel
      → F.poll_next u.udp ≡ (udp, p)
      → Selects u (after_packet (udp_poll_next fuel) (record u { udp = udp }) p)
  unfolding after_packet
  next_step fuel u udp pending again h e =
      let nothing_new = ap (packets_from u.peer_addr) (sym (laws.next_pending u.udp udp e)) in
      (_, _, refl, refl, (u.udp, nothing_yet, e), nothing_new)
  next_step fuel u udp (ready none) again h e =
      let (before, after) = laws.next_none u.udp udp e in
      let was_empty = ap (packets_from u.peer_addr) before in
      let is_empty = ap (packets_from u.peer_addr) after in
      (_, _, refl, refl, (u.udp, nothing_yet, e), (was_empty, is_empty))
  next_step fuel u udp (ready (some none)) again h e =
      let first = laws.next_some u.udp udp none e in
      Selects-passed u udp _ (λ s passes. error_first e passes)
        (ap (packets_from u.peer_addr) first)
        (again (record u { udp = udp }) (omega (arith, ap length first)))
  next_step fuel u udp (ready (some (some (packet, addr)))) again h e =
      let first = laws.next_some u.udp udp (some (packet, addr)) e in
      let more = ap (packets_from u.peer_addr) first in
      elim (Bool-cases (same_addr addr u.peer_addr)) [
        | inl mine ↦
            rw mine (_, _, refl, refl, (u.udp, nothing_yet, (addr, e, mine)), rw mine at more)
        | inr other ↦ rw other (
            Selects-passed u udp _ (λ s passes. stranger_first packet addr e other passes)
              (rw other at more) (again (record u { udp = udp }) (omega (arith, ap length first))))
      ]

  -- With a socket that keeps its laws and fuel above the number of packets and errors that it
  -- holds, `poll_next` of a `UdpStream` returns. It polls the socket past errors and packets of other
  -- addresses, and gives the first answer that is neither: the end or pending exactly when that is
  -- the socket's answer, or a packet of its peer. No packet of the peer is lost or moved, and at the
  -- end none is left.
  pub udp_poll_next-Yields :
      (fuel : ℕ) (u : UdpStream)
      → length (laws.incoming u.udp) < fuel
      → (u' : UdpStream) × (p : Poll (Option Bytes)) × (udp_poll_next fuel u ≡ some (u', p))
        × (u'.peer_addr ≡ u.peer_addr)
        × Polled u u' p
        × Yields u u' p
  unfolding udp_poll_next
  udp_poll_next-Yields zero u h = absurd (omega arith)
  udp_poll_next-Yields (suc fuel) u h = next_step fuel u _ _ (udp_poll_next-Yields fuel) h refl
