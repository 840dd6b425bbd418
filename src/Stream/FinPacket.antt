-- ===== src/Stream/FinPacket.antt =====
-- src/stream.rs: the FIN flag on the way from one endpoint to the other, and a state in which the
-- packets of a turn no longer move the handshake on.
use mathlib.Core.Option.{some-injective}
use kcp_rs.Base.{
  ℕ, ◌≤◌, ◌≡◌, refl, sym, ap, ◌∙◌, Bool, true, false, not, ◌&&◌, ◌||◌, none, some, ◌∷◌, Bytes,
  length, bit_and, bit_or, bit_xor, leb, ltb, le→leb, lt→ltb, ◌==◌, ==_iff, and_true, if◌then◌else◌,
  arith, ok, err, invalid_data,
}
use kcp_rs.Base.Bits.{all_below, all_below_sound}
use kcp_rs.Ffi.{Engine, ikcp_cmd_push, ikcp_cmd_wins}
use kcp_rs.Protocol.Packet.{read_cmd, write_cmd, read_payload_data}
use kcp_rs.Protocol.Kcp
use kcp_rs.Protocol.Kcp.{Kcp}
use kcp_rs.Stream.Handshake.{fin_sent, fin_wait_peer, disconnected}
use kcp_rs.Stream.Task.{
  Task, pure, call, checked, modify, kcp_fin, kcp_reset, task_monad, set_handshake, move_to,
}
use kcp_rs.Stream.Task.Steps.{>>=-some, >>-some, call_ok, call_err}
use kcp_rs.Stream.Task.Sending.{mark_fin, outgoing}
use kcp_rs.Stream.Task.Fin.{is_peer_done, fin_next, fin_loop, fin_transit_state, is_fin_handshake}
use kcp_rs.Stream.Task.Input.{
  fin_received, fin_input, flagged_input, input_failed, after_input, kcp_input,
}
use kcp_rs.Stream.Closing.{round, next_at, move_to-hs}
use kcp_rs.Stream.Run.{advance_handshake}

abbrev fin_test : ℕ → Bool
fin_test c =
    let marked = bit_or c kcp_fin in
    not (leb ikcp_cmd_push c && leb c ikcp_cmd_wins)
    || ((bit_and marked kcp_reset == 0)
        && not (bit_and marked kcp_fin == 0)
        && (bit_xor marked kcp_fin == c))

fin_table : all_below 256 fin_test ≡ true
unfolding all_below
fin_table = refl

-- A command of the library with the FIN flag is no RESET, has the flag, and loses it by `^`.
fin_bits :
    (c : ℕ)
    → ikcp_cmd_push ≤ c
    → c ≤ ikcp_cmd_wins
    → ((bit_and (bit_or c kcp_fin) kcp_reset == 0) ≡ true)
      × ((bit_and (bit_or c kcp_fin) kcp_fin == 0) ≡ false)
      × (bit_xor (bit_or c kcp_fin) kcp_fin ≡ c)
fin_bits c lo hi =
    let h = all_below_sound 256 fin_test c fin_table (omega arith) in
    let g : ((bit_and (bit_or c kcp_fin) kcp_reset == 0)
          && not (bit_and (bit_or c kcp_fin) kcp_fin == 0)
          && (bit_xor (bit_or c kcp_fin) kcp_fin == c))
        ≡ true =
      both (leb ikcp_cmd_push c && leb c ikcp_cmd_wins) _
        (in_range _ _ (le→leb _ _ lo) (le→leb _ _ hi)) h in
    let a = and_true _ _ g in let b = and_true _ _ a.0 in (b.0, not_true _ b.1, (==_iff _ _).0 a.1)
  where
    in_range : (a b : Bool) → a ≡ true → b ≡ true → (a && b) ≡ true
    in_range true b ha hb = hb
    in_range false b ha hb = ha

    both : (a b : Bool) → a ≡ true → (not a || b) ≡ true → b ≡ true
    both true b ha h = h
    both false b ha h = ground arith

    not_true : (b : Bool) → not b ≡ true → b ≡ false
    not_true true h = sym h
    not_true false h = refl

-- Writing the command byte and writing the old one back.
write_back :
    (packet packet' : Bytes) (cmd cmd' : ℕ)
    → read_cmd packet ≡ some cmd
    → write_cmd packet cmd' ≡ some packet'
    → (read_cmd packet' ≡ some cmd') × (write_cmd packet' cmd ≡ some packet)
unfolding read_cmd write_cmd
write_back (b0 ∷ b1 ∷ b2 ∷ b3 ∷ b4 ∷ rest) packet' cmd cmd' r w =
    let long : ltb 4 (length (b0 ∷ b1 ∷ b2 ∷ b3 ∷ b4 ∷ rest)) ≡ true = lt→ltb 4 _ (omega arith) in
    let w' : some (b0 ∷ b1 ∷ b2 ∷ b3 ∷ cmd' ∷ rest) ≡ some packet' =
      ap (λ b. if b then some (b0 ∷ b1 ∷ b2 ∷ b3 ∷ cmd' ∷ rest) else none) (sym long) ∙ w in
    let e : packet' ≡ b0 ∷ b1 ∷ b2 ∷ b3 ∷ cmd' ∷ rest = sym (some-injective _ _ w') in
    (
      ap read_cmd e,
      ap (λ p. write_cmd p cmd) e
          ∙ ap (λ b. if b then some (b0 ∷ b1 ∷ b2 ∷ b3 ∷ cmd ∷ rest) else none) long
          ∙ ap (λ c. some (b0 ∷ b1 ∷ b2 ∷ b3 ∷ c ∷ rest)) (sym (some-injective _ _ r)),
    )
write_back _ packet' cmd cmd' r w = ground arith

module _ ⦃E : Engine⦄ where
  -- What `outgoing` makes of a packet with a payload in the state FinSent.
  outgoing-fin_sent :
      (packet packet' x : Bytes) (cmd : ℕ)
      → read_cmd packet ≡ some cmd
      → read_payload_data packet ≡ some (some x)
      → outgoing fin_sent packet ≡ some packet'
      → write_cmd packet (bit_or cmd kcp_fin) ≡ some packet'
  unfolding outgoing mark_fin
  outgoing-fin_sent packet packet' x cmd r p h = sym (rw (p, r) refl) ∙ h

  flagged_input-fin :
      (packet : Bytes) (cmd : ℕ) (t : Task)
      → ((bit_and cmd kcp_reset == 0) ≡ true)
      → ((bit_and cmd kcp_fin == 0) ≡ false)
      → flagged_input cmd packet t ≡ fin_input cmd packet t
  unfolding flagged_input
  flagged_input-fin packet cmd t a b = rw (a, b) refl

  -- A packet of one of the library's commands that carries a payload and leaves in the state
  -- FinSent arrives with the FIN flag. When the library refuses that packet for its command, the
  -- FIN handshake that follows ends, and the library takes the packet without the flag, then
  -- `kcp_input` notes the FIN, lets the FIN handshake go on, and hands the library exactly the
  -- packet that the peer's library had made.
  pub fin_packet_roundtrip :
      (packet packet' x : Bytes) (cmd : ℕ) (t u : Task) (k k' : Kcp)
      → read_cmd packet ≡ some cmd
      → ikcp_cmd_push ≤ cmd
      → cmd ≤ ikcp_cmd_wins
      → read_payload_data packet ≡ some (some x)
      → outgoing fin_sent packet ≡ some packet'
      → Kcp.input t.kcp packet' ≡ (k, err invalid_data)
      → fin_transit_state (fin_received (record t { kcp = k })) ≡ some (tt, u)
      → Kcp.input u.kcp packet ≡ (k', ok tt)
      → kcp_input packet' t ≡ some (tt, record u { kcp = k' })
  unfolding kcp_input after_input input_failed fin_input checked modify pure
  fin_packet_roundtrip packet packet' x cmd t u k k' r lo hi p out refused fin taken =
      let (no_reset, is_fin, clear) = fin_bits cmd lo hi in
      let (cmd_read, cmd_written) =
        write_back packet packet' cmd (bit_or cmd kcp_fin) r
          (outgoing-fin_sent packet packet' x cmd r p out) in
      let t1 : Task = record t { kcp = k } in
      let written : write_cmd packet' (bit_xor (bit_or cmd kcp_fin) kcp_fin) ≡ some packet =
        ap (write_cmd packet') clear ∙ cmd_written in
      >>=-some (call (λ k. Kcp.input k packet')) (λ r. after_input r packet') t
        (call_err _ t refused)
      ∙ >>=-some (checked (read_cmd packet')) (λ c. flagged_input c packet') t1 (rw cmd_read refl)
      ∙ flagged_input-fin packet' _ t1 no_reset is_fin
      ∙ >>-some (modify fin_received) _ t1 refl
      ∙ >>-some fin_transit_state _ _ fin
      ∙ >>=-some (checked (write_cmd packet' (bit_xor (bit_or cmd kcp_fin) kcp_fin))) _ u
          (rw written refl)
      ∙ >>-some (call (λ k. Kcp.input k packet)) (pure tt) u (call_ok _ u taken)

  -- In the state FinWaitPeer, with the peer's FIN come and everything read, the step behind the
  -- packets of a turn leaves the task as it is, although `fin_transit_state` would end the
  -- connection: the range of the test does not contain FinWaitPeer.
  pub fin_wait_peer-waits :
      (t : Task) (accepted : Bool)
      → t.hs ≡ fin_wait_peer
      → is_peer_done t ≡ true
      → (advance_handshake accepted t ≡ some (tt, t))
        × (fin_transit_state t ≡ some (tt, move_to disconnected t))
  unfolding advance_handshake fin_transit_state fin_next task_monad is_fin_handshake set_handshake
  fin_wait_peer-waits t accepted e peer_done =
      let u : Task = move_to disconnected t in
      (
        rw e refl,
        round 6 t t (some disconnected) (next_at t fin_wait_peer e (rw peer_done refl))
            ∙ >>-some (set_handshake disconnected) (fin_loop 6) t refl
            ∙ round 5 u u none (next_at u disconnected (move_to-hs disconnected t) refl),
      )
