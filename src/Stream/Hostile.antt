-- ===== src/Stream/Hostile.antt =====
-- src/stream.rs: `kcp_input` on any packet that the network may bring.
use kcp_rs.Base.{
  ℕ, zero, suc, ◌≤◌, ◌<◌, ◌≡◌, refl, ◌∙◌, true, false, Bool-cases, ◌⊎◌, inl, inr, Option, none,
  some, Bytes, length, bit_and, bit_or, bit_xor, ltb, le→leb, lt→leb_false, ltb→lt, ◌==◌, arith, Io,
  ok, err, not_found, invalid_data, invalid_input, negsuc,
}
use kcp_rs.Ffi.{Engine, ikcp_overhead}
use kcp_rs.Ffi.Laws.{SendLaws, InputLaws}
use kcp_rs.Protocol.Packet.{read_conv, read_cmd, write_cmd, shl32}
use kcp_rs.Protocol.Packet.Header.{write_cmd_frame}
use kcp_rs.Protocol.Payload.{get_elem?-some}
use kcp_rs.Protocol.Kcp
use kcp_rs.Protocol.Kcp.{Kcp, input_result, c_long}
use kcp_rs.Stream.Flags.{has, fin_recved_flag}
use kcp_rs.Stream.Task.{
  Task, Answer, done, failed, modify, set_handshake, pure, checked, call, task_monad, kcp_fin,
  kcp_reset,
}
use kcp_rs.Stream.Task.Fin.{fin_transit_state}
use kcp_rs.Stream.Task.Syn.{
  client_syn_input, server_syn_input, client_syn, server_syn, syn_handshake_conv,
  syn_handshake_input,
}
use kcp_rs.Stream.Task.Input.{
  fin_received, fin_input, flagged_input, input_failed, after_input, kcp_input,
}
use kcp_rs.Stream.Task.Steps.{>>=-some, >>-some, call_ok, call_err}
use kcp_rs.Stream.Runs.{Any, Runs, run_rules, >>=-returns, >>-returns, >>=-Runs, pure-Runs}
use kcp_rs.Stream.Closing.{Returns, FinFits, fin_transit_state-settles}

pub read_conv-some : (p : Bytes) → (r : Option ℕ) × (read_conv p ≡ some r)
unfolding read_conv
read_conv-some p = elim (Bool-cases (ltb (length p) ikcp_overhead)) [
  | inl short ↦ (none, rw (lt→leb_false ikcp_overhead (length p) (ltb→lt _ _ short)) refl)
  | inr whole ↦
      let enough : ikcp_overhead ≤ length p = ground arith in
      let (b0, e0) = get_elem?-some p 0 (omega arith) in
      let (b1, e1) = get_elem?-some p 1 (omega arith) in
      let (b2, e2) = get_elem?-some p 2 (omega arith) in
      let (b3, e3) = get_elem?-some p 3 (omega arith) in
      (
        some (bit_or (bit_or (bit_or b0 (shl32 b1 8)) (shl32 b2 16)) (shl32 b3 24)),
        rw (le→leb ikcp_overhead (length p) enough, e0, e1, e2, e3) refl,
      )
]

read_cmd-some : (p : Bytes) → ikcp_overhead ≤ length p → (b : ℕ) × (read_cmd p ≡ some b)
unfolding read_cmd
read_cmd-some p whole = get_elem?-some p 4 (omega arith)

module _ ⦃E : Engine⦄ where
  module _ (laws : InputLaws E) where
    Answers : Kcp → Bytes → Kcp × Io (Unit {0}) → Type 0
    Answers k p r =
        (k' : Kcp) × (k'.handle.mtu ≡ k.handle.mtu)
        × ((r ≡ (k', ok tt))
            ⊎ (r ≡ (k', err not_found))
            ⊎ ((r ≡ (k', err invalid_data)) × (ikcp_overhead ≤ length p)))

    input-Answers : (k : Kcp) (p : Bytes) → Answers k p (Kcp.input k p)
    unfolding Answers Kcp.input input_result
    input-Answers k p =
        let n = c_long (length p) in
        let k' : Kcp = record k { handle = (E.ikcp_input k.handle p n).0 } in
        let whole : (m : ℕ)
            → 0 < m
            → (E.ikcp_input k.handle p n).1 ≡ negsuc m
            → ikcp_overhead ≤ length p =
          λ m lo e. long m lo e (Bool-cases (ltb (length p) ikcp_overhead)) in
        (
          k',
          laws.input_keeps_mtu k.handle p n,
          elim (laws.input_codes k.handle p n) [
            | inl e ↦ inl (λ i. (k', input_result (e i)))
            | inr (inl e) ↦ inr (inl (λ i. (k', input_result (e i))))
            | inr (inr (inl e)) ↦
                inr (inr ((λ i. (k', input_result (e i))), whole 1 (omega arith) e))
            | inr (inr (inr e)) ↦
                inr (inr ((λ i. (k', input_result (e i))), whole 2 (omega arith) e))
          ],
        )
      where
        long :
            (m : ℕ)
            → 0 < m
            → (E.ikcp_input k.handle p (c_long (length p))).1 ≡ negsuc m
            → (ltb (length p) ikcp_overhead ≡ true) ⊎ (ltb (length p) ikcp_overhead ≡ false)
            → ikcp_overhead ≤ length p
        long m lo e (inr h) = ground arith
        long zero lo e (inl h) = absurd (omega arith)
        long (suc m) lo e (inl h) =
            absurd
              (ground (arith, e, laws.input_short k.handle p (c_long (length p)) (ltb→lt _ _ h)))

    call-returns : (p : Bytes) (t : Task) → Returns (call (λ k. Kcp.input k p) t) Any
    unfolding Answers
    call-returns p t =
        let (k', _, answer) = input-Answers t.kcp p in
        elim answer [
          | inl e ↦ (done tt, record t { kcp = k' }, call_ok (λ k. Kcp.input k p) t e, tt)
          | inr (inl e) ↦
              (failed not_found, record t { kcp = k' }, call_err (λ k. Kcp.input k p) t e, tt)
          | inr (inr (e, _)) ↦
              (failed invalid_data, record t { kcp = k' }, call_err (λ k. Kcp.input k p) t e, tt)
        ]

    input-Runs : (p : Bytes) → Runs (call (λ k. Kcp.input k p))
    input-Runs p = record { from = call-returns p }

    client_syn_input-Runs : (conv : ℕ) (p : Bytes) → Runs (client_syn_input conv p)
    unfolding client_syn_input
    client_syn_input-Runs conv p = search (run_rules, input-Runs) depth 12

    server_syn_input-Runs : (conv : ℕ) (p : Bytes) → Runs (server_syn_input conv p)
    unfolding server_syn_input
    server_syn_input-Runs conv p = search (run_rules, input-Runs) depth 12

    syn_handshake_conv-Runs : (c : Option ℕ) (p : Bytes) → Runs (syn_handshake_conv c p)
    unfolding syn_handshake_conv client_syn server_syn
    syn_handshake_conv-Runs none p = pure-Runs (failed invalid_input)
    syn_handshake_conv-Runs (some conv) p =
        search (run_rules, client_syn_input-Runs, server_syn_input-Runs) depth 12

    checked-Runs : {A : Type 0} (x : Option A) (a : A) → x ≡ some a → Runs (checked x)
    unfolding checked
    checked-Runs x a e = record { from = λ t. (a, t, rw e refl, tt) }

    syn_handshake_input-Runs : (p : Bytes) → Runs (syn_handshake_input p)
    unfolding syn_handshake_input
    syn_handshake_input-Runs p =
        let (c, e) = read_conv-some p in
        >>=-Runs (checked-Runs (read_conv p) c e) λ c. syn_handshake_conv-Runs c p

    fin_received-FinFits : (t : Task) → FinFits t → FinFits (fin_received t)
    unfolding fin_received
    fin_received-FinFits t fits = elim (Bool-cases (has t.flags fin_recved_flag)) [
      | inl e ↦ rw e fits
      | inr e ↦ rw e fits
    ]

    fin_input-returns :
        (cmd : ℕ) (p : Bytes) (t : Task)
        → SendLaws E
        → FinFits t
        → ikcp_overhead ≤ length p
        → Returns (fin_input cmd p t) Any
    unfolding fin_input task_monad
    fin_input-returns cmd p t sends fits whole =
        let (p', written, _, _, _, _, _) = write_cmd_frame p (bit_xor cmd kcp_fin) whole in
        >>-returns (modify fin_received) _ t FinFits Any (tt, _, refl, fin_received-FinFits t fits)
          λ u fits'.
            >>-returns fin_transit_state _ u Any Any
              (let (a, v, run, _) = fin_transit_state-settles u sends fits' in (a, v, run, tt))
              λ v _.
                >>=-returns (checked (write_cmd p (bit_xor cmd kcp_fin))) _ v Any Any
                  (p', v, rw written refl, tt)
                  λ p'' w _.
                    >>-returns (call (λ k. Kcp.input k p'')) (pure tt) w Any Any
                      (call-returns p'' w) λ z _. (tt, z, refl, tt)

    flagged_input-returns :
        (cmd : ℕ) (p : Bytes) (t : Task)
        → SendLaws E
        → FinFits t
        → ikcp_overhead ≤ length p
        → Returns (flagged_input cmd p t) Any
    unfolding flagged_input task_monad set_handshake
    flagged_input-returns cmd p t sends fits whole =
        elim (Bool-cases (bit_and cmd kcp_reset == 0)) [
          | inr e ↦ rw e (tt, _, refl, tt)
          | inl e ↦ elim (Bool-cases (bit_and cmd kcp_fin == 0)) [
            | inl f ↦ rw (e, f) (tt, t, refl, tt)
            | inr f ↦ rw (e, f) (fin_input-returns cmd p t sends fits whole)
          ]
        ]

  -- No packet that the network may bring, of any size and with any bytes, makes `kcp_input` panic
  -- or read outside the packet: what the code calls unreachable is not reached, and the command
  -- byte is there when it is read. This holds when the C library takes every frame of a fitting
  -- size, gives only its documented result codes for a packet and leaves its mtu alone, and the FIN
  -- frame fits.
  pub kcp_input-returns :
      (packet : Bytes) (t : Task)
      → SendLaws E
      → InputLaws E
      → FinFits t
      → (u : Task) × (kcp_input packet t ≡ some (tt, u))
  unfolding kcp_input after_input input_failed task_monad Answers
  kcp_input-returns packet t sends laws fits =
      let (k', same_mtu, answer) = input-Answers laws t.kcp packet in
      let t1 : Task = record t { kcp = k' } in
      let after : (r : Answer (Unit {0}))
          → call (λ k. Kcp.input k packet) t ≡ some (r, t1)
          → kcp_input packet t ≡ after_input r packet t1 =
        λ r e. >>=-some (call (λ k. Kcp.input k packet)) (λ r. after_input r packet) t e in
      elim answer [
        | inl e ↦ (_, after (done tt) (call_ok (λ k. Kcp.input k packet) t e))
        | inr (inl e) ↦
            (let (_, u, run, _) = (syn_handshake_input-Runs laws packet).from t1 in
              (
                u,
                after (failed _) (call_err (λ k. Kcp.input k packet) t e)
                    ∙ >>-some (syn_handshake_input packet) (pure tt) t1 run,
              ))
        | inr (inr (e, whole)) ↦
            (let (b, read) = read_cmd-some packet whole in
              let (a, u, run, _) =
                flagged_input-returns laws b packet t1 sends (rw same_mtu fits) whole in
              (
                u,
                after (failed _) (call_err (λ k. Kcp.input k packet) t e)
                    ∙ >>=-some (checked (read_cmd packet)) (λ cmd. flagged_input cmd packet) t1
                        (rw read refl)
                    ∙ run,
              ))
      ]
