-- ===== src/Stream/Order/Walk.antt =====
-- src/stream.rs: the methods `fin_transit_state`, `kcp_input` and the branch for input walk through others:
-- they respect an order that those respect.
pub mod Turn
use kcp_rs.Base.{
  ℕ, zero, suc, false, Option, none, some, List, [], ◌∷◌, Bytes, ErrorKind, not_found, invalid_data,
}
use kcp_rs.Ffi.{Engine}
use kcp_rs.Protocol.Kcp
use kcp_rs.Stream.Handshake.{
  Handshake, syn, connected, fin_pending, fin_sent, fin_wait_peer, disconnected,
}
use kcp_rs.Stream.Flags.{flush_flag, input_closed_flag}
use kcp_rs.Stream.Task.{
  Task, Answer, done, failed, M, pure, call, modify, set_flag, set_handshake, handshake_send,
  kcp_flush, process_input, ◌>>◌,
}
use kcp_rs.Stream.Task.Fin.{fin_next, fin_loop, fin_transit_state}
use kcp_rs.Stream.Task.Syn.{syn_handshake_input}
use kcp_rs.Stream.Task.Input.{
  fin_received, fin_input, flagged_input, input_failed, after_input, kcp_input,
}
use kcp_rs.Stream.Run.{TryRecv, received, empty, all_gone, take_more, take_input, on_input}
use kcp_rs.Stream.Order.{
  Order, Respects, modify-Respects, order_rules, >>=-Respects, >>-Respects, gets-Respects,
  if-Respects, pure-Respects,
}

module _ ⦃E : Engine⦄ {o : Order} where
  module _ (sends : Respects o handshake_send)
      (moves : (hs : Handshake) → Respects o (set_handshake hs))
      (sets : (f : Task → ℕ) → Respects o (modify (λ t. record t { hs_end_time = f t }))) where
    fin_next-Respects : (hs : Handshake) → Respects o (fin_next hs)
    unfolding fin_next
    fin_next-Respects syn = search order_rules
    fin_next-Respects connected = search (order_rules, sets) depth 12
    fin_next-Respects fin_pending = search order_rules depth 12
    fin_next-Respects fin_sent = search order_rules depth 12
    fin_next-Respects fin_wait_peer = search order_rules depth 12
    fin_next-Respects disconnected = search order_rules depth 12

    fin_rest-Respects :
        (fuel : ℕ) (next : Option Handshake)
        → Respects o (fin_loop fuel)
        → Respects o (elim next as (λ _. M (Unit {0})) [
          | none ↦ pure tt
          | some state ↦ set_handshake state >> fin_loop fuel
        ])
    fin_rest-Respects fuel none h = search order_rules
    fin_rest-Respects fuel (some hs) h = search (order_rules, moves)

    fin_loop-Respects : (fuel : ℕ) → Respects o (fin_loop fuel)
    unfolding fin_loop
    fin_loop-Respects zero = search order_rules
    fin_loop-Respects (suc fuel) = >>=-Respects (gets-Respects _) λ hs.
        >>=-Respects (fin_next-Respects hs)
          λ next. fin_rest-Respects fuel next (fin_loop-Respects fuel)

    pub walk_fin-Respects : Respects o fin_transit_state
    unfolding fin_transit_state
    walk_fin-Respects = fin_loop-Respects 7

  module _ (fin : Respects o fin_transit_state) (resets : Respects o (set_handshake disconnected))
      (notes : (t : Task) → o.Rel t (fin_received t))
      (inputs : (p : Bytes) → Respects o (call (λ k. Kcp.input k p)))
      (syn_inputs : (p : Bytes) → Respects o (syn_handshake_input p))
      (flags : Respects o (set_flag flush_flag)) where
    fin_input-Respects : (cmd : ℕ) (p : Bytes) → Respects o (fin_input cmd p)
    unfolding fin_input
    fin_input-Respects cmd p = search (order_rules, modify-Respects, notes, inputs) depth 16

    flagged_input-Respects : (cmd : ℕ) (p : Bytes) → Respects o (flagged_input cmd p)
    unfolding flagged_input
    flagged_input-Respects cmd p = search (order_rules, fin_input-Respects) depth 16

    input_failed-Respects : (e : ErrorKind) (p : Bytes) → Respects o (input_failed e p)
    unfolding input_failed
    input_failed-Respects not_found p = search (order_rules, syn_inputs) depth 12
    input_failed-Respects invalid_data p = search (order_rules, flagged_input-Respects) depth 12
    input_failed-Respects _ p = search order_rules

    after_input-Respects : (r : Answer (Unit {0})) (p : Bytes) → Respects o (after_input r p)
    unfolding after_input
    after_input-Respects (done u) p = flags
    after_input-Respects (failed e) p = input_failed-Respects e p

    pub walk_kcp_input-Respects : (p : Bytes) → Respects o (kcp_input p)
    unfolding kcp_input
    walk_kcp_input-Respects p = search (order_rules, inputs, after_input-Respects) depth 12

  module _ (fin : Respects o fin_transit_state) (takes : (x : Bytes) → Respects o (process_input x))
      (closes : Respects o (set_flag input_closed_flag)) (flushes : Respects o kcp_flush) where
    take_more-Respects : (more : List TryRecv) → Respects o (take_more more)
    unfolding take_more
    take_more-Respects [] = search order_rules
    take_more-Respects (empty ∷ more) = search order_rules
    take_more-Respects (all_gone ∷ more) = search order_rules
    take_more-Respects (received x ∷ more) = >>=-Respects (gets-Respects _) λ full.
        if-Respects full (pure-Respects false) (>>-Respects (takes x) (take_more-Respects more))

    take_input-Respects : (x : Option Bytes) (more : List TryRecv) → Respects o (take_input x more)
    unfolding take_input
    take_input-Respects none more = search order_rules
    take_input-Respects (some x) more = search (order_rules, takes, take_more-Respects)

    pub walk_input-Respects :
        (x : Option Bytes) (more : List TryRecv) → Respects o (on_input x more)
    unfolding on_input
    walk_input-Respects x more = search (order_rules, take_input-Respects) depth 12
