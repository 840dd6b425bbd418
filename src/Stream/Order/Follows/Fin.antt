-- ===== src/Stream/Order/Follows/Fin.antt =====
-- src/stream.rs: the FIN handshake and the packets of the transport follow the order.
use kcp_rs.Base.{
  ℕ, zero, suc, ◌<◌, ◌≡◌, refl, sym, ◌∙◌, Bool, true, false, Option, none, some, [], append-nil,
  Bytes, arith, if◌then◌else◌, ErrorKind, not_found, invalid_data,
}
use kcp_rs.Ffi.{Engine}
use kcp_rs.Stream.Handshake.{
  Handshake, rank, syn, connected, fin_pending, fin_sent, fin_wait_peer, disconnected,
}
use kcp_rs.Stream.Flags.{has, insert, flush_flag, fin_recved_flag}
use kcp_rs.Stream.Task.Syn.{syn_handshake_input}
use kcp_rs.Stream.Task.{
  Task, task_monad, handshake_send, Answer, done, failed, M, pure, set_flag, set_handshake, move_to,
  ◌>>◌,
}
use kcp_rs.Stream.Task.Fin.{fin_next, fin_loop, fin_transit_state}
use kcp_rs.Stream.Task.Input.{
  fin_received, fin_input, flagged_input, input_failed, after_input, kcp_input,
}
use kcp_rs.Stream.Order.{Ends, Ends-after, Respects, modify-Respects, order_rules}
use kcp_rs.Stream.Order.Quiet.{
  Quiet, quiet, set_flush-Quiet, handshake_send-Quiet, syn_handshake_input-Quiet,
}
use kcp_rs.Stream.Order.Follows.{
  Follows, Follows-trans, Follows-of_Quiet, Respects-of_Quiet, task_order, task-Indifferent,
  move_to-Follows, disconnect-Respects,
}

module _ ⦃E : Engine⦄ where
  -- One round: all but the time limit is as `Quiet` has it, and the state to go to is later.
  abbrev NextLater : Task → Option (Option Handshake × Task) → Type 0
  NextLater t none = Unit {0}
  NextLater t (some (none, u)) = Follows t u
  NextLater t (some (some hs, u)) = Follows t u × (rank u.hs < rank hs)

  later_state :
      (t : Task) (hs : Handshake) (next : Handshake)
      → t.hs ≡ hs
      → rank hs < rank next
      → Follows t t × (rank t.hs < rank next)
  later_state t hs next e h = (task_order.rel_refl t, rw e h)

  set_deadline-Follows : (t : Task) (n : ℕ) → Follows t (record t { hs_end_time = n })
  set_deadline-Follows t n =
      Follows-of_Quiet t _ (quiet t _ refl refl refl refl refl refl refl refl)

  fin_sent_later :
      (t : Task) (r : Option (Unit {0} × Task))
      → t.hs ≡ fin_pending
      → Ends (Quiet t) r
      → NextLater t (elim r [ none ↦ none | some (a, u) ↦ some (some fin_sent, u) ])
  fin_sent_later t none e h = tt
  fin_sent_later t (some (a, u)) e h = (Follows-of_Quiet t u h, rw (h.hs_same ∙ e) (omega arith))

  drained_later :
      (t : Task) (b : Bool)
      → t.hs ≡ fin_pending
      → NextLater t ((if b then handshake_send >> pure (some fin_sent) else pure none) t)
  unfolding task_monad
  drained_later t true e = fin_sent_later t (handshake_send t) e (handshake_send-Quiet.from t)
  drained_later t false e = task_order.rel_refl t

  next_if :
      (t : Task) (b : Bool) (hs next : Handshake)
      → t.hs ≡ hs
      → rank hs < rank next
      → NextLater t (some (if b then some next else none, t))
  next_if t true hs next e h = later_state t hs next e h
  next_if t false hs next e h = task_order.rel_refl t

  fin_next-NextLater : (hs : Handshake) (t : Task) → t.hs ≡ hs → NextLater t (fin_next hs t)
  unfolding fin_next task_monad
  fin_next-NextLater syn t e = later_state t syn disconnected e (omega arith)
  fin_next-NextLater connected t e = (set_deadline-Follows t _, rw e (omega arith))
  fin_next-NextLater fin_pending t e = drained_later t _ e
  fin_next-NextLater fin_sent t e = next_if t _ fin_sent fin_wait_peer e (omega arith)
  fin_next-NextLater fin_wait_peer t e = next_if t _ fin_wait_peer disconnected e (omega arith)
  fin_next-NextLater disconnected t e = task_order.rel_refl t

  round-Ends :
      (fuel : ℕ) (t : Task) (r : Option (Option Handshake × Task))
      → NextLater t r
      → Respects task_order (fin_loop fuel)
      → Ends (Follows t) (elim r as (λ _. Option (Unit {0} × Task)) [
        | none ↦ none
        | some (next, u) ↦
            (elim next as (λ _. M (Unit {0})) [
              | none ↦ pure tt
              | some state ↦ set_handshake state >> fin_loop fuel
            ])
              u
      ])
  unfolding task_monad set_handshake
  round-Ends fuel t none h ih = tt
  round-Ends fuel t (some (none, u)) h ih = h
  round-Ends fuel t (some (some hs, u)) h ih =
      Ends-after task_order t (move_to hs u) (fin_loop fuel (move_to hs u))
        (Follows-trans t u _ h.0 (move_to-Follows hs u (omega (arith, h.1))))
        (ih.from (move_to hs u))

  fin_loop-Respects : (fuel : ℕ) → Respects task_order (fin_loop fuel)
  unfolding fin_loop task_monad
  fin_loop-Respects zero = record { from = λ t. tt }
  fin_loop-Respects (suc fuel) = record {
    from = λ t.
        round-Ends fuel t (fin_next t.hs t) (fin_next-NextLater t.hs t refl)
          (fin_loop-Respects fuel);
  }

  pub fin_transit_state-Respects : Respects task_order fin_transit_state
  unfolding fin_transit_state
  fin_transit_state-Respects = fin_loop-Respects 7

  -- The first FIN sets its flag and closes `input_rx` at once.
  fin_received-Follows : (t : Task) → Follows t (fin_received t)
  unfolding fin_received insert
  fin_received-Follows t = by_test (has t.flags fin_recved_flag)
    where
      by_test :
          (b : Bool)
          → Follows t (
              if b
              then t
              else record t { flags = insert t.flags fin_recved_flag; rx_closed = true })
      by_test true = task_order.rel_refl t
      by_test false = record {
        later = omega arith;
        same_config = refl;
        same_client = refl;
        fin_kept = λ h. refl;
        closed_kept = λ h. h;
        rx_kept = λ h. refl;
        fin_closes = λ h k. refl;
        grows = ([], sym (append-nil t.sent));
      }

  fin_input-Respects : (cmd : ℕ) (p : Bytes) → Respects task_order (fin_input cmd p)
  unfolding fin_input
  fin_input-Respects cmd p =
      search (order_rules, modify-Respects, fin_received-Follows, fin_transit_state-Respects) depth
        12

  flagged_input-Respects : (cmd : ℕ) (p : Bytes) → Respects task_order (flagged_input cmd p)
  unfolding flagged_input
  flagged_input-Respects cmd p =
      search (order_rules, disconnect-Respects, fin_input-Respects) depth 12

  syn_input-Respects : (p : Bytes) → Respects task_order (syn_handshake_input p)
  syn_input-Respects p = Respects-of_Quiet _ (syn_handshake_input-Quiet p)

  input_failed-Respects : (e : ErrorKind) (p : Bytes) → Respects task_order (input_failed e p)
  unfolding input_failed
  input_failed-Respects not_found p = search (order_rules, syn_input-Respects) depth 12
  input_failed-Respects invalid_data p = search (order_rules, flagged_input-Respects) depth 12
  input_failed-Respects _ p = search order_rules

  set_flush-Respects : Respects task_order (set_flag flush_flag)
  set_flush-Respects = Respects-of_Quiet _ set_flush-Quiet

  after_input-Respects : (r : Answer (Unit {0})) (p : Bytes) → Respects task_order (after_input r p)
  unfolding after_input
  after_input-Respects (done u) p = set_flush-Respects
  after_input-Respects (failed e) p = input_failed-Respects e p

  pub kcp_input-Respects : (p : Bytes) → Respects task_order (kcp_input p)
  unfolding kcp_input
  kcp_input-Respects p = search (order_rules, after_input-Respects) depth 12
