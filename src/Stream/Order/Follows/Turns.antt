-- ===== src/Stream/Order/Follows/Turns.antt =====
-- src/stream.rs: every turn of the loop follows the order.
use kcp_rs.Base.{
  ℕ, ◌≤◌, ◌≡◌, refl, Bool, true, false, Option, some, List, [], Bytes, arith, if◌then◌else◌,
}
use kcp_rs.Ffi.{Engine}
use kcp_rs.Protocol.Kcp
use kcp_rs.Stream.Handshake.{Handshake, rank, same, syn}
use kcp_rs.Stream.Task.{Task, on_kcp, pure, kcp_recv, kcp_flush, process_input, task_monad, ◌>>=◌}
use kcp_rs.Stream.Task.Fin.{fin_transit_state, is_fin_handshake}
use kcp_rs.Stream.Task.Syn.{syn_handshake_recv}
use kcp_rs.Stream.Run.{
  TryRecv, Event, Control, loop_head, on_input, send_frame, keep_frame, disconnect_unless,
  advance_handshake, on_event,
}
use kcp_rs.Stream.Order.{
  Ends, bind-Ends, Respects, on_kcp-Respects, Respects-run, order_rules, if-Respects, pure-Respects,
}
use kcp_rs.Stream.Order.Walk.{walk_input-Respects}
use kcp_rs.Stream.Order.Walk.Turn.{walk_head-Respects, walk_event-Respects}
use kcp_rs.Stream.Order.Quiet.{kcp_flush-Quiet, kcp_recv-Quiet, process_input-Quiet}
use kcp_rs.Stream.Order.Follows.{
  Follows, Follows-of_kept, Respects-of_Quiet, task_order, task-Indifferent, send-Follows,
  disconnect-Respects, set_input_closed-Respects,
}
use kcp_rs.Stream.Order.Follows.Fin.{fin_transit_state-Respects, kcp_input-Respects}
use kcp_rs.Stream.Order.Follows.Early.{Early-run, syn_handshake_recv-Early}

module _ ⦃E : Engine⦄ where
  kcp_flush-Respects : Respects task_order kcp_flush
  kcp_flush-Respects = Respects-of_Quiet _ kcp_flush-Quiet

  kcp_recv-Respects : Respects task_order kcp_recv
  kcp_recv-Respects = Respects-of_Quiet _ kcp_recv-Quiet

  process_input-Respects : (x : Bytes) → Respects task_order (process_input x)
  process_input-Respects x = Respects-of_Quiet _ (process_input-Quiet x)

  disconnect_unless-Respects : (b : Bool) → Respects task_order (disconnect_unless b)
  disconnect_unless-Respects b = search (order_rules, disconnect-Respects) depth 12

  same_syn : (hs : Handshake) → same hs syn ≡ true → rank hs ≤ 1
  same_syn hs h = ground arith

  by_state :
      (accepted : Bool) (t : Task) (is_syn : Bool)
      → same t.hs syn ≡ is_syn
      → Ends (Follows t) (
          (if is_syn
              then syn_handshake_recv accepted >>= disconnect_unless
              else (if is_fin_handshake t then fin_transit_state else pure tt))
            t)
  unfolding ◌>>=◌
  by_state accepted t true e =
      bind-Ends task_order t (syn_handshake_recv accepted t) disconnect_unless
        (Early-run t _ (same_syn t.hs e) ((syn_handshake_recv-Early accepted).from t))
        disconnect_unless-Respects
  by_state accepted t false e =
      (if-Respects (is_fin_handshake t) fin_transit_state-Respects (pure-Respects tt)).from t

  advance_handshake-Respects : (b : Bool) → Respects task_order (advance_handshake b)
  unfolding advance_handshake task_monad
  advance_handshake-Respects b = record { from = λ t. by_state b t (same t.hs syn) refl }

  -- The kept frame is not part of the order.
  keep_frame-Follows : (x : Option Bytes) (t : Task) → Follows t (keep_frame x t)
  keep_frame-Follows x t = Follows-of_kept t _ refl refl refl refl refl

  send_frame-Follows : (x : Bytes) (t : Task) → Follows t (send_frame x t)
  send_frame-Follows x t = send-Follows t _

  on_input-Respects :
      (x : Option Bytes) (more : List TryRecv) → Respects task_order (on_input x more)
  on_input-Respects =
      walk_input-Respects fin_transit_state-Respects process_input-Respects
        set_input_closed-Respects kcp_flush-Respects

  on_event-Respects : (e : Event) → Respects task_order (on_event e)
  on_event-Respects =
      walk_event-Respects kcp_recv-Respects keep_frame-Follows send_frame-Follows on_input-Respects
        kcp_input-Respects advance_handshake-Respects kcp_flush-Respects

  emptied-Follows : (t : Task) → Follows t (record t { kcp = record (t.kcp) { output_queue = [] } })
  emptied-Follows t = Follows-of_kept t _ refl refl refl refl refl

  update-Respects : (now : ℕ) → Respects task_order (on_kcp (λ k. Kcp.update k now))
  update-Respects now = on_kcp-Respects _

  loop_head-Respects :
      (feeds : ℕ → Bool) (flushed cancel : Bool)
      → Respects task_order (loop_head feeds flushed cancel)
  loop_head-Respects = walk_head-Respects emptied-Follows update-Respects disconnect-Respects

  -- Whatever happens in a turn of the loop: the handshake does not go back; the settings and the role
  -- stay; FIN_RECVED and INPUT_CLOSED stay set; `input_rx` stays closed, and is closed when FIN_RECVED
  -- is set if it was before; and what went to `output_tx` is extended only. This holds of the first
  -- part of a turn and of the branch that is then taken, as long as they do not panic.
  pub turn-Follows :
      (feeds : ℕ → Bool) (flushed cancel : Bool) (e : Event) (t u v : Task)
      (head : List Bytes × Control) (c : Control)
      → loop_head feeds flushed cancel t ≡ some (head, u)
      → on_event e u ≡ some (c, v)
      → Follows t u × Follows u v
  turn-Follows feeds flushed cancel e t u v head c h1 h2 = (
    Respects-run task_order _ t u head (loop_head-Respects feeds flushed cancel) h1,
    Respects-run task_order _ u v c (on_event-Respects e) h2,
  )
