-- ===== src/Stream/Order/Follows.antt =====
-- src/stream.rs: what no method of the task undoes. The handshake only moves on; the flags of the end
-- stay set; the first FIN closes `input_rx`; what was handed to `output_tx` stays handed.
pub mod Fin
pub mod Early
pub mod Turns
use kcp_rs.Base.{
  ℕ, zero, suc, ◌≤◌, ◌<◌, ◌≡◌, refl, sym, ap, ◌∙◌, Bool, true, false, not, Option, none, some, List,
  [], ◌∷◌, ◌++◌, append-nil, append_assoc, Bytes, arith, if◌then◌else◌, ErrorKind, not_found,
  invalid_data, invalid_input, out_of_memory, timed_out, not_connected, bit_and, ◌==◌,
}
use kcp_rs.Ffi.{Engine}
use kcp_rs.Protocol.Kcp
use kcp_rs.Protocol.Kcp.{Kcp}
use kcp_rs.Stream.Handshake.{
  Handshake, rank, same, syn, connected, fin_pending, fin_sent, fin_wait_peer, disconnected,
}
use kcp_rs.Stream.Flags.{Flags, has, insert, flush_flag, input_closed_flag, fin_recved_flag}
use kcp_rs.Stream.Task.Syn.{syn_handshake_input}
use kcp_rs.Stream.Task.{
  Task, task_monad, handshake_send, Output, Answer, done, failed, M, pure, gets, modify, set_flag,
  set_handshake, move_to, ◌>>=◌, ◌>>◌,
}
use kcp_rs.Stream.Task.Fin.{fin_next, fin_loop, fin_transit_state}
use kcp_rs.Stream.Task.Input.{
  fin_received, fin_input, flagged_input, input_failed, after_input, kcp_input,
}
use kcp_rs.Stream.Order.{
  Order, Indifferent, Ends, Ends-after, Respects, modify-Respects, order_rules,
}
use kcp_rs.Stream.Order.Quiet.{
  Quiet, quiet, quiet_order, quiet-Indifferent, set_flush-Quiet, kcp_flush-Quiet,
  handshake_send-Quiet, kcp_recv-Quiet, process_input-Quiet, syn_handshake_input-Quiet,
}

module _ ⦃E : Engine⦄ where
  pub record Follows (t t' : Task) : Type 0 where
    pub later : rank t.hs ≤ rank t'.hs
    pub same_config : t'.config ≡ t.config
    pub same_client : t'.flags.client ≡ t.flags.client
    pub fin_kept : t.flags.fin_recved ≡ true → t'.flags.fin_recved ≡ true
    pub closed_kept : t.flags.input_closed ≡ true → t'.flags.input_closed ≡ true
    pub rx_kept : t.rx_closed ≡ true → t'.rx_closed ≡ true
    pub fin_closes :
        (t.flags.fin_recved ≡ true → t.rx_closed ≡ true)
        → t'.flags.fin_recved ≡ true
        → t'.rx_closed ≡ true
    pub grows : (more : List Output) × (t'.sent ≡ t.sent ++ more)

  pub Follows-of_kept :
      (t t' : Task)
      → t'.hs ≡ t.hs
      → t'.config ≡ t.config
      → t'.flags ≡ t.flags
      → t'.rx_closed ≡ t.rx_closed
      → t'.sent ≡ t.sent
      → Follows t t'
  Follows-of_kept t t' hs config flags rx sent = record {
    later = rw hs (omega arith);
    same_config = config;
    same_client = ap (λ f. f.client) flags;
    fin_kept = λ h. ap (λ f. f.fin_recved) flags ∙ h;
    closed_kept = λ h. ap (λ f. f.input_closed) flags ∙ h;
    rx_kept = λ h. rx ∙ h;
    fin_closes = λ h k. rx ∙ h (ap (λ f. f.fin_recved) (sym flags) ∙ k);
    grows = ([], sent ∙ sym (append-nil t.sent));
  }

  pub Follows-of_Quiet : (t t' : Task) → Quiet t t' → Follows t t'
  Follows-of_Quiet t t' q = record {
    later = rw (q.hs_same) (omega arith);
    same_config = q.config_same;
    same_client = q.client_same;
    fin_kept = λ h. q.fin_same ∙ h;
    closed_kept = λ h. q.closed_same ∙ h;
    rx_kept = λ h. q.rx_same ∙ h;
    fin_closes = λ h k. q.rx_same ∙ h (sym q.fin_same ∙ k);
    grows = ([], q.sent_same ∙ sym (append-nil t.sent));
  }

  pub Follows-trans : (t u v : Task) → Follows t u → Follows u v → Follows t v
  Follows-trans t u v a b = record {
    later = omega (arith, a.later, b.later);
    same_config = b.same_config ∙ a.same_config;
    same_client = b.same_client ∙ a.same_client;
    fin_kept = λ h. b.fin_kept (a.fin_kept h);
    closed_kept = λ h. b.closed_kept (a.closed_kept h);
    rx_kept = λ h. b.rx_kept (a.rx_kept h);
    fin_closes = λ h. b.fin_closes (a.fin_closes h);
    grows = (
      a.grows.0 ++ b.grows.0,
      b.grows.1 ∙ ap (λ l. l ++ b.grows.0) a.grows.1 ∙ append_assoc t.sent a.grows.0 b.grows.0,
    );
  }

  abbrev pub task_order : Order
  task_order = record {
    Rel = Follows;
    rel_refl = λ t. Follows-of_Quiet t t (quiet_order.rel_refl t);
    rel_trans = Follows-trans;
  }

  instance pub task-Indifferent : Indifferent task_order
  task-Indifferent = record {
    rel_kcp = λ t k. Follows-of_Quiet t _ (quiet-Indifferent.rel_kcp t k);
  }

  Quiet-Ends :
      {A : Type 0} (t : Task) (r : Option (A × Task)) → Ends (Quiet t) r → Ends (Follows t) r
  Quiet-Ends t none h = tt
  Quiet-Ends t (some (a, u)) h = Follows-of_Quiet t u h

  pub Respects-of_Quiet : {A : Type 0} (m : M A) → Respects quiet_order m → Respects task_order m
  Respects-of_Quiet m h = record { from = λ t. Quiet-Ends t (m t) (h.from t) }

  pub set_input_closed-Respects : Respects task_order (set_flag input_closed_flag)
  unfolding set_flag
  set_input_closed-Respects = record {
    from = λ t. record {
      later = omega arith;
      same_config = refl;
      same_client = refl;
      fin_kept = λ h. h;
      closed_kept = λ h. refl;
      rx_kept = λ h. h;
      fin_closes = λ h. h;
      grows = ([], sym (append-nil t.sent));
    };
  }

  -- A later state of the handshake.
  pub move_to-Follows : (hs : Handshake) (t : Task) → rank t.hs ≤ rank hs → Follows t (move_to hs t)
  move_to-Follows hs t h = by_test (same t.hs hs)
    where
      by_test : (b : Bool) → Follows t (if b then t else record t { hs = hs })
      by_test true = task_order.rel_refl t
      by_test false = record {
        later = h;
        same_config = refl;
        same_client = refl;
        fin_kept = λ k. k;
        closed_kept = λ k. k;
        rx_kept = λ k. k;
        fin_closes = λ k. k;
        grows = ([], sym (append-nil t.sent));
      }

  pub send-Follows : (t : Task) (x : Output) → Follows t (record t { sent = t.sent ++ (x ∷ []) })
  send-Follows t x = record {
    later = omega arith;
    same_config = refl;
    same_client = refl;
    fin_kept = λ h. h;
    closed_kept = λ h. h;
    rx_kept = λ h. h;
    fin_closes = λ h. h;
    grows = (x ∷ [], refl);
  }

  rank-le : (hs : Handshake) → rank hs ≤ 5
  rank-le syn = omega arith
  rank-le _ = omega arith

  pub disconnect-Respects : Respects task_order (set_handshake disconnected)
  unfolding set_handshake modify
  disconnect-Respects = record { from = λ t. move_to-Follows disconnected t (rank-le t.hs) }
