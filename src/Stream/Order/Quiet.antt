-- ===== src/Stream/Order/Quiet.antt =====
-- src/stream.rs: the methods that leave the handshake alone.
use kcp_rs.Base.{ℕ, ◌≡◌, refl, ◌∙◌, Option, none, some, Bytes}
use kcp_rs.Ffi.{Engine}
use kcp_rs.Stream.Flags.{toggle, flush_flag}
use kcp_rs.Stream.Task.{
  Task, Answer, done, failed, set_flag, toggle_flag, mark_io, kcp_flush, kcp_recv,
  kcp_apply_nodelay, handshake_send, after_send, process_input,
}
use kcp_rs.Stream.Task.Syn.{
  client_syn_input, server_syn_input, client_syn, server_syn, syn_handshake_conv,
  syn_handshake_input,
}
use kcp_rs.Stream.Order.{Order, Indifferent, Respects, modify-Respects, order_rules}

module _ ⦃E : Engine⦄ where
  -- All but the connection, the flag FLUSH, the times and the kept frame is as it was.
  pub record Quiet (t t' : Task) : Type 0 where
    pub hs_same : t'.hs ≡ t.hs
    pub config_same : t'.config ≡ t.config
    pub session_same : t'.session_id ≡ t.session_id
    pub client_same : t'.flags.client ≡ t.flags.client
    pub fin_same : t'.flags.fin_recved ≡ t.flags.fin_recved
    pub closed_same : t'.flags.input_closed ≡ t.flags.input_closed
    pub rx_same : t'.rx_closed ≡ t.rx_closed
    pub sent_same : t'.sent ≡ t.sent

  pub quiet :
      (t t' : Task)
      → t'.hs ≡ t.hs
      → t'.config ≡ t.config
      → t'.session_id ≡ t.session_id
      → t'.flags.client ≡ t.flags.client
      → t'.flags.fin_recved ≡ t.flags.fin_recved
      → t'.flags.input_closed ≡ t.flags.input_closed
      → t'.rx_closed ≡ t.rx_closed
      → t'.sent ≡ t.sent
      → Quiet t t'
  quiet t t' a b c d e f g h = record {
    hs_same = a;
    config_same = b;
    session_same = c;
    client_same = d;
    fin_same = e;
    closed_same = f;
    rx_same = g;
    sent_same = h;
  }

  pub Quiet-trans : (t u v : Task) → Quiet t u → Quiet u v → Quiet t v
  Quiet-trans t u v a b =
      quiet t v (b.hs_same ∙ a.hs_same) (b.config_same ∙ a.config_same)
        (b.session_same ∙ a.session_same) (b.client_same ∙ a.client_same) (b.fin_same ∙ a.fin_same)
        (b.closed_same ∙ a.closed_same) (b.rx_same ∙ a.rx_same) (b.sent_same ∙ a.sent_same)

  abbrev pub quiet_order : Order
  quiet_order = record {
    Rel = Quiet;
    rel_refl = λ t. quiet t t refl refl refl refl refl refl refl refl;
    rel_trans = Quiet-trans;
  }

  instance pub quiet-Indifferent : Indifferent quiet_order
  quiet-Indifferent = record { rel_kcp = λ t k. quiet t _ refl refl refl refl refl refl refl refl }

  pub set_flush-Quiet : Respects quiet_order (set_flag flush_flag)
  unfolding set_flag
  set_flush-Quiet = record { from = λ t. quiet t _ refl refl refl refl refl refl refl refl }

  toggle_flush-Quiet : (t : Task) → Quiet t (toggle_flag flush_flag t)
  unfolding toggle
  toggle_flush-Quiet t = quiet t _ refl refl refl refl refl refl refl refl

  mark_io-Quiet : (t : Task) → Quiet t (mark_io t)
  mark_io-Quiet t = quiet t _ refl refl refl refl refl refl refl refl

  pub kcp_flush-Quiet : Respects quiet_order kcp_flush
  unfolding kcp_flush
  kcp_flush-Quiet =
      search (order_rules, modify-Respects, toggle_flush-Quiet, mark_io-Quiet) depth 12

  pub kcp_apply_nodelay-Quiet : Respects quiet_order kcp_apply_nodelay
  unfolding kcp_apply_nodelay
  kcp_apply_nodelay-Quiet = search order_rules depth 12

  pub handshake_send-Quiet : Respects quiet_order handshake_send
  unfolding handshake_send
  handshake_send-Quiet = search (order_rules, set_flush-Quiet, kcp_flush-Quiet) depth 12

  pub kcp_recv-Quiet : Respects quiet_order kcp_recv
  unfolding kcp_recv
  kcp_recv-Quiet = search order_rules depth 12

  after_send-Quiet : (r : Answer ℕ) → Respects quiet_order (after_send r)
  unfolding after_send
  after_send-Quiet (done n) = search (order_rules, set_flush-Quiet) depth 12
  after_send-Quiet (failed e) = search order_rules

  pub process_input-Quiet : (x : Bytes) → Respects quiet_order (process_input x)
  unfolding process_input
  process_input-Quiet x = search (order_rules, after_send-Quiet) depth 12

  client_syn_input-Quiet : (c : ℕ) (p : Bytes) → Respects quiet_order (client_syn_input c p)
  unfolding client_syn_input
  client_syn_input-Quiet c p = search order_rules depth 12

  server_syn_input-Quiet : (c : ℕ) (p : Bytes) → Respects quiet_order (server_syn_input c p)
  unfolding server_syn_input
  server_syn_input-Quiet c p = search order_rules depth 12

  syn_handshake_conv-Quiet :
      (c : Option ℕ) (p : Bytes) → Respects quiet_order (syn_handshake_conv c p)
  unfolding syn_handshake_conv client_syn server_syn
  syn_handshake_conv-Quiet none p = search order_rules depth 12
  syn_handshake_conv-Quiet (some c) p =
      search (order_rules, client_syn_input-Quiet, server_syn_input-Quiet) depth 12

  pub syn_handshake_input-Quiet : (p : Bytes) → Respects quiet_order (syn_handshake_input p)
  unfolding syn_handshake_input
  syn_handshake_input-Quiet p = search (order_rules, syn_handshake_conv-Quiet) depth 12
