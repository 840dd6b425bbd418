-- ===== src/Stream/Number/Handshaking.antt =====
-- src/stream.rs: the handshakes of a server leave the number of its connection.
use kcp_rs.Base.{
  ℕ, ◌≡◌, refl, Bool, true, false, Option, none, some, Bytes, All-append, Io, ok, err, panic, arith,
  if◌then◌else◌,
}
use kcp_rs.Ffi.{Engine}
use kcp_rs.Ffi.Laws.{NumberLaws}
use kcp_rs.Protocol.Kcp
use kcp_rs.Protocol.Kcp.{Kcp}
use kcp_rs.Stream.Handshake.{disconnected, connected}
use kcp_rs.Stream.Flags.{has, insert, fin_recved_flag}
use kcp_rs.Stream.Task.{
  Task, established, pure, gets, modify, call, settle, task_monad, ◌>>=◌, ◌>>◌,
}
use kcp_rs.Stream.Task.Fin.{fin_transit_state}
use kcp_rs.Stream.Task.Syn.{
  add_output, establish, client_accept, server_accept, syn_accept, syn_frame, syn_handshake_recv,
  client_syn, server_syn, server_syn_input, syn_handshake_conv, syn_handshake_input, is_client,
}
use kcp_rs.Stream.Task.Input.{fin_received, kcp_input}
use kcp_rs.Stream.Order.{Ends, Respects, modify-Respects, order_rules, >>-Respects}
use kcp_rs.Stream.Order.Walk.{walk_fin-Respects, walk_kcp_input-Respects}
use kcp_rs.Stream.Number.{
  Tells, Same, number_order, same, call-Same, input-conv, set_flush-Same, kcp_recv-Same,
  kcp_apply_nodelay-Same, handshake_send-Same, set_handshake-Same,
}

module _ ⦃E : Engine⦄ ⦃L : NumberLaws E⦄ where
  -- The message of the connection bears its number.
  add-Same : (t : Task) → Same t (add_output (established (Kcp.conv t.kcp)) t)
  add-Same t n h = record {
    server = h.server;
    number = h.number;
    told = All-append (Tells n) t.sent _ h.told (h.number, tt);
  }

  tell-Same :
      (accepted : Bool)
      → Respects number_order (
          gets (λ t. Kcp.conv t.kcp) >>= λ conv.
          (if accepted then modify (add_output (established conv)) >> pure true else pure false))
  unfolding task_monad
  tell-Same true = record { from = λ t. add-Same t }
  tell-Same false = record { from = λ t. number_order.rel_refl t }

  establish-Same : (accepted : Bool) → Respects number_order (establish accepted)
  unfolding establish
  establish-Same accepted = >>-Respects (set_handshake-Same connected) (tell-Same accepted)

  client_accept-Same :
      (id : Bytes) (accepted : Bool) → Respects number_order (client_accept id accepted)
  unfolding client_accept
  client_accept-Same id accepted =
      search (order_rules, kcp_apply_nodelay-Same, establish-Same) depth 12

  session-Same : (id : Bytes) (t : Task) → Same t (record t { session_id = id })
  session-Same id t = same t _ refl refl refl

  server_accept-Same :
      (id : Bytes) (accepted : Bool) → Respects number_order (server_accept id accepted)
  unfolding server_accept
  server_accept-Same id accepted =
      search
        (
          order_rules, modify-Respects, session-Same, kcp_apply_nodelay-Same, handshake_send-Same,
          establish-Same,
        )
        depth 16

  syn_accept-Same :
      (id : Option Bytes) (accepted : Bool) → Respects number_order (syn_accept id accepted)
  unfolding syn_accept
  syn_accept-Same none accepted = search order_rules
  syn_accept-Same (some id) accepted =
      search (order_rules, client_accept-Same, server_accept-Same) depth 12

  syn_frame-Same :
      (x : Option Bytes) (accepted : Bool) → Respects number_order (syn_frame x accepted)
  unfolding syn_frame
  syn_frame-Same none accepted = search order_rules
  syn_frame-Same (some x) accepted = search (order_rules, syn_accept-Same) depth 12

  pub syn_handshake_recv-Same :
      (accepted : Bool) → Respects number_order (syn_handshake_recv accepted)
  unfolding syn_handshake_recv
  syn_handshake_recv-Same accepted = search (order_rules, kcp_recv-Same, syn_frame-Same) depth 12

  -- The number is put back, whatever the library made of the packet.
  restored :
      (t : Task) (tried : Kcp) (r : Kcp × Io (Unit {0}))
      → Ends
          (Same t)
          (elim (settle (record t { kcp = tried }) r) as (λ _. Option (Unit {0} × Task)) [
            | none ↦ none
            | some (a, u) ↦ some (tt, record u { kcp = Kcp.set_conv u.kcp (Kcp.conv t.kcp) })
          ])
  unfolding Kcp.set_conv
  restored t tried (k, ok u) = same t _ refl refl refl
  restored t tried (k, err e) = same t _ refl refl refl
  restored t tried (k, panic) = tt

  server_syn_input-Same : (c : ℕ) (p : Bytes) → Respects number_order (server_syn_input c p)
  unfolding server_syn_input task_monad
  server_syn_input-Same c p = record {
    from = λ t. restored t (Kcp.set_conv t.kcp c) (Kcp.input (Kcp.set_conv t.kcp c) p);
  }

  server_syn-Same : (c : ℕ) (p : Bytes) → Respects number_order (server_syn c p)
  unfolding server_syn
  server_syn-Same c p = search (order_rules, server_syn_input-Same) depth 12

  -- Of a client nothing is said.
  client-Ends :
      {A : Type 0} (t : Task) (r : Option (A × Task)) → is_client t ≡ true → Ends (Same t) r
  unfolding has
  client-Ends t none e = tt
  client-Ends t (some (a, u)) e = λ n h. absurd (ground (arith, h.server))

  by_role :
      (c : ℕ) (p : Bytes) (t : Task) (role : Bool)
      → is_client t ≡ role
      → Ends (Same t) ((if role then client_syn c p else server_syn c p) t)
  by_role c p t true e = client-Ends t (client_syn c p t) e
  by_role c p t false e = (server_syn-Same c p).from t

  syn_handshake_conv-Same :
      (c : Option ℕ) (p : Bytes) → Respects number_order (syn_handshake_conv c p)
  unfolding syn_handshake_conv task_monad
  syn_handshake_conv-Same none p = record { from = number_order.rel_refl }
  syn_handshake_conv-Same (some c) p = record { from = λ t. by_role c p t (is_client t) refl }

  syn_handshake_input-Same : (p : Bytes) → Respects number_order (syn_handshake_input p)
  unfolding syn_handshake_input
  syn_handshake_input-Same p = search (order_rules, syn_handshake_conv-Same) depth 12

  deadline-Same :
      (f : Task → ℕ) → Respects number_order (modify (λ t. record t { hs_end_time = f t }))
  deadline-Same f = modify-Respects _ λ t. same t _ refl refl refl

  pub fin_transit_state-Same : Respects number_order fin_transit_state
  fin_transit_state-Same = walk_fin-Respects handshake_send-Same set_handshake-Same deadline-Same

  fin_received-Same : (t : Task) → Same t (fin_received t)
  unfolding fin_received insert
  fin_received-Same t = by_test (has t.flags fin_recved_flag)
    where
      by_test :
          (b : Bool)
          → Same t (
              if b
              then t
              else record t { flags = insert t.flags fin_recved_flag; rx_closed = true })
      by_test true = number_order.rel_refl t
      by_test false = same t _ refl refl refl

  call_input-Same : (p : Bytes) → Respects number_order (call (λ k. Kcp.input k p))
  call_input-Same p = call-Same _ λ k. input-conv k p

  pub kcp_input-Same : (p : Bytes) → Respects number_order (kcp_input p)
  kcp_input-Same =
      walk_kcp_input-Respects fin_transit_state-Same (set_handshake-Same disconnected)
        fin_received-Same call_input-Same syn_handshake_input-Same set_flush-Same
