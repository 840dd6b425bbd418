-- ===== src/Stream/Order/Follows/Early.antt =====
-- src/stream.rs: establishing a connection follows the order, from the states before it.
use kcp_rs.Base.{◌≤◌, refl, Bool, true, false, Option, none, some, Bytes, arith, if◌then◌else◌}
use kcp_rs.Ffi.{Engine}
use kcp_rs.Stream.Handshake.{rank, same, connected}
use kcp_rs.Stream.Task.{
  Task, Output, M, set_handshake, move_to, kcp_recv, kcp_apply_nodelay, handshake_send,
}
use kcp_rs.Stream.Task.Syn.{
  add_output, establish, client_accept, server_accept, syn_accept, syn_frame, syn_handshake_recv,
}
use kcp_rs.Stream.Order.{Order, Indifferent, Ends, Respects, modify-Respects, order_rules}
use kcp_rs.Stream.Order.Quiet.{
  Quiet, quiet_order, kcp_recv-Quiet, kcp_apply_nodelay-Quiet, handshake_send-Quiet,
}
use kcp_rs.Stream.Order.Follows.{
  Follows, Follows-trans, Follows-of_Quiet, Follows-of_kept, task_order, task-Indifferent,
  move_to-Follows, send-Follows,
}

module _ ⦃E : Engine⦄ where
  -- Until a connection is established the state is Syn or Connected.
  abbrev pub IsEarly : Task → Type 0
  IsEarly t = rank t.hs ≤ 1

  abbrev pub Early : Task → Task → Type 0
  Early t t' = IsEarly t → IsEarly t' × Follows t t'

  abbrev pub early_order : Order
  early_order = record {
    Rel = Early;
    rel_refl = λ t h. (h, task_order.rel_refl t);
    rel_trans =
        λ t u v a b h. let (hu, f) = a h in let (hv, g) = b hu in (hv, Follows-trans t u v f g);
  }

  instance pub early-Indifferent : Indifferent early_order
  early-Indifferent = record { rel_kcp = λ t k h. (h, task-Indifferent.rel_kcp t k) }

  Early-Ends : {A : Type 0} (t : Task) (r : Option (A × Task)) → Ends (Quiet t) r → Ends (Early t) r
  Early-Ends t none h = tt
  Early-Ends t (some (a, u)) h = λ k. (rw (h.hs_same) k, Follows-of_Quiet t u h)

  Early_of_Quiet : {A : Type 0} (m : M A) → Respects quiet_order m → Respects early_order m
  Early_of_Quiet m h = record { from = λ t. Early-Ends t (m t) (h.from t) }

  move-Early : (t : Task) → Early t (move_to connected t)
  move-Early t h = (by_test (same t.hs connected), move_to-Follows connected t h)
    where
      by_test : (b : Bool) → IsEarly (if b then t else record t { hs = connected })
      by_test true = h
      by_test false = omega arith

  session-Early : (id : Bytes) (t : Task) → Early t (record t { session_id = id })
  session-Early id t h = (h, Follows-of_kept t _ refl refl refl refl refl)

  add-Early : (x : Output) (t : Task) → Early t (add_output x t)
  add-Early x t h = (h, send-Follows t x)

  establish-Early : (accepted : Bool) → Respects early_order (establish accepted)
  unfolding establish set_handshake
  establish-Early accepted = search (order_rules, modify-Respects, move-Early, add-Early) depth 12

  nodelay-Early : Respects early_order kcp_apply_nodelay
  nodelay-Early = Early_of_Quiet _ kcp_apply_nodelay-Quiet

  send-Early : Respects early_order handshake_send
  send-Early = Early_of_Quiet _ handshake_send-Quiet

  client_accept-Early : (id : Bytes) (b : Bool) → Respects early_order (client_accept id b)
  unfolding client_accept
  client_accept-Early id b = search (order_rules, nodelay-Early, establish-Early) depth 12

  server_accept-Early : (id : Bytes) (b : Bool) → Respects early_order (server_accept id b)
  unfolding server_accept
  server_accept-Early id b =
      search
        (order_rules, modify-Respects, session-Early, nodelay-Early, send-Early, establish-Early)
        depth 12

  syn_accept-Early : (id : Option Bytes) (b : Bool) → Respects early_order (syn_accept id b)
  unfolding syn_accept
  syn_accept-Early none b = search order_rules
  syn_accept-Early (some id) b =
      search (order_rules, client_accept-Early, server_accept-Early) depth 12

  syn_frame-Early : (x : Option Bytes) (b : Bool) → Respects early_order (syn_frame x b)
  unfolding syn_frame
  syn_frame-Early none b = search order_rules
  syn_frame-Early (some x) b = search (order_rules, syn_accept-Early) depth 12

  recv-Early : Respects early_order kcp_recv
  recv-Early = Early_of_Quiet _ kcp_recv-Quiet

  pub syn_handshake_recv-Early : (b : Bool) → Respects early_order (syn_handshake_recv b)
  unfolding syn_handshake_recv
  syn_handshake_recv-Early b = search (order_rules, recv-Early, syn_frame-Early) depth 12

  pub Early-run :
      {A : Type 0} (t : Task) (r : Option (A × Task))
      → IsEarly t
      → Ends (Early t) r
      → Ends (Follows t) r
  Early-run t none h e = tt
  Early-run t (some (a, u)) h e = (e h).1
