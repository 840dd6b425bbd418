-- ===== src/Stream/Delivery/Arriving.antt =====
-- src/stream.rs: packets come in: new messages stand behind those that are under way.
use kcp_rs.Base.{
  ℕ, ◌≡◌, refl, sym, ap, ◌∙◌, Bool, true, false, Option, none, some, List, [], ◌++◌, append-nil,
  append_assoc, Bytes, if◌then◌else◌,
}
use kcp_rs.Ffi.{Engine}
use kcp_rs.Ffi.Laws.{ArrivalLaws}
use kcp_rs.Protocol.Kcp
use kcp_rs.Protocol.Kcp.{Kcp}
use kcp_rs.Stream.Handshake.{disconnected}
use kcp_rs.Stream.Flags.{has, insert, fin_recved_flag, flush_flag}
use kcp_rs.Stream.Task.{Task, M, call, on_kcp, modify, set_flag, set_handshake}
use kcp_rs.Stream.Task.Fin.{fin_transit_state}
use kcp_rs.Stream.Task.Syn.{
  client_syn_input, server_syn_input, client_syn, server_syn, syn_handshake_conv,
  syn_handshake_input,
}
use kcp_rs.Stream.Task.Input.{fin_received, kcp_input}
use kcp_rs.Stream.Order.{Order, Ends, Respects, settle-Ends, modify-Respects, order_rules}
use kcp_rs.Stream.Order.Walk.{walk_fin-Respects, walk_kcp_input-Respects}
use kcp_rs.Stream.Delivery.{
  arrived, Still, still, still_order, set_conv-arrived, set_flush-Still, handshake_send-Still,
  set_handshake-Still,
}

module _ ⦃E : Engine⦄ ⦃L : ArrivalLaws E⦄ where
  pub record Arrives (t t' : Task) : Type 0 where
    pub sent_same : t'.sent ≡ t.sent
    pub kept_same : t'.tx_frame ≡ t.tx_frame
    pub more : List Bytes
    pub arrived_more : arrived t'.kcp ≡ arrived t.kcp ++ more

  pub Arrives-of_Still : (t t' : Task) → Still t t' → Arrives t t'
  Arrives-of_Still t t' h = record {
    sent_same = h.sent_same;
    kept_same = h.kept_same;
    more = [];
    arrived_more = h.arrived_same ∙ sym (append-nil _);
  }

  pub Arrives-trans : (t u v : Task) → Arrives t u → Arrives u v → Arrives t v
  Arrives-trans t u v a b = record {
    sent_same = b.sent_same ∙ a.sent_same;
    kept_same = b.kept_same ∙ a.kept_same;
    more = a.more ++ b.more;
    arrived_more =
        b.arrived_more
        ∙ ap (λ l. l ++ b.more) a.arrived_more
        ∙ append_assoc (arrived t.kcp) a.more b.more;
  }

  abbrev pub arrives_order : Order
  arrives_order = record {
    Rel = Arrives;
    rel_refl = λ t. Arrives-of_Still t t (still_order.rel_refl t);
    rel_trans = Arrives-trans;
  }

  Still-Ends :
      {A : Type 0} (t : Task) (r : Option (A × Task)) → Ends (Still t) r → Ends (Arrives t) r
  Still-Ends t none h = tt
  Still-Ends t (some (a, u)) h = Arrives-of_Still t u h

  pub Respects-of_Still : {A : Type 0} (m : M A) → Respects still_order m → Respects arrives_order m
  Respects-of_Still m h = record { from = λ t. Still-Ends t (m t) (h.from t) }

  set_conv-Arrives : (c : ℕ) → Respects arrives_order (on_kcp (λ k. Kcp.set_conv k c))
  unfolding on_kcp
  set_conv-Arrives c = record {
    from = λ t. Arrives-of_Still t _ (still t _ refl refl refl (set_conv-arrived t.kcp c));
  }

  input-Arrives : (p : Bytes) → Respects arrives_order (call (λ k. Kcp.input k p))
  unfolding call Kcp.input
  input-Arrives p = record {
    from = λ t.
        let (more, e) = L.input_adds t.kcp.handle p _ in
        settle-Ends arrives_order t (Kcp.input t.kcp p)
          (record { sent_same = refl; kept_same = refl; more = more; arrived_more = e });
  }

  client_syn_input-Arrives : (c : ℕ) (p : Bytes) → Respects arrives_order (client_syn_input c p)
  unfolding client_syn_input
  client_syn_input-Arrives c p = search (order_rules, set_conv-Arrives, input-Arrives) depth 12

  server_syn_input-Arrives : (c : ℕ) (p : Bytes) → Respects arrives_order (server_syn_input c p)
  unfolding server_syn_input
  server_syn_input-Arrives c p = search (order_rules, set_conv-Arrives, input-Arrives) depth 12

  syn_handshake_conv-Arrives :
      (c : Option ℕ) (p : Bytes) → Respects arrives_order (syn_handshake_conv c p)
  unfolding syn_handshake_conv client_syn server_syn
  syn_handshake_conv-Arrives none p = search order_rules depth 12
  syn_handshake_conv-Arrives (some c) p =
      search (order_rules, client_syn_input-Arrives, server_syn_input-Arrives) depth 12

  syn_handshake_input-Arrives : (p : Bytes) → Respects arrives_order (syn_handshake_input p)
  unfolding syn_handshake_input
  syn_handshake_input-Arrives p = search (order_rules, syn_handshake_conv-Arrives) depth 12

  modify_deadline-Still :
      (f : Task → ℕ) → Respects still_order (modify (λ t. record t { hs_end_time = f t }))
  modify_deadline-Still f = modify-Respects _ λ t. still t _ refl refl refl refl

  pub fin_transit_state-Still : Respects still_order fin_transit_state
  fin_transit_state-Still =
      walk_fin-Respects handshake_send-Still set_handshake-Still modify_deadline-Still

  pub fin_transit_state-Arrives : Respects arrives_order fin_transit_state
  fin_transit_state-Arrives = Respects-of_Still _ fin_transit_state-Still

  disconnect-Arrives : Respects arrives_order (set_handshake disconnected)
  disconnect-Arrives = Respects-of_Still _ (set_handshake-Still disconnected)

  fin_received-Arrives : (t : Task) → Arrives t (fin_received t)
  unfolding fin_received
  fin_received-Arrives t = by_test (has t.flags fin_recved_flag)
    where
      by_test :
          (b : Bool)
          → Arrives t (
              if b
              then t
              else record t { flags = insert t.flags fin_recved_flag; rx_closed = true })
      by_test true = arrives_order.rel_refl t
      by_test false = record {
        sent_same = refl;
        kept_same = refl;
        more = [];
        arrived_more = sym (append-nil _);
      }

  set_flush-Arrives : Respects arrives_order (set_flag flush_flag)
  set_flush-Arrives = Respects-of_Still _ set_flush-Still

  pub kcp_input-Arrives : (p : Bytes) → Respects arrives_order (kcp_input p)
  kcp_input-Arrives =
      walk_kcp_input-Respects fin_transit_state-Arrives disconnect-Arrives fin_received-Arrives
        input-Arrives syn_handshake_input-Arrives set_flush-Arrives
