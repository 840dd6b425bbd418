-- ===== src/Stream/Delivery/Turns.antt =====
-- src/stream.rs: every turn of the loop of an established connection delivers in order.
use kcp_rs.Base.{
  ◌≤◌, ◌≡◌, refl, Bool, true, false, Option, none, some, List, [], ◌∷◌, append_assoc, Bytes, take,
  ◌-◌, arith, if◌then◌else◌, inl,
}
use kcp_rs.Ffi.{Engine}
use kcp_rs.Ffi.Laws.{ArrivalLaws}
use kcp_rs.Stream.Handshake.{rank, same, syn}
use kcp_rs.Stream.Flags.{input_closed_flag}
use kcp_rs.Stream.Task.{Task, M, pure, set_flag, kcp_flush, task_monad, ◌>>=◌, ◌>>◌}
use kcp_rs.Stream.Task.Fin.{is_fin_handshake, fin_transit_state}
use kcp_rs.Stream.Task.Syn.{syn_handshake_recv}
use kcp_rs.Stream.Task.Input.{kcp_input}
use kcp_rs.Stream.Run.{
  TryRecv, Event, input, permit, packets, timer, cancelled, again, on_input, input_all,
  disconnect_unless, advance_handshake, fetch, on_packets, on_event,
}
use kcp_rs.Stream.Order.{
  Order, Ends, Respects, order_rules, >>-Respects, if-Respects, pure-Respects,
}
use kcp_rs.Stream.Order.Walk.{walk_input-Respects}
use kcp_rs.Stream.Order.Follows.{Follows, task_order}
use kcp_rs.Stream.Order.Follows.Fin.{kcp_input-Respects, fin_transit_state-Respects}
use kcp_rs.Stream.Delivery.{Still, still, still_order, kcp_flush-Still, process_input-Still}
use kcp_rs.Stream.Delivery.Arriving.{
  Arrives, Arrives-of_Still, Arrives-trans, arrives_order, kcp_input-Arrives,
  fin_transit_state-Still, fin_transit_state-Arrives,
}
use kcp_rs.Stream.Delivery.Handing.{
  Extends, Extends-refl, Delivers, Delivers-after, then-Ends, on_permit-Ends, fetch-Ends,
}

module _ ⦃E : Engine⦄ ⦃L : ArrivalLaws E⦄ where
  -- The SYN handshake is over.
  abbrev pub IsPast : Task → Type 0
  IsPast t = 1 ≤ rank t.hs

  pub Extends-of_Arrives : (t u : Task) → Arrives t u → Extends t u
  Extends-of_Arrives t u h = (h.more, simp (h.sent_same, h.kept_same, h.arrived_more, append_assoc))

  -- Steps behind the SYN handshake that do not read.
  abbrev Later : Task → Task → Type 0
  Later t u = IsPast t → IsPast u × Arrives t u

  abbrev later_order : Order
  later_order = record {
    Rel = Later;
    rel_refl = λ t h. (h, arrives_order.rel_refl t);
    rel_trans =
        λ t u v a b h. let (hu, x) = a h in let (hv, y) = b hu in (hv, Arrives-trans t u v x y);
  }

  both-Ends :
      {A : Type 0} (t : Task) (r : Option (A × Task))
      → Ends (Follows t) r
      → Ends (Arrives t) r
      → Ends (Later t) r
  both-Ends t none f a = tt
  both-Ends t (some (b, u)) f a = λ h. (omega (arith, f.later), a)

  both-Later :
      {A : Type 0} (m : M A)
      → Respects task_order m
      → Respects arrives_order m
      → Respects later_order m
  both-Later m f a = record { from = λ t. both-Ends t (m t) (f.from t) (a.from t) }

  kcp_input-Later : (p : Bytes) → Respects later_order (kcp_input p)
  kcp_input-Later p = both-Later _ (kcp_input-Respects p) (kcp_input-Arrives p)

  input_all-Later : (ps : List Bytes) → Respects later_order (input_all ps)
  unfolding input_all
  input_all-Later [] = search order_rules
  input_all-Later (p ∷ ps) = >>-Respects (kcp_input-Later p) (input_all-Later ps)

  fin_transit_state-Later : Respects later_order fin_transit_state
  fin_transit_state-Later = both-Later _ fin_transit_state-Respects fin_transit_state-Arrives

  -- In the state Syn there is nothing to show.
  syn-Ends :
      {A : Type 0} (t : Task) (r : Option (A × Task)) → same t.hs syn ≡ true → Ends (Later t) r
  syn-Ends t none e = tt
  syn-Ends t (some (a, u)) e = λ past. absurd (ground arith)

  by_state :
      (accepted : Bool) (t : Task) (is_syn : Bool)
      → same t.hs syn ≡ is_syn
      → Ends (Later t) (
          (if is_syn
              then syn_handshake_recv accepted >>= disconnect_unless
              else (if is_fin_handshake t then fin_transit_state else pure tt))
            t)
  by_state accepted t true e = syn-Ends t _ e
  by_state accepted t false e =
      (if-Respects (is_fin_handshake t) fin_transit_state-Later (pure-Respects tt)).from t

  advance_handshake-Later : (b : Bool) → Respects later_order (advance_handshake b)
  unfolding advance_handshake task_monad
  advance_handshake-Later b = record { from = λ t. by_state b t (same t.hs syn) refl }

  before-Ends :
      {A B : Type 0} (t : Task) (m : M A) (f : A → M B)
      → Respects later_order m
      → IsPast t
      → ((a : A) (u : Task) → IsPast u → Ends (Delivers u) (f a u))
      → Ends (Delivers t) ((m >>= f) t)
  unfolding ◌>>=◌
  before-Ends {A = A} {B = B} t m f hm past h = by_run (m t) (hm.from t)
    where
      by_run :
          (r : Option (A × Task))
          → Ends (Later t) r
          → Ends
              (Delivers t)
              (elim r as (λ _. Option (B × Task)) [ none ↦ none | some (a, u) ↦ f a u ])
      by_run none l = tt
      by_run (some (a, u)) l =
          let (past', arrives) = l past in
          Delivers-after t u (f a u) (Extends-of_Arrives t u arrives) (h a u past')

  -- Behind the packets of a turn.
  fetch_flush-Ends :
      (t : Task) → Ends (Delivers t) ((fetch t.tx_frame >> (kcp_flush >> pure again)) t)
  fetch_flush-Ends t =
      then-Ends t (fetch t.tx_frame) (kcp_flush >> pure again) (fetch-Ends t)
        (>>-Respects kcp_flush-Still (pure-Respects again))

  on_packets-Ends :
      (x : Option Bytes) (more : List Bytes) (accepted : Bool) (t : Task)
      → IsPast t
      → Ends (Delivers t) (on_packets x more accepted t)
  unfolding on_packets task_monad
  on_packets-Ends none more accepted t past = inl (Extends-refl t)
  on_packets-Ends (some packet) more accepted t past =
      before-Ends t (kcp_input packet) _ (kcp_input-Later packet) past λ a u past_u.
        before-Ends u (input_all (take (u.config.rcv_wnd - 1) more)) _ (input_all-Later _) past_u
          λ b v past_v.
            before-Ends v (advance_handshake accepted) _ (advance_handshake-Later accepted) past_v
              λ c w past_w. fetch_flush-Ends w

  set_closed-Still : Respects still_order (set_flag input_closed_flag)
  unfolding set_flag
  set_closed-Still = record { from = λ t. still t _ refl refl refl refl }

  on_input-Still : (x : Option Bytes) (more : List TryRecv) → Respects still_order (on_input x more)
  on_input-Still =
      walk_input-Respects fin_transit_state-Still process_input-Still set_closed-Still
        kcp_flush-Still

  Still-Ends :
      {A : Type 0} (t : Task) (r : Option (A × Task)) → Ends (Still t) r → Ends (Delivers t) r
  Still-Ends t none h = tt
  Still-Ends t (some (a, u)) h = inl (Extends-of_Arrives t u (Arrives-of_Still t u h))

  pub on_event-Ends : (e : Event) (t : Task) → IsPast t → Ends (Delivers t) (on_event e t)
  unfolding on_event task_monad
  on_event-Ends (input x more) t past = Still-Ends t _ ((on_input-Still x more).from t)
  on_event-Ends (permit okay more) t past = on_permit-Ends okay more t
  on_event-Ends (packets x more accepted) t past = on_packets-Ends x more accepted t past
  on_event-Ends timer t past = inl (Extends-refl t)
  on_event-Ends cancelled t past = inl (Extends-refl t)
