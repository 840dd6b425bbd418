-- ===== src/Stream/Closing.antt =====
-- src/stream.rs: where the FIN handshake stops, and that it does.
use kcp_rs.Base.{
  ℕ, suc, ◌+◌, ◌-◌, ◌^◌, ◌*◌, ◌≤◌, ◌<◌, ◌≡◌, refl, ap, ◌∙◌, Bool, true, false, Option, none, some,
  [], ◌∷◌, ◌++◌, Bytes, length, Bool-cases, ◌⊎◌, inl, inr, arith, if◌then◌else◌, c_int, ok,
}
use kcp_rs.Ffi.{Engine, ikcp_overhead, ikcp_wnd_rcv}
use native.Mathlib.Nat.{div-lt_iff_lt-mul}
use kcp_rs.Ffi.Laws.{SendLaws, fragments}
use kcp_rs.Protocol.Kcp
use kcp_rs.Protocol.Kcp.{Kcp, send_result}
use kcp_rs.Stream.Handshake.{
  Handshake, same, same_sound, syn, connected, fin_pending, fin_sent, fin_wait_peer, disconnected,
}
use kcp_rs.Stream.Flags.{has, flush_flag, insert}
use kcp_rs.Stream.Task.{
  Task, M, done, gets, modify, pure, task_monad, when, set_flag, call, deadline, kcp_flush,
  handshake_send, set_handshake, move_to, unwrap, ◌>>◌,
}
use kcp_rs.Stream.Task.Fin.{
  fin_next, fin_loop, fin_transit_state, is_drained, is_acknowledged, is_peer_done,
}
use kcp_rs.Stream.Task.Steps.{>>=-some, >>-some, call_ok}

module _ ⦃E : Engine⦄ where
  -- What keeps each state from going on. Syn and Connected always go on.
  abbrev pub Stops : Handshake → Task → Type 0
  Stops syn t = ⊥
  Stops connected t = ⊥
  Stops fin_pending t = is_drained t ≡ false
  Stops fin_sent t = is_acknowledged t ≡ false
  Stops fin_wait_peer t = is_peer_done t ≡ false
  Stops disconnected t = Unit {0}

  abbrev pub Returns : {A : Type 0} → Option (A × Task) → (Task → Type 0) → Type 0
  Returns {A} r P = (a : A) × (t : Task) × (r ≡ some (a, t)) × P t

  -- The FIN frame, the session key and id, is one that the library takes.
  abbrev pub FinFits : Task → Type 0
  FinFits t =
      (ikcp_overhead < t.kcp.handle.mtu)
      × (length (t.config.session_key ++ t.session_id)
          ≤ (t.kcp.handle.mtu - ikcp_overhead) * (ikcp_wnd_rcv - 1))
      × (length (t.config.session_key ++ t.session_id) < 2 ^ 31)

  abbrev Settles : Option (Unit {0} × Task) → Type 0
  Settles r = Returns r (λ t. Stops t.hs t)

  -- The rest of a round, behind `fin_next`.
  abbrev pub rest_of_round : ℕ → Option Handshake → M (Unit {0})
  rest_of_round fuel next = elim next [
    | none ↦ pure tt
    | some state ↦ set_handshake state >> fin_loop fuel
  ]

  pub round :
      (fuel : ℕ) (t u : Task) (next : Option Handshake)
      → fin_next t.hs t ≡ some (next, u)
      → fin_loop (suc fuel) t ≡ rest_of_round fuel next u
  unfolding fin_loop gets
  round fuel t u next e =
      >>=-some (gets (λ t. t.hs)) _ t refl ∙ >>=-some (fin_next t.hs) (rest_of_round fuel) t e

  stop :
      (fuel : ℕ) (t : Task)
      → fin_next t.hs t ≡ some (none, t)
      → Stops t.hs t
      → Settles (fin_loop (suc fuel) t)
  unfolding pure
  stop fuel t e s = (tt, t, round fuel t t none e, s)

  go_on :
      (fuel : ℕ) (t u : Task) (hs : Handshake)
      → fin_next t.hs t ≡ some (some hs, u)
      → Settles (fin_loop fuel (move_to hs u))
      → Settles (fin_loop (suc fuel) t)
  unfolding set_handshake modify
  go_on fuel t u hs e (a, v, run, s) = (
    a,
    v,
    round fuel t u (some hs) e ∙ >>-some (set_handshake hs) (fin_loop fuel) u refl ∙ run,
    s,
  )

  pub move_to-hs : (hs : Handshake) (t : Task) → (move_to hs t).hs ≡ hs
  move_to-hs hs t = moved (Bool-cases (same t.hs hs))
    where
      moved : (same t.hs hs ≡ true) ⊎ (same t.hs hs ≡ false) → (move_to hs t).hs ≡ hs
      moved (inl e) = rw e (same_sound _ _ e)
      moved (inr e) = rw e refl

  pub next_at :
      (t : Task) (hs : Handshake) {r : Option (Option Handshake × Task)}
      → t.hs ≡ hs
      → fin_next hs t ≡ r
      → fin_next t.hs t ≡ r
  next_at t hs e h = ap (λ s. fin_next s t) e ∙ h

  at_disconnected : (fuel : ℕ) (t : Task) → t.hs ≡ disconnected → Settles (fin_loop (suc fuel) t)
  unfolding fin_next pure
  at_disconnected fuel t e = stop fuel t (rw e refl) (rw e tt)

  at_fin_wait_peer :
      (fuel : ℕ) (t : Task) → t.hs ≡ fin_wait_peer → Settles (fin_loop (suc (suc fuel)) t)
  unfolding fin_next task_monad
  at_fin_wait_peer fuel t e = elim (Bool-cases (is_peer_done t)) [
    | inl yes_done ↦
        go_on (suc fuel) t t disconnected (next_at t fin_wait_peer e (rw yes_done refl))
          (at_disconnected fuel _ (move_to-hs disconnected t))
    | inr waiting ↦ stop (suc fuel) t (next_at t fin_wait_peer e (rw waiting refl)) (rw e waiting)
  ]

  at_fin_sent :
      (fuel : ℕ) (t : Task) → t.hs ≡ fin_sent → Settles (fin_loop (suc (suc (suc fuel))) t)
  unfolding fin_next task_monad
  at_fin_sent fuel t e = elim (Bool-cases (is_acknowledged t)) [
    | inl acked ↦
        go_on (suc (suc fuel)) t t fin_wait_peer (next_at t fin_sent e (rw acked refl))
          (at_fin_wait_peer fuel _ (move_to-hs fin_wait_peer t))
    | inr waiting ↦ stop (suc (suc fuel)) t (next_at t fin_sent e (rw waiting refl)) (rw e waiting)
  ]

  when-returns :
      (b : Bool) (m : M (Unit {0})) (t : Task) (P : Task → Type 0)
      → Returns (m t) P
      → P t
      → Returns (when b m t) P
  unfolding pure
  when-returns true m t P h p = h
  when-returns false m t P h p = (tt, t, refl, p)

  kcp_flush-returns : (t : Task) → Returns (kcp_flush t) (λ u. u.hs ≡ t.hs)
  unfolding kcp_flush task_monad
  kcp_flush-returns t = when-returns (has t.flags flush_flag) _ t _ (tt, _, refl, refl) refl

  fragments_fit :
      (mss len : ℕ) → 0 < mss → len ≤ mss * (ikcp_wnd_rcv - 1) → fragments mss len < ikcp_wnd_rcv
  fragments_fit mss len lo hi =
      (div-lt_iff_lt-mul {k = mss} {x = len + mss - 1} {y = 256} lo).1 (omega arith)

  pub send-returns :
      (k : Kcp) (frame : Bytes)
      → SendLaws E
      → ikcp_overhead < k.handle.mtu
      → length frame ≤ (k.handle.mtu - ikcp_overhead) * (ikcp_wnd_rcv - 1)
      → length frame < 2 ^ 31
      → (k' : Kcp) × (n : ℕ) × (Kcp.send k frame ≡ (k', ok n))
  unfolding Kcp.send
  send-returns k [] laws lo hi int = (k, 0, refl)
  send-returns k (b ∷ rest) laws lo hi int =
      let (n, e) =
        laws.send_fits k.handle (b ∷ rest) lo (omega arith) int
          (fragments_fit (k.handle.mtu - ikcp_overhead) (length (b ∷ rest)) (omega arith) hi) in
      (
        _,
        n,
        λ i. (
          record k { handle = (E.ikcp_send k.handle (b ∷ rest) (c_int (length (b ∷ rest)))).0 },
          send_result (e i),
        ),
      )

  pub handshake_send-returns :
      (t : Task) → SendLaws E → FinFits t → Returns (handshake_send t) (λ u. u.hs ≡ t.hs)
  unfolding handshake_send set_flag gets unwrap
  handshake_send-returns t laws fits =
      let (k, n, e) =
        send-returns t.kcp (t.config.session_key ++ t.session_id) laws fits.0 fits.1 fits.2 in
      let (a, u, run, same_hs) =
        kcp_flush-returns (record t { kcp = k; flags = insert t.flags flush_flag }) in
      let t1 : Task = record t { flags = insert t.flags flush_flag } in
      (
        a,
        u,
        >>-some (set_flag flush_flag) _ t refl
            ∙ >>=-some (gets (λ t. t.config.session_key ++ t.session_id)) _ t1 refl
            ∙ >>=-some (call (λ k. Kcp.send k (t.config.session_key ++ t.session_id))) _ t1
                (call_ok _ t1 e)
            ∙ >>-some (unwrap (done n)) kcp_flush _ refl
            ∙ run,
        same_hs,
      )

  at_fin_pending :
      (fuel : ℕ) (t : Task)
      → SendLaws E
      → FinFits t
      → t.hs ≡ fin_pending
      → Settles (fin_loop (suc (suc (suc (suc fuel)))) t)
  unfolding fin_next task_monad
  at_fin_pending fuel t laws fits e = elim (Bool-cases (is_drained t)) [
    | inl drained ↦
        (let (a, u, run, same_hs) = handshake_send-returns t laws fits in
          go_on (suc (suc (suc fuel))) t u fin_sent
            (next_at t fin_pending e
              (rw drained (>>-some handshake_send (pure (some fin_sent)) t run)))
            (at_fin_sent fuel _ (move_to-hs fin_sent u)))
    | inr waiting ↦
        stop (suc (suc (suc fuel))) t (next_at t fin_pending e (rw waiting refl)) (rw e waiting)
  ]

  at_connected :
      (fuel : ℕ) (t : Task)
      → SendLaws E
      → FinFits t
      → t.hs ≡ connected
      → Settles (fin_loop (suc (suc (suc (suc (suc fuel))))) t)
  unfolding fin_next task_monad
  at_connected fuel t laws fits e =
      let u : Task = record t { hs_end_time = deadline t t.config.shutdown_timeout } in
      go_on (suc (suc (suc (suc fuel)))) t u fin_pending (next_at t connected e refl)
        (at_fin_pending fuel _ laws (fits_kept (same t.hs fin_pending)) (move_to-hs fin_pending u))
    where
      fits_kept :
          (b : Bool)
          → FinFits (
              if b
              then record t { hs_end_time = deadline t t.config.shutdown_timeout }
              else record t {
                hs_end_time = deadline t t.config.shutdown_timeout;
                hs = fin_pending;
              })
      fits_kept true = fits
      fits_kept false = fits

  -- `fin_transit_state` ends without a panic, when the C library takes every frame of a fitting
  -- size and the FIN frame fits; and it stops only where the code means it to: before everything
  -- that was sent is acknowledged and no more input can come (FinPending), before the FIN frame is
  -- acknowledged (FinSent), before the peer's FIN has come and all is read (FinWaitPeer), or at
  -- Disconnected.
  pub fin_transit_state-settles :
      (t : Task) → SendLaws E → FinFits t → Returns (fin_transit_state t) (λ t'. Stops t'.hs t')
  unfolding fin_transit_state
  fin_transit_state-settles t laws fits = from t.hs refl
    where
      from : (hs : Handshake) → t.hs ≡ hs → Settles (fin_loop 7 t)
      from syn e =
          go_on 6 t t disconnected (next_at t syn e (unfold fin_next pure in refl))
            (at_disconnected 5 _ (move_to-hs disconnected t))
      from connected e = at_connected 2 t laws fits e
      from fin_pending e = at_fin_pending 3 t laws fits e
      from fin_sent e = at_fin_sent 4 t e
      from fin_wait_peer e = at_fin_wait_peer 5 t e
      from disconnected e = at_disconnected 6 t e
