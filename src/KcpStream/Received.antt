-- ===== src/KcpStream/Received.antt =====
-- src/stream.rs: the loop of `poll_next` over the messages of the task.
use kcp_rs.Base.{
  ℕ, zero, suc, ◌≤◌, ◌<◌, ◌≡◌, refl, sym, ap, ◌∙◌, Option, none, some, List, [], ◌∷◌, ◌++◌, Bytes,
  length, arith, Io, ok, err, panic,
}
use kcp_rs.Channels.{Poll, ready, pending, ReceiverLaws}
use kcp_rs.KcpStream.{Channels, after_recv, recv_loop}
use kcp_rs.Stream.Task.{Output, established, frame}

-- The bytes of the frames; the message of the connection has none.
abbrev pub frames : List Output → Bytes
frames [] = []
frames (established conv ∷ q) = frames q
frames (frame x ∷ q) = x ++ frames q

module _ ⦃C : Channels⦄ (laws : ReceiverLaws C.output) where
  abbrev pub queued : C.output.State → ℕ
  queued rx = length (laws.queue rx)

  abbrev pub Received : C.output.State → C.output.State → Poll (Option (Io Bytes)) → Type 0
  Received rx rx' pending =
      (frames (laws.queue rx) ≡ frames (laws.queue rx')) × (queued rx' ≤ queued rx)
  Received rx rx' (ready none) = (frames (laws.queue rx) ≡ []) × (laws.queue rx' ≡ [])
  Received rx rx' (ready (some (ok x))) =
      (frames (laws.queue rx) ≡ x ++ frames (laws.queue rx')) × (queued rx' < queued rx)
  Received rx rx' (ready (some (err e))) = ⊥
  Received rx rx' (ready (some panic)) = ⊥

  abbrev pub Receives : ℕ → C.output.State → Type 0
  Receives fuel rx =
      (rx' : C.output.State) × (p : Poll (Option (Io Bytes))) × (recv_loop fuel rx ≡ some (rx', p))
      × Received rx rx' p

  Received-passed :
      (rx rx' rx'' : C.output.State) (conv : ℕ) (p : Poll (Option (Io Bytes)))
      → laws.queue rx ≡ established conv ∷ laws.queue rx'
      → Received rx' rx'' p
      → Received rx rx'' p
  Received-passed rx rx' rx'' conv pending e (same, less) =
      (ap frames e ∙ same, omega (arith, ap length e))
  Received-passed rx rx' rx'' conv (ready none) e (same, empty) = (ap frames e ∙ same, empty)
  Received-passed rx rx' rx'' conv (ready (some (ok x))) e (same, less) =
      (ap frames e ∙ same, omega (arith, ap length e))
  Received-passed rx rx' rx'' conv (ready (some (err k))) e r = r
  Received-passed rx rx' rx'' conv (ready (some panic)) e r = r

  recv_step :
      (fuel : ℕ) (rx rx' : C.output.State) (p : Poll (Option Output))
      → ((rx' : C.output.State) → queued rx' < fuel → Receives fuel rx')
      → queued rx < suc fuel
      → C.output.poll_recv rx ≡ (rx', p)
      → Receives (suc fuel) rx
  unfolding recv_loop after_recv
  recv_step fuel rx rx' pending again h e = (
    rx',
    pending,
    ap (after_recv (recv_loop fuel)) e,
    (
      ap frames (sym (laws.recv_pending rx rx' e)),
      omega (arith, ap length (laws.recv_pending rx rx' e)),
    ),
  )
  recv_step fuel rx rx' (ready none) again h e =
      let (before, after) = laws.recv_none rx rx' e in
      (rx', ready none, ap (after_recv (recv_loop fuel)) e, (ap frames before, after))
  recv_step fuel rx rx' (ready (some (frame x))) again h e =
      let first = laws.recv_some rx rx' (frame x) e in
      (
        rx',
        ready (some (ok x)),
        ap (after_recv (recv_loop fuel)) e,
        (ap frames first, omega (arith, ap length first)),
      )
  recv_step fuel rx rx' (ready (some (established conv))) again h e =
      let first = laws.recv_some rx rx' (established conv) e in
      let (rx'', p, run, r) = again rx' (omega (arith, ap length first)) in
      (
        rx'',
        p,
        ap (after_recv (recv_loop fuel)) e ∙ run,
        Received-passed rx rx' rx'' conv p first r,
      )

  pub recv_loop_lem : (fuel : ℕ) (rx : C.output.State) → queued rx < fuel → Receives fuel rx
  recv_loop_lem zero rx h = absurd (omega arith)
  recv_loop_lem (suc fuel) rx h =
      recv_step fuel rx (C.output.poll_recv rx).0 (C.output.poll_recv rx).1 (recv_loop_lem fuel) h
        refl
