-- ===== src/Stream/Delivery/Ordered.antt =====
-- src/stream.rs: the turns of an established connection, one after the other.
use kcp_rs.Base.{
  ℕ, ◌≡◌, refl, Bool, false, Bool-cases, some, List, [], ◌++◌, Bytes, arith, inl, inr,
}
use kcp_rs.Ffi.{Engine}
use kcp_rs.Ffi.Laws.{ArrivalLaws}
use kcp_rs.Protocol.Kcp
use kcp_rs.Protocol.Kcp.{Kcp}
use kcp_rs.Stream.Handshake.{disconnected}
use kcp_rs.Stream.Task.{Task, on_kcp}
use kcp_rs.Stream.Run.{Event, Control, loop_head, on_event}
use kcp_rs.Stream.Order.{Respects, Respects-run}
use kcp_rs.Stream.Order.Walk.Turn.{walk_head-Respects}
use kcp_rs.Stream.Order.Follows.{Follows, task_order}
use kcp_rs.Stream.Order.Follows.Turns.{turn-Follows}
use kcp_rs.Stream.Delivery.{
  delivery, Still, still, still_order, on_kcp-Still, update-arrived, set_handshake-Still,
}
use kcp_rs.Stream.Delivery.Arriving.{Arrives-of_Still}
use kcp_rs.Stream.Delivery.Handing.{
  Extends, Extends-refl, Extends-trans, Extends-Delivers, Delivers,
}
use kcp_rs.Stream.Delivery.Turns.{IsPast, Extends-of_Arrives, on_event-Ends}

module _ ⦃E : Engine⦄ where
  -- Turns of one connection; the clock moves between them.
  pub data Turns : Task → Task → Type 0 where
    none_yet : {t : Task} → Turns t t
    later_time :
        {t u : Task} (now : ℕ)
        → Turns t u
        → Turns t (record u { kcp = record (u.kcp) { elapsed = now } })
    turn :
        {t u v w : Task} (feeds : ℕ → Bool) (flushed cancel : Bool) (e : Event)
        (head : List Bytes × Control) (c : Control)
        → Turns t u
        → loop_head feeds flushed cancel u ≡ some (head, v)
        → on_event e v ≡ some (c, w)
        → Turns t w

module _ ⦃E : Engine⦄ ⦃L : ArrivalLaws E⦄ where
  emptied-Still : (t : Task) → Still t (record t { kcp = record (t.kcp) { output_queue = [] } })
  emptied-Still t = still t _ refl refl refl refl

  update-Still : (now : ℕ) → Respects still_order (on_kcp (λ k. Kcp.update k now))
  update-Still now = on_kcp-Still _ λ k. update-arrived k now

  loop_head-Still :
      (feeds : ℕ → Bool) (flushed cancel : Bool)
      → Respects still_order (loop_head feeds flushed cancel)
  loop_head-Still = walk_head-Respects emptied-Still update-Still (set_handshake-Still disconnected)

  -- A turn of an established connection, whatever event it takes: what was handed to the application,
  -- then the kept frame, then what the C library holds are afterwards what they were before, with new
  -- messages behind. Only behind a FIN the last message can be dropped, with nothing left behind it.
  pub turn-Delivers :
      (feeds : ℕ → Bool) (flushed cancel : Bool) (e : Event) (t u v : Task)
      (head : List Bytes × Control) (c : Control)
      → IsPast t
      → loop_head feeds flushed cancel t ≡ some (head, u)
      → on_event e u ≡ some (c, v)
      → Delivers t v
  turn-Delivers feeds flushed cancel e t u v head c past h1 h2 =
      let (a, b) = turn-Follows feeds flushed cancel e t u v head c h1 h2 in
      let same = Respects-run still_order _ t u head (loop_head-Still feeds flushed cancel) h1 in
      let ends = on_event-Ends e u (omega (arith, a.later)) in
      Extends-Delivers t u v (Extends-of_Arrives t u (Arrives-of_Still t u same)) (rw h2 at ends)

  pub Turns-IsPast : {t u : Task} → Turns t u → IsPast t → IsPast u
  Turns-IsPast none_yet past = past
  Turns-IsPast (later_time now h) past = Turns-IsPast h past
  Turns-IsPast (turn {u = u} {v = v} {w = w} feeds flushed cancel e head c h h1 h2) past =
      let (a, b) = turn-Follows feeds flushed cancel e u v w head c h1 h2 in
      omega (arith, Turns-IsPast h past, a.later, b.later)

  -- Without a FIN at the end of a turn nothing was dropped.
  Delivers-Extends : (t u : Task) → u.flags.fin_recved ≡ false → Delivers t u → Extends t u
  Delivers-Extends t u open_end (inl h) = h
  Delivers-Extends t u open_end (inr (fin, empty, rest)) = absurd cc

  fin_before : (t u : Task) → Follows t u → u.flags.fin_recved ≡ false → t.flags.fin_recved ≡ false
  fin_before t u h open_end = elim (Bool-cases t.flags.fin_recved) [
    | inl fin ↦ let kept = h.fin_kept fin in absurd cc
    | inr open_start ↦ open_start
  ]

  pub Turns-open :
      {t u : Task} → Turns t u → u.flags.fin_recved ≡ false → t.flags.fin_recved ≡ false
  Turns-open none_yet open_end = open_end
  Turns-open (later_time now h) open_end = Turns-open h open_end
  Turns-open (turn {u = u} {v = v} {w = w} feeds flushed cancel e head c h h1 h2) open_end =
      let (a, b) = turn-Follows feeds flushed cancel e u v w head c h1 h2 in
      Turns-open h (fin_before u w (task_order.rel_trans u v w a b) open_end)

  -- However many turns an established connection takes, with whatever events and with the clock moving
  -- between them: as long as no FIN has come, no message is lost, none comes twice, and the order is
  -- kept. What was handed to the application, then the kept frame, then what the C library holds are
  -- at the end what they were at the beginning, with new messages behind.
  pub Turns-Extends :
      {t u : Task}
      → Turns t u
      → IsPast t
      → u.flags.fin_recved ≡ false
      → (more : List Bytes) × (delivery u ≡ delivery t ++ more)
  Turns-Extends {t = t} none_yet past open_end = Extends-refl t
  Turns-Extends (later_time now h) past open_end = Turns-Extends h past open_end
  Turns-Extends {t = t} (turn {u = u} {v = v} {w = w} feeds flushed cancel e head c h h1 h2) past
        open_end =
      let (a, b) = turn-Follows feeds flushed cancel e u v w head c h1 h2 in
      let before = fin_before u w (task_order.rel_trans u v w a b) open_end in
      let delivers =
        turn-Delivers feeds flushed cancel e u v w head c (Turns-IsPast h past) h1 h2 in
      Extends-trans t u w (Turns-Extends h past before) (Delivers-Extends u w open_end delivers)
