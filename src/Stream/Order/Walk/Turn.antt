-- ===== src/Stream/Order/Walk/Turn.antt =====
-- src/stream.rs: the head of a turn and its branches walk through the methods: they respect an order that
-- those respect.
use kcp_rs.Base.{ℕ, ◌≡◌, refl, Bool, true, false, not, Option, none, some, List, [], ◌∷◌, Bytes}
use kcp_rs.Ffi.{Engine}
use kcp_rs.Protocol.Packet
use kcp_rs.Protocol.Kcp
use kcp_rs.Protocol.Kcp.{Kcp}
use kcp_rs.Stream.Handshake.{Handshake, disconnected}
use kcp_rs.Stream.Task.{
  Task, M, pure, checked, on_kcp, set_handshake, kcp_recv, kcp_flush, task_monad, ◌>>=◌, ◌>>◌,
}
use kcp_rs.Stream.Task.Input.{kcp_input}
use kcp_rs.Stream.Task.Sending.{kcp_output, feed_all}
use kcp_rs.Stream.Run.{
  TryRecv, Event, input, permit, packets, timer, cancelled, output_queued, send_queued,
  wait_or_update, schedule, loop_head, on_input, keep, deliver, deliver_more, on_permit, send_frame,
  send_kept, keep_frame, input_all, advance_handshake, fetch, on_packets, on_event,
}
use kcp_rs.Stream.Order.{
  Order, Ends, Respects, modify-Respects, order_rules, >>=-Respects, >>-Respects,
}

module _ ⦃E : Engine⦄ where
  abbrev emptied : Kcp → Kcp
  emptied k = record k { output_queue = [] }

  -- `kcp_output` empties the queue and does nothing else to the connection.
  abbrev Empties : Kcp → Option (List Bytes × Bool × Kcp) → Type 0
  Empties k none = Unit {0}
  Empties k (some r) = r.2 ≡ emptied k

  fed-Empties :
      (k : Kcp) (flushed : Bool) (fed : Option (List Bytes))
      → Empties k (Packet.◌>>=◌ fed (λ fed. some (fed, flushed, emptied k)))
  fed-Empties k flushed none = tt
  fed-Empties k flushed (some ps) = refl

  kcp_output-Empties :
      (hs : Handshake) (feeds : ℕ → Bool) (flushed : Bool) (k : Kcp)
      → Empties k (kcp_output hs feeds flushed k)
  unfolding kcp_output
  kcp_output-Empties hs feeds flushed k = fed-Empties k flushed (feed_all hs feeds 0 k.output_queue)

  module _ {o : Order} (empties : (t : Task) → o.Rel t (record t { kcp = emptied t.kcp }))
      (updates : (now : ℕ) → Respects o (on_kcp (λ k. Kcp.update k now)))
      (resets : Respects o (set_handshake disconnected)) where
    -- What is left of `output_queued` behind `kcp_output`.
    output-Ends :
        (t : Task) (out : Option (List Bytes × Bool × Kcp))
        → Empties t.kcp out
        → Ends {A = List Bytes × Bool}
            (o.Rel t)
            ((checked out >>= λ r. on_kcp (λ _. r.2) >> pure (r.0, not r.1)) t)
    unfolding task_monad
    output-Ends t none h = tt
    output-Ends t (some r) h = rw h (empties t)

    output_queued-Respects :
        (feeds : ℕ → Bool) (flushed : Bool) → Respects o (output_queued feeds flushed)
    unfolding output_queued task_monad
    output_queued-Respects feeds flushed = record {
      from = λ t. output-Ends t _ (kcp_output-Empties t.hs feeds flushed t.kcp);
    }

    pub walk_head-Respects :
        (feeds : ℕ → Bool) (flushed cancel : Bool) → Respects o (loop_head feeds flushed cancel)
    unfolding loop_head send_queued schedule wait_or_update
    walk_head-Respects feeds flushed cancel =
        search (order_rules, output_queued-Respects, updates) depth 20

  module _ {o : Order} (receives : Respects o kcp_recv)
      (keeps : (x : Option Bytes) (t : Task) → o.Rel t (keep_frame x t))
      (sends : (x : Bytes) (t : Task) → o.Rel t (send_frame x t))
      (takes : (x : Option Bytes) (more : List TryRecv) → Respects o (on_input x more))
      (inputs : (p : Bytes) → Respects o (kcp_input p))
      (advances : (b : Bool) → Respects o (advance_handshake b))
      (flushes : Respects o kcp_flush) where
    send_kept-rel : (x : Option Bytes) (t : Task) → o.Rel t (send_kept x t)
    send_kept-rel none t = o.rel_refl t
    send_kept-rel (some x) t = o.rel_trans t _ _ (keeps none t) (sends x _)

    keep-Respects : (x : Option Bytes) → Respects o (keep x)
    unfolding keep
    keep-Respects none = search order_rules
    keep-Respects (some x) = search (order_rules, modify-Respects, keeps)

    deliver-Respects :
        (x : Option Bytes) (m : M (Unit {0})) → Respects o m → Respects o (deliver x m)
    unfolding deliver
    deliver-Respects none m h = search order_rules
    deliver-Respects (some x) m h = search (order_rules, modify-Respects, sends)

    deliver_more-Respects : (more : List Bool) → Respects o (deliver_more more)
    unfolding deliver_more
    deliver_more-Respects [] = >>=-Respects receives keep-Respects
    deliver_more-Respects (false ∷ more) = >>=-Respects receives keep-Respects
    deliver_more-Respects (true ∷ more) =
        >>=-Respects receives λ x. deliver-Respects x _ (deliver_more-Respects more)

    on_permit-Respects : (b : Bool) (more : List Bool) → Respects o (on_permit b more)
    unfolding on_permit
    on_permit-Respects false more = search order_rules
    on_permit-Respects true more =
        search
          (
            order_rules,
            modify-Respects,
            (λ (t : Task). send_kept-rel t.tx_frame t),
            deliver_more-Respects,
          )
          depth 12

    input_all-Respects : (ps : List Bytes) → Respects o (input_all ps)
    unfolding input_all
    input_all-Respects [] = search order_rules
    input_all-Respects (p ∷ ps) = >>-Respects (inputs p) (input_all-Respects ps)

    fetch-Respects : (x : Option Bytes) → Respects o (fetch x)
    unfolding fetch
    fetch-Respects none = search (order_rules, modify-Respects, keeps)
    fetch-Respects (some x) = search order_rules

    on_packets-Respects :
        (x : Option Bytes) (more : List Bytes) (b : Bool) → Respects o (on_packets x more b)
    unfolding on_packets
    on_packets-Respects none more b = search order_rules
    on_packets-Respects (some x) more b =
        search (order_rules, inputs, input_all-Respects, advances, fetch-Respects) depth 20

    pub walk_event-Respects : (e : Event) → Respects o (on_event e)
    unfolding on_event
    walk_event-Respects (input x more) = takes x more
    walk_event-Respects (permit okay more) = on_permit-Respects okay more
    walk_event-Respects (packets x more accepted) = on_packets-Respects x more accepted
    walk_event-Respects timer = search order_rules
    walk_event-Respects cancelled = search order_rules
