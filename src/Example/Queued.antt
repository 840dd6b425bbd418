-- ===== src/Example/Queued.antt =====
-- The output queue of a connection object, at a concrete run.
use kcp_rs.Base.{◌≡◌, List, [], ◌∷◌, ◌++◌, Bytes, length, first, ltb, pos}
use kcp_rs.Ffi
use kcp_rs.Example.Engine
use kcp_rs.Protocol.Kcp.{Kcp, new, send, flush, output, outputs, pop_output, has_output}
use kcp_rs.Protocol.Kcp.Queue.{Works, made, called, flushed, popped, sends, Works-Fifo}

-- A library that emits, at the next flush, the frames that it was sent.
instance abbrev sending : Ffi.Engine
sending = record (Engine.toy) {
  ikcp_send = λ cb frame n. (
    record cb { hidden = record (cb.hidden) { packets = cb.hidden.packets ++ (frame ∷ []) } },
    pos 0,
  );
}

-- Two packets are flushed and one is taken; then one more is flushed behind the other.
abbrev two_flushed : Kcp
two_flushed = flush (send (send (new 7) (1 ∷ [])).0 (2 ∷ [])).0

abbrev worked : Kcp
worked = flush (send (pop_output two_flushed).0 (3 ∷ [])).0

Works-worked : Works worked ((1 ∷ []) ∷ (2 ∷ []) ∷ (3 ∷ []) ∷ []) ((1 ∷ []) ∷ [])
unfolding new send flush output outputs pop_output
Works-worked = flushed (
    called (popped (flushed (called (called (made 7) (sends _ (1 ∷ []))) (sends _ (2 ∷ [])))))
      (sends _ (3 ∷ [])))

Works-Fifo_example :
    (rest : List Bytes) × ((1 ∷ []) ∷ (2 ∷ []) ∷ (3 ∷ []) ∷ [] ≡ ((1 ∷ []) ∷ []) ++ rest)
    × ((pop_output worked).1 ≡ first rest)
    × (has_output worked ≡ ltb 0 (length rest))
Works-Fifo_example = Works-Fifo ((1 ∷ []) ∷ (2 ∷ []) ∷ (3 ∷ []) ∷ []) ((1 ∷ []) ∷ []) Works-worked
