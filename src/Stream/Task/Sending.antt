-- ===== src/Stream/Task/Sending.antt =====
-- src/stream.rs: `kcp_output`, which hands the queued packets to the transport.
use kcp_rs.Base.{
  ℕ, ◌+◌, Bool, true, false, Option, none, some, List, [], ◌∷◌, Bytes, bit_or, if◌then◌else◌,
}
use kcp_rs.Ffi.{Engine}
use kcp_rs.Protocol.Packet.{read_cmd, write_cmd, read_payload_data, ◌>>=◌}
use kcp_rs.Protocol.Kcp.{Kcp}
use kcp_rs.Stream.Handshake.{Handshake, fin_sent, same}
use kcp_rs.Stream.Task.{kcp_fin}

-- In the state FinSent a packet with a payload gets the FIN flag.
unfoldable pub mark_fin : Bytes → Option Bytes
mark_fin packet = do
  payload ← read_payload_data packet
  elim payload [
    | none ↦ some packet
    | some x ↦ (do cmd ← read_cmd packet; write_cmd packet (bit_or cmd kcp_fin))
  ]

unfoldable pub outgoing : Handshake → Bytes → Option Bytes
unfolding mark_fin
outgoing hs packet =
    let marked = mark_fin packet in if same hs fin_sent then marked else some packet

-- The loop over the queue. `feeds i` is whether the sink takes the i-th packet; at the first that it
-- refuses the rest is dropped. The result is what the sink has taken.
unfoldable pub feed_all : Handshake → (ℕ → Bool) → ℕ → List Bytes → Option (List Bytes)
unfolding outgoing
feed_all hs feeds i [] = some []
feed_all hs feeds i (packet ∷ rest) = do
  packet' ← outgoing hs packet
  elim (feeds i) [
    | false ↦ some []
    | true ↦ (do fed ← feed_all hs feeds (i + 1) rest; some (packet' ∷ fed))
  ]

module _ ⦃E : Engine⦄ where
  -- The queue is empty afterwards. `flushed` is what `sink.flush()` gives: the result is its own.
  unfoldable pub kcp_output : Handshake → (ℕ → Bool) → Bool → Kcp → Option (List Bytes × Bool × Kcp)
  unfolding feed_all
  kcp_output hs feeds flushed k = do
    fed ← feed_all hs feeds 0 k.output_queue
    some (fed, flushed, record k { output_queue = [] })
