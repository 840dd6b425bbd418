-- ===== src/Stream/Sent.antt =====
-- src/stream.rs: what `kcp_output` hands to the transport.
use kcp_rs.Base.{
  ℕ, ◌+◌, ◌≤◌, ◌≡◌, refl, ap, ◌∙◌, Bool, true, false, Bool-cases, inl, inr, Option, none, some,
  List, [], ◌∷◌, ◌++◌, Bytes, length, length-append, bit_or, arith,
}
use kcp_rs.Ffi.{Engine, ikcp_overhead}
use kcp_rs.Protocol.Packet.{read_cmd, read_payload_data}
use kcp_rs.Protocol.Packet.Header.{write_cmd_frame}
use kcp_rs.Protocol.Payload.{
  FirstPayload, too_short, found, passed_over, read_payload_data-FirstPayload, get_elem?-some,
}
use kcp_rs.Protocol.Kcp.{Kcp}
use kcp_rs.Stream.Handshake.{Handshake, fin_sent, same}
use kcp_rs.Stream.Task.{kcp_fin}
use kcp_rs.Stream.Task.Sending.{mark_fin, outgoing, feed_all, kcp_output}

-- The sink takes the packets in order, up to the first that it refuses. A packet keeps its size, and
-- outside the state FinSent it is sent as it is.
pub data Sent (hs : Handshake) (feeds : ℕ → Bool) : ℕ → List Bytes → List Bytes → Type 0 where
  all_sent : (i : ℕ) → Sent hs feeds i [] []
  refused : (i : ℕ) (p : Bytes) (ps : List Bytes) → feeds i ≡ false → Sent hs feeds i (p ∷ ps) []
  taken :
      (i : ℕ) (p p' : Bytes) (ps fed : List Bytes)
      → feeds i ≡ true
      → outgoing hs p ≡ some p'
      → length p' ≡ length p
      → (same hs fin_sent ≡ false → p' ≡ p)
      → Sent hs feeds (i + 1) ps fed
      → Sent hs feeds i (p ∷ ps) (p' ∷ fed)

FirstPayload-length :
    (p x : Bytes) (r : Option Bytes) → FirstPayload p r → r ≡ some x → ikcp_overhead ≤ length p
FirstPayload-length p x r (too_short _ h) e = absurd (ground arith)
FirstPayload-length p x r (found _ head body rest split size len lo) e =
    let total : length p ≡ length (head ++ body) + length rest =
      ap length split ∙ length-append (head ++ body) rest in
    omega (arith, total, length-append head body, size)
FirstPayload-length p x r (passed_over _ head rest n _ split size len over more) e =
    let total : length p ≡ length head + length rest = ap length split ∙ length-append head rest in
    omega (arith, total, size)

SameSize : Bytes → Option Bytes → Type 0
SameSize p r = (p' : Bytes) × (r ≡ some p') × (length p' ≡ length p)

mark_fin-some : (p : Bytes) → SameSize p (mark_fin p)
unfolding mark_fin read_cmd SameSize
mark_fin-some p = let (r, e, first) = read_payload_data-FirstPayload p in by_payload r e first
  where
    by_payload :
        (r : Option Bytes)
        → read_payload_data p ≡ some r
        → FirstPayload p r
        → SameSize p (mark_fin p)
    by_payload none e first = (p, rw e refl, refl)
    by_payload (some x) e first =
        let whole = FirstPayload-length p x _ first refl in
        let (b, cmd) = get_elem?-some p 4 (omega arith) in
        let (p', written, _, size, _, _, _) = write_cmd_frame p (bit_or b kcp_fin) whole in
        (p', rw (e, cmd, written) refl, size)

outgoing-some :
    (hs : Handshake) (p : Bytes)
    → (p' : Bytes) × (outgoing hs p ≡ some p')
      × (length p' ≡ length p)
      × (same hs fin_sent ≡ false → p' ≡ p)
unfolding outgoing SameSize
outgoing-some hs p = elim (Bool-cases (same hs fin_sent)) [
  | inr other ↦ (p, rw other refl, refl, λ _. refl)
  | inl marking ↦
      let (p', out, size) = mark_fin-some p in
      (p', rw (marking, out) refl, size, λ h. absurd (ground arith))
]

feed_all-Sent :
    (hs : Handshake) (feeds : ℕ → Bool) (i : ℕ) (ps : List Bytes)
    → (fed : List Bytes) × (feed_all hs feeds i ps ≡ some fed) × Sent hs feeds i ps fed
unfolding feed_all
feed_all-Sent hs feeds i [] = ([], refl, all_sent i)
feed_all-Sent hs feeds i (p ∷ ps) =
    let (p', out, size, same_packet) = outgoing-some hs p in
    elim (Bool-cases (feeds i)) [
      | inr refusing ↦ ([], rw (out, refusing) refl, refused i p ps refusing)
      | inl yes_fed ↦
          (let (fed, run, rest) = feed_all-Sent hs feeds (i + 1) ps in
            (
              p' ∷ fed,
              rw (out, yes_fed, run) refl,
              taken i p p' ps fed yes_fed out size same_packet rest,
            ))
    ]

module _ ⦃E : Engine⦄ where
  -- `kcp_output` never faults, whatever packets the queue holds, and always leaves the queue empty:
  -- what the sink has taken is the queue up to the first packet that it refused, in order; each
  -- packet keeps its size, and outside the state FinSent it goes out as it is.
  pub kcp_output-Sent :
      (hs : Handshake) (feeds : ℕ → Bool) (flushed : Bool) (k : Kcp)
      → (fed : List Bytes) × (kcp_output hs feeds flushed k
          ≡ some (fed, flushed, record k { output_queue = [] }))
        × Sent hs feeds 0 k.output_queue fed
  unfolding kcp_output
  kcp_output-Sent hs feeds flushed k =
      let (fed, run, sent) = feed_all-Sent hs feeds 0 k.output_queue in (fed, rw run refl, sent)
