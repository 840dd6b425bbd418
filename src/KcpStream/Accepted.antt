-- ===== src/KcpStream/Accepted.antt =====
-- src/stream.rs with src/protocol.rs: the frames of `poll_write` are ones that the library takes.
use mathlib.Core.Option.{some-injective}
use kcp_rs.Base.{
  ℕ, ◌-◌, ◌*◌, ◌≤◌, ◌<◌, ◌≡◌, sym, ap, ◌∙◌, some, List, [], ◌∷◌, ◌++◌, Bytes, All, length, arith,
  Io, ok,
}
use kcp_rs.Ffi.{Engine, ikcp_overhead, ikcp_wnd_rcv}
use kcp_rs.Ffi.Laws.{SendLaws}
use kcp_rs.Channels.{Poll, PollSenderLaws}
use kcp_rs.KcpStream.{Channels, KcpStream, poll_write}
use kcp_rs.KcpStream.Chunks.{Fits}
use kcp_rs.KcpStream.Writing.{handed, poll_write-Writes}
use kcp_rs.Protocol.Conv.{max_frame_size}
use kcp_rs.Protocol.Kcp
use kcp_rs.Protocol.Kcp.{Kcp}
use kcp_rs.Stream.Closing.{send-returns}

module _ ⦃C : Channels⦄ ⦃E : Engine⦄ where
  -- The largest mtu whose largest frame has a length that is a C `int`.
  abbrev pub mtu_limit : ℕ
  mtu_limit = 8421528

  -- `Kcp::send` takes the frame.
  abbrev pub Accepts : Kcp → Bytes → Type 0
  Accepts k x = (k' : Kcp) × (n : ℕ) × (Kcp.send k x ≡ (k', ok n))

  max_frame_size_lem :
      (mtu : ℕ)
      → ikcp_overhead < mtu
      → mtu ≤ mtu_limit
      → max_frame_size mtu ≡ (mtu - ikcp_overhead) * (ikcp_wnd_rcv - 1)
  unfolding max_frame_size
  max_frame_size_lem mtu lo hi = omega arith

  Accepts-of_Fits :
      (k : Kcp) (mtu : ℕ)
      → SendLaws E
      → k.handle.mtu ≡ mtu
      → ikcp_overhead < mtu
      → mtu ≤ mtu_limit
      → (xs : List Bytes) → All (Fits (max_frame_size mtu)) xs
      → All (Accepts k) xs
  Accepts-of_Fits k mtu laws same lo hi [] every = tt
  Accepts-of_Fits k mtu laws same lo hi (x ∷ xs) ((full, size), every) = (
    send-returns k x laws (omega arith)
        (omega (
          arith,
          max_frame_size_lem mtu lo hi,
          ap (λ m. (m - ikcp_overhead) * (ikcp_wnd_rcv - 1)) same,
        ))
        (omega (arith, max_frame_size_lem mtu lo hi)),
    Accepts-of_Fits k mtu laws same lo hi xs every,
  )

  -- With an input channel and a C library that keep their laws, a buffer that is not empty and an
  -- mtu of the settings above 24 and up to 8421528, each frame that `poll_write` hands over when it
  -- returns is one that `Kcp::send` takes, for every connection that has this mtu: none is dropped
  -- for its size.
  pub poll_write-Accepts :
      (laws : PollSenderLaws C.input) (send_laws : SendLaws E) (s s' : KcpStream) (buf : Bytes)
      (p : Poll (Io ℕ))
      → 0 < length buf
      → ikcp_overhead < s.config.mtu
      → s.config.mtu ≤ mtu_limit
      → poll_write s buf ≡ some (s', p)
      → (cs : List Bytes) × (handed laws s' ≡ handed laws s ++ cs)
        × ((k : Kcp) → k.handle.mtu ≡ s.config.mtu → All (Accepts k) cs)
  poll_write-Accepts laws send_laws s s' buf p full lo hi run =
      let (t, q, run', (cs, rest, went, split, every, said)) =
        poll_write-Writes laws s buf full (omega (arith, max_frame_size_lem s.config.mtu lo hi)) in
      let same = ap (λ r. r.0) (some-injective _ _ (sym run' ∙ run)) in
      (
        cs,
        sym (ap (handed laws) same) ∙ went,
        λ k same_mtu. Accepts-of_Fits k s.config.mtu send_laws same_mtu lo hi cs every,
      )
