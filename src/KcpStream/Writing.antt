-- ===== src/KcpStream/Writing.antt =====
-- src/stream.rs: what `poll_write` hands to the task is the front of the buffer, in frames that fit.
use mathlib.Core.Path.{subst}
use kcp_rs.Base.{
  ℕ, zero, suc, ◌+◌, ◌<◌, ◌≡◌, refl, sym, ap, ◌∙◌, Bool, true, false, Option, some, List, [], ◌∷◌,
  ◌++◌, append_assoc, append-nil, Bytes, All, All-front, length, length-append, lt→ltb, ◌⊎◌, inl,
  inr, arith, not_connected, Io, ok, err, panic,
}
use kcp_rs.Channels.{Poll, ready, pending, PollSenderLaws}
use kcp_rs.KcpStream.{
  Channels, KcpStream, or_not_connected, poll_map, chunks_from, chunks, poll_ready, start_send,
  stopped, after_start, after_ready, write_loop, poll_write,
}
use kcp_rs.Protocol.Conv.{max_frame_size}
use kcp_rs.Protocol.Packet.{◌>>=◌}
use kcp_rs.KcpStream.Chunks.{concat, Fits, concat-append, chunks_from-concat, chunks_from-Fits}

module _ ⦃C : Channels⦄ (laws : PollSenderLaws C.input) where
  -- What the task has been given, oldest first.
  abbrev pub handed : KcpStream → List Bytes
  handed s = laws.handed s.input_sink

  abbrev Said : ℕ → List Bytes → Poll (Io ℕ) → Type 0
  Said n more (ready (ok m)) = (m ≡ n) × ((0 < n) ⊎ (more ≡ []))
  Said n more (ready (err e)) = (n ≡ 0) × (e ≡ not_connected)
  Said n more (ready panic) = ⊥
  Said n more pending = n ≡ 0

  -- `cs` of the chunks went, `more` did not.
  abbrev Sends : List Bytes → ℕ → KcpStream → Option (KcpStream × Poll (Io ℕ)) → Type 0
  Sends chunks len s r =
      (s' : KcpStream) × (p : Poll (Io ℕ)) × (cs : List Bytes) × (more : List Bytes) × (r
        ≡ some (s', p))
      × (chunks ≡ cs ++ more)
      × (handed s' ≡ handed s ++ cs)
      × Said (len + length (concat cs)) more p

  Said-stopped :
      (len : ℕ) (more : List Bytes) (p : Poll (Io ℕ))
      → Said 0 more p
      → Said (len + 0) more (stopped len p)
  Said-stopped zero more p said = said
  Said-stopped (suc len) more p said =
      rw (lt→ltb 0 (suc len) (omega arith)) (omega arith, inl (omega arith))

  stop-Sends :
      (chunks : List Bytes) (len : ℕ) (s : KcpStream) (sink : C.input.State) (p : Poll (Io ℕ))
      → laws.handed sink ≡ handed s
      → Said 0 chunks p
      → Sends chunks len s (some (record s { input_sink = sink }, stopped len p))
  stop-Sends chunks len s sink p same said = (
    _,
    _,
    [],
    chunks,
    refl,
    refl,
    same ∙ sym (append-nil (handed s)),
    Said-stopped len chunks p said,
  )

  go_on :
      (chunk : Bytes) (rest : List Bytes) (len : ℕ) (s : KcpStream) (sink : C.input.State)
      → laws.handed sink ≡ handed s ++ (chunk ∷ [])
      → Sends rest
          (len + length chunk)
          (record s { input_sink = sink })
          (write_loop rest (len + length chunk) (record s { input_sink = sink }))
      → Sends
          (chunk ∷ rest)
          len
          s
          (write_loop rest (len + length chunk) (record s { input_sink = sink }))
  go_on chunk rest len s sink gone (s', p, cs, more, run, split, went, said) = (
    s',
    p,
    chunk ∷ cs,
    more,
    run,
    ap (◌∷◌ chunk) split,
    went ∙ ap (λ h. h ++ cs) gone ∙ append_assoc (handed s) (chunk ∷ []) cs,
    subst (λ n. Said n more p) (omega (arith, length-append chunk (concat cs))) said,
  )

  send_step :
      (chunk : Bytes) (rest : List Bytes) (len : ℕ) (s : KcpStream) (sink t : C.input.State)
      (b : Bool)
      → ((s' : KcpStream)
          → Sends rest (len + length chunk) s' (write_loop rest (len + length chunk) s'))
      → laws.handed sink ≡ handed s
      → C.input.start_send sink chunk ≡ some (t, b)
      → Sends (chunk ∷ rest) len s (
          after_ready
            (write_loop rest (len + length chunk))
            chunk
            len
            (record s { input_sink = sink }, ready (ok tt)))
  unfolding after_ready start_send after_start
  send_step chunk rest len s sink t true again same e = rw e (
      go_on chunk rest len s t (laws.send_ok sink t chunk e ∙ ap (λ h. h ++ (chunk ∷ [])) same)
        (again (record s { input_sink = t })))
  send_step chunk rest len s sink t false again same e = rw e (
      stop-Sends (chunk ∷ rest) len s t (ready (err not_connected))
        (laws.send_err sink t chunk e ∙ same) (refl, refl))

  ready_step :
      (chunk : Bytes) (rest : List Bytes) (len : ℕ) (s : KcpStream) (sink : C.input.State)
      (p : Poll Bool)
      → ((s' : KcpStream)
          → Sends rest (len + length chunk) s' (write_loop rest (len + length chunk) s'))
      → C.input.poll_ready s.input_sink ≡ (sink, p)
      → Sends (chunk ∷ rest) len s (
          after_ready
            (write_loop rest (len + length chunk))
            chunk
            len
            (record s { input_sink = sink }, poll_map or_not_connected p))
  unfolding after_ready
  ready_step chunk rest len s sink pending again e =
      stop-Sends (chunk ∷ rest) len s sink pending
        (sym (ap (λ r. laws.handed r.0) e) ∙ laws.ready_keeps s.input_sink) refl
  ready_step chunk rest len s sink (ready false) again e =
      stop-Sends (chunk ∷ rest) len s sink (ready (err not_connected))
        (sym (ap (λ r. laws.handed r.0) e) ∙ laws.ready_keeps s.input_sink) (refl, refl)
  ready_step chunk rest len s sink (ready true) again e =
      let (t, b, sent) = laws.send_ready s.input_sink sink chunk e in
      send_step chunk rest len s sink t b again
        (sym (ap (λ r. laws.handed r.0) e) ∙ laws.ready_keeps s.input_sink) sent

  write_loop_lem :
      (chunks : List Bytes) (len : ℕ) (s : KcpStream) → Sends chunks len s (write_loop chunks len s)
  unfolding write_loop poll_ready
  write_loop_lem [] len s =
      (s, ready (ok len), [], [], refl, refl, sym (append-nil (handed s)), (omega arith, inr refl))
  write_loop_lem (chunk ∷ rest) len s =
      ready_step chunk rest len s _ _ (write_loop_lem rest (len + length chunk)) refl

  -- What is reported of `n` bytes that were sent.
  abbrev pub Reported : ℕ → Poll (Io ℕ) → Type 0
  Reported n (ready (ok m)) = (m ≡ n) × (0 < n)
  Reported n (ready (err e)) = (n ≡ 0) × (e ≡ not_connected)
  Reported n (ready panic) = ⊥
  Reported n pending = n ≡ 0

  Reported-of_Said :
      (cs more : List Bytes) (p : Poll (Io ℕ))
      → 0 < length (concat (cs ++ more))
      → Said (length (concat cs)) more p
      → Reported (length (concat cs)) p
  Reported-of_Said cs more (ready (ok m)) some_bytes (e, inl h) = (e, h)
  Reported-of_Said cs more (ready (ok m)) some_bytes (e, inr h) =
      (e, subst (λ y. 0 < length (concat y)) (ap (λ y. cs ++ y) h ∙ append-nil cs) some_bytes)
  Reported-of_Said cs more (ready (err e)) some_bytes said = said
  Reported-of_Said cs more (ready panic) some_bytes said = said
  Reported-of_Said cs more pending some_bytes said = said

  -- What a write of `buf` did: frames of at most `size` bytes, which are the front of the buffer.
  abbrev pub Writes : ℕ → KcpStream → Bytes → KcpStream → Poll (Io ℕ) → Type 0
  Writes size s buf s' p =
      (cs : List Bytes) × (rest : Bytes) × (handed s' ≡ handed s ++ cs)
      × (buf ≡ concat cs ++ rest)
      × All (Fits size) cs
      × Reported (length (concat cs)) p

  Writes-of_Sends :
      (size b : ℕ) (buf : Bytes) (s : KcpStream)
      → Sends
          (chunks_from (suc (length buf)) (suc size) (b ∷ buf))
          0
          s
          (write_loop (chunks_from (suc (length buf)) (suc size) (b ∷ buf)) 0 s)
      → (s' : KcpStream) × (p : Poll (Io ℕ)) × (write_loop
            (chunks_from (suc (length buf)) (suc size) (b ∷ buf))
            0
            s
          ≡ some (s', p))
        × Writes (suc size) s (b ∷ buf) s' p
  Writes-of_Sends size b buf s (s', p, cs, more, run, split, went, said) =
      let whole =
        sym (ap concat split)
        ∙ chunks_from-concat size (suc (length buf)) (b ∷ buf) (omega arith) in
      (
        s',
        p,
        run,
        (
          cs,
          concat more,
          went,
          sym whole ∙ concat-append cs more,
          All-front (Fits (suc size)) cs more (
              subst (All (Fits (suc size))) split
                (chunks_from-Fits size (suc (length buf)) (b ∷ buf))),
          Reported-of_Said cs more p (omega (arith, ap length whole))
              (subst (λ n. Said n more p) (omega arith) said),
        ),
      )

  -- With an input channel that keeps its laws, a buffer that is not empty and a positive
  -- `max_frame_size`, `poll_write` returns. The frames that it hands to the task, in order and
  -- behind those from before, are not empty, are no longer than `max_frame_size`, and are the front
  -- of the buffer. It reports their length, which is positive; or it is pending or gives
  -- NotConnected, and has handed over nothing.
  pub poll_write-Writes :
      (s : KcpStream) (buf : Bytes)
      → 0 < length buf
      → 0 < max_frame_size s.config.mtu
      → (s' : KcpStream) × (p : Poll (Io ℕ)) × (poll_write s buf ≡ some (s', p))
        × Writes (max_frame_size s.config.mtu) s buf s' p
  unfolding poll_write chunks
  poll_write-Writes s [] some_bytes some_size = absurd (omega arith)
  poll_write-Writes s (b ∷ buf) some_bytes some_size = sized (max_frame_size s.config.mtu) some_size
    where
      sized :
          (size : ℕ)
          → 0 < size
          → (s' : KcpStream) × (p : Poll (Io ℕ)) × ((chunks size (b ∷ buf) >>= λ cs.
                write_loop cs 0 s)
              ≡ some (s', p))
            × Writes size s (b ∷ buf) s' p
      sized zero h = absurd (omega arith)
      sized (suc size) h = Writes-of_Sends size b buf s (write_loop_lem _ 0 s)
