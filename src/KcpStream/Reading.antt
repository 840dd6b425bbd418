-- ===== src/KcpStream/Reading.antt =====
-- src/stream.rs: what `poll_read` reads is what the task put into the channel.
use mathlib.Core.Path.{subst}
use kcp_rs.Base.{
  ℕ, zero, suc, min, ◌≤◌, ◌<◌, ◌≡◌, refl, sym, ap, ◌∙◌, Option, none, some, [], ◌∷◌, ◌++◌,
  append_assoc, Bytes, length, length-take, length-drop, take-length, append-nil, take, drop,
  take-append-drop, ltb, if◌then◌else◌, Bool-cases, Option-cases, ◌⊎◌, inl, inr, arith, Io, ok, err,
  panic,
}
use kcp_rs.Channels.{Poll, ready, pending, ReceiverLaws}
use kcp_rs.KcpStream.{
  Channels, KcpStream, Fill, filled, ended, waiting, fill_failed, recv_loop, next_of, poll_next,
  after_next, fill_step, fill_loop, take_chunk, after_fill, poll_read,
}
use kcp_rs.Protocol.Packet.{◌>>=◌}
use kcp_rs.KcpStream.Received.{frames, queued, Received, recv_loop_lem}

abbrev pub buffered : Option Bytes → Bytes
buffered none = []
buffered (some x) = x

abbrev pub NotEmpty : Option Bytes → Type 0
NotEmpty none = Unit
NotEmpty (some []) = ⊥
NotEmpty (some (b ∷ x)) = Unit

-- What is left of a chunk behind its first `n` bytes.
abbrev left : ℕ → Bytes → Option Bytes
left n chunk = if ltb n (length chunk) then some (drop n chunk) else none

NotEmpty-of_length : (x : Bytes) → 0 < length x → NotEmpty (some x)
NotEmpty-of_length [] h = absurd (omega arith)
NotEmpty-of_length (b ∷ x) h = tt

left-NotEmpty : (n : ℕ) (chunk : Bytes) → NotEmpty (left n chunk)
left-NotEmpty n chunk = elim (Bool-cases (ltb n (length chunk))) [
  | inl more ↦ rw more (NotEmpty-of_length (drop n chunk) (ground (arith, length-drop n chunk)))
  | inr all ↦ rw all tt
]

take-left :
    (n : ℕ) (chunk : Bytes) → n ≤ length chunk → take n chunk ++ buffered (left n chunk) ≡ chunk
take-left n chunk h = elim (Bool-cases (ltb n (length chunk))) [
  | inl more ↦ rw more (take-append-drop n chunk)
  | inr all ↦
      let same : n ≡ length chunk = ground arith in
      rw (all, same, take-length chunk) (append-nil chunk)
]

module _ ⦃C : Channels⦄ (laws : ReceiverLaws C.output) where
  -- What the application has not read yet.
  abbrev pub unread : KcpStream → Bytes
  unread s = buffered s.read_buf ++ frames (laws.queue s.output_rx)

  abbrev Stage : KcpStream → Fill → Type 0
  Stage s filled = (b : ℕ) × (x : Bytes) × (s.read_buf ≡ some (b ∷ x))
  Stage s ended = (s.read_buf ≡ none) × (unread s ≡ [])
  Stage s waiting = s.read_buf ≡ none
  Stage s (fill_failed e) = ⊥

  abbrev Fills : Option (KcpStream × Fill) → KcpStream → Type 0
  Fills r s =
      (s' : KcpStream) × (f : Fill) × (r ≡ some (s', f)) × (unread s ≡ unread s') × Stage s' f

  abbrev with_rx : KcpStream → C.output.State → Option Bytes → KcpStream
  with_rx s rx buf = record s { output_rx = rx; read_buf = buf }

  empty_step :
      (fuel rounds : ℕ) (s : KcpStream) (rx : C.output.State) (p : Poll (Option (Io Bytes)))
      → ((s' : KcpStream)
          → NotEmpty s'.read_buf
          → queued laws s'.output_rx < fuel
          → queued laws s'.output_rx < rounds
          → Fills (fill_loop fuel rounds s') s')
      → s.read_buf ≡ none
      → queued laws s.output_rx < fuel
      → queued laws s.output_rx < suc rounds
      → Received laws s.output_rx rx p
      → Fills (after_next (fill_loop fuel rounds) (record s { output_rx = rx }, p)) s
  unfolding after_next
  empty_step fuel rounds s rx pending again e h h' (same, less) =
      (record s { output_rx = rx }, waiting, refl, ap (◌++◌ (buffered s.read_buf)) same, e)
  empty_step fuel rounds s rx (ready none) again e h h' (same, empty) =
      (record s { output_rx = rx }, ended, refl, rw (same, empty) refl, (e, rw (e, empty) refl))
  empty_step fuel rounds s rx (ready (some (ok []))) again e h h' (same, less) =
      let (s', f, run, kept, stage) =
        again (record s { output_rx = rx }) (rw e tt) (omega arith) (omega arith) in
      (s', f, run, ap (◌++◌ (buffered s.read_buf)) same ∙ kept, stage)
  empty_step fuel rounds s rx (ready (some (ok (b ∷ x)))) again e h h' (same, less) =
      let (s', f, run, kept, stage) =
        again (with_rx s rx (some (b ∷ x))) tt (omega arith) (omega arith) in
      (s', f, run, rw e same ∙ kept, stage)
  empty_step fuel rounds s rx (ready (some (err k))) again e h h' r = absurd r
  empty_step fuel rounds s rx (ready (some panic)) again e h h' r = absurd r

  poll_next_lem :
      (fuel : ℕ) (s : KcpStream) (rx : C.output.State) (p : Poll (Option (Io Bytes)))
      → s.read_buf ≡ none
      → recv_loop fuel s.output_rx ≡ some (rx, p)
      → poll_next fuel s ≡ some (record s { output_rx = rx }, p)
  unfolding poll_next next_of
  poll_next_lem fuel s rx p e run =
      ap (next_of fuel s) e ∙ ap (λ r. r >>= λ r'. some (record s { output_rx = r'.0 }, r'.1)) run

  fill_step_lem :
      (fuel : ℕ) (again : KcpStream → Option (KcpStream × Fill)) (s : KcpStream)
      (r : KcpStream × Poll (Option (Io Bytes)))
      → s.read_buf ≡ none
      → poll_next fuel s ≡ some r
      → fill_step fuel again s s.read_buf ≡ after_next again r
  unfolding fill_step
  fill_step_lem fuel again s r e run =
      ap (fill_step fuel again s) e ∙ ap (λ o. o >>= after_next again) run

  fill_loop_lem :
      (fuel rounds : ℕ) (s : KcpStream)
      → NotEmpty s.read_buf
      → queued laws s.output_rx < fuel
      → queued laws s.output_rx < rounds
      → Fills (fill_loop fuel rounds s) s
  unfolding fill_loop fill_step
  fill_loop_lem fuel zero s full h h' = absurd (omega arith)
  fill_loop_lem fuel (suc rounds) s full h h' = elim (Option-cases s.read_buf) [
    | inl e ↦
        let (rx, p, run, r) = recv_loop_lem laws fuel s.output_rx h in
        let step =
          fill_step_lem fuel (fill_loop fuel rounds) s _ e (poll_next_lem fuel s rx p e run) in
        let (s', f, run', kept, stage) =
          empty_step fuel rounds s rx p (fill_loop_lem fuel rounds) e h h' r in
        (s', f, step ∙ run', kept, stage)
    | inr ([], e) ↦ absurd (rw e at full)
    | inr (b ∷ x, e) ↦ (s, filled, ap (fill_step fuel (fill_loop fuel rounds) s) e, refl, (b, x, e))
  ]

  -- What a read of at most `room` bytes did to the stream, put into the buffer, and reported.
  abbrev pub Reads : ℕ → KcpStream → KcpStream → Bytes → Poll (Io (Unit {0})) → Type 0
  Reads room s s' put (ready (ok u)) =
      (unread s ≡ put ++ unread s')
      × (length put ≤ room)
      × NotEmpty s'.read_buf
      × ((0 < length put) ⊎ (unread s ≡ []))
  Reads room s s' put pending = (put ≡ []) × (unread s ≡ unread s') × NotEmpty s'.read_buf
  Reads room s s' put (ready (err e)) = ⊥
  Reads room s s' put (ready panic) = ⊥

  take_chunk-Reads :
      (room b : ℕ) (x : Bytes) (before s : KcpStream)
      → unread before ≡ unread s
      → s.read_buf ≡ some (b ∷ x)
      → Reads
          (suc room)
          before
          (take_chunk s (suc room) (some (b ∷ x))).0
          (take_chunk s (suc room) (some (b ∷ x))).1
          (ready (ok tt))
  take_chunk-Reads room b x before s same e =
      let n = min (suc (length x)) (suc room) in
      let rest = frames (laws.queue s.output_rx) in
      let size : length (take n (b ∷ x)) ≡ n = length-take n (b ∷ x) ∙ omega arith in
      (
        same
            ∙ ap (λ o. buffered o ++ rest) e
            ∙ ap (λ y. y ++ rest) (sym (take-left n (b ∷ x) (omega arith)))
            ∙ append_assoc (take n (b ∷ x)) _ rest,
        omega (arith, size),
        left-NotEmpty n (b ∷ x),
        inl (omega (arith, size)),
      )

  fill-Reads :
      (room : ℕ) (s s' : KcpStream) (f : Fill)
      → unread s ≡ unread s'
      → Stage s' f
      → let r = after_fill (suc room) (s', f) in Reads (suc room) s r.0 r.1 r.2
  unfolding after_fill
  fill-Reads room s s' waiting same e = (refl, same, rw e tt)
  fill-Reads room s s' ended same (e, empty) = (same, omega arith, rw e tt, inr (same ∙ empty))
  fill-Reads room s s' (fill_failed k) same r = absurd r
  fill-Reads room s s' filled same (b, x, e) =
      subst
        (λ o.
          Reads (suc room) s (take_chunk s' (suc room) o).0 (take_chunk s' (suc room) o).1
            (ready (ok tt)))
        (sym e) (take_chunk-Reads room b x s s' same e)

  -- With an output channel that keeps its laws, fuel above the number of messages in it, room in
  -- the buffer and no empty kept chunk, `poll_read` returns and gives no error. Ready, it has put
  -- the front of what the application has not read into the buffer, at most `room` bytes, and
  -- nothing only when there is nothing left; pending, it has put nothing. What is left to read is
  -- exactly the rest, and no empty chunk is kept.
  pub poll_read-Reads :
      (fuel room : ℕ) (s : KcpStream)
      → NotEmpty s.read_buf
      → queued laws s.output_rx < fuel
      → 0 < room
      → (s' : KcpStream) × (put : Bytes) × (p : Poll (Io (Unit {0}))) × (poll_read fuel s room
          ≡ some (s', put, p))
        × Reads room s s' put p
  unfolding poll_read
  poll_read-Reads fuel zero s full h some_room = absurd (omega arith)
  poll_read-Reads fuel (suc room) s full h some_room =
      let (s', f, run, same, stage) = fill_loop_lem fuel fuel s full h h in
      let r = after_fill (suc room) (s', f) in
      (
        r.0,
        r.1,
        r.2,
        ap (λ o. o >>= λ r'. some (after_fill (suc room) r')) run,
        fill-Reads room s s' f same stage,
      )
