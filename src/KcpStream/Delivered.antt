-- ===== src/KcpStream/Delivered.antt =====
-- src/stream.rs: a connection's task and its stream together, on the way to the application.
use mathlib.Core.Path.{subst}
use mathlib.Core.Option.{some-injective}
use mathlib.Core.List.{append_cancel_left}
use kcp_rs.Base.{
  ℕ, ◌<◌, ◌≡◌, refl, sym, ap, ◌∙◌, false, some, List, [], ◌∷◌, ◌++◌, append-nil, append_assoc,
  Bytes, Io, ok, err, panic,
}
use kcp_rs.Ffi.{Engine}
use kcp_rs.Ffi.Laws.{ArrivalLaws}
use kcp_rs.Channels.{Poll, ready, pending, ReceiverLaws}
use kcp_rs.Stream.Task.{Task, Output, established, frame}
use kcp_rs.Stream.Delivery.{data_frames, kept, arrived, delivery}
use kcp_rs.Stream.Delivery.Ordered.{Turns, Turns-Extends, Turns-IsPast, Turns-open}
use kcp_rs.Stream.Delivery.Handing.{data_frames-append}
use kcp_rs.Stream.Delivery.Turns.{IsPast}
use kcp_rs.KcpStream.{Channels, KcpStream, poll_read}
use kcp_rs.KcpStream.Chunks.{concat, concat-append}
use kcp_rs.KcpStream.Received.{frames, queued}
use kcp_rs.KcpStream.Reading.{unread, Reads, NotEmpty, poll_read-Reads}

frames-concat : (q : List Output) → frames q ≡ concat (data_frames q)
frames-concat [] = refl
frames-concat (established c ∷ q) = frames-concat q
frames-concat (frame x ∷ q) = ap (◌++◌ x) (frames-concat q)

module _ ⦃E : Engine⦄ ⦃L : ArrivalLaws E⦄ ⦃C : Channels⦄ (laws : ReceiverLaws C.output) where
  -- One end of a connection, and the bytes that the application has read so far.
  pub record Endpoint : Type 0 where
    pub task : Task
    pub stream : KcpStream
    pub read : Bytes

  -- The task runs and the channel takes what it hands over, or the application reads.
  pub data Proceeds : Endpoint → Endpoint → Type 0 where
    at_rest : {x : Endpoint} → Proceeds x x
    runs :
        {x y : Endpoint} (u : Task) (rx : C.output.State) (new : List Output)
        → Proceeds x y
        → Turns y.task u
        → u.sent ≡ y.task.sent ++ new
        → laws.queue rx ≡ laws.queue y.stream.output_rx ++ new
        → Proceeds x (record y { task = u; stream = record (y.stream) { output_rx = rx } })
    reads :
        {x y : Endpoint} (fuel room : ℕ) (s : KcpStream) (put : Bytes) (p : Poll (Io (Unit {0})))
        → Proceeds x y
        → queued laws y.stream.output_rx < fuel
        → 0 < room
        → poll_read fuel y.stream room ≡ some (s, put, p)
        → Proceeds x (record y { stream = s; read = y.read ++ put })

  -- What is under way to the application, from the channel to the C library.
  abbrev pub under_way : Endpoint → Bytes
  under_way x = unread laws x.stream ++ concat (kept x.task.tx_frame ++ arrived x.task.kcp)

  abbrev Grows : Endpoint → Endpoint → Type 0
  Grows x y = (more : Bytes) × (y.read ++ under_way y ≡ (x.read ++ under_way x) ++ more)

  abbrev with_rx : KcpStream → C.output.State → KcpStream
  with_rx s rx = record s { output_rx = rx }

  -- What the task hands over and what it keeps and leaves behind are what was there, and more.
  new_frames :
      (t u : Task) (new : List Output)
      → u.sent ≡ t.sent ++ new
      → (more : List Bytes) × (delivery u ≡ delivery t ++ more)
      → (more : List Bytes) × (data_frames new ++ (kept u.tx_frame ++ arrived u.kcp)
          ≡ (kept t.tx_frame ++ arrived t.kcp) ++ more)
  new_frames t u new e (more, h) =
      let out = data_frames t.sent in
      let behind = kept u.tx_frame ++ arrived u.kcp in
      (
        more,
        append_cancel_left out _ _ (
            sym (append_assoc out (data_frames new) behind)
            ∙ ap (λ l. l ++ behind) (sym (ap data_frames e ∙ data_frames-append t.sent new))
            ∙ h
            ∙ append_assoc out _ more),
      )

  unread-new :
      (s : KcpStream) (rx : C.output.State) (new : List Output)
      → laws.queue rx ≡ laws.queue s.output_rx ++ new
      → unread laws (with_rx s rx) ≡ unread laws s ++ concat (data_frames new)
  unread-new s rx new e = simp (e, frames-concat, data_frames-append, concat-append, append_assoc)

  runs-Grows :
      (x : Endpoint) (u : Task) (rx : C.output.State) (new : List Output)
      → u.sent ≡ x.task.sent ++ new
      → laws.queue rx ≡ laws.queue x.stream.output_rx ++ new
      → (more : List Bytes) × (delivery u ≡ delivery x.task ++ more)
      → Grows x (record x { task = u; stream = with_rx x.stream rx })
  runs-Grows x u rx new sent queue extends =
      let (more, e) = new_frames x.task u new sent extends in
      let before = unread laws x.stream in
      let here = concat (kept x.task.tx_frame ++ arrived x.task.kcp) in
      let behind = concat (kept u.tx_frame ++ arrived u.kcp) in
      let same : concat (data_frames new) ++ behind ≡ here ++ concat more =
        sym (concat-append (data_frames new) _)
        ∙ ap concat e
        ∙ concat-append (kept x.task.tx_frame ++ arrived x.task.kcp) more in
      (
        concat more,
        ap (λ w. x.read ++ (w ++ behind)) (unread-new x.stream rx new queue)
            ∙ ap (◌++◌ x.read) (
                append_assoc before (concat (data_frames new)) behind
                ∙ ap (◌++◌ before) same
                ∙ sym (append_assoc before here (concat more)))
            ∙ sym (append_assoc x.read (under_way x) (concat more)),
      )

  Reads-front :
      (room : ℕ) (s s' : KcpStream) (put : Bytes) (p : Poll (Io (Unit {0})))
      → Reads laws room s s' put p
      → (unread laws s ≡ put ++ unread laws s') × NotEmpty s'.read_buf
  Reads-front room s s' put (ready (ok u)) (front, fits, full, some_put) = (front, full)
  Reads-front room s s' put pending (nothing, same, full) = (rw nothing same, full)
  Reads-front room s s' put (ready (err e)) r = absurd r
  Reads-front room s s' put (ready panic) r = absurd r

  -- A read that is given by its result.
  read-front :
      (fuel room : ℕ) (s s' : KcpStream) (put : Bytes) (p : Poll (Io (Unit {0})))
      → NotEmpty s.read_buf
      → queued laws s.output_rx < fuel
      → 0 < room
      → poll_read fuel s room ≡ some (s', put, p)
      → (unread laws s ≡ put ++ unread laws s') × NotEmpty s'.read_buf
  read-front fuel room s s' put p full enough some_room e =
      let (s'', put', p', run, r) = poll_read-Reads laws fuel room s full enough some_room in
      subst (λ r. (unread laws s ≡ r.1 ++ unread laws r.0) × NotEmpty r.0.read_buf)
        (some-injective _ _ (sym run ∙ e)) (Reads-front room s s'' put' p' r)

  reads-same :
      (x : Endpoint) (s : KcpStream) (put : Bytes)
      → unread laws x.stream ≡ put ++ unread laws s
      → (x.read ++ put) ++ under_way (record x { stream = s }) ≡ x.read ++ under_way x
  reads-same x s put e = simp (e, append_assoc)

  Proceeds-kept :
      {x y : Endpoint} → Proceeds x y → NotEmpty x.stream.read_buf → NotEmpty y.stream.read_buf
  Proceeds-kept at_rest full = full
  Proceeds-kept (runs u rx new h turns sent queue) full = Proceeds-kept h full
  Proceeds-kept (reads {y = y} fuel room s put p h enough some_room e) full =
      (read-front fuel room y.stream s put p (Proceeds-kept h full) enough some_room e).1

  Proceeds-IsPast : {x y : Endpoint} → Proceeds x y → IsPast x.task → IsPast y.task
  Proceeds-IsPast at_rest past = past
  Proceeds-IsPast (runs u rx new h turns sent queue) past =
      Turns-IsPast turns (Proceeds-IsPast h past)
  Proceeds-IsPast (reads fuel room s put p h enough some_room e) past = Proceeds-IsPast h past

  -- While the task of an established connection takes any turns, a channel that keeps its laws takes
  -- what the task hands over, and the application reads with room and with enough fuel, without a FIN
  -- until then: what the application has read, followed by what is under way to it in the channel, in
  -- the task and in the C library, only grows at its end. So it reads the bytes of the messages in
  -- their order, each once, whatever the turns and the sizes of the reads.
  pub Proceeds-Grows :
      {x y : Endpoint}
      → Proceeds x y
      → NotEmpty x.stream.read_buf
      → IsPast x.task
      → y.task.flags.fin_recved ≡ false
      → (more : Bytes) × (y.read ++ under_way y ≡ (x.read ++ under_way x) ++ more)
  Proceeds-Grows {x = x} at_rest full past open_end = ([], sym (append-nil _))
  Proceeds-Grows {x = x} (runs {y = y} u rx new h turns sent queue) full past open_end =
      let (more, e) = Proceeds-Grows h full past (Turns-open turns open_end) in
      let (more', e') =
        runs-Grows y u rx new sent queue (Turns-Extends turns (Proceeds-IsPast h past) open_end) in
      (more ++ more', e' ∙ ap (λ w. w ++ more') e ∙ append_assoc _ more more')
  Proceeds-Grows (reads {y = y} fuel room s put p h enough some_room e) full past open_end =
      let (more, grown) = Proceeds-Grows h full past open_end in
      let front =
        (read-front fuel room y.stream s put p (Proceeds-kept h full) enough some_room e).0 in
      (more, reads-same y s put front ∙ grown)
