-- ===== src/KcpStream/Closing/Laws.antt =====
-- src/stream.rs: that closing ends, what it leaves, and what `accept` gives.
use kcp_rs.Base.{
  ℕ, zero, suc, ◌≤◌, ◌<◌, ◌≡◌, refl, ap, ◌∙◌, Bool, true, false, Option, none, some, List, [], ◌∷◌,
  ◌++◌, replicate, Bool-cases, ◌⊎◌, inl, inr, arith, invalid_input, timed_out, Io, ok, err,
}
use kcp_rs.Config.{KcpConfig}
use kcp_rs.Channels.{Poll, ready, pending, ReceiverLaws, CloseLaws}
use kcp_rs.KcpStream.{Channels, KcpStream, stream_new, Spawned, Spawn, spawn_task}
use kcp_rs.KcpStream.Reading.{unread}
use kcp_rs.KcpStream.Closing.{
  try_close, join_task, after_close, poll_close, after_poll, close_all, wait_connection, stream_of,
  connect, accept,
}
use kcp_rs.Protocol.Conv.{syn_conv, is_valid_conv}
use kcp_rs.Protocol.Packet.{◌>>=◌}
use kcp_rs.Stream.Task.{Output, established, frame}

module _ ⦃C : Channels⦄ (laws : ReceiverLaws C.output) (closing : CloseLaws C.input) where
  -- The token is cancelled, the task's handle is gone, and the data that came is still there to read.
  abbrev pub Closes : KcpStream → KcpStream → Type 0
  Closes s s' = (s'.cancelled ≡ true) × (s'.task ≡ false) × (unread laws s' ≡ unread laws s)

  abbrev waits_of : KcpStream → ℕ
  waits_of s = closing.waits s.input_sink

  -- A poll that is still pending, whether the task is over or not.
  abbrev Waits : KcpStream → Bool → KcpStream → Type 0
  Waits s over s' =
      (unread laws s' ≡ unread laws s)
      × (waits_of s' ≤ waits_of s)
      × ((over ≡ false) ⊎ (waits_of s' < waits_of s))

  abbrev Polls : KcpStream → Bool → KcpStream × Poll (Io (Unit {0})) → Type 0
  Polls s over (s', ready r) = Closes s s'
  Polls s over (s', pending) = Waits s over s'

  unread-try_close : (s : KcpStream) → unread laws (try_close s) ≡ unread laws s
  unfolding try_close
  unread-try_close s = rw (laws.close_keeps s.output_rx) refl

  join_task-Polls :
      (s before : KcpStream) (held over : Bool)
      → s.cancelled ≡ true
      → unread laws s ≡ unread laws before
      → waits_of s ≤ waits_of before
      → s.task ≡ held
      → Polls before over (join_task s held over)
  unfolding join_task
  join_task-Polls s before false over token same less e = (token, e, same)
  join_task-Polls s before true true token same less e = (token, refl, same)
  join_task-Polls s before true false token same less e = (same, less, inl refl)

  after_close-Polls :
      (s : KcpStream) (over : Bool) (sink : C.input.State) (p : Poll Bool)
      → C.input.poll_close s.input_sink ≡ (sink, p)
      → Polls s over (after_close s over (sink, p))
  unfolding after_close try_close
  after_close-Polls s over sink pending e =
      let less = closing.close_pending s.input_sink sink e in (refl, omega (arith, less), inr less)
  after_close-Polls s over sink (ready b) e =
      join_task-Polls (try_close (record s { input_sink = sink })) s s.task over refl
        (unread-try_close (record s { input_sink = sink }))
        (closing.close_ready s.input_sink sink b e) refl

  poll_close-Polls : (s : KcpStream) (over : Bool) → Polls s over (poll_close s over)
  unfolding poll_close
  poll_close-Polls s over = after_close-Polls s over _ _ refl

  abbrev pub Ends : List Bool → KcpStream → Type 0
  Ends overs s = (s' : KcpStream) × (close_all overs s ≡ some s') × Closes s s'

  Ends-later :
      (overs : List Bool) (s s' : KcpStream)
      → unread laws s' ≡ unread laws s
      → (t : KcpStream) × (close_all overs s' ≡ some t) × Closes s' t
      → (t : KcpStream) × (close_all overs s' ≡ some t) × Closes s t
  Ends-later overs s s' same (t, run, closes) = (t, run, (closes.0, closes.1, closes.2 ∙ same))

  polled :
      (over : Bool) (overs : List Bool) (s : KcpStream) (r : KcpStream × Poll (Io (Unit {0})))
      → Polls s over r
      → ((s' : KcpStream) → Waits s over s' → Ends overs s')
      → (t : KcpStream) × (after_poll (close_all overs) r ≡ some t) × Closes s t
  unfolding after_poll
  polled over overs s (s', ready r) closes again = (s', refl, closes)
  polled over overs s (s', pending) waits again = Ends-later overs s s' waits.0 (again s' waits)

  after_wait :
      (n : ℕ) (s s' : KcpStream)
      → ((s' : KcpStream) → waits_of s' < n → Ends (replicate n true) s')
      → waits_of s < suc n
      → Waits s true s'
      → Ends (replicate n true) s'
  after_wait n s s' again h (same, less, inl never) = absurd (ground arith)
  after_wait n s s' again h (same, less, inr fewer) = again s' (omega arith)

  all_over : (n : ℕ) (s : KcpStream) → waits_of s < n → Ends (replicate n true) s
  unfolding close_all
  all_over zero s h = absurd (omega arith)
  all_over (suc n) s h =
      polled true (replicate n true) s (poll_close s true) (poll_close-Polls s true)
        λ s' waits. after_wait n s s' (all_over n) h waits

  close_all-Ends :
      (overs : List Bool) (n : ℕ) (s : KcpStream)
      → waits_of s < n
      → Ends (overs ++ replicate n true) s
  unfolding close_all
  close_all-Ends [] n s h = all_over n s h
  close_all-Ends (over ∷ overs) n s h =
      polled over (overs ++ replicate n true) s (poll_close s over) (poll_close-Polls s over)
        λ s' waits. close_all-Ends overs n s' (omega (arith, waits.1))

  -- A poll that ends finds the task over, when its handle is held; one that is pending keeps the handle.
  abbrev Joins : Bool → KcpStream × Poll (Io (Unit {0})) → Type 0
  Joins over (s', ready r) = over ≡ true
  Joins over (s', pending) = s'.task ≡ true

  join_task-Joins :
      (s : KcpStream) (held over : Bool)
      → held ≡ true
      → s.task ≡ true
      → Joins over (join_task s held over)
  unfolding join_task
  join_task-Joins s false over e e' = absurd (ground arith)
  join_task-Joins s true true e e' = refl
  join_task-Joins s true false e e' = e'

  poll_close-Joins :
      (s : KcpStream) (over : Bool) (r : C.input.State × Poll Bool)
      → s.task ≡ true
      → Joins over (after_close s over r)
  unfolding after_close try_close
  poll_close-Joins s over (sink, pending) held = held
  poll_close-Joins s over (sink, ready okay) held =
      join_task-Joins (try_close (record s { input_sink = sink })) s.task over held held

  -- One more poll, at which the task is not over, changes nothing.
  abbrev Awaits : List Bool → KcpStream → Type 0
  Awaits before s = close_all (before ++ (false ∷ [])) s ≡ close_all before s

  Awaits-none :
      (r : KcpStream × Poll (Io (Unit {0}))) → Joins false r → after_poll (close_all []) r ≡ none
  unfolding after_poll close_all
  Awaits-none (s', ready r) never = absurd (ground arith)
  Awaits-none (s', pending) held = refl

  Awaits-later :
      (before : List Bool) (over : Bool) (r : KcpStream × Poll (Io (Unit {0})))
      → Joins over r
      → ((s' : KcpStream) → s'.task ≡ true → Awaits before s')
      → after_poll (close_all (before ++ (false ∷ []))) r ≡ after_poll (close_all before) r
  unfolding after_poll
  Awaits-later before over (s', ready r) joins again = refl
  Awaits-later before over (s', pending) held again = again s' held

  close_all-Awaits : (before : List Bool) (s : KcpStream) → s.task ≡ true → Awaits before s
  unfolding close_all poll_close
  close_all-Awaits [] s held = Awaits-none (poll_close s false) (poll_close-Joins s false _ held)
  close_all-Awaits (over ∷ before) s held =
      Awaits-later before over (poll_close s over) (poll_close-Joins s over _ held)
        (close_all-Awaits before)

  -- With channels that keep their laws: `close` of a stream that holds its task does not end at a poll
  -- that does not find the task over, whatever polls came before; and `close` ends when the task
  -- does, once as many polls follow as the closing of the input channel can still be pending, and
  -- one more. The token is then cancelled, the task's handle gone, and what had come and was not
  -- read is still there.
  pub close_all-Closes :
      (overs before : List Bool) (n : ℕ) (s : KcpStream)
      → waits_of s < n
      → ((s.task ≡ false) ⊎ (close_all (before ++ (false ∷ [])) s ≡ close_all before s))
        × Ends (overs ++ replicate n true) s
  close_all-Closes overs before n s h = (
    elim (Bool-cases s.task) [
      | inl held ↦ inr (close_all-Awaits before s held)
      | inr gone ↦ inl gone
    ],
    close_all-Ends overs n s h,
  )

  -- A stream that was not connected: it is closed, and dropped.
  abbrev Fails : KcpStream → Option (KcpStream × Io (Unit {0})) → Type 0
  Fails s r = (s' : KcpStream) × (r ≡ some (s', err timed_out)) × Closes s s'

  Closes-try_close : (s s' : KcpStream) → Closes s s' → Closes s (try_close s')
  unfolding try_close
  Closes-try_close s s' (token, gone, same) = (refl, gone, unread-try_close s' ∙ same)

  fails :
      (s : KcpStream) (overs : List Bool)
      → Ends overs s
      → Fails s (close_all overs s >>= λ s'. some (try_close s', err timed_out))
  fails s overs (s', run, closes) = (
    try_close s',
    ap (λ o. o >>= λ t. some (try_close t, err timed_out)) run,
    Closes-try_close s s' closes,
  )

  -- What `accept` gives: `valid` is whether the number is, `s` the new stream.
  abbrev pub Outcome :
      Bool → Option Output → KcpStream → Option (Option KcpStream × Io (Unit {0})) → Type 0
  Outcome false answer s r = r ≡ some (none, err invalid_input)
  Outcome true (some (established conv)) s r = r ≡ some (some (record s { conv = conv }), ok tt)
  Outcome true (some (frame x)) s r =
      (s' : KcpStream) × (r ≡ some (some s', err timed_out)) × Closes s s'
  Outcome true none s r = (s' : KcpStream) × (r ≡ some (some s', err timed_out)) × Closes s s'

  wait_connection-Outcome :
      (config : KcpConfig) (p : Spawned) (a : Option Output) (overs : List Bool) (n : ℕ)
      → closing.waits p.input < n
      → Outcome true a (stream_of config p) (
          wait_connection (stream_of config p) a (overs ++ replicate n true) >>= λ r.
          some (some r.0, r.1))
  unfolding wait_connection stream_new
  wait_connection-Outcome config p (some (established c)) overs n h = refl
  wait_connection-Outcome config p (some (frame x)) overs n h =
      let s = stream_of config p in
      let (s', run, closes) = fails s (overs ++ replicate n true) (close_all-Ends overs n s h) in
      (s', ap (λ o. o >>= λ r. some (some r.0, r.1)) run, closes)
  wait_connection-Outcome config p none overs n h =
      let s = stream_of config p in
      let (s', run, closes) = fails s (overs ++ replicate n true) (close_all-Ends overs n s h) in
      (s', ap (λ o. o >>= λ r. some (some r.0, r.1)) run, closes)

  -- With channels that keep their laws and tasks that end, `accept` returns: InvalidInput without a
  -- stream for a number that is not valid; else the stream with the number of the task's first
  -- message, when that is the one of the connection; else TimedOut with the stream closed, its
  -- token cancelled and its task's handle gone. `connect` returns in the same two ways, by the first
  -- message of a task with the number of the SYN handshake.
  pub accept-Outcome :
      (config : KcpConfig) (conv : ℕ) (spawn : Spawn) (overs : List Bool) (n : ℕ)
      → closing.waits (spawn_task spawn config conv).input < n
      → closing.waits (spawn_task spawn config syn_conv).input < n
      → Outcome
          (is_valid_conv conv)
          (spawn_task spawn config conv).answer
          (stream_of config (spawn_task spawn config conv))
          (accept config conv spawn (overs ++ replicate n true))
        × Outcome true
            (spawn_task spawn config syn_conv).answer
            (stream_of config (spawn_task spawn config syn_conv))
            (connect config spawn (overs ++ replicate n true) >>= λ r. some (some r.0, r.1))
  unfolding accept connect
  accept-Outcome config conv spawn overs n h h' =
      let p = spawn_task spawn config conv in
      let q = spawn_task spawn config syn_conv in
      (
        elim (Bool-cases (is_valid_conv conv)) [
          | inl valid ↦ rw valid (wait_connection-Outcome config p p.answer overs n h)
          | inr invalid ↦ rw invalid refl
        ],
        wait_connection-Outcome config q q.answer overs n h',
      )
