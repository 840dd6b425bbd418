-- ===== src/Transport/Closed.antt =====
-- src/transport/mpsc.rs, src/transport/udp.rs: a sink that has been closed.
use kcp_rs.Base.{◌≡◌, refl, ap, map, none, List, [], ◌∷◌, Bytes, not_connected, Io, ok, err}
use kcp_rs.Channels.{Poll, ready, Receiver}
use kcp_rs.Listener.{SocketAddr}
use kcp_rs.Transport.{
  Sink, UnboundedSender, UnboundedSink, unbounded_sink, UdpMpscStream, mpsc_sink,
}

-- The calls of a sink.
pub data SinkCall (Item : Type 0) : Type 0 where
  ready_call flush_call close_call : SinkCall Item
  send_call : Item → SinkCall Item

module _ {Item : Type 0} (Si : Sink Item) where
  abbrev pub call_sink : SinkCall Item → Si.State → Si.State × Poll (Io (Unit {0}))
  call_sink ready_call s = Si.poll_ready s
  call_sink flush_call s = Si.poll_flush s
  call_sink close_call s = Si.poll_close s
  call_sink (send_call item) s = (let (s', r) = Si.start_send s item in (s', ready r))

  -- What a sequence of calls reports.
  unfoldable pub call_all : List (SinkCall Item) → Si.State → List (Poll (Io (Unit {0})))
  call_all [] s = []
  call_all (c ∷ cs) s = let (s', r) = call_sink c s in r ∷ call_all cs s'

-- What a closed sink reports: closing again is no error, all else is.
abbrev pub refusal : {Item : Type 0} → SinkCall Item → Poll (Io (Unit {0}))
refusal close_call = ready (ok tt)
refusal ready_call = ready (err not_connected)
refusal flush_call = ready (err not_connected)
refusal (send_call item) = ready (err not_connected)

abbrev pub refusals : {Item : Type 0} → List (SinkCall Item) → List (Poll (Io (Unit {0})))
refusals cs = map refusal cs

module _ {Item : Type 0} (Si : Sink Item) (IsClosed : Si.State → Type 0) where
  -- A closed sink stays closed and refuses.
  abbrev pub Refuses : Type 0
  Refuses =
      (c : SinkCall Item) (s : Si.State)
      → IsClosed s
      → (IsClosed (call_sink Si c s).0) × ((call_sink Si c s).1 ≡ refusal c)

  call_all-refusals :
      Refuses
      → (cs : List (SinkCall Item)) (s : Si.State) → IsClosed s
      → call_all Si cs s ≡ refusals cs
  unfolding call_all
  call_all-refusals refuses [] s closed = refl
  call_all-refusals refuses (c ∷ cs) s closed =
      let (still, e) = refuses c s closed in rw (e, call_all-refusals refuses cs _ still) refl

unbounded_sink-Refuses :
    {Item : Type 0} (U : UnboundedSender Item) → Refuses (unbounded_sink U) (λ u. u.sender ≡ none)
unbounded_sink-Refuses U ready_call u closed = (closed, rw closed refl)
unbounded_sink-Refuses U flush_call u closed = (closed, rw closed refl)
unbounded_sink-Refuses U close_call u closed = (refl, refl)
unbounded_sink-Refuses U (send_call item) u closed = (rw closed refl, rw closed refl)

mpsc_sink-Refuses :
    (U : UnboundedSender (Bytes × SocketAddr)) (R : Receiver Bytes)
    → Refuses (mpsc_sink U R) (λ u. u.sink ≡ none)
mpsc_sink-Refuses U R ready_call u closed = (closed, rw closed refl)
mpsc_sink-Refuses U R flush_call u closed = (closed, rw closed refl)
mpsc_sink-Refuses U R close_call u closed = (refl, refl)
mpsc_sink-Refuses U R (send_call item) u closed = (rw closed refl, rw closed refl)

-- After `poll_close` of an `UnboundedSink` every call reports NotConnected but `poll_close`, which
-- goes on being Ok, in whatever order the calls come.
pub unbounded_sink-refusals :
    {Item : Type 0} (U : UnboundedSender Item) (cs : List (SinkCall Item)) (u : UnboundedSink U)
    → call_all (unbounded_sink U) (close_call ∷ cs) u ≡ refusals (close_call ∷ cs)
unfolding call_all
unbounded_sink-refusals U cs u = ap (◌∷◌ (ready (ok tt))) (
    call_all-refusals (unbounded_sink U) (λ u'. u'.sender ≡ none) (unbounded_sink-Refuses U) cs _
      refl)

-- After `poll_close` of a `UdpMpscStream` every call of its sink reports NotConnected but
-- `poll_close`, which goes on being Ok, in whatever order the calls come.
mpsc_sink-refusals :
    (U : UnboundedSender (Bytes × SocketAddr)) (R : Receiver Bytes) (cs : List (SinkCall Bytes))
    (u : UdpMpscStream U R)
    → call_all (mpsc_sink U R) (close_call ∷ cs) u ≡ refusals (close_call ∷ cs)
unfolding call_all
mpsc_sink-refusals U R cs u =
    ap (◌∷◌ (ready (ok tt)))
      (call_all-refusals (mpsc_sink U R) (λ u'. u'.sink ≡ none) (mpsc_sink-Refuses U R) cs _ refl)
