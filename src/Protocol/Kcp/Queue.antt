-- ===== src/Protocol/Kcp/Queue.antt =====
-- src/protocol.rs: the queue between the C library's `output` callback and the task.
use mathlib.Core.Path.{subst}
use kcp_rs.Base.{
  ℕ, ◌≡◌, refl, sym, ap, ◌∙◌, Bool, true, false, Option, none, some, List, [], ◌∷◌, ◌++◌,
  append-nil, append_assoc, Bytes, length, take, drop, take-length, drop-length, first, ltb,
  if◌then◌else◌, Io, ok, err, panic,
}
use kcp_rs.Ffi.{Ikcpcb, Engine}
use kcp_rs.Protocol.Kcp.{
  Kcp, new, output, outputs, flush, update, pop_front, pop_output, has_output, peek, recv,
  recv_done, recv_bytes, send, input, set_mtu, set_nodelay, set_wndsize, set_conv, set_stream,
  set_logmask,
}

-- What a call of `pop_output` has given.
abbrev pub to_list : Option Bytes → List Bytes
to_list none = []
to_list (some p) = p ∷ []

module _ ⦃E : Engine⦄ where
  abbrev queued : Kcp → List Bytes → Kcp
  queued k bufs = record k { output_queue = k.output_queue ++ bufs }

  output-queued : (k : Kcp) (buf : Bytes) → k.write_buf ≡ [] → output k buf ≡ queued k (buf ∷ [])
  unfolding output
  output-queued k buf e i = record k {
    write_buf = (ap (λ w. drop (length buf) (w ++ buf)) e ∙ drop-length buf ∙ sym e) i;
    output_queue =
        k.output_queue ++ ((ap (λ w. take (length buf) (w ++ buf)) e ∙ take-length buf) i ∷ []);
  }

  outputs-queued : (k : Kcp) (bufs : List Bytes) → k.write_buf ≡ [] → outputs k bufs ≡ queued k bufs
  unfolding outputs
  outputs-queued k [] e = λ i. record k { output_queue = sym (append-nil k.output_queue) i }
  outputs-queued k (buf ∷ bufs) e =
      ap (λ k. outputs k bufs) (output-queued k buf e)
      ∙ outputs-queued (queued k (buf ∷ [])) bufs e
      ∙ (λ i. record k { output_queue = append_assoc k.output_queue (buf ∷ []) bufs i })

  -- A call of a method that runs no `output` and takes nothing from the queue, whatever it gives.
  pub data Calls : Kcp → Kcp → Type 0 where
    peeks : (k : Kcp) (buf : Bytes) → Calls k (peek k buf).0
    receives : (k : Kcp) (buf : Bytes) → Calls k (recv k buf).0
    receives_bytes : (k : Kcp) → Calls k (recv_bytes k).0
    sends : (k : Kcp) (x : Bytes) → Calls k (send k x).0
    inputs : (k : Kcp) (packet : Bytes) → Calls k (input k packet).0
    sets_mtu : (k : Kcp) (mtu : ℕ) → Calls k (set_mtu k mtu).0
    sets_nodelay :
        (k : Kcp) (nodelay : Bool) (interval resend : ℕ) (nc : Bool)
        → Calls k (set_nodelay k nodelay interval resend nc)
    sets_wndsize : (k : Kcp) (sndwnd rcvwnd : ℕ) → Calls k (set_wndsize k sndwnd rcvwnd)
    sets_conv : (k : Kcp) (c : ℕ) → Calls k (set_conv k c)
    sets_stream : (k : Kcp) (stream : Bool) → Calls k (set_stream k stream)
    sets_logmask : (k : Kcp) (mask : ℕ) → Calls k (set_logmask k mask)
    waits : (k : Kcp) (now : ℕ) → Calls k (record k { elapsed = now })

  -- The object after any calls from `new` on, with the packets that the C library has emitted and those
  -- that `pop_output` has given, each in their order.
  pub data Works : Kcp → List Bytes → List Bytes → Type 0 where
    made : (c : ℕ) → Works (new c) [] []
    called :
        {k k' : Kcp} {emitted taken : List Bytes}
        → Works k emitted taken
        → Calls k k'
        → Works k' emitted taken
    flushed :
        {k : Kcp} {emitted taken : List Bytes}
        → Works k emitted taken
        → Works (flush k) (emitted ++ (E.ikcp_flush k.handle).1) taken
    updated :
        {k : Kcp} {emitted taken : List Bytes} (now : ℕ)
        → Works k emitted taken
        → Works (update k now) (emitted ++ (E.ikcp_update k.handle now).1) taken
    popped :
        {k : Kcp} {emitted taken : List Bytes}
        → Works k emitted taken
        → Works (pop_output k).0 emitted (taken ++ to_list (pop_output k).1)

  abbrev Holds : Kcp → List Bytes → List Bytes → Type 0
  Holds k emitted taken = (emitted ≡ taken ++ k.output_queue) × (k.write_buf ≡ [])

  abbrev Keeps : Kcp → Kcp → Type 0
  Keeps k k' = (k'.output_queue ≡ k.output_queue) × (k'.write_buf ≡ k.write_buf)

  recv_done-Keeps : (k : Kcp) (r : Kcp × Bytes × Io ℕ) → Keeps k r.0 → Keeps k (recv_done r).0
  unfolding recv_done
  recv_done-Keeps k (k', buf, ok n) keeps = keeps
  recv_done-Keeps k (k', buf, err e) keeps = keeps
  recv_done-Keeps k (k', buf, panic) keeps = keeps

  if-Keeps :
      {A : Type 0} (b : Bool) (k : Kcp) (r r' : Kcp × A)
      → Keeps k r.0
      → Keeps k r'.0
      → Keeps k (if b then r else r').0
  if-Keeps true k r r' h h' = h
  if-Keeps false k r r' h h' = h'

  Calls-Keeps : {k k' : Kcp} → Calls k k' → Keeps k k'
  unfolding peek recv recv_bytes send input set_mtu set_nodelay set_wndsize set_conv set_stream
      set_logmask
  Calls-Keeps (peeks k buf) = (refl, refl)
  Calls-Keeps (receives k buf) = (refl, refl)
  Calls-Keeps (receives_bytes k) =
      if-Keeps _ k _ (k, ok none) (recv_done-Keeps k _ (refl, refl)) (refl, refl)
  Calls-Keeps (sends k []) = (refl, refl)
  Calls-Keeps (sends k (b ∷ x)) = (refl, refl)
  Calls-Keeps (inputs k packet) = (refl, refl)
  Calls-Keeps (sets_mtu k mtu) = if-Keeps _ k (k, ok tt) _ (refl, refl) (refl, refl)
  Calls-Keeps (sets_nodelay k nodelay interval resend nc) = (refl, refl)
  Calls-Keeps (sets_wndsize k sndwnd rcvwnd) = (refl, refl)
  Calls-Keeps (sets_conv k c) = (refl, refl)
  Calls-Keeps (sets_stream k stream) = (refl, refl)
  Calls-Keeps (sets_logmask k mask) = (refl, refl)
  Calls-Keeps (waits k now) = (refl, refl)

  -- Emitted packets go behind those that wait.
  outputs-Holds :
      (k : Kcp) (cb : Ikcpcb E.Hidden) (emitted taken bufs : List Bytes)
      → Holds k emitted taken
      → Holds (outputs (record k { handle = cb }) bufs) (emitted ++ bufs) taken
  outputs-Holds k cb emitted taken bufs (all, none_left) =
      subst (λ k'. Holds k' (emitted ++ bufs) taken)
        (sym (outputs-queued (record k { handle = cb }) bufs none_left))
        (ap (λ q. q ++ bufs) all ∙ append_assoc taken k.output_queue bufs, none_left)

  pop-Holds :
      (k : Kcp) (emitted taken q : List Bytes)
      → k.output_queue ≡ q
      → Holds k emitted taken
      → Holds (pop_front k q).0 emitted (taken ++ to_list (pop_front k q).1)
  pop-Holds k emitted taken [] e (all, w) =
      (all ∙ ap (λ t. t ++ k.output_queue) (sym (append-nil taken)), w)
  pop-Holds k emitted taken (p ∷ rest) e (all, w) =
      (all ∙ ap (λ q. taken ++ q) e ∙ sym (append_assoc taken (p ∷ []) rest), w)

  Works-Holds :
      {k : Kcp} {emitted taken : List Bytes} → Works k emitted taken → Holds k emitted taken
  unfolding new flush update pop_output
  Works-Holds (made c) = (refl, refl)
  Works-Holds (called {k} {k'} {emitted} {taken} w call) =
      let (all, none_left) = Works-Holds w in
      let (same, same') = Calls-Keeps call in
      (all ∙ ap (λ q. taken ++ q) (sym same), same' ∙ none_left)
  Works-Holds (flushed {k} {emitted} {taken} w) =
      outputs-Holds k (E.ikcp_flush k.handle).0 emitted taken _ (Works-Holds w)
  Works-Holds (updated {k} {emitted} {taken} now w) =
      outputs-Holds k (E.ikcp_update k.handle now).0 emitted taken _ (Works-Holds w)
  Works-Holds (popped {k} {emitted} {taken} w) =
      pop-Holds k emitted taken k.output_queue refl (Works-Holds w)

  pop_front-first : (k : Kcp) (q : List Bytes) → (pop_front k q).1 ≡ first q
  pop_front-first k [] = refl
  pop_front-first k (p ∷ rest) = refl

  -- After any calls from `new` on, the packets that the C library has emitted are those that
  -- `pop_output` has given, followed by those that it is still to give, each once and in their order;
  -- the next `pop_output` gives the first of these, and `has_output` tells whether there is one.
  pub Works-Fifo :
      {k : Kcp} (emitted taken : List Bytes)
      → Works k emitted taken
      → (rest : List Bytes) × (emitted ≡ taken ++ rest)
        × ((pop_output k).1 ≡ first rest)
        × (has_output k ≡ ltb 0 (length rest))
  unfolding pop_output has_output
  Works-Fifo {k} emitted taken w =
      (k.output_queue, (Works-Holds w).0, pop_front-first k k.output_queue, refl)
