-- ===== src/Stream/Delivery/Fetching.antt =====
-- src/stream.rs: `kcp_recv` and the loop of `run` that hands over what it gives, without a loss and in
-- order.
use kcp_rs.Base.{
  ◌≡◌, refl, ap, ◌∙◌, true, Option, none, some, List, [], ◌∷◌, ◌++◌, first, Bytes, length,
  if◌then◌else◌, arith, ◌⊎◌, inl, inr, Bool-cases, ok,
}
use kcp_rs.Ffi.{Engine}
use kcp_rs.Ffi.Laws.{ArrivalLaws}
use kcp_rs.Protocol.Kcp
use kcp_rs.Protocol.Kcp.{Kcp}
use kcp_rs.Protocol.Kcp.Recv.{recv_bytes-reads, recv_bytes-empty, recv_bytes-nothing}
use kcp_rs.Stream.Flags.{has}
use kcp_rs.Stream.Task.{Task, call, unwrap, pure, kcp_recv, task_monad, ◌>>=◌, is_last_frame}
use kcp_rs.Stream.Task.Steps.{>>=-some, call_ok}
use kcp_rs.Stream.Delivery.{arrived}

module _ ⦃E : Engine⦄ ⦃L : ArrivalLaws E⦄ where
  -- What `recv_bytes` takes from the C library: the first message, or nothing.
  abbrev Takes : Kcp → Kcp → Option Bytes → Type 0
  Takes k k' none = arrived k' ≡ arrived k
  Takes k k' (some x) =
      (rest more : List Bytes) × (arrived k ≡ x ∷ rest)
      × (arrived k' ≡ rest ++ more)
      × (Kcp.nrcv_buf k ≡ 0 → more ≡ [])

  recv_bytes-Takes :
      (k : Kcp) → (k' : Kcp) × (x : Option Bytes) × (Kcp.recv_bytes k ≡ (k', ok x)) × Takes k k' x
  recv_bytes-Takes k = by_messages (arrived k) refl
    where
      by_messages :
          (q : List Bytes)
          → arrived k ≡ q
          → (k' : Kcp) × (x : Option Bytes) × (Kcp.recv_bytes k ≡ (k', ok x)) × Takes k k' x
      by_messages [] e =
          (k, none, recv_bytes-nothing L.recv k (L.next_first k.handle ∙ ap first e), refl)
      by_messages ([] ∷ rest) e =
          (k, none, recv_bytes-empty L.recv k (L.next_first k.handle ∙ ap first e), refl)
      by_messages ((b ∷ x) ∷ rest) e =
          let (k', buf, size, read, run) =
            recv_bytes-reads L.recv k (b ∷ x) (L.next_first k.handle ∙ ap first e) (omega arith)
              L.fresh in
          let (more, taken, last) = L.recv_takes k.handle (b ∷ x) rest buf e size in
          (k', some (b ∷ x), run, (rest, more, e, ap L.messages read ∙ taken, last))

  -- What `kcp_recv` gives: the first message, or nothing; or the last one was dropped, which it does
  -- behind a FIN only.
  abbrev pub Fetches : Task → Kcp → Option Bytes → Type 0
  Fetches t k none =
      (arrived k ≡ arrived t.kcp)
      ⊎ (t.flags.fin_recved ≡ true) × ((x : Bytes) × (arrived t.kcp ≡ x ∷ [])) × (arrived k ≡ [])
  Fetches t k (some x) =
      (rest more : List Bytes) × (arrived t.kcp ≡ x ∷ rest) × (arrived k ≡ rest ++ more)

  none_behind :
      (k : Kcp) (x : Bytes) (rest : List Bytes)
      → Kcp.nrcv_que k ≡ 1
      → arrived k ≡ x ∷ rest
      → rest ≡ []
  none_behind k x [] e q = refl
  none_behind k x (y ∷ rest) e q = absurd (omega (arith, L.queue_room k.handle, ap length q))

  dropped :
      (t : Task) (k : Kcp) (x : Option Bytes)
      → is_last_frame t ≡ true
      → Takes t.kcp k x
      → Fetches t k none
  unfolding has
  dropped t k none last same = inl same
  dropped t k (some x) last (rest, more, before, after, none_more) =
      let que : Kcp.nrcv_que t.kcp ≡ 1 = ground arith in
      let buf : Kcp.nrcv_buf t.kcp ≡ 0 = ground arith in
      let alone = none_behind t.kcp x rest que before in
      inr (
        ground arith,
        (x, before ∙ ap (◌∷◌ x) alone),
        after ∙ ap (λ l. l ++ more) alone ∙ none_more buf,
      )

  taken : (t : Task) (k : Kcp) (x : Option Bytes) → Takes t.kcp k x → Fetches t k x
  taken t k none same = inl same
  taken t k (some x) (rest, more, before, after, none_more) = (rest, more, before, after)

  kcp_recv-run :
      (t : Task) (k : Kcp) (x : Option Bytes)
      → Kcp.recv_bytes t.kcp ≡ (k, ok x)
      → kcp_recv t ≡ some (if is_last_frame t then none else x, record t { kcp = k })
  unfolding kcp_recv task_monad
  kcp_recv-run t k x run =
      >>=-some (call Kcp.recv_bytes)
        (λ r. unwrap r >>= λ x. pure (if is_last_frame t then none else x)) t
        (call_ok Kcp.recv_bytes t run)

  pub kcp_recv-Fetches :
      (t : Task)
      → (k : Kcp) × (x : Option Bytes) × (kcp_recv t ≡ some (x, record t { kcp = k }))
        × Fetches t k x
  kcp_recv-Fetches t =
      let (k, x, run, takes) = recv_bytes-Takes t.kcp in
      elim (Bool-cases (is_last_frame t)) [
        | inl last ↦ (k, none, kcp_recv-run t k x run ∙ rw last refl, dropped t k x last takes)
        | inr not_last ↦ (k, x, kcp_recv-run t k x run ∙ rw not_last refl, taken t k x takes)
      ]
