-- ===== src/Stream/Delivery/Handing.antt =====
-- src/stream.rs: the loop of `run` that hands frames to the application.
use mathlib.Core.Path.{subst}
use kcp_rs.Base.{
  ◌≡◌, refl, sym, ap, ◌∙◌, Bool, true, false, Option, none, some, List, [], ◌∷◌, ◌++◌, append-nil,
  append_assoc, Bytes, ◌⊎◌, inl, inr,
}
use kcp_rs.Ffi.{Engine}
use kcp_rs.Ffi.Laws.{ArrivalLaws}
use kcp_rs.Protocol.Kcp.{Kcp}
use kcp_rs.Stream.Task.{
  Task, Output, established, frame, M, modify, kcp_recv, task_monad, pure, ◌>>=◌, ◌>>◌,
}
use kcp_rs.Stream.Task.Steps.{>>=-some}
use kcp_rs.Stream.Order.{Ends, Respects, pure-Respects}
use kcp_rs.Stream.Run.{
  send_frame, keep_frame, keep, deliver, deliver_more, send_kept, fetch, again, on_permit,
}
use kcp_rs.Stream.Delivery.{data_frames, arrived, delivery, Still, still_order}
use kcp_rs.Stream.Delivery.Fetching.{Fetches, kcp_recv-Fetches}

pub data_frames-append : (p q : List Output) → data_frames (p ++ q) ≡ data_frames p ++ data_frames q
data_frames-append [] q = refl
data_frames-append (established c ∷ p) q = data_frames-append p q
data_frames-append (frame x ∷ p) q = ap (◌∷◌ x) (data_frames-append p q)

module _ ⦃E : Engine⦄ ⦃L : ArrivalLaws E⦄ where
  -- Nothing is lost, nothing comes twice, and what is new stands behind.
  abbrev pub Extends : Task → Task → Type 0
  Extends t t' = (more : List Bytes) × (delivery t' ≡ delivery t ++ more)

  -- The same, but for the last message behind a FIN, which is dropped with nothing left behind it.
  abbrev pub Delivers : Task → Task → Type 0
  Delivers t t' =
      Extends t t'
      ⊎ (t'.flags.fin_recved ≡ true)
        × (arrived t'.kcp ≡ [])
        × ((last : Bytes) × (more : List Bytes) × (delivery t' ++ (last ∷ []) ≡ delivery t ++ more))

  pub Extends-refl : (t : Task) → Extends t t
  Extends-refl t = ([], sym (append-nil _))

  pub Extends-trans : (t u v : Task) → Extends t u → Extends u v → Extends t v
  Extends-trans t u v (more, e) (more', e') =
      (more ++ more', e' ∙ ap (λ l. l ++ more') e ∙ append_assoc (delivery t) more more')

  pub Extends-Delivers : (t u v : Task) → Extends t u → Delivers u v → Delivers t v
  Extends-Delivers t u v a (inl b) = inl (Extends-trans t u v a b)
  Extends-Delivers t u v (more, e) (inr (fin, empty, (last, more', e'))) = inr (
    fin,
    empty,
    (last, more ++ more', e' ∙ ap (λ l. l ++ more') e ∙ append_assoc (delivery t) more more'),
  )

  pub Extends-of_Still : (t u : Task) → Still t u → delivery u ≡ delivery t
  Extends-of_Still t u h = rw (h.sent_same, h.kept_same, h.arrived_same) refl

  pub Delivers-Still : (t u v : Task) → Delivers t u → Still u v → Delivers t v
  Delivers-Still t u v (inl (more, e)) h = inl (more, Extends-of_Still u v h ∙ e)
  Delivers-Still t u v (inr (fin, empty, (last, more, e))) h = inr (
    h.fin_same ∙ fin,
    h.arrived_same ∙ empty,
    (last, more, ap (λ l. l ++ (last ∷ [])) (Extends-of_Still u v h) ∙ e),
  )

  -- There was nothing, or the frame of the FIN; no frame is kept.
  nothing-Delivers :
      (t : Task) (k : Kcp) (x : Option Bytes)
      → t.tx_frame ≡ none
      → x ≡ none
      → Fetches t k none
      → Delivers t (record t { kcp = k; tx_frame = x })
  nothing-Delivers t k x e e' (inl same) = inl ([], simp (e, e', same, append-nil))
  nothing-Delivers t k x e e' (inr (fin, (last, before), after)) =
      inr (fin, after, (last, [], simp (e, e', before, after, append-nil)))

  -- What `kcp_recv` gives is kept for the application.
  kept-Delivers :
      (t : Task) (k : Kcp) (x : Option Bytes)
      → t.tx_frame ≡ none
      → Fetches t k x
      → Delivers t (record t { kcp = k; tx_frame = x })
  kept-Delivers t k none e f = nothing-Delivers t k none e refl f
  kept-Delivers t k (some x) e (rest, more, before, after) =
      inl (more, simp (e, before, after, append_assoc))

  -- It is handed over at once.
  sent-Extends :
      (t : Task) (k : Kcp) (x : Bytes)
      → t.tx_frame ≡ none
      → Fetches t k (some x)
      → Extends t (send_frame x (record t { kcp = k }))
  sent-Extends t k x e (rest, more, before, after) =
      (more, simp (e, before, after, data_frames-append, append_assoc))

  recv-Ends :
      {B : Type 0} (f : Option Bytes → M B) (t : Task)
      → ((k : Kcp) (x : Option Bytes)
          → Fetches t k x
          → Ends (Delivers t) (f x (record t { kcp = k })))
      → Ends (Delivers t) ((kcp_recv >>= f) t)
  recv-Ends f t h =
      let (k, x, run, fetches) = kcp_recv-Fetches t in
      subst (Ends (Delivers t)) (sym (>>=-some kcp_recv f t run)) (h k x fetches)

  keep-Ends :
      (t : Task) (k : Kcp) (x : Option Bytes)
      → t.tx_frame ≡ none
      → Fetches t k x
      → Ends (Delivers t) (keep x (record t { kcp = k }))
  unfolding keep task_monad
  keep-Ends t k none e f = nothing-Delivers t k t.tx_frame e e f
  keep-Ends t k (some x) e f = kept-Delivers t k (some x) e f

  pub Delivers-after :
      {B : Type 0} (t u : Task) (r : Option (B × Task))
      → Extends t u
      → Ends (Delivers u) r
      → Ends (Delivers t) r
  Delivers-after t u none a b = tt
  Delivers-after t u (some (b, v)) a h = Extends-Delivers t u v a h

  Ends-then_Still :
      {B : Type 0} (t u : Task) (r : Option (B × Task))
      → Delivers t u
      → Ends (Still u) r
      → Ends (Delivers t) r
  Ends-then_Still t u none d h = tt
  Ends-then_Still t u (some (b, v)) d h = Delivers-Still t u v d h

  -- What comes behind does not read.
  pub then-Ends :
      {A B : Type 0} (t : Task) (m : M A) (n : M B)
      → Ends (Delivers t) (m t)
      → Respects still_order n
      → Ends (Delivers t) ((m >> n) t)
  unfolding ◌>>◌ ◌>>=◌
  then-Ends {A = A} {B = B} t m n h hn = by_run (m t) h
    where
      by_run :
          (r : Option (A × Task))
          → Ends (Delivers t) r
          → Ends
              (Delivers t)
              (elim r as (λ _. Option (B × Task)) [ none ↦ none | some (a, u) ↦ n u ])
      by_run none h = tt
      by_run (some (a, u)) h = Ends-then_Still t u (n u) h (hn.from u)

  deliver-Ends :
      (t : Task) (k : Kcp) (x : Option Bytes) (next : M (Unit {0}))
      → t.tx_frame ≡ none
      → Fetches t k x
      → ((u : Task) → u.tx_frame ≡ none → Ends (Delivers u) (next u))
      → Ends (Delivers t) (deliver x next (record t { kcp = k }))
  unfolding deliver task_monad
  deliver-Ends t k none next e f h = nothing-Delivers t k t.tx_frame e e f
  deliver-Ends t k (some x) next e f h =
      let u = send_frame x (record t { kcp = k }) in
      Delivers-after t u (next u) (sent-Extends t k x e f) (h u e)

  deliver_more-Ends :
      (more : List Bool) (t : Task) → t.tx_frame ≡ none → Ends (Delivers t) (deliver_more more t)
  unfolding deliver_more
  deliver_more-Ends [] t e = recv-Ends keep t λ k x. keep-Ends t k x e
  deliver_more-Ends (false ∷ more) t e = recv-Ends keep t λ k x. keep-Ends t k x e
  deliver_more-Ends (true ∷ more) t e =
      recv-Ends _ t λ k x f. deliver-Ends t k x (deliver_more more) e f (deliver_more-Ends more)

  -- The kept frame goes first.
  send_kept-delivery :
      (t : Task) (x : Option Bytes) → t.tx_frame ≡ x → delivery (send_kept x t) ≡ delivery t
  send_kept-delivery t none e = refl
  send_kept-delivery t (some x) e = simp (e, data_frames-append, append_assoc)

  send_kept-none : (t : Task) (x : Option Bytes) → t.tx_frame ≡ x → (send_kept x t).tx_frame ≡ none
  send_kept-none t none e = e
  send_kept-none t (some x) e = refl

  pub on_permit-Ends :
      (okay : Bool) (more : List Bool) (t : Task) → Ends (Delivers t) (on_permit okay more t)
  unfolding on_permit task_monad
  on_permit-Ends false more t = inl (Extends-refl t)
  on_permit-Ends true more t =
      let u = send_kept t.tx_frame t in
      Delivers-after t u _ ([], send_kept-delivery t t.tx_frame refl ∙ sym (append-nil _))
        (then-Ends u (deliver_more more) (pure again)
          (deliver_more-Ends more u (send_kept-none t t.tx_frame refl)) (pure-Respects again))

  -- A frame is fetched when none is kept.
  pub fetch-Ends : (t : Task) → Ends (Delivers t) (fetch t.tx_frame t)
  unfolding fetch task_monad
  fetch-Ends t = by_frame t.tx_frame refl
    where
      by_frame : (x : Option Bytes) → t.tx_frame ≡ x → Ends (Delivers t) (fetch x t)
      by_frame none e = recv-Ends (λ x. modify (keep_frame x)) t λ k x. kept-Delivers t k x e
      by_frame (some x) e = inl (Extends-refl t)
