-- ===== src/Stream/Order.antt =====
-- src/stream.rs: what the methods of the task do not undo. A method relates the state before it to
-- the state that it leaves; the rules here carry a reflexive and transitive relation through the
-- steps of a method.
pub mod Quiet
pub mod Walk
pub mod Follows
use kcp_rs.Base.{ℕ, ◌≡◌, Bool, true, false, Option, none, some, Io, ok, err, panic, if◌then◌else◌}
use kcp_rs.Ffi.{Engine}
use kcp_rs.Protocol.Kcp.{Kcp}
use kcp_rs.Stream.Task.{
  Task, M, Answer, done, failed, pure, gets, modify, checked, call, settle, on_kcp, unwrap, ◌>>=◌,
  ◌>>◌,
}

module _ ⦃E : Engine⦄ where
  -- Reflexive and transitive.
  pub record Order : Type 1 where
    pub Rel : Task → Task → Type 0
    pub rel_refl : (t : Task) → Rel t t
    pub rel_trans : (t u v : Task) → Rel t u → Rel u v → Rel t v

  -- An order that does not look at the connection.
  pub record Indifferent (o : Order) : Type 0 where
    pub rel_kcp : (t : Task) (k : Kcp) → o.Rel t (record t { kcp = k })

  -- What holds of the state that a method leaves, if it does not panic.
  abbrev pub Ends : {A : Type 0} → (Task → Type 0) → Option (A × Task) → Type 0
  Ends P none = Unit {0}
  Ends P (some (a, t)) = P t

  pub record Respects (o : Order) {A : Type 0} (m : M A) : Type 0 where
    pub from : (t : Task) → Ends (o.Rel t) (m t)

  module _ (o : Order) where
    pub Ends-after :
        {B : Type 0} (t u : Task) (r : Option (B × Task))
        → o.Rel t u
        → Ends (o.Rel u) r
        → Ends (o.Rel t) r
    Ends-after t u none h k = tt
    Ends-after t u (some (b, v)) h k = o.rel_trans t u v h k

    pub bind-Ends :
        {A B : Type 0} (t : Task) (r : Option (A × Task)) (f : A → M B)
        → Ends (o.Rel t) r
        → ((a : A) → Respects o (f a))
        → Ends (o.Rel t) (elim r as (λ _. Option (B × Task)) [ none ↦ none | some (a, u) ↦ f a u ])
    bind-Ends t none f h hf = tt
    bind-Ends t (some (a, u)) f h hf = Ends-after t u (f a u) h ((hf a).from u)

    pub settle-Ends :
        {A : Type 0} (t : Task) (r : Kcp × Io A)
        → o.Rel t (record t { kcp = r.0 })
        → Ends (o.Rel t) (settle t r)
    settle-Ends t (k, ok a) h = h
    settle-Ends t (k, err e) h = h
    settle-Ends t (k, panic) h = tt

  module _ {o : Order} where
    pub >>=-Respects :
        {A B : Type 0} {m : M A} {f : A → M B}
        → Respects o m
        → ((a : A) → Respects o (f a))
        → Respects o (m >>= f)
    unfolding ◌>>=◌
    >>=-Respects {m = m} {f = f} hm hf = record { from = λ t. bind-Ends o t (m t) f (hm.from t) hf }

    pub >>-Respects :
        {A B : Type 0} {m : M A} {k : M B} → Respects o m → Respects o k → Respects o (m >> k)
    unfolding ◌>>=◌ ◌>>◌
    >>-Respects {m = m} {k = k} hm hk = record {
      from = λ t. bind-Ends o t (m t) (λ _. k) (hm.from t) (λ _. hk);
    }

    pub pure-Respects : {A : Type 0} (a : A) → Respects o (pure a)
    unfolding pure
    pure-Respects a = record { from = o.rel_refl }

    pub gets-Respects : {A : Type 0} (f : Task → A) → Respects o (gets f)
    unfolding gets
    gets-Respects f = record { from = o.rel_refl }

    pub checked-Respects : {A : Type 0} (x : Option A) → Respects o (checked x)
    unfolding checked
    checked-Respects none = record { from = λ t. tt }
    checked-Respects (some a) = record { from = o.rel_refl }

    pub unwrap-Respects : {A : Type 0} (x : Answer A) → Respects o (unwrap x)
    unfolding unwrap
    unwrap-Respects (done a) = record { from = o.rel_refl }
    unwrap-Respects (failed e) = record { from = λ t. tt }

    pub on_kcp-Respects : ⦃I : Indifferent o⦄ → (f : Kcp → Kcp) → Respects o (on_kcp f)
    unfolding on_kcp
    on_kcp-Respects ⦃I = I⦄ f = record { from = λ t. I.rel_kcp t (f t.kcp) }

    pub modify-Respects : (f : Task → Task) → ((t : Task) → o.Rel t (f t)) → Respects o (modify f)
    unfolding modify
    modify-Respects f h = record { from = h }

    pub call-Respects :
        {A : Type 0} ⦃I : Indifferent o⦄ → (f : Kcp → Kcp × Io A) → Respects o (call f)
    unfolding call
    call-Respects ⦃I = I⦄ f = record {
      from = λ t. settle-Ends o t (f t.kcp) (I.rel_kcp t (f t.kcp).0);
    }

    pub if-Respects :
        {A : Type 0} (b : Bool) {m n : M A}
        → Respects o m
        → Respects o n
        → Respects o (if b then m else n)
    if-Respects true hm hn = hm
    if-Respects false hm hn = hn

  pub ruleset order_rules = (
    >>=-Respects, >>-Respects, pure-Respects, gets-Respects, checked-Respects, unwrap-Respects,
    on_kcp-Respects, call-Respects, if-Respects,
  )

  -- What a method that respects an order gives at a run that does not panic.
  pub Respects-run :
      (o : Order) {A : Type 0} (m : M A) (t t' : Task) (a : A)
      → Respects o m
      → m t ≡ some (a, t')
      → o.Rel t t'
  Respects-run o m t t' a h e = rw e at (h.from t)
