-- ===== src/HalfClose/Counter.antt =====
-- src/halfclose.rs: the counter of the pool, and that `shutdown` returns.
use kcp_rs.Base.{
  ℕ, zero, suc, ◌-◌, ◌%◌, ◌^◌, ◌<◌, ◌≡◌, refl, ap, true, Option, none, some, List, [], ◌∷◌, ◌++◌,
  Bytes, get_elem?, set, length, length-set, ◌==◌, Bool-cases, Option-cases, ◌⊎◌, inl, inr, arith,
}
use kcp_rs.HalfClose.{
  HalfClose, Inputs, poll_task, HalfClosePool, Caller, waiting, woken, returned, pool_default,
  create_task, Notify, NotifyLaws, Woke, this_one, later_one, waiters, drop_task, put_at, settle,
  poll_found, poll_nth, shutdown, poll_caller_at, poll_caller, create_step, poll_step,
  shutdown_step, caller_step, PoolReachable, at_first, then_step,
}

-- The counter is the number of the tasks; the pool is cancelled before a caller waits; and a caller who
-- is the only one waits only while there is a task.
pub record Counted (p : HalfClosePool) : Type 0 where
  pub counts : p.task_count ≡ length p.tasks % 2 ^ 64
  pub told : 0 < length p.callers → p.cancelled ≡ true
  pub waits : p.callers ≡ waiting ∷ [] → 0 < length p.tasks

abbrev pub one_less : Option HalfClose → ℕ → ℕ
one_less none n = n - 1
one_less (some t) n = n

pub length-put_at :
    (i : ℕ) (left : Option HalfClose) (ts : List HalfClose)
    → i < length ts
    → length (put_at i left ts) ≡ one_less left (length ts)
unfolding put_at
length-put_at i left [] h = absurd (omega arith)
length-put_at zero none (t ∷ ts) h = omega arith
length-put_at zero (some t') (t ∷ ts) h = refl
length-put_at (suc i) none (t ∷ ts) h = omega (arith, length-put_at i none ts (omega arith))
length-put_at (suc i) (some t') (t ∷ ts) h =
    omega (arith, length-put_at i (some t') ts (omega arith))

get_elem?-bound :
    {A : Type 0} (xs : List A) (i : ℕ) (x : A) → get_elem? xs i ≡ some x → i < length xs
get_elem?-bound [] i x e = absurd (ground arith)
get_elem?-bound (y ∷ xs) zero x e = omega arith
get_elem?-bound (y ∷ xs) (suc i) x e = omega (arith, get_elem?-bound xs i x e)

Counted-at_first : Counted pool_default
unfolding pool_default
Counted-at_first = record {
  counts = omega arith;
  told = λ h. absurd (omega arith);
  waits = λ e. absurd (ground arith);
}

Counted-create :
    (p : HalfClosePool) (packet : Bytes) (secs : ℕ)
    → Counted p
    → Counted (create_task packet secs p)
unfolding create_task
Counted-create p packet secs c = record {
  counts = omega (arith, c.counts);
  told = c.told;
  waits = λ e. omega arith;
}

Counted-shutdown : (p : HalfClosePool) → Counted p → Counted (shutdown p)
unfolding shutdown
Counted-shutdown p c = record {
  counts = c.counts;
  told = λ h. refl;
  waits = λ e. absurd (not_waiting p.callers e);
}
  where
    not_waiting : (cs : List Caller) → ¬ (cs ++ (woken ∷ []) ≡ waiting ∷ [])
    not_waiting [] e = ground arith
    not_waiting (c ∷ []) e = ground arith
    not_waiting (c ∷ d ∷ cs) e = ground arith

pub length-Woke : (cs cs' : List Caller) → Woke cs cs' → length cs' ≡ length cs
length-Woke _ _ (this_one cs) = refl
length-Woke _ _ (later_one c cs cs' w) = omega (arith, length-Woke cs cs' w)

-- A caller who was woken does not wait.
Woke-alone : (cs cs' : List Caller) → Woke cs cs' → ¬ (cs' ≡ waiting ∷ [])
Woke-alone _ _ (this_one cs) e = ground arith
Woke-alone _ _ (later_one c _ _ (this_one cs)) e = absurd (omega (arith, ap length e))
Woke-alone _ _ (later_one c _ _ (later_one d cs cs' w)) e = absurd (omega (arith, ap length e))

Woke-some : (cs cs' : List Caller) → Woke cs cs' → 0 < length cs
Woke-some _ _ (this_one cs) = omega arith
Woke-some _ _ (later_one c cs cs' w) = omega arith

module _ ⦃N : Notify⦄ (laws : NotifyLaws) where
  -- What `notify_one` does with the callers.
  pub wakes :
      (cs : List Caller)
      → ((waiters cs ≡ 0) × (N.wake cs ≡ none))
        ⊎ ((cs' : List Caller) × (N.wake cs ≡ some cs') × Woke cs cs')
  wakes cs = elim (Bool-cases (waiters cs == 0)) [
    | inl none_wait ↦ let e : waiters cs ≡ 0 = ground arith in inl (e, laws.nobody_waits cs e)
    | inr some_wait ↦ inr (laws.one_woken cs (ground arith))
  ]

  Counted-drop :
      (p : HalfClosePool)
      → p.task_count ≡ suc (length p.tasks) % 2 ^ 64
      → (0 < length p.callers → p.cancelled ≡ true)
      → Counted (drop_task p)
  unfolding drop_task
  Counted-drop p counts told = elim (wakes p.callers) [
    | inl (nobody, out) ↦ rw out (record {
      counts = omega (arith, counts);
      told = told;
      waits = λ e. absurd (omega (arith, nobody, ap waiters e));
    })
    | inr (cs, out, woke) ↦ rw out (record {
      counts = omega (arith, counts);
      told = λ h. told (Woke-some p.callers cs woke);
      waits = λ e. absurd (Woke-alone p.callers cs woke e);
    })
  ]

  Counted-settle :
      (i : ℕ) (p : HalfClosePool) (left : Option HalfClose)
      → i < length p.tasks
      → Counted p
      → Counted (settle left (record p { tasks = put_at i left p.tasks }))
  unfolding settle
  Counted-settle i p none h c =
      Counted-drop (record p { tasks = put_at i none p.tasks })
        (omega (arith, c.counts, length-put_at i none p.tasks h)) c.told
  Counted-settle i p (some t) h c = record {
    counts = omega (arith, c.counts, length-put_at i (some t) p.tasks h);
    told = c.told;
    waits = λ e. omega (arith, c.waits e, length-put_at i (some t) p.tasks h);
  }

  Counted-poll :
      (inputs : Inputs) (i : ℕ) (p : HalfClosePool) → Counted p → Counted (poll_nth inputs i p).0
  unfolding poll_nth poll_found
  Counted-poll inputs i p c = elim (Option-cases (get_elem? p.tasks i)) [
    | inl out ↦ rw out c
    | inr (t, out) ↦
        rw out (
          Counted-settle i p (poll_task p.cancelled inputs t).0 (get_elem?-bound p.tasks i t out) c)
  ]

  set-returned :
      (cs : List Caller) (i : ℕ)
      → get_elem? cs i ≡ some woken
      → ¬ (set cs i returned ≡ waiting ∷ [])
  set-returned [] i found e = ground arith
  set-returned (c ∷ []) zero found e = ground arith
  set-returned (c ∷ []) (suc i) found e = ground arith
  set-returned (c ∷ d ∷ cs) zero found e = ground arith
  set-returned (c ∷ d ∷ cs) (suc i) found e =
      absurd (omega (arith, length-set (d ∷ cs) i returned, ap length e))

  Counted-woken :
      (i : ℕ) (p : HalfClosePool)
      → get_elem? p.callers i ≡ some woken
      → Counted p
      → Counted (poll_caller_at i p (some woken))
  unfolding poll_caller_at
  Counted-woken i p found c = elim (Bool-cases (p.task_count == 0)) [
    | inl done ↦ rw done (record {
      counts = c.counts;
      told = λ h. c.told (omega (arith, length-set p.callers i returned));
      waits = λ e. absurd (set-returned p.callers i found e);
    })
    | inr more ↦ rw more (record {
      counts = c.counts;
      told = λ h. c.told (omega (arith, length-set p.callers i waiting));
      waits = λ e. ground (arith, c.counts);
    })
  ]

  Counted-caller : (i : ℕ) (p : HalfClosePool) → Counted p → Counted (poll_caller i p)
  unfolding poll_caller poll_caller_at
  Counted-caller i p c = at_place (get_elem? p.callers i) refl
    where
      at_place : (o : Option Caller) → get_elem? p.callers i ≡ o → Counted (poll_caller_at i p o)
      at_place none found = c
      at_place (some waiting) found = c
      at_place (some returned) found = c
      at_place (some woken) found = Counted-woken i p found c

  -- In every state that the pool can reach the counter is the number of the tasks modulo 2 ^ 64, a
  -- pool with a caller of `shutdown` is cancelled, and a caller who is the only one and waits has a
  -- task to wait for: no wake-up is lost.
  pub PoolReachable-Counted : (p : HalfClosePool) → PoolReachable p → Counted p
  PoolReachable-Counted p at_first = Counted-at_first
  PoolReachable-Counted q (then_step p _ reached (create_step _ packet secs)) =
      Counted-create p packet secs (PoolReachable-Counted p reached)
  PoolReachable-Counted q (then_step p _ reached (poll_step _ inputs i)) =
      Counted-poll inputs i p (PoolReachable-Counted p reached)
  PoolReachable-Counted q (then_step p _ reached (shutdown_step _)) =
      Counted-shutdown p (PoolReachable-Counted p reached)
  PoolReachable-Counted q (then_step p _ reached (caller_step _ i)) =
      Counted-caller i p (PoolReachable-Counted p reached)
