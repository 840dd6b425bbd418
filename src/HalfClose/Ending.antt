-- ===== src/HalfClose/Ending.antt =====
-- src/halfclose.rs: that `shutdown` returns.
use mathlib.Core.Path.{subst}
use kcp_rs.Base.{
  ℕ, zero, suc, ◌-◌, ◌<◌, ◌≡◌, refl, sym, ap, ◌∙◌, Bool, true, false, none, some, List, [], ◌∷◌,
  get_elem?, length, ◌==◌, ltb, Bool-cases, inl, inr, arith,
}
use kcp_rs.Channels.{Poll, ready, pending}
use kcp_rs.HalfClose.{
  HalfClose, Place, creating, selecting, sending, Inputs, send, loop_head, after_loop_send,
  after_first_send, poll_at, poll_task, HalfClosePool, Caller, waiting, woken, returned, Notify,
  NotifyLaws, drop_task, put_at, settle, poll_found, poll_nth, poll_caller_at, poll_caller,
  poll_step, PoolReachable, then_step,
}
use kcp_rs.HalfClose.Counter.{Counted, PoolReachable-Counted, length-put_at, length-Woke, wakes}

loop_head-cancelled : (t : HalfClose) → loop_head true t ≡ none
unfolding loop_head
loop_head-cancelled t = elim (Bool-cases (ltb 0 t.repeat)) [ inl h ↦ rw h refl | inr h ↦ rw h refl ]

-- In a pool that is cancelled a task is over after a poll.
poll_at-cancelled :
    (place : Place) (inputs : Inputs) (sent : Poll Bool) (t : HalfClose)
    → inputs.sent ≡ sent
    → (poll_at place true inputs t).0 ≡ none
unfolding poll_at send after_loop_send after_first_send
poll_at-cancelled selecting inputs sent t e = refl
poll_at-cancelled sending inputs pending t e = rw e refl
poll_at-cancelled sending inputs (ready false) t e = rw e refl
poll_at-cancelled sending inputs (ready true) t e =
    rw e (loop_head-cancelled (record t { repeat = t.repeat - 1 }))
poll_at-cancelled creating inputs pending t e = rw e refl
poll_at-cancelled creating inputs (ready false) t e = rw e refl
poll_at-cancelled creating inputs (ready true) t e = elim (Bool-cases (t.repeat == 0)) [
  | inl h ↦ rw (e, h) refl
  | inr h ↦ rw (e, h) refl
]

poll_task-cancelled : (inputs : Inputs) (t : HalfClose) → (poll_task true inputs t).0 ≡ none
unfolding poll_task
poll_task-cancelled inputs t = poll_at-cancelled t.place inputs inputs.sent t refl

-- What a drop leaves as it is.
record Drops (p q : HalfClosePool) : Type 0 where
  cancelled_still : q.cancelled ≡ p.cancelled
  same_tasks : q.tasks ≡ p.tasks
  same_callers : length q.callers ≡ length p.callers

get_elem?-below :
    {A : Type 0} (xs : List A) (i : ℕ) → i < length xs → (x : A) × (get_elem? xs i ≡ some x)
get_elem?-below [] i h = absurd (omega arith)
get_elem?-below (x ∷ xs) zero h = (x, refl)
get_elem?-below (x ∷ xs) (suc i) h = get_elem?-below xs i (omega arith)

module _ ⦃N : Notify⦄ where
  -- A poll of each of the tasks there are, in some order, whatever each of them finds.
  unfoldable pub poll_each : List (ℕ × Inputs) → HalfClosePool → HalfClosePool
  poll_each [] p = p
  poll_each ((i, inputs) ∷ more) p = poll_each more (poll_nth inputs i p).0

  abbrev pub EachOnce : List (ℕ × Inputs) → ℕ → Type 0
  EachOnce [] n = n ≡ 0
  EachOnce ((i, inputs) ∷ more) n = (i < n) × EachOnce more (n - 1)

module _ ⦃N : Notify⦄ (laws : NotifyLaws) where
  drop_task-Drops : (p : HalfClosePool) → Drops p (drop_task p)
  unfolding drop_task
  drop_task-Drops p = elim (wakes laws p.callers) [
    | inl (nobody, out) ↦
        rw out (record { cancelled_still = refl; same_tasks = refl; same_callers = refl })
    | inr (cs, out, woke) ↦ rw out (record {
      cancelled_still = refl;
      same_tasks = refl;
      same_callers = length-Woke p.callers cs woke;
    })
  ]

  poll_nth-cancelled :
      (inputs : Inputs) (i : ℕ) (p : HalfClosePool)
      → p.cancelled ≡ true
      → i < length p.tasks
      → (poll_nth inputs i p).0 ≡ drop_task (record p { tasks = put_at i none p.tasks })
  unfolding poll_nth poll_found settle
  poll_nth-cancelled inputs i p cancelled h =
      let (t, found) = get_elem?-below p.tasks i h in
      let over = ap (λ c. (poll_task c inputs t).0) cancelled ∙ poll_task-cancelled inputs t in
      rw found (ap (λ left. settle left (record p { tasks = put_at i left p.tasks })) over)

  last_caller :
      (p : HalfClosePool) (cs : List Caller)
      → p.callers ≡ cs
      → length cs ≡ 1
      → Counted p
      → p.tasks ≡ []
      → (poll_caller 0 p).callers ≡ returned ∷ []
  unfolding poll_caller poll_caller_at
  last_caller p [] e one c empty = absurd (omega arith)
  last_caller p (c ∷ d ∷ cs) e one counted empty = absurd (omega arith)
  last_caller p (waiting ∷ []) e one counted empty =
      absurd (omega (arith, counted.waits e, ap length empty))
  last_caller p (returned ∷ []) e one counted empty = rw e refl
  last_caller p (woken ∷ []) e one counted empty =
      let done : (p.task_count == 0) ≡ true = ground (arith, counted.counts, ap length empty) in
      rw (e, done) refl

  abbrev Over : HalfClosePool → Type 0
  Over p = (p.tasks ≡ []) × (length p.callers ≡ 1) × Counted p

  poll_each-Over :
      (schedule : List (ℕ × Inputs)) (p : HalfClosePool)
      → PoolReachable p
      → p.cancelled ≡ true
      → length p.callers ≡ 1
      → EachOnce schedule (length p.tasks)
      → Over (poll_each schedule p)
  unfolding poll_each
  poll_each-Over [] p reached cancelled alone none_left =
      (empty p.tasks none_left, alone, PoolReachable-Counted laws p reached)
    where
      empty : (ts : List HalfClose) → length ts ≡ 0 → ts ≡ []
      empty [] h = refl
      empty (t ∷ ts) h = absurd (omega (arith, h))
  poll_each-Over ((i, inputs) ∷ more) p reached cancelled alone (h, rest) =
      let q : HalfClosePool = record p { tasks = put_at i none p.tasks } in
      let polled = poll_nth-cancelled inputs i p cancelled h in
      let drops = drop_task-Drops q in
      let fewer =
        ap (λ r. length r.tasks) polled
        ∙ ap length drops.same_tasks
        ∙ length-put_at i none p.tasks h in
      poll_each-Over more (poll_nth inputs i p).0 (then_step p _ reached (poll_step p inputs i))
        (ap (λ r. r.cancelled) polled ∙ drops.cancelled_still ∙ cancelled)
        (ap (λ r. length r.callers) polled ∙ drops.same_callers ∙ alone)
        (subst (EachOnce more) (sym fewer) rest)

  -- From every state that the pool can reach with one caller of `shutdown`: when each task has been
  -- polled once more, in any order and whatever it finds, a poll of the caller finds that `shutdown`
  -- has returned.
  pub shutdown-Returns :
      (p : HalfClosePool) (schedule : List (ℕ × Inputs))
      → PoolReachable p
      → length p.callers ≡ 1
      → EachOnce schedule (length p.tasks)
      → (poll_caller 0 (poll_each schedule p)).callers ≡ returned ∷ []
  shutdown-Returns p schedule reached alone each =
      let cancelled = (PoolReachable-Counted laws p reached).told (omega (arith, alone)) in
      let (empty, one, counted) = poll_each-Over schedule p reached cancelled alone each in
      last_caller (poll_each schedule p) _ refl one counted empty
