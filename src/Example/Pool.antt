-- ===== src/Example/Pool.antt =====
-- The theorems on the pool of half-closed connections at concrete inputs.
use kcp_rs.Base.{
  Bool, ◌≤◌, ◌<◌, ◌≡◌, refl, max, true, false, Option, none, some, List, [], ◌∷◌, Bytes, All,
  length, arith,
}
use kcp_rs.Channels.{ready, pending}
use kcp_rs.HalfClose.{
  Polled, Notify, NotifyLaws, Woke, this_one, later_one, waiters, waiting, woken, Inputs, new_task,
  HalfClosePool, Caller, returned, pool_default, create_task, poll_nth, poll_found, shutdown,
  poll_task, poll_at, send, after_first_send, put_at, settle, poll_caller, create_step, poll_step,
  shutdown_step, PoolReachable, at_first, then_step,
}
use kcp_rs.HalfClose.Resets.{poll_all, all_fair, new_task-Resets}
use kcp_rs.HalfClose.Counter.{Counted, PoolReachable-Counted}
use kcp_rs.HalfClose.Ending.{poll_each, shutdown-Returns}

-- The timer ticks and the transport takes the packet.
abbrev good : Inputs
good = record { tick = true; sent = ready true; next = pending }

-- The transport cannot take the packet yet.
abbrev slow : Inputs
slow = record { tick = true; sent = pending; next = pending }

abbrev reset : Bytes
reset = 1 ∷ 2 ∷ []

abbrev polls : List (Bool × Inputs)
polls = (false, good) ∷ (false, slow) ∷ (false, good) ∷ []

abbrev polled : Polled
polled = poll_all polls (some (new_task reset 2), [])

new_task-Resets_example :
    (length polled.1 ≤ max 2 1)
    × All (λ x. x ≡ reset) polled.1
    × (all_fair reset polls ≡ true → polled.0 ≡ none → length polled.1 ≡ max 2 1)
new_task-Resets_example = new_task-Resets reset 2 polls

-- The caller who has waited for the longest comes first.
abbrev toy_wake : List Caller → Option (List Caller)
toy_wake [] = none
toy_wake (waiting ∷ cs) = some (woken ∷ cs)
toy_wake (woken ∷ cs) = elim (toy_wake cs) [ none ↦ none | some cs' ↦ some (woken ∷ cs') ]
toy_wake (returned ∷ cs) = elim (toy_wake cs) [ none ↦ none | some cs' ↦ some (returned ∷ cs') ]

instance abbrev toy_notify : Notify
toy_notify = record { wake = toy_wake }

toy_wake-nobody : (cs : List Caller) → waiters cs ≡ 0 → toy_wake cs ≡ none
toy_wake-nobody [] e = refl
toy_wake-nobody (waiting ∷ cs) e = absurd (omega (arith, e))
toy_wake-nobody (woken ∷ cs) e = rw (toy_wake-nobody cs e) refl
toy_wake-nobody (returned ∷ cs) e = rw (toy_wake-nobody cs e) refl

toy_wake-one :
    (cs : List Caller)
    → 0 < waiters cs
    → (cs' : List Caller) × (toy_wake cs ≡ some cs') × Woke cs cs'
toy_wake-one [] h = absurd (omega arith)
toy_wake-one (waiting ∷ cs) h = (woken ∷ cs, refl, this_one cs)
toy_wake-one (woken ∷ cs) h =
    let (cs', e, w) = toy_wake-one cs h in (woken ∷ cs', rw e refl, later_one woken cs cs' w)
toy_wake-one (returned ∷ cs) h =
    let (cs', e, w) = toy_wake-one cs h in (returned ∷ cs', rw e refl, later_one returned cs cs' w)

toy_notify-NotifyLaws : NotifyLaws
toy_notify-NotifyLaws = record { nobody_waits = toy_wake-nobody; one_woken = toy_wake-one }

-- Two tasks, of which one has begun to send, and a caller of `shutdown`.
abbrev two_tasks : HalfClosePool
two_tasks = shutdown (poll_nth slow 1 (create_task reset 5 (create_task reset 2 pool_default))).0

two_tasks-PoolReachable : PoolReachable two_tasks
two_tasks-PoolReachable =
    then_step _ _
      (then_step _ _
        (then_step _ _ (then_step _ _ at_first (create_step pool_default reset 2))
          (create_step (create_task reset 2 pool_default) reset 5))
        (poll_step (create_task reset 5 (create_task reset 2 pool_default)) slow 1))
      (shutdown_step (poll_nth slow 1 (create_task reset 5 (create_task reset 2 pool_default))).0)

PoolReachable-Counted_example : Counted two_tasks
PoolReachable-Counted_example =
    PoolReachable-Counted toy_notify-NotifyLaws two_tasks two_tasks-PoolReachable

shutdown-Returns_example :
    (poll_caller 0 (poll_each ((1, slow) ∷ (0, good) ∷ []) two_tasks)).callers ≡ returned ∷ []
unfolding shutdown poll_nth poll_found create_task pool_default poll_task poll_at send
    after_first_send new_task put_at settle
shutdown-Returns_example =
    shutdown-Returns toy_notify-NotifyLaws two_tasks ((1, slow) ∷ (0, good) ∷ [])
      two_tasks-PoolReachable refl (omega arith, (omega arith, refl))
