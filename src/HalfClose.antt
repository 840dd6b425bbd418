-- ===== src/HalfClose.antt =====
-- src/halfclose.rs: the pool of the tasks that go on resetting a connection that was closed from one
-- side. A task is one step at a time: a poll of it, up to where it waits. The atomic counter is a `usize`
-- of 64 bits.
pub mod Spent
pub mod Resets
pub mod Counter
pub mod Ending
use kcp_rs.Base.{
  ◌≡◌, ◌<◌, ℕ, zero, suc, ◌+◌, ◌-◌, ◌%◌, ◌^◌, max, Bool, true, false, not, ◌&&◌, Option, none, some,
  List, [], ◌∷◌, Bytes, get_elem?, set, ◌++◌, ◌==◌, ltb, if◌then◌else◌,
}
use kcp_rs.Channels.{Poll, ready, pending}

-- Where a task waits: for the first packet to be sent, in the `select!` of the loop, or for a
-- packet of the loop.
pub data Place : Type 0 where
  creating selecting sending : Place

pub record HalfClose : Type 0 where
  pub reset_packet : Bytes
  pub repeat : ℕ
  pub is_closed : Bool
  pub place : Place

-- What a poll finds: whether the timer ticks, what sending the packet gives (a Boolean is whether the
-- result is `Ok`), and what the transport has received.
pub record Inputs : Type 0 where
  pub tick : Bool
  pub sent : Poll Bool
  pub next : Poll (Option Bytes)

-- `send`: a packet that goes is preferred to the token.
unfoldable pub send : Bool → Poll Bool → Poll Bool
send cancelled (ready okay) = ready okay
send true pending = ready false
send false pending = pending

-- The head of the loop, with the first branch of the `select!`. None: the task is over.
unfoldable pub loop_head : Bool → HalfClose → Option HalfClose
loop_head cancelled t =
    if ltb 0 t.repeat && not cancelled then some (record t { place = selecting }) else none

-- What is left of the task, and the packets that it has sent.
abbrev pub Polled : Type 0
Polled = Option HalfClose × List Bytes

unfoldable pub after_loop_send : Bool → HalfClose → Poll Bool → Polled
unfolding loop_head
after_loop_send cancelled t pending = (some (record t { place = sending }), [])
after_loop_send cancelled t (ready false) = (none, [])
after_loop_send cancelled t (ready true) =
    (loop_head cancelled (record t { repeat = t.repeat - 1 }), t.reset_packet ∷ [])

-- The last branch of the `select!`.
unfoldable pub after_next : Bool → HalfClose → Poll (Option Bytes) → Polled
after_next true t next = (some t, [])
after_next false t pending = (some t, [])
after_next false t (ready none) = (some (record t { is_closed = true }), [])
after_next false t (ready (some packet)) = (some t, [])

-- The end of `create_task`: what is left is spawned, and begins with the head of the loop.
unfoldable pub after_first_send : Bool → HalfClose → Poll Bool → Polled
unfolding loop_head
after_first_send cancelled t pending = (some t, [])
after_first_send cancelled t (ready false) = (none, [])
after_first_send cancelled t (ready true) = (
  if t.repeat == 0 then none else if cancelled then none else loop_head cancelled t,
  t.reset_packet ∷ [],
)

unfoldable pub poll_at : Place → Bool → Inputs → HalfClose → Polled
unfolding send after_loop_send after_next after_first_send
poll_at creating cancelled inputs t = after_first_send cancelled t (send cancelled inputs.sent)
poll_at selecting cancelled inputs t =
    if cancelled
    then (none, [])
    else if inputs.tick
    then after_loop_send cancelled t (send cancelled inputs.sent)
    else after_next t.is_closed t inputs.next
poll_at sending cancelled inputs t = after_loop_send cancelled t (send cancelled inputs.sent)

unfoldable pub poll_task : Bool → Inputs → HalfClose → Polled
unfolding poll_at
poll_task cancelled inputs t = poll_at t.place cancelled inputs t

-- The task of `create_task`, before its first packet is sent. `secs` is the timeout in whole seconds.
unfoldable pub new_task : Bytes → ℕ → HalfClose
new_task reset_packet secs = record {
  reset_packet = reset_packet;
  repeat = max secs 1 - 1;
  is_closed = false;
  place = creating;
}

-- A caller of `shutdown`: it waits in `notified()`, or has been woken there (or has not begun), or has
-- returned.
pub data Caller : Type 0 where
  waiting woken returned : Caller

-- tokio::sync::Notify: whom `notify_one` wakes. None: nobody waits, and a permit is left.
pub record Notify : Type 0 where
  pub wake : List Caller → Option (List Caller)

-- One of the callers that wait has been woken.
pub data Woke : List Caller → List Caller → Type 0 where
  this_one : (cs : List Caller) → Woke (waiting ∷ cs) (woken ∷ cs)
  later_one : (c : Caller) (cs cs' : List Caller) → Woke cs cs' → Woke (c ∷ cs) (c ∷ cs')

abbrev pub waiters : List Caller → ℕ
waiters [] = 0
waiters (waiting ∷ cs) = suc (waiters cs)
waiters (woken ∷ cs) = waiters cs
waiters (returned ∷ cs) = waiters cs

pub record NotifyLaws ⦃N : Notify⦄ : Type 0 where
  pub nobody_waits : (cs : List Caller) → waiters cs ≡ 0 → N.wake cs ≡ none
  pub one_woken :
      (cs : List Caller)
      → 0 < waiters cs
      → (cs' : List Caller) × (N.wake cs ≡ some cs') × Woke cs cs'

-- `permit` and the callers that wait are the state of the `Notify`. `tasks` are those of
-- `create_task` and those that it spawned; the counter is beside them in the code too.
pub record HalfClosePool : Type 0 where
  pub cancelled : Bool
  pub permit : Bool
  pub callers : List Caller
  pub task_count : ℕ
  pub tasks : List HalfClose

unfoldable pub pool_default : HalfClosePool
pool_default = record {
  cancelled = false;
  permit = false;
  callers = [];
  task_count = 0;
  tasks = [];
}

unfoldable pub create_task : Bytes → ℕ → HalfClosePool → HalfClosePool
unfolding new_task
create_task reset_packet secs p = record p {
  task_count = (p.task_count + 1) % 2 ^ 64;
  tasks = new_task reset_packet secs ∷ p.tasks;
}

abbrev notified : HalfClosePool → Option (List Caller) → HalfClosePool
notified p none = record p { permit = true }
notified p (some cs) = record p { callers = cs }

-- `drop` of a task.
unfoldable pub drop_task : ⦃N : Notify⦄ → HalfClosePool → HalfClosePool
drop_task ⦃N = N⦄ p =
    notified (record p { task_count = (p.task_count + 2 ^ 64 - 1) % 2 ^ 64 }) (N.wake p.callers)

-- What a poll leaves of the task at a position.
unfoldable pub put_at : ℕ → Option HalfClose → List HalfClose → List HalfClose
put_at i left [] = []
put_at zero none (t ∷ ts) = ts
put_at zero (some t') (t ∷ ts) = t' ∷ ts
put_at (suc i) left (t ∷ ts) = t ∷ put_at i left ts

unfoldable pub settle : ⦃N : Notify⦄ → Option HalfClose → HalfClosePool → HalfClosePool
settle none p = drop_task p
settle (some t) p = p

unfoldable pub poll_found :
    ⦃N : Notify⦄ → Inputs → ℕ → HalfClosePool → Option HalfClose → HalfClosePool × List Bytes
unfolding poll_task put_at
poll_found inputs i p none = (p, [])
poll_found inputs i p (some t) =
    let (left, out) = poll_task p.cancelled inputs t in
    (settle left (record p { tasks = put_at i left p.tasks }), out)

-- A poll of the i-th task, and what it sends. (The order of the list is no order of the program.)
unfoldable pub poll_nth : ⦃N : Notify⦄ → Inputs → ℕ → HalfClosePool → HalfClosePool × List Bytes
poll_nth inputs i p = poll_found inputs i p (get_elem? p.tasks i)

-- `shutdown` is called. Its loop begins like that of a caller that was woken.
unfoldable pub shutdown : HalfClosePool → HalfClosePool
shutdown p = record p { cancelled = true; callers = p.callers ++ (woken ∷ []) }

-- src/lib.rs: what an application calls.
unfoldable pub kcp_sys_shutdown : HalfClosePool → HalfClosePool
unfolding shutdown
kcp_sys_shutdown p = shutdown p

-- A poll of a caller in the loop of `shutdown`: a permit lets it round once more, and it finds the
-- counter as it was.
unfoldable pub poll_caller_at : ℕ → HalfClosePool → Option Caller → HalfClosePool
poll_caller_at i p none = p
poll_caller_at i p (some waiting) = p
poll_caller_at i p (some returned) = p
poll_caller_at i p (some woken) =
    if p.task_count == 0
    then record p { callers = set p.callers i returned }
    else record p { permit = false; callers = set p.callers i waiting }

unfoldable pub poll_caller : ℕ → HalfClosePool → HalfClosePool
poll_caller i p = poll_caller_at i p (get_elem? p.callers i)

-- What can happen to the pool.
pub data PoolStep ⦃N : Notify⦄ : HalfClosePool → HalfClosePool → Type 0 where
  create_step :
      (p : HalfClosePool) (reset_packet : Bytes) (secs : ℕ)
      → PoolStep p (create_task reset_packet secs p)
  poll_step : (p : HalfClosePool) (inputs : Inputs) (i : ℕ) → PoolStep p (poll_nth inputs i p).0
  shutdown_step : (p : HalfClosePool) → PoolStep p (shutdown p)
  caller_step : (p : HalfClosePool) (i : ℕ) → PoolStep p (poll_caller i p)

pub data PoolReachable ⦃N : Notify⦄ : HalfClosePool → Type 0 where
  at_first : PoolReachable pool_default
  then_step : (p q : HalfClosePool) → PoolReachable p → PoolStep p q → PoolReachable q
