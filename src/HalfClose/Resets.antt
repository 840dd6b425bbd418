-- ===== src/HalfClose/Resets.antt =====
-- src/halfclose.rs: how many reset packets a task sends.
use mathlib.Core.Path.{subst}
use kcp_rs.Base.{
  ℕ, ◌≤◌, max, ◌≡◌, refl, sym, ap, Bool, true, ◌&&◌, and_true, none, some, List, [], ◌∷◌, ◌++◌,
  Bytes, All, All-append, length, length-append, arith,
}
use kcp_rs.HalfClose.{HalfClose, Inputs, Polled, poll_task, new_task}
use kcp_rs.HalfClose.Spent.{is_fair, to_send, budget, Spent, idle-Spent, poll_task-Spent}
use mathlib.Core.Bool.{and-true, and_assoc}

-- A task, polled again and again: what is left of it, and all it has sent. `Inputs` come with whether
-- the pool is cancelled at the time.
unfoldable pub poll_all : List (Bool × Inputs) → Polled → Polled
poll_all [] r = r
poll_all ((cancelled, inputs) ∷ more) (none, out) = (none, out)
poll_all ((cancelled, inputs) ∷ more) (some t, out) =
    let (left, sent) = poll_task cancelled inputs t in poll_all more (left, out ++ sent)

module _ (packet : Bytes) where
  abbrev pub all_fair : List (Bool × Inputs) → Bool
  all_fair [] = true
  all_fair ((c, inputs) ∷ more) = is_fair c inputs.sent && all_fair more

  then-Spent :
      (f g : Bool) (n : ℕ) (t : HalfClose) (out : List Bytes) (r : Polled)
      → Spent packet f n (some t, out)
      → Spent packet g (to_send t.place t.repeat) r
      → Spent packet (f && g) n (r.0, out ++ r.1)
  then-Spent f g n t out r before after = record {
    bounded = omega (arith, before.bounded, after.bounded, length-append out r.1);
    exact = λ h.
        (let (hf, hg) = and_true f g h in
          omega (arith, before.exact hf, after.exact hg, length-append out r.1));
    packets = All-append (λ x. x ≡ packet) out r.1 before.packets after.packets;
    same = after.same;
    busy = after.busy;
  }

  poll_all-Spent :
      (f : Bool) (n : ℕ) (inputs : List (Bool × Inputs)) (r : Polled)
      → Spent packet f n r
      → Spent packet (f && all_fair inputs) n (poll_all inputs r)
  unfolding poll_all
  poll_all-Spent f n [] r before = subst (λ b. Spent packet b n r) (sym (and-true f)) before
  poll_all-Spent f n ((c, inputs) ∷ more) (none, out) before = record {
    bounded = before.bounded;
    exact = λ h. before.exact (and_true f _ h).0;
    packets = before.packets;
    same = tt;
    busy = tt;
  }
  poll_all-Spent f n ((c, inputs) ∷ more) (some t, out) before =
      let after = poll_task-Spent packet c inputs t before.busy before.same in
      let g = is_fair c inputs.sent in
      subst (λ b. Spent packet b n (poll_all ((c, inputs) ∷ more) (some t, out)))
        (and_assoc f g (all_fair more))
        (poll_all-Spent (f && g) n more _
          (then-Spent f g n t out (poll_task c inputs t) before after))

  -- However a task is polled, it sends at most as many packets as the timeout has whole seconds,
  -- but one for less than a second, and each is the reset packet. When the pool is not cancelled,
  -- the transport does not fail and the task is over, it has sent exactly that many.
  pub new_task-Resets :
      (secs : ℕ) (inputs : List (Bool × Inputs))
      → let r = poll_all inputs (some (new_task packet secs), []) in
        (length r.1 ≤ max secs 1)
        × All (λ x. x ≡ packet) r.1
        × (all_fair inputs ≡ true → r.0 ≡ none → length r.1 ≡ max secs 1)
  unfolding new_task
  new_task-Resets secs inputs =
      let r = poll_all inputs (some (new_task packet secs), []) in
      let spent =
        poll_all-Spent true (max secs 1) inputs (some (new_task packet secs), [])
          (idle-Spent packet true (max secs 1) (new_task packet secs) (omega arith) (omega arith)
            refl) in
      (
        omega (arith, spent.bounded),
        spent.packets,
        λ fair over. omega (arith, spent.exact fair, ap budget over),
      )
