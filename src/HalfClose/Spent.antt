-- ===== src/HalfClose/Spent.antt =====
-- src/halfclose.rs: what a poll of a task sends, and what it leaves to send.
use mathlib.Core.Path.{subst}
use kcp_rs.Base.{
  ℕ, suc, ◌+◌, ◌-◌, ◌≤◌, ◌<◌, ◌≡◌, refl, ap, Bool, true, false, ◌&&◌, Option, none, some, [], ◌∷◌,
  Bytes, All, length, ◌==◌, ltb, ltb→lt, if◌then◌else◌, Bool-cases, inl, inr, arith,
}
use kcp_rs.Channels.{Poll, ready, pending}
use kcp_rs.HalfClose.{
  HalfClose, Place, creating, selecting, sending, Inputs, Polled, send, loop_head, after_loop_send,
  after_next, after_first_send, poll_at, poll_task,
}

-- What a task may still send.
abbrev pub to_send : Place → ℕ → ℕ
to_send creating repeat = suc repeat
to_send selecting repeat = repeat
to_send sending repeat = repeat

abbrev pub budget : Option HalfClose → ℕ
budget none = 0
budget (some t) = to_send t.place t.repeat

-- A task that goes on waits for something: it has a packet to send.
abbrev pub Busy : Option HalfClose → Type 0
Busy none = Unit
Busy (some t) = 0 < to_send t.place t.repeat

abbrev pub Same : Bytes → Option HalfClose → Type 0
Same packet none = Unit
Same packet (some t) = t.reset_packet ≡ packet

-- The pool is not cancelled, and the transport does not fail.
abbrev pub is_fair : Bool → Poll Bool → Bool
is_fair true sent = false
is_fair false pending = true
is_fair false (ready okay) = okay

-- What a poll leaves and what it sends, of `n` packets that were to be sent.
pub record Spent (packet : Bytes) (fair : Bool) (n : ℕ) (r : Polled) : Type 0 where
  pub bounded : budget r.0 + length r.1 ≤ n
  pub exact : fair ≡ true → budget r.0 + length r.1 ≡ n
  pub packets : All (λ x. x ≡ packet) r.1
  pub same : Same packet r.0
  pub busy : Busy r.0

module _ (packet : Bytes) where
  -- A poll that sends nothing.
  pub idle-Spent :
      (fair : Bool) (n : ℕ) (t : HalfClose)
      → 0 < n
      → to_send t.place t.repeat ≡ n
      → t.reset_packet ≡ packet
      → Spent packet fair n (some t, [])
  idle-Spent fair n t some_left kept e = record {
    bounded = omega (arith, kept);
    exact = λ h. omega (arith, kept);
    packets = tt;
    same = e;
    busy = omega (arith, kept);
  }

  over-Spent : (n : ℕ) → Spent packet false n (none, [])
  over-Spent n = record {
    bounded = omega arith;
    exact = λ h. absurd (ground arith);
    packets = tt;
    same = tt;
    busy = tt;
  }

  last-Spent :
      (fair : Bool) (t : HalfClose)
      → t.reset_packet ≡ packet
      → (fair ≡ true → t.repeat ≡ 0)
      → Spent packet fair (suc t.repeat) (none, t.reset_packet ∷ [])
  last-Spent fair t e none_left = record {
    bounded = omega arith;
    exact = λ h. omega (arith, none_left h);
    packets = (e, tt);
    same = tt;
    busy = tt;
  }

  -- A packet is sent, and the loop goes on.
  sent-Spent :
      (c : Bool) (t : HalfClose)
      → t.reset_packet ≡ packet
      → Spent packet (is_fair c (ready true)) (suc t.repeat) (loop_head c t, t.reset_packet ∷ [])
  unfolding loop_head
  sent-Spent true t e =
      rw (no_more (ltb 0 t.repeat)) (last-Spent false t e λ impossible. absurd (ground arith))
    where
      no_more :
          (b : Bool) → (if b && false then some (record t { place = selecting }) else none) ≡ none
      no_more true = refl
      no_more false = refl
  sent-Spent false t e = elim (Bool-cases (ltb 0 t.repeat)) [
    | inl h ↦ rw h (record {
      bounded = omega arith;
      exact = λ fair. omega arith;
      packets = (e, tt);
      same = e;
      busy = ltb→lt 0 t.repeat h;
    })
    | inr h ↦ rw h (last-Spent true t e λ fair. ground arith)
  ]

  loop_send-Spent :
      (c : Bool) (t : HalfClose) (p : Poll Bool)
      → 0 < t.repeat
      → t.reset_packet ≡ packet
      → Spent packet (is_fair c p) t.repeat (after_loop_send c t (send c p))
  unfolding after_loop_send send
  loop_send-Spent true t pending busy e = over-Spent t.repeat
  loop_send-Spent false t pending busy e =
      idle-Spent true t.repeat (record t { place = sending }) busy refl e
  loop_send-Spent true t (ready false) busy e = over-Spent t.repeat
  loop_send-Spent false t (ready false) busy e = over-Spent t.repeat
  loop_send-Spent c t (ready true) busy e =
      subst (λ n. Spent packet (is_fair c (ready true)) n (after_loop_send c t (ready true)))
        (omega arith) (sent-Spent c (record t { repeat = t.repeat - 1 }) e)

  first_send-Spent :
      (c : Bool) (t : HalfClose) (p : Poll Bool)
      → t.place ≡ creating
      → t.reset_packet ≡ packet
      → Spent packet (is_fair c p) (suc t.repeat) (after_first_send c t (send c p))
  unfolding after_first_send send
  first_send-Spent true t pending at_place e = over-Spent (suc t.repeat)
  first_send-Spent false t pending at_place e =
      idle-Spent true (suc t.repeat) t (omega arith) (ap (λ place. to_send place t.repeat) at_place)
        e
  first_send-Spent true t (ready false) at_place e = over-Spent (suc t.repeat)
  first_send-Spent false t (ready false) at_place e = over-Spent (suc t.repeat)
  first_send-Spent true t (ready true) at_place e = elim (Bool-cases (t.repeat == 0)) [
    | inl h ↦ rw h (last-Spent false t e λ impossible. absurd (ground arith))
    | inr h ↦ rw h (last-Spent false t e λ impossible. absurd (ground arith))
  ]
  first_send-Spent false t (ready true) at_place e = elim (Bool-cases (t.repeat == 0)) [
    | inl h ↦ rw h (last-Spent true t e λ fair. ground arith)
    | inr h ↦ rw h (sent-Spent false t e)
  ]

  next-Spent :
      (c closed : Bool) (t : HalfClose) (p : Poll Bool) (next : Poll (Option Bytes))
      → t.place ≡ selecting
      → 0 < t.repeat
      → t.reset_packet ≡ packet
      → Spent packet (is_fair c p) t.repeat (after_next closed t next)
  unfolding after_next
  next-Spent c true t p next at_place busy e =
      idle-Spent (is_fair c p) t.repeat t busy (ap (λ place. to_send place t.repeat) at_place) e
  next-Spent c false t p pending at_place busy e =
      idle-Spent (is_fair c p) t.repeat t busy (ap (λ place. to_send place t.repeat) at_place) e
  next-Spent c false t p (ready none) at_place busy e =
      idle-Spent (is_fair c p) t.repeat (record t { is_closed = true }) busy
        (ap (λ place. to_send place t.repeat) at_place) e
  next-Spent c false t p (ready (some x)) at_place busy e =
      idle-Spent (is_fair c p) t.repeat t busy (ap (λ place. to_send place t.repeat) at_place) e

  poll_at-Spent :
      (place : Place) (c : Bool) (inputs : Inputs) (t : HalfClose)
      → t.place ≡ place
      → 0 < to_send place t.repeat
      → t.reset_packet ≡ packet
      → Spent packet (is_fair c inputs.sent) (to_send place t.repeat) (poll_at place c inputs t)
  unfolding poll_at
  poll_at-Spent creating c inputs t at_place busy e = first_send-Spent c t inputs.sent at_place e
  poll_at-Spent sending c inputs t at_place busy e = loop_send-Spent c t inputs.sent busy e
  poll_at-Spent selecting true inputs t at_place busy e = over-Spent t.repeat
  poll_at-Spent selecting false inputs t at_place busy e = elim (Bool-cases inputs.tick) [
    | inl h ↦ rw h (loop_send-Spent false t inputs.sent busy e)
    | inr h ↦ rw h (next-Spent false t.is_closed t inputs.sent inputs.next at_place busy e)
  ]

  pub poll_task-Spent :
      (c : Bool) (inputs : Inputs) (t : HalfClose)
      → Busy (some t)
      → t.reset_packet ≡ packet
      → Spent packet (is_fair c inputs.sent) (to_send t.place t.repeat) (poll_task c inputs t)
  unfolding poll_task
  poll_task-Spent c inputs t busy e = poll_at-Spent t.place c inputs t refl busy e
