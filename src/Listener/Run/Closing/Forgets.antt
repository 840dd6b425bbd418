-- ===== src/Listener/Run/Closing/Forgets.antt =====
-- src/udp.rs: the turns of a listener that closes.
use mathlib.Core.Path.{subst}
use mathlib.Core.Option.{some-injective}
use kcp_rs.Base.{
  ℕ, ◌≡◌, refl, sym, ap, Bool, true, false, Option, none, some, List, [], ◌∷◌, ◌⊎◌, inl, inr,
  if◌then◌else◌, arith,
}
use kcp_rs.Config.{listener_task_loop}
use kcp_rs.Listener.{Tables, Listener, Session, session_of, close}
use kcp_rs.Listener.Agreement.{TableLaws}
use kcp_rs.Listener.Run.{
  Message, disconnect_message, Event, received, feed, message, cancelled, Out, process_msg,
  on_event, drain, turn_head, Turn, go_round, run_turns, nothing_out,
}
use kcp_rs.Listener.Run.Safe.{Holds, Holds-at, bind-Holds}
use kcp_rs.Listener.Run.Closing.{Shrinks, ShrinksTo, receive-Shrinks, Handles, process_msg-Handles}

-- The turn takes the message that ends the session under the number.
abbrev pub EndsIn : ℕ → Turn → Type 0
EndsIn k t =
    (t.waiting_message ≡ some (disconnect_message k)) ⊎ (t.event ≡ message (disconnect_message k))

-- One of the turns does.
abbrev pub EndsWithin : ℕ → List Turn → Type 0
EndsWithin k [] = ⊥
EndsWithin k (t ∷ ts) = EndsIn k t ⊎ EndsWithin k ts

-- The message that an event brings.
abbrev taken_from : Event → Option Message
taken_from (message msg) = some msg
taken_from _ = none

map-Holds :
    {A : Type 0} (P Q : A → Type 0) (o : Option A) → ((a : A) → P a → Q a) → Holds P o → Holds Q o
map-Holds P Q none f h = tt
map-Holds P Q (some a) f h = f a h

module _ ⦃T : Tables⦄ (laws : TableLaws) (k : ℕ) where
  -- What a message that is taken does, and none does nothing.
  abbrev Handled : Option Message → Listener → Listener → Type 0
  Handled msg l l' =
      Shrinks laws k l l' × (msg ≡ some (disconnect_message k) → session_of l' k ≡ none)

  abbrev HandledBy : Option Message → Listener → Listener × Out → Type 0
  HandledBy msg l (l', out) = Handled msg l l'

  Handled-none : (l l' : Listener) → Shrinks laws k l l' → Handled none l l'
  Handled-none l l' shrinks = (shrinks, λ e. absurd (ground arith))

  taken-Handled :
      (now : ℕ) (msg : Message) (l : Listener)
      → l.is_closing ≡ true
      → Holds (HandledBy (some msg) l) (process_msg now msg l)
  taken-Handled now msg l closing =
      map-Holds (Handles laws k msg l) (HandledBy (some msg) l) (process_msg now msg l)
        (λ r (shrinks, gone). (shrinks, λ e. gone (some-injective _ _ e)))
        (process_msg-Handles laws k now msg l closing)

  on_event-Handled :
      (now : ℕ) (e : Event) (l : Listener)
      → l.is_closing ≡ true
      → Holds (HandledBy (taken_from e) l) (on_event now e l)
  unfolding on_event close
  on_event-Handled now (received first more) l closing =
      map-Holds (ShrinksTo laws k l) (HandledBy none l) _ (λ r h. Handled-none l r.0 h)
        (receive-Shrinks laws k listener_task_loop first more l closing)
  on_event-Handled now (feed item queue) l closing = Handled-none l l (closing, λ e. e)
  on_event-Handled now (message msg) l closing = taken-Handled now msg l closing
  on_event-Handled now cancelled l closing = Handled-none l (close l) (refl, λ e. e)

  abbrev HeadHandled : Option Message → Listener → Listener × Out × Bool → Type 0
  HeadHandled msg l (l', out, left) = Handled msg l l'

  drain-Handled :
      (now : ℕ) (msg : Option Message) (sessions : List (ℕ × Session)) (l : Listener)
      → l.is_closing ≡ true
      → Holds (HeadHandled msg l) (drain now msg sessions l)
  unfolding drain
  drain-Handled now (some msg) sessions l closing =
      bind-Holds (process_msg now msg l) _ (HeadHandled (some msg) l)
        λ r e. Holds-at (HandledBy (some msg) l) e (taken-Handled now msg l closing)
  drain-Handled now none [] l closing = Handled-none l l (closing, λ e. e)
  drain-Handled now none (s ∷ sessions) l closing = Handled-none l l (closing, λ e. e)

  turn_head-Handled :
      (now : ℕ) (msg : Option Message) (l : Listener)
      → l.is_closing ≡ true
      → Holds (HeadHandled msg l) (turn_head now msg l)
  unfolding turn_head
  turn_head-Handled now msg l closing =
      let drained = drain now msg (T.sessions.entries l.conv_map) l in
      subst (λ b. Holds (HeadHandled msg l) (if b then drained else some (l, nothing_out, false)))
        (sym closing) (drain-Handled now msg (T.sessions.entries l.conv_map) l closing)

  -- At the end of turns that all were taken.
  abbrev pub Forgotten : Listener × Out × Bool → Type 0
  Forgotten (l, out, left) = (l.is_closing ≡ true) × (left ≡ false → session_of l k ≡ none)

  -- What is left to show behind a turn.
  behind :
      (t : Turn) (ts : List Turn) (l l1 l2 : Listener)
      → Handled t.waiting_message l l1
      → Handled (taken_from t.event) l1 l2
      → (session_of l k ≡ none) ⊎ EndsWithin k (t ∷ ts)
      → (session_of l2 k ≡ none) ⊎ EndsWithin k ts
  behind t ts l l1 l2 (head, ended) (during, ended') (inl gone) = inl (during.1 (head.1 gone))
  behind t ts l l1 l2 (head, ended) (during, ended') (inr (inl (inl e))) = inl (during.1 (ended e))
  behind t ts l l1 l2 (head, ended) (during, ended') (inr (inl (inr e))) =
      inl (ended' (ap taken_from e))
  behind t ts l l1 l2 (head, ended) (during, ended') (inr (inr later)) = inr later

  go_round-Forgotten :
      (t : Turn) (ts : List Turn) (l : Listener) (r : Listener × Out × Bool)
      → HeadHandled t.waiting_message l r
      → (session_of l k ≡ none) ⊎ EndsWithin k (t ∷ ts)
      → ((l' : Listener)
          → l'.is_closing ≡ true
          → (session_of l' k ≡ none) ⊎ EndsWithin k ts
          → Holds Forgotten (run_turns ts l'))
      → Holds Forgotten (go_round (run_turns ts) t r)
  unfolding go_round
  go_round-Forgotten t ts l (l1, out, true) (head, ended) h again =
      (head.0, λ e. absurd (ground arith))
  go_round-Forgotten t ts l (l1, out, false) (head, ended) h again =
      bind-Holds (on_event t.now t.event l1) _ Forgotten λ r e.
        (let during =
            Holds-at (HandledBy (taken_from t.event) l1) e
              (on_event-Handled t.now t.event l1 head.0) in
          bind-Holds (run_turns ts r.0) _ Forgotten λ rest e'.
            Holds-at Forgotten e'
              (again r.0 during.0.0 (behind t ts l l1 r.0 (head, ended) during h)))

  -- A listener that closes goes on closing, through any turns that do not fault, over maps that obey
  -- the laws of hashlink. When it has gone through all of them, there is no session under a number for
  -- which there was none before, or whose `Disconnect` one of the turns took.
  pub run_turns-Forgotten :
      (turns : List Turn) (l : Listener)
      → l.is_closing ≡ true
      → (session_of l k ≡ none) ⊎ EndsWithin k turns
      → Holds Forgotten (run_turns turns l)
  unfolding run_turns
  run_turns-Forgotten [] l closing (inl gone) = (closing, λ e. gone)
  run_turns-Forgotten [] l closing (inr never) = absurd never
  run_turns-Forgotten (t ∷ ts) l closing h =
      bind-Holds (turn_head t.now t.waiting_message l) _ Forgotten λ r e.
        go_round-Forgotten t ts l r
          (Holds-at (HeadHandled t.waiting_message l) e
            (turn_head-Handled t.now t.waiting_message l closing))
          h (run_turns-Forgotten ts)
