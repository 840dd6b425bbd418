-- ===== src/Channels.antt =====
-- What src/stream.rs and src/transport use of the crates tokio and tokio-util: the ends of an mpsc
-- channel. They are parameters of the model; the laws say what their documentation promises.
use kcp_rs.Base.{ℕ, ◌≤◌, ◌<◌, ◌≡◌, Bool, true, false, Option, none, some, List, [], ◌∷◌, ◌++◌}

-- std::task::Poll.
pub data Poll {ℓ} (A : Type ℓ) : Type ℓ where
  ready : A → Poll A
  pending : Poll A

-- tokio::sync::mpsc::Receiver.
pub record Receiver (A : Type 0) : Type 1 where
  pub State : Type 0
  pub poll_recv : State → State × Poll (Option A)
  pub close : State → State

-- Messages come out in the order in which they went in, each once. `poll_recv` may be pending although
-- there are some (the task has used up its share), and ends only when there are none.
pub record ReceiverLaws {A : Type 0} (R : Receiver A) : Type 0 where
  pub queue : R.State → List A
  pub recv_some :
      (s s' : R.State) (x : A) → R.poll_recv s ≡ (s', ready (some x)) → queue s ≡ x ∷ queue s'
  pub recv_none :
      (s s' : R.State) → R.poll_recv s ≡ (s', ready none) → (queue s ≡ []) × (queue s' ≡ [])
  pub recv_pending : (s s' : R.State) → R.poll_recv s ≡ (s', pending) → queue s' ≡ queue s
  pub close_keeps : (s : R.State) → queue (R.close s) ≡ queue s

-- tokio_util::sync::PollSender. A Boolean is whether the result is `Ok`; `start_send` gives none
-- for a panic, which it raises when no `poll_ready` came before it.
pub record PollSender (A : Type 0) : Type 1 where
  pub State : Type 0
  pub poll_ready : State → State × Poll Bool
  pub start_send : State → A → Option (State × Bool)
  pub poll_close : State → State × Poll Bool
  pub abort_send : State → State
  pub close : State → State

-- `handed` is what the channel has taken from the sender, oldest first.
pub record PollSenderLaws {A : Type 0} (S : PollSender A) : Type 0 where
  pub handed : S.State → List A
  pub ready_keeps : (s : S.State) → handed (S.poll_ready s).0 ≡ handed s
  pub send_ready :
      (s s' : S.State) (x : A)
      → S.poll_ready s ≡ (s', ready true)
      → (t : S.State) × (b : Bool) × (S.start_send s' x ≡ some (t, b))
  pub send_ok :
      (s t : S.State) (x : A) → S.start_send s x ≡ some (t, true) → handed t ≡ handed s ++ (x ∷ [])
  pub send_err : (s t : S.State) (x : A) → S.start_send s x ≡ some (t, false) → handed t ≡ handed s

-- Closing ends: of the polls of `poll_close` that are to come, only so many are pending.
pub record CloseLaws {A : Type 0} (S : PollSender A) : Type 0 where
  pub waits : S.State → ℕ
  pub close_ready :
      (s s' : S.State) (b : Bool) → S.poll_close s ≡ (s', ready b) → waits s' ≤ waits s
  pub close_pending : (s s' : S.State) → S.poll_close s ≡ (s', pending) → waits s' < waits s
