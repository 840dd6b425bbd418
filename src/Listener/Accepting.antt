-- ===== src/Listener/Accepting.antt =====
-- src/udp.rs: `accept_stream`, which a session runs, and what the session tells the listener.
use mathlib.Core.Option.{some-injective}
use mathlib.Core.Path.{subst}
use kcp_rs.Base.{
  ℕ, ◌≡◌, sym, ap, ◌∙◌, ◌<◌, Bool, true, Option, none, some, List, [], ◌∷◌, ◌++◌, All, replicate,
  first, Io, ok, err, panic, arith,
}
use kcp_rs.Config.{KcpConfig}
use kcp_rs.Ffi.{Engine}
use kcp_rs.Ffi.Laws.{NumberLaws}
use kcp_rs.Channels.{ReceiverLaws, CloseLaws}
use kcp_rs.KcpStream.{Channels, KcpStream, Spawn, spawn_task}
use kcp_rs.KcpStream.Closing.{accept}
use kcp_rs.KcpStream.Closing.Laws.{Outcome, accept-Outcome}
use kcp_rs.Listener.Run.{Message, connect_message, disconnect_message}
use kcp_rs.Protocol.Conv.{syn_conv, is_valid_conv}
use kcp_rs.Protocol.Packet.{◌>>=◌}
use kcp_rs.Stream.Task.{Task, Output, established, frame}
use kcp_rs.Stream.Run.{new_task, start, finish}
use kcp_rs.Stream.Delivery.Ordered.{Turns}
use kcp_rs.Stream.Number.{Tells}
use kcp_rs.Stream.Number.Lifetime.{server-Tells}

-- The sink `disconnect` makes a message of the number that the task reports at its end.
unfoldable pub disconnect : ℕ → Message
disconnect conv = disconnect_message conv

module _ ⦃C : Channels⦄ where
  -- What `accept` gives makes a message when it is a stream.
  abbrev pub connect_of : Option KcpStream × Io (Unit {0}) → List Message
  connect_of (some s, ok u) = connect_message s.conv ∷ []
  connect_of (some s, err e) = []
  connect_of (some s, panic) = []
  connect_of (none, r) = []

  -- The messages that it sends. The answers are those of the polls of a task that is to end.
  unfoldable pub accept_stream : KcpConfig → ℕ → Spawn → List Bool → Option (List Message)
  accept_stream config conv spawn overs = do r ← accept config conv spawn overs; some (connect_of r)

  -- One message with the number of the session when the task's first message is that of the connection,
  -- and none otherwise.
  abbrev pub Connects : ℕ → Option Output → Option (List Message) → Type 0
  Connects conv (some (established c)) r = r ≡ some (connect_message conv ∷ [])
  Connects conv (some (frame x)) r = r ≡ some []
  Connects conv none r = r ≡ some []

  Tells-first :
      (conv : ℕ) (q : List Output) (c : ℕ)
      → All (Tells conv) q
      → first q ≡ some (established c)
      → c ≡ conv
  Tells-first conv [] c told e = absurd (ground arith)
  Tells-first conv (x ∷ q) c (tells, rest) e = subst (Tells conv) (some-injective _ _ e) tells

  Outcome-Connects :
      (laws : ReceiverLaws C.output) (closing : CloseLaws C.input) (conv : ℕ) (q : List Output)
      (answer : Option Output) (s : KcpStream) (r : Option (Option KcpStream × Io (Unit {0})))
      → All (Tells conv) q
      → answer ≡ first q
      → Outcome laws closing true answer s r
      → Connects conv answer (r >>= λ x. some (connect_of x))
  Outcome-Connects laws closing conv q (some (established c)) s r told e o =
      ap (λ r. r >>= λ x. some (connect_of x)) o
      ∙ ap (λ n. some (connect_message n ∷ [])) (Tells-first conv q c told (sym e))
  Outcome-Connects laws closing conv q (some (frame x)) s r told e (s', run, closes) =
      ap (λ r. r >>= λ x. some (connect_of x)) run
  Outcome-Connects laws closing conv q none s r told e (s', run, closes) =
      ap (λ r. r >>= λ x. some (connect_of x)) run

  -- A session that the listener made under a valid number, with a server's task that begins and takes any
  -- turns, over channels that keep their laws: when the task's first message is what `accept` waits for,
  -- `accept_stream` returns and sends one message, with that number, if the connection was established,
  -- and none if not; and at the end of the task the listener is told the same number.
  pub session-Connects :
      ⦃E : Engine⦄ ⦃L : NumberLaws E⦄ (laws : ReceiverLaws C.output) (closing : CloseLaws C.input)
      (config : KcpConfig) (conv : ℕ) (random : ℕ → ℕ) (t u : Task) (spawn : Spawn)
      (overs : List Bool) (n : ℕ)
      → is_valid_conv conv ≡ true
      → start random (new_task config conv) ≡ some (tt, t)
      → Turns t u
      → (spawn_task spawn config conv).answer ≡ first u.sent
      → closing.waits (spawn_task spawn config conv).input < n
      → closing.waits (spawn_task spawn config syn_conv).input < n
      → Connects conv (first u.sent) (accept_stream config conv spawn (overs ++ replicate n true))
        × (disconnect (finish u).1 ≡ disconnect_message conv)
  unfolding accept_stream disconnect
  session-Connects laws closing config conv random t u spawn overs n valid begun turns asked h h' =
      let (told, number) = server-Tells config conv random t u valid begun turns in
      let outcome = rw valid at ((accept-Outcome laws closing config conv spawn overs n h h').0) in
      let connects = Outcome-Connects laws closing conv u.sent _ _ _ told asked outcome in
      (rw asked at connects, ap disconnect_message number)
