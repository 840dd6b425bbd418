-- ===== src/Listener/Run/Safe.antt =====
-- src/udp.rs: what holds in every turn of the loop.
use mathlib.Core.Path.{subst}
use kcp_rs.Base.{
  ℕ, zero, suc, ◌≡◌, refl, Bool, true, false, Option, none, some, List, [], ◌∷◌, All, All-append,
  Bytes, if◌then◌else◌,
}
use kcp_rs.Config.{KcpConfig, listener_task_loop}
use kcp_rs.Protocol.Packet.{◌>>=◌}
use kcp_rs.Listener.{
  Tables, Listener, Session, SocketAddr, get_session, on_connect, on_disconnect, close,
}
use kcp_rs.Listener.Agreement.{TableLaws}
use kcp_rs.Listener.Reached.{
  packet_step, connect_step, disconnect_step, close_step, Reachable, later, get_session-peer,
}
use kcp_rs.Listener.Run.{
  World, Incoming, packet_from, socket_error, socket_ended, Message, connect_message,
  disconnect_message, Event, received, feed, message, cancelled, Out, and_out, deliver, receive,
  try_send, hand_over, process_msg, on_event, drain, turn_head, Turn, go_round, run_turns,
}

-- The session is that of the address.
abbrev pub IsAddressed : Session × Bytes × SocketAddr → Type 0
IsAddressed (s, packet, addr) = s.peer_addr ≡ addr

abbrev pub Holds : {A : Type 0} → (A → Type 0) → Option A → Type 0
Holds P none = Unit
Holds P (some a) = P a

pub Holds-at : {A : Type 0} (P : A → Type 0) {o : Option A} {a : A} → o ≡ some a → Holds P o → P a
Holds-at P e h = subst (Holds P) e h

pub bind-Holds :
    {A B : Type 0} (o : Option A) (f : A → Option B) (Q : B → Type 0)
    → ((a : A) → o ≡ some a → Holds Q (f a))
    → Holds Q (o >>= f)
bind-Holds none f Q h = tt
bind-Holds (some a) f Q h = h a refl

pub if-Holds :
    {A : Type 0} (b : Bool) (P : A → Type 0) (x y : Option A)
    → Holds P x
    → Holds P y
    → Holds P (if b then x else y)
if-Holds true P x y hx hy = hx
if-Holds false P x y hx hy = hy

module _ ⦃T : Tables⦄ (laws : TableLaws) (config : KcpConfig) where
  -- The listener is one that `Step` reaches, and what it delivered went to the senders' sessions.
  abbrev pub Safe : Listener → Out → Type 0
  Safe l out = Reachable config l × All IsAddressed out.delivered

  abbrev IsSafe : Listener × Out → Type 0
  IsSafe (l, out) = Safe l out

  and_out-Safe :
      (l : Listener) (a b : Out) → All IsAddressed a.delivered → Safe l b → Safe l (and_out a b)
  and_out-Safe l a b every (reached, every') =
      (reached, All-append IsAddressed a.delivered b.delivered every every')

  deliver-IsAddressed :
      (l l' : Listener) (packet : Bytes) (addr : SocketAddr) (w : World) (r : Option Session)
      → Reachable config l
      → get_session l packet addr w.permitted w.random w.fuel w.now ≡ some (l', r)
      → Safe l' (deliver r packet addr)
  deliver-IsAddressed l l' packet addr w none reached e = (
    later l l' reached (packet_step l l' packet addr w.permitted w.random w.fuel w.now none e),
    tt,
  )
  deliver-IsAddressed l l' packet addr w (some s) reached e = (
    later l l' reached (packet_step l l' packet addr w.permitted w.random w.fuel w.now (some s) e),
    (
      (get_session-peer laws config l l' packet addr w.permitted w.random w.fuel w.now s reached
          e).0,
      tt,
    ),
  )

  receive-Safe :
      (rounds : ℕ) (recved : Incoming) (more : List Incoming) (l : Listener)
      → Reachable config l
      → Holds IsSafe (receive rounds recved more l)
  unfolding receive
  receive-Safe zero recved more l reached = (reached, tt)
  receive-Safe (suc rounds) socket_error more l reached = (reached, tt)
  receive-Safe (suc rounds) socket_ended more l reached =
      (later l (close l) reached (close_step l), tt)
  receive-Safe (suc rounds) (packet_from packet addr w) [] l reached =
      bind-Holds (get_session l packet addr w.permitted w.random w.fuel w.now) _ IsSafe
        λ r e. deliver-IsAddressed l r.0 packet addr w r.1 reached e
  receive-Safe (suc rounds) (packet_from packet addr w) (x ∷ more) l reached =
      bind-Holds (get_session l packet addr w.permitted w.random w.fuel w.now) _ IsSafe λ r e.
        (let first = deliver-IsAddressed l r.0 packet addr w r.1 reached e in
          bind-Holds (receive rounds x more r.0) _ IsSafe λ rest e'.
            and_out-Safe rest.0 (deliver r.1 packet addr) rest.1 first.1
              (Holds-at IsSafe e' (receive-Safe rounds x more r.0 first.0)))

  hand_over-none :
      (conv : ℕ) (to : Option SocketAddr) → All IsAddressed (hand_over conv to).delivered
  hand_over-none conv none = tt
  hand_over-none conv (some addr) = tt

  process_msg-Safe :
      (now : ℕ) (msg : Message) (l : Listener)
      → Reachable config l
      → Holds IsSafe (process_msg now msg l)
  unfolding process_msg
  process_msg-Safe now (connect_message conv) l reached = (
    later l (on_connect l conv).0 reached (connect_step l conv),
    hand_over-none conv (on_connect l conv).1,
  )
  process_msg-Safe now (disconnect_message conv) l reached =
      bind-Holds (on_disconnect now l conv) _ IsSafe
        λ l' e. (later l l' reached (disconnect_step l l' conv now e), tt)

  on_event-Safe :
      (now : ℕ) (event : Event) (l : Listener)
      → Reachable config l
      → Holds IsSafe (on_event now event l)
  unfolding on_event try_send
  on_event-Safe now (received first more) l reached =
      receive-Safe listener_task_loop first more l reached
  on_event-Safe now (feed item queue) l reached = (reached, tt)
  on_event-Safe now (message msg) l reached = process_msg-Safe now msg l reached
  on_event-Safe now cancelled l reached = (later l (close l) reached (close_step l), tt)

  abbrev pub IsSafeTurn : Listener × Out × Bool → Type 0
  IsSafeTurn (l, out, stopped) = Safe l out

  drain-Safe :
      (now : ℕ) (msg : Option Message) (sessions : List (ℕ × Session)) (l : Listener)
      → Reachable config l
      → Holds IsSafeTurn (drain now msg sessions l)
  unfolding drain
  drain-Safe now (some msg) sessions l reached =
      bind-Holds (process_msg now msg l) _ IsSafeTurn
        λ r e. Holds-at IsSafe e (process_msg-Safe now msg l reached)
  drain-Safe now none [] l reached = (reached, tt)
  drain-Safe now none (s ∷ sessions) l reached = (reached, tt)

  turn_head-Safe :
      (now : ℕ) (msg : Option Message) (l : Listener)
      → Reachable config l
      → Holds IsSafeTurn (turn_head now msg l)
  unfolding turn_head
  turn_head-Safe now msg l reached =
      if-Holds l.is_closing IsSafeTurn _ _
        (drain-Safe now msg (T.sessions.entries l.conv_map) l reached) (reached, tt)

  -- Over maps that obey the laws of hashlink, from a reachable listener and through any turns of
  -- its loop that do not fault, the state stays one that single steps reach, and every packet that
  -- is handed to a session goes to the session of the address it came from.
  pub run_turns-Safe :
      (turns : List Turn) (l : Listener) → Reachable config l → Holds IsSafeTurn (run_turns turns l)
  unfolding run_turns go_round
  run_turns-Safe [] l reached = (reached, tt)
  run_turns-Safe (t ∷ ts) l reached =
      bind-Holds (turn_head t.now t.waiting_message l) _ IsSafeTurn λ r e.
        goes_on r (Holds-at IsSafeTurn e (turn_head-Safe t.now t.waiting_message l reached))
          (λ l'. run_turns-Safe ts l')
    where
      goes_on :
          (r : Listener × Out × Bool)
          → IsSafeTurn r
          → ((l' : Listener) → Reachable config l' → Holds IsSafeTurn (run_turns ts l'))
          → Holds IsSafeTurn (go_round (run_turns ts) t r)
      goes_on (l1, out, true) safe again = safe
      goes_on (l1, out, false) safe again =
          bind-Holds (on_event t.now t.event l1) _ IsSafeTurn λ r e.
            (let during = Holds-at IsSafe e (on_event-Safe t.now t.event l1 safe.0) in
              bind-Holds (run_turns ts r.0) _ IsSafeTurn λ rest e'.
                and_out-Safe rest.0 (and_out out r.1) rest.1
                  (All-append IsAddressed out.delivered r.1.delivered safe.1 during.1)
                  (Holds-at IsSafeTurn e' (again r.0 during.0)))
