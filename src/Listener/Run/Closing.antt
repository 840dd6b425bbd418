-- ===== src/Listener/Run/Closing.antt =====
-- src/udp.rs: a listener that closes. It takes no new session, and forgets each one whose message
-- `Disconnect` it takes.
pub mod Forgets
use mathlib.Core.Path.{subst}
use kcp_rs.Base.{
  ℕ, zero, suc, ◌≡◌, refl, sym, ap, ◌∙◌, Bool, true, false, not, ◌&&◌, ◌||◌, Option, none, some,
  List, [], ◌∷◌, Bytes, ◌⊎◌, inl, inr, if◌then◌else◌, ◌==◌, length, Option-cases, arith,
}
use kcp_rs.ConvCache.{add}
use kcp_rs.Config.{listener_task_loop}
use kcp_rs.Protocol.Packet.{read_conv, ◌>>=◌}
use kcp_rs.Listener.{
  Tables, Listener, Session, SocketAddr, Found, session_of, connected_session, read_session_id,
  is_syn, accept_session, find_by_id, find_by_frame, find_by_conv, find, get_session,
  connect_session, on_connect, kill_session, disconnect_session, on_disconnect, close, conv_of,
}
use kcp_rs.Listener.Agreement.{TableLaws, clash, same_nat}
use kcp_rs.Listener.Leaving.{without_session}
use kcp_rs.Listener.Run.{
  World, Incoming, packet_from, socket_error, socket_ended, Message, connect_message,
  disconnect_message, Event, received, feed, message, cancelled, Out, receive, try_send,
  process_msg, on_event, drain, turn_head, Turn, go_round, run_turns, and_out, deliver,
}
use kcp_rs.Listener.Run.Safe.{Holds, Holds-at, bind-Holds, if-Holds}

module _ ⦃T : Tables⦄ where
  abbrev Unchanged : Listener → Listener × Option Session → Type 0
  Unchanged l (l', s) = l' ≡ l

  find_by_id-Unchanged :
      (l : Listener) (pkt_conv : ℕ) (id : Bytes) (addr : SocketAddr) (permitted : Bool)
      (random : ℕ → ℕ) (fuel now : ℕ) (conv : Option ℕ)
      → l.is_closing ≡ true
      → Holds (Unchanged l) (find_by_id l pkt_conv id addr permitted random fuel now conv)
  unfolding find_by_id is_syn
  find_by_id-Unchanged l pkt_conv id addr permitted random fuel now (some conv) closing = refl
  find_by_id-Unchanged l pkt_conv id addr permitted random fuel now none closing = rw closing refl

  find_by_frame-Unchanged :
      (l : Listener) (pkt_conv : ℕ) (addr : SocketAddr) (permitted : Bool) (random : ℕ → ℕ)
      (fuel now : ℕ) (id : Option Bytes)
      → l.is_closing ≡ true
      → Holds (Unchanged l) (find_by_frame l pkt_conv addr permitted random fuel now id)
  unfolding find_by_frame
  find_by_frame-Unchanged l pkt_conv addr permitted random fuel now none closing = refl
  find_by_frame-Unchanged l pkt_conv addr permitted random fuel now (some id) closing =
      find_by_id-Unchanged l pkt_conv id addr permitted random fuel now (conv_of l id) closing

  find_by_conv-Unchanged :
      (l : Listener) (packet : Bytes) (pkt_conv : ℕ) (addr : SocketAddr) (permitted : Bool)
      (random : ℕ → ℕ) (fuel now : ℕ) (s : Option Session)
      → l.is_closing ≡ true
      → Holds (Unchanged l) (find_by_conv l packet pkt_conv addr permitted random fuel now s)
  unfolding find_by_conv
  find_by_conv-Unchanged l packet pkt_conv addr permitted random fuel now (some s) closing = refl
  find_by_conv-Unchanged l packet pkt_conv addr permitted random fuel now none closing =
      bind-Holds (read_session_id packet l.config.session_key) _ (Unchanged l)
        λ id e. find_by_frame-Unchanged l pkt_conv addr permitted random fuel now id closing

  find-Unchanged :
      (l : Listener) (packet : Bytes) (addr : SocketAddr) (permitted : Bool) (random : ℕ → ℕ)
      (fuel now : ℕ) (conv : Option ℕ)
      → l.is_closing ≡ true
      → Holds (Unchanged l) (find l packet addr permitted random fuel now conv)
  unfolding find
  find-Unchanged l packet addr permitted random fuel now none closing = refl
  find-Unchanged l packet addr permitted random fuel now (some conv) closing =
      find_by_conv-Unchanged l packet conv addr permitted random fuel now (session_of l conv)
        closing

  -- No packet changes a listener that closes.
  get_session-Unchanged :
      (l : Listener) (packet : Bytes) (addr : SocketAddr) (permitted : Bool) (random : ℕ → ℕ)
      (fuel now : ℕ)
      → l.is_closing ≡ true
      → Holds (Unchanged l) (get_session l packet addr permitted random fuel now)
  unfolding get_session
  get_session-Unchanged l packet addr permitted random fuel now closing =
      bind-Holds (read_conv packet) _ (Unchanged l)
        λ conv e. find-Unchanged l packet addr permitted random fuel now conv closing

  module _ (laws : TableLaws) (k : ℕ) where
    -- It goes on closing, and there is no session under the number if there was none before.
    abbrev pub Shrinks : Listener → Listener → Type 0
    Shrinks l l' = (l'.is_closing ≡ true) × (session_of l k ≡ none → session_of l' k ≡ none)

    pub Shrinks-trans : (a b c : Listener) → Shrinks a b → Shrinks b c → Shrinks a c
    Shrinks-trans a b c (ab, ab') (bc, bc') = (bc, λ e. bc' (ab' e))

    abbrev pub ShrinksTo : Listener → Listener × Out → Type 0
    ShrinksTo l (l', out) = Shrinks l l'

    pub receive-Shrinks :
        (rounds : ℕ) (recved : Incoming) (more : List Incoming) (l : Listener)
        → l.is_closing ≡ true
        → Holds (ShrinksTo l) (receive rounds recved more l)
    unfolding receive close
    receive-Shrinks zero recved more l closing = (closing, λ e. e)
    receive-Shrinks (suc rounds) socket_error more l closing = (closing, λ e. e)
    receive-Shrinks (suc rounds) socket_ended more l closing = (refl, λ e. e)
    receive-Shrinks (suc rounds) (packet_from packet addr w) [] l closing =
        bind-Holds (get_session l packet addr w.permitted w.random w.fuel w.now) _ (ShrinksTo l)
          λ r e.
            (let same =
                Holds-at (Unchanged l) e
                  (get_session-Unchanged l packet addr w.permitted w.random w.fuel w.now closing) in
              rw same (closing, λ e. e))
    receive-Shrinks (suc rounds) (packet_from packet addr w) (x ∷ more) l closing =
        bind-Holds (get_session l packet addr w.permitted w.random w.fuel w.now) _ (ShrinksTo l)
          λ r e.
            (let same =
                Holds-at (Unchanged l) e
                  (get_session-Unchanged l packet addr w.permitted w.random w.fuel w.now closing) in
              bind-Holds (receive rounds x more r.0) _ (ShrinksTo l) λ rest e'.
                subst (λ before. Shrinks before rest.0) same
                  (Holds-at (ShrinksTo r.0) e'
                    (receive-Shrinks rounds x more r.0 (ap (λ l. l.is_closing) same ∙ closing))))

    connect-Shrinks :
        (l : Listener) (conv : ℕ) (s : Option Session)
        → l.is_closing ≡ true
        → session_of l conv ≡ s
        → Shrinks l (connect_session l conv s).0
    unfolding connect_session
    connect-Shrinks l conv none closing at = (closing, λ e. e)
    connect-Shrinks l conv (some s) closing at = (
      closing,
      λ e. elim (same_nat k conv) [
        | inl p ↦ absurd (clash (session_of l k) s e (ap (session_of l) p ∙ at))
        | inr ne ↦ laws.session_laws.get_write_other l.conv_map conv k _ ne ∙ e
      ],
    )

    -- The session under the number is removed, and no other one appears.
    abbrev Removes : ℕ → Listener → Listener → Type 0
    Removes conv l l' = Shrinks l l' × (k ≡ conv → session_of l' k ≡ none)

    removed :
        (l : Listener) (conv : ℕ) (l' : Listener)
        → l.is_closing ≡ true
        → l'.is_closing ≡ l.is_closing
        → l'.conv_map ≡ T.sessions.remove l.conv_map conv
        → Removes conv l l'
    removed l conv l' closing same at =
        let gone : k ≡ conv → session_of l' k ≡ none = λ p.
          ap (λ m. T.sessions.get m k) at
          ∙ ap (T.sessions.get (T.sessions.remove l.conv_map conv)) p
          ∙ laws.session_laws.get_remove l.conv_map conv in
        (
          (
            same ∙ closing,
            λ e. elim (same_nat k conv) [
              | inl p ↦ gone p
              | inr ne ↦
                  ap (λ m. T.sessions.get m k) at
                  ∙ laws.session_laws.get_remove_other l.conv_map conv k ne
                  ∙ e
            ],
          ),
          gone,
        )

    disconnect-Removes :
        (now : ℕ) (l : Listener) (conv : ℕ) (s : Option Session)
        → l.is_closing ≡ true
        → Holds (Removes conv l) (disconnect_session now l conv s)
    unfolding disconnect_session kill_session
    disconnect-Removes now l conv none closing =
        removed l conv (record l { conv_map = T.sessions.remove l.conv_map conv }) closing refl refl
    disconnect-Removes now l conv (some s) closing =
        bind-Holds (add ⦃H = T.convs⦄ now s.session_conv l.conv_cache) _ (Removes conv l)
          λ cache e. removed l conv (without_session l cache conv s) closing refl refl

    -- The message that ends the session under the number.
    abbrev pub Ends : Message → Type 0
    Ends msg = msg ≡ disconnect_message k

    abbrev pub Handles : Message → Listener → Listener × Out → Type 0
    Handles msg l (l', out) = Shrinks l l' × (Ends msg → session_of l' k ≡ none)

    not_disconnect : (conv : ℕ) → ¬ Ends (connect_message conv)
    not_disconnect conv e = ground arith

    number_of : (conv : ℕ) → Ends (disconnect_message conv) → k ≡ conv
    number_of conv e = ground (arith, e)

    pub process_msg-Handles :
        (now : ℕ) (msg : Message) (l : Listener)
        → l.is_closing ≡ true
        → Holds (Handles msg l) (process_msg now msg l)
    unfolding process_msg on_connect on_disconnect
    process_msg-Handles now (connect_message conv) l closing = (
      connect-Shrinks l conv (session_of l conv) closing refl,
      λ e. absurd (not_disconnect conv e),
    )
    process_msg-Handles now (disconnect_message conv) l closing =
        bind-Holds (on_disconnect now l conv) _ (Handles (disconnect_message conv) l) λ l' e.
          (let (shrinks, gone) =
              Holds-at (Removes conv l) e
                (disconnect-Removes now l conv (session_of l conv) closing) in
            (shrinks, λ h. gone (number_of conv h)))
