-- ===== src/Listener/Reached.antt =====
-- src/udp.rs: the tables in every state that the listener can reach, and whose packets a session gets.
use mathlib.Core.Option.{some-injective}
use kcp_rs.Base.{
  ℕ, ◌≡◌, refl, sym, ap, ◌∙◌, Bool, and_true, Bool-cases, Option-cases, inl, inr, Option, none,
  some, Bytes, ==_iff, bytes_eq_sound, arith,
}
use kcp_rs.Config.{KcpConfig}
use kcp_rs.ConvCache.{add}
use kcp_rs.Listener.{
  Tables, Listener, Session, SocketAddr, listener_new, session_of, from_peer, same_addr,
  with_session, new_session, get_session, connect_session, on_connect, kill_session,
  disconnect_session, on_disconnect, close,
}
use kcp_rs.Listener.Agreement.{Consistent, TableLaws, with_session-Consistent, same_nat}
use kcp_rs.Listener.Peers.{Answer, known, nothing, created, get_session-Answers}
use kcp_rs.Listener.Leaving.{
  listener_new-Consistent, written-Consistent, without_session-Consistent,
}

module _ ⦃T : Tables⦄ where
  -- What the listener can do: answer a packet, take a message of a session, begin to close.
  pub data Step : Listener → Listener → Type 0 where
    packet_step :
        (l l' : Listener) (packet : Bytes) (addr : SocketAddr) (permitted : Bool) (random : ℕ → ℕ)
        (fuel now : ℕ) (r : Option Session)
        → get_session l packet addr permitted random fuel now ≡ some (l', r)
        → Step l l'
    connect_step : (l : Listener) (conv : ℕ) → Step l (on_connect l conv).0
    disconnect_step :
        (l l' : Listener) (conv now : ℕ) → on_disconnect now l conv ≡ some l' → Step l l'
    close_step : (l : Listener) → Step l (close l)

  pub data Reachable (config : KcpConfig) : Listener → Type 0 where
    initially : Reachable config (listener_new config)
    later : (l l' : Listener) → Reachable config l → Step l l' → Reachable config l'

  module _ (laws : TableLaws) where
    on_connect-Consistent :
        (l : Listener) (conv : ℕ) → Consistent l → Consistent (on_connect l conv).0
    unfolding on_connect connect_session
    on_connect-Consistent l conv ok_l = elim (Option-cases (session_of l conv)) [
      | inl e ↦ rw e ok_l
      | inr (s, e) ↦ rw e (written-Consistent laws l conv s ok_l e)
    ]

    absent-Consistent :
        (l : Listener) (conv : ℕ)
        → Consistent l
        → session_of l conv ≡ none
        → Consistent (record l { conv_map = T.sessions.remove l.conv_map conv })
    absent-Consistent l conv ok_l gone = record {
      session_known = λ c s e. ok_l.session_known c s (sym (kept c) ∙ e);
      id_known = λ id c e.
          (let (s, there, same_id) = ok_l.id_known id c e in (s, kept c ∙ there, same_id));
    }
      where
        kept : (c : ℕ) → T.sessions.get (T.sessions.remove l.conv_map conv) c ≡ session_of l c
        kept c = elim (same_nat c conv) [
          | inl p ↦
              ap (T.sessions.get (T.sessions.remove l.conv_map conv)) p
              ∙ laws.session_laws.get_remove l.conv_map conv
              ∙ sym gone
              ∙ ap (session_of l) (sym p)
          | inr ne ↦ laws.session_laws.get_remove_other l.conv_map conv c ne
        ]

    on_disconnect-Consistent :
        (now : ℕ) (l l' : Listener) (conv : ℕ)
        → Consistent l
        → on_disconnect now l conv ≡ some l'
        → Consistent l'
    unfolding on_disconnect disconnect_session kill_session
    on_disconnect-Consistent now l l' conv ok_l run = elim (Option-cases (session_of l conv)) [
      | inl e ↦ rw (← some-injective _ _ (rw e at run)) (absent-Consistent l conv ok_l e)
      | inr (s, e) ↦ elim (Option-cases (add ⦃H = T.convs⦄ now s.session_conv l.conv_cache)) [
        | inl out ↦ absurd (ground (arith, rw (e, out) at run))
        | inr (cache, added) ↦
            rw (← some-injective _ _ (rw (e, added) at run))
              (without_session-Consistent laws l cache conv s ok_l e)
      ]
    ]

    Answer-Consistent :
        (l : Listener) (addr : SocketAddr) (l' : Listener) (r : Option Session)
        → Answer l addr l' r
        → Consistent l
        → Consistent l'
    Answer-Consistent l addr l' r (known c) ok_l = ok_l
    Answer-Consistent l addr l' r nothing ok_l = ok_l
    Answer-Consistent l addr l' r (created cache conv id new_conv new_id) ok_l =
        with_session-Consistent laws l cache (new_session conv id addr) ok_l new_conv new_id

    Step-Consistent : (l l' : Listener) → Step l l' → Consistent l → Consistent l'
    unfolding close
    Step-Consistent l l' (packet_step _ _ packet addr permitted random fuel now r e) ok_l =
        Answer-Consistent l addr l' r
          (rw e at (get_session-Answers l addr permitted random fuel now packet)) ok_l
    Step-Consistent l l' (connect_step _ conv) ok_l = on_connect-Consistent l conv ok_l
    Step-Consistent l l' (disconnect_step _ _ conv now e) ok_l =
        on_disconnect-Consistent now l l' conv ok_l e
    Step-Consistent l l' (close_step _) ok_l = record {
      session_known = ok_l.session_known;
      id_known = ok_l.id_known;
    }

  -- Over maps that obey the laws of hashlink, in every state that the listener can reach, each
  -- session stands under its own conversation number and its id leads to it, and each id that is
  -- known leads to a session that has it: the two tables are inverse to each other.
  pub Reachable-Consistent :
      (laws : TableLaws) (config : KcpConfig) (l : Listener) → Reachable config l → Consistent l
  Reachable-Consistent laws config l initially = listener_new-Consistent laws config
  Reachable-Consistent laws config l (later l0 _ before step) =
      Step-Consistent laws l0 l step (Reachable-Consistent laws config l0 before)

  Owned : Listener → SocketAddr → Session → Type 0
  Owned l addr s = (s.peer_addr ≡ addr) × (session_of l s.session_conv ≡ some s)

  from_peer-same :
      (addr : SocketAddr) (o : Option Session) (s : Session)
      → from_peer addr o ≡ some s
      → (o ≡ some s) × (s.peer_addr ≡ addr)
  from_peer-same addr none s e = absurd (ground arith)
  from_peer-same addr (some s0) s e = elim (Bool-cases (same_addr s0.peer_addr addr)) [
    | inr other ↦ absurd (ground (arith, rw other at e))
    | inl same ↦
        (let q : s0 ≡ s = some-injective _ _ (rw same at e) in
          let (ip, port) = and_true _ _ same in
          (
            ap (λ s. some s) q,
            ap (λ s. s.peer_addr) (sym q) ∙ (λ i. (
              bytes_eq_sound s0.peer_addr.0 addr.0 ip i,
              (==_iff s0.peer_addr.1 addr.1).0 port i,
            )),
          ))
  ]

  Answer-Owned :
      (laws : TableLaws) (l : Listener) (addr : SocketAddr) (l' : Listener) (r : Option Session)
      (s : Session)
      → Answer l addr l' r
      → Consistent l
      → r ≡ some s
      → Owned l' addr s
  unfolding Owned
  Answer-Owned laws l addr l' r s (known c) ok_l e =
      let (there, same) = from_peer-same addr (session_of l c) s e in
      (same, ap (session_of l) (ok_l.session_known c s there).0 ∙ there)
  Answer-Owned laws l addr l' r s nothing ok_l e = absurd (ground arith)
  Answer-Owned laws l addr l' r s (created cache conv id new_conv new_id) ok_l e =
      let new : Session = new_session conv id addr in
      let there = laws.session_laws.get_insert l.conv_map conv new in
      let q : new ≡ s = some-injective _ _ (sym there ∙ e) in
      (
        ap (λ s. s.peer_addr) (sym q),
        ap (λ x. session_of (with_session l cache new) x.session_conv) (sym q) ∙ e,
      )

  -- Over maps that obey the laws of hashlink, a packet that a reachable listener passes on goes to
  -- a session of the address that the packet came from, and that session is the one in the table
  -- under its number: nobody else's packets reach it.
  pub get_session-peer :
      (laws : TableLaws) (config : KcpConfig) (l l' : Listener) (packet : Bytes) (addr : SocketAddr)
      (permitted : Bool) (random : ℕ → ℕ) (fuel now : ℕ) (s : Session)
      → Reachable config l
      → get_session l packet addr permitted random fuel now ≡ some (l', some s)
      → (s.peer_addr ≡ addr) × (session_of l' s.session_conv ≡ some s)
  unfolding Owned
  get_session-peer laws config l l' packet addr permitted random fuel now s reached e =
      Answer-Owned laws l addr l' (some s) s
        (rw e at (get_session-Answers l addr permitted random fuel now packet))
        (Reachable-Consistent laws config l reached) refl
