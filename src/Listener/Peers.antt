-- ===== src/Listener/Peers.antt =====
-- src/udp.rs: what `get_session` answers to a packet.
use mathlib.Core.Path.{subst}
use kcp_rs.Base.{
  ℕ, ◌≡◌, refl, Bool, false, ◌&&◌, ◌||◌, Bool-cases, Option-cases, inl, inr, Option, none, some,
  Bytes, ◌==◌,
}
use kcp_rs.ConvCache.{ConvCache, allocate}
use kcp_rs.ConvCache.Laws.{allocate-unused}
use kcp_rs.Protocol.Conv.{syn_conv}
use kcp_rs.Protocol.Packet.{read_conv}
use kcp_rs.Listener.{
  Tables, Listener, Session, SocketAddr, Found, session_of, conv_of, in_use, from_peer, new_session,
  with_session, accept_session, is_syn, find_by_id, find_by_frame, find_by_conv, find, get_session,
  read_session_id,
}

module _ ⦃T : Tables⦄ where
  -- The session of a known number, when the packet is from its peer; none; or a new session, under a
  -- number and an id that no session has.
  pub data Answer (l : Listener) (addr : SocketAddr) : Listener → Option Session → Type 0 where
    known : (c : ℕ) → Answer l addr l (from_peer addr (session_of l c))
    nothing : Answer l addr l none
    created :
        (cache : ConvCache ⦃H = T.convs⦄) (conv : ℕ) (id : Bytes)
        → session_of l conv ≡ none
        → conv_of l id ≡ none
        → Answer l addr
            (with_session l cache (new_session conv id addr))
            (session_of (with_session l cache (new_session conv id addr)) conv)

  abbrev pub Answers : Listener → SocketAddr → Found → Type 0
  Answers l addr none = Unit {0}
  Answers l addr (some (l', r)) = Answer l addr l' r

  module _ (l : Listener) (addr : SocketAddr) (permitted : Bool) (random : ℕ → ℕ)
      (fuel now : ℕ) where
    unused : (o : Option Session) → in_use o ≡ false → o ≡ none
    unused none e = refl
    unused (some s) e = cc

    accept_session-Answers :
        (id : Bytes)
        → conv_of l id ≡ none
        → Answers l addr (accept_session l id addr random fuel now)
    unfolding accept_session
    accept_session-Answers id new_id =
        elim (Option-cases (
          allocate ⦃H = T.convs⦄ (λ conv. in_use (session_of l conv)) random fuel now
            l.conv_cache)) [
              | inl out ↦ rw out tt
              | inr (r, e) ↦ rw e (
                  created r.0 r.1 id
                    (unused _ (allocate-unused ⦃H = T.convs⦄ _ random fuel now l.conv_cache r e))
                    new_id)
            ]

    find_by_id-Answers :
        (pkt_conv : ℕ) (id : Bytes) (o : Option ℕ)
        → conv_of l id ≡ o
        → Answers l addr (find_by_id l pkt_conv id addr permitted random fuel now o)
    unfolding find_by_id
    find_by_id-Answers pkt_conv id (some conv) e =
        elim (Bool-cases ((conv == pkt_conv) || (pkt_conv == syn_conv))) [
          | inl h ↦ rw h (known conv)
          | inr h ↦ rw h nothing
        ]
    find_by_id-Answers pkt_conv id none e = elim (Bool-cases (is_syn l pkt_conv id && permitted)) [
      | inl h ↦ rw h (accept_session-Answers id e)
      | inr h ↦ rw h nothing
    ]

    find_by_frame-Answers :
        (pkt_conv : ℕ) (o : Option Bytes)
        → Answers l addr (find_by_frame l pkt_conv addr permitted random fuel now o)
    unfolding find_by_frame
    find_by_frame-Answers pkt_conv none = nothing
    find_by_frame-Answers pkt_conv (some id) = find_by_id-Answers pkt_conv id (conv_of l id) refl

    find_by_conv-Answers :
        (packet : Bytes) (pkt_conv : ℕ) (o : Option Session)
        → session_of l pkt_conv ≡ o
        → Answers l addr (find_by_conv l packet pkt_conv addr permitted random fuel now o)
    unfolding find_by_conv
    find_by_conv-Answers packet pkt_conv (some s) e =
        subst (λ o. Answer l addr l (from_peer addr o)) e (known pkt_conv)
    find_by_conv-Answers packet pkt_conv none e =
        elim (Option-cases (read_session_id packet l.config.session_key)) [
          | inl out ↦ rw out tt
          | inr (id, e) ↦ rw e (find_by_frame-Answers pkt_conv id)
        ]

    pub get_session-Answers :
        (packet : Bytes) → Answers l addr (get_session l packet addr permitted random fuel now)
    unfolding get_session find
    get_session-Answers packet = elim (Option-cases (read_conv packet)) [
      | inl out ↦ rw out tt
      | inr (none, e) ↦ rw e nothing
      | inr (some c, e) ↦ rw e (find_by_conv-Answers packet c (session_of l c) refl)
    ]
