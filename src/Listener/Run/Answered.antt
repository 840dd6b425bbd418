-- ===== src/Listener/Run/Answered.antt =====
-- src/udp.rs: that the listener answers every packet and every message.
use kcp_rs.Base.{
  ℕ, ◌<◌, ◌≡◌, refl, ap, ◌∙◌, true, ◌&&◌, Option, none, some, Bytes, Bool-cases, inl, inr,
}
use kcp_rs.Hashlink.{MapLaws}
use kcp_rs.ConvCache.{ConvCache, is_free, cache_update}
use kcp_rs.ConvCache.Laws.{cache_update-fresh_from, allocate-free}
use kcp_rs.Protocol.Conv.{is_valid_conv}
use kcp_rs.Protocol.Packet.{◌>>=◌}
use kcp_rs.Protocol.Payload.{read_payload_data-FirstPayload}
use kcp_rs.Stream.Hostile.{read_conv-some}
use kcp_rs.Listener.{
  Tables, Listener, Session, SocketAddr, session_of, conv_of, in_use, accept_session, is_syn,
  find_by_id, find_by_frame, find_by_conv, find, get_session, read_session_id,
}
use kcp_rs.Listener.Run.{World}

-- There is a result.
abbrev pub Gives : {A : Type 0} → Option A → Type 0
Gives {A} o = (a : A) × (o ≡ some a)

bind-Gives :
    {A B : Type 0} (o : Option A) (f : A → Option B)
    → Gives o
    → ((a : A) → Gives (f a))
    → Gives (o >>= f)
bind-Gives o f (a, e) h = let (b, e') = h a in (b, ap (λ x. x >>= f) e ∙ e')

read_session_id-Gives : (packet key : Bytes) → Gives (read_session_id packet key)
unfolding read_session_id
read_session_id-Gives packet key =
    let (r, e, first) = read_payload_data-FirstPayload packet in
    bind-Gives _ _ (r, e) λ payload. (_, refl)

module _ ⦃T : Tables⦄ (cache_laws : MapLaws T.convs) where
  -- One of the draws within the fuel is a number for a new session: it is valid, no session has it, and
  -- the cache does not keep it back.
  abbrev pub HasNumber : Listener → World → Type 0
  HasNumber l w =
      (n : ℕ) × (n < w.fuel)
      × (is_valid_conv (w.random n) ≡ true)
      × ((c : ConvCache ⦃H = T.convs⦄)
          → cache_update ⦃H = T.convs⦄ w.now l.conv_cache ≡ some c
          → is_free ⦃H = T.convs⦄ (λ conv. in_use (session_of l conv)) c (w.random n) ≡ true)

  module _ (l : Listener) (addr : SocketAddr) (w : World) (number : HasNumber l w) where
    accept_session-Gives : (id : Bytes) → Gives (accept_session l id addr w.random w.fuel w.now)
    unfolding accept_session
    accept_session-Gives id =
        let (n, lt, valid, free) = number in
        let (c, updated, _, _) =
          cache_update-fresh_from ⦃H = T.convs⦄ cache_laws w.now l.conv_cache in
        let (conv, run, _, _, _) =
          allocate-free ⦃H = T.convs⦄ (λ conv. in_use (session_of l conv)) w.random w.fuel w.now n
            l.conv_cache c updated lt valid (free c updated) in
        bind-Gives _ _ ((c, conv), run) λ r. (_, refl)

    find_by_id-Gives :
        (pkt_conv : ℕ) (id : Bytes) (o : Option ℕ)
        → Gives (find_by_id l pkt_conv id addr w.permitted w.random w.fuel w.now o)
    unfolding find_by_id
    find_by_id-Gives pkt_conv id (some conv) = (_, refl)
    find_by_id-Gives pkt_conv id none = elim (Bool-cases (is_syn l pkt_conv id && w.permitted)) [
      | inl h ↦ rw h (accept_session-Gives id)
      | inr h ↦ rw h (_, refl)
    ]

    find_by_frame-Gives :
        (pkt_conv : ℕ) (o : Option Bytes)
        → Gives (find_by_frame l pkt_conv addr w.permitted w.random w.fuel w.now o)
    unfolding find_by_frame
    find_by_frame-Gives pkt_conv none = (_, refl)
    find_by_frame-Gives pkt_conv (some id) = find_by_id-Gives pkt_conv id (conv_of l id)

    find_by_conv-Gives :
        (packet : Bytes) (pkt_conv : ℕ) (o : Option Session)
        → Gives (find_by_conv l packet pkt_conv addr w.permitted w.random w.fuel w.now o)
    unfolding find_by_conv
    find_by_conv-Gives packet pkt_conv (some s) = (_, refl)
    find_by_conv-Gives packet pkt_conv none =
        bind-Gives _ _ (read_session_id-Gives packet l.config.session_key)
          (find_by_frame-Gives pkt_conv)

    find-Gives :
        (packet : Bytes) (o : Option ℕ)
        → Gives (find l packet addr w.permitted w.random w.fuel w.now o)
    unfolding find
    find-Gives packet none = (_, refl)
    find-Gives packet (some c) = find_by_conv-Gives packet c (session_of l c)

  -- Over a map that obeys the laws of hashlink, when one of the draws within the fuel is a number
  -- that is valid, that no session has and that the cache does not keep back, `get_session` returns
  -- for every packet from every address: no bytes make it fault.
  pub get_session-Gives :
      (l : Listener) (packet : Bytes) (addr : SocketAddr) (w : World)
      → HasNumber l w
      → Gives (get_session l packet addr w.permitted w.random w.fuel w.now)
  unfolding get_session
  get_session-Gives l packet addr w number =
      bind-Gives _ _ (read_conv-some packet) (find-Gives l addr w number packet)
