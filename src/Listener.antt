-- ===== src/Listener.antt =====
-- src/udp.rs: `Task`, the listener's table of sessions. A session stands for the channel that leads to
-- its stream. `permitted` is whether the backlog has room, `random` the generator, `now` the clock.
-- `none` is a fault in a packet, or a loop that ran out of fuel.
pub mod Agreement
pub mod Peers
pub mod Leaving
pub mod Reached
pub mod Run
pub mod Front
pub mod Accepting
use mathlib.Core.Option
use kcp_rs.Base.{
  ℕ, Bool, true, false, not, ◌&&◌, ◌||◌, Option, none, some, Bytes, length, ◌==◌, bytes_eq,
  if◌then◌else◌,
}
use kcp_rs.Hashlink.{LinkedHashMap}
use kcp_rs.Config.{KcpConfig, listener_conv_timeout}
use kcp_rs.ConvCache.{ConvCache, is_some, cache_new, allocate, add}
use kcp_rs.Protocol.Packet.{read_conv, read_payload_data, ◌>>=◌}
use kcp_rs.Protocol.Conv.{syn_conv}
use kcp_rs.Stream.Task.{strip_prefix}

-- An address is its bytes and its port.
abbrev pub SocketAddr : Type 0
SocketAddr = Bytes × ℕ

abbrev pub same_addr : SocketAddr → SocketAddr → Bool
same_addr a b = bytes_eq a.0 b.0 && (a.1 == b.1)

-- `stream_permit` and `task` are whether the option holds something.
pub record Session : Type 0 where
  pub session_conv : ℕ
  pub session_id : Bytes
  pub peer_addr : SocketAddr
  pub stream_permit : Bool
  pub task : Bool

-- The three maps.
pub record Tables : Type 1 where
  pub convs : LinkedHashMap ℕ ℕ
  pub sessions : LinkedHashMap ℕ Session
  pub ids : LinkedHashMap Bytes ℕ

-- `KcpStream::read_session_id`.
unfoldable pub read_session_id : Bytes → Bytes → Option (Option Bytes)
read_session_id packet session_key = do
  payload ← read_payload_data packet
  some (elim payload [ none ↦ none | some x ↦ strip_prefix session_key x ])

pub record Listener ⦃T : Tables⦄ : Type 0 where
  pub config : KcpConfig
  pub conv_cache : ConvCache ⦃H = T.convs⦄
  pub is_closing : Bool
  pub conv_map : T.sessions.Map
  pub sid_map : T.ids.Map

module _ ⦃T : Tables⦄ where
  abbrev pub Found : Type 0
  Found = Option (Listener × Option Session)

  -- `Task::new` without a cache of the caller's.
  unfoldable pub listener_new : KcpConfig → Listener
  listener_new config = record {
    config = config;
    conv_cache = cache_new ⦃H = T.convs⦄ listener_conv_timeout;
    is_closing = false;
    conv_map = T.sessions.map_new;
    sid_map = T.ids.map_new;
  }

  abbrev pub session_of : Listener → ℕ → Option Session
  session_of l conv = T.sessions.get l.conv_map conv

  abbrev pub conv_of : Listener → Bytes → Option ℕ
  conv_of l id = T.ids.get l.sid_map id

  abbrev pub in_use : Option Session → Bool
  in_use none = false
  in_use (some s) = true

  -- The session, when the packet is from its peer.
  abbrev pub from_peer : SocketAddr → Option Session → Option Session
  from_peer addr none = none
  from_peer addr (some s) = if same_addr s.peer_addr addr then some s else none

  abbrev pub new_session : ℕ → Bytes → SocketAddr → Session
  new_session conv id addr = record {
    session_conv = conv;
    session_id = id;
    peer_addr = addr;
    stream_permit = true;
    task = true;
  }

  abbrev pub with_session : Listener → ConvCache ⦃H = T.convs⦄ → Session → Listener
  with_session l cache s = record l {
    conv_cache = cache;
    sid_map = T.ids.insert l.sid_map s.session_id s.session_conv;
    conv_map = T.sessions.insert l.conv_map s.session_conv s;
  }

  unfoldable pub accept_session : Listener → Bytes → SocketAddr → (ℕ → ℕ) → ℕ → ℕ → Found
  accept_session l id addr random fuel now = do
    r ← allocate ⦃H = T.convs⦄ (λ conv. in_use (session_of l conv)) random fuel now l.conv_cache
    let l' = with_session l r.0 (new_session r.1 id addr) in some (l', session_of l' r.1)

  unfoldable pub is_syn : Listener → ℕ → Bytes → Bool
  is_syn l pkt_conv id =
      not (l.is_closing || not (pkt_conv == syn_conv) || not (length id == l.config.session_id_len))

  unfoldable pub find_by_id :
      Listener → ℕ → Bytes → SocketAddr → Bool → (ℕ → ℕ) → ℕ → ℕ → Option ℕ → Found
  find_by_id l pkt_conv id addr permitted random fuel now (some conv) = some (
    l,
    if (conv == pkt_conv) || (pkt_conv == syn_conv)
        then from_peer addr (session_of l conv)
        else none,
  )
  find_by_id l pkt_conv id addr permitted random fuel now none =
      let accepted = accept_session l id addr random fuel now in
      if is_syn l pkt_conv id && permitted then accepted else some (l, none)

  unfoldable pub find_by_frame :
      Listener → ℕ → SocketAddr → Bool → (ℕ → ℕ) → ℕ → ℕ → Option Bytes → Found
  find_by_frame l pkt_conv addr permitted random fuel now none = some (l, none)
  find_by_frame l pkt_conv addr permitted random fuel now (some id) =
      find_by_id l pkt_conv id addr permitted random fuel now (conv_of l id)

  unfoldable pub find_by_conv :
      Listener → Bytes → ℕ → SocketAddr → Bool → (ℕ → ℕ) → ℕ → ℕ → Option Session → Found
  find_by_conv l packet pkt_conv addr permitted random fuel now (some s) =
      some (l, from_peer addr (some s))
  find_by_conv l packet pkt_conv addr permitted random fuel now none = do
    id ← read_session_id packet l.config.session_key
    find_by_frame l pkt_conv addr permitted random fuel now id

  unfoldable pub find : Listener → Bytes → SocketAddr → Bool → (ℕ → ℕ) → ℕ → ℕ → Option ℕ → Found
  find l packet addr permitted random fuel now none = some (l, none)
  find l packet addr permitted random fuel now (some pkt_conv) =
      find_by_conv l packet pkt_conv addr permitted random fuel now (session_of l pkt_conv)

  unfoldable pub get_session : Listener → Bytes → SocketAddr → Bool → (ℕ → ℕ) → ℕ → ℕ → Found
  get_session l packet addr permitted random fuel now = do
    pkt_conv ← read_conv packet
    find l packet addr permitted random fuel now pkt_conv

  abbrev pub connected_session : Session → Session
  connected_session s = record s { task = false; stream_permit = false }

  -- `Message::Connect` of the stream with this number. The result is the address of the peer, when the
  -- stream goes to the application.
  unfoldable pub connect_session : Listener → ℕ → Option Session → Listener × Option SocketAddr
  connect_session l conv none = (l, none)
  connect_session l conv (some s) = (
    record l { conv_map = T.sessions.write l.conv_map conv (connected_session s) },
    if s.stream_permit then some s.peer_addr else none,
  )

  unfoldable pub on_connect : Listener → ℕ → Listener × Option SocketAddr
  on_connect l conv = connect_session l conv (session_of l conv)

  unfoldable pub kill_session : ℕ → Listener → Session → Option Listener
  kill_session now l s = do
    cache ← add ⦃H = T.convs⦄ now s.session_conv l.conv_cache
    some (record l { conv_cache = cache; sid_map = T.ids.remove l.sid_map s.session_id })

  unfoldable pub disconnect_session : ℕ → Listener → ℕ → Option Session → Option Listener
  disconnect_session now l conv none =
      some (record l { conv_map = T.sessions.remove l.conv_map conv })
  disconnect_session now l conv (some s) =
      kill_session now (record l { conv_map = T.sessions.remove l.conv_map conv }) s

  -- `Message::Disconnect`.
  unfoldable pub on_disconnect : ℕ → Listener → ℕ → Option Listener
  on_disconnect now l conv = disconnect_session now l conv (session_of l conv)

  -- The token is cancelled, or the socket ends.
  unfoldable pub close : Listener → Listener
  close l = record l { is_closing = true }
