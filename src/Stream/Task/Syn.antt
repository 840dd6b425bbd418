-- ===== src/Stream/Task/Syn.antt =====
-- src/stream.rs: `syn_handshake_recv` and `syn_handshake_input`.
use kcp_rs.Base.{
  ℕ, Bool, true, false, not, ◌&&◌, ◌||◌, Option, none, some, [], ◌∷◌, ◌++◌, Bytes, length, ltb,
  ◌==◌, bytes_eq, if◌then◌else◌, invalid_input,
}
use kcp_rs.Config.{KcpConfig}
use kcp_rs.Ffi.{Engine}
use kcp_rs.Protocol.Packet.{read_conv}
use kcp_rs.Protocol.Conv.{syn_conv}
use kcp_rs.Protocol.Kcp
use kcp_rs.Stream.Handshake.{syn, connected, same}
use kcp_rs.Stream.Flags.{has, client_flag}
use kcp_rs.Stream.Task.{
  Task, Output, established, Answer, done, failed, M, pure, gets, modify, checked, call, on_kcp,
  strip_prefix, kcp_apply_nodelay, handshake_send, set_handshake, kcp_recv, ◌>>=◌, ◌>>◌,
}

-- The session id of a SYN frame, when its key and its size are right.
unfoldable pub syn_session_id : KcpConfig → Bytes → Option Bytes
syn_session_id c frame_bytes = elim (strip_prefix c.session_key frame_bytes) [
  | none ↦ none
  | some x ↦ if length x == c.session_id_len then some x else none
]

module _ ⦃E : Engine⦄ where
  abbrev pub is_client : Task → Bool
  is_client t = has t.flags client_flag

  abbrev pub add_output : Output → Task → Task
  add_output x t = record t { sent = t.sent ++ (x ∷ []) }

  -- `output_tx.try_send(Connected)`: what is sent when the channel takes it. The result is `Ok`.
  unfoldable pub establish : Bool → M Bool
  establish accepted = do
    set_handshake connected
    conv ← gets (λ t. Kcp.conv t.kcp)
    if accepted then modify (add_output (established conv)) >> pure true else pure false

  unfoldable pub client_accept : Bytes → Bool → M Bool
  client_accept id accepted = do
    verified ← gets (λ t. bytes_eq t.session_id id)
    if verified then kcp_apply_nodelay >> establish accepted else pure false

  unfoldable pub server_accept : Bytes → Bool → M Bool
  server_accept id accepted = do
    modify (λ t. record t { session_id = id })
    kcp_apply_nodelay
    handshake_send
    establish accepted

  unfoldable pub syn_accept : Option Bytes → Bool → M Bool
  syn_accept none accepted = pure false
  syn_accept (some id) accepted = do
    client ← gets is_client
    if client then client_accept id accepted else server_accept id accepted

  unfoldable pub syn_frame : Option Bytes → Bool → M Bool
  syn_frame none accepted = pure true
  syn_frame (some frame_bytes) accepted = do
    id ← gets (λ t. syn_session_id t.config frame_bytes)
    syn_accept id accepted

  -- `accepted` is whether `output_tx` takes the message. The result is whether it is `Ok`.
  unfoldable pub syn_handshake_recv : Bool → M Bool
  syn_handshake_recv accepted = do x ← kcp_recv; syn_frame x accepted

  abbrev is_failed : {A : Type 0} → Answer A → Bool
  is_failed (done a) = false
  is_failed (failed e) = true

  -- The client tries the packet's number on, and keeps it when the packet is taken and nothing of
  -- its own is left to acknowledge.
  unfoldable pub client_syn_input : ℕ → Bytes → M (Unit {0})
  client_syn_input conv packet = do
    on_kcp (λ k. Kcp.set_conv k conv)
    r ← call (λ k. Kcp.input k packet)
    waitsnd ← gets (λ t. Kcp.get_waitsnd t.kcp)
    if is_failed r || ltb 0 waitsnd then on_kcp (λ k. Kcp.set_conv k syn_conv) else pure tt

  -- The server takes the packet under the handshake's number, and goes back to its own.
  unfoldable pub server_syn_input : ℕ → Bytes → M (Unit {0})
  server_syn_input conv packet = do
    mine ← gets (λ t. Kcp.conv t.kcp)
    on_kcp (λ k. Kcp.set_conv k conv)
    call (λ k. Kcp.input k packet)
    on_kcp (λ k. Kcp.set_conv k mine)

  unfoldable pub client_syn : ℕ → Bytes → M (Answer (Unit {0}))
  client_syn conv packet = do
    ready ← gets (λ t. same t.hs syn && not (conv == syn_conv))
    if ready then client_syn_input conv packet else pure tt
    pure (done tt)

  unfoldable pub server_syn : ℕ → Bytes → M (Answer (Unit {0}))
  server_syn conv packet =
      if conv == syn_conv
      then server_syn_input conv packet >> pure (done tt)
      else pure (failed invalid_input)

  unfoldable pub syn_handshake_conv : Option ℕ → Bytes → M (Answer (Unit {0}))
  syn_handshake_conv none packet = pure (failed invalid_input)
  syn_handshake_conv (some conv) packet = do
    client ← gets is_client
    if client then client_syn conv packet else server_syn conv packet

  unfoldable pub syn_handshake_input : Bytes → M (Answer (Unit {0}))
  syn_handshake_input packet = do conv ← checked (read_conv packet); syn_handshake_conv conv packet
