-- ===== src/Stream/Task/Fin.antt =====
-- src/stream.rs: `is_fin_handshake` and `fin_transit_state`.
use kcp_rs.Base.{ℕ, zero, suc, ◌+◌, Bool, not, ◌&&◌, Option, none, some, ltb, if◌then◌else◌, u32}
use kcp_rs.Ffi.{Engine}
use kcp_rs.Protocol.Kcp
use kcp_rs.Stream.Handshake.{
  Handshake, syn, connected, fin_pending, fin_sent, fin_wait_peer, disconnected, in_fin_range,
}
use kcp_rs.Stream.Flags.{has, input_closed_flag, fin_recved_flag}
use kcp_rs.Stream.Task.{
  Task, M, pure, gets, modify, checked, deadline, handshake_send, set_handshake, ◌>>=◌, ◌>>◌,
}

module _ ⦃E : Engine⦄ where
  unfoldable pub is_fin_handshake : Task → Bool
  is_fin_handshake t = in_fin_range t.hs

  -- `nrcv_que() + nrcv_buf()`, of two u32.
  abbrev pub unread : Task → ℕ
  unread t = u32 (Kcp.nrcv_que t.kcp + Kcp.nrcv_buf t.kcp)

  abbrev set_deadline : Task → Task
  set_deadline t = record t { hs_end_time = deadline t t.config.shutdown_timeout }

  -- Everything that was sent has been acknowledged, and no more is to come.
  abbrev pub is_drained : Task → Bool
  is_drained t = has t.flags input_closed_flag && not (ltb 0 (Kcp.get_waitsnd t.kcp))

  abbrev pub is_acknowledged : Task → Bool
  is_acknowledged t = not (ltb 0 (Kcp.get_waitsnd t.kcp))

  -- The peer has finished, and all that it sent has been read.
  abbrev pub is_peer_done : Task → Bool
  is_peer_done t = has t.flags fin_recved_flag && not (ltb 0 (unread t))

  -- The `match` of one round: the state to go to, or none for `break`. The guards of the code are
  -- written as the conditions to go on.
  unfoldable pub fin_next : Handshake → M (Option Handshake)
  fin_next syn = pure (some disconnected)
  fin_next connected = modify set_deadline >> pure (some fin_pending)
  fin_next fin_pending = do
    ready ← gets is_drained
    if ready then handshake_send >> pure (some fin_sent) else pure none
  fin_next fin_sent = do
    ready ← gets is_acknowledged
    pure (if ready then some fin_wait_peer else none)
  fin_next fin_wait_peer = do
    ready ← gets is_peer_done
    pure (if ready then some disconnected else none)
  fin_next disconnected = pure none

  -- The loop. A round that goes on moves to a later state, so seven rounds are enough.
  unfoldable pub fin_loop : ℕ → M (Unit {0})
  fin_loop zero = checked none
  fin_loop (suc fuel) = do
    hs ← gets (λ t. t.hs)
    next ← fin_next hs
    elim next [ none ↦ pure tt | some state ↦ set_handshake state >> fin_loop fuel ]

  unfoldable pub fin_transit_state : M (Unit {0})
  fin_transit_state = fin_loop 7
