-- ===== src/Stream/Task/Input.antt =====
-- src/stream.rs: `kcp_input`, what the task does with a packet from the transport.
use kcp_rs.Base.{
  ℕ, true, not, none, Bytes, bit_and, bit_xor, ◌==◌, if◌then◌else◌, ErrorKind, invalid_data,
  not_found,
}
use kcp_rs.Ffi.{Engine}
use kcp_rs.Protocol.Packet.{read_cmd, write_cmd}
use kcp_rs.Protocol.Kcp
use kcp_rs.Stream.Handshake.{disconnected}
use kcp_rs.Stream.Flags.{has, insert, flush_flag, fin_recved_flag}
use kcp_rs.Stream.Task.{
  Task, Answer, done, failed, M, pure, modify, checked, call, set_flag, set_handshake, kcp_fin,
  kcp_reset, ◌>>=◌, ◌>>◌,
}
use kcp_rs.Stream.Task.Fin.{fin_transit_state}
use kcp_rs.Stream.Task.Syn.{syn_handshake_input}

module _ ⦃E : Engine⦄ where
  -- The first FIN also closes `input_rx`.
  unfoldable pub fin_received : Task → Task
  fin_received t =
      if has t.flags fin_recved_flag
      then t
      else record t { flags = insert t.flags fin_recved_flag; rx_closed = true }

  -- The packet has the FIN flag: it goes to the library once more without it.
  unfoldable pub fin_input : ℕ → Bytes → M (Unit {0})
  fin_input cmd packet = do
    modify fin_received
    fin_transit_state
    packet' ← checked (write_cmd packet (bit_xor cmd kcp_fin))
    call (λ k. Kcp.input k packet')
    pure tt

  -- The library knows the conversation and not the command.
  unfoldable pub flagged_input : ℕ → Bytes → M (Unit {0})
  flagged_input cmd packet =
      if not (bit_and cmd kcp_reset == 0)
      then set_handshake disconnected
      else (if not (bit_and cmd kcp_fin == 0) then fin_input cmd packet else pure tt)

  unfoldable pub input_failed : ErrorKind → Bytes → M (Unit {0})
  input_failed not_found packet = syn_handshake_input packet >> pure tt
  input_failed invalid_data packet = do cmd ← checked (read_cmd packet); flagged_input cmd packet
  input_failed _ packet = checked none

  unfoldable pub after_input : Answer (Unit {0}) → Bytes → M (Unit {0})
  after_input (done u) packet = set_flag flush_flag
  after_input (failed e) packet = input_failed e packet

  unfoldable pub kcp_input : Bytes → M (Unit {0})
  kcp_input packet = do r ← call (λ k. Kcp.input k packet); after_input r packet
