-- ===== src/Example/Endings.antt =====
-- The theorems on the task of a connection, at concrete states and packets.
use kcp_rs.Base.{
  ℕ, ◌≡◌, ◌↔◌, refl, true, false, none, some, List, [], ◌∷◌, ◌++◌, Bytes, length, replicate, arith,
}
use kcp_rs.Config.{KcpConfig, default}
use kcp_rs.Protocol.Packet.{read_cmd, write_cmd, read_payload_data}
use kcp_rs.Protocol.Kcp
use kcp_rs.Protocol.Kcp.{Kcp}
use kcp_rs.Stream.Handshake.{
  Handshake, syn, connected, fin_pending, fin_sent, fin_wait_peer, disconnected,
}
use kcp_rs.Stream.Flags.{Flags, no_flags, insert, has, fin_recved_flag}
use kcp_rs.Stream.Task.{Task, task_monad, move_to, set_handshake, kcp_flush, kcp_recv}
use kcp_rs.Stream.Task.Fin.{fin_transit_state, fin_next, fin_loop, is_fin_handshake}
use kcp_rs.Stream.Task.Input.{
  kcp_input, after_input, input_failed, flagged_input, fin_input, fin_received,
}
use kcp_rs.Stream.Task.Sending.{outgoing, kcp_output}
use kcp_rs.Stream.Task.Syn.{syn_session_id, syn_frame}
use kcp_rs.Stream.Run.{
  packets, again, loop_head, on_event, advance_handshake, send_queued, output_queued, is_expired,
  schedule, wait_or_update, on_packets, input_all, fetch,
}
use kcp_rs.Stream.Order.Follows.{Follows}
use kcp_rs.Stream.Order.Follows.Turns.{turn-Follows}
use kcp_rs.Stream.Closing.{Stops, Returns, fin_transit_state-settles}
use kcp_rs.Stream.FinPacket.{fin_packet_roundtrip, fin_wait_peer-waits}
use kcp_rs.Stream.Sent.{Sent, kcp_output-Sent}
use kcp_rs.Stream.Syn.{syn_session_id_iff}
use kcp_rs.Stream.Agreed.{Established}
use kcp_rs.Stream.Agreed.Frame.{handshake-Agrees}
use kcp_rs.Stream.Hostile.{kcp_input-returns}
use kcp_rs.Example.Engine.{toy, toy-NodelayLaws, toy-SendLaws, toy-InputLaws}
use kcp_rs.Example.Packets.{data_packet, toy_kcp, idle}

abbrev settings : KcpConfig
settings = record default { session_key = 1 ∷ 2 ∷ []; session_id_len = 3 }

abbrev closing_flags : Flags
closing_flags = record { client = true; flush = false; fin_recved = false; input_closed = true }

-- A connected task whose input has ended, with a packet in the queue.
abbrev task_at : Handshake → Task
task_at hs = record {
  kcp = record (toy_kcp idle 0) { output_queue = data_packet ∷ (1 ∷ []) ∷ [] };
  config = settings;
  rx_closed = false;
  rx_buf = [];
  hs = hs;
  flags = closing_flags;
  hs_end_time = 0;
  last_io_time = 0;
  session_id = 7 ∷ 8 ∷ 9 ∷ [];
  tx_frame = none;
  sent = [];
}

abbrev fin_packet : Bytes
fin_packet = 7 ∷ 0 ∷ 0 ∷ 0 ∷ 113 ∷ replicate 15 0 ++ (2 ∷ 0 ∷ 0 ∷ 0 ∷ 5 ∷ 6 ∷ [])

fin_transit_state-settles_example :
    Returns (fin_transit_state (task_at connected)) (λ t'. Stops t'.hs t')
fin_transit_state-settles_example =
    fin_transit_state-settles (task_at connected) toy-SendLaws
      (omega arith, omega arith, omega arith)

kcp_input-returns_example : (u : Task) × (kcp_input fin_packet (task_at connected) ≡ some (tt, u))
kcp_input-returns_example =
    kcp_input-returns fin_packet (task_at connected) toy-SendLaws toy-InputLaws
      (omega arith, omega arith, omega arith)

kcp_output-Sent_example :
    (fed : List Bytes) × (kcp_output fin_sent (λ i. true) true (task_at fin_sent).kcp
      ≡ some (fed, true, record ((task_at fin_sent).kcp) { output_queue = [] }))
    × Sent fin_sent (λ i. true) 0 (data_packet ∷ (1 ∷ []) ∷ []) fed
kcp_output-Sent_example = kcp_output-Sent fin_sent (λ i. true) true (task_at fin_sent).kcp

syn_session_id_iff_example :
    (syn_session_id settings (1 ∷ 2 ∷ 7 ∷ 8 ∷ 9 ∷ []) ≡ some (7 ∷ 8 ∷ 9 ∷ [])) ↔ (
      (1 ∷ 2 ∷ 7 ∷ 8 ∷ 9 ∷ [] ≡ settings.session_key ++ (7 ∷ 8 ∷ 9 ∷ []))
      × (length {A = ℕ} (7 ∷ 8 ∷ 9 ∷ []) ≡ 3))
syn_session_id_iff_example = syn_session_id_iff settings (1 ∷ 2 ∷ 7 ∷ 8 ∷ 9 ∷ []) (7 ∷ 8 ∷ 9 ∷ [])

abbrev peer_done : Task
peer_done = record (task_at fin_wait_peer) { flags = insert closing_flags fin_recved_flag }

fin_wait_peer-waits_example :
    (advance_handshake true peer_done ≡ some (tt, peer_done))
    × (fin_transit_state peer_done ≡ some (tt, move_to disconnected peer_done))
unfolding insert has
fin_wait_peer-waits_example = fin_wait_peer-waits peer_done true refl refl

-- In the state FinPending, with input still to come: the FIN handshake stays where it is.
abbrev waiting : Task
waiting = record (task_at fin_pending) { flags = no_flags }

abbrev noted : Task
noted = record waiting {
  flags = record { client = false; flush = false; fin_recved = true; input_closed = false };
  rx_closed = true;
}

fin_packet_roundtrip_example : kcp_input fin_packet waiting ≡ some (tt, noted)
unfolding read_cmd read_payload_data outgoing Kcp.input fin_received fin_transit_state task_monad
    fin_next has insert write_cmd fin_loop
fin_packet_roundtrip_example =
    fin_packet_roundtrip data_packet fin_packet (5 ∷ 6 ∷ []) 81 waiting noted waiting.kcp
      waiting.kcp refl (omega arith) (omega arith) refl refl refl refl refl

-- A turn of a connected task: the queue goes out, the clock is read, and the peer's FIN comes.
abbrev before : Task
before = record (task_at connected) { flags = no_flags }

abbrev between : Task
between = record before {
  kcp = record (before.kcp) {
    handle = record (before.kcp.handle) { current = 658067457 };
    output_queue = [];
  };
}

abbrev behind : Task
behind = record between {
  flags = record { client = false; flush = false; fin_recved = true; input_closed = false };
  rx_closed = true;
  hs = fin_pending;
  hs_end_time = 658077457;
}

turn-Follows_example : Follows before between × Follows between behind
unfolding loop_head send_queued output_queued kcp_output is_expired schedule wait_or_update on_event
    on_packets kcp_input after_input input_failed flagged_input fin_input input_all
    advance_handshake fetch kcp_recv Kcp.recv_bytes Kcp.peek_size kcp_flush fin_received
    fin_transit_state fin_next set_handshake is_fin_handshake task_monad has insert Kcp.has_output
    Kcp.is_dead_link Kcp.duration_since Kcp.check Kcp.update Kcp.outputs Kcp.get_system_time
    Kcp.input read_cmd write_cmd fin_loop
turn-Follows_example =
    turn-Follows (λ i. true) true false (packets (some fin_packet) [] true) before between behind
      (data_packet ∷ (1 ∷ []) ∷ [], again) again refl refl

abbrev server : Task
server = record before { hs = syn; session_id = [] }

abbrev client : Task
client = record before {
  hs = syn;
  flags = record { client = true; flush = false; fin_recved = false; input_closed = false };
}

handshake-Agrees_example :
    (u : Task) × (v : Task) × (syn_frame
        (some (client.config.session_key ++ client.session_id))
        true
        server
      ≡ some (true, u))
    × Established server client.session_id u
    × (syn_frame (some (u.config.session_key ++ u.session_id)) true client ≡ some (true, v))
    × Established client client.session_id v
unfolding has
handshake-Agrees_example =
    handshake-Agrees toy-SendLaws toy-NodelayLaws server client refl refl refl refl refl
      (omega arith, omega arith, omega arith)
