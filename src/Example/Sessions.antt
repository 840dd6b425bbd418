-- ===== src/Example/Sessions.antt =====
-- The theorems on the number of a server's connection, at a concrete session.
use kcp_rs.Base.{
  ℕ, ◌≡◌, refl, true, false, none, some, List, [], ◌∷◌, ◌++◌, Bytes, All, replicate, first, arith,
  pos,
}
use kcp_rs.Config.{KcpConfig, default}
use kcp_rs.KcpStream.{Spawn, spawn_task, stream_new}
use kcp_rs.Listener.Run.{disconnect_message}
use kcp_rs.Listener.Accepting.{Connects, accept_stream, disconnect, session-Connects}
use kcp_rs.Protocol.Conv.{is_valid_conv}
use kcp_rs.Protocol.Kcp
use kcp_rs.Protocol.Kcp.{Kcp}
use kcp_rs.Stream.Handshake.{syn, connected}
use kcp_rs.Stream.Flags.{no_flags, has, insert, toggle}
use kcp_rs.Stream.Task.{
  Task, established, task_monad, strip_prefix, kcp_apply_config, kcp_apply_nodelay, handshake_send,
  kcp_recv, kcp_flush, set_handshake,
}
use kcp_rs.Stream.Task.Fin.{is_fin_handshake}
use kcp_rs.Stream.Task.Input.{kcp_input, after_input}
use kcp_rs.Stream.Task.Syn.{
  syn_session_id, syn_handshake_recv, syn_frame, syn_accept, server_accept, establish,
}
use kcp_rs.Stream.Run.{
  packets, again, wait, new_task, start, finish, loop_head, send_queued, is_expired, schedule,
  wait_or_update, on_event, on_packets, input_all, advance_handshake, fetch,
}
use kcp_rs.Stream.Delivery.Ordered.{Turns, none_yet, turn}
use kcp_rs.Stream.Number.{Tells}
use kcp_rs.Stream.Number.Lifetime.{server-Tells}
use kcp_rs.Example.Engine.{toy_create}
use kcp_rs.Example.Greeted.{greeted, greeted-NumberLaws}
use kcp_rs.Example.Pipes.{pipes, toy_receiver-ReceiverLaws, toy_sender-CloseLaws, with_data}

abbrev settings : KcpConfig
settings = record default { mtu = 1; session_key = 1 ∷ 2 ∷ []; session_id_len = 3 }

abbrev server_kcp : List Bytes → ℕ → Kcp
server_kcp messages count = record {
  handle = record (toy_create 7) {
    stream = pos 1;
    hidden = record { messages = messages; sent_count = count; packets = [] };
  };
  elapsed = 0;
  buffer_size = (32768, 32768);
  write_buf = [];
  read_buf = [];
  output_queue = [];
}

-- The task of a session with the number 7 has begun.
abbrev begun : Task
begun = record {
  kcp = server_kcp ((1 ∷ 2 ∷ 7 ∷ 8 ∷ 9 ∷ []) ∷ []) 0;
  config = settings;
  rx_closed = false;
  rx_buf = 0 ∷ 0 ∷ 0 ∷ [];
  hs = syn;
  flags = no_flags;
  hs_end_time = 15000;
  last_io_time = 0;
  session_id = [];
  tx_frame = none;
  sent = [];
}

begins : start (λ i. 0) (new_task settings 7) ≡ some (tt, begun)
unfolding start new_task Kcp.new Kcp.initialize Kcp.update Kcp.outputs Kcp.get_system_time
    kcp_apply_config kcp_apply_nodelay Kcp.set_stream Kcp.set_mtu Kcp.set_mtu_result Kcp.set_wndsize
    Kcp.set_nodelay task_monad
begins = refl

-- A turn in which it accepts the client.
abbrev established_7 : Task
established_7 = record begun {
  kcp = server_kcp [] 1;
  hs = connected;
  session_id = 7 ∷ 8 ∷ 9 ∷ [];
  sent = established 7 ∷ [];
}

accepts : Turns begun established_7
unfolding loop_head send_queued is_expired schedule wait_or_update on_event on_packets kcp_input
    after_input input_all advance_handshake fetch kcp_recv Kcp.recv_bytes Kcp.peek_size kcp_flush
    is_fin_handshake task_monad has insert toggle Kcp.has_output Kcp.is_dead_link Kcp.duration_since
    Kcp.check Kcp.update Kcp.flush Kcp.outputs Kcp.get_system_time Kcp.input Kcp.send
    syn_handshake_recv syn_frame syn_accept server_accept establish syn_session_id strip_prefix
    kcp_apply_nodelay Kcp.set_nodelay handshake_send set_handshake
accepts =
    turn {u = begun} {v = begun} (λ i. true) true false
      (packets (some (7 ∷ 0 ∷ 0 ∷ 0 ∷ 83 ∷ replicate 19 0)) [] true) ([], wait 5) again none_yet
      refl refl

server-Tells_example : All (Tells 7) established_7.sent × ((finish established_7).1 ≡ 7)
unfolding is_valid_conv
server-Tells_example = server-Tells settings 7 (λ i. 0) begun established_7 refl begins accepts

abbrev spawn : Spawn
spawn input_size output_size config conv = record {
  input = with_data.input_sink;
  output = with_data.output_rx;
  answer = some (established 7);
}

session-Connects_example :
    Connects 7
      (first established_7.sent)
      (accept_stream settings 7 spawn ((false ∷ []) ++ replicate 1 true))
    × (disconnect (finish established_7).1 ≡ disconnect_message 7)
unfolding is_valid_conv toy_sender-CloseLaws stream_new spawn_task
session-Connects_example =
    session-Connects toy_receiver-ReceiverLaws toy_sender-CloseLaws settings 7 (λ i. 0) begun
      established_7 spawn (false ∷ []) 1 refl begins accepts refl (omega arith) (omega arith)
