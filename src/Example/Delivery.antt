-- ===== src/Example/Delivery.antt =====
-- The theorems on the way of messages to the application, at concrete inputs.
use kcp_rs.Base.{
  ℕ, ◌+◌, ◌*◌, ◌^◌, ◌≡◌, refl, true, false, none, some, List, [], ◌∷◌, ◌++◌, Bytes, replicate,
  arith, ok,
}
use kcp_rs.Config.{default}
use kcp_rs.Protocol.Kcp
use kcp_rs.Protocol.Kcp.{Kcp}
use kcp_rs.Stream.Handshake.{connected}
use kcp_rs.Stream.Flags.{no_flags, has, insert, toggle}
use kcp_rs.Stream.Task.{Task, frame, task_monad, kcp_recv, kcp_flush}
use kcp_rs.Stream.Task.Fin.{is_fin_handshake}
use kcp_rs.Stream.Task.Input.{kcp_input, after_input}
use kcp_rs.Stream.Run.{
  packets, permit, again, wait, loop_head, send_queued, is_expired, schedule, wait_or_update,
  on_event, on_packets, input_all, advance_handshake, fetch, on_permit, deliver, deliver_more, keep,
}
use kcp_rs.Stream.Delivery.{delivery}
use kcp_rs.Stream.Delivery.Handing.{Delivers}
use kcp_rs.Stream.Delivery.Ordered.{Turns, none_yet, turn, turn-Delivers, Turns-Extends}
use kcp_rs.Channels.{ready}
use kcp_rs.KcpStream.{
  KcpStream, poll_read, fill_loop, fill_step, poll_next, next_of, recv_loop, after_recv, after_next,
  after_fill, stream_new,
}
use kcp_rs.KcpStream.Delivered.{Endpoint, Proceeds, at_rest, runs, reads, under_way, Proceeds-Grows}
use kcp_rs.Example.Pipes.{pipes, toy_receiver-ReceiverLaws, with_data}
use kcp_rs.Example.Engine.{toy_create}
use kcp_rs.Example.Counted.{counted, counted-ArrivalLaws}

-- An established connection; the C library holds these messages.
abbrev holding : List Bytes → ℕ → ℕ → Kcp
holding messages count current = record {
  handle = record (toy_create 7) {
    current = current;
    nrcv_que = count;
    hidden = record { messages = messages; sent_count = 0; packets = [] };
  };
  elapsed = 5 * 10 ^ 18 + 1234567;
  buffer_size = (32768, 32768);
  write_buf = [];
  read_buf = [];
  output_queue = [];
}

abbrev two_here : Task
two_here = record {
  kcp = holding ((1 ∷ []) ∷ (2 ∷ 3 ∷ []) ∷ []) 2 0;
  config = default;
  rx_closed = false;
  rx_buf = [];
  hs = connected;
  flags = no_flags;
  hs_end_time = 0;
  last_io_time = 0;
  session_id = [];
  tx_frame = none;
  sent = [];
}

-- A packet has come and the first message is kept.
abbrev one_kept : Task
one_kept = record two_here {
  kcp = holding ((2 ∷ 3 ∷ []) ∷ []) 1 658067457;
  last_io_time = 658067457;
  tx_frame = some (1 ∷ []);
}

-- The application has room for both.
abbrev both_sent : Task
both_sent = record one_kept {
  kcp = holding [] 0 658067457;
  tx_frame = none;
  sent = frame (1 ∷ []) ∷ frame (2 ∷ 3 ∷ []) ∷ [];
}

abbrev ping : Bytes
ping = 7 ∷ 0 ∷ 0 ∷ 0 ∷ 83 ∷ replicate 19 0

run_once : Turns two_here one_kept
unfolding loop_head send_queued is_expired schedule wait_or_update on_event on_packets kcp_input
    after_input input_all advance_handshake fetch kcp_recv Kcp.recv_bytes Kcp.peek_size kcp_flush
    is_fin_handshake task_monad has insert toggle Kcp.has_output Kcp.is_dead_link Kcp.duration_since
    Kcp.check Kcp.update Kcp.flush Kcp.outputs Kcp.get_system_time Kcp.input
run_once =
    turn {u = two_here} {v = two_here} (λ i. true) true false (packets (some ping) [] true)
      ([], wait 5) again none_yet refl refl

run_twice : Turns two_here both_sent
unfolding loop_head send_queued is_expired schedule wait_or_update on_event on_permit deliver
    deliver_more keep kcp_recv Kcp.recv_bytes Kcp.peek_size task_monad has Kcp.has_output
    Kcp.is_dead_link Kcp.duration_since Kcp.check Kcp.get_system_time
run_twice =
    turn {u = one_kept} {v = one_kept} (λ i. true) true false (permit true (true ∷ [])) ([], wait 5)
      again run_once refl refl

Turns-Extends_example : (more : List Bytes) × (delivery both_sent ≡ delivery two_here ++ more)
Turns-Extends_example = Turns-Extends run_twice (omega arith) refl

-- Behind the peer's FIN: a frame is kept, and the FIN frame is the last message of the queue.
abbrev fin_last : Task
fin_last = record two_here {
  kcp = holding ((9 ∷ []) ∷ []) 1 0;
  flags = record { client = false; flush = false; fin_recved = true; input_closed = false };
  tx_frame = some (1 ∷ []);
}

abbrev fin_read : Task
fin_read = record fin_last { kcp = holding [] 0 0; tx_frame = none; sent = frame (1 ∷ []) ∷ [] }

turn-Delivers_example : Delivers fin_last fin_read
unfolding loop_head send_queued is_expired schedule wait_or_update on_event on_permit deliver
    deliver_more keep kcp_recv Kcp.recv_bytes Kcp.peek_size task_monad has Kcp.has_output
    Kcp.is_dead_link Kcp.duration_since Kcp.check Kcp.get_system_time
turn-Delivers_example =
    turn-Delivers (λ i. true) true false (permit true (true ∷ [])) fin_last fin_last fin_read
      ([], wait 5) again (omega arith) refl refl

-- The application of the connection above reads with a buffer of two bytes.
abbrev start_end : Endpoint toy_receiver-ReceiverLaws
start_end = record { task = two_here; stream = with_data; read = [] }

-- Two of three bytes are read, and the third is left.
abbrev one_left : KcpStream
one_left = record with_data { output_rx = ([], false); read_buf = some (3 ∷ []) }

-- The channel has taken what the task handed over.
abbrev more_here : KcpStream
more_here = record one_left { output_rx = (both_sent.sent, false) }

abbrev later_end : Endpoint toy_receiver-ReceiverLaws
later_end = record { task = both_sent; stream = more_here; read = 1 ∷ 2 ∷ [] }

read_two : poll_read 10 with_data 2 ≡ some (one_left, 1 ∷ 2 ∷ [], ready (ok tt))
unfolding poll_read fill_loop fill_step poll_next next_of recv_loop after_recv after_next after_fill
    stream_new
read_two = refl

read_then_run : Proceeds toy_receiver-ReceiverLaws start_end later_end
unfolding stream_new toy_receiver-ReceiverLaws
read_then_run =
    runs both_sent (both_sent.sent, false) both_sent.sent
      (reads 10 2 one_left (1 ∷ 2 ∷ []) (ready (ok tt)) at_rest (omega arith) (omega arith)
        read_two)
      run_twice refl refl

Proceeds-Grows_example :
    (more : Bytes) × (later_end.read ++ under_way toy_receiver-ReceiverLaws later_end
      ≡ (start_end.read ++ under_way toy_receiver-ReceiverLaws start_end) ++ more)
unfolding stream_new
Proceeds-Grows_example =
    Proceeds-Grows toy_receiver-ReceiverLaws read_then_run tt (omega arith) refl
