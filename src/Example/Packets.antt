-- ===== src/Example/Packets.antt =====
-- The theorems on packets, numbers, the clock and the library's calls, at concrete inputs.
use kcp_rs.Base.{
  ℕ, get_elem?, ◌+◌, ◌-◌, ◌*◌, ◌/◌, ◌%◌, ◌^◌, ◌≤◌, ◌<◌, ◌≡◌, ◌↔◌, refl, Option, some, [], ◌∷◌, ◌++◌,
  Bytes, length, replicate, bit_or, arith,
}
use kcp_rs.Ffi.{ikcp_overhead, ikcp_cmd_ack, ikcp_wnd_rcv}
use kcp_rs.Protocol.Packet.{read_conv, read_cmd, write_cmd, read_len, ack_head, read_payload_data}
use kcp_rs.Protocol.Packet.Header.{ack_head_layout, write_cmd_frame}
use kcp_rs.Protocol.Payload.{FirstPayload, read_payload_data-FirstPayload}
use kcp_rs.Protocol.Conv.{is_valid_conv, rand_conv, max_frame_size}
use kcp_rs.Protocol.Conv.Laws.{rand_conv-FirstValid, max_frame_size-fragments, FirstValid}
use kcp_rs.Protocol.Kcp.{Kcp, get_system_time, duration_since}
use kcp_rs.Protocol.Kcp.Clock.{get_system_time-milliseconds, duration_since_past}
use kcp_rs.Example.Engine.{ToyState, toy, toy_create}

-- A push packet of the conversation 7 with the payload 5, 6.
abbrev pub data_packet : Bytes
data_packet = 7 ∷ 0 ∷ 0 ∷ 0 ∷ 81 ∷ replicate 15 0 ++ (2 ∷ 0 ∷ 0 ∷ 0 ∷ 5 ∷ 6 ∷ [])

-- The object with the fields that the C library keeps.
abbrev pub toy_kcp : ToyState → ℕ → Kcp
toy_kcp state current = record {
  handle = record (toy_create 7) { hidden = state; current = current };
  elapsed = 5 * 10 ^ 18 + 1234567;
  buffer_size = (32768, 32768);
  write_buf = [];
  read_buf = 9 ∷ 9 ∷ 9 ∷ [];
  output_queue = [];
}

abbrev pub busy : ToyState
busy = record {
  messages = (5 ∷ 6 ∷ []) ∷ (7 ∷ []) ∷ [];
  sent_count = 0;
  packets = data_packet ∷ (1 ∷ []) ∷ [];
}

abbrev pub idle : ToyState
idle = record { messages = []; sent_count = 0; packets = [] }

read_payload_data_at_data_packet : read_payload_data data_packet ≡ some (some (5 ∷ 6 ∷ []))
unfolding read_payload_data
read_payload_data_at_data_packet = refl

read_payload_data-FirstPayload_example :
    (r : Option Bytes) × (read_payload_data data_packet ≡ some r) × FirstPayload data_packet r
read_payload_data-FirstPayload_example = read_payload_data-FirstPayload data_packet

ack_head_layout_example :
    let head = ack_head 7 8 128 1000 3 4 2 in
    (length head ≡ ikcp_overhead + 4)
    × (read_conv (head ++ (5 ∷ 6 ∷ [])) ≡ some (some 7))
    × (read_cmd (head ++ (5 ∷ 6 ∷ [])) ≡ some (bit_or ikcp_cmd_ack 8))
    × (read_len (head ++ (5 ∷ 6 ∷ [])) ≡ some 0)
ack_head_layout_example = ack_head_layout 7 8 128 1000 3 4 2 (5 ∷ 6 ∷ []) (omega arith)

write_cmd_frame_example :
    (packet' : Bytes) × (write_cmd data_packet 113 ≡ some packet')
    × (read_cmd packet' ≡ some 113)
    × (length packet' ≡ length data_packet)
    × ((n : ℕ) → ¬ (n ≡ 4) → get_elem? packet' n ≡ get_elem? data_packet n)
    × (read_conv packet' ≡ read_conv data_packet)
    × (read_payload_data packet' ≡ read_payload_data data_packet)
write_cmd_frame_example = write_cmd_frame data_packet 113 (omega arith)

-- The generator draws 0, which is invalid, and then 1.
rand_conv-FirstValid_example : FirstValid (λ i. i) 0 1 (rand_conv (λ i. i) 3 0)
unfolding is_valid_conv
rand_conv-FirstValid_example = rand_conv-FirstValid (λ i. i) 3 0 1 (omega arith) refl

max_frame_size-fragments_example :
    ((5000 + (1400 - ikcp_overhead) - 1) / (1400 - ikcp_overhead) < ikcp_wnd_rcv)
    ↔ (5000 ≤ max_frame_size 1400)
max_frame_size-fragments_example = max_frame_size-fragments 1400 5000 (omega arith) (omega arith)

-- The seconds, 5 * 10 ^ 9, are past 2 ^ 32.
get_system_time-milliseconds_example :
    get_system_time (toy_kcp idle 0) ≡ (5 * 10 ^ 18 + 1234567) / 10 ^ 6 % 2 ^ 32
get_system_time-milliseconds_example = get_system_time-milliseconds (toy_kcp idle 0)

-- The clock has wrapped since the time.
duration_since_past_example : duration_since (toy_kcp idle 4) 4294967290 ≡ 10
duration_since_past_example =
    duration_since_past (toy_kcp idle 4) 4294967290 10 (omega arith) (omega arith) refl
