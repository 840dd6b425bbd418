-- ===== src/Protocol/Packet/Header.antt =====
-- src/protocol.rs: what is written into a header is read back, and a rewritten command byte
-- disturbs nothing else.
use kcp_rs.Base.{
  ℕ, zero, suc, ◌+◌, ◌*◌, ◌/◌, ◌%◌, ◌^◌, ◌≤◌, ◌<◌, ◌≡◌, refl, ap, ◌∙◌, bit_or, some, [], ◌∷◌, ◌++◌,
  Bytes, get_elem?, set, length, arith, IsU32,
}
use kcp_rs.Base.Bits.{bit_or_fields}
use kcp_rs.Ffi.{ikcp_cmd_ack, ikcp_overhead}
use kcp_rs.Protocol.Packet.{
  read_conv, read_cmd, write_cmd, read_len, payload_loop, read_payload_data, ack_head, shl32, shl64,
}

abbrev pub IsByte : ℕ → Type 0
IsByte b = b < 256

-- The number that four bytes stand for, lowest first.
abbrev pub le_value : ℕ → ℕ → ℕ → ℕ → ℕ
le_value b0 b1 b2 b3 = b0 + b1 * 256 + b2 * 65536 + b3 * 16777216

fields :
    (b0 b1 b2 b3 : ℕ)
    → IsByte b0
    → IsByte b1
    → IsByte b2
    → bit_or (bit_or (bit_or b0 (b1 * 2 ^ 8)) (b2 * 2 ^ 16)) (b3 * 2 ^ 24) ≡ le_value b0 b1 b2 b3
fields b0 b1 b2 b3 h0 h1 h2 =
    rw
      (
        bit_or_fields 8 b0 b1 h0,
        bit_or_fields 16 (b0 + b1 * 2 ^ 8) b2 (omega arith),
        bit_or_fields 24 (b0 + b1 * 2 ^ 8 + b2 * 2 ^ 16) b3 (omega arith),
      )
      refl

shl32_lem : (b k : ℕ) → b * 2 ^ k < 2 ^ 32 → shl32 b k ≡ b * 2 ^ k
shl32_lem b k h = omega arith

shl64_lem : (b k : ℕ) → b * 2 ^ k < 2 ^ 32 → shl64 b k ≡ b * 2 ^ k
shl64_lem b k h = omega arith

fields32 :
    (b0 b1 b2 b3 : ℕ)
    → IsByte b0
    → IsByte b1
    → IsByte b2
    → IsByte b3
    → bit_or (bit_or (bit_or b0 (shl32 b1 8)) (shl32 b2 16)) (shl32 b3 24) ≡ le_value b0 b1 b2 b3
fields32 b0 b1 b2 b3 h0 h1 h2 h3 =
    rw (shl32_lem b1 8 (omega arith), shl32_lem b2 16 (omega arith), shl32_lem b3 24 (omega arith))
      (fields b0 b1 b2 b3 h0 h1 h2)

fields64 :
    (b0 b1 b2 b3 : ℕ)
    → IsByte b0
    → IsByte b1
    → IsByte b2
    → IsByte b3
    → bit_or (bit_or (bit_or b0 (shl64 b1 8)) (shl64 b2 16)) (shl64 b3 24) ≡ le_value b0 b1 b2 b3
fields64 b0 b1 b2 b3 h0 h1 h2 h3 =
    rw (shl64_lem b1 8 (omega arith), shl64_lem b2 16 (omega arith), shl64_lem b3 24 (omega arith))
      (fields b0 b1 b2 b3 h0 h1 h2)

le_value-u32_le :
    (n : ℕ)
    → IsU32 n
    → le_value (n % 256) (n / 256 % 256) (n / 65536 % 256) (n / 16777216 % 256) ≡ n
le_value-u32_le n h = omega arith

-- On a packet of bytes with a whole header `read_conv` reads without a fault, and gives the little-
-- endian value of the first four bytes.
read_conv_lem :
    (b0 b1 b2 b3 : ℕ) (rest : Bytes)
    → IsByte b0
    → IsByte b1
    → IsByte b2
    → IsByte b3
    → 20 ≤ length rest
    → read_conv (b0 ∷ b1 ∷ b2 ∷ b3 ∷ rest) ≡ some (some (le_value b0 b1 b2 b3))
unfolding read_conv
read_conv_lem b0 b1 b2 b3 rest h0 h1 h2 h3 h = ground (arith, fields32 b0 b1 b2 b3 h0 h1 h2 h3)

-- The head that `write_ack_head` writes is four bytes longer than a KCP header. With anything behind
-- it the conversation number and the command with its flags read back as they were written, but the
-- length field reads 0 whatever payload size was given.
pub ack_head_layout :
    (conv flags wnd ts sn una size : ℕ) (rest : Bytes)
    → IsU32 conv
    → let head = ack_head conv flags wnd ts sn una size in
      (length head ≡ ikcp_overhead + 4)
      × (read_conv (head ++ rest) ≡ some (some conv))
      × (read_cmd (head ++ rest) ≡ some (bit_or ikcp_cmd_ack flags))
      × (read_len (head ++ rest) ≡ some 0)
unfolding ack_head read_cmd read_len
ack_head_layout conv flags wnd ts sn una size rest hc = (
  refl,
  read_conv_lem (conv % 256) (conv / 256 % 256) (conv / 65536 % 256) (conv / 16777216 % 256) _
        (omega arith) (omega arith) (omega arith) (omega arith) (omega arith)
      ∙ ap (λ (n : ℕ). some (some n)) (le_value-u32_le conv hc),
  refl,
  refl,
)

set_elsewhere :
    (packet : Bytes) (i cmd n : ℕ) → ¬ (n ≡ i) → get_elem? (set packet i cmd) n ≡ get_elem? packet n
set_elsewhere [] i cmd n other = refl
set_elsewhere (b ∷ packet) zero cmd zero other = absurd (other refl)
set_elsewhere (b ∷ packet) zero cmd (suc n) other = refl
set_elsewhere (b ∷ packet) (suc i) cmd zero other = refl
set_elsewhere (b ∷ packet) (suc i) cmd (suc n) other =
    set_elsewhere packet i cmd n (λ e. other (ap suc e))

-- A packet with a whole header: `write_cmd` gives one in which the command is the new one and every
-- other byte, at whatever index, is as it was, none behind the end included, so that the
-- conversation number and the payload that is found are the same.
pub write_cmd_frame :
    (packet : Bytes) (cmd : ℕ)
    → ikcp_overhead ≤ length packet
    → (packet' : Bytes) × (write_cmd packet cmd ≡ some packet')
      × (read_cmd packet' ≡ some cmd)
      × (length packet' ≡ length packet)
      × ((n : ℕ) → ¬ (n ≡ 4) → get_elem? packet' n ≡ get_elem? packet n)
      × (read_conv packet' ≡ read_conv packet)
      × (read_payload_data packet' ≡ read_payload_data packet)
unfolding write_cmd read_cmd read_conv read_payload_data payload_loop read_len
write_cmd_frame (b0 ∷ b1 ∷ b2 ∷ b3 ∷ b4 ∷ rest) cmd h = (
  b0 ∷ b1 ∷ b2 ∷ b3 ∷ cmd ∷ rest,
  ground arith,
  refl,
  refl,
  set_elsewhere (b0 ∷ b1 ∷ b2 ∷ b3 ∷ b4 ∷ rest) 4 cmd,
  refl,
  refl,
)
write_cmd_frame _ cmd h = absurd (omega arith)
