-- ===== src/Protocol/Packet.antt =====
-- src/protocol.rs: reading and writing the header of a KCP packet. A packet is its list of bytes.
-- `none` is a fault: an index out of range, which panics, or an unchecked read outside the buffer,
-- which is undefined behaviour.
pub mod Header
use mathlib.Core.Option
use kcp_rs.Base.{
  ℕ, ◌+◌, ◌-◌, ◌*◌, ◌/◌, ◌%◌, ◌^◌, bit_or, zero, suc, Bool, true, false, ◌&&◌, not, Option, none,
  some, List, [], ◌∷◌, ◌++◌, Bytes, get_elem?, set, take, drop, length, ltb, leb, ◌==◌,
  if◌then◌else◌, u32,
}
use kcp_rs.Ffi.{ikcp_overhead, ikcp_cmd_ack}

infixl 5 ◌>>=◌
abbrev pub ◌>>=◌ {ℓ κ} : {A : Type ℓ} {B : Type κ} → Option A → (A → Option B) → Option B
none >>= f = none
some a >>= f = f a

-- `x.wrapping_shl(k)` of a u32 and of a 64-bit usize.
abbrev pub shl32 : ℕ → ℕ → ℕ
shl32 x k = u32 (x * 2 ^ k)

abbrev pub shl64 : ℕ → ℕ → ℕ
shl64 x k = x * 2 ^ k % 2 ^ 64

unfoldable pub read_conv : Bytes → Option (Option ℕ)
read_conv buf =
    if leb ikcp_overhead (length buf)
    then (do
      b0 ← get_elem? buf 0
      b1 ← get_elem? buf 1
      b2 ← get_elem? buf 2
      b3 ← get_elem? buf 3
      some (some (bit_or (bit_or (bit_or b0 (shl32 b1 8)) (shl32 b2 16)) (shl32 b3 24))))
    else some none

unfoldable pub read_cmd : Bytes → Option ℕ
read_cmd buf = get_elem? buf 4

unfoldable pub write_cmd : Bytes → ℕ → Option Bytes
write_cmd buf cmd = if ltb 4 (length buf) then some (set buf 4 cmd) else none

-- The length field of the header that starts at `p`.
unfoldable pub read_len : Bytes → Option ℕ
read_len p = do
  b0 ← get_elem? p (ikcp_overhead - 4)
  b1 ← get_elem? p (ikcp_overhead - 3)
  b2 ← get_elem? p (ikcp_overhead - 2)
  b3 ← get_elem? p (ikcp_overhead - 1)
  some (bit_or (bit_or (bit_or b0 (shl64 b1 8)) (shl64 b2 16)) (shl64 b3 24))

-- `slice::from_raw_parts(p, len)`.
unfoldable pub raw_parts : Bytes → ℕ → Option Bytes
raw_parts p len = if leb len (length p) then some (take len p) else none

-- The `while` loop: `p` is what lies from the pointer to the end of the buffer, `left` the counter.
unfoldable pub payload_loop : ℕ → Bytes → ℕ → Option (Option Bytes)
unfolding read_len raw_parts
payload_loop zero p left = none
payload_loop (suc fuel) p left =
    let rest = payload_loop fuel (drop ikcp_overhead p) (left - ikcp_overhead) in
    if leb ikcp_overhead left
    then (do
      len ← read_len p
      if leb 1 len && leb len (left - ikcp_overhead)
          then Option.map some (raw_parts (drop ikcp_overhead p) len)
          else rest)
    else some none

unfoldable pub read_payload_data : Bytes → Option (Option Bytes)
unfolding payload_loop
read_payload_data buf = payload_loop (suc (length buf)) buf (length buf)

-- BufMut::put_u16_le and put_u32_le.
abbrev pub u16_le : ℕ → Bytes
u16_le n = (n % 256) ∷ (n / 256 % 256) ∷ []

abbrev pub u32_le : ℕ → Bytes
u32_le n = (n % 256) ∷ (n / 256 % 256) ∷ (n / 65536 % 256) ∷ (n / 16777216 % 256) ∷ []

-- What `write_ack_head` appends to its buffer, given the fields and the clock that it reads.
unfoldable pub ack_head : ℕ → ℕ → ℕ → ℕ → ℕ → ℕ → ℕ → Bytes
ack_head conv cmd_flags rcv_wnd system_time snd_nxt rcv_nxt payload_size =
    u32_le conv
    ++ (bit_or ikcp_cmd_ack cmd_flags ∷ [])
    ++ (0 ∷ [])
    ++ u16_le (rcv_wnd % 65536)
    ++ u32_le system_time
    ++ u32_le snd_nxt
    ++ u32_le rcv_nxt
    ++ u32_le 0
    ++ u32_le (u32 payload_size)
