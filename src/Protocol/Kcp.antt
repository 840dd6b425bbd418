-- ===== src/Protocol/Kcp.antt =====
-- src/protocol.rs: `Kcp`, the connection object. A method gives the new object and its result.
-- `elapsed` is what `time_base.elapsed()` reads, in nanoseconds: the clock stands still within a
-- method and moves between the steps of the task. Buffers are their contents: a capacity is not
-- kept, since `reserve` changes nothing that is read.
pub mod Clock
pub mod Queue
pub mod Recv
use kcp_rs.Base.{
  ℕ, zero, suc, ◌+◌, ◌-◌, ◌*◌, ◌/◌, ◌%◌, ◌^◌, bit_or, Bool, true, false, not, Option, none, some,
  List, [], ◌∷◌, ◌++◌, Bytes, length, take, drop, replicate, ltb, leb, ◌==◌, if◌then◌else◌,
  ErrorKind, invalid_input, invalid_data, not_found, out_of_memory, Io, ok, err, panic, ℤ, pos,
  negsuc, c_int, neg, u32, wrapping_add, wrapping_mul, wrapping_sub,
}
use kcp_rs.Ffi.{Ikcpcb, Engine}
use kcp_rs.Protocol.Packet.{ack_head}

-- `n as c_long`, of 64 bits.
abbrev pub c_long : ℕ → ℤ
c_long n = pos (n % 2 ^ 63)

-- `b.into()` of a bool.
abbrev pub bool_int : Bool → ℤ
bool_int true = pos 1
bool_int false = pos 0

-- `x.max(0) as usize` of a C int.
abbrev pub non_negative : ℤ → ℕ
non_negative (pos n) = n
non_negative (negsuc n) = 0

-- The `match` on the result of ikcp_recv, ikcp_send, ikcp_input and ikcp_setmtu.
unfoldable pub recv_result : ℤ → Io ℕ
recv_result (pos n) = ok n
recv_result (negsuc zero) = ok 0
recv_result (negsuc (suc zero)) = ok 0
recv_result (negsuc (suc (suc zero))) = err invalid_input
recv_result (negsuc (suc (suc (suc n)))) = panic

unfoldable pub send_result : ℤ → Io ℕ
send_result (pos n) = ok n
send_result (negsuc zero) = err invalid_input
send_result (negsuc (suc zero)) = err invalid_input
send_result (negsuc (suc (suc n))) = panic

unfoldable pub input_result : ℤ → Io (Unit {0})
input_result (pos zero) = ok tt
input_result (pos (suc n)) = panic
input_result (negsuc zero) = err not_found
input_result (negsuc (suc zero)) = err invalid_data
input_result (negsuc (suc (suc zero))) = err invalid_data
input_result (negsuc (suc (suc (suc n)))) = panic

unfoldable pub set_mtu_result : ℤ → Io (Unit {0})
set_mtu_result (pos zero) = ok tt
set_mtu_result (pos (suc n)) = panic
set_mtu_result (negsuc zero) = err invalid_input
set_mtu_result (negsuc (suc zero)) = err out_of_memory
set_mtu_result (negsuc (suc (suc n))) = panic

pub record Kcp ⦃E : Engine⦄ : Type 0 where
  pub handle : Ikcpcb E.Hidden
  pub elapsed : ℕ
  pub buffer_size : ℕ × ℕ
  pub write_buf : Bytes
  pub read_buf : Bytes
  pub output_queue : List Bytes

module _ ⦃E : Engine⦄ where
  open E use {
    ikcp_create, ikcp_recv, ikcp_peeksize, ikcp_send, ikcp_input, ikcp_flush, ikcp_update,
    ikcp_check, ikcp_setmtu, ikcp_wndsize, ikcp_waitsnd, ikcp_nodelay, uninit,
  }

  unfoldable pub new : ℕ → Kcp
  new conv = record {
    handle = ikcp_create conv;
    elapsed = 0;
    buffer_size = (32768, 32768);
    write_buf = [];
    read_buf = [];
    output_queue = [];
  }

  unfoldable pub get_system_time : Kcp → ℕ
  get_system_time k =
      wrapping_add (wrapping_mul (u32 (k.elapsed / 10 ^ 9)) 1000) (k.elapsed / 10 ^ 6 % 1000)

  -- The callback `_output`: the packet goes through `write_buf` into the queue.
  unfoldable pub output : Kcp → Bytes → Kcp
  output k buf =
      let filled = k.write_buf ++ buf in
      record k {
        write_buf = drop (length buf) filled;
        output_queue = k.output_queue ++ (take (length buf) filled ∷ []);
      }

  unfoldable pub outputs : Kcp → List Bytes → Kcp
  outputs k [] = k
  outputs k (buf ∷ bufs) = outputs (output k buf) bufs

  unfoldable pub flush : Kcp → Kcp
  flush k = let (cb, bufs) = ikcp_flush k.handle in outputs (record k { handle = cb }) bufs

  unfoldable pub update : Kcp → ℕ → Kcp
  update k current =
      let (cb, bufs) = ikcp_update k.handle current in outputs (record k { handle = cb }) bufs

  unfoldable pub initialize : Kcp → Kcp
  unfolding update get_system_time
  initialize k = update k (get_system_time k)

  -- The buffer comes back as the call left it.
  unfoldable pub peek : Kcp → Bytes → Kcp × Bytes × Io ℕ
  unfolding recv_result
  peek k buf =
      let (cb, code, buf') = ikcp_recv k.handle buf (neg (c_int (length buf))) in
      (record k { handle = cb }, buf', recv_result code)

  unfoldable pub recv : Kcp → Bytes → Kcp × Bytes × Io ℕ
  unfolding recv_result
  recv k buf =
      let (cb, code, buf') = ikcp_recv k.handle buf (c_int (length buf)) in
      (record k { handle = cb }, buf', recv_result code)

  unfoldable pub peek_size : Kcp → ℕ
  peek_size k = non_negative (ikcp_peeksize k.handle)

  -- A panic inside `recv` is passed on; its error is dropped, as `let _ =` does.
  unfoldable pub recv_done : Kcp × Bytes × Io ℕ → Kcp × Io (Option Bytes)
  recv_done (k, buf, ok n) = (k, ok (some buf))
  recv_done (k, buf, err e) = (k, ok (some buf))
  recv_done (k, buf, panic) = (k, panic)

  -- `set_len` makes `read_buf` one of `size` bytes, which are whatever memory held.
  unfoldable pub recv_bytes : Kcp → Kcp × Io (Option Bytes)
  unfolding recv recv_done peek_size
  recv_bytes k =
      let size = peek_size k in
      let filled = k.read_buf ++ uninit (size - length k.read_buf) in
      if ltb 0 size
      then recv_done (recv (record k { read_buf = drop size filled }) (take size filled))
      else (k, ok none)

  unfoldable pub send : Kcp → Bytes → Kcp × Io ℕ
  unfolding send_result
  send k [] = (k, ok 0)
  send k (b ∷ rest) =
      let (cb, code) = ikcp_send k.handle (b ∷ rest) (c_int (length (b ∷ rest))) in
      (record k { handle = cb }, send_result code)

  unfoldable pub input : Kcp → Bytes → Kcp × Io (Unit {0})
  unfolding input_result
  input k packet =
      let (cb, code) = ikcp_input k.handle packet (c_long (length packet)) in
      (record k { handle = cb }, input_result code)

  unfoldable pub check : Kcp → ℕ → ℕ
  check k current = ikcp_check k.handle current

  unfoldable pub set_mtu : Kcp → ℕ → Kcp × Io (Unit {0})
  unfolding set_mtu_result
  set_mtu k mtu =
      let (cb, code) = ikcp_setmtu k.handle (c_int mtu) in
      if k.handle.mtu == mtu then (k, ok tt) else (record k { handle = cb }, set_mtu_result code)

  unfoldable pub set_nodelay : Kcp → Bool → ℕ → ℕ → Bool → Kcp
  set_nodelay k nodelay interval resend nc = record k {
    handle = ikcp_nodelay k.handle (bool_int nodelay) (c_int interval) (c_int resend) (bool_int nc);
  }

  -- `as u32` of a C int.
  abbrev pub int_u32 : ℤ → ℕ
  int_u32 (pos n) = u32 n
  int_u32 (negsuc n) = wrapping_sub 0 (u32 (suc n))

  unfoldable pub get_waitsnd : Kcp → ℕ
  get_waitsnd k = int_u32 (ikcp_waitsnd k.handle)

  unfoldable pub set_wndsize : Kcp → ℕ → ℕ → Kcp
  set_wndsize k sndwnd rcvwnd = record k {
    handle = ikcp_wndsize k.handle (c_int sndwnd) (c_int rcvwnd);
  }

  -- `export_fields!`.
  abbrev pub conv : Kcp → ℕ
  conv k = k.handle.conv

  abbrev pub current : Kcp → ℕ
  current k = k.handle.current

  abbrev pub nsnd_que : Kcp → ℕ
  nsnd_que k = k.handle.nsnd_que

  abbrev pub nrcv_que : Kcp → ℕ
  nrcv_que k = k.handle.nrcv_que

  abbrev pub nrcv_buf : Kcp → ℕ
  nrcv_buf k = k.handle.nrcv_buf

  unfoldable pub duration_since : Kcp → ℕ → ℕ
  duration_since k since = non_negative (c_int (wrapping_sub (current k) since))

  abbrev with_handle : Kcp → Ikcpcb E.Hidden → Kcp
  with_handle k cb = record k { handle = cb }

  unfoldable pub set_logmask : Kcp → ℕ → Kcp
  set_logmask k mask = with_handle k (record (k.handle) { logmask = c_int mask })

  unfoldable pub set_conv : Kcp → ℕ → Kcp
  set_conv k c = with_handle k (record (k.handle) { conv = c })

  unfoldable pub set_stream : Kcp → Bool → Kcp
  set_stream k stream = with_handle k (record (k.handle) { stream = bool_int stream })

  unfoldable pub is_dead_link : Kcp → Bool
  is_dead_link k = k.handle.state == 0xffff_ffff

  unfoldable pub is_recv_queue_full : Kcp → Bool
  is_recv_queue_full k = leb k.handle.rcv_wnd k.handle.nrcv_que

  unfoldable pub is_send_queue_full : Kcp → Bool
  is_send_queue_full k = leb k.handle.snd_wnd k.handle.nsnd_que

  abbrev pop_front : Kcp → List Bytes → Kcp × Option Bytes
  pop_front k [] = (k, none)
  pop_front k (p ∷ rest) = (record k { output_queue = rest }, some p)

  unfoldable pub has_output : Kcp → Bool
  has_output k = ltb 0 (length k.output_queue)

  unfoldable pub pop_output : Kcp → Kcp × Option Bytes
  pop_output k = pop_front k k.output_queue

  unfoldable pub write_ack_head : Kcp → Bytes → ℕ → ℕ → Bytes
  unfolding ack_head get_system_time
  write_ack_head k buf cmd_flags payload_size =
      buf
      ++ ack_head k.handle.conv cmd_flags k.handle.rcv_wnd (get_system_time k) k.handle.snd_nxt
          k.handle.rcv_nxt payload_size
