-- ===== src/Ffi.antt =====
-- src/ffi.rs: the constants, the control block IKCPCB, and the functions of the C library.
-- The C code is a parameter: an `Engine` holds the functions that the Rust code calls, over the
-- fields of the block that the Rust code reads or writes; the C code's own fields are `Hidden`.
pub mod Laws
use kcp_rs.Base.{ℕ, List, Bytes, ℤ}

abbrev pub ikcp_cmd_push : ℕ
ikcp_cmd_push = 81

abbrev pub ikcp_cmd_ack : ℕ
ikcp_cmd_ack = 82

abbrev pub ikcp_cmd_wask : ℕ
ikcp_cmd_wask = 83

abbrev pub ikcp_cmd_wins : ℕ
ikcp_cmd_wins = 84

abbrev pub ikcp_wnd_rcv : ℕ
ikcp_wnd_rcv = 256

abbrev pub ikcp_overhead : ℕ
ikcp_overhead = 24

-- IKCPCB. All but `logmask` and `stream` are u32.
pub record Ikcpcb (Hidden : Type 0) : Type 0 where
  pub conv : ℕ
  pub mtu : ℕ
  pub state : ℕ
  pub snd_nxt : ℕ
  pub rcv_nxt : ℕ
  pub snd_wnd : ℕ
  pub rcv_wnd : ℕ
  pub current : ℕ
  pub nrcv_buf : ℕ
  pub nrcv_que : ℕ
  pub nsnd_que : ℕ
  pub stream : ℤ
  pub logmask : ℤ
  pub hidden : Hidden

-- The functions of kcp/ikcp.c. A `char *` argument is the bytes behind it; `ikcp_recv` gives back
-- the buffer as it left it; `ikcp_flush` and `ikcp_update` give the packets for which they called
-- the `output` callback, in order.
pub record Engine : Type 1 where
  pub Hidden : Type 0
  pub ikcp_create : ℕ → Ikcpcb Hidden
  pub ikcp_recv : Ikcpcb Hidden → Bytes → ℤ → Ikcpcb Hidden × ℤ × Bytes
  pub ikcp_peeksize : Ikcpcb Hidden → ℤ
  pub ikcp_send : Ikcpcb Hidden → Bytes → ℤ → Ikcpcb Hidden × ℤ
  pub ikcp_input : Ikcpcb Hidden → Bytes → ℤ → Ikcpcb Hidden × ℤ
  pub ikcp_flush : Ikcpcb Hidden → Ikcpcb Hidden × List Bytes
  pub ikcp_update : Ikcpcb Hidden → ℕ → Ikcpcb Hidden × List Bytes
  pub ikcp_check : Ikcpcb Hidden → ℕ → ℕ
  pub ikcp_setmtu : Ikcpcb Hidden → ℤ → Ikcpcb Hidden × ℤ
  pub ikcp_wndsize : Ikcpcb Hidden → ℤ → ℤ → Ikcpcb Hidden
  pub ikcp_waitsnd : Ikcpcb Hidden → ℤ
  pub ikcp_nodelay : Ikcpcb Hidden → ℤ → ℤ → ℤ → ℤ → Ikcpcb Hidden
  -- What `n` bytes of memory hold that nothing has written.
  pub uninit : ℕ → Bytes
