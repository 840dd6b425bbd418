-- ===== src/Stream/Task.antt =====
-- src/stream.rs: `Task`, the state of one connection's task, and its methods. A method gives its
-- result and the new state, or `none` for a panic (`unwrap`, `unreachable!`, an index out of range).
-- `sent` is what the method has handed to `output_tx`, oldest first; `rx_closed` is whether it has
-- closed `input_rx`; `tx_frame` is the local variable of `run`. The clock stands still within a turn
-- of the loop. Additions to a time wrap, as in a release build.
pub mod Syn
pub mod Fin
pub mod Input
pub mod Sending
pub mod Steps
use kcp_rs.Base.{
  ℕ, zero, suc, ◌+◌, ◌*◌, ◌-◌, bit_and, bit_or, bit_xor, Bool, true, false, not, ◌&&◌, ◌||◌, Option,
  none, some, List, [], ◌∷◌, ◌++◌, Bytes, length, replicate, ltb, leb, ◌==◌, bytes_eq,
  if◌then◌else◌, ErrorKind, invalid_input, invalid_data, not_found, Io, ok, err, panic, u32,
  wrapping_add, wrapping_mul,
}
use kcp_rs.Config.{KcpConfig, as_secs, random_session_id}
use kcp_rs.Ffi.{Engine}
use kcp_rs.Protocol.Packet.{read_conv, read_cmd, write_cmd, read_payload_data}
use kcp_rs.Protocol.Conv.{syn_conv, is_valid_conv}
use kcp_rs.Protocol.Kcp
use kcp_rs.Protocol.Kcp.{Kcp}
use kcp_rs.Stream.Handshake.{
  Handshake, syn, connected, fin_pending, fin_sent, fin_wait_peer, disconnected, same, in_fin_range,
}
use kcp_rs.Stream.Flags.{
  Flags, Flag, client_flag, flush_flag, fin_recved_flag, input_closed_flag, no_flags, has, insert,
  toggle,
}

abbrev pub kcp_syn : ℕ
kcp_syn = 0x80

abbrev pub kcp_fin : ℕ
kcp_fin = 0x20

abbrev pub kcp_reset : ℕ
kcp_reset = 0x08

pub data Output : Type 0 where
  established : ℕ → Output
  frame : Bytes → Output

pub record Task ⦃E : Engine⦄ : Type 0 where
  pub kcp : Kcp
  pub config : KcpConfig
  pub rx_closed : Bool
  pub rx_buf : Bytes
  pub hs : Handshake
  pub flags : Flags
  pub hs_end_time : ℕ
  pub last_io_time : ℕ
  pub session_id : Bytes
  pub tx_frame : Option Bytes
  pub sent : List Output

-- `x.strip_prefix(prefix)`.
unfoldable pub strip_prefix : Bytes → Bytes → Option Bytes
strip_prefix [] x = some x
strip_prefix (p ∷ ps) [] = none
strip_prefix (p ∷ ps) (b ∷ x) = let rest = strip_prefix ps x in if p == b then rest else none

-- The result of a call that can fail, once a panic is out of the way.
pub data Answer (A : Type 0) : Type 0 where
  done : A → Answer A
  failed : ErrorKind → Answer A

module _ ⦃E : Engine⦄ where
  abbrev pub M : Type 0 → Type 0
  M A = Task → Option (A × Task)

  unfoldable pub pure : {A : Type 0} → A → M A
  pure a t = some (a, t)

  infixl 5 ◌>>=◌ ◌>>◌
  unfoldable pub ◌>>=◌ : {A B : Type 0} → M A → (A → M B) → M B
  ◌>>=◌ m f t = elim (m t) [ none ↦ none | some (a, t') ↦ f a t' ]

  unfoldable pub ◌>>◌ : {A B : Type 0} → M A → M B → M B
  unfolding ◌>>=◌
  m >> k = m >>= λ _. k

  unfoldable pub gets : {A : Type 0} → (Task → A) → M A
  gets f t = some (f t, t)

  unfoldable pub modify : (Task → Task) → M (Unit {0})
  modify f t = some (tt, f t)

  -- What may panic.
  unfoldable pub checked : {A : Type 0} → Option A → M A
  checked none t = none
  checked (some a) t = some (a, t)

  abbrev pub settle : {A : Type 0} → Task → Kcp × Io A → Option (Answer A × Task)
  settle t (k, ok a) = some (done a, record t { kcp = k })
  settle t (k, err e) = some (failed e, record t { kcp = k })
  settle t (k, panic) = none

  -- A call of a method of `self.kcp` that can fail, and of one that can not.
  unfoldable pub call : {A : Type 0} → (Kcp → Kcp × Io A) → M (Answer A)
  call f t = settle t (f t.kcp)

  unfoldable pub on_kcp : (Kcp → Kcp) → M (Unit {0})
  on_kcp f t = some (tt, record t { kcp = f t.kcp })

  unfoldable pub unwrap : {A : Type 0} → Answer A → M A
  unwrap (done a) t = some (a, t)
  unwrap (failed e) t = none

  unfoldable pub set_flag : Flag → M (Unit {0})
  unfolding insert
  set_flag f t = some (tt, record t { flags = insert t.flags f })

  -- To unfold `task_monad` is to unfold the operations above.
  unfoldable pub task_monad : Unit {0}
  unfolding pure ◌>>=◌ ◌>>◌ gets modify checked call on_kcp unwrap set_flag
  task_monad = tt

  abbrev pub when : Bool → M (Unit {0}) → M (Unit {0})
  when b m = if b then m else pure tt

  -- `get_system_time() + timeout.as_secs() as u32 * 1000`.
  abbrev pub deadline : Task → ℕ → ℕ
  deadline t timeout =
      wrapping_add (Kcp.get_system_time t.kcp) (wrapping_mul (u32 (as_secs timeout)) 1000)

  abbrev pub toggle_flag : Flag → Task → Task
  toggle_flag f t = record t { flags = toggle t.flags f }

  abbrev pub mark_io : Task → Task
  mark_io t = record t { last_io_time = Kcp.current t.kcp }

  unfoldable pub kcp_flush : M (Unit {0})
  kcp_flush = do
    pending ← gets (λ t. has t.flags flush_flag)
    when pending (do
      modify (toggle_flag flush_flag)
      on_kcp (λ k. Kcp.update k (Kcp.get_system_time k))
      on_kcp Kcp.flush
      modify mark_io)

  unfoldable pub kcp_apply_nodelay : M (Unit {0})
  kcp_apply_nodelay = do
    c ← gets (λ t. t.config.nodelay)
    on_kcp (λ k. Kcp.set_nodelay k c.nodelay c.interval c.resend c.nc)

  -- `Vec::resize(size, 0)` of a shorter buffer.
  abbrev grow : Bytes → ℕ → Bytes
  grow buf size = if ltb (length buf) size then buf ++ replicate (size - length buf) 0 else buf

  unfoldable pub kcp_apply_config : M (Unit {0})
  kcp_apply_config = do
    c ← gets (λ t. t.config)
    on_kcp (λ k. Kcp.set_stream k c.stream)
    r ← call (λ k. Kcp.set_mtu k c.mtu)
    unwrap r
    on_kcp (λ k. Kcp.set_wndsize k c.snd_wnd c.rcv_wnd)
    kcp_apply_nodelay
    modify (λ t. record t { rx_buf = grow t.rx_buf (c.mtu * 3) })

  unfoldable pub handshake_send : M (Unit {0})
  handshake_send = do
    set_flag flush_flag
    frame_bytes ← gets (λ t. t.config.session_key ++ t.session_id)
    r ← call (λ k. Kcp.send k frame_bytes)
    unwrap r
    kcp_flush

  abbrev pub move_to : Handshake → Task → Task
  move_to hs t = if same t.hs hs then t else record t { hs = hs }

  unfoldable pub set_handshake : Handshake → M (Unit {0})
  set_handshake hs = modify (move_to hs)

  -- The queue's last frame after a FIN is the FIN frame itself: it is read and dropped.
  abbrev pub is_last_frame : Task → Bool
  is_last_frame t =
      has t.flags fin_recved_flag && (Kcp.nrcv_que t.kcp == 1) && (Kcp.nrcv_buf t.kcp == 0)

  unfoldable pub kcp_recv : M (Option Bytes)
  kcp_recv = do
    last ← gets is_last_frame
    r ← call Kcp.recv_bytes
    x ← unwrap r
    pure (if last then none else x)

  -- The frame was sent; one that is too big is dropped with a line in the log.
  unfoldable pub after_send : Answer ℕ → M (Unit {0})
  after_send (failed e) = pure tt
  after_send (done n) = do
    urgent ← gets (λ t. t.config.nodelay.nodelay || ltb 1 (Kcp.nsnd_que t.kcp))
    when urgent (set_flag flush_flag)

  unfoldable pub process_input : Bytes → M (Unit {0})
  process_input data_frame = do r ← call (λ k. Kcp.send k data_frame); after_send r
