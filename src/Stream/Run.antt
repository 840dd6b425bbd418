-- ===== src/Stream/Run.antt =====
-- src/stream.rs: `Task::run`. A turn of the loop is `loop_head` and then the branch of `select!` that
-- is taken; what the channels, the transport and the clock do is in the turn's arguments.
use kcp_rs.Base.{
  ℕ, ◌*◌, ◌-◌, Bool, true, false, not, ◌&&◌, ◌||◌, Option, none, some, List, [], ◌∷◌, ◌++◌, Bytes,
  take, ltb, leb, ◌==◌, if◌then◌else◌, min, u32, wrapping_sub, c_int, ℤ, pos, negsuc,
}
use kcp_rs.Config.{KcpConfig, as_secs, random_session_id}
use kcp_rs.Ffi.{Engine}
use kcp_rs.Protocol.Conv.{syn_conv, is_valid_conv}
use kcp_rs.Protocol.Kcp
use kcp_rs.Protocol.Kcp.{Kcp}
use kcp_rs.Stream.Handshake.{syn, connected, disconnected, same}
use kcp_rs.Stream.Flags.{has, client_flag, input_closed_flag, no_flags}
use kcp_rs.Stream.Task.{
  Task, frame, M, pure, gets, modify, checked, on_kcp, set_flag, when, deadline, kcp_reset,
  set_handshake, handshake_send, kcp_apply_config, kcp_recv, kcp_flush, process_input, ◌>>=◌, ◌>>◌,
}
use kcp_rs.Stream.Task.Fin.{is_fin_handshake, fin_transit_state}
use kcp_rs.Stream.Task.Syn.{syn_handshake_recv}
use kcp_rs.Stream.Task.Input.{kcp_input}
use kcp_rs.Stream.Task.Sending.{kcp_output}

-- The answer of `input_rx.try_recv()`.
pub data TryRecv : Type 0 where
  received : Bytes → TryRecv
  empty all_gone : TryRecv

-- The branch of `select!` that is taken, with the answers that its calls get.
-- `input x more`: `input_rx.recv()` gives `x`, and `try_recv` then gives `more` (Empty behind them).
-- `permit ok more`: `output_tx.reserve()`, and the answers of `try_reserve` (full behind them).
-- `packets x more accepted`: `transport.next()` gives `x`, `poll_next` then gives `more`, and
-- `output_tx.try_send` takes a message or not.
pub data Event : Type 0 where
  input : Option Bytes → List TryRecv → Event
  permit : Bool → List Bool → Event
  packets : Option Bytes → List Bytes → Bool → Event
  timer cancelled : Event

-- How a part of the loop's body ends.
pub data Control : Type 0 where
  break again : Control
  wait : ℕ → Control

module _ ⦃E : Engine⦄ where
  -- `KcpStream::new`: the task before it runs.
  unfoldable pub new_task : KcpConfig → ℕ → Task
  new_task config conv = record {
    kcp = Kcp.new conv;
    config = config;
    rx_closed = false;
    rx_buf = [];
    hs = syn;
    flags = no_flags;
    hs_end_time = 0;
    last_io_time = 0;
    session_id = [];
    tx_frame = none;
    sent = [];
  }

  -- A client begins the handshake.
  unfoldable pub client_start : (ℕ → ℕ) → M (Unit {0})
  client_start random = do
    set_flag client_flag
    modify (λ t. record t { session_id = random_session_id t.config random })
    on_kcp (λ k. Kcp.set_conv k syn_conv)
    handshake_send

  -- `run` up to the loop. `random` is what the random session id is drawn from.
  unfoldable pub start : (ℕ → ℕ) → M (Unit {0})
  start random = do
    on_kcp Kcp.initialize
    kcp_apply_config
    modify (λ t. record t { hs = syn; hs_end_time = deadline t t.config.connect_timeout })
    on_kcp (λ k. Kcp.set_nodelay k true 100 0 false)
    modify (λ t. record t { last_io_time = Kcp.current t.kcp })
    conv ← gets (λ t. Kcp.conv t.kcp)
    when (conv == syn_conv) (client_start random)

  unfoldable pub output_queued : (ℕ → Bool) → Bool → M (List Bytes × Bool)
  output_queued feeds flushed = do
    out ← gets (λ t. kcp_output t.hs feeds flushed t.kcp)
    r ← checked out
    on_kcp (λ _. r.2)
    pure (r.0, not r.1)

  -- The first part of a turn: what is queued goes out. `cancel` is whether the token's branch of this
  -- `select!` is taken instead. The result is what the sink took, and whether the loop ends.
  unfoldable pub send_queued : (ℕ → Bool) → Bool → Bool → M (List Bytes × Bool)
  send_queued feeds flushed cancel = do
    queued ← gets (λ t. Kcp.has_output t.kcp)
    if queued
        then (if cancel then pure ([], true) else output_queued feeds flushed)
        else pure ([], false)

  -- `timeout as i32 > 0`.
  abbrev is_future : ℤ → Bool
  is_future (pos n) = ltb 0 n
  is_future (negsuc n) = false

  -- `session_expire.as_secs() * 1000`, as a u32.
  unfoldable pub is_expired : Task → Bool
  is_expired t =
      Kcp.is_dead_link t.kcp
      || leb (u32 (as_secs t.config.session_expire * 1000))
          (Kcp.duration_since t.kcp t.last_io_time)

  -- With `interval` to wait: at once is an update and another turn.
  unfoldable pub wait_or_update : ℕ → ℕ → M Control
  wait_or_update current interval =
      if interval == 0
      then on_kcp (λ k. Kcp.update k current) >> pure again
      else pure (wait interval)

  -- `self.kcp.check(current).wrapping_sub(current).min(60000)`.
  abbrev pub update_interval : Task → ℕ
  update_interval t =
      let current = Kcp.get_system_time t.kcp in
      min (wrapping_sub (Kcp.check t.kcp current) current) 60000

  abbrev pub time_left : Task → ℕ
  time_left t = wrapping_sub t.hs_end_time (Kcp.get_system_time t.kcp)

  unfoldable pub schedule : M Control
  schedule = do
    current ← gets (λ t. Kcp.get_system_time t.kcp)
    interval ← gets update_interval
    timeout ← gets time_left
    is_connected ← gets (λ t. same t.hs connected)
    if is_connected
        then wait_or_update current interval
        else (if is_future (c_int timeout)
            then wait_or_update current (min interval timeout)
            else set_handshake disconnected >> pure again)

  -- A turn up to the second `select!`.
  unfoldable pub loop_head : (ℕ → Bool) → Bool → Bool → M (List Bytes × Control)
  loop_head feeds flushed cancel = do
    r ← send_queued feeds flushed cancel
    over ← gets (λ t. same t.hs disconnected || is_expired t)
    c ← if r.1 || over then pure break else schedule
    pure (r.0, c)

  -- `while !is_send_queue_full() { match try_recv() … }`. The result is `closed`.
  unfoldable pub take_more : List TryRecv → M Bool
  take_more [] = pure false
  take_more (empty ∷ more) = pure false
  take_more (all_gone ∷ more) = do full ← gets (λ t. Kcp.is_send_queue_full t.kcp); pure (not full)
  take_more (received data_frame ∷ more) = do
    full ← gets (λ t. Kcp.is_send_queue_full t.kcp)
    if full then pure false else process_input data_frame >> take_more more

  unfoldable pub take_input : Option Bytes → List TryRecv → M Bool
  take_input none more = pure true
  take_input (some data_frame) more = process_input data_frame >> take_more more

  unfoldable pub on_input : Option Bytes → List TryRecv → M Control
  on_input x more = do
    closed ← take_input x more
    when closed (set_flag input_closed_flag >> fin_transit_state)
    kcp_flush
    pure again

  abbrev pub send_frame : Bytes → Task → Task
  send_frame x t = record t { sent = t.sent ++ (frame x ∷ []) }

  abbrev pub keep_frame : Option Bytes → Task → Task
  keep_frame x t = record t { tx_frame = x }

  unfoldable pub keep : Option Bytes → M (Unit {0})
  keep none = pure tt
  keep (some x) = modify (keep_frame (some x))

  unfoldable pub deliver : Option Bytes → M (Unit {0}) → M (Unit {0})
  deliver none next = pure tt
  deliver (some x) next = modify (send_frame x) >> next

  -- `while let Some(frame) = self.kcp_recv()`: a frame that finds no room is kept in `tx_frame`.
  unfoldable pub deliver_more : List Bool → M (Unit {0})
  deliver_more [] = kcp_recv >>= keep
  deliver_more (false ∷ more) = kcp_recv >>= keep
  deliver_more (true ∷ more) = do x ← kcp_recv; deliver x (deliver_more more)

  abbrev pub send_kept : Option Bytes → Task → Task
  send_kept none t = t
  send_kept (some x) t = send_frame x (record t { tx_frame = none })

  unfoldable pub on_permit : Bool → List Bool → M Control
  on_permit false more = pure break
  on_permit true more = do modify (λ t. send_kept t.tx_frame t); deliver_more more; pure again

  unfoldable pub input_all : List Bytes → M (Unit {0})
  input_all [] = pure tt
  input_all (packet ∷ rest) = kcp_input packet >> input_all rest

  abbrev pub disconnect_unless : Bool → M (Unit {0})
  disconnect_unless okay = when (not okay) (set_handshake disconnected)

  -- Behind the packets of a turn: the handshake that is under way.
  unfoldable pub advance_handshake : Bool → M (Unit {0})
  advance_handshake accepted = do
    is_syn ← gets (λ t. same t.hs syn)
    is_fin ← gets is_fin_handshake
    if is_syn
        then syn_handshake_recv accepted >>= disconnect_unless
        else when is_fin fin_transit_state

  unfoldable pub fetch : Option Bytes → M (Unit {0})
  fetch (some x) = pure tt
  fetch none = do x ← kcp_recv; modify (keep_frame x)

  unfoldable pub on_packets : Option Bytes → List Bytes → Bool → M Control
  on_packets none more accepted = pure break
  on_packets (some packet) more accepted = do
    kcp_input packet
    n ← gets (λ t. t.config.rcv_wnd - 1)
    input_all (take n more)
    advance_handshake accepted
    kept ← gets (λ t. t.tx_frame)
    fetch kept
    kcp_flush
    pure again

  -- The guards of the branches.
  abbrev pub is_some : Option Bytes → Bool
  is_some none = false
  is_some (some x) = true

  unfoldable pub enabled : Task → Event → Bool
  enabled t (input x more) =
      not (has t.flags input_closed_flag) && not (Kcp.is_send_queue_full t.kcp)
  enabled t (permit okay more) = is_some t.tx_frame
  enabled t (packets x more accepted) = true
  enabled t timer = true
  enabled t cancelled = true

  unfoldable pub on_event : Event → M Control
  on_event (input x more) = on_input x more
  on_event (permit okay more) = on_permit okay more
  on_event (packets x more accepted) = on_packets x more accepted
  on_event timer = pure again
  on_event cancelled = pure break

  -- Behind the loop: the packet that announces the reset, for a connection that got a number, and
  -- the number that is reported as disconnected.
  unfoldable pub finish : Task → Option Bytes × ℕ
  finish t =
      let conv = Kcp.conv t.kcp in
      (if is_valid_conv conv then some (Kcp.write_ack_head t.kcp [] kcp_reset 0) else none, conv)
