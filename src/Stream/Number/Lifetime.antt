-- ===== src/Stream/Number/Lifetime.antt =====
-- src/stream.rs: the number of a server's connection from `run`'s beginning to its end.
use kcp_rs.Base.{
  ℕ, ◌≡◌, refl, Bool, true, false, Option, none, some, List, [], Bytes, All, All-append,
  if◌then◌else◌, Bool-cases, inl, inr, arith, ◌==◌,
}
use kcp_rs.Config.{KcpConfig}
use kcp_rs.Ffi.{Engine}
use kcp_rs.Ffi.Laws.{NumberLaws}
use kcp_rs.Protocol.Conv.{syn_conv, is_valid_conv}
use kcp_rs.Protocol.Kcp
use kcp_rs.Protocol.Kcp.{Kcp}
use kcp_rs.Stream.Handshake.{syn, disconnected}
use kcp_rs.Stream.Flags.{input_closed_flag}
use kcp_rs.Stream.Task.{
  Task, M, pure, gets, modify, on_kcp, set_flag, task_monad, when, deadline, kcp_apply_config,
  ◌>>=◌,
}
use kcp_rs.Stream.Run.{
  TryRecv, Event, loop_head, on_input, on_event, advance_handshake, disconnect_unless, send_frame,
  keep_frame, new_task, client_start, start, finish,
}
use kcp_rs.Stream.Order.{
  Order, Ends, Respects, Respects-run, modify-Respects, order_rules, >>-Respects,
}
use kcp_rs.Stream.Order.Walk.{walk_input-Respects}
use kcp_rs.Stream.Order.Walk.Turn.{walk_head-Respects, walk_event-Respects}
use kcp_rs.Stream.Delivery.Ordered.{Turns, none_yet, later_time, turn}
use kcp_rs.Stream.Number.{
  Tells, Bears, Same, number_order, same, on_kcp-Same, call-Same, update-conv, nodelay-conv,
  kcp_flush-Same, kcp_recv-Same, process_input-Same, set_handshake-Same, kcp_apply_nodelay-Same,
}
use kcp_rs.Stream.Number.Handshaking.{
  syn_handshake_recv-Same, fin_transit_state-Same, kcp_input-Same,
}

valid_not_syn : (n : ℕ) → is_valid_conv n ≡ true → (n == syn_conv) ≡ false
unfolding is_valid_conv
valid_not_syn n valid = ground arith

module _ ⦃E : Engine⦄ ⦃L : NumberLaws E⦄ where
  set_closed-Same : Respects number_order (set_flag input_closed_flag)
  unfolding set_flag
  set_closed-Same = record { from = λ t. same t _ refl refl refl }

  on_input-Same : (x : Option Bytes) (more : List TryRecv) → Respects number_order (on_input x more)
  on_input-Same =
      walk_input-Respects fin_transit_state-Same process_input-Same set_closed-Same kcp_flush-Same

  disconnect_unless-Same : (b : Bool) → Respects number_order (disconnect_unless b)
  disconnect_unless-Same b = search (order_rules, set_handshake-Same) depth 12

  advance_handshake-Same : (b : Bool) → Respects number_order (advance_handshake b)
  unfolding advance_handshake
  advance_handshake-Same b =
      search (order_rules, syn_handshake_recv-Same, disconnect_unless-Same, fin_transit_state-Same)
        depth 16

  keep_frame-Same : (x : Option Bytes) (t : Task) → Same t (keep_frame x t)
  keep_frame-Same x t = same t _ refl refl refl

  send_frame-Same : (x : Bytes) (t : Task) → Same t (send_frame x t)
  send_frame-Same x t n h = record {
    server = h.server;
    number = h.number;
    told = All-append (Tells n) t.sent _ h.told (tt, tt);
  }

  on_event-Same : (e : Event) → Respects number_order (on_event e)
  on_event-Same =
      walk_event-Respects kcp_recv-Same keep_frame-Same send_frame-Same on_input-Same kcp_input-Same
        advance_handshake-Same kcp_flush-Same

  emptied-Same : (t : Task) → Same t (record t { kcp = record (t.kcp) { output_queue = [] } })
  emptied-Same t = same t _ refl refl refl

  update-Same : (now : ℕ) → Respects number_order (on_kcp (λ k. Kcp.update k now))
  update-Same now = on_kcp-Same _ λ k. update-conv k now

  loop_head-Same :
      (feeds : ℕ → Bool) (flushed cancel : Bool)
      → Respects number_order (loop_head feeds flushed cancel)
  loop_head-Same = walk_head-Respects emptied-Same update-Same (set_handshake-Same disconnected)

  pub Turns-Bears : {t u : Task} → Turns t u → (n : ℕ) → Bears n t → Bears n u
  Turns-Bears none_yet n h = h
  Turns-Bears (later_time {u = u} now before) n h =
      same u _ refl refl refl n (Turns-Bears before n h)
  Turns-Bears (turn {u = u} {v = v} {w = w} feeds flushed cancel e head c before h1 h2) n h =
      Respects-run number_order _ v w c (on_event-Same e) h2 n (
        Respects-run number_order _ u v head (loop_head-Same feeds flushed cancel) h1 n
          (Turns-Bears before n h))

  set_stream-conv : (k : Kcp) (b : Bool) → Kcp.conv (Kcp.set_stream k b) ≡ Kcp.conv k
  unfolding Kcp.set_stream
  set_stream-conv k b = refl

  set_mtu-conv : (k : Kcp) (mtu : ℕ) → Kcp.conv (Kcp.set_mtu k mtu).0 ≡ Kcp.conv k
  unfolding Kcp.set_mtu
  set_mtu-conv k mtu = elim (Bool-cases (k.handle.mtu == mtu)) [
    | inl there ↦ rw there refl
    | inr other ↦ rw other (L.setmtu_conv k.handle _)
  ]

  set_wndsize-conv : (k : Kcp) (a b : ℕ) → Kcp.conv (Kcp.set_wndsize k a b) ≡ Kcp.conv k
  unfolding Kcp.set_wndsize
  set_wndsize-conv k a b = L.wndsize_conv k.handle _ _

  buffer-Same : (f : Task → Bytes) → Respects number_order (modify (λ t. record t { rx_buf = f t }))
  buffer-Same f = modify-Respects _ λ t. same t _ refl refl refl

  kcp_apply_config-Same : Respects number_order kcp_apply_config
  unfolding kcp_apply_config
  kcp_apply_config-Same =
      search
        (
          order_rules, on_kcp-Same, call-Same, set_stream-conv, set_mtu-conv, set_wndsize-conv,
          kcp_apply_nodelay-Same, buffer-Same,
        )
        depth 20

  -- For a number that is not that of the SYN handshake.
  abbrev SameValid : Task → Task → Type 0
  SameValid t u = (n : ℕ) → is_valid_conv n ≡ true → Bears n t → Bears n u

  abbrev valid_order : Order
  valid_order = record {
    Rel = SameValid;
    rel_refl = λ t n valid h. h;
    rel_trans = λ t u v a b n valid h. b n valid (a n valid h);
  }

  Ends-valid :
      {A : Type 0} (t : Task) (r : Option (A × Task)) → Ends (Same t) r → Ends (SameValid t) r
  Ends-valid t none h = tt
  Ends-valid t (some (a, u)) h = λ n valid. h n

  Respects-valid : {A : Type 0} (m : M A) → Respects number_order m → Respects valid_order m
  Respects-valid m h = record { from = λ t. Ends-valid t (m t) (h.from t) }

  not_client :
      (t : Task) (n : ℕ) → is_valid_conv n ≡ true → Bears n t → (Kcp.conv t.kcp == syn_conv) ≡ false
  not_client t n valid h = rw (h.number) (valid_not_syn n valid)

  -- A server does not begin the handshake.
  vacuous-Ends :
      {A : Type 0} (t : Task) (r : Option (A × Task))
      → (Kcp.conv t.kcp == syn_conv) ≡ true
      → Ends (SameValid t) r
  vacuous-Ends t none e = tt
  vacuous-Ends t (some (a, u)) e = λ n valid h. let other = not_client t n valid h in absurd cc

  begin-SameValid :
      (random : ℕ → ℕ)
      → Respects valid_order
          (gets (λ t. Kcp.conv t.kcp) >>= λ conv. when (conv == syn_conv) (client_start random))
  unfolding task_monad
  begin-SameValid random = record { from = λ t. by_role t (Kcp.conv t.kcp == syn_conv) refl }
    where
      by_role :
          (t : Task) (client : Bool)
          → (Kcp.conv t.kcp == syn_conv) ≡ client
          → Ends (SameValid t) ((if client then client_start random else pure tt) t)
      by_role t true e = vacuous-Ends t (client_start random t) e
      by_role t false e = valid_order.rel_refl t

  initialize-conv : (k : Kcp) → Kcp.conv (Kcp.initialize k) ≡ Kcp.conv k
  unfolding Kcp.initialize
  initialize-conv k = update-conv k (Kcp.get_system_time k)

  syn_state-Same :
      Respects number_order
        (modify (λ t. record t { hs = syn; hs_end_time = deadline t t.config.connect_timeout }))
  syn_state-Same = modify-Respects _ λ t. same t _ refl refl refl

  io_time-Same : Respects number_order (modify (λ t. record t { last_io_time = Kcp.current t.kcp }))
  io_time-Same = modify-Respects _ λ t. same t _ refl refl refl

  start-SameValid : (random : ℕ → ℕ) → Respects valid_order (start random)
  unfolding start
  start-SameValid random = >>-Respects (Respects-valid _ (on_kcp-Same _ initialize-conv)) (
      >>-Respects (Respects-valid _ kcp_apply_config-Same) (
        >>-Respects (Respects-valid _ syn_state-Same) (
          >>-Respects (Respects-valid _ (on_kcp-Same _ λ k. nodelay-conv k true 100 0 false))
            (>>-Respects (Respects-valid _ io_time-Same) (begin-SameValid random)))))

  new_task-Bears : (config : KcpConfig) (conv : ℕ) → Bears conv (new_task config conv)
  unfolding new_task Kcp.new
  new_task-Bears config conv = record { server = refl; number = L.create_conv conv; told = tt }

  -- A server's task that was made with a valid number, that has begun and then takes any turns, the
  -- clock moving between them: each message about the connection to the application bears that
  -- number, and so does the message to the listener when the task ends.
  pub server-Tells :
      (config : KcpConfig) (conv : ℕ) (random : ℕ → ℕ) (t u : Task)
      → is_valid_conv conv ≡ true
      → start random (new_task config conv) ≡ some (tt, t)
      → Turns t u
      → All (Tells conv) u.sent × ((finish u).1 ≡ conv)
  unfolding finish
  server-Tells config conv random t u valid begun turns =
      let first =
        Respects-run valid_order _ (new_task config conv) t tt (start-SameValid random) begun conv
          valid (new_task-Bears config conv) in
      let last = Turns-Bears turns conv first in (last.told, last.number)
