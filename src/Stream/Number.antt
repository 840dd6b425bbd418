-- ===== src/Stream/Number.antt =====
-- src/stream.rs: the number of a server's connection. The listener keeps a session under the number that
-- it gave to the task, and the task's messages bear the number of its connection.
pub mod Handshaking
pub mod Lifetime
use kcp_rs.Base.{
  ℕ, ◌≡◌, refl, sym, ap, ◌∙◌, Bool, true, false, Option, none, some, List, [], ◌∷◌, ◌++◌, Bytes,
  All, All-append, Io, ok, err, panic, if◌then◌else◌, Bool-cases, inl, inr, ltb, ◌==◌,
}
use kcp_rs.Config.{KcpConfig}
use kcp_rs.Ffi.{Engine}
use kcp_rs.Ffi.Laws.{NumberLaws}
use kcp_rs.Protocol.Kcp
use kcp_rs.Protocol.Kcp.{Kcp, output, outputs, recv_done}
use kcp_rs.Stream.Flags.{Flag, flush_flag, toggle}
use kcp_rs.Stream.Handshake
use kcp_rs.Stream.Handshake.{Handshake}
use kcp_rs.Stream.Task.{
  Task, Answer, done, failed, Output, established, frame, M, call, on_kcp, modify, set_flag,
  toggle_flag, mark_io, move_to, set_handshake, kcp_flush, kcp_recv, kcp_apply_nodelay,
  handshake_send, after_send, process_input,
}
use kcp_rs.Stream.Order.{Order, Respects, settle-Ends, modify-Respects, order_rules}

-- A message of a connection with the number `n`.
abbrev pub Tells : ℕ → Output → Type 0
Tells n (established c) = c ≡ n
Tells n (frame x) = Unit {0}

module _ ⦃E : Engine⦄ where
  -- A server's task whose connection has the number `n`, and which told the application no other.
  pub record Bears (n : ℕ) (t : Task) : Type 0 where
    pub server : t.flags.client ≡ false
    pub number : Kcp.conv t.kcp ≡ n
    pub told : All (Tells n) t.sent

  abbrev pub Same : Task → Task → Type 0
  Same t u = (n : ℕ) → Bears n t → Bears n u

  abbrev pub number_order : Order
  number_order = record {
    Rel = Same;
    rel_refl = λ t n h. h;
    rel_trans = λ t u v a b n h. b n (a n h);
  }

  -- What the relation does not look at.
  pub same :
      (t u : Task)
      → u.flags.client ≡ t.flags.client
      → Kcp.conv u.kcp ≡ Kcp.conv t.kcp
      → u.sent ≡ t.sent
      → Same t u
  same t u role conv sent n h = record {
    server = role ∙ h.server;
    number = conv ∙ h.number;
    told = rw sent (h.told);
  }

module _ ⦃E : Engine⦄ ⦃L : NumberLaws E⦄ where
  pub on_kcp-Same :
      (f : Kcp → Kcp) → ((k : Kcp) → Kcp.conv (f k) ≡ Kcp.conv k) → Respects number_order (on_kcp f)
  unfolding on_kcp
  on_kcp-Same f h = record { from = λ t. same t _ refl (h t.kcp) refl }

  pub call-Same :
      {A : Type 0} (f : Kcp → Kcp × Io A)
      → ((k : Kcp) → Kcp.conv (f k).0 ≡ Kcp.conv k)
      → Respects number_order (call f)
  unfolding call
  call-Same f h = record {
    from = λ t. settle-Ends number_order t (f t.kcp) (same t _ refl (h t.kcp) refl);
  }

  outputs-conv : (k : Kcp) (bufs : List Bytes) → Kcp.conv (outputs k bufs) ≡ Kcp.conv k
  unfolding outputs output
  outputs-conv k [] = refl
  outputs-conv k (buf ∷ bufs) = outputs-conv (output k buf) bufs

  flush-conv : (k : Kcp) → Kcp.conv (Kcp.flush k) ≡ Kcp.conv k
  unfolding Kcp.flush
  flush-conv k = outputs-conv _ _ ∙ L.flush_conv k.handle

  pub update-conv : (k : Kcp) (now : ℕ) → Kcp.conv (Kcp.update k now) ≡ Kcp.conv k
  unfolding Kcp.update
  update-conv k now = outputs-conv _ _ ∙ L.update_conv k.handle now

  send-conv : (k : Kcp) (x : Bytes) → Kcp.conv (Kcp.send k x).0 ≡ Kcp.conv k
  unfolding Kcp.send
  send-conv k [] = refl
  send-conv k (b ∷ x) = L.send_conv k.handle (b ∷ x) _

  pub input-conv : (k : Kcp) (p : Bytes) → Kcp.conv (Kcp.input k p).0 ≡ Kcp.conv k
  unfolding Kcp.input
  input-conv k p = L.input_conv k.handle p _

  recv_done-conv : (r : Kcp × Bytes × Io ℕ) → Kcp.conv (recv_done r).0 ≡ Kcp.conv r.0
  unfolding recv_done
  recv_done-conv (k, buf, ok n) = refl
  recv_done-conv (k, buf, err e) = refl
  recv_done-conv (k, buf, panic) = refl

  recv_bytes-conv : (k : Kcp) → Kcp.conv (Kcp.recv_bytes k).0 ≡ Kcp.conv k
  unfolding Kcp.recv_bytes Kcp.recv
  recv_bytes-conv k = elim (Bool-cases (ltb 0 (Kcp.peek_size k))) [
    | inl more ↦ rw more (recv_done-conv _ ∙ L.recv_conv k.handle _ _)
    | inr nothing ↦ rw nothing refl
  ]

  pub nodelay-conv :
      (k : Kcp) (a : Bool) (b c : ℕ) (d : Bool) → Kcp.conv (Kcp.set_nodelay k a b c d) ≡ Kcp.conv k
  unfolding Kcp.set_nodelay
  nodelay-conv k a b c d = L.nodelay_conv k.handle _ _ _ _

  pub set_flush-Same : Respects number_order (set_flag flush_flag)
  unfolding set_flag
  set_flush-Same = record { from = λ t. same t _ refl refl refl }

  toggle_flush-Same : (t : Task) → Same t (toggle_flag flush_flag t)
  unfolding toggle
  toggle_flush-Same t = same t _ refl refl refl

  mark_io-Same : (t : Task) → Same t (mark_io t)
  mark_io-Same t = same t _ refl refl refl

  pub kcp_flush-Same : Respects number_order kcp_flush
  unfolding kcp_flush
  kcp_flush-Same =
      search
        (
          order_rules, modify-Respects, on_kcp-Same, toggle_flush-Same, mark_io-Same, update-conv,
          flush-conv,
        )
        depth 16

  pub kcp_recv-Same : Respects number_order kcp_recv
  unfolding kcp_recv
  kcp_recv-Same = search (order_rules, call-Same, recv_bytes-conv) depth 12

  pub kcp_apply_nodelay-Same : Respects number_order kcp_apply_nodelay
  unfolding kcp_apply_nodelay
  kcp_apply_nodelay-Same = search (order_rules, on_kcp-Same, nodelay-conv) depth 12

  pub handshake_send-Same : Respects number_order handshake_send
  unfolding handshake_send
  handshake_send-Same =
      search (order_rules, call-Same, set_flush-Same, kcp_flush-Same, send-conv) depth 16

  after_send-Same : (r : Answer ℕ) → Respects number_order (after_send r)
  unfolding after_send
  after_send-Same (done n) = search (order_rules, set_flush-Same) depth 12
  after_send-Same (failed e) = search order_rules

  pub process_input-Same : (x : Bytes) → Respects number_order (process_input x)
  unfolding process_input
  process_input-Same x = search (order_rules, call-Same, after_send-Same, send-conv) depth 16

  move-Same : (hs : Handshake) (t : Task) → Same t (move_to hs t)
  move-Same hs t = by_test (Handshake.same t.hs hs)
    where
      by_test : (b : Bool) → Same t (if b then t else record t { hs = hs })
      by_test true = number_order.rel_refl t
      by_test false = same t _ refl refl refl

  pub set_handshake-Same : (hs : Handshake) → Respects number_order (set_handshake hs)
  unfolding set_handshake
  set_handshake-Same hs = search (modify-Respects, move-Same)
