-- ===== src/Stream/Delivery.antt =====
-- src/stream.rs: the way of a message from the C library to the application. The methods that do not
-- read leave alone what is under way, or put something behind it.
pub mod Arriving
pub mod Fetching
pub mod Handing
pub mod Turns
pub mod Ordered
use kcp_rs.Base.{
  ℕ, ◌≡◌, refl, sym, ap, ◌∙◌, Bool, true, false, Option, none, some, List, [], ◌∷◌, ◌++◌,
  append-nil, append_assoc, Bytes, Io, if◌then◌else◌,
}
use kcp_rs.Ffi.{Engine}
use kcp_rs.Ffi.Laws.{ArrivalLaws}
use kcp_rs.Protocol.Kcp
use kcp_rs.Protocol.Kcp.{Kcp, output, outputs}
use kcp_rs.Stream.Flags.{Flag, flush_flag, toggle}
use kcp_rs.Stream.Handshake.{Handshake, same}
use kcp_rs.Stream.Task.{
  Task, Answer, done, failed, Output, established, frame, M, call, on_kcp, set_flag, toggle_flag,
  mark_io, move_to, set_handshake, kcp_flush, handshake_send, after_send, process_input,
}
use kcp_rs.Stream.Order.{Order, Respects, settle-Ends, modify-Respects, order_rules}

-- The frames among the messages to the application.
abbrev pub data_frames : List Output → List Bytes
data_frames [] = []
data_frames (established conv ∷ q) = data_frames q
data_frames (frame x ∷ q) = x ∷ data_frames q

abbrev pub kept : Option Bytes → List Bytes
kept none = []
kept (some x) = x ∷ []

module _ ⦃E : Engine⦄ ⦃L : ArrivalLaws E⦄ where
  abbrev pub arrived : Kcp → List Bytes
  arrived k = L.messages k.handle

  -- What was handed to the application, the frame that is kept for it, and what the C library holds.
  abbrev pub delivery : Task → List Bytes
  delivery t = data_frames t.sent ++ (kept t.tx_frame ++ arrived t.kcp)

  -- Nothing is read and nothing comes.
  pub record Still (t t' : Task) : Type 0 where
    pub sent_same : t'.sent ≡ t.sent
    pub kept_same : t'.tx_frame ≡ t.tx_frame
    pub fin_same : t'.flags.fin_recved ≡ t.flags.fin_recved
    pub arrived_same : arrived t'.kcp ≡ arrived t.kcp

  pub still :
      (t t' : Task)
      → t'.sent ≡ t.sent
      → t'.tx_frame ≡ t.tx_frame
      → t'.flags.fin_recved ≡ t.flags.fin_recved
      → arrived t'.kcp ≡ arrived t.kcp
      → Still t t'
  still t t' a b c d = record { sent_same = a; kept_same = b; fin_same = c; arrived_same = d }

  abbrev pub still_order : Order
  still_order = record {
    Rel = Still;
    rel_refl = λ t. still t t refl refl refl refl;
    rel_trans = λ t u v a b.
        still t v (b.sent_same ∙ a.sent_same) (b.kept_same ∙ a.kept_same) (b.fin_same ∙ a.fin_same)
          (b.arrived_same ∙ a.arrived_same);
  }

  pub on_kcp-Still :
      (f : Kcp → Kcp) → ((k : Kcp) → arrived (f k) ≡ arrived k) → Respects still_order (on_kcp f)
  unfolding on_kcp
  on_kcp-Still f h = record { from = λ t. still t _ refl refl refl (h t.kcp) }

  call-Still :
      {A : Type 0} (f : Kcp → Kcp × Io A)
      → ((k : Kcp) → arrived (f k).0 ≡ arrived k)
      → Respects still_order (call f)
  unfolding call
  call-Still f h = record {
    from = λ t. settle-Ends still_order t (f t.kcp) (still t _ refl refl refl (h t.kcp));
  }

  outputs-arrived : (k : Kcp) (bufs : List Bytes) → arrived (outputs k bufs) ≡ arrived k
  unfolding outputs output
  outputs-arrived k [] = refl
  outputs-arrived k (buf ∷ bufs) = outputs-arrived (output k buf) bufs

  flush-arrived : (k : Kcp) → arrived (Kcp.flush k) ≡ arrived k
  unfolding Kcp.flush
  flush-arrived k = outputs-arrived _ _ ∙ L.flush_keeps k.handle

  pub update-arrived : (k : Kcp) (now : ℕ) → arrived (Kcp.update k now) ≡ arrived k
  unfolding Kcp.update
  update-arrived k now = outputs-arrived _ _ ∙ L.update_keeps k.handle now

  send-arrived : (k : Kcp) (x : Bytes) → arrived (Kcp.send k x).0 ≡ arrived k
  unfolding Kcp.send
  send-arrived k [] = refl
  send-arrived k (b ∷ x) = L.send_keeps k.handle (b ∷ x) _

  set_conv-arrived : (k : Kcp) (c : ℕ) → arrived (Kcp.set_conv k c) ≡ arrived k
  unfolding Kcp.set_conv
  set_conv-arrived k c = L.conv_keeps k.handle c

  pub set_flush-Still : Respects still_order (set_flag flush_flag)
  unfolding set_flag
  set_flush-Still = record { from = λ t. still t _ refl refl refl refl }

  toggle_flush-Still : (t : Task) → Still t (toggle_flag flush_flag t)
  unfolding toggle
  toggle_flush-Still t = still t _ refl refl refl refl

  mark_io-Still : (t : Task) → Still t (mark_io t)
  mark_io-Still t = still t _ refl refl refl refl

  pub kcp_flush-Still : Respects still_order kcp_flush
  unfolding kcp_flush
  kcp_flush-Still =
      search
        (
          order_rules, modify-Respects, on_kcp-Still, toggle_flush-Still, mark_io-Still,
          update-arrived, flush-arrived,
        )
        depth 16

  pub handshake_send-Still : Respects still_order handshake_send
  unfolding handshake_send
  handshake_send-Still =
      search (order_rules, call-Still, set_flush-Still, kcp_flush-Still, send-arrived) depth 16

  after_send-Still : (r : Answer ℕ) → Respects still_order (after_send r)
  unfolding after_send
  after_send-Still (done n) = search (order_rules, set_flush-Still) depth 12
  after_send-Still (failed e) = search order_rules

  pub process_input-Still : (x : Bytes) → Respects still_order (process_input x)
  unfolding process_input
  process_input-Still x = search (order_rules, call-Still, after_send-Still, send-arrived) depth 16

  move-Still : (hs : Handshake) (t : Task) → Still t (move_to hs t)
  move-Still hs t = by_test (same t.hs hs)
    where
      by_test : (b : Bool) → Still t (if b then t else record t { hs = hs })
      by_test true = still_order.rel_refl t
      by_test false = still t _ refl refl refl refl

  pub set_handshake-Still : (hs : Handshake) → Respects still_order (set_handshake hs)
  unfolding set_handshake
  set_handshake-Still hs = search (modify-Respects, move-Still)
