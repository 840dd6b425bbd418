-- ===== src/Example/Pipes.antt =====
-- Concrete channels, and the theorems on the application's end of a connection at concrete inputs.
use mathlib.Core.Option.{some-injective}
use kcp_rs.Base.{
  ◌==◌, if◌then◌else◌, ℕ, zero, suc, ◌-◌, ◌<◌, ◌≡◌, ◌⊎◌, refl, sym, ap, Bool, true, false, Option,
  none, some, List, [], ◌∷◌, ◌++◌, Bytes, All, replicate, arith, Io, ok,
}
use kcp_rs.Config.{default}
use kcp_rs.Channels.{
  Poll, ready, pending, Receiver, ReceiverLaws, PollSender, PollSenderLaws, CloseLaws,
}
use kcp_rs.KcpStream.{
  Channels, KcpStream, poll_read, poll_write, stream_new, Spawn, spawn_task, chunks, write_loop,
  poll_ready, after_ready, start_send, after_start,
}
use kcp_rs.KcpStream.Reading.{Reads, poll_read-Reads}
use kcp_rs.KcpStream.Writing.{handed, Writes, poll_write-Writes}
use kcp_rs.KcpStream.Accepted.{Accepts, poll_write-Accepts}
use kcp_rs.KcpStream.Closing.{close_all, stream_of, connect, accept}
use kcp_rs.KcpStream.Closing.Laws.{Ends, close_all-Closes, Outcome, accept-Outcome}
use kcp_rs.Protocol.Conv.{syn_conv, is_valid_conv, max_frame_size}
use kcp_rs.Protocol.Kcp.{Kcp}
use kcp_rs.Protocol.Packet.{◌>>=◌}
use kcp_rs.Stream.Task.{established, frame}
use kcp_rs.Example.Engine.{toy, toy-SendLaws}

module _ {A : Type 0} where
  -- A queue that is still open gives nothing more for now.
  abbrev take_first : List A × Bool → (List A × Bool) × Poll (Option A)
  take_first (x ∷ q, closed) = ((q, closed), ready (some x))
  take_first ([], true) = (([], true), ready none)
  take_first ([], false) = (([], false), pending)

  abbrev pub toy_receiver : Receiver A
  toy_receiver = record { State = List A × Bool; poll_recv = take_first; close = λ s. (s.0, true) }

  pub some_case :
      (q : List A) (closed : Bool) (s' : List A × Bool) (x : A)
      → take_first (q, closed) ≡ (s', ready (some x))
      → q ≡ x ∷ s'.0
  some_case [] true s' x e = absurd (ground arith)
  some_case [] false s' x e = absurd (ground arith)
  some_case (y ∷ q) closed s' x e = ground arith

  pub none_case :
      (q : List A) (closed : Bool) (s' : List A × Bool)
      → take_first (q, closed) ≡ (s', ready none)
      → (q ≡ []) × (s'.0 ≡ [])
  none_case [] true s' e = (refl, sym (ap (λ r. r.0.0) e))
  none_case [] false s' e = absurd (ground arith)
  none_case (y ∷ q) closed s' e = absurd (ground arith)

  pub pending_case :
      (q : List A) (closed : Bool) (s' : List A × Bool)
      → take_first (q, closed) ≡ (s', pending)
      → s'.0 ≡ q
  pending_case [] true s' e = absurd (ground arith)
  pending_case [] false s' e = sym (ap (λ r. r.0.0) e)
  pending_case (y ∷ q) closed s' e = absurd (ground arith)

  unfoldable pub toy_receiver-ReceiverLaws : ReceiverLaws toy_receiver
  toy_receiver-ReceiverLaws = record {
    queue = λ s. s.0;
    recv_some = λ s s' x e. some_case s.0 s.1 s' x e;
    recv_none = λ s s' e. none_case s.0 s.1 s' e;
    recv_pending = λ s s' e. pending_case s.0 s.1 s' e;
    close_keeps = λ s. refl;
  }

pub record Pipe : Type 0 where
  pub out : List Bytes
  pub reserved : Bool
  pub room : ℕ
  pub closed : Bool

abbrev pub reserve : Bool → ℕ → Pipe → Pipe × Poll Bool
reserve true n s = (s, ready false)
reserve false zero s = (s, pending)
reserve false (suc n) s = (record s { reserved = true }, ready true)

abbrev pub put_in : Bool → Pipe → Bytes → Option (Pipe × Bool)
put_in false s x = none
put_in true s x =
    some (record s { out = s.out ++ (x ∷ []); reserved = false; room = s.room - 1 }, true)

abbrev pub toy_sender : PollSender Bytes
toy_sender = record {
  State = Pipe;
  poll_ready = λ s. reserve s.closed s.room s;
  start_send = λ s x. put_in s.reserved s x;
  poll_close = λ s. (record s { closed = true }, ready true);
  abort_send = λ s. record s { reserved = false };
  close = λ s. record s { closed = true };
}

reserve-out : (closed : Bool) (n : ℕ) (s : Pipe) → (reserve closed n s).0.out ≡ s.out
reserve-out true n s = refl
reserve-out false zero s = refl
reserve-out false (suc n) s = refl

reserve-reserved :
    (closed : Bool) (n : ℕ) (s s' : Pipe)
    → reserve closed n s ≡ (s', ready true)
    → s'.reserved ≡ true
reserve-reserved true n s s' e = absurd (ground arith)
reserve-reserved false zero s s' e = absurd (ground arith)
reserve-reserved false (suc n) s s' e = sym (ap (λ r. r.0.reserved) e)

put_in-reserved :
    (b : Bool) (s : Pipe) (x : Bytes)
    → b ≡ true
    → (t : Pipe) × (okay : Bool) × (put_in b s x ≡ some (t, okay))
put_in-reserved true s x e = (_, _, refl)
put_in-reserved false s x e = absurd (ground arith)

put_in-ok :
    (b : Bool) (s t : Pipe) (x : Bytes) → put_in b s x ≡ some (t, true) → t.out ≡ s.out ++ (x ∷ [])
put_in-ok true s t x e = ap (λ r. r.0.out) (sym (some-injective _ _ e))
put_in-ok false s t x e = absurd (ground arith)

put_in-err : (b : Bool) (s t : Pipe) (x : Bytes) → put_in b s x ≡ some (t, false) → t.out ≡ s.out
put_in-err true s t x e = absurd (ground arith)
put_in-err false s t x e = absurd (ground arith)

toy_sender-PollSenderLaws : PollSenderLaws toy_sender
toy_sender-PollSenderLaws = record {
  handed = λ s. s.out;
  ready_keeps = λ s. reserve-out s.closed s.room s;
  send_ready =
      λ s s' x e. put_in-reserved s'.reserved s' x (reserve-reserved s.closed s.room s s' e);
  send_ok = λ s t x e. put_in-ok s.reserved s t x e;
  send_err = λ s t x e. put_in-err s.reserved s t x e;
}

pub close_is_ready : (s s' : Pipe) → toy_sender.poll_close s ≡ (s', pending) → 0 < 0
close_is_ready s s' e = absurd (ground arith)

unfoldable pub toy_sender-CloseLaws : CloseLaws toy_sender
toy_sender-CloseLaws = record {
  waits = λ s. 0;
  close_ready = λ s s' b e. omega arith;
  close_pending = close_is_ready;
}

instance abbrev pub pipes : Channels
pipes = record { input = toy_sender; output = toy_receiver }

-- The message of the connection, an empty frame, and a frame of three bytes.
abbrev pub with_data : KcpStream
with_data =
    stream_new default (record { out = []; reserved = false; room = 1; closed = false })
      (established 5 ∷ frame [] ∷ frame (1 ∷ 2 ∷ 3 ∷ []) ∷ [], false)

poll_read-Reads_example :
    (s' : KcpStream) × (put : Bytes) × (p : Poll (Io (Unit {0}))) × (poll_read 10 with_data 2
      ≡ some (s', put, p))
    × Reads toy_receiver-ReceiverLaws 2 with_data s' put p
unfolding stream_new toy_receiver-ReceiverLaws
poll_read-Reads_example =
    poll_read-Reads toy_receiver-ReceiverLaws 10 2 with_data tt (omega arith) (omega arith)

-- The channel has room for one frame.
poll_write-Writes_example :
    (s' : KcpStream) × (p : Poll (Io ℕ)) × (poll_write with_data (1 ∷ 2 ∷ 3 ∷ []) ≡ some (s', p))
    × Writes toy_sender-PollSenderLaws (max_frame_size default.mtu) with_data (1 ∷ 2 ∷ 3 ∷ []) s' p
unfolding stream_new max_frame_size
poll_write-Writes_example =
    poll_write-Writes toy_sender-PollSenderLaws with_data (1 ∷ 2 ∷ 3 ∷ []) (omega arith)
      (omega arith)

abbrev after_write : KcpStream
after_write =
    stream_new default
      (record { out = (1 ∷ 2 ∷ 3 ∷ []) ∷ []; reserved = false; room = 0; closed = false })
      (established 5 ∷ frame [] ∷ frame (1 ∷ 2 ∷ 3 ∷ []) ∷ [], false)

written : poll_write with_data (1 ∷ 2 ∷ 3 ∷ []) ≡ some (after_write, ready (ok 3))
unfolding stream_new poll_write max_frame_size chunks write_loop poll_ready after_ready start_send
    after_start
written = refl

poll_write-Accepts_example :
    (cs : List Bytes) × (handed toy_sender-PollSenderLaws after_write
      ≡ handed toy_sender-PollSenderLaws with_data ++ cs)
    × ((k : Kcp) → k.handle.mtu ≡ with_data.config.mtu → All (Accepts k) cs)
unfolding stream_new
poll_write-Accepts_example =
    poll_write-Accepts toy_sender-PollSenderLaws toy-SendLaws with_data after_write (1 ∷ 2 ∷ 3 ∷ [])
      (ready (ok 3)) (omega arith) (omega arith) (omega arith) written

-- The task is not over at the first two polls.
close_all-Closes_example :
    ((with_data.task ≡ false)
      ⊎ (close_all ((false ∷ []) ++ (false ∷ [])) with_data ≡ close_all (false ∷ []) with_data))
    × Ends toy_receiver-ReceiverLaws toy_sender-CloseLaws
        ((false ∷ false ∷ []) ++ replicate 1 true)
        with_data
unfolding toy_sender-CloseLaws
close_all-Closes_example =
    close_all-Closes toy_receiver-ReceiverLaws toy_sender-CloseLaws (false ∷ false ∷ [])
      (false ∷ []) 1 with_data (omega arith)

-- A task of a server ends without a connection, that of a client gets one.
abbrev toy_spawn : Spawn
toy_spawn input_size output_size config conv = record {
  input = with_data.input_sink;
  output = with_data.output_rx;
  answer = if conv == syn_conv then some (established 9) else none;
}

accept-Outcome_example :
    Outcome toy_receiver-ReceiverLaws toy_sender-CloseLaws
      (is_valid_conv 7)
      (spawn_task toy_spawn default 7).answer
      (stream_of default (spawn_task toy_spawn default 7))
      (accept default 7 toy_spawn ((false ∷ []) ++ replicate 1 true))
    × Outcome toy_receiver-ReceiverLaws toy_sender-CloseLaws true
        (spawn_task toy_spawn default syn_conv).answer
        (stream_of default (spawn_task toy_spawn default syn_conv))
        (connect default toy_spawn ((false ∷ []) ++ replicate 1 true) >>= λ r. some (some r.0, r.1))
unfolding toy_sender-CloseLaws
accept-Outcome_example =
    accept-Outcome toy_receiver-ReceiverLaws toy_sender-CloseLaws default 7 toy_spawn (false ∷ []) 1
      (omega arith) (omega arith)
