-- ===== src/Example/Counted.antt =====
-- A concrete C library that counts the messages of its queue. It is there to show that the laws on what
-- arrives can hold, and says nothing of kcp/ikcp.c.
use kcp_rs.Base.{
  ℕ, zero, suc, ◌+◌, ◌≡◌, refl, sym, ap, ◌∙◌, Option, none, some, List, [], ◌∷◌, ◌++◌, append-nil,
  Bytes, length, take, first, length-take, length-replicate, arith, ℤ, pos, negsuc,
}
use kcp_rs.Ffi
use kcp_rs.Ffi.{Ikcpcb}
use kcp_rs.Ffi.Laws.{RecvLaws, ArrivalLaws}
use kcp_rs.Example.Engine.{toy, ToyCb, others, toy_size}

-- What stands in the queue: no more than it counts.
abbrev in_queue : ToyCb → List Bytes
in_queue cb = take cb.nrcv_que cb.hidden.messages

abbrev one_fewer : ℕ → ℕ
one_fewer zero = zero
one_fewer (suc n) = n

abbrev read_front : ToyCb → Bytes → Option Bytes → ToyCb × ℤ × Bytes
read_front cb buf none = (cb, negsuc 0, buf)
read_front cb buf (some x) = (
  record cb {
    nrcv_que = one_fewer cb.nrcv_que;
    hidden = record (cb.hidden) { messages = others cb.hidden.messages };
  },
  pos (length x),
  x,
)

instance abbrev pub counted : Ffi.Engine
counted = record toy {
  ikcp_recv = λ cb buf n. read_front cb buf (first (in_queue cb));
  ikcp_peeksize = λ cb. toy_size (first (in_queue cb));
  ikcp_check = λ cb now. now + 5;
}

abbrev counted_recv : RecvLaws counted
counted_recv = record {
  next = λ cb. first (in_queue cb);
  peek_none = λ cb e. (0, λ i. toy_size (e i));
  peek_some = λ cb x e. λ i. toy_size (e i);
  recv_some = λ cb x buf e size. (_, λ i. read_front cb buf (e i));
}

rest_of :
    (n : ℕ) (q rest : List Bytes) (x : Bytes)
    → take n q ≡ x ∷ rest
    → take (one_fewer n) (others q) ≡ rest ++ []
rest_of zero q rest x e = absurd (ground arith)
rest_of (suc n) [] rest x e = absurd (ground arith)
rest_of (suc n) (y ∷ q) rest x e = ap others e ∙ sym (append-nil rest)

pub counted_takes :
    (cb : ToyCb) (x : Bytes) (rest : List Bytes) (buf : Bytes)
    → in_queue cb ≡ x ∷ rest
    → (more : List Bytes) × (in_queue (read_front cb buf (first (in_queue cb))).0 ≡ rest ++ more)
      × (cb.nrcv_buf ≡ 0 → more ≡ [])
counted_takes cb x rest buf e = (
  [],
  ap (λ o. in_queue (read_front cb buf o).0) (ap first e)
      ∙ rest_of cb.nrcv_que cb.hidden.messages rest x e,
  λ h. refl,
)

instance abbrev pub counted-ArrivalLaws : ArrivalLaws counted
counted-ArrivalLaws = record {
  recv = counted_recv;
  messages = in_queue;
  next_first = λ cb. refl;
  recv_takes = λ cb x rest buf e size. counted_takes cb x rest buf e;
  input_adds = λ cb packet n. ([], sym (append-nil _));
  send_keeps = λ cb x n. refl;
  flush_keeps = λ cb. refl;
  update_keeps = λ cb now. refl;
  conv_keeps = λ cb c. refl;
  queue_room = λ cb. omega (arith, length-take cb.nrcv_que cb.hidden.messages);
  fresh = λ n. length-replicate n 0;
}
