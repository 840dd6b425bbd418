-- ===== src/Example/Engine.antt =====
-- A concrete C library: it keeps the messages that it will give and counts what it was sent. It is
-- there to show that the conditions of the theorems can hold, and says nothing of kcp/ikcp.c.
use kcp_rs.Base.{
  ℕ, ◌+◌, ◌≡◌, refl, ◌⊎◌, inl, inr, Bool, false, Option, none, some, List, [], ◌∷◌, Bytes, length,
  replicate, ltb, leb, lt→ltb, if◌then◌else◌, Bool-cases, ℤ, pos, negsuc, ◌&&◌, get_elem?, first,
}
use kcp_rs.Ffi
use kcp_rs.Ffi.{Ikcpcb, ikcp_overhead, ikcp_cmd_push, ikcp_cmd_wins}
use kcp_rs.Ffi.Laws.{SendLaws, RecvLaws, InputLaws, NodelayLaws}

pub record ToyState : Type 0 where
  pub messages : List Bytes
  pub sent_count : ℕ
  pub packets : List Bytes

abbrev pub ToyCb : Type 0
ToyCb = Ikcpcb ToyState

abbrev pub others : List Bytes → List Bytes
others [] = []
others (x ∷ xs) = xs

abbrev pub toy_size : Option Bytes → ℤ
toy_size none = negsuc 0
toy_size (some x) = pos (length x)

abbrev pub toy_taken : ToyCb → Bytes → Option Bytes → ToyCb × ℤ × Bytes
toy_taken cb buf none = (cb, negsuc 0, buf)
toy_taken cb buf (some x) = (
  record cb { hidden = record (cb.hidden) { messages = others cb.hidden.messages } },
  pos (length x),
  x,
)

abbrev toy_recv : ToyCb → Bytes → ℤ → ToyCb × ℤ × Bytes
toy_recv cb buf n = toy_taken cb buf (first cb.hidden.messages)

abbrev is_command : Option ℕ → Bool
is_command none = false
is_command (some c) = leb ikcp_cmd_push c && leb c ikcp_cmd_wins

abbrev toy_code : Bytes → ℤ
toy_code packet =
    if ltb (length packet) ikcp_overhead
    then negsuc 0
    else (if is_command (get_elem? packet 4) then pos 0 else negsuc 2)

abbrev pub toy_create : ℕ → ToyCb
toy_create conv = record {
  conv = conv;
  mtu = 1400;
  state = 0;
  snd_nxt = 0;
  rcv_nxt = 0;
  snd_wnd = 32;
  rcv_wnd = 128;
  current = 0;
  nrcv_buf = 0;
  nrcv_que = 0;
  nsnd_que = 0;
  stream = pos 0;
  logmask = pos 0;
  hidden = record { messages = []; sent_count = 0; packets = [] };
}

instance abbrev pub toy : Ffi.Engine
toy = record {
  Hidden = ToyState;
  ikcp_create = toy_create;
  ikcp_recv = toy_recv;
  ikcp_peeksize = λ cb. toy_size (first cb.hidden.messages);
  ikcp_send = λ cb frame n.
      (record cb { hidden = record (cb.hidden) { sent_count = cb.hidden.sent_count + 1 } }, pos 0);
  ikcp_input = λ cb packet n. (cb, toy_code packet);
  ikcp_flush =
      λ cb. (record cb { hidden = record (cb.hidden) { packets = [] } }, cb.hidden.packets);
  ikcp_update = λ cb now. (record cb { current = now }, []);
  ikcp_check = λ cb now. now;
  ikcp_setmtu = λ cb n. (cb, pos 0);
  ikcp_wndsize = λ cb snd rcv. cb;
  ikcp_waitsnd = λ cb. pos 0;
  ikcp_nodelay = λ cb a b c d. cb;
  uninit = λ n. replicate n 0;
}

pub toy-NodelayLaws : NodelayLaws toy
toy-NodelayLaws = record { nodelay_keeps_mtu = λ cb a b c d. refl }

pub toy-SendLaws : SendLaws toy
toy-SendLaws = record { send_fits = λ cb frame h1 h2 h3 h4. (0, refl) }

abbrev pub toy_recv_laws : RecvLaws toy
toy_recv_laws = record {
  next = λ cb. first cb.hidden.messages;
  peek_none = λ cb e. (0, λ i. toy_size (e i));
  peek_some = λ cb x e. λ i. toy_size (e i);
  recv_some = λ cb x buf e size. (_, λ i. toy_taken cb buf (e i));
}

codes :
    (packet : Bytes)
    → (toy_code packet ≡ pos 0)
      ⊎ (toy_code packet ≡ negsuc 0)
      ⊎ (toy_code packet ≡ negsuc 1)
      ⊎ (toy_code packet ≡ negsuc 2)
codes packet = elim (Bool-cases (ltb (length packet) ikcp_overhead)) [
  | inl e ↦ inr (inl (rw e refl))
  | inr e ↦ elim (Bool-cases (is_command (get_elem? packet 4))) [
    | inl f ↦ inl (rw (e, f) refl)
    | inr f ↦ inr (inr (inr (rw (e, f) refl)))
  ]
]

pub toy-InputLaws : InputLaws toy
toy-InputLaws = record {
  input_codes = λ cb packet n. codes packet;
  input_short = λ cb packet n h. rw (lt→ltb _ _ h) refl;
  input_keeps_conv = λ cb packet n. refl;
  input_keeps_mtu = λ cb packet n. refl;
}
