-- ===== src/Example/Greeted.antt =====
-- A concrete C library that has the frame of a client's handshake from the beginning. It is there to show
-- that the laws on numbers can hold, and says nothing of kcp/ikcp.c.
use kcp_rs.Base.{◌+◌, ◌≡◌, refl, Option, none, some, [], ◌∷◌, Bytes, first}
use kcp_rs.Ffi
use kcp_rs.Ffi.Laws.{NumberLaws}
use kcp_rs.Example.Engine.{toy, toy_create, toy_taken, ToyCb}

instance abbrev pub greeted : Ffi.Engine
greeted = record toy {
  ikcp_create = λ conv. record (toy_create conv) {
    hidden = record { messages = (1 ∷ 2 ∷ 7 ∷ 8 ∷ 9 ∷ []) ∷ []; sent_count = 0; packets = [] };
  };
  ikcp_check = λ cb now. now + 5;
}

taken_conv : (cb : ToyCb) (buf : Bytes) (x : Option Bytes) → (toy_taken cb buf x).0.conv ≡ cb.conv
taken_conv cb buf none = refl
taken_conv cb buf (some x) = refl

instance pub greeted-NumberLaws : NumberLaws greeted
greeted-NumberLaws = record {
  create_conv = λ c. refl;
  recv_conv = λ cb buf n. taken_conv cb buf (first cb.hidden.messages);
  send_conv = λ cb x n. refl;
  input_conv = λ cb p n. refl;
  flush_conv = λ cb. refl;
  update_conv = λ cb now. refl;
  setmtu_conv = λ cb n. refl;
  wndsize_conv = λ cb a b. refl;
  nodelay_conv = λ cb a b c d. refl;
}
