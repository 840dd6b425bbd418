-- ===== src/Ffi/Laws.antt =====
-- kcp/ikcp.c, as far as the Rust code relies on it: what the functions of the library return.
use kcp_rs.Base.{
  ℕ, ◌+◌, ◌-◌, ◌/◌, ◌^◌, ◌≤◌, ◌<◌, ◌≡◌, ◌⊎◌, Option, none, some, List, [], ◌∷◌, ◌++◌, first, Bytes,
  length, ℤ, pos, negsuc, c_int,
}
use kcp_rs.Ffi.{Ikcpcb, Engine, ikcp_overhead, ikcp_wnd_rcv}

-- How many fragments of at most `mss` bytes `len` bytes take.
abbrev pub fragments : ℕ → ℕ → ℕ
fragments mss len = (len + mss - 1) / mss

module _ (E : Engine) where
  open E use {
    Hidden, ikcp_create, ikcp_send, ikcp_recv, ikcp_peeksize, ikcp_input, ikcp_nodelay, ikcp_flush,
    ikcp_update, ikcp_setmtu, ikcp_wndsize, uninit,
  }

  -- A frame whose length is a C `int` and that takes fewer than 256 fragments is taken. (A negative
  -- result stands for a frame that is too large; memory does not run out. The mtu of a block comes from
  -- an `int`.)
  pub record SendLaws : Type 0 where
    pub send_fits :
        (cb : Ikcpcb Hidden) (frame : Bytes)
        → ikcp_overhead < cb.mtu
        → 0 < length frame
        → length frame < 2 ^ 31
        → fragments (cb.mtu - ikcp_overhead) (length frame) < ikcp_wnd_rcv
        → (n : ℕ) × ((ikcp_send cb frame (c_int (length frame))).1 ≡ pos n)

  -- The next message does not depend on the buffer that receives it.
  pub record RecvLaws : Type 0 where
    pub next : Ikcpcb Hidden → Option Bytes
    pub peek_none : (cb : Ikcpcb Hidden) → next cb ≡ none → (n : ℕ) × (ikcp_peeksize cb ≡ negsuc n)
    pub peek_some :
        (cb : Ikcpcb Hidden) (x : Bytes) → next cb ≡ some x → ikcp_peeksize cb ≡ pos (length x)
    pub recv_some :
        (cb : Ikcpcb Hidden) (x buf : Bytes)
        → next cb ≡ some x
        → length buf ≡ length x
        → (cb' : Ikcpcb Hidden) × (ikcp_recv cb buf (c_int (length buf)) ≡ (cb', pos (length x), x))

  -- The results 0, -1, -2 and -3; -1 for a packet that is shorter than a header.
  pub record InputLaws : Type 0 where
    pub input_codes :
        (cb : Ikcpcb Hidden) (packet : Bytes) (n : ℤ)
        → ((ikcp_input cb packet n).1 ≡ pos 0)
          ⊎ ((ikcp_input cb packet n).1 ≡ negsuc 0)
          ⊎ ((ikcp_input cb packet n).1 ≡ negsuc 1)
          ⊎ ((ikcp_input cb packet n).1 ≡ negsuc 2)
    pub input_short :
        (cb : Ikcpcb Hidden) (packet : Bytes) (n : ℤ)
        → length packet < ikcp_overhead
        → (ikcp_input cb packet n).1 ≡ negsuc 0
    pub input_keeps_conv :
        (cb : Ikcpcb Hidden) (packet : Bytes) (n : ℤ) → (ikcp_input cb packet n).0.conv ≡ cb.conv
    pub input_keeps_mtu :
        (cb : Ikcpcb Hidden) (packet : Bytes) (n : ℤ) → (ikcp_input cb packet n).0.mtu ≡ cb.mtu

  pub record NodelayLaws : Type 0 where
    pub nodelay_keeps_mtu :
        (cb : Ikcpcb Hidden) (nodelay interval resend nc : ℤ)
        → (ikcp_nodelay cb nodelay interval resend nc).mtu ≡ cb.mtu

  -- Only `ikcp_create` gives a block its number; the Rust code alone changes it.
  pub record NumberLaws : Type 0 where
    pub create_conv : (c : ℕ) → (ikcp_create c).conv ≡ c
    pub recv_conv :
        (cb : Ikcpcb Hidden) (buf : Bytes) (n : ℤ) → (ikcp_recv cb buf n).0.conv ≡ cb.conv
    pub send_conv : (cb : Ikcpcb Hidden) (x : Bytes) (n : ℤ) → (ikcp_send cb x n).0.conv ≡ cb.conv
    pub input_conv : (cb : Ikcpcb Hidden) (p : Bytes) (n : ℤ) → (ikcp_input cb p n).0.conv ≡ cb.conv
    pub flush_conv : (cb : Ikcpcb Hidden) → (ikcp_flush cb).0.conv ≡ cb.conv
    pub update_conv : (cb : Ikcpcb Hidden) (now : ℕ) → (ikcp_update cb now).0.conv ≡ cb.conv
    pub setmtu_conv : (cb : Ikcpcb Hidden) (n : ℤ) → (ikcp_setmtu cb n).0.conv ≡ cb.conv
    pub wndsize_conv : (cb : Ikcpcb Hidden) (a b : ℤ) → (ikcp_wndsize cb a b).conv ≡ cb.conv
    pub nodelay_conv : (cb : Ikcpcb Hidden) (a b c d : ℤ) → (ikcp_nodelay cb a b c d).conv ≡ cb.conv

  -- The library's contract for a peer that numbers the fragments of a message as `ikcp_send` does.
  -- `messages` is what has come whole and in order and has not been read, oldest first. Only
  -- `ikcp_recv` takes from it, at the front; `ikcp_input` and `ikcp_recv` move more behind it, the
  -- latter out of `rcv_buf`. Each message takes a place of `rcv_queue` at least. `n` bytes of memory
  -- that nothing has written are `n` bytes.
  pub record ArrivalLaws : Type 0 where
    pub recv : RecvLaws
    pub messages : Ikcpcb Hidden → List Bytes
    pub next_first : (cb : Ikcpcb Hidden) → recv.next cb ≡ first (messages cb)
    pub recv_takes :
        (cb : Ikcpcb Hidden) (x : Bytes) (rest : List Bytes) (buf : Bytes)
        → messages cb ≡ x ∷ rest
        → length buf ≡ length x
        → (more : List Bytes) × (messages (ikcp_recv cb buf (c_int (length buf))).0 ≡ rest ++ more)
          × (cb.nrcv_buf ≡ 0 → more ≡ [])
    pub input_adds :
        (cb : Ikcpcb Hidden) (packet : Bytes) (n : ℤ)
        → (more : List Bytes) × (messages (ikcp_input cb packet n).0 ≡ messages cb ++ more)
    pub send_keeps :
        (cb : Ikcpcb Hidden) (x : Bytes) (n : ℤ) → messages (ikcp_send cb x n).0 ≡ messages cb
    pub flush_keeps : (cb : Ikcpcb Hidden) → messages (ikcp_flush cb).0 ≡ messages cb
    pub update_keeps :
        (cb : Ikcpcb Hidden) (now : ℕ) → messages (ikcp_update cb now).0 ≡ messages cb
    pub conv_keeps : (cb : Ikcpcb Hidden) (c : ℕ) → messages (record cb { conv = c }) ≡ messages cb
    pub queue_room : (cb : Ikcpcb Hidden) → length (messages cb) ≤ cb.nrcv_que
    pub fresh : (n : ℕ) → length (uninit n) ≡ n
