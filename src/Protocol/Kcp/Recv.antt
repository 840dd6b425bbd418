-- ===== src/Protocol/Kcp/Recv.antt =====
-- src/protocol.rs: `recv_bytes` against what the C library promises of `ikcp_recv`.
use kcp_rs.Base.{
  ℕ, ◌-◌, ◌<◌, ◌≡◌, refl, sym, ap, none, some, [], ◌++◌, Bytes, length, take, drop, length-append,
  length-take, lt→ltb, arith, ok, c_int,
}
use kcp_rs.Ffi.{Engine}
use kcp_rs.Ffi.Laws.{RecvLaws}
use kcp_rs.Protocol.Kcp.{Kcp, recv, recv_done, recv_result, recv_bytes, peek_size}

module _ ⦃E : Engine⦄ where
  -- A message of at least one byte: it is the result, and the C library has read it into a buffer of
  -- its size.
  pub recv_bytes-reads :
      (laws : RecvLaws E) (k : Kcp) (x : Bytes)
      → laws.next k.handle ≡ some x
      → 0 < length x
      → ((n : ℕ) → length (E.uninit n) ≡ n)
      → (k' : Kcp) × (buf : Bytes) × (length buf ≡ length x)
        × (k'.handle ≡ (E.ikcp_recv k.handle buf (c_int (length buf))).0)
        × (recv_bytes k ≡ (k', ok (some x)))
  unfolding recv_bytes peek_size recv recv_done recv_result
  recv_bytes-reads laws k x e lo fresh =
      let filled = k.read_buf ++ E.uninit (length x - length k.read_buf) in
      let buf = take (length x) filled in
      let size : length buf ≡ length x = omega (
        arith,
        length-take (length x) filled,
        length-append k.read_buf (E.uninit (length x - length k.read_buf)),
        fresh (length x - length k.read_buf),
      ) in
      let (cb, taken) = laws.recv_some k.handle x buf e size in
      (
        record k { handle = cb; read_buf = drop (length x) filled },
        buf,
        size,
        sym (ap (λ r. r.0) taken),
        rw (laws.peek_some k.handle x e, lt→ltb 0 (length x) lo, taken) refl,
      )

  -- When the C library has a message of at least one byte, `recv_bytes` gives exactly that message and
  -- never the memory that `set_len` exposed: neither what `read_buf` held nor what nothing had written
  -- is in the result. (`uninit n` is `n` bytes.)
  recv_bytes-message :
      (laws : RecvLaws E) (k : Kcp) (x : Bytes)
      → laws.next k.handle ≡ some x
      → 0 < length x
      → ((n : ℕ) → length (E.uninit n) ≡ n)
      → (k' : Kcp) × (recv_bytes k ≡ (k', ok (some x)))
  recv_bytes-message laws k x e lo fresh =
      let (k', buf, size, read, run) = recv_bytes-reads laws k x e lo fresh in (k', run)

  -- An empty message stays where it is.
  pub recv_bytes-empty :
      (laws : RecvLaws E) (k : Kcp) → laws.next k.handle ≡ some [] → recv_bytes k ≡ (k, ok none)
  unfolding recv_bytes peek_size
  recv_bytes-empty laws k e = rw (laws.peek_some k.handle [] e) refl

  -- When the C library has no message, `recv_bytes` gives none and changes nothing.
  pub recv_bytes-nothing :
      (laws : RecvLaws E) (k : Kcp) → laws.next k.handle ≡ none → recv_bytes k ≡ (k, ok none)
  unfolding recv_bytes peek_size
  recv_bytes-nothing laws k e = let (n, peeked) = laws.peek_none k.handle e in rw peeked refl
