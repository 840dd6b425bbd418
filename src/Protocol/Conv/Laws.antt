-- ===== src/Protocol/Conv/Laws.antt =====
-- src/protocol.rs: drawing conversation numbers, and how many fragments a frame takes.
use kcp_rs.Base.{
  ℕ, zero, suc, ◌+◌, ◌-◌, ◌/◌, ◌^◌, ◌≤◌, ◌<◌, ◌≡◌, ◌↔◌, refl, inl, inr, true, false, Option, some,
  Bool-cases, arith,
}
use native.Mathlib.Nat.{add-zero, div-lt_iff_lt-mul}
use kcp_rs.Ffi.{ikcp_overhead, ikcp_wnd_rcv}
use kcp_rs.Protocol.Conv.{syn_conv, is_valid_conv, rand_conv, max_frame_size}

-- A number is valid when it is neither 0 nor one of the two that the handshake reserves.
is_valid_conv_iff : (c : ℕ) → (is_valid_conv c ≡ true) ↔ ((0 < c) × (c < syn_conv))
unfolding is_valid_conv
is_valid_conv_iff c = ground arith

abbrev pub FirstValid : (ℕ → ℕ) → ℕ → ℕ → Option (ℕ × ℕ) → Type 0
FirstValid random i n result =
    (m : ℕ) × (result ≡ some (random (i + m), i + m + 1))
    × (is_valid_conv (random (i + m)) ≡ true)
    × (m ≤ n)
    × ((l : ℕ) → l < m → is_valid_conv (random (i + l)) ≡ false)

-- An invalid draw moves the search on by one.
FirstValid-skip :
    (random : ℕ → ℕ) (i n : ℕ) (result : Option (ℕ × ℕ))
    → is_valid_conv (random i) ≡ false
    → FirstValid random (i + 1) n result
    → FirstValid random i (suc n) result
FirstValid-skip random i n result bad (m, run, good, le, before) =
    (suc m, rw (move m) run, rw (move m) good, omega arith, earlier)
  where
    move : (l : ℕ) → i + suc l ≡ i + 1 + l
    move l = omega arith

    earlier : (l : ℕ) → l < suc m → is_valid_conv (random (i + l)) ≡ false
    earlier zero lt = rw add-zero bad
    earlier (suc l) lt = rw (move l) (before l (omega arith))

-- When one of the next draws is valid and the fuel reaches it, `rand_conv` ends with the first valid
-- draw: what it skipped was invalid.
pub rand_conv-FirstValid :
    (random : ℕ → ℕ) (fuel i n : ℕ)
    → n < fuel
    → is_valid_conv (random (i + n)) ≡ true
    → FirstValid random i n (rand_conv random fuel i)
unfolding rand_conv
rand_conv-FirstValid random zero i n h v = absurd (omega arith)
rand_conv-FirstValid random (suc fuel) i zero h v =
    let good : is_valid_conv (random i) ≡ true = rw add-zero at v in
    (0, rw (add-zero, good) refl, v, omega arith, λ l lt. absurd (omega arith))
rand_conv-FirstValid random (suc fuel) i (suc n) h v =
    elim (Bool-cases (is_valid_conv (random i))) [
      | inl good ↦
          (0, rw (add-zero, good) refl, rw add-zero good, omega arith, λ l lt. absurd (omega arith))
      | inr bad ↦ rw bad (
          FirstValid-skip random i n _ bad
            (rand_conv-FirstValid random fuel (i + 1) n (omega arith) (rw (← step i n) v)))
    ]
  where
    step : (i n : ℕ) → i + suc n ≡ i + 1 + n
    step i n = omega arith

-- For an mtu above 24 and below 2 ^ 24, a frame is accepted by the C library's limit of fewer than
-- 256 fragments of `mtu - 24` bytes exactly when it is no larger than `max_frame_size mtu`.
pub max_frame_size-fragments :
    (mtu len : ℕ)
    → ikcp_overhead < mtu
    → mtu < 2 ^ 24
    → ((len + (mtu - ikcp_overhead) - 1) / (mtu - ikcp_overhead) < ikcp_wnd_rcv)
      ↔ (len ≤ max_frame_size mtu)
unfolding max_frame_size
max_frame_size-fragments mtu len lo hi = (
  λ h. omega (
    arith,
    (div-lt_iff_lt-mul {k = mtu - 24} {x = len + (mtu - 24) - 1} {y = 256} (omega arith)).0 h,
  ),
  λ h.
      (div-lt_iff_lt-mul {k = mtu - 24} {x = len + (mtu - 24) - 1} {y = 256} (omega arith)).1
        (omega arith),
)
