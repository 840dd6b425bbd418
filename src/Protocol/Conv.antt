-- ===== src/Protocol/Conv.antt =====
-- src/protocol.rs: conversation numbers and the frame size.
pub mod Laws
use kcp_rs.Base.{
  ℕ, zero, suc, ◌+◌, ◌-◌, ◌*◌, Bool, ◌&&◌, not, Option, none, some, ltb, ◌==◌, if◌then◌else◌,
  wrapping_sub, wrapping_mul,
}
use kcp_rs.Ffi.{ikcp_overhead, ikcp_wnd_rcv}

abbrev pub syn_conv : ℕ
syn_conv = 0xffff_fffe

unfoldable pub is_valid_conv : ℕ → Bool
is_valid_conv conv = not (conv == 0) && ltb conv syn_conv

-- The loop of `rand_conv`: `random i` is the generator's i-th u32 and `i` the next to draw. `none`
-- means that the fuel ran out; else the number and the position behind it.
unfoldable pub rand_conv : (ℕ → ℕ) → ℕ → ℕ → Option (ℕ × ℕ)
unfolding is_valid_conv
rand_conv random zero i = none
rand_conv random (suc fuel) i =
    let rest = rand_conv random fuel (i + 1) in
    if is_valid_conv (random i) then some (random i, i + 1) else rest

-- u32 arithmetic as in a release build, where it wraps; a debug build panics instead.
unfoldable pub max_frame_size : ℕ → ℕ
max_frame_size mtu = wrapping_mul (wrapping_sub mtu ikcp_overhead) (ikcp_wnd_rcv - 1)
