-- ===== src/Base/Words.antt =====
-- u32 arithmetic as Rust's wrapping operations do it.
use Prim.Native.Nat.{ℕ, ◌+◌, ◌-◌, ◌*◌, ◌%◌, ◌^◌, ◌<◌}

abbrev pub u32 : ℕ → ℕ
u32 n = n % 2 ^ 32

abbrev pub wrapping_add : ℕ → ℕ → ℕ
wrapping_add a b = u32 (a + b)

abbrev pub wrapping_mul : ℕ → ℕ → ℕ
wrapping_mul a b = u32 (a * b)

-- `a.wrapping_sub(b)`, for `b` below 2 ^ 32.
abbrev pub wrapping_sub : ℕ → ℕ → ℕ
wrapping_sub a b = u32 (a + 2 ^ 32 - b)

abbrev pub IsU32 : ℕ → Type 0
IsU32 n = n < 2 ^ 32
