-- ===== src/Base/Results.antt =====
-- Results of fallible Rust code, and C's `int`.
use Prim.Native.Nat.{ℕ, zero, suc, ◌-◌, ◌%◌, ◌^◌}
use kcp_rs.Base.Tests.{ltb, if◌then◌else◌}

-- The kinds of std::io::ErrorKind that the code names.
pub data ErrorKind : Type 0 where
  invalid_input invalid_data not_found out_of_memory timed_out not_connected addr_not_available :
      ErrorKind

-- io::Result, with a constructor for a panic (`unreachable!()`, `unwrap()`, an index out of range).
pub data Io {ℓ} (A : Type ℓ) : Type ℓ where
  ok : A → Io A
  err : ErrorKind → Io A
  panic : Io A

-- A C `int`: `negsuc n` is -(n + 1).
pub data ℤ : Type 0 where
  pos : ℕ → ℤ
  negsuc : ℕ → ℤ

-- The integer that a 32-bit pattern stands for: `w as i32`, and `n as c_int` of a wider number.
abbrev pub c_int : ℕ → ℤ
c_int n = if ltb (n % 2 ^ 32) (2 ^ 31) then pos (n % 2 ^ 32) else negsuc (2 ^ 32 - n % 2 ^ 32 - 1)

-- `-x`; the negation of -(2 ^ 31) wraps to itself.
abbrev pub neg : ℤ → ℤ
neg (pos zero) = pos 0
neg (pos (suc n)) = negsuc n
neg (negsuc n) = if ltb n (2 ^ 31 - 1) then pos (suc n) else negsuc n
