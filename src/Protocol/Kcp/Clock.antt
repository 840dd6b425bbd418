-- ===== src/Protocol/Kcp/Clock.antt =====
-- src/protocol.rs: the millisecond clock and distances on it, which wrap at 2 ^ 32.
use kcp_rs.Base.{ℕ, ◌+◌, ◌/◌, ◌%◌, ◌^◌, ◌≤◌, ◌<◌, ◌≡◌, arith, u32}
use kcp_rs.Ffi.{Engine}
use kcp_rs.Protocol.Kcp.{Kcp, get_system_time, duration_since, current}

module _ ⦃E : Engine⦄ where
  -- The clock is the number of whole milliseconds since the start, modulo 2 ^ 32: wrapping the
  -- seconds before they are scaled loses nothing.
  pub get_system_time-milliseconds : (k : Kcp) → get_system_time k ≡ k.elapsed / 10 ^ 6 % 2 ^ 32
  unfolding get_system_time
  get_system_time-milliseconds k = omega arith

  -- A time less than 2 ^ 31 ms back is that far back, whether or not the clock has wrapped since.
  pub duration_since_past :
      (k : Kcp) (since d : ℕ)
      → since < 2 ^ 32
      → d < 2 ^ 31
      → current k ≡ u32 (since + d)
      → duration_since k since ≡ d
  unfolding duration_since
  duration_since_past k since d h hd e = ground arith

  -- A time at most 2 ^ 31 ms ahead of the clock counts as now, also across a wrap.
  duration_since_future :
      (k : Kcp) (since d : ℕ)
      → current k < 2 ^ 32
      → d ≤ 2 ^ 31
      → since ≡ u32 (current k + d)
      → duration_since k since ≡ 0
  unfolding duration_since
  duration_since_future k since d h hd e = ground arith
