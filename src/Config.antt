-- ===== src/Config.antt =====
-- src/config.rs: the settings of a connection, and its random session id. A `Duration` is its
-- number of nanoseconds.
use kcp_rs.Base.{ℕ, zero, suc, ◌+◌, ◌*◌, ◌/◌, ◌^◌, Bool, true, false, [], ◌∷◌, Bytes}

abbrev pub from_secs : ℕ → ℕ
from_secs n = n * 10 ^ 9

abbrev pub as_secs : ℕ → ℕ
as_secs d = d / 10 ^ 9

abbrev pub listener_task_loop : ℕ
listener_task_loop = 1024

abbrev pub listener_conv_timeout : ℕ
listener_conv_timeout = from_secs 120

pub record KcpNoDelayConfig : Type 0 where
  pub nodelay : Bool
  pub interval : ℕ
  pub resend : ℕ
  pub nc : Bool

abbrev pub no_delay_default : KcpNoDelayConfig
no_delay_default = record { nodelay = false; interval = 100; resend = 0; nc = false }

abbrev pub fastest : KcpNoDelayConfig
fastest = record { nodelay = true; interval = 10; resend = 2; nc = true }

abbrev pub normal : KcpNoDelayConfig
normal = record { nodelay = false; interval = 40; resend = 0; nc = false }

pub record KcpConfig : Type 0 where
  pub mtu : ℕ
  pub nodelay : KcpNoDelayConfig
  pub snd_wnd : ℕ
  pub rcv_wnd : ℕ
  pub stream : Bool
  pub session_key : Bytes
  pub session_id_len : ℕ
  pub session_expire : ℕ
  pub connect_timeout : ℕ
  pub shutdown_timeout : ℕ
  pub half_close_timeout : ℕ

abbrev pub default : KcpConfig
default = record {
  mtu = 1400;
  nodelay = normal;
  snd_wnd = 32;
  rcv_wnd = 256;
  stream = true;
  session_key = [];
  session_id_len = 16;
  session_expire = from_secs 90;
  connect_timeout = from_secs 15;
  shutdown_timeout = from_secs 10;
  half_close_timeout = from_secs 5;
}

-- `repeat_with(random).take(n).collect()`: `random i` is the i-th byte that the generator yields.
unfoldable pub collect_from : (ℕ → ℕ) → ℕ → ℕ → Bytes
collect_from random i zero = []
collect_from random i (suc n) = random i ∷ collect_from random (i + 1) n

unfoldable pub random_session_id : KcpConfig → (ℕ → ℕ) → Bytes
unfolding collect_from
random_session_id c random = collect_from random 0 c.session_id_len
