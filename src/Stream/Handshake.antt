-- ===== src/Stream/Handshake.antt =====
-- src/stream.rs: the states of the SYN and FIN handshakes, in the order that `PartialOrd` derives.
use kcp_rs.Base.{ℕ, ◌≡◌, true, arith, Bool, ◌&&◌, leb, ltb, ◌==◌}

pub data Handshake : Type 0 where
  syn connected fin_pending fin_sent fin_wait_peer disconnected : Handshake

abbrev pub rank : Handshake → ℕ
rank syn = 0
rank connected = 1
rank fin_pending = 2
rank fin_sent = 3
rank fin_wait_peer = 4
rank disconnected = 5

abbrev pub same : Handshake → Handshake → Bool
same a b = rank a == rank b

-- `(FinPending..FinWaitPeer).contains(&hs)`: the upper end is outside.
abbrev pub in_fin_range : Handshake → Bool
in_fin_range hs = leb (rank fin_pending) (rank hs) && ltb (rank hs) (rank fin_wait_peer)

pub same_sound : (a b : Handshake) → same a b ≡ true → a ≡ b
same_sound a b h = ground arith
