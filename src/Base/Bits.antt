-- ===== src/Base/Bits.antt =====
-- `|` of disjoint fields as a sum, and the laws of byte masks by evaluation.
use Prim.Native.Nat.{
  ℕ, zero, suc, ◌+◌, ◌*◌, ◌/◌, ◌%◌, ◌^◌, ◌≤◌, ◌<◌, max, bit_or, digits, bit_or-bitwise,
}
use mathlib.Core.Path.{◌≡◌, refl, ap}
use mathlib.Core.Bool.{Bool, true, ◌&&◌}
use native.Mathlib.Nat.{pow-suc}
use native.Mathlib.Omega.{arith}

-- A test that holds of every number below a bound, by evaluation.
unfoldable pub all_below : ℕ → (ℕ → Bool) → Bool
all_below zero test = true
all_below (suc bound) test = test bound && all_below bound test

pub all_below_sound :
    (bound : ℕ) (test : ℕ → Bool) (c : ℕ) → all_below bound test ≡ true → c < bound → test c ≡ true
unfolding all_below
all_below_sound (suc bound) test c every below = ground (arith, all_below_sound bound test c)
all_below_sound zero test c every below = absurd (omega arith)

-- What `|` computes to, digit by digit, with the fuel in sight: any enough of it gives the same.
abbrev or_on : ℕ → ℕ → ℕ → ℕ
or_on fuel u v = digits (λ d. d) max fuel u v

or_on_enough : (f g u v : ℕ) → u ≤ g → u ≤ f → or_on f u v ≡ or_on g u v
or_on_enough (suc f) (suc g) (suc u) v hg hf =
    let rest = or_on_enough f g (suc u / 2) (v / 2) (omega arith) (omega arith) in
    omega (arith, rest)
or_on_enough (suc f) (suc g) zero v hg hf = refl
or_on_enough (suc f) zero (suc u) v hg hf = absurd (omega arith)
or_on_enough (suc f) zero zero v hg hf = refl
or_on_enough zero (suc g) (suc u) v hg hf = absurd (omega arith)
or_on_enough zero (suc g) zero v hg hf = refl
or_on_enough zero zero zero v hg hf = refl
or_on_enough zero zero (suc u) v hg hf = absurd (omega arith)

pub zero-bit_or : (v : ℕ) → bit_or 0 v ≡ v
zero-bit_or v = bit_or-bitwise 0 v

-- The lowest digit of `|`.
pub bit_or_step : (u v : ℕ) → bit_or u v ≡ bit_or (u / 2) (v / 2) * 2 + max (u % 2) (v % 2)
bit_or_step (suc u) v =
    let half = suc u / 2 in
    let enough = or_on_enough u half half (v / 2) (omega arith) (omega arith) in
    omega (arith, enough, bit_or-bitwise half (v / 2), bit_or-bitwise (suc u) v)
bit_or_step zero v = omega (arith, zero-bit_or (v / 2), zero-bit_or v)

-- Halving what starts above `w + 1` bits.
shifted-half : (w x : ℕ) → 2 * (x * 2 ^ w) ≡ x * 2 ^ suc w
shifted-half w x = omega (arith, ap (λ (m : ℕ). x * m) (pow-suc 2 w))

-- A field of `k` bits beside one that starts above them.
pub bit_or_fields : (k a q : ℕ) → a < 2 ^ k → bit_or a (q * 2 ^ k) ≡ a + q * 2 ^ k
bit_or_fields zero zero q h = omega (arith, zero-bit_or (q * 2 ^ 0))
bit_or_fields zero (suc a) q h = absurd (omega arith)
bit_or_fields (suc k) a q h = ground (
  arith,
  bit_or_step a (q * 2 ^ suc k),
  shifted-half k q,
  pow-suc 2 k,
  bit_or_fields k (a / 2) q (omega (arith, pow-suc 2 k)),
)
