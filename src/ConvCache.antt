-- ===== src/ConvCache.antt =====
-- src/conv.rs: the cache of conversation numbers that are not to be given out for a while. An
-- `Instant` is a number of nanoseconds, and `duration_since` of an earlier one stops at 0. A lock is
-- held for the whole of a method, so a method is one step.
pub mod Laws
use kcp_rs.Base.{
  ℕ, zero, suc, ◌+◌, ◌-◌, Bool, true, false, not, ◌&&◌, Option, none, some, List, [], ◌∷◌, length,
  map, ltb, if◌then◌else◌,
}
use kcp_rs.Hashlink.{LinkedHashMap}
use kcp_rs.Protocol.Conv.{is_valid_conv, rand_conv}
use kcp_rs.Protocol.Packet.{◌>>=◌}

pub record ConvCache ⦃H : LinkedHashMap ℕ ℕ⦄ : Type 0 where
  pub map : H.Map
  pub timeout : ℕ

module _ ⦃H : LinkedHashMap ℕ ℕ⦄ where
  unfoldable pub cache_new : ℕ → ConvCache
  cache_new timeout = record { map = H.map_new; timeout = timeout }

  -- What the `while let` of `update` does in a round: `front` is the first entry.
  unfoldable pub update_loop : ℕ → ℕ → ConvCache → Option ConvCache
  update_loop zero now c = none
  update_loop (suc fuel) now c =
      let rest = update_loop fuel now (record c { map = H.pop_front c.map }) in
      elim (H.entries c.map) [
        | [] ↦ some c
        | (conv, time) ∷ _ ↦ if ltb (now - time) c.timeout then some c else rest
      ]

  -- An entry leaves in a round, so their number, and one more, is enough.
  unfoldable pub cache_update : ℕ → ConvCache → Option ConvCache
  unfolding update_loop
  cache_update now c = update_loop (suc (length (H.entries c.map))) now c

  abbrev pub is_some : Option ℕ → Bool
  is_some none = false
  is_some (some x) = true

  -- Neither in use nor kept back.
  abbrev pub is_free : (ℕ → Bool) → ConvCache → ℕ → Bool
  is_free exists c conv = not (exists conv) && not (is_some (H.get c.map conv))

  -- The loop of `allocate`: `draws` is the fuel of each `rand_conv`.
  unfoldable pub allocate_loop : (ℕ → Bool) → (ℕ → ℕ) → ℕ → ConvCache → ℕ → ℕ → Option (ℕ × ℕ)
  allocate_loop exists random draws c zero i = none
  allocate_loop exists random draws c (suc fuel) i = do
    r ← rand_conv random draws i
    let rest = allocate_loop exists random draws c fuel r.1 in
        if is_free exists c r.0 then some r else rest

  unfoldable pub allocate : (ℕ → Bool) → (ℕ → ℕ) → ℕ → ℕ → ConvCache → Option (ConvCache × ℕ)
  allocate exists random fuel now c = do
    c' ← cache_update now c
    r ← allocate_loop exists random fuel c' fuel 0
    some (c', r.0)

  unfoldable pub add : ℕ → ℕ → ConvCache → Option ConvCache
  add now conv c = do
    c' ← cache_update now c
    some (if is_valid_conv conv then record c' { map = H.insert c'.map conv now } else c')

  abbrev fill_map : ℕ → List ℕ → H.Map → H.Map
  fill_map now [] m = m
  fill_map now (conv ∷ convs) m =
      fill_map now convs (if is_valid_conv conv then H.insert m conv now else m)

  unfoldable pub fill : ℕ → List ℕ → ConvCache → Option ConvCache
  fill now convs c = do
    c' ← cache_update now c
    some (record c' { map = fill_map now convs c'.map })

  unfoldable pub dump : ℕ → ConvCache → Option (ConvCache × List ℕ)
  dump now c = do c' ← cache_update now c; some (c', map (λ (e : ℕ × ℕ). e.0) (H.entries c'.map))
