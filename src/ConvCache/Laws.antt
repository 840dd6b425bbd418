-- ===== src/ConvCache/Laws.antt =====
-- src/conv.rs: what `update` throws away, and that `allocate` gives a free number.
use mathlib.Core.Option.{some-injective}
use kcp_rs.Base.{
  ℕ, zero, suc, ◌+◌, ◌-◌, ◌≤◌, ◌<◌, ◌≡◌, refl, sym, ap, ◌∙◌, Bool, true, false, not, ◌&&◌,
  Bool-cases, Option-cases, inl, inr, Option, none, some, List, [], ◌∷◌, length, ltb, if◌then◌else◌,
  arith,
}
use kcp_rs.Hashlink.{LinkedHashMap, MapLaws, tail}
use kcp_rs.Protocol.Conv.{is_valid_conv, rand_conv}
use kcp_rs.Protocol.Conv.Laws.{rand_conv-FirstValid}
use kcp_rs.ConvCache.{
  ConvCache, update_loop, cache_update, allocate_loop, allocate, is_free, is_some,
}

-- The entries behind those at the front that are too old.
abbrev pub fresh_from : ℕ → ℕ → List (ℕ × ℕ) → List (ℕ × ℕ)
fresh_from now timeout [] = []
fresh_from now timeout ((conv, time) ∷ rest) =
    if ltb (now - time) timeout then (conv, time) ∷ rest else fresh_from now timeout rest

module _ ⦃H : LinkedHashMap ℕ ℕ⦄ where
  update_loop-fresh :
      (laws : MapLaws H) (es : List (ℕ × ℕ)) (now : ℕ) (c : ConvCache)
      → H.entries c.map ≡ es
      → (c' : ConvCache) × (update_loop (suc (length es)) now c ≡ some c')
        × (c'.timeout ≡ c.timeout)
        × (H.entries c'.map ≡ fresh_from now c.timeout es)
  unfolding update_loop
  update_loop-fresh laws [] now c e = (c, rw (e, update_loop) refl, refl, e)
  update_loop-fresh laws ((conv, time) ∷ es) now c e =
      elim (Bool-cases (ltb (now - time) c.timeout)) [
        | inl young ↦ (c, rw (e, update_loop, young) refl, refl, rw (e, young) refl)
        | inr old ↦
            (let (c', run, same_timeout, kept) =
                update_loop-fresh laws es now (record c { map = H.pop_front c.map })
                  (laws.entries_pop_front c.map ∙ ap tail e) in
              (c', rw (e, update_loop, old) run, same_timeout, rw old kept))
      ]

  -- Over a map that obeys the laws of hashlink, `update` ends, and takes away exactly the entries
  -- at the front that are not younger than the timeout.
  pub cache_update-fresh_from :
      (laws : MapLaws H) (now : ℕ) (c : ConvCache)
      → (c' : ConvCache) × (cache_update now c ≡ some c')
        × (c'.timeout ≡ c.timeout)
        × (H.entries c'.map ≡ fresh_from now c.timeout (H.entries c.map))
  unfolding cache_update
  cache_update-fresh_from laws now c = update_loop-fresh laws _ now c refl

  -- The search goes on from the draw `i`; the n-th draw from there is free.
  allocate_loop-free :
      (exists : ℕ → Bool) (random : ℕ → ℕ) (draws : ℕ) (c : ConvCache) (fuel i n : ℕ)
      → n < fuel
      → n < draws
      → is_valid_conv (random (i + n)) ≡ true
      → is_free exists c (random (i + n)) ≡ true
      → (conv : ℕ) × (j : ℕ) × (allocate_loop exists random draws c fuel i ≡ some (conv, j))
        × (is_valid_conv conv ≡ true)
        × (is_free exists c conv ≡ true)
  unfolding allocate_loop
  allocate_loop-free exists random draws c zero i n lt hd valid free = absurd (omega arith)
  allocate_loop-free exists random draws c (suc fuel) i n lt hd valid free =
      let (m, drawn, good, le, _) = rand_conv-FirstValid random draws i n hd valid in
      elim (Bool-cases (is_free exists c (random (i + m)))) [
        | inl okay ↦ (random (i + m), i + m + 1, rw (drawn, okay) refl, good, okay)
        | inr taken ↦
            (let lower : m < n = below m n le (λ e. absurd (ground (arith, taken, free, e))) in
              let next : i + m + 1 + (n - m - 1) ≡ i + n = omega arith in
              let (conv, j, run, v, f) =
                allocate_loop-free exists random draws c fuel (i + m + 1) (n - m - 1) (omega arith)
                  (omega arith) (rw next valid) (rw next free) in
              (conv, j, rw (drawn, taken) run, v, f))
      ]
    where
      below : (m n : ℕ) → m ≤ n → ¬ (m ≡ n) → m < n
      below m n le ne = omega arith

  free_parts :
      (a : Bool) (o : Option ℕ) → (not a && not (is_some o)) ≡ true → (a ≡ false) × (o ≡ none)
  free_parts false none h = (refl, refl)
  free_parts false (some x) h = cc
  free_parts true o h = cc

  -- When one of the draws is a valid number that is neither in use nor kept back, and the fuel reaches
  -- it, `allocate` ends, and gives a valid number that is neither.
  pub allocate-free :
      (exists : ℕ → Bool) (random : ℕ → ℕ) (fuel now n : ℕ) (c c' : ConvCache)
      → cache_update now c ≡ some c'
      → n < fuel
      → is_valid_conv (random n) ≡ true
      → is_free exists c' (random n) ≡ true
      → (conv : ℕ) × (allocate exists random fuel now c ≡ some (c', conv))
        × (is_valid_conv conv ≡ true)
        × (exists conv ≡ false)
        × (H.get c'.map conv ≡ none)
  unfolding allocate
  allocate-free exists random fuel now n c c' updated lt valid free =
      let start : 0 + n ≡ n = omega arith in
      let (conv, j, run, v, f) =
        allocate_loop-free exists random fuel c' fuel 0 n lt lt (rw start valid) (rw start free) in
      let (unused, not_kept) = free_parts (exists conv) (H.get c'.map conv) f in
      (conv, rw (updated, run) refl, v, unused, not_kept)

  allocate_loop-is_free :
      (exists : ℕ → Bool) (random : ℕ → ℕ) (draws : ℕ) (c : ConvCache) (fuel i : ℕ) (r : ℕ × ℕ)
      → allocate_loop exists random draws c fuel i ≡ some r
      → is_free exists c r.0 ≡ true
  unfolding allocate_loop
  allocate_loop-is_free exists random draws c zero i r e = absurd (ground arith)
  allocate_loop-is_free exists random draws c (suc fuel) i r e =
      elim (Option-cases (rand_conv random draws i)) [
        | inl out ↦ absurd (ground (arith, rw out at e))
        | inr (d, drawn) ↦ elim (Bool-cases (is_free exists c d.0)) [
          | inl free ↦
              ap (λ (r : ℕ × ℕ). is_free exists c r.0)
                (sym (some-injective _ _ (rw (drawn, free) at e)))
              ∙ free
          | inr taken ↦
              allocate_loop-is_free exists random draws c fuel d.1 r (rw (drawn, taken) at e)
        ]
      ]

  -- Whatever the fuel, what `allocate` gives is not in use.
  pub allocate-unused :
      (exists : ℕ → Bool) (random : ℕ → ℕ) (fuel now : ℕ) (c : ConvCache) (r : ConvCache × ℕ)
      → allocate exists random fuel now c ≡ some r
      → exists r.1 ≡ false
  unfolding allocate
  allocate-unused exists random fuel now c r e = elim (Option-cases (cache_update now c)) [
    | inl out ↦ absurd (ground (arith, rw out at e))
    | inr (c', updated) ↦ elim (Option-cases (allocate_loop exists random fuel c' fuel 0)) [
      | inl out ↦ absurd (ground (arith, rw (updated, out) at e))
      | inr (d, run) ↦
          (let free = allocate_loop-is_free exists random fuel c' fuel 0 d run in
            let same_conv : d.0 ≡ r.1 =
              ap (λ (r : ConvCache × ℕ). r.1) (some-injective _ _ (rw (updated, run) at e)) in
            ap exists (sym same_conv) ∙ (free_parts (exists d.0) (H.get c'.map d.0) free).0)
    ]
  ]
