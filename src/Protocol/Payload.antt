-- ===== src/Protocol/Payload.antt =====
-- src/protocol.rs: `read_payload_data` against the layout of a packet.
use mathlib.Core.Option
use kcp_rs.Base.{
  ℕ, zero, suc, ◌-◌, ◌≤◌, ◌<◌, ◌≡◌, refl, ap, sym, ◌∙◌, ◌⊎◌, inl, inr, ◌&&◌, Bool, true, false,
  Option, none, some, [], ◌∷◌, ◌++◌, Bytes, get_elem?, take, drop, length, length-drop, length-take,
  append_assoc, take-append-drop, le→leb, lt→leb_false, ltb→lt, leb, ltb, if◌then◌else◌, Bool-cases,
  arith, bit_or,
}
use kcp_rs.Ffi.{ikcp_overhead}
use kcp_rs.Protocol.Packet.{read_len, raw_parts, payload_loop, read_payload_data, shl64}

-- What a packet holds, read from the front. A header whose length field is positive and does not
-- reach past the end gives the payload; any other header is passed over.
pub data FirstPayload : Bytes → Option Bytes → Type 0 where
  too_short : (p : Bytes) → length p < ikcp_overhead → FirstPayload p none
  found :
      (p head body rest : Bytes)
      → p ≡ head ++ body ++ rest
      → length head ≡ ikcp_overhead
      → read_len head ≡ some (length body)
      → 0 < length body
      → FirstPayload p (some body)
  passed_over :
      (p head rest : Bytes) (n : ℕ) (r : Option Bytes)
      → p ≡ head ++ rest
      → length head ≡ ikcp_overhead
      → read_len head ≡ some n
      → (n ≡ 0) ⊎ (length rest < n)
      → FirstPayload rest r
      → FirstPayload p r

pub get_elem?-some : (p : Bytes) (i : ℕ) → i < length p → (b : ℕ) × (get_elem? p i ≡ some b)
get_elem?-some [] i h = absurd (omega arith)
get_elem?-some (x ∷ p) zero h = (x, refl)
get_elem?-some (x ∷ p) (suc i) h = get_elem?-some p i (omega arith)

get_elem?-take : (n : ℕ) (p : Bytes) (i : ℕ) → i < n → get_elem? (take n p) i ≡ get_elem? p i
get_elem?-take zero p i h = absurd (omega arith)
get_elem?-take (suc n) [] i h = refl
get_elem?-take (suc n) (x ∷ p) zero h = refl
get_elem?-take (suc n) (x ∷ p) (suc i) h = get_elem?-take n p i (omega arith)

-- The length field lies inside the header.
read_len-some : (p : Bytes) → ikcp_overhead ≤ length p → (n : ℕ) × (read_len p ≡ some n)
unfolding read_len
read_len-some p h =
    let (b0, e0) = get_elem?-some p (ikcp_overhead - 4) (omega arith) in
    let (b1, e1) = get_elem?-some p (ikcp_overhead - 3) (omega arith) in
    let (b2, e2) = get_elem?-some p (ikcp_overhead - 2) (omega arith) in
    let (b3, e3) = get_elem?-some p (ikcp_overhead - 1) (omega arith) in
    (bit_or (bit_or (bit_or b0 (shl64 b1 8)) (shl64 b2 16)) (shl64 b3 24), rw (e0, e1, e2, e3) refl)

read_len-take : (p : Bytes) → read_len (take ikcp_overhead p) ≡ read_len p
unfolding read_len
read_len-take p =
    rw
      (
        get_elem?-take ikcp_overhead p (ikcp_overhead - 4) (omega arith),
        get_elem?-take ikcp_overhead p (ikcp_overhead - 3) (omega arith),
        get_elem?-take ikcp_overhead p (ikcp_overhead - 2) (omega arith),
        get_elem?-take ikcp_overhead p (ikcp_overhead - 1) (omega arith),
      )
      refl

module _ (fuel : ℕ) (p : Bytes) where
  abbrev behind : Bytes
  behind = drop ikcp_overhead p

  abbrev again : Option (Option Bytes)
  again = payload_loop fuel behind (length behind)

  -- One round of the loop, on a whole header with the length field `n`.
  round :
      (n : ℕ)
      → ikcp_overhead ≤ length p
      → read_len p ≡ some n
      → payload_loop (suc fuel) p (length p)
        ≡ (if leb 1 n && leb n (length behind) then some (some (take n behind)) else again)
  unfolding payload_loop raw_parts
  round n h e =
      rw (le→leb ikcp_overhead (length p) h, e, ← length-drop ikcp_overhead p)
        (elim (Bool-cases (leb n (length behind))) [
          | inl fits ↦ rw (fits, Option.map) refl
          | inr over ↦ rw over (ground arith)
        ])

  FirstPayload-found :
      (n : ℕ)
      → ikcp_overhead ≤ length p
      → read_len p ≡ some n
      → 1 ≤ n
      → n ≤ length behind
      → FirstPayload p (some (take n behind))
  FirstPayload-found n h e one fits =
      found p (take ikcp_overhead p) (take n behind) (drop n behind)
        (rw (append_assoc, take-append-drop n behind) (sym (take-append-drop ikcp_overhead p)))
        (omega (arith, length-take ikcp_overhead p))
        (read_len-take p ∙ e ∙ ap {B = Option ℕ} some (omega (arith, length-take n behind)))
        (omega (arith, length-take n behind))

  FirstPayload-passed_over :
      (n : ℕ) (r : Option Bytes)
      → ikcp_overhead ≤ length p
      → read_len p ≡ some n
      → (n ≡ 0) ⊎ (length behind < n)
      → FirstPayload behind r
      → FirstPayload p r
  FirstPayload-passed_over n r h e out rest =
      passed_over p (take ikcp_overhead p) behind n r (sym (take-append-drop ikcp_overhead p))
        (omega (arith, length-take ikcp_overhead p)) (read_len-take p ∙ e) out rest

payload_loop-short :
    (fuel : ℕ) (p : Bytes)
    → length p < ikcp_overhead
    → payload_loop (suc fuel) p (length p) ≡ some none
unfolding payload_loop
payload_loop-short fuel p h = rw (lt→leb_false ikcp_overhead (length p) h)

abbrev Reads : Bytes → Option (Option Bytes) → Type 0
Reads p result = (r : Option Bytes) × (result ≡ some r) × FirstPayload p r

-- A whole header with the length field `n`, by what the test says of `n`.
payload_loop-header :
    (fuel : ℕ) (p : Bytes) (n : ℕ) (fits : Bool)
    → ikcp_overhead ≤ length p
    → read_len p ≡ some n
    → (leb 1 n && leb n (length (behind fuel p))) ≡ fits
    → Reads (behind fuel p) (again fuel p)
    → Reads p (payload_loop (suc fuel) p (length p))
payload_loop-header fuel p n true h e t ih = (
  some (take n (behind fuel p)),
  rw (round fuel p n h e, t) refl,
  FirstPayload-found fuel p n h e (ground arith) (ground arith),
)
payload_loop-header fuel p n false h e t (r, run, spec) =
    (r, rw (round fuel p n h e, t) run, FirstPayload-passed_over fuel p n r h e (ground arith) spec)

payload_loop-FirstPayload :
    (fuel : ℕ) (p : Bytes) → length p < fuel → Reads p (payload_loop fuel p (length p))
payload_loop-FirstPayload zero p h = absurd (omega arith)
payload_loop-FirstPayload (suc fuel) p h = elim (Bool-cases (ltb (length p) ikcp_overhead)) [
  | inl short ↦ (none, payload_loop-short fuel p (ltb→lt _ _ short), too_short p (ltb→lt _ _ short))
  | inr whole ↦
      let enough : ikcp_overhead ≤ length p = ground arith in
      let (n, e) = read_len-some p enough in
      payload_loop-header fuel p n _ enough e refl (
        payload_loop-FirstPayload fuel (behind fuel p) (omega (arith, length-drop ikcp_overhead p)))
]

-- `read_payload_data` ends on every packet, reads nothing outside it, and gives the payload of the
-- first header whose length field is positive and does not reach past the end; it gives none only
-- when such a header is missing.
pub read_payload_data-FirstPayload :
    (buf : Bytes) → (r : Option Bytes) × (read_payload_data buf ≡ some r) × FirstPayload buf r
unfolding read_payload_data
read_payload_data-FirstPayload buf = payload_loop-FirstPayload (suc (length buf)) buf (omega arith)
