-- ===== src/KcpStream/Chunks.antt =====
-- src/stream.rs: the chunks into which `poll_write` cuts a buffer.
use kcp_rs.Base.{
  ℕ, zero, suc, ◌≤◌, ◌<◌, ◌≡◌, refl, sym, List, [], ◌∷◌, ◌++◌, append_assoc, Bytes, All, length,
  length-take, length-drop, drop, take-append-drop, arith,
}
use kcp_rs.KcpStream.{chunks_from}

abbrev pub concat : List Bytes → Bytes
concat [] = []
concat (x ∷ xs) = x ++ concat xs

-- A frame that is not empty and not longer than `size`.
abbrev pub Fits : ℕ → Bytes → Type 0
Fits size x = (0 < length x) × (length x ≤ size)

pub concat-append : (xs ys : List Bytes) → concat (xs ++ ys) ≡ concat xs ++ concat ys
concat-append [] ys = refl
concat-append (x ∷ xs) ys = rw (concat-append xs ys) (sym (append_assoc x (concat xs) (concat ys)))

module _ (size : ℕ) where
  pub chunks_from-concat :
      (fuel : ℕ) (buf : Bytes) → length buf ≤ fuel → concat (chunks_from fuel (suc size) buf) ≡ buf
  chunks_from-concat zero [] h = refl
  chunks_from-concat zero (b ∷ buf) h = absurd (omega arith)
  chunks_from-concat (suc fuel) [] h = refl
  chunks_from-concat (suc fuel) (b ∷ buf) h =
      let rest = chunks_from-concat fuel (drop size buf) (omega (arith, length-drop size buf)) in
      rw rest (take-append-drop (suc size) (b ∷ buf))

  pub chunks_from-Fits :
      (fuel : ℕ) (buf : Bytes) → All (Fits (suc size)) (chunks_from fuel (suc size) buf)
  chunks_from-Fits zero buf = tt
  chunks_from-Fits (suc fuel) [] = tt
  chunks_from-Fits (suc fuel) (b ∷ buf) =
      ((omega arith, omega (arith, length-take size buf)), chunks_from-Fits fuel (drop size buf))
