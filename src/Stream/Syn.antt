-- ===== src/Stream/Syn.antt =====
-- src/stream.rs: the SYN handshake, its frame and the conversation number.
use mathlib.Core.Option.{some-injective}
use kcp_rs.Base.{
  ◌≡◌, ◌↔◌, refl, sym, ap, ◌∙◌, Bool-cases, inl, inr, Option, none, some, [], ◌∷◌, ◌++◌, Bytes,
  length, ◌==◌, ==_iff, ==_self, if◌then◌else◌, arith,
}
use kcp_rs.Config.{KcpConfig}
use kcp_rs.Stream.Task.{strip_prefix}
use kcp_rs.Stream.Task.Syn.{syn_session_id}

strip_prefix-append : (p x : Bytes) → strip_prefix p (p ++ x) ≡ some x
unfolding strip_prefix
strip_prefix-append [] x = refl
strip_prefix-append (b ∷ p) x = rw (==_self b) (strip_prefix-append p x)

strip_prefix_split : (p y x : Bytes) → strip_prefix p y ≡ some x → y ≡ p ++ x
unfolding strip_prefix
strip_prefix_split [] y x h = some-injective _ _ h
strip_prefix_split (b ∷ p) [] x h = absurd (ground arith)
strip_prefix_split (b ∷ p) (c ∷ y) x h = elim (Bool-cases (b == c)) [
  | inl e ↦
      ap {B = Bytes} (λ b. b ∷ y) (sym ((==_iff b c).0 e))
      ∙ ap (λ y. b ∷ y) (strip_prefix_split p y x (rw e at h))
  | inr e ↦ absurd (ground (arith, e, h))
]

abbrev IsFrame : KcpConfig → Bytes → Bytes → Type 0
IsFrame c y x = (y ≡ c.session_key ++ x) × (length x ≡ c.session_id_len)

abbrev sized : KcpConfig → Option Bytes → Option Bytes
sized c o = elim o [ none ↦ none | some x ↦ if length x == c.session_id_len then some x else none ]

syn_session_id-sized :
    (c : KcpConfig) (y : Bytes) (o : Option Bytes)
    → strip_prefix c.session_key y ≡ o
    → syn_session_id c y ≡ sized c o
unfolding syn_session_id
syn_session_id-sized c y o e = ap (sized c) e

sized-IsFrame :
    (c : KcpConfig) (y x : Bytes) (o : Option Bytes)
    → strip_prefix c.session_key y ≡ o
    → sized c o ≡ some x
    → IsFrame c y x
sized-IsFrame c y x none e h = absurd (ground arith)
sized-IsFrame c y x (some z) e h = elim (Bool-cases (length z == c.session_id_len)) [
  | inl fits ↦
      let same_id : z ≡ x = some-injective _ _ (rw fits at h) in
      (
        strip_prefix_split _ y z e ∙ ap (λ z. c.session_key ++ z) same_id,
        sym (ap length same_id) ∙ (==_iff _ _).0 fits,
      )
  | inr other ↦ absurd (ground (arith, h, other))
]

-- A SYN frame is taken for the session id `x` exactly when it is the key of the settings with `x`
-- behind it and `x` has the size of the settings: the frame that the other side sends is read back,
-- and every other frame is refused.
pub syn_session_id_iff :
    (c : KcpConfig) (y x : Bytes)
    → (syn_session_id c y ≡ some x) ↔ ((y ≡ c.session_key ++ x) × (length x ≡ c.session_id_len))
syn_session_id_iff c y x = (
  λ h. sized-IsFrame c y x _ refl (sym (syn_session_id-sized c y _ refl) ∙ h),
  λ (e, size).
      syn_session_id-sized c y (some x)
        (ap (strip_prefix c.session_key) e ∙ strip_prefix-append c.session_key x)
      ∙ rw (← size, ==_self (length x)) refl,
)
