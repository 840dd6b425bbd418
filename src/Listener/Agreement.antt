-- ===== src/Listener/Agreement.antt =====
-- src/udp.rs: the tables of sessions agree with each other, and a packet reaches only the session of the
-- peer that sent it.
use mathlib.Core.Option.{some-injective}
use kcp_rs.Base.{
  ℕ, ◌≡◌, sym, ap, ◌∙◌, Bool-cases, ◌⊎◌, inl, inr, Option, none, some, Bytes, bytes_eq,
  bytes_eq_self, bytes_eq_sound, arith,
}
use kcp_rs.Hashlink.{MapLaws}
use kcp_rs.ConvCache.{ConvCache}
use kcp_rs.Listener.{Tables, Listener, Session, session_of, conv_of, with_session}

pub same_nat : (a b : ℕ) → (a ≡ b) ⊎ ¬ (a ≡ b)
same_nat a b = ground arith

pub same_bytes : (a b : Bytes) → (a ≡ b) ⊎ ¬ (a ≡ b)
same_bytes a b = elim (Bool-cases (bytes_eq a b)) [
  | inl e ↦ inl (bytes_eq_sound a b e)
  | inr e ↦ inr λ p. ground (arith, e, ap (bytes_eq a) (sym p) ∙ bytes_eq_self a)
]

pub clash : {A : Type 0} (o : Option A) (a : A) → o ≡ none → o ≡ some a → ⊥
clash none a p q = cc
clash (some x) a p q = cc

module _ ⦃T : Tables⦄ where
  -- Each session stands under its own number, and its id leads to it; each id that is known leads to a
  -- session that has it.
  pub record Consistent (l : Listener) : Type 0 where
    pub session_known :
        (c : ℕ) (s : Session)
        → session_of l c ≡ some s
        → (s.session_conv ≡ c) × (conv_of l s.session_id ≡ some c)
    pub id_known :
        (id : Bytes) (c : ℕ)
        → conv_of l id ≡ some c
        → (s : Session) × (session_of l c ≡ some s) × (s.session_id ≡ id)

  pub record TableLaws : Type 0 where
    pub session_laws : MapLaws T.sessions
    pub id_laws : MapLaws T.ids

  module _ (laws : TableLaws) where
    pub with_session-Consistent :
        (l : Listener) (cache : ConvCache ⦃H = T.convs⦄) (s : Session)
        → Consistent l
        → session_of l s.session_conv ≡ none
        → conv_of l s.session_id ≡ none
        → Consistent (with_session l cache s)
    with_session-Consistent l cache s ok_l new_conv new_id = record {
      session_known = known;
      id_known = found;
    }
      where
        known :
            (c : ℕ) (s' : Session)
            → session_of (with_session l cache s) c ≡ some s'
            → (s'.session_conv ≡ c) × (conv_of (with_session l cache s) s'.session_id ≡ some c)
        known c s' e = elim (same_nat c s.session_conv) [
          | inl p ↦
              (let q : s ≡ s' = some-injective _ _ (
                  sym (laws.session_laws.get_insert l.conv_map s.session_conv s)
                  ∙ ap (session_of (with_session l cache s)) (sym p)
                  ∙ e) in
                (
                  ap (λ s. s.session_conv) (sym q) ∙ sym p,
                  ap (λ x. conv_of (with_session l cache s) x.session_id) (sym q)
                      ∙ laws.id_laws.get_insert l.sid_map s.session_id s.session_conv
                      ∙ ap (λ c. some c) (sym p),
                ))
          | inr ne ↦
              (let (own, led) =
                  ok_l.session_known c s' (
                    sym (laws.session_laws.get_insert_other l.conv_map s.session_conv c s ne)
                    ∙ e) in
                (
                  own,
                  laws.id_laws.get_insert_other l.sid_map s.session_id s'.session_id s.session_conv
                        (λ q. clash _ c (ap (conv_of l) q ∙ new_id) led)
                      ∙ led,
                ))
        ]

        found :
            (id : Bytes) (c : ℕ)
            → conv_of (with_session l cache s) id ≡ some c
            → (s' : Session) × (session_of (with_session l cache s) c ≡ some s')
              × (s'.session_id ≡ id)
        found id c e = elim (same_bytes id s.session_id) [
          | inl p ↦
              (let q : s.session_conv ≡ c = some-injective _ _ (
                  sym (laws.id_laws.get_insert l.sid_map s.session_id s.session_conv)
                  ∙ ap (conv_of (with_session l cache s)) (sym p)
                  ∙ e) in
                (
                  s,
                  ap (session_of (with_session l cache s)) (sym q)
                      ∙ laws.session_laws.get_insert l.conv_map s.session_conv s,
                  sym p,
                ))
          | inr ne ↦
              (let (s', there, same_id) = ok_l.id_known id c (
                  sym (laws.id_laws.get_insert_other l.sid_map s.session_id id s.session_conv ne)
                  ∙ e) in
                (
                  s',
                  laws.session_laws.get_insert_other l.conv_map s.session_conv c s
                        (λ q. clash _ s' (ap (session_of l) q ∙ new_conv) there)
                      ∙ there,
                  same_id,
                ))
        ]
