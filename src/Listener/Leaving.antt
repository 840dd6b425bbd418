-- ===== src/Listener/Leaving.antt =====
-- src/udp.rs: the tables when a session is connected and when it is removed.
use mathlib.Core.Option.{some-injective}
use kcp_rs.Base.{ℕ, ◌≡◌, sym, ap, ◌∙◌, inl, inr, some, Bytes}
use kcp_rs.Config.{KcpConfig}
use kcp_rs.ConvCache.{ConvCache}
use kcp_rs.Listener.{
  Tables, Listener, Session, listener_new, session_of, conv_of, connected_session,
}
use kcp_rs.Listener.Agreement.{Consistent, TableLaws, clash, same_nat, same_bytes}

module _ ⦃T : Tables⦄ where
  abbrev pub written : Listener → ℕ → Session → Listener
  written l conv s = record l { conv_map = T.sessions.write l.conv_map conv (connected_session s) }

  abbrev pub without_session : Listener → ConvCache ⦃H = T.convs⦄ → ℕ → Session → Listener
  without_session l cache conv s = record l {
    conv_cache = cache;
    conv_map = T.sessions.remove l.conv_map conv;
    sid_map = T.ids.remove l.sid_map s.session_id;
  }

  module _ (laws : TableLaws) where
    pub listener_new-Consistent : (config : KcpConfig) → Consistent (listener_new config)
    unfolding listener_new
    listener_new-Consistent config = record {
      session_known = λ c s e. absurd (clash _ s (laws.session_laws.get_new c) e);
      id_known = λ id c e. absurd (clash _ c (laws.id_laws.get_new id) e);
    }

    pub written-Consistent :
        (l : Listener) (conv : ℕ) (s : Session)
        → Consistent l
        → session_of l conv ≡ some s
        → Consistent (written l conv s)
    written-Consistent l conv s ok_l there = record { session_known = held; id_known = found }
      where
        at : session_of (written l conv s) conv ≡ some (connected_session s)
        at = laws.session_laws.get_write l.conv_map conv (connected_session s) s there

        held :
            (c : ℕ) (s' : Session)
            → session_of (written l conv s) c ≡ some s'
            → (s'.session_conv ≡ c) × (conv_of l s'.session_id ≡ some c)
        held c s' e = elim (same_nat c conv) [
          | inl p ↦
              (let q : connected_session s ≡ s' =
                  some-injective _ _ (sym at ∙ ap (session_of (written l conv s)) (sym p) ∙ e) in
                let (own, led) = ok_l.session_known conv s there in
                (
                  ap (λ s. s.session_conv) (sym q) ∙ own ∙ sym p,
                  ap (λ s. conv_of l s.session_id) (sym q) ∙ led ∙ ap (λ c. some c) (sym p),
                ))
          | inr ne ↦
              ok_l.session_known c s'
                (sym (laws.session_laws.get_write_other l.conv_map conv c _ ne) ∙ e)
        ]

        found :
            (id : Bytes) (c : ℕ)
            → conv_of l id ≡ some c
            → (s' : Session) × (session_of (written l conv s) c ≡ some s') × (s'.session_id ≡ id)
        found id c e =
            let (s', there', same_id) = ok_l.id_known id c e in
            elim (same_nat c conv) [
              | inl p ↦
                  (let q : s' ≡ s = some-injective _ _ (sym there' ∙ ap (session_of l) p ∙ there) in
                    (
                      connected_session s,
                      ap (session_of (written l conv s)) p ∙ at,
                      ap (λ s. s.session_id) (sym q) ∙ same_id,
                    ))
              | inr ne ↦
                  (s', laws.session_laws.get_write_other l.conv_map conv c _ ne ∙ there', same_id)
            ]

    pub without_session-Consistent :
        (l : Listener) (cache : ConvCache ⦃H = T.convs⦄) (conv : ℕ) (s : Session)
        → Consistent l
        → session_of l conv ≡ some s
        → Consistent (without_session l cache conv s)
    without_session-Consistent l cache conv s ok_l there = record {
      session_known = held;
      id_known = found;
    }
      where
        led : conv_of l s.session_id ≡ some conv
        led = (ok_l.session_known conv s there).1

        held :
            (c : ℕ) (s' : Session)
            → session_of (without_session l cache conv s) c ≡ some s'
            → (s'.session_conv ≡ c)
              × (conv_of (without_session l cache conv s) s'.session_id ≡ some c)
        held c s' e = elim (same_nat c conv) [
          | inl p ↦ absurd (
              clash _ s'
                (ap (session_of (without_session l cache conv s)) p
                  ∙ laws.session_laws.get_remove l.conv_map conv)
                e)
          | inr ne ↦
              (let (own, led') =
                  ok_l.session_known c s'
                    (sym (laws.session_laws.get_remove_other l.conv_map conv c ne) ∙ e) in
                let other : ¬ (s'.session_id ≡ s.session_id) =
                  λ q. ne (some-injective _ _ (sym led' ∙ ap (conv_of l) q ∙ led)) in
                (
                  own,
                  laws.id_laws.get_remove_other l.sid_map s.session_id s'.session_id other ∙ led',
                ))
        ]

        found :
            (id : Bytes) (c : ℕ)
            → conv_of (without_session l cache conv s) id ≡ some c
            → (s' : Session) × (session_of (without_session l cache conv s) c ≡ some s')
              × (s'.session_id ≡ id)
        found id c e = elim (same_bytes id s.session_id) [
          | inl p ↦ absurd (
              clash _ c
                (ap (conv_of (without_session l cache conv s)) p
                  ∙ laws.id_laws.get_remove l.sid_map s.session_id)
                e)
          | inr ne ↦
              (let (s', there', same_id) =
                  ok_l.id_known id c
                    (sym (laws.id_laws.get_remove_other l.sid_map s.session_id id ne) ∙ e) in
                let other : ¬ (c ≡ conv) = λ q. ne (
                  sym same_id
                  ∙ ap (λ s. s.session_id)
                      (some-injective _ _ (sym there' ∙ ap (session_of l) q ∙ there))) in
                (s', laws.session_laws.get_remove_other l.conv_map conv c other ∙ there', same_id))
        ]
