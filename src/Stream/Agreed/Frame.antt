-- ===== src/Stream/Agreed/Frame.antt =====
-- src/stream.rs: what `syn_handshake_recv` does with the frame of the other side, and that the two sides
-- of a handshake come to agree.
use mathlib.Core.Option.{some-injective}
use mathlib.Core.Path.{subst}
use kcp_rs.Base.{
  ◌≡◌, refl, sym, ap, ◌∙◌, Bool, true, false, Option, none, some, ◌++◌, Bytes, length, bytes_eq,
  bytes_eq_self, bytes_eq_sound, Bool-cases, inl, inr, ◌⊎◌, if◌then◌else◌, arith,
}
use kcp_rs.Ffi.{Engine}
use kcp_rs.Ffi.Laws.{SendLaws, NodelayLaws}
use kcp_rs.Stream.Task.{Task, pure, gets}
use kcp_rs.Stream.Task.Steps.{>>=-some}
use kcp_rs.Stream.Task.Syn.{
  is_client, syn_session_id, client_accept, server_accept, syn_accept, syn_frame,
}
use kcp_rs.Stream.Syn.{syn_session_id_iff}
use kcp_rs.Stream.Agreed.{
  Established, Establishes, ReplyFits, server_accept-Establishes, client_accept-Establishes,
  client_accept-refuses,
}

module _ ⦃E : Engine⦄ where
  module _ (laws : SendLaws E) (nodelay_laws : NodelayLaws E) where
    -- What becomes of a frame, by the id in it and by whether the end is a client.
    abbrev pub Verdict : Task → Option Bytes → Bool → Option (Bool × Task) → Type 0
    Verdict t none client r = r ≡ some (false, t)
    Verdict t (some id) false r = Establishes t id r
    Verdict t (some id) true r =
        ((id ≡ t.session_id) × Establishes t id r) ⊎ (¬ (id ≡ t.session_id) × (r ≡ some (false, t)))

    role_known :
        (t : Task) (id : Bytes) (client : Bool)
        → is_client t ≡ client
        → syn_accept (some id) true t
          ≡ (if client then client_accept id true else server_accept id true) t
    unfolding syn_accept gets
    role_known t id client e =
        >>=-some (gets is_client) _ t refl
        ∙ ap (λ b. (if b then client_accept id true else server_accept id true) t) e

    client_accept-Verdict :
        (id : Bytes) (t : Task) → Verdict t (some id) true (client_accept id true t)
    client_accept-Verdict id t = elim (Bool-cases (bytes_eq t.session_id id)) [
      | inl e ↦
          let same_id = bytes_eq_sound t.session_id id e in
          inl (
            sym same_id,
            subst (λ x. Establishes t x (client_accept id true t)) same_id
                (client_accept-Establishes laws nodelay_laws id t e),
          )
      | inr e ↦ inr (
        λ p. ground (arith, e, ap (bytes_eq t.session_id) p, bytes_eq_self t.session_id),
        client_accept-refuses laws nodelay_laws id t e,
      )
    ]

    syn_accept-Verdict :
        (t : Task) (o : Option Bytes) (client : Bool)
        → is_client t ≡ client
        → (client ≡ false → (id : Bytes) → o ≡ some id → ReplyFits t id)
        → Verdict t o client (syn_accept o true t)
    unfolding syn_accept gets pure
    syn_accept-Verdict t none client e fits = refl
    syn_accept-Verdict t (some id) true e fits =
        subst (Verdict t (some id) true) (sym (role_known t id true e)) (client_accept-Verdict id t)
    syn_accept-Verdict t (some id) false e fits =
        subst (Verdict t (some id) false) (sym (role_known t id false e))
          (server_accept-Establishes laws nodelay_laws id t (fits refl id refl))

  pub syn_frame-Verdict :
      (laws : SendLaws E) (nodelay_laws : NodelayLaws E) (t : Task) (y : Bytes)
      → (is_client t ≡ false → (id : Bytes) → syn_session_id t.config y ≡ some id → ReplyFits t id)
      → Verdict laws nodelay_laws t
          (syn_session_id t.config y)
          (is_client t)
          (syn_frame (some y) true t)
  unfolding syn_frame gets
  syn_frame-Verdict laws nodelay_laws t y fits =
      subst (Verdict laws nodelay_laws t (syn_session_id t.config y) (is_client t))
        (sym (>>=-some (gets (λ t. syn_session_id t.config y)) _ t refl))
        (syn_accept-Verdict laws nodelay_laws t (syn_session_id t.config y) (is_client t) refl fits)

  known_frame :
      (laws : SendLaws E) (nodelay_laws : NodelayLaws E) (t : Task) (y id : Bytes) (client : Bool)
      → is_client t ≡ client
      → (client ≡ false → ReplyFits t id)
      → y ≡ t.config.session_key ++ id
      → length id ≡ t.config.session_id_len
      → Verdict laws nodelay_laws t (some id) client (syn_frame (some y) true t)
  known_frame laws nodelay_laws t y id client role fits e size =
      let read : syn_session_id t.config y ≡ some id =
        (syn_session_id_iff t.config y id).1 (e, size) in
      subst (λ b. Verdict laws nodelay_laws t (some id) b (syn_frame (some y) true t)) role
        (subst (λ o. Verdict laws nodelay_laws t o (is_client t) (syn_frame (some y) true t)) read
          (syn_frame-Verdict laws nodelay_laws t y λ server id' e'.
            subst (ReplyFits t) (some-injective _ _ (sym read ∙ e')) (fits (sym role ∙ server))))

  client_verified :
      (t : Task) (r : Option (Bool × Task))
      → ((t.session_id ≡ t.session_id) × Establishes t t.session_id r)
        ⊎ (¬ (t.session_id ≡ t.session_id) × (r ≡ some (false, t)))
      → Establishes t t.session_id r
  client_verified t r (inl (same_id, est)) = est
  client_verified t r (inr (other, refused)) = absurd (other refl)

  -- A server and a client with the same key and id size, when the client's id has that size and the
  -- server's answer is a frame that the C library takes, which leaves the mtu alone on setting the
  -- nodelay options: the server takes the frame of the client's key and id; the client takes the
  -- frame of the key and id that the server then has; both are connected with the client's id, and
  -- each tells its application so.
  pub handshake-Agrees :
      (laws : SendLaws E) (nodelay_laws : NodelayLaws E) (server client : Task)
      → is_client server ≡ false
      → is_client client ≡ true
      → server.config.session_key ≡ client.config.session_key
      → server.config.session_id_len ≡ client.config.session_id_len
      → length client.session_id ≡ client.config.session_id_len
      → ReplyFits server client.session_id
      → (u : Task) × (v : Task) × (syn_frame
            (some (client.config.session_key ++ client.session_id))
            true
            server
          ≡ some (true, u))
        × Established server client.session_id u
        × (syn_frame (some (u.config.session_key ++ u.session_id)) true client ≡ some (true, v))
        × Established client client.session_id v
  handshake-Agrees laws nodelay_laws server client role role' same_key same_len size fits =
      let id = client.session_id in
      let (u, run, est) =
        known_frame laws nodelay_laws server (client.config.session_key ++ id) id false role
          (λ _. fits) (ap (λ k. k ++ id) (sym same_key)) (size ∙ sym same_len) in
      let reply =
        known_frame laws nodelay_laws client (u.config.session_key ++ u.session_id) id true role'
          (λ never. absurd (ground arith))
          (ap (λ c. c.session_key ++ u.session_id) est.2
            ∙ ap (λ k. k ++ u.session_id) same_key
            ∙ ap (λ x. client.config.session_key ++ x) est.1)
          size in
      let (v, run', est') = client_verified client _ reply in (u, v, run, est, run', est')
