-- ===== src/Stream/Agreed.antt =====
-- src/stream.rs: the end of the SYN handshake, when the frame of the other side is taken.
pub mod Frame
use mathlib.Core.Option.{some-injective}
use mathlib.Core.Path.{subst}
use kcp_rs.Base.{
  ℕ, ◌-◌, ◌*◌, ◌^◌, ◌≤◌, ◌<◌, ◌≡◌, refl, sym, ap, ◌∙◌, Bool, true, false, Option, none, some, List,
  [], ◌∷◌, ◌++◌, Bytes, length, bytes_eq, bytes_eq_self, bytes_eq_sound, Bool-cases, inl, inr, ◌⊎◌,
  if◌then◌else◌, arith,
}
use kcp_rs.Config.{KcpConfig}
use kcp_rs.Ffi.{Engine, ikcp_overhead, ikcp_wnd_rcv}
use kcp_rs.Ffi.Laws.{SendLaws, NodelayLaws}
use kcp_rs.Protocol.Kcp
use kcp_rs.Protocol.Kcp.{Kcp}
use kcp_rs.Stream.Handshake.{connected, same}
use kcp_rs.Stream.Flags.{has, client_flag}
use kcp_rs.Stream.Task.{
  Task, M, Output, established, pure, gets, modify, on_kcp, kcp_apply_nodelay, handshake_send,
  set_handshake, move_to, task_monad, ◌>>=◌, ◌>>◌,
}
use kcp_rs.Stream.Task.Steps.{>>=-some, >>-some}
use kcp_rs.Stream.Task.Syn.{
  is_client, syn_session_id, add_output, establish, client_accept, server_accept, syn_accept,
  syn_frame,
}
use kcp_rs.Stream.Closing.{Returns, FinFits, handshake_send-returns, move_to-hs}
use kcp_rs.Stream.Syn.{syn_session_id_iff}
use kcp_rs.Stream.Order.{Respects, Ends}
use kcp_rs.Stream.Order.Quiet.{
  Quiet, quiet, Quiet-trans, quiet_order, kcp_apply_nodelay-Quiet, handshake_send-Quiet,
}

module _ ⦃E : Engine⦄ where
  -- The end is connected: it has the id, and has told the application the number of its connection.
  abbrev pub Established : Task → Bytes → Task → Type 0
  Established t id u =
      (u.hs ≡ connected)
      × (u.session_id ≡ id)
      × (u.config ≡ t.config)
      × (u.sent ≡ t.sent ++ (established (Kcp.conv u.kcp) ∷ []))

  abbrev pub Establishes : Task → Bytes → Option (Bool × Task) → Type 0
  Establishes t id r = (u : Task) × (r ≡ some (true, u)) × Established t id u

  move_to-rest :
      (t : Task)
      → let u = move_to connected t in
        (u.session_id ≡ t.session_id) × (u.config ≡ t.config) × (u.sent ≡ t.sent)
  move_to-rest t = moved (Bool-cases (same t.hs connected))
    where
      moved :
          (same t.hs connected ≡ true) ⊎ (same t.hs connected ≡ false)
          → let u = move_to connected t in
            (u.session_id ≡ t.session_id) × (u.config ≡ t.config) × (u.sent ≡ t.sent)
      moved (inl e) = rw e (refl, refl, refl)
      moved (inr e) = rw e (refl, refl, refl)

  establish-Establishes : (t : Task) → Establishes t t.session_id (establish true t)
  unfolding establish set_handshake modify gets pure
  establish-Establishes t =
      let m = move_to connected t in
      let (same_id, same_config, same_sent) = move_to-rest t in
      let out = established (Kcp.conv m.kcp) in
      (
        add_output out m,
        >>-some (set_handshake connected) _ t refl
            ∙ >>=-some (gets (λ t. Kcp.conv t.kcp)) _ m refl
            ∙ >>-some (modify (add_output out)) (pure true) m refl,
        (move_to-hs connected t, same_id, same_config, ap (λ s. s ++ (out ∷ [])) same_sent),
      )

  Establishes-after :
      (t u : Task) (r : Option (Bool × Task))
      → u.config ≡ t.config
      → u.sent ≡ t.sent
      → Establishes u u.session_id r
      → Establishes t u.session_id r
  Establishes-after t u r config sent (v, run, (hs, id, same_config, out)) = (
    v,
    run,
    (hs, id, same_config ∙ config, out ∙ ap (λ s. s ++ (established (Kcp.conv v.kcp) ∷ [])) sent),
  )

  -- A method that returns and is quiet.
  returns-Quiet :
      {A : Type 0} (m : M A) (t : Task) (P : Task → Type 0)
      → Respects quiet_order m
      → Returns (m t) P
      → Returns (m t) (λ u. Quiet t u × P u)
  returns-Quiet m t P respects (a, u, run, p) =
      (a, u, run, (subst (Ends (Quiet t)) run (respects.from t), p))

  nodelay_of : Task → Task
  nodelay_of t = record t {
    kcp =
        Kcp.set_nodelay t.kcp t.config.nodelay.nodelay t.config.nodelay.interval
          t.config.nodelay.resend t.config.nodelay.nc;
  }

  kcp_apply_nodelay-run : (t : Task) → kcp_apply_nodelay t ≡ some (tt, nodelay_of t)
  unfolding kcp_apply_nodelay nodelay_of task_monad
  kcp_apply_nodelay-run t = refl

  -- The server's answer, the key and the id, is a frame that the library takes.
  abbrev pub ReplyFits : Task → Bytes → Type 0
  ReplyFits t id =
      (ikcp_overhead < t.kcp.handle.mtu)
      × (length (t.config.session_key ++ id)
          ≤ (t.kcp.handle.mtu - ikcp_overhead) * (ikcp_wnd_rcv - 1))
      × (length (t.config.session_key ++ id) < 2 ^ 31)

  module _ (laws : SendLaws E) (nodelay_laws : NodelayLaws E) where
    nodelay_of-FinFits : (t : Task) → ReplyFits t t.session_id → FinFits (nodelay_of t)
    unfolding nodelay_of Kcp.set_nodelay
    nodelay_of-FinFits t (over, size, int) =
        let same_mtu : (nodelay_of t).kcp.handle.mtu ≡ t.kcp.handle.mtu =
          nodelay_laws.nodelay_keeps_mtu t.kcp.handle _ _ _ _ in
        (omega (arith, same_mtu), ground (arith, same_mtu), int)

    nodelay_of-rest :
        (t : Task)
        → let u = nodelay_of t in
          (u.session_id ≡ t.session_id) × (u.config ≡ t.config) × (u.sent ≡ t.sent)
    unfolding nodelay_of
    nodelay_of-rest t = (refl, refl, refl)

    pub server_accept-Establishes :
        (id : Bytes) (t : Task) → ReplyFits t id → Establishes t id (server_accept id true t)
    unfolding server_accept modify
    server_accept-Establishes id t fits =
        let t1 : Task = record t { session_id = id } in
        let t2 = nodelay_of t1 in
        let (id2, config2, sent2) = nodelay_of-rest t1 in
        let (a, t3, run, (q, _)) =
          returns-Quiet handshake_send t2 _ handshake_send-Quiet
            (handshake_send-returns t2 laws (nodelay_of-FinFits t1 fits)) in
        let (u, run', est) = establish-Establishes t3 in
        let whole =
          >>-some (modify (λ t. record t { session_id = id })) _ t refl
          ∙ >>-some kcp_apply_nodelay _ t1 (kcp_apply_nodelay-run t1)
          ∙ >>-some handshake_send (establish true) t2 run in
        let same_id : t3.session_id ≡ id = q.session_same ∙ id2 in
        subst (λ x. Establishes t x (server_accept id true t)) same_id
          (subst (Establishes t t3.session_id) (sym whole) (
            Establishes-after t t3 (establish true t3) (q.config_same ∙ config2)
              (q.sent_same ∙ sent2) (u, run', est)))

    pub client_accept-Establishes :
        (id : Bytes) (t : Task)
        → bytes_eq t.session_id id ≡ true
        → Establishes t t.session_id (client_accept id true t)
    unfolding client_accept gets
    client_accept-Establishes id t e =
        let t1 = nodelay_of t in
        let (id1, config1, sent1) = nodelay_of-rest t in
        let whole =
          >>=-some (gets (λ t. bytes_eq t.session_id id)) _ t refl
          ∙ ap (λ b. (if b then kcp_apply_nodelay >> establish true else pure false) t) e
          ∙ >>-some kcp_apply_nodelay (establish true) t (kcp_apply_nodelay-run t) in
        subst (λ x. Establishes t x (client_accept id true t)) id1
          (subst (Establishes t t1.session_id) (sym whole)
            (Establishes-after t t1 (establish true t1) config1 sent1 (establish-Establishes t1)))

    pub client_accept-refuses :
        (id : Bytes) (t : Task)
        → bytes_eq t.session_id id ≡ false
        → client_accept id true t ≡ some (false, t)
    unfolding client_accept gets pure
    client_accept-refuses id t e =
        >>=-some (gets (λ t. bytes_eq t.session_id id)) _ t refl
        ∙ ap (λ b. (if b then kcp_apply_nodelay >> establish true else pure false) t) e
