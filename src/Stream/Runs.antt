-- ===== src/Stream/Runs.antt =====
-- src/stream.rs: methods that do not panic, and the rules that carry this through their steps.
use kcp_rs.Base.{refl, ◌∙◌, Bool, true, false, if◌then◌else◌}
use kcp_rs.Ffi.{Engine}
use kcp_rs.Protocol.Kcp.{Kcp}
use kcp_rs.Stream.Task.{Task, M, gets, pure, on_kcp, ◌>>=◌, ◌>>◌}
use kcp_rs.Stream.Task.Steps.{>>=-some, >>-some}
use kcp_rs.Stream.Closing.{Returns}

module _ ⦃E : Engine⦄ where
  abbrev pub Any : Task → Type 0
  Any t = Unit {0}

  pub >>=-returns :
      {A B : Type 0} (m : M A) (f : A → M B) (t : Task) (P Q : Task → Type 0)
      → Returns (m t) P
      → ((a : A) (u : Task) → P u → Returns (f a u) Q)
      → Returns ((m >>= f) t) Q
  >>=-returns m f t P Q (a, u, run, p) h =
      let (b, v, run', q) = h a u p in (b, v, >>=-some m f t run ∙ run', q)

  pub >>-returns :
      {A B : Type 0} (m : M A) (n : M B) (t : Task) (P Q : Task → Type 0)
      → Returns (m t) P
      → ((u : Task) → P u → Returns (n u) Q)
      → Returns ((m >> n) t) Q
  >>-returns m n t P Q (a, u, run, p) h =
      let (b, v, run', q) = h u p in (b, v, >>-some m n t run ∙ run', q)

  -- A method that does not panic, from any state.
  pub record Runs {A : Type 0} (m : M A) : Type 0 where
    pub from : (t : Task) → Returns (m t) Any

  pub >>=-Runs :
      {A B : Type 0} {m : M A} {f : A → M B} → Runs m → ((a : A) → Runs (f a)) → Runs (m >>= f)
  >>=-Runs {m = m} {f = f} hm hf = record {
    from = λ t. >>=-returns m f t Any Any (hm.from t) λ a u _. (hf a).from u;
  }

  pub >>-Runs : {A B : Type 0} {m : M A} {n : M B} → Runs m → Runs n → Runs (m >> n)
  >>-Runs {m = m} {n = n} hm hn = record {
    from = λ t. >>-returns m n t Any Any (hm.from t) λ u _. hn.from u;
  }

  pub pure-Runs : {A : Type 0} (a : A) → Runs (pure a)
  unfolding pure
  pure-Runs a = record { from = λ t. (a, t, refl, tt) }

  pub gets-Runs : {A : Type 0} (f : Task → A) → Runs (gets f)
  unfolding gets
  gets-Runs f = record { from = λ t. (f t, t, refl, tt) }

  pub on_kcp-Runs : (f : Kcp → Kcp) → Runs (on_kcp f)
  unfolding on_kcp
  on_kcp-Runs f = record { from = λ t. (tt, _, refl, tt) }

  pub if-Runs : {A : Type 0} (b : Bool) {m n : M A} → Runs m → Runs n → Runs (if b then m else n)
  if-Runs true hm hn = hm
  if-Runs false hm hn = hn

  pub ruleset run_rules = (>>=-Runs, >>-Runs, pure-Runs, gets-Runs, on_kcp-Runs, if-Runs)
