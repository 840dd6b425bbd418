-- ===== src/Stream/Task/Steps.antt =====
-- src/stream.rs: how a chain of steps of the task runs.
use kcp_rs.Base.{◌≡◌, refl, ap, none, some, Io, ok, err, ErrorKind}
use kcp_rs.Ffi.{Engine}
use kcp_rs.Protocol.Kcp.{Kcp}
use kcp_rs.Stream.Task.{Task, M, done, failed, call, settle, ◌>>=◌, ◌>>◌}

module _ ⦃E : Engine⦄ where
  pub >>=-some :
      {A B : Type 0} (m : M A) (f : A → M B) (t : Task) {a : A} {u : Task}
      → m t ≡ some (a, u)
      → (m >>= f) t ≡ f a u
  unfolding ◌>>=◌
  >>=-some m f t e = rw (e, ◌>>=◌) refl

  pub >>-some :
      {A B : Type 0} (m : M A) (k : M B) (t : Task) {a : A} {u : Task}
      → m t ≡ some (a, u)
      → (m >> k) t ≡ k u
  unfolding ◌>>=◌ ◌>>◌
  >>-some m k t e = rw (e, ◌>>◌, ◌>>=◌) refl

  pub >>=-none : {A B : Type 0} (m : M A) (f : A → M B) (t : Task) → m t ≡ none → (m >>= f) t ≡ none
  unfolding ◌>>=◌
  >>=-none m f t e = rw (e, ◌>>=◌) refl

  -- A method that returns `Ok`, and one that returns an error.
  pub call_ok :
      {A : Type 0} (f : Kcp → Kcp × Io A) (t : Task) {k : Kcp} {a : A}
      → f t.kcp ≡ (k, ok a)
      → call f t ≡ some (done a, record t { kcp = k })
  unfolding call
  call_ok f t e = ap (settle t) e

  pub call_err :
      {A : Type 0} (f : Kcp → Kcp × Io A) (t : Task) {k : Kcp} {e : ErrorKind}
      → f t.kcp ≡ (k, err e)
      → call f t ≡ some (failed e, record t { kcp = k })
  unfolding call
  call_err f t e = ap (settle t) e
