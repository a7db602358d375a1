-- ===== src/Agent/Commands.antt =====
-- How a command of the agent and the making of a file report.
use pbs_k8s_operator.Base.{
  ℕ, String, Option, none, some, List, [], ◌++◌, ◌≡◌, ◌≢◌, refl, sym, ap, ◌∙◌,
}
use mathlib.Core.Path.{subst}
use mathlib.Core.List.{append-nil}
use pbs_k8s_operator.Reconcile.{M, pure, send, ◌>>=◌}
use pbs_k8s_operator.Reconcile.Sequence.{Gives, Gives-pure, Gives-chain, Gives-map}
use pbs_k8s_operator.Agent.Process.{
  Os, Call, run, remove, Report, ClientError, Ran, exit_code, on_run,
}
use pbs_k8s_operator.Agent.Reports.{
  reports, IsReported, Agrees, Never, Silent-send, after-Silent, after_send, Reporting,
}

-- A command that fails has an exit code other than 0.
abbrev pub FailsAloud : {W : Type 0} → Os W → Type 0
FailsAloud {W = W} os =
    (argv env : List String) (w : W) (e : ClientError)
    → (os.run argv env w).0.failure ≡ some e
    → exit_code e ≢ 0

-- What a command gives: nothing is reported, and an error is loud.
abbrev pub IsLoud : Ran → Type 0
IsLoud r = (e : ClientError) → r.failure ≡ some e → exit_code e ≢ 0

module _ {W : Type 0} (os : Os W) (aloud : FailsAloud os) where
  -- A command, and what follows each of its ends.
  pub run-Gives :
      {B : Type 0} {S : B → List Report → Type 0} (argv env : List String) (k : Ran → M W Call B)
      → ((r : Ran) → IsLoud r → Gives reports S Never (k r))
      → Gives reports S Never (send (run argv env) (os.run argv env) >>= k)
  run-Gives argv env k h =
      after_send _ (os.run argv env) k refl
        λ r (w, is). h r (λ e q. aloud argv env w e (ap (λ (r : Ran). r.failure) is ∙ q))

  pub on_run-Gives :
      {B : Type 0} {S : B → List Report → Type 0} (r : Ran) (o : Option ClientError)
      (failed : ClientError → M W Call B) (k : M W Call B)
      → r.failure ≡ o
      → IsLoud r
      → ((e : ClientError) → exit_code e ≢ 0 → Gives reports S Never (failed e))
      → Gives reports S Never k
      → Gives reports S Never (on_run os o failed k)
  on_run-Gives r (some e) failed k is loud h g = h e (loud e is)
  on_run-Gives r none failed k is loud h g = g

  -- A run between the making of a file and its removal.
  pub removed-Reporting :
      (path : String) (m : M W Call ℕ)
      → Reporting os m
      → Reporting os (m >>= λ code. send (remove path) (os.remove path) >>= λ u. pure code)
  removed-Reporting path m h =
      Gives-chain {R = IsReported} {E = Never} m _ h (λ ys n. n)
        λ code ys g.
          Gives-map {R = λ c xs. (xs ≡ []) × (c ≡ code)} {E = Never} _
            (λ c zs z. (
              g.0,
              ap (λ (zs : List Report). ys ++ zs) z.0 ∙ append-nil ys ∙ g.1,
              subst (λ (c : ℕ). Agrees c g.0) (sym z.1) g.2,
            ))
            (after-Silent _ _ (Silent-send (remove path) (os.remove path) refl)
              λ u. Gives-pure code (refl, refl))
