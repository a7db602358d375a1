-- ===== src/Repo/Laws.antt =====
-- When a reconcile of a repository comes back.
use pbs_k8s_operator.Base.{ℕ, String, ◌≡◌, arith}
use pbs_k8s_operator.Types.{PbsRepo}
use pbs_k8s_operator.Reconcile.{
  Run, M, ask, ◌>>=◌, Answer, answer, refused, CtrlResult, requeue_after, seconds, got, on_got,
}
use pbs_k8s_operator.Reconcile.Returns.{Returns, IsGood, IsWithin, returns_rules}
use pbs_k8s_operator.Repo.Creds.{RepoCreds, Resolved, usable, problem}
use pbs_k8s_operator.Repo.Reconciler.{
  Call, Env, fail, succeed, on_answer, bootstrap, probe, producer_creds, reconcile,
}

module _ {W : Type 0} (env : Env W) where
  on_answer-Returns :
      {A : Type 0} (r : Answer A) (f : String → M W Call CtrlResult) (m : M W Call CtrlResult)
      → ((e : String) → Returns (IsWithin 300) (f e))
      → Returns (IsWithin 300) m
      → Returns (IsWithin 300) (on_answer env r f m)
  on_answer-Returns (answer a) f m h k = k
  on_answer-Returns (refused e) f m h k = h e

  fail-Returns :
      (repo : PbsRepo) (reason message : String) (n : ℕ)
      → IsWithin 300 (requeue_after (seconds n))
      → Returns (IsWithin 300) (fail env repo reason message n)
  unfolding fail
  fail-Returns repo reason message n l = search (returns_rules, l)

  two_minutes : IsWithin 300 (requeue_after (seconds 120))
  two_minutes = (omega arith, omega arith)

  five_minutes : IsWithin 300 (requeue_after (seconds 300))
  five_minutes = (omega arith, omega arith)

  ruleset repo_rules = (returns_rules, fail-Returns, two_minutes, five_minutes, on_answer-Returns)

  succeed-Returns : (repo : PbsRepo) → Returns (IsWithin 300) (succeed env repo)
  unfolding succeed
  succeed-Returns repo = search repo_rules

  bootstrap-Returns :
      (repo : PbsRepo) (creds : RepoCreds) (token : Resolved (String × String))
      → Returns (IsWithin 300) (bootstrap env repo creds token)
  unfolding bootstrap
  bootstrap-Returns repo creds (problem p) = search repo_rules
  bootstrap-Returns repo creds (usable token) = search (repo_rules, succeed-Returns)

  probe-Returns :
      (repo : PbsRepo) (creds : Resolved RepoCreds) → Returns (IsWithin 300) (probe env repo creds)
  unfolding probe
  probe-Returns repo (problem p) = search repo_rules
  probe-Returns repo (usable creds) = search (repo_rules, succeed-Returns, bootstrap-Returns)

  -- What follows the read of a repository.
  found-Returns :
      (repo : PbsRepo)
      → Returns (IsWithin 300) (producer_creds env repo >>= λ creds. probe env repo creds)
  found-Returns repo = search (returns_rules, probe-Returns)

  -- Whatever the API server and the PBS server answer, a reconcile that reads a repository and ends
  -- without an error comes back, later than at once and within five minutes.
  pub repo_reconcile-Returns :
      (repo : PbsRepo) (s : Run W Call)
      → (env.get_repo s.world).0 ≡ got repo
      → IsGood (IsWithin 300) (reconcile env s).0
  unfolding reconcile ◌>>=◌ ask on_got
  repo_reconcile-Returns repo s found =
      rw found ((found-Returns repo).at (record { world = (env.get_repo s.world).1; log = s.log }))
