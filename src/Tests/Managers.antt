-- ===== src/Tests/Managers.antt =====
-- Runs of the operator's process.
use pbs_k8s_operator.Base.{ℕ}
use pbs_k8s_operator.Reconcile.{answer, refused}
use pbs_k8s_operator.Reconcile.Sequence.{Gives}
use pbs_k8s_operator.Manager.{Env, start, default_flags, main}
use pbs_k8s_operator.Manager.Laws.{steps, Ending, Never, plan_of, main-Follows}

-- A manager that cannot be started.
abbrev no_start : Env ℕ
no_start = record {
  log = λ w. (tt, w);
  get_config = λ w. (answer tt, w);
  request = λ c w. elim c [ start ↦ (refused "no leader", w) | _ ↦ (answer tt, w) ];
}

main-Follows_example :
    Gives steps
      (Ending no_start (plan_of no_start default_flags))
      Never
      (main no_start default_flags)
main-Follows_example = main-Follows no_start default_flags
