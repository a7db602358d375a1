-- ===== src/Tests/Restores.antt =====
-- Runs of the steps of a restore, and of the serializer's strip.
use pbs_k8s_operator.Base.{ℕ, true, false, none, [], ◌∷◌, ◌≡◌, refl, ltb}
use pbs_k8s_operator.Base.Text.Decimal.{decimal}
use pbs_k8s_operator.Value.{Fields, end, field, str, obj}
use pbs_k8s_operator.Kube.{new_meta, Job}
use pbs_k8s_operator.Types.{PbsRestore, RestorePhase}
use pbs_k8s_operator.RestoreJobs.{build_api_fetch_job}
use pbs_k8s_operator.Reconcile.{not_found, made, answer}
use pbs_k8s_operator.Reconcile.Brings.{Brings}
use pbs_k8s_operator.Snapshots.{Clock, compose_snapshot_ref}
use pbs_k8s_operator.Serialize.{strip_volatile}
use pbs_k8s_operator.Serialize.Laws.{IsStable, strip_volatile-IsStable}
use pbs_k8s_operator.Restore.Status.{validate_spec}
use pbs_k8s_operator.Restore.SpecLaws.{validate_spec-compose_snapshot_ref}
use pbs_k8s_operator.Restore.Steps.{Env, ensure_job, Ensured, job_problem}
use pbs_k8s_operator.Restore.Laws.{created_jobs, Creation, ensure_job-Creation}

abbrev seconds : Clock ℕ
seconds = record { gt = λ a b. ltb b a; iso = λ n. decimal n }

abbrev back : PbsRestore
back = record {
  meta = new_meta "back" "team" [];
  spec = record {
    repo_ref = "store";
    snapshot_ref = compose_snapshot_ref seconds "host" "team" 7;
    target_namespace = "team";
    drop_kinds = [];
    keep_kinds = [];
  };
  status = record {
    phase = RestorePhase.staging_api;
    conditions = [];
    started_at = none;
    completed_at = none;
    jobs = [];
  };
}

abbrev fetch : Job
fetch =
    build_api_fetch_job
      (record {
        name = "";
        restore = "back";
        namespace = "team";
        repo_secret = "pbsrepo-store";
        ref = "host/team/7";
        image = "agent:1";
        service_account = "pbs-restore";
      })
      "back-api"

abbrev empty_env : Env ℕ
empty_env = record {
  get_job = λ ns name w. (not_found, w);
  create_job = λ j w. (made, w);
  list_jobs = λ ns name w. (answer [], w);
  patch_status = λ st w. (answer tt, w);
  event = λ warning reason message w. (tt, w);
  now = λ w. (w, w);
  status_eq = λ a b. false;
  conditions = record {
    set_status_condition = λ cs c. (c ∷ [], true);
    is_status_condition_true = λ cs k. true;
  };
}

ensure_job-Creation_example :
    Brings created_jobs
      (Creation empty_env back "back-api-fetch" fetch)
      (ensure_job empty_env back "back-api-fetch" fetch)
ensure_job-Creation_example = ensure_job-Creation empty_env back "back-api-fetch" fetch

abbrev failure : Ensured
failure = job_problem "Failed" "job back-api-fetch failed"

validate_spec-compose_snapshot_ref_example : validate_spec back ≡ ""
unfolding decimal
validate_spec-compose_snapshot_ref_example =
    validate_spec-compose_snapshot_ref seconds back "host" "team" 7 refl refl refl
      (refl, (refl, (refl, (refl, tt)))) (refl, (refl, (refl, (refl, tt)))) (refl, tt)

abbrev deployed : Fields
deployed = field "kind" (str "Deployment") (
    field "metadata" (obj (field "uid" (str "42") (field "name" (str "web") end)))
      (field "status" (obj end) end))

strip_volatile-IsStable_example : IsStable deployed (strip_volatile deployed)
strip_volatile-IsStable_example = strip_volatile-IsStable deployed
