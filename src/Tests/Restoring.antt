-- ===== src/Tests/Restoring.antt =====
-- Runs of whole reconciles of a restore.
use pbs_k8s_operator.Base.Integers.{pos}
use pbs_k8s_operator.Base.{
  ℕ, true, false, none, List, [], ◌∷◌, ◌++◌, ◌≡◌, refl, if◌then◌else◌, ◌==◌,
}
use pbs_k8s_operator.Value.{end}
use pbs_k8s_operator.Kube.{new_meta}
use pbs_k8s_operator.Types.{PbsRestoreStatus, PbsRestore, PbsRepo, RestorePhase}
use pbs_k8s_operator.RestorePlan.Parse.{decoded}
use pbs_k8s_operator.Reconcile.{Run, got, not_found, made, answer}
use pbs_k8s_operator.Reconcile.Effects.{view}
use pbs_k8s_operator.Restore.Steps.{Call, Env}
use pbs_k8s_operator.Restore.Access.{Cluster}
use pbs_k8s_operator.Restore.Pipeline.{volume_groups, reconcile}
use pbs_k8s_operator.Restore.Evidence.{Reads, Deed, deeds, IsOneStep}
use pbs_k8s_operator.Reconcile.Posts.{IsLeft}
use pbs_k8s_operator.Restore.Progress.{GoesOn, restore-GoesOn}
use pbs_k8s_operator.RestorePlan.Nodes.{node_for_pvc}
use pbs_k8s_operator.Backup.Groups.{add_to_group}
use pbs_k8s_operator.Repo.Creds.{usable}
use pbs_k8s_operator.Restore.Order.{restore-IsOneStep}

abbrev restore_in : RestorePhase → PbsRestore
restore_in phase = record {
  meta = new_meta "back" "team" [];
  spec = record {
    repo_ref = "store";
    snapshot_ref = "host/team/2024-01-01T00:00:00Z";
    target_namespace = "team";
    drop_kinds = [];
    keep_kinds = [];
  };
  status = record {
    phase = phase;
    conditions = [];
    started_at = none;
    completed_at = none;
    jobs = [];
  };
}

abbrev repo : PbsRepo
repo = record {
  meta = new_meta "store" "" [];
  spec = record {
    host = "";
    port = pos 0;
    datastore = "";
    namespace = "";
    fingerprint = "";
    secret_ref = record { name = "creds"; namespace = "ops" };
    bootstrap_token_ref = record { name = ""; namespace = "" };
  };
  status = record { conditions = []; last_probe_time = none };
}

abbrev steps : Env ℕ
steps = record {
  get_job = λ ns name w. (not_found, w);
  create_job = λ j w. (made, w);
  list_jobs = λ ns name w. (answer [], w);
  patch_status = λ st w. (answer tt, w);
  event = λ warning reason message w. (tt, w);
  now = λ w. (w, w);
  status_eq = λ a b. false;
  conditions = record {
    set_status_condition = λ cs c. (c ∷ [], true);
    is_status_condition_true = λ cs k. true;
  };
}

-- A cluster in which the credentials are there, and no Job and no manifest.
abbrev empty_cluster : RestorePhase → Cluster ℕ
empty_cluster phase = record {
  get_restore = λ w. (got (restore_in phase), w);
  get_repo = λ name w. (got repo, w);
  get_namespace = λ name w. (not_found, w);
  create_namespace = λ name w. (made, w);
  secrets = record {
    get_secret = λ ns name w. (
      if ns == "ops" then got (record { meta = new_meta name ns []; bytes = [] }) else not_found,
      w,
    );
    create_secret = λ s w. (made, w);
    update_secret = λ s w. (answer tt, w);
    pod_namespace = "";
  };
  get_service_account = λ ns name w. (not_found, w);
  create_service_account = λ m w. (made, w);
  get_role_binding = λ ns name w. (not_found, w);
  create_role_binding = λ b w. (made, w);
  get_cluster_role_binding = λ name w. (not_found, w);
  create_cluster_role_binding = λ b w. (made, w);
  get_config_map = λ ns name w. (not_found, w);
  can_control = λ cm. true;
  patch_config_map = λ cm w. (answer tt, w);
  list_nodes = λ w. (answer ("node-1" ∷ []), w);
  yaml = record { read_docs = λ s. []; unmarshal = λ s. decoded end; marshal = λ f. "" };
  name_hash = record { fnv32a = λ s. 0; hex08 = λ n. "00000000" };
  image = "";
  steps = steps;
}

abbrev nothing_there : Reads
nothing_there = record { job = λ name. not_found; manifest = not_found }

abbrev start : Run ℕ Call
start = record { world = 0; log = [] }

restore-IsOneStep_example :
    (xs : List Deed) × (view deeds (reconcile (empty_cluster RestorePhase.new) start).1.log
      ≡ view deeds [] ++ xs)
    × IsOneStep (empty_cluster RestorePhase.new) (restore_in RestorePhase.new) nothing_there xs
restore-IsOneStep_example =
    restore-IsOneStep (empty_cluster RestorePhase.new) (restore_in RestorePhase.new) nothing_there
      (λ name w. refl) (λ w. refl) start 0 refl

never_equal :
    (a b : PbsRestoreStatus) → (empty_cluster RestorePhase.new).steps.status_eq a b ≡ true → a ≡ b
never_equal a b h = absurd (cc h)

restore-GoesOn_example :
    IsLeft GoesOn
      (reconcile (empty_cluster RestorePhase.new) start).0
      (reconcile (empty_cluster RestorePhase.new) start).1.log
restore-GoesOn_example =
    restore-GoesOn (empty_cluster RestorePhase.new) never_equal (restore_in RestorePhase.new) refl
      start 0 refl

-- Both claims in the group of the first node.
two_claims :
    volume_groups [] "node-1" ("data" ∷ "logs" ∷ []) []
    ≡ usable (("node-1", "data" ∷ "logs" ∷ []) ∷ [])
unfolding volume_groups node_for_pvc add_to_group
two_claims = refl
