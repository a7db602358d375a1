-- ===== src/Tests/Schedules.antt =====
-- Runs of the schedule reconciler, over a world that is a clock.
use mathlib.Core.Path.{subst}
use pbs_k8s_operator.Base.{ℕ, suc, true, false, none, List, [], ◌∷◌, ◌++◌, ◌≡◌, refl, arith}
use pbs_k8s_operator.Base.Integers.{pos}
use pbs_k8s_operator.Base.Text.Decimal.{decimal}
use pbs_k8s_operator.Kube.{new_meta}
use pbs_k8s_operator.Types.{PbsSchedule, PbsBackup, PbsRepo}
use pbs_k8s_operator.Reconcile.{Run, got, made, answer, ConditionApi}
use pbs_k8s_operator.Reconcile.Effects.{view}
use pbs_k8s_operator.Reconcile.Returns.{IsGood, IsWithin}
use pbs_k8s_operator.Schedule.Slots.{
  Progresses, Decision, out_of_fuel, due_slot, due_slot-Decision, due_slot_diverges,
}
use pbs_k8s_operator.Schedule.Reconciler.{Call, cron, Env, reconcile}
use pbs_k8s_operator.Schedule.Laws.{created, Creation, reconcile-Creation}
use pbs_k8s_operator.Schedule.Requeue.{reconcile-Returns}

abbrev every_second : PbsSchedule
every_second = record {
  meta = new_meta "nightly" "team" [];
  spec = record {
    repo_ref = "store";
    schedule = "* * * * *";
    template = record { pvcs = "data" ∷ []; selector = none; notes = "" };
    suspend = false;
  };
  status = record {
    last_schedule_time = none;
    next_schedule_time = none;
    active = [];
    conditions = [];
  };
}

abbrev ready_repo : PbsRepo
ready_repo = record {
  meta = new_meta "store" "" [];
  spec = record {
    host = "pbs";
    port = pos 8007;
    datastore = "main";
    namespace = "";
    fingerprint = "AB:CD";
    secret_ref = record { name = "creds"; namespace = "" };
    bootstrap_token_ref = record { name = ""; namespace = "" };
  };
  status = record { conditions = []; last_probe_time = none };
}

abbrev api : ConditionApi
api = record {
  set_status_condition = λ cs c. (c ∷ [], true);
  is_status_condition_true = λ cs k. true;
}

abbrev clock_env : Env ℕ
clock_env = record {
  get_schedule = λ w. (got every_second, w);
  get_repo = λ name w. (got ready_repo, w);
  create_backup = λ b w. (made, w);
  list_backups = λ ns name w. (answer [], w);
  patch_status = λ st w. (answer tt, w);
  event = λ warning reason message w. (tt, w);
  now = λ w. (w, suc w);
  parse_cron = λ e. cron suc;
  quote = λ s. s;
  iso = λ t. decimal t;
  unix = λ t. decimal t;
  status_eq = λ a b. false;
  conditions = api;
}

suc-Progresses : Progresses suc
suc-Progresses t = omega arith

only_suc : (next : ℕ → ℕ) → cron suc ≡ cron next → Progresses next
only_suc next e = subst Progresses (cc e) suc-Progresses

abbrev start : Run ℕ Call
start = record { world = 3; log = [] }

reconcile-Creation_example :
    (xs : List PbsBackup) × (view created (reconcile clock_env start).1.log ≡ view created [] ++ xs)
    × Creation clock_env every_second xs
reconcile-Creation_example = reconcile-Creation clock_env every_second start refl only_suc

reconcile-Returns_example : IsGood (IsWithin 300) (reconcile clock_env start).0
reconcile-Returns_example = reconcile-Returns clock_env every_second start refl

due_slot-Decision_example : Decision suc 7 2 (due_slot 8 suc 7 2)
due_slot-Decision_example = due_slot-Decision suc 7 2 suc-Progresses

due_slot_diverges_example : due_slot 100 (λ t. 0) 7 2 ≡ out_of_fuel
due_slot_diverges_example = due_slot_diverges (λ t. 0) 100 7 2 (λ t. refl)
