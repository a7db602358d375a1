-- ===== src/Backup/Results.antt =====
-- internal/controller/pbsbackup_controller.go: `placedJob`, `jobStatuses` and `jobResult`, the changes
-- that a reconcile of a backup asks for, and what its end asks of others.
use pbs_k8s_operator.Base.{ℕ, String, Bool, Option, none, some, List, [], ◌∷◌, map, if◌then◌else◌}
use pbs_k8s_operator.Base.Text.{◌+++◌, is_empty}
use pbs_k8s_operator.Kube.{Job, Pod, ContainerStatus, ConfigMap}
use pbs_k8s_operator.Types.{PbsBackupStatus, BackupJobStatus}
use pbs_k8s_operator.Reconcile.{Answer, M, pure, ask, need, ◌>>=◌, ConditionApi}
use pbs_k8s_operator.RepoSecret.Copy.{SecretCall}
use pbs_k8s_operator.Restore.Status.{job_state}

pub data Call : Type 0 where
  patch_status : PbsBackupStatus → Call
  event : Bool → String → String → Call
  success_gauge : ℕ → Call
  duration_gauge : ℕ → ℕ → Call  -- from, to
  error_counter : Call
  secret : SecretCall → Call
  create_config_map update_config_map : ConfigMap → Call
  exec : Pod → String → List String → Call  -- a pod, its container and a command
  create_job : Job → Call

pub record Env (W : Type 0) : Type 0 where
  pub list_pods : String → String → W → Answer (List Pod) × W  -- a namespace and a Job's name
  pub patch_status : PbsBackupStatus → W → Answer (Unit {0}) × W
  pub event : Bool → String → String → W → Unit {0} × W
  pub metric : Call → W → Unit {0} × W
  pub has_metrics : Bool  -- `r.Metrics != nil`
  pub now : W → ℕ × W
  pub unmarshal : String → Option (String × ℕ)  -- `json.Unmarshal` into the result
  pub quote : String → String
  pub status_eq : PbsBackupStatus → PbsBackupStatus → Bool  -- `reflect.DeepEqual`
  pub conditions : ConditionApi

pub record PlacedJob : Type 0 where
  pub node : String
  pub job : Job

abbrev or_empty : Option String → String
or_empty none = ""
or_empty (some s) = s

-- The termination message of a container, "" for none.
unfoldable pub message_of : ContainerStatus → String
message_of cs =
    let msg = or_empty cs.terminated in if is_empty msg then or_empty cs.last_terminated else msg

-- The first message of the loops over the pods and their containers.
unfoldable pub message_among : List ContainerStatus → Option String
message_among [] = none
message_among (cs ∷ statuses) =
    let rest = message_among statuses in
    if is_empty (message_of cs) then rest else some (message_of cs)

unfoldable pub first_message : List Pod → Option String
first_message [] = none
first_message (pod ∷ pods) =
    let rest = first_message pods in
    elim (message_among pod.statuses) [ none ↦ rest | some msg ↦ some msg ]

-- A result, or a problem.
pub data JobResult : Type 0 where
  result : String → ℕ → JobResult
  unreadable : String → JobResult

-- An int64 is its residue modulo 2 ^ 64.
abbrev pub int64_modulus : ℕ
int64_modulus = 18446744073709551616

abbrev job_statuses_of : PlacedJob → BackupJobStatus
job_statuses_of pj = record { node = pj.node; job = pj.job.meta.name; state = job_state pj.job }

-- `jobStatuses`.
unfoldable pub job_statuses : List PlacedJob → List BackupJobStatus
job_statuses placed = map job_statuses_of placed

module _ {W : Type 0} (env : Env W) where
  abbrev pub decoded : Job → String → Option (String × ℕ) → JobResult
  decoded job msg none =
      unreadable ("job " +++ job.meta.name +++ ": unreadable termination log " +++ env.quote msg)
  decoded job msg (some (ref, bytes)) =
      if is_empty ref
      then unreadable
          ("job " +++ job.meta.name +++ ": unreadable termination log " +++ env.quote msg)
      else result ref bytes

  abbrev pub read : Job → Option String → JobResult
  read job none = unreadable ("job " +++ job.meta.name +++ ": no pod with a termination log found")
  read job (some msg) = decoded job msg (env.unmarshal msg)

  -- `jobResult`.
  unfoldable pub job_result : String → Job → M W Call JobResult
  job_result ns job = do
    r ← ask (env.list_pods ns job.meta.name)
    pods ← need r
    pure (read job (first_message pods))
