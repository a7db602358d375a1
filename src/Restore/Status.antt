-- ===== src/Restore/Status.antt =====
-- internal/controller/pbsrestore_controller.go: what a restore's status says of its Jobs, and the
-- test of its spec; internal/controller/pbsbackup_controller.go: `jobState` and `jobCondition`.
use pbs_k8s_operator.Base.{
  String, Bool, true, false, not, ◌&&◌, List, [], ◌∷◌, ◌++◌, ◌==◌, if◌then◌else◌, length, eqb, map,
}
use text.Mathlib.Text.{starts_with}
use pbs_k8s_operator.Base.Text.{◌+++◌, is_empty, split, trim_prefix, sort_by}
use pbs_k8s_operator.Kube.{Condition, ConditionStatus, cond_true, cond_false, cond_unknown, Job}
use pbs_k8s_operator.Types.{PbsRestore, RestoreJobStatus, RestorePhase}

abbrev is_true : ConditionStatus → Bool
is_true cond_true = true
is_true cond_false = false
is_true cond_unknown = false

-- The loop of `jobCondition`.
unfoldable pub has_condition : List Condition → String → Bool
has_condition [] cond = false
has_condition (c ∷ cs) cond =
    let rest = has_condition cs cond in if c.kind == cond && is_true c.status then true else rest

unfoldable pub job_condition : Job → String → Bool
job_condition job cond = has_condition job.conditions cond

unfoldable pub job_state : Job → String
job_state job =
    if job_condition job "Failed"
    then "failed"
    else if job_condition job "Complete"
    then "complete"
    else "active"

-- `validateSpec`, with "" for a valid spec.
unfoldable pub validate_spec : PbsRestore → String
validate_spec rs =
    if is_empty rs.spec.repo_ref
    then "repoRef is required"
    else if is_empty rs.spec.snapshot_ref
    then "snapshotRef is required"
    else if is_empty rs.spec.target_namespace
    then "targetNamespace is required"
    else if not (eqb (length (split b'/' rs.spec.snapshot_ref)) 3)
    then "snapshotRef " +++ rs.spec.snapshot_ref +++ " is malformed, want <type>/<id>/<ISO8601Z>"
    else ""

-- The loops of `knownJob` and `recordedJobState` over `status.Jobs`.
unfoldable pub known_among : List RestoreJobStatus → String → Bool
known_among [] name = false
known_among (js ∷ jobs) name =
    let rest = known_among jobs name in if js.job == name then true else rest

unfoldable pub known_job : PbsRestore → String → Bool
known_job rs name = known_among rs.status.jobs name

unfoldable pub state_among : List RestoreJobStatus → String → String
state_among [] name = ""
state_among (js ∷ jobs) name =
    let rest = state_among jobs name in if js.job == name then js.state else rest

unfoldable pub recorded_job_state : PbsRestore → String → String
recorded_job_state rs name = state_among rs.status.jobs name

-- `holdPhase`.
unfoldable pub hold_phase : RestorePhase → RestorePhase
hold_phase RestorePhase.new = RestorePhase.staging_api
hold_phase p = p

-- `jobPhaseByName`.
unfoldable pub job_phase_by_name : PbsRestore → String → RestorePhase
job_phase_by_name rs name =
    let base = trim_prefix name (rs.meta.name +++ "-") in
    if starts_with base "vol-"
    then RestorePhase.restoring_volumes
    else if base == "api-workload"
    then RestorePhase.applying_workloads
    else RestorePhase.staging_api

unfoldable pub live_status : PbsRestore → Job → RestoreJobStatus
live_status rs j = record {
  phase = job_phase_by_name rs j.meta.name;
  job = j.meta.name;
  state = job_state j;
}

-- `live[name]`.
unfoldable pub is_live : List Job → String → Bool
is_live [] name = false
is_live (j ∷ jobs) name = let rest = is_live jobs name in if j.meta.name == name then true else rest

-- The loop that carries the recorded Jobs over that are no longer live.
unfoldable pub carried : List Job → List RestoreJobStatus → List RestoreJobStatus
carried live [] = []
carried live (js ∷ jobs) =
    let rest = carried live jobs in if is_live live js.job then rest else js ∷ rest

-- `liveJobs` for the Jobs that were listed, sorted by name.
unfoldable pub merged_jobs : PbsRestore → List Job → List RestoreJobStatus
merged_jobs rs live =
    sort_by (λ (a : RestoreJobStatus). a.job)
      (map (live_status rs) live ++ carried live rs.status.jobs)
