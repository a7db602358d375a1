-- ===== src/RestorePlan/Buckets.antt =====
-- internal/backup/restore_plan.go: `BucketDocs` and `PVCsFromDocs`.
use pbs_k8s_operator.Base.{
  String, Bool, not, ◌&&◌, ◌||◌, List, [], ◌∷◌, ◌++◌, ◌==◌, if◌then◌else◌, contains,
}
use pbs_k8s_operator.RestorePlan.Parse.{Yaml, ParsedDoc}

pub record PlannedDoc : Type 0 where
  pub kind : String
  pub name : String
  pub yaml : String

abbrev pub workload_kinds : List String
workload_kinds = "Deployment" ∷ "StatefulSet" ∷ "DaemonSet" ∷ "Job" ∷ "CronJob" ∷ "ReplicaSet" ∷ []

abbrev pub dropped_kinds : List String
dropped_kinds = "Pod" ∷ "Endpoints" ∷ "EndpointSlice" ∷ "PodMetrics" ∷ "ControllerRevision" ∷ []

-- The four results.
pub record Buckets : Type 0 where
  pub ns : List PlannedDoc
  pub crds : List PlannedDoc
  pub pre : List PlannedDoc
  pub work : List PlannedDoc

-- The test of the `continue`; a set made by `kindSet` is the list that it was made from.
unfoldable pub is_dropped : List String → List String → ParsedDoc → Bool
is_dropped drop keep d =
    contains dropped_kinds d.kind || contains drop d.kind && not (contains keep d.kind)

unfoldable pub planned : Yaml → ParsedDoc → PlannedDoc
planned y d = record { kind = d.kind; name = d.name; yaml = y.marshal d.obj }

-- The `switch`.
unfoldable pub place : Yaml → ParsedDoc → Buckets → Buckets
place y d b =
    if d.kind == "Namespace"
    then record b { ns = b.ns ++ planned y d ∷ [] }
    else if d.kind == "CustomResourceDefinition"
    then record b { crds = b.crds ++ planned y d ∷ [] }
    else if contains workload_kinds d.kind
    then record b { work = b.work ++ planned y d ∷ [] }
    else record b { pre = b.pre ++ planned y d ∷ [] }

unfoldable pub bucket_from : Yaml → List String → List String → Buckets → List ParsedDoc → Buckets
bucket_from y drop keep b [] = b
bucket_from y drop keep b (d ∷ ds) =
    bucket_from y drop keep (if is_dropped drop keep d then b else place y d b) ds

unfoldable pub bucket_docs : Yaml → List ParsedDoc → List String → List String → Buckets
unfolding bucket_from
bucket_docs y docs drop keep =
    bucket_from y drop keep (record { ns = []; crds = []; pre = []; work = [] }) docs

unfoldable pub pvcs_from_docs : List PlannedDoc → List String
pvcs_from_docs [] = []
pvcs_from_docs (d ∷ ds) =
    let rest = pvcs_from_docs ds in
    if d.kind == "PersistentVolumeClaim" then d.name ∷ rest else rest
