-- ===== src/RestorePlan/Nodes.antt =====
-- internal/backup/restore_plan.go: `NodeForPVC`, the node that a claim's workload is pinned to.
pub mod Laws
use text.Mathlib.Text.{starts_with}
use pbs_k8s_operator.Base.{
  String, Bool, not, ◌&&◌, ◌||◌, some, List, [], ◌∷◌, ◌==◌, if◌then◌else◌, contains,
}
use pbs_k8s_operator.Base.Text.{◌+++◌}
use pbs_k8s_operator.Value.{Value, Fields, lookup, as_map, as_string, as_list, any_item}
use pbs_k8s_operator.RestorePlan.Parse.{ParsedDoc}
use pbs_k8s_operator.RestorePlan.Buckets.{workload_kinds}

-- The name of the claim that a volume of a pod refers to.
abbrev pub claim_name : Value → String
claim_name v =
    as_string (lookup "claimName" (as_map (lookup "persistentVolumeClaim" (as_map (some v)))))

unfoldable pub claims_pod_volume : Fields → String → Bool
claims_pod_volume pod_spec pvc =
    any_item (λ v. claim_name v == pvc) (as_list (lookup "volumes" pod_spec))

abbrev pub template_name : Value → String
template_name t = as_string (lookup "name" (as_map (lookup "metadata" (as_map (some t)))))

unfoldable pub sts_claim_template : Fields → String → String → Bool
sts_claim_template spec sts_name pvc =
    any_item
      (λ t.
        not (template_name t == "")
        && starts_with pvc (template_name t +++ "-" +++ sts_name +++ "-"))
      (as_list (lookup "volumeClaimTemplates" spec))

unfoldable pub hostname_selector : Fields → String
hostname_selector pod_spec =
    as_string (lookup "kubernetes.io/hostname" (as_map (lookup "nodeSelector" pod_spec)))

abbrev pub spec_of : ParsedDoc → Fields
spec_of d = as_map (lookup "spec" d.obj)

abbrev pub pod_spec_of : ParsedDoc → Fields
pod_spec_of d = as_map (lookup "spec" (as_map (lookup "template" (spec_of d))))

-- Whether a document is a workload that uses the claim.
unfoldable pub consumes : String → ParsedDoc → Bool
consumes pvc d =
    contains workload_kinds d.kind
    && (claims_pod_volume (pod_spec_of d) pvc || sts_claim_template (spec_of d) d.name pvc)

unfoldable pub node_for_pvc : List ParsedDoc → String → String
node_for_pvc [] pvc = ""
node_for_pvc (d ∷ ds) pvc =
    let rest = node_for_pvc ds pvc in
    let node = hostname_selector (pod_spec_of d) in
    if consumes pvc d && not (node == "") then node else rest
