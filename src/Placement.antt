-- ===== src/Placement.antt =====
-- internal/backup/placement.go: the node that holds a claim's data.
pub mod Laws
use pbs_k8s_operator.Base.{
  String, Bool, true, false, not, ◌&&◌, Option, none, some, List, [], ◌∷◌, ◌==◌, if◌then◌else◌,
}
use pbs_k8s_operator.Base.Text.{◌+++◌}
use pbs_k8s_operator.Kube.{
  NodeSelectorRequirement, NodeSelectorTerm, Volume, VolumeSource, claim, Pod, PersistentVolume,
  PersistentVolumeClaim,
}

abbrev pub hostname_key : String
hostname_key = "kubernetes.io/hostname"

-- The body of the innermost loop: the node, where the requirement names one.
unfoldable pub node_of_requirement : NodeSelectorRequirement → Option String
node_of_requirement req = elim req.values [
  | [] ↦ none
  | node ∷ others ↦ if req.key == hostname_key && req.operator == "In" then some node else none
]

abbrev pub or_else : Option String → Option String → Option String
or_else (some node) rest = some node
or_else none rest = rest

unfoldable pub node_of_requirements : List NodeSelectorRequirement → Option String
node_of_requirements [] = none
node_of_requirements (req ∷ reqs) = or_else (node_of_requirement req) (node_of_requirements reqs)

-- The two inner loops run over the match expressions, then over the match fields.
unfoldable pub node_of_terms : List NodeSelectorTerm → Option String
node_of_terms [] = none
node_of_terms (term ∷ terms) =
    or_else (node_of_requirements term.match_expressions)
      (or_else (node_of_requirements term.match_fields) (node_of_terms terms))

unfoldable pub node_from_affinity : Option PersistentVolume → Option String
node_from_affinity none = none
node_from_affinity (some pv) = elim pv.affinity [
  | none ↦ none
  | some affinity ↦ elim affinity.required [ none ↦ none | some terms ↦ node_of_terms terms ]
]

abbrev pub source_claims : VolumeSource → String → Bool
source_claims (claim name read_only) pvc = name == pvc
source_claims _ pvc = false

-- Whether a pod mounts the claim.
unfoldable pub mounts_claim : List Volume → String → Bool
mounts_claim [] pvc = false
mounts_claim (vol ∷ vols) pvc =
    let rest = mounts_claim vols pvc in if source_claims vol.source pvc then true else rest

-- The loop over the pods and their volumes: a pod is passed over unless it is scheduled.
unfoldable pub node_of_pods : List Pod → String → Option String
node_of_pods [] pvc = none
node_of_pods (pod ∷ pods) pvc =
    let rest = node_of_pods pods pvc in
    if mounts_claim pod.spec.volumes pvc && not (pod.spec.node_name == "")
    then some pod.spec.node_name
    else rest

pub data Placed : Type 0 where
  on_node : String → Placed
  unplaceable : String → Placed  -- the error's text

unfoldable pub unplaceable_message : PersistentVolumeClaim → String
unplaceable_message pvc =
    "backup: cannot resolve node for PVC " +++ pvc.meta.namespace +++ "/" +++ pvc.meta.name
    +++ ": PV has no kubernetes.io/hostname node affinity and no scheduled pod mounts it"

unfoldable pub resolve_node : PersistentVolumeClaim → Option PersistentVolume → List Pod → Placed
resolve_node pvc pv pods = elim (node_from_affinity pv) [
  | some node ↦ on_node node
  | none ↦ elim (node_of_pods pods pvc.meta.name) [
    | some node ↦ on_node node
    | none ↦ unplaceable (unplaceable_message pvc)
  ]
]
