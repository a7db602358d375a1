-- ===== src/Tests/Plan.antt =====
-- Runs of the restore plan on a claim, a service and a workload.
use pbs_k8s_operator.Base.{String, List, [], ◌∷◌, ◌≡◌, ◌⊎◌, refl, All, if◌then◌else◌, ◌==◌}
use pbs_k8s_operator.Base.Text
use pbs_k8s_operator.Value.{Value, Fields, end, field, str, obj, arr, nil, cons, lookup}
use pbs_k8s_operator.RestorePlan.Clean.{strip_pvc_binding}
use pbs_k8s_operator.RestorePlan.CleanLaws.{IsFreshClaim, strip_pvc_binding-IsFreshClaim}
use pbs_k8s_operator.RestorePlan.Parse.{
  chunk, decoded, Yaml, ParsedDoc, ok, is_blank_line, is_blank_doc, parsed, finish, parse_doc,
  parse_from, parse_api_manifests,
}
use pbs_k8s_operator.RestorePlan.ParseLaws.{Plans, parse_api_manifests-IsPlanned}
use pbs_k8s_operator.RestorePlan.Buckets.{bucket_docs}
use pbs_k8s_operator.RestorePlan.BucketLaws.{
  class, is_namespace, is_crd, is_other, is_workload, bucket_docs-class,
}
use pbs_k8s_operator.RestorePlan.Nodes
use pbs_k8s_operator.RestorePlan.Nodes.{node_for_pvc}
use pbs_k8s_operator.RestorePlan.Nodes.Laws.{Decides, LeavesOpen, node_for_pvc-Decides}

abbrev named : String → Fields
named name = field "name" (str name) end

abbrev claim_manifest : Fields
claim_manifest = field "kind" (str "PersistentVolumeClaim") (
    field "metadata" (obj (named "data"))
      (field "spec" (obj (field "volumeName" (str "pv-1") end)) end))

abbrev service_manifest : Fields
service_manifest = field "kind" (str "Service") (
    field "metadata" (obj (named "web")) (
      field "spec"
        (obj (
          field "clusterIP" (str "10.0.0.1")
            (field "ports" (arr (cons (obj (field "nodePort" (str "30000") end)) nil)) end)))
        end))

abbrev claim_template : Value
claim_template = obj (field "metadata" (obj (named "data")) end)

abbrev workload : ParsedDoc
workload = record {
  kind = "StatefulSet";
  namespace = "team";
  name = "db";
  obj = field "spec" (obj (field "volumeClaimTemplates" (arr (cons claim_template nil)) end)) end;
}

abbrev workload_spec : Fields
workload_spec = Nodes.spec_of workload

abbrev two_yaml : Yaml
two_yaml = record {
  read_docs = λ bytes. chunk "claim" ∷ chunk "# a note" ∷ chunk "service" ∷ [];
  unmarshal = λ text. decoded (if text == "claim" then claim_manifest else service_manifest);
  marshal = λ fs. "rendered";
}

abbrev two_docs : List ParsedDoc
two_docs = parsed "team" claim_manifest ∷ parsed "team" service_manifest ∷ []

parse_two : parse_api_manifests two_yaml "" "team" ≡ ok two_docs
unfolding parse_api_manifests parse_from parse_doc finish is_blank_doc is_blank_line lookup
    Text.split Text.trim_space
parse_two = refl

parse_api_manifests-IsPlanned_example : Plans two_yaml "team" (two_yaml.read_docs "") two_docs
parse_api_manifests-IsPlanned_example =
    parse_api_manifests-IsPlanned two_yaml "" "team" two_docs parse_two

strip_pvc_binding-IsFreshClaim_example :
    IsFreshClaim claim_manifest (strip_pvc_binding claim_manifest)
strip_pvc_binding-IsFreshClaim_example = strip_pvc_binding-IsFreshClaim claim_manifest

abbrev docs : List ParsedDoc
docs = workload ∷ two_docs

abbrev drops : List String
drops = "Service" ∷ []

bucket_docs-class_example :
    let r = bucket_docs two_yaml docs drops [] in
    (r.ns ≡ class two_yaml drops [] is_namespace docs)
    × (r.crds ≡ class two_yaml drops [] is_crd docs)
    × (r.pre ≡ class two_yaml drops [] is_other docs)
    × (r.work ≡ class two_yaml drops [] is_workload docs)
bucket_docs-class_example = bucket_docs-class two_yaml drops [] docs

node_for_pvc-Decides_example :
    Decides "data-db-0" docs (node_for_pvc docs "data-db-0")
    ⊎ ((node_for_pvc docs "data-db-0" ≡ "") × All (LeavesOpen "data-db-0") docs)
node_for_pvc-Decides_example = node_for_pvc-Decides docs "data-db-0"

-- The set "db" is pinned to a node.
abbrev pinned : ParsedDoc
pinned = record workload {
  obj =
      field "spec"
        (obj (
          field "volumeClaimTemplates" (arr (cons claim_template nil)) (
            field "template"
              (obj (
                field "spec"
                  (obj (
                    field "nodeSelector" (obj (field "kubernetes.io/hostname" (str "n1") end)) end))
                  end))
              end)))
        end;
}
