-- ===== src/RestorePlan/Clean.antt =====
-- internal/backup/restore_plan.go: `stripPVCBinding` and `stripServiceAllocations`, which take the
-- source cluster's allocations out of a document.
use pbs_k8s_operator.Base.{String, List, [], ◌∷◌, if◌then◌else◌}
use pbs_k8s_operator.Value.{
  Fields, delete, lookup, update, update_map, on_map, on_list, as_map, is_end,
}

abbrev pub pvc_bind_annotations : List String
pvc_bind_annotations =
    "pv.kubernetes.io/bind-completed" ∷ "pv.kubernetes.io/bound-by-controller"
    ∷ "volume.kubernetes.io/selected-node" ∷ []

-- `for _, k := range keys { delete(m, k) }`.
unfoldable pub delete_all : List String → Fields → Fields
delete_all [] fs = fs
delete_all (k ∷ ks) fs = delete_all ks (delete k fs)

-- The changes of `meta`: the annotations lose the bind keys, and go when nothing is left of them.
unfoldable pub strip_annotations : Fields → Fields
strip_annotations meta =
    let stripped = update_map "annotations" (delete_all pvc_bind_annotations) meta in
    if is_end (as_map (lookup "annotations" stripped))
    then delete "annotations" stripped
    else stripped

unfoldable pub strip_pvc_binding : Fields → Fields
strip_pvc_binding obj =
    update_map "metadata" strip_annotations (update_map "spec" (delete "volumeName") obj)

abbrev pub service_allocations : List String
service_allocations = "clusterIP" ∷ "clusterIPs" ∷ "loadBalancerIP" ∷ "healthCheckNodePort" ∷ []

-- The changes of `spec`: four keys go, and each port loses its node port.
unfoldable pub strip_spec : Fields → Fields
strip_spec spec =
    update "ports" (on_list (on_map (delete "nodePort"))) (delete_all service_allocations spec)

unfoldable pub strip_service_allocations : Fields → Fields
strip_service_allocations obj = update_map "spec" strip_spec obj
