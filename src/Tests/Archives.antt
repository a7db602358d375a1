-- ===== src/Tests/Archives.antt =====
-- A run of the serializer: one of two secrets is the operator's own, and events are not archived.
use pbs_k8s_operator.Base.{String, ℕ, true, [], ◌∷◌, ◌≡◌, refl, if◌then◌else◌, ◌==◌}
use pbs_k8s_operator.Value.{Fields, end, field, str, lookup, as_string, delete, update}
use pbs_k8s_operator.Base.Text.{contains_text, join}
use pbs_k8s_operator.Kube.{value_at}
use pbs_k8s_operator.RestorePlan.Clean.{delete_all}
use pbs_k8s_operator.Serialize.{has_verb, strip_last_applied, strip_metadata, strip_volatile}
use pbs_k8s_operator.JobSpec.{managed_label}
use pbs_k8s_operator.Reconcile.{answer, ok, ◌>>=◌, need, ask, pure, raise}
use pbs_k8s_operator.Reconcile.Returns.{Returns}
use pbs_k8s_operator.Serialize.Namespace.{
  ApiResource, Serializer, discovered, listed, list_failed, forbidden, serialize_namespace,
  list_groups, list_resources, is_skipped, is_excluded, skippable_list_error, render, sort_docs,
  found_in, insert_doc, doc_lt,
}
use pbs_k8s_operator.Serialize.Archive.{IsArchive, serialize_namespace-IsArchive}

abbrev named : String → Fields
named s = field "name" (str s) end

abbrev resource : String → String → ApiResource
resource name kind = record { name = name; kind = kind; namespaced = true; verbs = "list" ∷ [] }

abbrev cluster : Serializer ℕ
cluster = record {
  discover = λ w. (
    discovered (
        record {
          group_version = "v1";
          resources =
              resource "secrets" "Secret" ∷ resource "events" "Event" ∷ resource "pods" "Pod" ∷ [];
        }
        ∷ []),
    w,
  );
  list = λ gv name ns w. (
    if name == "pods"
        then list_failed forbidden "forbidden"
        else listed (named "z" ∷ named "ours" ∷ named "a" ∷ []),
    w,
  );
  parse_group_version = λ s. answer (record { group = ""; version = s });
  group_kind_text = λ gk. gk.kind;
  labels = λ u. if as_string (lookup "name" u) == "ours" then (managed_label, "true") ∷ [] else [];
  name = λ u. as_string (lookup "name" u);
  marshal = λ u. answer (as_string (lookup "name" u));
}

team_archive :
    (serialize_namespace cluster "team" (record { world = 0; log = [] })).0 ≡ ok "a\n---\nz\n"
unfolding serialize_namespace ◌>>=◌ list_groups need list_resources is_skipped contains_text
    is_excluded has_verb skippable_list_error render sort_docs found_in value_at lookup insert_doc
    doc_lt join ask pure raise delete_all strip_last_applied strip_metadata strip_volatile delete
    update
team_archive = refl

serialize_namespace-IsArchive_example :
    Returns (IsArchive cluster "team") (serialize_namespace cluster "team")
serialize_namespace-IsArchive_example = serialize_namespace-IsArchive cluster "team"
