-- ===== src/Serialize.antt =====
-- internal/backup/serialize.go: what the serializer takes out of an object, and `hasVerb`.
pub mod Laws
pub mod Namespace
pub mod Collect
pub mod Archive
use pbs_k8s_operator.Base.{
  String, Bool, true, false, ◌&&◌, ◌||◌, List, [], ◌∷◌, ◌==◌, if◌then◌else◌,
}
use pbs_k8s_operator.Value.{Fields, lookup, delete, update_map, as_map, is_map, is_end}
use pbs_k8s_operator.RestorePlan.Clean.{delete_all}

abbrev pub last_applied_annotation : String
last_applied_annotation = "kubectl.kubernetes.io/last-applied-configuration"

abbrev pub volatile_metadata : List String
volatile_metadata =
    "uid" ∷ "resourceVersion" ∷ "creationTimestamp" ∷ "generation" ∷ "managedFields" ∷ []

-- The changes of the annotations of `meta`, which go when nothing is left of them.
unfoldable pub strip_last_applied : Fields → Fields
strip_last_applied meta =
    let stripped = update_map "annotations" (delete last_applied_annotation) meta in
    if is_map (lookup "annotations" meta) && is_end (as_map (lookup "annotations" stripped))
    then delete "annotations" stripped
    else stripped

unfoldable pub strip_metadata : Fields → Fields
strip_metadata meta = strip_last_applied (delete_all volatile_metadata meta)

-- `stripVolatile`.
unfoldable pub strip_volatile : Fields → Fields
strip_volatile obj = update_map "metadata" strip_metadata (delete "status" obj)

-- The loop of `hasVerb`.
unfoldable pub has_verb : List String → String → Bool
has_verb [] verb = false
has_verb (v ∷ verbs) verb =
    let rest = has_verb verbs verb in if v == verb || v == "*" then true else rest
