-- ===== src/Serialize/Namespace.antt =====
-- internal/backup/serialize.go: `SerializeNamespace`. `sort.Slice` is an insertion sort here, which
-- keeps the order of documents with equal keys, an order that Go leaves open.
use pbs_k8s_operator.Base.{
  String, Bool, true, false, not, ◌&&◌, ◌||◌, List, [], ◌∷◌, ◌++◌, if◌then◌else◌, ◌==◌,
}
use pbs_k8s_operator.Base.Text.{◌+++◌, is_empty, join, str_lt, contains_text}
use pbs_k8s_operator.Value.{Fields}
use pbs_k8s_operator.Kube.{StringMap, value_at}
use pbs_k8s_operator.JobSpec.{managed_label}
use pbs_k8s_operator.Serialize.{strip_volatile, has_verb}
use pbs_k8s_operator.Reconcile.{Answer, answer, refused, M, pure, raise, ask, need, ◌>>=◌}

pub record GroupVersion : Type 0 where
  pub group : String
  pub version : String

pub record GroupKind : Type 0 where
  pub group : String
  pub kind : String

-- metav1.APIResource and metav1.APIResourceList.
pub record ApiResource : Type 0 where
  pub name : String
  pub kind : String
  pub namespaced : Bool
  pub verbs : List String

pub record ApiResourceList : Type 0 where
  pub group_version : String
  pub resources : List ApiResource

-- The answer of the discovery; `partly` is an `ErrGroupDiscoveryFailed`.
pub data Discovered : Type 0 where
  discovered partly : List ApiResourceList → Discovered
  undiscovered : String → Discovered

-- What k8s.io/apimachinery/pkg/api/errors tells of an error.
pub data ErrorReason : Type 0 where
  not_found forbidden method_not_supported service_unavailable other : ErrorReason

pub data Listed : Type 0 where
  listed : List Fields → Listed
  list_failed : ErrorReason → String → Listed

-- The clients of the serializer, and what it uses of apimachinery and sigs.k8s.io/yaml.
pub record Serializer (W : Type 0) : Type 0 where
  pub discover : W → Discovered × W
  pub list : GroupVersion → String → String → W → Listed × W  -- the resource and the namespace
  pub parse_group_version : String → Answer GroupVersion
  pub group_kind_text : GroupKind → String  -- `GroupKind.String`
  pub labels : Fields → StringMap  -- `GetLabels`
  pub name : Fields → String  -- `GetName`
  pub marshal : Fields → Answer String

-- The local type `doc`.
pub record Doc : Type 0 where
  pub gk : String
  pub name : String
  pub obj : Fields

-- `excludedKinds`.
unfoldable pub is_excluded : GroupKind → Bool
is_excluded gk = is_one gk (
    ("", "Event")
    ∷ ("events.k8s.io", "Event")
    ∷ ("batch", "Job")
    ∷ ("pbs.sharifmind.ir", "PBSBackup")
    ∷ ("pbs.sharifmind.ir", "PBSSchedule")
    ∷ ("pbs.sharifmind.ir", "PBSRestore")
    ∷ [])
  where
    is_one : GroupKind → List (String × String) → Bool
    is_one gk [] = false
    is_one gk (k ∷ ks) = (k.0 == gk.group && k.1 == gk.kind) || is_one gk ks

-- `skippableListError`.
unfoldable pub skippable_list_error : ErrorReason → Bool
skippable_list_error not_found = true
skippable_list_error forbidden = true
skippable_list_error method_not_supported = true
skippable_list_error service_unavailable = true
skippable_list_error other = false

abbrev pub kind_in : GroupVersion → ApiResource → GroupKind
kind_in gv ar = record { group = gv.group; kind = ar.kind }

-- The test of a resource in the loop.
unfoldable pub is_skipped : GroupVersion → ApiResource → Bool
is_skipped gv ar =
    not ar.namespaced
    || contains_text ar.name "/"
    || is_excluded (kind_in gv ar)
    || not (has_verb ar.verbs "list")

-- The order of the documents.
unfoldable pub doc_lt : Doc → Doc → Bool
doc_lt a b = if not (a.gk == b.gk) then str_lt a.gk b.gk else str_lt a.name b.name

unfoldable pub insert_doc : Doc → List Doc → List Doc
insert_doc d [] = d ∷ []
insert_doc d (x ∷ xs) = let rest = insert_doc d xs in if doc_lt x d then x ∷ rest else d ∷ x ∷ xs

unfoldable pub sort_docs : List Doc → List Doc
sort_docs [] = []
sort_docs (d ∷ ds) = insert_doc d (sort_docs ds)

-- The returned string.
abbrev pub archive_text : List String → String
archive_text [] = ""
archive_text (t ∷ ts) = join "\n---\n" (t ∷ ts) +++ "\n"

-- The actions log nothing: there is no request that changes something.
module _ {W : Type 0} (api : Serializer W) where
  abbrev Act : Type 0 → Type 0
  Act A = M W ⊥ A

  -- The loop over the items of a list.
  unfoldable pub found_in : GroupKind → List Fields → List Doc
  found_in gk [] = []
  found_in gk (u ∷ us) =
      let rest = found_in gk us in
      if is_empty (value_at managed_label (api.labels u))
      then record { gk = api.group_kind_text gk; name = api.name u; obj = u } ∷ rest
      else rest

  -- The switch on the error of a `List`.
  abbrev pub on_listed :
      Listed → GroupKind → List Doc → (List Doc → Act (List Doc)) → Act (List Doc)
  on_listed (listed us) gk found k = k (found ++ found_in gk us)
  on_listed (list_failed reason e) gk found k =
      if skippable_list_error reason then k found else raise e

  -- The loop over the resources of a group.
  unfoldable pub list_resources :
      String → GroupVersion → List ApiResource → List Doc → Act (List Doc)
  list_resources ns gv [] found = pure found
  list_resources ns gv (ar ∷ ars) found =
      if is_skipped gv ar then list_resources ns gv ars found else do
        items ← ask (api.list gv ar.name ns)
        on_listed items (kind_in gv ar) found (list_resources ns gv ars)

  -- The loop over the groups.
  unfoldable pub list_groups : String → List ApiResourceList → List Doc → Act (List Doc)
  list_groups ns [] found = pure found
  list_groups ns (l ∷ ls) found = do
    gv ← need (api.parse_group_version l.group_version)
    more ← list_resources ns gv l.resources found
    list_groups ns ls more

  abbrev pub and_text : Answer String → Answer (List String) → Answer (List String)
  and_text (refused e) rest = refused e
  and_text (answer t) (refused e) = refused e
  and_text (answer t) (answer ts) = answer (t ∷ ts)

  -- The loop over the documents.
  unfoldable pub render : List Doc → Answer (List String)
  render [] = answer []
  render (d ∷ ds) = and_text (api.marshal (strip_volatile d.obj)) (render ds)

  abbrev pub on_discovered : Discovered → (List ApiResourceList → Act String) → Act String
  on_discovered (discovered ls) k = k ls
  on_discovered (partly ls) k = k ls
  on_discovered (undiscovered e) k = raise e

  -- `SerializeNamespace`.
  unfoldable pub serialize_namespace : String → Act String
  serialize_namespace ns = do
    d ← ask api.discover
    on_discovered d λ lists. do
      found ← list_groups ns lists []
      texts ← need (render (sort_docs found))
      pure (archive_text texts)
