-- ===== src/RestorePlan/Parse.antt =====
-- internal/backup/restore_plan.go: `ParseAPIManifests`. The YAML libraries are a parameter.
use pbs_k8s_operator.Base.{
  ℕ, suc, String, Bool, not, ◌&&◌, ◌||◌, List, [], ◌∷◌, ◌==◌, if◌then◌else◌, ltb, contains, all,
}
use Prim.Native.String.{len, slice}
use text.Mathlib.Text.{starts_with}
use pbs_k8s_operator.Base.Text.{◌+++◌, trim_space, split, before_newline}
use pbs_k8s_operator.Value.{
  Fields, end, field, lookup, put, update_map, as_map, as_string, is_map, str, obj,
}
use pbs_k8s_operator.RestorePlan.Clean.{strip_pvc_binding, strip_service_allocations}

-- One result of the YAML reader; the end of a list of them is `io.EOF`.
pub data Chunk : Type 0 where
  chunk : String → Chunk
  read_error : String → Chunk

pub data Decoded : Type 0 where
  decoded : Fields → Decoded
  bad_yaml : String → Decoded

-- k8s.io/apimachinery/pkg/util/yaml and sigs.k8s.io/yaml: `marshal` has the empty text where
-- `yaml.Marshal` fails.
pub record Yaml : Type 0 where
  pub read_docs : String → List Chunk
  pub unmarshal : String → Decoded
  pub marshal : Fields → String

pub record ParsedDoc : Type 0 where
  pub kind : String
  pub namespace : String
  pub name : String
  pub obj : Fields

-- The errors, each with the index and, where the code prints one, the snippet of its document.
pub data ParseError : Type 0 where
  cannot_read : ℕ → String → ParseError
  cannot_decode : ℕ → String → String → ParseError
  missing_kind_or_name : ℕ → String → ParseError

pub data Result (A : Type 0) : Type 0 where
  ok : A → Result A
  err : ParseError → Result A

-- `append` of the loop, where neither this document nor a later one fails.
abbrev pub prepend : Result ParsedDoc → Result (List ParsedDoc) → Result (List ParsedDoc)
prepend (err problem) later = err problem
prepend (ok d) (err problem) = err problem
prepend (ok d) (ok ds) = ok (d ∷ ds)

abbrev pub cluster_scoped_kinds : List String
cluster_scoped_kinds = "Namespace" ∷ "CustomResourceDefinition" ∷ []

-- A line that carries no manifest: blank, a separator or a comment.
unfoldable pub is_blank_line : String → Bool
is_blank_line line = let l = trim_space line in l == "" || starts_with l "---" || starts_with l "#"

unfoldable pub is_blank_doc : String → Bool
unfolding is_blank_line
is_blank_doc raw = all is_blank_line (split b'\n' raw)

unfoldable pub first_snippet : String → String
first_snippet raw =
    let s = before_newline (trim_space raw) in if ltb 60 (len s) then slice s 0 60 +++ "..." else s

-- The rewrite of `metadata.namespace`.
unfoldable pub set_namespace : String → Fields → Fields
set_namespace target fs =
    if is_map (lookup "metadata" fs)
    then update_map "metadata" (put "namespace" (str target)) fs
    else put "metadata" (obj (field "namespace" (str target) end)) fs

unfoldable pub rewrite_namespace : String → String → Fields → Fields
rewrite_namespace target kind fs =
    if not (target == "") && not (contains cluster_scoped_kinds kind)
    then set_namespace target fs
    else fs

-- The `switch kind`.
unfoldable pub clean : String → Fields → Fields
clean kind fs =
    if kind == "Service"
    then strip_service_allocations fs
    else if kind == "PersistentVolumeClaim"
    then strip_pvc_binding fs
    else fs

abbrev pub kind_of : Fields → String
kind_of fs = as_string (lookup "kind" fs)

abbrev pub meta_of : Fields → Fields
meta_of fs = as_map (lookup "metadata" fs)

abbrev pub name_of : Fields → String
name_of fs = as_string (lookup "name" (meta_of fs))

-- The document that the loop appends.
unfoldable pub parsed : String → Fields → ParsedDoc
parsed target fs =
    let kind = kind_of fs in
    let out = clean kind (rewrite_namespace target kind fs) in
    record {
      kind = kind;
      namespace = as_string (lookup "namespace" (meta_of out));
      name = name_of fs;
      obj = out;
    }

-- The body of the loop from the decoded document on.
unfoldable pub finish : String → ℕ → String → Fields → Result ParsedDoc
finish target i text fs =
    if kind_of fs == "" || name_of fs == ""
    then err (missing_kind_or_name i (first_snippet text))
    else ok (parsed target fs)

-- The body of the loop for a document that is not blank.
unfoldable pub parse_doc : Yaml → String → ℕ → String → Result ParsedDoc
parse_doc y target i text = elim (y.unmarshal text) [
  | bad_yaml e ↦ err (cannot_decode i (first_snippet text) e)
  | decoded fs ↦ finish target i text fs
]

-- The loop from document `i` on.
unfoldable pub parse_from : Yaml → String → ℕ → List Chunk → Result (List ParsedDoc)
parse_from y target i [] = ok []
parse_from y target i (read_error e ∷ cs) = err (cannot_read i e)
parse_from y target i (chunk text ∷ cs) =
    let rest = parse_from y target (suc i) cs in
    if is_blank_doc text then rest else prepend (parse_doc y target i text) rest

unfoldable pub parse_api_manifests : Yaml → String → String → Result (List ParsedDoc)
unfolding parse_from
parse_api_manifests y bytes target = parse_from y target 0 (y.read_docs bytes)
