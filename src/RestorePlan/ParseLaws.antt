-- ===== src/RestorePlan/ParseLaws.antt =====
-- What holds of every document that `ParseAPIManifests` returns.
use mathlib.Core.Path.{subst}
use pbs_k8s_operator.Base.{
  ℕ, suc, String, true, false, none, List, [], ◌∷◌, ◌≡◌, ◌≢◌, refl, ap, ◌∙◌, ◌==◌, eq_iff,
  if◌then◌else◌, arith, contains, Bool-cases, inl, inr, ◌⊎◌,
}
use pbs_k8s_operator.Value.{Fields, end, field, lookup, put, on_map, as_string, is_map, str, obj}
use pbs_k8s_operator.Value.Laws.{lookup-update, lookup-update_ne, lookup-put}
use pbs_k8s_operator.RestorePlan.CleanLaws.{
  spec_of, strip_pvc_binding-IsFreshClaim, strip_service_allocations-IsFreshService,
}
use pbs_k8s_operator.RestorePlan.Parse.{
  Chunk, chunk, read_error, Decoded, decoded, bad_yaml, Yaml, ParsedDoc, Result, ok, err, prepend,
  cluster_scoped_kinds, is_blank_doc, kind_of, meta_of, parsed, name_of, finish, parse_doc,
  parse_from, parse_api_manifests, set_namespace, rewrite_namespace, clean,
}

-- What a document that was decoded from `fs` guarantees to the steps after it.
pub record IsPlanned (target : String) (fs : Fields) (d : ParsedDoc) : Type 0 where
  pub kind_read : d.kind ≡ kind_of fs
  pub name_read : d.name ≡ name_of fs
  pub has_kind : d.kind ≢ ""
  pub has_name : d.name ≢ ""
  pub kind_written : kind_of d.obj ≡ d.kind
  pub name_written : as_string (lookup "name" (meta_of d.obj)) ≡ d.name
  pub namespace_written : as_string (lookup "namespace" (meta_of d.obj)) ≡ d.namespace
  pub retargeted : target ≢ "" → contains cluster_scoped_kinds d.kind ≡ false → d.namespace ≡ target
  pub in_place :
      (target ≡ "") ⊎ (contains cluster_scoped_kinds d.kind ≡ true)
      → d.namespace ≡ as_string (lookup "namespace" (meta_of fs))
  pub unbound : d.kind ≡ "PersistentVolumeClaim" → lookup "volumeName" (spec_of d.obj) ≡ none
  pub others :
      (j : String)
      → ("spec" == j) ≡ false
      → ("metadata" == j) ≡ false
      → lookup j d.obj ≡ lookup j fs
  pub spec_kept :
      d.kind ≢ "Service" → d.kind ≢ "PersistentVolumeClaim" → lookup "spec" d.obj ≡ lookup "spec" fs

-- The change of the namespace keeps every key but the metadata, and of these the name.
others-rewrite_namespace :
    (t k j : String) (fs : Fields)
    → ("metadata" == j) ≡ false
    → lookup j (rewrite_namespace t k fs) ≡ lookup j fs
unfolding rewrite_namespace set_namespace
others-rewrite_namespace t k j fs ne = ground (
  arith,
  lookup-update_ne "metadata" j (on_map (put "namespace" (str t))) fs ne,
  lookup-put "metadata" j (obj (field "namespace" (str t) end)) fs,
)

as_map-set_namespace :
    (t : String) (fs : Fields)
    → meta_of (set_namespace t fs) ≡ (
        if is_map (lookup "metadata" fs)
        then put "namespace" (str t) (meta_of fs)
        else field "namespace" (str t) end)
unfolding set_namespace
as_map-set_namespace t fs = ground (
  arith,
  lookup-update "metadata" "metadata" (on_map (put "namespace" (str t))) fs,
  lookup-put "metadata" "metadata" (obj (field "namespace" (str t) end)) fs,
)

namespace-set_namespace :
    (t : String) (fs : Fields) → as_string (lookup "namespace" (meta_of (set_namespace t fs))) ≡ t
unfolding lookup
namespace-set_namespace t fs =
    rw (as_map-set_namespace t fs)
      (ground (arith, lookup-put "namespace" "namespace" (str t) (meta_of fs)))

-- A document whose metadata is no map has no name, so it never comes this far.
name-rewrite_namespace :
    (t k : String) (fs : Fields)
    → as_string (lookup "name" (meta_of fs)) ≢ ""
    → lookup "name" (meta_of (rewrite_namespace t k fs)) ≡ lookup "name" (meta_of fs)
unfolding rewrite_namespace lookup
name-rewrite_namespace t k fs h =
    ground (arith, as_map-set_namespace t fs, lookup-put "namespace" "name" (str t) (meta_of fs))

-- The strips keep the kind, the name and the namespace.
others-clean :
    (k j : String) (fs : Fields)
    → ("spec" == j) ≡ false
    → ("metadata" == j) ≡ false
    → lookup j (clean k fs) ≡ lookup j fs
unfolding clean
others-clean k j fs ns nm = ground (
  arith,
  (strip_service_allocations-IsFreshService fs).others j ns,
  (strip_pvc_binding-IsFreshClaim fs).others j ns nm,
)

clean_of_other_kind :
    (k : String) (fs : Fields) → k ≢ "Service" → k ≢ "PersistentVolumeClaim" → clean k fs ≡ fs
unfolding clean
clean_of_other_kind k fs hs hp =
    ground (arith, eq_iff k "Service", eq_iff k "PersistentVolumeClaim")

meta-clean :
    (k j : String) (fs : Fields)
    → ("annotations" == j) ≡ false
    → lookup j (meta_of (clean k fs)) ≡ lookup j (meta_of fs)
unfolding clean
meta-clean k j fs ne = ground (
  arith,
  (strip_service_allocations-IsFreshService fs).others "metadata" refl,
  (strip_pvc_binding-IsFreshClaim fs).metadata j ne,
)

retarget-clean :
    (t k : String) (fs : Fields)
    → t ≢ ""
    → contains cluster_scoped_kinds k ≡ false
    → as_string (lookup "namespace" (meta_of (clean k (rewrite_namespace t k fs)))) ≡ t
unfolding rewrite_namespace
retarget-clean t k fs ht hk = ground (
  arith,
  eq_iff t "",
  meta-clean k "namespace" (rewrite_namespace t k fs) refl,
  namespace-set_namespace t fs,
)

left_alone :
    (t k : String) (fs : Fields)
    → (t ≡ "") ⊎ (contains cluster_scoped_kinds k ≡ true)
    → rewrite_namespace t k fs ≡ fs
unfolding rewrite_namespace
left_alone t k fs h = ground (arith, eq_iff t "")

in_place-clean :
    (t k : String) (fs : Fields)
    → (t ≡ "") ⊎ (contains cluster_scoped_kinds k ≡ true)
    → as_string (lookup "namespace" (meta_of (clean k (rewrite_namespace t k fs))))
      ≡ as_string (lookup "namespace" (meta_of fs))
in_place-clean t k fs h = ap as_string (
    meta-clean k "namespace" (rewrite_namespace t k fs) refl
    ∙ ap (λ (gs : Fields). lookup "namespace" (meta_of gs)) (left_alone t k fs h))

unbound-clean :
    (k : String) (fs : Fields)
    → k ≡ "PersistentVolumeClaim"
    → lookup "volumeName" (spec_of (clean k fs)) ≡ none
unfolding clean
unbound-clean k fs h = rw h ((strip_pvc_binding-IsFreshClaim fs).spec "volumeName")

parsed-IsPlanned :
    (target : String) (fs : Fields)
    → kind_of fs ≢ ""
    → name_of fs ≢ ""
    → IsPlanned target fs (parsed target fs)
unfolding parsed
parsed-IsPlanned target fs hk hn =
    let k = kind_of fs in
    let moved = rewrite_namespace target k fs in
    let kept : (j : String)
        → ("spec" == j) ≡ false
        → ("metadata" == j) ≡ false
        → lookup j (clean k moved) ≡ lookup j fs =
      λ j ns nm. others-clean k j moved ns nm ∙ others-rewrite_namespace target k j fs nm in
    record {
      kind_read = refl;
      name_read = refl;
      has_kind = hk;
      has_name = hn;
      kind_written = ap as_string (kept "kind" refl refl);
      name_written =
          ap as_string (meta-clean k "name" moved refl ∙ name-rewrite_namespace target k fs hn);
      namespace_written = refl;
      retargeted = λ ht hc. retarget-clean target k fs ht hc;
      in_place = λ h. in_place-clean target k fs h;
      unbound = λ h. unbound-clean k moved h;
      others = kept;
      spec_kept = λ hs hp.
          ap (lookup "spec") (clean_of_other_kind k moved hs hp)
          ∙ others-rewrite_namespace target k "spec" fs refl;
    }

finish-eq-ok :
    (target : String) (i : ℕ) (text : String) (fs : Fields) (d : ParsedDoc)
    → finish target i text fs ≡ ok d
    → (kind_of fs ≢ "") × (name_of fs ≢ "") × (parsed target fs ≡ d)
unfolding finish
finish-eq-ok target i text fs d e = ground (arith, eq_iff (kind_of fs) "", eq_iff (name_of fs) "")

parse_doc-IsPlanned :
    (y : Yaml) (target : String) (i : ℕ) (text : String) (d : ParsedDoc)
    → parse_doc y target i text ≡ ok d
    → (fs : Fields) × (y.unmarshal text ≡ decoded fs) × IsPlanned target fs d
unfolding parse_doc
parse_doc-IsPlanned y target i text d e = go (y.unmarshal text) refl
  where
    go :
        (r : Decoded)
        → y.unmarshal text ≡ r
        → (fs : Fields) × (y.unmarshal text ≡ decoded fs) × IsPlanned target fs d
    go (bad_yaml x) p = cc (rw (p, parse_doc) at e)
    go (decoded fs) p =
        let (hk, hn, same) = finish-eq-ok target i text fs d (rw (p, parse_doc) at e) in
        (fs, p, rw (← same) (parsed-IsPlanned target fs hk hn))

-- The documents of an input, one for each of its manifests that is not blank, in their order.
pub data Plans (y : Yaml) (target : String) : List Chunk → List ParsedDoc → Type 0 where
  no_more : Plans y target [] []
  blank :
      (text : String) (cs : List Chunk) (ds : List ParsedDoc)
      → is_blank_doc text ≡ true
      → Plans y target cs ds
      → Plans y target (chunk text ∷ cs) ds
  manifest :
      (text : String) (fs : Fields) (d : ParsedDoc) (cs : List Chunk) (ds : List ParsedDoc)
      → is_blank_doc text ≡ false
      → y.unmarshal text ≡ decoded fs
      → IsPlanned target fs d
      → Plans y target cs ds
      → Plans y target (chunk text ∷ cs) (d ∷ ds)

prepend-ok :
    (r : Result ParsedDoc) (later : Result (List ParsedDoc)) (docs : List ParsedDoc)
    → prepend r later ≡ ok docs
    → (d : ParsedDoc) × (ds : List ParsedDoc) × (r ≡ ok d) × (later ≡ ok ds) × (d ∷ ds ≡ docs)
prepend-ok (err problem) later docs e = cc
prepend-ok (ok d) (err problem) docs e = cc
prepend-ok (ok d) (ok ds) docs e = (d, ds, refl, refl, cc)

ok-injective : {A : Type 0} {a b : A} → ok a ≡ ok b → a ≡ b
ok-injective h = cc

parse_from-Plans :
    (y : Yaml) (target : String) (i : ℕ) (cs : List Chunk) (docs : List ParsedDoc)
    → parse_from y target i cs ≡ ok docs
    → Plans y target cs docs
unfolding parse_from
parse_from-Plans y target i [] docs e = rw (← ok-injective {a = []} e) no_more
parse_from-Plans y target i (read_error x ∷ cs) docs e = cc
parse_from-Plans y target i (chunk text ∷ cs) docs e = elim (Bool-cases (is_blank_doc text)) [
  | inl b ↦ blank text cs docs b (parse_from-Plans y target (suc i) cs docs (rw b at e))
  | inr m ↦
      let (d, ds, first, later, same) =
        prepend-ok (parse_doc y target i text) (parse_from y target (suc i) cs) docs (rw m at e) in
      let (fs, read, planned) = parse_doc-IsPlanned y target i text d first in
      subst (λ (docs : List ParsedDoc). Plans y target (chunk text ∷ cs) docs) same
        (manifest text fs d cs ds m read planned (parse_from-Plans y target (suc i) cs ds later))
]

-- Where the parse succeeds, it returns one document for each manifest of the input that is not
-- blank, in their order, and the manifest can be decoded. The document has a kind and a name, those of
-- the manifest, which its object has too. Its namespace, which its object has too, is the target, if
-- one is given and the kind is not cluster-scoped, and else that of the manifest; a claim names no
-- volume; and the object keeps every other key of the manifest but its metadata, and its spec too
-- unless it is a Service or a claim.
pub parse_api_manifests-IsPlanned :
    (y : Yaml) (bytes target : String) (docs : List ParsedDoc)
    → parse_api_manifests y bytes target ≡ ok docs
    → Plans y target (y.read_docs bytes) docs
unfolding parse_api_manifests
parse_api_manifests-IsPlanned y bytes target docs e =
    parse_from-Plans y target 0 (y.read_docs bytes) docs e
