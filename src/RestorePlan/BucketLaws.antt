-- ===== src/RestorePlan/BucketLaws.antt =====
-- The buckets split the documents that are not dropped, in source order.
use mathlib.Core.List.{append_assoc, append-nil}
use pbs_k8s_operator.Base.{
  String, Bool, true, false, not, ◌&&◌, List, [], ◌∷◌, ◌++◌, map, ◌≡◌, refl, ap, sym, ◌∙◌, ◌==◌,
  eq_iff, if◌then◌else◌, arith, contains, Bool-cases, inl, inr, select, ◌⊎◌, ◌↔◌, length, ◌+◌,
}
use pbs_k8s_operator.RestorePlan.Parse.{Yaml, ParsedDoc}
use pbs_k8s_operator.RestorePlan.Buckets.{
  PlannedDoc, Buckets, workload_kinds, dropped_kinds, is_dropped, planned, place, bucket_from,
  bucket_docs, pvcs_from_docs,
}

abbrev pub is_namespace : ParsedDoc → Bool
is_namespace d = d.kind == "Namespace"

abbrev pub is_crd : ParsedDoc → Bool
is_crd d = d.kind == "CustomResourceDefinition"

abbrev pub is_workload : ParsedDoc → Bool
is_workload d = contains workload_kinds d.kind

abbrev pub is_other : ParsedDoc → Bool
is_other d = not (is_namespace d) && not (is_crd d) && not (is_workload d)

-- The three tests of the switch exclude one another.
namespace_excludes :
    (k : String)
    → (k == "Namespace") ≡ true
    → ((k == "CustomResourceDefinition") ≡ false) × (contains workload_kinds k ≡ false)
unfolding contains
namespace_excludes k h = rw ((eq_iff k "Namespace").0 h) (refl, refl)

crd_excludes :
    (k : String)
    → (k == "CustomResourceDefinition") ≡ true
    → ((k == "Namespace") ≡ false) × (contains workload_kinds k ≡ false)
unfolding contains
crd_excludes k h = rw ((eq_iff k "CustomResourceDefinition").0 h) (refl, refl)

module _ (y : Yaml) (drop keep : List String) where
  abbrev pub survives : ParsedDoc → Bool
  survives d = not (is_dropped drop keep d)

  -- The documents of one class that are not dropped, rendered, in source order.
  abbrev pub class : (ParsedDoc → Bool) → List ParsedDoc → List PlannedDoc
  class p docs = map (planned y) (select (λ d. survives d && p d) docs)

  class-cons :
      (p : ParsedDoc → Bool) (d : ParsedDoc) (ds : List ParsedDoc)
      → class p (d ∷ ds) ≡ class p (d ∷ []) ++ class p ds
  class-cons p d ds = elim (Bool-cases (survives d && p d)) [ inl e ↦ rw e | inr e ↦ rw e ]

  abbrev AreClasses : Buckets → Buckets → List ParsedDoc → Type 0
  AreClasses b r docs =
      (r.ns ≡ b.ns ++ class is_namespace docs)
      × (r.crds ≡ b.crds ++ class is_crd docs)
      × (r.pre ≡ b.pre ++ class is_other docs)
      × (r.work ≡ b.work ++ class is_workload docs)

  step-AreClasses :
      (b : Buckets) (d : ParsedDoc)
      → AreClasses b (if is_dropped drop keep d then b else place y d b) (d ∷ [])
  unfolding place
  step-AreClasses b d = ground (
    arith,
    namespace_excludes d.kind,
    crd_excludes d.kind,
    append-nil b.ns,
    append-nil b.crds,
    append-nil b.pre,
    append-nil b.work,
  )

  push :
      (p : ParsedDoc → Bool) (d : ParsedDoc) (ds : List ParsedDoc) (b s r : List PlannedDoc)
      → s ≡ b ++ class p (d ∷ [])
      → r ≡ s ++ class p ds
      → r ≡ b ++ class p (d ∷ ds)
  push p d ds b s r e f =
      f
      ∙ ap (λ (l : List PlannedDoc). l ++ class p ds) e
      ∙ append_assoc b (class p (d ∷ [])) (class p ds)
      ∙ ap (λ (l : List PlannedDoc). b ++ l) (sym (class-cons p d ds))

  bucket_from-AreClasses :
      (b : Buckets) (docs : List ParsedDoc) → AreClasses b (bucket_from y drop keep b docs) docs
  unfolding bucket_from
  bucket_from-AreClasses b [] = (
    sym (append-nil b.ns),
    sym (append-nil b.crds),
    sym (append-nil b.pre),
    sym (append-nil b.work),
  )
  bucket_from-AreClasses b (d ∷ ds) =
      let s : Buckets = if is_dropped drop keep d then b else place y d b in
      let (n, c, p, w) = step-AreClasses b d in
      let (n', c', p', w') = bucket_from-AreClasses s ds in
      (
        push is_namespace d ds b.ns s.ns _ n n',
        push is_crd d ds b.crds s.crds _ c c',
        push is_other d ds b.pre s.pre _ p p',
        push is_workload d ds b.work s.work _ w w',
      )

  -- Each bucket holds the documents of its class that are not dropped, rendered, in the order of
  -- the source: the Namespace documents, the custom resource definitions, the workloads, and in the
  -- pre-volume bucket all others.
  pub bucket_docs-class :
      (docs : List ParsedDoc)
      → let r = bucket_docs y docs drop keep in
        (r.ns ≡ class is_namespace docs)
        × (r.crds ≡ class is_crd docs)
        × (r.pre ≡ class is_other docs)
        × (r.work ≡ class is_workload docs)
  unfolding bucket_docs
  bucket_docs-class docs =
      bucket_from-AreClasses (record { ns = []; crds = []; pre = []; work = [] }) docs

  length-class :
      (docs : List ParsedDoc)
      → length (class is_namespace docs)
          + length (class is_crd docs)
          + length (class is_other docs)
          + length (class is_workload docs)
        ≡ length (select survives docs)
  length-class [] = refl
  length-class (d ∷ ds) =
      ground (arith, length-class ds, namespace_excludes d.kind, crd_excludes d.kind)

-- A kind that is always dropped, or that is listed to drop and not to keep, is in no bucket; any
-- other kind is not dropped, so that keeping wins over dropping, and a keep list alone drops nothing.
survives_iff :
    (drop keep : List String) (d : ParsedDoc)
    → (is_dropped drop keep d ≡ false) ↔ (
        (contains dropped_kinds d.kind ≡ false)
        × ((contains drop d.kind ≡ false) ⊎ (contains keep d.kind ≡ true)))
unfolding is_dropped
survives_iff drop keep d = ground arith

claim_excludes :
    (k : String)
    → (k == "PersistentVolumeClaim") ≡ true
    → ((k == "Namespace") ≡ false)
      × ((k == "CustomResourceDefinition") ≡ false)
      × (contains workload_kinds k ≡ false)
unfolding contains
claim_excludes k h = rw ((eq_iff k "PersistentVolumeClaim").0 h) (refl, refl, refl)

names-class :
    (y : Yaml) (drop keep : List String) (docs : List ParsedDoc)
    → pvcs_from_docs (class y drop keep is_other docs)
      ≡ map
          (λ d. d.name)
          (select (λ d. survives y drop keep d && d.kind == "PersistentVolumeClaim") docs)
unfolding pvcs_from_docs planned
names-class y drop keep [] = refl
names-class y drop keep (d ∷ ds) = ground (arith, names-class y drop keep ds, claim_excludes d.kind)

-- The claims to restore are all the claims among the documents that are not dropped, in order.
pvcs_from_docs-bucket_docs :
    (y : Yaml) (docs : List ParsedDoc) (drop keep : List String)
    → pvcs_from_docs (bucket_docs y docs drop keep).pre
      ≡ map
          (λ d. d.name)
          (select (λ d. survives y drop keep d && d.kind == "PersistentVolumeClaim") docs)
pvcs_from_docs-bucket_docs y docs drop keep =
    ap pvcs_from_docs (bucket_docs-class y drop keep docs).2 ∙ names-class y drop keep docs

-- No document is lost and none is applied twice: the buckets together are as long as the list of
-- the documents that are not dropped.
pub length-bucket_docs :
    (y : Yaml) (docs : List ParsedDoc) (drop keep : List String)
    → let r = bucket_docs y docs drop keep in
      length r.ns + length r.crds + length r.pre + length r.work
      ≡ length (select (survives y drop keep) docs)
length-bucket_docs y docs drop keep =
    let (n, c, p, w) = bucket_docs-class y drop keep docs in
    rw (n, c, p, w) (length-class y drop keep docs)
