-- ===== src/RestorePlan/CleanLaws.antt =====
-- What a stripped claim and a stripped service still hold.
use mathlib.Core.Option
use pbs_k8s_operator.Base.{
  String, true, false, none, List, [], ◌∷◌, ◌≡◌, refl, ap, sym, ◌∙◌, ◌==◌, if◌then◌else◌, arith,
  contains, Bool-cases, inl, inr,
}
use pbs_k8s_operator.Value.{
  Value, Fields, end, field, lookup, delete, update, update_map, on_map, on_list, map_items, as_map,
  as_list, is_end,
}
use pbs_k8s_operator.Value.Laws.{
  lookup-delete, lookup-update, lookup-update_ne, lookup-delete_ne, as_map-update_map,
  lookup-delete_self,
}
use pbs_k8s_operator.RestorePlan.Clean.{
  pvc_bind_annotations, delete_all, strip_annotations, strip_pvc_binding, service_allocations,
  strip_spec, strip_service_allocations,
}

pub lookup-delete_all :
    (ks : List String) (j : String) (fs : Fields)
    → lookup j (delete_all ks fs) ≡ (if contains ks j then none else lookup j fs)
unfolding delete_all contains
lookup-delete_all [] j fs = refl
lookup-delete_all (k ∷ ks) j fs =
    ground (arith, lookup-delete_all ks j (delete k fs), lookup-delete k j fs)

-- Nothing is deleted from the nil map.
pub delete_all-end : (ks : List String) → delete_all ks end ≡ end
unfolding delete_all delete
delete_all-end [] = refl
delete_all-end (k ∷ ks) = delete_all-end ks

pub is_end_iff : (fs : Fields) → is_end fs ≡ true → fs ≡ end
is_end_iff end h = refl
is_end_iff (field k v fs) h = cc

-- The annotations of a claim after the strip.
annotations-strip_annotations :
    (meta : Fields) (j : String)
    → lookup j (as_map (lookup "annotations" (strip_annotations meta))) ≡ (
        if contains pvc_bind_annotations j
        then none
        else lookup j (as_map (lookup "annotations" meta)))
unfolding strip_annotations lookup
annotations-strip_annotations meta j =
    let stripped : Fields = update_map "annotations" (delete_all pvc_bind_annotations) meta in
    let e =
      as_map-update_map "annotations" (delete_all pvc_bind_annotations) meta
        (delete_all-end pvc_bind_annotations) in
    let l = lookup-delete_all pvc_bind_annotations j (as_map (lookup "annotations" meta)) in
    elim (Bool-cases (is_end (as_map (lookup "annotations" stripped)))) [
      | inl gone ↦
          rw (gone, lookup-delete_self "annotations" stripped)
            (ap (lookup j) (sym (sym e ∙ is_end_iff _ gone)) ∙ l)
      | inr kept ↦ rw kept (ap (lookup j) e ∙ l)
    ]

-- A key of the metadata other than the annotations is kept.
meta-strip_annotations :
    (meta : Fields) (j : String)
    → ("annotations" == j) ≡ false
    → lookup j (strip_annotations meta) ≡ lookup j meta
unfolding strip_annotations
meta-strip_annotations meta j ne =
    let same =
      lookup-update_ne "annotations" j (on_map (delete_all pvc_bind_annotations)) meta ne in
    let stripped : Fields = update_map "annotations" (delete_all pvc_bind_annotations) meta in
    elim (Bool-cases (is_end (as_map (lookup "annotations" stripped)))) [
      | inl gone ↦ rw gone (lookup-delete_ne "annotations" j stripped ne ∙ same)
      | inr kept ↦ rw kept same
    ]

strip_annotations-end : strip_annotations end ≡ end
unfolding strip_annotations update lookup delete
strip_annotations-end = refl

abbrev pub spec_of : Fields → Fields
spec_of fs = as_map (lookup "spec" fs)

abbrev pub annotations_of : Fields → Fields
annotations_of fs = as_map (lookup "annotations" (as_map (lookup "metadata" fs)))

-- What a claim keeps through the strip, key by key.
pub record IsFreshClaim (before after : Fields) : Type 0 where
  pub spec :
      (j : String)
      → lookup j (spec_of after) ≡ (if "volumeName" == j then none else lookup j (spec_of before))
  pub annotations :
      (j : String)
      → lookup j (annotations_of after)
        ≡ (if contains pvc_bind_annotations j then none else lookup j (annotations_of before))
  pub metadata :
      (j : String)
      → ("annotations" == j) ≡ false
      → lookup j (as_map (lookup "metadata" after)) ≡ lookup j (as_map (lookup "metadata" before))
  pub others :
      (j : String)
      → ("spec" == j) ≡ false
      → ("metadata" == j) ≡ false
      → lookup j after ≡ lookup j before

delete-end : (k : String) → delete k end ≡ end
unfolding delete
delete-end k = refl

-- Stripping a claim removes its volume name and its three bind annotations, and no other key of
-- its spec, of its annotations, of its other metadata or of the document.
pub strip_pvc_binding-IsFreshClaim : (fs : Fields) → IsFreshClaim fs (strip_pvc_binding fs)
unfolding strip_pvc_binding
strip_pvc_binding-IsFreshClaim fs =
    let inner : Fields = update_map "spec" (delete "volumeName") fs in
    let spec_kept = lookup-update_ne "metadata" "spec" (on_map strip_annotations) inner refl in
    let meta_same = lookup-update_ne "spec" "metadata" (on_map (delete "volumeName")) fs refl in
    let meta = as_map-update_map "metadata" strip_annotations inner strip_annotations-end in
    let spec = as_map-update_map "spec" (delete "volumeName") fs (delete-end "volumeName") in
    record {
      spec = λ j. rw (spec_kept, spec) (lookup-delete "volumeName" j (spec_of fs));
      annotations = λ j.
          rw (meta, meta_same) (annotations-strip_annotations (as_map (lookup "metadata" fs)) j);
      metadata = λ j ne.
          rw (meta, meta_same) (meta-strip_annotations (as_map (lookup "metadata" fs)) j ne);
      others = λ j ns nm.
          lookup-update_ne "metadata" j (on_map strip_annotations) inner nm
          ∙ lookup-update_ne "spec" j (on_map (delete "volumeName")) fs ns;
    }

-- What a service keeps through the strip, key by key.
pub record IsFreshService (before after : Fields) : Type 0 where
  pub spec :
      (j : String)
      → ("ports" == j) ≡ false
      → lookup j (spec_of after)
        ≡ (if contains service_allocations j then none else lookup j (spec_of before))
  pub ports :
      as_list (lookup "ports" (spec_of after))
      ≡ map_items (on_map (delete "nodePort")) (as_list (lookup "ports" (spec_of before)))
  pub others : (j : String) → ("spec" == j) ≡ false → lookup j after ≡ lookup j before

as_list-on_list :
    (g : Value → Value) (o : Option.Option Value)
    → as_list (Option.map (on_list g) o) ≡ map_items g (as_list o)
unfolding map_items
as_list-on_list g o = ground arith

strip_spec-end : strip_spec end ≡ end
unfolding strip_spec delete_all delete update
strip_spec-end = refl

-- Stripping a service removes its four allocated fields, takes the node port out of each of its
-- ports, and changes no other key of its spec or of the document.
pub strip_service_allocations-IsFreshService :
    (fs : Fields) → IsFreshService fs (strip_service_allocations fs)
unfolding strip_service_allocations
strip_service_allocations-IsFreshService fs =
    let g : Value → Value = on_map (delete "nodePort") in
    let inner : Fields = delete_all service_allocations (spec_of fs) in
    let spec = as_map-update_map "spec" strip_spec fs strip_spec-end in
    record {
      spec = λ j ne. rw spec (
          unfold strip_spec in
          lookup-update_ne "ports" j (on_list g) inner ne
          ∙ lookup-delete_all service_allocations j (spec_of fs));
      ports = rw spec (
          unfold strip_spec contains in
          ap as_list (lookup-update "ports" "ports" (on_list g) inner)
          ∙ as_list-on_list g (lookup "ports" inner)
          ∙ ap (λ o. map_items g (as_list o))
              (lookup-delete_all service_allocations "ports" (spec_of fs)));
      others = λ j ne. lookup-update_ne "spec" j (on_map strip_spec) fs ne;
    }
