-- ===== src/Serialize/Laws.antt =====
-- What a serialized object still holds.
use pbs_k8s_operator.Base.{
  String, true, false, none, ◌&&◌, ◌≡◌, refl, ap, sym, ◌∙◌, ◌==◌, if◌then◌else◌, arith, contains,
  Bool-cases, inl, inr,
}
use pbs_k8s_operator.Value.{
  Fields, end, lookup, delete, update, update_map, on_map, as_map, is_map, is_end,
}
use pbs_k8s_operator.Value.Laws.{
  lookup-delete, lookup-update_ne, lookup-delete_ne, lookup-delete_self, as_map-update_map,
}
use pbs_k8s_operator.RestorePlan.Clean.{delete_all}
use pbs_k8s_operator.RestorePlan.CleanLaws.{lookup-delete_all, is_end_iff}
use pbs_k8s_operator.Serialize.{
  last_applied_annotation, volatile_metadata, strip_last_applied, strip_metadata, strip_volatile,
}

abbrev pub metadata_of : Fields → Fields
metadata_of fs = as_map (lookup "metadata" fs)

abbrev pub notes_of : Fields → Fields
notes_of meta = as_map (lookup "annotations" meta)

-- What an object keeps through the strip, key by key.
pub record IsStable (before after : Fields) : Type 0 where
  pub status : lookup "status" after ≡ none
  pub annotations :
      (j : String)
      → lookup j (notes_of (metadata_of after))
        ≡ (if last_applied_annotation == j then none else lookup j (notes_of (metadata_of before)))
  pub metadata :
      (j : String)
      → ("annotations" == j) ≡ false
      → lookup j (metadata_of after)
        ≡ (if contains volatile_metadata j then none else lookup j (metadata_of before))
  pub others :
      (j : String)
      → ("status" == j) ≡ false
      → ("metadata" == j) ≡ false
      → lookup j after ≡ lookup j before

delete_nothing : delete last_applied_annotation end ≡ end
unfolding delete
delete_nothing = refl

notes-strip_last_applied :
    (meta : Fields) (j : String)
    → lookup j (notes_of (strip_last_applied meta))
      ≡ (if last_applied_annotation == j then none else lookup j (notes_of meta))
unfolding strip_last_applied
notes-strip_last_applied meta j =
    let stripped : Fields = update_map "annotations" (delete last_applied_annotation) meta in
    let e = as_map-update_map "annotations" (delete last_applied_annotation) meta delete_nothing in
    let l = lookup-delete last_applied_annotation j (notes_of meta) in
    elim (Bool-cases (is_map (lookup "annotations" meta) && is_end (notes_of stripped))) [
      | inl gone ↦
          let none_left : is_end (notes_of stripped) ≡ true = ground arith in
          rw (gone, lookup-delete_self "annotations" stripped)
            (ap (lookup j) (sym (sym e ∙ is_end_iff _ none_left)) ∙ l)
      | inr kept ↦ rw kept (ap (lookup j) e ∙ l)
    ]

others-strip_last_applied :
    (meta : Fields) (j : String)
    → ("annotations" == j) ≡ false
    → lookup j (strip_last_applied meta) ≡ lookup j meta
unfolding strip_last_applied
others-strip_last_applied meta j ne =
    let same = lookup-update_ne "annotations" j (on_map (delete last_applied_annotation)) meta ne in
    let stripped : Fields = update_map "annotations" (delete last_applied_annotation) meta in
    elim (Bool-cases (is_map (lookup "annotations" meta) && is_end (notes_of stripped))) [
      | inl gone ↦ rw gone (lookup-delete_ne "annotations" j stripped ne ∙ same)
      | inr kept ↦ rw kept same
    ]

strip_metadata-end : strip_metadata end ≡ end
unfolding strip_metadata strip_last_applied update lookup delete delete_all
strip_metadata-end = refl

metadata-strip_volatile :
    (fs : Fields) → metadata_of (strip_volatile fs) ≡ strip_metadata (metadata_of fs)
unfolding strip_volatile
metadata-strip_volatile fs =
    as_map-update_map "metadata" strip_metadata (delete "status" fs) strip_metadata-end
    ∙ ap (λ o. strip_metadata (as_map o)) (lookup-delete_ne "status" "metadata" fs refl)

notes-strip_metadata :
    (meta : Fields) (j : String)
    → lookup j (notes_of (strip_metadata meta))
      ≡ (if last_applied_annotation == j then none else lookup j (notes_of meta))
unfolding strip_metadata contains
notes-strip_metadata meta j =
    notes-strip_last_applied (delete_all volatile_metadata meta) j
    ∙ ap (λ o. if last_applied_annotation == j then none else lookup j (as_map o))
        (lookup-delete_all volatile_metadata "annotations" meta)

others-strip_metadata :
    (meta : Fields) (j : String)
    → ("annotations" == j) ≡ false
    → lookup j (strip_metadata meta)
      ≡ (if contains volatile_metadata j then none else lookup j meta)
unfolding strip_metadata
others-strip_metadata meta j ne =
    others-strip_last_applied (delete_all volatile_metadata meta) j ne
    ∙ lookup-delete_all volatile_metadata j meta

-- Stripping an object for the archive removes its status, the five volatile keys of its metadata and
-- the last-applied annotation, and changes no other annotation, no other key of its metadata and no
-- other key of the object.
pub strip_volatile-IsStable : (fs : Fields) → IsStable fs (strip_volatile fs)
unfolding strip_volatile
strip_volatile-IsStable fs = record {
  status =
      lookup-update_ne "metadata" "status" (on_map strip_metadata) (delete "status" fs) refl
      ∙ lookup-delete_self "status" fs;
  annotations = λ j.
      ap (λ m. lookup j (notes_of m)) (metadata-strip_volatile fs)
      ∙ notes-strip_metadata (metadata_of fs) j;
  metadata = λ j ne.
      ap (lookup j) (metadata-strip_volatile fs) ∙ others-strip_metadata (metadata_of fs) j ne;
  others = λ j ns nm.
      lookup-update_ne "metadata" j (on_map strip_metadata) (delete "status" fs) nm
      ∙ lookup-delete_ne "status" j fs ns;
}
