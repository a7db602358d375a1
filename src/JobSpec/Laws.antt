-- ===== src/JobSpec/Laws.antt =====
-- A backup Job's pod mounts each of its volumes, under distinct names, and runs on its node.
use mathlib.Core.Path.{ap₂, subst}
use mathlib.Core.List.{append-nil}
use text.Mathlib.Text.{starts_with}
use text.Mathlib.TextLemmas.{append_cancel_left}
use text.Mathlib.TextPositions.{starts_with-append}
use pbs_k8s_operator.Base.{
  Distinct, Distinct-concat, ℕ, suc, ◌<◌, String, Bool, true, false, List, [], ◌∷◌, ◌++◌, map,
  map-append, ◌==◌, ◌≡◌, ◌≢◌, refl, ap, sym, ◌∙◌, arith, All, Bool-cases, inl, inr,
}
use pbs_k8s_operator.Base.Text.{◌+++◌}
use pbs_k8s_operator.Base.Text.Decimal.{decimal, decimal-injective}
use pbs_k8s_operator.JobSpec.{
  BackupJobSpec, claim_volumes, claim_mounts, backup_volumes, backup_mounts, if_set, staging_volume,
  staging_mount,
}

-- The names of the volumes of claims from number `i` on.
pub claim_names : ℕ → List String → List String
claim_names i [] = []
claim_names i (pvc ∷ pvcs) = ("pvc-" +++ decimal i) ∷ claim_names (suc i) pvcs

pub names-claim_volumes :
    (b : Bool) (i : ℕ) (pvcs : List String)
    → map (λ v. v.name) (claim_volumes b i pvcs) ≡ claim_names i pvcs
unfolding claim_volumes claim_names
names-claim_volumes b i [] = refl
names-claim_volumes b i (pvc ∷ pvcs) = rw (names-claim_volumes b (suc i) pvcs)

pub names-claim_mounts :
    (b : Bool) (i : ℕ) (pvcs : List String)
    → map (λ m. m.name) (claim_mounts b i pvcs) ≡ claim_names i pvcs
unfolding claim_mounts claim_names
names-claim_mounts b i [] = refl
names-claim_mounts b i (pvc ∷ pvcs) = rw (names-claim_mounts b (suc i) pvcs)

claim_names-ne :
    (j i : ℕ) (pvcs : List String)
    → j < i
    → All (λ (y : String). "pvc-" +++ decimal j ≢ y) (claim_names i pvcs)
unfolding claim_names
claim_names-ne j i [] h = tt
claim_names-ne j i (pvc ∷ pvcs) h = (
  (λ e. omega (arith, decimal-injective j i (append_cancel_left "pvc-" _ _ e), h)),
  claim_names-ne j (suc i) pvcs (omega arith),
)

pub claim_names-Distinct : (i : ℕ) (pvcs : List String) → Distinct (claim_names i pvcs)
unfolding claim_names
claim_names-Distinct i [] = tt
claim_names-Distinct i (pvc ∷ pvcs) =
    (claim_names-ne i (suc i) pvcs (omega arith), claim_names-Distinct (suc i) pvcs)

-- A name that does not begin as the claims' volumes do is none of theirs.
pub claim_names-other :
    (s : String) (i : ℕ) (pvcs : List String)
    → starts_with s "pvc-" ≡ false
    → All (λ (y : String). y ≢ s) (claim_names i pvcs)
unfolding claim_names
claim_names-other s i [] h = tt
claim_names-other s i (pvc ∷ pvcs) h = (
  (λ e. cc (starts_with-append "pvc-" (decimal i), ap (λ (x : String). starts_with x "pvc-") e, h)),
  claim_names-other s (suc i) pvcs h,
)

abbrev names_of : BackupJobSpec → List String
names_of spec = claim_names 0 spec.pvcs ++ if_set spec.staging_config_map ("api-staging" ∷ [])

map-if_set {ℓ κ} :
    {A : Type ℓ} {B : Type κ} (f : A → B) (s : String) (a : A)
    → map f (if_set s (a ∷ [])) ≡ if_set s (f a ∷ [])
map-if_set f s a = elim (Bool-cases (s == "")) [ inl e ↦ rw e refl | inr e ↦ rw e refl ]

Distinct-names_of : (spec : BackupJobSpec) → Distinct (names_of spec)
Distinct-names_of spec = elim (Bool-cases (spec.staging_config_map == "")) [
  | inl e ↦ rw e (
      subst Distinct (sym (append-nil (claim_names 0 spec.pvcs)))
        (claim_names-Distinct 0 spec.pvcs))
  | inr e ↦ rw e (
      Distinct-concat (claim_names 0 spec.pvcs) "api-staging" (claim_names-Distinct 0 spec.pvcs)
        (claim_names-other "api-staging" 0 spec.pvcs refl))
]

-- The volumes of a backup Job's pod have distinct names, and its container mounts them under the
-- same names in the same order.
pub names-build_backup_job :
    (spec : BackupJobSpec)
    → (map (λ v. v.name) (backup_volumes spec) ≡ map (λ m. m.name) (backup_mounts spec))
      × Distinct (map (λ v. v.name) (backup_volumes spec))
unfolding backup_volumes backup_mounts
names-build_backup_job spec =
    let staged = spec.staging_config_map in
    let volumes : map (λ v. v.name) (backup_volumes spec) ≡ names_of spec =
      map-append (λ v. v.name) (claim_volumes true 0 spec.pvcs)
        (if_set staged (staging_volume staged ∷ []))
      ∙ ap₂ (λ (a b : List String). a ++ b) (names-claim_volumes true 0 spec.pvcs)
          (map-if_set (λ v. v.name) staged (staging_volume staged)) in
    let mounts : map (λ m. m.name) (backup_mounts spec) ≡ names_of spec =
      map-append (λ m. m.name) (claim_mounts true 0 spec.pvcs) (if_set staged (staging_mount ∷ []))
      ∙ ap₂ (λ (a b : List String). a ++ b) (names-claim_mounts true 0 spec.pvcs)
          (map-if_set (λ m. m.name) staged staging_mount) in
    (volumes ∙ sym mounts, subst Distinct (sym volumes) (Distinct-names_of spec))
