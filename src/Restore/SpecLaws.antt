-- ===== src/Restore/SpecLaws.antt =====
-- The test of a restore's spec against the references that the agent reports.
use Prim.Native.String.{[], ◌∷◌}
use text.Mathlib.TextLemmas
use pbs_k8s_operator.Base.{String, true, false, List, ◌≡◌, refl, ap, ◌∙◌, length, eqb}
use pbs_k8s_operator.Base.Text.{◌+++◌, is_empty, split}
use pbs_k8s_operator.Types.{PbsRestore}
use pbs_k8s_operator.Snapshots.{Clock, compose_snapshot_ref}
use pbs_k8s_operator.Base.Text.Splits.{Free}
use pbs_k8s_operator.Snapshots.Laws.{split-compose_snapshot_ref}
use pbs_k8s_operator.Restore.Status.{validate_spec}

is_empty-concat : (s t : String) → is_empty t ≡ false → is_empty (s +++ t) ≡ false
is_empty-concat [] t e = ap is_empty (TextLemmas.nil-append t) ∙ e
is_empty-concat (c ∷ s) t e = ap is_empty (TextLemmas.cons-append c s t)

is_empty-slash : (s : String) → is_empty ("/" +++ s) ≡ false
is_empty-slash s = ap is_empty (TextLemmas.cons-append _ [] s)

-- A restore that names a repository and a target namespace, and whose snapshot is a reference as
-- the agent composes it, of parts without a slash, passes the test of its spec.
pub validate_spec-compose_snapshot_ref :
    {F : Type 0} (clock : Clock F) (rs : PbsRestore) (t id : String) (time : F)
    → is_empty rs.spec.repo_ref ≡ false
    → is_empty rs.spec.target_namespace ≡ false
    → rs.spec.snapshot_ref ≡ compose_snapshot_ref clock t id time
    → Free b'/' t
    → Free b'/' id
    → Free b'/' (clock.iso time)
    → validate_spec rs ≡ ""
unfolding validate_spec compose_snapshot_ref
validate_spec-compose_snapshot_ref clock rs t id time repo target ref ft fi fz =
    let given : is_empty rs.spec.snapshot_ref ≡ false =
      ap is_empty ref
      ∙ is_empty-concat t ("/" +++ id +++ "/" +++ clock.iso time)
          (is_empty-slash (id +++ "/" +++ clock.iso time)) in
    let parts : eqb (length (split b'/' rs.spec.snapshot_ref)) 3 ≡ true =
      ap (λ (r : String). eqb (length (split b'/' r)) 3) ref
      ∙ ap (λ (l : List String). eqb (length l) 3)
          (split-compose_snapshot_ref clock t id time ft fi fz) in
    rw (repo, given, target, parts) refl
