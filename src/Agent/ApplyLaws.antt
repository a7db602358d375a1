-- ===== src/Agent/ApplyLaws.antt =====
-- How a run of the agent's volume restore and of its apply of the manifest ends.
use pbs_k8s_operator.Base.{
  ℕ, String, Option, none, some, List, [], ◌∷◌, ◌≡◌, ◌≢◌, refl, ◌∙◌, arith, ◌+◌, length, ◌==◌,
}
use mathlib.Core.List.{append-nil}
use pbs_k8s_operator.Base.Text.{is_empty}
use pbs_k8s_operator.Reconcile.{M, Answer, answer, refused, pure, ◌>>=◌}
use pbs_k8s_operator.Reconcile.Sequence.{Gives, Gives-pure, Gives-if, Gives-chain, Gives-shift}
use pbs_k8s_operator.Agent.Env.{Config, load_config}
use pbs_k8s_operator.Agent.Process.{
  Os, Call, remove, remove_all, failure, ClientError, Ran, exit_code,
}
use pbs_k8s_operator.Agent.Reports.{
  reports, IsReported, Never, Silent-send, Silent-ask, Silent-pure, Silent, after-Silent, Reporting,
  fail-Reporting, fail-Gives, succeed-Reporting, on_answer-Gives, temp_file-Silent,
}
use pbs_k8s_operator.RestorePlan.Parse.{Yaml, ParsedDoc, Result, ok, err, parse_api_manifests}
use pbs_k8s_operator.RestorePlan.Buckets.{PlannedDoc, Buckets, bucket_docs}
use pbs_k8s_operator.Agent.Args.{RestorePair}
use pbs_k8s_operator.Agent.Commands.{FailsAloud, IsLoud, run-Gives, on_run-Gives, removed-Reporting}
use pbs_k8s_operator.Agent.Apply.{
  Step, went_well, failed, ran, on_file, upload_config_map, then_well, empty_entries, empty_dir,
  dir_size, restore_pairs, uploaded, restore_with, run_restore_volume, applied_with, kubectl_apply,
  stop, unless_failed, apply, wait_crds, apply_phase, on_parsed, with_config, run_apply_manifests,
  bundle,
}

-- A step that failed has an exit code other than 0.
abbrev IsSound : {A : Type 0} → Step A → Type 0
IsSound (went_well a) = Unit
IsSound (failed code e) = code ≢ 0

module _ {W : Type 0} (os : Os W) (aloud : FailsAloud os) where
  -- Nothing is reported by a step.
  abbrev Stepping : {A : Type 0} → M W Call (Step A) → Type 0
  Stepping m = Gives reports (λ r xs. (xs ≡ []) × IsSound r) Never m

  one_is_not_zero : ◌≢◌ {A = ℕ} 1 0
  one_is_not_zero e = omega (arith, e)

  two_is_not_zero : ◌≢◌ {A = ℕ} 2 0
  two_is_not_zero e = omega (arith, e)

  failing :
      {A : Type 0} (code : ℕ) (e : String) → code ≢ 0 → Stepping {A = A} (pure (failed code e))
  failing code e n = Gives-pure _ (refl, n)

  ran-IsSound : (r : Ran) (o : Option ClientError) → r.failure ≡ o → IsLoud r → IsSound (ran os o)
  ran-IsSound r none is loud = tt
  ran-IsSound r (some e) is loud = loud e is

  applied_with-IsSound :
      (r : Ran) (o : Option ClientError) → r.failure ≡ o → IsLoud r → IsSound (applied_with os r o)
  applied_with-IsSound r none is loud = tt
  applied_with-IsSound r (some e) is loud = loud e is

  on_file-Stepping :
      (a : Answer String) (k : String → M W Call (Step (Unit {0})))
      → ((path : String) → Stepping (k path))
      → Stepping (on_file os a k)
  on_file-Stepping (refused e) k h = failing 1 e one_is_not_zero
  on_file-Stepping (answer path) k h =
      Gives-chain {R = λ r xs. (xs ≡ []) × IsSound r} {E = Never} _ _ (h path) (λ ys n. n)
        λ r ys g. Gives-shift {R = λ r xs. (xs ≡ []) × IsSound r} {E = Never} _ ys g.0 (
          after-Silent _ _ (Silent-send (remove path) (os.remove path) refl)
            λ u. Gives-pure r (refl, g.1))

  upload_config_map-Stepping : (name src : String) → Stepping (upload_config_map os name src)
  unfolding upload_config_map
  upload_config_map-Stepping name src = run-Gives os aloud _ _ _ λ made loud.
      on_run-Gives os aloud made made.failure _ _ refl loud (λ e n. failing (exit_code e) e.text n)
        (after-Silent _ _ (temp_file-Silent os _ made.out) λ f. on_file-Stepping f _ λ path.
          run-Gives os aloud _ _ _
            λ r aloud'. Gives-pure _ (refl, ran-IsSound r r.failure refl aloud'))

  kubectl_apply-Stepping : (docs : List PlannedDoc) → Stepping (kubectl_apply os docs)
  unfolding kubectl_apply
  kubectl_apply-Stepping docs = after-Silent _ _ (temp_file-Silent os _ (bundle os docs)) λ f.
      on_file-Stepping f _ λ path.
        run-Gives os aloud _ _ _
          λ r loud. Gives-pure _ (refl, applied_with-IsSound r r.failure refl loud)

  empty_entries-Silent : (dir : String) (names : List String) → Silent (empty_entries os dir names)
  unfolding empty_entries
  empty_entries-Silent dir [] = Silent-pure (answer tt)
  empty_entries-Silent dir (name ∷ names) =
      let path = os.path_join dir name in
      after-Silent _ _ (Silent-send (remove_all path) (os.remove_all path) refl)
        λ r. on_answer-Gives os r _ _ (λ e. Silent-pure _) λ u. empty_entries-Silent dir names

  empty_dir-Silent : (dir : String) → Silent (empty_dir os dir)
  unfolding empty_dir
  empty_dir-Silent dir = after-Silent _ _ (Silent-ask (os.read_dir dir)) λ entries.
      on_answer-Gives os entries _ _ (λ e. Silent-pure _) λ names. empty_entries-Silent dir names

  dir_size-Silent : (dir : String) → Silent (dir_size os dir)
  unfolding dir_size
  dir_size-Silent dir = after-Silent _ _ (Silent-ask (os.walk_dir dir)) λ entries. Silent-pure _

  restore_pairs-Stepping :
      (c : Config) (key ref : String) (pairs : List RestorePair) (done : List String) (total : ℕ)
      → Stepping (restore_pairs os c key ref pairs done total)
  unfolding restore_pairs
  restore_pairs-Stepping c key ref [] done total = Gives-pure _ (refl, tt)
  restore_pairs-Stepping c key ref (p ∷ pairs) done total =
      after-Silent _ _ (empty_dir-Silent p.target) λ cleared.
        on_answer-Gives os cleared _ _ (λ e. failing 1 _ one_is_not_zero)
          λ u. run-Gives os aloud _ _ _ λ r loud.
            on_run-Gives os aloud r r.failure _ _ refl loud (λ e n. failing (exit_code e) _ n)
              (after-Silent _ _ (dir_size-Silent p.target)
                λ size. restore_pairs-Stepping c key ref pairs _ _)

  -- A step, and what follows each of its ends.
  then_well-Reporting :
      {A : Type 0} (m : M W Call (Step A)) (path what : String) (k : A → M W Call ℕ)
      → Stepping m
      → ((a : A) → Reporting os (k a))
      → Reporting os (m >>= λ r. then_well os r path what k)
  then_well-Reporting {A = A} m path what k h g =
      Gives-chain {R = λ r xs. (xs ≡ []) × IsSound r} {E = Never} _ _ h (λ ys n. n)
        λ r ys z. Gives-shift {R = IsReported} {E = Never} _ ys z.0 (ends r z.1)
    where
      ends : (r : Step A) → IsSound r → Reporting os (then_well os r path what k)
      ends (failed code e) n = fail-Reporting os path code _ n
      ends (went_well a) n = g a

  uploaded-Reporting :
      (pairs : List RestorePair) (config_map path : String) (k : M W Call ℕ)
      → Reporting os k
      → Reporting os (uploaded os pairs config_map path k)
  uploaded-Reporting (p ∷ []) config_map path k h =
      then_well-Reporting _ path _ _ (upload_config_map-Stepping config_map _) λ u. h
  uploaded-Reporting [] config_map path k h = fail-Reporting os path 2 _ two_is_not_zero
  uploaded-Reporting (p ∷ q ∷ pairs) config_map path k h =
      fail-Reporting os path 2 _ two_is_not_zero

  restore_with-Reporting :
      (c : Config) (key ref : String) (pairs : List RestorePair) (config_map path : String)
      → Reporting os (restore_with os c key ref pairs config_map path)
  unfolding restore_with
  restore_with-Reporting c key ref pairs config_map path =
      then_well-Reporting _ path _ _ (restore_pairs-Stepping c key ref pairs [] 0) λ d.
        Gives-if (is_empty config_map) _ _ (λ _. succeed-Reporting os path _ refl)
          (λ _. uploaded-Reporting pairs config_map path _ (succeed-Reporting os path _ refl))

  with_config-Reporting :
      (path : String) (c : Config × List String) (k : Config → M W Call ℕ)
      → ((c : Config) → Reporting os (k c))
      → Reporting os (with_config os path c k)
  with_config-Reporting path (c, []) k h = h c
  with_config-Reporting path (c, key ∷ keys) k h = fail-Reporting os path 2 _ two_is_not_zero

  -- Where a command that fails has an exit code other than 0, a run of the agent's volume restore
  -- ends, and it writes just one report to the termination log: the archives restored where the
  -- process exits with 0, and an error where it exits with another code.
  pub run_restore_volume-Reporting :
      (ref : String) (pairs : List RestorePair) (config_map path : String)
      → Reporting os (run_restore_volume os ref pairs config_map path)
  unfolding run_restore_volume
  run_restore_volume-Reporting ref pairs config_map path =
      with_config-Reporting path (load_config os.getenv) _ λ c.
        after-Silent _ _ (temp_file-Silent os _ c.keyfile) λ k.
          on_answer-Gives os k _ _ (λ e. fail-Reporting os path 1 _ one_is_not_zero)
            λ key.
              removed-Reporting os aloud key _
                (restore_with-Reporting c key ref pairs config_map path)

  stop-Reporting :
      (path : String) (code : ℕ) (message : String) → Reporting os (stop os path code message)
  stop-Reporting path code message =
      Gives-chain {R = λ c xs. (xs ≡ failure message ∷ []) × (c ≡ code)} {E = Never} _ _
        (fail-Gives os path code message) (λ ys z. z)
        λ c ys g. Gives-pure 1 (failure message, append-nil ys ∙ g.0, one_is_not_zero)

  apply-Reporting :
      (path : String) (docs : List PlannedDoc) (count : ℕ) (k : ℕ → M W Call ℕ)
      → ((n : ℕ) → Reporting os (k n))
      → Reporting os (apply os path docs count k)
  unfolding apply
  apply-Reporting path [] count k h = h count
  apply-Reporting path (d ∷ docs) count k h =
      Gives-chain {R = λ r xs. (xs ≡ []) × IsSound r} {E = Never} _ _
        (kubectl_apply-Stepping (d ∷ docs)) (λ ys n. n)
        λ r ys z. Gives-shift {R = IsReported} {E = Never} _ ys z.0 (ends r)
    where
      ends :
          (r : Step (Unit {0}))
          → Reporting os (unless_failed os path r "kubectl apply: " (k (count + length (d ∷ docs))))
      ends (failed code e) = stop-Reporting path code _
      ends (went_well u) = h _

  wait_crds-Reporting :
      (path : String) (docs : List PlannedDoc) (k : M W Call ℕ)
      → Reporting os k
      → Reporting os (wait_crds os path docs k)
  unfolding wait_crds
  wait_crds-Reporting path [] k h = h
  wait_crds-Reporting path (d ∷ docs) k h = run-Gives os aloud _ _ _ λ r loud.
      on_run-Gives os aloud r r.failure _ _ refl loud (λ e n. stop-Reporting path (exit_code e) _)
        (wait_crds-Reporting path docs k h)

  apply_phase-Reporting :
      (quote : String → String) (phase : String) (b : Buckets) (path : String)
      → Reporting os (apply_phase os quote phase b path)
  unfolding apply_phase
  apply_phase-Reporting quote phase b path =
      Gives-if (phase == "pre") _ _
        (λ _. apply-Reporting path b.ns 0 _ λ n. apply-Reporting path b.crds n _ λ m.
          wait_crds-Reporting path b.crds _
            (apply-Reporting path b.pre m _ λ total. succeed-Reporting os path _ refl))
        λ _.
          Gives-if (phase == "workload") _ _
            (λ _. apply-Reporting path b.work 0 _ λ total. succeed-Reporting os path _ refl)
            (λ _. fail-Reporting os path 2 _ two_is_not_zero)

  on_parsed-Reporting :
      (path file : String) (r : Result (List ParsedDoc)) (k : List ParsedDoc → M W Call ℕ)
      → ((docs : List ParsedDoc) → Reporting os (k docs))
      → Reporting os (on_parsed os path file r k)
  on_parsed-Reporting path file (err e) k h = fail-Reporting os path 1 _ one_is_not_zero
  on_parsed-Reporting path file (ok docs) k h = h docs

  -- Where a command that fails has an exit code other than 0, a run of the agent's apply of the
  -- manifest ends, and it writes just one report to the termination log: the number of documents
  -- applied where the process exits with 0, and an error where it exits with another code.
  pub run_apply_manifests-Reporting :
      (pod_ns : W → Answer String × W) (yaml : Yaml) (quote : String → String) (phase file : String)
      (drop keep : List String) (path : String)
      → Reporting os (run_apply_manifests os pod_ns yaml quote phase file drop keep path)
  unfolding run_apply_manifests
  run_apply_manifests-Reporting pod_ns yaml quote phase file drop keep path =
      after-Silent _ _ (Silent-ask pod_ns) λ n.
        on_answer-Gives os n _ _ (λ e. fail-Reporting os path 1 _ one_is_not_zero)
          λ ns. after-Silent _ _ (Silent-ask (os.read_file file)) λ f.
            on_answer-Gives os f _ _ (λ e. fail-Reporting os path 1 _ one_is_not_zero)
              λ content.
                on_parsed-Reporting path file (parse_api_manifests yaml content ns) _
                  λ docs. apply_phase-Reporting quote phase (bucket_docs yaml docs drop keep) path
