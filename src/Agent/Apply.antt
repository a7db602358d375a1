-- ===== src/Agent/Apply.antt =====
-- internal/agent/restore.go: `RunRestoreVolume`, `uploadConfigMap`, `RunApplyManifests` and
-- `kubectlApply`.
use pbs_k8s_operator.Base.{
  ℕ, ◌+◌, ◌%◌, String, not, ◌&&◌, Option, none, some, List, [], ◌∷◌, ◌++◌, if◌then◌else◌, ◌==◌,
  length,
}
use pbs_k8s_operator.Base.Text.{◌+++◌, is_empty, join}
use pbs_k8s_operator.Base.Text.Decimal.{decimal}
use pbs_k8s_operator.Reconcile.{Answer, answer, refused, M, pure, ask, send, ◌>>=◌, ◌>>◌}
use pbs_k8s_operator.Backup.Results.{int64_modulus}
use pbs_k8s_operator.RestorePlan.Parse.{Yaml, ParsedDoc, Result, ok, err, parse_api_manifests}
use pbs_k8s_operator.RestorePlan.Buckets.{PlannedDoc, Buckets, bucket_docs}
use pbs_k8s_operator.Restore.Pipeline.{parse_error_text}
use pbs_k8s_operator.Agent.Args.{RestorePair}
use pbs_k8s_operator.Agent.Env.{Config, load_config, client_env, restore_argv}
use pbs_k8s_operator.Agent.Process.{
  Os, Call, run, remove, remove_all, WalkEntry, restored, applied, ClientError, Ran, exit_code,
  first_line, fail, succeed, on_answer, on_run, temp_file,
}

-- `nil` for the environment of a command: that of the agent.
abbrev pub inherited : List String
inherited = []

-- The failure of a step: its exit code and its text.
pub data Step (A : Type 0) : Type 0 where
  went_well : A → Step A
  failed : ℕ → String → Step A

-- The walk of `dirSize`: directories and what cannot be read do not count.
abbrev pub size_of : WalkEntry → ℕ
size_of e = if not e.unreadable && not e.is_dir then elim e.size [ none ↦ 0 | some n ↦ n ] else 0

unfoldable pub total_size : ℕ → List WalkEntry → ℕ
total_size total [] = total
total_size total (e ∷ es) = total_size ((total + size_of e) % int64_modulus) es

module _ {W : Type 0} (os : Os W) where
  abbrev Act : Type 0 → Type 0
  Act A = M W Call A

  abbrev pub run_client : List String → List String → Act Ran
  run_client argv env = send (run argv env) (os.run argv env)

  abbrev pub ran : Option ClientError → Step (Unit {0})
  ran none = went_well tt
  ran (some e) = failed (exit_code e) e.text

  -- A command on a temporary file, which is removed whatever the command does.
  abbrev pub on_file : Answer String → (String → Act (Step (Unit {0}))) → Act (Step (Unit {0}))
  on_file (refused e) k = pure (failed 1 e)
  on_file (answer path) k = do r ← k path; send (remove path) (os.remove path); pure r

  abbrev pub kubectl_apply_argv : String → List String
  kubectl_apply_argv path = "kubectl" ∷ "apply" ∷ "-f" ∷ path ∷ []

  -- `uploadConfigMap`.
  unfoldable pub upload_config_map : String → String → Act (Step (Unit {0}))
  upload_config_map name src = do
    made ←
        run_client
          ("kubectl"
            ∷ "create"
            ∷ "configmap"
            ∷ name
            ∷ ("--from-file=api.yaml=" +++ src)
            ∷ "--dry-run=client"
            ∷ "-o"
            ∷ "yaml"
            ∷ [])
          os.environ
    on_run os made.failure (λ e. pure (failed (exit_code e) e.text))
        (do
          f ← temp_file os "pbs-agent-cm-*.yaml" made.out
          on_file f
              λ path. do r ← run_client (kubectl_apply_argv path) os.environ; pure (ran r.failure))

  -- The loop of `emptyDir`.
  unfoldable pub empty_entries : String → List String → Act (Answer (Unit {0}))
  empty_entries dir [] = pure (answer tt)
  empty_entries dir (name ∷ names) = do
    let path = os.path_join dir name
    r ← send (remove_all path) (os.remove_all path)
    on_answer os r (λ e. pure (refused e)) λ u. empty_entries dir names

  -- `emptyDir`.
  unfoldable pub empty_dir : String → Act (Answer (Unit {0}))
  empty_dir dir = do
    entries ← ask (os.read_dir dir)
    on_answer os entries (λ e. pure (refused e)) λ names. empty_entries dir names

  -- `dirSize`, an int64.
  unfoldable pub dir_size : String → Act ℕ
  dir_size dir = do entries ← ask (os.walk_dir dir); pure (total_size 0 entries)

  abbrev pub then_well : {A : Type 0} → Step A → String → String → (A → Act ℕ) → Act ℕ
  then_well (failed code e) path what k = fail os path code (what +++ e)
  then_well (went_well a) path what k = k a

  -- The loop over the pairs: the archives restored and their bytes, as an int64.
  unfoldable pub restore_pairs :
      Config → String → String → List RestorePair → List String → ℕ → Act (Step (List String × ℕ))
  restore_pairs c key ref [] done total = pure (went_well (done, total))
  restore_pairs c key ref (p ∷ pairs) done total = do
    cleared ← empty_dir p.target
    on_answer os cleared (λ e. pure (failed 1 ("empty " +++ p.target +++ ": " +++ e)))
        λ u. do
          r ← run_client (restore_argv c.ns key ref p.archive p.target) (os.environ ++ client_env c)
          on_run os r.failure (λ e. pure (failed (exit_code e) (first_line r.errs)))
              (do
                size ← dir_size p.target
                restore_pairs c key ref pairs (done ++ p.archive ∷ [])
                    ((total + size) % int64_modulus))

  -- The upload needs just one pair.
  abbrev pub uploaded : List RestorePair → String → String → Act ℕ → Act ℕ
  uploaded (p ∷ []) config_map path k = do
    r ← upload_config_map config_map (os.path_join p.target "api.yaml")
    then_well r path "configmap upload: " λ u. k
  uploaded pairs config_map path k =
      fail os path 2
        ("configmap upload needs exactly one archive/target pair, got " +++ decimal (length pairs))

  -- With the keyfile.
  unfoldable pub restore_with :
      Config → String → String → List RestorePair → String → String → Act ℕ
  restore_with c key ref pairs config_map path = do
    r ← restore_pairs c key ref pairs [] 0
    then_well r path "" λ d.
        if is_empty config_map
        then succeed os path (restored d.0 d.1)
        else uploaded pairs config_map path (succeed os path (restored d.0 d.1))

  abbrev pub with_config : String → Config × List String → (Config → Act ℕ) → Act ℕ
  with_config path (c, []) k = k c
  with_config path (c, key ∷ keys) k =
      fail os path 2 ("missing required env: " +++ join ", " (key ∷ keys))

  -- `RunRestoreVolume`; the keyfile is removed at the end.
  unfoldable pub run_restore_volume : String → List RestorePair → String → String → Act ℕ
  run_restore_volume ref pairs config_map path = with_config path (load_config os.getenv) λ c. do
    k ← temp_file os "pbs-agent-keyfile-*.json" c.keyfile
    on_answer os k (λ e. fail os path 1 ("keyfile: " +++ e))
        λ key. do
          code ← restore_with c key ref pairs config_map path
          send (remove key) (os.remove key)
          pure code

  -- The documents of a bucket in one file.
  unfoldable pub bundle : List PlannedDoc → String
  bundle [] = ""
  bundle (d ∷ docs) = d.yaml +++ "---\n" +++ bundle docs

  abbrev pub applied_with : Ran → Option ClientError → Step (Unit {0})
  applied_with r none = went_well tt
  applied_with r (some e) = failed (exit_code e) (e.text +++ ": " +++ first_line r.errs)

  -- `kubectlApply`.
  unfoldable pub kubectl_apply : List PlannedDoc → Act (Step (Unit {0}))
  kubectl_apply docs = do
    f ← temp_file os "pbs-agent-apply-*.yaml" (bundle docs)
    on_file f λ path. do
      r ← run_client (kubectl_apply_argv path) inherited
      pure (applied_with r r.failure)

  -- The end of a step that failed: the code of its report is dropped.
  abbrev pub stop : String → ℕ → String → Act ℕ
  stop path code message = do code ← fail os path code message; pure 1

  abbrev pub unless_failed : String → Step (Unit {0}) → String → Act ℕ → Act ℕ
  unless_failed path (failed code e) what k = stop path code (what +++ e)
  unless_failed path (went_well u) what k = k

  -- The closure `apply`, before what follows it.
  unfoldable pub apply : String → List PlannedDoc → ℕ → (ℕ → Act ℕ) → Act ℕ
  apply path [] count k = k count
  apply path (d ∷ docs) count k = do
    r ← kubectl_apply (d ∷ docs)
    unless_failed path r "kubectl apply: " (k (count + length (d ∷ docs)))

  -- The closure `waitCRD`, in its loop.
  unfoldable pub wait_crds : String → List PlannedDoc → Act ℕ → Act ℕ
  wait_crds path [] k = k
  wait_crds path (d ∷ docs) k = do
    r ←
        run_client
          ("kubectl"
            ∷ "wait"
            ∷ "--for=condition=Established"
            ∷ ("crd/" +++ d.name)
            ∷ "--timeout=60s"
            ∷ [])
          inherited
    on_run os r.failure
        (λ e. stop path (exit_code e) ("crd " +++ d.name +++ " not Established: " +++ e.text))
        (wait_crds path docs k)

  -- The switch on the phase.
  unfoldable pub apply_phase : (String → String) → String → Buckets → String → Act ℕ
  apply_phase quote phase b path =
      if phase == "pre"
      then (apply path b.ns 0 λ n.
          apply path b.crds n λ m.
            wait_crds path b.crds (apply path b.pre m λ total. succeed os path (applied total)))
      else if phase == "workload"
      then (apply path b.work 0 λ total. succeed os path (applied total))
      else fail os path 2 ("unknown phase " +++ quote phase)

  abbrev pub on_parsed :
      String → String → Result (List ParsedDoc) → (List ParsedDoc → Act ℕ) → Act ℕ
  on_parsed path file (err e) k = fail os path 1 ("parse " +++ file +++ ": " +++ parse_error_text e)
  on_parsed path file (ok docs) k = k docs

  -- `RunApplyManifests`, with the pod's namespace and its reading from a file.
  unfoldable pub run_apply_manifests :
      (W → Answer String × W)
      → Yaml
      → (String → String)
      → String
      → String
      → List String
      → List String
      → String
      → Act ℕ
  run_apply_manifests pod_ns yaml quote phase file drop keep path = do
    n ← ask pod_ns
    on_answer os n (λ e. fail os path 1 ("target namespace: " +++ e))
        λ ns. do
          f ← ask (os.read_file file)
          on_answer os f (λ e. fail os path 1 ("read " +++ file +++ ": " +++ e))
              λ content.
                on_parsed path file (parse_api_manifests yaml content ns)
                  λ docs. apply_phase quote phase (bucket_docs yaml docs drop keep) path
