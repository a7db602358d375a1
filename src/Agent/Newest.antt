-- ===== src/Agent/Newest.antt =====
-- internal/agent/backup.go: which snapshot a run of the agent's backup reports.
use pbs_k8s_operator.Base.{ℕ, String, Option, none, some, List, [], ◌∷◌, ◌++◌, ◌≡◌, refl, ◌∙◌}
use pbs_k8s_operator.Reconcile.{M, answer, send, pure, ◌>>=◌}
use pbs_k8s_operator.Reconcile.Returns.{From}
use pbs_k8s_operator.Reconcile.Sequence.{Gives, Gives-pure, Gives-map}
use pbs_k8s_operator.Snapshots.{Snapshot, Clock, latest_snapshot}
use pbs_k8s_operator.Snapshots.Laws.{IsStrict, Answer, IsLatest, latest_snapshot-Answer}
use pbs_k8s_operator.Agent.Env.{Config, load_config, client_env, backup_argv, list_argv}
use pbs_k8s_operator.Agent.Process.{
  Os, Call, run, remove, Report, failure, snapshot, restored, applied, Ran, fail, succeed,
}
use pbs_k8s_operator.Agent.Backup.{
  Decoder, parse_snapshot_list, snapshot_ref, on_latest, report_snapshot, upload, with_config,
  run_backup,
}
use pbs_k8s_operator.Agent.Reports.{
  reports, Never, Silent-send, after-Silent, before_silent, after_send, after_ask, fail-Gives,
  succeed-Gives, on_answer-Gives, on_answer_of, on_run_of, temp_file-Silent,
}
use pbs_k8s_operator.Agent.BackupLaws.{attach_notes-Silent}

module _ {W F : Type 0} (os : Os W) (clock : Clock F) (strict : IsStrict clock)
    (decoder : Decoder F) where
  -- A run of the client that ended without an error.
  pub record IsRun (argv env : List String) (r : Ran) : Type 0 where
    pub from : From (os.run argv env) r
    pub well : r.failure ≡ none

  -- The reported snapshot: the newest of the group of the host's name in the list that the client
  -- gave, after the client uploaded.
  pub record IsNewest (pvcs : List String) (api_dir ref : String) (size : ℕ) : Type 0 where
    pub host : String
    pub named : From os.hostname (answer host)
    pub key : String
    pub uploaded : Ran
    pub listed : Ran
    pub uploads :
        IsRun
          (backup_argv (load_config os.getenv).0.ns key pvcs api_dir)
          (os.environ ++ client_env (load_config os.getenv).0)
          uploaded
    pub lists :
        IsRun
          (list_argv (load_config os.getenv).0.ns)
          (os.environ ++ client_env (load_config os.getenv).0)
          listed
    pub snaps : List (Snapshot F)
    pub parsed : parse_snapshot_list decoder listed.out ≡ answer snaps
    pub best : Snapshot F
    pub newest : IsLatest clock strict "host" host snaps best
    pub reference : ref ≡ snapshot_ref os clock decoder best
    pub bytes : size ≡ best.size

  abbrev pub Owns : List String → String → Report → Type 0
  Owns pvcs api_dir (failure message) = Unit {0}
  Owns pvcs api_dir (snapshot ref size) = IsNewest pvcs api_dir ref size
  Owns pvcs api_dir (restored archives bytes) = ⊥
  Owns pvcs api_dir (applied n) = ⊥

  abbrev pub OneOwn : List String → String → ℕ → List Report → Type 0
  OneOwn pvcs api_dir code xs = (r : Report) × (xs ≡ r ∷ []) × Owns pvcs api_dir r

  module _ (pvcs : List String) (api_dir : String) where
    abbrev Own : M W Call ℕ → Type 0
    Own m = Gives reports (OneOwn pvcs api_dir) Never m

    fail-Own : (path : String) (code : ℕ) (message : String) → Own (fail os path code message)
    fail-Own path code message =
        Gives-map {R = λ c xs. (xs ≡ failure message ∷ []) × (c ≡ code)} {E = Never} _
          (λ c xs g. (failure message, g.0, tt)) (fail-Gives os path code message)

    -- With the argument that the reference and the size are those of the newest snapshot.
    succeed-Own :
        (path ref : String) (size : ℕ)
        → IsNewest pvcs api_dir ref size
        → Own (succeed os path (snapshot ref size))
    succeed-Own path ref size own =
        Gives-map {R = λ c xs. (xs ≡ snapshot ref size ∷ []) × (c ≡ 0)} {E = Never} _
          (λ c xs g. (snapshot ref size, g.0, own)) (succeed-Gives os path (snapshot ref size))

    on_latest-Own :
        (path host : String) (snaps : List (Snapshot F)) (k : Snapshot F → M W Call ℕ)
        → ((best : Snapshot F) → IsLatest clock strict "host" host snaps best → Own (k best))
        → (o : Option (Snapshot F)) → Answer clock strict "host" host snaps o
        → Own (on_latest os clock decoder path o host k)
    on_latest-Own path host snaps k h none a = fail-Own path 1 _
    on_latest-Own path host snaps k h (some best) a = h best a

    module _ (key host notes path : String) (named : From os.hostname (answer host))
        (uploaded : Ran)
        (uploads : IsRun
          (backup_argv (load_config os.getenv).0.ns key pvcs api_dir)
          (os.environ ++ client_env (load_config os.getenv).0)
          uploaded) where
      report_snapshot-Own : Own (
          report_snapshot os clock decoder
            (load_config os.getenv).0
            (os.environ ++ client_env (load_config os.getenv).0)
            host
            notes
            path)
      unfolding report_snapshot
      report_snapshot-Own =
          let c = (load_config os.getenv).0 in
          let env = os.environ ++ client_env c in
          after_send (run (list_argv c.ns) env) (os.run (list_argv c.ns) env) _ refl λ r from.
            on_run_of os r r.failure _ _ refl (λ e. fail-Own path _ _)
              λ well.
                on_answer_of os (parse_snapshot_list decoder r.out) _ _ _ refl
                  (λ e. fail-Own path 1 _)
                  λ snaps parsed.
                    on_latest-Own path host snaps _
                      (λ best latest.
                        after-Silent _ _ (attach_notes-Silent os clock decoder c env best notes)
                          λ u.
                            succeed-Own path (snapshot_ref os clock decoder best) best.size
                              (record {
                                host = host;
                                named = named;
                                key = key;
                                uploaded = uploaded;
                                listed = r;
                                uploads = uploads;
                                lists = record { from = from; well = well };
                                snaps = snaps;
                                parsed = parsed;
                                best = best;
                                newest = latest;
                                reference = refl;
                                bytes = refl;
                              }))
                      (latest_snapshot clock snaps "host" host)
                      (latest_snapshot-Answer clock strict "host" host snaps)

    upload-Own :
        (key host notes path : String)
        → From os.hostname (answer host)
        → Own (upload os clock decoder (load_config os.getenv).0 key host pvcs api_dir notes path)
    unfolding upload
    upload-Own key host notes path named =
        let c = (load_config os.getenv).0 in
        let env = os.environ ++ client_env c in
        let argv = backup_argv c.ns key pvcs api_dir in
        after_send (run argv env) (os.run argv env) _ refl λ r from.
          on_run_of os r r.failure _ _ refl (λ e. fail-Own path _ _)
            λ well.
              report_snapshot-Own key host notes path named r (record { from = from; well = well })

    -- The removal of the keyfile.
    removed-Own :
        (key : String) (m : M W Call ℕ)
        → Own m
        → Own (m >>= λ code. send (remove key) (os.remove key) >>= λ u. pure code)
    removed-Own key m h =
        Gives-map {R = λ c xs. OneOwn pvcs api_dir c xs × Unit {0}} {E = Never} _ (λ c xs g. g.0)
          (before_silent (OneOwn pvcs api_dir 0) (λ c. Unit {0}) m _ h
            λ code.
              after-Silent _ _ (Silent-send (remove key) (os.remove key) refl)
                λ u. Gives-pure code (refl, tt))

    with_config-Own :
        (path : String) (c : Config × List String) (k : Config → M W Call ℕ)
        → Own (k c.0)
        → Own (with_config os clock decoder path c k)
    with_config-Own path (c, []) k h = h
    with_config-Own path (c, key ∷ keys) k h = fail-Own path 2 _

    -- A run of the agent's backup writes just one report: an error, or the newest snapshot of the
    -- group of the pod's host name in the list that the client gives, after a run of the client with
    -- the claims' archives that ended without an error.
    pub run_backup-Newest :
        (notes path : String)
        → Gives reports
            (OneOwn pvcs api_dir)
            Never
            (run_backup os clock decoder pvcs api_dir notes path)
    unfolding run_backup
    run_backup-Newest notes path = with_config-Own path (load_config os.getenv) _ (
        after_ask os.hostname _ λ h named.
          on_answer_of os h h _ _ refl (λ e. fail-Own path 1 _)
            λ host is.
              after-Silent _ _
                (temp_file-Silent os "pbs-agent-keyfile-*.json" (load_config os.getenv).0.keyfile)
                λ k.
                  on_answer-Gives os k _ _ (λ e. fail-Own path 1 _)
                    λ key.
                      removed-Own key _ (upload-Own key host notes path (named.0, named.1 ∙ is)))
