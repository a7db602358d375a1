-- ===== src/Repo/Reconciler.antt =====
-- internal/controller/pbsrepo_controller.go: `fetchSecret`, `setCondition`, `fail`, `succeed` and
-- `Reconcile`.
use pbs_k8s_operator.Base.{
  ℕ, String, Bool, true, false, ◌||◌, Option, none, some, List, if◌then◌else◌, ltb, ◌-◌,
}
use pbs_k8s_operator.Base.Integers.{ℤ}
use pbs_k8s_operator.Base.Text.{◌+++◌, is_empty}
use pbs_k8s_operator.Kube.{Condition, ConditionStatus, cond_true, cond_false, Secret}
use pbs_k8s_operator.Types.{PbsRepo, PbsRepoStatus, NamespacedSecretRef}
use pbs_k8s_operator.Reconcile.{
  Got, Answer, answer, refused, M, pure, ask, send, need, on_got, ◌>>=◌, ◌>>◌, CtrlResult,
  no_requeue, requeue_after, seconds, ConditionApi,
}
use pbs_k8s_operator.Repo.Creds.{RepoCreds, Resolved, usable, problem, creds_of, token_of}

pub data Call : Type 0 where
  patch_status : PbsRepoStatus → Call
  event : Bool → String → String → Call
  ensure_namespace : RepoCreds → String × String → Call  -- with the token that it uses

-- The API server, the clock, the PBS client, and the libraries that the controller calls.
pub record Env (W : Type 0) : Type 0 where
  pub get_repo : W → Got PbsRepo × W
  pub get_secret : String → String → W → Got Secret × W  -- a namespace and a name
  pub patch_status : PbsRepoStatus → W → Answer (Unit {0}) × W
  pub event : Bool → String → String → W → Unit {0} × W
  pub now : W → ℕ × W
  pub list_snapshots : RepoCreds → W → Answer (Unit {0}) × W  -- `pbs.Client.ListSnapshots`
  pub ensure_namespace : RepoCreds → String × String → W → Answer (Unit {0}) × W
  pub pod_namespace : String  -- the environment's POD_NAMESPACE
  pub atoi : String → Option ℤ  -- `strconv.Atoi`
  pub quote : String → String
  pub conditions : ConditionApi

module _ {W : Type 0} (env : Env W) where
  abbrev Act : Type 0 → Type 0
  Act A = M W Call A

  -- `operatorNamespace`.
  unfoldable pub operator_namespace : String
  operator_namespace =
      if is_empty env.pod_namespace then "pbs-operator-system" else env.pod_namespace

  -- `fetchSecret`.
  unfoldable pub fetch_secret : NamespacedSecretRef → Act (Resolved Secret)
  fetch_secret ref =
      let ns = if is_empty ref.namespace then operator_namespace else ref.namespace in
      if is_empty ref.name then pure (problem "secretRef.name is empty") else (do
        r ← ask (env.get_secret ns ref.name)
        on_got r (pure (problem ("secret " +++ ns +++ "/" +++ ref.name +++ " not found")))
            λ secret. pure (usable secret))

  abbrev with_secret : {A : Type 0} → (Secret → Resolved A) → Resolved Secret → Resolved A
  with_secret f (problem p) = problem p
  with_secret f (usable secret) = f secret

  -- `producerCreds` and `bootstrapToken`.
  unfoldable pub producer_creds : PbsRepo → Act (Resolved RepoCreds)
  producer_creds repo = do
    r ← fetch_secret repo.spec.secret_ref
    pure (with_secret (creds_of env.atoi env.quote repo) r)

  unfoldable pub bootstrap_token : NamespacedSecretRef → Act (Resolved (String × String))
  bootstrap_token ref = do r ← fetch_secret ref; pure (with_secret token_of r)

  -- `LastProbeTime == nil || time.Since(LastProbeTime) > lastProbeFreshFor`.
  unfoldable pub is_stale : Option ℕ → Act Bool
  is_stale none = pure true
  is_stale (some t) = do now ← ask env.now; pure (ltb (seconds 60) (now - t))

  -- The new `LastProbeTime`, where it is stamped.
  unfoldable pub stamp : Bool → Option ℕ → Act (Option ℕ)
  stamp false last = pure none
  stamp true last = do
    stale ← is_stale last
    (if stale then (do now ← ask env.now; pure (some now)) else pure none)

  abbrev pub probe_status : PbsRepo → List Condition → Option ℕ → PbsRepoStatus
  probe_status repo conditions none = record {
    conditions = conditions;
    last_probe_time = repo.status.last_probe_time;
  }
  probe_status repo conditions (some now) = record {
    conditions = conditions;
    last_probe_time = some now;
  }

  abbrev is_some : {A : Type 0} → Option A → Bool
  is_some none = false
  is_some (some a) = true

  -- `setCondition`: whether the condition changed.
  unfoldable pub set_condition : PbsRepo → ConditionStatus → String → String → Bool → Act Bool
  set_condition repo status reason message stamp_probe =
      let (conditions, transitioned) =
        env.conditions.set_status_condition repo.status.conditions (record {
          kind = "Ready";
          status = status;
          reason = reason;
          message = message;
          observed_generation = repo.meta.generation;
        }) in
      do
        stamped ← stamp stamp_probe repo.status.last_probe_time
        (if transitioned || is_some stamped
            then (do
              r ←
                  send (patch_status (probe_status repo conditions stamped))
                    (env.patch_status (probe_status repo conditions stamped))
              need r
              pure transitioned)
            else pure false)

  -- `fail` and `succeed`.
  unfoldable pub fail : PbsRepo → String → String → ℕ → Act CtrlResult
  fail repo reason message requeue = do
    transitioned ← set_condition repo cond_false reason message false
    (if transitioned
        then send (event true reason message) (env.event true reason message)
        else pure tt)
    pure (requeue_after (seconds requeue))

  unfoldable pub succeed : PbsRepo → Act CtrlResult
  succeed repo = do
    transitioned ← set_condition repo cond_true "Reachable" "PBS server reachable" true
    (if transitioned
        then send (event false "Reachable" "PBS server is reachable")
            (env.event false "Reachable" "PBS server is reachable")
        else pure tt)
    pure (requeue_after (seconds 300))

  -- What follows an answer of the PBS server.
  abbrev pub on_answer : {A B : Type 0} → Answer A → (String → Act B) → Act B → Act B
  on_answer (answer a) failed succeeded = succeeded
  on_answer (refused e) failed succeeded = failed e

  -- The bootstrap with a token.
  unfoldable pub bootstrap : PbsRepo → RepoCreds → Resolved (String × String) → Act CtrlResult
  bootstrap repo creds (problem p) =
      fail repo "SecretMissing"
        ("bootstrap secret " +++ repo.spec.bootstrap_token_ref.name +++ ": " +++ p) 120
  bootstrap repo creds (usable token) = do
    r ← send (ensure_namespace creds token) (env.ensure_namespace creds token)
    on_answer r (λ e. fail repo "BootstrapFailed" e 300) (succeed repo)

  -- `Reconcile` with the credentials.
  unfoldable pub probe : PbsRepo → Resolved RepoCreds → Act CtrlResult
  probe repo (problem p) = fail repo "SecretMissing" p 120
  probe repo (usable creds) = do
    r ← ask (env.list_snapshots creds)
    on_answer r (λ e. fail repo "Unreachable" e 120)
        (if is_empty repo.spec.bootstrap_token_ref.name then succeed repo else (do
          token ← bootstrap_token repo.spec.bootstrap_token_ref
          bootstrap repo creds token))

  -- `Reconcile`.
  unfoldable pub reconcile : Act CtrlResult
  reconcile = do
    r ← ask env.get_repo
    on_got r (pure no_requeue) λ repo. do creds ← producer_creds repo; probe repo creds
