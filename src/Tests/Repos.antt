-- ===== src/Tests/Repos.antt =====
-- Runs of the repository reconciler, over a world that is a clock.
use pbs_k8s_operator.Base.{
  ℕ, suc, String, true, false, Option, none, some, [], ◌∷◌, ◌≡◌, refl, ap, sym,
}
use pbs_k8s_operator.Base.Integers.{ℤ, pos}
use pbs_k8s_operator.Base.Text.{is_empty}
use pbs_k8s_operator.Kube.{new_meta, Secret, value_at}
use pbs_k8s_operator.Types.{PbsRepo}
use pbs_k8s_operator.Reconcile.{Got, got, already_exists, answer}
use pbs_k8s_operator.Reconcile.Returns.{IsGood, IsWithin}
use pbs_k8s_operator.RepoSecret.Writes.{Addressed, Writes, written, ensure_repo_secret-Writes}
use pbs_k8s_operator.RepoSecret.Copy.{SecretApi, ensure_repo_secret}
use pbs_k8s_operator.Reconcile.Brings.{Brings}
use pbs_k8s_operator.Repo.Creds.{
  usable, creds_of, creds_at, port_of, pick, missing_of, missing_creds, fingerprint_of,
}
use pbs_k8s_operator.Repo.CredsLaws.{IsComplete, IsPort, HasKeys, creds_of-IsComplete}
use pbs_k8s_operator.Repo.Reconciler.{Env, reconcile}
use pbs_k8s_operator.Repo.Laws.{repo_reconcile-Returns}

abbrev store : PbsRepo
store = record {
  meta = new_meta "store" "" [];
  spec = record {
    host = "pbs";
    port = pos 0;
    datastore = "main";
    namespace = "";
    fingerprint = "";
    secret_ref = record { name = "creds"; namespace = "" };
    bootstrap_token_ref = record { name = ""; namespace = "" };
  };
  status = record { conditions = []; last_probe_time = some 100 };
}

abbrev creds : Secret
creds = record {
  meta = new_meta "creds" "ops" [];
  bytes = ("tokenID", "op@pbs!k8s") ∷ ("tokenSecret", "s3cret") ∷ ("fingerprint", "AB:CD") ∷ [];
}

abbrev no_number : String → Option ℤ
no_number s = none

abbrev same : String → String
same s = s

abbrev store_env : Env ℕ
store_env = record {
  get_repo = λ w. (got store, w);
  get_secret = λ ns name w. (got creds, w);
  patch_status = λ st w. (answer tt, w);
  event = λ warning reason message w. (tt, w);
  now = λ w. (w, suc w);
  list_snapshots = λ c w. (answer tt, w);
  ensure_namespace = λ c t w. (answer tt, w);
  pod_namespace = "ops";
  atoi = no_number;
  quote = same;
  conditions = record {
    set_status_condition = λ cs c. (cs, false);
    is_status_condition_true = λ cs k. true;
  };
}

creds-HasKeys : HasKeys store creds
unfolding value_at fingerprint_of pick
creds-HasKeys = (refl, refl, refl)

usable_creds :
    creds_of no_number same store creds ≡ usable (creds_at no_number same store creds (pos 8007))
unfolding creds_of missing_creds missing_of value_at fingerprint_of pick port_of
usable_creds = refl

creds_of-IsComplete_example :
    let c = creds_at no_number same store creds (pos 8007) in
    IsComplete store creds c × IsPort no_number same store creds c.port
creds_of-IsComplete_example =
    creds_of-IsComplete no_number same store creds (creds_at no_number same store creds (pos 8007))
      usable_creds

no_port : is_empty (value_at "port" creds.bytes) ≡ true
unfolding value_at
no_port = refl

repo_reconcile-Returns_example :
    IsGood (IsWithin 300) (reconcile store_env (record { world = 0; log = [] })).0
repo_reconcile-Returns_example =
    repo_reconcile-Returns store_env store (record { world = 0; log = [] }) refl

-- Every secret that is asked for is there, with a key outside of the contract and without labels.
abbrev full_api : SecretApi ℕ
full_api = record {
  get_secret = λ ns name w. (
    got (record {
      meta = new_meta name ns [];
      bytes = ("host", "pbs") ∷ ("comment", "rotated") ∷ ("port", "8007") ∷ [];
    }),
    w,
  );
  create_secret = λ sec w. (already_exists, w);
  update_secret = λ sec w. (answer tt, w);
  pod_namespace = "ops";
}

full_api-Addressed : Addressed full_api (λ c. c) written (λ c. refl) store "team" []
full_api-Addressed space name w sec e =
    (sym (ap (λ (g : Got Secret). name_of g) e), sym (ap (λ (g : Got Secret). namespace_of g) e))
  where
    name_of : Got Secret → String
    name_of (got sec) = sec.meta.name
    name_of _ = ""

    namespace_of : Got Secret → String
    namespace_of (got sec) = sec.meta.namespace
    namespace_of _ = ""

ensure_repo_secret-Writes_example :
    Brings written
      (Writes full_api (λ c. c) written (λ c. refl) store "team" [])
      (ensure_repo_secret full_api (λ c. c) store "team" [])
ensure_repo_secret-Writes_example =
    ensure_repo_secret-Writes full_api (λ c. c) written (λ c. refl) store "team" []
      full_api-Addressed
