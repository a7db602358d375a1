-- ===== src/RepoSecret/CopyLaws.antt =====
-- What the copy of a repository's secret writes.
use pbs_k8s_operator.Base.{String, List, [], ◌≡◌}
use pbs_k8s_operator.Kube.{StringMap, Secret}
use pbs_k8s_operator.Types.{PbsRepo}
use pbs_k8s_operator.RepoSecret.Copy.{
  SecretCall, create_secret, update_secret, SecretApi, place_copy, ensure_repo_secret,
}
use pbs_k8s_operator.Reconcile.Effects.{Keeps, Keeps-send, keeps_rules}

module _ {W C V : Type 0} (api : SecretApi W) (call : SecretCall → C) (see : C → List V)
    (quiet : (c : SecretCall) → see (call c) ≡ []) where
  place_copy-Keeps :
      (repo : PbsRepo) (ns : String) (owners : List String) (entries : StringMap)
      → Keeps see (place_copy api call repo ns owners entries)
  unfolding place_copy
  place_copy-Keeps repo ns owners entries =
      let create = λ (sec : Secret).
        Keeps-send {see = see} (call (create_secret sec)) (api.create_secret sec)
          (quiet (create_secret sec)) in
      let update = λ (sec : Secret).
        Keeps-send {see = see} (call (update_secret sec)) (api.update_secret sec)
          (quiet (update_secret sec)) in
      search (keeps_rules, create, update) depth 9

  -- The copy shows nothing in a view that does not show it.
  pub ensure_repo_secret-Keeps :
      (repo : PbsRepo) (ns : String) (owners : List String)
      → Keeps see (ensure_repo_secret api call repo ns owners)
  unfolding ensure_repo_secret
  ensure_repo_secret-Keeps repo ns owners = search (keeps_rules, place_copy-Keeps)
