-- ===== src/Backup/LaunchLaws.antt =====
-- What the hooks and the launch of the Jobs of a backup do.
use pbs_k8s_operator.Base.{String, true, Option, none, some, List, [], ◌∷◌, ◌≡◌, All, All-append}
use pbs_k8s_operator.Kube.{Pod, PersistentVolumeClaim}
use pbs_k8s_operator.Types.{PbsBackup}
use pbs_k8s_operator.Hooks.{
  Hook, no_hook, hook, not_an_array, empty_array, no_container, parse_hook,
}
use pbs_k8s_operator.Controller.{job_name}
use pbs_k8s_operator.Repo.Creds.{Resolved, usable, problem}
use pbs_k8s_operator.Reconcile.{M, Answer, answer, refused}
use pbs_k8s_operator.Reconcile.Effects.{Keeps-pure, Adds-send, Adds-bind, keeps_rules}
use pbs_k8s_operator.Reconcile.Brings.{
  Brings, Brings-Adds, Brings-Keeps, Brings-ask, Brings-if, Brings-on_got,
}
use pbs_k8s_operator.Reconcile.Sequence.{Brings-step}
use pbs_k8s_operator.Backup.Results.{Call, exec, create_job}
use pbs_k8s_operator.Backup.Cluster.{Cluster, then_usable}
use pbs_k8s_operator.Backup.Groups.{Groups}
use pbs_k8s_operator.Backup.Launch.{
  HookOutcome, run_hook, execute, after_exec, run_hooks, hook_pods, run_pre_hooks, node_job,
  is_known, reread_job, absent_node_job, launch_node, launch,
}
use pbs_k8s_operator.Backup.Reconciler.{no_elements}
use pbs_k8s_operator.Backup.Deeds.{
  hook_run, job_created, deeds, first_run, unknown, IsHookRun, IsLaunch,
}

module _ {W : Type 0} (cluster : Cluster W) (b : PbsBackup) where
  absent_node_job-IsLaunch :
      (sec staging : String) (groups : Groups) (node : String)
      → Brings deeds (All (IsLaunch cluster b)) (absent_node_job cluster b sec staging groups node)
  unfolding absent_node_job reread_job
  absent_node_job-IsLaunch sec staging groups node =
      Brings-if (is_known b.status.jobs (job_name cluster.name_hash b.meta.name node)) _ _
        (λ _. Brings-Keeps _ tt (Keeps-pure _))
        λ fresh.
          let job = node_job cluster b sec staging groups node in
          Brings-Adds (job_created job ∷ []) _ (unknown sec staging groups node fresh, tt)
            (Adds-bind _ _ (job_created job ∷ [])
              (Adds-send (create_job job) (cluster.create_job job)) (λ made. search keeps_rules))

  launch_node-IsLaunch :
      (sec staging : String) (groups : Groups) (node : String)
      → Brings deeds (All (IsLaunch cluster b)) (launch_node cluster b sec staging groups node)
  unfolding launch_node
  launch_node-IsLaunch sec staging groups node = Brings-ask _ _ λ r.
      Brings-on_got r _ _ tt (absent_node_job-IsLaunch sec staging groups node)
        λ job. Brings-Keeps _ tt (Keeps-pure _)

  then_usable-IsLaunch :
      {A B : Type 0} (r : Resolved A) (k : A → M W Call (Resolved B))
      → ((a : A) → Brings deeds (All (IsLaunch cluster b)) (k a))
      → Brings deeds (All (IsLaunch cluster b)) (then_usable r k)
  then_usable-IsLaunch (problem p) k h = Brings-Keeps _ tt (Keeps-pure _)
  then_usable-IsLaunch (usable a) k h = h a

  pub launch-IsLaunch :
      (sec staging : String) (groups : Groups) (nodes : List String)
      → Brings deeds (All (IsLaunch cluster b)) (launch cluster b sec staging groups nodes)
  unfolding launch
  launch-IsLaunch sec staging groups [] = Brings-Keeps _ tt (Keeps-pure _)
  launch-IsLaunch sec staging groups (node ∷ nodes) =
      Brings-step _ _ (All-append (IsLaunch cluster b)) tt
        (launch_node-IsLaunch sec staging groups node)
        λ r. then_usable-IsLaunch r _ λ pj.
          Brings-step _ _ (All-append (IsLaunch cluster b)) tt
            (launch-IsLaunch sec staging groups nodes)
            λ rest. then_usable-IsLaunch rest _ λ placed. Brings-Keeps _ tt (Keeps-pure _)

  module _ (first : no_elements b.status.jobs ≡ true) where
    after_exec-IsHookRun :
        (pod : Pod) (a : Answer (Unit {0})) (rest : M W Call HookOutcome)
        → Brings deeds (All (IsHookRun cluster b)) rest
        → Brings deeds (All (IsHookRun cluster b)) (after_exec cluster pod a rest)
    after_exec-IsHookRun pod (answer u) rest h = h
    after_exec-IsHookRun pod (refused e) rest h = Brings-Keeps _ tt (Keeps-pure _)

    execute-IsHookRun :
        (o : Option (Pod → String → List String → W → Answer (Unit {0}) × W)) (pod : Pod)
        (container : String) (command : List String) (rest : M W Call HookOutcome)
        → Brings deeds (All (IsHookRun cluster b)) rest
        → Brings deeds (All (IsHookRun cluster b)) (execute cluster o pod container command rest)
    execute-IsHookRun none pod container command rest h = Brings-Keeps _ tt (Keeps-pure _)
    execute-IsHookRun (some run) pod container command rest h =
        Brings-step _ _ (All-append (IsHookRun cluster b)) tt
          (Brings-Adds (hook_run pod ∷ []) _ (first_run pod first, tt)
            (Adds-send (exec pod container command) (run pod container command)))
          λ r. after_exec-IsHookRun pod r rest h

    run_hook-IsHookRun :
        (pod : Pod) (h : Hook) (rest : M W Call HookOutcome)
        → Brings deeds (All (IsHookRun cluster b)) rest
        → Brings deeds (All (IsHookRun cluster b)) (run_hook cluster pod h rest)
    run_hook-IsHookRun pod no_hook rest k = k
    run_hook-IsHookRun pod (hook container command) rest k =
        execute-IsHookRun cluster.hook_executor pod container command rest k
    run_hook-IsHookRun pod (not_an_array e) rest k = Brings-Keeps _ tt (Keeps-pure _)
    run_hook-IsHookRun pod empty_array rest k = Brings-Keeps _ tt (Keeps-pure _)
    run_hook-IsHookRun pod no_container rest k = Brings-Keeps _ tt (Keeps-pure _)

    run_hooks-IsHookRun :
        (pods : List Pod) → Brings deeds (All (IsHookRun cluster b)) (run_hooks cluster pods)
    unfolding run_hooks
    run_hooks-IsHookRun [] = Brings-Keeps _ tt (Keeps-pure _)
    run_hooks-IsHookRun (pod ∷ pods) =
        run_hook-IsHookRun pod (parse_hook cluster.unmarshal_argv pod) (run_hooks cluster pods)
          (run_hooks-IsHookRun pods)

    pub run_pre_hooks-IsHookRun :
        (pvcs : List PersistentVolumeClaim) (pods : List Pod)
        → Brings deeds (All (IsHookRun cluster b)) (run_pre_hooks cluster pvcs pods)
    unfolding run_pre_hooks
    run_pre_hooks-IsHookRun pvcs pods = run_hooks-IsHookRun (hook_pods pvcs pods)
