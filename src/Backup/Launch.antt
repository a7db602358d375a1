-- ===== src/Backup/Launch.antt =====
-- internal/controller/pbsbackup_controller.go: `runPreHooks`, and the Jobs of a backup.
use pbs_k8s_operator.Base.{
  String, Bool, false, ◌||◌, Option, none, some, List, [], ◌∷◌, map, if◌then◌else◌, ◌==◌, contains,
  select,
}
use pbs_k8s_operator.Base.Text.{◌+++◌, sort_by, sort_strings}
use pbs_k8s_operator.Kube.{Job, Pod, Volume, VolumeSource, claim, PersistentVolumeClaim}
use pbs_k8s_operator.Types.{PbsBackup, BackupJobStatus}
use pbs_k8s_operator.JobSpec.{build_backup_job}
use pbs_k8s_operator.Hooks.{
  Hook, no_hook, hook, not_an_array, empty_array, no_container, parse_hook, annotation_command,
}
use pbs_k8s_operator.Controller.{job_name, agent_image}
use pbs_k8s_operator.Repo.Creds.{Resolved, usable, problem}
use pbs_k8s_operator.Reconcile.{
  Answer, answer, refused, M, pure, raise, ask, send, on_got, on_made, ◌>>=◌,
}
use pbs_k8s_operator.Backup.Results.{Call, exec, create_job, PlacedJob}
use pbs_k8s_operator.Backup.Cluster.{Cluster, then_usable}
use pbs_k8s_operator.Backup.Groups.{Groups, group_of}

abbrev pub claim_name_of : PersistentVolumeClaim → String
claim_name_of pvc = pvc.meta.name

abbrev source_among : VolumeSource → List String → Bool
source_among (claim name read_only) selected = contains selected name
source_among _ selected = false

-- Whether a pod mounts one of the selected claims.
unfoldable pub mounts_among : List String → List Volume → Bool
mounts_among selected [] = false
mounts_among selected (vol ∷ vols) = source_among vol.source selected || mounts_among selected vols

abbrev pub pod_name : Pod → String
pod_name pod = pod.meta.name

-- `byName`: the last pod with the name of the given one.
unfoldable pub last_named : List Pod → Pod → Pod
last_named [] pod = pod
last_named (p ∷ pods) pod = last_named pods (if pod_name p == pod_name pod then p else pod)

-- The pods whose hooks are run, in the order in which they are.
unfoldable pub hook_pods : List PersistentVolumeClaim → List Pod → List Pod
unfolding mounts_among last_named sort_by
hook_pods pvcs pods =
    let hooked =
      select (λ (pod : Pod). mounts_among (map claim_name_of pvcs) pod.spec.volumes) pods in
    map (last_named hooked) (sort_by pod_name hooked)

-- The outcome of the hooks: they went well, or a problem with its reason.
pub data HookOutcome : Type 0 where
  hooks_done : HookOutcome
  hook_problem : String → String → HookOutcome

abbrev pub invalid_hook : Pod → String → HookOutcome
invalid_hook pod e = hook_problem "HookInvalid" ("pod " +++ pod_name pod +++ ": " +++ e)

-- `known`.
unfoldable pub is_known : List BackupJobStatus → String → Bool
is_known [] name = false
is_known (js ∷ jobs) name = js.job == name || is_known jobs name

module _ {W : Type 0} (cluster : Cluster W) where
  abbrev Act : Type 0 → Type 0
  Act A = M W Call A

  abbrev pub after_exec : Pod → Answer (Unit {0}) → Act HookOutcome → Act HookOutcome
  after_exec pod (answer u) rest = rest
  after_exec pod (refused e) rest =
      pure (hook_problem "HookFailed" ("pre-hook in pod " +++ pod_name pod +++ " failed: " +++ e))

  abbrev pub execute :
      Option (Pod → String → List String → W → Answer (Unit {0}) × W)
      → Pod
      → String
      → List String
      → Act HookOutcome
      → Act HookOutcome
  execute none pod container command rest = pure (
      hook_problem "HookFailed"
        ("pre-hook in pod " +++ pod_name pod +++ " cannot run: no hook executor configured"))
  execute (some run) pod container command rest = do
    r ← send (exec pod container command) (run pod container command)
    after_exec pod r rest

  -- One round of the loop over the hooked pods, before the rest of them.
  abbrev pub run_hook : Pod → Hook → Act HookOutcome → Act HookOutcome
  run_hook pod no_hook rest = rest
  run_hook pod (hook container command) rest =
      execute cluster.hook_executor pod container command rest
  run_hook pod (not_an_array e) rest = pure (
      invalid_hook pod
        ("annotation " +++ annotation_command +++ " is not a JSON array of strings: " +++ e))
  run_hook pod empty_array rest =
      pure (invalid_hook pod ("annotation " +++ annotation_command +++ " is an empty array"))
  run_hook pod no_container rest =
      pure (invalid_hook pod "no container annotation and the pod has no containers")

  unfoldable pub run_hooks : List Pod → Act HookOutcome
  run_hooks [] = pure hooks_done
  run_hooks (pod ∷ pods) = run_hook pod (parse_hook cluster.unmarshal_argv pod) (run_hooks pods)

  -- `runPreHooks`.
  unfoldable pub run_pre_hooks : List PersistentVolumeClaim → List Pod → Act HookOutcome
  run_pre_hooks pvcs pods = run_hooks (hook_pods pvcs pods)

  -- The Job of a node, as it is created.
  unfoldable pub node_job : PbsBackup → String → String → Groups → String → Job
  unfolding build_backup_job
  node_job b secret staging groups node =
      let built = build_backup_job (record {
        name = job_name cluster.name_hash b.meta.name node;
        namespace = b.meta.namespace;
        node = node;
        repo_secret = secret;
        pvcs = sort_strings (group_of node groups);
        staging_config_map = staging;
        notes = b.spec.notes;
        image = agent_image cluster.image;
        service_account = "";
      }) in
      record built { meta = record (built.meta) { owners = b.meta.uid ∷ [] } }

  unfoldable pub reread_job : PbsBackup → String → Act (Resolved PlacedJob)
  reread_job b node =
      let name = job_name cluster.name_hash b.meta.name node in
      do
        r ← ask (cluster.get_job b.meta.namespace name)
        on_got r (raise (cluster.no_job name))
            λ job. pure (usable (record { node = node; job = job }))

  -- A Job that is not there.
  unfoldable pub absent_node_job :
      PbsBackup → String → String → Groups → String → Act (Resolved PlacedJob)
  absent_node_job b secret staging groups node =
      let name = job_name cluster.name_hash b.meta.name node in
      let job = node_job b secret staging groups node in
      if is_known b.status.jobs name
      then pure (
          problem (
            "job " +++ name +++ " (node " +++ node
            +++ ") was deleted before the backup finished; not recreating it"))
      else (do
        made ← send (create_job job) (cluster.create_job job)
        on_made made (pure (usable (record { node = node; job = job }))) (reread_job b node))

  -- One round of the loop over the nodes.
  unfoldable pub launch_node :
      PbsBackup → String → String → Groups → String → Act (Resolved PlacedJob)
  launch_node b secret staging groups node = do
    r ← ask (cluster.get_job b.meta.namespace (job_name cluster.name_hash b.meta.name node))
    on_got r (absent_node_job b secret staging groups node)
        λ job. pure (usable (record { node = node; job = job }))

  unfoldable pub launch :
      PbsBackup → String → String → Groups → List String → Act (Resolved (List PlacedJob))
  launch b secret staging groups [] = pure (usable [])
  launch b secret staging groups (node ∷ nodes) = do
    r ← launch_node b secret staging groups node
    then_usable r λ pj. do
      rest ← launch b secret staging groups nodes
      then_usable rest λ placed. pure (usable (pj ∷ placed))
