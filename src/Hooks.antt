-- ===== src/Hooks.antt =====
-- internal/hooks/exec.go: `ParseHook`, which reads a pod's pre-backup hook. `encoding/json` is a
-- parameter.
pub mod Laws
pub mod Exec
use pbs_k8s_operator.Base.{String, List, [], ◌∷◌, Bool, if◌then◌else◌}
use pbs_k8s_operator.Base.Text.{is_empty}
use pbs_k8s_operator.Kube.{Pod, Container, value_at}

abbrev pub annotation_container : String
annotation_container = "pbs.backup/pre-hook-container"

abbrev pub annotation_command : String
annotation_command = "pbs.backup/pre-hook-command"

-- `json.Unmarshal` into a list of texts.
pub data Argv : Type 0 where
  argv : List String → Argv
  bad_json : String → Argv

pub data Hook : Type 0 where
  no_hook : Hook
  hook : String → List String → Hook  -- the container and the command
  not_an_array : String → Hook
  empty_array : Hook
  no_container : Hook

-- The hook in the pod's first container.
abbrev pub hook_in_first : List Container → List String → Hook
hook_in_first [] command = no_container
hook_in_first (c ∷ cs) command = hook c.name command

-- The hook of a command, from the container's name on.
abbrev pub hook_in : String → List Container → List String → Hook
hook_in name containers command =
    if is_empty name then hook_in_first containers command else hook name command

abbrev pub with_argv : Pod → Argv → Hook
with_argv pod (bad_json e) = not_an_array e
with_argv pod (argv []) = empty_array
with_argv pod (argv (word ∷ words)) =
    hook_in (value_at annotation_container pod.meta.annotations) pod.spec.containers (word ∷ words)

unfoldable pub parse_hook : (String → Argv) → Pod → Hook
parse_hook unmarshal pod =
    let raw = value_at annotation_command pod.meta.annotations in
    if is_empty raw then no_hook else with_argv pod (unmarshal raw)
