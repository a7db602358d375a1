-- ===== src/Hooks/Laws.antt =====
-- When a hook is run, and where.
use pbs_k8s_operator.Base.{
  String, Bool, true, false, List, [], ◌∷◌, ◌≡◌, ◌≢◌, ◌⊎◌, inl, inr, refl, sym, ap, ◌∙◌,
  if◌then◌else◌, Bool-cases, map,
}
use pbs_k8s_operator.Base.Text.{is_empty}
use pbs_k8s_operator.Kube.{Pod, Container, value_at}
use pbs_k8s_operator.Hooks.{
  annotation_container, annotation_command, Argv, argv, bad_json, hook, hook_in_first, with_argv,
  parse_hook,
}

-- The container that a hook runs in: the one of the annotation, and without one the pod's first.
pub data RunsIn (pod : Pod) (container : String) : Type 0 where
  annotated :
      is_empty container ≡ false
      → value_at annotation_container pod.meta.annotations ≡ container
      → RunsIn pod container
  first :
      (rest : List String)
      → is_empty (value_at annotation_container pod.meta.annotations) ≡ true
      → map (λ (c : Container). c.name) pod.spec.containers ≡ container ∷ rest
      → RunsIn pod container

-- A hook that is to be run.
pub record IsRunnable (unmarshal : String → Argv) (pod : Pod) (container : String)
    (command : List String) : Type 0 where
  pub requested : is_empty (value_at annotation_command pod.meta.annotations) ≡ false
  pub command_read : unmarshal (value_at annotation_command pod.meta.annotations) ≡ argv command
  pub some_command : command ≢ []
  pub runs_in : RunsIn pod container

abbrev Located : String → List Container → String → Type 0
Located name containers container =
    ((is_empty name ≡ false) × (name ≡ container))
    ⊎ ((is_empty name ≡ true)
        × ((rest : List String) × (map (λ (c : Container). c.name) containers ≡ container ∷ rest)))

hook_in-hook :
    (b : Bool) (name : String) (containers : List Container) (command : List String)
    (container : String) (words : List String)
    → is_empty name ≡ b
    → (if b then hook_in_first containers command else hook name command) ≡ hook container words
    → (command ≡ words) × Located name containers container
hook_in-hook true name [] command container words n e = absurd (cc e)
hook_in-hook true name (c ∷ cs) command container words n e =
    let same : c.name ≡ container = cc e in
    (
      cc e,
      inr (
        n,
        (map (λ (d : Container). d.name) cs, ap (λ x. x ∷ map (λ (d : Container). d.name) cs) same),
      ),
    )
hook_in-hook false name cs command container words n e = (cc e, inl (n, cc e))

RunsIn-of_Located :
    (pod : Pod) (container : String)
    → Located (value_at annotation_container pod.meta.annotations) pod.spec.containers container
    → RunsIn pod container
RunsIn-of_Located pod container (inl (n, e)) = annotated (ap is_empty (sym e) ∙ n) e
RunsIn-of_Located pod container (inr (n, (rest, e))) = first rest n e

with_argv-IsRunnable :
    (unmarshal : String → Argv) (pod : Pod) (container : String) (command : List String) (a : Argv)
    → is_empty (value_at annotation_command pod.meta.annotations) ≡ false
    → unmarshal (value_at annotation_command pod.meta.annotations) ≡ a
    → with_argv pod a ≡ hook container command
    → IsRunnable unmarshal pod container command
with_argv-IsRunnable unmarshal pod container command (bad_json x) r u e = absurd (cc e)
with_argv-IsRunnable unmarshal pod container command (argv []) r u e = absurd (cc e)
with_argv-IsRunnable unmarshal pod container command (argv (word ∷ words)) r u e =
    let name = value_at annotation_container pod.meta.annotations in
    let (same, located) =
      hook_in-hook (is_empty name) name pod.spec.containers (word ∷ words) container command refl
        e in
    record {
      requested = r;
      command_read = u ∙ ap argv same;
      some_command = λ none_left. cc (same, none_left);
      runs_in = RunsIn-of_Located pod container located;
    }

-- A hook that is to be run was requested by the command annotation, has the words of its array, at
-- least one of them, and runs in the container of the container annotation or, without that, in
-- the first container of the pod.
pub parse_hook-IsRunnable :
    (unmarshal : String → Argv) (pod : Pod) (container : String) (command : List String)
    → parse_hook unmarshal pod ≡ hook container command
    → IsRunnable unmarshal pod container command
unfolding parse_hook
parse_hook-IsRunnable unmarshal pod container command e =
    elim (Bool-cases (is_empty (value_at annotation_command pod.meta.annotations))) [
      | inl unset ↦ absurd (cc (rw unset at e))
      | inr set ↦
          with_argv-IsRunnable unmarshal pod container command
            (unmarshal (value_at annotation_command pod.meta.annotations)) set refl (rw set at e)
    ]
