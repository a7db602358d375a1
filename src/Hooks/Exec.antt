-- ===== src/Hooks/Exec.antt =====
-- internal/hooks/exec.go: `Exec`. The exec session of client-go is a parameter. What is cut off behind
-- 512 bytes is cut between two characters here; the code cuts between bytes.
use Prim.Native.String.{len, slice}
use pbs_k8s_operator.Base.{ℕ, String, Bool, true, Option, none, some, List, if◌then◌else◌, ltb}
use pbs_k8s_operator.Base.Text.{◌+++◌, is_empty, trim_space}
use pbs_k8s_operator.Reconcile.{Answer, answer, refused, M, pure, send, ◌>>=◌}

-- A request for an exec session in a container.
pub record PodExec : Type 0 where
  pub namespace : String
  pub pod : String
  pub container : String
  pub command : List String
  pub stdout : Bool
  pub stderr : Bool

-- What a session ended with: its error, and what the command wrote to its error stream.
pub record Streamed : Type 0 where
  pub error : Option String
  pub stderr : String

-- k8s.io/client-go/tools/remotecommand.
pub record Remote (W : Type 0) : Type 0 where
  pub new_executor : PodExec → Answer (Unit {0})
  pub stream : PodExec → ℕ → W → Streamed × W  -- within some seconds

-- The part of the error stream that an error shows.
unfoldable pub shown : String → String
shown msg = if ltb 512 (len msg) then slice msg 0 512 +++ "..." else msg

abbrev pub place_of : PodExec → String
place_of e = "pod " +++ e.namespace +++ "/" +++ e.pod +++ " container " +++ e.container

unfoldable pub stream_error : PodExec → String → String → String
stream_error e error stderr =
    let msg = trim_space stderr in
    if is_empty msg
    then place_of e +++ ": " +++ error
    else place_of e +++ ": " +++ error +++ " (stderr: " +++ shown msg +++ ")"

abbrev pub streamed : PodExec → Streamed → Answer (Unit {0})
streamed e s = elim s.error [
  | none ↦ answer tt
  | some error ↦ refused (stream_error e error s.stderr)
]

module _ {W : Type 0} (remote : Remote W) where
  abbrev pub with_executor :
      PodExec
      → Answer (Unit {0})
      → M W PodExec (Answer (Unit {0}))
      → M W PodExec (Answer (Unit {0}))
  with_executor e (refused error) k = pure (refused (place_of e +++ ": set up exec: " +++ error))
  with_executor e (answer u) k = k

  -- `Exec`.
  unfoldable pub exec : String → String → String → List String → ℕ → M W PodExec (Answer (Unit {0}))
  exec ns pod container command timeout =
      let e : PodExec = record {
        namespace = ns;
        pod = pod;
        container = container;
        command = command;
        stdout = true;
        stderr = true;
      } in
      with_executor e (remote.new_executor e)
        (do s ← send e (remote.stream e timeout); pure (streamed e s))
