-- ===== src/Controller.antt =====
-- internal/controller/pbsbackup_controller.go: what the controllers of backups and restores share:
-- `jobName`, `firstNode` and `agentImage`. hash/fnv and the format of a hash are parameters.
pub mod Laws
use Prim.Native.Char.{Char, code}
use Prim.Native.String.{len, slice}
use pbs_k8s_operator.Base.{ℕ, ◌-◌, String, Bool, List, [], ◌∷◌, if◌then◌else◌, leb, eqb}
use pbs_k8s_operator.Base.Text.{◌+++◌, is_empty, trim_end, sort_strings}
use pbs_k8s_operator.Reconcile.{Answer, M, pure, ask, need, ◌>>=◌}

-- `fnv.New32a` and `fmt.Sprintf("%08x", …)`.
pub record NameHash : Type 0 where
  pub fnv32a : String → ℕ
  pub hex08 : ℕ → String

abbrev pub is_dash : Char → Bool
is_dash c = eqb (code c) 45

-- `jobName`.
unfoldable pub job_name : NameHash → String → String → String
job_name h backup node =
    let full = backup +++ "-" +++ node in
    let suffix = "-" +++ h.hex08 (h.fnv32a full) in
    if leb (len full) 63 then full else trim_end is_dash (slice full 0 (63 - len suffix)) +++ suffix

abbrev first_of : List String → String
first_of [] = ""
first_of (name ∷ names) = name

-- `firstNode`, over the request that lists the names of the nodes.
unfoldable pub first_node : {W C : Type 0} → (W → Answer (List String) × W) → M W C String
first_node list_nodes = do r ← ask list_nodes; names ← need r; pure (first_of (sort_strings names))

-- `agentImage`.
abbrev pub agent_image : String → String
agent_image image = if is_empty image then "pbs-agent:dev" else image
