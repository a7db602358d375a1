-- ===== src/RepoSecret.antt =====
-- internal/controller/pbsbackup_controller.go and pbsrestore_controller.go: the copy of the
-- repository's credentials into the namespace in which the Jobs run.
pub mod Laws
pub mod Copy
pub mod CopyLaws
pub mod Writes
use pbs_k8s_operator.Base.{String, Bool, true, ◌&&◌, none, some, Option, List, [], ◌∷◌, ◌==◌}
use pbs_k8s_operator.Kube.{StringMap, value_at, find_at}

abbrev pub repo_secret_keys : List String
repo_secret_keys =
    "host" ∷ "port" ∷ "datastore" ∷ "namespace" ∷ "tokenID" ∷ "tokenSecret" ∷ "fingerprint"
    ∷ "keyfile" ∷ []

-- `if v, ok := src[k]; ok { data[k] = v }`.
abbrev pub copy_one : String → Option String → StringMap → StringMap
copy_one k none rest = rest
copy_one k (some v) rest = (k, v) ∷ rest

-- The loop that copies the keys that the source has.
unfoldable pub copy_keys : List String → StringMap → StringMap
copy_keys [] src = []
copy_keys (k ∷ ks) src = copy_one k (find_at k src) (copy_keys ks src)

-- The loop of `contractEqual`.
unfoldable pub equal_on : List String → StringMap → StringMap → Bool
equal_on [] a b = true
equal_on (k ∷ ks) a b = value_at k a == value_at k b && equal_on ks a b

unfoldable pub contract_equal : StringMap → StringMap → Bool
contract_equal a b = equal_on repo_secret_keys a b
