-- ===== src/Kube.antt =====
-- The Kubernetes objects that the program reads and builds: of each type of k8s.io/api and
-- k8s.io/apimachinery, the fields that the program uses. A Go pointer is an `Option`.
use pbs_k8s_operator.Base.{
  ℕ, String, Bool, false, Option, none, some, List, [], ◌∷◌, ◌==◌, if◌then◌else◌,
}

-- `map[string]string`: a list of entries, read at the first entry of a key.
abbrev pub StringMap : Type 0
StringMap = List (String × String)

-- `m[k]`, with "" for a missing key.
unfoldable pub value_at : String → StringMap → String
value_at k [] = ""
value_at k ((j, v) ∷ m) = if j == k then v else value_at k m

-- `_, ok := m[k]`.
unfoldable pub find_at : String → StringMap → Option String
find_at k [] = none
find_at k ((j, v) ∷ m) = if j == k then some v else find_at k m

-- `m[k] = v`.
unfoldable pub put_at : String → String → StringMap → StringMap
put_at k v [] = (k, v) ∷ []
put_at k v ((j, w) ∷ m) = if j == k then (j, v) ∷ m else (j, w) ∷ put_at k v m

pub record ObjectMeta : Type 0 where
  pub name : String
  pub namespace : String
  pub uid : String
  pub generation : ℕ
  pub labels : StringMap
  pub annotations : StringMap
  pub owners : List String  -- the UIDs of the owner references
  pub created : ℕ  -- the creation time
  pub terminating : Bool  -- `DeletionTimestamp != nil`

pub data ConditionStatus : Type 0 where
  cond_true cond_false cond_unknown : ConditionStatus

-- metav1.Condition, and the batch and core conditions with the fields that they share with it.
pub record Condition : Type 0 where
  pub kind : String  -- `Type`
  pub status : ConditionStatus
  pub reason : String
  pub message : String
  pub observed_generation : ℕ

pub record NodeSelectorRequirement : Type 0 where
  pub key : String
  pub operator : String
  pub values : List String

pub record NodeSelectorTerm : Type 0 where
  pub match_expressions : List NodeSelectorRequirement
  pub match_fields : List NodeSelectorRequirement

-- `NodeAffinity.Required`, a list of terms.
pub record NodeAffinity : Type 0 where
  pub required : Option (List NodeSelectorTerm)

pub data VolumeSource : Type 0 where
  claim : String → Bool → VolumeSource  -- the claim's name, and `ReadOnly`
  config_map : String → VolumeSource
  empty_dir : String → VolumeSource  -- the medium
  other_source : VolumeSource

pub record Volume : Type 0 where
  pub name : String
  pub source : VolumeSource

pub record VolumeMount : Type 0 where
  pub name : String
  pub mount_path : String
  pub read_only : Bool

pub data EnvSource : Type 0 where
  literal : String → EnvSource
  secret_key : String → String → EnvSource  -- the secret's name and the key

pub record EnvVar : Type 0 where
  pub name : String
  pub source : EnvSource

pub record Container : Type 0 where
  pub name : String
  pub image : String
  pub command : List String
  pub env : List EnvVar
  pub mounts : List VolumeMount
  pub pull_policy : String

pub record PodSpec : Type 0 where
  pub hostname : String
  pub restart_policy : String
  pub service_account : String
  pub affinity : Option NodeAffinity
  pub containers : List Container
  pub volumes : List Volume
  pub node_name : String

-- One container's `State.Terminated.Message` and `LastTerminationState.Terminated.Message`.
pub record ContainerStatus : Type 0 where
  pub terminated : Option String
  pub last_terminated : Option String

pub record Pod : Type 0 where
  pub meta : ObjectMeta
  pub spec : PodSpec
  pub statuses : List ContainerStatus

pub record Job : Type 0 where
  pub meta : ObjectMeta
  pub backoff_limit : ℕ
  pub ttl_seconds : ℕ
  pub template_labels : StringMap
  pub pod : PodSpec
  pub conditions : List Condition

pub record PersistentVolumeClaim : Type 0 where
  pub meta : ObjectMeta
  pub volume_name : String

pub record PersistentVolume : Type 0 where
  pub meta : ObjectMeta
  pub affinity : Option NodeAffinity

pub record Secret : Type 0 where
  pub meta : ObjectMeta
  pub bytes : StringMap

pub record ConfigMap : Type 0 where
  pub meta : ObjectMeta
  pub entries : StringMap

-- The metadata of an object that has not been created: a name, a namespace and labels.
abbrev pub new_meta : String → String → StringMap → ObjectMeta
new_meta name namespace labels = record {
  name = name;
  namespace = namespace;
  uid = "";
  generation = 0;
  labels = labels;
  annotations = [];
  owners = [];
  created = 0;
  terminating = false;
}
