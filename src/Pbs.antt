-- ===== src/Pbs.antt =====
-- internal/pbs: the calls of the server's REST interface in client.go, namespace.go, tasks.go and
-- snapshots.go. The connection with its pinned certificate, JSON and net/url are parameters.
pub mod Tasks
pub mod Fingerprint
pub mod Keys
pub mod FingerprintLaws
use pbs_k8s_operator.Base.{
  ℕ, zero, suc, String, Bool, true, false, ◌&&◌, Option, none, some, List, if◌then◌else◌, ◌==◌, eqb,
  leb,
}
use pbs_k8s_operator.Base.Integers.{ℤ, pos, negsuc}
use pbs_k8s_operator.Base.Text.{◌+++◌, contains_text}
use pbs_k8s_operator.Base.Text.Decimal.{decimal}
use pbs_k8s_operator.Snapshots.{Snapshot}
use pbs_k8s_operator.Reconcile.{Answer, answer, refused, M, pure, ask, send, ◌>>=◌}

pub record Client : Type 0 where
  pub base_url : String
  pub auth_token : String

-- `%d` of an int.
abbrev pub int_text : ℤ → String
int_text (pos n) = decimal n
int_text (negsuc n) = "-" +++ decimal (suc n)

-- `NewClient`, without its connection.
unfoldable pub new_client : String → ℤ → String → String → Client
new_client host port token_id token_secret = record {
  base_url = "https://" +++ host +++ ":" +++ int_text port;
  auth_token = "PBSAPIToken=" +++ token_id +++ ":" +++ token_secret;
}

pub record Request : Type 0 where
  pub method : String
  pub url : String
  pub authorization : String
  pub body : Option String

pub data Response : Type 0 where
  response : ℕ → String → Response  -- the status and the body
  unreachable : String → Response
  unreadable : String → Response

pub data PbsError : Type 0 where
  api_error : ℕ → String → PbsError
  other_error : String → PbsError

pub data Reply (A : Type 0) : Type 0 where
  reply : A → Reply A
  failed : PbsError → Reply A

pub record TaskStatus : Type 0 where
  pub status : String
  pub exit_status : String

pub record Net (W F : Type 0) : Type 0 where
  pub exchange : Request → W → Response × W
  pub poll : W → Bool × W  -- the `select`: whether the context is done before the interval is over
  pub envelope : String → Answer String  -- the field `data`
  pub task_status : String → Answer TaskStatus
  pub snapshots : String → Answer (List (Snapshot F))
  pub encode_name : String → Answer String  -- the body `{"name": …}`
  pub path_escape : String → String
  pub query_ns : String → String  -- `url.Values{"ns": {ns}}.Encode()`
  pub to_lower : String → String
  pub quote : String → String  -- `%q`

-- What `WaitTask` returns.
pub data Waited : Type 0 where
  finished : Waited
  task_failed : String → Waited
  wait_failed : PbsError → Waited
  context_done : Waited
  out_of_fuel : Waited

-- The text of an error.
unfoldable pub error_text : PbsError → String
error_text (api_error status body) = "pbs: HTTP " +++ decimal status +++ ": " +++ body
error_text (other_error e) = e

module _ {W F : Type 0} (net : Net W F) (client : Client) where
  abbrev Act : Type 0 → Type 0
  Act A = M W Request A

  abbrev pub decoded : {A : Type 0} → Answer A → Reply A
  decoded (refused e) = failed (other_error ("pbs: decode response data: " +++ e))
  decoded (answer a) = reply a

  abbrev pub unwrapped : {A : Type 0} → Answer String → (String → Answer A) → Reply A
  unwrapped (refused e) decode = failed (other_error ("pbs: decode response envelope: " +++ e))
  unwrapped (answer d) decode = decoded (decode d)

  -- What `do` makes of a response; no decoder where there is no `out`.
  unfoldable pub on_response :
      {A : Type 0} → String → String → Response → (String → Reply A) → Reply A
  on_response method path (unreachable e) k =
      failed (other_error ("pbs: " +++ method +++ " " +++ path +++ ": " +++ e))
  on_response method path (unreadable e) k = failed (other_error ("pbs: read response: " +++ e))
  on_response method path (response status body) k =
      if leb 400 status then failed (api_error status body) else k body

  abbrev pub request_of : String → String → Option String → Request
  request_of method path body = record {
    method = method;
    url = client.base_url +++ path;
    authorization = client.auth_token;
    body = body;
  }

  -- `do`, after the body is encoded.
  unfoldable pub call :
      {A : Type 0} → String → String → Option String → (String → Reply A) → Act (Reply A)
  call method path body k = do
    r ← send (request_of method path body) (net.exchange (request_of method path body))
    pure (on_response method path r k)

  -- The errors of `EnsureNamespace`: that the namespace exists already is none.
  unfoldable pub ensured : String → String → Reply (Unit {0}) → Reply (Unit {0})
  ensured store ns (reply u) = reply tt
  ensured store ns (failed (api_error status body)) =
      if eqb status 400 && contains_text (net.to_lower body) "already exist"
      then reply tt
      else failed (
          other_error (
            "pbs: ensure namespace "
            +++ net.quote ns
            +++ " in store "
            +++ net.quote store
            +++ ": "
            +++ error_text (api_error status body)))
  ensured store ns (failed (other_error e)) = failed (
      other_error (
        "pbs: ensure namespace "
        +++ net.quote ns
        +++ " in store "
        +++ net.quote store
        +++ ": "
        +++ e))

  abbrev pub with_body : Answer String → (String → Act (Reply (Unit {0}))) → Act (Reply (Unit {0}))
  with_body (refused e) k = pure (failed (other_error ("pbs: encode request body: " +++ e)))
  with_body (answer body) k = k body

  -- `EnsureNamespace`.
  unfoldable pub ensure_namespace : String → String → Act (Reply (Unit {0}))
  ensure_namespace store ns = do
    let path = "/api2/json/admin/datastore/" +++ net.path_escape store +++ "/namespace"
    r ← with_body (net.encode_name ns) λ body. call "POST" path (some body) λ text. reply tt
    pure (ensured store ns r)

  unfoldable pub snapshots_failed :
      String → String → Reply (List (Snapshot F)) → Reply (List (Snapshot F))
  snapshots_failed store ns (reply snaps) = reply snaps
  snapshots_failed store ns (failed e) = failed (
      other_error (
        "pbs: list snapshots in "
        +++ net.quote store
        +++ " ns "
        +++ net.quote ns
        +++ ": "
        +++ error_text e))

  -- `ListSnapshots`.
  unfoldable pub list_snapshots : String → String → Act (Reply (List (Snapshot F)))
  list_snapshots store ns = do
    let path =
        "/api2/json/admin/datastore/"
        +++ net.path_escape store
        +++ "/snapshots?"
        +++ net.query_ns ns
    r ← call "GET" path none λ text. unwrapped (net.envelope text) net.snapshots
    pure (snapshots_failed store ns r)

  abbrev pub on_status : Reply TaskStatus → Act Waited → Act Waited
  on_status (failed e) again = pure (wait_failed e)
  on_status (reply ts) again =
      if ts.status == "running"
      then again
      else pure (if ts.exit_status == "OK" then finished else task_failed ts.exit_status)

  abbrev pub status_path : String → String
  status_path upid = "/api2/json/nodes/localhost/tasks/" +++ net.path_escape upid +++ "/status"

  -- The loop of `WaitTask`, on fuel.
  unfoldable pub wait_task : String → ℕ → Act Waited
  wait_task upid zero = pure out_of_fuel
  wait_task upid (suc fuel) = do
    r ← call "GET" (status_path upid) none λ text. unwrapped (net.envelope text) net.task_status
    on_status r (do over ← ask net.poll; if over then pure context_done else wait_task upid fuel)
