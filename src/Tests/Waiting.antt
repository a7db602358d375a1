-- ===== src/Tests/Waiting.antt =====
-- The calls of the server: a task that never leaves the running state, and a pinned certificate.
use pbs_k8s_operator.Base.{
  List, none, refl, ◌%◌, ◌∷◌, ℕ, zero, suc, ◌<◌, true, false, [], ◌≡◌, arith,
}
use pbs_k8s_operator.Reconcile.{Run, answer, refused}
use pbs_k8s_operator.Pbs.{Net, Client, Request, new_client, response, wait_task}
use pbs_k8s_operator.Base.Integers.{pos}
use pbs_k8s_operator.Base.Text.{join}
use pbs_k8s_operator.Pbs.Fingerprint.{
  verify_fingerprint, hex_digit, upper_char, hex, to_upper, colon_hex,
}
use pbs_k8s_operator.Pbs.Keys.{IsBytes}
use pbs_k8s_operator.Pbs.FingerprintLaws.{
  Pinned, verify_fingerprint-Pinned, verify_fingerprint-colon_hex,
}
use pbs_k8s_operator.Pbs.Tasks.{IsBounded, IsEnd, status_at, next, wait_task-IsEnd}

abbrev quick : Net ℕ ℕ
quick = record {
  exchange = λ r w. (response 200 "running", w);
  poll = elim [ zero ↦ (true, zero) | suc w ↦ (false, w) ];
  envelope = λ s. answer s;
  task_status = λ s. answer (record { status = s; exit_status = "" });
  snapshots = λ s. refused "";
  encode_name = λ s. answer s;
  path_escape = λ s. s;
  query_ns = λ s. s;
  to_lower = λ s. s;
  quote = λ s. s;
}

abbrev client : Client
client = new_client "pbs" (pos 8007) "operator" "secret"

abbrev start : Run ℕ Request
start = record { world = 2; log = [] }

abbrev left : ℕ → ℕ
left w = w

quick_poll : (w : ℕ) → (quick.poll w).0 ≡ false → left (quick.poll w).1 < left w
quick_poll zero e = absurd (cc e)
quick_poll (suc w) e = omega arith

quick-IsBounded : IsBounded quick left
quick-IsBounded = record { exchange = λ r w. omega arith; poll = quick_poll }

wait_task-IsEnd_example :
    IsEnd quick
      (status_at quick client "UPID:1")
      (next quick client "UPID:1")
      (wait_task quick client "UPID:1" 3 start).0
wait_task-IsEnd_example =
    wait_task-IsEnd quick client left "UPID:1" 3 start quick-IsBounded (omega arith)

abbrev hash_of : ℕ → List ℕ
hash_of c = 171 ∷ c % 256 ∷ []

hash_of-IsBytes : (c : ℕ) → IsBytes (hash_of c)
hash_of-IsBytes c = omega arith

verify_fingerprint-Pinned_example : Pinned hash_of (9 ∷ []) "ab:09"
unfolding verify_fingerprint hex_digit upper_char hex to_upper join
verify_fingerprint-Pinned_example =
    verify_fingerprint-Pinned hash_of hash_of-IsBytes (9 ∷ []) "ab:09" refl

verify_fingerprint-colon_hex_example :
    (verify_fingerprint hash_of (9 ∷ []) (colon_hex (hash_of 9)) ≡ none)
    × (verify_fingerprint hash_of (9 ∷ []) (hex (hash_of 9)) ≡ none)
verify_fingerprint-colon_hex_example = verify_fingerprint-colon_hex hash_of hash_of-IsBytes 9 []
