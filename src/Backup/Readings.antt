-- ===== src/Backup/Readings.antt =====
-- What the loop over the complete Jobs of a backup reads.
use mathlib.Core.List.{append-nil, append_assoc}
use pbs_k8s_operator.Base.{
  ℕ, ◌+◌, ◌<◌, ◌%◌, ◌≡◌, refl, sym, ◌∙◌, String, false, Option, none, some, List, [], ◌∷◌, ◌++◌,
  inl, inr, arith, Bool-cases,
}
use pbs_k8s_operator.Base.Text.{◌+++◌, is_empty}
use pbs_k8s_operator.Kube.{Job, Pod}
use pbs_k8s_operator.Types.{BackupJobStatus}
use pbs_k8s_operator.Reconcile.{answer}
use pbs_k8s_operator.Reconcile.Returns.{
  From, Returns, Returns-pure, Returns-chain, Returns-asked, Returns-map, Returns-need,
}
use pbs_k8s_operator.Backup.Results.{
  Env, PlacedJob, JobResult, result, unreadable, int64_modulus, first_message, job_result, read,
  decoded,
}
use pbs_k8s_operator.Backup.Outcome.{Collected, collected, bad_result, collect}

-- A reference with a number of bytes.
abbrev pub Reading : Type 0
Reading = String × ℕ

abbrev pub total_of : List Reading → ℕ
total_of [] = 0
total_of (r ∷ rs) = r.1 + total_of rs

-- The last reference, `ref` where there is none.
abbrev pub last_of : String → List Reading → String
last_of ref [] = ref
last_of ref (r ∷ rs) = last_of r.0 rs

-- The entries of the status, for the Jobs and what they read.
abbrev pub entries_of : List PlacedJob → List Reading → List BackupJobStatus
entries_of (pj ∷ placed) (r ∷ rs) =
    record { node = pj.node; job = pj.job.meta.name; state = "ok:" +++ r.0 } ∷ entries_of placed rs
entries_of _ _ = []

module _ {W : Type 0} (env : Env W) (ns : String) where
  -- What the first message of the pods of a Job, as the API server lists them, decodes to.
  pub record IsReading (job : Job) (r : Reading) : Type 0 where
    pub pods : List Pod
    pub listed : From (env.list_pods ns job.meta.name) (answer pods)
    pub msg : String
    pub message : first_message pods ≡ some msg
    pub decoded : env.unmarshal msg ≡ some r
    pub named : is_empty r.0 ≡ false

  pub data Readings : List PlacedJob → List Reading → Type 0 where
    no_more : Readings [] []
    more :
        (pj : PlacedJob) (r : Reading) (placed : List PlacedJob) (rs : List Reading)
        → IsReading pj.job r
        → Readings placed rs
        → Readings (pj ∷ placed) (r ∷ rs)

  abbrev Result : Job → JobResult → Type 0
  Result job (unreadable p) = Unit
  Result job (result ref bytes) = IsReading job (ref, bytes)

  read-Result :
      (job : Job) (pods : List Pod)
      → From (env.list_pods ns job.meta.name) (answer pods)
      → (o : Option String) → first_message pods ≡ o
      → Result job (read env job o)
  read-Result job pods from none e = tt
  read-Result job pods from (some msg) e = on_decoded (env.unmarshal msg) refl
    where
      on_decoded : (d : Option Reading) → env.unmarshal msg ≡ d → Result job (decoded env job msg d)
      on_decoded none f = tt
      on_decoded (some r) f = elim (Bool-cases (is_empty r.0)) [
        | inl h ↦ rw h tt
        | inr h ↦
            rw h (record {
              pods = pods;
              listed = from;
              msg = msg;
              message = e;
              decoded = f;
              named = h;
            })
      ]

  job_result-Result : (job : Job) → Returns (Result job) (job_result env ns job)
  unfolding job_result
  job_result-Result job = Returns-asked (env.list_pods ns job.meta.name) _ λ a from.
      Returns-chain _ _ (Returns-need a) λ pods is.
        Returns-pure _ (read-Result job pods (from.0, from.1 ∙ is) (first_message pods) refl)

  -- What the loop collects, from what it has.
  abbrev pub Accounts : List PlacedJob → List BackupJobStatus → ℕ → String → Collected → Type 0
  Accounts placed js n ref (bad_result p) = Unit
  Accounts placed js n ref (collected js' n' ref') =
      (rs : List Reading) × Readings placed rs
      × (js' ≡ js ++ entries_of placed rs)
      × (n' ≡ (n + total_of rs) % int64_modulus)
      × (ref' ≡ last_of ref rs)

  Accounts-more :
      (pj : PlacedJob) (r : Reading) (placed : List PlacedJob) (js : List BackupJobStatus) (n : ℕ)
      (ref : String) (c : Collected)
      → IsReading pj.job r
      → Accounts placed
          (js ++ record { node = pj.node; job = pj.job.meta.name; state = "ok:" +++ r.0 } ∷ [])
          ((n + r.1) % int64_modulus)
          r.0
          c
      → Accounts (pj ∷ placed) js n ref c
  Accounts-more pj r placed js n ref (bad_result p) i a = tt
  Accounts-more pj r placed js n ref (collected js' n' ref') i (rs, readings, e, f, g) = (
    r ∷ rs,
    more pj r placed rs i readings,
    e ∙ append_assoc js _ (entries_of placed rs),
    omega (arith, f),
    g,
  )

  pub collect-Accounts :
      (placed : List PlacedJob) (js : List BackupJobStatus) (n : ℕ) (ref : String)
      → n < int64_modulus
      → Returns (Accounts placed js n ref) (collect env ns placed js n ref)
  unfolding collect
  collect-Accounts [] js n ref h =
      Returns-pure _ ([], no_more, sym (append-nil js), omega (arith, h), refl)
  collect-Accounts (pj ∷ placed) js n ref h = Returns-chain _ _ (job_result-Result pj.job) elim [
    | unreadable p ↦ λ u. Returns-pure _ tt
    | result r bytes ↦ λ i.
        Returns-map _ (λ c a. Accounts-more pj (r, bytes) placed js n ref c i a)
          (collect-Accounts placed
            (js ++ record { node = pj.node; job = pj.job.meta.name; state = "ok:" +++ r } ∷ [])
            ((n + bytes) % int64_modulus) r (omega arith))
  ]
