-- ===== src/Reconcile.antt =====
-- The shape of a reconciler: a run over a world that the model does not describe (the API server,
-- the clock, what else they reach), with Go's errors and with a record of the requests that change
-- something, in order. The answers of the world are arbitrary, so that between any two requests
-- others may have changed it.
pub mod Effects
pub mod Brings
pub mod Returns
pub mod Sequence
pub mod Posts
pub mod Progress
use pbs_k8s_operator.Base.{ℕ, ◌*◌, String, Bool, true, false, Option, List, [], ◌∷◌, ◌++◌}
use pbs_k8s_operator.Kube.{Condition}

-- The answers of `client.Get`, of `client.Create`, and of the other requests.
pub data Got (A : Type 0) : Type 0 where
  got : A → Got A
  not_found : Got A
  get_failed : String → Got A

pub data Made : Type 0 where
  made already_exists : Made
  create_failed : String → Made

pub data Answer (A : Type 0) : Type 0 where
  answer : A → Answer A
  refused : String → Answer A

-- The state of a run: the world, and the log of the requests made.
pub record Run (W C : Type 0) : Type 0 where
  pub world : W
  pub log : List C

pub data Outcome (A : Type 0) : Type 0 where
  ok : A → Outcome A
  err : String → Outcome A

abbrev pub M : Type 0 → Type 0 → Type 0 → Type 0
M W C A = Run W C → Outcome A × Run W C

module _ {W C A : Type 0} where
  unfoldable pub pure : A → M W C A
  pure a s = (ok a, s)

  -- `return …, err`.
  unfoldable pub raise : String → M W C A
  raise e s = (err e, s)

  -- A request that only reads.
  unfoldable pub ask : (W → A × W) → M W C A
  ask f s = let (a, w) = f s.world in (ok a, record s { world = w })

  -- A request that may change the world.
  unfoldable pub send : C → (W → A × W) → M W C A
  send c f s = let (a, w) = f s.world in (ok a, record { world = w; log = s.log ++ c ∷ [] })

module _ {W C A B : Type 0} where
  -- What follows a step: nothing after an error.
  abbrev pub after : (A → M W C B) → Outcome A × Run W C → Outcome B × Run W C
  after f (ok a, s) = f a s
  after f (err e, s) = (err e, s)

  infixl 5 ◌>>=◌ ◌>>◌
  unfoldable pub ◌>>=◌ : M W C A → (A → M W C B) → M W C B
  unfolding pure raise ask send
  ◌>>=◌ m f s = after f (m s)

  abbrev pub ◌>>◌ : M W C A → M W C B → M W C B
  m >> k = m >>= λ _. k

  -- The switch on the error of a `Get`: any error but "not found" is returned.
  unfoldable pub on_got : Got A → M W C B → (A → M W C B) → M W C B
  unfolding raise
  on_got (got a) missing found = found a
  on_got not_found missing found = missing
  on_got (get_failed e) missing found = raise e

module _ {W C A : Type 0} where
  -- The switch on the error of a `Create`: any error but "already exists" is returned.
  unfoldable pub on_made : Made → M W C A → M W C A → M W C A
  unfolding raise
  on_made made created exists = created
  on_made already_exists created exists = exists
  on_made (create_failed e) created exists = raise e

  -- `if err != nil { return …, err }`.
  unfoldable pub need : Answer A → M W C A
  unfolding pure raise
  need (answer a) = pure a
  need (refused e) = raise e

-- A duration is its number of nanoseconds.
abbrev pub seconds : ℕ → ℕ
seconds n = n * 1000000000

-- `ctrl.Result`: no requeue, or one after a duration.
pub data CtrlResult : Type 0 where
  no_requeue : CtrlResult
  requeue_after : ℕ → CtrlResult

-- k8s.io/apimachinery/pkg/api/meta: `SetStatusCondition`, with whether the conditions changed, and
-- `IsStatusConditionTrue`.
pub record ConditionApi : Type 0 where
  pub set_status_condition : List Condition → Condition → List Condition × Bool
  pub is_status_condition_true : List Condition → String → Bool
