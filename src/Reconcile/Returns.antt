-- ===== src/Reconcile/Returns.antt =====
-- What a run returns where it ends without an error.
use pbs_k8s_operator.Base.{ℕ, ◌≤◌, ◌<◌, String, Bool, true, false, if◌then◌else◌, ◌≡◌, refl}
use pbs_k8s_operator.Reconcile.{
  Run, Outcome, ok, err, after, M, pure, raise, ask, need, Answer, answer, refused, on_got, on_made,
  ◌>>=◌, Got, got, not_found, get_failed, Made, made, already_exists, create_failed, CtrlResult,
  no_requeue, requeue_after, seconds,
}

-- An answer that `f` gives in some world.
abbrev pub From : {W A : Type 0} → (W → A × W) → A → Type 0
From {W = W} f a = (w : W) × ((f w).0 ≡ a)

abbrev pub IsGood : {A : Type 0} → (A → Type 0) → Outcome A → Type 0
IsGood Q (ok a) = Q a
IsGood Q (err e) = Unit

-- Whatever the world answers, the value that the action returns satisfies `Q`.
pub record Returns {W C A : Type 0} (Q : A → Type 0) (m : M W C A) : Type 0 where
  pub at : (s : Run W C) → IsGood Q (m s).0

-- The controller comes back, later than at once and within a number of seconds.
abbrev pub IsWithin : ℕ → CtrlResult → Type 0
IsWithin most no_requeue = ⊥
IsWithin most (requeue_after n) = (0 < n) × (n ≤ seconds most)

module _ {W C A : Type 0} {Q : A → Type 0} where
  pub Returns-pure : (a : A) → Q a → Returns {W = W} {C = C} Q (pure a)
  unfolding pure
  Returns-pure a q = record { at = λ s. q }

  pub Returns-raise : (e : String) → Returns {W = W} {C = C} Q (raise e)
  unfolding raise
  Returns-raise e = record { at = λ s. tt }

  pub Returns-if :
      (b : Bool) (m n : M W C A) → Returns Q m → Returns Q n → Returns Q (if b then m else n)
  Returns-if true m n h k = h
  Returns-if false m n h k = k

  pub Returns-on_made :
      (r : Made) (m n : M W C A) → Returns Q m → Returns Q n → Returns Q (on_made r m n)
  unfolding on_made
  Returns-on_made made m n h k = h
  Returns-on_made already_exists m n h k = k
  Returns-on_made (create_failed e) m n h k = Returns-raise e

  pub Returns-on_got :
      {B : Type 0} (r : Got B) (m : M W C A) (f : B → M W C A)
      → Returns Q m
      → ((b : B) → Returns Q (f b))
      → Returns Q (on_got r m f)
  unfolding on_got
  Returns-on_got (got b) m f h k = k b
  Returns-on_got not_found m f h k = h
  Returns-on_got (get_failed e) m f h k = Returns-raise e

  pub Returns-map :
      {R : A → Type 0} (m : M W C A) → ((a : A) → R a → Q a) → Returns R m → Returns Q m
  Returns-map {R} m h r = record { at = λ s. good (m s).0 (r.at s) }
    where
      good : (o : Outcome A) → IsGood R o → IsGood Q o
      good (ok a) g = h a g
      good (err e) g = tt

  Returns-after :
      {B : Type 0} (f : B → M W C A) (r : Outcome B × Run W C)
      → ((b : B) → Returns Q (f b))
      → IsGood Q (after f r).0
  Returns-after f (ok b, s) h = (h b).at s
  Returns-after f (err e, s) h = tt

  pub Returns-bind :
      {B : Type 0} (m : M W C B) (f : B → M W C A)
      → ((b : B) → Returns Q (f b))
      → Returns Q (m >>= f)
  unfolding ◌>>=◌
  Returns-bind m f h = record { at = λ s. Returns-after f (m s) h }

  -- A read, and what follows it for an answer that it can have.
  pub Returns-asked :
      {B : Type 0} (f : W → B × W) (k : B → M W C A)
      → ((b : B) → From f b → Returns Q (k b))
      → Returns Q (ask f >>= k)
  unfolding ◌>>=◌ ask
  Returns-asked f k h = record {
    at = λ s. (h (f s.world).0 (s.world, refl)).at (record { world = (f s.world).1; log = s.log });
  }

  -- A step whose value satisfies `R`, and what follows it.
  pub Returns-chain :
      {B : Type 0} {R : B → Type 0} (m : M W C B) (f : B → M W C A)
      → Returns R m
      → ((b : B) → R b → Returns Q (f b))
      → Returns Q (m >>= f)
  unfolding ◌>>=◌
  Returns-chain {R = R} m f r h = record { at = λ s. go (m s) (r.at s) }
    where
      go : (o : Outcome _ × Run W C) → IsGood R o.0 → IsGood Q (after f o).0
      go (ok b, s) g = (h b g).at s
      go (err e, s) g = tt

-- The value of an answer.
pub Returns-need :
    {W C A : Type 0} (r : Answer A) → Returns {W = W} {C = C} (λ a. r ≡ answer a) (need r)
unfolding need
Returns-need (answer a) = Returns-pure a refl
Returns-need (refused e) = Returns-raise e

IsGood-any : {A : Type 0} (o : Outcome A) → IsGood (λ _. Unit {0}) o
IsGood-any (ok a) = tt
IsGood-any (err e) = tt

-- Nothing is asked of the value.
pub Returns-any : {W C A : Type 0} (m : M W C A) → Returns (λ _. Unit {0}) m
Returns-any m = record { at = λ s. IsGood-any (m s).0 }

pub ruleset returns_rules =
    (Returns-pure, Returns-raise, Returns-if, Returns-on_made, Returns-on_got, Returns-bind)
