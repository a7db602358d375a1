-- ===== src/Reconcile/Posts.antt =====
-- What holds of the value and of the log where a run ends without an error.
use pbs_k8s_operator.Base.{Bool, true, false, List, if◌then◌else◌, ◌++◌, ◌≡◌}
use pbs_k8s_operator.Reconcile.{
  Run, Outcome, ok, err, after, M, pure, on_got, ◌>>=◌, Got, got, not_found, get_failed,
}
use pbs_k8s_operator.Reconcile.Effects.{view}
use pbs_k8s_operator.Reconcile.Sequence.{Gives, Ends}

abbrev pub IsLeft : {A C : Type 0} → (A → List C → Type 0) → Outcome A → List C → Type 0
IsLeft P (ok a) log = P a log
IsLeft P (err e) log = Unit

pub record Posts {W C A : Type 0} (P : A → List C → Type 0) (m : M W C A) : Type 0 where
  pub at : (s : Run W C) → IsLeft P (m s).0 (m s).1.log

module _ {W C A : Type 0} {P : A → List C → Type 0} where
  pub Posts-pure : (a : A) → ((log : List C) → P a log) → Posts {W = W} P (pure a)
  unfolding pure
  Posts-pure a h = record { at = λ s. h s.log }

  pub Posts-if : (b : Bool) (m n : M W C A) → Posts P m → Posts P n → Posts P (if b then m else n)
  Posts-if true m n h k = h
  Posts-if false m n h k = k

  pub Posts-on_got :
      {B : Type 0} (r : Got B) (m : M W C A) (f : B → M W C A)
      → Posts P m
      → ((b : B) → Posts P (f b))
      → Posts P (on_got r m f)
  unfolding on_got
  Posts-on_got (got b) m f h k = k b
  Posts-on_got not_found m f h k = h
  Posts-on_got (get_failed e) m f h k = record { at = λ s. tt }

  Posts-after :
      {B : Type 0} (f : B → M W C A) (r : Outcome B × Run W C)
      → ((b : B) → Posts P (f b))
      → IsLeft P (after f r).0 (after f r).1.log
  Posts-after f (ok b, s) h = (h b).at s
  Posts-after f (err e, s) h = tt

  -- Whatever comes first.
  pub Posts-bind :
      {B : Type 0} (m : M W C B) (f : B → M W C A) → ((b : B) → Posts P (f b)) → Posts P (m >>= f)
  unfolding ◌>>=◌
  Posts-bind m f h = record { at = λ s. Posts-after f (m s) h }

IsLeft-of_Ends :
    {A C V : Type 0} (R : A → List V → Type 0) (E : List V → Type 0) (P : A → List C → Type 0)
    (see : C → List V) (o : Outcome A) (l log : List C) (xs : List V)
    → view see log ≡ view see l ++ xs
    → ((a : A) → R a xs → P a log)
    → Ends R E o xs
    → IsLeft P o log
IsLeft-of_Ends R E P see (ok a) l log xs e h r = h a r
IsLeft-of_Ends R E P see (err x) l log xs e h r = tt

-- What an action adds to a view, read off the log.
pub Posts-Gives :
    {W C A V : Type 0} {R : A → List V → Type 0} {E : List V → Type 0} {P : A → List C → Type 0}
    {see : C → List V} (m : M W C A)
    → ((a : A) (l log : List C) (xs : List V) → view see log ≡ view see l ++ xs → R a xs → P a log)
    → Gives see R E m
    → Posts P m
Posts-Gives {R = R} {E = E} {P = P} {see = see} m h k = record {
  at = λ s.
      let (xs, e, r) = (k.at s) in
      IsLeft-of_Ends R E P see (m s).0 s.log (m s).1.log xs e (λ a q. h a s.log (m s).1.log xs e q)
        r;
}
