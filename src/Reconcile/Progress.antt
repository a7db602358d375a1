-- ===== src/Reconcile/Progress.antt =====
-- A reconcile that never loses its object: it comes back, or the last that it does is to end it.
use mathlib.Core.List.{append-nil}
use pbs_k8s_operator.Base.{List, [], ◌∷◌, ◌++◌, ◌≡◌, ap, ◌∙◌}
use pbs_k8s_operator.Reconcile.{M, ◌>>=◌, CtrlResult, no_requeue, requeue_after}
use pbs_k8s_operator.Reconcile.Effects.{view, Keeps, Adds-of_Keeps}
use pbs_k8s_operator.Reconcile.Returns.{IsWithin, Returns}
use pbs_k8s_operator.Reconcile.Sequence.{Gives, Gives-Adds, Gives-chain}
use pbs_k8s_operator.Reconcile.Posts.{Posts, Posts-Gives}

module _ {C V : Type 0} (see : C → List V) (Final : V → Type 0) where
  -- The last thing of the log that is seen is final.
  pub record IsOver (log : List C) : Type 0 where
    pub before : List V
    pub end : V
    pub last : view see log ≡ before ++ end ∷ []
    pub final : Final end

  -- The controller comes back within five minutes, or it is over.
  abbrev pub GoesOn : CtrlResult → List C → Type 0
  GoesOn no_requeue log = IsOver log
  GoesOn (requeue_after n) log = IsWithin 300 (requeue_after n)

  -- Just `v` is seen of a step.
  abbrev pub Shows : {A : Type 0} → V → A → List V → Type 0
  Shows v a xs = xs ≡ v ∷ []

  abbrev pub Anything : List V → Type 0
  Anything xs = Unit {0}

  over_of :
      (v : V) (r : CtrlResult) (l log : List C) (xs : List V)
      → Final v
      → view see log ≡ view see l ++ xs
      → (r ≡ no_requeue) × Shows v r xs
      → GoesOn r log
  over_of v no_requeue l log xs final e (is, h) = record {
    before = view see l;
    end = v;
    last = e ∙ ap (λ (xs : List V). view see l ++ xs) h;
    final = final;
  }
  over_of v (requeue_after n) l log xs final e (is, h) = absurd (cc is)

  -- Something final, and what follows it quietly up to the end.
  pub closes :
      {W A : Type 0} (v : V) (m : M W C A) (k : A → M W C CtrlResult)
      → Final v
      → Gives see (Shows v) Anything m
      → ((a : A) → Keeps see (k a))
      → ((a : A) → Returns (λ (r : CtrlResult). r ≡ no_requeue) (k a))
      → Posts GoesOn (m >>= k)
  closes v m k final h q r =
      Posts-Gives {R = λ r xs. (r ≡ no_requeue) × Shows v r xs} {E = Anything} _
        (λ a l log xs e g. over_of v a l log xs final e g)
        (Gives-chain m k h (λ ys u. tt)
          λ a ys g.
            Gives-Adds [] (k a) (λ a is. (is, append-nil ys ∙ g)) tt (Adds-of_Keeps _ (q a)) (r a))
