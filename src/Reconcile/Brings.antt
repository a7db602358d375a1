-- ===== src/Reconcile/Brings.antt =====
-- What the requests of a run may add to a view of its log, where the answers of the world decide it.
use mathlib.Core.List.{append-nil}
use pbs_k8s_operator.Base.{
  Bool, true, false, List, [], ◌++◌, ◌≡◌, refl, sym, ap, ◌∙◌, if◌then◌else◌,
}
use pbs_k8s_operator.Reconcile.{
  Run, Outcome, ok, err, after, M, ask, on_got, ◌>>=◌, Got, got, not_found, get_failed,
}
use pbs_k8s_operator.Reconcile.Effects.{view, Adds, Keeps, Keeps-raise, Keeps-after}
use pbs_k8s_operator.Reconcile.Returns.{From, Returns, IsGood}

-- However the run ends, what the action adds to the view satisfies `P`.
pub record Brings {W C V A : Type 0} (see : C → List V) (P : List V → Type 0) (m : M W C A)
    : Type 0 where
  pub at : (s : Run W C) → (xs : List V) × (view see (m s).1.log ≡ view see s.log ++ xs) × P xs

module _ {W C V A : Type 0} {see : C → List V} {P : List V → Type 0} where
  pub Brings-Adds : (xs : List V) (m : M W C A) → P xs → Adds see xs m → Brings see P m
  Brings-Adds xs m p h = record { at = λ s. (xs, h.at s, p) }

  pub Brings-Keeps : (m : M W C A) → P [] → Keeps see m → Brings see P m
  Brings-Keeps m p h = record { at = λ s. ([], h.at s ∙ sym (append-nil (view see s.log)), p) }

  -- A read, and what follows it for an answer that it can have.
  pub Brings-asked :
      {B : Type 0} (f : W → B × W) (k : B → M W C A)
      → ((b : B) → From f b → Brings see P (k b))
      → Brings see P (ask f >>= k)
  unfolding ◌>>=◌ ask
  Brings-asked f k h = record {
    at = λ s. (h (f s.world).0 (s.world, refl)).at (record { world = (f s.world).1; log = s.log });
  }

  pub Brings-ask :
      {B : Type 0} (f : W → B × W) (k : B → M W C A)
      → ((b : B) → Brings see P (k b))
      → Brings see P (ask f >>= k)
  Brings-ask f k h = Brings-asked f k λ b from. h b

  pub Brings-if :
      (b : Bool) (m n : M W C A)
      → (b ≡ true → Brings see P m)
      → (b ≡ false → Brings see P n)
      → Brings see P (if b then m else n)
  Brings-if true m n h k = h refl
  Brings-if false m n h k = k refl

  pub Brings-on_got_of :
      {B : Type 0} (r o : Got B) (m : M W C A) (f : B → M W C A)
      → r ≡ o
      → P []
      → (r ≡ not_found → Brings see P m)
      → ((b : B) → r ≡ got b → Brings see P (f b))
      → Brings see P (on_got o m f)
  unfolding on_got
  Brings-on_got_of r (got b) m f e p h k = k b e
  Brings-on_got_of r not_found m f e p h k = h e
  Brings-on_got_of r (get_failed x) m f e p h k = Brings-Keeps _ p (Keeps-raise x)

  pub Brings-on_got :
      {B : Type 0} (r : Got B) (m : M W C A) (f : B → M W C A)
      → P []
      → Brings see P m
      → ((b : B) → Brings see P (f b))
      → Brings see P (on_got r m f)
  Brings-on_got r m f p h k = Brings-on_got_of r r m f refl p (λ e. h) (λ b e. k b)

module _ {W C V A B : Type 0} {see : C → List V} {P : List V → Type 0} where
  Brings-after :
      {Q : B → Type 0} (f : B → M W C A) (r : Outcome B × Run W C) (l : List V)
      → view see r.1.log ≡ l
      → IsGood Q r.0
      → P []
      → ((b : B) → Q b → Brings see P (f b))
      → (xs : List V) × (view see (after f r).1.log ≡ l ++ xs) × P xs
  Brings-after f (ok b, s) l e q p h =
      let (xs, e', p') = (h b q).at s in (xs, e' ∙ ap (λ v. v ++ xs) e, p')
  Brings-after f (err x, s) l e q p h = ([], e ∙ sym (append-nil l), p)

  -- A quiet step whose value satisfies `Q`, and what follows it.
  pub Brings-bind :
      {Q : B → Type 0} (m : M W C B) (f : B → M W C A)
      → Keeps see m
      → Returns Q m
      → P []
      → ((b : B) → Q b → Brings see P (f b))
      → Brings see P (m >>= f)
  unfolding ◌>>=◌
  Brings-bind m f k r p h = record {
    at = λ s. Brings-after f (m s) (view see s.log) (k.at s) (r.at s) p h;
  }

  -- A step, and what follows it quietly.
  pub Brings-quiet :
      (m : M W C B) (f : B → M W C A)
      → Brings see P m
      → ((b : B) → Keeps see (f b))
      → Brings see P (m >>= f)
  unfolding ◌>>=◌
  Brings-quiet m f h k = record {
    at = λ s. let (xs, e, p) = h.at s in (xs, Keeps-after f (m s) (view see s.log ++ xs) k e, p);
  }
