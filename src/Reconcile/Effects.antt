-- ===== src/Reconcile/Effects.antt =====
-- What the requests of a run add to a view of its log. A view reads the requests of some kind.
use mathlib.Core.Path.{subst}
use mathlib.Core.List.{append-nil, append_assoc}
use pbs_k8s_operator.Base.{
  String, Bool, true, false, List, [], ◌∷◌, ◌++◌, ◌≡◌, refl, sym, ap, ◌∙◌, if◌then◌else◌,
}
use pbs_k8s_operator.Reconcile.{
  Run, Outcome, ok, err, after, M, pure, raise, ask, send, need, on_got, on_made, ◌>>=◌, Answer,
  answer, refused, Got, got, not_found, get_failed, Made, made, already_exists, create_failed,
}

-- A view by requests: what each request contributes.
unfoldable pub view {ℓ κ} : {C : Type ℓ} {V : Type κ} → (C → List V) → List C → List V
view see [] = []
view see (c ∷ cs) = see c ++ view see cs

view-append {ℓ κ} :
    {C : Type ℓ} {V : Type κ} (see : C → List V) (xs ys : List C)
    → view see (xs ++ ys) ≡ view see xs ++ view see ys
unfolding view
view-append see [] ys = refl
view-append see (c ∷ cs) ys =
    ap (λ l. see c ++ l) (view-append see cs ys)
    ∙ sym (append_assoc (see c) (view see cs) (view see ys))

-- However the run ends, the action adds `xs` to the view.
pub record Adds {W C V A : Type 0} (see : C → List V) (xs : List V) (m : M W C A) : Type 0 where
  pub at : (s : Run W C) → view see (m s).1.log ≡ view see s.log ++ xs

-- The action adds nothing to the view.
pub record Keeps {W C V A : Type 0} (see : C → List V) (m : M W C A) : Type 0 where
  pub at : (s : Run W C) → view see (m s).1.log ≡ view see s.log

module _ {W C V A : Type 0} {see : C → List V} where
  pub Keeps-pure : (a : A) → Keeps {W = W} see (pure a)
  unfolding pure
  Keeps-pure a = record { at = λ s. refl }

  pub Keeps-raise : (e : String) → Keeps {W = W} {A = A} see (raise e)
  unfolding raise
  Keeps-raise e = record { at = λ s. refl }

  pub Keeps-ask : (f : W → A × W) → Keeps see (ask f)
  unfolding ask
  Keeps-ask f = record { at = λ s. refl }

  pub Keeps-need : (r : Answer A) → Keeps {W = W} see (need r)
  unfolding need
  Keeps-need (answer a) = Keeps-pure a
  Keeps-need (refused e) = Keeps-raise e

  pub Keeps-if :
      (b : Bool) (m n : M W C A) → Keeps see m → Keeps see n → Keeps see (if b then m else n)
  Keeps-if true m n km kn = km
  Keeps-if false m n km kn = kn

  pub Keeps-on_made :
      (r : Made) (m n : M W C A) → Keeps see m → Keeps see n → Keeps see (on_made r m n)
  unfolding on_made
  Keeps-on_made made m n km kn = km
  Keeps-on_made already_exists m n km kn = kn
  Keeps-on_made (create_failed e) m n km kn = Keeps-raise e

  pub Adds-send : (c : C) (f : W → A × W) → Adds see (see c) (send c f)
  unfolding view send
  Adds-send c f = record {
    at = λ s. view-append see s.log (c ∷ []) ∙ ap (λ l. view see s.log ++ l) (append-nil (see c));
  }

  pub Keeps-of_Adds : (m : M W C A) → Adds see [] m → Keeps see m
  Keeps-of_Adds m h = record { at = λ s. h.at s ∙ append-nil (view see s.log) }

  pub Keeps-send : (c : C) (f : W → A × W) → see c ≡ [] → Keeps see (send c f)
  Keeps-send c f e =
      Keeps-of_Adds (send c f) (subst (λ xs. Adds see xs (send c f)) e (Adds-send c f))

  pub Adds-of_Keeps : (m : M W C A) → Keeps see m → Adds see [] m
  Adds-of_Keeps m h = record { at = λ s. h.at s ∙ sym (append-nil (view see s.log)) }

  pub Adds-if :
      (b : Bool) (m n : M W C A) (xs ys : List V)
      → Adds see xs m
      → Adds see ys n
      → Adds see (if b then xs else ys) (if b then m else n)
  Adds-if true m n xs ys km kn = km
  Adds-if false m n xs ys km kn = kn

module _ {W C V A B : Type 0} {see : C → List V} where
  pub Keeps-on_got :
      (r : Got A) (m : M W C B) (f : A → M W C B)
      → Keeps see m
      → ((a : A) → Keeps see (f a))
      → Keeps see (on_got r m f)
  unfolding on_got
  Keeps-on_got (got a) m f km kf = kf a
  Keeps-on_got not_found m f km kf = km
  Keeps-on_got (get_failed e) m f km kf = Keeps-raise e

  pub Keeps-after :
      (f : A → M W C B) (r : Outcome A × Run W C) (l : List V)
      → ((a : A) → Keeps see (f a))
      → view see r.1.log ≡ l
      → view see (after f r).1.log ≡ l
  Keeps-after f (ok a, s) l kf h = (kf a).at s ∙ h
  Keeps-after f (err e, s) l kf h = h

  pub Keeps-bind :
      (m : M W C A) (f : A → M W C B)
      → Keeps see m
      → ((a : A) → Keeps see (f a))
      → Keeps see (m >>= f)
  unfolding ◌>>=◌
  Keeps-bind m f km kf = record { at = λ s. Keeps-after f (m s) (view see s.log) kf (km.at s) }

  pub Adds-bind :
      (m : M W C A) (f : A → M W C B) (xs : List V)
      → Adds see xs m
      → ((a : A) → Keeps see (f a))
      → Adds see xs (m >>= f)
  unfolding ◌>>=◌
  Adds-bind m f xs km kf = record {
    at = λ s. Keeps-after f (m s) (view see s.log ++ xs) kf (km.at s);
  }

pub ruleset keeps_rules = (
  Keeps-pure, Keeps-raise, Keeps-ask, Keeps-need, Keeps-if, Keeps-on_made, Keeps-on_got, Keeps-bind,
)
