-- ===== src/Reconcile/Sequence.antt =====
-- What the requests of a run add to a view in one part of it after another.
use mathlib.Core.Path.{subst}
use mathlib.Core.List.{append-nil, append_assoc}
use pbs_k8s_operator.Base.{
  String, Bool, true, false, List, [], ◌++◌, ◌≡◌, refl, sym, ap, ◌∙◌, if◌then◌else◌,
}
use pbs_k8s_operator.Reconcile.{Run, Outcome, ok, err, after, M, pure, raise, ask, ◌>>=◌}
use pbs_k8s_operator.Reconcile.Effects.{view, Adds, Keeps, Adds-of_Keeps}
use pbs_k8s_operator.Reconcile.Returns.{IsGood, Returns, Returns-any}
use pbs_k8s_operator.Reconcile.Brings.{Brings}

-- A part that satisfies `P`, then one that satisfies `Q`.
pub record Then {V : Type 0} (P Q : List V → Type 0) (xs : List V) : Type 0 where
  pub front : List V
  pub back : List V
  pub split : xs ≡ front ++ back
  pub fst_holds : P front
  pub snd_holds : Q back

-- However the run ends, what the action adds to the view satisfies `E`, and `R` with its value where
-- it has one.
abbrev pub Ends :
    {A V : Type 0} → (A → List V → Type 0) → (List V → Type 0) → Outcome A → List V → Type 0
Ends R E (ok a) xs = R a xs
Ends R E (err e) xs = E xs

pub record Gives {W C V A : Type 0} (see : C → List V) (R : A → List V → Type 0)
    (E : List V → Type 0) (m : M W C A) : Type 0 where
  pub at :
      (s : Run W C)
      → (xs : List V) × (view see (m s).1.log ≡ view see s.log ++ xs) × Ends R E (m s).0 xs

module _ {W C V A B : Type 0} {see : C → List V} where
  Gives-after :
      {R : A → List V → Type 0} {E Q : List V → Type 0} (f : A → M W C B) (r : Outcome A × Run W C)
      (l xs : List V)
      → view see r.1.log ≡ l ++ xs
      → Ends R E r.0 xs
      → ((ys : List V) → E ys → Q ys)
      → ((a : A) (ys : List V) → R a ys → Brings see (λ zs. Q (ys ++ zs)) (f a))
      → (ys : List V) × (view see (after f r).1.log ≡ l ++ ys) × Q ys
  Gives-after f (ok a, s) l xs e h q k =
      let (ys, e', p) = (k a xs h).at s in
      (xs ++ ys, e' ∙ ap (λ v. v ++ ys) e ∙ append_assoc l xs ys, p)
  Gives-after f (err x, s) l xs e h q k = (xs, e, q xs h)

  -- A step whose value says what it added, and what follows.
  pub Gives-bind :
      {R : A → List V → Type 0} {E Q : List V → Type 0} (m : M W C A) (f : A → M W C B)
      → Gives see R E m
      → ((ys : List V) → E ys → Q ys)
      → ((a : A) (ys : List V) → R a ys → Brings see (λ zs. Q (ys ++ zs)) (f a))
      → Brings see Q (m >>= f)
  unfolding ◌>>=◌
  Gives-bind m f h q k = record {
    at = λ s. let (xs, e, r) = (h.at s) in Gives-after f (m s) (view see s.log) xs e r q k;
  }

Ends-any :
    {A V : Type 0} (P : List V → Type 0) (o : Outcome A) (xs : List V) → P xs → Ends (λ a. P) P o xs
Ends-any P (ok a) xs p = p
Ends-any P (err e) xs p = p

abbrev pub Then-join :
    {V : Type 0} {P Q : List V → Type 0} (xs ys : List V) → P xs → Q ys → Then P Q (xs ++ ys)
Then-join xs ys p q = record { front = xs; back = ys; split = refl; fst_holds = p; snd_holds = q }

-- A run whose first request is a read with a known answer.
pub ask-known :
    {W C A B : Type 0} (f : W → A × W) (k : A → M W C B) (s : Run W C) (a : A) (w : W)
    → f s.world ≡ (a, w)
    → (ask f >>= k) s ≡ k a (record s { world = w })
unfolding ◌>>=◌ ask
ask-known {W = W} {A = A} f k s a w e = ap (λ (r : A × W). k r.0 (record s { world = r.1 })) e

module _ {W C V A : Type 0} {see : C → List V} where
  pub Brings-map :
      {P Q : List V → Type 0} (m : M W C A)
      → ((xs : List V) → P xs → Q xs)
      → Brings see P m
      → Brings see Q m
  Brings-map m h k = record { at = λ s. let (xs, e, p) = (k.at s) in (xs, e, h xs p) }

  -- A read with a known answer that leaves the world as it is.
  pub Brings-known :
      {P : List V → Type 0} {B : Type 0} (f : W → B × W) (k : B → M W C A) (b : B)
      → ((w : W) → f w ≡ (b, w))
      → Brings see P (k b)
      → Brings see P (ask f >>= k)
  Brings-known f k b same h = record {
    at = λ s.
        let (xs, e, p) = (h.at s) in
        (
          xs,
          ap (λ (o : Outcome A × Run W C). view see o.1.log)
                (ask-known f k s b s.world (same s.world))
              ∙ e,
          p,
        );
  }

  -- A first part with nothing in it.
  pub Brings-second :
      {P Q : List V → Type 0} (m : M W C A) → P [] → Brings see Q m → Brings see (Then P Q) m
  Brings-second m p h = Brings-map m (λ xs q. Then-join [] xs p q) h

module _ {W C V A B : Type 0} {see : C → List V} where
  -- Two parts, one after the other.
  pub Brings-step :
      {P Q R : List V → Type 0} (m : M W C A) (f : A → M W C B)
      → ((xs ys : List V) → P xs → Q ys → R (xs ++ ys))
      → Q []
      → Brings see P m
      → ((a : A) → Brings see Q (f a))
      → Brings see R (m >>= f)
  Brings-step {P = P} {R = R} m f join none h k =
      Gives-bind {R = λ a. P} {E = P} m f
        (record { at = λ s. let (xs, e, p) = (h.at s) in (xs, e, Ends-any P (m s).0 xs p) })
        (λ xs p. subst R (append-nil xs) (join xs [] p none))
        λ a xs p. record { at = λ s. let (ys, e, q) = ((k a).at s) in (ys, e, join xs ys p q) }

Ends-shift :
    {A V : Type 0} (S : A → List V → Type 0) (F : List V → Type 0) (o : Outcome A) (xs ys : List V)
    → Ends (λ b zs. S b (xs ++ zs)) (λ zs. F (xs ++ zs)) o ys
    → Ends S F o (xs ++ ys)
Ends-shift S F (ok b) xs ys p = p
Ends-shift S F (err x) xs ys p = p

good_Ends :
    {A V : Type 0} {Q : A → Type 0} (R : A → List V → Type 0) (E : List V → Type 0) (o : Outcome A)
    (xs : List V)
    → ((a : A) → Q a → R a xs)
    → E xs
    → IsGood Q o
    → Ends R E o xs
good_Ends R E (ok a) xs h e q = h a q
good_Ends R E (err x) xs h e q = e

Ends-map :
    {A V : Type 0} (R S : A → List V → Type 0) (E : List V → Type 0) (o : Outcome A) (xs : List V)
    → ((a : A) → R a xs → S a xs)
    → Ends R E o xs
    → Ends S E o xs
Ends-map R S E (ok a) xs h r = h a r
Ends-map R S E (err x) xs h r = r

module _ {W C V A : Type 0} {see : C → List V} {R : A → List V → Type 0} {E : List V → Type 0} where
  pub Gives-map :
      {S : A → List V → Type 0} (m : M W C A)
      → ((a : A) (xs : List V) → R a xs → S a xs)
      → Gives see R E m
      → Gives see S E m
  Gives-map {S = S} m h k = record {
    at = λ s. let (xs, e, r) = (k.at s) in (xs, e, Ends-map R S E (m s).0 xs (λ a. h a xs) r);
  }

  pub Gives-pure : (a : A) → R a [] → Gives {W = W} see R E (pure a)
  unfolding pure
  Gives-pure a r = record { at = λ s. ([], sym (append-nil (view see s.log)), r) }

  pub Gives-raise : (e : String) → E [] → Gives {W = W} see R E (raise e)
  unfolding raise
  Gives-raise e r = record { at = λ s. ([], sym (append-nil (view see s.log)), r) }

  pub Gives-if :
      (b : Bool) (m n : M W C A)
      → (b ≡ true → Gives see R E m)
      → (b ≡ false → Gives see R E n)
      → Gives see R E (if b then m else n)
  Gives-if true m n h k = h refl
  Gives-if false m n h k = k refl

  -- An action that adds `xs` and returns what satisfies `Q`.
  pub Gives-Adds :
      {Q : A → Type 0} (xs : List V) (m : M W C A)
      → ((a : A) → Q a → R a xs)
      → E xs
      → Adds see xs m
      → Returns Q m
      → Gives see R E m
  Gives-Adds xs m h e k r = record { at = λ s. (xs, k.at s, good_Ends R E (m s).0 xs h e (r.at s)) }

  -- After nothing.
  pub Gives-shift :
      (m : M W C A) (ys : List V)
      → ys ≡ []
      → Gives see R E m
      → Gives see (λ a zs. R a (ys ++ zs)) (λ zs. E (ys ++ zs)) m
  Gives-shift m ys e h =
      subst (λ (ys : List V). Gives see (λ a zs. R a (ys ++ zs)) (λ zs. E (ys ++ zs)) m) (sym e) h

  -- A read with a known answer that leaves the world as it is.
  pub Gives-known :
      {B : Type 0} (f : W → B × W) (k : B → M W C A) (b : B)
      → ((w : W) → f w ≡ (b, w))
      → Gives see R E (k b)
      → Gives see R E (ask f >>= k)
  Gives-known f k b same h = record {
    at = λ s.
        let (xs, e, r) = (h.at s) in
        let known = ask-known f k s b s.world (same s.world) in
        (
          xs,
          ap (λ (o : Outcome A × Run W C). view see o.1.log) known ∙ e,
          subst (λ (o : Outcome A × Run W C). Ends R E o.0 xs) (sym known) r,
        );
  }

module _ {W C V A B : Type 0} {see : C → List V} where
  Gives-later :
      {R : A → List V → Type 0} {E F : List V → Type 0} (S : B → List V → Type 0) (f : A → M W C B)
      (r : Outcome A × Run W C) (l xs : List V)
      → view see r.1.log ≡ l ++ xs
      → Ends R E r.0 xs
      → ((ys : List V) → E ys → F ys)
      → ((a : A) (ys : List V)
          → R a ys
          → Gives see (λ b zs. S b (ys ++ zs)) (λ zs. F (ys ++ zs)) (f a))
      → (ys : List V) × (view see (after f r).1.log ≡ l ++ ys) × Ends S F (after f r).0 ys
  Gives-later {F = F} S f (ok a, s) l xs e h q k =
      let (ys, e', p) = ((k a xs h).at s) in
      (xs ++ ys, e' ∙ ap (λ v. v ++ ys) e ∙ append_assoc l xs ys, Ends-shift S F (f a s).0 xs ys p)
  Gives-later S f (err x, s) l xs e h q k = (xs, e, q xs h)

  -- A step whose value says what it added, and what follows it and says so too.
  pub Gives-chain :
      {R : A → List V → Type 0} {E F : List V → Type 0} {S : B → List V → Type 0} (m : M W C A)
      (f : A → M W C B)
      → Gives see R E m
      → ((ys : List V) → E ys → F ys)
      → ((a : A) (ys : List V)
          → R a ys
          → Gives see (λ b zs. S b (ys ++ zs)) (λ zs. F (ys ++ zs)) (f a))
      → Gives see S F (m >>= f)
  unfolding ◌>>=◌
  Gives-chain {S = S} m f h q k = record {
    at = λ s. let (xs, e, r) = (h.at s) in Gives-later S f (m s) (view see s.log) xs e r q k;
  }

  -- A quiet step, and what follows it.
  pub Gives-Keeps :
      {E : List V → Type 0} {S : B → List V → Type 0} (m : M W C A) (f : A → M W C B)
      → Keeps see m
      → E []
      → ((a : A) → Gives see S E (f a))
      → Gives see S E (m >>= f)
  Gives-Keeps {E = E} {S = S} m f h none k =
      Gives-chain {R = λ a xs. xs ≡ []} {E = λ xs. xs ≡ []} m f
        (Gives-Adds {Q = λ a. Unit {0}} [] m (λ a u. refl) refl (Adds-of_Keeps m h) (Returns-any m))
        (λ ys e. subst E (sym e) none) λ a ys e. Gives-shift {R = S} {E = E} (f a) ys e (k a)
