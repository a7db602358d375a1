-- ===== src/Agent/Reports.antt =====
-- How a run of the agent ends: with one report in the termination log, and with an exit code that
-- agrees with it.
use pbs_k8s_operator.Base.{
  ℕ, String, Option, none, some, List, [], ◌∷◌, ◌++◌, ◌≡◌, ◌≢◌, refl, sym, ap, ◌∙◌,
}
use mathlib.Core.Path.{subst}
use mathlib.Core.List.{append-nil}
use pbs_k8s_operator.Reconcile.{M, Answer, answer, refused, pure, ask, send, ◌>>=◌}
use pbs_k8s_operator.Reconcile.Effects.{view, Adds-send, Keeps-send}
use pbs_k8s_operator.Reconcile.Sequence.{Gives, Gives-pure, Gives-chain, Gives-shift, Gives-map}
use pbs_k8s_operator.Reconcile.Returns.{From}
use pbs_k8s_operator.Agent.Process.{
  Os, Call, termlog, remove, create_temp, write_temp, close_temp, Report, failure, say,
  after_termlog, write_termlog, fail, succeed, on_answer, on_run, ClientError, Ran, drop_temp,
  temp_file,
}

-- The reports that the requests of a log write.
abbrev pub reports : Call → List Report
reports (termlog path r) = r ∷ []
reports _ = []

-- The exit code is 0 just for a report of success.
abbrev pub Agrees : ℕ → Report → Type 0
Agrees code (failure message) = code ≢ 0
Agrees code _ = code ≡ 0

-- Just one report, which agrees with the exit code.
abbrev pub IsReported : ℕ → List Report → Type 0
IsReported code xs = (r : Report) × (xs ≡ r ∷ []) × Agrees code r

abbrev pub Never : List Report → Type 0
Never xs = ⊥

-- An action that reports nothing and does not fail.
abbrev pub Silent : {W A : Type 0} → M W Call A → Type 0
Silent m = Gives reports (λ a xs. xs ≡ []) Never m

module _ {W A : Type 0} where
  pub Silent-send : (c : Call) (f : W → A × W) → reports c ≡ [] → Silent (send c f)
  unfolding send
  Silent-send c f e = record {
    at = λ s.
        ([], (Keeps-send {see = reports} c f e).at s ∙ sym (append-nil (view reports s.log)), refl);
  }

  pub Silent-ask : (f : W → A × W) → Silent (ask f)
  unfolding ask
  Silent-ask f = record { at = λ s. ([], sym (append-nil (view reports s.log)), refl) }

  pub Silent-pure : (a : A) → Silent {W = W} (pure a)
  Silent-pure a = Gives-pure a refl

-- What follows a silent step.
pub after-Silent :
    {W A B : Type 0} {S : B → List Report → Type 0} (m : M W Call A) (k : A → M W Call B)
    → Silent m
    → ((a : A) → Gives reports S Never (k a))
    → Gives reports S Never (m >>= k)
after-Silent {S = S} m k h g =
    Gives-chain m k h (λ ys n. n) λ a ys e. Gives-shift {R = S} {E = Never} (k a) ys e (g a)

module _ {W A B : Type 0} {S : B → List Report → Type 0} where
  -- What follows a silent request, for an answer that it can have.
  pub after_send :
      (c : Call) (f : W → A × W) (k : A → M W Call B)
      → reports c ≡ []
      → ((a : A) → From f a → Gives reports S Never (k a))
      → Gives reports S Never (send c f >>= k)
  unfolding send
  after_send c f k e h =
      Gives-chain {R = λ a xs. (xs ≡ []) × From f a} {E = Never} _ k
        (record {
          at = λ s. (
            [],
            (Keeps-send {see = reports} c f e).at s ∙ sym (append-nil (view reports s.log)),
            (refl, (s.world, refl)),
          );
        })
        (λ ys n. n) λ a ys g. Gives-shift {R = S} {E = Never} (k a) ys g.0 (h a g.1)

  pub after_ask :
      (f : W → A × W) (k : A → M W Call B)
      → ((a : A) → From f a → Gives reports S Never (k a))
      → Gives reports S Never (ask f >>= k)
  unfolding ask
  after_ask f k h =
      Gives-chain {R = λ a xs. (xs ≡ []) × From f a} {E = Never} _ k
        (record { at = λ s. ([], sym (append-nil (view reports s.log)), (refl, (s.world, refl))) })
        (λ ys n. n) λ a ys g. Gives-shift {R = S} {E = Never} (k a) ys g.0 (h a g.1)

-- What was added, with a silent step after it.
pub before_silent :
    {W A B : Type 0} (P : List Report → Type 0) (Q : B → Type 0) (m : M W Call A)
    (k : A → M W Call B)
    → Gives reports (λ a xs. P xs) Never m
    → ((a : A) → Gives reports (λ b xs. (xs ≡ []) × Q b) Never (k a))
    → Gives reports (λ b xs. P xs × Q b) Never (m >>= k)
before_silent P Q m k h g =
    Gives-chain {R = λ a xs. P xs} {E = Never} m k h (λ ys n. n)
      λ a ys p.
        Gives-map {R = λ b xs. (xs ≡ []) × Q b} {E = Never} (k a)
          (λ b zs z.
            (subst P (sym (ap (λ (zs : List Report). ys ++ zs) z.0 ∙ append-nil ys)) p, z.1))
          (g a)

module _ {W : Type 0} (os : Os W) where
  abbrev pub Reporting : M W Call ℕ → Type 0
  Reporting m = Gives reports IsReported Never m

  pub say-Silent : (line : String) → Silent (say os line)
  say-Silent line = Silent-send _ os.print refl

  after_termlog-Silent : (a : Answer (Unit {0})) → Silent (after_termlog os a)
  after_termlog-Silent (answer u) = Silent-pure tt
  after_termlog-Silent (refused e) = say-Silent _

  -- A report is written, something is said, and the process exits.
  closing :
      {A : Type 0} (path : String) (r : Report) (code : ℕ) (m : M W Call A)
      → Silent m
      → Gives reports
          (λ c xs. (xs ≡ r ∷ []) × (c ≡ code))
          Never
          (write_termlog os path r >>= λ u. m >>= λ v. pure code)
  unfolding write_termlog send
  closing path r code m h =
      before_silent (λ xs. xs ≡ r ∷ []) (λ c. c ≡ code) _ _
        (Gives-map {R = λ a xs. (xs ≡ r ∷ []) × Unit {0}} {E = Never} _ (λ a xs g. g.0)
          (before_silent (λ xs. xs ≡ r ∷ []) (λ a. Unit {0}) _ _ (sent path r)
            (λ a.
              Gives-map {R = λ b xs. xs ≡ []} {E = Never} _ (λ b xs e. (e, tt))
                (after_termlog-Silent a))))
        λ u. after-Silent m _ h λ v. Gives-pure code (refl, refl)
    where
      sent :
          (path : String) (r : Report)
          → Gives reports (λ a xs. xs ≡ r ∷ []) Never (send (termlog path r) (os.termlog path r))
      sent path r = record {
        at = λ s.
            (r ∷ [], (Adds-send {see = reports} (termlog path r) (os.termlog path r)).at s, refl);
      }

  exits :
      {A : Type 0} (path : String) (r : Report) (code : ℕ) (m : M W Call A)
      → Agrees code r
      → Silent m
      → Reporting (write_termlog os path r >>= λ u. m >>= λ v. pure code)
  exits path r code m agrees h =
      Gives-map {R = λ c xs. (xs ≡ r ∷ []) × (c ≡ code)} {E = Never} _
        (λ c xs g. (r, g.0, subst (λ (c : ℕ). Agrees c r) (sym g.1) agrees))
        (closing path r code m h)

  pub fail-Gives :
      (path : String) (code : ℕ) (message : String)
      → Gives reports
          (λ c xs. (xs ≡ failure message ∷ []) × (c ≡ code))
          Never
          (fail os path code message)
  unfolding fail
  fail-Gives path code message = closing path (failure message) code _ (say-Silent _)

  pub fail-Reporting :
      (path : String) (code : ℕ) (message : String)
      → code ≢ 0
      → Reporting (fail os path code message)
  unfolding fail
  fail-Reporting path code message n = exits path (failure message) code _ n (say-Silent _)

  pub succeed-Reporting : (path : String) (r : Report) → Agrees 0 r → Reporting (succeed os path r)
  unfolding succeed
  succeed-Reporting path r a = exits path r 0 _ a (Silent-send _ os.print refl)

  pub succeed-Gives :
      (path : String) (r : Report)
      → Gives reports (λ c xs. (xs ≡ r ∷ []) × (c ≡ 0)) Never (succeed os path r)
  unfolding succeed
  succeed-Gives path r = closing path r 0 _ (Silent-send _ os.print refl)

  drop_temp-Silent : {A : Type 0} (path e : String) → Silent {A = Answer A} (drop_temp os path e)
  drop_temp-Silent path e =
      after-Silent _ _ (Silent-send (remove path) (os.remove path) refl) λ u. Silent-pure _

  pub on_answer-Gives :
      {A B : Type 0} {S : B → List Report → Type 0} (a : Answer A) (failed : String → M W Call B)
      (k : A → M W Call B)
      → ((e : String) → Gives reports S Never (failed e))
      → ((a : A) → Gives reports S Never (k a))
      → Gives reports S Never (on_answer os a failed k)
  on_answer-Gives (refused e) failed k h g = h e
  on_answer-Gives (answer a) failed k h g = g a

  -- The same, with the answer's equation.
  pub on_answer_of :
      {A B : Type 0} {S : B → List Report → Type 0} (x o : Answer A) (failed : String → M W Call B)
      (k : A → M W Call B)
      → x ≡ o
      → ((e : String) → Gives reports S Never (failed e))
      → ((a : A) → x ≡ answer a → Gives reports S Never (k a))
      → Gives reports S Never (on_answer os o failed k)
  on_answer_of x (refused e) failed k is h g = h e
  on_answer_of x (answer a) failed k is h g = g a is

  pub on_run_of :
      {B : Type 0} {S : B → List Report → Type 0} (r : Ran) (o : Option ClientError)
      (failed : ClientError → M W Call B) (k : M W Call B)
      → r.failure ≡ o
      → ((e : ClientError) → Gives reports S Never (failed e))
      → (r.failure ≡ none → Gives reports S Never k)
      → Gives reports S Never (on_run os o failed k)
  on_run_of r (some e) failed k is h g = h e
  on_run_of r none failed k is h g = g is

  pub temp_file-Silent : (pattern content : String) → Silent (temp_file os pattern content)
  unfolding temp_file
  temp_file-Silent pattern content =
      after-Silent _ _ (Silent-send (create_temp pattern) (os.create_temp pattern) refl) λ p.
        on_answer-Gives p _ _ (λ e. Silent-pure _)
          λ path.
            after-Silent _ _
              (Silent-send (write_temp path content) (os.write_temp path content) refl)
              λ w.
                on_answer-Gives w _ _ (λ e. drop_temp-Silent path e)
                  λ u.
                    after-Silent _ _ (Silent-send (close_temp path) (os.close_temp path) refl)
                      λ c. on_answer-Gives c _ _ (λ e. drop_temp-Silent path e) λ v. Silent-pure _
