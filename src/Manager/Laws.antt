-- ===== src/Manager/Laws.antt =====
-- In which order the process of the operator is put together, and how its servers are set.
use mathlib.Core.Path.{subst}
use mathlib.Core.List.{append-nil}
use pbs_k8s_operator.Base.{
  ℕ, String, Bool, true, false, List, [], ◌∷◌, ◌++◌, ◌≡◌, refl, sym, ◌⊎◌, inl, inr, if◌then◌else◌,
}
use pbs_k8s_operator.Base.Text.{is_empty}
use pbs_k8s_operator.Reconcile.{Answer, answer, refused, M, ask, send, ◌>>=◌}
use pbs_k8s_operator.Reconcile.Returns.{From}
use pbs_k8s_operator.Reconcile.Effects.{view, Adds-send}
use pbs_k8s_operator.Reconcile.Sequence.{
  Gives, Gives-pure, Gives-chain, Gives-map, Gives-if, Gives-shift,
}
use pbs_k8s_operator.Manager.{
  Flags, TlsConfig, TlsOpts, disable_http2, ManagerOptions, manager_options, metrics_options,
  webhook_options, tls_opts_of, Call, info, problem, create_manager, create_dynamic,
  create_discovery, create_metrics, create_executor, or_panic, must, create_metrics,
  create_executor, or_panic, must, set_up, add_healthz, add_readyz, start, pbsrepo, pbsbackup,
  pbsschedule, pbsrestore, Env, note_cert, on_error, attempt, serve, run_manager, on_config, main,
}

-- A configuration after the options, in their order.
abbrev pub configured : TlsOpts → TlsConfig → TlsConfig
configured [] c = c
configured (opt ∷ opts) c = configured opts (opt c)

-- The protocols that a server offers.
abbrev pub Offers : TlsOpts → Bool → Type 0
Offers opts http2 =
    (c : TlsConfig)
    → (configured opts c).next_protos ≡ (if http2 then c.next_protos else "http/1.1" ∷ [])

tls_opts_of-Offers : (f : Flags) → Offers (tls_opts_of f) f.enable_http2
unfolding tls_opts_of
tls_opts_of-Offers f c = offered f.enable_http2
  where
    offered :
        (b : Bool)
        → (configured (if b then [] else disable_http2 ∷ []) c).next_protos
          ≡ (if b then c.next_protos else "http/1.1" ∷ [])
    offered true = refl
    offered false = refl

-- How the two servers are protected.
pub record IsHardened (f : Flags) (o : ManagerOptions) : Type 0 where
  pub webhook_offers : Offers o.webhook.tls_opts f.enable_http2
  pub metrics_offers : Offers o.metrics.tls_opts f.enable_http2
  pub authorized : o.metrics.with_authorization ≡ o.metrics.secure_serving

-- The webhook server and the metrics server of the manager offer just HTTP/1.1 unless the flags ask
-- for HTTP/2, and the metrics are served to those that are authorized alone exactly where they are
-- served securely.
pub manager_options-IsHardened : (f : Flags) → IsHardened f (manager_options f)
unfolding manager_options metrics_options webhook_options
manager_options-IsHardened f = record {
  webhook_offers = tls_opts_of-Offers f;
  metrics_offers = tls_opts_of-Offers f;
  authorized = refl;
}

-- The requests of a log that are not just a line of the log.
abbrev pub steps : Call → List Call
steps (info message) = []
steps (problem message) = []
steps c = c ∷ []

-- The code with which the process exits where a request fails.
abbrev pub code_of : Call → ℕ
code_of create_metrics = 2
code_of create_executor = 2
code_of c = 1

abbrev pub Never : List Call → Type 0
Never xs = ⊥

module _ {W : Type 0} (env : Env W) where
  -- A request that is answered without an error, or with one.
  abbrev pub Succeeds : Call → Type 0
  Succeeds c = From (env.request c) (answer tt)

  abbrev pub Fails : Call → Type 0
  Fails c = (e : String) × From (env.request c) (refused e)

  -- The whole plan with 0, where each of its requests succeeded; or a first part of it, each of whose
  -- requests succeeded up to the last, which failed, with the code that a failure of it has.
  pub data Ended : List Call → ℕ → List Call → Type 0 where
    served : Ended [] 0 []
    stopped :
        (c : Call) (plan : List Call) (code : ℕ)
        → code ≡ code_of c
        → Fails c
        → Ended (c ∷ plan) code (c ∷ [])
    further :
        (c : Call) (plan xs : List Call) (code : ℕ)
        → Succeeds c
        → Ended plan code xs
        → Ended (c ∷ plan) code (c ∷ xs)

  -- As the process ends: as above, or with 1 and no request where there is no configuration.
  abbrev pub Ending : List Call → ℕ → List Call → Type 0
  Ending plan code xs =
      Ended plan code xs
      ⊎ ((xs ≡ []) × (code ≡ 1) × ((e : String) × From env.get_config (refused e)))

  abbrev pub Follows : List Call → M W Call ℕ → Type 0
  Follows plan m = Gives steps (Ended plan) Never m

  send-Gives :
      {A : Type 0} (c : Call) (f : W → A × W) → Gives steps (λ a xs. xs ≡ steps c) Never (send c f)
  unfolding send
  send-Gives c f = record { at = λ s. (steps c, (Adds-send {see = steps} c f).at s, refl) }

  after_quiet :
      {A B : Type 0} {S : B → List Call → Type 0} (m : M W Call A) (k : A → M W Call B)
      → Gives steps (λ a xs. xs ≡ []) Never m
      → ((a : A) → Gives steps S Never (k a))
      → Gives steps S Never (m >>= k)
  after_quiet {S = S} m k h g =
      Gives-chain {R = λ a xs. xs ≡ []} {E = Never} m k h (λ ys n. n)
        λ a ys e.
          subst (λ ys. Gives steps (λ b zs. S b (ys ++ zs)) (λ zs. Never (ys ++ zs)) (k a)) (sym e)
            (g a)

  note_cert-Gives :
      (path message : String) → Gives steps (λ a xs. xs ≡ []) Never (note_cert env path message)
  unfolding note_cert
  note_cert-Gives path message =
      Gives-if (is_empty path) _ _ (λ e. Gives-pure tt refl) λ e. send-Gives (info message) env.log

  sent :
      (c : Call)
      → steps c ≡ c ∷ []
      → Gives steps (λ r xs. (xs ≡ c ∷ []) × From (env.request c) r) Never (send c (env.request c))
  unfolding send
  sent c e = record {
    at = λ s. (steps c, (Adds-send {see = steps} c (env.request c)).at s, (e, (s.world, refl)));
  }

  -- A step of the plan, and what follows each answer.
  step-Follows :
      (c : Call) (rest : List Call) (k : Answer (Unit {0}) → M W Call ℕ)
      → steps c ≡ c ∷ []
      → ((e : String)
          → Fails c
          → Gives steps (λ code xs. (xs ≡ []) × (code ≡ code_of c)) Never (k (refused e)))
      → Follows rest (k (answer tt))
      → Follows (c ∷ rest) (send c (env.request c) >>= k)
  step-Follows c rest k e stop go =
      Gives-chain {R = λ r xs. (xs ≡ c ∷ []) × From (env.request c) r} {E = Never} _ _ (sent c e)
        (λ ys n. n)
        λ r ys g.
          subst
            (λ ys.
              Gives steps (λ b zs. Ended (c ∷ rest) b (ys ++ zs)) (λ zs. Never (ys ++ zs)) (k r))
            (sym g.0) (then_on r g.1)
    where
      then_on :
          (r : Answer (Unit {0}))
          → From (env.request c) r
          → Gives steps (λ b zs. Ended (c ∷ rest) b (c ∷ zs)) Never (k r)
      then_on (answer tt) from =
          Gives-map {R = Ended rest} {E = Never} (k (answer tt))
            (λ b zs w. further c rest zs b from w) go
      then_on (refused x) from =
          Gives-map {R = λ code xs. (xs ≡ []) × (code ≡ code_of c)} {E = Never} (k (refused x))
            (λ b zs w.
              subst (λ (zs : List Call). Ended (c ∷ rest) b (c ∷ zs)) (sym w.0)
                (stopped c rest b w.1 (x, from)))
            (stop x (x, from))

  attempt-Follows :
      (c : Call) (message : String) (rest : List Call) (k : M W Call ℕ)
      → steps c ≡ c ∷ []
      → code_of c ≡ 1
      → Follows rest k
      → Follows (c ∷ rest) (attempt env c message k)
  unfolding on_error
  attempt-Follows c message rest k e one h =
      step-Follows c rest (λ r. on_error env r message k) e
        (λ x fails.
          after_quiet _ _ (send-Gives (problem message) env.log) λ u. Gives-pure 1 (refl, sym one))
        h

  must-Follows :
      (c : Call) (rest : List Call) (k : M W Call ℕ)
      → steps c ≡ c ∷ []
      → code_of c ≡ 2
      → Follows rest k
      → Follows (c ∷ rest) (must env c k)
  must-Follows c rest k e two h =
      step-Follows c rest (λ r. or_panic env r k) e (λ x fails. Gives-pure 2 (refl, sym two)) h

  abbrev pub serve_plan : List Call
  serve_plan = add_healthz ∷ add_readyz ∷ start ∷ []

  -- The manager, the four controllers with what that of the backup needs, and the start.
  abbrev pub plan_of : Flags → List Call
  plan_of f =
      create_manager (manager_options f)
      ∷ set_up pbsrepo
      ∷ create_dynamic
      ∷ create_discovery
      ∷ create_metrics
      ∷ create_executor
      ∷ set_up (pbsbackup f.agent_image)
      ∷ set_up pbsschedule
      ∷ set_up (pbsrestore f.agent_image)
      ∷ serve_plan

  serve-Follows : Follows serve_plan (serve env)
  unfolding serve
  serve-Follows = attempt-Follows add_healthz _ _ _ refl refl (
      attempt-Follows add_readyz _ _ _ refl refl (
        after_quiet _ _ (send-Gives (info "Starting manager") env.log)
          λ u. attempt-Follows start _ [] _ refl refl (Gives-pure 0 served)))

  run_manager-Follows : (f : Flags) → Follows (plan_of f) (run_manager env f)
  unfolding run_manager
  run_manager-Follows f = attempt-Follows (create_manager (manager_options f)) _ _ _ refl refl (
      attempt-Follows (set_up pbsrepo) _ _ _ refl refl (
        attempt-Follows create_dynamic _ _ _ refl refl (
          attempt-Follows create_discovery _ _ _ refl refl (
            must-Follows create_metrics _ _ refl refl (
              must-Follows create_executor _ _ refl refl (
                attempt-Follows (set_up (pbsbackup f.agent_image)) _ _ _ refl refl (
                  attempt-Follows (set_up pbsschedule) _ _ _ refl refl (
                    attempt-Follows (set_up (pbsrestore f.agent_image)) _ _ _ refl refl
                      serve-Follows))))))))

  asked : Gives steps (λ r xs. (xs ≡ []) × From env.get_config r) Never (ask env.get_config)
  unfolding ask
  asked = record { at = λ s. ([], sym (append-nil (view steps s.log)), (refl, (s.world, refl))) }

  on_config-Ending :
      (plan : List Call) (r : Answer (Unit {0})) (k : M W Call ℕ)
      → From env.get_config r
      → Follows plan k
      → Gives steps (Ending plan) Never (on_config env r k)
  on_config-Ending plan (answer u) k from h =
      Gives-map {R = Ended plan} {E = Never} k (λ b zs w. inl w) h
  on_config-Ending plan (refused e) k from h = Gives-pure 1 (inr (refl, refl, (e, from)))

  configured-Ending :
      (plan : List Call) (k : M W Call ℕ)
      → Follows plan k
      → Gives steps (Ending plan) Never (ask env.get_config >>= λ r. on_config env r k)
  configured-Ending plan k h =
      Gives-chain {R = λ r xs. (xs ≡ []) × From env.get_config r} {E = Never} _ _ asked (λ ys n. n)
        λ r ys g.
          Gives-shift {R = Ending plan} {E = Never} (on_config env r k) ys g.0
            (on_config-Ending plan r k g.1 h)

  -- Where the start of the manager returns, the process of the operator ends, and it asks for the
  -- steps of one plan in their order: the manager, the repository's controller, the two clients, the
  -- metrics, the executor, the other three controllers with the agent image of the flags, the checks
  -- of health, and the start. It exits with 0 only where each step succeeded. Else the last step that
  -- it asks for failed and those before it succeeded, and it exits with 1, or with 2 where the
  -- metrics or the executor panic; or there is no configuration and it exits with 1 at once.
  pub main-Follows : (f : Flags) → Gives steps (Ending (plan_of f)) Never (main env f)
  unfolding main
  main-Follows f = after_quiet _ _ (note_cert-Gives f.webhook_cert_path _) λ u.
      after_quiet _ _ (note_cert-Gives f.metrics_cert_path _)
        λ v. configured-Ending (plan_of f) (run_manager env f) (run_manager-Follows f)
