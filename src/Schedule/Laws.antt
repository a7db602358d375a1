-- ===== src/Schedule/Laws.antt =====
-- What a reconcile of a schedule creates, and when it comes back.
use pbs_k8s_operator.Base.{
  ℕ, suc, String, Bool, true, false, List, [], ◌∷◌, ◌++◌, ◌≡◌, refl, if◌then◌else◌,
}
use pbs_k8s_operator.Types.{PbsSchedule, PbsBackup, PbsScheduleStatus}
use pbs_k8s_operator.Reconcile.{Run, ask, send, ◌>>=◌, got, on_got}
use pbs_k8s_operator.Reconcile.Effects.{
  view, Adds, Adds-if, Adds-of_Keeps, Keeps, Keeps-send, Adds-send, Adds-bind, keeps_rules,
}
use pbs_k8s_operator.Reconcile.Brings.{
  Brings, Brings-Adds, Brings-Keeps, Brings-ask, Brings-asked, Brings-if, Brings-on_got,
}
use pbs_k8s_operator.Reconcile.Returns.{From}
use pbs_k8s_operator.Schedule.Slots.{
  base_time, due_slot, Due, not_due, due, out_of_fuel, Progresses, IsLatestSlot, Decision,
  due_slot-Decision,
}
use pbs_k8s_operator.Schedule.Reconciler.{
  Call, create_backup, patch_status, event, Cron, cron, invalid_cron, Env, patch_status_if_changed,
  hold, fired_backup, fire_backup, active_backups, patch_valid, fire_due, run_at, run_slots,
  gate_repo, gate_cron, reconcile,
}

-- The backups that the requests of a log create.
abbrev pub created : Call → List PbsBackup
created (create_backup b) = b ∷ []
created _ = []

module _ {W : Type 0} (env : Env W) where
  send_event-Keeps :
      (b : Bool) (r m : String) → Keeps created (send (event b r m) (env.event b r m))
  send_event-Keeps b r m = Keeps-send (event b r m) (env.event b r m) refl

  send_patch-Keeps :
      (st : PbsScheduleStatus) → Keeps created (send (patch_status st) (env.patch_status st))
  send_patch-Keeps st = Keeps-send (patch_status st) (env.patch_status st) refl

  ruleset quiet = (keeps_rules, send_event-Keeps, send_patch-Keeps)

  patch_status_if_changed-Keeps :
      (a b : PbsScheduleStatus) → Keeps created (patch_status_if_changed env a b)
  unfolding patch_status_if_changed
  patch_status_if_changed-Keeps a b = search quiet

  hold-Keeps :
      (p : PbsSchedule) (reason message : String) (n : ℕ)
      → Keeps created (hold env p reason message n)
  unfolding hold
  hold-Keeps p reason message n = search (quiet, patch_status_if_changed-Keeps)

  active_backups-Keeps : (p : PbsSchedule) → Keeps created (active_backups env p)
  unfolding active_backups
  active_backups-Keeps p = search quiet

  patch_valid-Keeps :
      (p : PbsSchedule) (st : PbsScheduleStatus) (n : ℕ) → Keeps created (patch_valid env p st n)
  unfolding patch_valid
  patch_valid-Keeps p st n = search (quiet, patch_status_if_changed-Keeps)

  fire_backup-Adds :
      (p : PbsSchedule) (fire : ℕ)
      → Adds created (fired_backup env p fire ∷ []) (fire_backup env p fire)
  unfolding fire_backup
  fire_backup-Adds p fire =
      Adds-bind _ _ (fired_backup env p fire ∷ [])
        (Adds-send (create_backup (fired_backup env p fire))
          (env.create_backup (fired_backup env p fire)))
        (λ r. search quiet)

  -- The backups that a decision about the slots creates.
  abbrev pub creates : PbsSchedule → Due → List PbsBackup
  creates p not_due = []
  creates p out_of_fuel = []
  creates p (due fire) = if p.spec.suspend then [] else fired_backup env p fire ∷ []

  fire_due-Adds : (p : PbsSchedule) (d : Due) → Adds created (creates p d) (fire_due env p d)
  unfolding fire_due
  fire_due-Adds p not_due = Adds-of_Keeps _ (search quiet)
  fire_due-Adds p out_of_fuel = Adds-of_Keeps _ (search quiet)
  fire_due-Adds p (due fire) =
      Adds-if p.spec.suspend _ _ [] (fired_backup env p fire ∷ []) (Adds-of_Keeps _ (search quiet))
        (Adds-bind _ _ (fired_backup env p fire ∷ []) (fire_backup-Adds p fire) (λ b. search quiet))

  -- The decision about the slots at a time.
  abbrev pub decision : PbsSchedule → (ℕ → ℕ) → ℕ → Due
  decision p next now =
      due_slot (suc now) next now (base_time p.meta.created p.status.last_schedule_time)

  run_at-Adds :
      (p : PbsSchedule) (next : ℕ → ℕ) (now : ℕ)
      → Adds created (creates p (decision p next now)) (run_at env p next now)
  unfolding run_at
  run_at-Adds p next now =
      Adds-bind _ _ (creates p (decision p next now)) (fire_due-Adds p (decision p next now))
        (λ last. search (quiet, active_backups-Keeps, patch_valid-Keeps))

  run_slots-creates :
      (p : PbsSchedule) (next : ℕ → ℕ) (s : Run W Call)
      → view created (run_slots env p next s).1.log
        ≡ view created s.log ++ creates p (decision p next (env.now s.world).0)
  unfolding run_slots ◌>>=◌ ask
  run_slots-creates p next s =
      (run_at-Adds p next (env.now s.world).0).at
        (record { world = (env.now s.world).1; log = s.log })

  -- The backups that a reconcile of a schedule may create: none, or the one of a single slot of a
  -- schedule that is not suspended, which is the latest slot not after a time that the clock gives.
  pub data Creation (p : PbsSchedule) : List PbsBackup → Type 0 where
    nothing : Creation p []
    one_slot :
        (next : ℕ → ℕ) (now fire : ℕ)
        → From env.now now
        → env.parse_cron p.spec.schedule ≡ cron next
        → p.spec.suspend ≡ false
        → IsLatestSlot next now (base_time p.meta.created p.status.last_schedule_time) fire
        → Creation p (fired_backup env p fire ∷ [])

  module _ (p : PbsSchedule) (next : ℕ → ℕ) (parsed : env.parse_cron p.spec.schedule ≡ cron next)
      (progress : Progresses next) where
    Creation-if :
        (now fire : ℕ) (b : Bool)
        → From env.now now
        → p.spec.suspend ≡ b
        → IsLatestSlot next now (base_time p.meta.created p.status.last_schedule_time) fire
        → Creation p (if b then [] else fired_backup env p fire ∷ [])
    Creation-if now fire true c e l = nothing
    Creation-if now fire false c e l = one_slot next now fire c parsed e l

    Creation-creates :
        (now : ℕ) (d : Due)
        → From env.now now
        → Decision next now (base_time p.meta.created p.status.last_schedule_time) d
        → Creation p (creates p d)
    Creation-creates now not_due c l = nothing
    Creation-creates now out_of_fuel c l = nothing
    Creation-creates now (due fire) c l = Creation-if now fire p.spec.suspend c refl l

    run_slots-Brings : Brings created (Creation p) (run_slots env p next)
    unfolding run_slots
    run_slots-Brings =
        Brings-asked env.now (λ now. run_at env p next now)
          λ now clock.
            Brings-Adds (creates p (decision p next now)) _
              (Creation-creates now (decision p next now) clock (
                due_slot-Decision next now (base_time p.meta.created p.status.last_schedule_time)
                  progress))
              (run_at-Adds p next now)

    gate_repo-Brings : Brings created (Creation p) (gate_repo env p next)
    unfolding gate_repo
    gate_repo-Brings = Brings-ask (env.get_repo p.spec.repo_ref) _ λ r.
        Brings-on_got r _ _ nothing (Brings-Keeps _ nothing (hold-Keeps p _ _ 60)) λ repo.
          Brings-if (env.conditions.is_status_condition_true repo.status.conditions "Ready") _ _
            (λ _. run_slots-Brings) (λ _. Brings-Keeps _ nothing (hold-Keeps p _ _ 60))

  gate_cron-Brings :
      (p : PbsSchedule) (c : Cron)
      → env.parse_cron p.spec.schedule ≡ c
      → ((next : ℕ → ℕ) → env.parse_cron p.spec.schedule ≡ cron next → Progresses next)
      → Brings created (Creation p) (gate_cron env p c)
  unfolding gate_cron
  gate_cron-Brings p (invalid_cron e) parsed progress =
      Brings-Keeps _ nothing (hold-Keeps p _ _ 300)
  gate_cron-Brings p (cron next) parsed progress =
      gate_repo-Brings p next parsed (progress next parsed)

  -- A reconcile of a schedule that the API server returns, whose cron expression, where it parses,
  -- always fires again, creates no backup or exactly the one of the latest slot that is not after
  -- the time that the clock gives and comes after the creation and the last slot; it creates none for a suspended schedule.
  pub reconcile-Creation :
      (p : PbsSchedule) (s : Run W Call)
      → (env.get_schedule s.world).0 ≡ got p
      → ((next : ℕ → ℕ) → env.parse_cron p.spec.schedule ≡ cron next → Progresses next)
      → (xs : List PbsBackup) × (view created (reconcile env s).1.log ≡ view created s.log ++ xs)
        × Creation p xs
  unfolding reconcile ◌>>=◌ ask on_got
  reconcile-Creation p s found progress = rw found (
      (gate_cron-Brings p (env.parse_cron p.spec.schedule) refl progress).at
        (record { world = (env.get_schedule s.world).1; log = s.log }))
