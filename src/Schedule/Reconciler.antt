-- ===== src/Schedule/Reconciler.antt =====
-- internal/controller/pbsschedule_controller.go: `Reconcile` and its helpers.
use pbs_k8s_operator.Base.{
  ℕ, suc, ◌-◌, String, Bool, true, false, ◌||◌, Option, none, some, List, [], ◌∷◌, if◌then◌else◌,
  ltb, leb,
}
use pbs_k8s_operator.Base.Text.{◌+++◌}
use pbs_k8s_operator.Kube.{new_meta, Condition, ConditionStatus, cond_true, cond_false}
use pbs_k8s_operator.Types.{PbsSchedule, PbsScheduleStatus, PbsBackup, PbsRepo, is_terminal, new}
use pbs_k8s_operator.Reconcile.{
  Got, Made, Answer, M, pure, raise, ask, send, need, on_got, on_made, ◌>>=◌, ◌>>◌, CtrlResult,
  no_requeue, requeue_after, seconds, ConditionApi,
}
use pbs_k8s_operator.Schedule.Slots.{base_time, due_slot, Due, not_due, due, out_of_fuel}

-- The requests of the controller that change something.
pub data Call : Type 0 where
  create_backup : PbsBackup → Call
  patch_status : PbsScheduleStatus → Call
  event : Bool → String → String → Call  -- whether a warning, the reason and the message

-- A parsed cron expression, by its `Next`, or the parser's error.
pub data Cron : Type 0 where
  cron : (ℕ → ℕ) → Cron
  invalid_cron : String → Cron

-- The API server and the clock, and the libraries that the controller calls.
pub record Env (W : Type 0) : Type 0 where
  pub get_schedule : W → Got PbsSchedule × W
  pub get_repo : String → W → Got PbsRepo × W
  pub create_backup : PbsBackup → W → Made × W
  pub list_backups : String → String → W → Answer (List PbsBackup) × W
  pub patch_status : PbsScheduleStatus → W → Answer (Unit {0}) × W
  pub event : Bool → String → String → W → Unit {0} × W
  pub now : W → ℕ × W
  pub parse_cron : String → Cron
  pub quote : String → String  -- `strconv.Quote`
  pub iso : ℕ → String  -- `Format(time.RFC3339)`
  pub unix : ℕ → String  -- `%d` of `Unix()`
  pub status_eq : PbsScheduleStatus → PbsScheduleStatus → Bool  -- `reflect.DeepEqual`
  pub conditions : ConditionApi

-- The wait until the next slot, capped at a minute; the subtraction of times may be negative.
unfoldable pub wait_for : ℕ → ℕ → ℕ
wait_for next now = if leb next now || ltb (seconds 60) (next - now) then seconds 60 else next - now

module _ {W : Type 0} (env : Env W) where
  abbrev Act : Type 0 → Type 0
  Act A = M W Call A

  -- `patchStatusIfChanged`.
  unfoldable pub patch_status_if_changed : PbsScheduleStatus → PbsScheduleStatus → Act (Unit {0})
  patch_status_if_changed before after =
      if env.status_eq before after
      then pure tt
      else (do r ← send (patch_status after) (env.patch_status after); need r)

  abbrev ready : PbsSchedule → ConditionStatus → String → String → Condition
  ready schedule status reason message = record {
    kind = "Ready";
    status = status;
    reason = reason;
    message = message;
    observed_generation = schedule.meta.generation;
  }

  -- `hold`.
  unfoldable pub hold : PbsSchedule → String → String → ℕ → Act CtrlResult
  hold schedule reason message wait =
      let (conditions, transitioned) =
        env.conditions.set_status_condition schedule.status.conditions
          (ready schedule cond_false reason message) in
      do
        patch_status_if_changed schedule.status
            (record (schedule.status) { conditions = conditions })
        (if transitioned
            then send (event true reason message) (env.event true reason message)
            else pure tt)
        pure (requeue_after (seconds wait))

  -- The object that `fireBackup` creates; its owner is the schedule.
  unfoldable pub fired_backup : PbsSchedule → ℕ → PbsBackup
  fired_backup schedule fire = record {
    meta =
        record (new_meta (schedule.meta.name +++ "-" +++ env.unix fire) schedule.meta.namespace
          (("pbsschedule", schedule.meta.name) ∷ [])) { owners = schedule.meta.uid ∷ [] };
    spec = record {
      repo_ref = schedule.spec.repo_ref;
      pvcs = schedule.spec.template.pvcs;
      selector = schedule.spec.template.selector;
      notes = schedule.spec.template.notes;
    };
    status = record {
      phase = new;
      snapshot_ref = "";
      jobs = [];
      started_at = none;
      completed_at = none;
      bytes = 0;
      conditions = [];
    };
  }

  -- `fireBackup`: true where this call created the backup.
  unfoldable pub fire_backup : PbsSchedule → ℕ → Act Bool
  fire_backup schedule fire =
      let backup = fired_backup schedule fire in
      let message =
        "created PBSBackup " +++ backup.meta.name +++ " for fire time " +++ env.iso fire in
      do
        r ← send (create_backup backup) (env.create_backup backup)
        on_made r
            (do
              send (event false "BackupCreated" message) (env.event false "BackupCreated" message)
              pure true)
            (pure false)

  -- The loop of `activeBackups` over the listed backups.
  unfoldable pub active_names : List PbsBackup → List String
  active_names [] = []
  active_names (b ∷ bs) =
      let rest = active_names bs in if is_terminal b.status.phase then rest else b.meta.name ∷ rest

  unfoldable pub active_backups : PbsSchedule → Act (List String)
  active_backups schedule = do
    r ← ask (env.list_backups schedule.meta.namespace schedule.meta.name)
    backups ← need r
    pure (active_names backups)

  -- `patchStatus`: the condition of a valid schedule on top of the changes made so far.
  unfoldable pub patch_valid : PbsSchedule → PbsScheduleStatus → ℕ → Act (Unit {0})
  patch_valid orig status next =
      let message =
        (if orig.spec.suspend
          then "schedule is suspended; next fire "
          else "schedule is valid; next fire ")
        +++ env.iso next in
      let (conditions, transitioned) =
        env.conditions.set_status_condition status.conditions
          (ready orig cond_true "Valid" message) in
      patch_status_if_changed orig.status (record status { conditions = conditions })

  -- Step 3: the last schedule time after it, which a suspended schedule keeps.
  unfoldable pub fire_due : PbsSchedule → Due → Act (Option ℕ)
  fire_due schedule not_due = pure schedule.status.last_schedule_time
  fire_due schedule out_of_fuel = raise "the catch-up loop does not end"
  fire_due schedule (due fire) =
      if schedule.spec.suspend
      then pure schedule.status.last_schedule_time
      else (do fire_backup schedule fire; pure (some fire))

  -- Steps 3 to 5 of `Reconcile`, from the time of the decision on.
  unfoldable pub run_at : PbsSchedule → (ℕ → ℕ) → ℕ → Act CtrlResult
  run_at schedule next_of now = do
    last ← fire_due schedule (
        due_slot (suc now) next_of now
          (base_time schedule.meta.created schedule.status.last_schedule_time))
    active ← active_backups schedule
    patch_valid schedule
        (record (schedule.status) {
          last_schedule_time = last;
          next_schedule_time = some (next_of now);
          active = active;
        })
        (next_of now)
    later ← ask env.now
    pure (requeue_after (wait_for (next_of now) later))

  -- The same with the time read first.
  unfoldable pub run_slots : PbsSchedule → (ℕ → ℕ) → Act CtrlResult
  run_slots schedule next_of = do now ← ask env.now; run_at schedule next_of now

  -- Step 2, the gate of the repository.
  unfoldable pub gate_repo : PbsSchedule → (ℕ → ℕ) → Act CtrlResult
  gate_repo schedule next_of = do
    r ← ask (env.get_repo schedule.spec.repo_ref)
    on_got r
        (hold schedule "RepoMissing" ("PBSRepo " +++ schedule.spec.repo_ref +++ " not found") 60)
        λ repo.
          if env.conditions.is_status_condition_true repo.status.conditions "Ready"
          then run_slots schedule next_of
          else hold schedule "RepoMissing" ("PBSRepo " +++ repo.meta.name +++ " is not Ready") 60

  -- Step 1, the gate of the cron expression.
  unfoldable pub gate_cron : PbsSchedule → Cron → Act CtrlResult
  gate_cron schedule (invalid_cron e) =
      hold schedule "InvalidCron"
        ("invalid cron expression " +++ env.quote schedule.spec.schedule +++ ": " +++ e) 300
  gate_cron schedule (cron next_of) = gate_repo schedule next_of

  -- `Reconcile`; a schedule that is gone is left alone.
  unfoldable pub reconcile : Act CtrlResult
  reconcile = do
    r ← ask env.get_schedule
    on_got r (pure no_requeue)
        λ schedule. gate_cron schedule (env.parse_cron schedule.spec.schedule)
