-- ===== src/Schedule/Requeue.antt =====
-- When a reconcile of a schedule comes back.
use pbs_k8s_operator.Base.{ℕ, ◌+◌, ◌-◌, ◌≤◌, ◌<◌, String, ◌≡◌, ◌⊎◌, inl, inr, arith}
use pbs_k8s_operator.Types.{PbsSchedule}
use pbs_k8s_operator.Reconcile.{Run, requeue_after, seconds, ask, on_got, got, ◌>>=◌}
use pbs_k8s_operator.Reconcile.Returns.{Returns, IsGood, IsWithin, returns_rules}
use pbs_k8s_operator.Schedule.Reconciler.{
  Call, Cron, cron, invalid_cron, Env, hold, wait_for, run_at, run_slots, gate_repo, gate_cron,
  reconcile,
}

-- The wait is the time until the next slot, where that lies ahead by a minute at most, and else a
-- minute.
pub wait_for-cases :
    (next now : ℕ)
    → ((wait_for next now ≡ next - now) × (now < next) × (next ≤ seconds 60 + now))
      ⊎ ((wait_for next now ≡ seconds 60) × ((next ≤ now) ⊎ (seconds 60 + now < next)))
unfolding wait_for
wait_for-cases next now = ground arith

wait_for-IsWithin : (next now : ℕ) → IsWithin 300 (requeue_after (wait_for next now))
wait_for-IsWithin next now = elim (wait_for-cases next now) [
  | inl (e, l, m) ↦ rw e (omega arith, omega arith)
  | inr (e, l) ↦ rw e (omega arith, omega arith)
]

module _ {W : Type 0} (env : Env W) where
  hold-Returns :
      (p : PbsSchedule) (reason message : String) (n : ℕ)
      → IsWithin 300 (requeue_after (seconds n))
      → Returns (IsWithin 300) (hold env p reason message n)
  unfolding hold
  hold-Returns p reason message n l = search (returns_rules, l)

  run_at-Returns :
      (p : PbsSchedule) (next : ℕ → ℕ) (now : ℕ) → Returns (IsWithin 300) (run_at env p next now)
  unfolding run_at
  run_at-Returns p next now = search (returns_rules, wait_for-IsWithin) depth 9

  run_slots-Returns :
      (p : PbsSchedule) (next : ℕ → ℕ) → Returns (IsWithin 300) (run_slots env p next)
  unfolding run_slots
  run_slots-Returns p next = search (returns_rules, run_at-Returns)

  minute : IsWithin 300 (requeue_after (seconds 60))
  minute = (omega arith, omega arith)

  five_minutes : IsWithin 300 (requeue_after (seconds 300))
  five_minutes = (omega arith, omega arith)

  gate_repo-Returns :
      (p : PbsSchedule) (next : ℕ → ℕ) → Returns (IsWithin 300) (gate_repo env p next)
  unfolding gate_repo
  gate_repo-Returns p next = search (returns_rules, run_slots-Returns, hold-Returns, minute)

  gate_cron-Returns : (p : PbsSchedule) (c : Cron) → Returns (IsWithin 300) (gate_cron env p c)
  unfolding gate_cron
  gate_cron-Returns p (invalid_cron e) = hold-Returns p _ _ 300 five_minutes
  gate_cron-Returns p (cron next) = gate_repo-Returns p next

  -- Whatever the API server answers, a reconcile that reads a schedule and ends without an error
  -- comes back, later than at once and within five minutes.
  pub reconcile-Returns :
      (p : PbsSchedule) (s : Run W Call)
      → (env.get_schedule s.world).0 ≡ got p
      → IsGood (IsWithin 300) (reconcile env s).0
  unfolding reconcile ◌>>=◌ ask on_got
  reconcile-Returns p s found = rw found (
      (gate_cron-Returns p (env.parse_cron p.spec.schedule)).at
        (record { world = (env.get_schedule s.world).1; log = s.log }))
