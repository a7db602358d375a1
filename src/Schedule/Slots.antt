-- ===== src/Schedule/Slots.antt =====
-- internal/controller/pbsschedule_controller.go: which slot of a schedule is due. `next` is the cron
-- library's `Schedule.Next`; a time is its number of nanoseconds since Go's zero time, which is 0 and
-- which `Next` returns where the schedule never fires again.
use pbs_k8s_operator.Base.{
  ℕ, zero, suc, ◌+◌, ◌<◌, ◌≤◌, true, Option, none, some, ◌≡◌, inl, inr, refl, arith, ltb, leb,
  if◌then◌else◌, Bool-cases,
}

-- The catch-up loop with fuel; `none` means that the fuel ran out.
unfoldable pub catch_up : ℕ → (ℕ → ℕ) → ℕ → ℕ → Option ℕ
catch_up zero next now fire = none
catch_up (suc fuel) next now fire =
    let rest = catch_up fuel next now (next fire) in if leb (next fire) now then rest else some fire

-- The later of the creation and the last slot.
unfoldable pub base_time : ℕ → Option ℕ → ℕ
base_time created none = created
base_time created (some last) = if ltb created last then last else created

-- No slot is due, or the one to fire, or the fuel ran out.
pub data Due : Type 0 where
  not_due : Due
  due : ℕ → Due
  out_of_fuel : Due

abbrev pub due_of : Option ℕ → Due
due_of none = out_of_fuel
due_of (some fire) = due fire

unfoldable pub due_slot : ℕ → (ℕ → ℕ) → ℕ → ℕ → Due
due_slot fuel next now base =
    if leb (next base) now then due_of (catch_up fuel next now (next base)) else not_due

-- The slots of a schedule after a time.
pub data IsSlot (next : ℕ → ℕ) (base : ℕ) : ℕ → Type 0 where
  first : (t : ℕ) → t ≡ next base → IsSlot next base t
  later : (t u : ℕ) → IsSlot next base u → t ≡ next u → IsSlot next base t

-- The cron library's promise for a schedule that always fires again.
abbrev pub Progresses : (ℕ → ℕ) → Type 0
Progresses next = (t : ℕ) → t < next t

-- The slot that a reconcile fires.
pub record IsLatestSlot (next : ℕ → ℕ) (now base fire : ℕ) : Type 0 where
  pub slot : IsSlot next base fire
  pub after_base : base < fire
  pub not_future : fire ≤ now
  pub latest : now < next fire

catch_up_latest :
    (fuel : ℕ) (next : ℕ → ℕ) (now base fire : ℕ)
    → Progresses next
    → IsSlot next base fire
    → base < fire
    → fire ≤ now
    → now < fire + fuel
    → (last : ℕ) × (catch_up fuel next now fire ≡ some last) × IsLatestSlot next now base last
unfolding catch_up
catch_up_latest zero next now base fire p s b h f = absurd (omega arith)
catch_up_latest (suc fuel) next now base fire p s b h f = elim (Bool-cases (leb (next fire) now)) [
  | inl missed ↦
      let (last, e, l) =
        catch_up_latest fuel next now base (next fire) p (later (next fire) fire s refl)
          (omega (arith, p fire)) (ground arith) (omega (arith, p fire)) in
      (last, rw missed e, l)
  | inr ahead ↦ (
    fire,
    rw ahead refl,
    record { slot = s; after_base = b; not_future = h; latest = ground arith },
  )
]

-- What a reconcile does about the slots, with the fuel that the model gives it.
abbrev pub Decision : (ℕ → ℕ) → ℕ → ℕ → Due → Type 0
Decision next now base not_due = now < next base
Decision next now base (due fire) = IsLatestSlot next now base fire
Decision next now base out_of_fuel = ⊥

-- With fuel beyond the present time the loop ends for a schedule that always fires again: nothing
-- is due exactly where the first slot after the base lies ahead, and else the slot that fires is
-- the latest one that is not in the future.
pub due_slot-Decision :
    (next : ℕ → ℕ) (now base : ℕ)
    → Progresses next
    → Decision next now base (due_slot (suc now) next now base)
unfolding due_slot
due_slot-Decision next now base p = elim (Bool-cases (leb (next base) now)) [
  | inl missed ↦
      let (last, e, l) =
        catch_up_latest (suc now) next now base (next base) p (first (next base) refl) (p base)
          (ground arith) (omega (arith, p base)) in
      rw (missed, e) l
  | inr ahead ↦ rw ahead (ground arith)
]

-- A slot that has fired is not due again at the same time.
pub due_slot_once :
    (next : ℕ → ℕ) (now base fire fuel : ℕ)
    → IsLatestSlot next now base fire
    → due_slot fuel next now fire ≡ not_due
unfolding due_slot
due_slot_once next now base fire fuel l = ground (arith, l.latest)

zero_leb : (n : ℕ) → leb 0 n ≡ true
zero_leb n = ground arith

catch_up_diverges :
    (next : ℕ → ℕ)
    → ((t : ℕ) → next t ≡ 0)
    → (fuel now fire : ℕ) → catch_up fuel next now fire ≡ none
unfolding catch_up
catch_up_diverges next z zero now fire = refl
catch_up_diverges next z (suc fuel) now fire =
    rw (z fire, zero_leb now) (catch_up_diverges next z fuel now 0)

-- For a schedule that parses but never fires, as one for the 30th of February, the cron library
-- returns the zero time; then a slot seems due and the loop ends with no fuel whatever.
pub due_slot_diverges :
    (next : ℕ → ℕ) (fuel now base : ℕ)
    → ((t : ℕ) → next t ≡ 0)
    → due_slot fuel next now base ≡ out_of_fuel
unfolding due_slot
due_slot_diverges next fuel now base z =
    rw (z base, zero_leb now, catch_up_diverges next z fuel now 0) refl
