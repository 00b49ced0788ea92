-- ===== src/Scheduler/Latest.antt =====
-- The run that a schedule expects is its latest one (app/services/scheduler.py).
use mcmanager.Common.{ℕ, Option, none, some, ◌+◌, ◌*◌, ◌%◌, ◌≤◌, ◌<◌, ◌≡◌}
use mcmanager.Scheduler.Times.{
  every_n_days, daily, weekly, monthly, other, Schedule, day, period, time_of_day,
}

-- the times at which a schedule runs: every so many days after its change, or once a day
abbrev pub IsRunTime : Schedule → ℕ → Type 0
IsRunTime s e = elim s.interval [
  | every_n_days days ↦ (k : ℕ) × (e ≡ s.last_changed_at + k * period days)
  | daily ↦ e % day ≡ time_of_day s
  | weekly ↦ e % day ≡ time_of_day s
  | monthly ↦ e % day ≡ time_of_day s
  | other ↦ ⊥
]

-- the latest run after the change, or that there is none
abbrev pub IsLatest : (ℕ → Type 0) → ℕ → ℕ → Option ℕ → Type 0
IsLatest Run last now none = (e : ℕ) → Run e → last < e → e ≤ now → ⊥
IsLatest Run last now (some e) =
    Run e × (last < e) × (e ≤ now) × ((f : ℕ) → Run f → f ≤ now → f ≤ e)
