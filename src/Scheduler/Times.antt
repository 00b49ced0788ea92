-- ===== src/Scheduler/Times.antt =====
-- `_expected_run_at` of app/services/scheduler.py: the time of the last run that a schedule expects.
use mcmanager.Common.{
  ℕ, ◌||◌, Option, none, some, ◌+◌, ◌-◌, ◌*◌, ◌/◌, ◌%◌, if◌then◌else◌, leb, ltb, Result, ok, err,
}

-- `interval_spec`, read; a number of days below one counts as one
pub data Interval : Type 0 where
  every_n_days : ℕ → Interval
  daily weekly monthly other : Interval

-- The columns of `schedules` that the times depend on; `time_of_day` is its hour and minute.
pub record Schedule : Type 0 where
  pub interval : Interval
  pub target_hour : ℕ
  pub target_minute : ℕ
  pub last_changed_at : ℕ

-- `datetime.replace` refuses an hour or a minute out of range
pub data TimeError : Type 0 where
  out_of_range : TimeError

abbrev pub day : ℕ
day = 24 * 60 * 60

abbrev pub period : ℕ → ℕ
period days = (if ltb days 1 then 1 else days) * day

abbrev pub time_of_day : Schedule → ℕ
time_of_day s = s.target_hour * 3600 + s.target_minute * 60

unfoldable pub every_days : ℕ → ℕ → ℕ → Option ℕ
every_days p last now = if ltb (now - last) p then none else some (last + (now - last) / p * p)

-- the last time of the day that has passed, in UTC
unfoldable pub last_passed : ℕ → ℕ → ℕ
last_passed time now =
    let candidate = now - now % day + time in
    if ltb now candidate then candidate - day else candidate

unfoldable pub by_day : ℕ → ℕ → ℕ → Option ℕ
unfolding last_passed
by_day time last now = if leb (last_passed time now) last then none else some (last_passed time now)

abbrev pub on_a_day : Schedule → ℕ → Result TimeError (Option ℕ)
on_a_day s now =
    if ltb 23 s.target_hour || ltb 59 s.target_minute
    then err out_of_range
    else ok (by_day (time_of_day s) s.last_changed_at now)

unfoldable pub expected_run_at : Schedule → ℕ → Result TimeError (Option ℕ)
unfolding every_days by_day
expected_run_at s now = elim s.interval [
  | every_n_days days ↦ ok (every_days (period days) s.last_changed_at now)
  | daily ↦ on_a_day s now
  | weekly ↦ on_a_day s now
  | monthly ↦ on_a_day s now
  | other ↦ ok none
]
