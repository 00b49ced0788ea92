-- ===== src/Scheduler/Accounts.antt =====
-- The accounts of a tick (app/services/scheduler.py).
use mcmanager.Common.{
  ℕ, String, string_eq, nat_eq, Bool, true, false, ◌&&◌, ◌||◌, Option, none, some, List, [], ◌∷◌,
  ◌++◌, ◌==◌, option_eq, ◌≡◌, refl, sym, ap, ◌∙◌, ◌≤◌, ◌+◌, arith, length, filter, any,
  if◌then◌else◌, Bool-cases, inl, inr, Result, ok, err, beq→eq, subst,
}
use mcmanager.Domain.Values.{OperationType}
use mcmanager.Operations.Rows.{Operation}
use mcmanager.Operations.Policy.{OperationError, conflict}
use mcmanager.Operations.Engine.{Engine}
use mcmanager.Scheduler.Times.{TimeError, expected_run_at}
use mcmanager.Scheduler.Tick.{
  ScheduleRow, MissedRun, SchedulerStore, TickResult, Turn, has_recorded, record_missed, missed_run,
  as_missed, skipped, after_creation, dispatch_typed, if_same, read_again, due_run, schedule_turn,
  add, summed, tick_each, tick, enabled_schedules, operation_type_for, schedule_for_dispatch,
  has_schedule_conflict, has_run_operation,
}

-- the records of a missed run
abbrev pub is_of : String → ℕ → MissedRun → Bool
is_of schedule_id expected r = r.schedule_id == schedule_id && r.expected_run_at == expected

abbrev pub times_missed : String → ℕ → SchedulerStore → ℕ
times_missed schedule_id expected s = length (filter (is_of schedule_id expected) s.missed)

filter-last :
    {A : Type 0} (f : A → Bool) (xs : List A) (x : A)
    → length (filter f (xs ++ x ∷ [])) ≡ length (filter f xs) + (if f x then 1 else 0)
filter-last f [] x = elim (Bool-cases (f x)) [ inl e ↦ rw e refl | inr e ↦ rw e refl ]
filter-last f (y ∷ xs) x =
    let rest = filter-last f xs x in
    elim (Bool-cases (f y)) [ inl e ↦ rw e (omega (arith, rest)) | inr e ↦ rw e rest ]

none_of : {A : Type 0} (f : A → Bool) (xs : List A) → any f xs ≡ false → length (filter f xs) ≡ 0
none_of f [] h = refl
none_of f (x ∷ xs) h = elim (Bool-cases (f x)) [
  | inl e ↦ cc (rw e at h)
  | inr e ↦ rw e (none_of f xs (rw e at h))
]

length-last : {A : Type 0} (xs : List A) (x : A) → length (xs ++ x ∷ []) ≡ length xs + 1
length-last [] x = refl
length-last (y ∷ xs) x = let rest = length-last xs x in omega (arith, rest)

-- From `s` to `t` the counts are true, and no run is recorded twice.
record Accounted (s t : SchedulerStore) (c : TickResult) : Type 0 where
  within : c.dispatched + c.missed ≤ c.due
  grows : length t.missed ≡ length s.missed + c.missed
  once :
      (schedule_id : String) (expected : ℕ)
      → times_missed schedule_id expected s ≤ 1
      → times_missed schedule_id expected t ≤ 1

Accounted-add :
    (s t u : SchedulerStore) (a b : TickResult)
    → Accounted s t a
    → Accounted t u b
    → Accounted s u (add a b)
Accounted-add s t u a b p q = record {
  within = let x = p.within in let y = q.within in omega arith;
  grows = let x = p.grows in let y = q.grows in omega arith;
  once = λ j e h. q.once j e (p.once j e h);
}

abbrev IsAccounted : SchedulerStore → Turn → Type 0
IsAccounted s (ok (t, c)) = Accounted s t c
IsAccounted s (err e) = Unit

waits : (due : ℕ) (s : SchedulerStore) → IsAccounted s (skipped due s)
waits due s = record { within = omega arith; grows = omega arith; once = λ j e h. h }

and_parts : (a b : Bool) → (a && b) ≡ true → (a ≡ true) × (b ≡ true)
and_parts true b h = (refl, h)
and_parts false b h = cc h

-- a second record of the same run is not written
recorded_once :
    (j : String) (k : ℕ) (id : String) (r : ScheduleRow) (expected now : ℕ) (s : SchedulerStore)
    → has_recorded r.schedule_id expected s.missed ≡ false
    → times_missed j k s ≤ 1
    → length (filter (is_of j k) (s.missed ++ missed_run id r expected now ∷ [])) ≤ 1
unfolding has_recorded
recorded_once j k id r expected now s fresh h =
    let sum = filter-last (is_of j k) s.missed (missed_run id r expected now) in
    elim (Bool-cases (r.schedule_id == j && expected == k)) [
      | inl e ↦
          let (of_schedule, at_time) = and_parts (r.schedule_id == j) (expected == k) e in
          let absent : any (is_of j k) s.missed ≡ false =
            ap (λ i. any (is_of i k) s.missed) (sym (beq→eq r.schedule_id j of_schedule))
            ∙ ap (λ x. any (is_of r.schedule_id x) s.missed) (sym (beq→eq expected k at_time))
            ∙ fresh in
          let zero_times = none_of (is_of j k) s.missed absent in
          let here = rw e at sum in omega (arith, here, zero_times)
      | inr e ↦ let here = rw e at sum in omega (arith, here)
    ]

records :
    (id : String) (r : ScheduleRow) (expected now : ℕ) (s : SchedulerStore)
    → IsAccounted s (as_missed (record_missed id r expected now s))
unfolding record_missed
records id r expected now s = elim (Bool-cases (has_recorded r.schedule_id expected s.missed)) [
  | inl e ↦ rw e (waits 1 s)
  | inr e ↦ rw e (record {
    within = omega arith;
    grows = length-last s.missed (missed_run id r expected now);
    once = λ j k h. recorded_once j k id r expected now s e h;
  })
]

created :
    (id : String) (r : ScheduleRow) (expected now : ℕ) (s : SchedulerStore)
    (x : Result OperationError (Engine × Operation × Bool))
    → IsAccounted s (after_creation id r expected now s x)
created id r expected now s (ok (engine, row, replayed)) = record {
  within = omega arith;
  grows = omega arith;
  once = λ j k h. h;
}
created id r expected now s (err conflict) = records id r expected now s
created id r expected now s (err _) = tt

typed :
    (id : String) (r : ScheduleRow) (expected now : ℕ) (s : SchedulerStore)
    (o : Option OperationType)
    → IsAccounted s (dispatch_typed id r expected now s o)
typed id r expected now s none = records id r expected now s
typed id r expected now s (some op_type) = elim (Bool-cases (has_schedule_conflict r.world_id s)) [
  | inl e ↦ rw e (records id r expected now s)
  | inr e ↦ rw e (created id r expected now s _)
]

same :
    (id : String) (r : ScheduleRow) (expected now : ℕ) (s : SchedulerStore)
    (x : Result TimeError (Option ℕ))
    → IsAccounted s (if_same id r expected now s x)
same id r expected now s (err e) = tt
same id r expected now s (ok other) = elim (Bool-cases (other == some expected)) [
  | inl e ↦ rw e (typed id r expected now s (operation_type_for r.schedule_type))
  | inr e ↦ rw e (waits 1 s)
]

again :
    (id : String) (expected now : ℕ) (s : SchedulerStore) (o : Option ScheduleRow)
    → IsAccounted s (read_again id expected now s o)
again id expected now s none = waits 1 s
again id expected now s (some current) =
    same id current expected now s (expected_run_at current.timing now)

runs :
    (id : String) (r : ScheduleRow) (now : ℕ) (s : SchedulerStore) (x : Result TimeError (Option ℕ))
    → IsAccounted s (due_run id r now s x)
runs id r now s (err e) = tt
runs id r now s (ok none) = waits 0 s
runs id r now s (ok (some expected)) =
    elim (Bool-cases (
      has_recorded r.schedule_id expected s.missed || has_run_operation r.schedule_id expected s)) [
        | inl e ↦ rw e (waits 1 s)
        | inr e ↦ rw e (again id expected now s (schedule_for_dispatch r.schedule_id s))
      ]

module _ (identifier : String → String) (now : ℕ) where
  both :
      (s t : SchedulerStore) (a : TickResult) (rest : Turn)
      → Accounted s t a
      → IsAccounted t rest
      → IsAccounted s (summed identifier now a rest)
  both s t a (ok (u, b)) p q = Accounted-add s t u a b p q
  both s t a (err e) p q = tt

  after :
      (rows : List ScheduleRow) (s : SchedulerStore) (x : Turn)
      → IsAccounted s x
      → ((t : SchedulerStore) → IsAccounted t (tick_each identifier now rows t))
      → IsAccounted s (elim x [
        | ok (t, a) ↦ summed identifier now a (tick_each identifier now rows t)
        | err e ↦ err e
      ])
  after rows s (ok (t, a)) p rest = both s t a (tick_each identifier now rows t) p (rest t)
  after rows s (err e) p rest = tt

  each :
      (rows : List ScheduleRow) (s : SchedulerStore)
      → IsAccounted s (tick_each identifier now rows s)
  unfolding tick_each schedule_turn
  each [] s = waits 0 s
  each (r ∷ rows) s =
      after rows s (due_run (identifier r.schedule_id) r now s (expected_run_at r.timing now))
        (runs (identifier r.schedule_id) r now s (expected_run_at r.timing now)) (λ t. each rows t)

  tick-Accounted :
      (s t : SchedulerStore) (c : TickResult) → tick identifier now s ≡ ok (t, c) → Accounted s t c
  unfolding tick
  tick-Accounted s t c h = subst (IsAccounted s) h (each (enabled_schedules s) s)

  -- A tick that returns records no run of a schedule twice as missed.
  pub missed_once :
      (s t : SchedulerStore) (c : TickResult) (schedule_id : String) (expected : ℕ)
      → tick identifier now s ≡ ok (t, c)
      → times_missed schedule_id expected s ≤ 1
      → times_missed schedule_id expected t ≤ 1
  missed_once s t c schedule_id expected h = (tick-Accounted s t c h).once schedule_id expected
