-- ===== src/Scheduler/Tick.antt =====
-- `tick` of app/services/scheduler.py: the runs that are due are dispatched as operations or recorded as
-- missed. The identifiers of a schedule's operation and record are drawn by the caller.
use Prim.Native.String.{◌++◌ as concat}
use mcmanager.Common.{
  ℕ, zero, suc, String, string_eq, Bool, true, false, not, ◌&&◌, ◌||◌, Option, none, some, List, [],
  ◌∷◌, ◌++◌, ◌==◌, nat_eq, option_eq, find, any, filter, sort_by, leb, ltb, ◌+◌, ◌/◌, ◌%◌,
  if◌then◌else◌, Result, ok, err, holds,
}
use mcmanager.Domain.World.{is_some}
use mcmanager.Domain.Values.{OperationType, OperationStatus, system}
use mcmanager.Operations.Rows.{Operation, OperationInput, in_flight, text, num}
use mcmanager.Operations.Policy.{OperationError, conflict}
use mcmanager.Operations.Engine.{Engine}
use mcmanager.Operations.Methods.{create_with_replay}
use mcmanager.Scheduler.Times.{Schedule, TimeError, expected_run_at}

-- A row of `schedules`.
pub record ScheduleRow : Type 0 where
  pub schedule_id : String
  pub schedule_type : String
  pub world_id : Option String
  pub enabled : Bool
  pub deleted_at : Option ℕ
  pub created_at : ℕ
  pub timing : Schedule

-- A row of `missed_run_records`, which is pending.
pub record MissedRun : Type 0 where
  pub missed_run_id : String
  pub schedule_id : String
  pub schedule_name : String
  pub schedule_type : String
  pub expected_run_at : ℕ
  pub detected_at : ℕ

-- The tables of the scheduler; `announced` holds what it hands to `publish_event`, with the world.
pub record SchedulerStore : Type 0 where
  pub engine : Engine
  pub schedules : List ScheduleRow
  pub missed : List MissedRun
  pub announced : List (MissedRun × Option String)

-- `SchedulerTickResult`
pub record TickResult : Type 0 where
  pub due : ℕ
  pub dispatched : ℕ
  pub missed : ℕ

pub data TickError : Type 0 where
  time : TimeError → TickError
  refused : OperationError → TickError

abbrev digit : ℕ → String
digit d =
    if d == 0
    then "0"
    else if d == 1
    then "1"
    else if d == 2
    then "2"
    else if d == 3
    then "3"
    else if d == 4
    then "4"
    else if d == 5
    then "5"
    else if d == 6
    then "6"
    else if d == 7
    then "7"
    else if d == 8
    then "8"
    else "9"

-- str(n); as many digits as `n` counts are enough
abbrev decimal : ℕ → ℕ → String
decimal zero n = digit n
decimal (suc fuel) n =
    let rest = decimal fuel (n / 10) in if ltb n 10 then digit n else concat rest (digit (n % 10))

unfoldable pub run_key : String → ℕ → String
run_key schedule_id expected =
    concat "schedule:" (concat schedule_id (concat ":" (decimal expected expected)))

abbrev pub is_enabled : ScheduleRow → Bool
is_enabled r = r.enabled && not (is_some r.deleted_at)

abbrev by_creation : ScheduleRow → ScheduleRow → Bool
by_creation a b = leb a.created_at b.created_at

unfoldable pub enabled_schedules : SchedulerStore → List ScheduleRow
enabled_schedules s = sort_by by_creation (filter is_enabled s.schedules)

unfoldable pub schedule_for_dispatch : String → SchedulerStore → Option ScheduleRow
schedule_for_dispatch schedule_id s =
    find (λ r. r.schedule_id == schedule_id && is_enabled r) s.schedules

unfoldable pub has_recorded : String → ℕ → List MissedRun → Bool
has_recorded schedule_id expected rows =
    any (λ r. r.schedule_id == schedule_id && r.expected_run_at == expected) rows

unfoldable pub has_run_operation : String → ℕ → SchedulerStore → Bool
unfolding run_key
has_run_operation schedule_id expected s =
    any (λ (o : Operation). holds o.idempotency_key (run_key schedule_id expected))
      s.engine.operations

abbrev conflicts : OperationType → Bool
conflicts OperationType.backup = true
conflicts OperationType.restore = true
conflicts OperationType.cleanup = true
conflicts _ = false

unfoldable pub has_schedule_conflict : Option String → SchedulerStore → Bool
has_schedule_conflict world_id s =
    any (λ (o : Operation). o.world_id == world_id && conflicts o.op_type && in_flight o.status)
      s.engine.operations

unfoldable pub operation_type_for : String → Option OperationType
operation_type_for schedule_type =
    if schedule_type == "backup"
    then some OperationType.backup
    else if schedule_type == "cleanup" || schedule_type == "maintenance"
    then some OperationType.cleanup
    else none

abbrev scope_name : Option String → String
scope_name none = "Global"
scope_name (some world_id) = world_id

abbrev pub missed_run : String → ScheduleRow → ℕ → ℕ → MissedRun
missed_run missed_run_id r expected now = record {
  missed_run_id = missed_run_id;
  schedule_id = r.schedule_id;
  schedule_name = concat (scope_name r.world_id) (concat " " (concat r.schedule_type " schedule"));
  schedule_type = r.schedule_type;
  expected_run_at = expected;
  detected_at = now;
}

-- `_record_missed`, with its count
unfoldable pub record_missed : String → ScheduleRow → ℕ → ℕ → SchedulerStore → SchedulerStore × ℕ
record_missed missed_run_id r expected now s =
    if has_recorded r.schedule_id expected s.missed then (s, 0) else (
      record s {
        missed = s.missed ++ missed_run missed_run_id r expected now ∷ [];
        announced = s.announced ++ (missed_run missed_run_id r expected now, r.world_id) ∷ [];
      },
      1,
    )

abbrev pub Turn : Type 0
Turn = Result TickError (SchedulerStore × TickResult)

abbrev pub counted : ℕ → ℕ → ℕ → TickResult
counted due dispatched missed = record { due = due; dispatched = dispatched; missed = missed }

abbrev pub skipped : ℕ → SchedulerStore → Turn
skipped due s = ok (s, counted due 0 0)

abbrev pub as_missed : SchedulerStore × ℕ → Turn
as_missed (s, n) = ok (s, counted 1 0 n)

abbrev run_request : ScheduleRow → ℕ → OperationType → OperationInput
run_request r expected op_type = record {
  op_type = op_type;
  actor_type = system;
  world_id = r.world_id;
  actor_user_id = none;
  idempotency_key = some (run_key r.schedule_id expected);
  data_json = some (("schedule_id", text r.schedule_id) ∷ ("expected_run_at", num expected) ∷ []);
  compensates_operation_id = none;
}

-- the operation is created, or a conflict is recorded as a missed run
abbrev pub after_creation :
    String
    → ScheduleRow
    → ℕ
    → ℕ
    → SchedulerStore
    → Result OperationError (Engine × Operation × Bool)
    → Turn
after_creation id r expected now s (ok (engine, row, replayed)) =
    ok (record s { engine = engine }, counted 1 1 0)
after_creation id r expected now s (err conflict) = as_missed (record_missed id r expected now s)
after_creation id r expected now s (err e) = err (refused e)

abbrev pub dispatch_typed :
    String → ScheduleRow → ℕ → ℕ → SchedulerStore → Option OperationType → Turn
dispatch_typed id r expected now s none = as_missed (record_missed id r expected now s)
dispatch_typed id r expected now s (some op_type) =
    if has_schedule_conflict r.world_id s
    then as_missed (record_missed id r expected now s)
    else after_creation id r expected now s (
        create_with_replay (run_request r expected op_type) OperationStatus.queued false id now
          s.engine)

-- the schedule is read again, and waits if it is gone or expects another run
abbrev pub if_same :
    String → ScheduleRow → ℕ → ℕ → SchedulerStore → Result TimeError (Option ℕ) → Turn
if_same id r expected now s (err e) = err (time e)
if_same id r expected now s (ok other) =
    if other == some expected
    then dispatch_typed id r expected now s (operation_type_for r.schedule_type)
    else skipped 1 s

abbrev pub read_again : String → ℕ → ℕ → SchedulerStore → Option ScheduleRow → Turn
read_again id expected now s none = skipped 1 s
read_again id expected now s (some current) =
    if_same id current expected now s (expected_run_at current.timing now)

abbrev pub due_run : String → ScheduleRow → ℕ → SchedulerStore → Result TimeError (Option ℕ) → Turn
due_run id r now s (err e) = err (time e)
due_run id r now s (ok none) = skipped 0 s
due_run id r now s (ok (some expected)) =
    if has_recorded r.schedule_id expected s.missed || has_run_operation r.schedule_id expected s
    then skipped 1 s
    else read_again id expected now s (schedule_for_dispatch r.schedule_id s)

-- one schedule of a tick
unfoldable pub schedule_turn : String → ScheduleRow → ℕ → SchedulerStore → Turn
schedule_turn id r now s = due_run id r now s (expected_run_at r.timing now)

abbrev pub add : TickResult → TickResult → TickResult
add a b = record {
  due = a.due + b.due;
  dispatched = a.dispatched + b.dispatched;
  missed = a.missed + b.missed;
}

module _ (identifier : String → String) (now : ℕ) where
  abbrev pub summed : TickResult → Turn → Turn
  summed a (ok (s, b)) = ok (s, add a b)
  summed a (err e) = err e

  unfoldable pub tick_each : List ScheduleRow → SchedulerStore → Turn
  tick_each [] s = skipped 0 s
  tick_each (r ∷ rows) s = elim (schedule_turn (identifier r.schedule_id) r now s) [
    | ok (t, a) ↦ summed a (tick_each rows t)
    | err e ↦ err e
  ]

  -- `tick`
  unfoldable pub tick : SchedulerStore → Turn
  unfolding tick_each enabled_schedules
  tick s = tick_each (enabled_schedules s) s
