-- ===== src/Scheduler/Examples.antt =====
-- The runs of a concrete schedule (app/services/scheduler.py).
use mcmanager.Common.{String, some, none, true, List, [], ◌∷◌, ok, err, ◌≡◌, refl, ◌≤◌, arith}
use mcmanager.Scheduler.Tick.{
  ScheduleRow, SchedulerStore, TickResult, Turn, counted, tick, tick_each,
}
use mcmanager.Scheduler.Accounts.{times_missed, missed_once}
use mcmanager.Scheduler.Times.{Schedule, daily, expected_run_at}

-- every day at half past four, changed on the second day
abbrev at_half_past_four : Schedule
at_half_past_four = record {
  interval = daily;
  target_hour = 4;
  target_minute = 30;
  last_changed_at = 90000;
}

abbrev schedule_of : String → String → ScheduleRow
schedule_of schedule_id schedule_type = record {
  schedule_id = schedule_id;
  schedule_type = schedule_type;
  world_id = some "w1";
  enabled = true;
  deleted_at = none;
  created_at = 10;
  timing = at_half_past_four;
}

abbrev before_tick : SchedulerStore
before_tick = record {
  engine = record {
    operations = [];
    audits = [];
    notifications = [];
    usernames = [];
    pending_checkpoints = [];
    progress_cache = [];
    published = [];
    realtime = true;
    notifies = true;
  };
  schedules = schedule_of "s1" "backup" ∷ schedule_of "s2" "export" ∷ [];
  missed = [];
  announced = [];
}

abbrev after_tick : Turn
after_tick = tick (λ schedule_id. schedule_id) 300000 before_tick

abbrev store_of : Turn → SchedulerStore
store_of (ok (s, c)) = s
store_of (err e) = before_tick

abbrev result_of : Turn → TickResult
result_of (ok (s, c)) = c
result_of (err e) = counted 0 0 0

-- of two runs that are due, one is dispatched and one is missed
tick_returns :
    (after_tick ≡ ok (store_of after_tick, result_of after_tick))
    × (result_of after_tick ≡ counted 2 1 1)
unfolding mcmanager.Scheduler.Tick.schedule_for_dispatch mcmanager.Scheduler.Tick.has_recorded
    mcmanager.Scheduler.Tick.has_run_operation mcmanager.Scheduler.Tick.has_schedule_conflict
    mcmanager.Scheduler.Tick.operation_type_for mcmanager.Scheduler.Tick.record_missed
    mcmanager.Scheduler.Tick.schedule_turn mcmanager.Scheduler.Tick.tick
    mcmanager.Scheduler.Times.expected_run_at mcmanager.Operations.Engine.in_flight_of
    mcmanager.Operations.Engine.get_by_idempotency_key mcmanager.Operations.Engine.get
    mcmanager.Operations.Engine.cancel_rows mcmanager.Operations.Engine.reread
    mcmanager.Operations.Engine.publish_terminals mcmanager.Operations.Methods.active_rows
    mcmanager.Operations.Methods.first_status mcmanager.Operations.Methods.locks_world
    mcmanager.Operations.Methods.repeated mcmanager.Operations.Methods.new_row
    mcmanager.Operations.Methods.queue_position_of mcmanager.Operations.Methods.publish_created
    mcmanager.Operations.Methods.insert_row mcmanager.Operations.Methods.admit_and_insert
    mcmanager.Operations.Methods.create_fresh mcmanager.Operations.Methods.create_with_replay
    mcmanager.Operations.Policy.apply_conflict_policy mcmanager.Common.sort_by
    mcmanager.Domain.Values.OperationType-discrete mcmanager.Domain.Values.OperationStatus-discrete
tick_returns = (refl, refl)

missed_once_example : times_missed "s2" 275400 (store_of after_tick) ≤ 1
missed_once_example =
    missed_once (λ schedule_id. schedule_id) 300000 before_tick (store_of after_tick)
      (result_of after_tick) "s2" 275400 tick_returns.0 (omega arith)
