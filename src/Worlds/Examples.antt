-- ===== src/Worlds/Examples.antt =====
-- Runs of the driver on concrete tables and ports (app/services/worlds.py).
use mcmanager.Common.{
  ℕ, String, string_eq, false, none, some, List, [], ◌∷◌, ◌≡◌, refl, ap, ◌*◌, ltb, if◌then◌else◌,
  inl, ok, err, Result, ◌≢◌, arith,
}
use mcmanager.Domain.Values.{
  WorldState, ServerType, ServerReadinessLevel, ExitClass, EulaState, user, OperationType,
  OperationStatus,
}
use mcmanager.Operations.Engine.{Engine}
use mcmanager.Operations.Endings.{IsAudited, endings}
use mcmanager.Worlds.Store.{WorldRow}
use mcmanager.Worlds.State.{world_at, update_world}
use mcmanager.Worlds.Dispatch.{dispatch_lifecycle_operations}
use mcmanager.Worlds.Steps.{Steps}
use mcmanager.Worlds.Dispatched.{AllEnded, dispatched_end}
use mcmanager.Worlds.Requests.{serve, serve-Steps, serve-IsAudited}
use mcmanager.Operations.Rows.{row_at}
use mcmanager.Operations.Methods.{new_row}
use mcmanager.Worlds.Exec.{Raised, out_of_fuel}
use mcmanager.Worlds.Readiness.{await_readiness, wait_for_exit}
use mcmanager.Worlds.Start.{start_claimed}
use mcmanager.Worlds.Launch.{request_of}
use mcmanager.Worlds.Stop.{stop_claimed, kill_claimed}
use mcmanager.Worlds.Stopped.{Settled, stop_settles}
use mcmanager.Worlds.Started.{Started, start_ready}
use mcmanager.Worlds.Accepted.{Audited, Accepted, starts_accepted}
use mcmanager.Domain.Lifecycle.{tombstone_world}
use mcmanager.Worlds.Deletion.{delete_found, delete_world}
use mcmanager.Worlds.Deletion.Recovery.{whole, deletion_recovers, deletion_refines}
use mcmanager.Worlds.Fuel.{waits_end}
use mcmanager.Worlds.Stuck.{failure_sticks}
use mcmanager.Worlds.Samples.{
  world_in, no_operations, services_with, test_host, process, session, queued_services, during,
  after_start, deleted_worlds, version_of,
}

serve-Steps_example :
    Steps (services_with WorldState.off) (serve test_host session (services_with WorldState.off))
serve-Steps_example = serve-Steps test_host session (services_with WorldState.off)

no_operations-IsAudited : IsAudited no_operations
unfolding row_at endings
no_operations-IsAudited = record { distinct = tt; once = λ j. refl }

serve-IsAudited_example : IsAudited (serve test_host session (services_with WorldState.off)).engine
serve-IsAudited_example =
    serve-IsAudited test_host session (services_with WorldState.off) no_operations-IsAudited

failure_sticks_example :
    (v : WorldRow) × (world_at "w1"
        (serve test_host session (services_with WorldState.crashed)).worlds
      ≡ some v)
    × (v.state ≡ WorldState.crashed)
unfolding world_at
failure_sticks_example =
    failure_sticks test_host session (services_with WorldState.crashed) "w1"
      (world_in WorldState.crashed) refl (inl refl)

dispatched_end_example :
    (ids : List String) × ((dispatch_lifecycle_operations test_host queued_services).0 ≡ ok ids)
    × AllEnded ids (dispatch_lifecycle_operations test_host queued_services).1
dispatched_end_example = dispatched_end test_host queued_services

waits_end_example :
    ((await_readiness test_host
        (world_in WorldState.starting)
        process
        35565
        "secret"
        (services_with WorldState.starting)).0
      ≢ err out_of_fuel)
    × ((wait_for_exit test_host process 60000 (services_with WorldState.starting)).0
        ≢ err out_of_fuel)
waits_end_example =
    waits_end test_host (λ m n h. omega arith) (world_in WorldState.starting) process 35565 "secret"
      60000 (services_with WorldState.starting)

stop_settles_example :
    Settled test_host "w1" "op_a"
      (stop_claimed test_host "w1" "op_a" (during OperationType.stop WorldState.running))
    × Settled test_host "w1" "op_a"
        (kill_claimed test_host "w1" "op_a" (during OperationType.stop WorldState.running))
unfolding world_at row_at new_row
stop_settles_example =
    stop_settles test_host "w1" "op_a" (during OperationType.stop WorldState.running)
      (world_in WorldState.running) refl refl

result_is : after_start.0 ≡ ok "op_b"
unfolding mcmanager.Worlds.Exec.◌>>=◌ mcmanager.Worlds.Exec.monotonic mcmanager.Worlds.Exec.or_raise
    mcmanager.Worlds.State.world_at mcmanager.Worlds.State.update_world mcmanager.Worlds.State.world
    mcmanager.Worlds.State.write_transition mcmanager.Worlds.State.set_world_state
    mcmanager.Worlds.State.transition_operation mcmanager.Worlds.Readiness.after_connect
    mcmanager.Worlds.Readiness.reach mcmanager.Worlds.Readiness.rcon_round
    mcmanager.Worlds.Readiness.await mcmanager.Worlds.Readiness.await_readiness
    mcmanager.Worlds.Launch.with_runtime mcmanager.Worlds.Launch.launch_context
    mcmanager.Worlds.Launch.gated mcmanager.Worlds.Launch.validate_launch
    mcmanager.Worlds.Launch.provision_rcon mcmanager.Worlds.Launch.store_rcon_secret
    mcmanager.Worlds.Launch.open_session mcmanager.Worlds.Launch.precheck
    mcmanager.Worlds.Start.lost_race mcmanager.Worlds.Start.refuse_gate
    mcmanager.Worlds.Start.spawned mcmanager.Worlds.Start.attach_log_sink
    mcmanager.Worlds.Start.admitted mcmanager.Worlds.Start.launched
    mcmanager.Worlds.Start.start_body mcmanager.Worlds.Start.start_claimed
    mcmanager.Operations.Milestones.milestone_row mcmanager.Operations.Milestones.write_milestone
    mcmanager.Operations.Milestones.transition_row mcmanager.Operations.Milestones.transition
    mcmanager.Operations.Rows.cleanup_scope mcmanager.Operations.Rows.row_at
    mcmanager.Operations.Rows.update_at mcmanager.Operations.Engine.publish_status
    mcmanager.Operations.Methods.new_row mcmanager.Domain.Lifecycle.WorldTransitionIntent-discrete
    mcmanager.Domain.Lifecycle.next_pre_backup_state mcmanager.Domain.Lifecycle.check_transition
    mcmanager.Domain.Lifecycle.transition_world mcmanager.Domain.World.make_world
    mcmanager.Domain.Values.WorldState-discrete mcmanager.Domain.Values.OperationStatus-discrete
    mcmanager.Domain.Values.ServerReadinessLevel-discrete
result_is = refl

start_ready_example : Started test_host "w1" "op_a" "op_b" after_start.1
unfolding row_at new_row
start_ready_example =
    start_ready test_host "w1" "op_a" (during OperationType.start WorldState.off) "op_b"
      after_start.1 refl (ap (λ (r : Result Raised String). (r, after_start.1)) result_is)

starts_accepted_example : Audited test_host "w1" after_start.1
starts_accepted_example =
    starts_accepted test_host "w1" "op_a" (during OperationType.start WorldState.off) "op_b"
      after_start.1 (ap (λ (r : Result Raised String). (r, after_start.1)) result_is)

deletion_recovers_example : delete_world "w1" (some "u1") 1 70 deleted_worlds ≡ ok deleted_worlds
unfolding delete_world delete_found world_at update_world
    mcmanager.Domain.Values.WorldState-discrete
deletion_recovers_example =
    deletion_recovers "w1" (some "u1") 1 50 70 (world_in WorldState.off ∷ []) deleted_worlds refl

deletion_refines_example :
    (t : WorldRow) × (world_at "w1" deleted_worlds ≡ some t)
    × (tombstone_world (whole (world_in WorldState.off)) 50
        ≡ ok (whole t, record { world_id = "w1"; occurred_at = 50 }))
    × (version_of (world_in WorldState.off) ≡ 1)
    × (version_of t ≡ 2)
unfolding delete_world delete_found world_at update_world
    mcmanager.Domain.Values.WorldState-discrete
deletion_refines_example =
    deletion_refines "w1" (some "u1") 1 50 (world_in WorldState.off ∷ []) deleted_worlds
      (world_in WorldState.off) refl refl
      (record {
        named = λ q. cc q;
        backup_origin = λ q. absurd (cc q);
        no_stray_origin = λ q. refl;
        tombstone_off = λ q. refl;
      })
      refl
