-- ===== src/Worlds/Start.antt =====
-- `start` of app/services/worlds.py, the ladder from a gate to a ready server.
use mcmanager.Worlds.Launch.{
  is_up, stage, or_text, request_of, eula_refused, gate_message, launch_context, validate_launch,
  provision_rcon, open_session, set_state, precheck,
}
use mcmanager.Common.{
  ℕ, String, string_eq, Bool, Option, none, some, [], ◌∷◌, nat_eq, if◌then◌else◌,
}
use mcmanager.Domain.Values.{
  WorldState, world_state_eq, OperationType, OperationStatus, ActorType, EndReason,
  ServerReadinessLevel,
}
use mcmanager.Operations.Rows.{text}
use mcmanager.Operations.Milestones.{Milestone, plain}
use mcmanager.Worlds.Store.{WorldRow, ProcessHandle, LaunchContext, GateResult, SpawnResult, Host}
use mcmanager.Worlds.Exec.{
  Raised, world_conflict, start_timeout, spawn_failed, lifecycle, is_lifecycle, message_of, Exec,
  pure, raise, gets, ask, ask_or_raise, catch, ◌>>=◌, ◌>>◌,
}
use mcmanager.Worlds.State.{
  world, close_session, create_operation, transition_operation, fail_operation,
}
use mcmanager.Worlds.Readiness.{await_readiness}

module _ (host : Host) where
  -- a transition that another caller has won
  unfoldable pub lost_race : String → Bool → Exec (Unit {0})
  lost_race op_id up =
      if up
      then (transition_operation host op_id OperationStatus.cancelled
            (record plain { message = some "conflict with current state" })
          >> raise world_conflict)
      else pure tt

  unfoldable pub refuse_gate : String → String → GateResult → Exec (Unit {0})
  refuse_gate op_id world_id gate = if gate.passed then pure tt else (do
    fail_operation host op_id (or_text gate.error_code "GATE_REJECTED") gate.detail
    set_state host world_id
        (if eula_refused gate then WorldState.eula_required else WorldState.error)
    raise (gate_message gate))

  unfoldable pub spawned : String → String → SpawnResult → Option ProcessHandle → Exec ProcessHandle
  spawned op_id world_id result (some handle) = pure handle
  spawned op_id world_id result none = do
    fail_operation host op_id "SPAWN_FAILED" result.spawn_error
    set_state host world_id WorldState.error
    raise (spawn_failed (or_text result.spawn_error "spawn failed"))

  unfoldable pub attach_log_sink : ProcessHandle → Exec (Unit {0})
  attach_log_sink handle = do
    logs ← gets (λ s. s.logs)
    if logs then ask_or_raise (λ n. host.tail n handle) else pure tt

  abbrev pub level_name : ServerReadinessLevel → String
  level_name ServerReadinessLevel.process_alive = "process_alive"
  level_name ServerReadinessLevel.port_bound = "port_bound"
  level_name ServerReadinessLevel.rcon_ready = "rcon_ready"
  level_name ServerReadinessLevel.probe_ok = "probe_ok"
  level_name ServerReadinessLevel.operationally_valid = "operationally_valid"

  abbrev started : String → ServerReadinessLevel → Milestone
  started session_id level = record plain {
    checkpoint = some (
        ("stage", text "running")
        ∷ ("readiness", text (level_name level))
        ∷ ("session_id", text session_id)
        ∷ []);
    data_json = some (("session_id", text session_id) ∷ []);
  }

  -- what `start` checks once its operation runs: no race, and the gate
  unfoldable pub admitted : String → String → Exec (WorldRow × LaunchContext)
  admitted world_id op_id = do
    transition_operation host op_id OperationStatus.running (stage "validating")
    row ← world world_id
    lost_race op_id (is_up row.state)
    context ← launch_context host row
    gate ← validate_launch host row context
    refuse_gate op_id world_id gate
    pure (row, context)

  -- the process of a start, with its session
  unfoldable pub launched :
      String → String → WorldRow → LaunchContext → Exec (ProcessHandle × String × ℕ × String)
  launched world_id op_id row context = do
    rcon ← provision_rcon host context
    argv ← ask_or_raise (λ n. host.launch_command n row context)
    session_id ← ask host.identifier
    set_state host world_id WorldState.queued
    set_state host world_id WorldState.starting
    result ← ask_or_raise (λ n. host.spawn n argv session_id)
    handle ← spawned op_id world_id result result.handle
    open_session host row handle argv rcon.0 rcon.1 session_id
    attach_log_sink handle
    pure (handle, session_id, rcon.0, rcon.1)

  -- the body of the `try`
  unfoldable pub start_body : String → String → Exec String
  start_body world_id op_id = do
    checked ← admitted world_id op_id
    process ← launched world_id op_id checked.0 checked.1
    level ← await_readiness host checked.0 process.0 process.2 process.3
    set_state host world_id WorldState.running
    transition_operation host op_id OperationStatus.completed (started process.1 level)
    pure process.1

  -- except WorldLifecycleError: raise, except Exception: …
  unfoldable pub start_broken : String → String → Raised → Exec String
  start_broken world_id op_id e = if is_lifecycle e then raise e else (do
    fail_operation host op_id "START_ERROR" (some (message_of e))
    set_state host world_id WorldState.error
    raise (lifecycle (message_of e)))

  -- the clauses of its `except`
  unfoldable pub start_failed : String → String → Raised → Exec String
  start_failed world_id op_id start_timeout = do
    close_session host world_id EndReason.crashed
    set_state host world_id WorldState.error
    transition_operation host op_id OperationStatus.timed_out (record plain {
      error_code = some "START_TIMEOUT";
      message = some (message_of start_timeout);
    })
    raise start_timeout
  start_failed world_id op_id e = start_broken world_id op_id e

  -- `start` with the operation that a dispatcher has claimed
  unfoldable pub start_claimed : String → String → Exec String
  start_claimed world_id op_id = do
    precheck host world_id
    catch (start_body world_id op_id) (start_failed world_id op_id)

  -- `start` with an operation of its own
  unfoldable pub start : String → ActorType → Option String → Bool → Exec String
  start world_id actor_type actor_user_id allow_world_conflict = do
    precheck host world_id
    created ←
        create_operation host
          (request_of OperationType.start world_id actor_type actor_user_id none)
          OperationStatus.queued allow_world_conflict
    let op_id = created.0.op_id
    catch (start_body world_id op_id) (start_failed world_id op_id)
