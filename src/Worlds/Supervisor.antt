-- ===== src/Worlds/Supervisor.antt =====
-- `poll_running` and `reconcile` of app/services/worlds.py.
use mcmanager.Common.{
  ℕ, String, string_eq, Bool, true, false, not, ◌&&◌, ◌||◌, Option, none, some, List, [], ◌∷◌, ◌++◌,
  ◌==◌, nat_eq, option_eq, filter, any, holds, ltb, if◌then◌else◌,
}
use mcmanager.Domain.Values.{
  WorldState, world_state_eq, OperationType, operation_type_eq, OperationStatus,
  operation_status_eq, system, EndReason,
}
use mcmanager.Operations.Rows.{Operation, num}
use mcmanager.Operations.Milestones.{plain}
use mcmanager.Operations.Methods.{by_created}
use mcmanager.Common.{sort_by}
use mcmanager.Worlds.Store.{WorldRow, RuntimeSession, ProcessHandle, Host}
use mcmanager.Worlds.Exec.{
  lifecycle, world_not_found, Exec, pure, raise, gets, ask, ask_or_raise, ◌>>=◌, ◌>>◌,
}
use mcmanager.Worlds.State.{
  world, close_session, open_sessions, create_operation, transition_operation,
}
use mcmanager.Worlds.Launch.{set_state, stage, request_of, is_up}
use mcmanager.Worlds.Stop.{resolve_handle}

module _ (host : Host) where
  -- `_record_crash`
  unfoldable pub record_crash : String → Exec (Unit {0})
  record_crash world_id = do
    detected_at ← ask host.clock
    created ←
        create_operation host
          (record (request_of OperationType.crash_detected world_id system none none) {
            data_json = some (("detected_at", num detected_at) ∷ []);
          })
          OperationStatus.queued true
    transition_operation host created.0.op_id OperationStatus.running (stage "crash_detected")
    transition_operation host created.0.op_id OperationStatus.completed (stage "crashed")
    pure tt

  unfoldable pub is_alive : Option ProcessHandle → Exec Bool
  is_alive none = pure false
  is_alive (some handle) = ask_or_raise (λ n. host.poll n handle) >>= λ status. pure status.alive

  -- one session of a round of the supervisor
  unfoldable pub poll_session : RuntimeSession → Exec (List String)
  poll_session r = do
    handle ← resolve_handle host r.world_id
    alive ← is_alive handle
    if alive then pure [] else (do
      close_session host r.world_id EndReason.crashed
      set_state host r.world_id WorldState.crashed
      record_crash r.world_id
      pure (r.world_id ∷ []))

  unfoldable pub each :
      (RuntimeSession → Exec (List String)) → List RuntimeSession → Exec (List String)
  each f [] = pure []
  each f (r ∷ rows) = do first ← f r; rest ← each f rows; pure (first ++ rest)

  -- `poll_running`
  unfoldable pub poll_running : Exec (List String)
  poll_running = open_sessions host >>= λ rows. each poll_session rows

  -- `supervisor_interval_seconds`
  unfoldable pub supervisor_interval_seconds : Exec ℕ
  supervisor_interval_seconds = gets (λ s.
      if any (λ (r : WorldRow). r.deleted_at == none && is_up r.state) s.worlds then 1 else 15)

  -- status IN (Validating, Running)
  abbrev is_under_way : Operation → Bool
  is_under_way row =
      row.op_type == OperationType.start
      && (row.status == OperationStatus.validating || row.status == OperationStatus.running)

  abbrev latest : Option Operation → List Operation → Option Operation
  latest best [] = best
  latest none (r ∷ rows) = latest (some r) rows
  latest (some b) (r ∷ rows) = latest (some (if ltb b.created_at r.created_at then r else b)) rows

  -- `_in_flight_start`
  unfoldable pub in_flight_start : String → Exec (Option Operation)
  in_flight_start world_id = gets (λ s.
      latest none (
        filter (λ (o : Operation). holds o.world_id world_id && is_under_way o)
          s.engine.operations))

  abbrev has_session : List RuntimeSession → Option String → Bool
  has_session rows none = false
  has_session rows (some world_id) =
      any (λ (r : RuntimeSession). r.world_id == world_id && r.ended_at == none) rows

  -- `_incomplete_starts_without_sessions`
  unfoldable pub incomplete_starts_without_sessions : Exec (List Operation)
  incomplete_starts_without_sessions = gets (λ s. sort_by by_created (
      filter (λ (o : Operation). is_under_way o && not (has_session s.sessions o.world_id))
        s.engine.operations))

  unfoldable pub settle_state : String → WorldState → Exec (Unit {0})
  settle_state world_id WorldState.starting = set_state host world_id WorldState.error
  settle_state world_id WorldState.running = set_state host world_id WorldState.crashed
  settle_state world_id WorldState.stopping = set_state host world_id WorldState.crashed
  settle_state world_id WorldState.queued = set_state host world_id WorldState.off
  settle_state world_id WorldState.off = pure tt
  settle_state world_id WorldState.error = pure tt
  settle_state world_id WorldState.crashed = pure tt
  settle_state world_id _ = raise (lifecycle "cannot reconcile interrupted Start")

  -- `_fail_interrupted_start`
  unfoldable pub fail_interrupted_start : Operation → String → Exec (Unit {0})
  fail_interrupted_start o world_id = do
    row ← world world_id
    settle_state world_id row.state
    transition_operation host o.op_id OperationStatus.failed (record plain {
      error_code = some "manager_restart_incomplete";
      message = some "Start was interrupted by manager restart before process recovery.";
    })
    pure tt

  unfoldable pub missing : String → Option Operation → Exec (Unit {0})
  missing world_id none = set_state host world_id WorldState.crashed >> record_crash world_id
  missing world_id (some o) = fail_interrupted_start o world_id

  -- an open session at boot
  unfoldable pub reconcile_session : RuntimeSession → Exec (List String)
  reconcile_session r = do
    probe ← ask_or_raise (λ n. host.probe n r.world_id (some r))
    if probe.found && probe.matched_launch
        then (set_state host r.world_id WorldState.running >> pure (r.world_id ∷ []))
        else (do
          close_session host r.world_id EndReason.reconciled_missing
          begun ← in_flight_start r.world_id
          missing r.world_id begun
          pure [])

  unfoldable pub fail_one : Operation → Option String → Exec (Unit {0})
  fail_one o none = raise world_not_found
  fail_one o (some world_id) = fail_interrupted_start o world_id

  unfoldable pub fail_all : List Operation → Exec (Unit {0})
  fail_all [] = pure tt
  fail_all (o ∷ rows) = fail_one o o.world_id >> fail_all rows

  -- `reconcile`
  unfoldable pub reconcile : Exec (List String)
  reconcile = do
    rows ← open_sessions host
    reattached ← each reconcile_session rows
    starts ← incomplete_starts_without_sessions
    fail_all starts
    pure reattached
