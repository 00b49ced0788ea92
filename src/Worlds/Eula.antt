-- ===== src/Worlds/Eula.antt =====
-- `accept_eula` of app/services/worlds.py.
use mcmanager.Common.{String, string_eq, Bool, false, not, none, some, [], ◌∷◌, ◌++◌, ◌==◌}
use mcmanager.Domain.Values.{WorldState, world_state_eq, OperationType, OperationStatus, user}
use mcmanager.Domain.Lifecycle.{eula_acceptance}
use mcmanager.Operations.Rows.{Operation, OperationInput, Fields, text, other}
use mcmanager.Operations.Engine.{get}
use mcmanager.Operations.Milestones.{plain}
use mcmanager.Worlds.Store.{WorldRow, Host}
use mcmanager.Worlds.Exec.{
  Raised, world_conflict, lifecycle, message_of, Exec, pure, raise, gets, ask_or_raise, catch,
  modify, or_raise, ◌>>=◌, ◌>>◌, raise_if,
}
use mcmanager.Worlds.State.{world, set_world_state, create_operation, transition_operation}

abbrev eula_payload : String → Fields
eula_payload world_id =
    ("entity", text "eula")
    ∷ ("row_id", text world_id)
    ∷ ("before", other "{\"accepted\": false}")
    ∷ ("after", other "{\"accepted\": true}")
    ∷ []

abbrev eula_request : String → String → OperationInput
eula_request world_id actor_user_id = record {
  op_type = OperationType.config_edit;
  actor_type = user;
  world_id = some world_id;
  actor_user_id = some actor_user_id;
  idempotency_key = none;
  data_json = some (eula_payload world_id);
  compensates_operation_id = none;
}

-- `AuditService.write` of the event `world_eula_accepted`
unfoldable pub write_acceptance : String → String → Exec (Unit {0})
write_acceptance world_id actor_user_id =
    modify (λ s. record s { eula_audits = s.eula_audits ++ (world_id, actor_user_id) ∷ [] })

module _ (host : Host) where
  -- the body of the `try`
  unfoldable pub acceptance : WorldRow → String → String → String → Exec Operation
  acceptance row world_id actor_user_id op_id = do
    write_acceptance world_id actor_user_id
    ask_or_raise (λ n. host.accept_eula n row actor_user_id)
    set_world_state host world_id WorldState.off eula_acceptance
    transition_operation host op_id OperationStatus.completed
        (record plain { data_json = some (eula_payload world_id) })
    current ← gets (λ s. get s.engine op_id)
    or_raise current (lifecycle "EULA acceptance operation disappeared.")

  unfoldable pub acceptance_failed : String → String → Raised → Exec Operation
  acceptance_failed world_id op_id e = do
    transition_operation host op_id OperationStatus.failed (record plain {
      error_code = some "EULA_ACCEPTANCE_FAILED";
      message = some (message_of e);
      data_json = some (eula_payload world_id);
    })
    raise e

  -- what is asked of an acceptance before its operation
  unfoldable pub may_accept : String → String → Bool → Exec WorldRow
  may_accept world_id actor_user_id accepted = do
    raise_if (not accepted) (lifecycle "explicit EULA acceptance is required")
    raise_if (actor_user_id == "") (lifecycle "EULA acceptance requires an operator identity")
    audited ← gets (λ s. s.audit)
    raise_if (not audited) (lifecycle "EULA acceptance audit is unavailable")
    row ← world world_id
    raise_if (not (row.state == WorldState.eula_required)) world_conflict
    pure row

  unfoldable pub accept_eula : String → String → Bool → Exec Operation
  accept_eula world_id actor_user_id accepted = do
    row ← may_accept world_id actor_user_id accepted
    created ←
        create_operation host (eula_request world_id actor_user_id) OperationStatus.queued false
    transition_operation host created.0.op_id OperationStatus.running plain
    catch (acceptance row world_id actor_user_id created.0.op_id)
        (acceptance_failed world_id created.0.op_id)
