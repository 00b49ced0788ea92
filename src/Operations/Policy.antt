-- ===== src/Operations/Policy.antt =====
-- `_apply_conflict_policy` of app/services/operations.py: what the operations in flight on a world
-- do to a new operation on that world. The policy here decides; the engine cancels the superseded
-- rows. The two may be separated, since a refusal rolls the cancellations back.
use mcmanager.Common.{
  String, Bool, true, false, not, ◌&&◌, ◌||◌, Option, none, some, List, [], ◌==◌, string_eq,
  if◌then◌else◌, filter, any, all, is_empty, holds, Result, ok, err,
}
use mcmanager.Domain.Values.{
  OperationType, start, stop, kill, backup, restore, cleanup, delete_world, operation_type_eq,
  OperationStatus, queued, operation_status_eq,
}
use mcmanager.Operations.Rows.{Operation, OperationInput, cleanup_scope}

-- the errors of the engine: `OperationConflictError`, `OperationStateError`, the `ValueError` of a
-- progress that is no percentage, and the store's refusal of a row whose key exists
pub data OperationError : Type 0 where
  conflict not_found already_terminal bad_progress duplicate_key : OperationError

-- How a new operation is admitted: its status, the rows that it cancels, and their error code.
pub record Verdict : Type 0 where
  pub status : OperationStatus
  pub superseded : List Operation
  pub error_code : String

abbrev pub admit : OperationStatus → Verdict
admit status = record { status = status; superseded = []; error_code = "" }

abbrev pub has_type : OperationType → Operation → Bool
has_type op_type row = row.op_type == op_type

-- a type in _SINGLE_FLIGHT_TYPES
abbrev pub single_flight : OperationType → Bool
single_flight backup = true
single_flight restore = true
single_flight cleanup = true
single_flight _ = false

-- a type in _RUNTIME_TYPES
abbrev pub runtime : OperationType → Bool
runtime start = true
runtime stop = true
runtime kill = true
runtime _ = false

abbrev pub is_backup_or_cleanup : Operation → Bool
is_backup_or_cleanup row = has_type backup row || has_type cleanup row

-- a deletion that no dispatcher has claimed
abbrev pub queued_delete : Operation → Bool
queued_delete row = has_type delete_world row && row.status == queued

-- the admission of a restoration in place of the deletions that wait
abbrev pub replacing : List Operation → OperationStatus → Verdict
replacing active status = record {
  status = status;
  superseded = filter queued_delete active;
  error_code = "superseded_by_restore";
}

-- the branch of `Restore` with deletions that it supersedes
abbrev supersede_deletes : List Operation → OperationStatus → Result OperationError Verdict
supersede_deletes active status =
    let rest = filter (λ row. not (queued_delete row)) active in
    if is_empty rest
    then ok (replacing active status)
    else if all (has_type restore) rest
    then ok (replacing active queued)
    else err conflict

abbrev pub same_scope : Option String → Operation → Bool
same_scope none row = false
same_scope (some scope) row =
    has_type cleanup row && holds (cleanup_scope row.world_id row.data_json) scope

-- The branch of each type, in the order of the source's tests. `active` is not empty.
unfoldable pub policy_for :
    OperationType → Option String → List Operation → OperationStatus → Result OperationError Verdict
policy_for kill scope active status =
    if all (has_type stop) active
    then ok (record { status = status; superseded = active; error_code = "superseded_by_kill" })
    else if all is_backup_or_cleanup active
    then ok (admit status)
    else err conflict
policy_for restore scope active status =
    if any queued_delete active
    then supersede_deletes active status
    else if all (has_type restore) active
    then ok (admit queued)
    else err conflict
policy_for backup scope active status =
    if any (λ row. not (runtime row.op_type) && not (has_type backup row)) active
    then err conflict
    else if any (has_type backup) active
    then ok (admit queued)
    else ok (admit status)
policy_for cleanup scope active status =
    if any (same_scope scope) active
    then ok (admit queued)
    else if any (λ row. not (runtime row.op_type) && not (has_type cleanup row)) active
    then err conflict
    else ok (admit status)
policy_for stop scope active status =
    if any (has_type backup) active
    then (if any (λ row. not (is_backup_or_cleanup row)) active
        then err conflict
        else ok (admit queued))
    else if all (has_type cleanup) active
    then ok (admit status)
    else err conflict
policy_for start scope active status =
    if all is_backup_or_cleanup active then ok (admit status) else err conflict
policy_for _ scope active status = err conflict

unfoldable pub apply_conflict_policy :
    OperationInput → List Operation → OperationStatus → Result OperationError Verdict
apply_conflict_policy request active status =
    if is_empty active
    then ok (admit status)
    else if any (has_type request.op_type) active && not (single_flight request.op_type)
    then err conflict
    else policy_for request.op_type (cleanup_scope request.world_id request.data_json) active status
