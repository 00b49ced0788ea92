-- ===== src/Operations/Methods.antt =====
-- The public methods of `OperationService` (app/services/operations.py): creation with replay, the
-- claim of a queued operation, the milestones of an operation, and the lists of operations. The time
-- and the identifiers that the source draws are arguments.
use mcmanager.Common.{
  ℕ, String, Bool, true, false, not, ◌&&◌, ◌||◌, Option, none, some, List, [], ◌∷◌, ◌++◌, ◌==◌,
  nat_eq, string_eq, option_eq, if◌then◌else◌, filter, find, length, holds, leb, ltb, contains,
  is_empty, map, sort_by, text_leb, Result, ok, err, ◌>>=◌,
}
use mcmanager.Domain.Values.{
  OperationType, start, stop, sync, cleanup, operation_type_eq, OperationStatus, queued, running,
  operation_status_eq,
}
use mcmanager.Notifications.{is_none}
use mcmanager.Operations.Rows.{
  Operation, OperationInput, in_flight, sync_artifact_id, cleanup_scope, has_in_flight_sync,
  has_in_flight_cleanup_scope, row_at,
}
use mcmanager.Operations.Policy.{
  OperationError, duplicate_key, Verdict, admit, apply_conflict_policy,
}
use mcmanager.Operations.Engine.{
  Engine, operation_created, queue_position, publish, in_flight_of, get_by_idempotency_key,
  cancel_rows, reread, terminal_audit, publish_terminals,
}

abbrev pub by_created : Operation → Operation → Bool
by_created a b = leb a.created_at b.created_at

abbrev by_created_then_id : Operation → Operation → Bool
by_created_then_id a b =
    ltb a.created_at b.created_at || (a.created_at == b.created_at && text_leb a.op_id b.op_id)

-- the rows that hold the lock of the new operation's world, oldest first
unfoldable pub active_rows : Option String → List Operation → List Operation
active_rows none rows = []
active_rows (some world_id) rows = sort_by by_created (in_flight_of world_id rows)

abbrev queue_if : Bool → OperationStatus → OperationStatus
queue_if true status = queued
queue_if false status = status

abbrev test_some : Option String → (String → Bool) → Bool
test_some none p = false
test_some (some s) p = p s

-- the status before the conflict policy: a sync of an artifact, or a cleanup of a scope, that is in
-- flight already makes the new one wait
unfoldable pub first_status : OperationInput → OperationStatus → List Operation → OperationStatus
first_status request status rows =
    let s =
      queue_if
        (request.op_type == sync
          && test_some (sync_artifact_id request.data_json) (has_in_flight_sync rows))
        status in
    queue_if
      (request.op_type == cleanup
        && test_some (cleanup_scope request.world_id request.data_json)
            (has_in_flight_cleanup_scope rows))
      s

abbrev pub is_some' {ℓ} : {A : Type ℓ} → Option A → Bool
is_some' o = not (is_none o)

-- the conflict policy applies to this request
unfoldable pub locks_world : OperationInput → Bool → Bool
locks_world request allow_world_conflict =
    is_some' request.world_id && not allow_world_conflict && not (request.op_type == sync)

-- the operation in flight that a repeated Start or Stop returns
unfoldable pub repeated : OperationInput → List Operation → Option Operation
repeated request active =
    if request.op_type == start || request.op_type == stop
    then find (λ row. row.op_type == request.op_type) active
    else none

abbrev started_when : OperationStatus → ℕ → Option ℕ
started_when running now = some now
started_when _ now = none

-- the row that is inserted
unfoldable pub new_row : OperationInput → String → OperationStatus → ℕ → Operation
new_row request op_id status now = record {
  op_id = op_id;
  op_type = request.op_type;
  world_id = request.world_id;
  actor_type = request.actor_type;
  actor_user_id = request.actor_user_id;
  idempotency_key = request.idempotency_key;
  status = status;
  checkpoint = none;
  attempt = 1;
  compensates_operation_id = request.compensates_operation_id;
  intent_at = now;
  started_at = started_when status now;
  finished_at = none;
  error_code = none;
  message = none;
  data_json = request.data_json;
  created_at = now;
  updated_at = now;
}

-- the position of a queued operation among those that wait for its world
unfoldable pub queue_position_of : Operation → List Operation → ℕ
queue_position_of row rows =
    if row.status == queued
    then length (
        filter
          (λ r.
            test_some row.world_id (holds r.world_id)
            && r.status == queued
            && (ltb r.created_at row.created_at
                || (r.created_at == row.created_at && text_leb r.op_id row.op_id)))
          rows)
    else 0

-- `_publish_created`
unfoldable pub publish_created : Operation → Engine → Engine
publish_created row s =
    let position = queue_position_of row s.operations in
    let s' = publish (operation_created row position) row.world_id s in
    if ltb 0 position then publish (queue_position row position) row.world_id s' else s'

-- cancel what is superseded, insert the row, and write the audit records, in one transaction
unfoldable pub insert_row :
    OperationInput → String → Verdict → ℕ → Engine → Result OperationError (Engine × Operation)
insert_row request op_id verdict now s =
    let rows = cancel_rows now verdict.error_code verdict.superseded s.operations in
    let row = new_row request op_id verdict.status now in
    let ended = reread verdict.superseded rows in
    let s' : Engine = record s {
      operations = rows ++ row ∷ [];
      audits = s.audits ++ map (terminal_audit now s.usernames) ended;
    } in
    if is_some' (row_at op_id rows)
    then err duplicate_key
    else ok (publish_created row (publish_terminals ended s'), row)

abbrev pub verdict_for :
    OperationInput → Bool → List Operation → OperationStatus → Result OperationError Verdict
verdict_for request applies active status =
    if applies then apply_conflict_policy request active status else ok (admit status)

abbrev pub replay_of : Engine → OperationInput → Option Operation
replay_of s request = elim request.idempotency_key [
  | none ↦ none
  | some key ↦ get_by_idempotency_key s request.op_type key
]

-- the conflict policy and the insertion
unfoldable pub admit_and_insert :
    OperationInput
    → Bool
    → OperationStatus
    → String
    → ℕ
    → Engine
    → Result OperationError (Engine × Operation × Bool)
admit_and_insert request applies status op_id now s = do
  verdict ← verdict_for request applies (active_rows request.world_id s.operations) status
  inserted ← insert_row request op_id verdict now s
  ok (inserted.0, inserted.1, false)

-- a Start or a Stop that is in flight already is returned as it is
abbrev pub repeated_row : OperationInput → Bool → Engine → Option Operation
repeated_row request applies s =
    if applies then repeated request (active_rows request.world_id s.operations) else none

-- the part of `create_with_replay` after its test of the idempotency key
unfoldable pub create_fresh :
    OperationInput
    → OperationStatus
    → Bool
    → String
    → ℕ
    → Engine
    → Result OperationError (Engine × Operation × Bool)
create_fresh request initial_status allow_world_conflict op_id now s =
    let applies = locks_world request allow_world_conflict in
    elim (repeated_row request applies s) [
      | some row ↦ ok (s, row, true)
      | none ↦
          admit_and_insert request applies (first_status request initial_status s.operations) op_id
            now s
    ]

unfoldable pub create_with_replay :
    OperationInput
    → OperationStatus
    → Bool
    → String
    → ℕ
    → Engine
    → Result OperationError (Engine × Operation × Bool)
create_with_replay request initial_status allow_world_conflict op_id now s =
    elim (replay_of s request) [
      | some row ↦ ok (s, row, true)
      | none ↦ create_fresh request initial_status allow_world_conflict op_id now s
    ]

unfoldable pub list_queued : Engine → List OperationType → List Operation
list_queued s op_types =
    if is_empty op_types
    then []
    else sort_by by_created_then_id
        (filter (λ row. row.status == queued && contains op_types row.op_type) s.operations)

unfoldable pub list_incomplete : Engine → List Operation
list_incomplete s = sort_by by_created (filter (λ row. in_flight row.status) s.operations)
