-- ===== src/Operations/Engine.antt =====
-- `OperationService` of app/services/operations.py: its store and caches as one record, and each
-- method as a function on it. A transaction that raises leaves the record as it was.
use mcmanager.Common.{
  ℕ, String, Bool, false, not, ◌&&◌, Option, none, some, List, [], ◌∷◌, ◌++◌, map, ◌==◌, string_eq,
  option_eq, if◌then◌else◌, filter, find, any, holds, lookup,
}
use mcmanager.Domain.Values.{
  OperationType, config_edit, operation_type_eq, OperationStatus, cancelled, operation_status_eq,
  ActorType,
}
use mcmanager.Notifications.{Notification, about_operation}
use mcmanager.Operations.Rows.{
  Json, other, Fields, or_empty, Operation, in_flight, active, row_at, update_at,
}

-- An audit record of a terminal operation. The event's name is the type and the status; the actor's
-- name is resolved when the record is written.
pub record AuditRecord : Type 0 where
  pub operation_id : String
  pub op_type : OperationType
  pub status : OperationStatus
  pub world_id : Option String
  pub actor_type : ActorType
  pub user_id : Option String
  pub username : Option String
  pub error_code : Option String
  pub message : Option String
  pub edit : Fields
  pub created_at : ℕ

-- what is published on the realtime hub
pub data Event : Type 0 where
  operation_created : Operation → ℕ → Event
  queue_position : Operation → ℕ → Event
  operation_progress : String → OperationType → OperationStatus → Option Fields → Event
  step_progress : OperationType → String → ℕ → String → Event
  operation_terminal : Operation → Event
  notification : Notification → Event

-- the stream `events`, and the stream of each world
pub data Stream : Type 0 where
  events : Stream
  world_events : String → Stream

pub record Engine : Type 0 where
  pub operations : List Operation
  pub audits : List AuditRecord
  pub notifications : List Notification
  pub usernames : List (String × String)
  pub pending_checkpoints : List (String × Fields)
  pub progress_cache : List (String × Fields)
  pub published : List (Stream × Event)
  pub realtime : Bool
  pub notifies : Bool

abbrev streams_of : Option String → List Stream
streams_of none = events ∷ []
streams_of (some world_id) = events ∷ world_events world_id ∷ []

-- `_publish`
unfoldable pub publish : Event → Option String → Engine → Engine
publish event world_id s =
    if s.realtime
    then record s {
      published = s.published ++ map (λ stream. (stream, event)) (streams_of world_id);
    }
    else s

unfoldable pub in_flight_of : String → List Operation → List Operation
in_flight_of world_id = filter (λ row. holds row.world_id world_id && in_flight row.status)

-- the clause `AND op_id <> ?`, where it is present
abbrev excluded : Option String → Operation → Bool
excluded none row = false
excluded (some op_id) row = row.op_id == op_id

unfoldable pub has_in_flight_operation : Engine → String → Option String → Bool
has_in_flight_operation s world_id exclude_op_id =
    any
      (λ row.
        holds row.world_id world_id && in_flight row.status && not (excluded exclude_op_id row))
      s.operations

-- another operation of the world that is Created, Validating or Running
unfoldable pub has_active : String → String → List Operation → Bool
has_active world_id op_id =
    any (λ row. holds row.world_id world_id && not (row.op_id == op_id) && active row.status)

unfoldable pub has_active_operation : Engine → String → String → Bool
unfolding has_active
has_active_operation s world_id exclude_op_id = has_active world_id exclude_op_id s.operations

-- WHERE op_type = ? AND idempotency_key = ?
unfoldable pub get_by_idempotency_key : Engine → OperationType → String → Option Operation
get_by_idempotency_key s op_type key =
    find (λ row. row.op_type == op_type && holds row.idempotency_key key) s.operations

unfoldable pub get : Engine → String → Option Operation
unfolding row_at
get s op_id = row_at op_id s.operations

-- `_cancel_row`, of a row and the code of the operation that supersedes it
unfoldable pub cancel_row : ℕ → String → Operation → List Operation → List Operation
cancel_row now error_code row =
    update_at row.op_id (λ r. in_flight r.status)
      (λ r. record r {
        status = cancelled;
        finished_at = some now;
        error_code = some error_code;
        updated_at = now;
      })

unfoldable pub cancel_rows : ℕ → String → List Operation → List Operation → List Operation
unfolding cancel_row
cancel_rows now error_code [] rows = rows
cancel_rows now error_code (row ∷ more) rows =
    cancel_rows now error_code more (cancel_row now error_code row rows)

-- the rows as they stand after their cancellation
unfoldable pub reread : List Operation → List Operation → List Operation
reread [] rows = []
reread (row ∷ more) rows = elim (row_at row.op_id rows) [
  | none ↦ reread more rows
  | some r ↦ r ∷ reread more rows
]

abbrev username_of : Option String → List (String × String) → Option String
username_of none names = none
username_of (some user_id) names = lookup user_id names

abbrev edit_keys : List String
edit_keys = "entity" ∷ "row_id" ∷ "before" ∷ "after" ∷ []

abbrev or_object : Option Json → Json
or_object none = other "{}"
or_object (some v) = v

abbrev edit_payload : Operation → Fields
edit_payload row =
    if row.op_type == config_edit
    then map (λ key. (key, or_object (lookup key (or_empty row.data_json)))) edit_keys
    else []

abbrev at_time : Option ℕ → ℕ → ℕ
at_time none now = now
at_time (some at) now = at

-- `_write_terminal_audit`
unfoldable pub terminal_audit : ℕ → List (String × String) → Operation → AuditRecord
terminal_audit now names row = record {
  operation_id = row.op_id;
  op_type = row.op_type;
  status = row.status;
  world_id = row.world_id;
  actor_type = row.actor_type;
  user_id = row.actor_user_id;
  username = username_of row.actor_user_id names;
  error_code = row.error_code;
  message = row.message;
  edit = edit_payload row;
  created_at = at_time row.finished_at now;
}

abbrev notify_found : Option Notification → Option String → Engine → Engine
notify_found none world_id s = s
notify_found (some n) world_id s = publish (notification n) world_id s

-- `_publish_terminal`
unfoldable pub publish_terminal : Operation → Engine → Engine
unfolding publish
publish_terminal row s =
    let s' = publish (operation_terminal row) row.world_id s in
    if s.realtime
    then notify_found (about_operation row.op_id s'.notifications) row.world_id s'
    else s'

unfoldable pub publish_terminals : List Operation → Engine → Engine
unfolding publish_terminal
publish_terminals [] s = s
publish_terminals (row ∷ rows) s = publish_terminals rows (publish_terminal row s)

-- `_publish_status`
unfoldable pub publish_status : Operation → OperationStatus → Option Fields → Engine → Engine
unfolding publish
publish_status row status checkpoint =
    publish (operation_progress row.op_id row.op_type status checkpoint) row.world_id
