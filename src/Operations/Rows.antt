-- ===== src/Operations/Rows.antt =====
-- The rows that the operation engine of app/services/operations.py reads and writes. A JSON column
-- is held as the dictionary that it encodes; a missing one is `none`.
use Prim.Native.String.{◌++◌ as concat}
use mcmanager.Common.{
  ℕ, String, Bool, true, false, ◌&&◌, Option, none, some, List, [], ◌∷◌, ◌==◌, string_eq,
  if◌then◌else◌, holds, any, lookup,
}
use mcmanager.Domain.Values.{
  OperationType, sync, cleanup, operation_type_eq, OperationStatus, created, queued, validating,
  running, completed, failed, cancelled, timed_out, ActorType,
}

-- A JSON value. The engine looks only at texts, so an array or an object is kept as its text.
pub data Json : Type 0 where
  null : Json
  flag : Bool → Json
  num : ℕ → Json
  text : String → Json
  other : String → Json

abbrev pub Fields : Type 0
Fields = List (String × Json)

-- A row of the table `operations`.
pub record Operation : Type 0 where
  pub op_id : String
  pub op_type : OperationType
  pub world_id : Option String
  pub actor_type : ActorType
  pub actor_user_id : Option String
  pub idempotency_key : Option String
  pub status : OperationStatus
  pub checkpoint : Option Fields
  pub attempt : ℕ
  pub compensates_operation_id : Option String
  pub intent_at : ℕ
  pub started_at : Option ℕ
  pub finished_at : Option ℕ
  pub error_code : Option String
  pub message : Option String
  pub data_json : Option Fields
  pub created_at : ℕ
  pub updated_at : ℕ

-- `OperationInput`
pub record OperationInput : Type 0 where
  pub op_type : OperationType
  pub actor_type : ActorType
  pub world_id : Option String
  pub actor_user_id : Option String
  pub idempotency_key : Option String
  pub data_json : Option Fields
  pub compensates_operation_id : Option String

-- status IN IN_FLIGHT_STATUSES
abbrev pub in_flight : OperationStatus → Bool
in_flight created = true
in_flight queued = true
in_flight validating = true
in_flight running = true
in_flight _ = false

-- status IN TERMINAL_STATUSES
abbrev pub terminal : OperationStatus → Bool
terminal completed = true
terminal failed = true
terminal cancelled = true
terminal timed_out = true
terminal _ = false

-- the statuses that exclude another operation of the same world from running
abbrev pub active : OperationStatus → Bool
active created = true
active validating = true
active running = true
active _ = false

-- a text that is not empty, under a key of a JSON dictionary
abbrev text_of : Option Json → Option String
text_of (some (text s)) = if s == "" then none else some s
text_of _ = none

abbrev pub or_empty : Option Fields → Fields
or_empty none = []
or_empty (some fields) = fields

-- `_sync_artifact_id`
unfoldable pub sync_artifact_id : Option Fields → Option String
unfolding lookup
sync_artifact_id data_json = text_of (lookup "artifact_id" (or_empty data_json))

abbrev world_scope : Option String → Option String
world_scope none = none
world_scope (some world_id) = some (concat "world:" world_id)

abbrev or_else : Option String → Option String → Option String
or_else none t = t
or_else (some s) t = some s

-- `_cleanup_scope`, of an operation's world and data
unfoldable pub cleanup_scope : Option String → Option Fields → Option String
unfolding lookup
cleanup_scope world_id data_json =
    or_else (text_of (lookup "scope" (or_empty data_json))) (world_scope world_id)

-- `_has_in_flight_sync`
unfoldable pub has_in_flight_sync : List Operation → String → Bool
has_in_flight_sync rows artifact_id =
    any
      (λ row.
        row.op_type == sync
        && in_flight row.status
        && holds (sync_artifact_id row.data_json) artifact_id)
      rows

-- `_has_in_flight_cleanup_scope`
unfoldable pub has_in_flight_cleanup_scope : List Operation → String → Bool
has_in_flight_cleanup_scope rows scope =
    any
      (λ row.
        row.op_type == cleanup
        && in_flight row.status
        && holds (cleanup_scope row.world_id row.data_json) scope)
      rows

-- SELECT * FROM operations WHERE op_id = ?
unfoldable pub row_at : String → List Operation → Option Operation
row_at op_id [] = none
row_at op_id (row ∷ rows) = if row.op_id == op_id then some row else row_at op_id rows

-- UPDATE operations SET … WHERE op_id = ? AND …
unfoldable pub update_at :
    String → (Operation → Bool) → (Operation → Operation) → List Operation → List Operation
update_at op_id guard set [] = []
update_at op_id guard set (row ∷ rows) =
    (if row.op_id == op_id && guard row then set row else row) ∷ update_at op_id guard set rows
