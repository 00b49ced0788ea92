-- ===== src/Sync/Rows.antt =====
-- The rows and the parameters of a transfer (app/services/sync.py).
use mcmanager.Common.{ℕ, String, string_eq, Bool, Option, List, ◌-◌, ◌*◌, ◌^◌}
use mcmanager.Operations.Policy.{OperationError}
use mcmanager.Operations.Engine.{Engine}

-- what the transport does with a file; an error has its message, cut to 1000 characters
pub data Upload : Type 0 where
  uploaded : Upload
  permanent transient : String → Upload

-- `SyncOutcome`
pub data SyncOutcome : Type 0 where
  succeeded failed_transient failed_permanent : SyncOutcome

-- `SyncRecordStatus`
pub data SyncRecordStatus : Type 0 where
  pending record_succeeded record_failed : SyncRecordStatus

-- A row of `sync_attempts`.
pub record SyncAttempt : Type 0 where
  pub sync_id : String
  pub attempt_number : ℕ
  pub started_at : ℕ
  pub finished_at : ℕ
  pub outcome : SyncOutcome
  pub error_message : Option String

-- A row of `sync_records`.
pub record SyncRecord : Type 0 where
  pub sync_id : String
  pub artifact_id : String
  pub sync_target_id : String
  pub operation_id : String
  pub status : SyncRecordStatus
  pub started_at : ℕ
  pub finished_at : Option ℕ

-- The columns of a row of `backup_artifacts` that a transfer reads; `live` is `deleted_at IS NULL`.
pub record SyncArtifact : Type 0 where
  pub artifact_id : String
  pub world_id : Option String
  pub storage_path : String
  pub size_bytes : ℕ
  pub live : Bool

-- A live row of `sync_targets`.
pub record SyncTarget : Type 0 where
  pub sync_target_id : String
  pub enabled : Bool
  pub secret_id : String

pub record SyncService : Type 0 where
  pub engine : Engine
  pub artifacts : List SyncArtifact
  pub targets : List SyncTarget
  pub secrets : List String
  pub records : List SyncRecord
  pub attempts : List SyncAttempt

pub data SyncError : Type 0 where
  cap_exceeded backup_not_found target_disabled target_not_found : SyncError
  operation : OperationError → SyncError

-- SYNC_TRANSIENT_RETRIES
abbrev pub transient_retries : ℕ
transient_retries = 3

abbrev pub daily_transfer_cap : ℕ
daily_transfer_cap = 50 * 1024 ^ 3

-- BACKOFF_DELAYS[attempt_number - 1]
abbrev pub backoff_delay : ℕ → ℕ
backoff_delay attempt_number = 30 * 2 ^ (attempt_number - 1)
