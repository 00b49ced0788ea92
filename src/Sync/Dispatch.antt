-- ===== src/Sync/Dispatch.antt =====
-- `dispatch_sync` of app/services/sync.py: the records of a transfer, its attempts and its operation.
-- The transport is a parameter, which answers each attempt; so are the times of the attempts.
use mcmanager.Common.{
  ℕ, suc, zero, String, string_eq, Bool, true, false, ◌&&◌, Option, none, some, List, [], ◌∷◌, ◌++◌,
  ◌==◌, ◌+◌, ◌-◌, ◌*◌, ◌%◌, if◌then◌else◌, find, leb, ltb, Result, ok, err, ◌>>=◌, ◌>>◌, raise_if,
}
use mcmanager.Domain.Values.{OperationStatus, running, completed, failed, sync, system}
use mcmanager.Operations.Rows.{text, Operation, OperationInput}
use mcmanager.Operations.Policy.{OperationError}
use mcmanager.Operations.Engine.{Engine}
use mcmanager.Operations.Methods.{create_with_replay}
use mcmanager.Operations.Milestones.{Milestone, transition}
use mcmanager.Sync.Rows.{
  Upload, SyncOutcome, SyncRecordStatus, SyncAttempt, SyncRecord, SyncArtifact, SyncService,
  SyncError, transient_retries, daily_transfer_cap, backoff_delay, uploaded, permanent, transient,
  succeeded, failed_transient, failed_permanent, pending, record_succeeded, record_failed,
  cap_exceeded, backup_not_found, target_disabled, target_not_found, operation,
}

-- `_resolve_target`: a target that is not there is made with the oldest secret
unfoldable pub resolve_target : String → SyncService → Result SyncError SyncService
resolve_target target_id s = elim (find (λ t. t.sync_target_id == target_id) s.targets) [
  | some t ↦ if t.enabled then ok s else err target_disabled
  | none ↦ elim s.secrets [
    | [] ↦ err target_not_found
    | ◌∷◌ secret _ ↦ ok (record s {
      targets =
          s.targets
          ++ record { sync_target_id = target_id; enabled = true; secret_id = secret } ∷ [];
    })
  ]
]

abbrev is_succeeded : SyncOutcome → Bool
is_succeeded succeeded = true
is_succeeded _ = false

abbrev size_of : Option SyncArtifact → ℕ
size_of none = 0
size_of (some a) = a.size_bytes

abbrev size_of_record : List SyncArtifact → Option SyncRecord → ℕ
size_of_record artifacts none = 0
size_of_record artifacts (some r) = size_of (find (λ a. a.artifact_id == r.artifact_id) artifacts)

-- the bytes of an attempt that succeeded on the day that starts at `start`
abbrev bytes_of : ℕ → SyncService → SyncAttempt → ℕ
bytes_of start s a =
    if is_succeeded a.outcome && leb start a.finished_at && ltb a.finished_at (start + 24 * 60 * 60)
    then size_of_record s.artifacts (find (λ r. r.sync_id == a.sync_id) s.records)
    else 0

abbrev sum_bytes : ℕ → SyncService → List SyncAttempt → ℕ
sum_bytes start s [] = 0
sum_bytes start s (a ∷ rows) = bytes_of start s a + sum_bytes start s rows

-- `get_bytes_transferred_today`; a day starts at a multiple of its length, in UTC
unfoldable pub bytes_transferred_today : ℕ → SyncService → ℕ
bytes_transferred_today now s = sum_bytes (now - now % (24 * 60 * 60)) s s.attempts

-- what the loop over the attempts leaves: its rows, the pauses between them, and whether it succeeded
pub record Transfer : Type 0 where
  pub rows : List SyncAttempt
  pub pauses : List ℕ
  pub success : Bool

abbrev pub outcome_of : Upload → SyncOutcome
outcome_of uploaded = succeeded
outcome_of (permanent _) = failed_permanent
outcome_of (transient _) = failed_transient

abbrev message_of : Upload → Option String
message_of uploaded = none
message_of (permanent m) = some m
message_of (transient m) = some m

module _ (upload : ℕ → Upload) (starts finishes : ℕ → ℕ) where
  abbrev attempt_row : String → ℕ → SyncAttempt
  attempt_row sync_id number = record {
    sync_id = sync_id;
    attempt_number = number;
    started_at = starts number;
    finished_at = finishes number;
    outcome = outcome_of (upload number);
    error_message = message_of (upload number);
  }

  abbrev pause_after : ℕ → List ℕ → List ℕ
  pause_after number pauses =
      if ltb number transient_retries then backoff_delay number ∷ pauses else pauses

  abbrev after_attempt : String → ℕ → Upload → Transfer → Transfer
  after_attempt sync_id number uploaded rest = record {
    rows = attempt_row sync_id number ∷ [];
    pauses = [];
    success = true;
  }
  after_attempt sync_id number (permanent _) rest = record {
    rows = attempt_row sync_id number ∷ [];
    pauses = [];
    success = false;
  }
  after_attempt sync_id number (transient _) rest = record {
    rows = attempt_row sync_id number ∷ rest.rows;
    pauses = pause_after number rest.pauses;
    success = rest.success;
  }

  -- the loop, with the attempts that remain and the number of the next one
  unfoldable pub transfer : String → ℕ → ℕ → Transfer
  transfer sync_id zero number = record { rows = []; pauses = []; success = false }
  transfer sync_id (suc remaining) number =
      after_attempt sync_id number (upload number) (transfer sync_id remaining (suc number))

abbrev pub lift_operation : {A : Type 0} → Result OperationError A → Result SyncError A
lift_operation (ok a) = ok a
lift_operation (err e) = err (operation e)

unfoldable pub settle : String → SyncRecordStatus → ℕ → List SyncRecord → List SyncRecord
settle sync_id status now [] = []
settle sync_id status now (r ∷ rows) =
    (if r.sync_id == sync_id then record r { status = status; finished_at = some now } else r)
    ∷ settle sync_id status now rows

abbrev pub record_status : Bool → SyncRecordStatus
record_status true = record_succeeded
record_status false = record_failed

abbrev status_text : Bool → String
status_text true = "succeeded"
status_text false = "failed"

abbrev pub final_status : Bool → OperationStatus
final_status true = completed
final_status false = failed

abbrev pub final_milestone : Bool → String → Milestone
final_milestone success sync_id = record {
  checkpoint = none;
  error_code = if success then none else some "SYNC_FAILED";
  message = if success then none else some "offsite upload exhausted transient retries";
  data_json = some (("sync_id", text sync_id) ∷ ("status", text (status_text success)) ∷ []);
}

abbrev pub sync_request : SyncArtifact → String → OperationInput
sync_request artifact target_id = record {
  op_type = sync;
  actor_type = system;
  world_id = artifact.world_id;
  actor_user_id = none;
  idempotency_key = none;
  data_json =
      some (("artifact_id", text artifact.artifact_id) ∷ ("sync_target_id", text target_id) ∷ []);
  compensates_operation_id = none;
}

-- the tests before a transfer
unfoldable pub checked_artifact : ℕ → String → SyncService → Result SyncError SyncArtifact
unfolding bytes_transferred_today
checked_artifact now artifact_id s = do
  raise_if (leb daily_transfer_cap (bytes_transferred_today now s)) cap_exceeded
  elim (find (λ a. a.artifact_id == artifact_id && a.live) s.artifacts) [
    | none ↦ err backup_not_found
    | some artifact ↦
        if ltb daily_transfer_cap (bytes_transferred_today now s + artifact.size_bytes)
        then err cap_exceeded
        else ok artifact
  ]

module _ (upload : ℕ → Upload) (starts finishes : ℕ → ℕ) where
  -- the records of a transfer, when its operation has ended
  unfoldable pub after_transfer :
      String → ℕ → SyncArtifact → String → Transfer → SyncService → Operation → Engine → SyncService
  unfolding settle
  after_transfer sync_id now artifact target_id t s op engine =
      let row : SyncRecord = record {
        sync_id = sync_id;
        artifact_id = artifact.artifact_id;
        sync_target_id = target_id;
        operation_id = op.op_id;
        status = pending;
        started_at = now;
        finished_at = none;
      } in
      record s {
        engine = engine;
        records =
            settle sync_id (record_status t.success) (finishes (suc transient_retries))
              (s.records ++ row ∷ []);
        attempts = s.attempts ++ t.rows;
      }

  -- the transfer and the end of its operation
  unfoldable pub run_transfer :
      String
      → String
      → ℕ
      → SyncArtifact
      → String
      → SyncService
      → Operation
      → Result SyncError SyncService
  unfolding transfer transition after_transfer
  run_transfer sync_id notification_id now artifact target_id s op = do
    let t = transfer upload starts finishes sync_id transient_retries 1
    let done = finishes (suc transient_retries)
    ended ← lift_operation (
        transition op.op_id (final_status t.success) (final_milestone t.success sync_id)
          notification_id done s.engine)
    ok (after_transfer sync_id now artifact target_id t s op ended.0)

  -- `dispatch_sync`; identifiers are fresh, so that nothing fails once the target is there
  unfoldable pub dispatch_sync :
      String → String → String → String → String → ℕ → SyncService → Result SyncError SyncService
  unfolding checked_artifact resolve_target run_transfer create_with_replay
  dispatch_sync artifact_id target_id op_id sync_id notification_id now s = do
    artifact ← checked_artifact now artifact_id s
    s₁ ← resolve_target target_id s
    created ←
        lift_operation
          (create_with_replay (sync_request artifact target_id) running true op_id now s₁.engine)
    run_transfer sync_id notification_id now artifact target_id (record s₁ { engine = created.0 })
        created.1
