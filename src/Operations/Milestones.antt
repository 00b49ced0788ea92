-- ===== src/Operations/Milestones.antt =====
-- The milestones of an operation in `OperationService` (app/services/operations.py): its claim by a
-- dispatcher, its transitions and its progress.
use mcmanager.Common.{
  ℕ, String, Bool, true, false, not, ◌||◌, Option, none, some, List, [], ◌∷◌, ◌++◌, ◌==◌, nat_eq,
  string_eq, option_eq, if◌then◌else◌, leb, lookup, insert, remove, Result, ok, err,
}
use mcmanager.Domain.Values.{
  backup, restore, OperationStatus, queued, running, operation_status_eq, operation_type_eq,
}
use mcmanager.Notifications.{terminal_rule, publish_once}
use mcmanager.Operations.Rows.{num, text, Fields, Operation, terminal, row_at, update_at}
use mcmanager.Operations.Policy.{OperationError, not_found, already_terminal, bad_progress}
use mcmanager.Operations.Engine.{
  Engine, operation_progress, step_progress, publish, has_active, terminal_audit, publish_terminal,
  publish_status,
}

-- COALESCE(started_at, now)
abbrev pub coalesce : Option ℕ → ℕ → Option ℕ
coalesce none now = some now
coalesce (some at) now = some at

abbrev pub locked : Option String → String → List Operation → Bool
locked none op_id rows = false
locked (some world_id) op_id rows = has_active world_id op_id rows

abbrev pub start_row : ℕ → Operation → Operation
start_row now r = record r {
  status = running;
  started_at = coalesce r.started_at now;
  updated_at = now;
}

abbrev pub published_claim : Option Operation → Engine → Engine × Option Operation
published_claim none s = (s, none)
published_claim (some row) s = (publish_status row running none s, some row)

abbrev pub claim_found : String → ℕ → Option Operation → Engine → Engine × Option Operation
claim_found op_id now none s = (s, none)
claim_found op_id now (some row) s =
    if not (row.status == queued) || locked row.world_id op_id s.operations
    then (s, none)
    else let rows = update_at op_id (λ r. r.status == queued) (start_row now) s.operations in
      published_claim (row_at op_id rows) (record s { operations = rows })

unfoldable pub claim_queued : String → ℕ → Engine → Engine × Option Operation
claim_queued op_id now s = claim_found op_id now (row_at op_id s.operations) s

-- What a call of `transition` gives beside the status.
pub record Milestone : Type 0 where
  pub checkpoint : Option Fields
  pub error_code : Option String
  pub message : Option String
  pub data_json : Option Fields

abbrev pub plain : Milestone
plain = record { checkpoint = none; error_code = none; message = none; data_json = none }

abbrev first_of_two : Option Fields → Option Fields → Option Fields
first_of_two none b = b
first_of_two (some a) b = some a

abbrev remember : String → Option Fields → List (String × Fields) → List (String × Fields)
remember op_id none cache = cache
remember op_id (some checkpoint) cache = insert op_id checkpoint cache

-- the row that a milestone writes
unfoldable pub milestone_row :
    OperationStatus → Milestone → Option Fields → ℕ → Operation → Operation
milestone_row status m checkpoint now row = record row {
  status = status;
  checkpoint = first_of_two checkpoint row.checkpoint;
  started_at = if status == running then coalesce row.started_at now else row.started_at;
  finished_at = if terminal status then some now else row.finished_at;
  error_code = m.error_code;
  message = m.message;
  data_json = first_of_two m.data_json row.data_json;
  updated_at = now;
}

-- an intermediate status stays in memory
unfoldable pub note_in_memory : OperationStatus → Milestone → Operation → Engine → Engine
note_in_memory status m row s =
    publish_status row status m.checkpoint
      (record s { pending_checkpoints = remember row.op_id m.checkpoint s.pending_checkpoints })

-- the audit record and the notification of a terminal row, in the transaction that writes it
unfoldable pub record_end : String → ℕ → Operation → Engine → Engine
record_end notification_id now row s = record s {
  audits = s.audits ++ terminal_audit now s.usernames row ∷ [];
  notifications =
      if s.notifies
      then publish_once notification_id row.op_id row.world_id now
          (terminal_rule row.op_type row.status) s.notifications
      else s.notifications;
}

-- the caches of an operation that has been written
abbrev forget_caches : OperationStatus → String → Engine → Engine
forget_caches status op_id s = record s {
  progress_cache = if terminal status then remove op_id s.progress_cache else s.progress_cache;
  pending_checkpoints = remove op_id s.pending_checkpoints;
}

unfoldable pub write_milestone :
    OperationStatus → Milestone → String → ℕ → Operation → Engine → Engine × Operation
write_milestone status m notification_id now row s =
    let checkpoint =
      first_of_two m.checkpoint (
        first_of_two (lookup row.op_id s.pending_checkpoints)
          (lookup row.op_id s.progress_cache)) in
    let updated = milestone_row status m checkpoint now row in
    let written : Engine = record s {
      operations = update_at row.op_id (λ r. true) (λ r. updated) s.operations;
    } in
    if terminal status
    then (
      publish_terminal updated
          (forget_caches status row.op_id (record_end notification_id now updated written)),
      updated,
    )
    else (publish_status updated status none (forget_caches status row.op_id written), updated)

-- the statuses that are written to the store: Running and the terminal ones
abbrev pub persisted : OperationStatus → Bool
persisted status = status == running || terminal status

-- `transition`, of the row that it has found
unfoldable pub transition_row :
    OperationStatus
    → Milestone
    → String
    → ℕ
    → Operation
    → Engine
    → Result OperationError (Engine × Operation)
transition_row status m notification_id now row s =
    if terminal row.status
    then err already_terminal
    else if persisted status
    then ok (write_milestone status m notification_id now row s)
    else ok (note_in_memory status m row s, row)

unfoldable pub transition :
    String
    → OperationStatus
    → Milestone
    → String
    → ℕ
    → Engine
    → Result OperationError (Engine × Operation)
transition op_id status m notification_id now s = elim (row_at op_id s.operations) [
  | none ↦ err not_found
  | some row ↦ transition_row status m notification_id now row s
]

abbrev progress_fields : ℕ → String → ℕ → Fields
progress_fields pct step now =
    ("progress_pct", num pct) ∷ ("step", text step) ∷ ("ts", num now) ∷ []

abbrev publish_step : Operation → ℕ → String → Engine → Engine
publish_step row pct step s =
    if row.op_type == backup || row.op_type == restore
    then publish (step_progress row.op_type row.op_id pct step) row.world_id s
    else s

unfoldable pub update_progress_in_memory :
    String → ℕ → String → ℕ → Engine → Result OperationError Engine
update_progress_in_memory op_id progress_pct step_name now s =
    if not (leb progress_pct 100) then err bad_progress else elim (row_at op_id s.operations) [
      | none ↦ err not_found
      | some row ↦
          if terminal row.status
          then err already_terminal
          else let progress = progress_fields progress_pct step_name now in
            let cached : Engine = record s {
              progress_cache = insert op_id progress s.progress_cache;
            } in
            ok (
              publish_step row progress_pct step_name (
                publish (operation_progress op_id row.op_type row.status (some progress))
                  row.world_id cached))
    ]
