-- ===== src/Cleanup/Service.antt =====
-- `evaluate_and_execute_cleanup` of app/services/cleanup.py: a cleanup as a durable operation, first a
-- preview and then the deletion that the preview allows.
use mcmanager.Common.{
  ℕ, String, string_eq, option_eq, nat_eq, Bool, true, false, not, ◌&&◌, Option, none, some, List,
  [], ◌∷◌, map, ◌==◌, if◌then◌else◌, ltb, length, lookup, insert, Eq, ◌≡◌, ◌↔◌, arith, Result, ok,
  err, ◌>>=◌, ◌>>◌, raise_if,
}
use mcmanager.Domain.Values.{
  OperationStatus, running, completed, failed, cleanup, operation_status_eq, operation_type_eq,
}
use mcmanager.Operations.Rows.{Json, num, text, other, null, Fields, Operation, terminal, row_at}
use mcmanager.Operations.Policy.{OperationError}
use mcmanager.Operations.Engine.{Engine}
use mcmanager.Operations.Milestones.{Milestone, transition, plain}
use mcmanager.Cleanup.Retention.{
  CleanupCandidate, RetentionError, operation_required, blast_radius, stale_preview,
  blast_radius_cap, backup_candidates, Shelf, execute_backup_cleanup, age_floor, count_floor,
}

-- The scope of a preview: `(world_id, scope)`.
abbrev pub PreviewKey : Type 0
PreviewKey = Option String × String

abbrev key_beq : PreviewKey → PreviewKey → Bool
key_beq a b = a.0 == b.0 && a.1 == b.1

pub key_beq_iff : (a b : PreviewKey) → (key_beq a b ≡ true) ↔ (a ≡ b)
key_beq_iff a b =
    ground (arith, (option_eq {A = String}).beq_iff a.0 b.0, string_eq.beq_iff a.1 b.1)

instance abbrev pub preview_key_eq : Eq PreviewKey
preview_key_eq = record { beq = key_beq; beq_iff = key_beq_iff }

pub record CleanupService : Type 0 where
  pub engine : Engine
  pub shelf : Shelf
  pub previews : List (PreviewKey × String)

-- a call's arguments
pub record CleanupRequest : Type 0 where
  pub op_id : String
  pub world_id : Option String
  pub dry_run : Bool
  pub older_than_days : ℕ
  pub keep_per_category : ℕ
  pub elevated_confirmation : Bool
  pub scope : String
  pub deleted_by : String
  pub dry_run_operation_id : Option String

-- what the call raises
pub data CleanupError : Type 0 where
  retention : RetentionError → CleanupError
  operation : OperationError → CleanupError

abbrev pub message_of : RetentionError → String
message_of age_floor = "age floor is 3 days"
message_of count_floor = "count floor is 3 per world/category"
message_of blast_radius = "CLEANUP_BLAST_RADIUS"
message_of stale_preview = "CLEANUP_PREVIEW_REQUIRED_OR_STALE"
message_of operation_required = "CLEANUP_OPERATION_REQUIRED"

abbrev json_of : Option String → Json
json_of none = null
json_of (some s) = text s

abbrev is_open_cleanup : Option Operation → Bool
is_open_cleanup none = false
is_open_cleanup (some row) = row.op_type == cleanup && not (terminal row.status)

abbrev text_at : String → Fields → Option String
text_at key fields = elim (lookup key fields) [ some (text s) ↦ some s | _ ↦ none ]

abbrev same_text : Option Json → Option String → Bool
same_text (some (text s)) (some t) = s == t
same_text (some null) none = true
same_text none none = true
same_text _ _ = false

abbrev fingerprint_in : CleanupRequest → Option Fields → Option String
fingerprint_in request none = none
fingerprint_in request (some fields) =
    if same_text (lookup "scope" fields) (some request.scope)
      && same_text (lookup "world_id" fields) request.world_id
    then text_at "preview_fingerprint" fields
    else none

-- the fingerprint that a completed cleanup operation has recorded
abbrev fingerprint_of_row : CleanupRequest → Option Operation → Option String
fingerprint_of_row request none = none
fingerprint_of_row request (some row) =
    if row.op_type == cleanup && row.status == completed
    then fingerprint_in request row.data_json
    else none

-- `matched_preview`
unfoldable pub matched_preview : CleanupRequest → CleanupService → Option String
unfolding lookup row_at
matched_preview request s =
    let remembered = lookup (request.world_id, request.scope) s.previews in
    if request.dry_run then remembered else elim request.dry_run_operation_id [
      | none ↦ remembered
      | some op_id ↦ fingerprint_of_row request (row_at op_id s.engine.operations)
    ]

module _ (digest : CleanupRequest → List CleanupCandidate → String) (dumps : List String → String)
    (notification_id : String) (now : ℕ) where
  abbrev pub Outcome : Type 0
  Outcome = CleanupService × Result CleanupError Fields

  abbrev pub done : Fields → Milestone
  done result = record plain { data_json = some result }

  abbrev pub after_move :
      CleanupService
      → Result OperationError (Engine × Operation)
      → (CleanupService → Outcome)
      → Outcome
  after_move s (ok (engine, _)) next = next (record s { engine = engine })
  after_move s (err e) next = (s, err (operation e))

  -- `transition` on the service's engine, and what follows it
  abbrev pub go :
      CleanupRequest
      → OperationStatus
      → Milestone
      → CleanupService
      → (CleanupService → Outcome)
      → Outcome
  go request status m s next =
      after_move s (transition request.op_id status m notification_id now s.engine) next

  abbrev pub preview_result : CleanupRequest → List CleanupCandidate → Fields
  preview_result request candidates =
      ("mode", text "dry_run")
      ∷ ("scope", text request.scope)
      ∷ ("world_id", json_of request.world_id)
      ∷ ("target_count", num (length candidates))
      ∷ ("targets", other (dumps (map (λ (c : CleanupCandidate). c.artifact_id) candidates)))
      ∷ ("older_than_days", num request.older_than_days)
      ∷ ("keep_per_category", num request.keep_per_category)
      ∷ ("preview_fingerprint", text (digest request candidates))
      ∷ []

  unfoldable pub preview_run : CleanupRequest → List CleanupCandidate → CleanupService → Outcome
  unfolding insert transition
  preview_run request candidates s =
      let result = preview_result request candidates in
      go request completed (done result)
        (record s {
          previews =
              insert (request.world_id, request.scope) (digest request candidates) s.previews;
        })
        (λ t. (t, ok result))

  abbrev wet_result : List CleanupCandidate → ℕ → Fields
  wet_result candidates deleted =
      ("mode", text "wet_run")
      ∷ ("deleted_count", num deleted)
      ∷ ("target_count", num (length candidates))
      ∷ []

  abbrev pub after_deletion :
      CleanupRequest
      → List CleanupCandidate
      → CleanupService
      → Result RetentionError (Shelf × ℕ)
      → Outcome
  after_deletion request candidates s (err e) = (s, err (retention e))
  after_deletion request candidates s (ok deleted) =
      go request completed (done (wet_result candidates deleted.1)) (record s { shelf = deleted.0 })
        (λ t. (t, ok (wet_result candidates deleted.1)))

  unfoldable pub wet_run : CleanupRequest → List CleanupCandidate → CleanupService → Outcome
  unfolding execute_backup_cleanup transition
  wet_run request candidates s = after_deletion request candidates s (
      execute_backup_cleanup candidates request.deleted_by request.older_than_days
        request.keep_per_category request.world_id request.elevated_confirmation now s.shelf)

  -- the tests before the operation runs
  unfoldable pub evaluate :
      CleanupRequest → CleanupService → Result RetentionError (List CleanupCandidate)
  unfolding backup_candidates matched_preview
  evaluate request s = do
    candidates ←
        backup_candidates request.older_than_days request.keep_per_category request.world_id now
          s.shelf.artifacts
    raise_if
        (not request.dry_run
          && ltb blast_radius_cap (length candidates)
          && not request.elevated_confirmation)
        blast_radius
    raise_if
        (not request.dry_run && not (matched_preview request s == some (digest request candidates)))
        stale_preview
    ok candidates

  abbrev pub evaluated :
      CleanupRequest → CleanupService → Result RetentionError (List CleanupCandidate) → Outcome
  evaluated request s (err e) = (s, err (retention e))
  evaluated request s (ok candidates) = go request running plain s (λ t.
      if request.dry_run then preview_run request candidates t else wet_run request candidates t)

  -- the body of the `try`
  unfoldable pub run_cleanup : CleanupRequest → CleanupService → Outcome
  unfolding evaluate preview_run wet_run transition
  run_cleanup request s = evaluated request s (evaluate request s)

  -- a refusal ends the operation as failed, and is raised again
  unfoldable pub fail_operation : CleanupRequest → RetentionError → CleanupService → Outcome
  unfolding transition
  fail_operation request e s =
      go request failed
        (record plain { error_code = some (message_of e); message = some (message_of e) }) s
        (λ t. (t, err (retention e)))

  abbrev is_open : Option Operation → Bool
  is_open none = false
  is_open (some row) = not (terminal row.status)

  abbrev pub finish : CleanupRequest → Outcome → Outcome
  finish request (t, err (retention e)) =
      if is_open (row_at request.op_id t.engine.operations)
      then fail_operation request e t
      else (t, err (retention e))
  finish request (t, err (operation o)) = (t, err (operation o))
  finish request (t, ok result) = (t, ok result)

  unfoldable pub evaluate_and_execute_cleanup : CleanupRequest → CleanupService → Outcome
  unfolding run_cleanup fail_operation row_at
  evaluate_and_execute_cleanup request s =
      if is_open_cleanup (row_at request.op_id s.engine.operations)
      then finish request (run_cleanup request s)
      else (s, err (retention operation_required))
