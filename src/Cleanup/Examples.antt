-- ===== src/Cleanup/Examples.antt =====
-- Cleanups of concrete artifacts (app/services/cleanup.py).
use mcmanager.Common.{
  ℕ, String, string_eq, option_eq, Bool, true, false, none, some, List, [], ◌∷◌, ◌≡◌, ◌≤◌, refl,
  sort_by, All, IsSorted,
}
use mcmanager.Domain.Values.{cleanup, OperationStatus, system}
use mcmanager.Operations.Rows.{Operation}
use mcmanager.Operations.Engine.{Engine}
use mcmanager.Cleanup.Retention.{
  Artifact, CleanupCandidate, candidate_of, by_age, backup_candidates, Shelf,
}
use mcmanager.Cleanup.Eligible.{candidates_eligible}
use mcmanager.Cleanup.Service.{CleanupService, CleanupRequest, evaluate_and_execute_cleanup}
use mcmanager.Cleanup.Confirmed.{Confirmed}

abbrev artifact : String → ℕ → Bool → Artifact
artifact artifact_id created_at suspect = record {
  artifact_id = artifact_id;
  storage_path = artifact_id;
  world_id = some "w1";
  category = "manual";
  created_at = created_at;
  suspect = suspect;
  deleted_at = none;
  deleted_by = none;
}

abbrev artifacts : List Artifact
artifacts =
    artifact "b5" 500 true
    ∷ artifact "b4" 400 true
    ∷ artifact "b3" 300 true
    ∷ artifact "b2" 200 false
    ∷ artifact "b1" 100 false
    ∷ []

abbrev now : ℕ
now = 260200

-- only the oldest artifact may go: the newest three stay, and the newest viable one is "b2"
abbrev IsOldest : CleanupCandidate → Type 0
IsOldest c = c.artifact_id ≡ "b1"

abbrev old_artifacts : List Artifact
old_artifacts =
    artifact "b5" 500 true
    ∷ artifact "b4" 400 true
    ∷ artifact "b3" 300 true
    ∷ artifact "b1" 100 false
    ∷ artifact "b0" 2000 false
    ∷ []

candidates_eligible_example :
    (3 ≤ 3)
    × (3 ≤ 3)
    × IsSorted by_age (candidate_of (artifact "b1" 100 false) ∷ [])
    × All IsOldest (candidate_of (artifact "b1" 100 false) ∷ [])
unfolding backup_candidates sort_by
candidates_eligible_example =
    candidates_eligible IsOldest 3 3 (some "w1") now old_artifacts
      (candidate_of (artifact "b1" 100 false) ∷ [])
      ((λ h. cc h), ((λ h. cc h), ((λ h. cc h), ((λ h. refl), ((λ h. cc h), tt))))) refl

abbrev cleanup_row : Operation
cleanup_row = record {
  op_id = "op1";
  op_type = cleanup;
  world_id = some "w1";
  actor_type = system;
  actor_user_id = none;
  idempotency_key = none;
  status = OperationStatus.queued;
  checkpoint = none;
  attempt = 1;
  compensates_operation_id = none;
  intent_at = 1;
  started_at = none;
  finished_at = none;
  error_code = none;
  message = none;
  data_json = none;
  created_at = 1;
  updated_at = 1;
}

abbrev engine : Engine
engine = record {
  operations = cleanup_row ∷ [];
  audits = [];
  notifications = [];
  usernames = [];
  pending_checkpoints = [];
  progress_cache = [];
  published = [];
  realtime = false;
  notifies = true;
}

abbrev service : CleanupService
service = record {
  engine = engine;
  shelf = record { artifacts = old_artifacts; files = "b1" ∷ "b5" ∷ [] };
  previews = ((some "w1", "backups"), "seen") ∷ [];
}

abbrev wet_request : CleanupRequest
wet_request = record {
  op_id = "op1";
  world_id = some "w1";
  dry_run = false;
  older_than_days = 3;
  keep_per_category = 3;
  elevated_confirmation = false;
  scope = "backups";
  deleted_by = "system";
  dry_run_operation_id = none;
}

abbrev seen : CleanupRequest → List CleanupCandidate → String
seen request candidates = "seen"

abbrev shown : List String → String
shown ids = "[]"

abbrev after : Shelf
after = (evaluate_and_execute_cleanup seen shown "n1" now wet_request service).0.shelf
