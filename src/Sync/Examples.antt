-- ===== src/Sync/Examples.antt =====
-- Transfers at concrete transports (app/services/sync.py).
use mcmanager.Common.{
  true, some, [], ◌∷◌, ok, refl, string_eq, nat_eq, ltb, ℕ, true, ◌≡◌, ◌*◌, ◌+◌, if◌then◌else◌,
}
use mcmanager.Operations.Rows.{Operation, row_at}
use mcmanager.Operations.Engine.{Engine}
use mcmanager.Sync.Settled.{dispatch_settles}
use mcmanager.Sync.Rows.{SyncService, SyncArtifact, Upload, uploaded, transient, transient_retries}
use mcmanager.Sync.Dispatch.{
  dispatch_sync, final_status, checked_artifact, resolve_target, bytes_transferred_today, transfer,
}

-- the first attempt times out
abbrev second_time : ℕ → Upload
second_time n = if ltb n 2 then transient "timeout" else uploaded

abbrev empty_engine : Engine
empty_engine = record {
  operations = [];
  audits = [];
  notifications = [];
  usernames = [];
  pending_checkpoints = [];
  progress_cache = [];
  published = [];
  realtime = true;
  notifies = true;
}

abbrev artifact : SyncArtifact
artifact = record {
  artifact_id = "ba_1";
  world_id = some "w1";
  storage_path = "/backups/ba_1.zip";
  size_bytes = 4096;
  live = true;
}

abbrev service : SyncService
service = record {
  engine = empty_engine;
  artifacts = artifact ∷ [];
  targets = [];
  secrets = "sec_1" ∷ [];
  records = [];
  attempts = [];
}

-- the target is made with the secret
abbrev with_target : SyncService
with_target = record service {
  targets = record { sync_target_id = "nas"; enabled = true; secret_id = "sec_1" } ∷ [];
}

dispatch_settles_example :
    (t : SyncService) × (u : Operation) × (dispatch_sync second_time
        (λ n. n * 100)
        (λ n. n * 100 + 7)
        "ba_1"
        "nas"
        "op_1"
        "sy_1"
        "no_1"
        90
        service
      ≡ ok t)
    × (row_at "op_1" t.engine.operations ≡ some u)
    × (u.status
        ≡ final_status
            (transfer second_time
              (λ n. n * 100)
              (λ n. n * 100 + 7)
              "sy_1"
              transient_retries
              1).success)
unfolding checked_artifact resolve_target bytes_transferred_today row_at
dispatch_settles_example =
    dispatch_settles second_time (λ n. n * 100) (λ n. n * 100 + 7) "ba_1" "nas" "op_1" "sy_1" "no_1"
      90 service with_target artifact refl refl refl
