-- ===== src/Cleanup/Floors.antt =====
-- What a cleanup may not touch: the floors of app/services/cleanup.py.
use mcmanager.Common.{String, string_eq, option_eq, nat_eq, list_eq, List, map}
use mcmanager.Cleanup.Retention.{Artifact, candidate_eq}

ids_of : List Artifact → List String
ids_of rows = map (λ (row : Artifact). row.artifact_id) rows
