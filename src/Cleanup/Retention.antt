-- ===== src/Cleanup/Retention.antt =====
-- `backup_candidates` and `execute_backup_cleanup` of app/services/cleanup.py, on the rows of
-- `backup_artifacts` and the paths of the files that exist.
use mcmanager.Common.{
  ℕ, suc, String, string_eq, option_eq, nat_eq, Eq, list_eq, ◌↔◌, ◌≡◌, arith, Bool, true, false,
  not, ◌&&◌, ◌||◌, Option, none, some, List, [], ◌∷◌, ◌++◌, map, ◌==◌, ◌*◌, ◌-◌, if◌then◌else◌, leb,
  ltb, text_leb, filter, find, length, take, contains, sort_by, Result, ok, ◌>>=◌, ◌>>◌, raise_if,
}

-- A row of `backup_artifacts`; `suspect` is false where the column is 0.
pub record Artifact : Type 0 where
  pub artifact_id : String
  pub storage_path : String
  pub world_id : Option String
  pub category : String
  pub created_at : ℕ
  pub suspect : Bool
  pub deleted_at : Option ℕ
  pub deleted_by : Option String

pub record CleanupCandidate : Type 0 where
  pub artifact_id : String
  pub storage_path : String
  pub world_id : Option String
  pub category : String
  pub created_at : ℕ

abbrev candidate_beq : CleanupCandidate → CleanupCandidate → Bool
candidate_beq a b =
    a.artifact_id == b.artifact_id
    && a.storage_path == b.storage_path
    && a.world_id == b.world_id
    && a.category == b.category
    && a.created_at == b.created_at

pub candidate_beq_iff : (a b : CleanupCandidate) → (candidate_beq a b ≡ true) ↔ (a ≡ b)
candidate_beq_iff a b = ground (
  arith,
  string_eq.beq_iff a.artifact_id b.artifact_id,
  string_eq.beq_iff a.storage_path b.storage_path,
  (option_eq {A = String}).beq_iff a.world_id b.world_id,
  string_eq.beq_iff a.category b.category,
)

instance abbrev pub candidate_eq : Eq CleanupCandidate
candidate_eq = record { beq = candidate_beq; beq_iff = candidate_beq_iff }

-- `RetentionError`, by its message
pub data RetentionError : Type 0 where
  age_floor count_floor blast_radius stale_preview operation_required : RetentionError

abbrev pub age_floor_days : ℕ
age_floor_days = 3

abbrev pub count_floor_artifacts : ℕ
count_floor_artifacts = 3

abbrev pub blast_radius_cap : ℕ
blast_radius_cap = 500

abbrev pub is_live : Artifact → Bool
is_live row = elim row.deleted_at [ none ↦ true | some _ ↦ false ]

-- (? IS NULL OR world_id = ?)
abbrev pub in_world : Option String → Artifact → Bool
in_world none row = true
in_world (some world_id) row = row.world_id == some world_id

-- NULL comes first
abbrev world_leb : Option String → Option String → Bool
world_leb none w = true
world_leb (some v) none = false
world_leb (some v) (some w) = text_leb v w

-- ORDER BY world_id, category, created_at DESC
abbrev pub group_order : Artifact → Artifact → Bool
group_order a b =
    if a.world_id == b.world_id
    then (if a.category == b.category
        then leb b.created_at a.created_at
        else text_leb a.category b.category)
    else world_leb a.world_id b.world_id

abbrev pub Group : Type 0
Group = (Option String × String) × List Artifact

abbrev same_group : Artifact → Group → Bool
same_group row group = group.0.0 == row.world_id && group.0.1 == row.category

-- grouped[(row['world_id'], row['category'])].append(row)
unfoldable pub add_to_group : Artifact → List Group → List Group
add_to_group row [] = ((row.world_id, row.category), row ∷ []) ∷ []
add_to_group row (group ∷ groups) =
    if same_group row group
    then (group.0, group.1 ++ row ∷ []) ∷ groups
    else group ∷ add_to_group row groups

unfoldable pub group_rows : List Artifact → List Group → List Group
unfolding add_to_group
group_rows [] groups = groups
group_rows (row ∷ rows) groups = group_rows rows (add_to_group row groups)

-- the identifiers that a group keeps: its newest artifacts, and its newest viable one
unfoldable pub protected_ids : ℕ → List Artifact → List String
protected_ids keep artifacts =
    let newest = map (λ (row : Artifact). row.artifact_id) (take keep artifacts) in
    elim (find (λ (row : Artifact). not row.suspect) artifacts) [
      | none ↦ newest
      | some row ↦ newest ++ row.artifact_id ∷ []
    ]

unfoldable pub is_candidate : ℕ → List String → Artifact → Bool
is_candidate cutoff protected row =
    not (leb cutoff row.created_at || contains protected row.artifact_id || row.suspect)

abbrev pub candidate_of : Artifact → CleanupCandidate
candidate_of row = record {
  artifact_id = row.artifact_id;
  storage_path = row.storage_path;
  world_id = row.world_id;
  category = row.category;
  created_at = row.created_at;
}

unfoldable pub group_candidates : ℕ → ℕ → List Artifact → List CleanupCandidate
unfolding is_candidate protected_ids
group_candidates keep cutoff artifacts =
    map candidate_of (filter (is_candidate cutoff (protected_ids keep artifacts)) artifacts)

unfoldable pub all_candidates : ℕ → ℕ → List Group → List CleanupCandidate
unfolding group_candidates
all_candidates keep cutoff [] = []
all_candidates keep cutoff (group ∷ groups) =
    group_candidates keep cutoff group.1 ++ all_candidates keep cutoff groups

abbrev pub by_age : CleanupCandidate → CleanupCandidate → Bool
by_age a b = leb a.created_at b.created_at

-- the groups of the live artifacts
unfoldable pub live_groups : Option String → List Artifact → List Group
unfolding group_rows
live_groups world_id rows =
    group_rows (sort_by group_order (filter (λ row. is_live row && in_world world_id row) rows)) []

-- `backup_candidates`. The cutoff stops at 0, before which no artifact was made.
unfoldable pub backup_candidates :
    ℕ → ℕ → Option String → ℕ → List Artifact → Result RetentionError (List CleanupCandidate)
unfolding all_candidates live_groups
backup_candidates older_than_days keep_per_category world_id now rows = do
  raise_if (ltb older_than_days age_floor_days) age_floor
  raise_if (ltb keep_per_category count_floor_artifacts) count_floor
  ok (
      sort_by by_age (
        all_candidates keep_per_category (now - older_than_days * 24 * 60 * 60)
          (live_groups world_id rows)))

-- The artifacts and the files.
pub record Shelf : Type 0 where
  pub artifacts : List Artifact
  pub files : List String

unfoldable pub mark_deleted : ℕ → String → String → List Artifact → List Artifact
mark_deleted now deleted_by artifact_id [] = []
mark_deleted now deleted_by artifact_id (row ∷ rows) =
    (if row.artifact_id == artifact_id
      then record row { deleted_at = some now; deleted_by = some deleted_by }
      else row)
    ∷ mark_deleted now deleted_by artifact_id rows

abbrev still_live : Option Artifact → Bool
still_live none = false
still_live (some row) = is_live row

-- the loop over the candidates, with the number of those that it deleted
unfoldable pub delete_all : ℕ → String → List CleanupCandidate → Shelf → ℕ → Shelf × ℕ
unfolding mark_deleted
delete_all now deleted_by [] shelf deleted = (shelf, deleted)
delete_all now deleted_by (c ∷ candidates) shelf deleted =
    let live = still_live (find (λ row. row.artifact_id == c.artifact_id) shelf.artifacts) in
    let shelf' : Shelf = record {
      artifacts = mark_deleted now deleted_by c.artifact_id shelf.artifacts;
      files = filter (λ path. not (path == c.storage_path)) shelf.files;
    } in
    if live
    then delete_all now deleted_by candidates shelf' (suc deleted)
    else delete_all now deleted_by candidates shelf deleted

-- `execute_backup_cleanup`
unfoldable pub execute_backup_cleanup :
    List CleanupCandidate
    → String
    → ℕ
    → ℕ
    → Option String
    → Bool
    → ℕ
    → Shelf
    → Result RetentionError (Shelf × ℕ)
unfolding backup_candidates delete_all
execute_backup_cleanup candidates deleted_by older_than_days keep_per_category world_id elevated now
      shelf =
    do
      raise_if (ltb blast_radius_cap (length candidates) && not elevated) blast_radius
      eligible ← backup_candidates older_than_days keep_per_category world_id now shelf.artifacts
      raise_if (not (candidates == eligible)) stale_preview
      ok (delete_all now deleted_by candidates shelf 0)
