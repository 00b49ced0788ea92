-- ===== src/Cleanup/Eligible.antt =====
-- Which artifacts a cleanup may delete (app/services/cleanup.py).
use mcmanager.Common.{
  ℕ, String, string_eq, option_eq, nat_eq, list_eq, Bool, true, false, not, ◌&&◌, Option, List, [],
  ◌∷◌, map, ◌==◌, ◌≡◌, refl, ◌*◌, ◌-◌, ◌≤◌, arith, ltb, filter, All, All-append, All-both,
  All-filter, filter-All, sort_by, All-sort_by, IsSorted, sort_by-IsSorted, Bool-cases, inl, inr,
  Result, ok, ok-injective, raise_if, ◌>>◌,
}
use mcmanager.Cleanup.Retention.{
  Artifact, CleanupCandidate, candidate_eq, RetentionError, age_floor, count_floor, age_floor_days,
  count_floor_artifacts, Group, protected_ids, is_candidate, candidate_of, group_candidates,
  all_candidates, by_age, live_groups, group_rows, add_to_group, is_live, in_world,
  backup_candidates, group_order,
}

-- a row that the retention policy may give up: live, of the world, not suspect, older than the cutoff
abbrev pub eligible : Option String → ℕ → Artifact → Bool
eligible world_id cutoff row =
    is_live row && in_world world_id row && not row.suspect && ltb row.created_at cutoff

abbrev AllGroups {κ} : (Artifact → Type κ) → List Group → Type κ
AllGroups Q [] = Unit
AllGroups Q (group ∷ groups) = All Q group.1 × AllGroups Q groups

module _ (Q : Artifact → Type 0) where
  add_to_group-All :
      (row : Artifact) (groups : List Group)
      → Q row
      → AllGroups Q groups
      → AllGroups Q (add_to_group row groups)
  unfolding add_to_group
  add_to_group-All row [] q h = ((q, tt), tt)
  add_to_group-All row (group ∷ groups) q h =
      elim (Bool-cases (group.0.0 == row.world_id && group.0.1 == row.category)) [
        | inl e ↦ rw e (All-append Q group.1 (row ∷ []) h.0 (q, tt), h.1)
        | inr e ↦ rw e (h.0, add_to_group-All row groups q h.1)
      ]

  group_rows-All :
      (rows : List Artifact) (groups : List Group)
      → All Q rows
      → AllGroups Q groups
      → AllGroups Q (group_rows rows groups)
  unfolding group_rows
  group_rows-All [] groups r h = h
  group_rows-All (row ∷ rows) groups r h =
      group_rows-All rows (add_to_group row groups) r.1 (add_to_group-All row groups r.0 h)

All-map_list :
    {A B : Type 0} (P : B → Type 0) (f : A → B) (xs : List A)
    → All (λ x. P (f x)) xs
    → All P (map f xs)
All-map_list P f [] h = tt
All-map_list P f (x ∷ xs) h = (h.0, All-map_list P f xs h.1)

module _ (P : CleanupCandidate → Type 0) (world_id : Option String) (keep cutoff : ℕ) where
  -- a row whose candidate has the property, once the row is eligible
  abbrev Gives : Artifact → Type 0
  Gives row = eligible world_id cutoff row ≡ true → P (candidate_of row)

  abbrev Alive : Artifact → Type 0
  Alive row = Gives row × ((is_live row && in_world world_id row) ≡ true)

  gives :
      (ids : List String) (row : Artifact)
      → Alive row
      → is_candidate cutoff ids row ≡ true
      → P (candidate_of row)
  unfolding is_candidate
  gives ids row (g, alive) c = g (ground (arith, alive, c))

  group_candidates-All :
      (artifacts : List Artifact)
      → All Alive artifacts
      → All P (group_candidates keep cutoff artifacts)
  unfolding group_candidates
  group_candidates-All artifacts h =
      let ids = protected_ids keep artifacts in
      All-map_list P candidate_of (filter (is_candidate cutoff ids) artifacts) (
        All-both (λ row a c. gives ids row a c) (filter (is_candidate cutoff ids) artifacts)
          (All-filter Alive (is_candidate cutoff ids) artifacts h)
          (filter-All (is_candidate cutoff ids) artifacts))

  all_candidates-All :
      (groups : List Group) → AllGroups Alive groups → All P (all_candidates keep cutoff groups)
  unfolding all_candidates
  all_candidates-All [] h = tt
  all_candidates-All (group ∷ groups) h =
      All-append P (group_candidates keep cutoff group.1) (all_candidates keep cutoff groups)
        (group_candidates-All group.1 h.0) (all_candidates-All groups h.1)

  live_groups-All :
      (rows : List Artifact) → All Gives rows → AllGroups Alive (live_groups world_id rows)
  unfolding live_groups
  live_groups-All rows h =
      let live = λ (row : Artifact). is_live row && in_world world_id row in
      group_rows-All Alive (sort_by group_order (filter live rows)) []
        (All-sort_by group_order Alive (filter live rows) (
          All-both (λ row g l. (g, l)) (filter live rows) (All-filter Gives live rows h)
            (filter-All live rows)))
        tt

pub raise-ok :
    {A : Type 0} (b : Bool) (e : RetentionError) (k : Result RetentionError A) {a : A}
    → (raise_if b e >> k) ≡ ok a
    → (b ≡ false) × (k ≡ ok a)
raise-ok true e k h = cc
raise-ok false e k h = (refl, h)

older_first : (xs : List CleanupCandidate) → IsSorted by_age (sort_by by_age xs)
older_first xs =
    sort_by-IsSorted by_age (λ x y h. ground (arith, h)) (λ x y z h k. ground (arith, h, k)) xs

-- What is offered for deletion, oldest first, are artifacts that are live, of the world that is asked
-- for, not suspect, and older than the age that is asked for, which is at least three days; the number
-- of artifacts kept in each group is at least three. (`P` is any property that the candidates of such rows have.)
pub candidates_eligible :
    (P : CleanupCandidate → Type 0) (days keep : ℕ) (world_id : Option String) (now : ℕ)
    (rows : List Artifact) (candidates : List CleanupCandidate)
    → All
        (λ row. eligible world_id (now - days * 24 * 60 * 60) row ≡ true → P (candidate_of row))
        rows
    → backup_candidates days keep world_id now rows ≡ ok candidates
    → (3 ≤ days) × (3 ≤ keep) × IsSorted by_age candidates × All P candidates
unfolding backup_candidates
candidates_eligible P days keep world_id now rows candidates gives h =
    let cutoff = now - days * 24 * 60 * 60 in
    let (a, h₁) = raise-ok (ltb days age_floor_days) age_floor _ h in
    let (c, h₂) = raise-ok (ltb keep count_floor_artifacts) count_floor _ h₁ in
    let found = all_candidates keep cutoff (live_groups world_id rows) in
    let same = ok-injective h₂ in
    (
      ground (arith, a),
      ground (arith, c),
      rw (← same) (older_first found),
      rw (← same) (
          All-sort_by by_age P found (
            all_candidates-All P world_id keep cutoff (live_groups world_id rows)
              (live_groups-All P world_id keep cutoff rows gives))),
    )
