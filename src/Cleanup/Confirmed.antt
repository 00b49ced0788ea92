-- ===== src/Cleanup/Confirmed.antt =====
-- A cleanup deletes only what a preview has shown (app/services/cleanup.py).
use mcmanager.Common.{
  ℕ, String, string_eq, option_eq, Bool, true, false, not, ◌&&◌, some, List, ◌≡◌, refl, ◌≤◌, arith,
  ltb, length, ◌⊎◌, inl, inr, ok, list_eq, nat_eq,
}
use mcmanager.Operations.Engine.{Engine}
use mcmanager.Cleanup.Retention.{
  CleanupCandidate, candidate_eq, blast_radius_cap, backup_candidates, Shelf, delete_all,
}
use mcmanager.Cleanup.Service.{CleanupService, CleanupRequest, matched_preview, Outcome}

within :
    (dry elevated : Bool) (n : ℕ)
    → dry ≡ false
    → (not dry && ltb blast_radius_cap n && not elevated) ≡ false
    → (n ≤ 500) ⊎ (elevated ≡ true)
within dry true n w h = inr refl
within dry false n w h = inl (ground (arith, w, h))

module _ (digest : CleanupRequest → List CleanupCandidate → String) (dumps : List String → String)
    (nid : String) (now : ℕ) (request : CleanupRequest) where
  abbrev Out : Type 0
  Out = Outcome digest dumps nid now

  -- The deletion that a call has done, and what allowed it.
  pub record Confirmed (s : CleanupService) (after : Shelf) : Type 0 where
    pub candidates : List CleanupCandidate
    pub wet : request.dry_run ≡ false
    pub found :
        backup_candidates request.older_than_days request.keep_per_category request.world_id now
          s.shelf.artifacts
        ≡ ok candidates
    pub previewed : matched_preview request s ≡ some (digest request candidates)
    pub within : (length candidates ≤ 500) ⊎ (request.elevated_confirmation ≡ true)
    pub deleted : after ≡ (delete_all now request.deleted_by candidates s.shelf 0).0

  module _ (s : CleanupService) where
    abbrev pub Allowed : Shelf → Type 0
    Allowed after = (after ≡ s.shelf) ⊎ Confirmed s after

    -- what the tests before the operation have shown
    abbrev Passed : List CleanupCandidate → Type 0
    Passed candidates =
        (backup_candidates request.older_than_days request.keep_per_category request.world_id now
            s.shelf.artifacts
          ≡ ok candidates)
        × (request.dry_run ≡ false
            → (matched_preview request s ≡ some (digest request candidates))
              × ((length candidates ≤ 500) ⊎ (request.elevated_confirmation ≡ true)))
