-- ===== src/Worlds/Deletion/Recovery.antt =====
-- The recovery of an interrupted deletion, and the domain's tombstone
-- (app/services/worlds.py, app/domain/lifecycle.py).
use mcmanager.Common.{
  ℕ, suc, String, string_eq, true, false, Option, none, some, List, nat_eq, option_eq, ◌≡◌, refl,
  sym, ap, ◌∙◌, inl, inr, Bool-cases, Option-cases, Result, ok, err, beq_refl, subst, arith,
}
use mcmanager.Domain.Values.{WorldState, world_state_eq}
use mcmanager.Domain.World.{WorldInstance}
use mcmanager.Domain.Lifecycle.{tombstone_world}
use mcmanager.Domain.Lifecycle.Rules.{IsValid}
use mcmanager.Domain.Lifecycle.Traces.{tombstone_world-total}
use mcmanager.Worlds.Store.{WorldRow}
use mcmanager.Worlds.Exec.{Raised}
use mcmanager.Worlds.State.{world_at, update_world}
use mcmanager.Worlds.Steps.{world_at-update_world, world_at-id}
use mcmanager.Worlds.Deletion.{is_repeated, is_changed, tombstone_row, delete_found, delete_world}

-- the world of a row, with its tombstone
abbrev pub whole : WorldRow → WorldInstance
whole r = record {
  world_id = r.world_id;
  state = r.state;
  pre_backup_state = r.pre_backup_state;
  deleted_at = r.deleted_at;
}

ok-injective : {A : Type 0} {a b : A} → ◌≡◌ {A = Result Raised A} (ok a) (ok b) → a ≡ b
ok-injective h = cc h

err-ne-ok : {A : Type 0} {e : Raised} {a : A} → ◌≡◌ {A = Result Raised A} (err e) (ok a) → ⊥
err-ne-ok h = cc h

module _ (world_id : String) (actor : Option String) (expected now : ℕ) (rows : List WorldRow) where
  -- a deletion of a live world that returns
  Fresh : WorldRow → List WorldRow → Type 0
  Fresh r after =
      (is_changed expected r ≡ false)
      × (after ≡ update_world world_id (tombstone_row now actor) rows)

  deletes :
      (r : WorldRow) (after : List WorldRow)
      → is_repeated actor expected r ≡ false
      → delete_found world_id actor expected now rows (some r) ≡ ok after
      → Fresh r after
  unfolding delete_found Fresh
  deletes r after e h = elim (Bool-cases (is_changed expected r)) [
    | inl changed ↦ absurd (err-ne-ok (rw (e, changed) at h))
    | inr same ↦ (same, sym (ok-injective (rw (e, same) at h)))
  ]

  -- a deletion that was applied before leaves the table
  repeats :
      (r : WorldRow) (after : List WorldRow)
      → is_repeated actor expected r ≡ true
      → delete_found world_id actor expected now rows (some r) ≡ ok after
      → after ≡ rows
  unfolding delete_found
  repeats r after e h = sym (ok-injective (rw e at h))

  now_deleted :
      (r : WorldRow)
      → world_at world_id rows ≡ some r
      → world_at world_id (update_world world_id (tombstone_row now actor) rows)
        ≡ some (tombstone_row now actor r)
  now_deleted r found =
      world_at-update_world world_id world_id (tombstone_row now actor) (λ x. refl) rows
      ∙ rw found (rw (world_at-id world_id rows found) (rw (beq_refl world_id) refl))

-- a second time, for a row that is deleted already
again :
    (world_id : String) (actor : Option String) (expected later : ℕ) (rows : List WorldRow)
    (r : WorldRow)
    → world_at world_id rows ≡ some r
    → is_repeated actor expected r ≡ true
    → delete_world world_id actor expected later rows ≡ ok rows
unfolding delete_world delete_found
again world_id actor expected later rows r found e = rw found (rw e refl)

unchanged_version :
    (expected : ℕ) (r : WorldRow) → is_changed expected r ≡ false → r.metadata_version ≡ expected
unchanged_version expected r h = ground arith

unchanged_state :
    (expected : ℕ) (r : WorldRow) → is_changed expected r ≡ false → r.state ≡ WorldState.off
unchanged_state expected r h = ground (arith, world_state_eq.beq_iff r.state WorldState.off)

-- the row that a deletion writes is one that it knows again
known_again :
    (actor : Option String) (expected now : ℕ) (r : WorldRow)
    → is_changed expected r ≡ false
    → is_repeated actor expected (tombstone_row now actor r) ≡ true
known_again actor expected now r h =
    rw (beq_refl actor) (rw (unchanged_version expected r h) (beq_refl (suc expected)))

abbrev deletion :
    String → Option String → ℕ → ℕ → List WorldRow → Option WorldRow → Result Raised (List WorldRow)
deletion world_id actor expected now rows o = delete_found world_id actor expected now rows o

not_there :
    (world_id : String) (actor : Option String) (expected now : ℕ) (rows after : List WorldRow)
    → delete_found world_id actor expected now rows none ≡ ok after
    → ⊥
unfolding delete_found
not_there world_id actor expected now rows after h = err-ne-ok h

-- A deletion that is applied again by its operation, at any later time after a manager restart, returns
-- again and leaves the table as it is: an interrupted deletion takes effect once.
pub deletion_recovers :
    (world_id : String) (actor : Option String) (expected now later : ℕ)
    (rows after : List WorldRow)
    → delete_world world_id actor expected now rows ≡ ok after
    → delete_world world_id actor expected later after ≡ ok after
unfolding delete_world Fresh
deletion_recovers world_id actor expected now later rows after h =
    elim (Option-cases (world_at world_id rows)) [
      | inl missing ↦ absurd (
          not_there world_id actor expected now rows after
            (sym (ap (deletion world_id actor expected now rows) missing) ∙ h))
      | inr (r, found) ↦
          let done = sym (ap (deletion world_id actor expected now rows) found) ∙ h in
          elim (Bool-cases (is_repeated actor expected r)) [
            | inl e ↦
                let same = repeats world_id actor expected now rows r after e done in
                subst (λ t. delete_world world_id actor expected later t ≡ ok t) (sym same)
                  (again world_id actor expected later rows r found e)
            | inr e ↦
                let (kept, same) = deletes world_id actor expected now rows r after e done in
                subst (λ t. delete_world world_id actor expected later t ≡ ok t) (sym same)
                  (again world_id actor expected later _ (tombstone_row now actor r)
                    (now_deleted world_id actor expected now rows r found)
                    (known_again actor expected now r kept))
          ]
    ]

live_not_repeated :
    (actor : Option String) (expected : ℕ) (r : WorldRow)
    → r.deleted_at ≡ none
    → is_repeated actor expected r ≡ false
live_not_repeated actor expected r live = rw live refl

tombstone_of :
    (now : ℕ) (actor : Option String) (r : WorldRow)
    → r.deleted_at ≡ none
    → r.state ≡ WorldState.off
    → IsValid (whole r)
    → tombstone_world (whole r) now
      ≡ ok (whole (tombstone_row now actor r), record { world_id = r.world_id; occurred_at = now })
tombstone_of now actor r live is_off valid = tombstone_world-total (whole r) now valid live is_off

-- A deletion of a live world that returns has deleted the world of the version that was previewed, in
-- the way of the domain: what it writes is the tombstone that `tombstone_world` gives, and it counts
-- the version up.
pub deletion_refines :
    (world_id : String) (actor : Option String) (expected now : ℕ) (rows after : List WorldRow)
    (r : WorldRow)
    → world_at world_id rows ≡ some r
    → r.deleted_at ≡ none
    → IsValid (whole r)
    → delete_world world_id actor expected now rows ≡ ok after
    → (t : WorldRow) × (world_at world_id after ≡ some t)
      × (tombstone_world (whole r) now
          ≡ ok (whole t, record { world_id = r.world_id; occurred_at = now }))
      × (r.metadata_version ≡ expected)
      × (t.metadata_version ≡ suc expected)
unfolding delete_world Fresh
deletion_refines world_id actor expected now rows after r found live valid h =
    let done = sym (ap (deletion world_id actor expected now rows) found) ∙ h in
    let (kept, same) =
      deletes world_id actor expected now rows r after (live_not_repeated actor expected r live)
        done in
    let version = unchanged_version expected r kept in
    (
      tombstone_row now actor r,
      ap (world_at world_id) same ∙ now_deleted world_id actor expected now rows r found,
      tombstone_of now actor r live (unchanged_state expected r kept) valid,
      version,
      ap suc version,
    )
