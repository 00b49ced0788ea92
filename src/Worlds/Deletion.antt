-- ===== src/Worlds/Deletion.antt =====
-- The queued deletion of a world in app/services/worlds.py: `_apply_queued_world_delete`.
pub mod Recovery
use mcmanager.Common.{
  ℕ, suc, String, string_eq, Bool, true, false, not, ◌&&◌, ◌||◌, Option, none, some, List, [], ◌∷◌,
  ◌==◌, nat_eq, option_eq, if◌then◌else◌, Result, ok, err,
}
use mcmanager.Domain.Values.{WorldState, world_state_eq}
use mcmanager.Operations.Rows.{Operation, Fields, text, flag}
use mcmanager.Worlds.Store.{WorldRow, Services, Host}
use mcmanager.Worlds.Exec.{
  Raised, world_not_found, configuration_conflict, Exec, pure, gets, lift, ask, modify, ◌>>=◌, ◌>>◌,
}
use mcmanager.Domain.World.{is_some}
use mcmanager.Worlds.State.{world_at, update_world}

-- the world is deleted already, by this operation before it was interrupted
abbrev pub is_repeated : Option String → ℕ → WorldRow → Bool
is_repeated actor expected r =
    is_some r.deleted_at && r.deleted_by == actor && r.metadata_version == suc expected

abbrev pub is_changed : ℕ → WorldRow → Bool
is_changed expected r =
    is_some r.deleted_at || not (r.state == WorldState.off) || not (r.metadata_version == expected)

abbrev pub tombstone_row : ℕ → Option String → WorldRow → WorldRow
tombstone_row now actor r = record r {
  deleted_at = some now;
  deleted_by = actor;
  metadata_version = suc r.metadata_version;
  updated_at = now;
}

-- the statement in the transaction; its WHERE repeats the test, so that it counts one row
unfoldable pub delete_found :
    String → Option String → ℕ → ℕ → List WorldRow → Option WorldRow → Result Raised (List WorldRow)
delete_found world_id actor expected now rows none = err world_not_found
delete_found world_id actor expected now rows (some r) =
    if is_repeated actor expected r
    then ok rows
    else if is_changed expected r
    then err configuration_conflict
    else ok (update_world world_id (tombstone_row now actor) rows)

unfoldable pub delete_world :
    String → Option String → ℕ → ℕ → List WorldRow → Result Raised (List WorldRow)
delete_world world_id actor expected now rows =
    delete_found world_id actor expected now rows (world_at world_id rows)

abbrev of_id :
    Option String → (String → Result Raised (List WorldRow)) → Result Raised (List WorldRow)
of_id none f = err world_not_found
of_id (some world_id) f = f world_id

abbrev shown : Option String → Fields
shown none = []
shown (some world_id) = ("world_id", text world_id) ∷ ("deleted", flag true) ∷ []

-- `_apply_queued_world_delete`, with the version of the preview that the operation carries
unfoldable pub apply_queued_world_delete : Host → Operation → ℕ → Exec Fields
apply_queued_world_delete host o expected = do
  now ← ask host.clock
  rows ← gets (λ s. s.worlds)
  after ←
      lift (of_id o.world_id (λ world_id. delete_world world_id o.actor_user_id expected now rows))
  modify (λ s. record s { worlds = after })
  pure (shown o.world_id)
