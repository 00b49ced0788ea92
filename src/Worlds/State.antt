-- ===== src/Worlds/State.antt =====
-- The steps of app/services/worlds.py on its tables: `_world`, `_set_world_state`, `_close_session`,
-- `_open_session`, and the calls of the operation service.
use mcmanager.Common.{
  ℕ, suc, String, string_eq, Bool, not, ◌&&◌, Option, none, some, List, [], ◌∷◌, ◌++◌, ◌==◌,
  option_eq, nat_eq, map, find, filter, if◌then◌else◌, Result, ok, err,
}
use mcmanager.Domain.Values.{WorldState, world_state_eq, EndReason, OperationStatus}
use mcmanager.Domain.World.{WorldInstance, WorldStateChanged, DomainInvariantError, make_world}
use mcmanager.Domain.Lifecycle.{WorldTransitionIntent, InvalidWorldTransition, transition_world}
use mcmanager.Operations.Rows.{Operation, OperationInput}
use mcmanager.Operations.Policy.{OperationError}
use mcmanager.Operations.Engine.{Engine}
use mcmanager.Operations.Methods.{create_with_replay}
use mcmanager.Operations.Milestones.{Milestone, plain, claim_queued, transition}
use mcmanager.Worlds.Store.{WorldRow, RuntimeSession, StatePublished, Services, Host}
use mcmanager.Worlds.Exec.{
  Raised, world_not_found, world_conflict, invalid_world, operation, Exec, gets, lift, ask, modify,
  or_raise, ◌>>=◌,
}

unfoldable pub world_at : String → List WorldRow → Option WorldRow
world_at world_id rows = find (λ (r : WorldRow). r.world_id == world_id) rows

unfoldable pub update_world : String → (WorldRow → WorldRow) → List WorldRow → List WorldRow
update_world world_id f rows =
    map (λ (r : WorldRow). if r.world_id == world_id then f r else r) rows

-- `_world`: also a world that is deleted
unfoldable pub world : String → Exec WorldRow
world world_id = gets (λ s. world_at world_id s.worlds) >>= λ found. or_raise found world_not_found

-- the world that `_set_world_state` builds of a row; its tombstone is not handed on
abbrev pub instance_of : WorldRow → WorldInstance
instance_of r = record {
  world_id = r.world_id;
  state = r.state;
  pre_backup_state = r.pre_backup_state;
  deleted_at = none;
}

abbrev pub or_invalid : Result DomainInvariantError WorldInstance → Result Raised WorldInstance
or_invalid (ok w) = ok w
or_invalid (err e) = err invalid_world

abbrev pub or_conflict :
    Result InvalidWorldTransition (WorldInstance × WorldStateChanged)
    → Result Raised (WorldInstance × WorldStateChanged)
or_conflict (ok x) = ok x
or_conflict (err e) = err world_conflict

abbrev pub moved_row : WorldInstance → ℕ → WorldRow → WorldRow
moved_row w now r = record r {
  state = w.state;
  pre_backup_state = w.pre_backup_state;
  updated_at = now;
}

abbrev publications : WorldStateChanged → WorldTransitionIntent → List StatePublished
publications event reason =
    record { stream = none; event = event; reason = reason }
    ∷ record { stream = some event.world_id; event = event; reason = reason }
    ∷ []

-- the write of a transition, and its publication if the state is another
unfoldable pub write_transition :
    String → WorldInstance × WorldStateChanged → ℕ → WorldTransitionIntent → Services → Services
write_transition world_id moved now intent s = record s {
  worlds = update_world world_id (moved_row moved.0 now) s.worlds;
  published =
      if not (moved.1.previous_state == moved.1.new_state) && s.realtime
      then s.published ++ publications moved.1 intent
      else s.published;
}

module _ (host : Host) where
  -- `_set_world_state`
  unfoldable pub set_world_state : String → WorldState → WorldTransitionIntent → Exec (Unit {0})
  set_world_state world_id state intent = do
    row ← world world_id
    before ← lift (or_invalid (make_world (instance_of row)))
    at ← ask host.clock
    moved ← lift (or_conflict (transition_world before state at intent))
    now ← ask host.clock
    modify (write_transition world_id moved now intent)

  abbrev pub ends_session : String → RuntimeSession → Bool
  ends_session world_id r = r.world_id == world_id && r.ended_at == none

  unfoldable pub end_sessions : String → EndReason → ℕ → List RuntimeSession → List RuntimeSession
  end_sessions world_id reason now rows =
      map
        (λ (r : RuntimeSession).
          if ends_session world_id r
          then record r { ended_at = some now; end_reason = some reason }
          else r)
        rows

  -- `_close_session`
  unfoldable pub close_session : String → EndReason → Exec (Unit {0})
  close_session world_id reason = do
    now ← ask host.clock
    modify (λ s. record s { sessions = end_sessions world_id reason now s.sessions })

  -- `_open_sessions`
  unfoldable pub open_sessions : Exec (List RuntimeSession)
  open_sessions = gets (λ s. filter (λ (r : RuntimeSession). r.ended_at == none) s.sessions)

  abbrev pub engine_result :
      {A : Type 0} → Result OperationError (Engine × A) → Services → Result Raised A × Services
  engine_result (ok (engine, a)) s = (ok a, record s { engine = engine; step = suc s.step })
  engine_result (err e) s = (err (operation e), record s { step = suc s.step })

  abbrev pub pair_last :
      Result OperationError (Engine × Operation × Bool)
      → Result OperationError (Engine × (Operation × Bool))
  pair_last (ok (e, row, replayed)) = ok (e, (row, replayed))
  pair_last (err e) = err e

  -- `OperationService.create_with_replay`
  unfoldable pub create_operation :
      OperationInput → OperationStatus → Bool → Exec (Operation × Bool)
  create_operation request initial allow s =
      engine_result
        (pair_last (
          create_with_replay request initial allow (host.identifier s.step) (host.clock s.step)
            s.engine))
        s

  -- `OperationService.transition`
  unfoldable pub transition_operation : String → OperationStatus → Milestone → Exec Operation
  transition_operation op_id status m s =
      engine_result
        (transition op_id status m (host.identifier s.step) (host.clock s.step) s.engine) s

  -- `OperationService.claim_queued`
  unfoldable pub claim_operation : String → Exec (Option Operation)
  claim_operation op_id s = engine_result (ok (claim_queued op_id (host.clock s.step) s.engine)) s

  -- `_fail_op`
  unfoldable pub fail_operation : String → String → Option String → Exec Operation
  fail_operation op_id error_code message =
      transition_operation op_id OperationStatus.failed
        (record plain { error_code = some error_code; message = message })
