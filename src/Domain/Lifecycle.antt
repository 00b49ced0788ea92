-- ===== src/Domain/Lifecycle.antt =====
-- app/domain/lifecycle.py: guarded transitions of a world instance.
pub mod Rules
pub mod Exact
pub mod Traces
mod Examples
use mcmanager.Common.{
  string_eq, option_eq, ℕ, Bool, true, false, not, ◌&&◌, ◌||◌, Option, none, some, List, [], ◌∷◌,
  Eq, from_discrete, Result, ok, err, ◌==◌, ◌>>=◌, ◌>>◌, raise_if, contains, if◌then◌else◌,
}
use mcmanager.Domain.Values.{
  WorldState, off, queued, starting, running, stopping, restoring, backing_up, crashed, error,
  eula_required, world_state_eq,
}
use mcmanager.Domain.World.{
  WorldInstance, WorldStateChanged, WorldDeleted, DomainInvariantError, make_world, is_some,
}

pub data WorldTransitionIntent : Type 0 where
  ordinary crash_acknowledgement error_acknowledgement eula_acceptance : WorldTransitionIntent

unfoldable pub WorldTransitionIntent-discrete : Discrete WorldTransitionIntent
WorldTransitionIntent-discrete = hlevel

instance abbrev pub intent_eq : Eq WorldTransitionIntent
intent_eq = from_discrete WorldTransitionIntent-discrete

-- the reasons for which `InvalidWorldTransition` is raised
pub data InvalidWorldTransition : Type 0 where
  tombstoned not_allowed intent_required intent_not_valid wrong_backup_exit not_off :
      InvalidWorldTransition
  invariant : DomainInvariantError → InvalidWorldTransition

-- _ALLOWED_TRANSITIONS
unfoldable pub allowed_transitions : WorldState → List WorldState
allowed_transitions off = queued ∷ backing_up ∷ restoring ∷ eula_required ∷ []
allowed_transitions queued = off ∷ starting ∷ []
allowed_transitions starting = running ∷ error ∷ []
allowed_transitions running = stopping ∷ backing_up ∷ crashed ∷ []
allowed_transitions stopping = off ∷ []
allowed_transitions restoring = off ∷ error ∷ []
allowed_transitions backing_up = off ∷ running ∷ error ∷ []
allowed_transitions crashed = off ∷ []
allowed_transitions error = off ∷ []
allowed_transitions eula_required = off ∷ []

-- guarded_exit_intents.get(state)
unfoldable pub guarded_exit_intents : WorldState → Option WorldTransitionIntent
guarded_exit_intents crashed = some crash_acknowledgement
guarded_exit_intents error = some error_acknowledgement
guarded_exit_intents eula_required = some eula_acceptance
guarded_exit_intents _ = none

unfoldable pub required_intent : WorldState → WorldState → Option WorldTransitionIntent
unfolding guarded_exit_intents
required_intent state new_state = if new_state == off then guarded_exit_intents state else none

-- the pre-backup state of the replacement, or the refusal to leave a backup for another state
unfoldable pub next_pre_backup_state :
    WorldInstance → WorldState → Result InvalidWorldTransition (Option WorldState)
next_pre_backup_state world new_state =
    if new_state == backing_up && not (world.state == backing_up)
    then ok (some world.state)
    else if world.state == backing_up && not (new_state == backing_up)
    then (do
      raise_if (not (some new_state == world.pre_backup_state) && not (new_state == error))
          wrong_backup_exit
      ok none)
    else ok world.pre_backup_state

-- except DomainInvariantError as exc: raise InvalidWorldTransition from exc
abbrev rethrow :
    Result DomainInvariantError WorldInstance → Result InvalidWorldTransition WorldInstance
rethrow (ok w) = ok w
rethrow (err e) = err (invariant e)

-- the refusals of `transition_world`, in the order of its tests
unfoldable pub check_transition :
    WorldInstance → WorldState → WorldTransitionIntent → Result InvalidWorldTransition (Unit {0})
unfolding allowed_transitions required_intent
check_transition world new_state intent = do
  raise_if (is_some world.deleted_at) tombstoned
  raise_if
      (not (new_state == world.state) && not (contains (allowed_transitions world.state) new_state))
      not_allowed
  let required = required_intent world.state new_state
  raise_if (is_some required && not (some intent == required)) intent_required
  raise_if (not (intent == ordinary) && not (some intent == required)) intent_not_valid

unfoldable pub transition_world :
    WorldInstance
    → WorldState
    → ℕ
    → WorldTransitionIntent
    → Result InvalidWorldTransition (WorldInstance × WorldStateChanged)
transition_world world new_state occurred_at intent = do
  check_transition world new_state intent
  pre ← next_pre_backup_state world new_state
  transitioned ← rethrow (make_world (record world { state = new_state; pre_backup_state = pre }))
  ok (
    transitioned,
    record {
      world_id = world.world_id;
      previous_state = world.state;
      new_state = new_state;
      occurred_at = occurred_at;
    },
  )

unfoldable pub tombstone_world :
    WorldInstance → ℕ → Result InvalidWorldTransition (WorldInstance × WorldDeleted)
tombstone_world world occurred_at = do
  raise_if (is_some world.deleted_at) tombstoned
  raise_if (not (world.state == off)) not_off
  deleted ← rethrow (make_world (record world { deleted_at = some occurred_at }))
  ok (deleted, record { world_id = world.world_id; occurred_at = occurred_at })
