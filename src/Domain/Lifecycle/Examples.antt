-- ===== src/Domain/Lifecycle/Examples.antt =====
-- Transitions of a concrete world (app/domain/lifecycle.py).
use mcmanager.Common.{
  string_eq, option_eq, true, none, some, [], ◌∷◌, ◌≡◌, ◌⊎◌, refl, ok, err, contains,
}
use mcmanager.Domain.Values.{
  WorldState, off, queued, running, backing_up, crashed, WorldState-discrete,
}
use mcmanager.Domain.World.{WorldInstance, make_world, validate_world_instance}
use mcmanager.Domain.Lifecycle.{
  ordinary, crash_acknowledgement, WorldTransitionIntent-discrete, transition_world,
  tombstone_world, tombstoned, allowed_transitions, guarded_exit_intents, required_intent,
  next_pre_backup_state, check_transition, intent_eq,
}
use mcmanager.Domain.Lifecycle.Rules.{IsValid, Move}
use mcmanager.Domain.Lifecycle.Exact.{
  Transitioned, transition_world-Transitioned, transition_world-total, change_event,
}
use mcmanager.Domain.Lifecycle.Traces.{
  Reaches, here, next, acknowledged, backup_gives_back, tombstone_final,
}

abbrev world : WorldInstance
world = record { world_id = "w1"; state = running; pre_backup_state = none; deleted_at = none }

abbrev in_backup : WorldInstance
in_backup = record {
  world_id = "w1";
  state = backing_up;
  pre_backup_state = some running;
  deleted_at = none;
}

abbrev down : WorldInstance
down = record { world_id = "w1"; state = crashed; pre_backup_state = none; deleted_at = none }

abbrev idle : WorldInstance
idle = record { world_id = "w1"; state = off; pre_backup_state = none; deleted_at = none }

abbrev dead : WorldInstance
dead = record { world_id = "w1"; state = off; pre_backup_state = none; deleted_at = some 7 }

world-IsValid : IsValid world
world-IsValid = record {
  named = λ q. cc q;
  backup_origin = λ q. cc q;
  no_stray_origin = λ _. refl;
  tombstone_off = λ n. absurd (n refl);
}

idle-IsValid : IsValid idle
idle-IsValid = record {
  named = λ q. cc q;
  backup_origin = λ q. cc q;
  no_stray_origin = λ _. refl;
  tombstone_off = λ _. refl;
}

transition_world-Transitioned_example :
    Transitioned world backing_up 5 ordinary in_backup (change_event world backing_up 5)
unfolding transition_world check_transition next_pre_backup_state make_world validate_world_instance
    allowed_transitions required_intent WorldState-discrete WorldTransitionIntent-discrete
    guarded_exit_intents
transition_world-Transitioned_example =
    transition_world-Transitioned world backing_up 5 ordinary in_backup
      (change_event world backing_up 5) refl

transition_world-total_example :
    (w' : WorldInstance) × (transition_world world backing_up 5 ordinary
      ≡ ok (w', change_event world backing_up 5))
transition_world-total_example =
    transition_world-total world backing_up 5 ordinary world-IsValid refl (Move.backup_running none)

crash_is_acknowledged : Reaches down (crash_acknowledgement ∷ []) idle
unfolding transition_world check_transition next_pre_backup_state make_world validate_world_instance
    allowed_transitions required_intent WorldState-discrete WorldTransitionIntent-discrete
    guarded_exit_intents
crash_is_acknowledged =
    next down idle off 5 crash_acknowledgement (change_event down off 5) refl here

acknowledged_example : contains (crash_acknowledgement ∷ []) crash_acknowledgement ≡ true
unfolding guarded_exit_intents
acknowledged_example = acknowledged crash_is_acknowledged refl (λ q. cc q)

backup_gives_back_example :
    ((world.state ≡ running) ⊎ (world.state ≡ WorldState.error)) × (world.pre_backup_state ≡ none)
unfolding transition_world check_transition next_pre_backup_state make_world validate_world_instance
    allowed_transitions required_intent WorldState-discrete WorldTransitionIntent-discrete
    guarded_exit_intents
backup_gives_back_example =
    backup_gives_back world in_backup world running 5 9 ordinary ordinary
      (change_event world backing_up 5) (change_event in_backup running 9) (λ q. cc q) refl
      (λ q. cc q) refl

tombstone_final_example :
    (idle.deleted_at ≡ none)
    × (idle.state ≡ off)
    × (dead ≡ record idle { deleted_at = some 7 })
    × (transition_world dead queued 8 ordinary ≡ err tombstoned)
    × (tombstone_world dead 8 ≡ err tombstoned)
unfolding tombstone_world make_world validate_world_instance WorldState-discrete
tombstone_final_example =
    tombstone_final idle dead 7 (record { world_id = "w1"; occurred_at = 7 }) queued 8 ordinary refl
