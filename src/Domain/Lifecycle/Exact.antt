-- ===== src/Domain/Lifecycle/Exact.antt =====
-- `transition_world` and `tombstone_world` against the description of the lifecycle.
use mcmanager.Common.{
  sym, ap, ◌∙◌, subst, >>=-eq-ok, ℕ, Option, none, some, ◌≡◌, Result, ok, arith, string_eq, refl,
}
use mcmanager.Domain.Values.{WorldState, off, backing_up, world_state_eq, WorldState-discrete}
use mcmanager.Domain.World.{make_world, DomainInvariantError, WorldInstance, WorldStateChanged}
use mcmanager.Domain.Lifecycle.{
  WorldTransitionIntent, transition_world, next_pre_backup_state, check_transition, rethrow,
  WorldTransitionIntent-discrete,
}
use mcmanager.Domain.Lifecycle.Rules.{
  IsValid, Move, moves, Origin, make_world-IsValid, IsValid-make_world,
}

rethrow-eq-ok :
    (r : Result DomainInvariantError WorldInstance) (w : WorldInstance)
    → rethrow r ≡ ok w
    → r ≡ ok w
rethrow-eq-ok r w h = ground arith

abbrev pub change_event : WorldInstance → WorldState → ℕ → WorldStateChanged
change_event w t at = record {
  world_id = w.world_id;
  previous_state = w.state;
  new_state = t;
  occurred_at = at;
}

-- What a transition that succeeds has passed through.
record Passage (w : WorldInstance) (t : WorldState) (at : ℕ) (i : WorldTransitionIntent)
    (w' : WorldInstance) (event : WorldStateChanged) : Type 0 where
  checked : check_transition w t i ≡ ok tt
  origin : next_pre_backup_state w t ≡ ok w'.pre_backup_state
  made : w' ≡ record w { state = t; pre_backup_state = w'.pre_backup_state }
  valid : IsValid w'
  told : event ≡ change_event w t at

module _ (w : WorldInstance) (t : WorldState) (at : ℕ) (i : WorldTransitionIntent)
    {w' : WorldInstance} {event : WorldStateChanged} where
  gather :
      (pre : Option WorldState) (v : WorldInstance)
      → check_transition w t i ≡ ok tt
      → next_pre_backup_state w t ≡ ok pre
      → v ≡ record w { state = t; pre_backup_state = pre }
      → IsValid v
      → v ≡ w'
      → change_event w t at ≡ event
      → Passage w t at i w' event
  gather pre v p q same valid here told =
      let origin : pre ≡ w'.pre_backup_state = ground arith in
      record {
        checked = p;
        origin = rw origin at q;
        made = ground arith;
        valid = subst IsValid here valid;
        told = sym told;
      }

  passage : transition_world w t at i ≡ ok (w', event) → Passage w t at i w' event
  unfolding transition_world
  passage done =
      let (_, p, done₁) = >>=-eq-ok (check_transition w t i) _ done in
      let (pre, q, done₂) = >>=-eq-ok (next_pre_backup_state w t) _ done₁ in
      let u : WorldInstance = record w { state = t; pre_backup_state = pre } in
      let (v, r, done₃) = >>=-eq-ok (rethrow (make_world u)) _ done₂ in
      let (same, valid) = make_world-IsValid u v (rethrow-eq-ok (make_world u) v r) in
      gather pre v p q same valid (cc) (cc)

moves_from :
    (w : WorldInstance) (s t : WorldState) (i : WorldTransitionIntent) {pre' : Option WorldState}
    → w.state ≡ s
    → check_transition w t i ≡ ok tt
    → next_pre_backup_state w t ≡ ok pre'
    → Move s w.pre_backup_state i t
unfolding check_transition next_pre_backup_state WorldState-discrete WorldTransitionIntent-discrete
moves_from w off t i e p q = grind (arith, moves)
moves_from w backing_up off i e p q = grind (arith, moves)
moves_from w backing_up _ i e p q = grind (arith, moves)
moves_from w _ t i e p q = grind (arith, moves)

live_from :
    (w : WorldInstance) (t : WorldState) (i : WorldTransitionIntent)
    → check_transition w t i ≡ ok tt
    → w.deleted_at ≡ none
unfolding check_transition
live_from w t i p = ground arith

origin_from :
    (w : WorldInstance) (t : WorldState) (pre' : Option WorldState)
    → next_pre_backup_state w t ≡ ok pre'
    → Origin w.state w.pre_backup_state t pre'
unfolding next_pre_backup_state
origin_from w t pre' h =
    ground (arith, world_state_eq.beq_iff t backing_up, world_state_eq.beq_iff w.state backing_up)

-- What `transition_world` promises of its result.
pub record Transitioned (w : WorldInstance) (t : WorldState) (at : ℕ) (i : WorldTransitionIntent)
    (w' : WorldInstance) (event : WorldStateChanged) : Type 0 where
  pub was_live : w.deleted_at ≡ none
  pub moved : Move w.state w.pre_backup_state i t
  pub origin : Origin w.state w.pre_backup_state t w'.pre_backup_state
  pub valid : IsValid w'
  pub arrived : w'.state ≡ t
  pub same_world : w'.world_id ≡ w.world_id
  pub still_live : w'.deleted_at ≡ none
  pub told : event ≡ change_event w t at

-- A transition that returns has made a move of the lifecycle under the authority that the move
-- needs, from a world that is not tombstoned. The new world is valid, has the same identity and no
-- tombstone, and remembers its state before a backup. The event names both states.
pub transition_world-Transitioned :
    (w : WorldInstance) (t : WorldState) (at : ℕ) (i : WorldTransitionIntent) (w' : WorldInstance)
    (event : WorldStateChanged)
    → transition_world w t at i ≡ ok (w', event)
    → Transitioned w t at i w' event
transition_world-Transitioned w t at i w' event done =
    let p = passage w t at i done in
    let live = live_from w t i p.checked in
    record {
      was_live = live;
      moved = moves_from w w.state t i refl p.checked p.origin;
      origin = origin_from w t w'.pre_backup_state p.origin;
      valid = p.valid;
      arrived = ap (λ (v : WorldInstance). v.state) p.made;
      same_world = ap (λ (v : WorldInstance). v.world_id) p.made;
      still_live = ap (λ (v : WorldInstance). v.deleted_at) p.made ∙ live;
      told = p.told;
    }

check_from :
    (w : WorldInstance) {s t : WorldState} {pre : Option WorldState} {i : WorldTransitionIntent}
    → Move s pre i t
    → w.state ≡ s
    → w.deleted_at ≡ none
    → check_transition w t i ≡ ok tt
unfolding check_transition WorldState-discrete WorldTransitionIntent-discrete
check_from w (Move.stay off pre) e live = ground arith
check_from w (Move.stay _ pre) e live = ground arith
check_from w _ e live = ground arith

abbrev origin_of : WorldState → Option WorldState → WorldState → Option WorldState
origin_of backing_up pre backing_up = pre
origin_of s pre backing_up = some s
origin_of backing_up pre t = none
origin_of s pre t = pre

next_from :
    (w : WorldInstance) {s t : WorldState} {pre : Option WorldState} {i : WorldTransitionIntent}
    → Move s pre i t
    → w.state ≡ s
    → w.pre_backup_state ≡ pre
    → next_pre_backup_state w t ≡ ok (origin_of s pre t)
unfolding next_pre_backup_state WorldState-discrete
next_from w (Move.stay off pre) e p = ground arith
next_from w (Move.stay _ pre) e p = ground arith
next_from w _ e p = ground arith

IsValid-from :
    (w : WorldInstance) {s t : WorldState} {pre : Option WorldState} {i : WorldTransitionIntent}
    → Move s pre i t
    → w.state ≡ s
    → w.pre_backup_state ≡ pre
    → w.deleted_at ≡ none
    → IsValid w
    → IsValid (record w { state = t; pre_backup_state = origin_of s pre t })
IsValid-from w (Move.stay off pre) e p live v = ground arith
IsValid-from w (Move.stay _ pre) e p live v = ground arith
IsValid-from w _ e p live v = ground arith

-- From a valid world that is not tombstoned every move of the lifecycle succeeds, under the
-- authority that it needs.
pub transition_world-total :
    (w : WorldInstance) (t : WorldState) (at : ℕ) (i : WorldTransitionIntent)
    → IsValid w
    → w.deleted_at ≡ none
    → Move w.state w.pre_backup_state i t
    → (w' : WorldInstance) × (transition_world w t at i ≡ ok (w', change_event w t at))
unfolding transition_world
transition_world-total w t at i v live m =
    let pre = origin_of w.state w.pre_backup_state t in
    let u : WorldInstance = record w { state = t; pre_backup_state = pre } in
    let valid = IsValid-from w m refl refl live v in
    (u, rw (check_from w m refl live, next_from w m refl refl, IsValid-make_world u valid))
