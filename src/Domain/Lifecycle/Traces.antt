-- ===== src/Domain/Lifecycle/Traces.antt =====
-- Sequences of transitions of app/domain/lifecycle.py.
use mcmanager.Common.{
  ℕ, Option, none, some, List, [], ◌∷◌, ◌≡◌, ◌≢◌, ◌⊎◌, inl, inr, ok, err, arith, refl, ap, ◌∙◌,
  contains, beq_refl, true,
}
use mcmanager.Domain.Values.{WorldState, off, backing_up, error, world_state_eq}
use mcmanager.Domain.World.{make_world, WorldInstance, WorldStateChanged, WorldDeleted}
use mcmanager.Domain.Lifecycle.{
  WorldTransitionIntent, intent_eq, transition_world, tombstone_world, guarded_exit_intents,
  check_transition, tombstoned,
}
use mcmanager.Domain.Lifecycle.Rules.{IsValid, Move, make_world-IsValid, IsValid-make_world}
use mcmanager.Domain.Lifecycle.Exact.{transition_world-Transitioned}

-- `Reaches w is w'`: transitions under the intents `is`, each of which succeeds, lead to `w'`.
pub data Reaches : WorldInstance → List WorldTransitionIntent → WorldInstance → Type 0 where
  here : {w : WorldInstance} → Reaches w [] w
  next :
      (w v : WorldInstance) {u : WorldInstance} (t : WorldState) (at : ℕ)
      (i : WorldTransitionIntent) {is : List WorldTransitionIntent} (event : WorldStateChanged)
      → transition_world w t at i ≡ ok (v, event)
      → Reaches v is u
      → Reaches w (i ∷ is) u

-- Every world that transitions reach from a valid one is valid, and is the same world.
pub Reaches-IsValid :
    {w u : WorldInstance} {is : List WorldTransitionIntent}
    → Reaches w is u
    → IsValid w
    → IsValid u × (u.world_id ≡ w.world_id)
Reaches-IsValid here v = (v, refl)
Reaches-IsValid (next w u t at i e step rest) v =
    let T = transition_world-Transitioned w t at i u e step in
    let (valid, same) = Reaches-IsValid rest T.valid in (valid, same ∙ T.same_world)

leaves_by :
    {s t : WorldState} {pre : Option WorldState} {i g : WorldTransitionIntent}
    → Move s pre i t
    → guarded_exit_intents s ≡ some g
    → (t ≡ s) ⊎ (i ≡ g)
unfolding guarded_exit_intents
leaves_by (Move.stay off pre) h = inl refl
leaves_by (Move.stay _ pre) h = inl refl
leaves_by _ h = ground arith

-- A world leaves `crashed`, `error` or `eula_required` only by a sequence of transitions that holds
-- the acknowledgement which that state asks for.
pub acknowledged :
    {w u : WorldInstance} {is : List WorldTransitionIntent} {g : WorldTransitionIntent}
    → Reaches w is u
    → guarded_exit_intents w.state ≡ some g
    → u.state ≢ w.state
    → contains is g ≡ true
acknowledged here h away = absurd (away refl)
acknowledged {g = g} (next w v {u = u} t at i {is = is} e step rest) h away =
    let T = transition_world-Transitioned w t at i v e step in
    elim (leaves_by T.moved h) [
      | inl same ↦
          let stays : v.state ≡ w.state = T.arrived ∙ same in
          let later : contains is g ≡ true =
            acknowledged rest (rw stays h) (λ q. away (q ∙ stays)) in
          ground (arith, later)
      | inr by ↦ rw (by, beq_refl g)
    ]

back_to :
    {s t : WorldState} {pre : Option WorldState} {i : WorldTransitionIntent} (o : WorldState)
    → Move s pre i t
    → s ≡ backing_up
    → pre ≡ some o
    → t ≢ backing_up
    → (t ≡ o) ⊎ (t ≡ error)
back_to o (Move.stay off pre) e p away = ground arith
back_to o (Move.stay _ pre) e p away = ground arith
back_to o _ e p away = ground arith

-- A backup gives the world back: a world that enters `backing_up` from another state, and later
-- leaves it, is in the state that it had, or in `error`, with nothing remembered.
pub backup_gives_back :
    (w v u : WorldInstance) (t : WorldState) (at at' : ℕ) (i i' : WorldTransitionIntent)
    (e e' : WorldStateChanged)
    → w.state ≢ backing_up
    → transition_world w backing_up at i ≡ ok (v, e)
    → t ≢ backing_up
    → transition_world v t at' i' ≡ ok (u, e')
    → ((u.state ≡ w.state) ⊎ (u.state ≡ error)) × (u.pre_backup_state ≡ none)
backup_gives_back w v u t at at' i i' e e' start step away step' =
    let T = transition_world-Transitioned w backing_up at i v e step in
    let T' = transition_world-Transitioned v t at' i' u e' step' in
    let goes = back_to w.state T'.moved T.arrived (T.origin.remembers start refl) away in
    (rw T'.arrived goes, T'.origin.forgets T.arrived away)

transition_world-refuses :
    (v : WorldInstance) (d : ℕ) (t : WorldState) (at : ℕ) (i : WorldTransitionIntent)
    → v.deleted_at ≡ some d
    → transition_world v t at i ≡ err tombstoned
unfolding transition_world check_transition
transition_world-refuses v d t at i h = rw h

tombstone_world-refuses :
    (v : WorldInstance) (d at : ℕ) → v.deleted_at ≡ some d → tombstone_world v at ≡ err tombstoned
unfolding tombstone_world
tombstone_world-refuses v d at h = rw h

tombstone_world-parts :
    (w v : WorldInstance) (at : ℕ) (e : WorldDeleted)
    → tombstone_world w at ≡ ok (v, e)
    → (w.deleted_at ≡ none)
      × (w.state ≡ off)
      × (make_world (record w { deleted_at = some at }) ≡ ok v)
unfolding tombstone_world
tombstone_world-parts w v at e h = ground (arith, world_state_eq.beq_iff w.state off)

-- A tombstone is set only on a world that is off and has none. It changes nothing else, and after it
-- every transition and every second tombstone is refused.
pub tombstone_final :
    (w v : WorldInstance) (at : ℕ) (e : WorldDeleted) (t : WorldState) (at' : ℕ)
    (i : WorldTransitionIntent)
    → tombstone_world w at ≡ ok (v, e)
    → (w.deleted_at ≡ none)
      × (w.state ≡ off)
      × (v ≡ record w { deleted_at = some at })
      × (transition_world v t at' i ≡ err tombstoned)
      × (tombstone_world v at' ≡ err tombstoned)
tombstone_final w v at e t at' i h =
    let (live, is_off, made) = tombstone_world-parts w v at e h in
    let same = (make_world-IsValid (record w { deleted_at = some at }) v made).0 in
    let dead = ap (λ (x : WorldInstance). x.deleted_at) same in
    (
      live,
      is_off,
      same,
      transition_world-refuses v at t at' i dead,
      tombstone_world-refuses v at at' dead,
    )

-- A valid world that is off and has no tombstone can be tombstoned.
pub tombstone_world-total :
    (w : WorldInstance) (at : ℕ)
    → IsValid w
    → w.deleted_at ≡ none
    → w.state ≡ off
    → tombstone_world w at
      ≡ ok (record w { deleted_at = some at }, record { world_id = w.world_id; occurred_at = at })
unfolding tombstone_world
tombstone_world-total w at v live is_off =
    let u : WorldInstance = record w { deleted_at = some at } in
    rw (live, (world_state_eq.beq_iff w.state off).1 is_off, IsValid-make_world u (ground arith))
