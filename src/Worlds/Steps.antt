-- ===== src/Worlds/Steps.antt =====
-- What a method of app/services/worlds.py may do to the tables: calls of the operation engine, and
-- transitions of the lifecycle.
use mcmanager.Common.{
  ℕ, suc, String, string_eq, Option, none, some, List, [], ◌∷◌, ◌++◌, ◌≡◌, refl, sym, ap, ◌∙◌, ◌==◌,
  beq→eq, find-some, if◌then◌else◌, inl, inr, Bool-cases, Option-cases, All, All-append, Result, ok,
  err, subst, arith,
}
use mcmanager.Domain.Values.{WorldState}
use mcmanager.Domain.World.{WorldInstance, WorldStateChanged, DomainInvariantError, make_world}
use mcmanager.Domain.Lifecycle.{
  WorldTransitionIntent, ordinary, eula_acceptance, crash_acknowledgement, error_acknowledgement,
  InvalidWorldTransition, transition_world,
}
use mcmanager.Domain.Lifecycle.Rules.{make_world-IsValid}
use mcmanager.Domain.Lifecycle.Exact.{transition_world-Transitioned}
use mcmanager.Domain.Lifecycle.Traces.{Reaches, here, next}
use mcmanager.Operations.Engine.{Engine}
use mcmanager.Operations.Calls.{Call, run, Proper}
use mcmanager.Worlds.Store.{WorldRow, Services, Host}
use mcmanager.Worlds.Exec.{◌>>=◌, gets, lift, ask, modify, or_raise, raise, pure, world_not_found}
use mcmanager.Worlds.State.{
  world_at, update_world, world, instance_of, or_invalid, or_conflict, moved_row, write_transition,
  set_world_state,
}

pub Reaches-trans :
    {u v w : WorldInstance} {is js : List WorldTransitionIntent}
    → Reaches u is v
    → Reaches v js w
    → Reaches u (is ++ js) w
Reaches-trans here q = q
Reaches-trans (next u v t at i event step rest) q =
    next u v t at i event step (Reaches-trans rest q)

-- the intents that no acknowledgement of a crash or of an error is
abbrev pub Unforced : WorldTransitionIntent → Type 0
Unforced ordinary = Unit
Unforced eula_acceptance = Unit
Unforced crash_acknowledgement = ⊥
Unforced error_acknowledgement = ⊥

-- a world whose row is there keeps a row, which transitions of the lifecycle reach
abbrev pub Follows : Option WorldRow → Option WorldRow → Type 0
Follows none none = Unit
Follows none (some v) = ⊥
Follows (some w) none = ⊥
Follows (some w) (some v) =
    (is : List WorldTransitionIntent) × Reaches (instance_of w) is (instance_of v) × All Unforced is

pub Follows-refl : (o : Option WorldRow) → Follows o o
Follows-refl none = tt
Follows-refl (some w) = ([], here, tt)

pub Follows-trans : (a b c : Option WorldRow) → Follows a b → Follows b c → Follows a c
Follows-trans none none none p q = tt
Follows-trans none none (some w) p q = q
Follows-trans none (some v) c p q = absurd p
Follows-trans (some u) none c p q = absurd p
Follows-trans (some u) (some v) none p q = q
Follows-trans (some u) (some v) (some w) p q =
    (p.0 ++ q.0, Reaches-trans p.1 q.1, All-append Unforced p.0 q.0 p.2 q.2)

-- From `s` to `t` the engine has been called, and every world has followed its lifecycle.
pub record Steps (s t : Services) : Type 0 where
  pub calls : List Call
  pub proper : All Proper calls
  pub ran : t.engine ≡ run calls s.engine
  pub follows : (j : String) → Follows (world_at j s.worlds) (world_at j t.worlds)

pub run-append : (cs ds : List Call) (e : Engine) → run (cs ++ ds) e ≡ run ds (run cs e)
unfolding run
run-append [] ds e = refl
run-append (c ∷ cs) ds e = run-append cs ds (mcmanager.Operations.Calls.perform c e)

pub Steps-refl : (s : Services) → Steps s s
unfolding run
Steps-refl s = record {
  calls = [];
  proper = tt;
  ran = refl;
  follows = λ j. Follows-refl (world_at j s.worlds);
}

pub Steps-trans : (s t u : Services) → Steps s t → Steps t u → Steps s u
Steps-trans s t u p q = record {
  calls = p.calls ++ q.calls;
  proper = All-append Proper p.calls q.calls p.proper q.proper;
  ran = q.ran ∙ ap (run q.calls) p.ran ∙ sym (run-append p.calls q.calls s.engine);
  follows = λ j.
      Follows-trans (world_at j s.worlds) (world_at j t.worlds) (world_at j u.worlds) (p.follows j)
        (q.follows j);
}

abbrev pub changed_world : String → (WorldRow → WorldRow) → Option WorldRow → Option WorldRow
changed_world id f none = none
changed_world id f (some r) = if r.world_id == id then some (f r) else some r

pub world_at-update_world :
    (id j : String) (f : WorldRow → WorldRow)
    → ((r : WorldRow) → (f r).world_id ≡ r.world_id)
    → (rows : List WorldRow)
    → world_at j (update_world id f rows) ≡ changed_world id f (world_at j rows)
unfolding world_at update_world
world_at-update_world id j f keeps [] = refl
world_at-update_world id j f keeps (r ∷ rows) = elim (Bool-cases (r.world_id == id)) [
  | inl e ↦ elim (Bool-cases (r.world_id == j)) [
    | inl q ↦ simp (e, keeps r, q)
    | inr q ↦ simp (e, keeps r, q) (world_at-update_world id j f keeps rows)
  ]
  | inr e ↦ elim (Bool-cases (r.world_id == j)) [
    | inl q ↦ simp (e, q)
    | inr q ↦ simp (e, q) (world_at-update_world id j f keeps rows)
  ]
]

-- what a transition writes follows the lifecycle
moves_row :
    (w : WorldRow) (state : WorldState) (at now : ℕ) (intent : WorldTransitionIntent)
    (v : WorldInstance) (event : WorldStateChanged)
    → transition_world (instance_of w) state at intent ≡ ok (v, event)
    → Reaches (instance_of w) (intent ∷ []) (instance_of (moved_row v now w))
moves_row w state at now intent v event h =
    let T = transition_world-Transitioned (instance_of w) state at intent v event h in
    let same : v ≡ instance_of (moved_row v now w) = ground (arith, T.same_world, T.still_live) in
    subst (λ (x : WorldInstance). Reaches (instance_of w) (intent ∷ []) x) same
      (next (instance_of w) v state at intent event h here)

-- a step that calls no operation, and moves at most one world
pub world_step :
    (s t : Services)
    → t.engine ≡ s.engine
    → ((j : String) → Follows (world_at j s.worlds) (world_at j t.worlds))
    → Steps s t
unfolding run
world_step s t same follows = record { calls = []; proper = tt; ran = same; follows = follows }

pub world_at-id :
    (j : String) (rows : List WorldRow) {r : WorldRow} → world_at j rows ≡ some r → r.world_id ≡ j
unfolding world_at
world_at-id j rows {r} h =
    beq→eq r.world_id j (find-some (λ (x : WorldRow). x.world_id == j) rows h)

some-injective : {A : Type 0} {a b : A} → some a ≡ some b → a ≡ b
some-injective h = cc h

module _ (host : Host) (world_id : String) (state : WorldState) (intent : WorldTransitionIntent)
    (unforced : Unforced intent) (s : Services) where
  written :
      (j : String) (w : WorldRow) (at now : ℕ) (v : WorldInstance) (event : WorldStateChanged)
      → world_at world_id s.worlds ≡ some w
      → transition_world (instance_of w) state at intent ≡ ok (v, event)
      → Follows
          (world_at j s.worlds)
          (world_at j (update_world world_id (moved_row v now) s.worlds))
  written j w at now v event found h =
      subst (Follows (world_at j s.worlds))
        (sym (world_at-update_world world_id j (moved_row v now) (λ r. refl) s.worlds))
        (elim (Option-cases (world_at j s.worlds)) [
          | inl none_there ↦ rw none_there tt
          | inr (r, there) ↦ elim (Bool-cases (r.world_id == world_id)) [
            | inl mine ↦
                let same : j ≡ world_id =
                  sym (world_at-id j s.worlds there) ∙ beq→eq r.world_id world_id mine in
                let one : r ≡ w =
                  some-injective (sym there ∙ ap (λ k. world_at k s.worlds) same ∙ found) in
                rw there (
                  simp mine (
                    subst (λ (x : WorldRow). Follows (some x) (some (moved_row v now x))) (sym one)
                      (intent ∷ [], moves_row w state at now intent v event h, (unforced, tt))))
            | inr other ↦ rw there (simp other (Follows-refl (some r)))
          ]
        ])

  by_transition :
      (w : WorldRow) (n : ℕ) (r : Result InvalidWorldTransition (WorldInstance × WorldStateChanged))
      → world_at world_id s.worlds ≡ some w
      → transition_world (instance_of w) state (host.clock n) intent ≡ r
      → Steps s
          ((lift (or_conflict r) >>= λ moved.
              ask host.clock >>= λ now. modify (write_transition world_id moved now intent))
            (record s { step = suc n })).1
  unfolding ◌>>=◌ lift ask modify write_transition
  by_transition w n (err e) found h = world_step _ _ refl (λ j. Follows-refl (world_at j s.worlds))
  by_transition w n (ok (v, event)) found h =
      world_step _ _ refl (λ j. written j w _ _ v event found h)

  by_instance :
      (w : WorldRow) (r : Result DomainInvariantError WorldInstance)
      → world_at world_id s.worlds ≡ some w
      → make_world (instance_of w) ≡ r
      → Steps s
          ((lift (or_invalid r) >>= λ before. ask host.clock >>= λ at.
              lift (or_conflict (transition_world before state at intent)) >>= λ moved.
              ask host.clock >>= λ now. modify (write_transition world_id moved now intent))
            s).1
  unfolding ◌>>=◌ lift ask
  by_instance w (err e) found h = Steps-refl s
  by_instance w (ok v) found h =
      subst
        (λ (x : WorldInstance).
          Steps s
            ((lift (or_conflict (transition_world x state (host.clock s.step) intent)) >>= λ moved.
                ask host.clock >>= λ now. modify (write_transition world_id moved now intent))
              (record s { step = suc s.step })).1)
        (sym (make_world-IsValid (instance_of w) v h).0)
        (by_transition w s.step (transition_world (instance_of w) state (host.clock s.step) intent)
          found refl)

  by_row :
      (o : Option WorldRow)
      → world_at world_id s.worlds ≡ o
      → Steps s
          ((or_raise o world_not_found >>= λ row.
              lift (or_invalid (make_world (instance_of row))) >>= λ before.
              ask host.clock >>= λ at.
              lift (or_conflict (transition_world before state at intent)) >>= λ moved.
              ask host.clock >>= λ now. modify (write_transition world_id moved now intent))
            s).1
  unfolding ◌>>=◌ or_raise pure raise
  by_row none found = Steps-refl s
  by_row (some w) found = by_instance w (make_world (instance_of w)) found refl

  pub set_world_state-Steps : Steps s (set_world_state host world_id state intent s).1
  unfolding set_world_state world ◌>>=◌ gets
  set_world_state-Steps = by_row (world_at world_id s.worlds) refl
