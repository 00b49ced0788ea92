-- ===== src/Worlds/Outcomes.antt =====
-- What `stop` and `kill` of app/services/worlds.py have done when they return.
use mcmanager.Common.{
  ℕ, String, string_eq, false, Option, none, some, nat_eq, option_eq, ◌≡◌, refl, sym, ◌∙◌, any,
  beq_refl, Result, ok, err,
}
use mcmanager.Domain.Values.{WorldState}
use mcmanager.Domain.World.{WorldInstance, WorldStateChanged}
use mcmanager.Domain.Lifecycle.{WorldTransitionIntent, InvalidWorldTransition, transition_world}
use mcmanager.Domain.Lifecycle.Exact.{transition_world-Transitioned}
use mcmanager.Worlds.Store.{WorldRow, Services, Host}
use mcmanager.Worlds.Exec.{Raised, Exec, world_not_found, ◌>>=◌, modify, ask, lift, or_raise}
use mcmanager.Worlds.Exec.Leads.{
  Leads, Leads-bind, Leads-Keeps, Leads-pure, Leads-raise, Leads-gets,
}
use mcmanager.Worlds.State.{
  world_at, world, or_conflict, moved_row, set_world_state, write_transition, ends_session,
}
use mcmanager.Worlds.Steps.{world_at-update_world, world_at-id}

-- the world has a state
abbrev pub InState : String → WorldState → Services → Type 0
InState world_id state s =
    (row : WorldRow) × (world_at world_id s.worlds ≡ some row) × (row.state ≡ state)

-- the world has no open session
abbrev pub AllClosed : Host → String → Services → Type 0
AllClosed host world_id s = any (ends_session host world_id) s.sessions ≡ false

abbrev pub Anywhere : Services → Type 0
Anywhere s = Unit

-- a computed result that the rest may count on
pub Leads-lift :
    {A B : Type 0} {P : Services → Type 0} {R : B → Services → Type 0} {E : Services → Type 0}
    (r : Result Raised A) (f : A → Exec B)
    → ((s : Services) → P s → E s)
    → ((a : A) → r ≡ ok a → Leads P (f a) R E)
    → Leads P (lift r >>= f) R E
unfolding lift ◌>>=◌
Leads-lift (ok a) f e k = record { at = λ s h. (k a refl).at s h }
Leads-lift (err x) f e k = record { at = e }

returned_move :
    (r : Result InvalidWorldTransition (WorldInstance × WorldStateChanged))
    (moved : WorldInstance × WorldStateChanged)
    → or_conflict r ≡ ok moved
    → r ≡ ok moved
returned_move (ok x) moved h = cc h
returned_move (err e) moved h = cc h

pub anywhere : {A : Type 0} (m : Exec A) → Leads Anywhere m (λ a. Anywhere) Anywhere
anywhere m = Leads-Keeps m (record { at = λ s h. tt })

module _ (host : Host) (world_id : String) where
  abbrev pub Found : WorldRow → Services → Type 0
  Found row s = world_at world_id s.worlds ≡ some row

  or_raise-Found :
      (o : Option WorldRow)
      → Leads
          (λ s. Unit {0} × (o ≡ world_at world_id s.worlds))
          (or_raise o world_not_found)
          Found
          Anywhere
  unfolding or_raise
  or_raise-Found none = Leads-raise _ (λ s h. tt)
  or_raise-Found (some row) = Leads-pure row (λ s h. sym h.1)

  pub world-Found : Leads Anywhere (world world_id) Found Anywhere
  unfolding world
  world-Found =
      Leads-bind _ _ (Leads-gets (λ s. world_at world_id s.worlds)) (λ o. or_raise-Found o)

  Found-ask :
      {A : Type 0} (row : WorldRow) (f : ℕ → A)
      → Leads (Found row) (ask f) (λ a. Found row) Anywhere
  unfolding ask
  Found-ask row f = record { at = λ s h. h }

  written_state :
      (row : WorldRow) (state : WorldState) (before : WorldInstance) (at now : ℕ)
      (intent : WorldTransitionIntent) (moved : WorldInstance × WorldStateChanged)
      → or_conflict (transition_world before state at intent) ≡ ok moved
      → Leads
          (Found row)
          (modify (write_transition world_id moved now intent))
          (λ _. InState world_id state)
          Anywhere
  unfolding modify write_transition
  written_state row state before at now intent moved h = record {
    at = λ s found. (
      moved_row moved.0 now row,
      world_at-update_world world_id world_id (moved_row moved.0 now) (λ r. refl) s.worlds
          ∙ rw found (rw (world_at-id world_id s.worlds found) (rw (beq_refl world_id) refl)),
      (transition_world-Transitioned before state at intent moved.0 moved.1
          (returned_move _ moved h)).arrived,
    );
  }

  -- a transition of a world that returns has put the world in this state
  pub set_world_state-InState :
      (state : WorldState) (intent : WorldTransitionIntent)
      → Leads Anywhere
          (set_world_state host world_id state intent)
          (λ _. InState world_id state)
          Anywhere
  unfolding set_world_state
  set_world_state-InState state intent = Leads-bind _ _ world-Found (λ row.
      Leads-lift _ _ (λ s h. tt)
        (λ before _. Leads-bind _ _ (Found-ask row host.clock) (λ at.
          Leads-lift _ _ (λ s h. tt)
            (λ moved done.
              Leads-bind _ _ (Found-ask row host.clock)
                (λ now. written_state row state before at now intent moved done)))))
