-- ===== src/Worlds/Stuck.antt =====
-- No request to the driver leaves a crash or an error (app/services/worlds.py).
use mcmanager.Common.{
  String, Bool, true, false, Option, none, some, List, [], ◌∷◌, ◌≡◌, ◌≢◌, refl, sym, ap, ◌∙◌,
  contains, All, ◌⊎◌, inl, inr, subst, ne→beq,
}
use mcmanager.Domain.Values.{WorldState, WorldState-discrete}
use mcmanager.Domain.Lifecycle.{
  WorldTransitionIntent, intent_eq, ordinary, eula_acceptance, crash_acknowledgement,
  error_acknowledgement, guarded_exit_intents,
}
use mcmanager.Domain.Lifecycle.Traces.{acknowledged}
use mcmanager.Worlds.Store.{WorldRow, Services, Host}
use mcmanager.Worlds.State.{world_at}
use mcmanager.Worlds.Steps.{Unforced, Follows}
use mcmanager.Worlds.Requests.{Request, serve, serve-Steps}

-- the states that only an acknowledgement leaves
abbrev pub Failed : WorldState → Type 0
Failed state = (state ≡ WorldState.crashed) ⊎ (state ≡ WorldState.error)

false-ne-true : ◌≡◌ {A = Bool} false true → ⊥
false-ne-true h = cc h

later :
    (i g : WorldTransitionIntent) (is : List WorldTransitionIntent)
    → i ≢ g
    → contains (i ∷ is) g ≡ true
    → contains is g ≡ true
later i g is apart h = rw (ne→beq i g apart) at h

-- an intent that acknowledges nothing
abbrev silent : WorldTransitionIntent → Bool
silent ordinary = true
silent eula_acceptance = true
silent _ = false

differs :
    (i g : WorldTransitionIntent)
    → (g ≡ crash_acknowledgement) ⊎ (g ≡ error_acknowledgement)
    → silent i ≡ true
    → i ≢ g
differs i g (inl q) h same = false-ne-true (sym (ap silent (same ∙ q)) ∙ h)
differs i g (inr q) h same = false-ne-true (sym (ap silent (same ∙ q)) ∙ h)

unforced :
    (is : List WorldTransitionIntent) (g : WorldTransitionIntent)
    → (g ≡ crash_acknowledgement) ⊎ (g ≡ error_acknowledgement)
    → All Unforced is
    → contains is g ≡ true
    → ⊥
unforced [] g k all h = false-ne-true h
unforced (ordinary ∷ is) g k all h =
    unforced is g k all.1 (later ordinary g is (λ q. differs ordinary g k refl q) h)
unforced (eula_acceptance ∷ is) g k all h =
    unforced is g k all.1 (later eula_acceptance g is (λ q. differs eula_acceptance g k refl q) h)
unforced (crash_acknowledgement ∷ is) g k all h = absurd all.0
unforced (error_acknowledgement ∷ is) g k all h = absurd all.0

guard_of :
    (state : WorldState)
    → Failed state
    → (g : WorldTransitionIntent) × (guarded_exit_intents state ≡ some g)
      × ((g ≡ crash_acknowledgement) ⊎ (g ≡ error_acknowledgement))
unfolding guarded_exit_intents
guard_of state (inl h) = (crash_acknowledgement, ap guarded_exit_intents h, inl refl)
guard_of state (inr h) = (error_acknowledgement, ap guarded_exit_intents h, inr refl)

stays :
    (w : WorldRow) (o : Option WorldRow)
    → Failed w.state
    → Follows (some w) o
    → (v : WorldRow) × (o ≡ some v) × (v.state ≡ w.state)
stays w none failed follows = absurd follows
stays w (some v) failed (is, reaches, all) =
    let (g, guarded, kind) = guard_of w.state failed in
    (
      v,
      refl,
      elim (WorldState-discrete v.state w.state) [
        | yes same ↦ same
        | no away ↦ absurd (unforced is g kind all (acknowledged reaches guarded away))
      ],
    )

-- A world that has crashed or is in error stays so through any sequence of requests to the driver: none
-- of them is the acknowledgement that the lifecycle asks for.
pub failure_sticks :
    (host : Host) (requests : List Request) (s : Services) (j : String) (w : WorldRow)
    → world_at j s.worlds ≡ some w
    → Failed w.state
    → (v : WorldRow) × (world_at j (serve host requests s).worlds ≡ some v) × (v.state ≡ w.state)
failure_sticks host requests s j w found failed =
    stays w (world_at j (serve host requests s).worlds) failed (
      subst (λ (o : Option WorldRow). Follows o (world_at j (serve host requests s).worlds)) found
        ((serve-Steps host requests s).follows j))
