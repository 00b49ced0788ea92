-- ===== src/Worlds/Stable.antt =====
-- What the methods of app/services/worlds.py leave true of an operation.
use mcmanager.Common.{String, string_eq, true, some, ◌≡◌, sym, ap, ◌∙◌, subst}
use mcmanager.Domain.Values.{OperationStatus}
use mcmanager.Operations.Rows.{Operation, terminal, row_at}
use mcmanager.Operations.Engine.{Engine}
use mcmanager.Operations.Presence.{there, run-there}
use mcmanager.Operations.Terminal.{terminal_forever}
use mcmanager.Worlds.Store.{Services, Host}
use mcmanager.Worlds.Steps.{Steps, Steps-refl}
use mcmanager.Worlds.Kept.{IsKept}
use mcmanager.Worlds.Refines.{Steps-IsKept}

-- the operation is in the table
abbrev pub Present : String → Services → Type 0
Present j s = there (row_at j s.engine.operations) ≡ true

-- the operation has a status
abbrev pub HasStatus : String → OperationStatus → Services → Type 0
HasStatus j status s =
    (r : Operation) × (row_at j s.engine.operations ≡ some r) × (r.status ≡ status)

-- the operation has ended
abbrev pub HasEnded : String → Services → Type 0
HasEnded j s =
    (r : Operation) × (row_at j s.engine.operations ≡ some r) × (terminal r.status ≡ true)

pub Present-Steps : (j : String) (s t : Services) → Steps s t → Present j s → Present j t
Present-Steps j s t steps h =
    subst (λ (e : Engine). there (row_at j e.operations) ≡ true) (sym steps.ran)
      (run-there j steps.calls s.engine h)

pub HasEnded-Steps : (j : String) (s t : Services) → Steps s t → HasEnded j s → HasEnded j t
HasEnded-Steps j s t steps (r, found, ended) = (
  r,
  ap (λ (e : Engine). row_at j e.operations) steps.ran
      ∙ terminal_forever j r steps.calls s.engine found ended,
  ended,
)

-- what the steps leave true, every method keeps
pub stable-IsKept :
    (host : Host) (P : Services → Type 0)
    → ((s t : Services) → Steps s t → P s → P t)
    → IsKept host P
stable-IsKept host P stable = record {
  timeless = λ s step slept p q h.
      stable s _ ((Steps-IsKept host s).timeless s step slept p q (Steps-refl s)) h;
  states = λ world_id state. record {
    at = λ s h. stable s _ (((Steps-IsKept host s).states world_id state).at s (Steps-refl s)) h;
  };
  accepts = λ world_id state. record {
    at = λ s h. stable s _ (((Steps-IsKept host s).accepts world_id state).at s (Steps-refl s)) h;
  };
  audits = λ world_id by. record {
    at = λ s h. stable s _ (((Steps-IsKept host s).audits world_id by).at s (Steps-refl s)) h;
  };
  closes = λ world_id reason. record {
    at = λ s h. stable s _ (((Steps-IsKept host s).closes world_id reason).at s (Steps-refl s)) h;
  };
  opens = λ row handle argv port password id. record {
    at = λ s h.
        stable s _
          (((Steps-IsKept host s).opens row handle argv port password id).at s (Steps-refl s)) h;
  };
  creates = λ request allow. record {
    at = λ s h. stable s _ (((Steps-IsKept host s).creates request allow).at s (Steps-refl s)) h;
  };
  moves = λ op_id status m. record {
    at = λ s h. stable s _ (((Steps-IsKept host s).moves op_id status m).at s (Steps-refl s)) h;
  };
  claims = λ op_id. record {
    at = λ s h. stable s _ (((Steps-IsKept host s).claims op_id).at s (Steps-refl s)) h;
  };
}
