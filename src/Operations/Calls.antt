-- ===== src/Operations/Calls.antt =====
-- Sequences of calls of the engine (app/services/operations.py), from any number of callers: the
-- store serialises them, so an execution is a list of calls. A call that raises changes nothing.
use mcmanager.Common.{
  ℕ, String, Bool, true, Option, none, some, List, [], ◌∷◌, ◌≡◌, refl, sym, inl, inr, Result, ok,
  err, subst, All,
}
use mcmanager.Domain.Values.{OperationStatus}
use mcmanager.Operations.Rows.{Operation, OperationInput, in_flight}
use mcmanager.Operations.Policy.{OperationError}
use mcmanager.Operations.Engine.{Engine}
use mcmanager.Operations.Methods.{create_with_replay}
use mcmanager.Operations.Milestones.{Milestone, claim_queued, transition, update_progress_in_memory}
use mcmanager.Operations.Effects.{
  SameStore, SameStore-refl, Moved, transition-Moved, progress-SameStore,
}
use mcmanager.Operations.ClaimEffects.{Claimed, claim_queued-Claimed, claim_queued-none}
use mcmanager.Operations.CreateEffects.{Creation, create_with_replay-Creation}

pub data Call : Type 0 where
  create : OperationInput → OperationStatus → Bool → String → ℕ → Call
  claim : String → ℕ → Call
  transit : String → OperationStatus → Milestone → String → ℕ → Call
  progress : String → ℕ → String → ℕ → Call

abbrev pub created_engine : Engine → Result OperationError (Engine × Operation × Bool) → Engine
created_engine s (ok (t, _, _)) = t
created_engine s (err _) = s

abbrev pub moved_engine : Engine → Result OperationError (Engine × Operation) → Engine
moved_engine s (ok (t, _)) = t
moved_engine s (err _) = s

abbrev progressed_engine : Engine → Result OperationError Engine → Engine
progressed_engine s (ok t) = t
progressed_engine s (err _) = s

unfoldable pub perform : Call → Engine → Engine
perform (create request initial allow op_id now) s =
    created_engine s (create_with_replay request initial allow op_id now s)
perform (claim op_id now) s = (claim_queued op_id now s).0
perform (transit op_id status m notification_id now) s =
    moved_engine s (transition op_id status m notification_id now s)
perform (progress op_id pct step now) s =
    progressed_engine s (update_progress_in_memory op_id pct step now s)

unfoldable pub run : List Call → Engine → Engine
unfolding perform
run [] s = s
run (c ∷ calls) s = run calls (perform c s)

-- A caller creates an operation in flight.
abbrev pub Proper : Call → Type 0
Proper (create request initial allow op_id now) = in_flight initial ≡ true
Proper _ = Unit

-- What a call may do to the store.
pub data Change (c : Call) (s t : Engine) : Type 0 where
  quiet : SameStore s t → Change c s t
  inserts :
      (request : OperationInput) (initial : OperationStatus) (allow : Bool) (op_id : String)
      (now : ℕ) (row : Operation)
      → c ≡ create request initial allow op_id now
      → Creation request initial op_id now s t row
      → Change c s t
  claims :
      (op_id : String) (now : ℕ) (claimed : Operation)
      → c ≡ claim op_id now
      → Claimed op_id s t now claimed
      → Change c s t
  moves :
      (op_id : String) (status : OperationStatus) (m : Milestone) (nid : String) (now : ℕ)
      (updated : Operation)
      → c ≡ transit op_id status m nid now
      → Moved op_id status s t now updated
      → Change c s t

create-Change :
    (c : Call) (request : OperationInput) (initial : OperationStatus) (allow : Bool)
    (op_id : String) (now : ℕ) (s : Engine) (r : Result OperationError (Engine × Operation × Bool))
    → c ≡ create request initial allow op_id now
    → create_with_replay request initial allow op_id now s ≡ r
    → Change c s (created_engine s r)
create-Change c request initial allow op_id now s (err e) is h = quiet (SameStore-refl s)
create-Change c request initial allow op_id now s (ok x) is h =
    elim (create_with_replay-Creation request initial allow op_id now s h) [
      | inl (_, same) ↦ quiet (subst (SameStore s) (sym same) (SameStore-refl s))
      | inr (_, creation) ↦ inserts request initial allow op_id now x.1 is creation
    ]

claim-Change :
    (c : Call) (op_id : String) (now : ℕ) (s t : Engine) (o : Option Operation)
    → c ≡ claim op_id now
    → claim_queued op_id now s ≡ (t, o)
    → Change c s t
claim-Change c op_id now s t none is h =
    quiet (subst (SameStore s) (sym (claim_queued-none op_id now s h)) (SameStore-refl s))
claim-Change c op_id now s t (some row) is h =
    claims op_id now row is (claim_queued-Claimed op_id now s h)

transit-Change :
    (c : Call) (op_id : String) (status : OperationStatus) (m : Milestone) (nid : String) (now : ℕ)
    (s : Engine) (r : Result OperationError (Engine × Operation))
    → c ≡ transit op_id status m nid now
    → transition op_id status m nid now s ≡ r
    → Change c s (moved_engine s r)
transit-Change c op_id status m nid now s (err e) is h = quiet (SameStore-refl s)
transit-Change c op_id status m nid now s (ok x) is h =
    moves op_id status m nid now x.1 is (transition-Moved op_id status m nid now s h)

progress-Change :
    (c : Call) (op_id : String) (pct : ℕ) (step : String) (now : ℕ) (s : Engine)
    (r : Result OperationError Engine)
    → update_progress_in_memory op_id pct step now s ≡ r
    → Change c s (progressed_engine s r)
progress-Change c op_id pct step now s (err e) h = quiet (SameStore-refl s)
progress-Change c op_id pct step now s (ok t) h = quiet (progress-SameStore op_id pct step now s h)

pub perform-Change : (c : Call) (s : Engine) → Change c s (perform c s)
unfolding perform
perform-Change (create request initial allow op_id now) s =
    create-Change _ request initial allow op_id now s
      (create_with_replay request initial allow op_id now s) refl refl
perform-Change (claim op_id now) s =
    claim-Change _ op_id now s (claim_queued op_id now s).0 (claim_queued op_id now s).1 refl refl
perform-Change (transit op_id status m nid now) s =
    transit-Change _ op_id status m nid now s (transition op_id status m nid now s) refl refl
perform-Change (progress op_id pct step now) s =
    progress-Change _ op_id pct step now s (update_progress_in_memory op_id pct step now s) refl

-- An invariant that every call keeps holds after every sequence of calls.
pub run-keeps :
    (P : Engine → Type 0)
    → ((c : Call) (s : Engine) → Proper c → P s → P (perform c s))
    → (calls : List Call) (s : Engine) → All Proper calls
    → P s
    → P (run calls s)
unfolding run
run-keeps P keep [] s proper h = h
run-keeps P keep (c ∷ calls) s proper h =
    run-keeps P keep calls (perform c s) proper.1 (keep c s proper.0 h)
