-- ===== src/Worlds/Dispatched.antt =====
-- The dispatcher of app/services/worlds.py ends what it claims.
use mcmanager.Common.{
  ◌==◌, ℕ, String, string_eq, Bool, true, false, Option, none, some, List, [], ◌∷◌, ◌++◌, ◌≡◌, refl,
  sym, ap, ◌∙◌, if◌then◌else◌, All, All-append, All-map, Result, ok, err, subst,
}
use mcmanager.Domain.Values.{OperationType, OperationStatus, operation_status_eq, queued}
use mcmanager.Operations.Rows.{Operation, terminal, row_at}
use mcmanager.Operations.Policy.{OperationError}
use mcmanager.Operations.Engine.{Engine, get}
use mcmanager.Operations.Milestones.{Milestone, plain, claim_queued, start_row, persisted}
use mcmanager.Operations.ClaimEffects.{claim_queued-Claimed}
use mcmanager.Operations.Table.{row_at-id, row_at-update_at}
use mcmanager.Operations.Presence.{there, there-changed, transition_ends}
use mcmanager.Worlds.Store.{Services, Host}
use mcmanager.Worlds.Exec.{Raised, pure, message_of}
use mcmanager.Worlds.Exec.Leads.{
  Leads, Outcome, Leads-bind, Leads-catch, Leads-pure, Leads-raise, Leads-gets, Leads-if,
  Leads-weaken, Leads-both,
}
use mcmanager.Worlds.State.{transition_operation, claim_operation, engine_result}
use mcmanager.Worlds.Dispatch.{
  of_type, of_world, execute, fail_current, executed_badly, run_claimed, claimed_one, dispatch_one,
  busy, turn, dispatch_each, dispatch_lifecycle_operations, of_seen, see,
}
use mcmanager.Worlds.Steps.{Steps}
use mcmanager.Worlds.Kept.Dispatch.{dispatch_each-Keeps}
use mcmanager.Worlds.Ends.{start_claimed-HasEnded, stop_claimed-HasEnded, kill_claimed-HasEnded}
use mcmanager.Worlds.Stable.{Present, HasEnded, HasEnded-Steps, stable-IsKept}

abbrev Never : Services → Type 0
Never s = ⊥

abbrev Anywhere : Services → Type 0
Anywhere s = Unit

abbrev pub AllEnded : List String → Services → Type 0
AllEnded ids s = All (λ j. HasEnded j s) ids

AllEnded-Steps : (ids : List String) (s t : Services) → Steps s t → AllEnded ids s → AllEnded ids t
AllEnded-Steps ids s t steps h = All-map (λ j k. HasEnded-Steps j s t steps k) ids h

false-ne-true : ◌≡◌ {A = Bool} false true → ⊥
false-ne-true h = cc h

failed_persisted : persisted OperationStatus.failed ≡ true
unfolding mcmanager.Domain.Values.OperationStatus-discrete
failed_persisted = refl

module _ (host : Host) where
  module _ (j : String) where
    of_type-HasEnded :
        (t : OperationType) (world_id : String)
        → Leads (Present j) (of_type host t world_id j) (λ id. HasEnded j) (Present j)
    unfolding of_type
    of_type-HasEnded OperationType.start world_id = start_claimed-HasEnded host j world_id
    of_type-HasEnded OperationType.stop world_id = stop_claimed-HasEnded host j world_id
    of_type-HasEnded _ world_id = kill_claimed-HasEnded host j world_id

    -- a row that has not ended is failed
    fails_going :
        (row : Operation) (m : Milestone) (s : Services)
        → row_at j s.engine.operations ≡ some row
        → terminal row.status ≡ false
        → Outcome
            (λ (u : Operation). HasEnded j)
            Never
            (transition_operation host j OperationStatus.failed m s)
    unfolding transition_operation
    fails_going row m s found going =
        let (t, u, moved, there_now, is) =
          transition_ends j OperationStatus.failed m (host.identifier s.step) (host.clock s.step)
            s.engine row failed_persisted found going in
        subst
          (λ (r : Result OperationError (Engine × Operation)).
            Outcome (λ (u : Operation). HasEnded j) Never (engine_result host r s))
          (sym moved) (u, there_now, ap terminal is)

    fail_current-HasEnded :
        (o : Option Operation) (e : Raised)
        → Leads
            (λ s. Present j s × (o ≡ get s.engine j))
            (fail_current host o e)
            (λ _. HasEnded j)
            Never
    unfolding fail_current get
    fail_current-HasEnded none e =
        Leads-pure tt (λ s (h, missing). absurd (false-ne-true (ap there missing ∙ h)))
    fail_current-HasEnded (some row) e =
        Leads-if (terminal row.status) _ _
          (λ over. Leads-pure tt (λ s (h, found). (row, sym found, over)))
          (λ going.
            Leads-bind _ _
              (record {
                at = λ s (h, found).
                    subst
                      (λ (i : String).
                        Outcome (λ (u : Operation). HasEnded j) Never
                          (transition_operation host i OperationStatus.failed
                            (record plain {
                              error_code = some "OP_EXECUTION_FAILED";
                              message = some (message_of e);
                            })
                            s))
                      (sym (row_at-id j s.engine.operations (sym found)))
                      (fails_going row _ s (sym found) going);
              })
              (λ _. Leads-pure tt (λ s h. h)))

    executed_badly-HasEnded :
        (e : Raised) → Leads (Present j) (executed_badly host j e) (λ _. HasEnded j) Never
    unfolding executed_badly
    executed_badly-HasEnded e =
        Leads-bind _ _ (Leads-gets (λ s. get s.engine j)) (λ o. fail_current-HasEnded o e)

  of_world-HasEnded :
      (row : Operation) (w : Option String)
      → Leads
          (Present row.op_id)
          (of_world host row w)
          (λ id. HasEnded row.op_id)
          (Present row.op_id)
  unfolding of_world
  of_world-HasEnded row none = Leads-raise _ (λ s h. h)
  of_world-HasEnded row (some w) = of_type-HasEnded row.op_id row.op_type w

  run_claimed-HasEnded :
      (row : Operation)
      → Leads (Present row.op_id) (run_claimed host row) (λ _. HasEnded row.op_id) Never
  unfolding run_claimed execute
  run_claimed-HasEnded row =
      Leads-catch _ _
        (Leads-bind _ _ (of_world-HasEnded row row.world_id) (λ _. Leads-pure tt (λ s h. h)))
        (λ e. executed_badly-HasEnded row.op_id e)

  abbrev ClaimedRow : Option Operation → Services → Type 0
  ClaimedRow none s = Unit
  ClaimedRow (some row) s = Present row.op_id s

  claimed_present :
      (op_id : String) (now : ℕ) (s t : Engine) (row : Operation)
      → claim_queued op_id now s ≡ (t, some row)
      → there (row_at row.op_id t.operations) ≡ true
  claimed_present op_id now s t row h =
      let k = claim_queued-Claimed op_id now s {t = t} h in
      let id : row.op_id ≡ op_id =
        ap (λ (x : Operation). x.op_id) k.started ∙ row_at-id op_id s.operations k.found in
      ap (λ i. there (row_at i t.operations)) id
      ∙ ap (λ rows. there (row_at op_id rows)) k.operations
      ∙ ap there (
          row_at-update_at op_id (λ x. x.status == queued) (start_row now) (λ x _. refl) op_id
            s.operations)
      ∙ there-changed op_id (λ x. x.status == queued) (start_row now) (row_at op_id s.operations)
      ∙ ap there k.found

  claim-ClaimedRow : (op_id : String) → Leads Anywhere (claim_operation host op_id) ClaimedRow Never
  unfolding claim_operation
  claim-ClaimedRow op_id = record {
    at = λ s h. by_claim s (claim_queued op_id (host.clock s.step) s.engine) refl;
  }
    where
      by_claim :
          (s : Services) (p : Engine × Option Operation)
          → claim_queued op_id (host.clock s.step) s.engine ≡ p
          → Outcome ClaimedRow Never (engine_result host (ok p) s)
      by_claim s (t, none) h = tt
      by_claim s (t, some row) h = claimed_present op_id (host.clock s.step) s.engine t row h

  claimed_one-AllEnded :
      (o : Option Operation) → Leads (ClaimedRow o) (claimed_one host o) AllEnded Never
  unfolding claimed_one
  claimed_one-AllEnded none = Leads-pure [] (λ s h. tt)
  claimed_one-AllEnded (some row) =
      Leads-bind _ _ (run_claimed-HasEnded row) (λ _. Leads-pure _ (λ s h. (h, tt)))

  busy-returns :
      (w : Option String) (op_id : String)
      → Leads Anywhere (busy host w op_id) (λ _. Anywhere) Never
  unfolding busy
  busy-returns none op_id = Leads-pure false (λ s h. h)
  busy-returns (some w) op_id = Leads-weaken _ (Leads-gets _) (λ s h. h) (λ b s h. tt) (λ s h. h)

  waits :
      (op_id : String) (b : Bool) (w : Option String)
      → Leads Anywhere (if b then pure true else busy host w op_id) (λ _. Anywhere) Never
  waits op_id b w = Leads-if b _ _ (λ _. Leads-pure true (λ s h. h)) (λ _. busy-returns w op_id)

  turn-AllEnded :
      (seen : Bool) (row : Operation) → Leads Anywhere (turn host seen row) AllEnded Never
  unfolding turn dispatch_one
  turn-AllEnded seen row =
      Leads-bind {Q = λ _. Anywhere} _ _ (waits row.op_id seen row.world_id) (λ b.
        Leads-if b _ _ (λ _. Leads-pure [] (λ s h. tt))
          (λ _. Leads-bind _ _ (claim-ClaimedRow row.op_id) (λ o. claimed_one-AllEnded o)))

  dispatch_each-AllEnded :
      (seen : List String) (rows : List Operation)
      → Leads Anywhere (dispatch_each host seen rows) AllEnded Never
  unfolding dispatch_each
  dispatch_each-AllEnded seen [] = Leads-pure [] (λ s h. tt)
  dispatch_each-AllEnded seen (row ∷ rows) =
      let v = see host row.world_id seen in
      Leads-bind _ _ (turn-AllEnded (of_seen host row.world_id seen) row) (λ first.
        Leads-bind _ _
          (Leads-both {P = AllEnded first} _ (dispatch_each-AllEnded v rows) (
            dispatch_each-Keeps host (AllEnded first)
              (stable-IsKept host (AllEnded first) (AllEnded-Steps first)) v rows))
          (λ rest.
            Leads-pure (first ++ rest) (λ s (p, q). All-append (λ j. HasEnded j s) first rest p q)))

  AllEnded-dispatch : Leads Anywhere (dispatch_lifecycle_operations host) AllEnded Never
  unfolding dispatch_lifecycle_operations
  AllEnded-dispatch =
      Leads-bind {Q = λ _. Anywhere} _ _
        (Leads-weaken _ (Leads-gets _) (λ s h. h) (λ b s h. tt) (λ s h. h))
        (λ rows. dispatch_each-AllEnded [] rows)

  returned :
      (r : Result Raised (List String) × Services)
      → Outcome AllEnded Never r
      → (ids : List String) × (r.0 ≡ ok ids) × AllEnded ids r.1
  returned (ok ids, s) h = (ids, refl, h)
  returned (err e, s) h = absurd h

  -- Whatever the process, the console and the other ports answer, the dispatcher returns, and every
  -- operation that it says it has dispatched has ended: none of them keeps the lock of its world.
  pub dispatched_end :
      (s : Services)
      → (ids : List String) × ((dispatch_lifecycle_operations host s).0 ≡ ok ids)
        × AllEnded ids (dispatch_lifecycle_operations host s).1
  dispatched_end s = returned (dispatch_lifecycle_operations host s) (AllEnded-dispatch.at s tt)
