-- ===== src/Worlds/Ends.antt =====
-- The methods of app/services/worlds.py end the operation that they are given.
use mcmanager.Worlds.Stable.{Present, HasStatus, HasEnded, Present-Steps, stable-IsKept}
use mcmanager.Common.{
  String, string_eq, Bool, true, false, some, ◌≡◌, refl, sym, ap, ◌∙◌, inl, inr, Bool-cases,
  Option-cases, Result, subst,
}
use mcmanager.Domain.Values.{WorldState, OperationStatus, EndReason}
use mcmanager.Operations.Rows.{Operation, terminal, row_at}
use mcmanager.Operations.Policy.{OperationError}
use mcmanager.Operations.Engine.{Engine}
use mcmanager.Operations.Milestones.{Milestone, transition, transition_row, persisted}
use mcmanager.Operations.Presence.{there, transition_ends, transition_refused}
use mcmanager.Worlds.Store.{Services, Host}
use mcmanager.Worlds.Exec.{Raised, Exec, lifecycle, message_of, is_lifecycle}
use mcmanager.Worlds.Exec.Keeps.{Keeps}
use mcmanager.Worlds.Exec.Leads.{
  Leads, Outcome, Leads-bind, Leads-catch, Leads-Keeps, Leads-pure, Leads-raise, Leads-if,
  Leads-weaken,
}
use mcmanager.Worlds.State.{fail_operation, transition_operation, engine_result}
use mcmanager.Worlds.Start.{start_body, start_broken, start_failed, start_claimed}
use mcmanager.Worlds.Kept.{IsKept, world-Keeps, fail_operation-Keeps}
use mcmanager.Worlds.Kept.Start.{precheck-Keeps, admitted-Keeps, launched-Keeps}
use mcmanager.Worlds.Kept.Readiness.{await_readiness-Keeps}
use mcmanager.Worlds.Stop.{ended_badly, stop_body, kill_body, stop_claimed, kill_claimed}
use mcmanager.Worlds.Kept.Stop.{
  attempt_graceful_stop-Keeps, resolve_handle-Keeps, kill_process-Keeps,
}

false-ne-true : ◌≡◌ {A = Bool} false true → ⊥
false-ne-true h = cc h

pub kept_completed : persisted OperationStatus.completed ≡ true
unfolding mcmanager.Domain.Values.OperationStatus-discrete
kept_completed = refl

kept_failed : persisted OperationStatus.failed ≡ true
unfolding mcmanager.Domain.Values.OperationStatus-discrete
kept_failed = refl

module _ (host : Host) (j : String) where
  pub present : IsKept host (Present j)
  present = stable-IsKept host (Present j) (Present-Steps j)

  by_row :
      (status : OperationStatus) (m : Milestone) (s : Services) (row : Operation)
      → persisted status ≡ true
      → row_at j s.engine.operations ≡ some row
      → Outcome
          (λ (u : Operation). HasStatus j status)
          (HasEnded j)
          (transition_operation host j status m s)
  unfolding transition_operation transition transition_row
  by_row status m s row kept found = elim (Bool-cases (terminal row.status)) [
    | inl over ↦
        subst
          (λ (r : Result OperationError (Engine × Operation)).
            Outcome (λ (u : Operation). HasStatus j status) (HasEnded j) (engine_result host r s))
          (sym (
            transition_refused j status m (host.identifier s.step) (host.clock s.step) s.engine row
              found over))
          (row, found, over)
    | inr going ↦
        let (t, u, moved, there_now, is) =
          transition_ends j status m (host.identifier s.step) (host.clock s.step) s.engine row kept
            found going in
        subst
          (λ (r : Result OperationError (Engine × Operation)).
            Outcome (λ (u : Operation). HasStatus j status) (HasEnded j) (engine_result host r s))
          (sym moved) (u, there_now, is)
  ]

  -- a transition to a status that is written gives the operation this status; one that raises has found it ended
  pub gives :
      (status : OperationStatus) (m : Milestone)
      → persisted status ≡ true
      → Leads
          (Present j)
          (transition_operation host j status m)
          (λ u. HasStatus j status)
          (HasEnded j)
  gives status m kept = record {
    at = λ s h. elim (Option-cases (row_at j s.engine.operations)) [
      | inl missing ↦ absurd (false-ne-true (sym (ap there missing) ∙ h))
      | inr (row, found) ↦ by_row status m s row kept found
    ];
  }

  -- the last step of a body that returns
  completes :
      (m : Milestone)
      → Leads
          (Present j)
          (transition_operation host j OperationStatus.completed m)
          (λ u. HasStatus j OperationStatus.completed)
          (Present j)
  completes m =
      Leads-weaken _ (gives OperationStatus.completed m kept_completed) (λ s h. h) (λ u s h. h)
        (λ s (r, found, over). ap there found)

  has_ended :
      (m : Exec String)
      → Leads (Present j) m (λ id. HasStatus j OperationStatus.completed) (Present j)
      → Leads (Present j) m (λ id. HasEnded j) (Present j)
  has_ended m l =
      Leads-weaken m l (λ s h. h) (λ id s (r, found, is). (r, found, ap terminal is)) (λ s h. h)

  unmoved :
      {A : Type 0} (m : Exec A)
      → Keeps (Present j) m
      → Leads (Present j) m (λ a. Present j) (Present j)
  unmoved m k = Leads-Keeps m k

  pub start_body-completed :
      (world_id : String)
      → Leads
          (Present j)
          (start_body host world_id j)
          (λ id. HasStatus j OperationStatus.completed)
          (Present j)
  unfolding start_body
  start_body-completed world_id =
      Leads-bind _ _ (unmoved _ (admitted-Keeps host _ present world_id j)) (λ checked.
        Leads-bind _ _ (unmoved _ (launched-Keeps host _ present world_id j checked.0 checked.1))
          (λ process.
            Leads-bind _ _
              (unmoved _ (
                await_readiness-Keeps host _ present.timeless checked.0 process.0 process.2
                  process.3))
              (λ level.
                Leads-bind _ _ (unmoved _ (present.states world_id WorldState.running))
                  (λ _. Leads-bind _ _ (completes _) (λ _. Leads-pure process.1 (λ s h. h))))))

  start_broken-HasEnded :
      (world_id : String) (e : Raised)
      → Leads (Present j) (start_broken host world_id j e) (λ id. HasEnded j) (Present j)
  unfolding start_broken
  start_broken-HasEnded world_id e =
      Leads-if (is_lifecycle e) _ _ (λ _. Leads-raise e (λ s h. h))
        (λ _. Leads-bind _ _ (unmoved _ (fail_operation-Keeps host _ present j _ _)) (λ _.
          Leads-bind _ _ (unmoved _ (present.states world_id WorldState.error))
            (λ _. Leads-raise (lifecycle (message_of e)) (λ s h. h))))

  start_failed-HasEnded :
      (world_id : String) (e : Raised)
      → Leads (Present j) (start_failed host world_id j e) (λ id. HasEnded j) (Present j)
  unfolding start_failed
  start_failed-HasEnded world_id Raised.start_timeout =
      Leads-bind _ _ (unmoved _ (present.closes world_id EndReason.crashed)) (λ _.
        Leads-bind _ _ (unmoved _ (present.states world_id WorldState.error)) (λ _.
          Leads-bind _ _ (unmoved _ (present.moves j _ _))
            (λ _. Leads-raise Raised.start_timeout (λ s h. h))))
  start_failed-HasEnded world_id e = start_broken-HasEnded world_id e

  pub start_claimed-HasEnded :
      (world_id : String)
      → Leads (Present j) (start_claimed host world_id j) (λ id. HasEnded j) (Present j)
  unfolding start_claimed
  start_claimed-HasEnded world_id =
      Leads-bind _ _ (unmoved _ (precheck-Keeps host _ present world_id)) (λ _.
        Leads-catch _ _ (has_ended _ (start_body-completed world_id))
          (λ e. start_failed-HasEnded world_id e))

  -- an operation that is failed, or that refuses to be, has ended
  pub ended_badly-HasEnded :
      {Q : String → Services → Type 0} (code : String) (e : Raised)
      → Leads (Present j) (ended_badly host j code e) Q (HasEnded j)
  unfolding ended_badly fail_operation
  ended_badly-HasEnded code e =
      Leads-bind _ _
        (Leads-weaken _ (gives OperationStatus.failed _ kept_failed) (λ s h. h)
          (λ u s (r, found, is). (r, found, ap terminal is)) (λ s h. h))
        (λ u. Leads-raise (lifecycle (message_of e)) (λ s h. h))

  fails_after :
      (code : String) (e : Raised)
      → Leads (Present j) (ended_badly host j code e) (λ id. HasEnded j) (Present j)
  fails_after code e =
      Leads-weaken _ (ended_badly-HasEnded code e) (λ s h. h) (λ id s h. h)
        (λ s (r, found, over). ap there found)

  pub stop_body-completed :
      (world_id : String)
      → Leads
          (Present j)
          (stop_body host world_id j)
          (λ id. HasStatus j OperationStatus.completed)
          (Present j)
  unfolding stop_body
  stop_body-completed world_id = Leads-bind _ _ (unmoved _ (present.moves j _ _)) (λ _.
      Leads-bind _ _ (unmoved _ (present.states world_id WorldState.stopping)) (λ _.
        Leads-bind _ _ (unmoved _ (attempt_graceful_stop-Keeps host _ present world_id)) (λ closed.
          Leads-bind _ _ (unmoved _ (present.closes world_id _)) (λ _.
            Leads-bind _ _ (unmoved _ (present.states world_id WorldState.off))
              (λ _. Leads-bind _ _ (completes _) (λ _. Leads-pure j (λ s h. h)))))))

  pub kill_body-completed :
      (world_id : String)
      → Leads
          (Present j)
          (kill_body host world_id j)
          (λ id. HasStatus j OperationStatus.completed)
          (Present j)
  unfolding kill_body
  kill_body-completed world_id = Leads-bind _ _ (unmoved _ (present.moves j _ _)) (λ _.
      Leads-bind _ _ (unmoved _ (present.states world_id WorldState.stopping)) (λ _.
        Leads-bind _ _ (unmoved _ (resolve_handle-Keeps host _ present world_id)) (λ handle.
          Leads-bind _ _ (unmoved _ (kill_process-Keeps host _ present handle)) (λ _.
            Leads-bind _ _ (unmoved _ (present.closes world_id EndReason.forced_stop)) (λ _.
              Leads-bind _ _ (unmoved _ (present.states world_id WorldState.off))
                (λ _. Leads-bind _ _ (completes _) (λ _. Leads-pure j (λ s h. h))))))))

  pub stop_claimed-HasEnded :
      (world_id : String)
      → Leads (Present j) (stop_claimed host world_id j) (λ id. HasEnded j) (Present j)
  unfolding stop_claimed
  stop_claimed-HasEnded world_id =
      Leads-bind _ _ (unmoved _ (world-Keeps host _ present world_id)) (λ _.
        Leads-catch _ _ (has_ended _ (stop_body-completed world_id))
          (λ e. fails_after "STOP_ERROR" e))

  pub kill_claimed-HasEnded :
      (world_id : String)
      → Leads (Present j) (kill_claimed host world_id j) (λ id. HasEnded j) (Present j)
  unfolding kill_claimed
  kill_claimed-HasEnded world_id =
      Leads-bind _ _ (unmoved _ (world-Keeps host _ present world_id)) (λ _.
        Leads-catch _ _ (has_ended _ (kill_body-completed world_id))
          (λ e. fails_after "KILL_ERROR" e))
