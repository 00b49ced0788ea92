-- ===== src/Sync/Settled.antt =====
-- A transfer that is dispatched ends its operation (app/services/sync.py).
use mcmanager.Common.{
  ℕ, suc, String, string_eq, Bool, true, false, none, some, Result, ◌>>=◌, ◌≡◌, refl, ap, ◌∙◌,
  Result, ok,
}
use mcmanager.Domain.Values.{OperationStatus, running, queued, completed, failed}
use mcmanager.Operations.Rows.{Operation, row_at}
use mcmanager.Operations.Policy.{OperationError}
use mcmanager.Operations.Engine.{Engine}
use mcmanager.Operations.Methods.{create_with_replay}
use mcmanager.Operations.Milestones.{transition, persisted}
use mcmanager.Sync.Rows.{Upload, SyncArtifact, SyncService, SyncError, transient_retries}
use mcmanager.Sync.Dispatch.{
  transfer, final_status, final_milestone, sync_request, run_transfer, after_transfer,
  checked_artifact, resolve_target, dispatch_sync, lift_operation,
}
use mcmanager.Operations.Presence.{transition_ends}
use mcmanager.Sync.Opened.{opened}

final_persisted : (success : Bool) → (persisted (final_status success) ≡ true)
unfolding mcmanager.Domain.Values.OperationStatus-discrete
final_persisted true = refl
final_persisted false = refl

lifted : {A : Type 0} {r : Result OperationError A} {a : A} → r ≡ ok a → lift_operation r ≡ ok a
lifted h = ap lift_operation h

module _ (upload : ℕ → Upload) (starts finishes : ℕ → ℕ) where
  run :
      (artifact : SyncArtifact) (target_id sync_id nid : String) (now : ℕ) (s : SyncService)
      (row : Operation) (t : Engine) (u : Operation)
      → let success = (transfer upload starts finishes sync_id transient_retries 1).success in
        transition row.op_id
            (final_status success)
            (final_milestone success sync_id)
            nid
            (finishes (suc transient_retries))
            s.engine
          ≡ ok (t, u)
        → (v : SyncService) × (run_transfer upload starts finishes sync_id nid now artifact
              target_id s row
            ≡ ok v)
          × (v.engine.operations ≡ t.operations)
  unfolding run_transfer after_transfer
  run artifact target_id sync_id nid now s row t u h =
      let attempts = transfer upload starts finishes sync_id transient_retries 1 in
      (
        after_transfer upload starts finishes sync_id now artifact target_id attempts s row t,
        ap
            (λ (r : Result OperationError (Engine × Operation)).
              lift_operation r >>= λ (x : Engine × Operation). ok (
                after_transfer upload starts finishes sync_id now artifact target_id attempts s row
                  x.0))
            h,
        refl,
      )

  -- A transfer that passes its tests ends its operation: it returns, and the operation is then Completed
  -- if an attempt succeeded and else Failed.
  pub dispatch_settles :
      (artifact_id target_id op_id sync_id notification_id : String) (now : ℕ) (s s₁ : SyncService)
      (artifact : SyncArtifact)
      → checked_artifact now artifact_id s ≡ ok artifact
      → resolve_target target_id s ≡ ok s₁
      → row_at op_id s₁.engine.operations ≡ none
      → (t : SyncService) × (u : Operation) × (dispatch_sync upload starts finishes artifact_id
            target_id op_id sync_id notification_id now s
          ≡ ok t)
        × (row_at op_id t.engine.operations ≡ some u)
        × (u.status
            ≡ final_status (transfer upload starts finishes sync_id transient_retries 1).success)
  unfolding dispatch_sync
  dispatch_settles artifact_id target_id op_id sync_id nid now s s₁ artifact found there fresh =
      let success = (transfer upload starts finishes sync_id transient_retries 1).success in
      let (e₂, row, o) = opened artifact target_id op_id now s₁.engine fresh in
      let (t, u, moved, here, st) =
        transition_ends op_id (final_status success) (final_milestone success sync_id) nid
          (finishes (suc transient_retries)) e₂ row (final_persisted success) o.found o.going in
      let s₂ : SyncService = record s₁ { engine = e₂ } in
      let row_ended =
        ap
          (λ (k : String).
            transition k (final_status success) (final_milestone success sync_id) nid
              (finishes (suc transient_retries)) e₂)
          o.id
        ∙ moved in
      let (result, ran, kept) = run artifact target_id sync_id nid now s₂ row t u row_ended in
      (
        result,
        u,
        ap
              (λ (r : Result SyncError SyncArtifact). r >>= λ (a : SyncArtifact).
                resolve_target target_id s >>= λ (v : SyncService).
                lift_operation
                  (create_with_replay (sync_request a target_id) running true op_id now v.engine)
                >>= λ (c : Engine × Operation × Bool).
                    run_transfer upload starts finishes sync_id nid now a target_id
                      (record v { engine = c.0 }) c.1)
              found
            ∙ ap
                (λ (r : Result SyncError SyncService). r >>= λ (v : SyncService).
                  lift_operation (
                    create_with_replay (sync_request artifact target_id) running true op_id now
                      v.engine)
                  >>= λ (c : Engine × Operation × Bool).
                      run_transfer upload starts finishes sync_id nid now artifact target_id
                        (record v { engine = c.0 }) c.1)
                there
            ∙ ap
                (λ (r : Result OperationError (Engine × Operation × Bool)).
                  lift_operation r >>= λ (c : Engine × Operation × Bool).
                  run_transfer upload starts finishes sync_id nid now artifact target_id
                    (record s₁ { engine = c.0 }) c.1)
                o.made
            ∙ ran,
        ap (row_at op_id) kept ∙ here,
        st,
      )
