-- ===== src/Sync/Opened.antt =====
-- The operation of a transfer, as it is created (app/services/sync.py).
use mcmanager.Common.{
  ℕ, String, string_eq, Bool, true, false, Option, none, some, Result, ◌≡◌, refl, sym, ap, ◌∙◌, ◌⊎◌,
  inl, inr, arith, Result, ok, err, beq_refl, ◌==◌, if◌then◌else◌,
}
use mcmanager.Domain.Values.{OperationStatus, running}
use mcmanager.Operations.Rows.{Operation, OperationInput, terminal, row_at}
use mcmanager.Operations.Policy.{OperationError, duplicate_key, admit}
use mcmanager.Operations.Engine.{Engine, cancel_rows}
use mcmanager.Operations.Methods.{
  create_with_replay, create_fresh, admit_and_insert, insert_row, locks_world, first_status,
  is_some', repeated, active_rows,
}
use mcmanager.Operations.Table.{row_at-append}
use mcmanager.Operations.CreateEffects.{create_with_replay-Creation}
use mcmanager.Operations.Terminal.{new_row-id, new_row-status}
use mcmanager.Sync.Rows.{SyncArtifact}
use mcmanager.Sync.Dispatch.{sync_request}

when_free :
    {A : Type 0} (b : Bool) (v : A)
    → b ≡ false
    → (x : A) × ((if b then err duplicate_key else ok v) ≡ ok x)
when_free b v h = (v, rw h refl)

going_status :
    (asked st : OperationStatus)
    → (asked ≡ OperationStatus.running) ⊎ (asked ≡ OperationStatus.queued)
    → (st ≡ asked) ⊎ (st ≡ OperationStatus.queued)
    → terminal st ≡ false
going_status asked st p q = ground arith

false-ne-true : ◌≡◌ {A = Bool} false true → ⊥
false-ne-true h = cc h

module _ (artifact : SyncArtifact) (target_id op_id : String) (now : ℕ) (e : Engine)
    (fresh : row_at op_id e.operations ≡ none) where
  abbrev request : OperationInput
  request = sync_request artifact target_id

  unlocked : locks_world request true ≡ false
  unfolding locks_world
  unlocked = ground arith

  inserted :
      (st : OperationStatus)
      → (x : Engine × Operation) × (insert_row request op_id (admit st) now e ≡ ok x)
  unfolding insert_row cancel_rows
  inserted st = when_free (is_some' (row_at op_id e.operations)) _ (rw fresh refl)

  admitted :
      (st : OperationStatus)
      → (x : Engine × Operation × Bool) × (admit_and_insert request false st op_id now e ≡ ok x)
        × (x.2 ≡ false)
  unfolding admit_and_insert
  admitted st = let (x, h) = inserted st in ((x.0, x.1, false), rw h refl, refl)

  created :
      (r : Engine × Operation × Bool) × (create_with_replay request running true op_id now e ≡ ok r)
      × (r.2 ≡ false)
  unfolding create_with_replay create_fresh
  created =
      let (x, h, new) = admitted (first_status request running e.operations) in
      let step : Bool → Result OperationError (Engine × Operation × Bool) = λ b.
        elim (if b then repeated request (active_rows artifact.world_id e.operations) else none) [
          | none ↦
              admit_and_insert request b (first_status request running e.operations) op_id now e
          | some row ↦ ok (e, row, true)
        ] in
      (x, ap step unlocked ∙ h, new)

  -- the operation of a transfer, as it is created
  pub record Opened (t : Engine) (row : Operation) : Type 0 where
    pub made : create_with_replay request running true op_id now e ≡ ok (t, row, false)
    pub id : row.op_id ≡ op_id
    pub found : row_at op_id t.operations ≡ some row
    pub going : terminal row.status ≡ false

  pub opened : (t : Engine) × (row : Operation) × Opened t row
  opened =
      let (r, h, new) = created in
      elim (create_with_replay-Creation request running true op_id now e h) [
        | inl (old, _) ↦ absurd (false-ne-true (sym new ∙ old))
        | inr (_, k) ↦ (
          r.0,
          r.1,
          record {
            made = h ∙ ap (λ (b : Bool). ok (r.0, r.1, b)) new;
            id =
                ap (λ (x : Operation). x.op_id) k.inserted.row_is
                ∙ new_row-id request op_id k.verdict.status now;
            found =
                ap (row_at op_id) k.inserted.operations
                ∙ row_at-append op_id
                    (cancel_rows now k.verdict.error_code k.verdict.superseded e.operations) r.1
                ∙ ap
                    (λ (o : Option Operation). elim o [
                      | none ↦ if r.1.op_id == op_id then some r.1 else none
                      | some x ↦ some x
                    ])
                    k.inserted.fresh
                ∙ ap (λ (b : Bool). if b then some r.1 else none)
                    (ap (λ (i : String). i == op_id)
                        (ap (λ (x : Operation). x.op_id) k.inserted.row_is
                          ∙ new_row-id request op_id k.verdict.status now)
                      ∙ beq_refl op_id);
            going =
                ap terminal (
                  ap (λ (x : Operation). x.status) k.inserted.row_is
                  ∙ new_row-status request op_id k.verdict.status now)
                ∙ going_status k.asked k.verdict.status k.asked_is k.fits.status;
          },
        )
      ]
