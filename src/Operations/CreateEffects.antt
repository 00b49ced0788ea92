-- ===== src/Operations/CreateEffects.antt =====
-- What a creation writes to the table of operations and to the audit log (`create_with_replay` of
-- app/services/operations.py).
use mcmanager.Common.{
  ok-injective, err-ne-ok, ℕ, String, string_eq, Bool, true, false, Option, none, List, [], ◌∷◌,
  ◌++◌, map, ◌≡◌, refl, sym, ap, ◌∙◌, subst, ◌⊎◌, inl, inr, arith, Bool-cases, Option-cases, Result,
  ok, >>=-eq-ok, filter,
}
use mcmanager.Domain.Values.{OperationType, kill, OperationStatus, queued, operation_status_eq}
use mcmanager.Operations.Rows.{cleanup_scope, Operation, OperationInput, row_at}
use mcmanager.Operations.Policy.{
  OperationError, Verdict, queued_delete, apply_conflict_policy, policy_for,
}
use mcmanager.Operations.Engine.{Engine, terminal_audit, cancel_rows, reread, publish_terminals}
use mcmanager.Operations.Methods.{
  publish_created, insert_row, create_fresh, create_with_replay, admit_and_insert, repeated_row,
  new_row, active_rows, first_status, locks_world, verdict_for, replay_of, is_some',
}
use mcmanager.Operations.Effects.{
  SameStore, SameStore-trans, publish_terminals-SameStore, publish_created-SameStore,
}

-- The rows that a verdict supersedes are rows that were in flight, and its status is the one that
-- was asked for or `Queued`.
pub record Fits (active : List Operation) (asked : OperationStatus) (v : Verdict) : Type 0 where
  pub superseded :
      (v.superseded ≡ []) ⊎ ((v.superseded ≡ active) ⊎ (v.superseded ≡ filter queued_delete active))
  pub status : (v.status ≡ asked) ⊎ (v.status ≡ queued)

policy_for-Fits :
    (op_type : OperationType) (scope : Option String) (active : List Operation)
    (status : OperationStatus) {v : Verdict}
    → policy_for op_type scope active status ≡ ok v
    → Fits active status v
unfolding policy_for
policy_for-Fits kill scope active status h = ground arith
policy_for-Fits _ scope active status h = ground arith

pub apply_conflict_policy-Fits :
    (request : OperationInput) (active : List Operation) (status : OperationStatus) {v : Verdict}
    → apply_conflict_policy request active status ≡ ok v
    → Fits active status v
unfolding apply_conflict_policy
apply_conflict_policy-Fits request active status {v} h = ground (
  arith,
  policy_for-Fits request.op_type (cleanup_scope request.world_id request.data_json) active status
      {v = v},
)

verdict_for-Fits :
    (request : OperationInput) (applies : Bool) (active : List Operation) (status : OperationStatus)
    {v : Verdict}
    → verdict_for request applies active status ≡ ok v
    → Fits active status v
verdict_for-Fits request true active status h = apply_conflict_policy-Fits request active status h
verdict_for-Fits request false active status h = ground arith

-- What an insertion has written.
pub record Inserted (request : OperationInput) (op_id : String) (v : Verdict) (now : ℕ)
    (s t : Engine) (row : Operation) : Type 0 where
  pub row_is : row ≡ new_row request op_id v.status now
  pub fresh : row_at op_id (cancel_rows now v.error_code v.superseded s.operations) ≡ none
  pub operations : t.operations ≡ cancel_rows now v.error_code v.superseded s.operations ++ row ∷ []
  pub audits :
      t.audits
      ≡ s.audits
        ++ map
            (terminal_audit now s.usernames)
            (reread v.superseded (cancel_rows now v.error_code v.superseded s.operations))
  pub usernames : t.usernames ≡ s.usernames

ended : Verdict → ℕ → Engine → List Operation
ended v now s = reread v.superseded (cancel_rows now v.error_code v.superseded s.operations)

inserted_store : Verdict → Operation → ℕ → Engine → Engine
unfolding ended
inserted_store v row now s = record s {
  operations = cancel_rows now v.error_code v.superseded s.operations ++ row ∷ [];
  audits = s.audits ++ map (terminal_audit now s.usernames) (ended v now s);
}

none_of : (o : Option Operation) → is_some' o ≡ false → o ≡ none
none_of o h = ground arith

insert_row-Inserted :
    (request : OperationInput) (op_id : String) (v : Verdict) (now : ℕ) (s : Engine) {t : Engine}
    {row : Operation}
    → insert_row request op_id v now s ≡ ok (t, row)
    → Inserted request op_id v now s t row
unfolding insert_row ended inserted_store
insert_row-Inserted request op_id v now s {t} {row} h =
    elim (Bool-cases
      (is_some' (row_at op_id (cancel_rows now v.error_code v.superseded s.operations)))) [
        | inl taken ↦ absurd (err-ne-ok (rw taken at h))
        | inr free ↦
            let e = rw free at h in
            let fresh = new_row request op_id v.status now in
            let same : publish_created fresh
                  (publish_terminals (ended v now s) (inserted_store v fresh now s))
                ≡ t =
              ap (λ (x : Engine × Operation). x.0) (ok-injective e) in
            let row_is : fresh ≡ row = ap (λ (x : Engine × Operation). x.1) (ok-injective e) in
            let kept = subst (SameStore (inserted_store v fresh now s)) same (
              SameStore-trans
                (publish_terminals-SameStore (ended v now s) (inserted_store v fresh now s))
                (publish_created-SameStore fresh
                  (publish_terminals (ended v now s) (inserted_store v fresh now s)))) in
            record {
              row_is = sym row_is;
              fresh = none_of _ free;
              operations =
                  kept.operations
                  ∙ ap
                      (λ (r : Operation).
                        cancel_rows now v.error_code v.superseded s.operations ++ r ∷ [])
                      row_is;
              audits = kept.audits;
              usernames = kept.usernames;
            }
      ]

-- The outcome of a creation: the replay of an operation, with nothing changed, or an insertion.
pub record Creation (request : OperationInput) (initial : OperationStatus) (op_id : String)
    (now : ℕ) (s t : Engine) (row : Operation) : Type 0 where
  pub verdict : Verdict
  pub asked : OperationStatus
  pub asked_is : (asked ≡ initial) ⊎ (asked ≡ queued)
  pub fits : Fits (active_rows request.world_id s.operations) asked verdict
  pub inserted : Inserted request op_id verdict now s t row

first_status-asked :
    (request : OperationInput) (initial : OperationStatus) (rows : List Operation)
    → (first_status request initial rows ≡ initial) ⊎ (first_status request initial rows ≡ queued)
unfolding first_status
first_status-asked request initial rows = ground arith

-- A replay changes nothing; anything else is an insertion.
abbrev pub Outcome :
    OperationInput → OperationStatus → String → ℕ → Engine → Engine × Operation × Bool → Type 0
Outcome request initial op_id now s r =
    ((r.2 ≡ true) × (r.0 ≡ s)) ⊎ ((r.2 ≡ false) × Creation request initial op_id now s r.0 r.1)

module _ (request : OperationInput) (initial : OperationStatus) (allow : Bool) (op_id : String)
    (now : ℕ) (s : Engine) {r : Engine × Operation × Bool} where
  admit_and_insert-Creation :
      (applies : Bool)
      → admit_and_insert request applies (first_status request initial s.operations) op_id now s
        ≡ ok r
      → Outcome request initial op_id now s r
  unfolding admit_and_insert
  admit_and_insert-Creation applies h =
      let (v, p, h₁) =
        >>=-eq-ok
          (verdict_for request applies (active_rows request.world_id s.operations)
            (first_status request initial s.operations))
          _ h in
      let (x, q, h₂) = >>=-eq-ok (insert_row request op_id v now s) _ h₁ in
      let e = ok-injective h₂ in
      subst (Outcome request initial op_id now s) e (
        inr (
          refl,
          record {
            verdict = v;
            asked = first_status request initial s.operations;
            asked_is = first_status-asked request initial s.operations;
            fits = verdict_for-Fits request applies _ _ p;
            inserted = insert_row-Inserted request op_id v now s q;
          },
        ))

  unchanged :
      (old : Operation)
      → ◌≡◌ {A = Result OperationError (Engine × Operation × Bool)} (ok (s, old, true)) (ok r)
      → Outcome request initial op_id now s r
  unchanged old e = subst (Outcome request initial op_id now s) (ok-injective e) (inl (refl, refl))

  pub create_with_replay-Creation :
      create_with_replay request initial allow op_id now s ≡ ok r
      → Outcome request initial op_id now s r
  unfolding create_with_replay create_fresh
  create_with_replay-Creation h = elim (Option-cases (replay_of s request)) [
    | inr (old, f) ↦ unchanged old (rw (f, create_with_replay) at h)
    | inl new ↦ elim (Option-cases (repeated_row request (locks_world request allow) s)) [
      | inr (old, f) ↦ unchanged old (rw (new, f, create_with_replay, create_fresh) at h)
      | inl fresh ↦
          admit_and_insert-Creation (locks_world request allow)
            (rw (new, fresh, create_with_replay, create_fresh) at h)
    ]
  ]
