-- ===== src/Operations/ClaimEffects.antt =====
-- What a claim writes to the table of operations (`claim_queued` of app/services/operations.py).
use mcmanager.Common.{
  beq_refl, beq→eq, subst, ℕ, String, string_eq, true, false, Option, none, some, List, ◌≡◌, refl,
  sym, ap, ◌∙◌, ◌⊎◌, inl, inr, ◌==◌, Bool-cases, Option-cases,
}
use mcmanager.Domain.Values.{OperationStatus, running, queued, operation_status_eq}
use mcmanager.Operations.Table.{row_at-update_at, row_at-id}
use mcmanager.Operations.Rows.{Operation, row_at, update_at}
use mcmanager.Operations.Engine.{Engine, publish_status}
use mcmanager.Operations.Milestones.{claim_queued, start_row, locked}
use mcmanager.Operations.Effects.{SameStore, publish_status-SameStore}

-- What a claim that returns a row has done.
pub record Claimed (op_id : String) (s t : Engine) (now : ℕ) (claimed : Operation) : Type 0 where
  pub row : Operation
  pub found : row_at op_id s.operations ≡ some row
  pub was_queued : row.status ≡ queued
  pub unlocked : locked row.world_id op_id s.operations ≡ false
  pub started : claimed ≡ start_row now row
  pub operations :
      t.operations ≡ update_at op_id (λ r. r.status == queued) (start_row now) s.operations
  pub audits : t.audits ≡ s.audits
  pub usernames : t.usernames ≡ s.usernames

abbrev rows_after : String → ℕ → Engine → List Operation
rows_after op_id now s = update_at op_id (λ r. r.status == queued) (start_row now) s.operations

started_at_id :
    (op_id : String) (now : ℕ) (s : Engine) (row : Operation)
    → row_at op_id s.operations ≡ some row
    → row.status ≡ queued
    → row_at op_id (rows_after op_id now s) ≡ some (start_row now row)
started_at_id op_id now s row f q =
    row_at-update_at op_id (λ r. r.status == queued) (start_row now) (λ r _. refl) op_id
      s.operations
    ∙ rw (f, row_at-id op_id s.operations f, beq_refl op_id, q, beq_refl OperationStatus.queued)

abbrev after_claim : String → ℕ → Operation → Engine → Engine
after_claim op_id now row s =
    publish_status (start_row now row) running none
      (record s { operations = rows_after op_id now s })

-- A queued row whose world is not locked is claimed.
pub claim_queued-eq :
    (op_id : String) (now : ℕ) (s : Engine) (row : Operation)
    → row_at op_id s.operations ≡ some row
    → row.status ≡ queued
    → locked row.world_id op_id s.operations ≡ false
    → claim_queued op_id now s ≡ (after_claim op_id now row s, some (start_row now row))
unfolding claim_queued
claim_queued-eq op_id now s row f q free =
    rw (f, q, beq_refl OperationStatus.queued, free, started_at_id op_id now s row f q)

pub claim_missing :
    (op_id : String) (now : ℕ) (s : Engine)
    → row_at op_id s.operations ≡ none
    → claim_queued op_id now s ≡ (s, none)
unfolding claim_queued
claim_missing op_id now s f = rw f

-- A row that is not queued, or whose world is locked, is not claimed.
pub claim_blocked :
    (op_id : String) (now : ℕ) (s : Engine) (row : Operation)
    → row_at op_id s.operations ≡ some row
    → ((row.status == queued) ≡ false) ⊎ (locked row.world_id op_id s.operations ≡ true)
    → claim_queued op_id now s ≡ (s, none)
unfolding claim_queued
claim_blocked op_id now s row f (inl n) = rw (f, n)
claim_blocked op_id now s row f (inr l) = elim (Bool-cases (row.status == queued)) [
  | inl q ↦ rw (f, q, l)
  | inr n ↦ rw (f, n)
]

none-ne-some : {A B : Type 0} {a a' : A} {b : B} → ◌≡◌ {A = A × Option B} (a, none) (a', some b) → ⊥
none-ne-some {A} {B} h = cc (ap (λ (x : A × Option B). x.1) h)

module _ (op_id : String) (now : ℕ) (s : Engine) {t : Engine} where
  Claimed-row :
      {claimed : Operation} (row : Operation)
      → row_at op_id s.operations ≡ some row
      → row.status ≡ queued
      → locked row.world_id op_id s.operations ≡ false
      → claim_queued op_id now s ≡ (t, some claimed)
      → Claimed op_id s t now claimed
  Claimed-row row f q free h =
      let e = sym (claim_queued-eq op_id now s row f q free) ∙ h in
      let same : after_claim op_id now row s ≡ t = ap (λ (x : Engine × Option Operation). x.0) e in
      let kept = subst (SameStore (record s { operations = rows_after op_id now s })) same (
        publish_status-SameStore (start_row now row) running none
          (record s { operations = rows_after op_id now s })) in
      record {
        row = row;
        found = f;
        was_queued = q;
        unlocked = free;
        started = cc e;
        operations = kept.operations;
        audits = kept.audits;
        usernames = kept.usernames;
      }

  pub claim_queued-Claimed :
      {claimed : Operation}
      → claim_queued op_id now s ≡ (t, some claimed)
      → Claimed op_id s t now claimed
  claim_queued-Claimed h = elim (Option-cases (row_at op_id s.operations)) [
    | inl missing ↦ absurd (none-ne-some (sym (claim_missing op_id now s missing) ∙ h))
    | inr (row, f) ↦ elim (Bool-cases (row.status == queued)) [
      | inl q ↦ elim (Bool-cases (locked row.world_id op_id s.operations)) [
        | inl held ↦ absurd (none-ne-some (sym (claim_blocked op_id now s row f (inr held)) ∙ h))
        | inr free ↦ Claimed-row row f (beq→eq row.status queued q) free h
      ]
      | inr n ↦ absurd (none-ne-some (sym (claim_blocked op_id now s row f (inl n)) ∙ h))
    ]
  ]

-- A claim that returns nothing changes nothing.
pub claim_queued-none :
    (op_id : String) (now : ℕ) (s : Engine) {t : Engine}
    → claim_queued op_id now s ≡ (t, none)
    → t ≡ s
claim_queued-none op_id now s {t} h = elim (Option-cases (row_at op_id s.operations)) [
  | inl missing ↦ first (claim_missing op_id now s missing)
  | inr (row, f) ↦ elim (Bool-cases (row.status == queued)) [
    | inl q ↦ elim (Bool-cases (locked row.world_id op_id s.operations)) [
      | inl held ↦ first (claim_blocked op_id now s row f (inr held))
      | inr free ↦ absurd (
          none-ne-some
            (sym h ∙ claim_queued-eq op_id now s row f (beq→eq row.status queued q) free))
    ]
    | inr n ↦ first (claim_blocked op_id now s row f (inl n))
  ]
]
  where
    first : claim_queued op_id now s ≡ (s, none) → t ≡ s
    first e = ap (λ (x : Engine × Option Operation). x.0) (sym h ∙ e)
