-- ===== src/Operations/Terminal.antt =====
-- A terminal operation never changes again, and identifiers stay different: for every sequence of
-- calls of the engine (app/services/operations.py).
use mcmanager.Common.{
  ℕ, String, string_eq, Bool, true, false, some, List, [], ◌∷◌, ◌≡◌, ◌≢◌, refl, sym, ap, ◌∙◌, ◌==◌,
  ne→beq, arith, inl, inr,
}
use mcmanager.Domain.Values.{OperationStatus, queued, operation_status_eq}
use mcmanager.Operations.Rows.{Operation, OperationInput, terminal, row_at}
use mcmanager.Operations.Engine.{Engine, cancel_rows}
use mcmanager.Operations.Methods.{new_row}
use mcmanager.Operations.Milestones.{start_row}
use mcmanager.Operations.Table.{
  row_at-update_at, row_at-id, row_at-append, Distinct, Distinct-update_at, Distinct-append,
}
use mcmanager.Operations.Effects.{Moved}
use mcmanager.Operations.ClaimEffects.{Claimed}
use mcmanager.Operations.CreateEffects.{Creation}
use mcmanager.Operations.Cancel.{cancel_rows-ended, Distinct-cancel_rows}
use mcmanager.Operations.Calls.{Call, perform, run, quiet, inserts, claims, moves, perform-Change}

-- the row of an identifier is there, and is terminal
pub record Ended (op_id : String) (r : Operation) (s : Engine) : Type 0 where
  pub found : row_at op_id s.operations ≡ some r
  pub ended : terminal r.status ≡ true

some-injective : {A : Type 0} {a b : A} → some a ≡ some b → a ≡ b
some-injective h = cc

true-ne-false : ◌≡◌ {A = Bool} true false → ⊥
true-ne-false h = cc

module _ (j : String) (r : Operation) (s t : Engine) where
  Claimed-Ended :
      (op_id : String) (now : ℕ) (c : Operation)
      → Claimed op_id s t now c
      → Ended j r s
      → Ended j r t
  Claimed-Ended op_id now c k e = record {
    found =
        ap (row_at j) k.operations
        ∙ row_at-update_at op_id (λ x. x.status == queued) (start_row now) (λ x _. refl) j
            s.operations
        ∙ rw e.found (ground (arith, e.ended, operation_status_eq.beq_iff r.status queued));
    ended = e.ended;
  }

  -- the row that a transition has found is not the terminal one
  other_row :
      (op_id : String) (st : OperationStatus) (now : ℕ) (u : Operation)
      → Moved op_id st s t now u
      → Ended j r s
      → op_id ≢ j
  other_row op_id st now u m e same =
      let one : m.row ≡ r =
        some-injective (sym m.found ∙ ap (λ k. row_at k s.operations) same ∙ e.found) in
      true-ne-false (sym (rw (← one) at e.ended) ∙ m.was_open)

  Moved-Ended :
      (op_id : String) (st : OperationStatus) (now : ℕ) (u : Operation)
      → Moved op_id st s t now u
      → Ended j r s
      → Ended j r t
  Moved-Ended op_id st now u m e = elim m.effect [
    | inl (n, same, _) ↦ record { found = ap (row_at j) same.operations ∙ e.found; ended = e.ended }
    | inr (is, id, status, ops, audits, names) ↦
        let apart = ne→beq r.op_id m.row.op_id (λ q. other_row op_id st now u m e (
          sym (row_at-id op_id s.operations m.found) ∙ sym q ∙ row_at-id j s.operations e.found)) in
        record {
          found =
              ap (row_at j) ops
              ∙ row_at-update_at m.row.op_id (λ x. true) (λ x. u) (λ x q. id ∙ sym q) j s.operations
              ∙ rw (e.found, apart);
          ended = e.ended;
        }
  ]

  Inserted-Ended :
      (op_id : String) (now : ℕ) (initial : OperationStatus) (request : _) (c : Operation)
      → Creation request initial op_id now s t c
      → Ended j r s
      → Ended j r t
  Inserted-Ended op_id now initial request c k e =
      let v = k.verdict in
      let kept = cancel_rows-ended now v.error_code v.superseded j s.operations e.found e.ended in
      record {
        found =
            ap (row_at j) k.inserted.operations
            ∙ row_at-append j (cancel_rows now v.error_code v.superseded s.operations) c
            ∙ rw kept;
        ended = e.ended;
      }

pub new_row-id :
    (request : OperationInput) (op_id : String) (st : OperationStatus) (now : ℕ)
    → (new_row request op_id st now).op_id ≡ op_id
unfolding new_row
new_row-id request op_id st now = refl

pub new_row-status :
    (request : OperationInput) (op_id : String) (st : OperationStatus) (now : ℕ)
    → (new_row request op_id st now).status ≡ st
unfolding new_row
new_row-status request op_id st now = refl

pub perform-Ended :
    (j : String) (r : Operation) (c : Call) (s : Engine) → Ended j r s → Ended j r (perform c s)
perform-Ended j r c s e = elim (perform-Change c s) [
  | quiet same ↦ record { found = ap (row_at j) same.operations ∙ e.found; ended = e.ended }
  | inserts request initial allow op_id now row is k ↦
      Inserted-Ended j r s (perform c s) op_id now initial request row k e
  | claims op_id now row is k ↦ Claimed-Ended j r s (perform c s) op_id now row k e
  | moves op_id st m nid now u is k ↦ Moved-Ended j r s (perform c s) op_id st now u k e
]

run-Ended :
    (j : String) (r : Operation) (calls : List Call) (s : Engine)
    → Ended j r s
    → Ended j r (run calls s)
unfolding run
run-Ended j r [] s e = e
run-Ended j r (c ∷ calls) s e = run-Ended j r calls (perform c s) (perform-Ended j r c s e)

-- Once an operation is terminal, its row is never written again: after any sequence of calls it is
-- found as it was, with its status, error and times.
pub terminal_forever :
    (j : String) (r : Operation) (calls : List Call) (s : Engine)
    → row_at j s.operations ≡ some r
    → terminal r.status ≡ true
    → row_at j (run calls s).operations ≡ some r
terminal_forever j r calls s f e = (run-Ended j r calls s (record { found = f; ended = e })).found

-- Every call keeps the identifiers of the table different.
pub perform-Distinct :
    (c : Call) (s : Engine) → Distinct s.operations → Distinct (perform c s).operations
perform-Distinct c s d = elim (perform-Change c s) [
  | quiet same ↦ rw same.operations d
  | inserts request initial allow op_id now row is k ↦
      let rows = cancel_rows now k.verdict.error_code k.verdict.superseded s.operations in
      rw k.inserted.operations (
        Distinct-append rows row
          (Distinct-cancel_rows now k.verdict.error_code k.verdict.superseded s.operations d)
          (ap (λ (i : String). row_at i rows)
              (ap (λ (x : Operation). x.op_id) k.inserted.row_is
                ∙ new_row-id request op_id k.verdict.status now)
            ∙ k.inserted.fresh))
  | claims op_id now row is k ↦
      rw k.operations (Distinct-update_at op_id _ (start_row now) (λ x _. refl) s.operations d)
  | moves op_id st m nid now u is k ↦ elim k.effect [
    | inl (n, same, _) ↦ rw same.operations d
    | inr (p, id, status, ops, audits, names) ↦
        rw ops (Distinct-update_at k.row.op_id _ (λ x. u) (λ x q. id ∙ sym q) s.operations d)
  ]
]
