-- ===== src/Operations/Endings.antt =====
-- The audit records of the ends of operations, and what a row expects of them
-- (`_write_terminal_audit` of app/services/operations.py).
use mcmanager.Common.{
  ℕ, String, string_eq, true, false, Option, none, some, List, [], ◌∷◌, ◌++◌, map, append-nil,
  append_assoc, ◌≡◌, ◌≢◌, refl, sym, ap, ◌∙◌, ◌==◌, beq_refl, beq→eq, if◌then◌else◌, arith,
  Bool-cases, inl, inr,
}
use mcmanager.Domain.Values.{OperationStatus, operation_status_eq}
use mcmanager.Operations.Rows.{Operation, in_flight, terminal, row_at}
use mcmanager.Operations.Engine.{Engine, AuditRecord, terminal_audit, cancel_rows, cancel_row}
use mcmanager.Operations.Table.{Distinct}
use mcmanager.Operations.Cancel.{
  Open, Open-cancel_row, cancelled_row, cancel_row-other, row_at-cancel_row,
}

-- what an audit record and a row both say of the end of an operation
abbrev Ending : Type 0
Ending = OperationStatus × Option String × Option String

abbrev pub ending_of_row : Operation → Ending
ending_of_row r = (r.status, r.error_code, r.message)

-- the endings that the audit log has of an operation
unfoldable pub endings : String → List AuditRecord → List Ending
endings j [] = []
endings j (a ∷ audits) =
    if a.operation_id == j
    then (a.status, a.error_code, a.message) ∷ endings j audits
    else endings j audits

-- the endings that it should have
abbrev pub expected : Option Operation → List Ending
expected none = []
expected (some r) = if terminal r.status then ending_of_row r ∷ [] else []

pub record IsAudited (s : Engine) : Type 0 where
  pub distinct : Distinct s.operations
  pub once : (j : String) → endings j s.audits ≡ expected (row_at j s.operations)

pub endings-append :
    (j : String) (old new : List AuditRecord)
    → endings j (old ++ new) ≡ endings j old ++ endings j new
unfolding endings
endings-append j [] new = refl
endings-append j (a ∷ old) new = elim (Bool-cases (a.operation_id == j)) [
  | inl e ↦ rw e (ap (λ l. (a.status, a.error_code, a.message) ∷ l) (endings-append j old new))
  | inr e ↦ rw e (endings-append j old new)
]

pub endings-one :
    (j : String) (now : ℕ) (names : List (String × String)) (r : Operation)
    → endings j (terminal_audit now names r ∷ [])
      ≡ (if r.op_id == j then ending_of_row r ∷ [] else [])
unfolding endings terminal_audit
endings-one j now names r = refl

pub in_flight-open : (st : OperationStatus) → in_flight st ≡ true → terminal st ≡ false
in_flight-open st h = ground arith

pub ne-of_false : (a b : String) → (a == b) ≡ false → a ≢ b
ne-of_false a b h q = cc (beq_refl b, ap (λ t. t == b) q)

module _ (now : ℕ) (code : String) (names : List (String × String)) (j : String) where
  abbrev audit_of : Operation → AuditRecord
  audit_of c = terminal_audit now names (cancelled_row now code c)

  -- one cancellation adds one record to the log, and one terminal row to the table
  expected-cancel_row :
      (c : Operation) (rows : List Operation)
      → row_at c.op_id rows ≡ some c
      → in_flight c.status ≡ true
      → expected (row_at j (cancel_row now code c rows))
        ≡ expected (row_at j rows) ++ endings j (audit_of c ∷ [])
  expected-cancel_row c rows f o = elim (Bool-cases (c.op_id == j)) [
    | inl e ↦
        let here = ap (λ k. row_at k rows) (sym (beq→eq c.op_id j e)) ∙ f in
        rw (
          row_at-cancel_row now code c j rows,
          endings-one j now names (cancelled_row now code c),
          here,
          beq_refl c.op_id,
          e,
          o,
          in_flight-open c.status o,
        )
    | inr e ↦
        let apart : c.op_id ≢ j = λ q. ne-of_false c.op_id j e q in
        rw
          (
            cancel_row-other now code c j rows apart,
            endings-one j now names (cancelled_row now code c),
            e,
          )
          (sym (append-nil _))
  ]

  pub expected-cancel_rows :
      (cs rows : List Operation)
      → Distinct cs
      → Open cs rows
      → expected (row_at j (cancel_rows now code cs rows))
        ≡ expected (row_at j rows)
          ++ endings j (map (terminal_audit now names) (map (cancelled_row now code) cs))
  unfolding cancel_rows endings
  expected-cancel_rows [] rows d o = sym (append-nil _)
  expected-cancel_rows (c ∷ cs) rows d o =
      let rows' = cancel_row now code c rows in
      expected-cancel_rows cs rows' d.1 (Open-cancel_row now code c cs rows d.0 o.1)
      ∙ ap (λ l. l ++ endings j (map (terminal_audit now names) (map (cancelled_row now code) cs)))
          (expected-cancel_row c rows o.0.0 o.0.1)
      ∙ append_assoc (expected (row_at j rows)) (endings j (audit_of c ∷ [])) _
      ∙ ap (λ l. expected (row_at j rows) ++ l)
          (sym (
            endings-append j (audit_of c ∷ [])
              (map (terminal_audit now names) (map (cancelled_row now code) cs))))
