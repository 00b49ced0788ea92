-- ===== src/Operations/Cancel.antt =====
-- Laws of the cancellation of superseded rows (`_cancel_row` of app/services/operations.py).
use mcmanager.Common.{
  ℕ, String, string_eq, true, false, some, List, [], ◌∷◌, map, ◌≡◌, ◌≢◌, refl, sym, ap, ◌∙◌, ◌==◌,
  beq_refl, ne→beq, arith, All, All-both, Option-cases, inl, inr,
}
use mcmanager.Domain.Values.{cancelled}
use mcmanager.Operations.Rows.{Operation, in_flight, terminal, row_at}
use mcmanager.Operations.Engine.{cancel_row, cancel_rows, reread}
use mcmanager.Operations.Table.{row_at-update_at, row_at-id, Distinct, Distinct-update_at, changed}

-- the row as its cancellation leaves it
abbrev pub cancelled_row : ℕ → String → Operation → Operation
cancelled_row now code r = record r {
  status = cancelled;
  finished_at = some now;
  error_code = some code;
  updated_at = now;
}

-- the rows that are cancelled: each is found as it was, in flight
abbrev pub Open : List Operation → List Operation → Type 0
Open cs rows = All (λ c. (row_at c.op_id rows ≡ some c) × (in_flight c.status ≡ true)) cs

module _ (now : ℕ) (code : String) where
  pub row_at-cancel_row :
      (row : Operation) (j : String) (rows : List Operation)
      → row_at j (cancel_row now code row rows)
        ≡ changed row.op_id (λ r. in_flight r.status) (cancelled_row now code) (row_at j rows)
  unfolding cancel_row
  row_at-cancel_row row j rows =
      row_at-update_at row.op_id (λ r. in_flight r.status) (cancelled_row now code) (λ r _. refl) j
        rows

  -- a cancellation does not touch a terminal row
  cancel_row-ended :
      (row : Operation) (j : String) (rows : List Operation) {r : Operation}
      → row_at j rows ≡ some r
      → terminal r.status ≡ true
      → row_at j (cancel_row now code row rows) ≡ some r
  cancel_row-ended row j rows {r} f e = row_at-cancel_row row j rows ∙ rw f (ground arith)

  pub cancel_rows-ended :
      (cs : List Operation) (j : String) (rows : List Operation) {r : Operation}
      → row_at j rows ≡ some r
      → terminal r.status ≡ true
      → row_at j (cancel_rows now code cs rows) ≡ some r
  unfolding cancel_rows
  cancel_rows-ended [] j rows f e = f
  cancel_rows-ended (c ∷ cs) j rows f e =
      cancel_rows-ended cs j (cancel_row now code c rows) (cancel_row-ended c j rows f e) e

  -- nor a row that it does not name
  pub cancel_row-other :
      (row : Operation) (j : String) (rows : List Operation)
      → row.op_id ≢ j
      → row_at j (cancel_row now code row rows) ≡ row_at j rows
  cancel_row-other row j rows ne = elim (Option-cases (row_at j rows)) [
    | inl f ↦ row_at-cancel_row row j rows ∙ rw f
    | inr (r, f) ↦
        let apart : (r.op_id == row.op_id) ≡ false =
          ne→beq r.op_id row.op_id (λ q. ne (sym q ∙ row_at-id j rows f)) in
        row_at-cancel_row row j rows ∙ rw (f, apart)
  ]

  pub cancel_rows-other :
      (cs : List Operation) (j : String) (rows : List Operation)
      → All (λ c. c.op_id ≢ j) cs
      → row_at j (cancel_rows now code cs rows) ≡ row_at j rows
  unfolding cancel_rows
  cancel_rows-other [] j rows h = refl
  cancel_rows-other (c ∷ cs) j rows h =
      cancel_rows-other cs j (cancel_row now code c rows) h.1 ∙ cancel_row-other c j rows h.0

  pub Distinct-cancel_rows :
      (cs rows : List Operation) → Distinct rows → Distinct (cancel_rows now code cs rows)
  unfolding cancel_rows cancel_row
  Distinct-cancel_rows [] rows d = d
  Distinct-cancel_rows (c ∷ cs) rows d = Distinct-cancel_rows cs (cancel_row now code c rows) (
      Distinct-update_at c.op_id (λ r. in_flight r.status) (cancelled_row now code) (λ r _. refl)
        rows d)

  cancel_row_self :
      (c : Operation) (rows : List Operation)
      → row_at c.op_id rows ≡ some c
      → in_flight c.status ≡ true
      → row_at c.op_id (cancel_row now code c rows) ≡ some (cancelled_row now code c)
  cancel_row_self c rows f o = row_at-cancel_row c c.op_id rows ∙ rw (f, beq_refl c.op_id, o)

  pub Open-cancel_row :
      (c : Operation) (cs rows : List Operation)
      → All (λ x. x.op_id ≢ c.op_id) cs
      → Open cs rows
      → Open cs (cancel_row now code c rows)
  Open-cancel_row c cs rows apart o =
      All-both (λ x ne (f, i). (cancel_row-other c x.op_id rows (λ q. ne (sym q)) ∙ f, i)) cs apart
        o

  -- The cancelled rows as the store holds them afterwards, of which the audit records are written.
  pub reread-cancel_rows :
      (cs rows : List Operation)
      → Distinct cs
      → Open cs rows
      → reread cs (cancel_rows now code cs rows) ≡ map (cancelled_row now code) cs
  unfolding reread cancel_rows
  reread-cancel_rows [] rows d o = refl
  reread-cancel_rows (c ∷ cs) rows d o =
      let rows' = cancel_row now code c rows in
      let found = cancel_rows-other cs c.op_id rows' d.0 ∙ cancel_row_self c rows o.0.0 o.0.1 in
      rw (found, reread)
        (ap (λ l. cancelled_row now code c ∷ l)
          (reread-cancel_rows cs rows' d.1 (Open-cancel_row c cs rows d.0 o.1)))
