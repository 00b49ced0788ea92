-- ===== src/Operations/Superseded.antt =====
-- The rows that a new operation supersedes: rows of its world that were in flight, each once.
use mcmanager.Common.{
  String, string_eq, true, ◌&&◌, Option, none, some, List, [], ◌≡◌, All-both, All-filter,
  filter-All, All-sort_by, arith, ◌⊎◌, inl, inr, holds, filter,
}
use mcmanager.Domain.Values.{OperationStatus}
use mcmanager.Operations.Rows.{Operation, in_flight, row_at}
use mcmanager.Operations.Policy.{Verdict, queued_delete}
use mcmanager.Operations.Engine.{in_flight_of}
use mcmanager.Operations.Methods.{active_rows}
use mcmanager.Operations.Table.{Distinct, Distinct-filter, Distinct-sort_by, All-row_at}
use mcmanager.Operations.Cancel.{Open}
use mcmanager.Operations.CreateEffects.{Fits}

in_flight_row :
    (world_id : String) (r : Operation)
    → (holds r.world_id world_id && in_flight r.status) ≡ true
    → in_flight r.status ≡ true
in_flight_row world_id r h = ground arith

abbrev Found : List Operation → Operation → Type 0
Found rows c = (row_at c.op_id rows ≡ some c) × (in_flight c.status ≡ true)

Open-active_rows :
    (world_id : Option String) (rows : List Operation)
    → Distinct rows
    → Open (active_rows world_id rows) rows
unfolding active_rows in_flight_of
Open-active_rows none rows d = tt
Open-active_rows (some world_id) rows d =
    let test = λ (r : Operation). holds r.world_id world_id && in_flight r.status in
    All-sort_by _ (Found rows) (filter test rows) (
      All-both {R = Found rows} (λ r f i. (f, in_flight_row world_id r i)) (filter test rows)
        (All-filter (λ r. row_at r.op_id rows ≡ some r) test rows (All-row_at rows d))
        (filter-All test rows))

Distinct-active_rows :
    (world_id : Option String) (rows : List Operation)
    → Distinct rows
    → Distinct (active_rows world_id rows)
unfolding active_rows in_flight_of
Distinct-active_rows none rows d = tt
Distinct-active_rows (some world_id) rows d =
    Distinct-sort_by _ (in_flight_of world_id rows) (Distinct-filter _ rows d)

module _ (world_id : Option String) (rows : List Operation) (asked : OperationStatus) (v : Verdict)
    (fits : Fits (active_rows world_id rows) asked v) (d : Distinct rows) where
  superseded_cases :
      (cs : List Operation)
      → (v.superseded ≡ []) ⊎ ((v.superseded ≡ cs) ⊎ (v.superseded ≡ filter queued_delete cs))
      → Distinct cs
      → Open cs rows
      → Distinct v.superseded × Open v.superseded rows
  superseded_cases cs (inl e) dc o = rw e (tt, tt)
  superseded_cases cs (inr (inl e)) dc o = rw e (dc, o)
  superseded_cases cs (inr (inr e)) dc o =
      rw e (Distinct-filter queued_delete cs dc, All-filter (Found rows) queued_delete cs o)

  -- What a new operation supersedes is in flight, and stands in the table once.
  pub superseded-Open : Distinct v.superseded × Open v.superseded rows
  superseded-Open =
      superseded_cases (active_rows world_id rows) fits.superseded
        (Distinct-active_rows world_id rows d) (Open-active_rows world_id rows d)
