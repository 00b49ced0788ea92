-- ===== src/Operations/Activity.antt =====
-- Which rows are active in a world, and what makes none active that was not
-- (app/services/operations.py).
use mcmanager.Common.{
  ℕ, String, string_eq, Bool, true, false, ◌&&◌, Option, none, some, List, [], ◌∷◌, ◌++◌, ◌≡◌, ◌≢◌,
  sym, ap, ◌∙◌, ◌==◌, beq_refl, beq→eq, ne→beq, arith, Bool-cases, Option-cases, inl, inr, holds,
}
use mcmanager.Domain.Values.{operation_status_eq}
use mcmanager.Operations.Rows.{Operation, active, in_flight, row_at}
use mcmanager.Operations.Engine.{has_active, cancel_rows, cancel_row}
use mcmanager.Operations.Table.{row_at-append, changed}
use mcmanager.Operations.Cancel.{row_at-cancel_row, cancelled_row}

pub and_left : (a b : Bool) → (a && b) ≡ true → a ≡ true
and_left a b h = ground arith

pub and_right : (a b : Bool) → (a && b) ≡ true → b ≡ true
and_right a b h = ground arith

pub both_true : {a b : Bool} → a ≡ true → b ≡ true → (a && b) ≡ true
both_true p q = rw (p, q)

pub ne-of_false : (a b : String) → (a == b) ≡ false → a ≢ b
ne-of_false a b h q = cc (beq_refl b, ap (λ t. t == b) q)

-- the row that a lookup finds holds the world
abbrev pub active_at : String → Option Operation → Bool
active_at w none = false
active_at w (some r) = holds r.world_id w && active r.status

-- No world is held by two operations.
abbrev pub Sole : List Operation → Type 0
Sole rows =
    (w j k : String)
    → active_at w (row_at j rows) ≡ true
    → active_at w (row_at k rows) ≡ true
    → j ≡ k

abbrev pub Shrinks : List Operation → List Operation → Type 0
Shrinks old new =
    (w j : String) → active_at w (row_at j new) ≡ true → active_at w (row_at j old) ≡ true

pub Shrinks-Sole : (old new : List Operation) → Shrinks old new → Sole old → Sole new
Shrinks-Sole old new h sole w j k a b = sole w j k (h w j a) (h w k b)

-- an operation that holds the world is seen by the test of the claim
pub active_at-has_active :
    (w j op_id : String) (rows : List Operation)
    → op_id ≢ j
    → active_at w (row_at j rows) ≡ true
    → has_active w op_id rows ≡ true
unfolding row_at has_active
active_at-has_active w j op_id [] ne h = h
active_at-has_active w j op_id (r ∷ rows) ne h = elim (Bool-cases (r.op_id == j)) [
  | inl e ↦
      let apart : (r.op_id == op_id) ≡ false =
        ne→beq r.op_id op_id (λ q. ne (sym q ∙ beq→eq r.op_id j e)) in
      let held : active_at w (some r) ≡ true = rw e at h in rw apart (ground (arith, held))
  | inr e ↦ let rest = active_at-has_active w j op_id rows ne (rw e at h) in ground (arith, rest)
]

cancel_shrinks :
    (now : ℕ) (code : String) (c : Operation) (w : String) (o : Option Operation)
    → active_at w (changed c.op_id (λ r. in_flight r.status) (cancelled_row now code) o) ≡ true
    → active_at w o ≡ true
cancel_shrinks now code c w none h = h
cancel_shrinks now code c w (some r) h = ground arith

pub cancel_rows-Shrinks :
    (now : ℕ) (code : String) (cs rows : List Operation)
    → Shrinks rows (cancel_rows now code cs rows)
unfolding cancel_rows
cancel_rows-Shrinks now code [] rows w j h = h
cancel_rows-Shrinks now code (c ∷ cs) rows w j h = cancel_shrinks now code c w (row_at j rows) (
    sym (ap (active_at w) (row_at-cancel_row now code c j rows))
    ∙ cancel_rows-Shrinks now code cs (cancel_row now code c rows) w j h)

pub append-Shrinks :
    (rows : List Operation) (r : Operation)
    → active r.status ≡ false
    → Shrinks rows (rows ++ r ∷ [])
append-Shrinks rows r idle w j h = elim (Option-cases (row_at j rows)) [
  | inl f ↦
      let h' = rw (row_at-append j rows r, f) at h in
      elim (Bool-cases (r.op_id == j)) [
        | inl e ↦ ground (arith, (rw e at h'))
        | inr e ↦ ground (arith, (rw e at h'))
      ]
  | inr (x, f) ↦ ap (active_at w) (f ∙ sym (row_at-append j rows r ∙ rw f)) ∙ h
]
