-- ===== src/Operations/Presence.antt =====
-- Rows of operations are never removed, and one that has not ended can be ended
-- (app/services/operations.py).
use mcmanager.Common.{
  ℕ, String, string_eq, Bool, true, false, Option, none, some, List, [], ◌∷◌, ◌≡◌, refl, sym, ap,
  ◌∙◌, ◌==◌, if◌then◌else◌, inl, inr, ok, err,
}
use mcmanager.Domain.Values.{OperationStatus, queued, operation_status_eq}
use mcmanager.Operations.Rows.{Operation, terminal, in_flight, row_at, update_at}
use mcmanager.Operations.Policy.{OperationError, already_terminal}
use mcmanager.Operations.Engine.{Engine, cancel_rows, cancel_row}
use mcmanager.Operations.Milestones.{
  Milestone, start_row, transition, transition_row, write_milestone, persisted,
}
use mcmanager.Operations.Table.{
  row_at-update_at, row_at-update_at_self, row_at-append, row_at-id, changed,
}
use mcmanager.Operations.Effects.{operations-write_milestone, row-write_milestone}
use mcmanager.Operations.Cancel.{row_at-cancel_row, cancelled_row}
use mcmanager.Operations.Calls.{Call, perform, run, quiet, inserts, claims, moves, perform-Change}

abbrev pub there : Option Operation → Bool
there none = false
there (some r) = true

pub there-changed :
    (op_id : String) (guard : Operation → Bool) (set : Operation → Operation) (o : Option Operation)
    → there (changed op_id guard set o) ≡ there o
there-changed op_id guard set none = refl
there-changed op_id guard set (some r) = refl

there-append :
    (o : Option Operation) (b : Bool) (r : Operation)
    → there o ≡ true
    → there (elim o [ none ↦ if b then some r else none | some x ↦ some x ]) ≡ true
there-append none b r h = cc h
there-append (some x) b r h = refl

there-cancel_rows :
    (now : ℕ) (code : String) (j : String) (cs rows : List Operation)
    → there (row_at j (cancel_rows now code cs rows)) ≡ there (row_at j rows)
unfolding cancel_rows
there-cancel_rows now code j [] rows = refl
there-cancel_rows now code j (c ∷ cs) rows =
    there-cancel_rows now code j cs (cancel_row now code c rows)
    ∙ ap there (row_at-cancel_row now code c j rows)
    ∙ there-changed c.op_id (λ r. in_flight r.status) (cancelled_row now code) (row_at j rows)

perform-there :
    (j : String) (c : Call) (s : Engine)
    → there (row_at j s.operations) ≡ true
    → there (row_at j (perform c s).operations) ≡ true
perform-there j c s h = elim (perform-Change c s) [
  | quiet same ↦ ap (λ rows. there (row_at j rows)) same.operations ∙ h
  | inserts request initial allow op_id now row is k ↦
      let v = k.verdict in
      let rows = cancel_rows now v.error_code v.superseded s.operations in
      ap (λ rows. there (row_at j rows)) k.inserted.operations
      ∙ ap there (row_at-append j rows row)
      ∙ there-append (row_at j rows) (row.op_id == j) row
          (there-cancel_rows now v.error_code j v.superseded s.operations ∙ h)
  | claims op_id now claimed is k ↦
      ap (λ rows. there (row_at j rows)) k.operations
      ∙ ap there (
          row_at-update_at op_id (λ x. x.status == queued) (start_row now) (λ x _. refl) j
            s.operations)
      ∙ there-changed op_id (λ x. x.status == queued) (start_row now) (row_at j s.operations)
      ∙ h
  | moves op_id status m nid now u is k ↦ elim k.effect [
    | inl (_, same, _) ↦ ap (λ rows. there (row_at j rows)) same.operations ∙ h
    | inr (_, id, _, ops, _, _) ↦
        ap (λ rows. there (row_at j rows)) ops
        ∙ ap there
            (row_at-update_at k.row.op_id (λ x. true) (λ x. u) (λ x q. id ∙ sym q) j s.operations)
        ∙ there-changed k.row.op_id (λ x. true) (λ x. u) (row_at j s.operations)
        ∙ h
  ]
]

pub run-there :
    (j : String) (calls : List Call) (s : Engine)
    → there (row_at j s.operations) ≡ true
    → there (row_at j (run calls s).operations) ≡ true
unfolding run
run-there j [] s h = h
run-there j (c ∷ calls) s h = run-there j calls (perform c s) (perform-there j c s h)

-- a transition of a row that has not ended to a status that is written
pub transition_ends :
    (op_id : String) (st : OperationStatus) (m : Milestone) (nid : String) (now : ℕ) (e : Engine)
    (row : Operation)
    → persisted st ≡ true
    → row_at op_id e.operations ≡ some row
    → terminal row.status ≡ false
    → (t : Engine) × (u : Operation) × (transition op_id st m nid now e ≡ ok (t, u))
      × (row_at op_id t.operations ≡ some u)
      × (u.status ≡ st)
unfolding transition transition_row
transition_ends op_id st m nid now e row kept f going =
    let w = write_milestone st m nid now row e in
    let here : row.op_id ≡ op_id = row_at-id op_id e.operations f in
    let moved : transition_row st m nid now row e ≡ ok w = rw (going, kept) refl in
    (
      w.0,
      w.1,
      ap
            (λ (o : Option Operation). elim o [
              | none ↦ err OperationError.not_found
              | some r ↦ transition_row st m nid now r e
            ])
            f
          ∙ moved,
      ap (row_at op_id) (operations-write_milestone st m nid now row e)
          ∙ ap (λ (k : String). row_at op_id (update_at k (λ r. true) (λ r. w.1) e.operations)) here
          ∙ row_at-update_at_self op_id (λ r. true) (λ r. w.1)
              (λ x q. (row-write_milestone st m nid now row e).0 ∙ here ∙ sym q) e.operations f
              refl,
      (row-write_milestone st m nid now row e).1,
    )

-- a row that has ended is not moved
pub transition_refused :
    (op_id : String) (st : OperationStatus) (m : Milestone) (nid : String) (now : ℕ) (e : Engine)
    (row : Operation)
    → row_at op_id e.operations ≡ some row
    → terminal row.status ≡ true
    → transition op_id st m nid now e ≡ err already_terminal
unfolding transition transition_row
transition_refused op_id st m nid now e row f over =
    ap
      (λ (o : Option Operation). elim o [
        | none ↦ err OperationError.not_found
        | some r ↦ transition_row st m nid now r e
      ])
      f
    ∙ rw over refl
