-- ===== src/Operations/Audited.antt =====
-- Every terminal operation has exactly one audit record, which agrees with its row, and no other
-- operation has one: `_write_terminal_audit` of app/services/operations.py stands in the transactions
-- that end operations.
use mcmanager.Common.{
  ℕ, String, string_eq, true, false, Option, none, some, List, [], ◌∷◌, ◌++◌, map, append-nil, ◌≡◌,
  ◌≢◌, refl, sym, ap, ◌∙◌, ◌==◌, beq_refl, beq→eq, if◌then◌else◌, arith, All, Bool-cases,
  Option-cases, ◌⊎◌, inl, inr, subst,
}
use mcmanager.Domain.Values.{OperationStatus, queued, operation_status_eq}
use mcmanager.Operations.Rows.{Operation, OperationInput, in_flight, terminal, row_at, update_at}
use mcmanager.Operations.Engine.{Engine, terminal_audit, cancel_rows}
use mcmanager.Operations.Milestones.{start_row}
use mcmanager.Operations.Table.{
  row_at-update_at, row_at-update_at_self, row_at-update_at_ne, row_at-id, row_at-append, changed,
}
use mcmanager.Operations.Effects.{SameStore, Moved}
use mcmanager.Operations.ClaimEffects.{Claimed}
use mcmanager.Operations.CreateEffects.{Creation}
use mcmanager.Operations.Cancel.{cancelled_row, reread-cancel_rows}
use mcmanager.Operations.Superseded.{superseded-Open}
use mcmanager.Operations.Terminal.{new_row-status, perform-Distinct}
use mcmanager.Operations.Calls.{
  Call, perform, run, quiet, inserts, claims, moves, perform-Change, Proper, run-keeps,
}
use mcmanager.Operations.Endings.{
  ending_of_row, endings, expected, IsAudited, endings-append, endings-one, in_flight-open,
  ne-of_false, expected-cancel_rows,
}

-- the status of an inserted row is in flight, if the caller asked for such a status
asked-in_flight :
    (initial asked st : OperationStatus)
    → in_flight initial ≡ true
    → (asked ≡ initial) ⊎ (asked ≡ queued)
    → (st ≡ asked) ⊎ (st ≡ queued)
    → in_flight st ≡ true
asked-in_flight initial asked st h p q = ground arith

expected-append :
    (j : String) (rows : List Operation) (r : Operation)
    → in_flight r.status ≡ true
    → expected (row_at j (rows ++ r ∷ [])) ≡ expected (row_at j rows)
expected-append j rows r h = elim (Option-cases (row_at j rows)) [
  | inl f ↦
      rw (row_at-append j rows r, f)
        (elim (Bool-cases (r.op_id == j)) [
          | inl e ↦ rw (e, in_flight-open r.status h)
          | inr e ↦ rw e
        ])
  | inr (x, f) ↦ rw (row_at-append j rows r, f)
]

-- a claim ends nothing
claims_expected :
    (op_id : String) (now : ℕ) (o : Option Operation)
    → expected o ≡ expected (changed op_id (λ r. r.status == queued) (start_row now) o)
claims_expected op_id now none = refl
claims_expected op_id now (some r) = ground (arith, operation_status_eq.beq_iff r.status queued)

module _ (s t : Engine) (old : IsAudited s) (j : String) where
  quiet-once : SameStore s t → endings j t.audits ≡ expected (row_at j t.operations)
  quiet-once same = rw (same.audits, same.operations) (old.once j)

  claims-once :
      (op_id : String) (now : ℕ) (c : Operation)
      → Claimed op_id s t now c
      → endings j t.audits ≡ expected (row_at j t.operations)
  claims-once op_id now c k =
      rw
        (
          k.audits,
          k.operations,
          row_at-update_at op_id (λ r. r.status == queued) (start_row now) (λ r _. refl) j
              s.operations,
        )
        (old.once j ∙ claims_expected op_id now (row_at j s.operations))

  inserts-once :
      (request : OperationInput) (initial : OperationStatus) (op_id : String) (now : ℕ)
      (row : Operation)
      → in_flight initial ≡ true
      → Creation request initial op_id now s t row
      → endings j t.audits ≡ expected (row_at j t.operations)
  inserts-once request initial op_id now row proper k =
      let v = k.verdict in
      let i = k.inserted in
      let (d, o) = superseded-Open request.world_id s.operations k.asked v k.fits old.distinct in
      let rows = cancel_rows now v.error_code v.superseded s.operations in
      let names = s.usernames in
      let status =
        asked-in_flight initial k.asked row.status proper k.asked_is
          (rw (i.row_is, new_row-status request op_id v.status now) k.fits.status) in
      ap (endings j) (
        i.audits
        ∙ ap (λ l. s.audits ++ map (terminal_audit now names) l)
            (reread-cancel_rows now v.error_code v.superseded s.operations d o))
      ∙ endings-append j s.audits
          (map (terminal_audit now names) (map (cancelled_row now v.error_code) v.superseded))
      ∙ ap
          (λ l.
            l
            ++ endings j (
                map (terminal_audit now names) (map (cancelled_row now v.error_code) v.superseded)))
          (old.once j)
      ∙ sym (expected-cancel_rows now v.error_code names j v.superseded s.operations d o)
      ∙ sym (expected-append j rows row status)
      ∙ ap (λ l. expected (row_at j l)) (sym i.operations)

  module _ (op_id : String) (now : ℕ) (row u : Operation) (f : row_at op_id s.operations ≡ some row)
      (was_open : terminal row.status ≡ false) (id : u.op_id ≡ row.op_id)
      (ops : t.operations ≡ update_at row.op_id (λ r. true) (λ r. u) s.operations) where
    here : op_id ≡ row.op_id
    here = sym (row_at-id op_id s.operations f)

    row_after : row_at op_id t.operations ≡ some u
    row_after =
        rw (ops, here)
          (row_at-update_at_self row.op_id (λ r. true) (λ r. u) (λ x q. id ∙ sym q) s.operations
            (rw here at f) refl)

    mine : (u.op_id == op_id) ≡ true
    mine = ap (λ k. k == op_id) (id ∙ sym here) ∙ beq_refl op_id

    theirs : (op_id == j) ≡ false → (u.op_id == j) ≡ false
    theirs e = ap (λ k. k == j) (id ∙ sym here) ∙ e

    no_record_yet : endings op_id s.audits ≡ []
    no_record_yet = old.once op_id ∙ rw (f, was_open)

    others_after : op_id ≢ j → row_at j t.operations ≡ row_at j s.operations
    others_after ne = rw ops (
        row_at-update_at_ne row.op_id (λ r. true) (λ r. u) (λ x q. id ∙ sym q) s.operations j
          (λ q. ne (here ∙ q)))

    ended-once :
        t.audits ≡ s.audits ++ terminal_audit now s.usernames u ∷ []
        → terminal u.status ≡ true
        → endings j t.audits ≡ expected (row_at j t.operations)
    ended-once audits ended = elim (Bool-cases (op_id == j)) [
      | inl e ↦
          let at_j = sym (beq→eq op_id j e) in
          ap (λ k. endings k t.audits) at_j
          ∙ ap (endings op_id) audits
          ∙ endings-append op_id s.audits (terminal_audit now s.usernames u ∷ [])
          ∙ ap (λ l. l ++ endings op_id (terminal_audit now s.usernames u ∷ [])) no_record_yet
          ∙ endings-one op_id now s.usernames u
          ∙ ap (λ b. if b then ending_of_row u ∷ [] else []) mine
          ∙ sym (ap (λ k. expected (row_at k t.operations)) at_j ∙ ap expected row_after ∙ rw ended)
      | inr e ↦
          let apart = ne-of_false op_id j e in
          ap (endings j) audits
          ∙ endings-append j s.audits (terminal_audit now s.usernames u ∷ [])
          ∙ ap (λ l. endings j s.audits ++ l)
              (endings-one j now s.usernames u
                ∙ ap (λ b. if b then ending_of_row u ∷ [] else []) (theirs e))
          ∙ append-nil _
          ∙ old.once j
          ∙ ap expected (sym (others_after apart))
    ]

    still-once :
        t.audits ≡ s.audits
        → terminal u.status ≡ false
        → endings j t.audits ≡ expected (row_at j t.operations)
    still-once audits going = elim (Bool-cases (op_id == j)) [
      | inl e ↦
          let at_j = sym (beq→eq op_id j e) in
          ap (λ k. endings k t.audits) at_j
          ∙ ap (endings op_id) audits
          ∙ no_record_yet
          ∙ sym (ap (λ k. expected (row_at k t.operations)) at_j ∙ ap expected row_after ∙ rw going)
      | inr e ↦
          ap (endings j) audits
          ∙ old.once j
          ∙ ap expected (sym (others_after (ne-of_false op_id j e)))
    ]

  moves-once :
      (op_id : String) (st : OperationStatus) (now : ℕ) (u : Operation)
      → Moved op_id st s t now u
      → endings j t.audits ≡ expected (row_at j t.operations)
  moves-once op_id st now u m = elim m.effect [
    | inl (_, same, _) ↦ quiet-once same
    | inr (is, id, status, ops, audits, names) ↦ elim (Bool-cases (terminal st)) [
      | inl e ↦
          ended-once op_id now m.row u m.found m.was_open id ops (rw e at audits)
            (ap terminal status ∙ e)
      | inr e ↦
          still-once op_id now m.row u m.found m.was_open id ops (rw e at audits)
            (ap terminal status ∙ e)
    ]
  ]

pub perform-IsAudited : (c : Call) (s : Engine) → Proper c → IsAudited s → IsAudited (perform c s)
perform-IsAudited c s proper old = record {
  distinct = perform-Distinct c s old.distinct;
  once = λ j. elim (perform-Change c s) [
    | quiet same ↦ quiet-once s (perform c s) old j same
    | inserts request initial allow op_id now row is k ↦
        inserts-once s (perform c s) old j request initial op_id now row (subst Proper is proper) k
    | claims op_id now row is k ↦ claims-once s (perform c s) old j op_id now row k
    | moves op_id st m nid now u is k ↦ moves-once s (perform c s) old j op_id st now u k
  ];
}

-- Over any sequence of calls that create operations in flight, the audit log has exactly one record of
-- each terminal operation, with the status, the error code and the message of its row, and no record
-- of any other operation.
pub IsAudited-once :
    (calls : List Call) (s : Engine) → All Proper calls → IsAudited s → IsAudited (run calls s)
IsAudited-once calls s proper old = run-keeps IsAudited perform-IsAudited calls s proper old
