-- ===== src/Operations/Idempotent.antt =====
-- An idempotency key names one operation for ever (app/services/operations.py).
use mcmanager.Common.{
  ℕ, String, string_eq, option_eq, Bool, true, false, ◌&&◌, Option, none, some, List, [], ◌∷◌, ◌++◌,
  ◌==◌, ◌≡◌, refl, sym, ap, ◌∙◌, Bool-cases, inl, inr, find, holds, All, All-map, beq→eq, ok,
}
use mcmanager.Domain.Values.{OperationType, OperationStatus, operation_type_eq, operation_status_eq}
use mcmanager.Operations.Rows.{Operation, OperationInput, in_flight, row_at, update_at}
use mcmanager.Operations.Engine.{Engine, get_by_idempotency_key, cancel_row, cancel_rows}
use mcmanager.Operations.Methods.{create_with_replay, replay_of}
use mcmanager.Operations.Milestones.{start_row}
use mcmanager.Operations.Table.{row_at-id, Distinct, All-row_at}
use mcmanager.Operations.Calls.{Call, perform, run, quiet, inserts, claims, moves, perform-Change}
use mcmanager.Operations.Terminal.{perform-Distinct}

and_true : (a b : Bool) → (a && b) ≡ true → a ≡ true
and_true true b h = refl
and_true false b h = h

some-injective : {A : Type 0} {a b : A} → some a ≡ some b → a ≡ b
some-injective h = cc h

abbrev keyed : OperationType → String → Operation → Bool
keyed op_type key row = row.op_type == op_type && holds row.idempotency_key key

-- the identifier of the operation that a key names
abbrev pub id_of : Option Operation → Option String
id_of none = none
id_of (some row) = some row.op_id

module _ (op_type : OperationType) (key : String) where
  abbrev named : List Operation → Option String
  named rows = id_of (find (keyed op_type key) rows)

  -- an update that keeps identifier, type and key of each row that it changes
  named-update_at :
      (op_id : String) (guard : Operation → Bool) (set : Operation → Operation)
      (rows : List Operation)
      → All
          (λ r.
            r.op_id ≡ op_id
            → ((set r).op_id ≡ r.op_id)
              × ((set r).op_type ≡ r.op_type)
              × ((set r).idempotency_key ≡ r.idempotency_key))
          rows
      → named (update_at op_id guard set rows) ≡ named rows
  unfolding update_at
  named-update_at op_id guard set [] k = refl
  named-update_at op_id guard set (r ∷ rows) k =
      let rest = named-update_at op_id guard set rows k.1 in
      elim (Bool-cases (r.op_id == op_id && guard r)) [
        | inl e ↦
            let (id, ty, ky) =
              k.0 (beq→eq r.op_id op_id (and_true (r.op_id == op_id) (guard r) e)) in
            elim (Bool-cases (keyed op_type key r)) [
              | inl q ↦ rw (e, ty, ky, q) (ap some id)
              | inr q ↦ rw (e, ty, ky, q) rest
            ]
        | inr e ↦ elim (Bool-cases (keyed op_type key r)) [
          | inl q ↦ rw (e, q)
          | inr q ↦ rw (e, q) rest
        ]
      ]

  All-any :
      {P : Operation → Type 0} → ((r : Operation) → P r) → (rows : List Operation) → All P rows
  All-any f [] = tt
  All-any f (r ∷ rows) = (f r, All-any f rows)

  named-cancel_rows :
      (now : ℕ) (code : String) (cs rows : List Operation)
      → named (cancel_rows now code cs rows) ≡ named rows
  unfolding cancel_rows cancel_row
  named-cancel_rows now code [] rows = refl
  named-cancel_rows now code (c ∷ cs) rows =
      named-cancel_rows now code cs (cancel_row now code c rows)
      ∙ named-update_at c.op_id (λ r. in_flight r.status) _ rows
          (All-any (λ r _. (refl, refl, refl)) rows)

  named-append :
      (rows : List Operation) (row : Operation) {i : String}
      → named rows ≡ some i
      → named (rows ++ row ∷ []) ≡ some i
  named-append [] row h = cc h
  named-append (r ∷ rows) row h = elim (Bool-cases (keyed op_type key r)) [
    | inl q ↦ rw q (rw q at h)
    | inr q ↦ rw q (named-append rows row (rw q at h))
  ]

  -- the only row with the identifier is the one that the transition found
  one_row :
      (s : Engine) (op_id : String) (row u : Operation)
      → row_at op_id s.operations ≡ some row
      → u.op_id ≡ row.op_id
      → (u.op_type ≡ row.op_type) × (u.idempotency_key ≡ row.idempotency_key)
      → Distinct s.operations
      → All
          (λ r.
            r.op_id ≡ row.op_id
            → (u.op_id ≡ r.op_id)
              × (u.op_type ≡ r.op_type)
              × (u.idempotency_key ≡ r.idempotency_key))
          s.operations
  one_row s op_id row u f id same d = All-map kept s.operations (All-row_at s.operations d)
    where
      kept :
          (r : Operation)
          → row_at r.op_id s.operations ≡ some r
          → r.op_id ≡ row.op_id
          → (u.op_id ≡ r.op_id) × (u.op_type ≡ r.op_type) × (u.idempotency_key ≡ r.idempotency_key)
      kept r found q =
          let one : row ≡ r = some-injective (
            sym f
            ∙ ap (λ (k : String). row_at k s.operations)
                (sym (row_at-id op_id s.operations f) ∙ sym q)
            ∙ found) in
          (
            id ∙ ap (λ (x : Operation). x.op_id) one,
            same.0 ∙ ap (λ (x : Operation). x.op_type) one,
            same.1 ∙ ap (λ (x : Operation). x.idempotency_key) one,
          )

  perform-named :
      (c : Call) (s : Engine) {i : String}
      → Distinct s.operations
      → named s.operations ≡ some i
      → named (perform c s).operations ≡ some i
  perform-named c s d h = elim (perform-Change c s) [
    | quiet same ↦ ap named same.operations ∙ h
    | inserts request initial allow op_id now row is k ↦
        let v = k.verdict in
        ap named k.inserted.operations
        ∙ named-append (cancel_rows now v.error_code v.superseded s.operations) row
            (named-cancel_rows now v.error_code v.superseded s.operations ∙ h)
    | claims op_id now row is k ↦
        ap named k.operations
        ∙ named-update_at op_id _ (start_row now) s.operations
            (All-any (λ r _. (refl, refl, refl)) s.operations)
        ∙ h
    | moves op_id st m nid now u is k ↦ elim k.effect [
      | inl (_, same, _) ↦ ap named same.operations ∙ h
      | inr (_, id, _, ops, _, _) ↦
          ap named ops
          ∙ named-update_at k.row.op_id _ (λ r. u) s.operations
              (one_row s op_id k.row u k.found id k.same_key d)
          ∙ h
    ]
  ]

  run-named :
      (calls : List Call) (s : Engine) {i : String}
      → Distinct s.operations
      → named s.operations ≡ some i
      → named (run calls s).operations ≡ some i
  unfolding run
  run-named [] s d h = h
  run-named (c ∷ calls) s d h =
      run-named calls (perform c s) (perform-Distinct c s d) (perform-named c s d h)

id_of-some :
    (o : Option Operation) {i : String}
    → id_of o ≡ some i
    → (row : Operation) × (o ≡ some row) × (row.op_id ≡ i)
id_of-some none h = cc h
id_of-some (some row) h = (row, refl, some-injective h)

by_key :
    (request : OperationInput) (s : Engine) (row : Operation) (key : String)
    → request.idempotency_key ≡ some key
    → get_by_idempotency_key s request.op_type key ≡ some row
    → replay_of s request ≡ some row
by_key request s row key k found =
    ap
      (λ (o : Option String). elim o [
        | none ↦ none
        | some name ↦ get_by_idempotency_key s request.op_type name
      ])
      k
    ∙ found

answered :
    (request : OperationInput) (s : Engine) (row : Operation) (initial : OperationStatus)
    (allow : Bool) (fresh_id : String) (now : ℕ)
    → replay_of s request ≡ some row
    → create_with_replay request initial allow fresh_id now s ≡ ok (s, row, true)
unfolding create_with_replay
answered request s row initial allow fresh_id now f = rw (f, create_with_replay) refl

-- Once an operation has an idempotency key, every later request of its type with this key, after any
-- calls, is answered with the operation of the same identifier, as a replay, and changes nothing.
pub replayed_for_ever :
    (request : OperationInput) (key op_id : String) (calls : List Call) (s : Engine)
    (initial : OperationStatus) (allow : Bool) (fresh_id : String) (now : ℕ)
    → Distinct s.operations
    → request.idempotency_key ≡ some key
    → id_of (get_by_idempotency_key s request.op_type key) ≡ some op_id
    → (row : Operation) × (create_with_replay request initial allow fresh_id now (run calls s)
        ≡ ok (run calls s, row, true))
      × (row.op_id ≡ op_id)
unfolding get_by_idempotency_key
replayed_for_ever request key op_id calls s initial allow fresh_id now d k h =
    let (row, found, id) =
      id_of-some (find (keyed request.op_type key) (run calls s).operations)
        (run-named request.op_type key calls s d h) in
    (
      row,
      answered request (run calls s) row initial allow fresh_id now
          (by_key request (run calls s) row key k found),
      id,
    )
