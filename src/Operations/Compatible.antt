-- ===== src/Operations/Compatible.antt =====
-- The conflict policy of app/services/operations.py against an independent table: which operations in
-- flight a new operation may share its world with.
use mcmanager.Common.{
  String, Bool, true, false, not, ◌&&◌, ◌||◌, Option, List, [], ◌∷◌, ◌≡◌, refl, ◌⊎◌, inl, inr, ok,
  arith, any, all, filter, is_empty, Bool-cases, ok-injective, err-ne-ok, ap, sym,
}
use mcmanager.Domain.Values.{
  OperationType, start, stop, kill, backup, restore, cleanup, OperationStatus, operation_type_eq,
}
use mcmanager.Operations.Rows.{Operation, OperationInput, cleanup_scope}
use mcmanager.Operations.Policy.{
  Verdict, single_flight, has_type, is_backup_or_cleanup, queued_delete, runtime, policy_for,
  apply_conflict_policy, same_scope,
}

-- The table: a start, a stop and a kill go with backups and cleanups, a backup and a cleanup go with
-- these three and with their own kind, a restore only with restores. A kill takes the place of
-- stops, and a restore that of deletions that have not begun.
abbrev pub may_share : OperationType → Operation → Bool
may_share start row = has_type backup row || has_type cleanup row
may_share stop row = has_type backup row || has_type cleanup row
may_share kill row = has_type stop row || has_type backup row || has_type cleanup row
may_share backup row = runtime row.op_type || has_type backup row
may_share cleanup row = runtime row.op_type || has_type cleanup row
may_share restore row = has_type restore row || queued_delete row
may_share _ row = false

all-imp :
    (p q : Operation → Bool)
    → ((r : Operation) → p r ≡ true → q r ≡ true)
    → (rows : List Operation) → all p rows ≡ true
    → all q rows ≡ true
all-imp p q f [] h = refl
all-imp p q f (r ∷ rows) h = ground (arith, h, f r, all-imp p q f rows)

none-all :
    (p q : Operation → Bool)
    → ((r : Operation) → p r ≡ false → q r ≡ true)
    → (rows : List Operation) → any p rows ≡ false
    → all q rows ≡ true
none-all p q f [] h = refl
none-all p q f (r ∷ rows) h = ground (arith, h, f r, none-all p q f rows)

-- what is left without some rows
rest-all :
    (d q p : Operation → Bool)
    → ((r : Operation) → d r ≡ true → q r ≡ true)
    → ((r : Operation) → p r ≡ true → q r ≡ true)
    → (rows : List Operation) → all p (filter (λ r. not (d r)) rows) ≡ true
    → all q rows ≡ true
rest-all d q p f g [] h = refl
rest-all d q p f g (r ∷ rows) h = elim (Bool-cases (d r)) [
  | inl e ↦ let later = rest-all d q p f g rows (rw e at h) in ground (arith, later, e, f r)
  | inr e ↦
      let h' = rw e at h in
      let here : p r ≡ true = ground (arith, h') in
      let tail : all p (filter (λ r. not (d r)) rows) ≡ true = ground (arith, h') in
      let later = rest-all d q p f g rows tail in ground (arith, later, here, g r)
]

empty-all :
    (p : Operation → Bool) (rows : List Operation) → is_empty rows ≡ true → all p rows ≡ true
empty-all p [] h = refl
empty-all p (r ∷ rows) h = cc h

abbrev Shared : OperationType → List Operation → Verdict → Type 0
Shared op_type active v =
    (all (may_share op_type) active ≡ true)
    ⊎ ((op_type ≡ cleanup) × (v.status ≡ OperationStatus.queued))

policy_for-share :
    (op_type : OperationType) (scope : Option String) (active : List Operation)
    (status : OperationStatus) (v : Verdict)
    → policy_for op_type scope active status ≡ ok v
    → Shared op_type active v
unfolding policy_for
policy_for-share kill scope active status v h = elim (Bool-cases (all (has_type stop) active)) [
  | inl e ↦ inl (all-imp (has_type stop) _ (λ r q. ground (arith, q)) active e)
  | inr e ↦ elim (Bool-cases (all is_backup_or_cleanup active)) [
    | inl q ↦ inl (all-imp is_backup_or_cleanup _ (λ r t. ground (arith, t)) active q)
    | inr q ↦ absurd (err-ne-ok (rw (e, q) at h))
  ]
]
policy_for-share restore scope active status v h = elim (Bool-cases (any queued_delete active)) [
  | inl e ↦
      let rest = filter (λ row. not (queued_delete row)) active in
      elim (Bool-cases (is_empty rest)) [
        | inl none_left ↦ inl (
            rest-all queued_delete _ (has_type restore) (λ r q. ground (arith, q))
              (λ r q. ground (arith, q)) active (empty-all _ rest none_left))
        | inr some_left ↦ elim (Bool-cases (all (has_type restore) rest)) [
          | inl q ↦ inl (
              rest-all queued_delete _ (has_type restore) (λ r t. ground (arith, t))
                (λ r t. ground (arith, t)) active q)
          | inr q ↦ absurd (err-ne-ok (rw (e, some_left, q) at h))
        ]
      ]
  | inr e ↦ elim (Bool-cases (all (has_type restore) active)) [
    | inl q ↦ inl (all-imp (has_type restore) _ (λ r t. ground (arith, t)) active q)
    | inr q ↦ absurd (err-ne-ok (rw (e, q) at h))
  ]
]
policy_for-share backup scope active status v h =
    elim (Bool-cases (any (λ row. not (runtime row.op_type) && not (has_type backup row)) active)) [
      | inl e ↦ absurd (err-ne-ok (rw e at h))
      | inr e ↦ inl (
          none-all (λ row. not (runtime row.op_type) && not (has_type backup row)) _
            (λ r q. ground (arith, q)) active e)
    ]
policy_for-share cleanup scope active status v h =
    elim (Bool-cases (any (same_scope scope) active)) [
      | inl e ↦
          let is = ok-injective (rw e at h) in inr (refl, ap (λ (x : Verdict). x.status) (sym is))
      | inr e ↦
          elim (Bool-cases
            (any (λ row. not (runtime row.op_type) && not (has_type cleanup row)) active)) [
              | inl q ↦ absurd (err-ne-ok (rw (e, q) at h))
              | inr q ↦ inl (
                  none-all (λ row. not (runtime row.op_type) && not (has_type cleanup row)) _
                    (λ r t. ground (arith, t)) active q)
            ]
    ]
policy_for-share stop scope active status v h = elim (Bool-cases (any (has_type backup) active)) [
  | inl e ↦ elim (Bool-cases (any (λ row. not (is_backup_or_cleanup row)) active)) [
    | inl q ↦ absurd (err-ne-ok (rw (e, q) at h))
    | inr q ↦
        inl (none-all (λ row. not (is_backup_or_cleanup row)) _ (λ r t. ground (arith, t)) active q)
  ]
  | inr e ↦ elim (Bool-cases (all (has_type cleanup) active)) [
    | inl q ↦ inl (all-imp (has_type cleanup) _ (λ r t. ground (arith, t)) active q)
    | inr q ↦ absurd (err-ne-ok (rw (e, q) at h))
  ]
]
policy_for-share start scope active status v h =
    elim (Bool-cases (all is_backup_or_cleanup active)) [
      | inl e ↦ inl (all-imp is_backup_or_cleanup _ (λ r t. ground (arith, t)) active e)
      | inr e ↦ absurd (err-ne-ok (rw e at h))
    ]
policy_for-share _ scope active status v h = cc h

-- An operation that is admitted may share its world with every operation in flight there, by the
-- table, or it is a cleanup that waits.
pub policy_compatible :
    (request : OperationInput) (active : List Operation) (status : OperationStatus) (v : Verdict)
    → apply_conflict_policy request active status ≡ ok v
    → (all (may_share request.op_type) active ≡ true)
      ⊎ ((request.op_type ≡ cleanup) × (v.status ≡ OperationStatus.queued))
unfolding apply_conflict_policy
policy_compatible request active status v h = elim (Bool-cases (is_empty active)) [
  | inl e ↦ inl (empty-all _ active e)
  | inr e ↦
      elim (Bool-cases
        (any (has_type request.op_type) active && not (single_flight request.op_type))) [
          | inl twice ↦ absurd (err-ne-ok (rw (e, twice, apply_conflict_policy) at h))
          | inr once ↦
              policy_for-share request.op_type (cleanup_scope request.world_id request.data_json)
                active status v (rw (e, once, apply_conflict_policy) at h)
        ]
]
