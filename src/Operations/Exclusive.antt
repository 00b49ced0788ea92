-- ===== src/Operations/Exclusive.antt =====
-- At most one operation of a world is active at a time, when every operation is created `Queued` and
-- is made `Running` by a dispatcher's claim (app/services/operations.py).
use mcmanager.Common.{
  ℕ, String, string_eq, Bool, true, false, Option, none, some, List, [], ◌∷◌, ◌≡◌, ◌≢◌, refl, sym,
  ap, ◌∙◌, ◌==◌, beq_refl, beq→eq, arith, Bool-cases, ◌⊎◌, inl, inr, subst, holds,
}
use mcmanager.Domain.Values.{
  OperationStatus, created, queued, validating, running, completed, failed, cancelled, timed_out,
  operation_status_eq, OperationStatus-discrete,
}
use mcmanager.Operations.Rows.{Operation, OperationInput, active, row_at, update_at}
use mcmanager.Operations.Engine.{Engine, has_active, cancel_rows}
use mcmanager.Operations.Milestones.{start_row, locked, persisted}
use mcmanager.Operations.Table.{row_at-update_at_self, row_at-update_at_ne, row_at-id}
use mcmanager.Operations.Effects.{Moved}
use mcmanager.Operations.ClaimEffects.{Claimed}
use mcmanager.Operations.CreateEffects.{Creation}
use mcmanager.Operations.Terminal.{new_row-status}
use mcmanager.Operations.Calls.{
  Call, create, transit, perform, run, quiet, inserts, claims, moves, perform-Change,
}
use mcmanager.Operations.Activity.{
  and_left, and_right, both_true, ne-of_false, active_at, Sole, Shrinks, Shrinks-Sole,
  active_at-has_active, cancel_rows-Shrinks, append-Shrinks,
}

-- the row that a lookup finds is active
abbrev pub active_row : Option Operation → Bool
active_row none = false
active_row (some r) = active r.status

-- What the dispatchers and handlers do: an operation is created `Queued`, and it becomes `Running` by
-- a claim; a transition to `Running` only repeats what an active operation is.
abbrev pub Allowed : Call → Engine → Type 0
Allowed (create request initial allow op_id now) s = initial ≡ queued
Allowed (transit op_id status m notification_id now) s =
    (status ≡ running) → active_row (row_at op_id s.operations) ≡ true
Allowed _ s = Unit

abbrev pub Dispatched : List Call → Engine → Type 0
Dispatched [] s = Unit
Dispatched (c ∷ calls) s = Allowed c s × Dispatched calls (perform c s)

idle_status :
    (initial asked st : OperationStatus)
    → initial ≡ queued
    → (asked ≡ initial) ⊎ (asked ≡ queued)
    → (st ≡ asked) ⊎ (st ≡ queued)
    → active st ≡ false
idle_status initial asked st h p q = ground arith

-- a written status that is active was allowed, so that the row was active
still_active :
    (st old : OperationStatus)
    → persisted st ≡ true
    → active st ≡ true
    → (st ≡ running → active old ≡ true)
    → active old ≡ true
unfolding OperationStatus-discrete
still_active running old p a allowed = allowed refl
still_active created old p a allowed = cc p
still_active validating old p a allowed = cc p
still_active queued old p a allowed = cc a
still_active completed old p a allowed = cc a
still_active failed old p a allowed = cc a
still_active cancelled old p a allowed = cc a
still_active timed_out old p a allowed = cc a

lock_seen :
    (o : Option String) (w op_id : String) (rows : List Operation)
    → holds o w ≡ true
    → has_active w op_id rows ≡ true
    → locked o op_id rows ≡ true
lock_seen none w op_id rows h a = cc h
lock_seen (some v) w op_id rows h a = ap (λ k. has_active k op_id rows) (beq→eq v w h) ∙ a

true-ne-false : ◌≡◌ {A = Bool} true false → ⊥
true-ne-false h = cc

module _ (s t : Engine) where
  inserts-Shrinks :
      (request : OperationInput) (initial : OperationStatus) (op_id : String) (now : ℕ)
      (row : Operation)
      → initial ≡ queued
      → Creation request initial op_id now s t row
      → Shrinks s.operations t.operations
  inserts-Shrinks request initial op_id now row q k w j h =
      let v = k.verdict in
      let rows = cancel_rows now v.error_code v.superseded s.operations in
      let is : row.status ≡ v.status =
        ap (λ (x : Operation). x.status) k.inserted.row_is
        ∙ new_row-status request op_id v.status now in
      let idle = ap active is ∙ idle_status initial k.asked v.status q k.asked_is k.fits.status in
      cancel_rows-Shrinks now v.error_code v.superseded s.operations w j (
        append-Shrinks rows row idle w j
          (subst (λ l. active_at w (row_at j l) ≡ true) k.inserted.operations h))

  -- an update of one row to another of the same world, active only if it was
  update-Shrinks :
      (op_id : String) (row u : Operation)
      → row_at op_id s.operations ≡ some row
      → u.op_id ≡ row.op_id
      → u.world_id ≡ row.world_id
      → (active u.status ≡ true → active row.status ≡ true)
      → t.operations ≡ update_at row.op_id (λ r. true) (λ r. u) s.operations
      → Shrinks s.operations t.operations
  update-Shrinks op_id row u f id world was ops w j h = elim (Bool-cases (op_id == j)) [
    | inl e ↦
        let at_j = sym (beq→eq op_id j e) in
        let there : row_at row.op_id s.operations ≡ some row =
          ap (λ k. row_at k s.operations) (row_at-id op_id s.operations f) ∙ f in
        let after =
          ap (λ k. row_at k t.operations) (at_j ∙ sym (row_at-id op_id s.operations f))
          ∙ ap (row_at row.op_id) ops
          ∙ row_at-update_at_self row.op_id (λ r. true) (λ r. u) (λ x q. id ∙ sym q) s.operations
              there refl in
        let active_u : active_at w (some u) ≡ true = sym (ap (active_at w) after) ∙ h in
        ap (λ k. active_at w (row_at k s.operations)) at_j
        ∙ ap (active_at w) f
        ∙ both_true (ap (λ o. holds o w) (sym world) ∙ and_left _ _ active_u)
            (was (and_right _ _ active_u))
    | inr e ↦
        sym (
          ap (active_at w) (
            ap (row_at j) ops
            ∙ row_at-update_at_ne row.op_id (λ r. true) (λ r. u) (λ x q. id ∙ sym q) s.operations j
                (λ q. ne-of_false op_id j e (sym (row_at-id op_id s.operations f) ∙ q))))
        ∙ h
  ]

  moves-Shrinks :
      (op_id : String) (st : OperationStatus) (now : ℕ) (u : Operation)
      → Moved op_id st s t now u
      → (st ≡ running → active_row (row_at op_id s.operations) ≡ true)
      → Shrinks s.operations t.operations
  moves-Shrinks op_id st now u m allowed = elim m.effect [
    | inl (_, same, _) ↦ λ w j h. sym (ap (λ l. active_at w (row_at j l)) same.operations) ∙ h
    | inr (p, id, status, ops, audits, names) ↦
        update-Shrinks op_id m.row u m.found id m.same_world
          (λ a.
            still_active st m.row.status p (sym (ap active status) ∙ a)
              (λ q. sym (ap active_row m.found) ∙ allowed q))
          ops
  ]

  module _ (op_id : String) (now : ℕ) (c : Operation) (k : Claimed op_id s t now c) where
    there : row_at op_id t.operations ≡ some (start_row now k.row)
    there =
        ap (row_at op_id) k.operations
        ∙ row_at-update_at_self op_id (λ r. r.status == queued) (start_row now) (λ r _. refl)
            s.operations k.found
            (ap (λ st. st == OperationStatus.queued) k.was_queued ∙ beq_refl OperationStatus.queued)

    elsewhere :
        (x w : String)
        → op_id ≢ x
        → active_at w (row_at x t.operations) ≡ true
        → active_at w (row_at x s.operations) ≡ true
    elsewhere x w ne h =
        sym (
          ap (active_at w) (
            ap (row_at x) k.operations
            ∙ row_at-update_at_ne op_id (λ r. r.status == queued) (start_row now) (λ r _. refl)
                s.operations x ne))
        ∙ h

    -- a claim takes the world only when no other operation holds it
    unshared :
        (x w : String)
        → op_id ≢ x
        → active_at w (row_at op_id t.operations) ≡ true
        → active_at w (row_at x t.operations) ≡ true
        → ⊥
    unshared x w ne a b =
        let a' : active_at w (some (start_row now k.row)) ≡ true =
          sym (ap (active_at w) there) ∙ a in
        let seen = active_at-has_active w x op_id s.operations ne (elsewhere x w ne b) in
        true-ne-false
          (sym (lock_seen k.row.world_id w op_id s.operations (and_left _ _ a') seen) ∙ k.unlocked)

    claims-Sole : Sole s.operations → Sole t.operations
    claims-Sole sole w i j a b = elim (Bool-cases (op_id == i)) [
      | inl e ↦ elim (Bool-cases (op_id == j)) [
        | inl d ↦ sym (beq→eq op_id i e) ∙ beq→eq op_id j d
        | inr d ↦ absurd (
            unshared j w (ne-of_false op_id j d)
              (ap (λ x. active_at w (row_at x t.operations)) (beq→eq op_id i e) ∙ a) b)
      ]
      | inr e ↦ elim (Bool-cases (op_id == j)) [
        | inl d ↦ absurd (
            unshared i w (ne-of_false op_id i e)
              (ap (λ x. active_at w (row_at x t.operations)) (beq→eq op_id j d) ∙ b) a)
        | inr d ↦
            sole w i j (elsewhere i w (ne-of_false op_id i e) a)
              (elsewhere j w (ne-of_false op_id j d) b)
      ]
    ]

perform-Sole :
    (c : Call) (s : Engine) → Allowed c s → Sole s.operations → Sole (perform c s).operations
perform-Sole c s allowed sole = elim (perform-Change c s) [
  | quiet same ↦ subst Sole (sym same.operations) sole
  | inserts request initial allow op_id now row is k ↦
      Shrinks-Sole s.operations (perform c s).operations
        (inserts-Shrinks s (perform c s) request initial op_id now row
          (subst (λ x. Allowed x s) is allowed) k)
        sole
  | claims op_id now row is k ↦ claims-Sole s (perform c s) op_id now row k sole
  | moves op_id st m nid now u is k ↦
      Shrinks-Sole s.operations (perform c s).operations
        (moves-Shrinks s (perform c s) op_id st now u k (subst (λ x. Allowed x s) is allowed)) sole
]

-- When operations are created queued and start by a claim, then after any sequence of calls two
-- operations that are both Created, Validating or Running on one world are the same operation, if that
-- was so before.
pub one_active_operation :
    (calls : List Call) (s : Engine)
    → Dispatched calls s
    → Sole s.operations
    → Sole (run calls s).operations
unfolding run
one_active_operation [] s allowed sole = sole
one_active_operation (c ∷ calls) s allowed sole =
    one_active_operation calls (perform c s) allowed.1 (perform-Sole c s allowed.0 sole)
