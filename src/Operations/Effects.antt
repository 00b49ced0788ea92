-- ===== src/Operations/Effects.antt =====
-- What each method of the engine writes to the table of operations and to the audit log.
use mcmanager.Common.{
  subst, ℕ, String, string_eq, true, false, Option, some, List, [], ◌∷◌, ◌++◌, ◌≡◌, refl, sym, ap,
  ◌∙◌, ◌⊎◌, inl, inr, if◌then◌else◌, arith, Bool-cases, Option-cases, ok,
}
use mcmanager.Domain.Values.{OperationStatus, operation_status_eq}
use mcmanager.Operations.Rows.{Fields, Operation, terminal, row_at, update_at}
use mcmanager.Operations.Engine.{
  Engine, Event, publish, publish_terminal, publish_terminals, publish_status, terminal_audit,
}
use mcmanager.Operations.Methods.{publish_created}
use mcmanager.Operations.Milestones.{
  Milestone, transition, transition_row, persisted, note_in_memory, write_milestone, record_end,
  milestone_row, update_progress_in_memory,
}

-- the parts of the engine that its transactions write
pub record SameStore (s t : Engine) : Type 0 where
  pub operations : t.operations ≡ s.operations
  pub audits : t.audits ≡ s.audits
  pub notifications : t.notifications ≡ s.notifications
  pub usernames : t.usernames ≡ s.usernames

pub SameStore-refl : (s : Engine) → SameStore s s
SameStore-refl s = record {
  operations = refl;
  audits = refl;
  notifications = refl;
  usernames = refl;
}

pub SameStore-trans : {s t u : Engine} → SameStore s t → SameStore t u → SameStore s u
SameStore-trans a b = record {
  operations = b.operations ∙ a.operations;
  audits = b.audits ∙ a.audits;
  notifications = b.notifications ∙ a.notifications;
  usernames = b.usernames ∙ a.usernames;
}

publish-SameStore : (e : Event) (w : Option String) (s : Engine) → SameStore s (publish e w s)
unfolding publish
publish-SameStore e w s = ground arith

pub publish_terminal-SameStore :
    (row : Operation) (s : Engine) → SameStore s (publish_terminal row s)
unfolding publish_terminal
publish_terminal-SameStore row s = ground arith

pub publish_terminals-SameStore :
    (rows : List Operation) (s : Engine) → SameStore s (publish_terminals rows s)
unfolding publish_terminals
publish_terminals-SameStore [] s = SameStore-refl s
publish_terminals-SameStore (row ∷ rows) s =
    SameStore-trans (publish_terminal-SameStore row s)
      (publish_terminals-SameStore rows (publish_terminal row s))

pub publish_status-SameStore :
    (row : Operation) (st : OperationStatus) (c : Option Fields) (s : Engine)
    → SameStore s (publish_status row st c s)
unfolding publish_status
publish_status-SameStore row st c s = ground arith

pub publish_created-SameStore : (row : Operation) (s : Engine) → SameStore s (publish_created row s)
unfolding publish_created publish
publish_created-SameStore row s = ground arith

-- a progress tick touches no row
pub progress-SameStore :
    (op_id : String) (pct : ℕ) (step : String) (now : ℕ) (s : Engine) {t : Engine}
    → update_progress_in_memory op_id pct step now s ≡ ok t
    → SameStore s t
unfolding update_progress_in_memory publish
progress-SameStore op_id pct step now s h = ground arith

pub note_in_memory-SameStore :
    (st : OperationStatus) (m : Milestone) (row : Operation) (s : Engine)
    → SameStore s (note_in_memory st m row s)
unfolding note_in_memory publish_status
note_in_memory-SameStore st m row s = ground arith

module _ (st : OperationStatus) (m : Milestone) (nid : String) (now : ℕ) (row : Operation)
    (s : Engine) where
  pub operations-write_milestone :
      (write_milestone st m nid now row s).0.operations
      ≡ update_at row.op_id (λ r. true) (λ r. (write_milestone st m nid now row s).1) s.operations
  unfolding write_milestone publish_status record_end publish_terminal
  operations-write_milestone = ground arith

  pub audits-write_milestone : (write_milestone st m nid now row s).0.audits ≡ (
      if terminal st
      then s.audits ++ terminal_audit now s.usernames (write_milestone st m nid now row s).1 ∷ []
      else s.audits)
  unfolding write_milestone publish_status record_end publish_terminal
  audits-write_milestone = ground arith

  pub row-write_milestone :
      ((write_milestone st m nid now row s).1.op_id ≡ row.op_id)
      × ((write_milestone st m nid now row s).1.status ≡ st)
  unfolding write_milestone milestone_row
  row-write_milestone = ground arith

-- What a transition that returns has done.
pub record Moved (op_id : String) (st : OperationStatus) (s t : Engine) (now : ℕ)
    (updated : Operation) : Type 0 where
  pub row : Operation
  pub found : row_at op_id s.operations ≡ some row
  pub was_open : terminal row.status ≡ false
  pub same_world : updated.world_id ≡ row.world_id
  pub same_key : (updated.op_type ≡ row.op_type) × (updated.idempotency_key ≡ row.idempotency_key)
  pub effect :
      ((persisted st ≡ false) × SameStore s t × (updated ≡ row))
      ⊎ ((persisted st ≡ true)
          × (updated.op_id ≡ row.op_id)
          × (updated.status ≡ st)
          × (t.operations ≡ update_at row.op_id (λ r. true) (λ r. updated) s.operations)
          × (t.audits ≡ (
              if terminal st
              then s.audits ++ terminal_audit now s.usernames updated ∷ []
              else s.audits))
          × (t.usernames ≡ s.usernames))

pub usernames-write_milestone :
    (st : OperationStatus) (m : Milestone) (nid : String) (now : ℕ) (row : Operation) (s : Engine)
    → (write_milestone st m nid now row s).0.usernames ≡ s.usernames
unfolding write_milestone publish_status record_end publish_terminal
usernames-write_milestone st m nid now row s = ground arith

key-write_milestone :
    (st : OperationStatus) (m : Milestone) (nid : String) (now : ℕ) (row : Operation) (s : Engine)
    → ((write_milestone st m nid now row s).1.op_type ≡ row.op_type)
      × ((write_milestone st m nid now row s).1.idempotency_key ≡ row.idempotency_key)
unfolding write_milestone milestone_row
key-write_milestone st m nid now row s = ground arith

world-write_milestone :
    (st : OperationStatus) (m : Milestone) (nid : String) (now : ℕ) (row : Operation) (s : Engine)
    → (write_milestone st m nid now row s).1.world_id ≡ row.world_id
unfolding write_milestone milestone_row
world-write_milestone st m nid now row s = ground arith

module _ (op_id : String) (st : OperationStatus) (m : Milestone) (nid : String) (now : ℕ)
    (s : Engine) {t : Engine} {updated : Operation} where
  noted :
      (row : Operation)
      → row_at op_id s.operations ≡ some row
      → terminal row.status ≡ false
      → persisted st ≡ false
      → note_in_memory st m row s ≡ t
      → row ≡ updated
      → Moved op_id st s t now updated
  noted row f o n p q = record {
    row = row;
    found = f;
    was_open = o;
    same_world = ap (λ (x : Operation). x.world_id) (sym q);
    same_key = (
      ap (λ (x : Operation). x.op_type) (sym q),
      ap (λ (x : Operation). x.idempotency_key) (sym q),
    );
    effect = inl (n, subst (SameStore s) p (note_in_memory-SameStore st m row s), sym q);
  }

  wrote :
      (row : Operation)
      → row_at op_id s.operations ≡ some row
      → terminal row.status ≡ false
      → persisted st ≡ true
      → write_milestone st m nid now row s ≡ (t, updated)
      → Moved op_id st s t now updated
  wrote row f o is p =
      let pt = ap (λ (x : Engine × Operation). x.0) p in
      let pu = ap (λ (x : Engine × Operation). x.1) p in
      let (id, status) = row-write_milestone st m nid now row s in
      record {
        row = row;
        found = f;
        was_open = o;
        same_world =
            ap (λ (x : Operation). x.world_id) (sym pu) ∙ world-write_milestone st m nid now row s;
        same_key = (
          ap (λ (x : Operation). x.op_type) (sym pu) ∙ (key-write_milestone st m nid now row s).0,
          ap (λ (x : Operation). x.idempotency_key) (sym pu)
              ∙ (key-write_milestone st m nid now row s).1,
        );
        effect = inr (
          is,
          rw pu at id,
          rw pu at status,
          rw (pt, pu) at (operations-write_milestone st m nid now row s),
          rw (pt, pu) at (audits-write_milestone st m nid now row s),
          rw pt at (usernames-write_milestone st m nid now row s),
        );
      }

  transition_row-Moved :
      (row : Operation)
      → row_at op_id s.operations ≡ some row
      → transition_row st m nid now row s ≡ ok (t, updated)
      → Moved op_id st s t now updated
  unfolding transition_row
  transition_row-Moved row f h = elim (Bool-cases (terminal row.status)) [
    | inl ended ↦ cc (rw ended at h)
    | inr o ↦ elim (Bool-cases (persisted st)) [
      | inl store ↦ wrote row f o store (cc (rw (o, store) at h))
      | inr memory ↦ let h' = rw (o, memory) at h in noted row f o memory (cc h') (cc h')
    ]
  ]

  pub transition-Moved :
      transition op_id st m nid now s ≡ ok (t, updated) → Moved op_id st s t now updated
  unfolding transition
  transition-Moved h = elim (Option-cases (row_at op_id s.operations)) [
    | inl missing ↦ cc (rw (missing, transition) at h)
    | inr (row, f) ↦ transition_row-Moved row f (rw (f, transition) at h)
  ]
