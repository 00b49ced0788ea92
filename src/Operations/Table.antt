-- ===== src/Operations/Table.antt =====
-- Laws of the table of operations: what a lookup sees after an update and an insertion, and lists of
-- rows with different identifiers.
use mcmanager.Common.{
  String, string_eq, Bool, true, false, ◌&&◌, Option, none, some, List, [], ◌∷◌, ◌++◌, ◌≡◌, ◌≢◌,
  inl, inr, refl, sym, ap, ◌∙◌, ◌==◌, beq_refl, beq→eq, if◌then◌else◌, All, All-append, All-filter,
  All-both, ne→beq, filter, Bool-cases, Option-cases, insert_by, sort_by, All-insert_by,
  All-sort_by,
}
use mcmanager.Operations.Rows.{Operation, row_at, update_at}

and_left : (a b : Bool) → (a && b) ≡ true → a ≡ true
and_left true b h = refl
and_left false b h = h

abbrev pub changed :
    String → (Operation → Bool) → (Operation → Operation) → Option Operation → Option Operation
changed op_id guard set none = none
changed op_id guard set (some r) = some (if r.op_id == op_id && guard r then set r else r)

module _ (op_id : String) (guard : Operation → Bool) (set : Operation → Operation)
    (keeps : (r : Operation) → r.op_id ≡ op_id → (set r).op_id ≡ r.op_id) where
  update_id : (r : Operation) → (if r.op_id == op_id && guard r then set r else r).op_id ≡ r.op_id
  update_id r = elim (Bool-cases (r.op_id == op_id && guard r)) [
    | inl e ↦ rw e (keeps r (beq→eq r.op_id op_id (and_left _ _ e)))
    | inr e ↦ rw e
  ]

  pub row_at-update_at :
      (j : String) (rows : List Operation)
      → row_at j (update_at op_id guard set rows) ≡ changed op_id guard set (row_at j rows)
  unfolding row_at update_at
  row_at-update_at j [] = refl
  row_at-update_at j (r ∷ rows) = elim (Bool-cases (r.op_id == j)) [
    | inl e ↦ rw (update_id r, e)
    | inr e ↦ rw (update_id r, e) (row_at-update_at j rows)
  ]

pub row_at-id :
    (j : String) (rows : List Operation) {r : Operation} → row_at j rows ≡ some r → r.op_id ≡ j
unfolding row_at
row_at-id j [] h = cc
row_at-id j (x ∷ rows) {r} h = elim (Bool-cases (x.op_id == j)) [
  | inl e ↦ let same : x ≡ r = cc (rw e at h) in rw (← same) (beq→eq x.op_id j e)
  | inr e ↦ row_at-id j rows (rw e at h)
]

module _ (op_id : String) (guard : Operation → Bool) (set : Operation → Operation)
    (keeps : (r : Operation) → r.op_id ≡ op_id → (set r).op_id ≡ r.op_id)
    (rows : List Operation) where
  pub row_at-update_at_self :
      {r : Operation}
      → row_at op_id rows ≡ some r
      → guard r ≡ true
      → row_at op_id (update_at op_id guard set rows) ≡ some (set r)
  row_at-update_at_self {r} f g =
      let same : (r.op_id == op_id) ≡ true =
        ap (λ t. t == op_id) (row_at-id op_id rows f) ∙ beq_refl op_id in
      row_at-update_at op_id guard set keeps op_id rows ∙ rw (f, same, g)

  pub row_at-update_at_ne :
      (j : String) → op_id ≢ j → row_at j (update_at op_id guard set rows) ≡ row_at j rows
  row_at-update_at_ne j ne = elim (Option-cases (row_at j rows)) [
    | inl f ↦ row_at-update_at op_id guard set keeps j rows ∙ rw f
    | inr (r, f) ↦
        let apart = ne→beq r.op_id op_id (λ q. ne (sym q ∙ row_at-id j rows f)) in
        row_at-update_at op_id guard set keeps j rows ∙ rw (f, apart)
  ]

pub row_at-append :
    (j : String) (rows : List Operation) (r : Operation)
    → row_at j (rows ++ r ∷ [])
      ≡ elim (row_at j rows) [ none ↦ if r.op_id == j then some r else none | some x ↦ some x ]
unfolding row_at
row_at-append j [] r = refl
row_at-append j (x ∷ rows) r = elim (Bool-cases (x.op_id == j)) [
  | inl e ↦ rw e
  | inr e ↦ rw e (row_at-append j rows r)
]

-- the rows have different identifiers
abbrev pub Distinct : List Operation → Type 0
Distinct [] = Unit
Distinct (r ∷ rows) = All (λ x. x.op_id ≢ r.op_id) rows × Distinct rows

pub Distinct-filter :
    (p : Operation → Bool) (rows : List Operation) → Distinct rows → Distinct (filter p rows)
Distinct-filter p [] d = tt
Distinct-filter p (r ∷ rows) d = elim (Bool-cases (p r)) [
  | inl e ↦ rw e (All-filter (λ x. x.op_id ≢ r.op_id) p rows d.0, Distinct-filter p rows d.1)
  | inr e ↦ rw e (Distinct-filter p rows d.1)
]

module _ (before : Operation → Operation → Bool) where
  Distinct-insert_by :
      (r : Operation) (rows : List Operation)
      → All (λ x. x.op_id ≢ r.op_id) rows
      → Distinct rows
      → Distinct (insert_by before r rows)
  unfolding insert_by
  Distinct-insert_by r [] a d = (tt, tt)
  Distinct-insert_by r (x ∷ rows) a d = elim (Bool-cases (before r x)) [
    | inl e ↦ rw e (a, d)
    | inr e ↦ rw e (
      All-insert_by before (λ y. y.op_id ≢ x.op_id) r rows (λ q. a.0 (sym q)) d.0,
      Distinct-insert_by r rows a.1 d.1,
    )
  ]

  pub Distinct-sort_by : (rows : List Operation) → Distinct rows → Distinct (sort_by before rows)
  unfolding sort_by
  Distinct-sort_by [] d = tt
  Distinct-sort_by (r ∷ rows) d =
      Distinct-insert_by r (sort_by before rows)
        (All-sort_by before (λ x. x.op_id ≢ r.op_id) rows d.0) (Distinct-sort_by rows d.1)

module _ (op_id : String) (guard : Operation → Bool) (set : Operation → Operation)
    (keeps : (r : Operation) → r.op_id ≡ op_id → (set r).op_id ≡ r.op_id) where
  -- what holds of the identifiers holds after an update
  All-update_at :
      (P : String → Type 0) (rows : List Operation)
      → All (λ x. P x.op_id) rows
      → All (λ x. P x.op_id) (update_at op_id guard set rows)
  unfolding update_at
  All-update_at P [] h = tt
  All-update_at P (r ∷ rows) h =
      (rw (update_id op_id guard set keeps r) h.0, All-update_at P rows h.1)

  pub Distinct-update_at :
      (rows : List Operation) → Distinct rows → Distinct (update_at op_id guard set rows)
  unfolding update_at
  Distinct-update_at [] d = tt
  Distinct-update_at (r ∷ rows) d =
      rw (update_id op_id guard set keeps r)
        (All-update_at (λ j. j ≢ r.op_id) rows d.0, Distinct-update_at rows d.1)

pub Distinct-append :
    (rows : List Operation) (r : Operation)
    → Distinct rows
    → row_at r.op_id rows ≡ none
    → Distinct (rows ++ r ∷ [])
unfolding row_at
Distinct-append [] r d h = (tt, tt)
Distinct-append (x ∷ rows) r d h = elim (Bool-cases (x.op_id == r.op_id)) [
  | inl e ↦ cc (rw e at h)
  | inr e ↦ (
    All-append (λ y. y.op_id ≢ x.op_id) rows (r ∷ []) d.0
        (λ q. cc (beq_refl r.op_id, ap (λ (t : String). t == r.op_id) q), tt),
    Distinct-append rows r d.1 (rw e at h),
  )
]

-- a row of a table with different identifiers is the one that a lookup finds
pub All-row_at :
    (rows : List Operation) → Distinct rows → All (λ r. row_at r.op_id rows ≡ some r) rows
unfolding row_at
All-row_at [] d = tt
All-row_at (r ∷ rows) d = (
  rw (beq_refl r.op_id),
  All-both (λ x ne same. rw (ne→beq r.op_id x.op_id (λ q. ne (sym q))) same) rows d.0
      (All-row_at rows d.1),
)
