-- ===== src/Notifications/Single.antt =====
-- An operation has at most one notification, and the markers of a user are their own
-- (app/services/notifications.py).
use mcmanager.Common.{
  ℕ, String, string_eq, option_eq, Bool, true, ◌&&◌, Option, none, some, List, [], ◌∷◌, ◌++◌, ◌==◌,
  ◌≡◌, refl, sym, ap, ◌∙◌, ◌≤◌, ◌+◌, arith, if◌then◌else◌, Bool-cases, Option-cases, inl, inr,
  filter, holds, length, beq_refl, beq→eq,
}
use mcmanager.Notifications.{
  marker_of, read_time, dismissed_time, Notification, NotificationRead, Rule, about_operation,
  notification_for, publish_once, upsert_read, mark_read, dismiss,
}

-- the notifications of an operation
abbrev pub count_about : String → List Notification → ℕ
count_about op_id rows = length (filter (λ n. holds n.related_operation_id op_id) rows)

count-append :
    (j : String) (rows : List Notification) (n : Notification)
    → count_about j (rows ++ n ∷ [])
      ≡ count_about j rows + (if holds n.related_operation_id j then 1 else 0)
count-append j [] n = elim (Bool-cases (holds n.related_operation_id j)) [
  | inl e ↦ rw e refl
  | inr e ↦ rw e refl
]
count-append j (x ∷ rows) n =
    let rest = count-append j rows n in
    elim (Bool-cases (holds x.related_operation_id j)) [
      | inl e ↦ rw e (omega (arith, rest))
      | inr e ↦ rw e rest
    ]

count-none :
    (j : String) (rows : List Notification) → about_operation j rows ≡ none → count_about j rows ≡ 0
unfolding about_operation
count-none j [] h = refl
count-none j (x ∷ rows) h = elim (Bool-cases (holds x.related_operation_id j)) [
  | inl e ↦ cc (rw e at h)
  | inr e ↦ rw e (count-none j rows (rw e at h))
]

about_new :
    (nid op_id : String) (world_id : Option String) (now : ℕ) (rule : Rule)
    → (notification_for nid op_id world_id now rule).related_operation_id ≡ some op_id
unfolding notification_for
about_new nid op_id world_id now (c, v, m) = refl

count-publish :
    (j nid op_id : String) (world_id : Option String) (now : ℕ) (rule : Rule)
    (rows : List Notification)
    → about_operation op_id rows ≡ none
    → count_about j rows ≤ 1
    → count_about j (rows ++ notification_for nid op_id world_id now rule ∷ []) ≤ 1
count-publish j nid op_id world_id now rule rows f h =
    let sum : count_about j (rows ++ notification_for nid op_id world_id now rule ∷ [])
        ≡ count_about j rows + (if op_id == j then 1 else 0) =
      count-append j rows (notification_for nid op_id world_id now rule)
      ∙ ap (λ (o : Option String). count_about j rows + (if holds o j then 1 else 0))
          (about_new nid op_id world_id now rule) in
    elim (Bool-cases (op_id == j)) [
      | inl e ↦
          let zero =
            count-none j rows (ap (λ k. about_operation k rows) (sym (beq→eq op_id j e)) ∙ f) in
          omega (arith, (rw e at sum), zero)
      | inr e ↦ omega (arith, (rw e at sum), h)
    ]

-- Publishing the notification of an ended operation, however often it is done, leaves every operation
-- with at most one notification.
pub publish_once-single :
    (j nid op_id : String) (world_id : Option String) (now : ℕ) (rule : Option Rule)
    (rows : List Notification)
    → count_about j rows ≤ 1
    → count_about j (publish_once nid op_id world_id now rule rows) ≤ 1
unfolding publish_once
publish_once-single j nid op_id world_id now none rows h = h
publish_once-single j nid op_id world_id now (some rule) rows h =
    elim (Option-cases (about_operation op_id rows)) [
      | inl f ↦ rw f (count-publish j nid op_id world_id now rule rows f h)
      | inr (n, f) ↦ rw f h
    ]

abbrev set_or_fresh :
    NotificationRead
    → (NotificationRead → NotificationRead)
    → Option NotificationRead
    → NotificationRead
set_or_fresh fresh set none = fresh
set_or_fresh fresh set (some r) = set r

abbrev pub matches : String → String → NotificationRead → Bool
matches notification_id user_id r = r.notification_id == notification_id && r.user_id == user_id

pub marker-upsert :
    (nid user_id : String) (fresh : NotificationRead) (set : NotificationRead → NotificationRead)
    → matches nid user_id fresh ≡ true
    → ((r : NotificationRead) → matches nid user_id (set r) ≡ matches nid user_id r)
    → (rows : List NotificationRead)
    → marker_of nid user_id (upsert_read nid user_id fresh set rows)
      ≡ some (set_or_fresh fresh set (marker_of nid user_id rows))
unfolding upsert_read marker_of
marker-upsert nid user_id fresh set is keeps [] = rw is refl
marker-upsert nid user_id fresh set is keeps (r ∷ rows) =
    elim (Bool-cases (matches nid user_id r)) [
      | inl e ↦ rw e (rw (keeps r ∙ e) refl)
      | inr e ↦ rw e (rw e (marker-upsert nid user_id fresh set is keeps rows))
    ]

-- Reading marks the time for this user and keeps the user's dismissal, and dismissing the other way
-- round.
pub markers_independent :
    (nid user_id : String) (now : ℕ) (rows : List NotificationRead)
    → (read_time (marker_of nid user_id (mark_read nid user_id now rows)) ≡ some now)
      × (dismissed_time (marker_of nid user_id (mark_read nid user_id now rows))
          ≡ dismissed_time (marker_of nid user_id rows))
      × (dismissed_time (marker_of nid user_id (dismiss nid user_id now rows)) ≡ some now)
      × (read_time (marker_of nid user_id (dismiss nid user_id now rows))
          ≡ read_time (marker_of nid user_id rows))
unfolding mark_read dismiss
markers_independent nid user_id now rows =
    let read : NotificationRead = record {
      notification_id = nid;
      user_id = user_id;
      read_at = some now;
      dismissed_at = none;
    } in
    let hidden : NotificationRead = record {
      notification_id = nid;
      user_id = user_id;
      read_at = none;
      dismissed_at = some now;
    } in
    let m =
      marker-upsert nid user_id read (λ r. record r { read_at = some now })
        (rw (beq_refl nid, beq_refl user_id) refl) (λ r. refl) rows in
    let d =
      marker-upsert nid user_id hidden (λ r. record r { dismissed_at = some now })
        (rw (beq_refl nid, beq_refl user_id) refl) (λ r. refl) rows in
    elim (Option-cases (marker_of nid user_id rows)) [
      | inl f ↦ (
        ap read_time m ∙ rw f refl,
        ap dismissed_time m ∙ rw f refl,
        ap dismissed_time d ∙ rw f refl,
        ap read_time d ∙ rw f refl,
      )
      | inr (r, f) ↦ (
        ap read_time m ∙ rw f refl,
        ap dismissed_time m ∙ rw f refl,
        ap dismissed_time d ∙ rw f refl,
        ap read_time d ∙ rw f refl,
      )
    ]
