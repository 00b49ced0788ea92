-- ===== src/Notifications/Listing.antt =====
-- The dropdown of a user (app/services/notifications.py).
use mcmanager.Common.{
  ℕ, String, string_eq, nat_eq, Bool, true, false, ◌&&◌, ◌||◌, List, [], ◌∷◌, ◌==◌, ◌≡◌, ◌≢◌, refl,
  sym, ap, ◌∙◌, Bool-cases, inl, inr, filter, map, sort_by, All, All-sort_by, ne→beq, beq→eq,
}
use mcmanager.Notifications.{
  Notification, NotificationRead, Listed, marker_of, dismissed_time, dismiss, upsert_read,
  by_urgency, joined, is_visible, is_none, list_for_user,
}
use mcmanager.Notifications.Single.{matches, markers_independent}

-- what a user has not dismissed
abbrev pub undismissed : String → Bool → List NotificationRead → Notification → Bool
undismissed user_id include_dismissed reads n =
    include_dismissed || is_none (dismissed_time (marker_of n.notification_id user_id reads))

false-ne-true : ◌≡◌ {A = Bool} false true → ⊥
false-ne-true h = cc h

second : (a b : Bool) → (a && b) ≡ true → b ≡ true
second true b h = h
second false b h = absurd (false-ne-true h)

never : (a : Bool) → (a && false) ≡ false
never true = refl
never false = refl

module _ (nid user other : String) (apart : other ≢ user) where
  not_theirs :
      (k : String) (r : NotificationRead) → matches nid user r ≡ true → matches k other r ≡ false
  not_theirs k r h =
      let same : r.user_id ≡ user =
        beq→eq r.user_id user (second (r.notification_id == nid) (r.user_id == user) h) in
      rw (ne→beq r.user_id other (λ q. apart (sym q ∙ same))) (never (r.notification_id == k))

  marker-other :
      (k : String) (fresh : NotificationRead) (set : NotificationRead → NotificationRead)
      → matches k other fresh ≡ false
      → ((r : NotificationRead) → matches k other (set r) ≡ matches k other r)
      → (reads : List NotificationRead)
      → marker_of k other (upsert_read nid user fresh set reads) ≡ marker_of k other reads
  unfolding marker_of upsert_read
  marker-other k fresh set is keeps [] = rw is refl
  marker-other k fresh set is keeps (r ∷ reads) = elim (Bool-cases (matches nid user r)) [
    | inl e ↦ rw e (rw (keeps r ∙ not_theirs k r e) (rw (not_theirs k r e) refl))
    | inr e ↦ rw e (elim (Bool-cases (matches k other r)) [
      | inl q ↦ rw q refl
      | inr q ↦ rw q (marker-other k fresh set is keeps reads)
    ])
  ]

  marker-dismiss :
      (k : String) (now : ℕ) (reads : List NotificationRead)
      → marker_of k other (dismiss nid user now reads) ≡ marker_of k other reads
  unfolding dismiss
  marker-dismiss k now reads =
      marker-other k _ _ (rw (ne→beq user other (λ q. apart (sym q))) (never (nid == k)))
        (λ r. refl) reads

  joined-dismiss :
      (now : ℕ) (reads : List NotificationRead) (rows : List Notification)
      → map (joined other (dismiss nid user now reads)) rows ≡ map (joined other reads) rows
  joined-dismiss now reads [] = refl
  joined-dismiss now reads (n ∷ rows) =
      rw (marker-dismiss n.notification_id now reads)
        (ap (λ rest. joined other reads n ∷ rest) (joined-dismiss now reads rows))

abbrev pub Spares : String → Listed → Type 0
Spares nid l = l.notification.notification_id ≢ nid

hidden :
    (nid user : String) (now : ℕ) (reads : List NotificationRead) (n : Notification)
    → n.notification_id ≡ nid
    → is_visible false (joined user (dismiss nid user now reads) n) ≡ false
hidden nid user now reads n same =
    let gone =
      ap (λ k. dismissed_time (marker_of k user (dismiss nid user now reads))) same
      ∙ (markers_independent nid user now reads).2 in
    ap is_none gone

spared :
    (nid user : String) (now : ℕ) (reads : List NotificationRead) (rows : List Notification)
    → All
        (Spares nid)
        (filter (is_visible false) (map (joined user (dismiss nid user now reads)) rows))
spared nid user now reads [] = tt
spared nid user now reads (n ∷ rows) =
    elim (Bool-cases (is_visible false (joined user (dismiss nid user now reads) n))) [
      | inl e ↦ rw e (
        (λ same. false-ne-true (sym (hidden nid user now reads n same) ∙ e)),
        spared nid user now reads rows,
      )
      | inr e ↦ rw e (spared nid user now reads rows)
    ]

-- A notification that a user has dismissed is no longer in the dropdown of this user, and the dropdowns
-- of all other users, and their lists with the dismissed ones, stay as they are.
pub dismissed_hidden :
    (nid user other : String) (now : ℕ) (include_dismissed : Bool) (reads : List NotificationRead)
    (rows : List Notification)
    → other ≢ user
    → All (Spares nid) (list_for_user user false (dismiss nid user now reads) rows)
      × (list_for_user other include_dismissed (dismiss nid user now reads) rows
          ≡ list_for_user other include_dismissed reads rows)
unfolding list_for_user
dismissed_hidden nid user other now include_dismissed reads rows apart = (
  All-sort_by by_urgency (Spares nid) _ (spared nid user now reads rows),
  ap (λ xs. sort_by by_urgency (filter (is_visible include_dismissed) xs))
      (joined-dismiss nid user other apart now reads rows),
)
