-- ===== src/Auth/Tables.antt =====
-- Laws of the tables of app/services/auth.py: what a lookup sees after an update.
use mcmanager.Common.{
  String, string_eq, Bool, true, ◌&&◌, Option, none, some, List, [], ◌∷◌, ◌++◌, ◌==◌, ◌≡◌, refl,
  sym, ap, ◌∙◌, if◌then◌else◌, Bool-cases, inl, inr,
}
use mcmanager.Auth.Store.{
  User, SessionRow, user_at, live_user, update_user, session_at, update_sessions, is_none',
}

abbrev pub applied : {A : Type 0} → (A → A) → Option A → Option A
applied f none = none
applied f (some x) = some (f x)

-- the update of one user, on each row
abbrev pub one_user : String → (User → User) → User → User
one_user user_id set u = if u.user_id == user_id then set u else u

module _ (user_id : String) (set : User → User)
    (id : (u : User) → (set u).user_id ≡ u.user_id) where
  one_user-id : (u : User) → (one_user user_id set u).user_id ≡ u.user_id
  one_user-id u = elim (Bool-cases (u.user_id == user_id)) [ inl e ↦ rw e (id u) | inr e ↦ rw e ]

  pub user_at-update_user :
      (j : String) (users : List User)
      → user_at j (update_user user_id set users) ≡ applied (one_user user_id set) (user_at j users)
  unfolding user_at update_user
  user_at-update_user j [] = refl
  user_at-update_user j (u ∷ users) = elim (Bool-cases (u.user_id == j)) [
    | inl e ↦ rw (one_user-id u, e)
    | inr e ↦ rw (one_user-id u, e) (user_at-update_user j users)
  ]

  module _ (name : (u : User) → (set u).username ≡ u.username)
      (live : (u : User) → (set u).deleted_at ≡ u.deleted_at) where
    one_user-name : (u : User) → (one_user user_id set u).username ≡ u.username
    one_user-name u = elim (Bool-cases (u.user_id == user_id)) [
      | inl e ↦ rw e (name u)
      | inr e ↦ rw e
    ]

    one_user-live : (u : User) → (one_user user_id set u).deleted_at ≡ u.deleted_at
    one_user-live u = elim (Bool-cases (u.user_id == user_id)) [
      | inl e ↦ rw e (live u)
      | inr e ↦ rw e
    ]

    pub live_user-update_user :
        (username : String) (users : List User)
        → live_user username (update_user user_id set users)
          ≡ applied (one_user user_id set) (live_user username users)
    unfolding live_user update_user
    live_user-update_user username [] = refl
    live_user-update_user username (u ∷ users) =
        elim (Bool-cases (u.username == username && is_none' u.deleted_at)) [
          | inl e ↦ rw (one_user-name u, one_user-live u, e)
          | inr e ↦ rw (one_user-name u, one_user-live u, e) (live_user-update_user username users)
        ]

-- the update of the sessions that a test picks, on each row
abbrev pub one_session : (SessionRow → Bool) → (SessionRow → SessionRow) → SessionRow → SessionRow
one_session guard set r = if guard r then set r else r

pub session_at-update_sessions :
    (guard : SessionRow → Bool) (set : SessionRow → SessionRow)
    → ((r : SessionRow) → (set r).session_id ≡ r.session_id)
    → (j : String) (rows : List SessionRow)
    → session_at j (update_sessions guard set rows)
      ≡ applied (one_session guard set) (session_at j rows)
unfolding session_at update_sessions
session_at-update_sessions guard set id j [] = refl
session_at-update_sessions guard set id j (r ∷ rows) =
    let same : (one_session guard set r).session_id ≡ r.session_id = elim (Bool-cases (guard r)) [
      | inl e ↦ rw e (id r)
      | inr e ↦ rw e
    ] in
    elim (Bool-cases (r.session_id == j)) [
      | inl e ↦ rw (same, e)
      | inr e ↦ rw (same, e) (session_at-update_sessions guard set id j rows)
    ]

pub session_at-id :
    (j : String) (rows : List SessionRow) {r : SessionRow}
    → session_at j rows ≡ some r
    → (r.session_id == j) ≡ true
unfolding session_at
session_at-id j [] h = cc h
session_at-id j (x ∷ rows) {r} h = elim (Bool-cases (x.session_id == j)) [
  | inl e ↦
      let same : x ≡ r = cc (rw e at h) in ap (λ (y : SessionRow). y.session_id == j) (sym same) ∙ e
  | inr e ↦ session_at-id j rows (rw e at h)
]

pub session_at-append :
    (j : String) (rows : List SessionRow) (r : SessionRow)
    → session_at j rows ≡ none
    → (r.session_id == j) ≡ true
    → session_at j (rows ++ r ∷ []) ≡ some r
unfolding session_at
session_at-append j [] r h e = rw e
session_at-append j (x ∷ rows) r h e = elim (Bool-cases (x.session_id == j)) [
  | inl q ↦ cc (rw q at h)
  | inr q ↦ rw q (session_at-append j rows r (rw q at h) e)
]

pub session_at-append_old :
    (j : String) (rows : List SessionRow) (r : SessionRow) {x : SessionRow}
    → session_at j rows ≡ some x
    → session_at j (rows ++ r ∷ []) ≡ some x
unfolding session_at
session_at-append_old j [] r h = cc h
session_at-append_old j (y ∷ rows) r h = elim (Bool-cases (y.session_id == j)) [
  | inl q ↦ rw q (rw q at h)
  | inr q ↦ rw q (session_at-append_old j rows r (rw q at h))
]
