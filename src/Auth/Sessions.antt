-- ===== src/Auth/Sessions.antt =====
-- Sessions are issued and revoked (app/services/auth.py).
use mcmanager.Common.{
  ℕ, String, string_eq, Bool, true, false, ◌&&◌, none, some, [], ◌∷◌, ◌++◌, ◌==◌, ◌≡◌, refl, sym,
  ap, ◌∙◌, ◌+◌, ◌-◌, ◌≤◌, arith, ltb, Bool-cases, Option-cases, inl, inr, beq_refl, lookup, ok, err,
  ok-injective, err-ne-ok, ◌↔◌,
}
use mcmanager.Auth.Store.{
  SessionRow, Session, session_error, AuthStore, Origin, is_none', user_at, session_at,
  update_sessions, write_audit,
}
use mcmanager.Auth.Service.{
  session_row, session_from, issue_session, validate_session, change_password,
}
use mcmanager.Auth.Accounts.{
  step_up_window, session_idle_seconds, revoke_session_id, require_step_up, ensure_device,
}
use mcmanager.Auth.Tables.{
  applied, one_session, session_at-update_sessions, session_at-id, session_at-append,
}

none-ne : {A : Type 0} {a : A} → none ≡ some a → ⊥
none-ne h = cc h

some-injective : {A : Type 0} {a b : A} → some a ≡ some b → a ≡ b
some-injective h = cc h

too_late : (at at' now : ℕ) → ltb step_up_window (now - at) ≡ true → at ≡ at' → now ≤ at' + 600 → ⊥
too_late at at' now late same n = ground (arith, late, same, n)

-- The step-up of a session lasts ten minutes: afterwards it is required again, and so it is of a session
-- that has none.
pub step_up_window_exact :
    (session : Session) (now : ℕ)
    → (require_step_up session now ≡ ok tt)
      ↔ ((at : ℕ) × (session.step_up_confirmed_at ≡ some at) × (now ≤ at + 600))
unfolding require_step_up
step_up_window_exact session now = elim (Option-cases session.step_up_confirmed_at) [
  | inl e ↦ (λ h. absurd (err-ne-ok (rw e at h)), λ (at, h, _). absurd (none-ne (sym e ∙ h)))
  | inr (at, e) ↦ rw e (elim (Bool-cases (ltb step_up_window (now - at))) [
    | inl late ↦ rw late (
      λ h. absurd (err-ne-ok h),
      λ (at', h, n). absurd (too_late at at' now late (some-injective h) n),
    )
    | inr soon ↦ rw soon (λ _. (at, refl, ground (arith, soon)), λ _. refl)
  ])
]

pub sessions-ensure_device :
    (origin : Origin) (now : ℕ) (s : AuthStore) → (ensure_device origin now s).sessions ≡ s.sessions
unfolding ensure_device
sessions-ensure_device origin now s = elim (Option-cases origin.device_id) [
  | inl e ↦ rw e
  | inr (d, e) ↦ rw e
]

-- the sessions that a change of the password ends, and how
abbrev ends : String → SessionRow → Bool
ends user_id r = r.user_id == user_id && is_none' r.deleted_at

abbrev ended : ℕ → String → SessionRow → SessionRow
ended now by_user_id r = record r { deleted_at = some now; deleted_by = some by_user_id }

ended-dead :
    (user_id by_user_id : String) (now : ℕ) (row : SessionRow)
    → row.user_id ≡ user_id
    → is_none' (one_session (ends user_id) (ended now by_user_id) row).deleted_at ≡ false
ended-dead user_id by_user_id now row mine =
    let is : (row.user_id == user_id) ≡ true = ap (λ i. i == user_id) mine ∙ beq_refl user_id in
    elim (Bool-cases (is_none' row.deleted_at)) [ inl e ↦ simp (is, e) | inr e ↦ simp (is, e) ]

-- a revoked row
abbrev pub revoked : ℕ → SessionRow → SessionRow
revoked now r = record r {
  deleted_at = some now;
  deleted_by = some "system";
  last_activity_at = now;
}

pub sessions-revoke :
    (session_id : String) (now : ℕ) (s : AuthStore) {row : SessionRow}
    → session_at session_id s.sessions ≡ some row
    → (revoke_session_id session_id now s).sessions
      ≡ update_sessions (λ r. r.session_id == session_id) (revoked now) s.sessions
unfolding revoke_session_id write_audit
sessions-revoke session_id now s f = rw (f, revoke_session_id)

module _ (verify : String → String → Bool) (hash_password hash_token : String → String) where
  -- a session row that is deleted is no session
  pub dead :
      (token : String) (now : ℕ) (s : AuthStore) (row : SessionRow)
      → session_at (hash_token token) s.sessions ≡ some row
      → is_none' row.deleted_at ≡ false
      → validate_session verify hash_password hash_token token now s ≡ (s, err session_error)
  unfolding validate_session
  dead token now s row f d = rw (f, d)

  pub still_valid :
      (token : String) (now : ℕ) (s : AuthStore) (row : SessionRow)
      → session_at (hash_token token) s.sessions ≡ some row
      → row.deleted_at ≡ none
      → now ≤ row.expires_at
      → validate_session verify hash_password hash_token token now s
        ≡ (s, ok (session_from verify hash_password hash_token token row))
  unfolding validate_session
  still_valid token now s row f live early =
      let valid : ltb row.expires_at now ≡ false = ground (arith, early) in
      rw f (simp (live, valid))

  -- A session that has been issued is valid until it expires, if its token's hash is new.
  pub issued_session_valid :
      (user_id : String) (origin : Origin) (token : String) (now later : ℕ) (s : AuthStore)
      → session_at (hash_token token) s.sessions ≡ none
      → later ≤ now + session_idle_seconds
      → let r = issue_session verify hash_password hash_token user_id origin token now s in
        validate_session verify hash_password hash_token token later r.0 ≡ (r.0, ok r.1)
  unfolding validate_session issue_session write_audit
  issued_session_valid user_id origin token now later s fresh early =
      let rows = (ensure_device origin now s).sessions in
      let row = session_row verify hash_password hash_token user_id token origin now in
      let there : session_at (hash_token token) (rows ++ row ∷ []) ≡ some row =
        session_at-append (hash_token token) rows row
          (ap (session_at (hash_token token)) (sessions-ensure_device origin now s) ∙ fresh)
          (beq_refl (hash_token token)) in
      let valid : ltb (now + session_idle_seconds) later ≡ false = ground (arith, early) in
      rw (there, valid)

  -- A change of the password ends every session of the user: a token of one is refused afterwards.
  pub change_password_revokes :
      (user_id new_password by_user_id new_secret : String) (now later : ℕ) (s t : AuthStore)
      (token : String) (row : SessionRow)
      → change_password verify hash_password hash_token user_id new_password by_user_id new_secret
          now s
        ≡ ok t
      → session_at (hash_token token) s.sessions ≡ some row
      → row.user_id ≡ user_id
      → validate_session verify hash_password hash_token token later t ≡ (t, err session_error)
  unfolding change_password
  change_password_revokes user_id new_password by_user_id new_secret now later s t token row h f
        mine =
      elim (Option-cases (user_at user_id s.users)) [
        | inl e ↦ absurd (err-ne-ok (rw (e, change_password) at h))
        | inr (u, e) ↦ elim (Option-cases (lookup u.secret_id s.secrets)) [
          | inl q ↦ absurd (err-ne-ok (rw (e, q, change_password) at h))
          | inr (old, q) ↦
              let same =
                ap (λ (x : AuthStore). x.sessions)
                  (ok-injective (rw (e, q, change_password) at h)) in
              let after =
                ap (session_at (hash_token token)) (sym same)
                ∙ session_at-update_sessions (ends user_id) (ended now by_user_id) (λ r. refl)
                    (hash_token token) s.sessions
                ∙ ap (applied (one_session (ends user_id) (ended now by_user_id))) f in
              dead token later t (one_session (ends user_id) (ended now by_user_id) row) after
                (ended-dead user_id by_user_id now row mine)
        ]
      ]

  -- A session that is revoked stays refused.
  pub revoked_session_refused :
      (token : String) (now later : ℕ) (s : AuthStore) (row : SessionRow)
      → session_at (hash_token token) s.sessions ≡ some row
      → let t = revoke_session_id (hash_token token) now s in
        validate_session verify hash_password hash_token token later t ≡ (t, err session_error)
  revoked_session_refused token now later s row f =
      let id = hash_token token in
      dead token later (revoke_session_id id now s) (revoked now row)
        (ap (session_at id) (sessions-revoke id now s f)
          ∙ session_at-update_sessions (λ r. r.session_id == id) (revoked now) (λ r. refl) id
              s.sessions
          ∙ ap (applied (one_session (λ r. r.session_id == id) (revoked now))) f
          ∙ rw (session_at-id id s.sessions f))
        refl
