-- ===== src/Auth/StepUp.antt =====
-- The confirmation of a step-up, which rotates the session (app/services/auth.py).
use mcmanager.Common.{
  ℕ, String, string_eq, Bool, true, false, none, some, List, [], ◌∷◌, ◌++◌, ◌==◌, ◌≡◌, refl, sym,
  ap, ◌∙◌, ◌+◌, ◌≤◌, arith, ltb, Bool-cases, inl, inr, beq_refl, Result, ok, err, subst,
}
use mcmanager.Auth.Store.{
  SessionRow, Session, AuthError, session_error, AuthStore, Origin, session_at, update_sessions,
  write_audit,
}
use mcmanager.Auth.Service.{
  session_of, session_row, session_from, verify_password, issue_session, validate_session, elevate,
  confirm_step_up,
}
use mcmanager.Auth.Accounts.{session_idle_seconds, revoke_session_id}
use mcmanager.Auth.Tables.{
  applied, one_session, session_at-update_sessions, session_at-id, session_at-append,
  session_at-append_old,
}
use mcmanager.Auth.Sessions.{sessions-ensure_device, revoked, sessions-revoke, dead, still_valid}

module _ (verify : String → String → Bool) (hash_password hash_token : String → String) where
  module _ (current : Session) (origin : Origin) (token : String) (now : ℕ) (s : AuthStore)
      (row : SessionRow) (f : session_at (hash_token current.token) s.sessions ≡ some row)
      (fresh : session_at (hash_token token) s.sessions ≡ none) where
    after_revoke : List SessionRow
    after_revoke =
        update_sessions (λ r. r.session_id == hash_token current.token) (revoked now) s.sessions

    sessions-elevate :
        (elevate verify hash_password hash_token current origin token now s).0.sessions
        ≡ update_sessions
            (λ r. r.session_id == hash_token token)
            (λ r. record r { step_up_confirmed_at = some now })
            (after_revoke
              ++ session_row verify hash_password hash_token current.user_id token origin now ∷ [])
    unfolding elevate issue_session write_audit after_revoke
    sessions-elevate = rw (
      sessions-ensure_device origin now (revoke_session_id (hash_token current.token) now s),
      sessions-revoke (hash_token current.token) now s f,
    )

    abbrev stepped : SessionRow → SessionRow
    stepped r = record r { step_up_confirmed_at = some now }

    abbrev new_row : SessionRow
    new_row = session_row verify hash_password hash_token current.user_id token origin now

    after : AuthStore
    after = (elevate verify hash_password hash_token current origin token now s).0

    session_after :
        (j : String)
        → session_at j after.sessions
          ≡ applied
              (one_session (λ r. r.session_id == hash_token token) stepped)
              (session_at j (after_revoke ++ new_row ∷ []))
    unfolding after
    session_after j =
        ap (session_at j) sessions-elevate
        ∙ session_at-update_sessions (λ r. r.session_id == hash_token token) stepped (λ r. refl) j
            (after_revoke ++ new_row ∷ [])

    old_refused :
        (later : ℕ)
        → validate_session verify hash_password hash_token current.token later after
          ≡ (after, err session_error)
    unfolding after_revoke
    old_refused later =
        let id = hash_token current.token in
        let was : session_at id after_revoke ≡ some (revoked now row) =
          session_at-update_sessions (λ r. r.session_id == id) (revoked now) (λ r. refl) id
            s.sessions
          ∙ ap (applied (one_session (λ r. r.session_id == id) (revoked now))) f
          ∙ rw (session_at-id id s.sessions f) in
        dead verify hash_password hash_token current.token later after
          (one_session (λ r. r.session_id == hash_token token) stepped (revoked now row))
          (session_after id
            ∙ ap (applied (one_session (λ r. r.session_id == hash_token token) stepped))
                (session_at-append_old id after_revoke new_row was))
          (elim (Bool-cases (row.session_id == hash_token token)) [ inl e ↦ rw e | inr e ↦ rw e ])

    new_found : session_at (hash_token token) after.sessions ≡ some (stepped new_row)
    unfolding after_revoke
    new_found =
        let id = hash_token token in
        let was : session_at id after_revoke ≡ none =
          session_at-update_sessions (λ r. r.session_id == hash_token current.token) (revoked now)
            (λ r. refl) id s.sessions
          ∙ ap (applied (one_session (λ r. r.session_id == hash_token current.token) (revoked now)))
              fresh in
        session_after id
        ∙ ap (applied (one_session (λ r. r.session_id == id) stepped))
            (session_at-append id after_revoke new_row was (beq_refl id))
        ∙ rw (beq_refl id)

    new_valid :
        (later : ℕ)
        → later ≤ now + session_idle_seconds
        → validate_session verify hash_password hash_token token later after ≡ (
          after,
          ok (record (session_of verify hash_password hash_token current.user_id token now) {
            step_up_confirmed_at = some now;
          }),
        )
    unfolding validate_session
    new_valid later early =
        let valid : ltb (now + session_idle_seconds) later ≡ false = ground (arith, early) in
        rw (new_found, valid)

  -- what a step-up with the right password gives
  abbrev elevated : String → String → ℕ → Session
  elevated user_id token now =
      record (session_of verify hash_password hash_token user_id token now) {
        step_up_confirmed_at = some now;
      }

  session-elevate :
      (current : Session) (origin : Origin) (token : String) (now : ℕ) (s : AuthStore)
      → (elevate verify hash_password hash_token current origin token now s).1
        ≡ elevated current.user_id token now
  unfolding elevate issue_session write_audit
  session-elevate current origin token now s = refl

  confirm_step_up-eq :
      (raw_token password : String) (origin : Origin) (token : String) (now : ℕ) (s : AuthStore)
      (current : Session)
      → validate_session verify hash_password hash_token raw_token now s ≡ (s, ok current)
      → verify_password verify hash_password hash_token current.user_id password s ≡ ok true
      → confirm_step_up verify hash_password hash_token raw_token password origin token now s ≡ (
        (elevate verify hash_password hash_token current origin token now s).0,
        ok (elevated current.user_id token now),
      )
  unfolding confirm_step_up
  confirm_step_up-eq raw_token password origin token now s current valid right =
      rw (valid, right, session-elevate current origin token now s)

  -- A step-up with a valid session and the right password returns a new session, which is valid until it
  -- expires, and from then on the old token is refused, if the new token's hash is new.
  pub step_up_rotates :
      (raw_token password : String) (origin : Origin) (token : String) (now later : ℕ)
      (s : AuthStore) (row : SessionRow)
      → session_at (hash_token raw_token) s.sessions ≡ some row
      → row.deleted_at ≡ none
      → now ≤ row.expires_at
      → verify_password verify hash_password hash_token row.user_id password s ≡ ok true
      → session_at (hash_token token) s.sessions ≡ none
      → let r =
          confirm_step_up verify hash_password hash_token raw_token password origin token now s in
        (r.1 ≡ ok (elevated row.user_id token now))
        × (validate_session verify hash_password hash_token raw_token later r.0
            ≡ (r.0, err session_error))
        × (later ≤ now + session_idle_seconds
            → validate_session verify hash_password hash_token token later r.0
              ≡ (r.0, ok (elevated row.user_id token now)))
  unfolding after elevate
  step_up_rotates raw_token password origin token now later s row f live early right fresh =
      let current = session_from verify hash_password hash_token raw_token row in
      let valid : validate_session verify hash_password hash_token raw_token now s
          ≡ (s, ok current) =
        still_valid verify hash_password hash_token raw_token now s row f live early in
      let steps = confirm_step_up-eq raw_token password origin token now s current valid right in
      subst
        (λ (r : AuthStore × Result AuthError Session).
          (r.1 ≡ ok (elevated row.user_id token now))
          × (validate_session verify hash_password hash_token raw_token later r.0
              ≡ (r.0, err session_error))
          × (later ≤ now + session_idle_seconds
              → validate_session verify hash_password hash_token token later r.0
                ≡ (r.0, ok (elevated row.user_id token now))))
        (sym steps)
        (
          refl,
          old_refused current origin token now s row f fresh later,
          new_valid current origin token now s row f fresh later,
        )
