-- ===== src/Auth/Service.antt =====
-- `AuthenticationService` of app/services/auth.py. The password hasher and the hash of tokens are
-- parameters, and so are the fresh tokens and identifiers, which a call is given.
use mcmanager.Auth.Accounts.{
  session_idle_seconds, register_failure, cleared_user, is_locked, is_disabled, ensure_device,
  revoke_session_id,
}
use mcmanager.Common.{
  ℕ, String, string_eq, Bool, true, false, not, ◌&&◌, Option, none, some, [], ◌∷◌, ◌++◌, ◌==◌,
  if◌then◌else◌, ltb, ◌+◌, lookup, insert, Result, ok, err,
}
use mcmanager.Auth.Store.{
  User, SessionRow, ActorSnapshot, login_failed, login_locked, login_success, session_issued,
  step_up_confirmed, password_changed, Session, AuthError, invalid_credentials, user_locked,
  user_disabled, session_error, secrets_error, AuthStore, Origin, is_none', user_at, live_user,
  update_user, session_at, update_sessions, snapshot_for_user, system_actor, write_audit,
}

module _ (verify : String → String → Bool) (hash_password : String → String)
    (hash_token : String → String) where
  -- `_verify_password`
  unfoldable pub verify_password : String → String → AuthStore → Result AuthError Bool
  unfolding user_at lookup
  verify_password user_id password s = elim (user_at user_id s.users) [
    | none ↦ err invalid_credentials
    | some u ↦ elim (lookup u.secret_id s.secrets) [
      | none ↦ err secrets_error
      | some stored ↦ ok (verify stored password)
    ]
  ]

  abbrev pub session_of : String → String → ℕ → Session
  session_of user_id token now = record {
    user_id = user_id;
    token = token;
    expires_at = now + session_idle_seconds;
    step_up_confirmed_at = none;
    created_at = now;
  }

  abbrev pub session_row : String → String → Origin → ℕ → SessionRow
  session_row user_id token origin now = record {
    session_id = hash_token token;
    user_id = user_id;
    device_id = origin.device_id;
    ip_address = origin.ip;
    expires_at = now + session_idle_seconds;
    step_up_confirmed_at = none;
    last_activity_at = now;
    deleted_at = none;
    deleted_by = none;
    created_at = now;
  }

  -- `issue_session`
  unfoldable pub issue_session : String → Origin → String → ℕ → AuthStore → AuthStore × Session
  unfolding ensure_device snapshot_for_user write_audit
  issue_session user_id origin token now s =
      let s' = ensure_device origin now s in
      let t : AuthStore = record s' {
        sessions = s'.sessions ++ session_row user_id token origin now ∷ [];
      } in
      (
        write_audit session_issued (snapshot_for_user user_id origin t) t,
        session_of user_id token now,
      )

  abbrev pub checked_password :
      User
      → ActorSnapshot
      → Origin
      → String
      → ℕ
      → AuthStore
      → Result AuthError Bool
      → AuthStore × Result AuthError Session
  checked_password u actor origin token now s (err e) = (s, err e)
  checked_password u actor origin token now s (ok false) = (
    write_audit (login_failed "bad_password") actor
        (register_failure u.user_id u.failed_login_count actor now s),
    err invalid_credentials,
  )
  checked_password u actor origin token now s (ok true) =
      let cleared : AuthStore = record s {
        users = update_user u.user_id (cleared_user now) s.users;
      } in
      let issued =
        issue_session u.user_id origin token now (write_audit login_success actor cleared) in
      (issued.0, ok issued.1)

  abbrev pub login :
      User → String → Origin → String → ℕ → AuthStore → AuthStore × Result AuthError Session
  login u password origin token now s =
      let actor = snapshot_for_user u.user_id origin s in
      if is_locked now u
      then (write_audit login_locked actor s, err user_locked)
      else if is_disabled u
      then (write_audit (login_failed "disabled") actor s, err user_disabled)
      else checked_password u actor origin token now s (verify_password u.user_id password s)

  -- `authenticate`
  unfoldable pub authenticate :
      String → String → Origin → String → ℕ → AuthStore → AuthStore × Result AuthError Session
  unfolding snapshot_for_user is_locked verify_password register_failure issue_session live_user
      update_user write_audit
  authenticate username password origin token now s = elim (live_user username s.users) [
    | none ↦ (write_audit (login_failed "unknown_user") system_actor s, err invalid_credentials)
    | some u ↦ login u password origin token now s
  ]

  abbrev pub session_from : String → SessionRow → Session
  session_from token row = record {
    user_id = row.user_id;
    token = token;
    expires_at = row.expires_at;
    step_up_confirmed_at = row.step_up_confirmed_at;
    created_at = row.created_at;
  }

  abbrev pub checked_session :
      String → ℕ → AuthStore → Option SessionRow → AuthStore × Result AuthError Session
  checked_session token now s none = (s, err session_error)
  checked_session token now s (some row) =
      if not (is_none' row.deleted_at)
      then (s, err session_error)
      else if ltb row.expires_at now
      then (revoke_session_id (hash_token token) now s, err session_error)
      else (s, ok (session_from token row))

  -- `validate_session`
  unfoldable pub validate_session : String → ℕ → AuthStore → AuthStore × Result AuthError Session
  unfolding session_at revoke_session_id
  validate_session token now s =
      checked_session token now s (session_at (hash_token token) s.sessions)

  -- the new session of a step-up, with its time
  unfoldable pub elevate : Session → Origin → String → ℕ → AuthStore → AuthStore × Session
  unfolding issue_session revoke_session_id update_sessions snapshot_for_user write_audit
  elevate current origin token now s =
      let issued =
        issue_session current.user_id origin token now
          (revoke_session_id (hash_token current.token) now s) in
      let t : AuthStore = record issued.0 {
        sessions =
            update_sessions (λ r. r.session_id == hash_token token)
              (λ r. record r { step_up_confirmed_at = some now }) issued.0.sessions;
      } in
      (
        write_audit step_up_confirmed (snapshot_for_user current.user_id origin t) t,
        record issued.1 { step_up_confirmed_at = some now },
      )

  abbrev stepped_up :
      Session
      → Origin
      → String
      → ℕ
      → AuthStore
      → Result AuthError Bool
      → AuthStore × Result AuthError Session
  stepped_up current origin token now s (err e) = (s, err e)
  stepped_up current origin token now s (ok false) = (
    write_audit (login_failed "step_up") (snapshot_for_user current.user_id origin s) s,
    err invalid_credentials,
  )
  stepped_up current origin token now s (ok true) =
      let r = elevate current origin token now s in (r.0, ok r.1)

  abbrev step_up_of :
      AuthStore × Result AuthError Session
      → String
      → Origin
      → String
      → ℕ
      → AuthStore × Result AuthError Session
  step_up_of (s, err e) password origin token now = (s, err e)
  step_up_of (s, ok current) password origin token now =
      stepped_up current origin token now s (verify_password current.user_id password s)

  -- `confirm_step_up`
  unfoldable pub confirm_step_up :
      String → String → Origin → String → ℕ → AuthStore → AuthStore × Result AuthError Session
  unfolding validate_session verify_password elevate snapshot_for_user write_audit
  confirm_step_up raw_token password origin token now s =
      step_up_of (validate_session raw_token now s) password origin token now

  abbrev nowhere : ActorSnapshot → ActorSnapshot
  nowhere actor = record actor { device_id = none; device_name = none; ip = none }

  -- `change_password`, with the identifier of the new secret
  unfoldable pub change_password :
      String → String → String → String → ℕ → AuthStore → Result AuthError AuthStore
  unfolding user_at lookup insert update_user update_sessions snapshot_for_user write_audit
  change_password user_id new_password by_user_id new_secret now s =
      elim (user_at user_id s.users) [
        | none ↦ err invalid_credentials
        | some u ↦ elim (lookup u.secret_id s.secrets) [
          | none ↦ err secrets_error
          | some _ ↦
              let t : AuthStore = record s {
                secrets = insert new_secret (hash_password new_password) s.secrets;
                users =
                    update_user user_id (λ v. record v { secret_id = new_secret; updated_at = now })
                      s.users;
                sessions =
                    update_sessions (λ r. r.user_id == user_id && is_none' r.deleted_at)
                      (λ r. record r { deleted_at = some now; deleted_by = some by_user_id })
                      s.sessions;
              } in
              let actor = nowhere (
                snapshot_for_user by_user_id
                  (record { device_id = none; device_name = none; ip = "" }) t) in
              ok (write_audit (password_changed user_id) actor t)
        ]
      ]
