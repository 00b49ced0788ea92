-- ===== src/Auth/Examples.antt =====
-- Logins and sessions of a concrete user (app/services/auth.py).
use mcmanager.Common.{
  ℕ, String, string_eq, Bool, none, some, List, [], ◌∷◌, ◌==◌, ◌≡◌, ◌≤◌, ◌+◌, refl, Result, ok, err,
  lookup, arith,
}
use mcmanager.Auth.Store.{
  active, User, SessionRow, Session, AuthError, session_error, user_locked, AuthStore, Origin,
  user_at, live_user, session_at,
}
use mcmanager.Auth.Service.{
  authenticate, verify_password, issue_session, validate_session, confirm_step_up, change_password,
  session_of,
}
use mcmanager.Auth.Accounts.{session_idle_seconds}
use mcmanager.Auth.Lockout.{try_logins, five_failures_lock_out}
use mcmanager.Auth.Sessions.{issued_session_valid, change_password_revokes}
use mcmanager.Auth.StepUp.{step_up_rotates}

abbrev same_text : String → String → Bool
same_text stored password = stored == password

abbrev itself : String → String
itself s = s

abbrev alice : User
alice = record {
  user_id = "u1";
  username = "alice";
  secret_id = "s1";
  status = active;
  failed_login_count = 0;
  locked_until = none;
  deleted_at = none;
  updated_at = 0;
}

abbrev session : SessionRow
session = record {
  session_id = "t1";
  user_id = "u1";
  device_id = none;
  ip_address = "10.0.0.1";
  expires_at = 5000;
  step_up_confirmed_at = none;
  last_activity_at = 0;
  deleted_at = none;
  deleted_by = none;
  created_at = 0;
}

abbrev store : AuthStore
store = record {
  users = alice ∷ [];
  sessions = session ∷ [];
  devices = [];
  secrets = ("s1", "right") ∷ [];
  audits = [];
}

abbrev origin : Origin
origin = record { device_id = some "d1"; device_name = none; ip = "10.0.0.1" }

abbrev attempt : ℕ → String × Origin × String × ℕ
attempt now = ("wrong", origin, "t9", now)

abbrev four : List (String × Origin × String × ℕ)
four = attempt 1 ∷ attempt 2 ∷ attempt 3 ∷ attempt 4 ∷ []

five_failures_lock_out_example :
    (authenticate same_text itself itself "alice" "right" origin "t2" 904 (
      try_logins same_text itself itself "alice"
        (attempt 1 ∷ attempt 2 ∷ attempt 3 ∷ attempt 4 ∷ attempt 5 ∷ [])
        store)).1
    ≡ err user_locked
unfolding live_user verify_password user_at lookup
five_failures_lock_out_example =
    five_failures_lock_out same_text itself itself "alice" store alice four (attempt 5) refl refl
      refl refl (refl, (refl, (refl, (refl, (refl, tt))))) "right" origin "t2" 904 (omega arith)

abbrev stepped : Session
stepped = record {
  user_id = "u1";
  token = "t1";
  expires_at = 5000;
  step_up_confirmed_at = some 100;
  created_at = 0;
}

issued_session_valid_example :
    let r = issue_session same_text itself itself "u1" origin "t2" 100 store in
    validate_session same_text itself itself "t2" 200 r.0 ≡ (r.0, ok r.1)
unfolding session_at
issued_session_valid_example =
    issued_session_valid same_text itself itself "u1" origin "t2" 100 200 store refl (omega arith)

step_up_rotates_example :
    let r = confirm_step_up same_text itself itself "t1" "right" origin "t2" 100 store in
    (r.1
      ≡ ok (record (session_of same_text itself itself "u1" "t2" 100) {
        step_up_confirmed_at = some 100;
      }))
    × (validate_session same_text itself itself "t1" 200 r.0 ≡ (r.0, err session_error))
    × (200 ≤ 100 + session_idle_seconds
        → validate_session same_text itself itself "t2" 200 r.0 ≡ (
          r.0,
          ok (record (session_of same_text itself itself "u1" "t2" 100) {
            step_up_confirmed_at = some 100;
          }),
        ))
unfolding session_at verify_password user_at lookup
step_up_rotates_example =
    step_up_rotates same_text itself itself "t1" "right" origin "t2" 100 200 store session refl refl
      (omega arith) refl refl

abbrev or_store : Result AuthError AuthStore → AuthStore
or_store (ok t) = t
or_store (err _) = store

abbrev changed : AuthStore
changed = or_store (change_password same_text itself itself "u1" "new" "u1" "s2" 50 store)

change_password_revokes_example :
    validate_session same_text itself itself "t1" 100 changed ≡ (changed, err session_error)
unfolding session_at change_password
change_password_revokes_example =
    change_password_revokes same_text itself itself "u1" "new" "u1" "s2" 50 100 store changed "t1"
      session refl refl refl
