-- ===== src/Auth/Accounts.antt =====
-- The rows that the authentication service writes (app/services/auth.py).
use mcmanager.Common.{
  ℕ, suc, String, string_eq, Bool, true, false, ◌&&◌, Option, none, some, List, [], ◌∷◌, ◌==◌,
  if◌then◌else◌, leb, ltb, ◌+◌, ◌-◌, ◌*◌, Result, ok, err,
}
use mcmanager.Auth.Store.{
  UserStatus, active, locked, disabled, User, Device, ActorSnapshot, login_locked, session_revoked,
  Session, AuthError, step_up_required, AuthStore, Origin, update_user, session_at, update_sessions,
  system_actor, write_audit,
}

abbrev pub max_failed_logins : ℕ
max_failed_logins = 5

abbrev pub lockout_seconds : ℕ
lockout_seconds = 15 * 60

abbrev pub step_up_window : ℕ
step_up_window = 10 * 60

abbrev pub session_idle_seconds : ℕ
session_idle_seconds = 7 * 24 * 3600

-- a user after one more failed login
unfoldable pub failed_user : ℕ → ℕ → User → User
failed_user previous_count now u =
    let count = suc previous_count in
    if leb max_failed_logins count
    then record u {
      failed_login_count = count;
      locked_until = some (now + lockout_seconds);
      status = locked;
      updated_at = now;
    }
    else record u {
      failed_login_count = count;
      locked_until = none;
      status = active;
      updated_at = now;
    }

-- `_register_failure`
unfoldable pub register_failure : String → ℕ → ActorSnapshot → ℕ → AuthStore → AuthStore
unfolding failed_user update_user write_audit
register_failure user_id previous_count actor now s =
    let s' : AuthStore = record s {
      users = update_user user_id (failed_user previous_count now) s.users;
    } in
    if leb max_failed_logins (suc previous_count) then write_audit login_locked actor s' else s'

abbrev unlocked_status : UserStatus → UserStatus
unlocked_status locked = active
unlocked_status status = status

-- the update of a user who has logged in
abbrev pub cleared_user : ℕ → User → User
cleared_user now u = record u {
  failed_login_count = 0;
  locked_until = none;
  status = unlocked_status u.status;
  updated_at = now;
}

-- the lockout is in force
unfoldable pub is_locked : ℕ → User → Bool
is_locked now u = elim u.status [
  | locked ↦ elim u.locked_until [ none ↦ false | some until ↦ ltb now until && ltb 0 until ]
  | _ ↦ false
]

abbrev pub is_disabled : User → Bool
is_disabled u = elim u.status [ disabled ↦ true | _ ↦ false ]

abbrev device_named : Option String → String → String
device_named none device_id = device_id
device_named (some name) device_id = if name == "" then device_id else name

-- INSERT … ON CONFLICT(device_id) DO UPDATE SET last_seen_at
unfoldable pub upsert_device : String → Origin → ℕ → List Device → List Device
upsert_device device_id origin now [] =
    record {
      device_id = device_id;
      device_name = device_named origin.device_name device_id;
      ip_address = origin.ip;
      last_seen_at = now;
    }
    ∷ []
upsert_device device_id origin now (d ∷ devices) =
    if d.device_id == device_id
    then record d { last_seen_at = now } ∷ devices
    else d ∷ upsert_device device_id origin now devices

-- `_ensure_device`
unfoldable pub ensure_device : Origin → ℕ → AuthStore → AuthStore
unfolding upsert_device
ensure_device origin now s = elim origin.device_id [
  | none ↦ s
  | some device_id ↦ record s { devices = upsert_device device_id origin now s.devices }
]

-- `revoke_session_id`
unfoldable pub revoke_session_id : String → ℕ → AuthStore → AuthStore
unfolding session_at update_sessions write_audit
revoke_session_id session_id now s = elim (session_at session_id s.sessions) [
  | none ↦ s
  | some row ↦ write_audit (session_revoked row.user_id) system_actor (record s {
    sessions =
        update_sessions (λ r. r.session_id == session_id)
          (λ r. record r {
            deleted_at = some now;
            deleted_by = some "system";
            last_activity_at = now;
          })
          s.sessions;
  })
]

-- `require_step_up`
unfoldable pub require_step_up : Session → ℕ → Result AuthError (Unit {0})
require_step_up session now = elim session.step_up_confirmed_at [
  | none ↦ err step_up_required
  | some confirmed ↦ if ltb step_up_window (now - confirmed) then err step_up_required else ok tt
]
