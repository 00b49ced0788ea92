-- ===== src/Auth/Store.antt =====
-- The tables that app/services/auth.py reads and writes: users, sessions, devices, secrets and the audit
-- log. Times are whole seconds.
use mcmanager.Common.{
  ℕ, String, string_eq, Bool, true, false, ◌&&◌, Option, none, some, List, [], ◌∷◌, ◌++◌, ◌==◌,
  if◌then◌else◌, find,
}

pub data UserStatus : Type 0 where
  active locked disabled : UserStatus

-- A row of `users`.
pub record User : Type 0 where
  pub user_id : String
  pub username : String
  pub secret_id : String
  pub status : UserStatus
  pub failed_login_count : ℕ
  pub locked_until : Option ℕ
  pub deleted_at : Option ℕ
  pub updated_at : ℕ

-- A row of `client_sessions`; `session_id` is the hash of the token.
pub record SessionRow : Type 0 where
  pub session_id : String
  pub user_id : String
  pub device_id : Option String
  pub ip_address : String
  pub expires_at : ℕ
  pub step_up_confirmed_at : Option ℕ
  pub last_activity_at : ℕ
  pub deleted_at : Option ℕ
  pub deleted_by : Option String
  pub created_at : ℕ

-- A row of `devices`.
pub record Device : Type 0 where
  pub device_id : String
  pub device_name : String
  pub ip_address : String
  pub last_seen_at : ℕ

-- `ActorSnapshot`
pub record ActorSnapshot : Type 0 where
  pub user_id : Option String
  pub username : Option String
  pub device_id : Option String
  pub device_name : Option String
  pub ip : Option String

pub data AuthEvent : Type 0 where
  login_failed : String → AuthEvent
  login_locked login_success session_issued step_up_confirmed : AuthEvent
  session_revoked password_changed : String → AuthEvent

pub record AuthAudit : Type 0 where
  pub event : AuthEvent
  pub actor : ActorSnapshot

-- `Session`
pub record Session : Type 0 where
  pub user_id : String
  pub token : String
  pub expires_at : ℕ
  pub step_up_confirmed_at : Option ℕ
  pub created_at : ℕ

-- the exceptions, with the secrets store's
pub data AuthError : Type 0 where
  invalid_credentials user_locked user_disabled session_error step_up_required secrets_error :
      AuthError

pub record AuthStore : Type 0 where
  pub users : List User
  pub sessions : List SessionRow
  pub devices : List Device
  pub secrets : List (String × String)
  pub audits : List AuthAudit

-- Where a request comes from.
pub record Origin : Type 0 where
  pub device_id : Option String
  pub device_name : Option String
  pub ip : String

abbrev pub is_none' {ℓ} : {A : Type ℓ} → Option A → Bool
is_none' none = true
is_none' (some _) = false

unfoldable pub user_at : String → List User → Option User
user_at user_id [] = none
user_at user_id (u ∷ users) = if u.user_id == user_id then some u else user_at user_id users

-- WHERE username = ? AND deleted_at IS NULL
unfoldable pub live_user : String → List User → Option User
live_user username = find (λ u. u.username == username && is_none' u.deleted_at)

-- UPDATE users SET … WHERE user_id = ?
unfoldable pub update_user : String → (User → User) → List User → List User
update_user user_id set [] = []
update_user user_id set (u ∷ users) =
    (if u.user_id == user_id then set u else u) ∷ update_user user_id set users

unfoldable pub session_at : String → List SessionRow → Option SessionRow
session_at session_id [] = none
session_at session_id (r ∷ rows) =
    if r.session_id == session_id then some r else session_at session_id rows

-- UPDATE client_sessions SET … WHERE …
unfoldable pub update_sessions :
    (SessionRow → Bool) → (SessionRow → SessionRow) → List SessionRow → List SessionRow
update_sessions guard set [] = []
update_sessions guard set (r ∷ rows) =
    (if guard r then set r else r) ∷ update_sessions guard set rows

abbrev pub username_of : Option User → Option String
username_of none = none
username_of (some u) = some u.username

-- `AuditService.snapshot_for_user`
unfoldable pub snapshot_for_user : String → Origin → AuthStore → ActorSnapshot
unfolding user_at
snapshot_for_user user_id origin s = record {
  user_id = some user_id;
  username = username_of (user_at user_id s.users);
  device_id = origin.device_id;
  device_name = origin.device_name;
  ip = some origin.ip;
}

-- `AuditService.system`
abbrev pub system_actor : ActorSnapshot
system_actor = record {
  user_id = none;
  username = none;
  device_id = none;
  device_name = none;
  ip = none;
}

-- `AuditService.write`
unfoldable pub write_audit : AuthEvent → ActorSnapshot → AuthStore → AuthStore
write_audit event actor s = record s {
  audits = s.audits ++ record { event = event; actor = actor } ∷ [];
}
