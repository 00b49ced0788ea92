-- ===== src/Auth/Failures.antt =====
-- What a failed login writes (app/services/auth.py).
use mcmanager.Common.{ℕ, suc, String, string_eq, true, false, some, ◌≡◌, ◌+◌, ◌≤◌, ◌<◌, arith, ltb}
use mcmanager.Auth.Store.{active, locked, User, AuthStore, update_user, write_audit}
use mcmanager.Auth.Accounts.{failed_user, register_failure, is_locked}

module _ (count now : ℕ) (u : User) where
  pub failed_user-id : (failed_user count now u).user_id ≡ u.user_id
  unfolding failed_user
  failed_user-id = ground arith

  pub failed_user-name : (failed_user count now u).username ≡ u.username
  unfolding failed_user
  failed_user-name = ground arith

  pub failed_user-live : (failed_user count now u).deleted_at ≡ u.deleted_at
  unfolding failed_user
  failed_user-live = ground arith

  pub failed_user-secret : (failed_user count now u).secret_id ≡ u.secret_id
  unfolding failed_user
  failed_user-secret = ground arith

pub users-register_failure :
    (user_id : String) (count : ℕ) (actor : _) (now : ℕ) (s : AuthStore)
    → (register_failure user_id count actor now s).users
      ≡ update_user user_id (failed_user count now) s.users
unfolding register_failure write_audit
users-register_failure user_id count actor now s = ground arith

pub secrets-register_failure :
    (user_id : String) (count : ℕ) (actor : _) (now : ℕ) (s : AuthStore)
    → (register_failure user_id count actor now s).secrets ≡ s.secrets
unfolding register_failure write_audit
secrets-register_failure user_id count actor now s = ground arith

pub not_locked : (now : ℕ) (u : User) → u.status ≡ active → is_locked now u ≡ false
unfolding is_locked
not_locked now u free = rw free

pub still_free : (count now : ℕ) (u : User) → count ≤ 3 → (failed_user count now u).status ≡ active
unfolding failed_user
still_free count now u few = ground (arith, few)

pub still_locked :
    (now until : ℕ) (u : User)
    → u.status ≡ locked
    → u.locked_until ≡ some until
    → now < until
    → is_locked now u ≡ true
unfolding is_locked
still_locked now until u status is early =
    let soon : ltb now until ≡ true = ground (arith, early) in
    let some_time : ltb 0 until ≡ true = ground (arith, early) in rw (status, is, soon, some_time)

pub one_more : (count now : ℕ) (u : User) → (failed_user count now u).failed_login_count ≡ suc count
unfolding failed_user
one_more count now u = ground arith

pub now_locked :
    (count now : ℕ) (u : User)
    → 4 ≤ count
    → ((failed_user count now u).status ≡ locked)
      × ((failed_user count now u).locked_until ≡ some (now + 900))
unfolding failed_user
now_locked count now u many = ground (arith, many)
