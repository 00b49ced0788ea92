-- ===== src/Auth/Lockout.antt =====
-- Failed logins lock an account (app/services/auth.py).
use mcmanager.Auth.Failures.{
  failed_user-id, failed_user-name, failed_user-live, failed_user-secret, users-register_failure,
  secrets-register_failure, not_locked, still_free, still_locked, one_more, now_locked,
}
use mcmanager.Common.{
  ℕ, suc, String, string_eq, Bool, false, Option, none, some, List, [], ◌∷◌, ◌++◌, ◌==◌, ◌≡◌, refl,
  sym, ap, ◌∙◌, ◌+◌, ◌≤◌, ◌<◌, arith, length, All, Bool-cases, Option-cases, inl, inr, beq_refl,
  lookup, Result, ok, err, subst,
}
use mcmanager.Auth.Store.{
  active, locked, User, Session, AuthError, invalid_credentials, secrets_error, user_locked,
  login_failed, AuthStore, Origin, user_at, live_user, update_user, write_audit, snapshot_for_user,
}
use mcmanager.Auth.Service.{verify_password, login, authenticate}
use mcmanager.Auth.Accounts.{failed_user, register_failure}
use mcmanager.Auth.Tables.{applied, one_user, user_at-update_user, live_user-update_user}

module _ (verify : String → String → Bool) (hash_password hash_token : String → String) where
  -- an attempt to log in
  abbrev pub Attempt : Type 0
  Attempt = String × Origin × String × ℕ

  abbrev pub try_login : String → Attempt → AuthStore → AuthStore
  try_login username (password, origin, token, now) s =
      (authenticate verify hash_password hash_token username password origin token now s).0

  unfoldable pub try_logins : String → List Attempt → AuthStore → AuthStore
  unfolding authenticate
  try_logins username [] s = s
  try_logins username (a ∷ attempts) s = try_logins username attempts (try_login username a s)

  -- a login with a wrong password, by a user who is neither locked out nor disabled
  login_fails :
      (u : User) (password : String) (origin : Origin) (token : String) (now : ℕ) (s : AuthStore)
      → u.status ≡ active
      → verify_password verify hash_password hash_token u.user_id password s ≡ ok false
      → (login verify hash_password hash_token u password origin token now s ≡ (
        write_audit (login_failed "bad_password") (snapshot_for_user u.user_id origin s) (
            register_failure u.user_id u.failed_login_count
              (snapshot_for_user u.user_id origin s)
              now
              s),
        err invalid_credentials,
      ))
  login_fails u password origin token now s free wrong =
      let open_account = not_locked now u free in rw (open_account, free, wrong)

  -- a user who has failed to log in so many times, and is not locked out yet
  record Counted (username : String) (s₀ s : AuthStore) (user_id : String) (count : ℕ)
      : Type 0 where
    user : User
    found : live_user username s.users ≡ some user
    id : user.user_id ≡ user_id
    free : user.status ≡ active
    counted : user.failed_login_count ≡ count
    same :
        (p : String)
        → verify_password verify hash_password hash_token user_id p s
          ≡ verify_password verify hash_password hash_token user_id p s₀

  authenticate-found :
      (username password : String) (origin : Origin) (token : String) (now : ℕ) (s : AuthStore)
      (u : User)
      → live_user username s.users ≡ some u
      → authenticate verify hash_password hash_token username password origin token now s
        ≡ login verify hash_password hash_token u password origin token now s
  unfolding authenticate
  authenticate-found username password origin token now s u f = rw (f, authenticate)

  -- the store after a failed login
  failed_store : User → Origin → ℕ → AuthStore → AuthStore
  failed_store u origin now s =
      write_audit (login_failed "bad_password") (snapshot_for_user u.user_id origin s) (
        register_failure u.user_id u.failed_login_count (snapshot_for_user u.user_id origin s) now
          s)

  failed_store-users :
      (u : User) (origin : Origin) (now : ℕ) (s : AuthStore)
      → (failed_store u origin now s).users
        ≡ update_user u.user_id (failed_user u.failed_login_count now) s.users
  unfolding failed_store write_audit
  failed_store-users u origin now s =
      users-register_failure u.user_id u.failed_login_count (snapshot_for_user u.user_id origin s)
        now s

  failed_store-secrets :
      (u : User) (origin : Origin) (now : ℕ) (s : AuthStore)
      → (failed_store u origin now s).secrets ≡ s.secrets
  unfolding failed_store write_audit
  failed_store-secrets u origin now s =
      secrets-register_failure u.user_id u.failed_login_count (snapshot_for_user u.user_id origin s)
        now s

  failed_store-found :
      (username : String) (u : User) (origin : Origin) (now : ℕ) (s : AuthStore)
      → live_user username s.users ≡ some u
      → live_user username (failed_store u origin now s).users
        ≡ some (failed_user u.failed_login_count now u)
  failed_store-found username u origin now s f =
      ap (live_user username) (failed_store-users u origin now s)
      ∙ live_user-update_user u.user_id (failed_user u.failed_login_count now)
          (failed_user-id u.failed_login_count now) (failed_user-name u.failed_login_count now)
          (failed_user-live u.failed_login_count now) username s.users
      ∙ ap (applied (one_user u.user_id (failed_user u.failed_login_count now))) f
      ∙ rw (beq_refl u.user_id)

  abbrev tested : String → Option String → Result AuthError Bool
  tested p none = err secrets_error
  tested p (some stored) = ok (verify stored p)

  password_by :
      (user_id p : String) (s : AuthStore) (x : User)
      → user_at user_id s.users ≡ some x
      → verify_password verify hash_password hash_token user_id p s
        ≡ tested p (lookup x.secret_id s.secrets)
  unfolding verify_password
  password_by user_id p s x f = rw (f, verify_password) refl

  failed_store-password :
      (u : User) (origin : Origin) (now : ℕ) (s : AuthStore) (p : String)
      → verify_password verify hash_password hash_token u.user_id p (failed_store u origin now s)
        ≡ verify_password verify hash_password hash_token u.user_id p s
  unfolding verify_password
  failed_store-password u origin now s p =
      let set = failed_user u.failed_login_count now in
      let after =
        ap (user_at u.user_id) (failed_store-users u origin now s)
        ∙ user_at-update_user u.user_id set (failed_user-id u.failed_login_count now) u.user_id
            s.users in
      elim (Option-cases (user_at u.user_id s.users)) [
        | inl f ↦
            let gone : user_at u.user_id (failed_store u origin now s).users ≡ none =
              after ∙ ap (applied (one_user u.user_id set)) f in
            rw (gone, f, verify_password)
        | inr (x, f) ↦
            let there : user_at u.user_id (failed_store u origin now s).users
                ≡ some (one_user u.user_id set x) =
              after ∙ ap (applied (one_user u.user_id set)) f in
            password_by u.user_id p (failed_store u origin now s) (one_user u.user_id set x) there
            ∙ ap (tested p) (
                ap (λ i. lookup i (failed_store u origin now s).secrets) (secret x)
                ∙ ap (λ d. lookup x.secret_id d) (failed_store-secrets u origin now s))
            ∙ sym (password_by u.user_id p s x f)
      ]
    where
      secret :
          (x : User)
          → (one_user u.user_id (failed_user u.failed_login_count now) x).secret_id ≡ x.secret_id
      secret x = elim (Bool-cases (x.user_id == u.user_id)) [
        | inl e ↦ rw e (failed_user-secret u.failed_login_count now x)
        | inr e ↦ rw e
      ]

  fail_once :
      (username password : String) (origin : Origin) (token : String) (now : ℕ) (s₀ s : AuthStore)
      (user_id : String) (count : ℕ)
      → (c : Counted username s₀ s user_id count)
      → verify_password verify hash_password hash_token user_id password s₀ ≡ ok false
      → (authenticate verify hash_password hash_token username password origin token now s
          ≡ (failed_store c.user origin now s, err invalid_credentials))
  unfolding failed_store
  fail_once username password origin token now s₀ s user_id count c wrong =
      authenticate-found username password origin token now s c.user c.found
      ∙ login_fails c.user password origin token now s c.free (
          ap (λ i. verify_password verify hash_password hash_token i password s) c.id
          ∙ c.same password
          ∙ wrong)

  count_once :
      (username : String) (origin : Origin) (now : ℕ) (s₀ s : AuthStore) (user_id : String)
      (count : ℕ)
      → count ≤ 3
      → (c : Counted username s₀ s user_id count)
      → Counted username s₀ (failed_store c.user origin now s) user_id (suc count)
  count_once username origin now s₀ s user_id count few c =
      let u = c.user in
      record {
        user = failed_user u.failed_login_count now u;
        found = failed_store-found username u origin now s c.found;
        id = failed_user-id u.failed_login_count now u ∙ c.id;
        free = still_free u.failed_login_count now u (omega (arith, c.counted, few));
        counted = one_more u.failed_login_count now u ∙ ap suc c.counted;
        same = λ p.
            ap
              (λ i.
                verify_password verify hash_password hash_token i p (failed_store u origin now s))
              (sym c.id)
            ∙ failed_store-password u origin now s p
            ∙ ap (λ i. verify_password verify hash_password hash_token i p s) c.id
            ∙ c.same p;
      }

  -- the last attempt locks the account until fifteen minutes later
  record LockedOut (username : String) (s : AuthStore) (until : ℕ) : Type 0 where
    user : User
    found : live_user username s.users ≡ some user
    status : user.status ≡ locked
    until_is : user.locked_until ≡ some until

  try_four :
      (username : String) (s₀ s : AuthStore) (user_id : String) (attempts : List Attempt)
      (last : Attempt) (count : ℕ)
      → count + length attempts ≡ 4
      → All
          (λ a. verify_password verify hash_password hash_token user_id a.0 s₀ ≡ ok false)
          (attempts ++ last ∷ [])
      → Counted username s₀ s user_id count
      → LockedOut username (try_logins username (attempts ++ last ∷ []) s) (last.3 + 900)
  unfolding try_logins
  try_four username s₀ s user_id [] (password, origin, token, now) count n wrong c =
      let next = fail_once username password origin token now s₀ s user_id count c wrong.0 in
      let (status, until) =
        now_locked c.user.failed_login_count now c.user (omega (arith, n, c.counted)) in
      subst (λ t. LockedOut username t (now + 900))
        (ap (λ (r : AuthStore × Result AuthError Session). r.0) (sym next))
        (record {
          user = failed_user c.user.failed_login_count now c.user;
          found = failed_store-found username c.user origin now s c.found;
          status = status;
          until_is = until;
        })
  try_four username s₀ s user_id ((password, origin, token, now) ∷ attempts) last count n wrong c =
      let next = fail_once username password origin token now s₀ s user_id count c wrong.0 in
      subst (λ t. LockedOut username (try_logins username (attempts ++ last ∷ []) t) (last.3 + 900))
        (ap (λ (r : AuthStore × Result AuthError Session). r.0) (sym next))
        (try_four username s₀ (failed_store c.user origin now s) user_id attempts last (suc count)
          (omega (arith, n)) wrong.1
          (count_once username origin now s₀ s user_id count (omega (arith, n)) c))

  locked_out :
      (username password : String) (origin : Origin) (token : String) (now until : ℕ)
      (s : AuthStore)
      → LockedOut username s until
      → now < until
      → (authenticate verify hash_password hash_token username password origin token now s).1
        ≡ err user_locked
  locked_out username password origin token now until s l early =
      let held = still_locked now until l.user l.status l.until_is early in
      ap (λ (r : AuthStore × Result AuthError Session). r.1)
        (authenticate-found username password origin token now s l.user l.found)
      ∙ rw held

  -- After five logins with a wrong password in a row, by a user with none before, every login of the user
  -- is refused for the fifteen minutes after the last one, with the right password too.
  pub five_failures_lock_out :
      (username : String) (s : AuthStore) (u : User) (attempts : List Attempt) (last : Attempt)
      → live_user username s.users ≡ some u
      → u.status ≡ active
      → u.failed_login_count ≡ 0
      → length attempts ≡ 4
      → All
          (λ a. verify_password verify hash_password hash_token u.user_id a.0 s ≡ ok false)
          (attempts ++ last ∷ [])
      → (password : String) (origin : Origin) (token : String) (now : ℕ) → now < last.3 + 900
      → (authenticate verify hash_password hash_token username password origin token now
          (try_logins username (attempts ++ last ∷ []) s)).1
        ≡ err user_locked
  five_failures_lock_out username s u attempts last f free none_yet four wrong password origin token
        now early =
      locked_out username password origin token now (last.3 + 900) _
        (try_four username s s u.user_id attempts last 0 (omega (arith, four)) wrong (record {
          user = u;
          found = f;
          id = refl;
          free = free;
          counted = none_yet;
          same = λ p. refl;
        }))
        early
