-- ===== src/Login.antt =====
-- app/training_hub/core/session_auth_login.py and session_auth_password.py: the login with its
-- lockout, and the change of a password, on the columns of the table `users` that they use. The
-- stored hash for names that there are not is compared only for the time it takes, and left out.
pub mod Passwords
pub mod Stored
pub mod Attempts
pub mod Paid
pub mod Guesses
pub mod Changed
use scam_screener_api.Base.{
  ℕ, ◌+◌, ◌-◌, ◌/◌, max, Str, codes, str_beq, nat_eq, Bool, true, false, not, ◌||◌, Option, none,
  some, if◌then◌else◌, ◌==◌, leb, ltb,
}
use scam_screener_api.Base.Dict.{lookup}
use scam_screener_api.Base.Text.{strip}
use scam_screener_api.Base.Instants.{Instant, minutes}
use scam_screener_api.Base.Sql.{Table, find_row, update_table}
use scam_screener_api.Sessions.{is_filled}
use scam_screener_api.ExternalAuth.{Outcome, ok, refused, raised}
use Passwords.{Hashing, verify_password, hash_password, validate_password}

-- The column `lockout_until`: NULL or blank, a time, or a text that is none.
pub data Lockout : Type 0 where
  unlocked : Lockout
  until : Instant → Lockout
  unreadable : Lockout

pub record Account : Type 0 where
  pub username : Str
  pub email : Str
  pub password_hash : Str
  pub failed_login_attempts : ℕ
  pub lockout_until : Lockout
  pub last_login_at : Option Instant

abbrev pub login_max_failures : ℕ
login_max_failures = 5

abbrev pub login_lockout_minutes : ℕ
login_lockout_minutes = 15

-- What `_consume_login_attempt` answers with, and that the comparison of the passwords raises.
pub data Status : Type 0 where
  unknown : Status
  invalid : ℕ → Status
  locked : ℕ → ℕ → Status
  entered : ℕ → Status
  crashed : Status

-- `max(1, int((lockout_until - now).total_seconds()) + 1)`
unfoldable pub retry_after : Instant → Instant → ℕ
retry_after lockout_until now = max 1 ((lockout_until - now) / 1000000 + 1)

-- For how long the account is locked.
unfoldable pub locked_for : Instant → Lockout → Option ℕ
unfolding retry_after
locked_for now unlocked = none
locked_for now (until time) = if ltb now time then some (retry_after time now) else none
locked_for now unreadable = none

-- `WHERE username = ? OR email = ?`
unfoldable pub is_named : Str → ℕ → Account → Bool
is_named candidate i a = str_beq a.username candidate || str_beq a.email candidate

-- `UPDATE users SET ... WHERE id = ?`
unfoldable pub set_account : ℕ → (Account → Account) → Table Account → Table Account
set_account user_id f t = update_table (λ i a. i == user_id) f t

abbrev pub locked_until : Instant → Account → Account
locked_until time a = record a { failed_login_attempts = 0; lockout_until = until time }

abbrev pub failed_again : ℕ → Account → Account
failed_again attempts a = record a { failed_login_attempts = attempts; lockout_until = unlocked }

abbrev pub logged_in : Instant → Account → Account
logged_in now a = record a {
  last_login_at = some now;
  failed_login_attempts = 0;
  lockout_until = unlocked;
}

abbrev pub with_password : Str → Account → Account
with_password password_hash a = record a {
  password_hash = password_hash;
  failed_login_attempts = 0;
  lockout_until = unlocked;
}

module _ (hashing : Hashing) (lower : Str → Str) where
  -- By what `_verify_password` answers; `later` is the time of the login.
  unfoldable pub checked :
      Instant → Instant → ℕ → Account → Option Bool → Table Account → Status × Table Account
  unfolding set_account retry_after
  checked now later user_id a none t = (crashed, t)
  checked now later user_id a (some false) t =
      let attempts = a.failed_login_attempts + 1 in
      let lockout_until = now + minutes login_lockout_minutes in
      if leb login_max_failures attempts
      then (
        locked (retry_after lockout_until now) user_id,
        set_account user_id (locked_until lockout_until) t,
      )
      else (invalid user_id, set_account user_id (failed_again attempts) t)
  checked now later user_id a (some true) t =
      (entered user_id, set_account user_id (logged_in later) t)

  unfoldable pub attempt :
      Instant → Instant → Str → Option (ℕ × Account) → Table Account → Status × Table Account
  unfolding locked_for checked verify_password
  attempt now later password none t = (unknown, t)
  attempt now later password (some (user_id, a)) t = elim (locked_for now a.lockout_until) [
    | none ↦ checked now later user_id a (verify_password hashing password a.password_hash) t
    | some seconds ↦ (locked seconds user_id, t)
  ]

  -- `_consume_login_attempt`
  unfoldable pub consume_login_attempt :
      Str → Str → Instant → Instant → Table Account → Status × Table Account
  unfolding attempt is_named strip
  consume_login_attempt username_or_email password now later t =
      attempt now later password (find_row (is_named (lower (strip username_or_email))) t.rows) t

  unfoldable pub change_checked :
      ℕ → Str → Str → Option Bool → Table Account → Outcome (Unit {0}) × Table Account
  unfolding set_account hash_password
  change_checked user_id salt new_password none t = (raised, t)
  change_checked user_id salt new_password (some false) t =
      (refused (codes "Current password is incorrect.") 401, t)
  change_checked user_id salt new_password (some true) t =
      (ok tt, set_account user_id (with_password (hash_password hashing salt new_password)) t)

  unfoldable pub change_found :
      ℕ → Str → Str → Str → Option Account → Table Account → Outcome (Unit {0}) × Table Account
  unfolding change_checked verify_password
  change_found user_id current_password salt new_password none t =
      (refused (codes "User not found.") 404, t)
  change_found user_id current_password salt new_password (some a) t =
      change_checked user_id salt new_password
        (verify_password hashing current_password a.password_hash) t

  -- `_change_user_password`; `salt` is the random one of the new hash.
  unfoldable pub change_user_password :
      ℕ → Str → Str → Str → Table Account → Outcome (Unit {0}) × Table Account
  unfolding validate_password change_found
  change_user_password user_id current_password salt new_password t =
      let new_password_error = validate_password new_password in
      if is_filled new_password_error
      then (refused new_password_error 400, t)
      else if str_beq current_password new_password
      then (refused (codes "New password must be different from current password.") 400, t)
      else change_found user_id current_password salt new_password (lookup user_id t.rows) t

  unfoldable pub reauth_checked :
      ℕ → Str → Str → Option Bool → Table Account → Outcome (Unit {0}) × Table Account
  unfolding set_account hash_password
  reauth_checked user_id salt new_password none t = (raised, t)
  reauth_checked user_id salt new_password (some true) t =
      (refused (codes "New password must be different from current password.") 400, t)
  reauth_checked user_id salt new_password (some false) t =
      (ok tt, set_account user_id (with_password (hash_password hashing salt new_password)) t)

  unfoldable pub reauth_found :
      ℕ → Str → Str → Option Account → Table Account → Outcome (Unit {0}) × Table Account
  unfolding reauth_checked verify_password
  reauth_found user_id salt new_password none t = (refused (codes "User not found.") 404, t)
  reauth_found user_id salt new_password (some a) t =
      reauth_checked user_id salt new_password
        (verify_password hashing new_password a.password_hash) t

  -- `_change_user_password_after_reauth`
  unfoldable pub change_user_password_after_reauth :
      ℕ → Str → Str → Table Account → Outcome (Unit {0}) × Table Account
  unfolding validate_password reauth_found
  change_user_password_after_reauth user_id salt new_password t =
      let new_password_error = validate_password new_password in
      if is_filled new_password_error
      then (refused new_password_error 400, t)
      else reauth_found user_id salt new_password (lookup user_id t.rows) t
