-- ===== src/Login/Attempts.antt =====
-- Attempts to log in one after the other, and how many of them guess at the password of an account.
use scam_screener_api.Base.{
  ℕ, ◌+◌, ◌≤◌, ◌≢◌, Str, Bool, true, false, Option, none, some, List, [], ◌∷◌, if◌then◌else◌, ◌==◌,
  nat_eq,
}
use scam_screener_api.Base.Text.{strip}
use scam_screener_api.Base.Instants.{Instant}
use scam_screener_api.Base.Sql.{Table, find_row}
use scam_screener_api.Login.{Account, Status, entered, locked_for, is_named, consume_login_attempt}
use scam_screener_api.Login.Passwords.{Hashing, verify_password}

pub record Attempt : Type 0 where
  pub username_or_email : Str
  pub password : Str
  pub now : Instant
  pub later : Instant

-- The lockout, in microseconds.
abbrev pub window : ℕ
window = 900_000_000

-- The times of the attempts do not decrease.
abbrev pub InOrder : Instant → List Attempt → Type 0
InOrder from [] = Unit
InOrder from (c ∷ attempts) = (from ≤ c.now) × InOrder c.now attempts

unfoldable pub last_time : Instant → List Attempt → Instant
last_time from [] = from
last_time from (c ∷ attempts) = last_time c.now attempts

module _ (hashing : Hashing) (lower : Str → Str) where
  unfoldable pub login : Attempt → Table Account → Status × Table Account
  unfolding consume_login_attempt
  login c t = consume_login_attempt hashing lower c.username_or_email c.password c.now c.later t

  -- The attempts sign nobody in as this user.
  abbrev pub NeverEnter : ℕ → List Attempt → Table Account → Type 0
  NeverEnter user_id [] t = Unit
  NeverEnter user_id (c ∷ attempts) t =
      ((login c t).0 ≢ entered user_id) × NeverEnter user_id attempts (login c t).1

  -- The attempt is one on this account while it is not locked, and its password is compared and
  -- found to be wrong.
  unfoldable pub is_guess_at : ℕ → Attempt → Option (ℕ × Account) → Bool
  unfolding locked_for verify_password
  is_guess_at user_id c none = false
  is_guess_at user_id c (some (i, a)) = elim (locked_for c.now a.lockout_until) [
    | some seconds ↦ false
    | none ↦ elim (verify_password hashing c.password a.password_hash) [
      | some false ↦ user_id == i
      | some true ↦ false
      | none ↦ false
    ]
  ]

  unfoldable pub is_guess : ℕ → Attempt → Table Account → Bool
  unfolding is_guess_at is_named strip
  is_guess user_id c t =
      is_guess_at user_id c (find_row (is_named (lower (strip c.username_or_email))) t.rows)

  unfoldable pub guesses : ℕ → List Attempt → Table Account → ℕ
  unfolding is_guess login
  guesses user_id [] t = 0
  guesses user_id (c ∷ attempts) t =
      (if is_guess user_id c t then 1 else 0) + guesses user_id attempts (login c t).1
