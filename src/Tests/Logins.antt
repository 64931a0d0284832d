-- ===== src/Tests/Logins.antt =====
-- Seven wrong passwords in a minute, of which the sixth and the seventh are not compared.
use scam_screener_api.Base.{
  ℕ, ◌+◌, ◌-◌, ◌*◌, ◌≤◌, ◌≡◌, refl, inl, Str, codes, str_beq, str_eq, nat_eq, none, some, List, [],
  ◌∷◌, ◌++◌, take, if◌then◌else◌, arith,
}
use scam_screener_api.Base.Int.{pos}
use scam_screener_api.Base.Dict.{lookup}
use scam_screener_api.Base.Text.{strip}
use scam_screener_api.Base.Sql.{Table, IsTable, find_row, update_rows, update_table}
use scam_screener_api.ExternalAuth.{ok}
use scam_screener_api.Login.{
  Account, unlocked, entered, locked_for, is_named, set_account, checked, attempt,
  consume_login_attempt, change_checked, change_found, change_user_password,
}
use scam_screener_api.Login.Passwords.{
  Hashing, hash_password, verify_password, validate_password, check_parts, check_digest, compare,
  split, prefixed, fromhex, read_hex, emit, hex_step, hex_value, hex, hex_digit,
}
use scam_screener_api.Login.Attempts.{
  Attempt, window, last_time, NeverEnter, login, is_guess_at, is_guess, guesses,
}
use scam_screener_api.Login.Guesses.{guesses_bound}
use scam_screener_api.Login.Changed.{login-change_user_password}

abbrev hashing : Hashing
hashing = record {
  pbkdf2_hmac = λ password salt rounds. take 3 password ++ salt;
  int = λ s. if str_beq s (codes "210000") then some (pos 210_000) else none;
}

abbrev same : Str → Str
same s = s

abbrev account : Account
account = record {
  username = codes "ann";
  email = codes "ann@example.org";
  password_hash = codes "pbkdf2_sha256$210000$7a$6f6c647a";
  failed_login_attempts = 0;
  lockout_until = unlocked;
  last_login_at = none;
}

abbrev table : Table Account
table = record { rows = (1, account) ∷ []; next_id = 2 }

table-IsTable : IsTable table
unfolding lookup
table-IsTable = record { distinct = (refl, tt); below = (omega arith, tt) }

abbrev wrong : ℕ → Attempt
wrong now = record {
  username_or_email = codes " ann ";
  password = codes "nobody";
  now = now;
  later = now;
}

abbrev wrong_attempts : List Attempt
wrong_attempts =
    wrong 1_000_000
    ∷ wrong 2_000_000
    ∷ wrong 3_000_000
    ∷ wrong 4_000_000
    ∷ wrong 5_000_000
    ∷ wrong 6_000_000
    ∷ wrong 7_000_000
    ∷ []

hash_runs : hash_password hashing (codes "z") (codes "old password") ≡ account.password_hash
unfolding hash_password hex hex_digit
hash_runs = refl

guesses_run : guesses hashing same 1 wrong_attempts table ≡ 5
unfolding guesses is_guess is_guess_at login consume_login_attempt attempt checked locked_for
    set_account verify_password check_parts check_digest compare split prefixed fromhex read_hex
    emit hex_step hex_value find_row is_named update_table update_rows str_beq strip
guesses_run = refl

all_wrong-NeverEnter : NeverEnter hashing same 1 wrong_attempts table
unfolding login consume_login_attempt attempt checked locked_for set_account verify_password
    check_parts check_digest compare split prefixed fromhex read_hex emit hex_step hex_value
    find_row is_named update_table update_rows str_beq strip
all_wrong-NeverEnter =
    (λ e. cc, (λ e. cc, (λ e. cc, (λ e. cc, (λ e. cc, (λ e. cc, (λ e. cc, tt)))))))

guesses_bound_example :
    guesses hashing same 1 wrong_attempts table * window
    ≤ 5 * ((last_time 1_000_000 wrong_attempts - 1_000_000) + window)
guesses_bound_example =
    guesses_bound hashing same 1_000_000 1 account wrong_attempts table table-IsTable
      (unfold lookup in refl)
      (
        omega arith,
        (
          omega arith,
          (omega arith, (omega arith, (omega arith, (omega arith, (omega arith, tt))))),
        ),
      )
      all_wrong-NeverEnter

abbrev changed : Table Account
changed = record {
  rows = (1, record account { password_hash = codes "pbkdf2_sha256$210000$79$6e657779" }) ∷ [];
  next_id = 2;
}

change_runs :
    change_user_password hashing same 1
      (codes "old password")
      (codes "y")
      (codes "new password")
      table
    ≡ (ok tt, changed)
unfolding change_user_password change_found change_checked validate_password set_account
    verify_password check_parts check_digest compare split prefixed fromhex read_hex emit hex_step
    hex_value hash_password hex hex_digit lookup update_table update_rows str_beq
change_runs = refl

login-change_user_password_example :
    (consume_login_attempt hashing same
      (codes "ann@example.org")
      (codes "new password")
      9
      9
      changed).0
    ≡ entered 1
login-change_user_password_example =
    login-change_user_password hashing same 1 (codes "old password") (codes "y")
      (codes "new password") (codes "ann@example.org") 9 9 account table changed
      (unfold find_row is_named strip str_beq in refl) (omega arith, tt)
      (omega arith, (omega arith, (omega arith, (omega arith, tt)))) (unfold str_beq in refl)
      (inl change_runs)
