-- ===== src/Login/Changed.antt =====
-- The change of a password and the login of session_auth_login.py: a new password lets its user in.
use scam_screener_api.Base.{
  ℕ, ◌≡◌, refl, sym, ap, ◌∙◌, ◌⊎◌, inl, inr, Str, codes, str_beq, str_beq_iff, nat_eq, Bool, true,
  false, ◌==◌, ==_iff, Option, none, some, [], ◌∷◌, All, if◌then◌else◌, Bool-cases, arith,
}
use scam_screener_api.Base.Dict.{Dict, lookup}
use scam_screener_api.Base.Text.{strip}
use scam_screener_api.Base.Instants.{Instant}
use scam_screener_api.Base.Sql.{Table, find_row, update_rows, update_table}
use scam_screener_api.Base.Int.{pos}
use scam_screener_api.Sessions.{is_filled}
use scam_screener_api.ExternalAuth.{Outcome, ok, refused, refused-ne-ok}
use scam_screener_api.Login.{
  Account, entered, locked_for, is_named, set_account, with_password, checked, attempt,
  consume_login_attempt, change_checked, change_found, change_user_password, reauth_checked,
  reauth_found, change_user_password_after_reauth,
}
use scam_screener_api.Login.Passwords.{Hashing, iterations, hash_password, validate_password}
use scam_screener_api.Login.Stored.{IsByte, verify-hash_password}

-- An UPDATE that keeps what the WHERE clause of a SELECT looks at.
find_row-update_rows :
    {R : Type 0} (p q : ℕ → R → Bool) (f : R → R) (d : Dict ℕ R) (i : ℕ) (r : R)
    → ((j : ℕ) (s : R) → p j (f s) ≡ p j s)
    → find_row p d ≡ some (i, r)
    → find_row p (update_rows q f d) ≡ some (i, if q i r then f r else r)
unfolding find_row update_rows
find_row-update_rows p q f [] i r keeps e = cc
find_row-update_rows p q f ((j, s) ∷ d) i r keeps e =
    ground (arith, keeps j s, find_row-update_rows p q f d i r keeps)

module _ (hashing : Hashing) (user_id : ℕ) (salt new_password : Str) (t t' : Table Account) where
  Changed : Type 0
  Changed = t' ≡ set_account user_id (with_password (hash_password hashing salt new_password)) t

  change_checked-Changed :
      (lower : Str → Str) (answer : Option Bool)
      → change_checked hashing lower user_id salt new_password answer t ≡ (ok tt, t')
      → Changed
  unfolding change_checked Changed
  change_checked-Changed lower none e = cc
  change_checked-Changed lower (some false) e = cc
  change_checked-Changed lower (some true) e =
      sym (ap (λ (o : Outcome (Unit {0}) × Table Account). o.1) e)

  change_found-Changed :
      (lower : Str → Str) (current_password : Str) (found : Option Account)
      → change_found hashing lower user_id current_password salt new_password found t ≡ (ok tt, t')
      → Changed
  unfolding change_found
  change_found-Changed lower current_password none e = cc
  change_found-Changed lower current_password (some a) e = change_checked-Changed lower _ e

  no_change :
      (error : Str) (status : ℕ)
      → ◌≡◌ {A = Outcome (Unit {0}) × Table Account} (refused error status, t) (ok tt, t')
      → Changed
  no_change error status e =
      absurd
        (refused-ne-ok error status tt (ap (λ (o : Outcome (Unit {0}) × Table Account). o.0) e))

  change-Changed :
      (lower : Str → Str) (current_password : Str)
      → change_user_password hashing lower user_id current_password salt new_password t
        ≡ (ok tt, t')
      → Changed
  unfolding change_user_password
  change-Changed lower current_password e =
      elim (Bool-cases (is_filled (validate_password new_password))) [
        | inl bad ↦ no_change _ 400 (rw (change_user_password, bad) at e)
        | inr valid ↦ elim (Bool-cases (str_beq current_password new_password)) [
          | inl same ↦ no_change _ 400 (rw (change_user_password, valid, same) at e)
          | inr differs ↦
              change_found-Changed lower current_password (lookup user_id t.rows)
                (rw (change_user_password, valid, differs) at e)
        ]
      ]

  reauth_checked-Changed :
      (lower : Str → Str) (answer : Option Bool)
      → reauth_checked hashing lower user_id salt new_password answer t ≡ (ok tt, t')
      → Changed
  unfolding reauth_checked Changed
  reauth_checked-Changed lower none e = cc
  reauth_checked-Changed lower (some true) e = cc
  reauth_checked-Changed lower (some false) e =
      sym (ap (λ (o : Outcome (Unit {0}) × Table Account). o.1) e)

  reauth_found-Changed :
      (lower : Str → Str) (found : Option Account)
      → reauth_found hashing lower user_id salt new_password found t ≡ (ok tt, t')
      → Changed
  unfolding reauth_found
  reauth_found-Changed lower none e = cc
  reauth_found-Changed lower (some a) e = reauth_checked-Changed lower _ e

  reauth-Changed :
      (lower : Str → Str)
      → change_user_password_after_reauth hashing lower user_id salt new_password t ≡ (ok tt, t')
      → Changed
  unfolding change_user_password_after_reauth
  reauth-Changed lower e = elim (Bool-cases (is_filled (validate_password new_password))) [
    | inl bad ↦ no_change _ 400 (rw (change_user_password_after_reauth, bad) at e)
    | inr valid ↦
        reauth_found-Changed lower (lookup user_id t.rows)
          (rw (change_user_password_after_reauth, valid) at e)
  ]

  either-Changed :
      (lower : Str → Str) (current_password : Str)
      → (change_user_password hashing lower user_id current_password salt new_password t
          ≡ (ok tt, t'))
        ⊎ (change_user_password_after_reauth hashing lower user_id salt new_password t
            ≡ (ok tt, t'))
      → Changed
  either-Changed lower current_password (inl e) = change-Changed lower current_password e
  either-Changed lower current_password (inr e) = reauth-Changed lower e

find_row-set_account :
    (name : Str) (user_id : ℕ) (password_hash : Str) (a : Account) (t : Table Account)
    → find_row (is_named name) t.rows ≡ some (user_id, a)
    → find_row (is_named name) (set_account user_id (with_password password_hash) t).rows
      ≡ some (user_id, with_password password_hash a)
unfolding set_account update_table is_named
find_row-set_account name user_id password_hash a t found =
    find_row-update_rows (is_named name) (λ i b. i == user_id) (with_password password_hash) t.rows
      user_id a (λ j b. refl) found
    ∙ rw ((==_iff user_id user_id).1 refl) refl

-- The login of an account that has just been given the password.
attempt-with_password :
    (hashing : Hashing) (lower : Str → Str) (user_id : ℕ) (salt password : Str)
    (now later : Instant) (a : Account) (t : Table Account)
    → All IsByte salt
    → All IsByte (hashing.pbkdf2_hmac password salt iterations)
    → hashing.int (codes "210000") ≡ some (pos 210_000)
    → (attempt hashing lower now later password
        (some (user_id, with_password (hash_password hashing salt password) a))
        t).0
      ≡ entered user_id
unfolding attempt locked_for
attempt-with_password hashing lower user_id salt password now later a t salted derived reads =
    ap
      (λ answer.
        (checked hashing lower now later user_id
          (with_password (hash_password hashing salt password) a) answer t).0)
      (verify-hash_password hashing salt password password salted derived reads
        ∙ ap (λ b. some b) ((str_beq_iff _ _).1 refl))
    ∙ (unfold checked in refl)

-- After a change of the password, by the current one or after the user has been confirmed, the login
-- with the new password signs the user in under each name that finds the account, whether or not it
-- was locked, if what the key derivation and the salt are made of are bytes, and `int` reads the
-- number of rounds.
pub login-change_user_password :
    (hashing : Hashing) (lower : Str → Str) (user_id : ℕ)
    (current_password salt new_password username_or_email : Str) (now later : Instant) (a : Account)
    (t t' : Table Account)
    → find_row (is_named (lower (strip username_or_email))) t.rows ≡ some (user_id, a)
    → All IsByte salt
    → All IsByte (hashing.pbkdf2_hmac new_password salt iterations)
    → hashing.int (codes "210000") ≡ some (pos 210_000)
    → (change_user_password hashing lower user_id current_password salt new_password t
        ≡ (ok tt, t'))
      ⊎ (change_user_password_after_reauth hashing lower user_id salt new_password t ≡ (ok tt, t'))
    → (consume_login_attempt hashing lower username_or_email new_password now later t').0
      ≡ entered user_id
unfolding consume_login_attempt Changed
login-change_user_password hashing lower user_id current_password salt new_password
      username_or_email now later a t t' found salted derived reads e =
    let changed = either-Changed hashing user_id salt new_password t t' lower current_password e in
    let stored = with_password (hash_password hashing salt new_password) a in
    let there : find_row (is_named (lower (strip username_or_email))) t'.rows
        ≡ some (user_id, stored) =
      ap (λ (k : Table Account). find_row (is_named (lower (strip username_or_email))) k.rows)
        changed
      ∙ find_row-set_account (lower (strip username_or_email)) user_id
          (hash_password hashing salt new_password) a t found in
    ap (λ k. (attempt hashing lower now later new_password k t').0) there
    ∙ attempt-with_password hashing lower user_id salt new_password now later a t' salted derived
        reads
