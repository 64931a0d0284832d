-- ===== src/Login/Guesses.antt =====
-- The lockout of session_auth_login.py: the passwords of an account can be guessed only so fast.
use mathlib.Core.Option.{some-injective}
use scam_screener_api.Base.{
  ℕ, ◌+◌, ◌-◌, ◌*◌, ◌≤◌, ◌≡◌, ◌≢◌, inl, inr, refl, sym, ap, subst, ◌∙◌, Str, Bool, true, false,
  Option, none, some, List, [], ◌∷◌, if◌then◌else◌, ◌==◌, ==_iff, leb, arith, nat_eq, Bool-cases,
  Option-cases, either,
}
use scam_screener_api.Base.Dict.{lookup}
use scam_screener_api.Base.Text.{strip}
use scam_screener_api.Base.Instants.{Instant}
use scam_screener_api.Base.Sql.{
  Table, IsTable, find_row, update_table, update_table-IsTable, lookup-find_row, lookup-update_rows,
}
use scam_screener_api.Login.{
  Account, Status, entered, locked_for, is_named, set_account, checked, attempt,
  consume_login_attempt,
}
use scam_screener_api.Login.Passwords.{Hashing, verify_password}
use scam_screener_api.Login.Attempts.{
  Attempt, window, InOrder, last_time, login, NeverEnter, is_guess_at, is_guess, guesses,
}
use scam_screener_api.Login.Paid.{
  end_of, locked_for-none, Paid, Paid-later, Paid-total, Paid-failed,
}

module _ (hashing : Hashing) (lower : Str → Str) (from : Instant) (user_id : ℕ) where
  -- The row of the account is there, and it has been paid for the guesses.
  record Owes (now n : ℕ) (t : Table Account) : Type 0 where
    row : Account
    stored : lookup user_id t.rows ≡ some row
    paid : Paid from now n row

  set_account-Owes :
      (now n n' i : ℕ) (f : Account → Account) (t : Table Account)
      → (h : Owes now n t) → Paid from now n' (if user_id == i then f h.row else h.row)
      → Owes now n' (set_account i f t)
  unfolding set_account update_table
  set_account-Owes now n n' i f t h p = record {
    row = if user_id == i then f h.row else h.row;
    stored = lookup-update_rows user_id (λ j a. j == i) f t.rows ∙ rw h.stored refl;
    paid = p;
  }

  no_guess : (now n : ℕ) (t : Table Account) → Owes now n t → Owes now (0 + n) t
  no_guess now n t h = subst (λ k. Owes now k t) (omega arith) h

  -- What is set in the row of another account.
  other_account :
      (now n i : ℕ) (f : Account → Account) (t : Table Account)
      → (user_id == i) ≡ false
      → Owes now n t
      → Owes now (0 + n) (set_account i f t)
  other_account now n i f t differs h =
      no_guess now n _ (set_account-Owes now n n i f t h (rw differs h.paid))

  -- What is set after a wrong password.
  failed-Owes :
      (now n i : ℕ) (a : Account) (f : Account → Account) (t : Table Account)
      → lookup i t.rows ≡ some a
      → (Paid from now n a → Paid from now (1 + n) (f a))
      → Owes now n t
      → Owes now ((if user_id == i then 1 else 0) + n) (set_account i f t)
  failed-Owes now n i a f t there pays h = elim (Bool-cases (user_id == i)) [
    | inl same ↦
        let is_i = (==_iff user_id i).0 same in
        let row : h.row ≡ a =
          some-injective h.row a (sym h.stored ∙ ap (λ k. lookup k t.rows) is_i ∙ there) in
        rw same (
          set_account-Owes now n (1 + n) i f t h (
            rw same (
              subst (λ (r : Account). Paid from now (1 + n) (f r)) (sym row)
                (pays (subst (Paid from now n) row h.paid)))))
    | inr differs ↦ rw differs (other_account now n i f t differs h)
  ]

  checked-Owes :
      (c : Attempt) (n i : ℕ) (a : Account) (answer : Option Bool) (t : Table Account)
      → lookup i t.rows ≡ some a
      → end_of a.lockout_until ≤ c.now
      → Owes c.now n t
      → (checked hashing lower c.now c.later i a answer t).0 ≢ entered user_id
      → Owes c.now
          ((if (elim answer [ some false ↦ user_id == i | some true ↦ false | none ↦ false ])
              then 1
              else 0)
            + n)
          (checked hashing lower c.now c.later i a answer t).1
  unfolding checked
  checked-Owes c n i a none t there free h out = no_guess c.now n t h
  checked-Owes c n i a (some false) t there free h out =
      elim (Bool-cases (leb 5 (a.failed_login_attempts + 1))) [
        | inl full ↦ rw full (
            failed-Owes c.now n i a _ t there (λ p. rw full at (Paid-failed from c.now n a free p))
              h)
        | inr few ↦ rw few (
            failed-Owes c.now n i a _ t there (λ p. rw few at (Paid-failed from c.now n a free p))
              h)
      ]
  checked-Owes c n i a (some true) t there free h out = elim (Bool-cases (user_id == i)) [
    | inl same ↦ absurd (out (ap entered (sym ((==_iff user_id i).0 same))))
    | inr differs ↦ other_account c.now n i _ t differs h
  ]

  attempt-Owes :
      (c : Attempt) (n : ℕ) (found : Option (ℕ × Account)) (t : Table Account)
      → ((i : ℕ) (a : Account) → found ≡ some (i, a) → lookup i t.rows ≡ some a)
      → Owes c.now n t
      → (attempt hashing lower c.now c.later c.password found t).0 ≢ entered user_id
      → Owes c.now
          ((if is_guess_at hashing lower user_id c found then 1 else 0) + n)
          (attempt hashing lower c.now c.later c.password found t).1
  unfolding attempt is_guess_at
  attempt-Owes c n none t there h out = no_guess c.now n t h
  attempt-Owes c n (some (i, a)) t there h out =
      elim (Option-cases (locked_for c.now a.lockout_until)) [
        | inl free ↦
            rw (attempt, is_guess_at, free)
              (checked-Owes c n i a (verify_password hashing c.password a.password_hash) t
                (there i a refl) (locked_for-none c.now a.lockout_until free) h
                (rw (attempt, free) at out))
        | inr (seconds, e) ↦ rw (attempt, is_guess_at, e) (no_guess c.now n t h)
      ]

  checked-IsTable :
      (c : Attempt) (i : ℕ) (a : Account) (answer : Option Bool) (t : Table Account)
      → IsTable t
      → IsTable (checked hashing lower c.now c.later i a answer t).1
  unfolding checked set_account
  checked-IsTable c i a none t h = h
  checked-IsTable c i a (some false) t h =
      either (λ (o : Status × Table Account). IsTable o.1) (leb 5 (a.failed_login_attempts + 1))
        (update_table-IsTable _ _ t h) (update_table-IsTable _ _ t h)
  checked-IsTable c i a (some true) t h = update_table-IsTable _ _ t h

  attempt-IsTable :
      (c : Attempt) (found : Option (ℕ × Account)) (t : Table Account)
      → IsTable t
      → IsTable (attempt hashing lower c.now c.later c.password found t).1
  unfolding attempt
  attempt-IsTable c none t h = h
  attempt-IsTable c (some (i, a)) t h = elim (Option-cases (locked_for c.now a.lockout_until)) [
    | inl free ↦ rw (attempt, free) (checked-IsTable c i a _ t h)
    | inr (seconds, e) ↦ rw (attempt, e) h
  ]

  guesses-Paid :
      (attempts : List Attempt) (now n : ℕ) (t : Table Account)
      → IsTable t
      → InOrder now attempts
      → NeverEnter hashing lower user_id attempts t
      → Owes now n t
      → (a : Account) × Paid from
          (last_time now attempts)
          (guesses hashing lower user_id attempts t + n)
          a
  unfolding last_time guesses login consume_login_attempt is_guess
  guesses-Paid [] now n t h order out o =
      (o.row, subst (λ k. Paid from now k o.row) (omega arith) o.paid)
  guesses-Paid (c ∷ attempts) now n t h (later, order) (out, outs) o =
      let found = find_row (is_named (lower (strip c.username_or_email))) t.rows in
      let waited : Owes c.now n t = record {
        row = o.row;
        stored = o.stored;
        paid = Paid-later from now c.now n o.row later o.paid;
      } in
      let (a, paid) = guesses-Paid attempts c.now _ _ (attempt-IsTable c found t h) order outs (
        attempt-Owes c n found t (λ i r e. lookup-find_row _ t.rows i r h.distinct e) waited out) in
      (a, subst (λ k. Paid from (last_time c.now attempts) k a) (omega arith) paid)

-- The passwords of an account can be guessed only so fast: as long as nobody signs in as its user,
-- of the attempts from a time on whose passwords are compared and found wrong there are at most
-- five for every fifteen minutes until the last attempt, and five more, whatever names and other
-- accounts are tried in between. The times of the attempts do not decrease.
pub guesses_bound :
    (hashing : Hashing) (lower : Str → Str) (from user_id : ℕ) (a : Account)
    (attempts : List Attempt) (t : Table Account)
    → IsTable t
    → lookup user_id t.rows ≡ some a
    → InOrder from attempts
    → NeverEnter hashing lower user_id attempts t
    → guesses hashing lower user_id attempts t * window
      ≤ 5 * ((last_time from attempts - from) + window)
guesses_bound hashing lower from user_id a attempts t h there order out =
    let start : Owes hashing lower from user_id from 0 t = record {
      row = a;
      stored = there;
      paid = record { started = omega arith; cost = inl refl };
    } in
    let (last, paid) =
      guesses-Paid hashing lower from user_id attempts from 0 t h order out start in
    omega (arith, Paid-total from (last_time from attempts) _ last paid)
