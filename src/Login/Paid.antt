-- ===== src/Login/Paid.antt =====
-- The lockout of session_auth_login.py: what a number of guesses costs in time.
use scam_screener_api.Base.{
  ℕ, ◌+◌, ◌-◌, ◌*◌, ◌≤◌, ◌<◌, ◌≡◌, ◌⊎◌, inl, inr, refl, min, max, none, if◌then◌else◌, leb, ltb,
  arith, nat_eq, Bool-cases,
}
use scam_screener_api.Base.Instants.{Instant}
use scam_screener_api.Login.{
  Account, Lockout, unlocked, until, unreadable, locked_for, locked_until, failed_again,
}
use scam_screener_api.Login.Attempts.{window}

-- The time until which an account is locked, or 0.
unfoldable pub end_of : Lockout → Instant
end_of unlocked = 0
end_of (until time) = time
end_of unreadable = 0

pub locked_for-none : (now : Instant) (l : Lockout) → locked_for now l ≡ none → end_of l ≤ now
unfolding locked_for end_of
locked_for-none now unlocked e = omega arith
locked_for-none now (until time) e = ground arith
locked_for-none now unreadable e = omega arith

-- What a number of guesses since a time has cost, by the row of the account.
pub record Paid (from now n : ℕ) (a : Account) : Type 0 where
  pub started : from ≤ now
  pub cost :
      (n ≡ 0)
      ⊎ ((n * window + 5 * from
            ≤ 5 * max now (end_of a.lockout_until) + min a.failed_login_attempts 4 * window)
          × (end_of a.lockout_until ≤ now + window)
          × (now < end_of a.lockout_until → a.failed_login_attempts ≡ 0))

pub Paid-later :
    (from now now' n : ℕ) (a : Account) → now ≤ now' → Paid from now n a → Paid from now' n a
Paid-later from now now' n a later p = record {
  started = omega (arith, p.started);
  cost = elim p.cost [
    | inl zero ↦ inl zero
    | inr (cost, near, fresh) ↦
        inr (omega (arith, cost), omega (arith, near), λ e. fresh (omega (arith, e)))
  ];
}

-- The whole time that has passed pays for the guesses.
pub Paid-total :
    (from now n : ℕ) (a : Account) → Paid from now n a → n * window ≤ 5 * ((now - from) + window)
unfolding end_of
Paid-total from now n a p = elim p.cost [
  | inl zero ↦ rw zero (omega arith)
  | inr (cost, near, fresh) ↦ elim (Bool-cases (ltb now (end_of a.lockout_until))) [
    | inl ahead ↦
        let none_failed = fresh (ground arith) in omega (arith, cost, near, none_failed, p.started)
    | inr past ↦
        let ended : end_of a.lockout_until ≤ now = ground arith in
        omega (arith, cost, ended, p.started)
  ]
]

-- A guess at an account that is not locked.
pub Paid-failed :
    (from now n : ℕ) (a : Account)
    → end_of a.lockout_until ≤ now
    → Paid from now n a
    → Paid from now (1 + n) (
        if leb 5 (a.failed_login_attempts + 1)
        then locked_until (now + window) a
        else failed_again (a.failed_login_attempts + 1) a)
unfolding end_of
Paid-failed from now n a free p = elim (Bool-cases (leb 5 (a.failed_login_attempts + 1))) [
  | inl full ↦ rw full (record {
    started = p.started;
    cost = inr (
      elim p.cost [
        | inl zero ↦ omega (arith, zero, p.started)
        | inr (cost, near, fresh) ↦ omega (arith, cost, free)
      ],
      omega arith,
      λ e. refl,
    );
  })
  | inr few ↦ rw few (record {
    started = p.started;
    cost = inr (
      elim p.cost [
        | inl zero ↦ ground (arith, zero, p.started, few)
        | inr (cost, near, fresh) ↦ ground (arith, cost, free, few)
      ],
      omega arith,
      λ e. absurd (omega (arith, e)),
    );
  })
]
