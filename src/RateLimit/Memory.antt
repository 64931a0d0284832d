-- ===== src/RateLimit/Memory.antt =====
-- app/marketguard_api/rate_limit.py: the limiter of the market API, a dict under one lock.
use scam_screener_api.Base.{
  [], refl, ℕ, ◌+◌, ◌≡◌, Str, Bool, true, false, not, ltb, select, none, some, arith, Eq,
}
use scam_screener_api.Base.{pair_eq, nat_eq, str_eq, if◌then◌else◌}
use scam_screener_api.Base.Int.{ℤ, le_count}
use scam_screener_api.Base.Dict.{Dict, lookup, insert, NodupKeys, lookup-insert, lookup-select}
use scam_screener_api.Base.Dict.{lookup-select-none, select-NodupKeys, insert-NodupKeys}
use scam_screener_api.Base.{◌&&◌, str_beq, ◌==◌, Option-cases, inl, inr}
use scam_screener_api.RateLimit.{safe_window, bucket_start, retry_after, stale_before}

-- `_buckets`
abbrev pub Buckets : Type 0
Buckets = Dict (Str × ℕ) ℕ

-- The answer, and the seconds to wait.
abbrev pub Answer : Type 0
Answer = Bool × ℕ

-- The test of the loop that drops old buckets.
unfoldable pub fresh : ℕ → (Str × ℕ) × ℕ → Bool
fresh stale ((key, start), count) = not (ltb start stale)

module _ {ℓ} {K : Type ℓ} ⦃e : Eq K⦄ where
  unfoldable pub stored_count : K → Dict K ℕ → ℕ
  stored_count k buckets = elim (lookup k buckets) [ none ↦ 0 | some count ↦ count ]

  -- The part of `allow` behind the loop.
  unfoldable pub charge : K → ℤ → ℕ → Dict K ℕ → Answer × Dict K ℕ
  charge k max_requests retry kept =
      let count = stored_count k kept in
      if le_count max_requests count
      then ((false, retry), kept)
      else ((true, 0), insert k (count + 1) kept)

  charge-NodupKeys :
      (k : K) (max_requests : ℤ) (retry : ℕ) (kept : Dict K ℕ)
      → NodupKeys kept
      → NodupKeys (charge k max_requests retry kept).1
  unfolding charge
  charge-NodupKeys k m retry kept u =
      ground (arith, insert-NodupKeys k (stored_count k kept + 1) kept u)

  answer-charge :
      (k : K) (max_requests : ℤ) (retry : ℕ) (kept : Dict K ℕ)
      → (charge k max_requests retry kept).0.0 ≡ not (le_count max_requests (stored_count k kept))
  unfolding charge
  answer-charge k m retry kept = ground arith

  stored_count-charge :
      (j k : K) (max_requests : ℤ) (retry : ℕ) (kept : Dict K ℕ)
      → stored_count j (charge k max_requests retry kept).1 ≡ (
          if e.beq j k && not (le_count max_requests (stored_count k kept))
          then stored_count j kept + 1
          else stored_count j kept)
  unfolding charge stored_count
  stored_count-charge j k m retry kept =
      ground (arith, e.beq_iff j k, lookup-insert j k (stored_count k kept + 1) kept)

unfoldable pub allow : ℕ → Str → ℤ → ℤ → Buckets → Answer × Buckets
allow now key max_requests window_seconds buckets =
    let window = safe_window window_seconds in
    charge (key, bucket_start now window) max_requests (retry_after now window)
      (select (fresh (stale_before now window)) buckets)

stored_count-select :
    (stale : ℕ) (k : Str × ℕ) (buckets : Buckets)
    → NodupKeys buckets
    → stored_count k (select (fresh stale) buckets)
      ≡ (if ltb k.1 stale then 0 else stored_count k buckets)
unfolding stored_count fresh
stored_count-select stale k buckets u = elim (Option-cases (lookup k buckets)) [
  | inl absent ↦ ground (arith, lookup-select-none k (fresh stale) buckets)
  | inr (count, found) ↦ ground (arith, lookup-select k (fresh stale) buckets count u found)
]

-- The count that a bucket of the store has, 0 if there is none.
unfoldable pub bucket_count : Str → ℕ → Buckets → ℕ
bucket_count key start buckets = stored_count (key, start) buckets

pub bucket_count-nil : (key : Str) (start : ℕ) → bucket_count key start [] ≡ 0
unfolding bucket_count stored_count lookup
bucket_count-nil key start = refl

start-not_stale :
    (now : ℕ) (window_seconds : ℤ)
    → let window = safe_window window_seconds in
      ltb (bucket_start now window) (stale_before now window) ≡ false
unfolding stale_before
start-not_stale now window_seconds = ground arith

module _ (now : ℕ) (key : Str) (max_requests window_seconds : ℤ) (buckets : Buckets) where
  pub allow-NodupKeys :
      NodupKeys buckets → NodupKeys (allow now key max_requests window_seconds buckets).1
  unfolding allow
  allow-NodupKeys u = charge-NodupKeys _ _ _ _ (select-NodupKeys _ buckets u)

  -- The answer is the comparison of the stored count with the limit, whatever old buckets went.
  pub answer_iff_below :
      NodupKeys buckets
      → (allow now key max_requests window_seconds buckets).0.0
        ≡ not (
            le_count max_requests
              (bucket_count key (bucket_start now (safe_window window_seconds)) buckets))
  unfolding allow bucket_count
  answer_iff_below u =
      rw (answer-charge, stored_count-select _ _ buckets u, start-not_stale now window_seconds)

  -- A call drops the stale counts and adds one to its own count if it is granted.
  pub bucket_count-allow :
      (caller : Str) (start : ℕ)
      → NodupKeys buckets
      → bucket_count caller start (allow now key max_requests window_seconds buckets).1 ≡ (
          if ltb start (stale_before now (safe_window window_seconds))
          then 0
          else if (str_beq caller key && start == bucket_start now (safe_window window_seconds))
              && (allow now key max_requests window_seconds buckets).0.0
          then bucket_count caller start buckets + 1
          else bucket_count caller start buckets)
  unfolding allow bucket_count
  bucket_count-allow caller start u =
      let window = safe_window window_seconds in
      let first = bucket_start now window in
      let stale = stale_before now window in
      rw
        (
          stored_count-charge,
          answer-charge,
          stored_count-select stale (caller, start) buckets u,
          stored_count-select stale (key, first) buckets u,
          start-not_stale now window_seconds,
        )
        (ground (arith, start-not_stale now window_seconds))
