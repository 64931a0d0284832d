-- ===== src/RateLimit/Quota.antt =====
-- The limiter of the market API never grants more than `max_requests` in one window.
use scam_screener_api.Base.{
  ℕ, ◌+◌, ◌-◌, ◌≤◌, ◌<◌, ◌≡◌, refl, min, Str, Bool, true, false, ltb, List, [], ◌∷◌, arith, pair_eq,
  nat_eq, str_eq, if◌then◌else◌, ◌==◌, Bool-cases, inl, inr, ◌&&◌, str_beq, str_beq_iff,
}
use scam_screener_api.Base.Int.{ℤ, pos_part, le_count-pos_part}
use scam_screener_api.Base.Dict.{NodupKeys}
use scam_screener_api.RateLimit.{safe_window, bucket_start, stale_before, safe_window-pos}
use scam_screener_api.RateLimit.{bucket_start_mono}
use scam_screener_api.RateLimit.Memory.{
  Buckets, bucket_count, bucket_count-nil, allow, allow-NodupKeys, answer_iff_below,
  bucket_count-allow,
}
use native.Mathlib.Nat.{le_trans, le_refl}

-- The calls of `allow` in the order of the lock, with one limit and one window.
abbrev pub Call : Type 0
Call = ℕ × Str

-- Calls at times that do not go back, the first at `t` or later.
abbrev pub IsForward : ℕ → List Call → Type 0
IsForward t [] = Unit
IsForward t ((now, key) ∷ calls) = (t ≤ now) × IsForward now calls

start-lt_of_stale :
    (start now window : ℕ)
    → ltb start (stale_before now window) ≡ true
    → start < bucket_start now window
unfolding stale_before
start-lt_of_stale start now window h = ground arith

module _ (max_requests window_seconds : ℤ) where
  unfoldable pub is_in : Str → ℕ → Call → Bool
  is_in key start (now, caller) =
      str_beq key caller && start == bucket_start now (safe_window window_seconds)

  -- How many of the calls have this key and fall into the window that begins at `start`.
  unfoldable pub asked : Str → ℕ → List Call → ℕ
  asked key start [] = 0
  asked key start (call ∷ calls) =
      let rest = asked key start calls in if is_in key start call then rest + 1 else rest

  -- How many of these `allow` grants.
  unfoldable pub granted : Str → ℕ → List Call → Buckets → ℕ
  granted key start [] buckets = 0
  granted key start ((now, caller) ∷ calls) buckets =
      let (answer, after) = allow now caller max_requests window_seconds buckets in
      let rest = granted key start calls after in
      if is_in key start (now, caller) && answer.0 then rest + 1 else rest

  not-is_in_later :
      (key : Str) (start now : ℕ) (caller : Str)
      → start < bucket_start now (safe_window window_seconds)
      → is_in key start (now, caller) ≡ false
  unfolding is_in
  not-is_in_later key start now caller h = ground arith

  nothing_later :
      (key : Str) (start t : ℕ) (calls : List Call) (buckets : Buckets)
      → start < bucket_start t (safe_window window_seconds)
      → IsForward t calls
      → (granted key start calls buckets ≡ 0) × (asked key start calls ≡ 0)
  unfolding granted asked
  nothing_later key start t [] buckets h f = (refl, refl)
  nothing_later key start t ((now, caller) ∷ calls) buckets h (le, f) =
      let past : start < bucket_start now (safe_window window_seconds) = le_trans h (
        bucket_start_mono t now (safe_window window_seconds) (safe_window-pos window_seconds) le) in
      ground (
        arith,
        not-is_in_later key start now caller past,
        nothing_later key start now calls (allow now caller max_requests window_seconds buckets).1
            past f,
      )

  -- From any store, the calls of one window are granted as long as its count is below the limit.
  granted-eq-min :
      (key : Str) (start t : ℕ) (calls : List Call) (buckets : Buckets)
      → NodupKeys buckets
      → IsForward t calls
      → granted key start calls buckets
        ≡ min (asked key start calls) (pos_part max_requests - bucket_count key start buckets)
  unfolding granted asked is_in
  granted-eq-min key start t [] buckets u f = omega arith
  granted-eq-min key start t ((now, caller) ∷ calls) buckets u (le, f) =
      let stale = stale_before now (safe_window window_seconds) in
      let after = (allow now caller max_requests window_seconds buckets).1 in
      elim (Bool-cases (ltb start stale)) [
        | inl old ↦ ground (
          arith,
          nothing_later key start now ((now, caller) ∷ calls) buckets
              (start-lt_of_stale start now (safe_window window_seconds) old) (le_refl now, f),
        )
        | inr kept ↦ ground (
          arith,
          granted-eq-min key start now calls after
              (allow-NodupKeys now caller max_requests window_seconds buckets u) f,
          answer_iff_below now caller max_requests window_seconds buckets u,
          bucket_count-allow now caller max_requests window_seconds buckets key start u,
          str_beq_iff key caller,
          le_count-pos_part max_requests
              (bucket_count caller (bucket_start now (safe_window window_seconds)) buckets),
        )
      ]

  -- If the clock does not go back, then of the calls with one key in one window exactly the first
  -- `max(0, max_requests)` are granted, from an empty store and however other keys call between.
  pub granted_exactly :
      (key : Str) (start : ℕ) (calls : List Call)
      → IsForward 0 calls
      → granted key start calls [] ≡ min (asked key start calls) (pos_part max_requests)
  granted_exactly key start calls f =
      omega (arith, granted-eq-min key start 0 calls [] tt f, bucket_count-nil key start)
