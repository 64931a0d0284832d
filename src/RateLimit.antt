-- ===== src/RateLimit.antt =====
-- app/marketguard_api/rate_limit.py and app/training_hub/http/rate_limit.py: the arithmetic of the
-- fixed windows, which both limiters begin with. A time is `int(time.time())`, so not negative.
pub mod Memory
pub mod Quota
pub mod Database
pub mod Agreement
pub mod Races
use scam_screener_api.Base.{ℕ, suc, ◌+◌, ◌-◌, ◌*◌, ◌/◌, ◌%◌, ◌≤◌, ◌<◌, max, ◌≡◌, arith}
use scam_screener_api.Base.Int.{ℤ, pos, negsuc, clamp_low}
use native.Mathlib.Nat.{mod-lt, div-add-mod', div-mul-le_self, le-div_iff_mul-le, le_trans}

unfoldable pub safe_window : ℤ → ℕ
safe_window window_seconds = clamp_low 1 window_seconds

-- The three values are functions of the time and of the safe window.
unfoldable pub bucket_start : ℕ → ℕ → ℕ
bucket_start now window = now - now % window

unfoldable pub retry_after : ℕ → ℕ → ℕ
unfolding bucket_start
retry_after now window = max 1 (bucket_start now window + window - now)

-- Stops at 0, where the source goes below: no bucket begins before 0 either way.
unfoldable pub stale_before : ℕ → ℕ → ℕ
unfolding bucket_start
stale_before now window = bucket_start now window - window * 12

pub safe_window-pos : (window_seconds : ℤ) → 0 < safe_window window_seconds
unfolding safe_window
safe_window-pos (pos n) = omega arith
safe_window-pos (negsuc n) = omega arith

bucket_start-mul : (now window : ℕ) → bucket_start now window ≡ now / window * window
unfolding bucket_start
bucket_start-mul now window = omega (arith, div-add-mod' now window)

pub bucket_start_mono :
    (now later window : ℕ)
    → 0 < window
    → now ≤ later
    → bucket_start now window ≤ bucket_start later window
bucket_start_mono now later window w h =
    rw (bucket_start-mul now window, bucket_start-mul later window)
      (grind (arith, (le-div_iff_mul-le w).1 (le_trans (div-mul-le_self now window) h)))

-- The window holds the time, and a client that waits as told arrives at the next window.
pub window_bounds :
    (now window : ℕ)
    → 0 < window
    → (bucket_start now window ≤ now)
      × (now + retry_after now window ≡ bucket_start now window + window)
      × (retry_after now window ≤ window)
unfolding retry_after
window_bounds now window h = grind (arith, mod-lt)
