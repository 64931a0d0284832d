-- ===== src/Base/Int.antt =====
-- Python's unbounded `int` where it may be negative, as far as the program uses it.
use Prim.Native.Nat.{ℕ, ◌≤◌, max}
use mathlib.Core.Path.{◌≡◌, refl}
use mathlib.Core.Bool.{Bool, true}
use scam_screener_api.Base.Tests.{leb}
use native.Mathlib.Omega.{arith}

-- `negsuc n` is -(n + 1).
pub data ℤ : Type 0 where
  pos : ℕ → ℤ
  negsuc : ℕ → ℤ

-- `max(low, value)` for a `low` that is not negative.
abbrev pub clamp_low : ℕ → ℤ → ℕ
clamp_low low (pos n) = max low n
clamp_low low (negsuc n) = low

-- `bound <= count` for a count that is not negative.
abbrev pub le_count : ℤ → ℕ → Bool
le_count (pos n) count = leb n count
le_count (negsuc n) count = true

-- `max(0, bound)`
abbrev pub pos_part : ℤ → ℕ
pos_part (pos n) = n
pos_part (negsuc n) = 0

pub le_count-pos_part : (bound : ℤ) (count : ℕ) → le_count bound count ≡ leb (pos_part bound) count
le_count-pos_part (pos n) count = refl
le_count-pos_part (negsuc n) count = ground arith

pub clamp_low_bound : (low : ℕ) (value : ℤ) → low ≤ clamp_low low value
clamp_low_bound low (pos n) = omega arith
clamp_low_bound low (negsuc n) = omega arith
