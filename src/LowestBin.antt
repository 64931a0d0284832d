-- ===== src/LowestBin.antt =====
-- app/marketguard_api/service.py: the Lowest BIN index of the auction house, built page by page.
pub mod Index
pub mod Minimum
pub mod Paging
pub mod Build
use scam_screener_api.Base.{Bool, true, false, ◌≡◌}

-- What the code needs of Python's floats: the type of prices and its `<`.
pub record Floats : Type 1 where
  pub Price : Type 0
  pub lt : Price → Price → Bool

-- `<` on floats other than NaN.
pub record IsOrder (floats : Floats) : Type 0 where
  pub asymmetric : (a b : floats.Price) → floats.lt a b ≡ true → floats.lt b a ≡ false
  pub transitive :
      (a b c : floats.Price) → floats.lt b a ≡ false → floats.lt c b ≡ false → floats.lt c a ≡ false
