-- ===== src/Cache.antt =====
-- app/marketguard_api/cache.py: the response cache of the market API.
pub mod Local
pub mod Bounds
pub mod History
pub mod Chain
use scam_screener_api.Base.{Bool}

-- `CachedResponse`, for a type of payloads.
pub record CachedResponse (P : Type 0) : Type 0 where
  pub payload : P
  pub is_stale : Bool
