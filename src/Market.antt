-- ===== src/Market.antt =====
-- app/marketguard_api/service.py and refresher.py: the snapshots that requests are served from. A
-- time is a natural number of microseconds since the epoch.
pub mod Service
pub mod Served
pub mod Answered
pub mod Refreshed
pub mod Refresher
pub mod Stored
pub mod Running
pub mod Cadence
pub mod Config
use scam_screener_api.Base.{
  ℕ, ◌+◌, ◌*◌, ◌^◌, ◌≤◌, ◌<◌, ◌≡◌, Bool, Option, some, ltb, max, if◌then◌else◌,
}

-- `LowestBinSnapshot` with its metadata, and `BazaarSnapshot`: `content` is all that the rules of
-- this module leave alone.
pub record Snapshot (C : Type 0) : Type 0 where
  pub generated_at : ℕ
  pub is_stale : Bool
  pub content : C

-- The settings of `MarketGuardSettings` that the services and the refresher read.
pub record Settings : Type 0 where
  pub cache_ttl_seconds : ℕ
  pub stale_if_error_seconds : ℕ
  pub background_refresh_interval_seconds : ℕ
  pub background_refresh_retry_seconds : ℕ
  pub readiness_fresh_grace_seconds : ℕ

unfoldable pub effective_background_refresh_interval_seconds : Settings → ℕ
effective_background_refresh_interval_seconds settings =
    if ltb 0 settings.background_refresh_interval_seconds
    then settings.background_refresh_interval_seconds
    else max 5 settings.cache_ttl_seconds

unfoldable pub readiness_fresh_seconds : Settings → ℕ
readiness_fresh_seconds settings =
    settings.cache_ttl_seconds + settings.readiness_fresh_grace_seconds

-- `(now - generated_at) < seconds`, where the difference may be negative.
unfoldable pub is_younger : ℕ → ℕ → ℕ → Bool
is_younger generated_at now seconds = ltb now (generated_at + seconds * 10 ^ 6)

unfoldable pub is_snapshot_fresh : {C : Type 0} → Snapshot C → ℕ → ℕ → Bool
unfolding is_younger
is_snapshot_fresh snapshot now ttl_seconds = is_younger snapshot.generated_at now ttl_seconds

unfoldable pub can_serve_snapshot_stale : {C : Type 0} → Snapshot C → ℕ → ℕ → Bool
unfolding is_younger
can_serve_snapshot_stale snapshot now stale_if_error_seconds =
    is_younger snapshot.generated_at now stale_if_error_seconds

-- The storage behind a service. A read gives the time and the content of the current snapshot; a
-- write is one transaction, and `none` where it is refused.
pub record Storage (C : Type 0) : Type 1 where
  pub State : Type 0
  pub read : State → Option (ℕ × C)
  pub write : ℕ → C → State → Option State

-- What was written is read, as far as the storage keeps it: a time in milliseconds, which floats
-- round down to at most one less.
pub record Keeps {C : Type 0} (storage : Storage C) : Type 0 where
  pub kept : C → C
  pub kept_time : ℕ → ℕ
  pub kept_time_le : (t : ℕ) → kept_time t ≤ t
  pub lt_kept_time : (t : ℕ) → t < kept_time t + 2000
  pub read-write :
      (t : ℕ) (c : C) (s s' : storage.State)
      → storage.write t c s ≡ some s'
      → storage.read s' ≡ some (kept_time t, kept c)
