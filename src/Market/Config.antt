-- ===== src/Market/Config.antt =====
-- The numbers of `MarketGuardSettings.from_env` in app/marketguard_api/config.py that the services
-- and the refresher read. `parse_int`, an argument below, is `int` of a text, `none` where it raises.
use scam_screener_api.Base.{ℕ, Str, Option, none, some, [], ◌∷◌, min, max, ltb, ◌||◌, if◌then◌else◌}
use scam_screener_api.Base.Int.{ℤ, pos, negsuc}
use scam_screener_api.Base.Text.{strip}
use scam_screener_api.Market.{Settings}

-- `max(min_value, min(max_value, parsed))`
unfoldable pub bounded_between : ℕ → ℕ → ℤ → ℕ
bounded_between min_value max_value (pos n) = max min_value (min max_value n)
bounded_between min_value max_value (negsuc n) = min_value

-- The value of the environment variables that are read, `none` for one that is not set.
pub record Environment : Type 0 where
  pub cache_ttl_seconds : Option Str
  pub stale_if_error_seconds : Option Str
  pub background_refresh_interval_seconds : Option Str
  pub background_refresh_retry_seconds : Option Str
  pub readiness_fresh_grace_seconds : Option Str

module _ (parse_int : Str → Option ℤ) where
  unfoldable pub parsed_or : ℕ → ℕ → ℕ → Option ℤ → ℕ
  unfolding bounded_between
  parsed_or default min_value max_value none = default
  parsed_or default min_value max_value (some parsed) = bounded_between min_value max_value parsed

  unfoldable pub non_blank : ℕ → ℕ → ℕ → Str → ℕ
  unfolding parsed_or
  non_blank default min_value max_value [] = default
  non_blank default min_value max_value (c ∷ s) =
      parsed_or default min_value max_value (parse_int (c ∷ s))

  -- `_env_int` of what the variable holds.
  unfoldable pub env_int : Option Str → ℕ → ℕ → ℕ → ℕ
  unfolding non_blank
  env_int none default min_value max_value = default
  env_int (some raw) default min_value max_value = non_blank default min_value max_value (strip raw)

  unfoldable pub read_settings : Environment → Settings
  unfolding env_int
  read_settings e = record {
    cache_ttl_seconds = env_int e.cache_ttl_seconds 60 5 900;
    stale_if_error_seconds = env_int e.stale_if_error_seconds 300 5 3600;
    background_refresh_interval_seconds = env_int e.background_refresh_interval_seconds 0 0 900;
    background_refresh_retry_seconds = env_int e.background_refresh_retry_seconds 15 5 300;
    readiness_fresh_grace_seconds = env_int e.readiness_fresh_grace_seconds 120 0 3600;
  }

  -- The settings, or the ValueError of the checks at the end.
  unfoldable pub from_env : Environment → Option Settings
  unfolding read_settings
  from_env e =
      let settings = read_settings e in
      if ltb settings.stale_if_error_seconds settings.cache_ttl_seconds
        || ltb settings.stale_if_error_seconds settings.readiness_fresh_grace_seconds
      then none
      else some settings
