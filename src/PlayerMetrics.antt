-- ===== src/PlayerMetrics.antt =====
-- app/marketguard_api/player_metrics.py: the counters of the player route. Each method is one step
-- under the lock.
pub mod Counted
use scam_screener_api.Base.{ℕ, ◌+◌, ◌-◌, Bool, List, [], ◌∷◌, max, if◌then◌else◌}
use scam_screener_api.LowestBin.{Floats}

-- The float 0 and the sum of two floats.
pub record Durations (floats : Floats) : Type 0 where
  pub zero_duration : floats.Price
  pub add : floats.Price → floats.Price → floats.Price

-- A call of a method.
pub data Event (floats : Floats) : Type 0 where
  cache_hit : Event floats
  cache_miss : Event floats
  coalesced_waiter : Event floats
  load_started : Event floats
  load_finished : Event floats
  upstream_failure : Event floats
  response : floats.Price → Event floats

module _ (floats : Floats) (durations : Durations floats) where
  open floats use {Price, lt}
  open durations use {zero_duration, add}

  pub record PlayerQueryMetrics : Type 0 where
    pub completed_requests : ℕ
    pub cache_hits : ℕ
    pub cache_misses : ℕ
    pub coalesced_waiters : ℕ
    pub upstream_failures : ℕ
    pub active_upstream_loads : ℕ
    pub peak_active_upstream_loads : ℕ
    pub total_response_milliseconds : Price
    pub max_response_milliseconds : Price

  unfoldable pub new_metrics : PlayerQueryMetrics
  new_metrics = record {
    completed_requests = 0;
    cache_hits = 0;
    cache_misses = 0;
    coalesced_waiters = 0;
    upstream_failures = 0;
    active_upstream_loads = 0;
    peak_active_upstream_loads = 0;
    total_response_milliseconds = zero_duration;
    max_response_milliseconds = zero_duration;
  }

  -- `max(a, b)` of floats
  unfoldable pub max_of : Price → Price → Price
  max_of a b = if lt a b then b else a

  unfoldable pub record_cache_hit : PlayerQueryMetrics → PlayerQueryMetrics
  record_cache_hit m = record m { cache_hits = m.cache_hits + 1 }

  unfoldable pub record_cache_miss : PlayerQueryMetrics → PlayerQueryMetrics
  record_cache_miss m = record m { cache_misses = m.cache_misses + 1 }

  unfoldable pub record_coalesced_waiter : PlayerQueryMetrics → PlayerQueryMetrics
  record_coalesced_waiter m = record m { coalesced_waiters = m.coalesced_waiters + 1 }

  unfoldable pub start_upstream_load : PlayerQueryMetrics → PlayerQueryMetrics
  start_upstream_load m = record m {
    active_upstream_loads = m.active_upstream_loads + 1;
    peak_active_upstream_loads = max m.peak_active_upstream_loads (m.active_upstream_loads + 1);
  }

  -- `max(0, active - 1)`
  unfoldable pub finish_upstream_load : PlayerQueryMetrics → PlayerQueryMetrics
  finish_upstream_load m = record m { active_upstream_loads = m.active_upstream_loads - 1 }

  unfoldable pub record_upstream_failure : PlayerQueryMetrics → PlayerQueryMetrics
  record_upstream_failure m = record m { upstream_failures = m.upstream_failures + 1 }

  unfoldable pub record_response : Price → PlayerQueryMetrics → PlayerQueryMetrics
  unfolding max_of
  record_response elapsed m =
      let duration = max_of zero_duration elapsed in
      record m {
        completed_requests = m.completed_requests + 1;
        total_response_milliseconds = add m.total_response_milliseconds duration;
        max_response_milliseconds = max_of m.max_response_milliseconds duration;
      }

  unfoldable pub step : Event floats → PlayerQueryMetrics → PlayerQueryMetrics
  unfolding record_cache_hit record_cache_miss record_coalesced_waiter start_upstream_load
      finish_upstream_load record_upstream_failure record_response
  step cache_hit m = record_cache_hit m
  step cache_miss m = record_cache_miss m
  step coalesced_waiter m = record_coalesced_waiter m
  step load_started m = start_upstream_load m
  step load_finished m = finish_upstream_load m
  step upstream_failure m = record_upstream_failure m
  step (response elapsed) m = record_response elapsed m

  -- The counters after a history of calls, the latest first.
  unfoldable pub metrics_after : List (Event floats) → PlayerQueryMetrics
  unfolding step new_metrics
  metrics_after [] = new_metrics
  metrics_after (event ∷ earlier) = step event (metrics_after earlier)
