-- ===== src/Tests/PlayerMetricsRuns.antt =====
-- Two loads at once, of which one has finished.
use scam_screener_api.Base.{ℕ, ◌+◌, ◌≤◌, ◌≡◌, refl, List, [], ◌∷◌, ltb, arith}
use scam_screener_api.LowestBin.{Floats}
use scam_screener_api.PlayerMetrics.{
  Durations, Event, cache_miss, load_started, load_finished, response, metrics_after,
}
use scam_screener_api.PlayerMetrics.Counted.{IsBracketed, metrics_after-IsCounted}

abbrev milliseconds : Floats
milliseconds = record { Price = ℕ; lt = ltb }

abbrev durations : Durations milliseconds
durations = record { zero_duration = 0; add = λ a b. a + b }

abbrev history : List (Event milliseconds)
history = load_finished ∷ response 12 ∷ load_started ∷ load_started ∷ cache_miss ∷ []

history-IsBracketed : IsBracketed history
history-IsBracketed = (omega arith, (omega arith, (omega arith, (omega arith, (omega arith, tt)))))

peak_run : (metrics_after milliseconds durations history).peak_active_upstream_loads ≡ 2
unfolding metrics_after
peak_run = refl

metrics_after-IsCounted_example :
    ((metrics_after milliseconds durations history).active_upstream_loads + 1 ≡ 2)
    × ((metrics_after milliseconds durations history).peak_active_upstream_loads ≡ 2)
    × ((metrics_after milliseconds durations history).active_upstream_loads
        ≤ (metrics_after milliseconds durations history).peak_active_upstream_loads)
metrics_after-IsCounted_example =
    metrics_after-IsCounted milliseconds durations history history-IsBracketed
