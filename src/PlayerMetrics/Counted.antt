-- ===== src/PlayerMetrics/Counted.antt =====
-- The counters of loads against the history of the calls.
use scam_screener_api.Base.{ℕ, ◌+◌, ◌-◌, ◌≤◌, ◌≡◌, refl, List, [], ◌∷◌, max, arith}
use scam_screener_api.LowestBin.{Floats}
use scam_screener_api.PlayerMetrics.{
  Durations, Event, cache_hit, cache_miss, coalesced_waiter, load_started, load_finished,
  upstream_failure, response, PlayerQueryMetrics, new_metrics, step, metrics_after,
}

module _ {floats : Floats} where
  abbrev pub started : List (Event floats) → ℕ
  started [] = 0
  started (load_started ∷ earlier) = started earlier + 1
  started (_ ∷ earlier) = started earlier

  abbrev pub finished : List (Event floats) → ℕ
  finished [] = 0
  finished (load_finished ∷ earlier) = finished earlier + 1
  finished (_ ∷ earlier) = finished earlier

  -- A load is not finished before it is started, at any time of the history.
  abbrev pub IsBracketed : List (Event floats) → Type 0
  IsBracketed [] = Unit
  IsBracketed (event ∷ earlier) =
      (finished (event ∷ earlier) ≤ started (event ∷ earlier)) × IsBracketed earlier

  -- The most loads that were active at a time.
  abbrev pub most_active : List (Event floats) → ℕ
  most_active [] = 0
  most_active (event ∷ earlier) =
      max (most_active earlier) (started (event ∷ earlier) - finished (event ∷ earlier))

module _ (floats : Floats) (durations : Durations floats) where
  open floats use {Price}

  abbrev IsCounted : List (Event floats) → PlayerQueryMetrics floats durations → Type 0
  IsCounted history m =
      (m.active_upstream_loads + finished history ≡ started history)
      × (m.peak_active_upstream_loads ≡ most_active history)
      × (m.active_upstream_loads ≤ m.peak_active_upstream_loads)

  step-IsCounted :
      (event : Event floats) (earlier : List (Event floats))
      (m : PlayerQueryMetrics floats durations)
      → finished (event ∷ earlier) ≤ started (event ∷ earlier)
      → IsCounted earlier m
      → IsCounted (event ∷ earlier) (step floats durations event m)
  unfolding step
  step-IsCounted cache_hit earlier m p (a, b, c) = (a, omega arith, c)
  step-IsCounted cache_miss earlier m p (a, b, c) = (a, omega arith, c)
  step-IsCounted coalesced_waiter earlier m p (a, b, c) = (a, omega arith, c)
  step-IsCounted load_started earlier m p (a, b, c) = (omega arith, omega arith, omega arith)
  step-IsCounted load_finished earlier m p (a, b, c) = (omega arith, omega arith, omega arith)
  step-IsCounted upstream_failure earlier m p (a, b, c) = (a, omega arith, c)
  step-IsCounted (response elapsed) earlier m p (a, b, c) = (a, omega arith, c)

  -- While no load is finished before it is started, the counter of active loads is that of the
  -- loads that are started and not finished, and the peak is the most that were active at a time.
  pub metrics_after-IsCounted :
      (history : List (Event floats))
      → IsBracketed history
      → let m = metrics_after floats durations history in
        (m.active_upstream_loads + finished history ≡ started history)
        × (m.peak_active_upstream_loads ≡ most_active history)
        × (m.active_upstream_loads ≤ m.peak_active_upstream_loads)
  unfolding metrics_after new_metrics
  metrics_after-IsCounted [] b = (refl, refl, omega arith)
  metrics_after-IsCounted (event ∷ earlier) (p, b) =
      step-IsCounted event earlier (metrics_after floats durations earlier) p
        (metrics_after-IsCounted earlier b)
