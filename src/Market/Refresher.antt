-- ===== src/Market/Refresher.antt =====
-- `MarketSnapshotRefresher` of app/marketguard_api/refresher.py with the service that it refreshes.
-- A refresh is one step: a task that is cancelled during one leaves by the exception, and what its
-- thread may still write is a write of another call.
use scam_screener_api.Base.{ℕ, ◌+◌, ◌*◌, ◌^◌, Bool, true, false, if◌then◌else◌}
use scam_screener_api.Market.{
  Snapshot, Settings, Storage, effective_background_refresh_interval_seconds,
}
use scam_screener_api.Market.Service.{
  Result, returned, upstream_error, storage_error, failed, Request, refresh, load_snapshot,
}

-- `self._task`: None, a task that runs, or one that is done.
pub data Task : Type 0 where
  no_task : Task
  active : Task
  done : Task

-- The refresher, the flag of its service and what is stored.
pub record World (State : Type 0) : Type 0 where
  pub task : Task
  pub first_refresh_done : Bool
  pub inline_refresh_enabled : Bool
  pub state : State

unfoldable pub is_running : Task → Bool
is_running no_task = false
is_running active = true
is_running done = false

unfoldable pub succeeded : {C : Type 0} → Result (Snapshot C) → Bool
succeeded (returned s) = true
succeeded upstream_error = false
succeeded storage_error = false
succeeded failed = false

-- `_next_delay_seconds`, in microseconds; `jitter` is what `random.uniform` returned.
unfoldable pub next_delay : Settings → Bool → ℕ → ℕ
unfolding effective_background_refresh_interval_seconds
next_delay settings succeeded jitter =
    if succeeded
    then effective_background_refresh_interval_seconds settings * 10 ^ 6 + jitter
    else settings.background_refresh_retry_seconds * 10 ^ 6

-- A new service and its refresher.
unfoldable pub created : {State : Type 0} → State → World State
created state = record {
  task = no_task;
  first_refresh_done = false;
  inline_refresh_enabled = true;
  state = state;
}

unfoldable pub start : {State : Type 0} → World State → World State
unfolding is_running
start w = if is_running w.task then w else record w { task = active; first_refresh_done = false }

unfoldable pub stop : {State : Type 0} → World State → World State
stop w = record w { task = no_task; inline_refresh_enabled = true }

module _ {C : Type 0} (storage : Storage C) (settings : Settings) where
  open storage use {State}

  -- The end of `_refresh_once`, by the result of `refresh`.
  unfoldable pub settle : Result (Snapshot C) → State → World State → World State
  unfolding succeeded
  settle result state w =
      if succeeded result
      then record w { inline_refresh_enabled = false; state = state }
      else record w { state = state }

  unfoldable pub refresh_once : Request C State → World State → World State
  unfolding settle
  refresh_once request w =
      let outcome = refresh storage settings request w.state in
      settle outcome.result outcome.state w

  -- One round of the loop of `_run`, between two sleeps.
  unfoldable pub run_round : Request C State → World State → World State
  unfolding refresh_once
  run_round request w = record (refresh_once request w) { first_refresh_done = true }

  -- A request that the service answers.
  unfoldable pub answer_request : Request C State → World State → World State
  answer_request request w = record w {
    state = (load_snapshot storage settings request w.inline_refresh_enabled w.state).state;
  }
