-- ===== src/Market/Service.antt =====
-- `refresh` and the read path of LowestBinService (`_load_snapshot`) and BazaarService
-- (`get_bazaar`), which take the same steps.
use scam_screener_api.Base.{ℕ, Bool, true, false, not, ◌&&◌, Option, none, some, if◌then◌else◌}
use scam_screener_api.Market.{
  Snapshot, Settings, is_snapshot_fresh, can_serve_snapshot_stale, Storage,
}

-- A value, or the exception that leaves the method: HypixelUpstreamError, MarketGuardStorageError
-- or any other.
pub data Result {ℓ} (A : Type ℓ) : Type ℓ where
  returned : A → Result A
  upstream_error : Result A
  storage_error : Result A
  failed : Result A

-- What the outside does during a call: the clock at its readings, whether the database works at
-- each of its uses, what Hypixel answers, and what other calls write while this one waits.
pub record Request (C State : Type 0) : Type 0 where
  pub now : ℕ
  pub recheck_now : ℕ
  pub refreshed_at : ℕ
  pub first_read_works : Bool
  pub second_read_works : Bool
  pub write_works : Bool
  pub fetch : Result C
  pub while_waiting : State → State

-- How a call ends, what is stored then, and whether it went upstream.
pub record Outcome (C State : Type 0) : Type 0 where
  pub result : Result (Snapshot C)
  pub state : State
  pub asked_upstream : Bool

module _ {C : Type 0} (storage : Storage C) (settings : Settings) where
  open storage use {State, read, write}

  -- A stored snapshot is read with `is_stale=False`.
  unfoldable pub as_snapshot : Option (ℕ × C) → Option (Snapshot C)
  as_snapshot none = none
  as_snapshot (some (t, c)) = some (record { generated_at = t; is_stale = false; content = c })

  -- `replace(snapshot, is_stale=True)`
  abbrev pub mark_stale : Snapshot C → Snapshot C
  mark_stale snapshot = record snapshot { is_stale = true }

  -- By what the transaction leaves.
  unfoldable pub written : Request C State → C → State → Option State → Outcome C State
  written request content state none = record {
    result = storage_error;
    state = state;
    asked_upstream = true;
  }
  written request content state (some state') = record {
    result =
        returned
          (record { generated_at = request.refreshed_at; is_stale = false; content = content });
    state = state';
    asked_upstream = true;
  }

  -- `_refresh_snapshot` and `_persist_snapshot`, on success of the fetch.
  unfoldable pub persist : Request C State → C → State → Outcome C State
  unfolding written
  persist request content state =
      written request content state
        (if request.write_works then write request.refreshed_at content state else none)

  -- `except HypixelUpstreamError`
  unfoldable pub serve_fallback : Request C State → Option (Snapshot C) → State → Outcome C State
  serve_fallback request none state = record {
    result = upstream_error;
    state = state;
    asked_upstream = true;
  }
  serve_fallback request (some fallback) state =
      if can_serve_snapshot_stale fallback request.recheck_now settings.stale_if_error_seconds
      then record { result = returned (mark_stale fallback); state = state; asked_upstream = true }
      else record { result = upstream_error; state = state; asked_upstream = true }

  unfoldable pub refresh_or_fall_back :
      Request C State → Result C → Option (Snapshot C) → State → Outcome C State
  unfolding persist serve_fallback
  refresh_or_fall_back request (returned content) fallback state = persist request content state
  refresh_or_fall_back request upstream_error fallback state = serve_fallback request fallback state
  refresh_or_fall_back request storage_error fallback state = record {
    result = storage_error;
    state = state;
    asked_upstream = true;
  }
  refresh_or_fall_back request failed fallback state = record {
    result = failed;
    state = state;
    asked_upstream = true;
  }

  -- Under the lock, by the stored snapshot that is read there; `stored` is the one read before.
  unfoldable pub locked :
      Request C State → Option (Snapshot C) → Option (Snapshot C) → State → Outcome C State
  unfolding refresh_or_fall_back
  locked request stored none state = refresh_or_fall_back request request.fetch stored state
  locked request stored (some recheck) state =
      if is_snapshot_fresh recheck request.recheck_now settings.cache_ttl_seconds
      then record { result = returned recheck; state = state; asked_upstream = false }
      else refresh_or_fall_back request request.fetch (some recheck) state

  -- `async with self._lock`
  unfoldable pub recheck_and_refresh :
      Request C State → Option (Snapshot C) → State → Outcome C State
  unfolding locked as_snapshot
  recheck_and_refresh request stored state =
      let waited = request.while_waiting state in
      if request.second_read_works
      then locked request stored (as_snapshot (read waited)) waited
      else record { result = storage_error; state = waited; asked_upstream = false }

  -- By the stored snapshot that is read first.
  unfoldable pub serve : Request C State → Bool → Option (Snapshot C) → State → Outcome C State
  unfolding recheck_and_refresh
  serve request inline_refresh_enabled none state = recheck_and_refresh request none state
  serve request inline_refresh_enabled (some stored) state =
      if is_snapshot_fresh stored request.now settings.cache_ttl_seconds
      then record { result = returned stored; state = state; asked_upstream = false }
      else if not inline_refresh_enabled
          && can_serve_snapshot_stale stored request.now settings.stale_if_error_seconds
      then record { result = returned (mark_stale stored); state = state; asked_upstream = false }
      else recheck_and_refresh request (some stored) state

  -- `_load_snapshot` and `get_bazaar`
  unfoldable pub load_snapshot : Request C State → Bool → State → Outcome C State
  unfolding serve as_snapshot
  load_snapshot request inline_refresh_enabled state =
      if request.first_read_works
      then serve request inline_refresh_enabled (as_snapshot (read state)) state
      else record { result = storage_error; state = state; asked_upstream = false }

  -- `refresh`, which the background refresher calls, once it has the lock.
  unfoldable pub refreshed : Request C State → Result C → State → Outcome C State
  unfolding persist
  refreshed request (returned content) state = persist request content state
  refreshed request upstream_error state = record {
    result = upstream_error;
    state = state;
    asked_upstream = true;
  }
  refreshed request storage_error state = record {
    result = storage_error;
    state = state;
    asked_upstream = true;
  }
  refreshed request failed state = record { result = failed; state = state; asked_upstream = true }

  unfoldable pub refresh : Request C State → State → Outcome C State
  unfolding refreshed
  refresh request state = refreshed request request.fetch (request.while_waiting state)
