-- ===== src/Tests/Markets.antt =====
-- A service on a storage of one row, its refresher and its settings.
use scam_screener_api.Base.{
  ℕ, ◌≡◌, refl, Str, codes, true, false, not, Option, none, some, arith, inl, [], ◌∷◌,
}
use scam_screener_api.Base.Int.{ℤ, pos}
use scam_screener_api.Market.{
  Settings, Storage, Keeps, is_younger, effective_background_refresh_interval_seconds,
}
use scam_screener_api.Market.Service.{returned, upstream_error, Request, refresh, load_snapshot}
use scam_screener_api.Market.Served.{IsAcceptable, load_snapshot-IsAcceptable, load_snapshot-stored}
use scam_screener_api.Market.Answered.{IsReturned, load_snapshot-IsReturned}
use scam_screener_api.Market.Refreshed.{load_snapshot-refresh}
use scam_screener_api.Market.Refresher.{
  active, World, created, start, run_round, refresh_once, settle, is_running, next_delay,
}
use scam_screener_api.Market.Stored.{KeepsSnapshot}
use scam_screener_api.Market.Running.{creates, starts, refreshes, IsSteady, Reachable-IsSteady}
use scam_screener_api.Market.Cadence.{stale-next_delay, load_snapshot-next_delay}
use scam_screener_api.Market.Config.{Environment}

-- The content is a number.
abbrev row : Storage ℕ
row = record { State = Option (ℕ × ℕ); read = λ s. s; write = λ t c s. some (some (t, c)) }

row_read-write : (t c : ℕ) (s s' : Option (ℕ × ℕ)) → some (some (t, c)) ≡ some s' → s' ≡ some (t, c)
row_read-write t c s s' wrote = ground arith

abbrev row_keeps : Keeps row
row_keeps = record {
  kept = λ c. c;
  kept_time = λ t. t;
  kept_time_le = λ t. omega arith;
  lt_kept_time = λ t. omega arith;
  read-write = row_read-write;
}

abbrev settings : Settings
settings = record {
  cache_ttl_seconds = 60;
  stale_if_error_seconds = 300;
  background_refresh_interval_seconds = 0;
  background_refresh_retry_seconds = 15;
  readiness_fresh_grace_seconds = 120;
}

-- A refresh at 1_000 seconds that fetches 7.
abbrev refresh_7 : Request ℕ (Option (ℕ × ℕ))
refresh_7 = record {
  now = 1_000_000_000;
  recheck_now = 1_000_000_000;
  refreshed_at = 1_000_000_000;
  first_read_works = true;
  second_read_works = true;
  write_works = true;
  fetch = returned 7;
  while_waiting = λ s. s;
}

-- A request at that many microseconds while Hypixel is down.
abbrev request_at : ℕ → Request ℕ (Option (ℕ × ℕ))
request_at now = record {
  now = now;
  recheck_now = now;
  refreshed_at = now;
  first_read_works = true;
  second_read_works = true;
  write_works = true;
  fetch = upstream_error;
  while_waiting = λ s. s;
}

load_snapshot-IsAcceptable_example :
    IsAcceptable row settings
      (request_at 1_100_000_000)
      (some (1_000_000_000, 7))
      (load_snapshot row settings (request_at 1_100_000_000) true (some (1_000_000_000, 7))).result
load_snapshot-IsAcceptable_example =
    load_snapshot-IsAcceptable row settings (request_at 1_100_000_000) (some (1_000_000_000, 7))
      true

load_snapshot-stored_example :
    load_snapshot row settings (request_at 1_100_000_000) false (some (1_000_000_000, 7)) ≡ record {
      result = returned (record {
        generated_at = 1_000_000_000;
        is_stale = not (is_younger 1_000_000_000 1_100_000_000 60);
        content = 7;
      });
      state = some (1_000_000_000, 7);
      asked_upstream = false;
    }
load_snapshot-stored_example =
    load_snapshot-stored row settings (request_at 1_100_000_000) 1_000_000_000 7
      (some (1_000_000_000, 7)) refl refl (omega arith)

load_snapshot-IsReturned_example :
    IsReturned row settings
      (request_at 1_100_000_000)
      (load_snapshot row settings (request_at 1_100_000_000) true (some (1_000_000_000, 7))).result
load_snapshot-IsReturned_example =
    load_snapshot-IsReturned row settings (request_at 1_100_000_000) true 1_000_000_000 7
      (some (1_000_000_000, 7)) refl refl (inl refl) refl (omega arith)

load_snapshot-refresh_example :
    load_snapshot row settings
      (request_at 1_050_000_000)
      true
      (refresh row settings refresh_7 none).state
    ≡ record {
      result = returned (record { generated_at = 1_000_000_000; is_stale = false; content = 7 });
      state = some (1_000_000_000, 7);
      asked_upstream = false;
    }
load_snapshot-refresh_example =
    load_snapshot-refresh row settings row_keeps refresh_7 (request_at 1_050_000_000) true 7 none
      (some (1_000_000_000, 7)) refl refl refl refl (omega arith)

load_snapshot-next_delay_example :
    load_snapshot row settings
      (request_at 1_070_000_000)
      false
      (refresh row settings refresh_7 none).state
    ≡ record {
      result = returned (record {
        generated_at = 1_000_000_000;
        is_stale = not (is_younger 1_000_000_000 1_070_000_000 60);
        content = 7;
      });
      state = some (1_000_000_000, 7);
      asked_upstream = false;
    }
unfolding effective_background_refresh_interval_seconds next_delay
load_snapshot-next_delay_example =
    load_snapshot-next_delay row settings row_keeps refresh_7 (request_at 1_070_000_000) 7 none
      (some (1_000_000_000, 7)) 0 60_000_000 refl refl refl refl (omega arith) (omega arith)
      (omega arith)

stale-next_delay_example : is_younger 1_000_000_000 1_060_000_000 60 ≡ false
unfolding effective_background_refresh_interval_seconds next_delay
stale-next_delay_example =
    stale-next_delay row row_keeps settings 1_000_000_000 0 1_060_000_000 refl (omega arith)

-- The refresher of that service after its start and its first round.
abbrev running : World (Option (ℕ × ℕ))
running = run_round row settings refresh_7 (start (created none))

untouched : KeepsSnapshot row settings (λ s. s)
untouched s has = has

started-active : (start (created {State = Option (ℕ × ℕ)} none)).task ≡ active
unfolding start created is_running
started-active = refl

disabled : running.inline_refresh_enabled ≡ false
unfolding run_round refresh_once settle refresh start created
disabled = refl

Reachable-IsSteady_example : IsSteady row settings running
Reachable-IsSteady_example = Reachable-IsSteady row settings row_keeps running (
    refreshes refresh_7 (start (created none)) untouched started-active
      (starts (created none) (creates none)))

-- `int` of the texts that stand in the environment below.
abbrev parse_int : Str → Option ℤ
parse_int [] = none
parse_int (c ∷ s) = some (pos 10_000)

abbrev environment : Environment
environment = record {
  cache_ttl_seconds = none;
  stale_if_error_seconds = some (codes " 10000 ");
  background_refresh_interval_seconds = none;
  background_refresh_retry_seconds = none;
  readiness_fresh_grace_seconds = none;
}
