-- ===== src/Market/Cadence.antt =====
-- The delay between two refreshes against the ages at which snapshots are served.
use scam_screener_api.Base.{ℕ, ◌+◌, ◌*◌, ◌^◌, ◌≤◌, ◌<◌, ◌≡◌, true, false, some, not, arith}
use scam_screener_api.Market.{
  Settings, Storage, Keeps, is_younger, effective_background_refresh_interval_seconds,
}
use scam_screener_api.Market.Service.{returned, Request, refresh, load_snapshot}
use scam_screener_api.Market.Served.{IsYounger, load_snapshot-stored}
use scam_screener_api.Market.Refreshed.{state-refresh}
use scam_screener_api.Market.Refresher.{next_delay}

-- With the default interval, the snapshot of a refresh is never fresh any more when the next
-- refresh begins, whatever the jitter.
pub stale-next_delay :
    {C : Type 0} (storage : Storage C) (keeps : Keeps storage) (settings : Settings)
    (refreshed_at jitter now : ℕ)
    → settings.background_refresh_interval_seconds ≡ 0
    → refreshed_at + next_delay settings true jitter ≤ now
    → is_younger (keeps.kept_time refreshed_at) now settings.cache_ttl_seconds ≡ false
unfolding next_delay effective_background_refresh_interval_seconds is_younger
stale-next_delay storage keeps settings refreshed_at jitter now default later =
    ground (arith, keeps.kept_time_le refreshed_at)

young-next_delay :
    {C : Type 0} (storage : Storage C) (keeps : Keeps storage) (settings : Settings)
    (refreshed_at jitter duration now : ℕ)
    → jitter ≤ effective_background_refresh_interval_seconds settings * 10 ^ 5
    → effective_background_refresh_interval_seconds settings * 11 * 10 ^ 5 + duration + 2000
      ≤ settings.stale_if_error_seconds * 10 ^ 6
    → now < refreshed_at + next_delay settings true jitter + duration
    → IsYounger (keeps.kept_time refreshed_at) now settings.stale_if_error_seconds
unfolding next_delay
young-next_delay storage keeps settings refreshed_at jitter duration now few room soon =
    omega (arith, keeps.lt_kept_time refreshed_at)

-- If the interval with its jitter of at most a tenth, the duration of a refresh and two milliseconds
-- fit into the time for which stale data may be served, then from one refresh to the end of the
-- next every request whose read works is answered from the storage, without going upstream.
pub load_snapshot-next_delay :
    {C : Type 0} (storage : Storage C) (settings : Settings) (keeps : Keeps storage)
    (earlier request : Request C storage.State) (c : C) (state after : storage.State)
    (jitter duration : ℕ)
    → earlier.fetch ≡ returned c
    → earlier.write_works ≡ true
    → storage.write earlier.refreshed_at c (earlier.while_waiting state) ≡ some after
    → request.first_read_works ≡ true
    → jitter ≤ effective_background_refresh_interval_seconds settings * 10 ^ 5
    → effective_background_refresh_interval_seconds settings * 11 * 10 ^ 5 + duration + 2000
      ≤ settings.stale_if_error_seconds * 10 ^ 6
    → request.now < earlier.refreshed_at + next_delay settings true jitter + duration
    → load_snapshot storage settings request false (refresh storage settings earlier state).state
      ≡ record {
        result = returned (record {
          generated_at = keeps.kept_time earlier.refreshed_at;
          is_stale = not (
              is_younger
                (keeps.kept_time earlier.refreshed_at)
                request.now
                settings.cache_ttl_seconds);
          content = keeps.kept c;
        });
        state = after;
        asked_upstream = false;
      }
load_snapshot-next_delay storage settings keeps earlier request c state after jitter duration
      fetched works wrote reads few room soon =
    rw (state-refresh storage settings earlier c state after fetched works wrote) (
      load_snapshot-stored storage settings request (keeps.kept_time earlier.refreshed_at)
        (keeps.kept c) after reads
        (keeps.read-write earlier.refreshed_at c (earlier.while_waiting state) after wrote)
        (young-next_delay storage keeps settings earlier.refreshed_at jitter duration request.now
          few room soon))
