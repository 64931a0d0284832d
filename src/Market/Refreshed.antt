-- ===== src/Market/Refreshed.antt =====
-- A request after a refresh.
use scam_screener_api.Base.{ℕ, ◌+◌, ◌*◌, ◌^◌, ◌<◌, ◌≡◌, refl, Bool, true, false, some, ltb, arith}
use scam_screener_api.Market.{Settings, is_younger, is_snapshot_fresh, Storage, Keeps}
use scam_screener_api.Market.Service.{
  returned, Request, as_snapshot, written, persist, serve, load_snapshot, refreshed, refresh,
}
use scam_screener_api.Market.Served.{IsYounger}

pub state-refresh :
    {C : Type 0} (storage : Storage C) (settings : Settings) (request : Request C storage.State)
    (c : C) (state after : storage.State)
    → request.fetch ≡ returned c
    → request.write_works ≡ true
    → storage.write request.refreshed_at c (request.while_waiting state) ≡ some after
    → (refresh storage settings request state).state ≡ after
unfolding refresh refreshed persist written
state-refresh storage settings request c state after fetched works wrote =
    rw (fetched, works, wrote)

ltb-true : (a b : ℕ) → a < b → ltb a b ≡ true
ltb-true a b h = ground arith

-- After a refresh whose write the database took, a request whose first read works and finds its
-- snapshot fresh is answered with its content, as far as the storage keeps it, and does not go
-- upstream.
pub load_snapshot-refresh :
    {C : Type 0} (storage : Storage C) (settings : Settings) (keeps : Keeps storage)
    (earlier request : Request C storage.State) (inline : Bool) (c : C)
    (state after : storage.State)
    → earlier.fetch ≡ returned c
    → earlier.write_works ≡ true
    → storage.write earlier.refreshed_at c (earlier.while_waiting state) ≡ some after
    → request.first_read_works ≡ true
    → IsYounger (keeps.kept_time earlier.refreshed_at) request.now settings.cache_ttl_seconds
    → load_snapshot storage settings request inline (refresh storage settings earlier state).state
      ≡ record {
        result = returned (record {
          generated_at = keeps.kept_time earlier.refreshed_at;
          is_stale = false;
          content = keeps.kept c;
        });
        state = after;
        asked_upstream = false;
      }
unfolding load_snapshot serve as_snapshot is_snapshot_fresh
load_snapshot-refresh storage settings keeps earlier request inline c state after fetched works
      wrote reads young =
    let t : ℕ = keeps.kept_time earlier.refreshed_at in
    let stored =
      keeps.read-write earlier.refreshed_at c (earlier.while_waiting state) after wrote in
    let fresh : is_younger t request.now settings.cache_ttl_seconds ≡ true =
      unfold is_younger in ltb-true request.now (t + settings.cache_ttl_seconds * 10 ^ 6) young in
    rw
      (
        state-refresh storage settings earlier c state after fetched works wrote,
        reads,
        stored,
        fresh,
      )
      refl
