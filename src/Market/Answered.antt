-- ===== src/Market/Answered.antt =====
-- When a request has an answer.
use scam_screener_api.Base.{
  ℕ, ◌≡◌, ◌⊎◌, inl, inr, Bool, true, false, not, ◌&&◌, Option, none, some, arith, Bool-cases,
}
use scam_screener_api.Market.{
  Snapshot, Settings, is_younger, is_snapshot_fresh, can_serve_snapshot_stale, Storage,
}
use scam_screener_api.Market.Service.{
  Result, returned, upstream_error, storage_error, failed, Request, as_snapshot, written, persist,
  serve_fallback, refresh_or_fall_back, locked, recheck_and_refresh, serve, load_snapshot,
}
use scam_screener_api.Market.Served.{IsYounger}

module _ {C : Type 0} (storage : Storage C) (settings : Settings)
    (request : Request C storage.State) where
  open storage use {State, read, write}

  abbrev pub IsReturned : Result (Snapshot C) → Type 0
  IsReturned (returned s) = Unit
  IsReturned upstream_error = ⊥
  IsReturned storage_error = ⊥
  IsReturned failed = ⊥

  -- The database takes this content.
  abbrev pub Stores : C → State → Type 0
  Stores c state =
      (request.write_works ≡ true)
      × ((state' : State) × (write request.refreshed_at c state ≡ some state'))

  refresh_or_fall_back-IsReturned :
      (fetch : Result C) (fallback : Snapshot C) (state : State)
      → (fetch ≡ upstream_error) ⊎ ((c : C) × (fetch ≡ returned c) × Stores c state)
      → IsYounger fallback.generated_at request.recheck_now settings.stale_if_error_seconds
      → IsReturned
          (refresh_or_fall_back storage settings request fetch (some fallback) state).result
  unfolding refresh_or_fall_back persist written serve_fallback can_serve_snapshot_stale
  refresh_or_fall_back-IsReturned fetch fallback state (inl e) young =
      let may_serve : is_younger fallback.generated_at request.recheck_now
            settings.stale_if_error_seconds
          ≡ true =
        unfold is_younger in ground arith in
      rw (e, may_serve) tt
  refresh_or_fall_back-IsReturned fetch fallback state (inr (c, e, stores)) young =
      rw (e, stores.0, stores.1.1) tt

  -- The stored snapshot that the recheck finds, and a Hypixel that answers or is down.
  recheck_and_refresh-IsReturned :
      (t : ℕ) (c : C) (stored : Option (Snapshot C)) (state : State)
      → request.second_read_works ≡ true
      → (request.fetch ≡ upstream_error)
        ⊎ ((c' : C) × (request.fetch ≡ returned c') × Stores c' (request.while_waiting state))
      → read (request.while_waiting state) ≡ some (t, c)
      → IsYounger t request.recheck_now settings.stale_if_error_seconds
      → IsReturned (recheck_and_refresh storage settings request stored state).result
  unfolding recheck_and_refresh locked as_snapshot is_snapshot_fresh
  recheck_and_refresh-IsReturned t c stored state second fetched found young =
      rw (second, found)
        (elim (Bool-cases (is_younger t request.recheck_now settings.cache_ttl_seconds)) [
          | inl fresh ↦ rw fresh tt
          | inr old ↦ rw old (
              refresh_or_fall_back-IsReturned request.fetch
                (record { generated_at = t; is_stale = false; content = c })
                (request.while_waiting state) fetched young)
        ])

  serve-IsReturned :
      (inline : Bool) (t : ℕ) (c : C) (stored : Option (Snapshot C)) (state : State)
      → request.second_read_works ≡ true
      → (request.fetch ≡ upstream_error)
        ⊎ ((c' : C) × (request.fetch ≡ returned c') × Stores c' (request.while_waiting state))
      → read (request.while_waiting state) ≡ some (t, c)
      → IsYounger t request.recheck_now settings.stale_if_error_seconds
      → IsReturned (serve storage settings request inline stored state).result
  unfolding serve
  serve-IsReturned inline t c none state second fetched found young =
      recheck_and_refresh-IsReturned t c none state second fetched found young
  serve-IsReturned inline t c (some s) state second fetched found young =
      elim (Bool-cases (is_snapshot_fresh s request.now settings.cache_ttl_seconds)) [
        | inl fresh ↦ rw fresh tt
        | inr old ↦
            rw old
              (elim (Bool-cases (
                not inline
                && can_serve_snapshot_stale s request.now settings.stale_if_error_seconds)) [
                  | inl stale ↦ rw stale tt
                  | inr neither ↦
                      rw neither (
                        recheck_and_refresh-IsReturned t c (some s) state second fetched found
                          young)
                ])
      ]

  -- While the database works and takes what Hypixel answers, and other calls leave a snapshot
  -- within the time for which stale data may be served, a request has an answer, whether Hypixel answers or is down, and whether inline
  -- refreshes are enabled or not.
  pub load_snapshot-IsReturned :
      (inline : Bool) (t : ℕ) (c : C) (state : State)
      → request.first_read_works ≡ true
      → request.second_read_works ≡ true
      → (request.fetch ≡ upstream_error)
        ⊎ ((c' : C) × (request.fetch ≡ returned c') × Stores c' (request.while_waiting state))
      → read (request.while_waiting state) ≡ some (t, c)
      → IsYounger t request.recheck_now settings.stale_if_error_seconds
      → IsReturned (load_snapshot storage settings request inline state).result
  unfolding load_snapshot
  load_snapshot-IsReturned inline t c state first second fetched found young = rw first (
      serve-IsReturned inline t c (as_snapshot storage settings (read state)) state second fetched
        found young)
