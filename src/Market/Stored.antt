-- ===== src/Market/Stored.antt =====
-- No operation of a service removes the current snapshot from the storage.
use scam_screener_api.Base.{
  ℕ, ◌≡◌, refl, Bool, true, false, if◌then◌else◌, not, ◌&&◌, Option, none, some, arith, Bool-cases,
  inl, inr,
}
use scam_screener_api.Market.{
  Snapshot, Settings, Storage, Keeps, is_snapshot_fresh, can_serve_snapshot_stale,
}
use scam_screener_api.Market.Service.{
  Result, returned, upstream_error, storage_error, failed, Request, written, persist,
  serve_fallback, refresh_or_fall_back, locked, recheck_and_refresh, serve, load_snapshot,
  refreshed,
}
use scam_screener_api.Market.Refresher.{succeeded}

module _ {C : Type 0} (storage : Storage C) (settings : Settings) where
  open storage use {State, read, write}

  abbrev pub HasSnapshot : State → Type 0
  HasSnapshot state = (t : ℕ) × (c : C) × (read state ≡ some (t, c))

  -- What other calls write: it leaves a snapshot where there is one.
  abbrev pub KeepsSnapshot : (State → State) → Type 0
  KeepsSnapshot f = (state : State) → HasSnapshot state → HasSnapshot (f state)

module _ {C : Type 0} (storage : Storage C) (settings : Settings) (keeps : Keeps storage) where
  open storage use {State, read, write}

  -- The two ways in which a write goes, and what is left then.
  written-HasSnapshot :
      (request : Request C State) (c : C) (state : State) (left : Option State)
      → ((state' : State) → left ≡ some state' → HasSnapshot storage settings state')
      → (HasSnapshot storage settings state
          → HasSnapshot storage settings (written storage settings request c state left).state)
        × (succeeded (written storage settings request c state left).result ≡ true
            → HasSnapshot storage settings (written storage settings request c state left).state)
  unfolding written succeeded
  written-HasSnapshot request c state none new = (λ has. has, λ e. ground arith)
  written-HasSnapshot request c state (some state') new =
      (λ _. new state' refl, λ _. new state' refl)

  left-HasSnapshot :
      (works : Bool) (t : ℕ) (c : C) (state state' : State)
      → (if works then write t c state else none) ≡ some state'
      → HasSnapshot storage settings state'
  left-HasSnapshot true t c state state' e =
      (keeps.kept_time t, keeps.kept c, keeps.read-write t c state state' e)
  left-HasSnapshot false t c state state' e = ground arith

  persist-HasSnapshot :
      (request : Request C State) (c : C) (state : State)
      → (HasSnapshot storage settings state
          → HasSnapshot storage settings (persist storage settings request c state).state)
        × (succeeded (persist storage settings request c state).result ≡ true
            → HasSnapshot storage settings (persist storage settings request c state).state)
  unfolding persist
  persist-HasSnapshot request c state =
      written-HasSnapshot request c state _
        (left-HasSnapshot request.write_works request.refreshed_at c state)

  pub refreshed-HasSnapshot :
      (request : Request C State) (fetch : Result C) (state : State)
      → HasSnapshot storage settings state
      → HasSnapshot storage settings (refreshed storage settings request fetch state).state
  unfolding refreshed
  refreshed-HasSnapshot request (returned c) state has = (persist-HasSnapshot request c state).0 has
  refreshed-HasSnapshot request upstream_error state has = has
  refreshed-HasSnapshot request storage_error state has = has
  refreshed-HasSnapshot request failed state has = has

  pub refreshed-HasSnapshot_of_succeeded :
      (request : Request C State) (fetch : Result C) (state : State)
      → succeeded (refreshed storage settings request fetch state).result ≡ true
      → HasSnapshot storage settings (refreshed storage settings request fetch state).state
  unfolding refreshed succeeded
  refreshed-HasSnapshot_of_succeeded request (returned c) state =
      (persist-HasSnapshot request c state).1
  refreshed-HasSnapshot_of_succeeded request upstream_error state = λ e. ground arith
  refreshed-HasSnapshot_of_succeeded request storage_error state = λ e. ground arith
  refreshed-HasSnapshot_of_succeeded request failed state = λ e. ground arith

  refresh_or_fall_back-HasSnapshot :
      (request : Request C State) (fetch : Result C) (fallback : Option (Snapshot C))
      (state : State)
      → HasSnapshot storage settings state
      → HasSnapshot storage settings
          (refresh_or_fall_back storage settings request fetch fallback state).state
  unfolding refresh_or_fall_back serve_fallback
  refresh_or_fall_back-HasSnapshot request (returned c) fallback state has =
      (persist-HasSnapshot request c state).0 has
  refresh_or_fall_back-HasSnapshot request upstream_error none state has = has
  refresh_or_fall_back-HasSnapshot request upstream_error (some s) state has =
      elim (Bool-cases
        (can_serve_snapshot_stale s request.recheck_now settings.stale_if_error_seconds)) [
          | inl young ↦ rw young has
          | inr old ↦ rw old has
        ]
  refresh_or_fall_back-HasSnapshot request storage_error fallback state has = has
  refresh_or_fall_back-HasSnapshot request failed fallback state has = has

  locked-HasSnapshot :
      (request : Request C State) (stored recheck : Option (Snapshot C)) (state : State)
      → HasSnapshot storage settings state
      → HasSnapshot storage settings (locked storage settings request stored recheck state).state
  unfolding locked
  locked-HasSnapshot request stored none state has =
      refresh_or_fall_back-HasSnapshot request request.fetch stored state has
  locked-HasSnapshot request stored (some s) state has =
      elim (Bool-cases (is_snapshot_fresh s request.recheck_now settings.cache_ttl_seconds)) [
        | inl fresh ↦ rw fresh has
        | inr old ↦
            rw old (refresh_or_fall_back-HasSnapshot request request.fetch (some s) state has)
      ]

  recheck_and_refresh-HasSnapshot :
      (request : Request C State) (stored : Option (Snapshot C)) (state : State)
      → HasSnapshot storage settings (request.while_waiting state)
      → HasSnapshot storage settings
          (recheck_and_refresh storage settings request stored state).state
  unfolding recheck_and_refresh
  recheck_and_refresh-HasSnapshot request stored state has =
      elim (Bool-cases request.second_read_works) [
        | inl works ↦
            rw works (locked-HasSnapshot request stored _ (request.while_waiting state) has)
        | inr fails ↦ rw fails has
      ]

  serve-HasSnapshot :
      (request : Request C State) (inline : Bool) (stored : Option (Snapshot C)) (state : State)
      → KeepsSnapshot storage settings request.while_waiting
      → HasSnapshot storage settings state
      → HasSnapshot storage settings (serve storage settings request inline stored state).state
  unfolding serve
  serve-HasSnapshot request inline none state kept has =
      recheck_and_refresh-HasSnapshot request none state (kept state has)
  serve-HasSnapshot request inline (some s) state kept has =
      elim (Bool-cases (is_snapshot_fresh s request.now settings.cache_ttl_seconds)) [
        | inl fresh ↦ rw fresh has
        | inr old ↦
            rw old
              (elim (Bool-cases (
                not inline
                && can_serve_snapshot_stale s request.now settings.stale_if_error_seconds)) [
                  | inl stale ↦ rw stale has
                  | inr neither ↦
                      rw neither
                        (recheck_and_refresh-HasSnapshot request (some s) state (kept state has))
                ])
      ]

  pub load_snapshot-HasSnapshot :
      (request : Request C State) (inline : Bool) (state : State)
      → KeepsSnapshot storage settings request.while_waiting
      → HasSnapshot storage settings state
      → HasSnapshot storage settings (load_snapshot storage settings request inline state).state
  unfolding load_snapshot
  load_snapshot-HasSnapshot request inline state kept has =
      elim (Bool-cases request.first_read_works) [
        | inl works ↦ rw works (serve-HasSnapshot request inline _ state kept has)
        | inr fails ↦ rw fails has
      ]
