-- ===== src/Market/Running.antt =====
-- The states that the refresher, its service and other calls reach.
use scam_screener_api.Base.{◌≡◌, refl, true, false, arith, Bool-cases, inl, inr}
use scam_screener_api.Market.{Snapshot, Settings, Storage, Keeps}
use scam_screener_api.Market.Service.{Result, Request, refresh}
use scam_screener_api.Market.Stored.{
  HasSnapshot, KeepsSnapshot, refreshed-HasSnapshot, refreshed-HasSnapshot_of_succeeded,
  load_snapshot-HasSnapshot,
}
use scam_screener_api.Market.Refresher.{
  Task, active, World, created, is_running, start, stop, settle, refresh_once, run_round,
  answer_request, succeeded,
}

active-IsRunning : (task : Task) → task ≡ active → is_running task ≡ false → ⊥
unfolding is_running
active-IsRunning task e idle = ground arith

module _ {C : Type 0} (storage : Storage C) (settings : Settings) where
  open storage use {State, read, write}

  pub data Reachable : World State → Type 0 where
    creates : (state : State) → Reachable (created state)
    starts : (w : World State) → Reachable w → Reachable (start w)
    stops : (w : World State) → Reachable w → Reachable (stop w)
    refreshes :
        (request : Request C State) (w : World State)
        → KeepsSnapshot storage settings request.while_waiting
        → w.task ≡ active
        → Reachable w
        → Reachable (run_round storage settings request w)
    answers :
        (request : Request C State) (w : World State)
        → KeepsSnapshot storage settings request.while_waiting
        → Reachable w
        → Reachable (answer_request storage settings request w)
    writes :
        (others : State → State) (w : World State)
        → KeepsSnapshot storage settings others
        → Reachable w
        → Reachable (record w { state = others w.state })

  -- While inline refreshes are disabled.
  abbrev pub IsSteady : World State → Type 0
  IsSteady w =
      w.inline_refresh_enabled ≡ false
      → (w.task ≡ active) × (w.first_refresh_done ≡ true) × HasSnapshot storage settings w.state

module _ {C : Type 0} (storage : Storage C) (settings : Settings) (keeps : Keeps storage) where
  open storage use {State, read, write}

  start-IsSteady :
      (w : World State) → IsSteady storage settings w → IsSteady storage settings (start w)
  unfolding start
  start-IsSteady w steady = elim (Bool-cases (is_running w.task)) [
    | inl running ↦ rw running steady
    | inr idle ↦ rw idle (λ disabled. absurd (active-IsRunning w.task (steady disabled).0 idle))
  ]

  settle-IsSteady :
      (result : Result (Snapshot C)) (state : State) (w : World State)
      → w.task ≡ active
      → (HasSnapshot storage settings w.state → HasSnapshot storage settings state)
      → (succeeded result ≡ true → HasSnapshot storage settings state)
      → IsSteady storage settings w
      → IsSteady storage settings
          (record (settle storage settings result state w) { first_refresh_done = true })
  unfolding settle
  settle-IsSteady result state w running kept new steady = elim (Bool-cases (succeeded result)) [
    | inl well ↦ rw well (λ disabled. (running, refl, new well))
    | inr missed ↦ rw missed (λ disabled. (running, refl, kept (steady disabled).2))
  ]

  run_round-IsSteady :
      (request : Request C State) (w : World State)
      → KeepsSnapshot storage settings request.while_waiting
      → w.task ≡ active
      → IsSteady storage settings w
      → IsSteady storage settings (run_round storage settings request w)
  unfolding run_round refresh_once refresh
  run_round-IsSteady request w kept running steady =
      let waited = request.while_waiting w.state in
      settle-IsSteady _ _ w running
        (λ has.
          refreshed-HasSnapshot storage settings keeps request request.fetch waited
            (kept w.state has))
        (refreshed-HasSnapshot_of_succeeded storage settings keeps request request.fetch waited)
        steady

  answer_request-IsSteady :
      (request : Request C State) (w : World State)
      → KeepsSnapshot storage settings request.while_waiting
      → IsSteady storage settings w
      → IsSteady storage settings (answer_request storage settings request w)
  unfolding answer_request
  answer_request-IsSteady request w kept steady = λ disabled.
      let before = steady disabled in
      (
        before.0,
        before.1,
        load_snapshot-HasSnapshot storage settings keeps request w.inline_refresh_enabled w.state
            kept before.2,
      )

  -- In every state that the refresher, the requests and other writers reach: while inline
  -- refreshes are disabled, the refresher runs, its first refresh has been tried, and a snapshot is
  -- stored. Other writers are only asked to leave a snapshot where there is one.
  pub Reachable-IsSteady :
      (w : World State) → Reachable storage settings w → IsSteady storage settings w
  Reachable-IsSteady _ (creates state) = unfold created in λ disabled. ground arith
  Reachable-IsSteady _ (starts w r) = start-IsSteady w (Reachable-IsSteady w r)
  Reachable-IsSteady _ (stops w r) = unfold stop in λ disabled. ground arith
  Reachable-IsSteady _ (refreshes request w kept running r) =
      run_round-IsSteady request w kept running (Reachable-IsSteady w r)
  Reachable-IsSteady _ (answers request w kept r) =
      answer_request-IsSteady request w kept (Reachable-IsSteady w r)
  Reachable-IsSteady _ (writes others w kept r) = λ disabled.
      let steady = Reachable-IsSteady w r disabled in (steady.0, steady.1, kept w.state steady.2)
