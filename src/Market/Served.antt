-- ===== src/Market/Served.antt =====
-- What a request is answered with, and when it goes upstream.
use scam_screener_api.Base.{
  ℕ, ◌+◌, ◌*◌, ◌^◌, ◌<◌, ◌≡◌, refl, ◌⊎◌, inl, inr, Bool, true, false, not, ◌&&◌, Option, none, some,
  arith, Bool-cases, if◌then◌else◌,
}
use mathlib.Core.Option.{none-ne-some}
use scam_screener_api.Market.{
  Snapshot, Settings, is_younger, is_snapshot_fresh, can_serve_snapshot_stale, Storage,
}
use scam_screener_api.Market.Service.{
  Result, returned, upstream_error, storage_error, failed, Request, as_snapshot, written, persist,
  serve_fallback, refresh_or_fall_back, locked, recheck_and_refresh, serve, load_snapshot,
}

abbrev pub IsYounger : ℕ → ℕ → ℕ → Type 0
IsYounger generated_at now seconds = now < generated_at + seconds * 10 ^ 6

module _ {C : Type 0} (storage : Storage C) (settings : Settings)
    (request : Request C storage.State) (state : storage.State) where
  open storage use {State, read, write}

  -- The snapshot is what is stored in this state.
  abbrev pub IsStored : State → Snapshot C → Type 0
  IsStored there s = read there ≡ some (s.generated_at, s.content)

  -- The content is what Hypixel answered in this call, and was written with the time of that.
  abbrev pub IsFetched : Snapshot C → Type 0
  IsFetched s =
      (request.fetch ≡ returned s.content)
      × (s.generated_at ≡ request.refreshed_at)
      × (request.write_works ≡ true)
      × (left : State) × (write request.refreshed_at s.content (request.while_waiting state)
          ≡ some left)

  -- A snapshot that is not marked stale was stored and fresh at one of the two reads, or fetched and
  -- written by this call; one that is marked stale was stored, and is within the time for which stale
  -- data may be served.
  abbrev pub IsAcceptable : Result (Snapshot C) → Type 0
  IsAcceptable (returned s) =
      ((s.is_stale ≡ false)
        × ((IsStored state s × IsYounger s.generated_at request.now settings.cache_ttl_seconds)
            ⊎ (IsStored (request.while_waiting state) s
                × IsYounger s.generated_at request.recheck_now settings.cache_ttl_seconds)
            ⊎ IsFetched s))
      ⊎ ((s.is_stale ≡ true)
          × ((IsStored state s
                × IsYounger s.generated_at request.now settings.stale_if_error_seconds)
              ⊎ ((IsStored state s ⊎ IsStored (request.while_waiting state) s)
                  × IsYounger s.generated_at request.recheck_now settings.stale_if_error_seconds)))
  IsAcceptable upstream_error = Unit
  IsAcceptable storage_error = Unit
  IsAcceptable failed = Unit

  -- What was read in a state, with its mark.
  abbrev IsReadIn : State → Option (Snapshot C) → Type 0
  IsReadIn there none = Unit
  IsReadIn there (some s) = (s.is_stale ≡ false) × IsStored there s

  -- What may be served when Hypixel fails.
  abbrev IsFallback : Option (Snapshot C) → Type 0
  IsFallback none = Unit
  IsFallback (some s) = IsStored state s ⊎ IsStored (request.while_waiting state) s

  IsReadIn-IsFallback : (found : Option (Snapshot C)) → IsReadIn state found → IsFallback found
  IsReadIn-IsFallback none was_read = tt
  IsReadIn-IsFallback (some s) was_read = inl was_read.1

  as_snapshot-IsReadIn :
      (there : State) (found : Option (ℕ × C))
      → read there ≡ found
      → IsReadIn there (as_snapshot storage settings found)
  unfolding as_snapshot
  as_snapshot-IsReadIn there none e = tt
  as_snapshot-IsReadIn there (some (t, c)) e = (refl, e)

  written-IsAcceptable :
      (content : C) (left : Option State)
      → request.fetch ≡ returned content
      → (if request.write_works
          then write request.refreshed_at content (request.while_waiting state)
          else none)
        ≡ left
      → IsAcceptable
          (written storage settings request content (request.while_waiting state) left).result
  unfolding written
  written-IsAcceptable content none fetched wrote = tt
  written-IsAcceptable content (some left) fetched wrote = elim (Bool-cases request.write_works) [
    | inl works ↦ inl (refl, inr (inr (fetched, refl, works, left, rw works at wrote)))
    | inr fails ↦ absurd (none-ne-some left (rw fails at wrote))
  ]

  refresh_or_fall_back-IsAcceptable :
      (fetch : Result C) (fallback : Option (Snapshot C))
      → request.fetch ≡ fetch
      → IsFallback fallback
      → IsAcceptable
          (refresh_or_fall_back storage settings request fetch fallback
            (request.while_waiting state)).result
  unfolding refresh_or_fall_back persist serve_fallback can_serve_snapshot_stale is_younger
  refresh_or_fall_back-IsAcceptable (returned content) fallback e stored =
      written-IsAcceptable content _ e refl
  refresh_or_fall_back-IsAcceptable upstream_error none e stored = tt
  refresh_or_fall_back-IsAcceptable upstream_error (some fallback) e stored =
      elim (Bool-cases
        (is_younger fallback.generated_at request.recheck_now settings.stale_if_error_seconds)) [
          | inl young ↦ rw young (inr (refl, inr (stored, ground arith)))
          | inr old ↦ rw old tt
        ]
  refresh_or_fall_back-IsAcceptable storage_error fallback e stored = tt
  refresh_or_fall_back-IsAcceptable failed fallback e stored = tt

  locked-IsAcceptable :
      (stored recheck : Option (Snapshot C))
      → IsReadIn state stored
      → IsReadIn (request.while_waiting state) recheck
      → IsAcceptable
          (locked storage settings request stored recheck (request.while_waiting state)).result
  unfolding locked is_snapshot_fresh is_younger
  locked-IsAcceptable stored none was_read again =
      refresh_or_fall_back-IsAcceptable request.fetch stored refl
        (IsReadIn-IsFallback stored was_read)
  locked-IsAcceptable stored (some recheck) was_read again =
      elim (Bool-cases
        (is_younger recheck.generated_at request.recheck_now settings.cache_ttl_seconds)) [
          | inl young ↦ rw young (inl (again.0, inr (inl (again.1, ground arith))))
          | inr old ↦
              rw old
                (refresh_or_fall_back-IsAcceptable request.fetch (some recheck) refl (inr again.1))
        ]

  recheck_and_refresh-IsAcceptable :
      (stored : Option (Snapshot C))
      → IsReadIn state stored
      → IsAcceptable (recheck_and_refresh storage settings request stored state).result
  unfolding recheck_and_refresh
  recheck_and_refresh-IsAcceptable stored was_read = elim (Bool-cases request.second_read_works) [
    | inl works ↦ rw works (
        locked-IsAcceptable stored _ was_read
          (as_snapshot-IsReadIn (request.while_waiting state) _ refl))
    | inr fails ↦ rw fails tt
  ]

  serve-IsAcceptable :
      (inline : Bool) (stored : Option (Snapshot C))
      → IsReadIn state stored
      → IsAcceptable (serve storage settings request inline stored state).result
  unfolding serve is_snapshot_fresh can_serve_snapshot_stale is_younger
  serve-IsAcceptable inline none was_read = recheck_and_refresh-IsAcceptable none tt
  serve-IsAcceptable inline (some s) was_read =
      elim (Bool-cases (is_younger s.generated_at request.now settings.cache_ttl_seconds)) [
        | inl young ↦ rw young (inl (was_read.0, inl (was_read.1, ground arith)))
        | inr old ↦
            rw old
              (elim (Bool-cases (
                not inline
                && is_younger s.generated_at request.now settings.stale_if_error_seconds)) [
                  | inl stale ↦ rw stale (inr (refl, inl (was_read.1, ground arith)))
                  | inr neither ↦ rw neither (recheck_and_refresh-IsAcceptable (some s) was_read)
                ])
      ]

  -- Whatever the clock, the database, Hypixel and other calls do: a snapshot that a request is
  -- answered with has the time and content that were stored at the read before or under the lock,
  -- or is the answer of Hypixel that this call has written with its own time. One that is not
  -- marked stale was stored and fresh by the clock of its read, or is that answer; one that is marked
  -- stale was stored, and at a reading of the clock during the call within the time for which stale
  -- data may be served.
  pub load_snapshot-IsAcceptable :
      (inline : Bool) → IsAcceptable (load_snapshot storage settings request inline state).result
  unfolding load_snapshot
  load_snapshot-IsAcceptable inline = elim (Bool-cases request.first_read_works) [
    | inl works ↦ rw works (serve-IsAcceptable inline _ (as_snapshot-IsReadIn state _ refl))
    | inr fails ↦ rw fails tt
  ]

module _ {C : Type 0} (storage : Storage C) (settings : Settings)
    (request : Request C storage.State) where
  open storage use {State, read, write}

  -- While the background refresher has disabled inline refreshes, a request whose first read
  -- works and finds a snapshot within the time for which stale data may be served is answered with it: it does not go
  -- upstream and writes nothing, and the answer is marked stale exactly where it is not fresh.
  pub load_snapshot-stored :
      (t : ℕ) (c : C) (state : State)
      → request.first_read_works ≡ true
      → read state ≡ some (t, c)
      → IsYounger t request.now settings.stale_if_error_seconds
      → load_snapshot storage settings request false state ≡ record {
        result = returned (record {
          generated_at = t;
          is_stale = not (is_younger t request.now settings.cache_ttl_seconds);
          content = c;
        });
        state = state;
        asked_upstream = false;
      }
  unfolding load_snapshot serve as_snapshot is_snapshot_fresh can_serve_snapshot_stale
  load_snapshot-stored t c state works found young =
      let may_serve : is_younger t request.now settings.stale_if_error_seconds ≡ true =
        unfold is_younger in ground arith in
      rw (works, found)
        (elim (Bool-cases (is_younger t request.now settings.cache_ttl_seconds)) [
          | inl fresh ↦ rw fresh
          | inr old ↦ rw (old, may_serve)
        ])
