-- ===== src/Cache/History.antt =====
-- The cache against the history of its calls.
use scam_screener_api.Base.{
  ℕ, ◌+◌, ◌-◌, ◌<◌, ◌≤◌, ◌≡◌, refl, subst, Str, Option, none, some, List, [], ◌∷◌, ◌++◌, arith,
  length, if◌then◌else◌, str_eq, str_beq, str_beq_iff, Bool-cases, inl, inr,
}
use mathlib.Core.Option.{none-ne-some}
use scam_screener_api.Base.Int.{ℤ, clamp_low, clamp_low_bound}
use scam_screener_api.Base.Dict.{
  lookup, erase, NodupKeys, lookup-erase, lookup-append, lookup-select-some, lookup-drop-some,
  lookup-nil,
}
use scam_screener_api.Cache.{CachedResponse}
use scam_screener_api.Cache.Local.{
  Entries, LocalResponseCache, init, seconds, alive, prune_expired, get, set, use_entry,
}
use scam_screener_api.Cache.Bounds.{
  IsValid, set-IsValid, get-IsValid, entries-set, kept-NodupKeys, used-NodupKeys,
  move_to_end-eq-append,
}

pub data Call (P : Type 0) : Type 0 where
  read : ℕ → Str → Call P
  write : ℕ → Str → CachedResponse P → Call P

module _ {P : Type 0} (ttl_seconds max_entries : ℤ) where
  -- The cache after a history of calls, the latest first.
  unfoldable pub after : List (Call P) → LocalResponseCache P
  unfolding init
  after [] = init ttl_seconds max_entries
  after (read now key ∷ earlier) = (get now key (after earlier)).1
  after (write now key entry ∷ earlier) = set now key entry (after earlier)

  -- The last write of a key, with the time at which it expires.
  unfoldable pub last_write : Str → List (Call P) → Option (ℕ × CachedResponse P)
  last_write key [] = none
  last_write key (read now other ∷ earlier) = last_write key earlier
  last_write key (write now other entry ∷ earlier) =
      if str_beq key other
      then some (now + seconds (clamp_low 1 ttl_seconds), entry)
      else last_write key earlier

  ttl-after : (calls : List (Call P)) → (after calls).ttl_seconds ≡ clamp_low 1 ttl_seconds
  unfolding after set get use_entry
  ttl-after [] = refl
  ttl-after (read now key ∷ earlier) = ground (arith, ttl-after earlier)
  ttl-after (write now key entry ∷ earlier) = ttl-after earlier

  pub after-IsValid : (calls : List (Call P)) → IsValid (after calls)
  unfolding after
  after-IsValid [] = record {
    nodup = tt;
    bounded = omega arith;
    positive = clamp_low_bound 1 max_entries;
  }
  after-IsValid (read now key ∷ earlier) = get-IsValid now key _ (after-IsValid earlier)
  after-IsValid (write now key entry ∷ earlier) =
      set-IsValid now key entry _ (after-IsValid earlier)

  max-after : (calls : List (Call P)) → (after calls).max_entries ≡ clamp_low 1 max_entries
  unfolding after set get use_entry
  max-after [] = refl
  max-after (read now key ∷ earlier) = ground (arith, max-after earlier)
  max-after (write now key entry ∷ earlier) = max-after earlier

  -- Whatever the calls, a key has one entry at most, and the cache that was made with `max_entries`
  -- holds at most `max(1, max_entries)` entries.
  pub after-IsBounded :
      (calls : List (Call P))
      → NodupKeys (after calls).entries × (length (after calls).entries ≤ clamp_low 1 max_entries)
  after-IsBounded calls =
      let valid = after-IsValid calls in
      (valid.nodup, subst (λ n. length (after calls).entries ≤ n) (max-after calls) valid.bounded)

module _ {P : Type 0} where
  pub lookup-prune_expired :
      (now : ℕ) (key : Str) (cache : LocalResponseCache P) (v : ℕ × CachedResponse P)
      → NodupKeys cache.entries
      → lookup key (prune_expired now cache.entries) ≡ some v
      → (lookup key cache.entries ≡ some v) × (now < v.0)
  unfolding prune_expired
  lookup-prune_expired now key cache v u h =
      let found = lookup-select-some key (alive now) cache.entries v u h in
      (found.0, unfold alive in ground arith)

  -- What is found behind a move to the end was there or is what was moved.
  pub lookup-used :
      (key other : Str) (w : ℕ × CachedResponse P) (kept : Entries P)
      → lookup other (erase key kept ++ (key, w) ∷ [])
        ≡ (if str_beq other key then some w else lookup other kept)
  unfolding lookup
  lookup-used key other w kept = ground (
    arith,
    lookup-append other (erase key kept) ((key, w) ∷ []),
    lookup-erase other key kept,
    str_beq_iff other key,
  )

  lookup-set :
      (now : ℕ) (key other : Str) (entry : CachedResponse P) (cache : LocalResponseCache P)
      (v : ℕ × CachedResponse P)
      → NodupKeys cache.entries
      → lookup other (set now key entry cache).entries ≡ some v
      → (if str_beq other key
          then some (now + seconds cache.ttl_seconds, entry)
          else lookup other cache.entries)
        ≡ some v
  lookup-set now key other entry cache v u h =
      let kept = prune_expired now cache.entries in
      let w : ℕ × CachedResponse P = (now + seconds cache.ttl_seconds, entry) in
      let used = erase key kept ++ (key, w) ∷ [] in
      let found : lookup other used ≡ some v =
        lookup-drop-some (length used - cache.max_entries) other v used
          (used-NodupKeys key w kept (kept-NodupKeys now cache u))
          (rw (entries-set now key entry cache u) at h) in
      let read : (if str_beq other key then some w else lookup other kept) ≡ some v =
        rw (lookup-used key other w kept) at found in
      elim (Bool-cases (str_beq other key)) [
        | inl same ↦ rw same (rw same at read)
        | inr differ ↦ rw differ (lookup-prune_expired now other cache v u (rw differ at read)).0
      ]

  lookup-use_entry :
      (now : ℕ) (key other : Str) (cache : LocalResponseCache P) (kept : Entries P)
      (found : Option (ℕ × CachedResponse P)) (v : ℕ × CachedResponse P)
      → lookup key kept ≡ found
      → lookup other (use_entry now key cache kept found).1.entries ≡ some v
      → lookup other kept ≡ some v
  unfolding use_entry
  lookup-use_entry now key other cache kept none v e = λ h. h
  lookup-use_entry now key other cache kept (some (expires_at, cached)) v e = ground (
    arith,
    lookup-erase other key kept,
    move_to_end-eq-append key kept (expires_at, cached) e,
    lookup-used key other (expires_at, cached) kept,
    str_beq_iff other key,
  )

  lookup-get :
      (now : ℕ) (key other : Str) (cache : LocalResponseCache P) (v : ℕ × CachedResponse P)
      → NodupKeys cache.entries
      → lookup other (get now key cache).1.entries ≡ some v
      → lookup other cache.entries ≡ some v
  unfolding get
  lookup-get now key other cache v u h =
      (lookup-prune_expired now other cache v u
        (lookup-use_entry now key other cache (prune_expired now cache.entries) _ v refl h)).0

  pub served-use_entry :
      (now : ℕ) (key : Str) (cache : LocalResponseCache P) (kept : Entries P)
      (found : Option (ℕ × CachedResponse P)) (entry : CachedResponse P)
      → (use_entry now key cache kept found).0 ≡ some entry
      → (expires_at : ℕ) × (found ≡ some (expires_at, entry))
  unfolding use_entry
  served-use_entry now key cache kept none entry h = cc
  served-use_entry now key cache kept (some (expires_at, cached)) entry h =
      (expires_at, ground arith)

module _ {P : Type 0} (ttl_seconds max_entries : ℤ) where
  lookup-after :
      (key : Str) (calls : List (Call P)) (v : ℕ × CachedResponse P)
      → lookup key (after ttl_seconds max_entries calls).entries ≡ some v
      → last_write ttl_seconds max_entries key calls ≡ some v
  unfolding after last_write
  lookup-after key [] v h = absurd (none-ne-some v (rw lookup-nil at h))
  lookup-after key (read now other ∷ earlier) v h =
      lookup-after key earlier v
        (lookup-get now other key _ v (after-IsValid ttl_seconds max_entries earlier).nodup h)
  lookup-after key (write now other entry ∷ earlier) v h = ground (
    arith,
    lookup-set now other key entry (after ttl_seconds max_entries earlier) v
        (after-IsValid ttl_seconds max_entries earlier).nodup h,
    ttl-after ttl_seconds max_entries earlier,
    lookup-after key earlier v,
  )

  -- After any calls, whatever their times, an entry that `get` serves is that of the last write of
  -- its key, and the time to live of that write has not run out.
  pub served-last_write :
      (calls : List (Call P)) (now : ℕ) (key : Str) (entry : CachedResponse P)
      → (get now key (after ttl_seconds max_entries calls)).0 ≡ some entry
      → (expires_at : ℕ) × (last_write ttl_seconds max_entries key calls ≡ some (expires_at, entry))
        × (now < expires_at)
  unfolding get
  served-last_write calls now key entry h =
      let cache = after ttl_seconds max_entries calls in
      let (expires_at, found) =
        served-use_entry now key cache (prune_expired now cache.entries) _ entry h in
      let (there, early) =
        lookup-prune_expired now key cache (expires_at, entry)
          (after-IsValid ttl_seconds max_entries calls).nodup found in
      (expires_at, lookup-after key calls (expires_at, entry) there, early)
