-- ===== src/Cache/Local.antt =====
-- `LocalResponseCache`: a dict in order of use under one lock. A time is `time.monotonic()` in
-- nanoseconds, the resolution of that clock.
use scam_screener_api.Base.{
  ℕ, ◌+◌, ◌*◌, ◌^◌, Str, Bool, not, leb, ltb, Option, none, some, [], ◌∷◌, ◌++◌, length, select,
  if◌then◌else◌, str_eq,
}
use scam_screener_api.Base.Int.{ℤ, clamp_low}
use scam_screener_api.Base.Dict.{Dict, lookup, insert, erase}
use scam_screener_api.Cache.{CachedResponse}

abbrev pub Entries : Type 0 → Type 0
Entries P = Dict Str (ℕ × CachedResponse P)

pub record LocalResponseCache (P : Type 0) : Type 0 where
  pub ttl_seconds : ℕ
  pub max_entries : ℕ
  pub entries : Entries P

unfoldable pub seconds : ℕ → ℕ
seconds n = n * 10 ^ 9

module _ {P : Type 0} where
  unfoldable pub init : ℤ → ℤ → LocalResponseCache P
  init ttl_seconds max_entries = record {
    ttl_seconds = clamp_low 1 ttl_seconds;
    max_entries = clamp_low 1 max_entries;
    entries = [];
  }

  unfoldable pub alive : ℕ → Str × (ℕ × CachedResponse P) → Bool
  alive now (key, (expires_at, entry)) = not (leb expires_at now)

  unfoldable pub prune_expired : ℕ → Entries P → Entries P
  unfolding alive
  prune_expired now = select (alive now)

  -- `OrderedDict.move_to_end`; a missing key, which raises, does not occur.
  unfoldable pub move_to_end : Str → Entries P → Entries P
  move_to_end key entries = elim (lookup key entries) [
    | none ↦ entries
    | some entry ↦ erase key entries ++ (key, entry) ∷ []
  ]

  -- The part of `get` behind the lookup.
  unfoldable pub use_entry :
      ℕ
      → Str
      → LocalResponseCache P
      → Entries P
      → Option (ℕ × CachedResponse P)
      → Option (CachedResponse P) × LocalResponseCache P
  use_entry now key cache kept none = (none, record cache { entries = kept })
  use_entry now key cache kept (some (expires_at, cached)) =
      if leb expires_at now
      then (none, record cache { entries = erase key kept })
      else (some cached, record cache { entries = move_to_end key kept })

  unfoldable pub get :
      ℕ → Str → LocalResponseCache P → Option (CachedResponse P) × LocalResponseCache P
  get now key cache =
      let kept = prune_expired now cache.entries in use_entry now key cache kept (lookup key kept)

  -- `while len > max: popitem(last=False)`
  unfoldable pub evict : ℕ → Entries P → Entries P
  evict max_entries [] = []
  evict max_entries (oldest ∷ entries) =
      let rest = evict max_entries entries in
      if ltb max_entries (length (oldest ∷ entries)) then rest else oldest ∷ entries

  unfoldable pub set : ℕ → Str → CachedResponse P → LocalResponseCache P → LocalResponseCache P
  set now key entry cache =
      let kept = prune_expired now cache.entries in
      let stored = insert key (now + seconds cache.ttl_seconds, entry) kept in
      record cache { entries = evict cache.max_entries (move_to_end key stored) }
