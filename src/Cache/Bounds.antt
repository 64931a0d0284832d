-- ===== src/Cache/Bounds.antt =====
-- What the operations keep, and what `set` leaves in the cache.
use scam_screener_api.Base.{
  ℕ, ◌+◌, ◌-◌, ◌≤◌, ◌<◌, ◌≡◌, refl, sym, suc, Str, ltb, leb, Option, none, some, [], ◌∷◌, ◌++◌,
  arith, length, length-append, length-select-le, drop, drop-nil, length-drop, str_eq, Bool-cases,
  inl, inr,
}
use mathlib.Core.Option.{none-ne-some}
use scam_screener_api.Base.Dict.{
  lookup, erase, NodupKeys, select-NodupKeys, erase-NodupKeys, append-NodupKeys, erase-insert,
  drop-NodupKeys, lookup-insert_self, lookup-erase_self, length-erase-le, length-erase-lt,
  lookup-drop-last, lookup-select,
}
use scam_screener_api.Cache.{CachedResponse}
use scam_screener_api.Cache.Local.{
  Entries, LocalResponseCache, seconds, alive, prune_expired, move_to_end, get, evict, set,
  use_entry,
}

module _ {P : Type 0} where
  pub evict-eq-drop :
      (max_entries : ℕ) (entries : Entries P)
      → evict max_entries entries ≡ drop (length entries - max_entries) entries
  unfolding evict
  evict-eq-drop n [] = sym (drop-nil (0 - n))
  evict-eq-drop n (x ∷ entries) = elim (Bool-cases (ltb n (suc (length entries)))) [
    | inl more ↦
        let e : suc (length entries) - n ≡ suc (length entries - n) = ground arith in
        rw (more, e) (evict-eq-drop n entries)
    | inr fits ↦ let e : suc (length entries) - n ≡ 0 = ground arith in rw (fits, e)
  ]

  pub move_to_end-eq-append :
      (key : Str) (entries : Entries P) (v : ℕ × CachedResponse P)
      → lookup key entries ≡ some v
      → move_to_end key entries ≡ erase key entries ++ (key, v) ∷ []
  unfolding move_to_end
  move_to_end-eq-append key entries v e = rw (e, move_to_end)

  pub kept-NodupKeys :
      (now : ℕ) (cache : LocalResponseCache P)
      → NodupKeys cache.entries
      → NodupKeys (prune_expired now cache.entries)
  unfolding prune_expired
  kept-NodupKeys now cache u = select-NodupKeys _ _ u

  -- The entries of the key last, before the eviction.
  pub used-NodupKeys :
      (key : Str) (v : ℕ × CachedResponse P) (kept : Entries P)
      → NodupKeys kept
      → NodupKeys (erase key kept ++ (key, v) ∷ [])
  used-NodupKeys key v kept u =
      append-NodupKeys key v (erase key kept) (erase-NodupKeys key kept u)
        (lookup-erase_self key kept)

  -- Of a cache with distinct keys `set` leaves the entries that have not expired, without the old
  -- one of the key, followed by the new one, and of these the last `max_entries`.
  pub entries-set :
      (now : ℕ) (key : Str) (entry : CachedResponse P) (cache : LocalResponseCache P)
      → NodupKeys cache.entries
      → let used =
          erase key (prune_expired now cache.entries)
          ++ (key, (now + seconds cache.ttl_seconds, entry)) ∷ [] in
        (set now key entry cache).entries ≡ drop (length used - cache.max_entries) used
  unfolding set
  entries-set now key entry cache u =
      rw
        (
          move_to_end-eq-append _ _ (now + seconds cache.ttl_seconds, entry)
              (lookup-insert_self key _ (prune_expired now cache.entries)),
          erase-insert _ _ _ (kept-NodupKeys now cache u),
        )
        (evict-eq-drop _ _)

  -- The keys are distinct, and there are at most `max_entries`.
  pub record IsValid (cache : LocalResponseCache P) : Type 0 where
    pub nodup : NodupKeys cache.entries
    pub bounded : length cache.entries ≤ cache.max_entries
    pub positive : 1 ≤ cache.max_entries

  pub set-IsValid :
      (now : ℕ) (key : Str) (entry : CachedResponse P) (cache : LocalResponseCache P)
      → IsValid cache
      → IsValid (set now key entry cache)
  unfolding set
  set-IsValid now key entry cache v =
      let used =
        erase key (prune_expired now cache.entries)
        ++ (key, (now + seconds cache.ttl_seconds, entry)) ∷ [] in
      record {
        nodup =
            rw (entries-set now key entry cache v.nodup)
              (drop-NodupKeys _ used (used-NodupKeys key _ _ (kept-NodupKeys now cache v.nodup)));
        bounded =
            rw (entries-set now key entry cache v.nodup)
              (omega (arith, length-drop (length used - cache.max_entries) used));
        positive = v.positive;
      }

  use_entry-IsValid :
      (now : ℕ) (key : Str) (cache : LocalResponseCache P) (kept : Entries P)
      (found : Option (ℕ × CachedResponse P))
      → lookup key kept ≡ found
      → NodupKeys kept
      → length kept ≤ cache.max_entries
      → 1 ≤ cache.max_entries
      → IsValid (use_entry now key cache kept found).1
  unfolding use_entry
  use_entry-IsValid now key cache kept none e u b p = record {
    nodup = u;
    bounded = b;
    positive = p;
  }
  use_entry-IsValid now key cache kept (some (expires_at, cached)) e u b p =
      elim (Bool-cases (leb expires_at now)) [
        | inl dead ↦ rw dead (record {
          nodup = erase-NodupKeys key kept u;
          bounded = omega (arith, length-erase-le key kept);
          positive = p;
        })
        | inr live ↦
            rw (live, move_to_end-eq-append key kept (expires_at, cached) e)
              (record {
                nodup = used-NodupKeys key _ kept u;
                bounded = omega (
                  arith,
                  length-append (erase key kept) ((key, (expires_at, cached)) ∷ []),
                  length-erase-lt key kept (expires_at, cached) e,
                );
                positive = p;
              })
      ]

  pub get-IsValid :
      (now : ℕ) (key : Str) (cache : LocalResponseCache P)
      → IsValid cache
      → IsValid (get now key cache).1
  unfolding get
  get-IsValid now key cache v =
      use_entry-IsValid now key cache _ _ refl (kept-NodupKeys now cache v.nodup)
        (unfold prune_expired in
          omega (arith, length-select-le (alive now) cache.entries, v.bounded))
        v.positive

  pub entries-use_entry_live :
      (now : ℕ) (key : Str) (cache : LocalResponseCache P) (kept : Entries P)
      (found : Option (ℕ × CachedResponse P)) (v : ℕ × CachedResponse P)
      → found ≡ some v
      → now < v.0
      → (use_entry now key cache kept found).1.entries ≡ move_to_end key kept
  unfolding use_entry
  entries-use_entry_live now key cache kept none v e h = absurd (none-ne-some v e)
  entries-use_entry_live now key cache kept (some (expires_at, cached)) v e h = ground arith

  pub use_entry_live :
      (now : ℕ) (key : Str) (cache : LocalResponseCache P) (kept : Entries P)
      (found : Option (ℕ × CachedResponse P)) (v : ℕ × CachedResponse P)
      → found ≡ some v
      → now < v.0
      → (use_entry now key cache kept found).0 ≡ some v.1
  unfolding use_entry
  use_entry_live now key cache kept none v e h = absurd (none-ne-some v e)
  use_entry_live now key cache kept (some (expires_at, cached)) v e h = ground arith

  -- Until its time to live runs out, `get` serves the entry that `set` has just stored in a cache
  -- with distinct keys and room for one entry at least, also if the cache was full.
  pub get-set_self :
      (now later : ℕ) (key : Str) (entry : CachedResponse P) (cache : LocalResponseCache P)
      → IsValid cache
      → later < now + seconds cache.ttl_seconds
      → (get later key (set now key entry cache)).0 ≡ some entry
  unfolding get
  get-set_self now later key entry cache v h =
      let w : ℕ × CachedResponse P = (now + seconds cache.ttl_seconds, entry) in
      let others = erase key (prune_expired now cache.entries) in
      let used = others ++ (key, w) ∷ [] in
      let n = length used - cache.max_entries in
      let last : lookup key (drop n used) ≡ some w =
        lookup-drop-last n key w others (lookup-erase_self key _)
          (omega (arith, length-append others ((key, w) ∷ []), v.positive)) in
      let stored : lookup key (set now key entry cache).entries ≡ some w =
        rw (entries-set now key entry cache v.nodup) last in
      let live : lookup key (prune_expired later (set now key entry cache).entries) ≡ some w =
        unfold prune_expired alive in
        rw
          (lookup-select key (alive later) (set now key entry cache).entries w
            (set-IsValid now key entry cache v).nodup stored)
          (ground arith) in
      use_entry_live later key (set now key entry cache) _ _ w live h
