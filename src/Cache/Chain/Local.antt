-- ===== src/Cache/Chain/Local.antt =====
-- The local cache as a backend of the chain, at one time.
use scam_screener_api.Base.{
  ℕ, ◌≤◌, ◌≡◌, refl, Str, some, [], ◌∷◌, ◌++◌, arith, ◌∙◌, str_beq_iff, str_eq,
}
use scam_screener_api.Base.Dict.{lookup, erase, lookup-select}
use scam_screener_api.Cache.{CachedResponse}
use scam_screener_api.Cache.Local
use scam_screener_api.Cache.Local.{
  Entries, LocalResponseCache, seconds, alive, prune_expired, use_entry,
}
use scam_screener_api.Cache.Bounds.{
  IsValid, set-IsValid, get-IsValid, get-set_self, use_entry_live, entries-use_entry_live,
  move_to_end-eq-append,
}
use scam_screener_api.Cache.History.{lookup-used, lookup-prune_expired, served-use_entry}
use scam_screener_api.Cache.Chain.{Backend, IsLawful}

module _ {P : Type 0} (now : ℕ) where
  abbrev pub local_backend : Backend (LocalResponseCache P) (CachedResponse P)
  local_backend = record { get = Local.get now; set = Local.set now }

  abbrev pub IsLive : LocalResponseCache P → Type 0
  IsLive cache = IsValid cache × (1 ≤ cache.ttl_seconds)

  ttl-set :
      (key : Str) (entry : CachedResponse P) (cache : LocalResponseCache P)
      → (Local.set now key entry cache).ttl_seconds ≡ cache.ttl_seconds
  unfolding Local.set
  ttl-set key entry cache = refl

  ttl-get :
      (key : Str) (cache : LocalResponseCache P)
      → (Local.get now key cache).1.ttl_seconds ≡ cache.ttl_seconds
  unfolding Local.get use_entry
  ttl-get key cache = ground arith

  get-get_self :
      (key : Str) (entry : CachedResponse P) (cache : LocalResponseCache P)
      → IsValid cache
      → (Local.get now key cache).0 ≡ some entry
      → (Local.get now key (Local.get now key cache).1).0 ≡ some entry
  get-get_self key entry cache v h =
      let kept = prune_expired now cache.entries in
      let first = (Local.get now key cache).1 in
      let (expires_at, found) =
        served-use_entry now key cache kept (lookup key kept) entry (unfold Local.get in h) in
      let w : ℕ × CachedResponse P = (expires_at, entry) in
      let (there, early) = lookup-prune_expired now key cache w v.nodup found in
      let moved : first.entries ≡ erase key kept ++ (key, w) ∷ [] =
        unfold Local.get in
        (entries-use_entry_live now key cache kept (lookup key kept) w found early
          ∙ move_to_end-eq-append key kept w found) in
      let stored : lookup key first.entries ≡ some w =
        rw (moved, lookup-used key key w kept, (str_beq_iff key key).1 refl) in
      let live : lookup key (prune_expired now first.entries) ≡ some w =
        unfold prune_expired alive in
        rw
          (lookup-select key (alive now) first.entries w (get-IsValid now key cache v).nodup stored)
          (ground arith) in
      unfold Local.get in use_entry_live now key _ _ _ w live early

  pub local_backend-IsLawful : IsLawful local_backend IsLive
  local_backend-IsLawful = record {
    get-IsValid = λ key b v. (get-IsValid now key b v.0, rw (ttl-get key b) v.1);
    set-IsValid = λ key c b v. (set-IsValid now key c b v.0, rw (ttl-set key c b) v.1);
    get-set_self = λ key c b v. get-set_self now now key c b v.0 (unfold seconds in omega arith);
    get-get_self = λ key c b v. get-get_self key c b v.0;
  }
