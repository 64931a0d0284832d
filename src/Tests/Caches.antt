-- ===== src/Tests/Caches.antt =====
-- The response cache and the chain on concrete calls.
use scam_screener_api.Base.{
  ℕ, ◌+◌, ◌<◌, ◌≡◌, refl, Str, codes, false, none, some, List, [], ◌∷◌, arith, str_eq, str_beq, All,
  length, ◌≤◌,
}
use scam_screener_api.Base.Int.{pos, clamp_low}
use scam_screener_api.Base.Dict.{lookup, insert, erase, NodupKeys}
use scam_screener_api.Cache.{CachedResponse}
use scam_screener_api.Cache.Local
use scam_screener_api.Cache.Local.{
  LocalResponseCache, seconds, alive, prune_expired, move_to_end, evict, use_entry, init,
}
use scam_screener_api.Cache.Bounds.{IsValid}
use scam_screener_api.Cache.History.{
  Call, read, write, after, last_write, after-IsBounded, after-IsValid, served-last_write,
}
use scam_screener_api.Cache.Chain
use scam_screener_api.Cache.Chain.{get_loop, warm}
use scam_screener_api.Cache.Chain.Local.{local_backend, IsLive, local_backend-IsLawful}

abbrev key_a : Str
key_a = codes "a"

abbrev key_b : Str
key_b = codes "b"

abbrev response : ℕ → CachedResponse ℕ
response n = record { payload = n; is_stale = false }

-- Room for one entry that lives for one second: the second write evicts the first.
abbrev calls : List (Call ℕ)
calls = write 5 key_b (response 2) ∷ read 4 key_a ∷ write 3 key_a (response 1) ∷ []

small : LocalResponseCache ℕ
unfolding after Local.get Local.set init seconds alive prune_expired move_to_end evict use_entry
    lookup insert erase str_beq
small = after (pos 1) (pos 1) calls

served : (Local.get 7 key_b (after (pos 1) (pos 1) calls)).0 ≡ some (response 2)
unfolding small
served = refl

evicted : (Local.get 7 key_a small).0 ≡ none
unfolding small
evicted = refl

served-last_write_example :
    (expires_at : ℕ) × (last_write (pos 1) (pos 1) key_b calls ≡ some (expires_at, response 2))
    × (7 < expires_at)
served-last_write_example = served-last_write (pos 1) (pos 1) calls 7 key_b (response 2) served

after-IsBounded_example :
    NodupKeys (after (pos 1) (pos 1) calls).entries
    × (length (after (pos 1) (pos 1) calls).entries ≤ clamp_low 1 (pos 1))
after-IsBounded_example = after-IsBounded (pos 1) (pos 1) calls

ttl_small : small.ttl_seconds ≡ 1
unfolding small
ttl_small = refl

small-IsValid : IsValid small
unfolding small
small-IsValid = after-IsValid (pos 1) (pos 1) calls

early : 9 < 8 + seconds small.ttl_seconds
unfolding small
early = omega arith

empty : LocalResponseCache ℕ
unfolding small
empty = init (pos 1) (pos 1)

-- The second backend has the entry of `b`.
abbrev chain : List (LocalResponseCache ℕ)
chain = empty ∷ small ∷ []

chain-IsLive : All (IsLive 8) chain
unfolding empty
chain-IsLive = ((after-IsValid (pos 1) (pos 1) [], omega arith), ((small-IsValid, omega arith), tt))

chain_hit : (Chain.get (local_backend 8) key_b chain).0 ≡ some (response 2)
unfolding empty Chain.get get_loop warm
chain_hit = refl

get-get_self_example :
    (Chain.get (local_backend 8) key_b (Chain.get (local_backend 8) key_b chain).1).0
    ≡ some (response 2)
get-get_self_example =
    Chain.get-get_self (local_backend 8) (local_backend-IsLawful 8) key_b (response 2) chain
      chain-IsLive chain_hit
