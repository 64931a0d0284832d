-- ===== src/RateLimit/Agreement.antt =====
-- The three limiters against one another: the dict, the SQLite table and the MariaDB table.
use scam_screener_api.Base.{
  ℕ, ◌+◌, ◌<◌, ◌≡◌, refl, Str, select, Option, none, some, List, [], ◌∷◌, arith, pair_eq, nat_eq,
  str_eq, Eq, Option-cases, Bool-cases, inl, inr,
}
use scam_screener_api.Base.Int.{ℤ, le_count, pos_part, le_count-pos_part}
use scam_screener_api.Base.Dict.{
  Dict, lookup, map_values, lookup-map_values, insert-map_values, select-map_values,
}
use scam_screener_api.RateLimit.{safe_window, stale_before}
use scam_screener_api.RateLimit.Memory
use scam_screener_api.RateLimit.Memory.{Buckets, Answer, fresh, stored_count, charge}
use scam_screener_api.RateLimit.Database
use scam_screener_api.RateLimit.Database.{
  Hit, Hits, Others, sqlite, mariadb, not_stale, charge_row, allow_sqlite, attempt, attempts,
  allow_mariadb, update_row, after_select, insert_row, delete_stale,
}

-- The dict of the in-memory limiter that a table stands for.
unfoldable pub counts {ℓ} : {K : Type ℓ} → Dict K Hit → Dict K ℕ
counts = map_values (λ hit. hit.count)

abbrev pub counts_of : {K : Type 0} → Answer × Dict K Hit → Answer × Dict K ℕ
counts_of (answer, hits) = (answer, counts hits)

module _ {K : Type 0} ⦃e : Eq K⦄ where
  charge-counts :
      (k : K) (max_requests : ℤ) (retry now : ℕ) (hits : Dict K Hit)
      → 0 < pos_part max_requests
      → charge k max_requests retry (counts hits)
        ≡ counts_of (charge_row k max_requests retry now (lookup k hits) hits)
  unfolding charge charge_row counts stored_count
  charge-counts k m retry now hits h = elim (Option-cases (lookup k hits)) [
    | inl absent ↦ ground (
      arith,
      lookup-map_values (λ (hit : Hit). hit.count) k hits,
      le_count-pos_part m 0,
      insert-map_values (λ (hit : Hit). hit.count) k (record { count = 1; updated_at = now }) hits,
    )
    | inr (hit, found) ↦ ground (
      arith,
      lookup-map_values (λ (hit : Hit). hit.count) k hits,
      insert-map_values (λ (hit : Hit). hit.count) k
          (record { count = hit.count + 1; updated_at = now }) hits,
    )
  ]

counts-select :
    (stale : ℕ) (hits : Hits)
    → counts (delete_stale stale hits) ≡ select (fresh stale) (counts hits)
unfolding counts not_stale fresh
counts-select stale = select-map_values _ _ _ (λ k hit. refl)

-- While the limit is positive, the SQLite limiter answers as the in-memory one does, and the two
-- stores go on standing for one another.
pub allow-sqlite-agrees :
    (now : ℕ) (key : Str) (max_requests window_seconds : ℤ) (hits : Hits)
    → 0 < pos_part max_requests
    → Memory.allow now key max_requests window_seconds (counts hits)
      ≡ counts_of (Database.allow sqlite now key max_requests window_seconds hits)
unfolding Memory.allow Database.allow allow_sqlite
allow-sqlite-agrees now key m w hits h =
    rw (← counts-select (stale_before now (safe_window w)) hits) (charge-counts _ m _ now _ h)

-- Other connections that commit nothing.
abbrev pub quiet : Others
quiet = record {
  before_delete = λ t. t;
  before_update = λ t. t;
  before_select = λ t. t;
  before_insert = λ t. t;
}

abbrev answered : Answer × Hits → Option Answer × Hits
answered (answer, hits) = (some answer, hits)

update_row-quiet :
    (k : Str × ℕ) (m : ℤ) (retry stale now : ℕ) (found : Option Hit) (began kept : Hits)
    → lookup k kept ≡ found
    → update_row k m retry stale now quiet found began kept
      ≡ answered (charge_row k m retry now found kept)
unfolding update_row charge_row
update_row-quiet k m retry stale now none began kept e = rw (e, after_select) (rw (e, insert_row))
update_row-quiet k m retry stale now (some hit) began kept e =
    elim (Bool-cases (le_count m hit.count)) [
      | inl full ↦ rw full (rw (e, after_select) (rw full))
      | inr room ↦ rw room
    ]

attempt-quiet :
    (key : Str) (start : ℕ) (m : ℤ) (retry stale now : ℕ) (hits : Hits)
    → attempt (key, start) m retry stale now quiet hits
      ≡ answered (allow_sqlite key m start retry stale now hits)
unfolding attempt allow_sqlite
attempt-quiet key start m retry stale now hits =
    update_row-quiet (key, start) m retry stale now _ hits (delete_stale stale hits) refl

attempts-answered :
    (k : Str × ℕ) (m : ℤ) (retry stale now : ℕ) (others : Others) (rest : List Others) (hits : Hits)
    (r : Answer × Hits)
    → attempt k m retry stale now others hits ≡ answered r
    → attempts k m retry stale now (others ∷ rest) hits ≡ r
unfolding attempts
attempts-answered k m retry stale now others rest hits r e = rw e

-- With no other connection writing, the MariaDB limiter is the SQLite limiter: the first of its
-- three attempts decides.
pub allow-mariadb-agrees :
    (second third : Others) (now : ℕ) (key : Str) (max_requests window_seconds : ℤ) (hits : Hits)
    → Database.allow (mariadb quiet second third) now key max_requests window_seconds hits
      ≡ Database.allow sqlite now key max_requests window_seconds hits
unfolding Database.allow allow_mariadb
allow-mariadb-agrees second third now key m w hits =
    attempts-answered _ m _ _ now quiet (second ∷ third ∷ []) hits _
      (attempt-quiet key _ m _ _ now hits)
