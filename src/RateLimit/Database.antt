-- ===== src/RateLimit/Database.antt =====
-- app/training_hub/http/rate_limit.py: the limiter of the training hub, over the table
-- `rate_limit_hits`. Its primary key makes the table a dict from (bucket_key, bucket_start) to the
-- other columns; `updated_at` holds the number that the source writes in decimal.
use scam_screener_api.Base.{ℕ, ◌+◌, Str, Bool, true, false, not, ltb, select, Option}
use scam_screener_api.Base.{Eq, List, [], ◌∷◌, none, some, pair_eq, nat_eq, str_eq, if◌then◌else◌}
use scam_screener_api.Base.Int.{ℤ, le_count}
use scam_screener_api.Base.Dict.{Dict, lookup, insert}
use scam_screener_api.RateLimit.{safe_window, bucket_start, retry_after, stale_before}
use scam_screener_api.RateLimit.Memory.{Answer}

pub record Hit : Type 0 where
  pub count : ℕ
  pub updated_at : ℕ

abbrev pub Hits : Type 0
Hits = Dict (Str × ℕ) Hit

-- The rows that `DELETE ... WHERE bucket_start < ?` leaves.
unfoldable pub not_stale : ℕ → (Str × ℕ) × Hit → Bool
not_stale stale ((key, start), hit) = not (ltb start stale)

abbrev pub delete_stale : ℕ → Hits → Hits
delete_stale stale = select (not_stale stale)

-- What `SELECT count` finds decides between the INSERT, the refusal and the UPDATE.
module _ {ℓ} {K : Type ℓ} ⦃e : Eq K⦄ where
  unfoldable pub charge_row : K → ℤ → ℕ → ℕ → Option Hit → Dict K Hit → Answer × Dict K Hit
  charge_row k max_requests retry now none hits =
      ((true, 0), insert k (record { count = 1; updated_at = now }) hits)
  charge_row k max_requests retry now (some hit) hits =
      if le_count max_requests hit.count
      then ((false, retry), hits)
      else ((true, 0), insert k (record { count = hit.count + 1; updated_at = now }) hits)

unfoldable pub allow_sqlite : Str → ℤ → ℕ → ℕ → ℕ → ℕ → Hits → Answer × Hits
allow_sqlite key max_requests start retry stale now hits =
    let kept = delete_stale stale hits in
    charge_row (key, start) max_requests retry now (lookup (key, start) kept) kept

-- What the other connections commit while an attempt is under way: before it, between its DELETE and
-- its UPDATE, between that and its SELECT, and between its SELECT and its INSERT.
pub record Others : Type 0 where
  pub before_delete : Hits → Hits
  pub before_update : Hits → Hits
  pub before_select : Hits → Hits
  pub before_insert : Hits → Hits

-- One round of the loop: an answer, or `none` where the source goes on with the next attempt.
abbrev pub Attempt : Type 0
Attempt = Option Answer × Hits

module _ (k : Str × ℕ) (max_requests : ℤ) (retry stale now : ℕ) (others : Others) where
  -- The INSERT; on a duplicate key the rollback undoes the DELETE and nothing of the others.
  unfoldable pub insert_row : Option Hit → Hits → Hits → Attempt
  insert_row none rolled_back hits =
      (some (true, 0), insert k (record { count = 1; updated_at = now }) hits)
  insert_row (some duplicate) rolled_back hits = (none, rolled_back)

  unfoldable pub after_select : Option Hit → Hits → Hits → Attempt
  unfolding insert_row
  after_select (some hit) rolled_back hits =
      if le_count max_requests hit.count then (some (false, retry), hits) else (none, hits)
  after_select none rolled_back hits =
      let now_there = others.before_insert hits in
      insert_row (lookup k now_there) (others.before_insert rolled_back) now_there

  unfoldable pub no_update : Hits → Hits → Attempt
  unfolding after_select
  no_update began kept =
      let seen = others.before_select kept in
      after_select (lookup k seen) (others.before_select began) seen

  -- `UPDATE ... AND count < ?` with its row count.
  unfoldable pub update_row : Option Hit → Hits → Hits → Attempt
  unfolding no_update
  update_row none began kept = no_update began kept
  update_row (some hit) began kept =
      if le_count max_requests hit.count
      then no_update began kept
      else (some (true, 0), insert k (record { count = hit.count + 1; updated_at = now }) kept)

  unfoldable pub attempt : Hits → Attempt
  attempt hits =
      let began = others.before_delete hits in
      let kept = others.before_update (delete_stale stale began) in
      update_row (lookup k kept) (others.before_update began) kept

-- Return, or go on with the rest of the loop.
unfoldable pub or_next : Attempt → Answer × Hits → Answer × Hits
or_next (some answer, after) next = (answer, after)
or_next (none, after) next = next

-- `for _attempt in range(3)`, one element for each attempt.
unfoldable pub attempts : Str × ℕ → ℤ → ℕ → ℕ → ℕ → List Others → Hits → Answer × Hits
unfolding or_next
attempts k max_requests retry stale now [] hits = ((false, retry), hits)
attempts k max_requests retry stale now (others ∷ rest) hits =
    let tried = attempt k max_requests retry stale now others hits in
    or_next tried (attempts k max_requests retry stale now rest tried.1)

unfoldable pub allow_mariadb :
    Str → ℤ → ℕ → ℕ → ℕ → ℕ → Others → Others → Others → Hits → Answer × Hits
unfolding attempts
allow_mariadb key max_requests start retry stale now first second third =
    attempts (key, start) max_requests retry stale now (first ∷ second ∷ third ∷ [])

-- The engine behind the connection, with what the others do between its statements.
pub data Engine : Type 0 where
  sqlite : Engine
  mariadb : Others → Others → Others → Engine

unfoldable pub allow : Engine → ℕ → Str → ℤ → ℤ → Hits → Answer × Hits
allow engine now key max_requests window_seconds hits =
    let window = safe_window window_seconds in
    let start = bucket_start now window in
    let retry = retry_after now window in
    let stale = stale_before now window in
    elim engine [
      | sqlite ↦ allow_sqlite key max_requests start retry stale now hits
      | mariadb first second third ↦
          allow_mariadb key max_requests start retry stale now first second third hits
    ]
