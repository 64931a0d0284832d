-- ===== src/RateLimit/Races.antt =====
-- The MariaDB limiter while other connections write, whatever they write and whenever.
use scam_screener_api.Base.{
  ℕ, ◌+◌, ◌≤◌, ◌<◌, ◌≡◌, Str, true, Option, none, some, List, [], ◌∷◌, arith, pair_eq, nat_eq,
  str_eq, Bool-cases, inl, inr,
}
use scam_screener_api.Base.Int.{ℤ, le_count, pos_part, le_count-pos_part}
use scam_screener_api.Base.Dict.{lookup, lookup-insert_self}
use scam_screener_api.RateLimit.{safe_window, bucket_start}
use scam_screener_api.RateLimit.Memory.{Answer}
use scam_screener_api.RateLimit.Database.{
  Hit, Hits, Others, mariadb, allow, Attempt, attempt, attempts, allow_mariadb, update_row,
  no_update, after_select, insert_row, delete_stale, or_next,
}

-- The row of the key holds a count from 1 up to the limit.
abbrev pub IsWithin : Str × ℕ → ℤ → Hits → Type 0
IsWithin k max_requests hits =
    (hit : Hit) × (lookup k hits ≡ some hit) × (1 ≤ hit.count) × (hit.count ≤ pos_part max_requests)

-- If a round of the loop grants, then the row is within the limit.
abbrev GrantsWithin : Str × ℕ → ℤ → Attempt → Type 0
GrantsWithin k m (answer, hits) = (retry : ℕ) → answer ≡ some (true, retry) → IsWithin k m hits

module _ (k : Str × ℕ) (m : ℤ) (retry stale now : ℕ) (others : Others)
    (positive : 0 < pos_part m) where
  insert_row-GrantsWithin :
      (found : Option Hit) (rolled_back hits : Hits)
      → GrantsWithin k m (insert_row k m retry stale now others found rolled_back hits)
  unfolding insert_row
  insert_row-GrantsWithin none rolled_back hits r e = (
    record { count = 1; updated_at = now },
    lookup-insert_self k _ hits,
    omega arith,
    omega arith,
  )
  insert_row-GrantsWithin (some hit) rolled_back hits r e = cc

  after_select-GrantsWithin :
      (found : Option Hit) (rolled_back hits : Hits)
      → GrantsWithin k m (after_select k m retry stale now others found rolled_back hits)
  unfolding after_select
  after_select-GrantsWithin none rolled_back hits r e =
      insert_row-GrantsWithin (lookup k (others.before_insert hits))
        (others.before_insert rolled_back) (others.before_insert hits) r e
  after_select-GrantsWithin (some hit) rolled_back hits r e = ground arith

  no_update-GrantsWithin :
      (began kept : Hits) → GrantsWithin k m (no_update k m retry stale now others began kept)
  unfolding no_update
  no_update-GrantsWithin began kept =
      after_select-GrantsWithin (lookup k (others.before_select kept)) (others.before_select began)
        (others.before_select kept)

  update_row-GrantsWithin :
      (found : Option Hit) (began kept : Hits)
      → GrantsWithin k m (update_row k m retry stale now others found began kept)
  unfolding update_row
  update_row-GrantsWithin none began kept r e = no_update-GrantsWithin began kept r e
  update_row-GrantsWithin (some hit) began kept r e = elim (Bool-cases (le_count m hit.count)) [
    | inl full ↦ rw full (no_update-GrantsWithin began kept r (rw full at e))
    | inr room ↦ rw room (
      record { count = hit.count + 1; updated_at = now },
      lookup-insert_self k _ kept,
      omega arith,
      ground (arith, le_count-pos_part m hit.count),
    )
  ]

  attempt-GrantsWithin : (hits : Hits) → GrantsWithin k m (attempt k m retry stale now others hits)
  unfolding attempt
  attempt-GrantsWithin hits =
      let began = others.before_delete hits in
      update_row-GrantsWithin _ (others.before_update began)
        (others.before_update (delete_stale stale began))

or_next-IsWithin :
    (k : Str × ℕ) (m : ℤ) (tried : Attempt) (next : Answer × Hits)
    → GrantsWithin k m tried
    → (next.0.0 ≡ true → IsWithin k m next.1)
    → (or_next tried next).0.0 ≡ true
    → IsWithin k m (or_next tried next).1
unfolding or_next
or_next-IsWithin k m (some (granted, retry), after) next h g e = h retry (rw e)
or_next-IsWithin k m (none, after) next h g e = g e

attempts-IsWithin :
    (k : Str × ℕ) (m : ℤ) (retry stale now : ℕ) (rest : List Others) (hits : Hits)
    → 0 < pos_part m
    → (attempts k m retry stale now rest hits).0.0 ≡ true
    → IsWithin k m (attempts k m retry stale now rest hits).1
unfolding attempts
attempts-IsWithin k m retry stale now [] hits positive = λ e. cc
attempts-IsWithin k m retry stale now (others ∷ rest) hits positive =
    or_next-IsWithin k m _ _ (attempt-GrantsWithin k m retry stale now others positive hits) (
      attempts-IsWithin k m retry stale now rest (attempt k m retry stale now others hits).1
        positive)

-- Whatever other connections commit between the statements of a call, a call that is granted
-- leaves the row of its key and window with a count from 1 up to the limit, if that is positive.
pub granted-IsWithin :
    (first second third : Others) (now : ℕ) (key : Str) (max_requests window_seconds : ℤ)
    (hits : Hits)
    → 0 < pos_part max_requests
    → (allow (mariadb first second third) now key max_requests window_seconds hits).0.0 ≡ true
    → IsWithin
        (key, bucket_start now (safe_window window_seconds))
        max_requests
        (allow (mariadb first second third) now key max_requests window_seconds hits).1
unfolding allow allow_mariadb
granted-IsWithin first second third now key m w hits positive =
    attempts-IsWithin _ m _ _ now (first ∷ second ∷ third ∷ []) hits positive
