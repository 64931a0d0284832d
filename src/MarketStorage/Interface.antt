-- ===== src/MarketStorage/Interface.antt =====
-- The storage as the services of Market use it, and what remains of the history after a write.
use mathlib.Core.Option.{none-ne-some, some-injective}
use scam_screener_api.Base.{
  ℕ, ◌+◌, ◌*◌, ◌≤◌, ◌<◌, ◌≡◌, sym, ap, ◌∙◌, subst, Str, str_eq, nat_eq, true, not, Option, none,
  some, All, All-map, All-select_holds, arith,
}
use scam_screener_api.Base.Dict.{Dict, lookup}
use scam_screener_api.LowestBin.{Floats}
use scam_screener_api.Market.{Storage, Keeps}
use scam_screener_api.MarketStorage.{
  Sums, RowOrder, ItemRow, AggregateRow, Database, Content, snapshot_day_from_last_updated,
}
use scam_screener_api.MarketStorage.Write.{
  is_pruned, pruned, with_aggregates, aggregated, processed_once, current, filled, dated,
  write_lowestbin_snapshot, read_lowestbin_snapshot,
}
use scam_screener_api.MarketStorage.Refill.{kept_content, read-kept_content}

-- `_datetime_to_epoch_millis` of a time in microseconds; floats round it down, at most by one more.
pub record Millis : Type 0 where
  pub to_millis : ℕ → ℕ
  pub to_millis_le : (t : ℕ) → to_millis t * 1000 ≤ t
  pub lt_to_millis : (t : ℕ) → t < to_millis t * 1000 + 2000

module _ (floats : Floats) (sums : Sums floats) (retention_days now_ms : ℕ) (millis : Millis)
    (order : RowOrder (ItemRow floats)) where
  open millis use {to_millis, to_millis_le, lt_to_millis}

  -- The storage of `LowestBinService`, at the time `now_ms`.
  abbrev pub lowestbin_storage : Storage (Content floats)
  lowestbin_storage = record {
    State = Database floats;
    read = read_lowestbin_snapshot floats sums order;
    write = λ t content db.
        write_lowestbin_snapshot floats sums retention_days now_ms (to_millis t) content db;
  }

  -- The tables of the database are a storage that keeps what is written, up to the rows that are
  -- refused and to milliseconds.
  pub lowestbin_storage-Keeps : Keeps lowestbin_storage
  lowestbin_storage-Keeps = record {
    kept = kept_content floats sums order;
    kept_time = λ t. to_millis t * 1000;
    kept_time_le = to_millis_le;
    lt_kept_time = lt_to_millis;
    read-write = λ t content db after e.
        read-kept_content floats sums order retention_days now_ms (to_millis t) content db after e;
  }

module _ (floats : Floats) (sums : Sums floats)
    (retention_days now_ms generated_at_epoch_ms day : ℕ) (content : Content floats) where
  -- Days of the retention only.
  abbrev pub IsRetained : Database floats → Type 0
  IsRetained db =
      All (λ (row : (Str × ℕ) × AggregateRow floats). day < row.0.1 + retention_days) db.aggregates

  retained_of_not_pruned :
      (row : (Str × ℕ) × AggregateRow floats)
      → 1 ≤ retention_days
      → not (is_pruned retention_days day row.0.1) ≡ true
      → day < row.0.1 + retention_days
  unfolding is_pruned
  retained_of_not_pruned row p h = ground arith

  with_aggregates-IsRetained :
      (db after : Database floats) (aggregates : Option (Dict (Str × ℕ) (AggregateRow floats)))
      → 1 ≤ retention_days
      → with_aggregates floats sums retention_days day now_ms content db aggregates ≡ some after
      → IsRetained after
  unfolding with_aggregates pruned
  with_aggregates-IsRetained db after none p e = absurd (none-ne-some after e)
  with_aggregates-IsRetained db after (some aggregates) p e =
      subst IsRetained (some-injective _ after e) (
        All-map
          (λ (row : (Str × ℕ) × AggregateRow floats).
            not (is_pruned retention_days day row.0.1) ≡ true)
          _ (λ row h. retained_of_not_pruned row p h) _
          (All-select_holds
            (λ (row : (Str × ℕ) × AggregateRow floats). not (is_pruned retention_days day row.0.1))
            aggregates))

  filled-IsRetained :
      (db after : Database floats) (items : Option (Dict Str (ItemRow floats)))
      → 1 ≤ retention_days
      → lookup content.snapshot_last_updated db.processed ≡ none
      → filled floats sums retention_days now_ms generated_at_epoch_ms day content db items
        ≡ some after
      → IsRetained after
  unfolding filled current processed_once aggregated
  filled-IsRetained db after none p new e = absurd (none-ne-some after e)
  filled-IsRetained db after (some items) p new e =
      with_aggregates-IsRetained (current floats sums generated_at_epoch_ms now_ms content items db)
        after _ p
        (sym (
            ap
              (λ there.
                processed_once floats sums retention_days day now_ms content there
                  (current floats sums generated_at_epoch_ms now_ms content items db))
              new)
          ∙ e)

  -- When a snapshot that was not processed yet has been written, the history holds no price of a
  -- day that is `retention_days` or more before the day of the snapshot.
  pub write_lowestbin_snapshot-IsRetained :
      (db after : Database floats)
      → 1 ≤ retention_days
      → snapshot_day_from_last_updated content.snapshot_last_updated ≡ some day
      → lookup content.snapshot_last_updated db.processed ≡ none
      → write_lowestbin_snapshot floats sums retention_days now_ms generated_at_epoch_ms content db
        ≡ some after
      → IsRetained after
  unfolding write_lowestbin_snapshot dated
  write_lowestbin_snapshot-IsRetained db after p dayed new e = filled-IsRetained db after _ p new (
      sym (ap (dated floats sums retention_days now_ms generated_at_epoch_ms content db) dayed) ∙ e)
