-- ===== src/MarketStorage/Write.antt =====
-- `write_lowestbin_snapshot` and `read_lowestbin_snapshot`. A transaction that fails is `none`.
use scam_screener_api.Base.{
  ℕ, ◌+◌, ◌-◌, ◌*◌, Str, str_eq, nat_eq, pair_eq, Bool, not, Option, none, some, [], ◌∷◌, ◌++◌, map,
  select, ltb,
}
use scam_screener_api.Base.Dict.{Dict, lookup}
use scam_screener_api.LowestBin.{Floats}
use scam_screener_api.MarketStorage.{
  Sums, RowOrder, SnapshotRow, ProcessedRow, ItemRow, AggregateRow, Database, Content,
  snapshot_day_from_last_updated,
}
use scam_screener_api.MarketStorage.Insert.{insert_items}
use scam_screener_api.MarketStorage.Rows.{item_rows, aggregate_rows, upsert_rows}

-- `snapshot_day < prune_before`, which is `retention_days - 1` days before the day of the snapshot.
unfoldable pub is_pruned : ℕ → ℕ → ℕ → Bool
is_pruned retention_days day row_day = ltb (row_day + (retention_days - 1)) day

module _ (floats : Floats) (sums : Sums floats) where
  open floats use {Price}

  -- INSERT IGNORE and what follows where it has inserted: the aggregates and the pruning.
  unfoldable pub pruned : ℕ → ℕ → Database floats → Database floats
  unfolding is_pruned
  pruned retention_days day db = record db {
    processed =
        select (λ (row : ℕ × ProcessedRow). not (is_pruned retention_days day row.1.snapshot_day))
          db.processed;
    aggregates =
        select
          (λ (row : (Str × ℕ) × AggregateRow floats). not (is_pruned retention_days day row.0.1))
          db.aggregates;
  }

  unfoldable pub with_aggregates :
      ℕ
      → ℕ
      → ℕ
      → Content floats
      → Database floats
      → Option (Dict (Str × ℕ) (AggregateRow floats))
      → Option (Database floats)
  unfolding pruned
  with_aggregates retention_days day now_ms content db none = none
  with_aggregates retention_days day now_ms content db (some aggregates) = some (
      pruned retention_days day (record db {
        processed =
            db.processed
            ++ (
              content.snapshot_last_updated,
              record { snapshot_day = day; processed_at_epoch_ms = now_ms },
            )
              ∷ [];
        aggregates = aggregates;
      }))

  unfoldable pub aggregated :
      ℕ → ℕ → ℕ → Content floats → Database floats → Option (Database floats)
  unfolding with_aggregates
  aggregated retention_days day now_ms content db =
      with_aggregates retention_days day now_ms content db
        (upsert_rows floats sums (aggregate_rows floats sums day content.items) db.aggregates)

  -- By the row of this snapshot among those that have been processed.
  unfoldable pub processed_once :
      ℕ → ℕ → ℕ → Content floats → Option ProcessedRow → Database floats → Option (Database floats)
  unfolding aggregated
  processed_once retention_days day now_ms content none db =
      aggregated retention_days day now_ms content db
  processed_once retention_days day now_ms content (some there) db = some db

  -- The current snapshot, replaced.
  unfoldable pub current :
      ℕ → ℕ → Content floats → Dict Str (ItemRow floats) → Database floats → Database floats
  current generated_at_epoch_ms now_ms content items db = record db {
    current_snapshot = some (record {
      generated_at_epoch_ms = generated_at_epoch_ms;
      snapshot_last_updated = content.snapshot_last_updated;
      total_pages = content.total_pages;
      total_auctions = content.total_auctions;
      total_bin_auctions = content.total_bin_auctions;
      updated_at_epoch_ms = now_ms;
    });
    current_items = items;
  }

  -- By what the INSERT of the items leaves.
  unfoldable pub filled :
      ℕ
      → ℕ
      → ℕ
      → ℕ
      → Content floats
      → Database floats
      → Option (Dict Str (ItemRow floats))
      → Option (Database floats)
  unfolding current processed_once
  filled retention_days now_ms generated_at_epoch_ms day content db none = none
  filled retention_days now_ms generated_at_epoch_ms day content db (some items) =
      processed_once retention_days day now_ms content
        (lookup content.snapshot_last_updated db.processed)
        (current generated_at_epoch_ms now_ms content items db)

  -- By the day of the snapshot.
  unfoldable pub dated :
      ℕ → ℕ → ℕ → Content floats → Database floats → Option ℕ → Option (Database floats)
  unfolding filled insert_items
  dated retention_days now_ms generated_at_epoch_ms content db none = none
  dated retention_days now_ms generated_at_epoch_ms content db (some day) =
      filled retention_days now_ms generated_at_epoch_ms day content db (
        insert_items
          (item_rows floats sums content.auctioneer_uuids content.item_names content.items))

  -- `write_lowestbin_snapshot` for a snapshot generated in this millisecond, at the time `now_ms`.
  unfoldable pub write_lowestbin_snapshot :
      ℕ → ℕ → ℕ → Content floats → Database floats → Option (Database floats)
  unfolding dated
  write_lowestbin_snapshot retention_days now_ms generated_at_epoch_ms content db =
      dated retention_days now_ms generated_at_epoch_ms content db
        (snapshot_day_from_last_updated content.snapshot_last_updated)

  -- The dicts of the rows, in the order of ORDER BY.
  unfoldable pub read_content :
      RowOrder (ItemRow floats) → SnapshotRow → Dict Str (ItemRow floats) → Content floats
  read_content order row items =
      let ordered = order.ordered items in
      record {
        snapshot_last_updated = row.snapshot_last_updated;
        total_pages = row.total_pages;
        total_auctions = row.total_auctions;
        total_bin_auctions = row.total_bin_auctions;
        items = map (λ (item : Str × ItemRow floats). (item.0, item.1.price)) ordered;
        auctioneer_uuids =
            map (λ (item : Str × ItemRow floats). (item.0, item.1.auctioneer_uuid)) ordered;
        item_names = map (λ (item : Str × ItemRow floats). (item.0, item.1.item_name)) ordered;
      }

  unfoldable pub read_rows :
      RowOrder (ItemRow floats)
      → Option SnapshotRow
      → Dict Str (ItemRow floats)
      → Option (ℕ × Content floats)
  unfolding read_content
  read_rows order none items = none
  read_rows order (some row) items =
      some (row.generated_at_epoch_ms * 1000, read_content order row items)

  -- `read_lowestbin_snapshot`: the time in microseconds, and the content.
  unfoldable pub read_lowestbin_snapshot :
      RowOrder (ItemRow floats) → Database floats → Option (ℕ × Content floats)
  unfolding read_rows
  read_lowestbin_snapshot order db = read_rows order db.current_snapshot db.current_items
