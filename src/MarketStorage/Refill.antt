-- ===== src/MarketStorage/Refill.antt =====
-- What a write leaves to be read: all the rows of the snapshot, whatever was stored before.
use mathlib.Core.Option.{none-ne-some, some-injective}
use scam_screener_api.Base.{
  ℕ, ◌*◌, ◌≡◌, refl, sym, ap, Str, str_eq, nat_eq, Option, none, some, map,
}
use scam_screener_api.Base.Dict.{Dict, NodupKeys}
use scam_screener_api.LowestBin.{Floats}
use scam_screener_api.MarketStorage.{
  Sums, RowOrder, ProcessedRow, ItemRow, AggregateRow, Database, Content,
}
use scam_screener_api.MarketStorage.Insert.{insert_items-eq, insert_items-NodupKeys}
use scam_screener_api.MarketStorage.Rows.{item_rows}
use scam_screener_api.MarketStorage.Write.{
  pruned, with_aggregates, aggregated, filled, dated, processed_once, current,
  write_lowestbin_snapshot, read_content, read_rows, read_lowestbin_snapshot,
}

module _ (floats : Floats) (sums : Sums floats) where
  open floats use {Price}

  -- The current snapshot and its items are the same in both.
  abbrev SameCurrent : Database floats → Database floats → Type 0
  SameCurrent db after =
      (after.current_snapshot ≡ db.current_snapshot) × (after.current_items ≡ db.current_items)

  with_aggregates-SameCurrent :
      (retention_days day now_ms : ℕ) (content : Content floats) (db after : Database floats)
      (aggregates : Option (Dict (Str × ℕ) (AggregateRow floats)))
      → with_aggregates floats sums retention_days day now_ms content db aggregates ≡ some after
      → SameCurrent db after
  unfolding with_aggregates pruned
  with_aggregates-SameCurrent retention_days day now_ms content db after none e =
      absurd (none-ne-some after e)
  with_aggregates-SameCurrent retention_days day now_ms content db after (some aggregates) e =
      let same = sym (some-injective _ after e) in
      (
        ap (λ (d : Database floats). d.current_snapshot) same,
        ap (λ (d : Database floats). d.current_items) same,
      )

  processed_once-SameCurrent :
      (retention_days day now_ms : ℕ) (content : Content floats) (there : Option ProcessedRow)
      (db after : Database floats)
      → processed_once floats sums retention_days day now_ms content there db ≡ some after
      → SameCurrent db after
  unfolding processed_once aggregated
  processed_once-SameCurrent retention_days day now_ms content none db after e =
      with_aggregates-SameCurrent retention_days day now_ms content db after _ e
  processed_once-SameCurrent retention_days day now_ms content (some row) db after e =
      let same = sym (some-injective db after e) in
      (
        ap (λ (d : Database floats). d.current_snapshot) same,
        ap (λ (d : Database floats). d.current_items) same,
      )

  -- The content with the rows that are stored of it, in the order of ORDER BY.
  abbrev pub kept_content : RowOrder (ItemRow floats) → Content floats → Content floats
  kept_content order content =
      let ordered =
        order.ordered
          (item_rows floats sums content.auctioneer_uuids content.item_names content.items) in
      record content {
        items = map (λ (item : Str × ItemRow floats). (item.0, item.1.price)) ordered;
        auctioneer_uuids =
            map (λ (item : Str × ItemRow floats). (item.0, item.1.auctioneer_uuid)) ordered;
        item_names = map (λ (item : Str × ItemRow floats). (item.0, item.1.item_name)) ordered;
      }

  filled-read :
      (order : RowOrder (ItemRow floats)) (retention_days now_ms generated_at_epoch_ms day : ℕ)
      (content : Content floats) (db after : Database floats)
      (items : Option (Dict Str (ItemRow floats)))
      → ((left : Dict Str (ItemRow floats))
          → items ≡ some left
          → left ≡ item_rows floats sums content.auctioneer_uuids content.item_names content.items)
      → filled floats sums retention_days now_ms generated_at_epoch_ms day content db items
        ≡ some after
      → read_lowestbin_snapshot floats sums order after
        ≡ some (generated_at_epoch_ms * 1000, kept_content order content)
  unfolding filled current read_lowestbin_snapshot read_rows read_content
  filled-read order retention_days now_ms generated_at_epoch_ms day content db after none all e =
      absurd (none-ne-some after e)
  filled-read order retention_days now_ms generated_at_epoch_ms day content db after (some items)
        all e =
      let same = processed_once-SameCurrent retention_days day now_ms content _ _ after e in
      rw (same.0, same.1, all items refl) refl

  dated-read :
      (order : RowOrder (ItemRow floats)) (retention_days now_ms generated_at_epoch_ms : ℕ)
      (content : Content floats) (db after : Database floats) (day : Option ℕ)
      → dated floats sums retention_days now_ms generated_at_epoch_ms content db day ≡ some after
      → read_lowestbin_snapshot floats sums order after
        ≡ some (generated_at_epoch_ms * 1000, kept_content order content)
  unfolding dated
  dated-read order retention_days now_ms generated_at_epoch_ms content db after none e =
      absurd (none-ne-some after e)
  dated-read order retention_days now_ms generated_at_epoch_ms content db after (some day) e =
      filled-read order retention_days now_ms generated_at_epoch_ms day content db after _
        (insert_items-eq _) e

  -- A snapshot that was written is read, whatever was stored before.
  pub read-kept_content :
      (order : RowOrder (ItemRow floats)) (retention_days now_ms generated_at_epoch_ms : ℕ)
      (content : Content floats) (db after : Database floats)
      → write_lowestbin_snapshot floats sums retention_days now_ms generated_at_epoch_ms content db
        ≡ some after
      → read_lowestbin_snapshot floats sums order after
        ≡ some (generated_at_epoch_ms * 1000, kept_content order content)
  unfolding write_lowestbin_snapshot
  read-kept_content order retention_days now_ms generated_at_epoch_ms content db after e =
      dated-read order retention_days now_ms generated_at_epoch_ms content db after _ e

  filled-inserted :
      (retention_days now_ms generated_at_epoch_ms day : ℕ) (content : Content floats)
      (db after : Database floats) (items : Option (Dict Str (ItemRow floats)))
      → filled floats sums retention_days now_ms generated_at_epoch_ms day content db items
        ≡ some after
      → (left : Dict Str (ItemRow floats)) × (items ≡ some left)
  unfolding filled
  filled-inserted retention_days now_ms generated_at_epoch_ms day content db after none e =
      absurd (none-ne-some after e)
  filled-inserted retention_days now_ms generated_at_epoch_ms day content db after (some left) e =
      (left, refl)

  dated-inserted :
      (retention_days now_ms generated_at_epoch_ms : ℕ) (content : Content floats)
      (db after : Database floats) (day : Option ℕ)
      → dated floats sums retention_days now_ms generated_at_epoch_ms content db day ≡ some after
      → NodupKeys (item_rows floats sums content.auctioneer_uuids content.item_names content.items)
  unfolding dated
  dated-inserted retention_days now_ms generated_at_epoch_ms content db after none e =
      absurd (none-ne-some after e)
  dated-inserted retention_days now_ms generated_at_epoch_ms content db after (some day) e =
      let inserted =
        filled-inserted retention_days now_ms generated_at_epoch_ms day content db after _ e in
      insert_items-NodupKeys _ inserted.0 inserted.1

  -- Where a snapshot is written, its rows have different keys.
  pub written-NodupKeys :
      (retention_days now_ms generated_at_epoch_ms : ℕ) (content : Content floats)
      (db after : Database floats)
      → write_lowestbin_snapshot floats sums retention_days now_ms generated_at_epoch_ms content db
        ≡ some after
      → NodupKeys (item_rows floats sums content.auctioneer_uuids content.item_names content.items)
  unfolding write_lowestbin_snapshot
  written-NodupKeys retention_days now_ms generated_at_epoch_ms content db after e =
      dated-inserted retention_days now_ms generated_at_epoch_ms content db after _ e
