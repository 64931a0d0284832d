-- ===== src/MarketStorage/Rows.antt =====
-- The rows that a snapshot leaves, and the statements that insert them.
use scam_screener_api.Base.{
  ℕ, ◌+◌, Str, str_eq, nat_eq, pair_eq, Option, none, some, List, [], ◌∷◌, length, take, ltb,
  if◌then◌else◌,
}
use scam_screener_api.Base.Dict.{Dict, lookup, insert}
use scam_screener_api.Base.Text.{strip}
use scam_screener_api.LowestBin.{Floats}
use scam_screener_api.LowestBin.Index.{parse_auctioneer_uuid, parse_item_name}
use scam_screener_api.MarketStorage.{Sums, ItemRow, AggregateRow}

-- `str(texts.get(key, "") or "")`
unfoldable pub text_of : Str → Dict Str Str → Str
text_of key texts = elim (lookup key texts) [ none ↦ [] | some s ↦ s ]

module _ (floats : Floats) (sums : Sums floats) where
  open floats use {Price}
  open sums use {is_storable, add}

  -- The guards of the loop, by the normalized key and the parsed seller.
  unfoldable pub checked_row : Str → Option Str → Str → Price → Option (Str × ItemRow floats)
  checked_row [] uuid name price = none
  checked_row (c ∷ key) none name price = none
  checked_row (c ∷ key) (some uuid) name price =
      if is_storable price
      then some (
        c ∷ key,
        record {
          price = price;
          auctioneer_uuid = uuid;
          item_name = take 255 (parse_item_name name (c ∷ key));
        },
      )
      else none

  unfoldable pub keep_row {ℓ} : {A : Type ℓ} → Option A → List A → List A
  keep_row none rows = rows
  keep_row (some row) rows = row ∷ rows

  -- The rows of the current items.
  unfoldable pub item_rows :
      Dict Str Str → Dict Str Str → Dict Str Price → List (Str × ItemRow floats)
  unfolding checked_row keep_row text_of
  item_rows auctioneer_uuids item_names [] = []
  item_rows auctioneer_uuids item_names ((key, price) ∷ items) =
      keep_row
        (checked_row (strip key) (parse_auctioneer_uuid (text_of key auctioneer_uuids))
          (text_of key item_names) price)
        (item_rows auctioneer_uuids item_names items)

  unfoldable pub aggregate_row : ℕ → Str → Price → Option ((Str × ℕ) × AggregateRow floats)
  aggregate_row day [] price = none
  aggregate_row day (c ∷ key) price =
      if is_storable price
      then some ((c ∷ key, day), record { price_sum = price; sample_count = 1 })
      else none

  -- `_aggregate_rows_for_snapshot`
  unfoldable pub aggregate_rows : ℕ → Dict Str Price → List ((Str × ℕ) × AggregateRow floats)
  unfolding aggregate_row keep_row
  aggregate_rows day [] = []
  aggregate_rows day ((key, price) ∷ items) =
      keep_row (aggregate_row day (strip key) price) (aggregate_rows day items)

  -- INSERT with ON DUPLICATE KEY UPDATE of the sums.
  unfoldable pub add_row : AggregateRow floats → Option (AggregateRow floats) → AggregateRow floats
  add_row row none = row
  add_row row (some there) = record {
    price_sum = add there.price_sum row.price_sum;
    sample_count = there.sample_count + row.sample_count;
  }

  unfoldable pub upsert_rows :
      List ((Str × ℕ) × AggregateRow floats)
      → Dict (Str × ℕ) (AggregateRow floats)
      → Option (Dict (Str × ℕ) (AggregateRow floats))
  unfolding add_row
  upsert_rows [] table = some table
  upsert_rows (((key, day), row) ∷ rows) table =
      let rest =
        upsert_rows rows (insert (key, day) (add_row row (lookup (key, day) table)) table) in
      if ltb 191 (length key) then none else rest
