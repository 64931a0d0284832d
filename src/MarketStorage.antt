-- ===== src/MarketStorage.antt =====
-- app/marketguard_api/storage.py: the tables of the Lowest BIN snapshot and of its daily history. A
-- day is a number of days since 1970, whose order is that of the ISO dates that the tables hold.
pub mod Insert
pub mod Rows
pub mod Write
pub mod Refill
pub mod Listed
pub mod History
pub mod Interface
pub mod Bazaar
use scam_screener_api.Base.{
  ℕ, ◌/◌, ◌≡◌, Str, str_eq, Bool, Option, none, some, ltb, ◌==◌, ◌||◌, if◌then◌else◌,
}
use scam_screener_api.Base.Dict.{Dict, lookup, NodupKeys}
use scam_screener_api.LowestBin.{Floats}

-- `math.isfinite(price) and price >= 0`, and the sum of two floats.
pub record Sums (floats : Floats) : Type 0 where
  pub is_storable : floats.Price → Bool
  pub add : floats.Price → floats.Price → floats.Price

-- ORDER BY the primary key of a table, a text, under the collation of the database: the rows in an
-- order that is not known here.
pub record RowOrder (Row : Type 0) : Type 0 where
  pub ordered : Dict Str Row → Dict Str Row
  pub ordered-NodupKeys : (rows : Dict Str Row) → NodupKeys rows → NodupKeys (ordered rows)
  pub lookup-ordered :
      (key : Str) (rows : Dict Str Row)
      → NodupKeys rows
      → lookup key (ordered rows) ≡ lookup key rows

-- The row of `marketguard_lowestbin_current_snapshot`.
pub record SnapshotRow : Type 0 where
  pub generated_at_epoch_ms : ℕ
  pub snapshot_last_updated : ℕ
  pub total_pages : ℕ
  pub total_auctions : ℕ
  pub total_bin_auctions : ℕ
  pub updated_at_epoch_ms : ℕ

-- The times of a row of `marketguard_processed_lowestbin_snapshots`.
pub record ProcessedRow : Type 0 where
  pub snapshot_day : ℕ
  pub processed_at_epoch_ms : ℕ

module _ (floats : Floats) where
  open floats use {Price}

  -- A row of `marketguard_lowestbin_current_items` behind its key.
  pub record ItemRow : Type 0 where
    pub price : Price
    pub auctioneer_uuid : Str
    pub item_name : Str

  -- A row of `marketguard_lowestbin_daily_aggregates` behind its item key and its day.
  pub record AggregateRow : Type 0 where
    pub price_sum : Price
    pub sample_count : ℕ

  -- The tables, by their primary keys.
  pub record Database : Type 0 where
    pub current_snapshot : Option SnapshotRow
    pub current_items : Dict Str ItemRow
    pub processed : Dict ℕ ProcessedRow
    pub aggregates : Dict (Str × ℕ) AggregateRow

  -- `LowestBinSnapshot` without its time and its mark, with the metadata that is stored with it.
  pub record Content : Type 0 where
    pub snapshot_last_updated : ℕ
    pub total_pages : ℕ
    pub total_auctions : ℕ
    pub total_bin_auctions : ℕ
    pub items : Dict Str Price
    pub auctioneer_uuids : Dict Str Str
    pub item_names : Dict Str Str

-- `snapshot_day_from_last_updated`: an error for 0 (which stands for all that is not positive) and
-- behind the year 9999.
unfoldable pub snapshot_day_from_last_updated : ℕ → Option ℕ
snapshot_day_from_last_updated last_updated =
    let day = last_updated / 86_400_000 in
    if last_updated == 0 || ltb 2_932_896 day then none else some day
