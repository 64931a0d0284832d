-- ===== src/Tests/MarketStorages.antt =====
-- A snapshot of two items written into empty tables, and again.
use scam_screener_api.Base.{
  ℕ, ◌+◌, ◌*◌, ◌≡◌, refl, Str, codes, str_beq, true, none, some, [], ◌∷◌, ltb, arith, str_eq,
  nat_eq,
}
use scam_screener_api.Base.Dict.{lookup, insert}
use scam_screener_api.Base.Text.{strip}
use scam_screener_api.Base.Sort.{sorted, by_key, lookup-sorted, sorted-NodupKeys}
use scam_screener_api.LowestBin.{Floats}
use scam_screener_api.LowestBin.Index.{parse_auctioneer_uuid, parse_item_name}
use scam_screener_api.MarketStorage.{
  Sums, RowOrder, ItemRow, Database, Content, snapshot_day_from_last_updated,
}
use scam_screener_api.MarketStorage.Rows.{item_rows, aggregate_rows, upsert_rows}
use scam_screener_api.MarketStorage.Write.{write_lowestbin_snapshot, read_lowestbin_snapshot}
use scam_screener_api.MarketStorage.Listed.{IsReadOf, read-write_lowestbin_snapshot}
use scam_screener_api.Base.Int.{pos}
use scam_screener_api.MarketStorage.Insert.{insert_items}
use scam_screener_api.MarketStorage.Bazaar.{
  Product, BazaarContent, BazaarTables, write_bazaar_snapshot, product_rows,
}
use scam_screener_api.MarketStorage.History.{
  IsRecorded, write_lowestbin_snapshot-IsRecorded, write-write_lowestbin_snapshot,
}
use scam_screener_api.MarketStorage.Interface.{IsRetained, write_lowestbin_snapshot-IsRetained}

abbrev prices : Floats
prices = record { Price = ℕ; lt = ltb }

abbrev sums : Sums prices
sums = record { is_storable = λ price. true; add = λ a b. a + b }

abbrev empty_tables : Database prices
empty_tables = record {
  current_snapshot = none;
  current_items = [];
  processed = [];
  aggregates = [];
}

abbrev seller : Str
seller = codes "0123456789abcdef0123456789abcdef"

-- A database that orders texts by their characters.
abbrev by_code_point : RowOrder (ItemRow prices)
by_code_point = record {
  ordered = sorted (by_key (λ (key : Str). key));
  ordered-NodupKeys = sorted-NodupKeys (λ (key : Str). key);
  lookup-ordered = lookup-sorted (λ (key : Str). key);
}

-- The second item has no seller: it counts in the history, but is not listed.
abbrev content : Content prices
content = record {
  snapshot_last_updated = 1_700_000_000_000;
  total_pages = 1;
  total_auctions = 2;
  total_bin_auctions = 2;
  items = (codes "ROD", 7) ∷ (codes "AXE", 5) ∷ [];
  auctioneer_uuids = (codes "ROD", seller) ∷ [];
  item_names = [];
}

-- The tables after the write.
abbrev filled_tables : Database prices
filled_tables = record {
  current_snapshot = some (record {
    generated_at_epoch_ms = 1_700_000_001_000;
    snapshot_last_updated = 1_700_000_000_000;
    total_pages = 1;
    total_auctions = 2;
    total_bin_auctions = 2;
    updated_at_epoch_ms = 1_700_000_002_000;
  });
  current_items =
      (codes "ROD", record { price = 7; auctioneer_uuid = seller; item_name = codes "ROD" }) ∷ [];
  processed =
      (
        1_700_000_000_000,
        record { snapshot_day = 19_675; processed_at_epoch_ms = 1_700_000_002_000 },
      )
      ∷ [];
  aggregates =
      ((codes "ROD", 19_675), record { price_sum = 7; sample_count = 1 })
      ∷ ((codes "AXE", 19_675), record { price_sum = 5; sample_count = 1 })
      ∷ [];
}

wrote :
    write_lowestbin_snapshot prices sums 45 1_700_000_002_000 1_700_000_001_000 content empty_tables
    ≡ some filled_tables
unfolding write_lowestbin_snapshot snapshot_day_from_last_updated item_rows strip
    parse_auctioneer_uuid lookup str_beq upsert_rows aggregate_rows parse_item_name insert
wrote = refl

wrote_again :
    write_lowestbin_snapshot prices sums 45 1_700_000_002_000 1_700_000_001_000 content
      filled_tables
    ≡ some filled_tables
unfolding write_lowestbin_snapshot snapshot_day_from_last_updated item_rows strip
    parse_auctioneer_uuid lookup str_beq parse_item_name
wrote_again = refl

read-write_lowestbin_snapshot_example :
    (was_read : Content prices) × (read_lowestbin_snapshot prices sums by_code_point filled_tables
      ≡ some (1_700_000_001_000 * 1000, was_read))
    × IsReadOf prices sums content was_read
read-write_lowestbin_snapshot_example =
    read-write_lowestbin_snapshot prices sums by_code_point 45 1_700_000_002_000 1_700_000_001_000
      content empty_tables filled_tables wrote

write_lowestbin_snapshot-IsRecorded_example :
    IsRecorded prices sums 45 1_700_000_002_000 1_700_000_001_000 content filled_tables
write_lowestbin_snapshot-IsRecorded_example =
    write_lowestbin_snapshot-IsRecorded prices sums 45 1_700_000_002_000 1_700_000_001_000 content
      empty_tables filled_tables tt wrote

write-write_lowestbin_snapshot_example :
    (filled_tables.aggregates ≡ filled_tables.aggregates)
    × (filled_tables.processed ≡ filled_tables.processed)
write-write_lowestbin_snapshot_example =
    write-write_lowestbin_snapshot prices sums 45 1_700_000_002_000 1_700_000_001_000
      1_700_000_002_000 1_700_000_001_000 content content empty_tables filled_tables filled_tables
      tt refl wrote wrote_again

dayed : snapshot_day_from_last_updated 1_700_000_000_000 ≡ some 19_675
unfolding snapshot_day_from_last_updated
dayed = refl

write_lowestbin_snapshot-IsRetained_example :
    IsRetained prices sums 45 1_700_000_002_000 1_700_000_001_000 19_675 content filled_tables
write_lowestbin_snapshot-IsRetained_example =
    write_lowestbin_snapshot-IsRetained prices sums 45 1_700_000_002_000 1_700_000_001_000 19_675
      content empty_tables filled_tables (omega arith) dayed (unfold lookup in refl) wrote

abbrev wheat : Product prices
wheat = record {
  item_name = codes "Wheat";
  buy = 3;
  sell = 2;
  spread = 1;
  spread_percentage = 50;
  buy_volume = pos 10;
  sell_volume = pos 20;
  buy_moving_week = pos 100;
  sell_moving_week = pos 200;
}

-- The second product has no readable data.
abbrev bazaar : BazaarContent prices
bazaar = record {
  snapshot_last_updated = 1_700_000_000_000;
  products = (codes "WHEAT", some wheat) ∷ (codes "CARROT", none) ∷ [];
}

abbrev no_bazaar : BazaarTables prices
no_bazaar = record { current_bazaar = none; current_products = [] }

abbrev wheat_only : BazaarTables prices
wheat_only = record {
  current_bazaar = some (record {
    generated_at_epoch_ms = 1_700_000_001_000;
    snapshot_last_updated = 1_700_000_000_000;
    updated_at_epoch_ms = 1_700_000_002_000;
  });
  current_products = (codes "WHEAT", wheat) ∷ [];
}

bazaar_wrote :
    write_bazaar_snapshot prices 1_700_000_002_000 1_700_000_001_000 bazaar no_bazaar
    ≡ some wheat_only
unfolding write_bazaar_snapshot product_rows strip parse_item_name str_beq lookup insert_items
bazaar_wrote = refl
