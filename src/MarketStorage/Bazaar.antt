-- ===== src/MarketStorage/Bazaar.antt =====
-- `write_bazaar_snapshot` and `read_bazaar_snapshot`.
use mathlib.Core.Option.{none-ne-some, some-injective}
use scam_screener_api.Base.{
  ℕ, ◌*◌, ◌≡◌, refl, sym, Str, Option, none, some, List, [], ◌∷◌, take, map,
}
use scam_screener_api.Base.Dict.{Dict}
use scam_screener_api.Base.Int.{ℤ}
use scam_screener_api.Base.Text.{strip}
use scam_screener_api.MarketStorage.{RowOrder}
use scam_screener_api.LowestBin.{Floats}
use scam_screener_api.LowestBin.Index.{parse_item_name}
use scam_screener_api.MarketStorage.Insert.{insert_items, insert_items-eq}

module _ (floats : Floats) where
  open floats use {Price}

  -- The data of a product, and its row behind the product id.
  pub record Product : Type 0 where
    pub item_name : Str
    pub buy : Price
    pub sell : Price
    pub spread : Price
    pub spread_percentage : Price
    pub buy_volume : ℤ
    pub sell_volume : ℤ
    pub buy_moving_week : ℤ
    pub sell_moving_week : ℤ

  -- The row of `marketguard_bazaar_current_snapshot`.
  pub record BazaarRow : Type 0 where
    pub generated_at_epoch_ms : ℕ
    pub snapshot_last_updated : ℕ
    pub updated_at_epoch_ms : ℕ

  pub record BazaarTables : Type 0 where
    pub current_bazaar : Option BazaarRow
    pub current_products : Dict Str Product

  -- `BazaarSnapshot` without its time; a product is `none` where reading its data raises.
  pub record BazaarContent : Type 0 where
    pub snapshot_last_updated : ℕ
    pub products : Dict Str (Option Product)

  -- The guards of the loop, by the normalized id, ahead of the later products.
  unfoldable pub keep_product : Str → Option Product → List (Str × Product) → List (Str × Product)
  keep_product [] product rows = rows
  keep_product (c ∷ product_id) none rows = rows
  keep_product (c ∷ product_id) (some product) rows =
      (
        c ∷ product_id,
        record product {
          item_name = take 255 (parse_item_name product.item_name (c ∷ product_id));
        },
      )
      ∷ rows

  unfoldable pub product_rows : Dict Str (Option Product) → List (Str × Product)
  unfolding keep_product
  product_rows [] = []
  product_rows ((product_id, product) ∷ products) =
      keep_product (strip product_id) product (product_rows products)

  -- By what the INSERT of the products leaves.
  unfoldable pub with_products : BazaarRow → Option (Dict Str Product) → Option BazaarTables
  with_products row none = none
  with_products row (some products) =
      some (record { current_bazaar = some row; current_products = products })

  -- `write_bazaar_snapshot`: both tables are replaced.
  unfoldable pub write_bazaar_snapshot : ℕ → ℕ → BazaarContent → BazaarTables → Option BazaarTables
  unfolding with_products product_rows
  write_bazaar_snapshot now_ms generated_at_epoch_ms content tables =
      with_products
        (record {
          generated_at_epoch_ms = generated_at_epoch_ms;
          snapshot_last_updated = content.snapshot_last_updated;
          updated_at_epoch_ms = now_ms;
        })
        (insert_items (product_rows content.products))

  -- A product that is read: its name, or its id where that is blank.
  unfoldable pub read_product : Str × Product → Str × Option Product
  read_product (product_id, product) = (
    product_id,
    some (record product { item_name = parse_item_name product.item_name product_id }),
  )

  -- In the order of ORDER BY.
  unfoldable pub read_products :
      RowOrder Product → Option BazaarRow → Dict Str Product → Option (ℕ × BazaarContent)
  unfolding read_product
  read_products order none products = none
  read_products order (some row) products = some (
    row.generated_at_epoch_ms * 1000,
    record {
      snapshot_last_updated = row.snapshot_last_updated;
      products = map read_product (order.ordered products);
    },
  )

  -- `read_bazaar_snapshot`: the time in microseconds, and the content.
  unfoldable pub read_bazaar_snapshot : RowOrder Product → BazaarTables → Option (ℕ × BazaarContent)
  unfolding read_products
  read_bazaar_snapshot order tables =
      read_products order tables.current_bazaar tables.current_products

  -- The content with the products that have an id and data, in the order of ORDER BY.
  abbrev pub kept_products : RowOrder Product → BazaarContent → BazaarContent
  kept_products order content = record content {
    products = map read_product (order.ordered (product_rows content.products));
  }

  with_products-read :
      (order : RowOrder Product) (row : BazaarRow) (rows : List (Str × Product))
      (products : Option (Dict Str Product)) (after : BazaarTables)
      → ((left : Dict Str Product) → products ≡ some left → left ≡ rows)
      → with_products row products ≡ some after
      → read_bazaar_snapshot order after
        ≡ some (
          row.generated_at_epoch_ms * 1000,
          record {
            snapshot_last_updated = row.snapshot_last_updated;
            products = map read_product (order.ordered rows);
          },
        )
  unfolding with_products read_bazaar_snapshot read_products
  with_products-read order row rows none after all e = absurd (none-ne-some after e)
  with_products-read order row rows (some products) after all e =
      rw (sym (some-injective _ after e), all products refl) refl

  -- A bazaar that was written is read, whatever was stored before: its time in milliseconds, and
  -- all products with an id and readable data, in the order of ORDER BY.
  pub read-write_bazaar_snapshot :
      (order : RowOrder Product) (now_ms generated_at_epoch_ms : ℕ) (content : BazaarContent)
      (tables after : BazaarTables)
      → write_bazaar_snapshot now_ms generated_at_epoch_ms content tables ≡ some after
      → read_bazaar_snapshot order after
        ≡ some (generated_at_epoch_ms * 1000, kept_products order content)
  unfolding write_bazaar_snapshot
  read-write_bazaar_snapshot order now_ms generated_at_epoch_ms content tables after e =
      with_products-read order _ (product_rows content.products) _ after (insert_items-eq _) e
