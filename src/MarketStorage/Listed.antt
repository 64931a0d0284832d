-- ===== src/MarketStorage/Listed.antt =====
-- Which rows of a snapshot are stored and read, told from its dicts.
use mathlib.Core.Option.{none-ne-some, some-injective}
use scam_screener_api.Base.{
  ℕ, ◌*◌, ◌≤◌, ◌≡◌, refl, sym, ap, ◌∙◌, subst, Str, str_eq, str_beq, str_beq_iff, true, Option,
  none, some, [], ◌∷◌, map, length, take, ◌⊎◌, ◌↔◌, inl, inr, Bool-cases, arith,
}
use scam_screener_api.Base.Dict.{Dict, lookup, NodupKeys}
use scam_screener_api.Base.Text.{strip}
use scam_screener_api.LowestBin.{Floats}
use scam_screener_api.LowestBin.Index.{parse_auctioneer_uuid, parse_item_name}
use scam_screener_api.MarketStorage.{Sums, RowOrder, ItemRow, Database, Content}
use scam_screener_api.MarketStorage.Rows.{text_of, checked_row, keep_row, item_rows}
use scam_screener_api.MarketStorage.Refill.{kept_content, read-kept_content, written-NodupKeys}
use scam_screener_api.MarketStorage.Write.{write_lowestbin_snapshot, read_lowestbin_snapshot}

-- The text of a key, which is empty for a key that is missing.
abbrev pub IsTextOf : Str → Dict Str Str → Str → Type 0
IsTextOf key texts s = (lookup key texts ≡ some s) ⊎ ((lookup key texts ≡ none) × (s ≡ []))

text_of-IsTextOf : (key : Str) (texts : Dict Str Str) → IsTextOf key texts (text_of key texts)
unfolding text_of
text_of-IsTextOf key texts =
    elim (lookup key texts)
        as (λ found.
          (lookup key texts ≡ found) → IsTextOf key texts (elim found [ none ↦ [] | some s ↦ s ])) [
            | none ↦ λ e. inr (e, refl)
            | some s ↦ λ e. inl e
          ]
      refl

text_of-eq :
    (key : Str) (texts : Dict Str Str) (s : Str) → IsTextOf key texts s → text_of key texts ≡ s
unfolding text_of
text_of-eq key texts s (inl e) = rw (text_of, e) refl
text_of-eq key texts s (inr (e, empty)) = rw (text_of, e) (sym empty)

-- A row that is kept in front of others is found under its key, where the keys differ.
module _ (floats : Floats) (sums : Sums floats) {Row : Type 0} where
  lookup-keep_row :
      (key : Str) (row : Row) (kept : Option (Str × Row)) (rows : Dict Str Row)
      → lookup key (keep_row floats sums kept rows) ≡ some row
      → (kept ≡ some (key, row)) ⊎ (lookup key rows ≡ some row)
  unfolding keep_row lookup
  lookup-keep_row key row none rows e = inr e
  lookup-keep_row key row (some (k, r)) rows e = elim (Bool-cases (str_beq key k)) [
    | inl same ↦ inl (ground (arith, str_beq_iff key k))
    | inr other ↦ inr (rw other at e)
  ]

  keep_row-lookup :
      (key : Str) (row : Row) (kept : Option (Str × Row)) (rows : Dict Str Row)
      → NodupKeys (keep_row floats sums kept rows)
      → (kept ≡ some (key, row)) ⊎ (lookup key rows ≡ some row)
      → lookup key (keep_row floats sums kept rows) ≡ some row
  unfolding keep_row lookup
  keep_row-lookup key row none rows u (inl e) = absurd (none-ne-some _ e)
  keep_row-lookup key row none rows u (inr e) = e
  keep_row-lookup key row (some (k, r)) rows u h = ground (arith, str_beq_iff key k)

  tail-NodupKeys :
      (kept : Option (Str × Row)) (rows : Dict Str Row)
      → NodupKeys (keep_row floats sums kept rows)
      → NodupKeys rows
  unfolding keep_row
  tail-NodupKeys none rows u = u
  tail-NodupKeys (some (k, r)) rows u = u.1

module _ (floats : Floats) (sums : Sums floats) where
  open floats use {Price}
  open sums use {is_storable}

  -- The dict has this price under this key.
  abbrev pub Holds : Str → Price → Dict Str Price → Type 0
  Holds key price [] = ⊥
  Holds key price ((k, p) ∷ items) = ((key ≡ k) × (price ≡ p)) ⊎ Holds key price items

  -- A row that comes from this key and price: its own key is stripped and not empty, its price
  -- storable, its seller parsed, and its name at most 255 characters.
  abbrev pub IsRowOf : Dict Str Str → Dict Str Str → Str → Str → ItemRow floats → Type 0
  IsRowOf auctioneer_uuids item_names k key row =
      (key ≡ strip k)
      × (1 ≤ length key)
      × (is_storable row.price ≡ true)
      × ((s : Str) × IsTextOf k auctioneer_uuids s
          × (parse_auctioneer_uuid s ≡ some row.auctioneer_uuid))
      × ((n : Str) × IsTextOf k item_names n × (row.item_name ≡ take 255 (parse_item_name n key)))

  abbrev pub IsListed : Dict Str Str → Dict Str Str → Dict Str Price → Str → ItemRow floats → Type 0
  IsListed auctioneer_uuids item_names items key row =
      (k : Str) × Holds k row.price items × IsRowOf auctioneer_uuids item_names k key row

  checked_row-IsRowOf :
      (auctioneer_uuids item_names : Dict Str Str) (k key' : Str) (uuid : Option Str) (name : Str)
      (price : Price) (key : Str) (row : ItemRow floats)
      → key' ≡ strip k
      → uuid ≡ parse_auctioneer_uuid (text_of k auctioneer_uuids)
      → name ≡ text_of k item_names
      → checked_row floats sums key' uuid name price ≡ some (key, row)
      → (row.price ≡ price) × IsRowOf auctioneer_uuids item_names k key row
  unfolding checked_row
  checked_row-IsRowOf us ns k [] uuid name price key row e e' e'' h = absurd (none-ne-some _ h)
  checked_row-IsRowOf us ns k (c ∷ s) none name price key row e e' e'' h = absurd (none-ne-some _ h)
  checked_row-IsRowOf us ns k (c ∷ s) (some uuid) name price key row e e' e'' h =
      elim (Bool-cases (is_storable price)) [
        | inl storable ↦
            (let made : ItemRow floats = record {
              price = price;
              auctioneer_uuid = uuid;
              item_name = take 255 (parse_item_name name (c ∷ s));
            } in
              let held : (made.price ≡ price) × IsRowOf us ns k (c ∷ s) made = (
                refl,
                (
                  e,
                  omega arith,
                  storable,
                  (text_of k us, text_of-IsTextOf k us, sym e'),
                  (
                    text_of k ns,
                    text_of-IsTextOf k ns,
                    ap (λ n. take 255 (parse_item_name n (c ∷ s))) e'',
                  ),
                ),
              ) in
              let found : Str × ItemRow floats = (c ∷ s, made) in
              let same : found ≡ (key, row) = some-injective _ _ (rw storable at h) in
              subst
                (λ (item : Str × ItemRow floats).
                  (item.1.price ≡ price) × IsRowOf us ns k item.0 item.1)
                same held)
        | inr not_storable ↦ absurd (none-ne-some _ (rw not_storable at h))
      ]

  checked_row-kept :
      (name key : Str) (row : ItemRow floats)
      → 1 ≤ length key
      → is_storable row.price ≡ true
      → row.item_name ≡ take 255 (parse_item_name name key)
      → checked_row floats sums key (some row.auctioneer_uuid) name row.price ≡ some (key, row)
  unfolding checked_row
  checked_row-kept name [] row long storable named = absurd (omega arith)
  checked_row-kept name (c ∷ s) row long storable named =
      rw storable (ap (λ n. some (c ∷ s, record row { item_name = n })) (sym named))

  IsRowOf-checked_row :
      (auctioneer_uuids item_names : Dict Str Str) (k key : Str) (row : ItemRow floats)
      → IsRowOf auctioneer_uuids item_names k key row
      → checked_row floats sums
          (strip k)
          (parse_auctioneer_uuid (text_of k auctioneer_uuids))
          (text_of k item_names)
          row.price
        ≡ some (key, row)
  unfolding checked_row
  IsRowOf-checked_row us ns k key row
        (stripped, long, storable, (s, is_s, parsed), (n, is_n, named)) =
      rw (sym stripped, text_of-eq k us s is_s, text_of-eq k ns n is_n, parsed)
        (checked_row-kept n key row long storable named)

  item_rows-IsListed :
      (auctioneer_uuids item_names : Dict Str Str) (items : Dict Str Price) (key : Str)
      (row : ItemRow floats)
      → lookup key (item_rows floats sums auctioneer_uuids item_names items) ≡ some row
      → IsListed auctioneer_uuids item_names items key row
  unfolding item_rows lookup
  item_rows-IsListed us ns [] key row e = absurd (none-ne-some row e)
  item_rows-IsListed us ns ((k, price) ∷ items) key row e =
      elim (lookup-keep_row floats sums key row _ (item_rows floats sums us ns items) e) [
        | inl first ↦
            (let is = checked_row-IsRowOf us ns k _ _ _ price key row refl refl refl first in
              (k, inl (refl, is.0), is.1))
        | inr later ↦
            (let is = item_rows-IsListed us ns items key row later in (is.0, inr is.1, is.2))
      ]

  IsListed-item_rows :
      (auctioneer_uuids item_names : Dict Str Str) (items : Dict Str Price) (key : Str)
      (row : ItemRow floats)
      → NodupKeys (item_rows floats sums auctioneer_uuids item_names items)
      → IsListed auctioneer_uuids item_names items key row
      → lookup key (item_rows floats sums auctioneer_uuids item_names items) ≡ some row
  unfolding item_rows
  IsListed-item_rows us ns [] key row u (k, there, is) = absurd there
  IsListed-item_rows us ns ((k, price) ∷ items) key row u (k', inl (same, cost), is) =
      keep_row-lookup floats sums key row _ (item_rows floats sums us ns items) u
        (inl (rw (sym same, sym cost) (IsRowOf-checked_row us ns k' key row is)))
  IsListed-item_rows us ns ((k, price) ∷ items) key row u (k', inr there, is) =
      keep_row-lookup floats sums key row _ (item_rows floats sums us ns items) u (
        inr (
          IsListed-item_rows us ns items key row
            (tail-NodupKeys floats sums _ (item_rows floats sums us ns items) u) (k', there, is)))

  -- What is read behind a write of this content: its totals, and dicts made of rows with different
  -- keys, which are the rows that come from an item of the content, and no others.
  abbrev pub IsReadOf : Content floats → Content floats → Type 0
  IsReadOf content was_read =
      (rows : Dict Str (ItemRow floats)) × (was_read ≡ record content {
        items = map (λ (item : Str × ItemRow floats). (item.0, item.1.price)) rows;
        auctioneer_uuids =
            map (λ (item : Str × ItemRow floats). (item.0, item.1.auctioneer_uuid)) rows;
        item_names = map (λ (item : Str × ItemRow floats). (item.0, item.1.item_name)) rows;
      })
      × NodupKeys rows
      × ((key : Str) (row : ItemRow floats)
          → (lookup key rows ≡ some row)
            ↔ IsListed content.auctioneer_uuids content.item_names content.items key row)

  kept_content-IsReadOf :
      (order : RowOrder (ItemRow floats)) (content : Content floats)
      → NodupKeys (item_rows floats sums content.auctioneer_uuids content.item_names content.items)
      → IsReadOf content (kept_content floats sums order content)
  kept_content-IsReadOf order content u =
      let rows = item_rows floats sums content.auctioneer_uuids content.item_names content.items in
      (
        order.ordered rows,
        refl,
        order.ordered-NodupKeys rows u,
        λ key row. (
          λ e.
              item_rows-IsListed content.auctioneer_uuids content.item_names content.items key row
                (sym (order.lookup-ordered key rows u) ∙ e),
          λ listed.
              order.lookup-ordered key rows u
              ∙ IsListed-item_rows content.auctioneer_uuids content.item_names content.items key row
                  u listed,
        ),
      )

  -- A snapshot that was written is read, whatever was stored before and however the database orders
  -- its rows: its time in milliseconds, its totals, and exactly the rows that come from an item of
  -- the snapshot, once each: under the stripped key, where that is not empty, the price, where it
  -- is storable, the seller, where its text is one, and the first 255 characters of the name.
  pub read-write_lowestbin_snapshot :
      (order : RowOrder (ItemRow floats)) (retention_days now_ms generated_at_epoch_ms : ℕ)
      (content : Content floats) (db after : Database floats)
      → write_lowestbin_snapshot floats sums retention_days now_ms generated_at_epoch_ms content db
        ≡ some after
      → (was_read : Content floats) × (read_lowestbin_snapshot floats sums order after
          ≡ some (generated_at_epoch_ms * 1000, was_read))
        × IsReadOf content was_read
  read-write_lowestbin_snapshot order retention_days now_ms generated_at_epoch_ms content db after
        e =
      (
        kept_content floats sums order content,
        read-kept_content floats sums order retention_days now_ms generated_at_epoch_ms content db
            after e,
        kept_content-IsReadOf order content (
            written-NodupKeys floats sums retention_days now_ms generated_at_epoch_ms content db
              after e),
      )
