-- ===== src/LowestBin/Index.antt =====
-- `fold_auctions_into_index`, `LowestBinIndexBuilder` and the parsers of their fields.
use scam_screener_api.Base.{
  ℕ, ◌+◌, Str, Bool, true, Option, none, some, List, [], ◌∷◌, map, length, if◌then◌else◌, ◌==◌,
  ◌&&◌, str_eq, str_beq,
}
use scam_screener_api.Base.Dict.{Dict, lookup, insert}
use scam_screener_api.Base.Text.{strip, ascii_lower, all_hex}
use scam_screener_api.Base.Sort.{sorted}
use scam_screener_api.LowestBin.{Floats}

-- `_parse_auctioneer_uuid`, from `str(value or "")`. Beyond A to Z no character has a lower case
-- that is a hexadecimal digit, so the others may as well be kept.
unfoldable pub parse_auctioneer_uuid : Str → Option Str
unfolding strip ascii_lower all_hex
parse_auctioneer_uuid value =
    let parsed = map ascii_lower (strip value) in
    if length parsed == 32 && all_hex parsed then some parsed else none

-- `_parse_item_name`
unfoldable pub parse_item_name : Str → Str → Str
unfolding strip
parse_item_name value fallback =
    let parsed = strip value in if str_beq parsed [] then fallback else parsed

module _ (floats : Floats) where
  open floats use {Price, lt}

  pub record ResolvedAuctionItem : Type 0 where
    pub keys : List Str
    pub unit_price : Price

  -- The fields of an auction that the index reads: whether `bin` is `True`, and `str(value or "")`
  -- of the seller and of the name; `item` is what the item is resolved from.
  pub record Auction (Item : Type 0) : Type 0 where
    pub bin : Bool
    pub item : Item
    pub auctioneer : Str
    pub item_name : Str

  pub record LowestBinIndexBuilder : Type 0 where
    pub lowest_bins : Dict Str Price
    pub auctioneer_uuids : Dict Str Str
    pub item_names : Dict Str Str
    pub total_bin_auctions : ℕ

  unfoldable pub reset : LowestBinIndexBuilder
  reset = record {
    lowest_bins = [];
    auctioneer_uuids = [];
    item_names = [];
    total_bin_auctions = 0;
  }

  -- `current_lowest is None or unit_price < current_lowest`
  unfoldable pub undercuts : Price → Option Price → Bool
  undercuts price none = true
  undercuts price (some current_lowest) = lt price current_lowest

  -- The body of the loop over the keys of an auction.
  unfoldable pub add_key : Price → Str → Str → Str → LowestBinIndexBuilder → LowestBinIndexBuilder
  add_key price uuid name key b =
      if undercuts price (lookup key b.lowest_bins)
      then record b {
        lowest_bins = insert key price b.lowest_bins;
        auctioneer_uuids = insert key uuid b.auctioneer_uuids;
        item_names = insert key (parse_item_name name key) b.item_names;
      }
      else b

  unfoldable pub add_keys :
      Price → Str → Str → List Str → LowestBinIndexBuilder → LowestBinIndexBuilder
  unfolding add_key
  add_keys price uuid name [] b = b
  add_keys price uuid name (key ∷ keys) b =
      add_keys price uuid name keys (add_key price uuid name key b)

  -- `accumulator.total_bin_auctions += page_bin_auctions`
  abbrev pub add_total : LowestBinIndexBuilder × ℕ → LowestBinIndexBuilder
  add_total (b, page_bin_auctions) = record b {
    total_bin_auctions = b.total_bin_auctions + page_bin_auctions;
  }

  -- `build`, with `lower` for `str.lower`.
  pub record LowestBinIndex : Type 0 where
    pub lowest_bins : Dict Str Price
    pub auctioneer_uuids : Dict Str Str
    pub item_names : Dict Str Str
    pub total_bin_auctions : ℕ

  unfoldable pub build : (Str → Str) → LowestBinIndexBuilder → LowestBinIndex
  build lower b = record {
    lowest_bins = sorted (λ (item : Str × Price). lower item.0) b.lowest_bins;
    auctioneer_uuids = b.auctioneer_uuids;
    item_names = b.item_names;
    total_bin_auctions = b.total_bin_auctions;
  }

  -- `resolve_auction_item`, seen through the item.
  module _ {Item : Type 0} (resolve : Item → Option ResolvedAuctionItem) where
    -- The guards of the loop: the resolved item and the seller of an auction that counts.
    unfoldable pub both :
        Option ResolvedAuctionItem → Option Str → Option (ResolvedAuctionItem × Str)
    both none uuid = none
    both (some item) none = none
    both (some item) (some uuid) = some (item, uuid)

    unfoldable pub counted : Auction Item → Option (ResolvedAuctionItem × Str)
    unfolding both
    counted auction =
        if auction.bin
        then both (resolve auction.item) (parse_auctioneer_uuid auction.auctioneer)
        else none

    unfoldable pub add_counted :
        Option (ResolvedAuctionItem × Str)
        → Str
        → LowestBinIndexBuilder × ℕ
        → LowestBinIndexBuilder × ℕ
    unfolding add_keys
    add_counted none name (b, page_bin_auctions) = (b, page_bin_auctions)
    add_counted (some (item, uuid)) name (b, page_bin_auctions) =
        (add_keys item.unit_price uuid name item.keys b, page_bin_auctions + 1)

    unfoldable pub fold_loop :
        List (Auction Item) → LowestBinIndexBuilder × ℕ → LowestBinIndexBuilder × ℕ
    unfolding add_counted counted
    fold_loop [] s = s
    fold_loop (auction ∷ auctions) s =
        fold_loop auctions (add_counted (counted auction) auction.item_name s)

    unfoldable pub add_page : List (Auction Item) → LowestBinIndexBuilder → LowestBinIndexBuilder
    unfolding fold_loop
    add_page auctions b = add_total (fold_loop auctions (b, 0))

    -- The consumer of the streamed pages, from its last `reset` on.
    unfoldable pub add_pages :
        List (List (Auction Item)) → LowestBinIndexBuilder → LowestBinIndexBuilder
    unfolding add_page
    add_pages [] b = b
    add_pages (auctions ∷ pages) b = add_pages pages (add_page auctions b)
