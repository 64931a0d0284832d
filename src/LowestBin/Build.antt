-- ===== src/LowestBin/Build.antt =====
-- The finished index of a streamed auction house.
use mathlib.Core.List.{flatten}
use scam_screener_api.Base.{ℕ, Str, Option, none, some, List, [], ◌∷◌, str_eq, Bool-cases, inl, inr}
use scam_screener_api.Base.Dict.{lookup, NodupKeys, insert-NodupKeys}
use scam_screener_api.Base.Sort.{sorted-IsSorted, lookup-sorted, IsSorted}
use scam_screener_api.LowestBin.{Floats, IsOrder}
use scam_screener_api.LowestBin.Index.{
  Auction, ResolvedAuctionItem, LowestBinIndexBuilder, LowestBinIndex, reset, undercuts, add_key,
  add_keys, counted, add_counted, fold_loop, add_page, add_pages, build,
}
use scam_screener_api.LowestBin.Minimum.{Describes, offers, add_page-reset-Holds}
use scam_screener_api.LowestBin.Paging.{add_pages-flatten}

module _ (floats : Floats) where
  open floats use {Price, lt}

  add_key-NodupKeys :
      (price : Price) (uuid name key : Str) (b : LowestBinIndexBuilder floats)
      → NodupKeys b.lowest_bins
      → NodupKeys (add_key floats price uuid name key b).lowest_bins
  unfolding add_key
  add_key-NodupKeys price uuid name key b u =
      elim (Bool-cases (undercuts floats price (lookup key b.lowest_bins))) [
        | inl e ↦ rw e (insert-NodupKeys key price b.lowest_bins u)
        | inr e ↦ rw e u
      ]

  add_keys-NodupKeys :
      (price : Price) (uuid name : Str) (keys : List Str) (b : LowestBinIndexBuilder floats)
      → NodupKeys b.lowest_bins
      → NodupKeys (add_keys floats price uuid name keys b).lowest_bins
  unfolding add_keys
  add_keys-NodupKeys price uuid name [] b u = u
  add_keys-NodupKeys price uuid name (key ∷ keys) b u =
      add_keys-NodupKeys price uuid name keys (add_key floats price uuid name key b)
        (add_key-NodupKeys price uuid name key b u)

  module _ {Item : Type 0} (resolve : Item → Option (ResolvedAuctionItem floats)) where
    add_counted-NodupKeys :
        (c : Option (ResolvedAuctionItem floats × Str)) (name : Str)
        (s : LowestBinIndexBuilder floats × ℕ)
        → NodupKeys s.0.lowest_bins
        → NodupKeys (add_counted floats resolve c name s).0.lowest_bins
    unfolding add_counted
    add_counted-NodupKeys none name s u = u
    add_counted-NodupKeys (some (item, uuid)) name s u =
        add_keys-NodupKeys item.unit_price uuid name item.keys s.0 u

    fold_loop-NodupKeys :
        (auctions : List (Auction floats Item)) (s : LowestBinIndexBuilder floats × ℕ)
        → NodupKeys s.0.lowest_bins
        → NodupKeys (fold_loop floats resolve auctions s).0.lowest_bins
    unfolding fold_loop
    fold_loop-NodupKeys [] s u = u
    fold_loop-NodupKeys (auction ∷ auctions) s u =
        fold_loop-NodupKeys auctions
          (add_counted floats resolve (counted floats resolve auction) auction.item_name s)
          (add_counted-NodupKeys (counted floats resolve auction) auction.item_name s u)

    -- The index of an auction house that was streamed page by page.
    unfoldable pub index_of :
        (Str → Str) → List (List (Auction floats Item)) → LowestBinIndex floats
    index_of lower pages = build floats lower (add_pages floats resolve pages (reset floats))

    index_of-NodupKeys :
        (auctions : List (Auction floats Item))
        → NodupKeys (add_page floats resolve auctions (reset floats)).lowest_bins
    unfolding add_page reset
    index_of-NodupKeys auctions = fold_loop-NodupKeys auctions (reset floats, 0) tt

    -- Prices that compare like numbers: the index of a streamed auction house has for each key the
    -- price, the seller and the name of the first of the cheapest offers of all auctions that count,
    -- whatever the pages, and no entry in any of its three dicts exactly where nothing offers the key.
    pub index_of-Describes :
        (order : IsOrder floats) (lower : Str → Str) (pages : List (List (Auction floats Item)))
        (k : Str)
        → Describes floats k
            (offers floats resolve (flatten pages))
            (lookup k (index_of lower pages).lowest_bins)
            (lookup k (index_of lower pages).auctioneer_uuids)
            (lookup k (index_of lower pages).item_names)
    unfolding index_of build
    index_of-Describes order lower pages k =
        rw (add_pages-flatten floats resolve pages (reset floats)) (
          rw
            (lookup-sorted lower k
              (add_page floats resolve (flatten pages) (reset floats)).lowest_bins
              (index_of-NodupKeys (flatten pages)))
            (add_page-reset-Holds floats resolve order k (flatten pages)))

    -- The prices of the index stand in the order of their keys in lower case.
    pub index_of-IsSorted :
        (lower : Str → Str) (pages : List (List (Auction floats Item)))
        → IsSorted (λ (item : Str × Price). lower item.0) (index_of lower pages).lowest_bins
    unfolding index_of build
    index_of-IsSorted lower pages = sorted-IsSorted _ _
