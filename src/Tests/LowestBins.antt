-- ===== src/Tests/LowestBins.antt =====
-- The Lowest BIN index of a small auction house in two pages; prices are natural numbers.
use mathlib.Core.List.{flatten}
use scam_screener_api.Base.{
  ℕ, ◌≡◌, refl, Str, codes, true, false, some, Option, List, [], ◌∷◌, arith, ltb, str_eq, str_beq,
}
use scam_screener_api.Base.Dict.{lookup, insert}
use scam_screener_api.Base.Sort.{sorted}
use scam_screener_api.LowestBin.{Floats, IsOrder}
use scam_screener_api.LowestBin.Index.{
  Auction, ResolvedAuctionItem, reset, undercuts, add_page, add_pages, build, parse_auctioneer_uuid,
  parse_item_name,
}
use scam_screener_api.LowestBin.Minimum.{Describes, offers}
use scam_screener_api.LowestBin.Paging.{add_pages-flatten}
use scam_screener_api.LowestBin.Build.{index_of, index_of-Describes}

abbrev prices : Floats
prices = record { Price = ℕ; lt = ltb }

prices_transitive : (a b c : ℕ) → ltb b a ≡ false → ltb c b ≡ false → ltb c a ≡ false
prices_transitive a b c p q = ground arith

prices_asymmetric : (a b : ℕ) → ltb a b ≡ true → ltb b a ≡ false
prices_asymmetric a b p = ground arith

prices-IsOrder : IsOrder prices
prices-IsOrder = record { asymmetric = prices_asymmetric; transitive = prices_transitive }

-- An item that is already resolved.
abbrev resolve : Option (ResolvedAuctionItem prices) → Option (ResolvedAuctionItem prices)
resolve item = item

abbrev bin_auction : ℕ → Str → Auction prices (Option (ResolvedAuctionItem prices))
bin_auction price uuid = record {
  bin = true;
  item = some (record { keys = codes "PET" ∷ codes "PET+100" ∷ []; unit_price = price });
  auctioneer = uuid;
  item_name = codes " Pet ";
}

abbrev pages : List (List (Auction prices (Option (ResolvedAuctionItem prices))))
pages =
    (bin_auction 7 (codes " ABCDEF0123456789abcdef0123456789 ")
      ∷ bin_auction 1 (codes "nobody")
      ∷ [])
    ∷ (bin_auction 5 (codes "00000000000000000000000000000000") ∷ [])
    ∷ []

abbrev same : Str → Str
same s = s

index_runs : lookup (codes "PET") (index_of prices resolve same pages).lowest_bins ≡ some 5
unfolding index_of build add_pages reset undercuts parse_auctioneer_uuid parse_item_name sorted
    lookup insert str_beq
index_runs = refl

index_of-Describes_example :
    Describes prices
      (codes "PET")
      (offers prices resolve (flatten pages))
      (lookup (codes "PET") (index_of prices resolve same pages).lowest_bins)
      (lookup (codes "PET") (index_of prices resolve same pages).auctioneer_uuids)
      (lookup (codes "PET") (index_of prices resolve same pages).item_names)
index_of-Describes_example =
    index_of-Describes prices resolve prices-IsOrder same pages (codes "PET")

add_pages-flatten_example :
    add_pages prices resolve pages (reset prices)
    ≡ add_page prices resolve (flatten pages) (reset prices)
add_pages-flatten_example = add_pages-flatten prices resolve pages (reset prices)
