-- ===== src/ItemKeys/Resolve.antt =====
-- `resolve_auction_item` and `_parse_unit_price`.
use scam_screener_api.Base.{
  ℕ, Str, codes, str_eq, ◌=?◌, Bool, ◌&&◌, not, Option, none, some, List, [], ◌∷◌, ◌++◌, select,
  max, if◌then◌else◌,
}
use scam_screener_api.Base.Int.{ℤ}
use scam_screener_api.Base.Text.{strip}
use scam_screener_api.LowestBin.{Floats}
use scam_screener_api.LowestBin.Index.{ResolvedAuctionItem}
use scam_screener_api.Nbt.{Fields}
use scam_screener_api.Nbt.Inventory.{ParsedAuctionItem, get, as_dict, Answer, answer, raised}
use scam_screener_api.ItemKeys.{Python}
use scam_screener_api.ItemKeys.Names.{resolve_internal_name, is_pet}
use scam_screener_api.ItemKeys.Attributes.{resolve_attribute_keys, is_level_100_pet}

-- `dict.fromkeys`: the first of every key, in order.
unfoldable pub from_keys : List Str → List Str
from_keys [] = []
from_keys (key ∷ keys) = key ∷ select (λ other. not (other =? key)) (from_keys keys)

-- The arithmetic of floats: `float(n)`, `none` where it raises, `price < 0` and `price / count`.
pub record Division (floats : Floats) : Type 0 where
  pub from_int : ℤ → Option floats.Price
  pub is_negative : floats.Price → Bool
  pub divide : floats.Price → ℕ → floats.Price

-- `auction.get("starting_bid")`: an int, a float, or anything else.
pub data Bid (floats : Floats) : Type 0 where
  whole : ℤ → Bid floats
  fraction : floats.Price → Bid floats
  no_bid : Bid floats

-- The fields that are read, the texts as `str(value or "")`.
pub record ListedAuction (floats : Floats) : Type 0 where
  pub item_bytes : Str
  pub starting_bid : Bid floats
  pub item_name : Str

module _ (floats : Floats) (division : Division floats) where
  open division use {from_int, is_negative, divide}

  unfoldable pub unit_price : floats.Price → ℕ → Option floats.Price
  unit_price price count = if is_negative price then none else some (divide price (max 1 count))

  unfoldable pub converted : Option floats.Price → ℕ → Answer (Option floats.Price)
  unfolding unit_price
  converted none count = raised
  converted (some price) count = answer (unit_price price count)

  -- `_parse_unit_price`
  unfoldable pub parse_unit_price : Bid floats → ℕ → Answer (Option floats.Price)
  unfolding unit_price converted
  parse_unit_price (whole n) count = converted (from_int n) count
  parse_unit_price (fraction price) count = answer (unit_price price count)
  parse_unit_price no_bid count = answer none

  module _ (python : Python) where
    -- All keys of an item, before `dict.fromkeys`.
    unfoldable pub item_keys : Str → Fields → Str → List Str
    item_keys internal_name extra_attributes item_name =
        (internal_name
          ∷ (if is_pet python extra_attributes && is_level_100_pet python item_name
              then (internal_name ++ codes "+100") ∷ []
              else []))
        ++ resolve_attribute_keys python internal_name
            (as_dict (get (codes "attributes") extra_attributes))

    unfoldable pub keyed :
        Fields
        → Str
        → floats.Price
        → Answer (Option Str)
        → Answer (Option (ResolvedAuctionItem floats))
    unfolding item_keys from_keys
    keyed extra_attributes item_name price raised = raised
    keyed extra_attributes item_name price (answer none) = answer none
    keyed extra_attributes item_name price (answer (some [])) = answer none
    keyed extra_attributes item_name price (answer (some (c ∷ name))) = answer (
        some record {
          keys = from_keys (item_keys (c ∷ name) extra_attributes item_name);
          unit_price = price;
        })

    unfoldable pub priced :
        ListedAuction floats
        → Fields
        → Answer (Option floats.Price)
        → Answer (Option (ResolvedAuctionItem floats))
    unfolding keyed resolve_internal_name
    priced auction extra_attributes raised = raised
    priced auction extra_attributes (answer none) = answer none
    priced auction extra_attributes (answer (some price)) =
        keyed extra_attributes auction.item_name price
          (resolve_internal_name python extra_attributes)

    unfoldable pub parsed :
        ListedAuction floats
        → Answer (Option ParsedAuctionItem)
        → Answer (Option (ResolvedAuctionItem floats))
    unfolding priced parse_unit_price
    parsed auction raised = raised
    parsed auction (answer none) = answer none
    parsed auction (answer (some item)) =
        priced auction item.extra_attributes (parse_unit_price auction.starting_bid item.count)

    -- With `parse` for `parse_item_bytes_nbt`.
    unfoldable pub decoded :
        (Str → Answer (Option ParsedAuctionItem))
        → ListedAuction floats
        → Str
        → Answer (Option (ResolvedAuctionItem floats))
    unfolding parsed
    decoded parse auction [] = answer none
    decoded parse auction (c ∷ item_bytes) = parsed auction (parse (c ∷ item_bytes))

    -- `resolve_auction_item`
    unfoldable pub resolve_auction_item :
        (Str → Answer (Option ParsedAuctionItem))
        → ListedAuction floats
        → Answer (Option (ResolvedAuctionItem floats))
    unfolding decoded
    resolve_auction_item parse auction = decoded parse auction (strip auction.item_bytes)
