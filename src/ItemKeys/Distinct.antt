-- ===== src/ItemKeys/Distinct.antt =====
-- The keys of a resolved item.
use scam_screener_api.Base.{
  ◌≤◌, ◌≡◌, refl, sym, Str, codes, str_eq, ◌=?◌, Bool, true, ◌&&◌, not, Option, none, some, List,
  [], ◌∷◌, ◌++◌, append-nil, length, map, select, ltb, All, All-append, All-select,
  All-select_holds, arith, Bool-cases, inl, inr,
}
use scam_screener_api.Base.Int.{ℤ}
use scam_screener_api.Base.Text.{strip}
use scam_screener_api.Base.Sort.{sorted}
use scam_screener_api.LowestBin.{Floats}
use scam_screener_api.LowestBin.Index.{ResolvedAuctionItem}
use scam_screener_api.Nbt.{Fields}
use scam_screener_api.Nbt.Inventory.{ParsedAuctionItem, Answer, answer, raised}
use scam_screener_api.ItemKeys.{Python}
use scam_screener_api.ItemKeys.Names.{is_pet, resolve_internal_name}
use scam_screener_api.ItemKeys.Attributes.{
  attribute_suffix, attribute_key, attribute_keys, combined_names, normalized_attributes,
  resolve_attribute_keys, is_level_100_pet,
}
use scam_screener_api.ItemKeys.Resolve.{
  from_keys, Division, ListedAuction, item_keys, keyed, priced, parsed, decoded,
  resolve_auction_item,
}

abbrev pub IsDistinct : List Str → Type 0
IsDistinct [] = Unit
IsDistinct (key ∷ keys) = All (λ other. not (other =? key) ≡ true) keys × IsDistinct keys

-- `key.startswith(name)`
abbrev pub StartsWith : Str → Str → Type 0
StartsWith name key = (rest : Str) × (key ≡ name ++ rest)

select-IsDistinct :
    (p : Str → Bool) (keys : List Str) → IsDistinct keys → IsDistinct (select p keys)
select-IsDistinct p [] d = tt
select-IsDistinct p (key ∷ keys) (new, d) = elim (Bool-cases (p key)) [
  | inl held ↦ rw held (All-select _ p keys new, select-IsDistinct p keys d)
  | inr failed ↦ rw failed (select-IsDistinct p keys d)
]

from_keys-IsDistinct : (keys : List Str) → IsDistinct (from_keys keys)
unfolding from_keys
from_keys-IsDistinct [] = tt
from_keys-IsDistinct (key ∷ keys) = (
  All-select_holds _ (from_keys keys),
  select-IsDistinct _ (from_keys keys) (from_keys-IsDistinct keys),
)

All-from_keys : (P : Str → Type 0) (keys : List Str) → All P keys → All P (from_keys keys)
unfolding from_keys
All-from_keys P [] h = tt
All-from_keys P (key ∷ keys) (p, h) = (p, All-select P _ (from_keys keys) (All-from_keys P keys h))

map-attribute_key-StartsWith :
    (base_key : Str) (attributes : List (Str × ℤ))
    → All (StartsWith base_key) (map (attribute_key base_key) attributes)
unfolding attribute_key
map-attribute_key-StartsWith base_key [] = tt
map-attribute_key-StartsWith base_key (attribute ∷ attributes) =
    ((attribute_suffix attribute, refl), map-attribute_key-StartsWith base_key attributes)

attribute_keys-StartsWith :
    (base_key : Str) (attributes : List (Str × ℤ))
    → All (StartsWith base_key) (attribute_keys base_key attributes)
unfolding attribute_keys
attribute_keys-StartsWith base_key attributes =
    All-append (StartsWith base_key) (map (attribute_key base_key) attributes) _
      (map-attribute_key-StartsWith base_key attributes)
      (elim (Bool-cases (ltb 1 (length attributes))) [
        | inl several ↦ rw several ((combined_names attributes, refl), tt)
        | inr one ↦ rw one tt
      ])

module _ (floats : Floats) (division : Division floats) (python : Python) where
  resolve_attribute_keys-StartsWith :
      (base_key : Str) (fields : Option Fields)
      → All (StartsWith base_key) (resolve_attribute_keys python base_key fields)
  unfolding resolve_attribute_keys
  resolve_attribute_keys-StartsWith base_key none = tt
  resolve_attribute_keys-StartsWith base_key (some fields) =
      attribute_keys-StartsWith base_key
        (sorted (λ (attribute : Str × ℤ). attribute.0) (normalized_attributes python fields))

  item_keys-StartsWith :
      (name : Str) (extra_attributes : Fields) (item_name : Str)
      → All (StartsWith name) (item_keys floats division python name extra_attributes item_name)
  unfolding item_keys
  item_keys-StartsWith name extra_attributes item_name =
      elim (Bool-cases (is_pet python extra_attributes && is_level_100_pet python item_name)) [
        | inl grown ↦ rw grown (
          ([], sym (append-nil name)),
          ((codes "+100", refl), resolve_attribute_keys-StartsWith name _),
        )
        | inr other ↦
            rw other (([], sym (append-nil name)), resolve_attribute_keys-StartsWith name _)
      ]

  -- The first key is the internal name of the item with these attributes, which is not empty, the
  -- others are different and start with it.
  abbrev pub AreNamed : Fields → Answer (Option (ResolvedAuctionItem floats)) → Type 0
  AreNamed extra_attributes (answer (some item)) =
      (name : Str) × (others : List Str) × (item.keys ≡ name ∷ others)
      × (resolve_internal_name python extra_attributes ≡ answer (some name))
      × (1 ≤ length name)
      × IsDistinct (name ∷ others)
      × All (StartsWith name) others
  AreNamed extra_attributes (answer none) = Unit
  AreNamed extra_attributes raised = Unit

  -- The keys are those of the item that was parsed.
  abbrev pub AreKeyed :
      Answer (Option ParsedAuctionItem) → Answer (Option (ResolvedAuctionItem floats)) → Type 0
  AreKeyed found (answer (some item)) =
      (item_data : ParsedAuctionItem) × (found ≡ answer (some item_data))
      × AreNamed item_data.extra_attributes (answer (some item))
  AreKeyed found (answer none) = Unit
  AreKeyed found raised = Unit

  keyed-AreNamed :
      (extra_attributes : Fields) (item_name : Str) (price : floats.Price)
      (name : Answer (Option Str))
      → resolve_internal_name python extra_attributes ≡ name
      → AreNamed extra_attributes
          (keyed floats division python extra_attributes item_name price name)
  unfolding keyed from_keys item_keys
  keyed-AreNamed extra_attributes item_name price raised e = tt
  keyed-AreNamed extra_attributes item_name price (answer none) e = tt
  keyed-AreNamed extra_attributes item_name price (answer (some [])) e = tt
  keyed-AreNamed extra_attributes item_name price (answer (some (c ∷ name))) e = (
    c ∷ name,
    _,
    refl,
    e,
    omega arith,
    from_keys-IsDistinct (item_keys floats division python (c ∷ name) extra_attributes item_name),
    (All-from_keys (StartsWith (c ∷ name))
        (item_keys floats division python (c ∷ name) extra_attributes item_name)
        (item_keys-StartsWith (c ∷ name) extra_attributes item_name)).1,
  )

  priced-AreNamed :
      (auction : ListedAuction floats) (extra_attributes : Fields)
      (price : Answer (Option floats.Price))
      → AreNamed extra_attributes (priced floats division python auction extra_attributes price)
  unfolding priced
  priced-AreNamed auction extra_attributes raised = tt
  priced-AreNamed auction extra_attributes (answer none) = tt
  priced-AreNamed auction extra_attributes (answer (some price)) =
      keyed-AreNamed extra_attributes auction.item_name price _ refl

  AreNamed-AreKeyed :
      (item : ParsedAuctionItem) (resolved : Answer (Option (ResolvedAuctionItem floats)))
      → AreNamed item.extra_attributes resolved
      → AreKeyed (answer (some item)) resolved
  AreNamed-AreKeyed item raised named = tt
  AreNamed-AreKeyed item (answer none) named = tt
  AreNamed-AreKeyed item (answer (some resolved)) named = (item, refl, named)

  parsed-AreKeyed :
      (auction : ListedAuction floats) (item : Answer (Option ParsedAuctionItem))
      → AreKeyed item (parsed floats division python auction item)
  unfolding parsed
  parsed-AreKeyed auction raised = tt
  parsed-AreKeyed auction (answer none) = tt
  parsed-AreKeyed auction (answer (some item)) =
      AreNamed-AreKeyed item _ (priced-AreNamed auction item.extra_attributes _)

  decoded-AreKeyed :
      (parse : Str → Answer (Option ParsedAuctionItem)) (auction : ListedAuction floats)
      (item_bytes : Str)
      → AreKeyed (parse item_bytes) (decoded floats division python parse auction item_bytes)
  unfolding decoded
  decoded-AreKeyed parse auction [] = tt
  decoded-AreKeyed parse auction (c ∷ item_bytes) = parsed-AreKeyed auction (parse (c ∷ item_bytes))

  -- The keys of an auction that is resolved are distinct: first the internal name of the item that
  -- its stripped `item_bytes` are parsed to, which is not empty, and then keys that start with it.
  pub resolve_auction_item-AreKeyed :
      (parse : Str → Answer (Option ParsedAuctionItem)) (auction : ListedAuction floats)
      → AreKeyed
          (parse (strip auction.item_bytes))
          (resolve_auction_item floats division python parse auction)
  unfolding resolve_auction_item
  resolve_auction_item-AreKeyed parse auction = decoded-AreKeyed parse auction _
