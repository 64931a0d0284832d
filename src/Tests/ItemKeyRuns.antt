-- ===== src/Tests/ItemKeyRuns.antt =====
-- The keys of an item with attributes, and of a pet.
use scam_screener_api.Base.{
  ℕ, ◌↔◌, ◌-◌, ◌/◌, ◌≡◌, refl, Str, codes, str_beq, false, ◌&&◌, Option, none, some, [], ◌∷◌, map,
  leb, ltb, if◌then◌else◌,
}
use scam_screener_api.Base.Int.{pos, clamp_low}
use scam_screener_api.Base.Text.{strip}
use scam_screener_api.Base.Sort.{sorted}
use scam_screener_api.LowestBin.{Floats}
use scam_screener_api.Nbt.{text, int, dict, Fields, end, field}
use scam_screener_api.Nbt.Inventory.{
  ParsedAuctionItem, Answer, answer, raised, get, as_dict, stripped,
}
use scam_screener_api.ItemKeys.{Python, object, no_object}
use scam_screener_api.ItemKeys.Names.{resolve_internal_name, is_pet}
use scam_screener_api.ItemKeys.Attributes.{resolve_attribute_keys, is_level_100_pet}
use scam_screener_api.ItemKeys.Resolve.{Division, whole, ListedAuction, resolve_auction_item}
use scam_screener_api.ItemKeys.Errors.{NamesPet, Raises, resolve_internal_name-raised}
use scam_screener_api.ItemKeys.Distinct.{AreKeyed, resolve_auction_item-AreKeyed}

abbrev prices : Floats
prices = record { Price = ℕ; lt = ltb }

abbrev whole_division : Division prices
whole_division = record {
  from_int = λ n. some (clamp_low 0 n);
  is_negative = λ price. false;
  divide = λ price count. price / count;
}

abbrev upper_letter : ℕ → ℕ
upper_letter c = if leb b'a' c && leb c b'z' then c - 32 else c

abbrev digit : ℕ → Option ℕ
digit c = if leb b'0' c && leb c b'9' then some (c - b'0') else none

-- Every text of `petInfo` is that of a legendary cow.
abbrev python : Python
python = record {
  show = λ v. [];
  upper = map upper_letter;
  json_loads = λ s. object (
      field (codes "type") (text (codes "cow"))
        (field (codes "tier") (text (codes "legendary")) end));
  digit_value = digit;
}

abbrev blade : Fields
blade = field (codes "id") (text (codes "old:blade")) (
    field (codes "attributes")
      (dict (field (codes "speed") (int (pos 12)) (field (codes "mana") (int (pos 3)) end))) end)

abbrev cow : Fields
cow = field (codes "id") (text (codes "PET")) (field (codes "petInfo") (text (codes "cow")) end)

abbrev parse : Fields → Str → Answer (Option ParsedAuctionItem)
parse extra_attributes item_bytes =
    answer (some record { count = 2; extra_attributes = extra_attributes })

abbrev auction : ListedAuction prices
auction = record {
  item_bytes = codes "H4s=";
  starting_bid = whole (pos 10);
  item_name = codes "[Lvl 1] [lvl 100] Cow";
}

blade_keys :
    resolve_auction_item prices whole_division python (parse blade) auction
    ≡ answer (
        some record {
          keys =
              codes "OLD-BLADE"
              ∷ codes "OLD-BLADE+ATTRIBUTE_MANA;3"
              ∷ codes "OLD-BLADE+ATTRIBUTE_SPEED;12"
              ∷ codes "OLD-BLADE+ATTRIBUTE_MANA+ATTRIBUTE_SPEED"
              ∷ [];
          unit_price = 5;
        })
unfolding resolve_auction_item strip stripped get str_beq is_pet resolve_attribute_keys as_dict
    sorted
blade_keys = refl

resolve_auction_item-AreKeyed_example :
    AreKeyed prices whole_division python
      (parse cow (strip auction.item_bytes))
      (resolve_auction_item prices whole_division python (parse cow) auction)
resolve_auction_item-AreKeyed_example =
    resolve_auction_item-AreKeyed prices whole_division python (parse cow) auction

cow_keys :
    resolve_auction_item prices whole_division python
      (parse cow)
      (record auction { item_name = codes "[LVL 100] Cow" })
    ≡ answer (some record { keys = codes "COW;4" ∷ codes "COW;4+100" ∷ []; unit_price = 5 })
unfolding resolve_auction_item strip stripped get str_beq is_pet resolve_attribute_keys as_dict
    sorted is_level_100_pet
cow_keys = refl

-- A pet whose `petInfo` is the JSON `1`.
abbrev strange : Python
strange = record python { json_loads = λ s. no_object }

resolve_internal_name-raised_example : (resolve_internal_name strange cow ≡ raised) ↔ (
    NamesPet strange (stripped strange.show (get (codes "id") cow))
    × Raises strange (stripped strange.show (get (codes "petInfo") cow)))
resolve_internal_name-raised_example = resolve_internal_name-raised strange cow

cow_raises : resolve_internal_name strange cow ≡ raised
unfolding resolve_internal_name strip stripped get str_beq
cow_raises = refl
