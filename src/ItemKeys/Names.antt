-- ===== src/ItemKeys/Names.antt =====
-- `_resolve_internal_name` and the names of pets, runes, books and hats. Where a function returns
-- None the model has `none`.
use scam_screener_api.Base.{
  ℕ, suc, Str, codes, str_beq, Bool, ◌||◌, Option, none, some, List, [], ◌∷◌, ◌++◌, map, ◌==◌,
  if◌then◌else◌,
}
use scam_screener_api.Base.Int.{ℤ, pos, negsuc}
use scam_screener_api.Nbt.{Fields, end, field}
use scam_screener_api.Nbt.Inventory.{get, as_dict, stripped, Answer, answer, raised}
use scam_screener_api.ItemKeys.{
  Python, Json, invalid, object, no_object, failed, decimal, coerce_int, coerce_found, dashes,
}

abbrev pub pet_rarities : List Str
pet_rarities = map codes ("COMMON" ∷ "UNCOMMON" ∷ "RARE" ∷ "EPIC" ∷ "LEGENDARY" ∷ "MYTHIC" ∷ [])

-- `names.index(name)`, `none` where `name not in names`.
unfoldable pub index : Str → List Str → Option ℕ
index name [] = none
index name (n ∷ names) = elim (index name names) [
  | none ↦ if str_beq name n then some 0 else none
  | some i ↦ if str_beq name n then some 0 else some (suc i)
]

module _ (python : Python) where
  open python use {show, upper, json_loads, digit_value}

  -- `f"{pet_type};{rarity_index}"`
  unfoldable pub pet_name : Str → Option ℕ → Option Str
  pet_name [] rarity_index = none
  pet_name (c ∷ pet_type) none = none
  pet_name (c ∷ pet_type) (some rarity_index) =
      some ((c ∷ pet_type) ++ b';' ∷ decimal (pos rarity_index))

  unfoldable pub named_pet : Json → Answer (Option Str)
  unfolding pet_name index
  named_pet invalid = answer none
  named_pet no_object = raised
  named_pet failed = raised
  named_pet (object pet_info) = answer (
      pet_name (upper (stripped show (get (codes "type") pet_info)))
        (index (upper (stripped show (get (codes "tier") pet_info))) pet_rarities))

  -- `_resolve_pet_name`, by the text of `petInfo`.
  unfoldable pub resolve_pet_name : Str → Answer (Option Str)
  unfolding named_pet
  resolve_pet_name [] = answer none
  resolve_pet_name (c ∷ pet_info_raw) = named_pet (json_loads (c ∷ pet_info_raw))

  -- The one entry of the dict of runes or of enchantments, its name in upper case.
  unfoldable pub single_name : Str → Option Fields → Option Str
  unfolding coerce_int
  single_name between (some (field (c ∷ name) v end)) = elim (coerce_int v) [
    | none ↦ none
    | some level ↦ some (upper (c ∷ name) ++ between ++ decimal level)
  ]
  single_name between _ = none

  -- `_resolve_rune_name`
  unfoldable pub resolve_rune_name : Fields → Option Str
  unfolding single_name
  resolve_rune_name extra_attributes =
      single_name (codes "_RUNE;") (as_dict (get (codes "runes") extra_attributes))

  -- `_resolve_enchanted_book_name`
  unfoldable pub resolve_enchanted_book_name : Fields → Option Str
  unfolding single_name
  resolve_enchanted_book_name extra_attributes =
      single_name (codes ";") (as_dict (get (codes "enchantments") extra_attributes))

  -- `year == 2022`
  unfoldable pub hat_suffix : ℤ → Str
  hat_suffix (pos n) = if n == 2022 then codes "_ANIMATED" else []
  hat_suffix (negsuc n) = []

  unfoldable pub crab_hat_name : Str → Option ℤ → Option Str
  unfolding hat_suffix
  crab_hat_name [] year = none
  crab_hat_name (c ∷ color) none = none
  crab_hat_name (c ∷ color) (some year) =
      some (codes "PARTY_HAT_CRAB_" ++ (c ∷ color) ++ hat_suffix year)

  -- `_resolve_crab_hat_name`
  unfoldable pub resolve_crab_hat_name : Fields → Option Str
  unfolding crab_hat_name coerce_found
  resolve_crab_hat_name extra_attributes =
      crab_hat_name (upper (stripped show (get (codes "party_hat_color") extra_attributes)))
        (coerce_found (get (codes "party_hat_year") extra_attributes))

  -- The dispatch on the normalized name.
  unfoldable pub named : Str → Fields → Answer (Option Str)
  unfolding resolve_pet_name resolve_rune_name resolve_enchanted_book_name resolve_crab_hat_name
  named normalized extra_attributes =
      if str_beq normalized (codes "PET")
      then resolve_pet_name (stripped show (get (codes "petInfo") extra_attributes))
      else if str_beq normalized (codes "RUNE")
      then answer (resolve_rune_name extra_attributes)
      else if str_beq normalized (codes "ENCHANTED_BOOK")
      then answer (resolve_enchanted_book_name extra_attributes)
      else if str_beq normalized (codes "PARTY_HAT_CRAB")
          || str_beq normalized (codes "PARTY_HAT_CRAB_ANIMATED")
      then answer (resolve_crab_hat_name extra_attributes)
      else answer (some normalized)

  unfoldable pub normalized_name : Str → Fields → Answer (Option Str)
  unfolding named dashes
  normalized_name [] extra_attributes = answer none
  normalized_name (c ∷ raw) extra_attributes = named (dashes (upper (c ∷ raw))) extra_attributes

  -- `_resolve_internal_name`
  unfoldable pub resolve_internal_name : Fields → Answer (Option Str)
  unfolding normalized_name
  resolve_internal_name extra_attributes =
      normalized_name (stripped show (get (codes "id") extra_attributes)) extra_attributes

  -- `_is_pet`
  unfoldable pub is_pet : Fields → Bool
  unfolding dashes
  is_pet extra_attributes =
      str_beq (dashes (upper (stripped show (get (codes "id") extra_attributes)))) (codes "PET")
