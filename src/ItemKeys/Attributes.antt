-- ===== src/ItemKeys/Attributes.antt =====
-- `_resolve_attribute_keys` and the level of a pet.
use scam_screener_api.Base.{
  ℕ, ◌+◌, ◌*◌, Str, codes, Bool, false, ◌||◌, ◌&&◌, Option, none, some, List, [], ◌∷◌, ◌++◌, length,
  map, leb, ltb, ◌==◌, if◌then◌else◌,
}
use scam_screener_api.Base.Int.{ℤ}
use scam_screener_api.Base.Text.{strip}
use scam_screener_api.Base.Sort.{sorted}
use scam_screener_api.Nbt.{Fields, end, field}
use scam_screener_api.ItemKeys.{Python, decimal, coerce_int}

-- One round of the loop, ahead of the later attributes.
unfoldable pub keep_attribute : Str → Option ℤ → List (Str × ℤ) → List (Str × ℤ)
keep_attribute [] level rest = rest
keep_attribute (c ∷ name) none rest = rest
keep_attribute (c ∷ name) (some level) rest = (c ∷ name, level) ∷ rest

-- `f"+ATTRIBUTE_{name};{level}"`
unfoldable pub attribute_suffix : Str × ℤ → Str
unfolding decimal
attribute_suffix (name, level) = codes "+ATTRIBUTE_" ++ name ++ b';' ∷ decimal level

unfoldable pub attribute_key : Str → Str × ℤ → Str
unfolding attribute_suffix
attribute_key base_key attribute = base_key ++ attribute_suffix attribute

unfoldable pub combined_names : List (Str × ℤ) → Str
combined_names [] = []
combined_names ((name, level) ∷ attributes) =
    codes "+ATTRIBUTE_" ++ name ++ combined_names attributes

-- The keys of sorted attributes: one for each, and one for all of more than one.
unfoldable pub attribute_keys : Str → List (Str × ℤ) → List Str
unfolding attribute_key combined_names
attribute_keys base_key attributes =
    map (attribute_key base_key) attributes
    ++ (if ltb 1 (length attributes) then (base_key ++ combined_names attributes) ∷ [] else [])

module _ (python : Python) where
  open python use {show, upper, json_loads, digit_value}

  unfoldable pub normalized_attributes : Fields → List (Str × ℤ)
  unfolding keep_attribute
  normalized_attributes end = []
  normalized_attributes (field name v fields) =
      keep_attribute (upper (strip name)) (coerce_int v) (normalized_attributes fields)

  -- `_resolve_attribute_keys`
  unfoldable pub resolve_attribute_keys : Str → Option Fields → List Str
  unfolding normalized_attributes attribute_keys
  resolve_attribute_keys base_key none = []
  resolve_attribute_keys base_key (some fields) =
      attribute_keys base_key
        (sorted (λ (attribute : Str × ℤ). attribute.0) (normalized_attributes fields))

  -- `[Ll][Vv][Ll] ` of the pattern, behind its bracket: what follows it.
  unfoldable pub after_prefix : Str → Option Str
  after_prefix (l ∷ v ∷ k ∷ space ∷ s) =
      if (l == b'L' || l == b'l')
        && (v == b'V' || v == b'v')
        && (k == b'L' || k == b'l')
        && space == b' '
      then some s
      else none
  after_prefix _ = none

  -- `\d+]`: the number of digits and their value, from those that have been read.
  unfoldable pub level_of : ℕ → ℕ → Str → Option (ℕ × ℕ)
  level_of count value [] = none
  level_of count value (c ∷ s) = elim (digit_value c) [
    | none ↦ if c == b']' && ltb 0 count then some (count, value) else none
    | some d ↦ level_of (count + 1) (value * 10 + d) s
  ]

  unfoldable pub level_behind : Option Str → Option (ℕ × ℕ)
  unfolding level_of
  level_behind none = none
  level_behind (some s) = level_of 0 0 s

  -- `_PET_LEVEL_PATTERN.search`
  unfoldable pub search_level : Str → Option (ℕ × ℕ)
  unfolding after_prefix level_behind
  search_level [] = none
  search_level (c ∷ s) =
      let later = search_level s in
      elim (if c == b'[' then level_behind (after_prefix s) else none) [
        | none ↦ later
        | some level ↦ some level
      ]

  -- `int(level) >= 100`; `int` raises for more than 4300 digits.
  unfoldable pub is_hundred : Option (ℕ × ℕ) → Bool
  is_hundred none = false
  is_hundred (some (count, value)) = leb count 4300 && leb 100 value

  -- `_is_level_100_pet`
  unfoldable pub is_level_100_pet : Str → Bool
  unfolding search_level is_hundred
  is_level_100_pet item_name = is_hundred (search_level item_name)
