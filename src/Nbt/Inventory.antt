-- ===== src/Nbt/Inventory.antt =====
-- The items of a decoded inventory. `show`, an argument below, is `str` of a value that is no text,
-- and `decode` is `_decode_item_bytes`.
use scam_screener_api.Base.{
  ℕ, zero, ◌+◌, ◌-◌, ◌*◌, ◌/◌, ◌%◌, ◌^◌, Str, codes, str_beq, List, [], ◌∷◌, take, Option, none,
  some, Bool, true, false, ◌==◌, leb, if◌then◌else◌,
}
use scam_screener_api.Base.Options.{◌>>=◌}
use scam_screener_api.Base.Int.{ℤ, pos, negsuc, clamp_low}
use scam_screener_api.Base.Text.{strip}
use scam_screener_api.Nbt.{
  Value, null, int, float32, float64, text, list, dict, Items, nil, cons, Fields, end, field,
  Outcome, ok, value_error, recursion_error, out_of_fuel,
}
use scam_screener_api.Nbt.Reader.{read_root_compound}

pub record ParsedAuctionItem : Type 0 where
  pub count : ℕ
  pub extra_attributes : Fields

pub record ParsedInventoryItem : Type 0 where
  pub slot : ℕ
  pub item_id : Str
  pub name : Str
  pub count : ℕ

-- `fields.get(name)`
unfoldable pub get : Str → Fields → Option Value
get name end = none
get name (field n v fields) = let rest = get name fields in if str_beq name n then some v else rest

-- `v if isinstance(v, dict) else None`
unfoldable pub as_dict : Option Value → Option Fields
as_dict (some (dict fields)) = some fields
as_dict _ = none

unfoldable pub as_list : Option Value → Option Items
as_list (some (list items)) = some items
as_list _ = none

-- `int(value)` of a float with these numbers of exponent and mantissa bits, given as its bits.
-- For an infinity or NaN it raises, which is `none`.
unfoldable pub truncate : ℕ → ℕ → ℕ → Option ℤ
truncate exponent_bits mantissa_bits bits =
    let exponent = bits / 2 ^ mantissa_bits % 2 ^ exponent_bits in
    let significand = 2 ^ mantissa_bits + bits % 2 ^ mantissa_bits in
    let point = 2 ^ (exponent_bits - 1) - 1 + mantissa_bits in
    let magnitude =
      if exponent == 0
      then 0
      else if leb point exponent
      then significand * 2 ^ (exponent - point)
      else significand / 2 ^ (point - exponent) in
    let negative = leb 1 (bits / 2 ^ (mantissa_bits + exponent_bits)) in
    if exponent == 2 ^ exponent_bits - 1
    then none
    else if negative
    then some (if magnitude == 0 then pos 0 else negsuc (magnitude - 1))
    else some (pos magnitude)

-- `max(1, int(count))` of `item.get("Count", 1)`; `none` where `int` raises.
unfoldable pub count_of : Option Value → Option ℕ
unfolding truncate
count_of (some (int n)) = some (clamp_low 1 n)
count_of (some (float32 bits)) = do n ← truncate 8 23 bits; some (clamp_low 1 n)
count_of (some (float64 bits)) = do n ← truncate 11 52 bits; some (clamp_low 1 n)
count_of _ = some 1

-- `_strip_minecraft_formatting`: the loop, by `skip_next`.
unfoldable pub cleaned : Bool → Str → Str
cleaned skip_next [] = []
cleaned true (c ∷ value) = cleaned false value
cleaned false (c ∷ value) =
    let skipped = cleaned true value in
    let kept = cleaned false value in if c == 0xa7 then skipped else c ∷ kept

unfoldable pub strip_minecraft_formatting : Str → Str
unfolding cleaned
strip_minecraft_formatting value = take 256 (strip (cleaned false value))

-- `bool(value)`
unfoldable pub truthy : Value → Bool
truthy null = false
truthy (int (pos zero)) = false
truthy (int _) = true
truthy (float32 bits) = leb 1 (bits % 2 ^ 31)
truthy (float64 bits) = leb 1 (bits % 2 ^ 63)
truthy (text []) = false
truthy (text (c ∷ s)) = true
truthy (list nil) = false
truthy (list (cons v items)) = true
truthy (dict end) = false
truthy (dict (field name v fields)) = true

-- `left or right` on texts
unfoldable pub or_text : Str → Str → Str
or_text [] right = right
or_text (c ∷ left) right = c ∷ left

-- An answer, or an error of `int` that no caller here catches.
pub data Answer {ℓ} (A : Type ℓ) : Type ℓ where
  answer : A → Answer A
  raised : Answer A

-- `extra_attributes` or `{}`
unfoldable pub fields_or_empty : Option Fields → Fields
fields_or_empty none = end
fields_or_empty (some fields) = fields

-- `display.get("Name") if isinstance(display, dict) else None`
unfoldable pub display_name : Option Fields → Option Value
unfolding get
display_name none = none
display_name (some display) = get (codes "Name") display

-- `if parsed is not None: parsed_items.append(parsed)`, ahead of the later items.
unfoldable pub collect :
    Answer (Option ParsedInventoryItem)
    → Answer (List ParsedInventoryItem)
    → Answer (List ParsedInventoryItem)
collect raised rest = raised
collect (answer none) rest = rest
collect (answer (some parsed)) raised = raised
collect (answer (some parsed)) (answer items) = answer (parsed ∷ items)

-- The answer with its list.
unfoldable pub listed_or_raised :
    Answer (List ParsedInventoryItem) → Answer (Option (List ParsedInventoryItem))
listed_or_raised raised = raised
listed_or_raised (answer items) = answer (some items)

module _ (show : Value → Str) where
  -- `str(value)`
  unfoldable pub str : Value → Str
  str (text s) = s
  str v = show v

  -- `str(value or "").strip()`
  unfoldable pub stripped : Option Value → Str
  unfolding str truthy
  stripped none = []
  stripped (some v) = if truthy v then strip (str v) else []

  unfoldable pub safe_item_text : Option Value → Str
  unfolding stripped
  safe_item_text value = take 256 (stripped value)

  -- The end of `_parse_inventory_item`, by its id and its count.
  unfoldable pub inventory_item : ℕ → Str → Str → Option ℕ → Answer (Option ParsedInventoryItem)
  unfolding or_text strip_minecraft_formatting
  inventory_item slot [] display_name count = answer none
  inventory_item slot (c ∷ item_id) display_name none = raised
  inventory_item slot (c ∷ item_id) display_name (some count) =
      let name = strip_minecraft_formatting (or_text display_name (c ∷ item_id)) in
      answer (
        some record {
          slot = slot;
          item_id = c ∷ item_id;
          name = or_text name (c ∷ item_id);
          count = count;
        })

  unfoldable pub tagged_item : ℕ → Fields → Option Fields → Answer (Option ParsedInventoryItem)
  unfolding get as_dict safe_item_text inventory_item fields_or_empty display_name or_text count_of
  tagged_item slot item none = answer none
  tagged_item slot item (some tag) =
      let extra_attributes = fields_or_empty (as_dict (get (codes "ExtraAttributes") tag)) in
      inventory_item slot
        (or_text (safe_item_text (get (codes "id") extra_attributes))
          (safe_item_text (get (codes "id") item)))
        (safe_item_text (display_name (as_dict (get (codes "display") tag))))
        (count_of (get (codes "Count") item))

  -- `_parse_inventory_item`
  unfoldable pub parse_inventory_item : Fields → ℕ → Answer (Option ParsedInventoryItem)
  unfolding tagged_item as_dict get
  parse_inventory_item item slot = tagged_item slot item (as_dict (get (codes "tag") item))

  -- The loop of `parse_inventory_nbt`.
  unfoldable pub parse_slots : ℕ → Items → Answer (List ParsedInventoryItem)
  unfolding collect parse_inventory_item
  parse_slots slot nil = answer []
  parse_slots slot (cons (dict item) items) =
      collect (parse_inventory_item item slot) (parse_slots (slot + 1) items)
  parse_slots slot (cons _ items) = parse_slots (slot + 1) items

-- `levels` is the room for nested calls that Python's limit of recursion leaves to the reader.
module _ (levels : ℕ) (decode : Str → Option (List ℕ)) (decode_utf8 : List ℕ → Str) where
  -- What `except ValueError` makes of the reader's outcome, and the list of items; a RecursionError
  -- leaves, and fuel never runs out.
  unfoldable pub root_items : Outcome Fields → Answer (Option Items)
  unfolding as_list get
  root_items (ok fields r) = answer (as_list (get (codes "i") fields))
  root_items value_error = answer none
  root_items recursion_error = raised
  root_items out_of_fuel = answer none

  -- By what `_decode_item_bytes` returns.
  unfoldable pub root_of : Option (List ℕ) → Answer (Option Items)
  unfolding root_items
  root_of none = answer none
  root_of (some raw_bytes) =
      root_items
        (read_root_compound decode_utf8 levels (record { buffer = raw_bytes; node_count = 0 }))

  -- `_parse_inventory_root`
  unfoldable pub parse_inventory_root : Str → Answer (Option Items)
  unfolding root_of
  parse_inventory_root encoded = root_of (decode encoded)

  unfoldable pub auction_item : Option Fields → Option ℕ → Answer (Option ParsedAuctionItem)
  auction_item none count = answer none
  auction_item (some extra_attributes) none = raised
  auction_item (some extra_attributes) (some count) =
      answer (some record { count = count; extra_attributes = extra_attributes })

  -- The first item, its tag and the attributes of that.
  unfoldable pub first_item : Answer (Option Items) → Answer (Option ParsedAuctionItem)
  unfolding auction_item as_dict get count_of
  first_item raised = raised
  first_item (answer (some (cons (dict item) items))) =
      auction_item
        (do tag ← as_dict (get (codes "tag") item); as_dict (get (codes "ExtraAttributes") tag))
        (count_of (get (codes "Count") item))
  first_item (answer _) = answer none

  unfoldable pub parse_item_bytes_nbt : Str → Answer (Option ParsedAuctionItem)
  unfolding first_item
  parse_item_bytes_nbt encoded = first_item (parse_inventory_root encoded)

  unfoldable pub inventory_of :
      (Value → Str) → Answer (Option Items) → Answer (Option (List ParsedInventoryItem))
  unfolding parse_slots listed_or_raised
  inventory_of show raised = raised
  inventory_of show (answer none) = answer none
  inventory_of show (answer (some items)) = listed_or_raised (parse_slots show 0 items)

  unfoldable pub parse_inventory_nbt :
      (Value → Str) → Str → Answer (Option (List ParsedInventoryItem))
  unfolding inventory_of
  parse_inventory_nbt show encoded = inventory_of show (parse_inventory_root encoded)
