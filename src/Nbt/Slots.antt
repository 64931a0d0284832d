-- ===== src/Nbt/Slots.antt =====
-- What a parsed inventory lists: `parse_inventory_nbt` from its items on.
use scam_screener_api.Base.{
  ℕ, suc, ◌+◌, ◌≤◌, ◌<◌, ◌≡◌, refl, sym, ap, subst, ◌∙◌, Str, codes, List, [], ◌∷◌, length,
  length-take, Option, none, some, arith, false,
}
use scam_screener_api.Base.Options.{◌>>=◌}
use scam_screener_api.Base.Int.{clamp_low, clamp_low_bound, ℤ}
use scam_screener_api.Base.Text.{strip}
use scam_screener_api.Nbt.{
  Value, null, int, float32, float64, text, list, dict, Items, nil, cons, Fields,
}
use scam_screener_api.Nbt.Inventory.{
  ParsedInventoryItem, count_of, truncate, cleaned, strip_minecraft_formatting, or_text, Answer,
  answer, raised, safe_item_text, stripped, inventory_item, tagged_item, parse_inventory_item,
  collect, parse_slots, parse_inventory_root, inventory_of, listed_or_raised, parse_inventory_nbt,
  get,
}

abbrev pub size : Items → ℕ
size nil = 0
size (cons v items) = suc (size items)

-- An item that names itself, within 256 characters, and of which there is one at least.
abbrev pub IsNamed : ParsedInventoryItem → Type 0
IsNamed item =
    (1 ≤ item.count)
    × (1 ≤ length item.item_id)
    × (length item.item_id ≤ 256)
    × (1 ≤ length item.name)
    × (length item.name ≤ 256)

-- Named items whose slots go up, from `low` on and below `high`.
abbrev pub AreListed : ℕ → ℕ → List ParsedInventoryItem → Type 0
AreListed low high [] = Unit
AreListed low high (item ∷ items) =
    (low ≤ item.slot) × (item.slot < high) × IsNamed item × AreListed (item.slot + 1) high items

abbrev AreListedIn : ℕ → ℕ → Answer (List ParsedInventoryItem) → Type 0
AreListedIn low high (answer items) = AreListed low high items
AreListedIn low high raised = Unit

AreListed-lower :
    (low low' high : ℕ) (items : List ParsedInventoryItem)
    → low ≤ low'
    → AreListed low' high items
    → AreListed low high items
AreListed-lower low low' high [] p h = tt
AreListed-lower low low' high (item ∷ items) p (l, b, n, rest) = (omega arith, b, n, rest)

abbrev IsNamedAt : ℕ → Answer (Option ParsedInventoryItem) → Type 0
IsNamedAt slot (answer (some item)) = (item.slot ≡ slot) × IsNamed item
IsNamedAt slot (answer none) = Unit
IsNamedAt slot raised = Unit

truncated_bound :
    (t : Option ℤ) (count : ℕ) → (t >>= λ n. some (clamp_low 1 n)) ≡ some count → 1 ≤ count
truncated_bound none count e = ground arith
truncated_bound (some n) count e = ground (arith, clamp_low_bound 1 n)

count_of_bound : (v : Option Value) (count : ℕ) → count_of v ≡ some count → 1 ≤ count
unfolding count_of
count_of_bound none count e = ground arith
count_of_bound (some null) count e = ground arith
count_of_bound (some (int n)) count e = ground (arith, clamp_low_bound 1 n)
count_of_bound (some (float32 bits)) count e = truncated_bound (truncate 8 23 bits) count e
count_of_bound (some (float64 bits)) count e = truncated_bound (truncate 11 52 bits) count e
count_of_bound (some (text s)) count e = ground arith
count_of_bound (some (list items)) count e = ground arith
count_of_bound (some (dict fields)) count e = ground arith

or_text_bound :
    (n : ℕ) (left right : Str)
    → length left ≤ n
    → length right ≤ n
    → 1 ≤ length right
    → (1 ≤ length (or_text left right)) × (length (or_text left right) ≤ n)
unfolding or_text
or_text_bound n [] right p q r = (r, q)
or_text_bound n (c ∷ left) right p q r = (omega arith, p)

strip_minecraft_formatting_bound : (s : Str) → length (strip_minecraft_formatting s) ≤ 256
unfolding strip_minecraft_formatting
strip_minecraft_formatting_bound s = omega (arith, length-take 256 (strip (cleaned false s)))

inventory_item-IsNamed :
    (show : Value → Str) (slot : ℕ) (item_id name : Str) (count : Option ℕ)
    → length item_id ≤ 256
    → ((n : ℕ) → count ≡ some n → 1 ≤ n)
    → IsNamedAt slot (inventory_item show slot item_id name count)
unfolding inventory_item
inventory_item-IsNamed show slot [] name count small positive = tt
inventory_item-IsNamed show slot (c ∷ item_id) name none small positive = tt
inventory_item-IsNamed show slot (c ∷ item_id) name (some n) small positive =
    let shown =
      or_text_bound 256 (strip_minecraft_formatting (or_text name (c ∷ item_id))) (c ∷ item_id)
        (strip_minecraft_formatting_bound (or_text name (c ∷ item_id))) small (omega arith) in
    (refl, (positive n refl, omega arith, small, shown.0, shown.1))

or_text_le :
    (n : ℕ) (left right : Str)
    → length left ≤ n
    → length right ≤ n
    → length (or_text left right) ≤ n
unfolding or_text
or_text_le n [] right p q = q
or_text_le n (c ∷ left) right p q = p

safe_item_text_bound :
    (show : Value → Str) (v : Option Value) → length (safe_item_text show v) ≤ 256
unfolding safe_item_text
safe_item_text_bound show v = omega (arith, length-take 256 (stripped show v))

tagged_item-IsNamed :
    (show : Value → Str) (slot : ℕ) (item : Fields) (tag : Option Fields)
    → IsNamedAt slot (tagged_item show slot item tag)
unfolding tagged_item
tagged_item-IsNamed show slot item none = tt
tagged_item-IsNamed show slot item (some tag) =
    inventory_item-IsNamed show slot _ _ _ (search (or_text_le, safe_item_text_bound))
      (count_of_bound (get (codes "Count") item))

collect-AreListed :
    (slot high : ℕ) (parsed : Answer (Option ParsedInventoryItem))
    (rest : Answer (List ParsedInventoryItem))
    → slot < high
    → IsNamedAt slot parsed
    → AreListedIn (slot + 1) high rest
    → AreListedIn slot high (collect parsed rest)
unfolding collect
collect-AreListed slot high raised rest p named listed = tt
collect-AreListed slot high (answer none) raised p named listed = tt
collect-AreListed slot high (answer none) (answer items) p named listed =
    AreListed-lower slot (slot + 1) high items (omega arith) listed
collect-AreListed slot high (answer (some item)) raised p named listed = tt
collect-AreListed slot high (answer (some item)) (answer items) p named listed = (
  omega (arith, named.0),
  omega (arith, named.0),
  named.1,
  AreListed-lower (item.slot + 1) (slot + 1) high items (omega (arith, named.0)) listed,
)

AreListedIn-lower :
    (low high : ℕ) (parsed : Answer (List ParsedInventoryItem))
    → AreListedIn (low + 1) high parsed
    → AreListedIn low high parsed
AreListedIn-lower low high raised h = tt
AreListedIn-lower low high (answer items) h =
    AreListed-lower low (low + 1) high items (omega arith) h

parse_slots-AreListed :
    (show : Value → Str) (slot high : ℕ) (items : Items)
    → slot + size items ≤ high
    → AreListedIn slot high (parse_slots show slot items)
unfolding parse_slots parse_inventory_item
parse_slots-AreListed show slot high nil p = tt
parse_slots-AreListed show slot high (cons v items) p =
    let later = parse_slots-AreListed show (slot + 1) high items (omega arith) in
    elim v as (λ v. AreListedIn slot high (parse_slots show slot (cons v items))) [
      | null ↦ AreListedIn-lower slot high _ later
      | int n ↦ AreListedIn-lower slot high _ later
      | float32 bits ↦ AreListedIn-lower slot high _ later
      | float64 bits ↦ AreListedIn-lower slot high _ later
      | text s ↦ AreListedIn-lower slot high _ later
      | list vs ↦ AreListedIn-lower slot high _ later
      | dict item ↦
          collect-AreListed slot high (parse_inventory_item show item slot) _ (omega arith)
            (tagged_item-IsNamed show slot item _) later
    ]

answered-AreListed :
    (low high : ℕ) (slots : Answer (List ParsedInventoryItem)) (parsed : List ParsedInventoryItem)
    → AreListedIn low high slots
    → listed_or_raised slots ≡ answer (some parsed)
    → AreListed low high parsed
unfolding listed_or_raised
answered-AreListed low high raised parsed h e = ground arith
answered-AreListed low high (answer items) parsed h e = subst (AreListed low high) (ground arith) h

-- The slots that `parse_inventory_nbt` lists go up within the item list of the payload, and every
-- item of its answer has a count from 1 up, an id and a name, both of at most 256 characters.
pub parse_inventory_nbt-AreListed :
    (levels : ℕ) (decode : Str → Option (List ℕ)) (decode_utf8 : List ℕ → Str) (show : Value → Str)
    (encoded : Str) (items : Items) (parsed : List ParsedInventoryItem)
    → parse_inventory_root levels decode decode_utf8 encoded ≡ answer (some items)
    → parse_inventory_nbt levels decode decode_utf8 show encoded ≡ answer (some parsed)
    → AreListed 0 (size items) parsed
unfolding parse_inventory_nbt inventory_of
parse_inventory_nbt-AreListed levels decode decode_utf8 show encoded items parsed got listed =
    answered-AreListed 0 (size items) (parse_slots show 0 items) parsed
      (parse_slots-AreListed show 0 (size items) items (omega arith))
      (sym (ap (inventory_of levels decode decode_utf8 show) got) ∙ listed)
