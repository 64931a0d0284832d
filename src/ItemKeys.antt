-- ===== src/ItemKeys.antt =====
-- app/marketguard_api/item_keys.py: the keys under which an auctioned item is indexed. What the
-- code takes from Python beyond this library is the record `Python`.
pub mod Names
pub mod Attributes
pub mod Resolve
pub mod Distinct
pub mod Errors
use scam_screener_api.Base.{
  ℕ, zero, suc, ◌+◌, ◌-◌, ◌*◌, ◌/◌, ◌%◌, ◌^◌, Str, Bool, true, false, not, ◌||◌, ◌&&◌, Option, none,
  some, List, [], ◌∷◌, ◌++◌, leb, ltb, ◌==◌, if◌then◌else◌,
}
use scam_screener_api.Base.Int.{ℤ, pos, negsuc}
use scam_screener_api.Nbt.{Value, null, int, float32, float64, text, list, dict, Fields}
use scam_screener_api.Nbt.Inventory.{truncate}

-- What `json.loads` makes of a text: JSONDecodeError, an object, a value without `get`, or an
-- exception that is no JSONDecodeError (the ValueError of an integer with over 4300 digits, or the
-- RecursionError of deep nesting). The code reads `str(value or "")` of fields only, for which a Boolean may be its text.
pub data Json : Type 0 where
  invalid : Json
  object : Fields → Json
  no_object : Json
  failed : Json

-- `str` of a value that is no text, `str.upper`, `json.loads`, and the digit of a character
-- that matches `\d`.
pub record Python : Type 0 where
  pub show : Value → Str
  pub upper : Str → Str
  pub json_loads : Str → Json
  pub digit_value : ℕ → Option ℕ

-- `str` of a natural number, on fuel; a number has no more digits than units.
unfoldable pub digits : ℕ → ℕ → Str
digits zero n = []
digits (suc fuel) n =
    let rest = digits fuel (n / 10) in
    if ltb n 10 then (b'0' + n) ∷ [] else rest ++ (b'0' + n % 10) ∷ []

unfoldable pub decimal : ℤ → Str
unfolding digits
decimal (pos n) = digits (n + 1) n
decimal (negsuc n) = b'-' ∷ digits (n + 2) (n + 1)

-- `value.is_integer()` of a float, given as its bits as for `truncate`.
unfoldable pub is_integer : ℕ → ℕ → ℕ → Bool
is_integer exponent_bits mantissa_bits bits =
    let exponent = bits / 2 ^ mantissa_bits % 2 ^ exponent_bits in
    let mantissa = bits % 2 ^ mantissa_bits in
    let point = 2 ^ (exponent_bits - 1) - 1 + mantissa_bits in
    if exponent == 2 ^ exponent_bits - 1
    then false
    else if exponent == 0
    then mantissa == 0
    else leb point exponent || (2 ^ mantissa_bits + mantissa) % 2 ^ (point - exponent) == 0

-- `_coerce_int`
unfoldable pub coerce_int : Value → Option ℤ
unfolding is_integer
coerce_int (int n) = some n
coerce_int (float32 bits) = if is_integer 8 23 bits then truncate 8 23 bits else none
coerce_int (float64 bits) = if is_integer 11 52 bits then truncate 11 52 bits else none
coerce_int null = none
coerce_int (text s) = none
coerce_int (list items) = none
coerce_int (dict fields) = none

-- `_coerce_int(fields.get(name))`
unfoldable pub coerce_found : Option Value → Option ℤ
unfolding coerce_int
coerce_found none = none
coerce_found (some v) = coerce_int v

-- `s.replace(":", "-")`
unfoldable pub dashes : Str → Str
dashes [] = []
dashes (c ∷ s) = (if c == b':' then b'-' else c) ∷ dashes s
