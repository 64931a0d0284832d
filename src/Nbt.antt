-- ===== src/Nbt.antt =====
-- app/marketguard_api/nbt.py: the values that a payload decodes to, the reader's state and its
-- errors. `decode_utf8`, an argument below, is `bytes.decode("utf-8", errors="replace")`.
pub mod Reader
pub mod Total
pub mod Decompress
pub mod Bounded
pub mod Inventory
pub mod Slots
use scam_screener_api.Base.{ℕ, ◌≤◌, Str, List, if◌then◌else◌, Bool, true, false, ◌==◌, str_beq}
use scam_screener_api.Base.Int.{ℤ}

-- What Python holds: None, int, float as its bits, str, list and dict.
mutual
  pub data Value : Type 0 where
    null : Value
    int : ℤ → Value
    float32 : ℕ → Value
    float64 : ℕ → Value
    text : Str → Value
    list : Items → Value
    dict : Fields → Value

  pub data Items : Type 0 where
    nil : Items
    cons : Value → Items → Items

  pub data Fields : Type 0 where
    end : Fields
    field : Str → Value → Fields → Fields

-- `result[name] = value`
unfoldable pub assign : Str → Value → Fields → Fields
assign name v end = field name v end
assign name v (field n w fields) =
    let rest = assign name v fields in if str_beq name n then field n v fields else field n w rest

abbrev pub max_nbt_collection_items : ℕ
max_nbt_collection_items = 100_000

abbrev pub max_nbt_nodes : ℕ
max_nbt_nodes = 100_000

-- `_NbtReader`: the bytes that the buffer has left, and `_node_count`.
pub record NbtReader : Type 0 where
  pub buffer : List ℕ
  pub node_count : ℕ

-- A result with the reader behind it, a `ValueError`, a `RecursionError`, or a model that has run
-- out of fuel.
pub data Outcome {ℓ} (A : Type ℓ) : Type ℓ where
  ok : A → NbtReader → Outcome A
  value_error : Outcome A
  recursion_error : Outcome A
  out_of_fuel : Outcome A

abbrev pub Read {ℓ} : Type ℓ → Type ℓ
Read A = NbtReader → Outcome A

abbrev pub pure {ℓ} : {A : Type ℓ} → A → Read A
pure a r = ok a r

abbrev pub fail {ℓ} : {A : Type ℓ} → Read A
fail r = value_error

abbrev pub bind {ℓ κ} : {A : Type ℓ} {B : Type κ} → Outcome A → (A → Read B) → Outcome B
bind (ok a r) f = f a r
bind value_error f = value_error
bind recursion_error f = recursion_error
bind out_of_fuel f = out_of_fuel

infixl 5 ◌>>=◌ ◌>>◌
abbrev pub ◌>>=◌ {ℓ κ} : {A : Type ℓ} {B : Type κ} → Read A → (A → Read B) → Read B
◌>>=◌ m f r = bind (m r) f

abbrev pub ◌>>◌ {ℓ} : {B : Type ℓ} → Read (Unit {0}) → Read B → Read B
m >> k = m >>= λ _. k
