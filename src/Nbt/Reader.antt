-- ===== src/Nbt/Reader.antt =====
-- The methods of `_NbtReader`.
use scam_screener_api.Base.{
  ℕ, zero, suc, ◌+◌, ◌-◌, ◌*◌, ◌^◌, Str, List, [], ◌∷◌, length, take, drop, ltb, ◌==◌,
  if◌then◌else◌,
}
use scam_screener_api.Base.Int.{ℤ, pos, negsuc}
use scam_screener_api.Nbt.{
  Value, null, int, float32, float64, text, list, dict, Items, nil, cons, Fields, end, assign,
  max_nbt_collection_items, max_nbt_nodes, ok, value_error, recursion_error, out_of_fuel, Read,
  pure, fail, ◌>>=◌, ◌>>◌,
}

-- `_read_exact`
unfoldable pub read_exact : ℤ → Read (List ℕ)
read_exact (negsuc n) r = value_error
read_exact (pos size) r =
    if ltb (length r.buffer) size
    then value_error
    else ok (take size r.buffer) (record r { buffer = drop size r.buffer })

-- Big-endian, without and with a sign (the formats `>B >H` and `>b >h >i >q`).
unfoldable pub unsigned_from : ℕ → List ℕ → ℕ
unsigned_from acc [] = acc
unsigned_from acc (byte ∷ bytes) = unsigned_from (acc * 256 + byte) bytes

unfoldable pub signed : ℕ → ℕ → ℤ
signed size n = if ltb n (2 ^ (8 * size - 1)) then pos n else negsuc (2 ^ (8 * size) - n - 1)

unfoldable pub read_unsigned : ℕ → Read ℕ
unfolding read_exact unsigned_from
read_unsigned size = do bytes ← read_exact (pos size); pure (unsigned_from 0 bytes)

unfoldable pub read_signed : ℕ → Read ℤ
unfolding read_unsigned signed
read_signed size = do n ← read_unsigned size; pure (signed size n)

-- `_validate_collection_length`: the length as a count.
unfoldable pub validate_collection_length : ℤ → Read ℕ
validate_collection_length (negsuc n) = fail
validate_collection_length (pos n) = if ltb max_nbt_collection_items n then fail else pure n

unfoldable pub read_length : Read ℕ
unfolding read_signed validate_collection_length
read_length = do length ← read_signed 4; validate_collection_length length

-- `[... for _ in range(length)]`
unfoldable pub read_times : Read Value → ℕ → Read Items
read_times read zero = pure nil
read_times read (suc n) = do v ← read; vs ← read_times read n; pure (cons v vs)

unfoldable pub byte_items : List ℕ → Items
byte_items [] = nil
byte_items (byte ∷ bytes) = cons (int (pos byte)) (byte_items bytes)

-- The `_node_count` test at the head of `_read_payload`.
unfoldable pub count_node : Read (Unit {0})
count_node r =
    if ltb max_nbt_nodes (r.node_count + 1)
    then value_error
    else ok tt (record r { node_count = r.node_count + 1 })

module _ (decode_utf8 : List ℕ → Str) where
  -- `_read_string`
  unfoldable pub read_string : Read Str
  unfolding read_unsigned
  read_string = do
    length ← read_unsigned 2
    bytes ← read_exact (pos length)
    pure (decode_utf8 bytes)

  -- `while True` of a compound, on fuel; `read` is `_read_payload` of a tag type.
  unfoldable pub read_fields : (ℕ → Read Value) → ℕ → Fields → Read Fields
  unfolding read_string
  read_fields read zero result = λ r. out_of_fuel
  read_fields read (suc fuel) result = do
    nested_type ← read_unsigned 1
    let more = do
      name ← read_string
      v ← read nested_type
      read_fields read fuel (assign name v result)
    if nested_type == 0 then pure result else more

  -- A round of the loop takes a byte at least.
  unfoldable pub read_compound : (ℕ → Read Value) → Read Value
  unfolding read_fields
  read_compound read r =
      (do fields ← read_fields read (length r.buffer + 1) end; pure (dict fields)) r

  -- The dispatch of `_read_payload` on the tag type; `nested` is `_read_payload` itself.
  unfoldable pub payload_of : (ℕ → Read Value) → ℕ → Read Value
  unfolding read_signed read_string read_times read_length byte_items read_compound
  payload_of nested tag_type =
      if tag_type == 0
      then pure null
      else if tag_type == 1
      then (do n ← read_signed 1; pure (int n))
      else if tag_type == 2
      then (do n ← read_signed 2; pure (int n))
      else if tag_type == 3
      then (do n ← read_signed 4; pure (int n))
      else if tag_type == 4
      then (do n ← read_signed 8; pure (int n))
      else if tag_type == 5
      then (do n ← read_unsigned 4; pure (float32 n))
      else if tag_type == 6
      then (do n ← read_unsigned 8; pure (float64 n))
      else if tag_type == 7
      then (do n ← read_length; bytes ← read_exact (pos n); pure (list (byte_items bytes)))
      else if tag_type == 8
      then (do s ← read_string; pure (text s))
      else if tag_type == 9
      then (do
        item_type ← read_unsigned 1
        n ← read_length
        vs ← read_times (nested item_type) n
        pure (list vs))
      else if tag_type == 10
      then read_compound nested
      else if tag_type == 11
      then (do
        n ← read_length
        vs ← read_times (do i ← read_signed 4; pure (int i)) n
        pure (list vs))
      else if tag_type == 12
      then (do
        n ← read_length
        vs ← read_times (do i ← read_signed 8; pure (int i)) n
        pure (list vs))
      else fail

  -- `_read_payload`, with the number of levels of its nested calls for which Python's limit of
  -- recursion leaves room, this one included. Where there is none the call itself raises.
  unfoldable pub read_payload : ℕ → ℕ → Read Value
  unfolding count_node payload_of
  read_payload zero tag_type = λ r. recursion_error
  read_payload (suc levels) tag_type =
      let nested = read_payload levels in do count_node; payload_of nested tag_type

  -- The last test of `read_root_compound`.
  unfoldable pub require_dict : Value → Read Fields
  require_dict (dict fields) = pure fields
  require_dict _ = fail

  -- `read_root_compound` of a reader of these bytes, where Python has room for `levels` levels.
  unfoldable pub read_root_compound : ℕ → Read Fields
  unfolding require_dict
  read_root_compound levels = do
    tag_type ← read_unsigned 1
    let root = do _ ← read_string; payload ← read_payload levels tag_type; require_dict payload
    if tag_type == 10 then root else fail
