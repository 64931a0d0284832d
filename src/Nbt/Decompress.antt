-- ===== src/Nbt/Decompress.antt =====
-- `_bounded_decompress` and `_decode_item_bytes`, over base64 and zlib as arguments.
use scam_screener_api.Base.{
  ℕ, zero, suc, ◌+◌, ◌-◌, ◌*◌, ◌≤◌, ◌<◌, ◌≡◌, Str, Bool, true, false, not, ◌||◌, Option, none, some,
  List, [], ◌∷◌, ◌++◌, length, ltb, ◌==◌, if◌then◌else◌, min,
}

abbrev pub Bytes : Type 0
Bytes = List ℕ

abbrev pub max_compressed_bytes : ℕ
max_compressed_bytes = 1_000_000

abbrev pub max_decompressed_bytes : ℕ
max_decompressed_bytes = 8_000_000

abbrev pub decompress_chunk_bytes : ℕ
decompress_chunk_bytes = 64 * 1024

-- `zlib.decompressobj`: `decompress(data, max_length)` and `flush(length)` give the output, or
-- `none` for `zlib.error`.
pub record Decompressor : Type 1 where
  pub State : Type 0
  pub start : State
  pub decompress : State → Bytes → ℕ → Option (Bytes × State)
  pub flush : State → ℕ → Option (Bytes × State)
  pub unconsumed_tail : State → Bytes
  pub eof : State → Bool
  pub unused_data : State → Bytes

-- What the loop relies on: input that is left has not been taken, and a call takes some or puts
-- out some.
pub record Progresses (z : Decompressor) : Type 0 where
  pub progress :
      (s : z.State) (input : Bytes) (max_length : ℕ) (chunk : Bytes) (s' : z.State)
      → z.decompress s input max_length ≡ some (chunk, s')
      → 0 < max_length
      → 0 < length input
      → length (z.unconsumed_tail s') < length input + length chunk
  pub no_growth :
      (s : z.State) (input : Bytes) (max_length : ℕ) (chunk : Bytes) (s' : z.State)
      → z.decompress s input max_length ≡ some (chunk, s')
      → length (z.unconsumed_tail s') ≤ length input

-- The bytes, `None` for a payload that is refused, or `zlib.error`.
pub data Inflated : Type 0 where
  inflated : Bytes → Inflated
  refused : Inflated
  zlib_error : Inflated
  out_of_fuel : Inflated

module _ (z : Decompressor) where
  open z use {State, start, decompress, flush, unconsumed_tail, eof, unused_data}

  unfoldable pub is_empty : Bytes → Bool
  is_empty [] = true
  is_empty (byte ∷ bytes) = false

  -- Behind the loop: the flush and the last tests.
  unfoldable pub flushed : Bytes → Option (Bytes × State) → Inflated
  unfolding is_empty
  flushed output none = zlib_error
  flushed output (some (rest, s)) =
      let whole = output ++ rest in
      if ltb max_decompressed_bytes (length whole)
      then refused
      else if not (eof s) || not (is_empty (unused_data s))
      then zlib_error
      else inflated whole

  unfoldable pub finish : Bytes → State → Inflated
  unfolding flushed
  finish output s =
      let remaining_capacity = max_decompressed_bytes + 1 - length output in
      if remaining_capacity == 0 then refused else flushed output (flush s remaining_capacity)

  -- One chunk of the loop, by what zlib returned; `next` goes on.
  unfoldable pub take_chunk : Bytes → Option (Bytes × State) → (Bytes → State → Inflated) → Inflated
  take_chunk output none next = zlib_error
  take_chunk output (some (chunk, s)) next =
      let output' = output ++ chunk in
      if ltb max_decompressed_bytes (length output') then refused else next output' s

  -- `while remaining`, on fuel.
  unfoldable pub inflate_loop : ℕ → Bytes → Bytes → State → Inflated
  unfolding finish take_chunk
  inflate_loop zero remaining output s = out_of_fuel
  inflate_loop (suc fuel) [] output s = finish output s
  inflate_loop (suc fuel) (byte ∷ remaining) output s =
      let remaining_capacity = max_decompressed_bytes + 1 - length output in
      if remaining_capacity == 0
      then refused
      else take_chunk output
          (decompress s (byte ∷ remaining) (min decompress_chunk_bytes remaining_capacity))
          (λ output' s'. inflate_loop fuel (unconsumed_tail s') output' s')

  -- Each round shortens the input or lengthens the output, which stays within the limit.
  unfoldable pub bounded_decompress : Bytes → Inflated
  bounded_decompress compressed =
      inflate_loop (length compressed + max_decompressed_bytes + 1) compressed [] start

  -- `except zlib.error`: no bytes.
  unfoldable pub to_bytes : Inflated → Option Bytes
  to_bytes (inflated bytes) = some bytes
  to_bytes _ = none

  unfoldable pub inflate_checked : Option Bytes → Option Bytes
  unfolding to_bytes
  inflate_checked none = none
  inflate_checked (some compressed) =
      if ltb max_compressed_bytes (length compressed)
      then none
      else to_bytes (bounded_decompress compressed)

  -- `_decode_item_bytes`; `b64decode` is `none` where `base64.b64decode` raises.
  unfoldable pub decode_item_bytes : (Str → Option Bytes) → Str → Option Bytes
  unfolding inflate_checked
  decode_item_bytes b64decode encoded = inflate_checked (b64decode encoded)
