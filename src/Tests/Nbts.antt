-- ===== src/Tests/Nbts.antt =====
-- The reader and the inventory on a payload written out, and the decompression by a copying stub.
use scam_screener_api.Base.{
  ℕ, ◌≡◌, refl, Str, str_beq, codes, true, Option, some, List, [], ◌∷◌, ◌++◌, length, take, drop,
  length-take, length-drop, arith,
}
use scam_screener_api.Base.Int.{pos}
use scam_screener_api.Base.Text.{strip}
use scam_screener_api.Nbt.{Value, int, text, dict, Items, nil, cons, end, field}
use scam_screener_api.Nbt.{assign, recursion_error}
use scam_screener_api.Nbt.Reader.{
  read_exact, unsigned_from, signed, read_unsigned, read_signed, validate_collection_length,
  read_length, read_times, byte_items, count_node, read_string, read_fields, read_compound,
  payload_of, read_payload, require_dict, read_root_compound,
}
use scam_screener_api.Nbt.Total.{Within, read_root_compound-Within}
use scam_screener_api.Nbt.Decompress.{Bytes, Decompressor, Progresses, bounded_decompress}
use scam_screener_api.Nbt.Bounded.{IsBounded, bounded_decompress-IsBounded}
use scam_screener_api.Nbt.Inventory.{
  get, as_list, root_items, root_of, ParsedInventoryItem, answer, parse_inventory_root,
  parse_inventory_nbt,
}
use scam_screener_api.Nbt.Slots.{AreListed, parse_inventory_nbt-AreListed}

-- The reader's `decode` of ASCII.
abbrev ascii : List ℕ → Str
ascii bytes = bytes

-- A named tag of one byte type.
abbrev tagged : ℕ → Str → List ℕ → List ℕ
tagged tag_type name payload = tag_type ∷ 0 ∷ length name ∷ name ++ payload

-- {"i": [{"id": "A", "Count": 3, "tag": {}}, {}]}
abbrev payload : List ℕ
payload =
    10
      ∷ 0
      ∷ 0
      ∷ tagged 9 (codes "i") (
          10 ∷ 0 ∷ 0 ∷ 0 ∷ 2 ∷ tagged 8 (codes "id") (0 ∷ 1 ∷ b'A' ∷ [])
          ++ tagged 1 (codes "Count") (3 ∷ [])
          ++ tagged 10 (codes "tag") (0 ∷ [])
          ++ 0 ∷ 0 ∷ [])
    ++ 0 ∷ []

read_root_compound-Within_example :
    Within 900
      (record { buffer = payload; node_count = 0 })
      (read_root_compound ascii 900 (record { buffer = payload; node_count = 0 }))
read_root_compound-Within_example = read_root_compound-Within 900 ascii payload

-- With room for two levels the same payload, which nests three deep, raises.
root_raises :
    read_root_compound ascii 2 (record { buffer = payload; node_count = 0 }) ≡ recursion_error
unfolding read_exact unsigned_from signed read_unsigned read_signed validate_collection_length
    read_length read_times byte_items count_node read_string read_fields read_compound payload_of
    read_payload require_dict read_root_compound
root_raises = refl

-- No base64 and no zlib: the payload itself.
abbrev decode : Str → Option (List ℕ)
decode encoded = some payload

abbrev show : Value → Str
show v = []

abbrev inventory : Items
inventory =
    cons
      (dict (
        field (codes "id") (text (codes "A"))
          (field (codes "Count") (int (pos 3)) (field (codes "tag") (dict end) end))))
      (cons (dict end) nil)

root_read : parse_inventory_root 900 decode ascii [] ≡ answer (some inventory)
unfolding parse_inventory_root get as_list root_items root_of assign read_exact unsigned_from signed
    read_unsigned read_signed validate_collection_length read_length read_times byte_items
    count_node read_string read_fields read_compound payload_of read_payload require_dict
    read_root_compound str_beq
root_read = refl

listed : List ParsedInventoryItem
listed = record { slot = 0; item_id = codes "A"; name = codes "A"; count = 3 } ∷ []

inventory_read : parse_inventory_nbt 900 decode ascii show [] ≡ answer (some listed)
unfolding listed parse_inventory_nbt parse_inventory_root read_root_compound read_unsigned
    read_string read_payload assign str_beq strip
inventory_read = refl

parse_inventory_nbt-AreListed_example : AreListed 0 2 listed
parse_inventory_nbt-AreListed_example =
    parse_inventory_nbt-AreListed 900 decode ascii show [] inventory listed root_read inventory_read

-- A decompressor that copies; its state is the input that it has not taken.
abbrev copier : Decompressor
copier = record {
  State = Bytes;
  start = [];
  decompress = λ s input max_length. some (take max_length input, drop max_length input);
  flush = λ s size. some ([], s);
  unconsumed_tail = λ s. s;
  eof = λ s. true;
  unused_data = λ s. [];
}

copier-Progresses : Progresses copier
copier-Progresses = record {
  progress = λ s input n chunk s' e p q. ground (arith, length-take n input, length-drop n input);
  no_growth = λ s input n chunk s' e. ground (arith, length-drop n input);
}

bounded_decompress-IsBounded_example : IsBounded (bounded_decompress copier payload)
bounded_decompress-IsBounded_example = bounded_decompress-IsBounded copier copier-Progresses payload
