-- ===== src/Nbt/Total.antt =====
-- The reader ends on every payload, and stays within its node limit and its buffer; with little
-- room for recursion it may end in a RecursionError.
use scam_screener_api.Base.{
  ℕ, zero, suc, ◌+◌, ◌≤◌, ◌<◌, ◌≡◌, refl, Str, Bool, true, false, List, length, take, drop,
  length-drop, ltb, ◌==◌, arith, if◌then◌else◌, Bool-cases, inl, inr,
}
use scam_screener_api.Base.Int.{ℤ, pos, negsuc}
use scam_screener_api.Nbt.{
  Value, dict, nil, Fields, end, assign, max_nbt_nodes, NbtReader, Outcome, ok, value_error,
  recursion_error, out_of_fuel, Read, pure, fail, bind, ◌>>=◌,
}
use scam_screener_api.Nbt.Reader.{
  read_exact, read_unsigned, read_signed, validate_collection_length, read_length, read_times,
  count_node, read_string, read_fields, read_compound, payload_of, read_payload, require_dict,
  read_root_compound, unsigned_from,
}
use native.Mathlib.Nat.{le_refl}

-- With room for `levels` levels of nested calls.
module _ (levels : ℕ) where
  -- A result within the limits: the node count has not gone down and is at most the limit, and the
  -- buffer has not grown. A `ValueError` is a result, a `RecursionError` is one where there is not room
  -- for more levels than nodes may be counted; running out of fuel is none.
  abbrev pub Within {ℓ} : {A : Type ℓ} → NbtReader → Outcome A → Type 0
  Within r (ok a r') =
      (r.node_count ≤ r'.node_count)
      × (r'.node_count ≤ max_nbt_nodes)
      × (length r'.buffer ≤ length r.buffer)
  Within r value_error = Unit
  Within r recursion_error = levels ≤ max_nbt_nodes
  Within r out_of_fuel = ⊥

  -- From any reader that has counted `least` nodes at least, and not too many.
  record IsTotal {ℓ} {A : Type ℓ} (least : ℕ) (m : Read A) : Type ℓ where
    at : (r : NbtReader) → least ≤ r.node_count → r.node_count ≤ max_nbt_nodes → Within r (m r)

  Within-trans {ℓ} :
      {A : Type ℓ} (r s : NbtReader) (o : Outcome A)
      → r.node_count ≤ s.node_count
      → length s.buffer ≤ length r.buffer
      → Within s o
      → Within r o
  Within-trans r s (ok a t) p q w = omega arith
  Within-trans r s value_error p q w = w
  Within-trans r s recursion_error p q w = w
  Within-trans r s out_of_fuel p q w = w

  Within-bind {ℓ κ} :
      {A : Type ℓ} {B : Type κ} (r : NbtReader) (o : Outcome A) (f : A → Read B)
      → Within r o
      → ((a : A) (s : NbtReader)
          → r.node_count ≤ s.node_count
          → s.node_count ≤ max_nbt_nodes
          → length s.buffer ≤ length r.buffer
          → Within s (f a s))
      → Within r (bind o f)
  Within-bind r (ok a s) f w g = Within-trans r s (f a s) w.0 w.2 (g a s w.0 w.1 w.2)
  Within-bind r value_error f w g = tt
  Within-bind r recursion_error f w g = w
  Within-bind r out_of_fuel f w g = w

  module _ {ℓ} {A : Type ℓ} (least : ℕ) where
    IsTotal-pure : (a : A) → IsTotal least (pure a)
    IsTotal-pure a = record { at = λ r p q. omega arith }

    IsTotal-fail : IsTotal least (fail {A = A})
    IsTotal-fail = record { at = λ r p q. tt }

    IsTotal-if :
        (b : Bool) (m n : Read A)
        → IsTotal least m
        → IsTotal least n
        → IsTotal least (if b then m else n)
    IsTotal-if true m n km kn = km
    IsTotal-if false m n km kn = kn

  IsTotal-bind {ℓ κ} :
      {A : Type ℓ} {B : Type κ} (least : ℕ) (m : Read A) (f : A → Read B)
      → IsTotal least m
      → ((a : A) → IsTotal least (f a))
      → IsTotal least (m >>= f)
  IsTotal-bind least m f km kf = record {
    at = λ r p q. Within-bind r (m r) f (km.at r p q) (λ a s p' q' b. (kf a).at s (omega arith) q');
  }

  read_exact-IsTotal : (least : ℕ) (size : ℤ) → IsTotal least (read_exact size)
  unfolding read_exact
  read_exact-IsTotal least (negsuc n) = record { at = λ r p q. tt }
  read_exact-IsTotal least (pos n) = record { at = λ r p q. ground (arith, length-drop n r.buffer) }

  ruleset total_rules = (IsTotal-pure, IsTotal-fail, IsTotal-if, IsTotal-bind, read_exact-IsTotal)

  read_unsigned-IsTotal : (least size : ℕ) → IsTotal least (read_unsigned size)
  unfolding read_unsigned
  read_unsigned-IsTotal least size =
      IsTotal-bind least _ _ (read_exact-IsTotal least (pos size)) (λ bytes. IsTotal-pure least _)

  read_signed-IsTotal : (least size : ℕ) → IsTotal least (read_signed size)
  unfolding read_signed
  read_signed-IsTotal least size =
      IsTotal-bind least _ _ (read_unsigned-IsTotal least size) (λ n. IsTotal-pure least _)

  validate-IsTotal : (least : ℕ) (n : ℤ) → IsTotal least (validate_collection_length n)
  unfolding validate_collection_length
  validate-IsTotal least (negsuc n) = IsTotal-fail least
  validate-IsTotal least (pos n) =
      IsTotal-if least _ _ _ (IsTotal-fail least) (IsTotal-pure least n)

  read_length-IsTotal : (least : ℕ) → IsTotal least read_length
  unfolding read_length
  read_length-IsTotal least =
      IsTotal-bind least _ _ (read_signed-IsTotal least 4) (validate-IsTotal least)

  read_times-IsTotal :
      (least : ℕ) (read : Read Value)
      → IsTotal least read
      → (n : ℕ) → IsTotal least (read_times read n)
  unfolding read_times
  read_times-IsTotal least read total zero = IsTotal-pure least nil
  read_times-IsTotal least read total (suc n) = IsTotal-bind least _ _ total (λ v.
      IsTotal-bind least _ _ (read_times-IsTotal least read total n) (λ vs. IsTotal-pure least _))

  -- The tag byte of a round of the compound loop is taken from the buffer.
  shorter_bind {ℓ} :
      {A : Type ℓ} (size : ℕ) (r : NbtReader) (f : ℕ → Read A)
      → 0 < size
      → ((n : ℕ) (s : NbtReader)
          → s.node_count ≡ r.node_count
          → length s.buffer < length r.buffer
          → Within s (f n s))
      → Within r (bind (read_unsigned size r) f)
  unfolding read_unsigned read_exact
  shorter_bind size r f pos_size g = elim (Bool-cases (ltb (length r.buffer) size)) [
    | inl short ↦ rw short tt
    | inr enough ↦ rw enough (
        let s : NbtReader = record r { buffer = drop size r.buffer } in
        Within-trans r s (f (unsigned_from 0 (take size r.buffer)) s) (le_refl r.node_count)
          (omega (arith, length-drop size r.buffer))
          (g _ s refl (ground (arith, length-drop size r.buffer))))
  ]

  -- A node is counted, or the limit is reached.
  count_node-bind {ℓ} :
      {A : Type ℓ} (r : NbtReader) (m : Read A)
      → ((s : NbtReader)
          → s.node_count ≡ r.node_count + 1
          → length s.buffer ≡ length r.buffer
          → s.node_count ≤ max_nbt_nodes
          → Within s (m s))
      → Within r (bind (count_node r) (λ _. m))
  unfolding count_node
  count_node-bind r m g = elim (Bool-cases (ltb max_nbt_nodes (r.node_count + 1))) [
    | inl many ↦ rw many tt
    | inr few ↦ rw few (
        let s : NbtReader = record r { node_count = r.node_count + 1 } in
        Within-trans r s (m s) (omega arith) (le_refl (length r.buffer))
          (g s refl refl (ground arith)))
  ]

  module _ (decode_utf8 : List ℕ → Str) where
    read_string-IsTotal : (least : ℕ) → IsTotal least (read_string decode_utf8)
    unfolding read_string
    read_string-IsTotal least = IsTotal-bind least _ _ (read_unsigned-IsTotal least 2) (λ n.
        IsTotal-bind least _ _ (read_exact-IsTotal least (pos n)) (λ bytes. IsTotal-pure least _))

    read_fields-Within :
        (least : ℕ) (read : ℕ → Read Value)
        → ((tag_type : ℕ) → IsTotal least (read tag_type))
        → (fuel : ℕ) (result : Fields) (r : NbtReader) → length r.buffer < fuel
        → least ≤ r.node_count
        → r.node_count ≤ max_nbt_nodes
        → Within r (read_fields decode_utf8 read fuel result r)
    unfolding read_fields
    read_fields-Within least read total zero result r enough p q = absurd (omega arith)
    read_fields-Within least read total (suc fuel) result r enough p q =
        shorter_bind 1 r _ (omega arith) λ tag_type s same shorter.
          elim (Bool-cases (tag_type == 0)) [
            | inl done ↦ rw done (omega arith)
            | inr more ↦ rw more (
                Within-bind s _ _ ((read_string-IsTotal least).at s (omega arith) (omega arith))
                  λ name t p' q' b.
                    Within-bind t _ _ ((total tag_type).at t (omega arith) q') λ v u p'' q'' b'.
                      read_fields-Within least read total fuel (assign name v result) u
                        (omega arith) (omega arith) q'')
          ]

    read_compound-IsTotal :
        (least : ℕ) (read : ℕ → Read Value)
        → ((tag_type : ℕ) → IsTotal least (read tag_type))
        → IsTotal least (read_compound decode_utf8 read)
    unfolding read_compound
    read_compound-IsTotal least read total = record {
      at = λ r p q.
          Within-bind r _ _
            (read_fields-Within least read total (length r.buffer + 1) end r (omega arith) p q)
            (λ fields s p' q' b. omega arith);
    }

    payload_of-IsTotal :
        (least : ℕ) (nested : ℕ → Read Value)
        → ((tag_type : ℕ) → IsTotal least (nested tag_type))
        → (tag_type : ℕ) → IsTotal least (payload_of decode_utf8 nested tag_type)
    unfolding payload_of
    payload_of-IsTotal least nested total tag_type =
        search
          (
            total_rules, read_signed-IsTotal, read_unsigned-IsTotal, read_length-IsTotal,
            read_times-IsTotal, read_string-IsTotal, read_compound-IsTotal,
          )
          depth 20

    read_payload-IsTotal :
        (room least tag_type : ℕ)
        → levels ≡ least + room
        → IsTotal least (read_payload decode_utf8 room tag_type)
    unfolding read_payload
    read_payload-IsTotal zero least tag_type h = record { at = λ r p q. omega arith }
    read_payload-IsTotal (suc room) least tag_type h = record {
      at = λ r p q.
          count_node-bind r (payload_of decode_utf8 (read_payload decode_utf8 room) tag_type)
            λ s e same few.
              (payload_of-IsTotal (least + 1) (read_payload decode_utf8 room)
                  (λ nested_type. read_payload-IsTotal room (least + 1) nested_type (omega arith))
                  tag_type).at
                s (omega arith) few;
    }

    require_dict-IsTotal : (least : ℕ) (v : Value) → IsTotal least (require_dict decode_utf8 v)
    unfolding require_dict
    require_dict-IsTotal least (dict fields) = IsTotal-pure least fields
    require_dict-IsTotal least _ = IsTotal-fail least

    -- Whatever the payload and the room that Python's limit of recursion leaves, the reader has an
    -- outcome: a compound, a `ValueError`, or a `RecursionError`, and the last only where there is
    -- room for `max_nbt_nodes` levels of nested calls at most. Behind a compound at most
    -- `max_nbt_nodes` nodes have been counted, and no more bytes are left than there were.
    pub read_root_compound-Within :
        (buffer : List ℕ)
        → Within
            (record { buffer = buffer; node_count = 0 })
            (read_root_compound decode_utf8 levels (record { buffer = buffer; node_count = 0 }))
    unfolding read_root_compound
    read_root_compound-Within buffer =
        (IsTotal-bind 0 _ _ (read_unsigned-IsTotal 0 1) (λ tag_type.
            IsTotal-if 0 _ _ _
              (IsTotal-bind 0 _ _ (read_string-IsTotal 0) (λ name.
                IsTotal-bind 0 _ _ (read_payload-IsTotal levels 0 tag_type (omega arith))
                  (require_dict-IsTotal 0)))
              (IsTotal-fail 0))).at
          (record { buffer = buffer; node_count = 0 }) (omega arith) (omega arith)
