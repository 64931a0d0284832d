-- ===== src/Nbt/Bounded.antt =====
-- The bounded decompression ends, and never returns more than the limit.
use scam_screener_api.Base.{
  ℕ, zero, suc, ◌+◌, ◌-◌, ◌≤◌, ◌<◌, ◌≡◌, refl, Option, none, some, [], ◌∷◌, ◌++◌, length,
  length-append, ltb, ◌==◌, arith, Bool-cases, inl, inr,
}
use scam_screener_api.Nbt.Decompress.{
  Bytes, max_decompressed_bytes, Decompressor, Progresses, Inflated, inflated, refused, zlib_error,
  out_of_fuel, flushed, finish, take_chunk, inflate_loop, bounded_decompress,
}

-- Bytes within the limit, a refusal or an error, but no lack of fuel.
abbrev pub IsBounded : Inflated → Type 0
IsBounded (inflated bytes) = length bytes ≤ max_decompressed_bytes
IsBounded refused = Unit
IsBounded zlib_error = Unit
IsBounded out_of_fuel = ⊥

module _ (z : Decompressor) where
  flushed-IsBounded :
      (output : Bytes) (r : Option (Bytes × z.State)) → IsBounded (flushed z output r)
  unfolding flushed
  flushed-IsBounded output none = tt
  flushed-IsBounded output (some (rest, s)) = ground arith

  finish-IsBounded : (output : Bytes) (s : z.State) → IsBounded (finish z output s)
  unfolding finish
  finish-IsBounded output s = elim (Bool-cases (max_decompressed_bytes + 1 - length output == 0)) [
    | inl full ↦ rw full tt
    | inr room ↦ rw room (flushed-IsBounded output _)
  ]

  take_chunk-IsBounded :
      (output : Bytes) (r : Option (Bytes × z.State)) (next : Bytes → z.State → Inflated)
      → ((chunk : Bytes) (s : z.State)
          → r ≡ some (chunk, s)
          → length (output ++ chunk) ≤ max_decompressed_bytes
          → IsBounded (next (output ++ chunk) s))
      → IsBounded (take_chunk z output r next)
  unfolding take_chunk
  take_chunk-IsBounded output none next h = tt
  take_chunk-IsBounded output (some (chunk, s)) next h =
      elim (Bool-cases (ltb max_decompressed_bytes (length (output ++ chunk)))) [
        | inl many ↦ rw many tt
        | inr few ↦ rw few (h chunk s refl (ground arith))
      ]

  inflate_loop-IsBounded :
      Progresses z
      → (fuel : ℕ) (remaining output : Bytes) (s : z.State)
      → length remaining + max_decompressed_bytes < fuel + length output
      → length output ≤ max_decompressed_bytes
      → IsBounded (inflate_loop z fuel remaining output s)
  unfolding inflate_loop
  inflate_loop-IsBounded zp zero remaining output s enough small = absurd (omega arith)
  inflate_loop-IsBounded zp (suc fuel) [] output s enough small = finish-IsBounded output s
  inflate_loop-IsBounded zp (suc fuel) (byte ∷ remaining) output s enough small =
      elim (Bool-cases (max_decompressed_bytes + 1 - length output == 0)) [
        | inl full ↦ rw full tt
        | inr room ↦ rw room (
            take_chunk-IsBounded output _ _ λ chunk s' got fits.
              inflate_loop-IsBounded zp fuel (z.unconsumed_tail s') (output ++ chunk) s'
                (omega (
                  arith,
                  length-append output chunk,
                  zp.progress s (byte ∷ remaining) _ chunk s' got (ground arith) (omega arith),
                  zp.no_growth s (byte ∷ remaining) _ chunk s' got,
                ))
                fits)
      ]

  -- If zlib makes progress, then every payload is decompressed to at most `max_decompressed_bytes`
  -- bytes, refused or an error: the fuel of the loop never runs out.
  pub bounded_decompress-IsBounded :
      Progresses z → (compressed : Bytes) → IsBounded (bounded_decompress z compressed)
  unfolding bounded_decompress
  bounded_decompress-IsBounded zp compressed =
      inflate_loop-IsBounded zp _ compressed [] z.start (omega arith) (omega arith)
