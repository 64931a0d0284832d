-- ===== src/Base/Text.antt =====
-- Python's `str` methods that the program uses, on lists of code points.
use Prim.Native.Nat.{ℕ, ◌+◌}
use mathlib.Core.Path.{◌≡◌, refl, ap, sym, ◌∙◌}
use mathlib.Core.Logic.{◌⊎◌, inl, inr}
use mathlib.Core.Bool.{Bool, true, false, ◌||◌, ◌&&◌}
use mathlib.Core.List.{[], ◌∷◌, ◌++◌, reverse, reverse-append, reverse-reverse, reverse-cons}
use native.Mathlib.Omega.{arith}
use scam_screener_api.Base.Tests.{leb, ◌==◌, if◌then◌else◌, Bool-cases}
use scam_screener_api.Base.Equality.{Str}

-- `str.isspace` of one character.
unfoldable pub is_space : ℕ → Bool
is_space c =
    (leb 9 c && leb c 13)
    || (leb 28 c && leb c 32)
    || c == 0x85
    || c == 0xa0
    || c == 0x1680
    || (leb 0x2000 c && leb c 0x200a)
    || c == 0x2028
    || c == 0x2029
    || c == 0x202f
    || c == 0x205f
    || c == 0x3000

unfoldable pub lstrip : Str → Str
lstrip [] = []
lstrip (c ∷ s) = let rest = lstrip s in if is_space c then rest else c ∷ s

-- `s.strip()`
unfoldable pub strip : Str → Str
unfolding lstrip is_space
strip s = reverse (lstrip (reverse (lstrip s)))

-- `str.lower` on the letters A to Z; other characters are kept.
unfoldable pub ascii_lower : ℕ → ℕ
ascii_lower c = if leb b'A' c && leb c b'Z' then c + 32 else c

-- `character in "0123456789abcdef"`
unfoldable pub is_hex : ℕ → Bool
is_hex c = (leb b'0' c && leb c b'9') || (leb b'a' c && leb c b'f')

unfoldable pub all_hex : Str → Bool
unfolding is_hex
all_hex [] = true
all_hex (c ∷ s) = is_hex c && all_hex s

lstrip-append : (s : Str) (c : ℕ) → is_space c ≡ false → lstrip (s ++ c ∷ []) ≡ lstrip s ++ c ∷ []
unfolding lstrip
lstrip-append [] c h = ground arith
lstrip-append (d ∷ s) c h = ground (arith, lstrip-append s c h)

-- What a text starts with once it is stripped on the left.
lstrip-cases :
    (s : Str)
    → (lstrip s ≡ []) ⊎ ((c : ℕ) × (rest : Str) × (lstrip s ≡ c ∷ rest) × (is_space c ≡ false))
unfolding lstrip
lstrip-cases [] = inl refl
lstrip-cases (c ∷ s) = elim (Bool-cases (is_space c)) [
  | inl space ↦ rw space (lstrip-cases s)
  | inr other ↦ inr (c, s, rw other refl, other)
]

lstrip_head : (c : ℕ) (s : Str) → is_space c ≡ false → lstrip (c ∷ s) ≡ c ∷ s
unfolding lstrip
lstrip_head c s h = rw h refl

lstrip_idem : (s : Str) → lstrip (lstrip s) ≡ lstrip s
unfolding lstrip
lstrip_idem s = elim (lstrip-cases s) [
  | inl empty ↦ ap lstrip empty ∙ sym empty
  | inr (c, rest, starts, solid) ↦ ap lstrip starts ∙ lstrip_head c rest solid ∙ sym starts
]

strip_starts :
    (s : Str) (c : ℕ) (rest : Str)
    → lstrip s ≡ c ∷ rest
    → is_space c ≡ false
    → strip s ≡ c ∷ reverse (lstrip (reverse rest))
unfolding strip
strip_starts s c rest starts solid =
    ap (λ l. reverse (lstrip (reverse l))) starts
    ∙ ap (λ l. reverse (lstrip l)) (reverse-cons c rest)
    ∙ ap reverse (lstrip-append (reverse rest) c solid)
    ∙ reverse-append (lstrip (reverse rest)) (c ∷ [])

strip_blank : (s : Str) → lstrip s ≡ [] → strip s ≡ []
unfolding strip
strip_blank s h = ap (λ l. reverse (lstrip (reverse l))) h

-- `s.strip().strip() == s.strip()`
pub strip_idem : (s : Str) → strip (strip s) ≡ strip s
unfolding strip
strip_idem s = elim (lstrip-cases s) [
  | inl empty ↦ ap strip (strip_blank s empty) ∙ sym (strip_blank s empty)
  | inr (c, rest, starts, solid) ↦
      let m = lstrip (reverse rest) in
      let here = strip_starts s c rest starts solid in
      ap strip here
      ∙ strip_starts (c ∷ reverse m) c (reverse m) (lstrip_head c (reverse m) solid) solid
      ∙ ap (λ l. c ∷ reverse (lstrip l)) (reverse-reverse m)
      ∙ ap (λ l. c ∷ reverse l) (lstrip_idem (reverse rest))
      ∙ sym here
]
