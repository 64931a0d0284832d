-- ===== src/Base/Sort.antt =====
-- Python's `sorted` with a key that is a text: a stable sort. Insertion sort, whose result is that
-- of every stable sort.
use scam_screener_api.Base.{
  ◌≡◌, ◌∙◌, refl, Bool, true, false, List, [], ◌∷◌, ltb, if◌then◌else◌, ◌==◌, ◌||◌, ◌&&◌, Str,
  arith, Eq, none, some,
}
use mathlib.Core.List.{Perm}
use scam_screener_api.Base.Dict.{Dict, lookup, NodupKeys}
use mathlib.Core.List.Perm

-- `s < t` for texts, by code points.
unfoldable pub str_ltb : Str → Str → Bool
str_ltb [] [] = false
str_ltb [] (b ∷ t) = true
str_ltb (a ∷ s) [] = false
str_ltb (a ∷ s) (b ∷ t) = ltb a b || (a == b && str_ltb s t)

pub str_ltb_asymm : (s t : Str) → str_ltb s t ≡ true → str_ltb t s ≡ false
unfolding str_ltb
str_ltb_asymm [] [] h = cc
str_ltb_asymm [] (b ∷ t) h = refl
str_ltb_asymm (a ∷ s) [] h = cc
str_ltb_asymm (a ∷ s) (b ∷ t) h = ground (arith, str_ltb_asymm s t)

module _ {ℓ} {A : Type ℓ} (key : A → Str) where
  -- Before the first element whose key is not less.
  unfoldable pub sort_insert : A → List A → List A
  sort_insert x [] = x ∷ []
  sort_insert x (y ∷ ys) =
      let rest = sort_insert x ys in if str_ltb (key y) (key x) then y ∷ rest else x ∷ y ∷ ys

  unfoldable pub sorted : List A → List A
  unfolding sort_insert str_ltb
  sorted [] = []
  sorted (x ∷ xs) = sort_insert x (sorted xs)

  sort_insert-Perm : (x : A) (xs : List A) → Perm (sort_insert x xs) (x ∷ xs)
  unfolding sort_insert
  sort_insert-Perm x [] = Perm.refl (x ∷ [])
  sort_insert-Perm x (y ∷ ys) = step (str_ltb (key y) (key x)) (sort_insert-Perm x ys)
    where
      step :
          (b : Bool)
          → Perm (sort_insert x ys) (x ∷ ys)
          → Perm (if b then y ∷ sort_insert x ys else x ∷ y ∷ ys) (x ∷ y ∷ ys)
      step true p = Perm.trans (Perm.cons y p) (Perm.swap x y ys)
      step false p = Perm.refl _

  -- Sorting rearranges.
  pub sorted-Perm : (xs : List A) → Perm (sorted xs) xs
  unfolding sorted
  sorted-Perm [] = Perm.refl []
  sorted-Perm (x ∷ xs) = Perm.trans (sort_insert-Perm x (sorted xs)) (Perm.cons x (sorted-Perm xs))

  -- No element has a lesser key than the one before it.
  abbrev pub IsSorted : List A → Type 0
  IsSorted [] = Unit
  IsSorted (x ∷ []) = Unit
  IsSorted (x ∷ y ∷ ys) = (str_ltb (key y) (key x) ≡ false) × IsSorted (y ∷ ys)

  sort_insert-IsSorted : (x : A) (xs : List A) → IsSorted xs → IsSorted (sort_insert x xs)
  unfolding sort_insert
  sort_insert-IsSorted x [] h = tt
  sort_insert-IsSorted x (y ∷ []) h = ground (arith, str_ltb_asymm (key y) (key x))
  sort_insert-IsSorted x (y ∷ z ∷ zs) h = ground (
    arith,
    str_ltb_asymm (key y) (key x),
    str_ltb_asymm (key z) (key x),
    sort_insert-IsSorted x (z ∷ zs) h.1,
  )

  pub sorted-IsSorted : (xs : List A) → IsSorted (sorted xs)
  unfolding sorted
  sorted-IsSorted [] = tt
  sorted-IsSorted (x ∷ xs) = sort_insert-IsSorted x (sorted xs) (sorted-IsSorted xs)

-- A dict that is rebuilt in the order of a text made from its keys reads the same.
module _ {ℓ κ} {K : Type ℓ} {V : Type κ} ⦃e : Eq K⦄ (text : K → Str) where
  abbrev pub by_key : K × V → Str
  by_key item = text item.0

  lookup-sort_insert :
      (k i : K) (w : V) (d : Dict K V)
      → lookup i d ≡ none
      → lookup k (sort_insert by_key (i, w) d) ≡ (if e.beq k i then some w else lookup k d)
  unfolding sort_insert lookup
  lookup-sort_insert k i w [] h = refl
  lookup-sort_insert k i w ((j, v) ∷ d) h =
      ground (arith, lookup-sort_insert k i w d, e.beq_iff k i, e.beq_iff i j, e.beq_iff k j)

  pub lookup-sorted : (k : K) (d : Dict K V) → NodupKeys d → lookup k (sorted by_key d) ≡ lookup k d
  unfolding sorted lookup
  lookup-sorted k [] u = refl
  lookup-sorted k ((i, w) ∷ d) (fresh, u) =
      ground (
        arith,
        lookup-sort_insert k i w (sorted by_key d),
        lookup-sorted i d u,
        lookup-sorted k d u,
      )

  sort_insert-NodupKeys :
      (i : K) (w : V) (d : Dict K V)
      → lookup i d ≡ none
      → NodupKeys d
      → NodupKeys (sort_insert by_key (i, w) d)
  unfolding sort_insert lookup
  sort_insert-NodupKeys i w [] h u = (refl, tt)
  sort_insert-NodupKeys i w ((j, v) ∷ d) h u =
      ground (
        arith,
        sort_insert-NodupKeys i w d,
        lookup-sort_insert j i w d,
        e.beq_iff j i,
        e.beq_iff i j,
      )

  pub sorted-NodupKeys : (d : Dict K V) → NodupKeys d → NodupKeys (sorted by_key d)
  unfolding sorted
  sorted-NodupKeys [] u = tt
  sorted-NodupKeys ((i, w) ∷ d) (fresh, u) =
      sort_insert-NodupKeys i w (sorted by_key d) (lookup-sorted i d u ∙ fresh)
        (sorted-NodupKeys d u)
