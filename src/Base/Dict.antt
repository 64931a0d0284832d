-- ===== src/Base/Dict.antt =====
-- Python's dict in insertion order. `insert` replaces in place or appends, `erase` is
-- `d.pop(k, None)`.
use Prim.Native.Nat.{ℕ, zero, suc, ◌≤◌, ◌<◌}
use mathlib.Core.Path.{◌≡◌, refl}
use mathlib.Core.Bool.{Bool, true}
use mathlib.Core.Option.{Option, none, some, none-ne-some}
use mathlib.Core.List.{List, [], ◌∷◌, ◌++◌}
use native.Mathlib.Omega.{arith}
use scam_screener_api.Base.Tests.{if◌then◌else◌}
use scam_screener_api.Base.Lists.{length, select, drop}
use scam_screener_api.Base.Equality.{Eq}

abbrev pub Dict {ℓ κ} : Type ℓ → Type κ → Type (ℓ ⊔ κ)
Dict K V = List (K × V)

module _ {ℓ κ} {K : Type ℓ} {V : Type κ} ⦃e : Eq K⦄ where
  unfoldable pub lookup : K → Dict K V → Option V
  lookup k [] = none
  lookup k ((j, v) ∷ d) = if e.beq k j then some v else lookup k d

  unfoldable pub insert : K → V → Dict K V → Dict K V
  insert k v [] = (k, v) ∷ []
  insert k v ((j, w) ∷ d) = if e.beq k j then (j, v) ∷ d else (j, w) ∷ insert k v d

  unfoldable pub erase : K → Dict K V → Dict K V
  erase k [] = []
  erase k ((j, w) ∷ d) = let rest = erase k d in if e.beq k j then rest else (j, w) ∷ rest

  -- Every key occurs once.
  abbrev pub NodupKeys : Dict K V → Type κ
  NodupKeys [] = Unit
  NodupKeys ((k, _) ∷ d) = (lookup k d ≡ none) × NodupKeys d

  pub lookup-nil : (k : K) → lookup k [] ≡ none
  unfolding lookup
  lookup-nil k = refl

  pub lookup-insert :
      (j k : K) (v : V) (d : Dict K V)
      → lookup j (insert k v d) ≡ (if e.beq j k then some v else lookup j d)
  unfolding insert lookup
  lookup-insert j k v [] = refl
  lookup-insert j k v ((i, w) ∷ d) =
      ground (arith, lookup-insert j k v d, e.beq_iff j k, e.beq_iff k i, e.beq_iff j i)

  pub lookup-insert_self : (k : K) (v : V) (d : Dict K V) → lookup k (insert k v d) ≡ some v
  lookup-insert_self k v d = ground (arith, lookup-insert k k v d, e.beq_iff k k)

  pub lookup-erase :
      (j k : K) (d : Dict K V) → lookup j (erase k d) ≡ (if e.beq j k then none else lookup j d)
  unfolding erase lookup
  lookup-erase j k [] = ground arith
  lookup-erase j k ((i, w) ∷ d) =
      ground (arith, lookup-erase j k d, e.beq_iff j k, e.beq_iff k i, e.beq_iff j i)

  pub lookup-erase_self : (k : K) (d : Dict K V) → lookup k (erase k d) ≡ none
  lookup-erase_self k d = ground (arith, lookup-erase k k d, e.beq_iff k k)

  pub lookup-append :
      (k : K) (d d' : Dict K V)
      → lookup k (d ++ d') ≡ (elim (lookup k d) [ none ↦ lookup k d' | some v ↦ some v ])
  unfolding lookup
  lookup-append k [] d' = refl
  lookup-append k ((i, w) ∷ d) d' = ground (arith, lookup-append k d d')

  pub insert-NodupKeys : (k : K) (v : V) (d : Dict K V) → NodupKeys d → NodupKeys (insert k v d)
  unfolding insert
  insert-NodupKeys k v [] h = (lookup-nil k, tt)
  insert-NodupKeys k v ((i, w) ∷ d) (fresh, u) =
      ground (arith, insert-NodupKeys k v d u, lookup-insert i k v d, e.beq_iff i k, e.beq_iff k i)

  pub erase-NodupKeys : (k : K) (d : Dict K V) → NodupKeys d → NodupKeys (erase k d)
  unfolding erase
  erase-NodupKeys k [] h = h
  erase-NodupKeys k ((i, w) ∷ d) (fresh, u) =
      ground (arith, erase-NodupKeys k d u, lookup-erase i k d)

  pub append-NodupKeys :
      (k : K) (v : V) (d : Dict K V)
      → NodupKeys d
      → lookup k d ≡ none
      → NodupKeys (d ++ (k, v) ∷ [])
  unfolding lookup
  append-NodupKeys k v [] h n = (refl, tt)
  append-NodupKeys k v ((i, w) ∷ d) (fresh, u) n = ground (
    arith,
    append-NodupKeys k v d u,
    lookup-append i d ((k, v) ∷ []),
    e.beq_iff i k,
    e.beq_iff k i,
  )

  pub length-erase-le : (k : K) (d : Dict K V) → length (erase k d) ≤ length d
  unfolding erase
  length-erase-le k [] = omega arith
  length-erase-le k ((i, w) ∷ d) = ground (arith, length-erase-le k d)

  -- The removal of a key that is there shortens the dict.
  pub length-erase-lt :
      (k : K) (d : Dict K V) (v : V) → lookup k d ≡ some v → length (erase k d) < length d
  unfolding erase lookup
  length-erase-lt k [] v h = absurd (none-ne-some v h)
  length-erase-lt k ((i, w) ∷ d) v h = ground (arith, length-erase-lt k d v, length-erase-le k d)

  pub lookup-select-none :
      (k : K) (p : K × V → Bool) (d : Dict K V) → lookup k d ≡ none → lookup k (select p d) ≡ none
  unfolding lookup
  lookup-select-none k p [] h = refl
  lookup-select-none k p ((i, w) ∷ d) h = ground (arith, lookup-select-none k p d)

  pub lookup-select :
      (k : K) (p : K × V → Bool) (d : Dict K V) (v : V)
      → NodupKeys d
      → lookup k d ≡ some v
      → lookup k (select p d) ≡ (if p (k, v) then some v else none)
  unfolding lookup
  lookup-select k p [] v u h = cc
  lookup-select k p ((i, w) ∷ d) v (fresh, u) h =
      ground (arith, e.beq_iff k i, lookup-select k p d v u, lookup-select-none k p d)

  pub lookup-select-some :
      (k : K) (p : K × V → Bool) (d : Dict K V) (v : V)
      → NodupKeys d
      → lookup k (select p d) ≡ some v
      → (lookup k d ≡ some v) × (p (k, v) ≡ true)
  unfolding lookup
  lookup-select-some k p [] v u h = cc
  lookup-select-some k p ((i, w) ∷ d) v (fresh, u) h =
      ground (arith, e.beq_iff k i, lookup-select-some k p d v u, lookup-select-none k p d)

  pub select-NodupKeys : (p : K × V → Bool) (d : Dict K V) → NodupKeys d → NodupKeys (select p d)
  select-NodupKeys p [] h = h
  select-NodupKeys p ((i, w) ∷ d) (fresh, u) =
      ground (arith, select-NodupKeys p d u, lookup-select-none i p d)

module _ {ℓ κ} {K : Type ℓ} {V : Type κ} ⦃e : Eq K⦄ where
  pub erase-absent : (k : K) (d : Dict K V) → lookup k d ≡ none → erase k d ≡ d
  unfolding erase lookup
  erase-absent k [] h = refl
  erase-absent k ((i, w) ∷ d) h = ground (arith, erase-absent k d)

  -- What an insertion did to one key, its removal undoes.
  pub erase-insert :
      (k : K) (v : V) (d : Dict K V) → NodupKeys d → erase k (insert k v d) ≡ erase k d
  unfolding erase insert
  erase-insert k v [] u = ground (arith, e.beq_iff k k)
  erase-insert k v ((i, w) ∷ d) (fresh, u) = ground (arith, erase-insert k v d u)

  pub lookup-drop : (n : ℕ) (k : K) (d : Dict K V) → lookup k d ≡ none → lookup k (drop n d) ≡ none
  unfolding lookup
  lookup-drop zero k d h = h
  lookup-drop (suc n) k [] h = h
  lookup-drop (suc n) k ((i, w) ∷ d) h = ground (arith, lookup-drop n k d)

  -- The last entry survives while not every entry is dropped.
  pub lookup-drop-last :
      (n : ℕ) (k : K) (v : V) (d : Dict K V)
      → lookup k d ≡ none
      → n ≤ length d
      → lookup k (drop n (d ++ (k, v) ∷ [])) ≡ some v
  unfolding lookup
  lookup-drop-last zero k v d h b = ground (arith, lookup-append k d ((k, v) ∷ []), e.beq_iff k k)
  lookup-drop-last (suc n) k v [] h b = elim b [ ]
  lookup-drop-last (suc n) k v ((i, w) ∷ d) h b =
      lookup-drop-last n k v d (ground arith) (omega arith)

  pub drop-NodupKeys : (n : ℕ) (d : Dict K V) → NodupKeys d → NodupKeys (drop n d)
  drop-NodupKeys zero d u = u
  drop-NodupKeys (suc n) [] u = u
  drop-NodupKeys (suc n) ((i, w) ∷ d) (fresh, u) = drop-NodupKeys n d u

  -- Of a key that a suffix of a dict holds, it holds the value of the whole.
  pub lookup-drop-some :
      (n : ℕ) (k : K) (v : V) (d : Dict K V)
      → NodupKeys d
      → lookup k (drop n d) ≡ some v
      → lookup k d ≡ some v
  unfolding lookup
  lookup-drop-some zero k v d u h = h
  lookup-drop-some (suc n) k v [] u h = h
  lookup-drop-some (suc n) k v ((i, w) ∷ d) (fresh, u) h =
      ground (arith, e.beq_iff k i, lookup-drop-some n k v d u, lookup-drop n i d)

-- The values of a dict replaced, with its keys and their order kept.
module _ {ℓ κ ι} {K : Type ℓ} {V : Type κ} {W : Type ι} where
  abbrev pub map_values : (V → W) → Dict K V → Dict K W
  map_values f [] = []
  map_values f ((k, v) ∷ d) = (k, f v) ∷ map_values f d

module _ {ℓ κ ι} {K : Type ℓ} {V : Type κ} {W : Type ι} ⦃e : Eq K⦄ where
  pub lookup-map_values :
      (f : V → W) (k : K) (d : Dict K V)
      → lookup k (map_values f d) ≡ (elim (lookup k d) [ none ↦ none | some v ↦ some (f v) ])
  unfolding lookup
  lookup-map_values f k [] = refl
  lookup-map_values f k ((i, w) ∷ d) = ground (arith, lookup-map_values f k d)

  pub insert-map_values :
      (f : V → W) (k : K) (v : V) (d : Dict K V)
      → map_values f (insert k v d) ≡ insert k (f v) (map_values f d)
  unfolding insert
  insert-map_values f k v [] = refl
  insert-map_values f k v ((i, w) ∷ d) = ground (arith, insert-map_values f k v d)

module _ {ℓ κ ι} {K : Type ℓ} {V : Type κ} {W : Type ι} where
  pub select-map_values :
      (f : V → W) (p : K × V → Bool) (q : K × W → Bool)
      → ((k : K) (v : V) → p (k, v) ≡ q (k, f v))
      → (d : Dict K V) → map_values f (select p d) ≡ select q (map_values f d)
  select-map_values f p q same [] = refl
  select-map_values f p q same ((i, w) ∷ d) =
      ground (arith, same i w, select-map_values f p q same d)
