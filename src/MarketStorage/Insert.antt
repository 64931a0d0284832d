-- ===== src/MarketStorage/Insert.antt =====
-- `_insert_many` for a table that has a text as its primary key, and what it leaves of a table that
-- has just been emptied.
use mathlib.Core.List.{flatten}
use mathlib.Core.Option.{none-ne-some, some-injective}
use scam_screener_api.Base.{
  ℕ, zero, suc, ◌≤◌, ◌≡◌, refl, sym, ap, ◌∙◌, subst, Bool-cases, inl, inr, Str, str_eq, Option,
  none, some, List, [], ◌∷◌, ◌++◌, append_assoc, append-nil, length, take, drop, length-drop, ltb,
  arith, if◌then◌else◌,
}
use scam_screener_api.Base.Dict.{Dict, lookup, NodupKeys, append-NodupKeys}

-- `_ROW_BATCH_SIZE`
abbrev pub row_batch_size : ℕ
row_batch_size = 250

-- `_iter_batches`, on fuel: a batch for every value at most.
unfoldable pub iter_batches {ℓ} : {A : Type ℓ} → ℕ → ℕ → List A → List (List A)
iter_batches zero size xs = []
iter_batches (suc fuel) size [] = []
iter_batches (suc fuel) size (x ∷ xs) =
    take size (x ∷ xs) ∷ iter_batches fuel size (drop size (x ∷ xs))

module _ {Row : Type 0} where
  -- INSERT of a row: refused for a key of the table and for one of more than 191 characters.
  unfoldable pub insert_row : Str → Row → Option Row → Dict Str Row → Option (Dict Str Row)
  insert_row key row (some there) table = none
  insert_row key row none table =
      if ltb 191 (length key) then none else some (table ++ (key, row) ∷ [])

  unfoldable pub insert_batch : List (Str × Row) → Option (Dict Str Row) → Option (Dict Str Row)
  unfolding insert_row
  insert_batch rows none = none
  insert_batch [] (some table) = some table
  insert_batch ((key, row) ∷ rows) (some table) =
      insert_batch rows (insert_row key row (lookup key table) table)

  -- `_insert_many`: one statement for each batch.
  unfoldable pub insert_batches :
      List (List (Str × Row)) → Option (Dict Str Row) → Option (Dict Str Row)
  unfolding insert_batch
  insert_batches [] table = table
  insert_batches (batch ∷ batches) table = insert_batches batches (insert_batch batch table)

  -- The INSERT of all rows of an emptied table, in batches.
  unfoldable pub insert_items : List (Str × Row) → Option (Dict Str Row)
  unfolding insert_batches iter_batches
  insert_items rows = insert_batches (iter_batches (length rows) row_batch_size rows) (some [])

module _ {ℓ} {A : Type ℓ} where
  take-append-drop : (n : ℕ) (xs : List A) → take n xs ++ drop n xs ≡ xs
  take-append-drop zero xs = refl
  take-append-drop (suc n) [] = refl
  take-append-drop (suc n) (x ∷ xs) = ap (λ r. x ∷ r) (take-append-drop n xs)

  -- The batches hold all values in their order.
  pub flatten-iter_batches :
      (fuel size : ℕ) (xs : List A)
      → length xs ≤ fuel
      → 1 ≤ size
      → flatten (iter_batches fuel size xs) ≡ xs
  unfolding iter_batches flatten
  flatten-iter_batches zero size [] p q = refl
  flatten-iter_batches zero size (x ∷ xs) p q = absurd (omega arith)
  flatten-iter_batches (suc fuel) size [] p q = refl
  flatten-iter_batches (suc fuel) size (x ∷ xs) p q =
      ap (λ rest. take size (x ∷ xs) ++ rest)
        (flatten-iter_batches fuel size (drop size (x ∷ xs))
          (omega (arith, length-drop size (x ∷ xs))) q)
      ∙ take-append-drop size (x ∷ xs)

module _ {Row : Type 0} where
  insert_row-append :
      (key : Str) (row : Row) (there : Option Row) (table left : Dict Str Row)
      → insert_row key row there table ≡ some left
      → left ≡ table ++ (key, row) ∷ []
  unfolding insert_row
  insert_row-append key row (some other) table left e = ground arith
  insert_row-append key row none table left e = ground arith

  insert_batch-none : (rows : List (Str × Row)) → insert_batch rows none ≡ none
  unfolding insert_batch
  insert_batch-none [] = refl
  insert_batch-none (row ∷ rows) = refl

  insert_batch-append :
      (rows : List (Str × Row)) (table : Option (Dict Str Row)) (left : Dict Str Row)
      → insert_batch rows table ≡ some left
      → (before : Dict Str Row) × (table ≡ some before) × (left ≡ before ++ rows)
  unfolding insert_batch
  insert_batch-append [] none left e = absurd (none-ne-some left e)
  insert_batch-append (row ∷ rows) none left e = absurd (none-ne-some left e)
  insert_batch-append [] (some table) left e =
      (table, refl, (let same : left ≡ table = ground arith in same ∙ sym (append-nil table)))
  insert_batch-append ((key, row) ∷ rows) (some table) left e =
      let later = insert_batch-append rows (insert_row key row (lookup key table) table) left e in
      (
        table,
        refl,
        later.2
            ∙ ap (λ b. b ++ rows) (insert_row-append key row _ table later.0 later.1)
            ∙ append_assoc table ((key, row) ∷ []) rows,
      )

  insert_batches-append :
      (batches : List (List (Str × Row))) (table : Option (Dict Str Row)) (left : Dict Str Row)
      → insert_batches batches table ≡ some left
      → (before : Dict Str Row) × (table ≡ some before) × (left ≡ before ++ flatten batches)
  unfolding insert_batches flatten
  insert_batches-append [] table left e = (left, e, sym (append-nil left))
  insert_batches-append (batch ∷ batches) table left e =
      let later = insert_batches-append batches (insert_batch batch table) left e in
      let first = insert_batch-append batch table later.0 later.1 in
      (
        first.0,
        first.1,
        later.2
            ∙ ap (λ b. b ++ flatten batches) first.2
            ∙ append_assoc first.0 batch (flatten batches),
      )

  pub insert_items-eq :
      (rows : List (Str × Row)) (left : Dict Str Row) → insert_items rows ≡ some left → left ≡ rows
  unfolding insert_items
  insert_items-eq rows left e =
      let inserted =
        insert_batches-append (iter_batches (length rows) row_batch_size rows) (some []) left e in
      let from_nothing : inserted.0 ≡ [] = sym (some-injective [] inserted.0 inserted.1) in
      inserted.2
      ∙ ap (λ b. b ++ flatten (iter_batches (length rows) row_batch_size rows)) from_nothing
      ∙ flatten-iter_batches (length rows) row_batch_size rows (omega arith) (omega arith)

  -- Where there is a table, its keys are different.
  abbrev HasKeys : Option (Dict Str Row) → Type 0
  HasKeys none = Unit
  HasKeys (some table) = NodupKeys table

  insert_row-HasKeys :
      (key : Str) (row : Row) (there : Option Row) (table : Dict Str Row)
      → lookup key table ≡ there
      → NodupKeys table
      → HasKeys (insert_row key row there table)
  unfolding insert_row
  insert_row-HasKeys key row (some other) table e u = tt
  insert_row-HasKeys key row none table e u = elim (Bool-cases (ltb 191 (length key))) [
    | inl long ↦ rw long tt
    | inr short ↦ rw short (append-NodupKeys key row table u e)
  ]

  insert_batch-HasKeys :
      (rows : List (Str × Row)) (table : Option (Dict Str Row))
      → HasKeys table
      → HasKeys (insert_batch rows table)
  unfolding insert_batch
  insert_batch-HasKeys [] none u = tt
  insert_batch-HasKeys (row ∷ rows) none u = tt
  insert_batch-HasKeys [] (some table) u = u
  insert_batch-HasKeys ((key, row) ∷ rows) (some table) u =
      insert_batch-HasKeys rows _ (insert_row-HasKeys key row (lookup key table) table refl u)

  insert_batches-HasKeys :
      (batches : List (List (Str × Row))) (table : Option (Dict Str Row))
      → HasKeys table
      → HasKeys (insert_batches batches table)
  unfolding insert_batches
  insert_batches-HasKeys [] table u = u
  insert_batches-HasKeys (batch ∷ batches) table u =
      insert_batches-HasKeys batches _ (insert_batch-HasKeys batch table u)

  -- Rows that are inserted into an emptied table have different keys.
  pub insert_items-NodupKeys :
      (rows left : Dict Str Row) → insert_items rows ≡ some left → NodupKeys rows
  unfolding insert_items
  insert_items-NodupKeys rows left e = subst NodupKeys (insert_items-eq rows left e) (
      subst HasKeys e
        (insert_batches-HasKeys (iter_batches (length rows) row_batch_size rows) (some []) tt))
