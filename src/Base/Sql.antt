-- ===== src/Base/Sql.antt =====
-- A table of a database with an `id INTEGER PRIMARY KEY AUTOINCREMENT`: the rows in the order of
-- their ids, and the next id. `SELECT ... fetchone()`, `UPDATE ... WHERE` and `INSERT` on it.
pub mod Unique
pub mod Counts
use mathlib.Core.Option.{none-ne-some, some-injective}
use scam_screener_api.Base.Tests.{if◌then◌else◌, Option-cases}
use scam_screener_api.Base.{
  ℕ, suc, ◌+◌, ◌<◌, ◌≡◌, refl, sym, ◌∙◌, ap, inl, inr, Bool, true, false, not, Option, none, some,
  List, [], ◌∷◌, ◌++◌, arith, length, select, Eq, nat_eq,
}
use scam_screener_api.Base.Dict.{
  Dict, lookup, NodupKeys, lookup-append, append-NodupKeys, lookup-select-some, select-NodupKeys,
}

pub record Table {ℓ} (R : Type ℓ) : Type ℓ where
  pub rows : Dict ℕ R
  pub next_id : ℕ

module _ {ℓ} {R : Type ℓ} where
  -- The first row that the WHERE clause admits.
  unfoldable pub find_row : (ℕ → R → Bool) → Dict ℕ R → Option (ℕ × R)
  find_row p [] = none
  find_row p ((i, r) ∷ d) = if p i r then some (i, r) else find_row p d

  unfoldable pub update_rows : (ℕ → R → Bool) → (R → R) → Dict ℕ R → Dict ℕ R
  update_rows p f [] = []
  update_rows p f ((i, r) ∷ d) = (i, if p i r then f r else r) ∷ update_rows p f d

  -- `cursor.rowcount` of such an UPDATE, or a COUNT(*).
  unfoldable pub count_rows : (ℕ → R → Bool) → Dict ℕ R → ℕ
  count_rows p [] = 0
  count_rows p ((i, r) ∷ d) = (if p i r then 1 else 0) + count_rows p d

  unfoldable pub add_row : R → Table R → Table R
  add_row r t = record { rows = t.rows ++ (t.next_id, r) ∷ []; next_id = suc t.next_id }

  unfoldable pub update_table : (ℕ → R → Bool) → (R → R) → Table R → Table R
  update_table p f t = record t { rows = update_rows p f t.rows }

  abbrev pub IsBelow : ℕ → Dict ℕ R → Type 0
  IsBelow n [] = Unit
  IsBelow n ((i, r) ∷ d) = (i < n) × IsBelow n d

  -- The ids of the rows are distinct and used up.
  pub record IsTable (t : Table R) : Type ℓ where
    pub distinct : NodupKeys t.rows
    pub below : IsBelow t.next_id t.rows

  pub lookup-update_rows :
      (j : ℕ) (p : ℕ → R → Bool) (f : R → R) (d : Dict ℕ R)
      → lookup j (update_rows p f d)
        ≡ (elim (lookup j d) [ none ↦ none | some r ↦ some (if p j r then f r else r) ])
  unfolding lookup update_rows
  lookup-update_rows j p f [] = refl
  lookup-update_rows j p f ((i, r) ∷ d) = ground (arith, lookup-update_rows j p f d)

  pub find_row-holds :
      (p : ℕ → R → Bool) (d : Dict ℕ R) (i : ℕ) (r : R) → find_row p d ≡ some (i, r) → p i r ≡ true
  unfolding find_row
  find_row-holds p [] i r h = cc
  find_row-holds p ((j, s) ∷ d) i r h = ground (arith, find_row-holds p d i r)

  find_row-present :
      (p : ℕ → R → Bool) (d : Dict ℕ R) (i : ℕ) (r : R)
      → find_row p d ≡ some (i, r)
      → lookup i d ≡ none
      → ⊥
  unfolding find_row lookup
  find_row-present p [] i r h n = none-ne-some _ h
  find_row-present p ((j, s) ∷ d) i r h n = ground (arith, find_row-present p d i r)

  pub lookup-find_row :
      (p : ℕ → R → Bool) (d : Dict ℕ R) (i : ℕ) (r : R)
      → NodupKeys d
      → find_row p d ≡ some (i, r)
      → lookup i d ≡ some r
  unfolding find_row lookup
  lookup-find_row p [] i r u h = cc
  lookup-find_row p ((j, s) ∷ d) i r (fresh, u) h =
      ground (arith, lookup-find_row p d i r u, find_row-present p d i r)

  pub find_row-none :
      (p : ℕ → R → Bool) (d : Dict ℕ R) (i : ℕ) (r : R)
      → find_row p d ≡ none
      → lookup i d ≡ some r
      → p i r ≡ false
  unfolding find_row lookup
  find_row-none p [] i r n h = cc
  find_row-none p ((j, s) ∷ d) i r n h = ground (arith, find_row-none p d i r)

  pub find_row-append :
      (p : ℕ → R → Bool) (d d' : Dict ℕ R)
      → find_row p d ≡ none
      → find_row p (d ++ d') ≡ find_row p d'
  unfolding find_row
  find_row-append p [] d' h = refl
  find_row-append p ((j, s) ∷ d) d' h = ground (arith, find_row-append p d d')

  lookup-below : (n : ℕ) (d : Dict ℕ R) → IsBelow n d → lookup n d ≡ none
  unfolding lookup
  lookup-below n [] h = refl
  lookup-below n ((i, r) ∷ d) (lt, h) = ground (arith, lookup-below n d h)

  append-IsBelow : (n : ℕ) (r : R) (d : Dict ℕ R) → IsBelow n d → IsBelow (suc n) (d ++ (n, r) ∷ [])
  append-IsBelow n r [] h = omega arith
  append-IsBelow n r ((i, s) ∷ d) (lt, h) = (omega arith, append-IsBelow n r d h)

  pub add_row-IsTable : (r : R) (t : Table R) → IsTable t → IsTable (add_row r t)
  unfolding add_row
  add_row-IsTable r t h = record {
    distinct =
        append-NodupKeys t.next_id r t.rows h.distinct (lookup-below t.next_id t.rows h.below);
    below = append-IsBelow t.next_id r t.rows h.below;
  }

  pub lookup-add_row :
      (j : ℕ) (r : R) (t : Table R)
      → IsTable t
      → lookup j (add_row r t).rows ≡ (if nat_eq.beq j t.next_id then some r else lookup j t.rows)
  unfolding add_row lookup
  lookup-add_row j r t h =
      ground
        (arith, lookup-append j t.rows ((t.next_id, r) ∷ []), lookup-below t.next_id t.rows h.below)

  update_rows-NodupKeys :
      (p : ℕ → R → Bool) (f : R → R) (d : Dict ℕ R) → NodupKeys d → NodupKeys (update_rows p f d)
  unfolding update_rows
  update_rows-NodupKeys p f [] u = u
  update_rows-NodupKeys p f ((i, r) ∷ d) (fresh, u) =
      (lookup-update_rows i p f d ∙ rw fresh refl, update_rows-NodupKeys p f d u)

  update_rows-IsBelow :
      (n : ℕ) (p : ℕ → R → Bool) (f : R → R) (d : Dict ℕ R)
      → IsBelow n d
      → IsBelow n (update_rows p f d)
  unfolding update_rows
  update_rows-IsBelow n p f [] h = h
  update_rows-IsBelow n p f ((i, r) ∷ d) (lt, h) = (lt, update_rows-IsBelow n p f d h)

  pub update_table-IsTable :
      (p : ℕ → R → Bool) (f : R → R) (t : Table R) → IsTable t → IsTable (update_table p f t)
  unfolding update_table
  update_table-IsTable p f t h = record {
    distinct = update_rows-NodupKeys p f t.rows h.distinct;
    below = update_rows-IsBelow t.next_id p f t.rows h.below;
  }

  -- `DELETE ... WHERE`
  abbrev remains : (ℕ → R → Bool) → ℕ × R → Bool
  remains p (i, r) = not (p i r)

  unfoldable pub delete_rows : (ℕ → R → Bool) → Table R → Table R
  delete_rows p t = record t { rows = select (remains p) t.rows }

  select-IsBelow : (n : ℕ) (p : ℕ × R → Bool) (d : Dict ℕ R) → IsBelow n d → IsBelow n (select p d)
  select-IsBelow n p [] h = h
  select-IsBelow n p ((i, r) ∷ d) (lt, h) = ground (arith, select-IsBelow n p d h)

  pub delete_rows-IsTable : (p : ℕ → R → Bool) (t : Table R) → IsTable t → IsTable (delete_rows p t)
  unfolding delete_rows
  delete_rows-IsTable p t h = record {
    distinct = select-NodupKeys (remains p) t.rows h.distinct;
    below = select-IsBelow t.next_id (remains p) t.rows h.below;
  }

  -- What is found after a DELETE was there before.
  pub lookup-delete_rows :
      (p : ℕ → R → Bool) (t : Table R) (j : ℕ) (r : R)
      → IsTable t
      → lookup j (delete_rows p t).rows ≡ some r
      → lookup j t.rows ≡ some r
  unfolding delete_rows
  lookup-delete_rows p t j r h e = (lookup-select-some j (remains p) t.rows r h.distinct e).0

  -- A row that no other row is like is the one that is found.
  pub find_row_unique :
      (p : ℕ → R → Bool) (d : Dict ℕ R) (i : ℕ) (r : R)
      → NodupKeys d
      → lookup i d ≡ some r
      → p i r ≡ true
      → ((j : ℕ) (s : R) → lookup j d ≡ some s → p j s ≡ true → j ≡ i)
      → find_row p d ≡ some (i, r)
  unfolding find_row lookup
  find_row_unique p d i r u h holds only = elim (Option-cases (find_row p d)) [
    | inl n ↦ absurd (ground (arith, find_row-none p d i r))
    | inr ((j, s), e) ↦
        let there = lookup-find_row p d j s u e in
        let same = only j s there (find_row-holds p d j s e) in
        let row : s ≡ r = some-injective s r (sym there ∙ ap (λ k. lookup k d) same ∙ h) in
        e ∙ ap (λ k. some (k, s)) same ∙ ap (λ x. some (i, x)) row
  ]

  -- What is found after an UPDATE comes from a row that was there before.
  pub lookup-update_rows-some :
      (j : ℕ) (p : ℕ → R → Bool) (f : R → R) (d : Dict ℕ R) (r : R)
      → lookup j (update_rows p f d) ≡ some r
      → (s : R) × (lookup j d ≡ some s) × (r ≡ (if p j s then f s else s))
  lookup-update_rows-some j p f d r h = elim (Option-cases (lookup j d)) [
    | inl n ↦ absurd (none-ne-some r (sym (lookup-update_rows j p f d ∙ rw n refl) ∙ h))
    | inr (s, e) ↦ (s, e, some-injective r _ (sym h ∙ lookup-update_rows j p f d ∙ rw e refl))
  ]

  pub lookup-lt-next :
      (j : ℕ) (n : ℕ) (d : Dict ℕ R) (r : R) → IsBelow n d → lookup j d ≡ some r → j < n
  unfolding lookup
  lookup-lt-next j n [] r h e = absurd (none-ne-some r e)
  lookup-lt-next j n ((i, s) ∷ d) r (lt, h) e = ground (arith, lookup-lt-next j n d r h)

  pub lookup-add_row-lt :
      (j : ℕ) (r : R) (t : Table R)
      → IsTable t
      → j < t.next_id
      → lookup j (add_row r t).rows ≡ lookup j t.rows
  lookup-add_row-lt j r t h lt = ground (arith, lookup-add_row j r t h)

  -- No row is admitted by a clause that implies one of two that admit none.
  pub find_row-neither :
      (p q q' : ℕ → R → Bool) (d : Dict ℕ R)
      → ((i : ℕ) (r : R) → q i r ≡ false → q' i r ≡ false → p i r ≡ false)
      → find_row q d ≡ none
      → find_row q' d ≡ none
      → find_row p d ≡ none
  unfolding find_row
  find_row-neither p q q' [] implies h h' = refl
  find_row-neither p q q' ((i, r) ∷ d) implies h h' =
      ground (arith, implies i r, find_row-neither p q q' d implies)

  pub find_row-single :
      (p : ℕ → R → Bool) (i : ℕ) (r : R) → p i r ≡ true → find_row p ((i, r) ∷ []) ≡ some (i, r)
  unfolding find_row
  find_row-single p i r h = rw h

  pub lookup-add_row_self :
      (r : R) (t : Table R) → IsTable t → lookup t.next_id (add_row r t).rows ≡ some r
  lookup-add_row_self r t h = ground (arith, lookup-add_row t.next_id r t h)
