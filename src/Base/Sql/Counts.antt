-- ===== src/Base/Sql/Counts.antt =====
-- How many rows there are before and after a DELETE.
use scam_screener_api.Base.{
  ℕ, ◌+◌, ◌≤◌, ◌≡◌, refl, nat_eq, Bool, true, false, ◌&&◌, none, [], ◌∷◌, ◌==◌, ==_iff, arith,
  select,
}
use scam_screener_api.Base.Dict.{Dict, lookup, NodupKeys}
use scam_screener_api.Base.Sql.{Table, IsTable, remains, count_rows, delete_rows}

module _ {ℓ} {R : Type ℓ} where
  -- Rows that a DELETE does not admit are counted as before.
  count_rows-disjoint :
      (p q : ℕ → R → Bool) (d : Dict ℕ R)
      → ((i : ℕ) (r : R) → p i r ≡ true → q i r ≡ false)
      → count_rows p (select (remains q) d) ≡ count_rows p d
  unfolding count_rows
  count_rows-disjoint p q [] apart = refl
  count_rows-disjoint p q ((i, r) ∷ d) apart =
      ground (arith, apart i r, count_rows-disjoint p q d apart)

  -- No row has an id that is not found.
  count_rows-absent :
      (p q : ℕ → R → Bool) (id : ℕ) (d : Dict ℕ R)
      → lookup id d ≡ none
      → count_rows p (select (remains (λ i r. i == id && q i r)) d) ≡ count_rows p d
  unfolding count_rows lookup
  count_rows-absent p q id [] absent = refl
  count_rows-absent p q id ((i, r) ∷ d) absent = ground (arith, count_rows-absent p q id d)

  -- A DELETE by an id takes at most one row.
  count_rows-delete_le :
      (p q : ℕ → R → Bool) (id : ℕ) (d : Dict ℕ R)
      → NodupKeys d
      → count_rows p d ≤ count_rows p (select (remains (λ i r. i == id && q i r)) d) + 1
  unfolding count_rows
  count_rows-delete_le p q id [] u = omega arith
  count_rows-delete_le p q id ((i, r) ∷ d) (fresh, u) =
      ground (arith, ==_iff i id, count_rows-delete_le p q id d u, count_rows-absent p q id d)

  pub count_rows-delete_other :
      (p q : ℕ → R → Bool) (t : Table R)
      → ((i : ℕ) (r : R) → p i r ≡ true → q i r ≡ false)
      → count_rows p (delete_rows q t).rows ≡ count_rows p t.rows
  unfolding delete_rows
  count_rows-delete_other p q t apart = count_rows-disjoint p q t.rows apart

  pub count_rows-delete_one :
      (p q : ℕ → R → Bool) (id : ℕ) (t : Table R)
      → IsTable t
      → count_rows p t.rows ≤ count_rows p (delete_rows (λ i r. i == id && q i r) t).rows + 1
  unfolding delete_rows
  count_rows-delete_one p q id t h = count_rows-delete_le p q id t.rows h.distinct
