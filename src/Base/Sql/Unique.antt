-- ===== src/Base/Sql/Unique.antt =====
-- Tables with a column that is UNIQUE, from which no row is deleted.
use mathlib.Core.Option.{none-ne-some, some-injective}
use scam_screener_api.Base.{
  ℕ, ◌≡◌, ◌≢◌, ◌⊎◌, refl, sym, ap, subst, either, ◌∙◌, inl, inr, Bool, true, false, Option, none,
  some, [], arith, Eq, nat_eq, Bool-cases, if◌then◌else◌, ==_iff,
}
use scam_screener_api.Base.Dict.{lookup}
use scam_screener_api.Base.Sql.{
  Table, IsTable, find_row, add_row, update_table, lookup-add_row, lookup-add_row-lt,
  lookup-update_rows, lookup-update_rows-some, lookup-lt-next, find_row-none, find_row_unique,
  add_row-IsTable, update_table-IsTable,
}

module _ {ℓ ι} {R : Type ℓ} {K : Type ι} ⦃q : Eq K⦄ (key : R → K) where
  -- `WHERE key = ?`
  abbrev pub has_key : K → ℕ → R → Bool
  has_key k i r = q.beq (key r) k

  -- The INSERT of a row; `none` for the IntegrityError of the UNIQUE column.
  unfoldable pub insert_unique : R → Table R → Option (Table R)
  insert_unique r t = elim (find_row (has_key (key r)) t.rows) [
    | none ↦ some (add_row r t)
    | some duplicate ↦ none
  ]

  pub record IsKeyed (t : Table R) : Type (ℓ ⊔ ι) where
    pub table : IsTable t
    pub unique :
        (i j : ℕ) (r s : R)
        → lookup i t.rows ≡ some r
        → lookup j t.rows ≡ some s
        → key r ≡ key s
        → i ≡ j

  pub empty-IsKeyed : IsKeyed (record { rows = []; next_id = 1 })
  unfolding lookup
  empty-IsKeyed = record {
    table = record { distinct = tt; below = tt };
    unique = λ i j r s e e' same. absurd (none-ne-some r e);
  }

  -- What a statement may do to the table: nothing, an UPDATE of a kind, an INSERT of a new key.
  pub data Edit {κ} (Kind : (R → R) → Type κ) (New : R → Type 0) (t : Table R)
      : Table R → Type (ℓ ⊔ κ ⊔ ι) where
    kept : Edit Kind New t t
    updated : (p : ℕ → R → Bool) (f : R → R) → Kind f → Edit Kind New t (update_table p f t)
    inserted :
        (r : R) → New r → find_row (has_key (key r)) t.rows ≡ none → Edit Kind New t (add_row r t)

  -- The row with this id is there, and it is as told.
  pub record At {κ} (P : R → Type κ) (i : ℕ) (t : Table R) : Type (ℓ ⊔ κ) where
    pub row : R
    pub stored : lookup i t.rows ≡ some row
    pub holds : P row

  -- The row that has the key is the one that is found.
  pub find_row-At :
      (i : ℕ) (r : R) (t : Table R)
      → IsKeyed t
      → lookup i t.rows ≡ some r
      → find_row (has_key (key r)) t.rows ≡ some (i, r)
  find_row-At i r t h e =
      find_row_unique (has_key (key r)) t.rows i r h.table.distinct e
        ((q.beq_iff (key r) (key r)).1 refl)
        (λ j s there same. h.unique j i s r there e ((q.beq_iff (key s) (key r)).0 same))

  added-cases :
      (i : ℕ) (r : R) (t : Table R) (a : R)
      → IsTable t
      → lookup i (add_row r t).rows ≡ some a
      → ((i ≡ t.next_id) × (r ≡ a)) ⊎ (lookup i t.rows ≡ some a)
  added-cases i r t a h e = elim (Bool-cases (nat_eq.beq i t.next_id)) [
    | inl last ↦ inl (
      (==_iff i t.next_id).0 last,
      some-injective r a (sym (lookup-add_row i r t h ∙ rw last refl) ∙ e),
    )
    | inr before ↦ inr (sym (lookup-add_row i r t h ∙ rw before refl) ∙ e)
  ]

  -- A key that no row has.
  new_key :
      (r : R) (t : Table R) (i : ℕ) (a : R)
      → find_row (has_key (key r)) t.rows ≡ none
      → lookup i t.rows ≡ some a
      → key a ≢ key r
  new_key r t i a fresh e same =
      let other = find_row-none (has_key (key r)) t.rows i a fresh e in
      ground (arith, q.beq_iff (key a) (key r))

  add_row-IsKeyed :
      (r : R) (t : Table R)
      → IsKeyed t
      → find_row (has_key (key r)) t.rows ≡ none
      → IsKeyed (add_row r t)
  add_row-IsKeyed r t h fresh = record {
    table = add_row-IsTable r t h.table;
    unique = λ i j a b e e' same.
        apart i j a b (added-cases i r t a h.table e) (added-cases j r t b h.table e') same;
  }
    where
      apart :
          (i j : ℕ) (a b : R)
          → ((i ≡ t.next_id) × (r ≡ a)) ⊎ (lookup i t.rows ≡ some a)
          → ((j ≡ t.next_id) × (r ≡ b)) ⊎ (lookup j t.rows ≡ some b)
          → key a ≡ key b
          → i ≡ j
      apart i j a b (inl (last, e)) (inl (last', e')) same = last ∙ sym last'
      apart i j a b (inl (last, e)) (inr there) same =
          absurd (new_key r t j b fresh there (sym same ∙ ap key (sym e)))
      apart i j a b (inr there) (inl (last, e)) same =
          absurd (new_key r t i a fresh there (same ∙ ap key (sym e)))
      apart i j a b (inr there) (inr there') same = h.unique i j a b there there' same

  -- The row behind an UPDATE, which keeps the key.
  update_table-IsKeyed :
      (p : ℕ → R → Bool) (f : R → R) (t : Table R)
      → ((r : R) → key (f r) ≡ key r)
      → IsKeyed t
      → IsKeyed (update_table p f t)
  unfolding update_table
  update_table-IsKeyed p f t keeps h = record {
    table = update_table-IsTable p f t h.table;
    unique = λ i j a b e e' same.
        let (r, there, made) = lookup-update_rows-some i p f t.rows a e in
        let (s, there', made') = lookup-update_rows-some j p f t.rows b e' in
        h.unique i j r s there there'
          (sym (kept_key (p i r) r) ∙ sym (ap key made) ∙ same ∙ ap key made' ∙ kept_key (p j s) s);
  }
    where
      kept_key : (b : Bool) (r : R) → key (if b then f r else r) ≡ key r
      kept_key true r = keeps r
      kept_key false r = refl

  module _ {κ} (Kind : (R → R) → Type κ)
      (keeps : (f : R → R) → Kind f → (r : R) → key (f r) ≡ key r) where
    pub Edit-IsKeyed :
        {New : R → Type 0} {t t' : Table R} → IsKeyed t → Edit Kind New t t' → IsKeyed t'
    Edit-IsKeyed h kept = h
    Edit-IsKeyed {t} h (updated p f kind) = update_table-IsKeyed p f t (keeps f kind) h
    Edit-IsKeyed {t} h (inserted r new fresh) = add_row-IsKeyed r t h fresh

  module _ {κ μ} (Kind : (R → R) → Type κ) (P : R → Type μ)
      (lasts : (f : R → R) → Kind f → (r : R) → P r → P (f r)) where
    pub Edit-At :
        {New : R → Type 0} {i : ℕ} {t t' : Table R}
        → IsTable t
        → At P i t
        → Edit Kind New t t'
        → At P i t'
    unfolding update_table
    Edit-At h a kept = a
    Edit-At {i} {t} h a (updated p f kind) = record {
      row = if p i a.row then f a.row else a.row;
      stored = lookup-update_rows i p f t.rows ∙ rw a.stored refl;
      holds = held (p i a.row);
    }
      where
        held : (b : Bool) → P (if b then f a.row else a.row)
        held true = lasts f kind a.row a.holds
        held false = a.holds
    Edit-At {i} {t} h a (inserted r new fresh) = record {
      row = a.row;
      stored =
          lookup-add_row-lt i r t h (lookup-lt-next i t.next_id t.rows a.row h.below a.stored)
          ∙ a.stored;
      holds = a.holds;
    }

-- The table after an INSERT that may fail.
abbrev pub or_kept {ℓ} : {R : Type ℓ} → Table R → Option (Table R) → Table R
or_kept t none = t
or_kept t (some t') = t'

module _ {ℓ κ ι} {R : Type ℓ} {K : Type ι} ⦃q : Eq K⦄ (key : R → K) (Kind : (R → R) → Type κ) where
  pub insert_unique-Edit :
      (New : R → Type 0) (r : R) (t : Table R)
      → New r
      → Edit key Kind New t (or_kept t (insert_unique key r t))
  unfolding insert_unique
  insert_unique-Edit New r t new =
      split (find_row (has_key key (key r)) t.rows) (λ e. Edit.inserted r new e)
    where
      split :
          (found : Option (ℕ × R))
          → (found ≡ none → Edit key Kind New t (add_row r t))
          → Edit key Kind New t
              (or_kept t (elim found [ none ↦ some (add_row r t) | some _ ↦ none ]))
      split none h = h refl
      split (some row) h = Edit.kept

-- What holds of every row, or of every row that is inserted.
module _ {ℓ κ ι} {R : Type ℓ} {K : Type ι} ⦃q : Eq K⦄ (key : R → K) (Kind : (R → R) → Type κ)
    (P : R → Type 0) (lasts : (f : R → R) → Kind f → (r : R) → P r → P (f r)) where
  pub Edit-All :
      {t t' : Table R}
      → IsTable t
      → ((i : ℕ) (r : R) → lookup i t.rows ≡ some r → P r)
      → Edit key Kind P t t'
      → (i : ℕ) (r : R) → lookup i t'.rows ≡ some r
      → P r
  unfolding update_table
  Edit-All h all Edit.kept i r e = all i r e
  Edit-All {t} h all (Edit.updated p f kind) i r e =
      let (s, there, made) = lookup-update_rows-some i p f t.rows r e in
      rw made (either P (p i s) (lasts f kind s (all i s there)) (all i s there))
  Edit-All {t} h all (Edit.inserted s new fresh) i r e =
      elim (Bool-cases (nat_eq.beq i t.next_id)) [
        | inl last ↦
            subst P (some-injective s r (sym (lookup-add_row i s t h ∙ rw last refl) ∙ e)) new
        | inr before ↦ all i r (sym (lookup-add_row i s t h ∙ rw before refl) ∙ e)
      ]

module _ {ℓ κ μ ι} {R : Type ℓ} {K : Type ι} ⦃q : Eq K⦄ (key : R → K) (P : R → Type κ)
    (Q : R → Type μ) where
  -- The row after an UPDATE.
  pub update_table-At :
      (p : ℕ → R → Bool) (f : R → R) (i : ℕ) (t : Table R)
      → ((r : R) → P r → Q (if p i r then f r else r))
      → At key P i t
      → At key Q i (update_table p f t)
  unfolding update_table
  update_table-At p f i t made a = record {
    row = if p i a.row then f a.row else a.row;
    stored = lookup-update_rows i p f t.rows ∙ rw a.stored refl;
    holds = made a.row a.holds;
  }
