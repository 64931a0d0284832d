-- ===== src/LowestBin/Paging.antt =====
-- The index does not depend on how the auctions are cut into pages.
use scam_screener_api.Base.{
  ℕ, ◌+◌, ◌≡◌, refl, sym, ◌∙◌, Str, Option, none, some, List, [], ◌∷◌, ◌++◌, arith, str_eq,
  Bool-cases, inl, inr, ap,
}
use native.Mathlib.Nat.{add_assoc, add-zero}
use mathlib.Core.List.{flatten}
use scam_screener_api.Base.Dict.{lookup}
use scam_screener_api.LowestBin.{Floats}
use scam_screener_api.LowestBin.Index.{
  Auction, ResolvedAuctionItem, LowestBinIndexBuilder, undercuts, add_key, add_keys, counted,
  add_counted, fold_loop, add_page, add_pages, add_total,
}

module _ (floats : Floats) where
  open floats use {Price, lt}

  abbrev with_total : ℕ → LowestBinIndexBuilder floats → LowestBinIndexBuilder floats
  with_total total b = record b { total_bin_auctions = total }

  add_key-with_total :
      (price : Price) (uuid name key : Str) (total : ℕ) (b : LowestBinIndexBuilder floats)
      → add_key floats price uuid name key (with_total total b)
        ≡ with_total total (add_key floats price uuid name key b)
  unfolding add_key
  add_key-with_total price uuid name key total b =
      elim (Bool-cases (undercuts floats price (lookup key b.lowest_bins))) [
        | inl e ↦ rw e
        | inr e ↦ rw e
      ]

  add_keys-with_total :
      (price : Price) (uuid name : Str) (keys : List Str) (total : ℕ)
      (b : LowestBinIndexBuilder floats)
      → add_keys floats price uuid name keys (with_total total b)
        ≡ with_total total (add_keys floats price uuid name keys b)
  unfolding add_keys
  add_keys-with_total price uuid name [] total b = refl
  add_keys-with_total price uuid name (key ∷ keys) total b =
      ap (add_keys floats price uuid name keys) (add_key-with_total price uuid name key total b)
      ∙ add_keys-with_total price uuid name keys total (add_key floats price uuid name key b)

  module _ {Item : Type 0} (resolve : Item → Option (ResolvedAuctionItem floats)) where
    abbrev shifted : ℕ → ℕ → LowestBinIndexBuilder floats × ℕ → LowestBinIndexBuilder floats × ℕ
    shifted total n (b, m) = (with_total total b, n + m)

    add_counted-shifted :
        (c : Option (ResolvedAuctionItem floats × Str)) (name : Str) (total n : ℕ)
        (s : LowestBinIndexBuilder floats × ℕ)
        → add_counted floats resolve c name (shifted total n s)
          ≡ shifted total n (add_counted floats resolve c name s)
    unfolding add_counted
    add_counted-shifted none name total n s = refl
    add_counted-shifted (some (item, uuid)) name total n (b, m) =
        rw (add_keys-with_total item.unit_price uuid name item.keys total b, add_assoc n m 1)

    -- The loop neither reads nor writes the total, and counts from where it began.
    fold_loop-shifted :
        (auctions : List (Auction floats Item)) (total n : ℕ) (s : LowestBinIndexBuilder floats × ℕ)
        → fold_loop floats resolve auctions (shifted total n s)
          ≡ shifted total n (fold_loop floats resolve auctions s)
    unfolding fold_loop
    fold_loop-shifted [] total n s = refl
    fold_loop-shifted (auction ∷ auctions) total n s =
        let c = counted floats resolve auction in
        ap (fold_loop floats resolve auctions) (add_counted-shifted c auction.item_name total n s)
        ∙ fold_loop-shifted auctions total n (add_counted floats resolve c auction.item_name s)

    fold_loop-append :
        (xs ys : List (Auction floats Item)) (s : LowestBinIndexBuilder floats × ℕ)
        → fold_loop floats resolve (xs ++ ys) s
          ≡ fold_loop floats resolve ys (fold_loop floats resolve xs s)
    unfolding fold_loop
    fold_loop-append [] ys s = refl
    fold_loop-append (auction ∷ xs) ys s = fold_loop-append xs ys _

    -- A page that goes on from a count gives what a page of its own gives.
    add_total-fold_loop :
        (ys : List (Auction floats Item)) (b : LowestBinIndexBuilder floats) (n : ℕ)
        → add_total floats (fold_loop floats resolve ys (b, n))
          ≡ add_total floats (fold_loop floats resolve ys (add_total floats (b, n), 0))
    add_total-fold_loop ys b n =
        let total = b.total_bin_auctions in
        let here : fold_loop floats resolve ys (b, n)
            ≡ shifted total n (fold_loop floats resolve ys (b, 0)) =
          ap (λ (k : ℕ). fold_loop floats resolve ys (b, k)) (omega arith)
          ∙ fold_loop-shifted ys total n (b, 0) in
        let there : fold_loop floats resolve ys (add_total floats (b, n), 0)
            ≡ shifted (total + n) 0 (fold_loop floats resolve ys (b, 0)) =
          fold_loop-shifted ys (total + n) 0 (b, 0) in
        rw (here, there)
          (ap (λ t. with_total t (fold_loop floats resolve ys (b, 0)).0) (omega arith))

    add_page-append :
        (xs ys : List (Auction floats Item)) (b : LowestBinIndexBuilder floats)
        → add_page floats resolve (xs ++ ys) b
          ≡ add_page floats resolve ys (add_page floats resolve xs b)
    unfolding add_page
    add_page-append xs ys b =
        ap (add_total floats) (fold_loop-append xs ys (b, 0)) ∙ add_total-fold_loop ys _ _

    add_page-nil : (b : LowestBinIndexBuilder floats) → add_page floats resolve [] b ≡ b
    unfolding add_page
    add_page-nil b = ap (λ t. with_total t b) (add-zero b.total_bin_auctions)

    -- However the auctions are cut into pages, the builder that was fed page by page is that which
    -- was fed all of them at once.
    pub add_pages-flatten :
        (pages : List (List (Auction floats Item))) (b : LowestBinIndexBuilder floats)
        → add_pages floats resolve pages b ≡ add_page floats resolve (flatten pages) b
    unfolding add_pages flatten
    add_pages-flatten [] b = sym (add_page-nil b)
    add_pages-flatten (auctions ∷ pages) b =
        add_pages-flatten pages (add_page floats resolve auctions b)
        ∙ sym (add_page-append auctions (flatten pages) b)
