-- ===== src/LowestBin/Minimum.antt =====
-- The index against a description of the lowest offer of each item.
use scam_screener_api.Base.{
  ℕ, ◌≡◌, ◌≢◌, refl, sym, subst, Str, true, false, Option, none, some, List, [], ◌∷◌, ◌++◌, map,
  str_eq, str_beq, str_beq_iff, Bool-cases, inl, inr, All, All-map, All-append, append_assoc,
  append-nil,
}
use scam_screener_api.Base.Dict.{lookup, lookup-insert}
use scam_screener_api.LowestBin.{Floats, IsOrder}
use scam_screener_api.LowestBin.Index.{
  Auction, ResolvedAuctionItem, LowestBinIndexBuilder, reset, undercuts, add_key, add_keys, counted,
  add_counted, fold_loop, add_page, parse_item_name,
}

-- One key of one auction that counts, with what the index may record for it.
pub record Offer (Price : Type 0) : Type 0 where
  pub key : Str
  pub price : Price
  pub uuid : Str
  pub name : Str

module _ (floats : Floats) where
  open floats use {Price, lt}

  -- The first of the cheapest offers of a key: those before it cost more, those behind it no less.
  pub record IsLowest (k : Str) (offers : List (Offer Price)) (o : Offer Price) : Type 0 where
    pub keyed : o.key ≡ k
    pub before : List (Offer Price)
    pub behind : List (Offer Price)
    pub place : offers ≡ before ++ o ∷ behind
    pub dearer : All (λ x. x.key ≡ k → lt o.price x.price ≡ true) before
    pub no_cheaper : All (λ x. x.key ≡ k → lt x.price o.price ≡ false) behind

  -- The three entries of a key: all of its lowest offer, or none if nothing offers it.
  abbrev pub Describes : Str → List (Offer Price) → Option Price → Option Str → Option Str → Type 0
  Describes k offers none u n = (u ≡ none) × (n ≡ none) × All (λ x. x.key ≢ k) offers
  Describes k offers (some p) u n =
      (o : Offer Price) × (p ≡ o.price)
      × (u ≡ some o.uuid)
      × (n ≡ some o.name)
      × IsLowest k offers o

  -- The entries of the key in a builder.
  abbrev pub Holds : Str → List (Offer Price) → LowestBinIndexBuilder floats → Type 0
  Holds k offers b =
      Describes k offers (lookup k b.lowest_bins) (lookup k b.auctioneer_uuids)
        (lookup k b.item_names)

  abbrev pub offer : Price → Str → Str → Str → Offer Price
  offer price uuid name key = record {
    key = key;
    price = price;
    uuid = uuid;
    name = parse_item_name name key;
  }

  module _ (order : IsOrder floats) where
    other_key :
        (k : Str) (offers : List (Offer Price)) (o : Offer Price) (l : Option Price)
        (u n : Option Str)
        → o.key ≢ k
        → Describes k offers l u n
        → Describes k (offers ++ o ∷ []) l u n
    other_key k offers o none u n e (hu, hn, none_of) =
        (hu, hn, All-append (λ x. x.key ≢ k) offers (o ∷ []) none_of (e, tt))
    other_key k offers o (some p) u n e (x, hp, hu, hn, low) = (
      x,
      hp,
      hu,
      hn,
      record {
        keyed = low.keyed;
        before = low.before;
        behind = low.behind ++ o ∷ [];
        place = rw (low.place, append_assoc) refl;
        dearer = low.dearer;
        no_cheaper =
            All-append (λ y. y.key ≡ k → lt y.price x.price ≡ false) low.behind (o ∷ [])
              low.no_cheaper ((λ same. absurd (e same)), tt);
      },
    )

    kept :
        (k : Str) (offers : List (Offer Price)) (o : Offer Price) (l : Option Price)
        (u n : Option Str)
        → undercuts floats o.price l ≡ false
        → Describes k offers l u n
        → Describes k (offers ++ o ∷ []) l u n
    unfolding undercuts
    kept k offers o none u n e d = cc
    kept k offers o (some p) u n e (x, hp, hu, hn, low) = (
      x,
      hp,
      hu,
      hn,
      record {
        keyed = low.keyed;
        before = low.before;
        behind = low.behind ++ o ∷ [];
        place = rw (low.place, append_assoc) refl;
        dearer = low.dearer;
        no_cheaper =
            All-append (λ y. y.key ≡ k → lt y.price x.price ≡ false) low.behind (o ∷ [])
              low.no_cheaper ((λ same. rw hp at e), tt);
      },
    )

    -- What cost more than `p` or no less costs more than a price below `p`.
    lt_of_undercut : (p q r : Price) → lt q p ≡ true → lt r p ≡ false → lt q r ≡ true
    lt_of_undercut p q r below h = elim (Bool-cases (lt q r)) [
      | inl e ↦ e
      | inr e ↦ cc (order.transitive p r q h e)
    ]

    taken :
        (k : Str) (offers : List (Offer Price)) (o : Offer Price) (l : Option Price)
        (u n : Option Str)
        → o.key ≡ k
        → undercuts floats o.price l ≡ true
        → Describes k offers l u n
        → IsLowest k (offers ++ o ∷ []) o
    unfolding undercuts
    taken k offers o none u n same e (hu, hn, none_of) = record {
      keyed = same;
      before = offers;
      behind = [];
      place = refl;
      dearer =
          All-map (λ x. x.key ≢ k) (λ x. x.key ≡ k → lt o.price x.price ≡ true)
            (λ x f h. absurd (f h)) offers none_of;
      no_cheaper = tt;
    }
    taken k offers o (some p) u n same e (x, hp, hu, hn, low) = record {
      keyed = same;
      before = offers;
      behind = [];
      place = refl;
      dearer = rw low.place (
          All-append (λ y. y.key ≡ k → lt o.price y.price ≡ true) low.before (x ∷ low.behind)
            (All-map _ _
              (λ y f h.
                lt_of_undercut x.price o.price y.price (rw hp at e) (order.asymmetric _ _ (f h)))
              low.before low.dearer)
            (
              (λ h. rw hp at e),
              All-map _ _ (λ y f h. lt_of_undercut x.price o.price y.price (rw hp at e) (f h))
                  low.behind low.no_cheaper,
            ));
      no_cheaper = tt;
    }

    other-ne : (k key : Str) → str_beq k key ≡ false → key ≢ k
    other-ne k key differ e = cc ((str_beq_iff k key).1 (sym e))

    add_key-Holds :
        (k : Str) (offers : List (Offer Price)) (price : Price) (uuid name key : Str)
        (b : LowestBinIndexBuilder floats)
        → Holds k offers b
        → Holds k (offers ++ offer price uuid name key ∷ []) (add_key floats price uuid name key b)
    unfolding add_key
    add_key-Holds k offers price uuid name key b h =
        let o = offer price uuid name key in
        elim (Bool-cases (undercuts floats price (lookup key b.lowest_bins))) [
          | inr no_less ↦ rw no_less (elim (Bool-cases (str_beq k key)) [
            | inl same ↦
                kept k offers o _ _ _
                  (subst (λ x. undercuts floats price (lookup x b.lowest_bins) ≡ false)
                    (sym ((str_beq_iff k key).0 same)) no_less)
                  h
            | inr differ ↦ other_key k offers o _ _ _ (other-ne k key differ) h
          ])
          | inl cheaper ↦
              rw
                (
                  cheaper,
                  lookup-insert k key price b.lowest_bins,
                  lookup-insert k key uuid b.auctioneer_uuids,
                  lookup-insert k key (parse_item_name name key) b.item_names,
                )
                (elim (Bool-cases (str_beq k key)) [
                  | inl same ↦
                      let e = (str_beq_iff k key).0 same in
                      rw same (
                        o,
                        refl,
                        refl,
                        refl,
                        taken k offers o _ _ _ (sym e)
                            (subst (λ x. undercuts floats price (lookup x b.lowest_bins) ≡ true)
                              (sym e) cheaper)
                            h,
                      )
                  | inr differ ↦ rw differ (other_key k offers o _ _ _ (other-ne k key differ) h)
                ])
        ]

    add_keys-Holds :
        (k : Str) (offers : List (Offer Price)) (price : Price) (uuid name : Str) (keys : List Str)
        (b : LowestBinIndexBuilder floats)
        → Holds k offers b
        → Holds k
            (offers ++ map (offer price uuid name) keys)
            (add_keys floats price uuid name keys b)
    unfolding add_keys
    add_keys-Holds k offers price uuid name [] b h = rw append-nil h
    add_keys-Holds k offers price uuid name (key ∷ keys) b h =
        rw
          (← append_assoc offers (offer price uuid name key ∷ [])
            (map (offer price uuid name) keys))
          (add_keys-Holds k (offers ++ offer price uuid name key ∷ []) price uuid name keys _
            (add_key-Holds k offers price uuid name key b h))

  module _ {Item : Type 0} (resolve : Item → Option (ResolvedAuctionItem floats)) where
    unfoldable pub offers_of : Option (ResolvedAuctionItem floats × Str) → Str → List (Offer Price)
    offers_of none name = []
    offers_of (some (item, uuid)) name = map (offer item.unit_price uuid name) item.keys

    -- The offers of the auctions that count, in order: each key of each of them.
    unfoldable pub offers : List (Auction floats Item) → List (Offer Price)
    unfolding offers_of
    offers [] = []
    offers (auction ∷ auctions) =
        offers_of (counted floats resolve auction) auction.item_name ++ offers auctions

    module _ (order : IsOrder floats) where
      add_counted-Holds :
          (k : Str) (os : List (Offer Price)) (c : Option (ResolvedAuctionItem floats × Str))
          (name : Str) (s : LowestBinIndexBuilder floats × ℕ)
          → Holds k os s.0
          → Holds k (os ++ offers_of c name) (add_counted floats resolve c name s).0
      unfolding offers_of add_counted
      add_counted-Holds k os none name s h = rw append-nil h
      add_counted-Holds k os (some (item, uuid)) name s h =
          add_keys-Holds order k os item.unit_price uuid name item.keys s.0 h

      fold_loop-Holds :
          (k : Str) (os : List (Offer Price)) (auctions : List (Auction floats Item))
          (s : LowestBinIndexBuilder floats × ℕ)
          → Holds k os s.0
          → Holds k (os ++ offers auctions) (fold_loop floats resolve auctions s).0
      unfolding fold_loop offers
      fold_loop-Holds k os [] s h = rw append-nil h
      fold_loop-Holds k os (auction ∷ auctions) s h =
          rw
            (← append_assoc os (offers_of (counted floats resolve auction) auction.item_name)
              (offers auctions))
            (fold_loop-Holds k (os ++ offers_of (counted floats resolve auction) auction.item_name)
              auctions _ (add_counted-Holds k os _ auction.item_name s h))

      pub add_page-Holds :
          (k : Str) (earlier : List (Offer Price)) (auctions : List (Auction floats Item))
          (b : LowestBinIndexBuilder floats)
          → Holds k earlier b
          → Holds k (earlier ++ offers auctions) (add_page floats resolve auctions b)
      unfolding add_page
      add_page-Holds k earlier auctions b h = fold_loop-Holds k earlier auctions (b, 0) h

      -- Prices that compare like numbers: an index built in one call has for each key the price, the
      -- seller and the name of the first of the cheapest offers of all auctions that count, and no
      -- entry exactly where nothing offers the key.
      pub add_page-reset-Holds :
          (k : Str) (auctions : List (Auction floats Item))
          → Holds k (offers auctions) (add_page floats resolve auctions (reset floats))
      unfolding reset lookup
      add_page-reset-Holds k auctions = add_page-Holds k [] auctions (reset floats) (refl, refl, tt)
