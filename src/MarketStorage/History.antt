-- ===== src/MarketStorage/History.antt =====
-- The history of prices: a snapshot counts once, and old days go.
use mathlib.Core.Option.{none-ne-some, some-injective}
use scam_screener_api.Base.{
  ℕ, ◌≡◌, refl, sym, ap, ◌∙◌, subst, Str, str_eq, nat_eq, false, Option, none, some, [], ◌∷◌, ◌++◌,
  arith,
}
use scam_screener_api.Base.Dict.{
  Dict, lookup, NodupKeys, lookup-drop-last, lookup-select, append-NodupKeys, select-NodupKeys,
}
use scam_screener_api.LowestBin.{Floats}
use scam_screener_api.MarketStorage.{Sums, ProcessedRow, ItemRow, AggregateRow, Database, Content}
use scam_screener_api.MarketStorage.Write.{
  is_pruned, pruned, with_aggregates, aggregated, processed_once, current, filled, dated,
  write_lowestbin_snapshot,
}

module _ (floats : Floats) (sums : Sums floats) (retention_days now_ms generated_at_epoch_ms : ℕ)
    (content : Content floats) where
  open floats use {Price}

  -- The snapshot is among those that have been processed, each of which is there once.
  abbrev pub IsRecorded : Database floats → Type 0
  IsRecorded db =
      ((row : ProcessedRow) × (lookup content.snapshot_last_updated db.processed ≡ some row))
      × NodupKeys db.processed

  not_pruned : (day : ℕ) → is_pruned retention_days day day ≡ false
  unfolding is_pruned
  not_pruned day = ground arith

  with_aggregates-IsRecorded :
      (day : ℕ) (db after : Database floats)
      (aggregates : Option (Dict (Str × ℕ) (AggregateRow floats)))
      → lookup content.snapshot_last_updated db.processed ≡ none
      → NodupKeys db.processed
      → with_aggregates floats sums retention_days day now_ms content db aggregates ≡ some after
      → IsRecorded after
  unfolding with_aggregates pruned
  with_aggregates-IsRecorded day db after none new u e = absurd (none-ne-some after e)
  with_aggregates-IsRecorded day db after (some aggregates) new u e =
      let row : ProcessedRow = record { snapshot_day = day; processed_at_epoch_ms = now_ms } in
      let whole = db.processed ++ (content.snapshot_last_updated, row) ∷ [] in
      let unique : NodupKeys whole =
        append-NodupKeys content.snapshot_last_updated row db.processed u new in
      let found : lookup content.snapshot_last_updated whole ≡ some row =
        lookup-drop-last 0 content.snapshot_last_updated row db.processed new (omega arith) in
      subst IsRecorded (some-injective _ after e) (
        (
          row,
          rw (lookup-select content.snapshot_last_updated _ whole row unique found)
              (rw (not_pruned day) refl),
        ),
        select-NodupKeys _ whole unique,
      )

  processed_once-IsRecorded :
      (day : ℕ) (there : Option ProcessedRow) (db after : Database floats)
      → lookup content.snapshot_last_updated db.processed ≡ there
      → NodupKeys db.processed
      → processed_once floats sums retention_days day now_ms content there db ≡ some after
      → IsRecorded after
  unfolding processed_once aggregated
  processed_once-IsRecorded day none db after found u e =
      with_aggregates-IsRecorded day db after _ found u e
  processed_once-IsRecorded day (some row) db after found u e =
      subst IsRecorded (some-injective db after e) ((row, found), u)

  filled-IsRecorded :
      (day : ℕ) (db after : Database floats) (items : Option (Dict Str (ItemRow floats)))
      → NodupKeys db.processed
      → filled floats sums retention_days now_ms generated_at_epoch_ms day content db items
        ≡ some after
      → IsRecorded after
  unfolding filled current
  filled-IsRecorded day db after none u e = absurd (none-ne-some after e)
  filled-IsRecorded day db after (some items) u e = processed_once-IsRecorded day _ _ after refl u e

  dated-IsRecorded :
      (day : Option ℕ) (db after : Database floats)
      → NodupKeys db.processed
      → dated floats sums retention_days now_ms generated_at_epoch_ms content db day ≡ some after
      → IsRecorded after
  unfolding dated
  dated-IsRecorded none db after u e = absurd (none-ne-some after e)
  dated-IsRecorded (some day) db after u e = filled-IsRecorded day db after _ u e

  -- A write that succeeds, to tables that hold every processed snapshot once, leaves its snapshot
  -- among those that are processed, and every one of them once.
  pub write_lowestbin_snapshot-IsRecorded :
      (db after : Database floats)
      → NodupKeys db.processed
      → write_lowestbin_snapshot floats sums retention_days now_ms generated_at_epoch_ms content db
        ≡ some after
      → IsRecorded after
  unfolding write_lowestbin_snapshot
  write_lowestbin_snapshot-IsRecorded db after u e = dated-IsRecorded _ db after u e

  -- The history is the same in both.
  abbrev pub SameHistory : Database floats → Database floats → Type 0
  SameHistory db after = (after.aggregates ≡ db.aggregates) × (after.processed ≡ db.processed)

  filled-SameHistory :
      (day : ℕ) (row : ProcessedRow) (db after : Database floats)
      (items : Option (Dict Str (ItemRow floats)))
      → lookup content.snapshot_last_updated db.processed ≡ some row
      → filled floats sums retention_days now_ms generated_at_epoch_ms day content db items
        ≡ some after
      → SameHistory db after
  unfolding filled current processed_once
  filled-SameHistory day row db after none found e = absurd (none-ne-some after e)
  filled-SameHistory day row db after (some items) found e =
      let same = sym (
        some-injective _ after (
          sym (
            ap
              (λ there.
                processed_once floats sums retention_days day now_ms content there
                  (current floats sums generated_at_epoch_ms now_ms content items db))
              found)
          ∙ e)) in
      (
        ap (λ (d : Database floats). d.aggregates) same,
        ap (λ (d : Database floats). d.processed) same,
      )

  dated-SameHistory :
      (day : Option ℕ) (row : ProcessedRow) (db after : Database floats)
      → lookup content.snapshot_last_updated db.processed ≡ some row
      → dated floats sums retention_days now_ms generated_at_epoch_ms content db day ≡ some after
      → SameHistory db after
  unfolding dated
  dated-SameHistory none row db after found e = absurd (none-ne-some after e)
  dated-SameHistory (some day) row db after found e = filled-SameHistory day row db after _ found e

  write_lowestbin_snapshot-SameHistory :
      (row : ProcessedRow) (db after : Database floats)
      → lookup content.snapshot_last_updated db.processed ≡ some row
      → write_lowestbin_snapshot floats sums retention_days now_ms generated_at_epoch_ms content db
        ≡ some after
      → SameHistory db after
  unfolding write_lowestbin_snapshot
  write_lowestbin_snapshot-SameHistory row db after found e =
      dated-SameHistory _ row db after found e

-- Prices are not counted twice: once a snapshot has been written, to tables that hold every
-- processed snapshot once, another write that succeeds for the same `snapshot_last_updated`, at
-- whatever time and with whatever items, leaves the history as it is.
pub write-write_lowestbin_snapshot :
    (floats : Floats) (sums : Sums floats)
    (retention_days first_ms first_generated second_ms second_generated : ℕ)
    (first second : Content floats) (db between after : Database floats)
    → NodupKeys db.processed
    → second.snapshot_last_updated ≡ first.snapshot_last_updated
    → write_lowestbin_snapshot floats sums retention_days first_ms first_generated first db
      ≡ some between
    → write_lowestbin_snapshot floats sums retention_days second_ms second_generated second between
      ≡ some after
    → (after.aggregates ≡ between.aggregates) × (after.processed ≡ between.processed)
write-write_lowestbin_snapshot floats sums retention_days first_ms first_generated second_ms
      second_generated first second db between after u same e f =
    let recorded =
      write_lowestbin_snapshot-IsRecorded floats sums retention_days first_ms first_generated first
        db between u e in
    write_lowestbin_snapshot-SameHistory floats sums retention_days second_ms second_generated
      second recorded.0.0 between after (ap (λ k. lookup k between.processed) same ∙ recorded.0.1) f
