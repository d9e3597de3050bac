-- ===== src/Table/View.antt =====
-- What `MaterializeVisibleRows` of src/table/table.cpp makes of the delta layer, against a
-- description by row.
pub mod Own
use coredb.Prelude.{
  ℕ, ◌<◌, ◌≡◌, ◌≢◌, refl, ap, sym, ◌∙◌, Bool, true, false, not, ◌&&◌, ◌||◌, List, [], ◌∷◌, ◌++◌,
  Option, none, some, arith, ◌==◌, if◌then◌else◌, inl, inr,
}
use coredb.Prelude.Map
use coredb.Storage.Types.{Row}
use coredb.Mvcc.Transaction.{Transaction, TransactionManager}
use coredb.Mvcc.Delta
use coredb.Mvcc.Delta.{
  DeltaRecord, DeltaLayer, WriteResult, ok, conflict, not_found, is_visible, seen, tombstone,
  claim_or_insert_base_tombstone,
}
use coredb.Mvcc.Delta.Claim.{OneClaimed, here, there, Claimable, Effect, claim-Effect}
use coredb.Table.{Table, insert, update}
use coredb.Table.Isolation.{update_inversion}
use coredb.Table.Scan.{Merge, merge_record, merge_records}

abbrev pub or_else : Option Row → Option Row → Option Row
or_else none other = other
or_else (some row) other = some row

or_else_if :
    (n m : Option Row) (b : Bool) (row : Row)
    → or_else n (if b then some row else m) ≡ or_else (or_else n (if b then some row else none)) m
or_else_if none m true row = refl
or_else_if none m false row = refl
or_else_if (some r) m b row = refl

module _ (txm : TransactionManager) (reader : Transaction) (id : ℕ) where
  -- A version of the row that the reader sees.
  abbrev pub shows : DeltaRecord → Bool
  shows rec = not rec.is_base_tombstone && rec.row_id == id && is_visible rec reader txm

  -- Such a version, or a tombstone of the row whose deletion the reader sees.
  abbrev pub covers : DeltaRecord → Bool
  covers rec =
      rec.row_id == id
      && (if rec.is_base_tombstone
          then seen rec.deleted_txn reader txm
          else is_visible rec reader txm)

  -- The last version of the row that the reader sees.
  unfoldable pub newest : List DeltaRecord → Option Row
  newest [] = none
  newest (rec ∷ recs) = or_else (newest recs) (if shows rec then some rec.row else none)

  unfoldable pub covered : List DeltaRecord → Bool
  covered [] = false
  covered (rec ∷ recs) = covers rec || covered recs

  step_find :
      (m : Merge) (rec : DeltaRecord)
      → Map.find id (merge_record txm reader m rec).from_delta
        ≡ (if shows rec then some rec.row else Map.find id m.from_delta)
  unfolding merge_record
  step_find m rec = ground (arith, Map.find-put rec.row_id id rec.row m.from_delta)

  step_covers :
      (m : Merge) (rec : DeltaRecord)
      → Map.contains id (merge_record txm reader m rec).suppress_base
        ≡ (covers rec || Map.contains id m.suppress_base)
  unfolding merge_record
  step_covers m rec = ground (arith, Map.contains-add rec.row_id id m.suppress_base)

  merge_find :
      (m : Merge) (recs : List DeltaRecord)
      → Map.find id (merge_records txm reader m recs).from_delta
        ≡ or_else (newest recs) (Map.find id m.from_delta)
  unfolding merge_records newest
  merge_find m [] = refl
  merge_find m (rec ∷ recs) =
      merge_find (merge_record txm reader m rec) recs
      ∙ ap (or_else (newest recs)) (step_find m rec)
      ∙ or_else_if (newest recs) (Map.find id m.from_delta) (shows rec) rec.row

  merge_covers :
      (m : Merge) (recs : List DeltaRecord)
      → Map.contains id (merge_records txm reader m recs).suppress_base
        ≡ (covered recs || Map.contains id m.suppress_base)
  unfolding merge_records covered
  merge_covers m [] = refl
  merge_covers m (rec ∷ recs) =
      ground (arith, merge_covers (merge_record txm reader m rec) recs, step_covers m rec)

  pub newest-append :
      (recs : List DeltaRecord) (rec : DeltaRecord)
      → newest (recs ++ rec ∷ []) ≡ (if shows rec then some rec.row else newest recs)
  unfolding newest
  newest-append [] rec = refl
  newest-append (x ∷ recs) rec = rw (newest-append recs rec) (last_wins (shows rec))
    where
      last_wins :
          (b : Bool)
          → or_else (if b then some rec.row else newest recs) (if shows x then some x.row else none)
            ≡ (if b then some rec.row else newest (x ∷ recs))
      last_wins true = refl
      last_wins false = refl

  pub covered-append :
      (recs : List DeltaRecord) (rec : DeltaRecord)
      → covered (recs ++ rec ∷ []) ≡ (covered recs || covers rec)
  unfolding covered
  covered-append [] rec = ground arith
  covered-append (x ∷ recs) rec = ground (arith, covered-append recs rec)

  -- A record of another row plays no part.
  pub other_row :
      (recs : List DeltaRecord) (rec : DeltaRecord)
      → rec.row_id ≢ id
      → (newest (recs ++ rec ∷ []) ≡ newest recs) × (covered (recs ++ rec ∷ []) ≡ covered recs)
  other_row recs rec other = (
    ground (arith, newest-append recs rec, other),
    ground (arith, covered-append recs rec, other),
  )

  -- Nor does a claim of one.
  pub other_claim :
      (row_id : ℕ) (w : Transaction) {rs ss : List DeltaRecord}
      → row_id ≢ id
      → OneClaimed (Claimable row_id w txm) w.txn_id rs ss
      → (newest ss ≡ newest rs) × (covered ss ≡ covered rs)
  unfolding newest covered
  other_claim row_id w other (here {r = r} {rs = rs} k) =
      (ground (arith, k.same_row, other), ground (arith, k.same_row, other))
  other_claim row_id w other (there {r = r} {rs = rs} {ss = ss} o) =
      let (same, covers_same) = other_claim row_id w other o in (rw same refl, rw covers_same refl)

-- What a reader gets for a row id: a version from the delta layer, nothing at all, or what the base
-- has.
pub data Reading : Type 0 where
  version : Row → Reading
  hidden in_base : Reading

abbrev reading : Bool → Option Row → Reading
reading is_covered (some row) = version row
reading is_covered none = if is_covered then hidden else in_base

-- The reading that a scan merges, and the one by the newest version.
unfoldable pub scanned : Table → Transaction → ℕ → Reading
unfolding merge_records
scanned t reader id =
    let merged =
      merge_records t.txn_mgr reader (record { from_delta = []; suppress_base = [] }) t.delta in
    reading (Map.contains id merged.suppress_base) (Map.find id merged.from_delta)

unfoldable pub read : Table → Transaction → ℕ → Reading
unfolding newest covered
read t reader id =
    reading (covered t.txn_mgr reader id t.delta) (newest t.txn_mgr reader id t.delta)

reading_same : (c : Bool) (n : Option Row) → reading (c || false) (or_else n none) ≡ reading c n
reading_same true none = refl
reading_same false none = refl
reading_same c (some row) = refl

-- For every row id, what a scan merges from the delta layer is the last version of the row that
-- the reader sees; where there is none, the base row is hidden exactly if the layer has a
-- tombstone of the row whose deletion the reader sees.
pub scanned-read :
    (t : Table) (reader : Transaction) (id : ℕ) → scanned t reader id ≡ read t reader id
unfolding scanned read
scanned-read t reader id =
    rw (merge_find t.txn_mgr reader id _ t.delta, merge_covers t.txn_mgr reader id _ t.delta)
      (reading_same _ _)
