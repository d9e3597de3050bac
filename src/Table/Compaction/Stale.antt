-- ===== src/Table/Compaction/Stale.antt =====
-- What `Table::Compact` of src/table/table.cpp makes of an updated base row.
use coredb.Prelude.{
  ℕ, zero, suc, ◌+◌, ◌^◌, ◌<◌, ◌≡◌, ◌≢◌, refl, ◌∙◌, true, false, List, [], ◌∷◌, ◌++◌, some, map,
  ◌==◌, length, get_elem?, All, arith, Option-cases, inl, inr,
}
use coredb.Storage.Types.{Value, Row, Double}
use coredb.Storage.Segment.{Segment, build, read_row}
use coredb.Storage.Segment.Build.{RowFits, build_total}
use coredb.Mvcc.Transaction.{
  Transaction, TransactionManager, committed_by, oldest_active_snapshot, is_aborted, get_status,
}
use coredb.Mvcc.Delta
use coredb.Mvcc.Delta.{DeltaRecord, DeltaLayer, tombstone, scan, claim_or_insert_base_tombstone}
use coredb.Table
use coredb.Table.{Table, row_id_exists_in_base, surviving_base, claim}
use coredb.Table.Compaction.{head_index, fate, sort_records, sort_delta, rebuild, compact}

not_aborted :
    (m : TransactionManager) (id ts : ℕ)
    → committed_by m id ts ≡ true
    → is_aborted (get_status m id).state ≡ false
unfolding committed_by
not_aborted m id ts c = ground (arith, c)

-- The deletion and the new version that an update of a base row leaves.
abbrev after_update : ℕ → ℕ → Row → DeltaLayer
after_update row_id writer row = Delta.insert (tombstone row_id writer ∷ []) row_id writer row

sort_delta-after_update :
    (m : TransactionManager) (row_id writer : ℕ) (row : Row)
    → committed_by m writer (oldest_active_snapshot m) ≡ true
    → writer ≢ 0
    → sort_delta m (after_update row_id writer row)
      ≡ record { live_stable_rows = (row_id, row) ∷ []; stably_deleted_row_ids = []; kept = [] }
unfolding sort_delta sort_records head_index fate Delta.insert
sort_delta-after_update m row_id writer row c real =
    let same : (row_id == row_id) ≡ true = ground arith in
    let done : is_aborted (get_status m writer).state ≡ false = not_aborted m writer _ c in
    let deleted : (writer == 0) ≡ false = ground (arith, real) in
    rw (same, done, c, deleted) (rw same (ground (arith, same)))

module _ (d : Double) (t : Table) (txn : Transaction) (row_id : ℕ) (row : Row) where
  abbrev updated : Table
  updated = record t { delta = after_update row_id txn.txn_id row }

  update-in_base :
      t.delta ≡ []
      → row_id_exists_in_base row_id t.base_segments ≡ some true
      → Table.update t txn row_id row ≡ some (updated, true)
  unfolding Table.update claim claim_or_insert_base_tombstone scan
  update-in_base empty present = rw (empty, present) refl

  -- The base that compaction builds has every row that it had, and the new version.
  rebuilds :
      (m : TransactionManager) (rows : List (ℕ × Row)) (seg : Segment)
      → committed_by m txn.txn_id (oldest_active_snapshot m) ≡ true
      → txn.txn_id ≢ 0
      → surviving_base [] t.base_segments ≡ some rows
      → build d t.next_segment_id t.full_schema
          (map (λ e. e.1) rows ++ (Value.int64 row_id ∷ row) ∷ [])
        ≡ some seg
      → (after : Table) × (compact d (record updated { txn_mgr = m }) ≡ some after)
        × (after.base_segments ≡ seg ∷ [])
        × (after.delta ≡ [])
  unfolding compact rebuild
  rebuilds m rows seg c real all built =
      let sorted = sort_delta-after_update m row_id txn.txn_id row c real in
      elim (Option-cases (compact d (record updated { txn_mgr = m }))) [
        | inl thrown ↦ absurd (ground (arith, thrown, sorted, all, built))
        | inr (after, e) ↦
            (after, e, ground (arith, e, sorted, all, built), ground (arith, e, sorted, all, built))
      ]

  -- In a table with an empty delta layer, an update of a row that is in the base, by a transaction
  -- with an id other than 0, succeeds; and where the transaction is committed at or before the
  -- oldest active snapshot when the table is compacted, the new base is one segment that has every
  -- row of the old base, that of the updated row as it was before, and behind them the new version
  -- under the same id, while the delta layer is empty. The rows fit the schema, and one more than
  -- there are is fewer than 2 ^ 32.
  pub updated_base_row_stays :
      (m : TransactionManager) (rows : List (ℕ × Row))
      → t.delta ≡ []
      → txn.txn_id ≢ 0
      → row_id_exists_in_base row_id t.base_segments ≡ some true
      → committed_by m txn.txn_id (oldest_active_snapshot m) ≡ true
      → surviving_base [] t.base_segments ≡ some rows
      → length rows + 1 < 2 ^ 32
      → All (λ e. RowFits t.full_schema e.1) rows
      → RowFits t.full_schema (Value.int64 row_id ∷ row)
      → (after : Table) × (seg : Segment) × (Table.update t txn row_id row ≡ some (updated, true))
        × (compact d (record updated { txn_mgr = m }) ≡ some after)
        × (after.base_segments ≡ seg ∷ [])
        × (after.delta ≡ [])
        × (seg.num_rows ≡ length rows + 1)
        × ((j : ℕ) (e : ℕ × Row) → get_elem? rows j ≡ some e → read_row seg.columns j ≡ some e.1)
        × (read_row seg.columns (length rows) ≡ some (Value.int64 row_id ∷ row))
  updated_base_row_stays m rows empty real present c all small fit fits_new =
      let full = map (λ e. e.1) rows in
      let (seg, built, count, reads) =
        build_total d t.next_segment_id t.full_schema (full ++ (Value.int64 row_id ∷ row) ∷ [])
          (omega (arith, small, counted rows)) (all_fit rows fit) in
      let (after, compacted, base, delta) = rebuilds m rows seg c real all built in
      (
        after,
        seg,
        update-in_base empty present,
        compacted,
        base,
        delta,
        count ∙ counted rows,
        λ j e at. reads j e.1 (front rows j e at),
        reads (length rows) (Value.int64 row_id ∷ row) (back rows),
      )
    where
      counted :
          (rows : List (ℕ × Row))
          → length (map (λ e. e.1) rows ++ (Value.int64 row_id ∷ row) ∷ []) ≡ length rows + 1
      counted [] = refl
      counted (e ∷ rows) = omega (arith, counted rows)

      all_fit :
          (rows : List (ℕ × Row))
          → All (λ e. RowFits t.full_schema e.1) rows
          → All (RowFits t.full_schema) (map (λ e. e.1) rows ++ (Value.int64 row_id ∷ row) ∷ [])
      all_fit [] h = (fits_new, tt)
      all_fit (e ∷ rows) h = (h.0, all_fit rows h.1)

      front :
          (rows : List (ℕ × Row)) (j : ℕ) (e : ℕ × Row)
          → get_elem? rows j ≡ some e
          → get_elem? (map (λ e. e.1) rows ++ (Value.int64 row_id ∷ row) ∷ []) j ≡ some e.1
      front [] j e h = absurd (ground (arith, h))
      front (x ∷ rows) zero e h = ground (arith, h)
      front (x ∷ rows) (suc j) e h = front rows j e h

      back :
          (rows : List (ℕ × Row))
          → get_elem? (map (λ e. e.1) rows ++ (Value.int64 row_id ∷ row) ∷ []) (length rows)
            ≡ some (Value.int64 row_id ∷ row)
      back [] = refl
      back (e ∷ rows) = back rows
