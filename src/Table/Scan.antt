-- ===== src/Table/Scan.antt =====
-- `SnapshotForScan` and `MaterializeVisibleRows` of src/table/table.cpp. The unordered map of rows
-- is an association list: the order of the rows in the result is not specified by the source.
use coredb.Prelude.{ℕ, List, [], ◌∷◌, ◌++◌, Option, some, map, ◌>>=◌, if◌then◌else◌}
use coredb.Prelude.Map
use coredb.Storage.Types.{Row}
use coredb.Storage.Segment.{Segment}
use coredb.Mvcc.Transaction.{Transaction, TransactionManager}
use coredb.Mvcc.Delta.{DeltaRecord, is_visible, seen}
use coredb.Table.{Table, surviving_base}

pub record ScanSnapshot : Type 0 where
  pub segments : List Segment
  pub delta_records : List DeltaRecord
  pub reader : Transaction

unfoldable pub snapshot_for_scan : Table → Transaction → ScanSnapshot
snapshot_for_scan t reader = record {
  segments = t.base_segments;
  delta_records = t.delta;
  reader = reader;
}

-- `from_delta` and `suppress_base`
pub record Merge : Type 0 where
  pub from_delta : List (ℕ × Row)
  pub suppress_base : List ℕ

unfoldable pub merge_record : TransactionManager → Transaction → Merge → DeltaRecord → Merge
unfolding seen
merge_record txm reader m rec =
    if rec.is_base_tombstone
    then (if seen rec.deleted_txn reader txm
        then record m { suppress_base = Map.add rec.row_id m.suppress_base }
        else m)
    else if is_visible rec reader txm
    then record {
      from_delta = Map.put rec.row_id rec.row m.from_delta;
      suppress_base = Map.add rec.row_id m.suppress_base;
    }
    else m

unfoldable pub merge_records : TransactionManager → Transaction → Merge → List DeltaRecord → Merge
merge_records txm reader m [] = m
merge_records txm reader m (rec ∷ recs) =
    merge_records txm reader (merge_record txm reader m rec) recs

-- A full row without its hidden first column.
abbrev pub user_part : Row → Row
user_part [] = []
user_part (id ∷ row) = row

unfoldable pub materialize_visible_rows : Table → ScanSnapshot → Option (List Row)
unfolding merge_records
materialize_visible_rows t snapshot =
    let merged =
      merge_records t.txn_mgr snapshot.reader (record { from_delta = []; suppress_base = [] })
        snapshot.delta_records in
    surviving_base merged.suppress_base snapshot.segments >>= λ base.
    some (map (λ e. e.1) merged.from_delta ++ map (λ e. user_part e.1) base)
