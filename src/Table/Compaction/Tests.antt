-- ===== src/Table/Compaction/Tests.antt =====
-- Instances of the theorems about `Table::Compact` of src/table/table.cpp.
use coredb.Prelude.{ℕ, ◌≡◌, refl, true, false, List, [], ◌∷◌, some, ltb, get_elem?, arith}
use coredb.Storage.Types.{ColumnType, Value, Row, Double}
use coredb.Storage.Dictionary.{empty}
use coredb.Storage.Segment.{Column, Segment, read_row, value_at, load}
use coredb.Util.Bitmap.{is_valid, bit_at}
use coredb.Table
use coredb.Table.{Table, create, row_id_column, row_id_exists_in_base, surviving_base, id_at}
use coredb.Mvcc.Transaction.{
  Transaction, TransactionManager, init, begin, commit_state, committed_by, get_status,
  oldest_active_snapshot,
}
use coredb.Mvcc.Transaction.Invariant.{IsValid, init-IsValid, begin-IsValid, commit_state-IsValid}
use coredb.Mvcc.History.{Reach, begins, here, next}
use coredb.Mvcc.Delta
use coredb.Mvcc.Delta.{DeltaRecord, is_visible, tombstone}
use coredb.Table.Compaction.{fate, compact}
use coredb.Table.Compaction.Safety.{fate-Sound}
use coredb.Table.Compaction.Stale.{updated_base_row_stays}

abbrev writer : Transaction
writer = (begin init).1

abbrev one_active : TransactionManager
one_active = (begin init).0

-- Transaction 1 has committed at timestamp 2, and transaction 3 begins.
abbrev one_committed : TransactionManager
one_committed = commit_state one_active writer []

one_committed-IsValid : IsValid one_committed
unfolding begin
one_committed-IsValid =
    (commit_state-IsValid one_active (begin-IsValid init init-IsValid (omega arith)) writer [] refl
        refl)
      (omega arith)

abbrev reader : Transaction
reader = (begin one_committed).1

abbrev read_begun : TransactionManager
read_begun = (begin one_committed).0

reader_begins : Reach one_committed read_begun
unfolding begin commit_state
reader_begins = next here (begins reader (omega arith) refl)

abbrev version : DeltaRecord
version = record {
  row_id = 7;
  created_txn = 1;
  deleted_txn = 0;
  row = [];
  is_base_tombstone = false;
}

fate-Sound_example : (false ≡ false) × (is_visible version reader read_begun ≡ true)
unfolding fate begin commit_state committed_by get_status oldest_active_snapshot
fate-Sound_example = fate-Sound one_committed-IsValid version reader reader_begins refl refl true

abbrev naturals : Double
naturals = record { of_int32 = λ i. i; of_int64 = λ i. i; less = ltb }

abbrev ids : Column
ids = record {
  type = ColumnType.int64;
  validity = record { num_rows = 1; bytes = 1 ∷ [] };
  min = Value.int64 7;
  max = Value.int64 7;
  checksum = 0;
  int32_data = [];
  int64_data = 7 ∷ [];
  double_data = [];
  string_codes = [];
  dictionary = empty;
}

-- A table with the base row 7, while transaction 1 is active.
abbrev based : Table
based = record (create []) {
  base_segments =
      record { segment_id = 1; num_rows = 1; schema = row_id_column ∷ []; columns = ids ∷ [] } ∷ [];
  next_row_id = 8;
  next_segment_id = 2;
  txn_mgr = one_active;
}

abbrev base_rows : List (ℕ × Row)
base_rows = (7, Value.int64 7 ∷ []) ∷ []

in_base : row_id_exists_in_base 7 based.base_segments ≡ some true
unfolding row_id_exists_in_base id_at
in_base = refl

survives : surviving_base [] based.base_segments ≡ some base_rows
unfolding surviving_base read_row id_at value_at is_valid bit_at load
survives = refl

updated_base_row_stays_example :
    (after : Table) × (seg : Segment) × (Table.update based writer 7 []
      ≡ some (record based { delta = Delta.insert (tombstone 7 1 ∷ []) 7 1 [] }, true))
    × (compact naturals (record based {
      delta = Delta.insert (tombstone 7 1 ∷ []) 7 1 [];
      txn_mgr = one_committed;
    })
        ≡ some after)
    × (after.base_segments ≡ seg ∷ [])
    × (after.delta ≡ [])
    × (seg.num_rows ≡ 2)
    × ((j : ℕ) (e : ℕ × Row) → get_elem? base_rows j ≡ some e → read_row seg.columns j ≡ some e.1)
    × (read_row seg.columns 1 ≡ some (Value.int64 7 ∷ []))
unfolding begin commit_state committed_by get_status oldest_active_snapshot
updated_base_row_stays_example =
    updated_base_row_stays naturals based writer 7 [] one_committed base_rows refl
      (λ e. absurd (omega (arith, e))) in_base refl survives (omega arith) ((refl, tt), tt)
      (refl, tt)
