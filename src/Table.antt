-- ===== src/Table.antt =====
-- include/coredb/table/table.h and src/table/table.cpp: the rows of a table, over the transaction
-- manager, the delta layer and the base segments. A call runs under the table's lock, so it is one
-- function on the table; `none` is an exception of the calls below it.
pub mod Scan
pub mod Compaction
pub mod View
pub mod Isolation
pub mod Tests
use coredb.Prelude.{
  ℕ, zero, suc, ◌+◌, ◌%◌, Bool, true, false, not, ◌&&◌, List, [], ◌∷◌, ◌++◌, Option, none, some,
  map, ◌==◌, leb, if◌then◌else◌, ◌>>=◌, length, get_elem?, inc64, u64_mod,
}
use coredb.Prelude.Map
use coredb.Storage.Types
use coredb.Storage.Types.{ColumnSchema, Schema, Value, Row, Double}
use coredb.Storage.Segment.{Segment, read_row}
use coredb.Mvcc.Transaction
use coredb.Mvcc.Transaction.{Transaction, TransactionManager}
use coredb.Mvcc.Delta
use coredb.Mvcc.Delta.{DeltaRecord, DeltaLayer, WriteResult, claim_or_insert_base_tombstone}

-- `CompactionMetrics` but for the two durations
pub record CompactionMetrics : Type 0 where
  pub runs : ℕ
  pub rows_promoted : ℕ
  pub rows_retired : ℕ

pub record Table : Type 0 where
  pub user_schema : Schema
  pub full_schema : Schema
  pub txn_mgr : TransactionManager
  pub delta : DeltaLayer
  pub base_segments : List Segment
  pub next_row_id : ℕ
  pub next_segment_id : ℕ
  pub metrics : CompactionMetrics

-- "__row_id__"
abbrev pub row_id_column : ColumnSchema
row_id_column = record {
  name = 0x5f ∷ 0x5f ∷ 0x72 ∷ 0x6f ∷ 0x77 ∷ 0x5f ∷ 0x69 ∷ 0x64 ∷ 0x5f ∷ 0x5f ∷ [];
  type = Types.ColumnType.int64;
}

abbrev pub create : Schema → Table
create user_schema = record {
  user_schema = user_schema;
  full_schema = row_id_column ∷ user_schema;
  txn_mgr = Transaction.init;
  delta = [];
  base_segments = [];
  next_row_id = 1;
  next_segment_id = 1;
  metrics = record { runs = 0; rows_promoted = 0; rows_retired = 0 };
}

unfoldable pub begin : Table → Table × Transaction
begin t = let begun = Transaction.begin t.txn_mgr in (record t { txn_mgr = begun.0 }, begun.1)

unfoldable pub commit : Table → Transaction → Option (Table × Transaction)
commit t txn =
    Transaction.commit t.txn_mgr txn >>= λ done. some (record t { txn_mgr = done.0 }, done.1)

unfoldable pub abort : Table → Transaction → Option (Table × Transaction)
abort t txn =
    Transaction.abort t.txn_mgr txn >>= λ done. some (record t { txn_mgr = done.0 }, done.1)

-- `seg->column(kRowIdColumnIndex).AsInt64()[r]`
unfoldable pub id_at : Segment → ℕ → Option ℕ
id_at seg r = get_elem? seg.columns 0 >>= λ col. get_elem? col.int64_data r

-- The rows `r`, ..., `r + n - 1` of a segment, one of which may have the id.
unfoldable pub id_among : ℕ → Segment → ℕ → ℕ → Option Bool
id_among row_id seg r zero = some false
id_among row_id seg r (suc n) = do
  id ← id_at seg r
  if id == row_id then some true else id_among row_id seg (r + 1) n

unfoldable pub row_id_exists_in_base : ℕ → List Segment → Option Bool
unfolding id_among
row_id_exists_in_base row_id [] = some false
row_id_exists_in_base row_id (seg ∷ segs) = do
  found ← id_among row_id seg 0 seg.num_rows
  if found then some true else row_id_exists_in_base row_id segs

unfoldable pub insert : Table → Transaction → Row → Table × ℕ
insert t txn user_row = (
  record t {
    next_row_id = inc64 t.next_row_id;
    delta = Delta.insert t.delta t.next_row_id txn.txn_id user_row;
  },
  t.next_row_id,
)

-- The compare-and-swap loop moves a counter past an id.
abbrev pub bump_past : ℕ → ℕ → ℕ
bump_past expected id = if leb expected id then inc64 id else expected

unfoldable pub insert_with_row_id : Table → Transaction → ℕ → Row → Table
insert_with_row_id t txn row_id user_row = record t {
  delta = Delta.insert t.delta row_id txn.txn_id user_row;
  next_row_id = bump_past t.next_row_id row_id;
}

abbrev pub is_ok : WriteResult → Bool
is_ok WriteResult.ok = true
is_ok r = false

-- The claim that `Update` and `Delete` make first.
unfoldable pub claim : Table → Transaction → ℕ → Option (DeltaLayer × WriteResult)
claim t txn row_id = do
  exists_in_base ← row_id_exists_in_base row_id t.base_segments
  some (claim_or_insert_base_tombstone t.delta row_id txn t.txn_mgr exists_in_base)

unfoldable pub update : Table → Transaction → ℕ → Row → Option (Table × Bool)
update t txn row_id new_user_row = do
  claimed ← claim t txn row_id
  some (
      if is_ok claimed.1
      then (record t { delta = Delta.insert claimed.0 row_id txn.txn_id new_user_row }, true)
      else (record t { delta = claimed.0 }, false))

unfoldable pub delete : Table → Transaction → ℕ → Option (Table × Bool)
delete t txn row_id = do
  claimed ← claim t txn row_id
  some (record t { delta = claimed.0 }, is_ok claimed.1)

-- The scans of the base: the full rows `r`, ..., `r + n - 1` of a segment whose id is not hidden.
unfoldable pub surviving : List ℕ → Segment → ℕ → ℕ → Option (List (ℕ × Row))
surviving hidden seg r zero = some []
surviving hidden seg r (suc n) = do
  id ← id_at seg r
  if Map.contains id hidden then surviving hidden seg (r + 1) n else do
    row ← read_row seg.columns r
    rest ← surviving hidden seg (r + 1) n
    some ((id, row) ∷ rest)

unfoldable pub surviving_base : List ℕ → List Segment → Option (List (ℕ × Row))
unfolding surviving
surviving_base hidden [] = some []
surviving_base hidden (seg ∷ segs) = do
  rows ← surviving hidden seg 0 seg.num_rows
  rest ← surviving_base hidden segs
  some (rows ++ rest)

unfoldable pub total_rows : List Segment → ℕ
total_rows [] = 0
total_rows (seg ∷ segs) = seg.num_rows + total_rows segs

-- `LoadBaseSegments`: the row ids `r`, ... of a segment move the allocator.
unfoldable pub bump_ids : Segment → ℕ → ℕ → ℕ → Option ℕ
bump_ids seg r zero next = some next
bump_ids seg r (suc n) next = do id ← id_at seg r; bump_ids seg (r + 1) n (bump_past next id)

unfoldable pub bump_all : List Segment → ℕ × ℕ → Option (ℕ × ℕ)
unfolding bump_ids
bump_all [] next = some next
bump_all (seg ∷ segs) next = do
  row_ids ← bump_ids seg 0 seg.num_rows next.0
  bump_all segs (row_ids, bump_past next.1 seg.segment_id)

unfoldable pub load_base_segments : Table → List Segment → Option Table
unfolding bump_all
load_base_segments t segments = do
  next ← bump_all segments (t.next_row_id, t.next_segment_id)
  some (record t { base_segments = segments; next_row_id = next.0; next_segment_id = next.1 })
