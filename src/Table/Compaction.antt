-- ===== src/Table/Compaction.antt =====
-- `Table::Compact` of src/table/table.cpp.
pub mod Safety
pub mod Stale
pub mod Tests
use coredb.Prelude.{
  ℕ, ◌+◌, ◌-◌, ◌%◌, Bool, true, false, not, ◌&&◌, ◌||◌, List, [], ◌∷◌, ◌++◌, Option, none, some,
  map, ◌==◌, if◌then◌else◌, ◌>>=◌, length, inc64, u64_mod,
}
use coredb.Prelude.Map
use coredb.Storage.Types.{Value, Row, Double}
use coredb.Storage.Segment.{build}
use coredb.Mvcc.Transaction.{
  TransactionManager, get_status, committed_by, is_aborted, oldest_active_snapshot,
}
use coredb.Mvcc.Delta.{DeltaRecord, DeltaLayer}
use coredb.Table.{Table, surviving_base}

-- `head_index[snapshot[i].row_id] = i`: the newest record of each row
unfoldable pub head_index : ℕ → List DeltaRecord → List (ℕ × ℕ) → List (ℕ × ℕ)
head_index i [] heads = heads
head_index i (rec ∷ recs) heads = head_index (i + 1) recs (Map.put rec.row_id i heads)

abbrev pub is_index : ℕ → Option ℕ → Bool
is_index i none = i == 0
is_index i (some j) = j == i

-- What the loop does with a record: `continue` with no trace, keep it in the layer, make it a base
-- row, or purge the base row that it marks.
pub data Fate : Type 0 where
  dropped retained promoted purged : Fate

unfoldable pub fate : TransactionManager → ℕ → Bool → DeltaRecord → Fate
fate txm oldest_active is_head rec =
    let stably_deleted = committed_by txm rec.deleted_txn oldest_active in
    if not rec.is_base_tombstone && is_aborted (get_status txm rec.created_txn).state
    then dropped
    else if not is_head
    then (if not (rec.deleted_txn == 0) && stably_deleted then dropped else retained)
    else if rec.is_base_tombstone
    then (if stably_deleted
        then purged
        else if is_aborted (get_status txm rec.deleted_txn).state
        then dropped
        else retained)
    else if not (committed_by txm rec.created_txn oldest_active)
    then retained
    else if rec.deleted_txn == 0
    then promoted
    else if stably_deleted
    then dropped
    else retained

pub record Sorting : Type 0 where
  pub live_stable_rows : List (ℕ × Row)
  pub stably_deleted_row_ids : List ℕ
  pub kept : List DeltaRecord

abbrev pub sort_record : Fate → DeltaRecord → Sorting → Sorting
sort_record dropped rec s = s
sort_record retained rec s = record s { kept = s.kept ++ rec ∷ [] }
sort_record promoted rec s = record s {
  live_stable_rows = Map.put rec.row_id rec.row s.live_stable_rows;
}
sort_record purged rec s = record s {
  stably_deleted_row_ids = Map.add rec.row_id s.stably_deleted_row_ids;
}

unfoldable pub sort_records :
    TransactionManager → ℕ → List (ℕ × ℕ) → ℕ → List DeltaRecord → Sorting → Sorting
unfolding fate
sort_records txm oldest heads i [] s = s
sort_records txm oldest heads i (rec ∷ recs) s =
    sort_records txm oldest heads (i + 1) recs
      (sort_record (fate txm oldest (is_index i (Map.find rec.row_id heads)) rec) rec s)

unfoldable pub sort_delta : TransactionManager → DeltaLayer → Sorting
unfolding sort_records head_index
sort_delta txm records =
    sort_records txm (oldest_active_snapshot txm) (head_index 0 records []) 0 records
      (record { live_stable_rows = []; stably_deleted_row_ids = []; kept = [] })

abbrev pub is_empty {ℓ} : {A : Type ℓ} → List A → Bool
is_empty [] = true
is_empty (x ∷ xs) = false

-- A promoted row with its id in front.
abbrev pub full_row : ℕ × Row → Row
full_row (row_id, user_row) = Value.int64 row_id ∷ user_row

module _ (d : Double) where
  -- The base that the promoted rows and the purged ids call for.
  unfoldable pub rebuild : Table → Sorting → Option Table
  rebuild t s =
      if not (is_empty s.live_stable_rows) || not (is_empty s.stably_deleted_row_ids)
      then (do
        survivors ← surviving_base s.stably_deleted_row_ids t.base_segments
        segment ←
            build d t.next_segment_id t.full_schema
              (map (λ e. e.1) survivors ++ map full_row s.live_stable_rows)
        some (record t { base_segments = segment ∷ []; next_segment_id = inc64 t.next_segment_id }))
      else some t

  -- `rows_retired` is computed on `size_t`, which wraps.
  unfoldable pub compact : Table → Option Table
  unfolding rebuild sort_delta
  compact t =
      let s = sort_delta t.txn_mgr t.delta in
      let rows_promoted = length s.live_stable_rows in
      let rows_retired =
        (length t.delta + u64_mod + u64_mod - length s.kept - rows_promoted) % u64_mod in
      rebuild t s >>= λ t'. some (record t' {
        delta = s.kept;
        metrics = record {
          runs = inc64 (t.metrics).runs;
          rows_promoted = ((t.metrics).rows_promoted + rows_promoted) % u64_mod;
          rows_retired = ((t.metrics).rows_retired + rows_retired) % u64_mod;
        };
      })
