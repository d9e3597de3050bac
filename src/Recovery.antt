-- ===== src/Recovery.antt =====
-- include/coredb/recovery and src/recovery/recovery_manager.cpp: replay of the log into a table.
--
-- The checkpoint's manifest and segment files are an argument, as loaded: the last LSN and the
-- segments. The workers are run one after the other, which is one of their schedules.
pub mod Replay
pub mod Schedule
pub mod Manifest
pub mod Checkpoint
pub mod Manager
pub mod Tests
use coredb.Prelude.{
  ℕ, zero, suc, ◌+◌, ◌%◌, Bool, true, false, not, ◌&&◌, ◌||◌, List, [], ◌∷◌, ◌++◌, Option, none,
  some, ◌==◌, leb, ltb, if◌then◌else◌, ◌>>=◌, length, get_or, set, replicate,
}
use coredb.Prelude.Map
use coredb.Storage.Segment.{Segment, verify_integrity}
use coredb.Mvcc.Transaction.{Transaction}
use coredb.Table
use coredb.Table.{Table, insert_with_row_id, update, delete, load_base_segments}
use coredb.Wal.WalRecordType
use coredb.Wal.Record.{WalRecord}
use coredb.Wal.Reader.{WalReadResult, read_all}

-- `RecoveryStats` but for the duration; `failed` says that the text of the error is not empty
pub record RecoveryStats : Type 0 where
  pub checkpoint_found : Bool
  pub checkpoint_lsn : ℕ
  pub records_read : ℕ
  pub committed_transactions : ℕ
  pub operations_replayed : ℕ
  pub truncated_tail : Bool
  pub corrupt_tail : Bool
  pub last_wal_lsn : ℕ
  pub num_workers : ℕ
  pub checksum_verification_passed : Bool
  pub failed : Bool

-- The switch of `ApplyOp`, inside the transaction that it begins.
unfoldable pub apply_switch : Table → Transaction → WalRecord → Option Table
apply_switch t txn op =
    if op.type == WalRecordType.insert
    then some (insert_with_row_id t txn op.row_id op.row)
    else if op.type == WalRecordType.update
    then (update t txn op.row_id op.row >>= λ p. some p.0)
    else if op.type == WalRecordType.delete
    then (delete t txn op.row_id >>= λ p. some p.0)
    else some t

unfoldable pub apply_op : Table → WalRecord → Option Table
unfolding apply_switch
apply_op t op =
    let begun = Table.begin t in
    do applied ← apply_switch begun.0 begun.1 op; done ← Table.commit applied begun.1; some done.0

unfoldable pub apply_ops : Table → List WalRecord → Option Table
unfolding apply_op
apply_ops t [] = some t
apply_ops t (op ∷ ops) = apply_op t op >>= λ t'. apply_ops t' ops

unfoldable pub committed_txn_ids : List WalRecord → List ℕ → List ℕ
committed_txn_ids [] ids = ids
committed_txn_ids (rec ∷ recs) ids =
    committed_txn_ids recs
      (if rec.type == WalRecordType.commit then Map.add rec.txn_id ids else ids)

abbrev pub is_operation : ℕ → Bool
is_operation type =
    type == WalRecordType.insert || type == WalRecordType.update || type == WalRecordType.delete

-- The records that are replayed.
unfoldable pub ops_of : ℕ → List ℕ → List WalRecord → List WalRecord
ops_of checkpoint_lsn ids [] = []
ops_of checkpoint_lsn ids (rec ∷ recs) =
    let rest = ops_of checkpoint_lsn ids recs in
    if leb rec.lsn checkpoint_lsn
    then rest
    else if not (is_operation rec.type)
    then rest
    else if not (Map.contains rec.txn_id ids)
    then rest
    else rec ∷ rest

unfoldable pub shard : ℕ → List (List WalRecord) → List WalRecord → List (List WalRecord)
shard num_workers shards [] = shards
shard num_workers shards (op ∷ ops) =
    let w = op.row_id % num_workers in
    shard num_workers (set shards w (get_or shards w [] ++ op ∷ [])) ops

unfoldable pub run_workers : Table → List (List WalRecord) → Option Table
unfolding apply_ops
run_workers t [] = some t
run_workers t (ops ∷ shards) = apply_ops t ops >>= λ t'. run_workers t' shards

abbrev pub at_least_one : ℕ → ℕ
at_least_one n = if n == 0 then 1 else n

abbrev pub larger : ℕ → ℕ → ℕ
larger a b = if ltb a b then b else a

abbrev pub all_intact : List Segment → Bool
all_intact [] = true
all_intact (seg ∷ segs) = verify_integrity seg.columns && all_intact segs

-- The table with the checkpoint's segments.
abbrev pub install : Table → Option (ℕ × List Segment) → Option Table
install t none = some t
install t (some (last_lsn, segments)) = load_base_segments t segments

abbrev pub lsn_of : Option (ℕ × List Segment) → ℕ
lsn_of none = 0
lsn_of (some (last_lsn, segments)) = last_lsn

abbrev pub is_found : Option (ℕ × List Segment) → Bool
is_found none = false
is_found (some c) = true

unfoldable pub recover :
    (ℕ → Bool) → Table → Option (ℕ × List Segment) → List ℕ → ℕ → Option (Table × RecoveryStats)
unfolding run_workers shard ops_of committed_txn_ids
recover grants t checkpoint wal_file workers =
    let num_workers = at_least_one workers in
    let checkpoint_lsn = lsn_of checkpoint in
    do
      installed ← install t checkpoint
      wal ← read_all grants wal_file
      let ids = committed_txn_ids wal.records []
      let ops = ops_of checkpoint_lsn ids wal.records
      t' ← run_workers installed (shard num_workers (replicate num_workers []) ops)
      some (
        t',
        record {
          checkpoint_found = is_found checkpoint;
          checkpoint_lsn = checkpoint_lsn;
          records_read = length wal.records;
          committed_transactions = length ids;
          operations_replayed = length ops;
          truncated_tail = wal.truncated_tail;
          corrupt_tail = wal.corrupt_record;
          last_wal_lsn = larger wal.last_valid_lsn checkpoint_lsn;
          num_workers = num_workers;
          checksum_verification_passed = all_intact t'.base_segments;
          failed = not (all_intact t'.base_segments);
        },
      )
