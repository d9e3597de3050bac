-- ===== src/Mvcc/Delta.antt =====
-- include/coredb/mvcc/delta.h and src/mvcc/delta.cpp: row versions, which of them a transaction
-- sees, and how a writer claims one. Each method runs whole under the layer's lock.
pub mod Claim
pub mod Conflict
use coredb.Prelude.{
  ℕ, Bool, true, false, not, ◌&&◌, List, [], ◌∷◌, ◌++◌, reverse, ◌==◌, if◌then◌else◌, length,
}
use coredb.Storage.Types.{Row}
use coredb.Mvcc.Transaction.{
  TxnState, active, committed, aborted, Transaction, TransactionManager, get_status, committed_by,
}

pub record DeltaRecord : Type 0 where
  pub row_id : ℕ
  pub created_txn : ℕ
  pub deleted_txn : ℕ
  pub row : Row
  pub is_base_tombstone : Bool

pub data WriteResult : Type 0 where
  ok not_found conflict : WriteResult

-- `deleted_txn` names the reader itself, or a transaction that the reader's snapshot has
unfoldable pub seen : ℕ → Transaction → TransactionManager → Bool
seen txn_id reader txm =
    if txn_id == reader.txn_id then true else committed_by txm txn_id reader.snapshot_ts

unfoldable pub is_visible : DeltaRecord → Transaction → TransactionManager → Bool
unfolding seen
is_visible rec reader txm =
    let created_visible = if rec.created_txn == 0 then true else seen rec.created_txn reader txm in
    if not created_visible
    then false
    else if rec.deleted_txn == 0
    then true
    else not (seen rec.deleted_txn reader txm)

-- `DeltaLayer::records_`, oldest first
abbrev pub DeltaLayer : Type 0
DeltaLayer = List DeltaRecord

unfoldable pub insert : DeltaLayer → ℕ → ℕ → Row → DeltaLayer
insert records row_id created_txn row =
    records
    ++ record {
      row_id = row_id;
      created_txn = created_txn;
      deleted_txn = 0;
      row = row;
      is_base_tombstone = false;
    }
      ∷ []

abbrev pub tombstone : ℕ → ℕ → DeltaRecord
tombstone row_id deleted_txn = record {
  row_id = row_id;
  created_txn = 0;
  deleted_txn = deleted_txn;
  row = [];
  is_base_tombstone = true;
}

-- What the loop body does with a version of the row: `continue`, `return kConflict`, or claim it.
pub data Look : Type 0 where
  skip blocked free : Look

unfoldable pub look : DeltaRecord → Transaction → TransactionManager → Look
look it writer txm =
    let visible = if is_visible it writer txm then free else skip in
    if not (it.deleted_txn == 0) && not (it.deleted_txn == writer.txn_id)
    then elim (get_status txm it.deleted_txn).state [
      | active ↦ blocked
      | committed ↦ skip
      | aborted ↦ visible
    ]
    else if it.deleted_txn == writer.txn_id
    then skip
    else visible

-- How the loop ends: with the records as rewritten, at a conflict, or after the oldest record,
-- and then with the flag `touched`.
pub data Scan : Type 0 where
  claimed : List DeltaRecord → Scan
  conflicted : Scan
  exhausted : Bool → Scan

abbrev pub keep : DeltaRecord → Scan → Scan
keep it (claimed older) = claimed (it ∷ older)
keep it s = s

-- The loop body at a version of the row; `rest` is the scan of the older records.
abbrev pub respond : Look → DeltaRecord → ℕ → List DeltaRecord → Scan → Scan
respond skip it writer older rest = keep it rest
respond blocked it writer older rest = conflicted
respond free it writer older rest = claimed (record it { deleted_txn = writer } ∷ older)

-- The loop, over the records newest first.
unfoldable pub scan : ℕ → Transaction → TransactionManager → Bool → List DeltaRecord → Scan
scan row_id writer txm touched [] = exhausted touched
scan row_id writer txm touched (it ∷ older) =
    let mine = it.row_id == row_id in
    let rest = scan row_id writer txm (if mine then true else touched) older in
    if mine then respond (look it writer txm) it writer.txn_id older rest else keep it rest

abbrev pub conclude : DeltaLayer → ℕ → Transaction → Bool → Scan → DeltaLayer × WriteResult
conclude records row_id writer exists_in_base (claimed newest_first) = (reverse newest_first, ok)
conclude records row_id writer exists_in_base conflicted = (records, conflict)
conclude records row_id writer exists_in_base (exhausted touched) =
    if not touched && exists_in_base
    then (records ++ tombstone row_id writer.txn_id ∷ [], ok)
    else (records, not_found)

unfoldable pub claim_or_insert_base_tombstone :
    DeltaLayer → ℕ → Transaction → TransactionManager → Bool → DeltaLayer × WriteResult
claim_or_insert_base_tombstone records row_id writer txm exists_in_base =
    conclude records row_id writer exists_in_base (scan row_id writer txm false (reverse records))

unfoldable pub size : DeltaLayer → ℕ
size records = length records
