-- ===== src/Database/Durability.antt =====
-- A commit that src/db/database.cpp acknowledged is found by src/recovery after a crash.
use mathlib.Core.List.{append_assoc}
use coredb.Prelude.{
  subst, ℕ, ◌≤◌, ◌≡◌, ◌≢◌, sym, ap, ◌∙◌, Bool, true, ◌||◌, List, [], ◌∷◌, ◌++◌, some, All, length,
  arith, Option-cases, inl, inr,
}
use coredb.Prelude.Map
use coredb.Mvcc.Transaction.{Transaction}
use coredb.Table
use coredb.Wal.WalRecordType
use coredb.Wal.Record.{WalRecord}
use coredb.Wal.Writer.{no_sync, append_mark}
use coredb.Wal.Reader.{WalReadResult, read_all}
use coredb.Wal.Frames.{Loggable}
use coredb.Wal.Crash.{frames}
use coredb.Wal.Durability.{append_all, stamped, commit_record, commit_survives}
use coredb.Recovery.{committed_txn_ids}
use coredb.Recovery.Replay.{has_commit, contains-committed}
use coredb.Database
use coredb.Database.{Database}

has_commit-append :
    (txn_id : ℕ) (xs ys : List WalRecord)
    → has_commit txn_id (xs ++ ys) ≡ has_commit txn_id xs || has_commit txn_id ys
unfolding has_commit
has_commit-append txn_id [] ys = ground arith
has_commit-append txn_id (x ∷ xs) ys = ground (arith, has_commit-append txn_id xs ys)

has_commit_record : (lsn txn_id : ℕ) → has_commit txn_id (commit_record lsn txn_id ∷ []) ≡ true
unfolding has_commit
has_commit_record lsn txn_id = ground arith

found :
    (lsn txn_id : ℕ) (earlier later : List WalRecord)
    → has_commit txn_id ((earlier ++ commit_record lsn txn_id ∷ []) ++ later) ≡ true
found lsn txn_id earlier later = ground (
  arith,
  has_commit-append txn_id (earlier ++ commit_record lsn txn_id ∷ []) later,
  has_commit-append txn_id earlier (commit_record lsn txn_id ∷ []),
  has_commit_record lsn txn_id,
)

wal_writer-commit :
    (db db' : Database) (txn txn' : Transaction)
    → Database.commit db txn ≡ some (db', txn')
    → db'.wal_writer ≡ (append_mark db.wal_writer txn.txn_id WalRecordType.commit).0
unfolding Database.commit
wal_writer-commit db db' txn txn' h = elim (Option-cases (Table.commit db.table txn)) [
  | inl e ↦ absurd (ground (arith, e, h))
  | inr (done, e) ↦ ground (arith, e, h)
]

-- A database whose log is whole commits a transaction, in a mode that syncs, and then logs more,
-- all of it loggable: if a crash leaves the bytes that were synced, and maybe more, the log that
-- is left reads to a result, what was logged earlier is at its start, and the transaction is among
-- those that recovery takes for committed.
pub commit_recovered :
    (grants : ℕ → Bool) (db db' : Database) (txn txn' : Transaction)
    (earlier later : List WalRecord) (kept lost : List ℕ)
    → Database.commit db txn ≡ some (db', txn')
    → db.wal_writer.durability ≢ no_sync
    → db.wal_writer.file ≡ frames earlier
    → All (Loggable grants) earlier
    → All (Loggable grants) (stamped db.wal_writer.next_lsn (commit_record 0 txn.txn_id ∷ later))
    → (append_all db'.wal_writer later).file ≡ kept ++ lost
    → (append_all db'.wal_writer later).synced ≤ length kept
    → (result : WalReadResult) × (rest : List WalRecord) × (read_all grants kept ≡ some result)
      × (result.records ≡ earlier ++ rest)
      × (Map.contains txn.txn_id (committed_txn_ids result.records []) ≡ true)
commit_recovered grants db db' txn txn' earlier later kept lost h syncs held le ll left reach =
    let written = wal_writer-commit db db' txn txn' h in
    let (result, read, unread, split, run, records, intact) =
      commit_survives grants db.wal_writer txn.txn_id earlier later kept lost syncs held le ll
        (ap (λ w. (append_all w later).file) (sym written) ∙ left)
        (subst (λ w. (append_all w later).synced ≤ length kept) written reach) in
    let mark = commit_record db.wal_writer.next_lsn txn.txn_id in
    (
      result,
      mark ∷ read,
      run,
      records ∙ append_assoc earlier (mark ∷ []) read,
      contains-committed txn.txn_id result.records []
          ∙ ap (has_commit txn.txn_id) records
          ∙ found db.wal_writer.next_lsn txn.txn_id earlier read,
    )
