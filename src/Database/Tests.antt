-- ===== src/Database/Tests.antt =====
-- An instance of the theorem about src/db at a fresh database.
use mathlib.Core.List.{append-nil}
use coredb.Prelude.{ℕ, Bool, ◌≡◌, refl, sym, true, false, List, [], ◌∷◌, ◌++◌, some, arith}
use coredb.Prelude.Map
use coredb.Util.Bytes.{le_bytes}
use coredb.Mvcc.Transaction
use coredb.Mvcc.Transaction.{Transaction}
use coredb.Table
use coredb.Table.{Table, create}
use coredb.Wal.WalRecordType
use coredb.Wal.Record.{WalRecord, encode_body}
use coredb.Wal.Writer.{sync_every_commit, writer_at, append_mark, append_record, frame}
use coredb.Wal.Reader.{WalReadResult, read_all}
use coredb.Wal.Frames.{Loggable}
use coredb.Wal.Crash.{frames}
use coredb.Wal.Durability.{append_all, stamped, commit_record}
use coredb.Recovery.{committed_txn_ids}
use coredb.Database
use coredb.Database.{Database}
use coredb.Database.Durability.{commit_recovered}

abbrev any_size : ℕ → Bool
any_size n = true

abbrev fresh : Database
fresh = record {
  data_dir = 0x64 ∷ [];
  table = create [];
  recovery_stats = record {
    checkpoint_found = false;
    checkpoint_lsn = 0;
    records_read = 0;
    committed_transactions = 0;
    operations_replayed = 0;
    truncated_tail = false;
    corrupt_tail = false;
    last_wal_lsn = 0;
    num_workers = 1;
    checksum_verification_passed = true;
    failed = false;
  };
  wal_writer = writer_at [] sync_every_commit 1;
}

abbrev begun : Database × Transaction
begun = Database.begin fresh

abbrev begin_record : WalRecord
begin_record = record { lsn = 1; txn_id = 1; type = WalRecordType.begin; row_id = 0; row = [] }

begun_file : (begun.0).wal_writer.file ≡ frames (begin_record ∷ [])
unfolding Database.begin Table.begin Transaction.begin append_mark append_record frames
begun_file = sym (append-nil (frame begin_record))

begins-Loggable : Loggable any_size begin_record
unfolding encode_body le_bytes
begins-Loggable = record {
  well_formed = record {
    lsn = omega arith;
    txn_id = omega arith;
    type = omega arith;
    row_id = omega arith;
    granted = λ h. refl;
    sized = omega arith;
    ranged = tt;
    no_row = λ h. refl;
    no_row_id = λ h k. refl;
  };
  short = omega arith;
}

commits-Loggable : Loggable any_size (commit_record 2 1)
unfolding encode_body le_bytes
commits-Loggable = record {
  well_formed = record {
    lsn = omega arith;
    txn_id = omega arith;
    type = omega arith;
    row_id = omega arith;
    granted = λ h. refl;
    sized = omega arith;
    ranged = tt;
    no_row = λ h. refl;
    no_row_id = λ h k. refl;
  };
  short = omega arith;
}

committed :
    (db' : Database) × (txn' : Transaction) × (Database.commit begun.0 begun.1 ≡ some (db', txn'))
unfolding Database.commit Database.begin Table.commit Table.begin Transaction.commit
    Transaction.begin
committed = (_, _, refl)

committed_wal : committed.0.wal_writer ≡ (append_mark begun.0.wal_writer 1 WalRecordType.commit).0
unfolding committed Database.commit Database.begin Table.commit Table.begin Transaction.commit
    Transaction.begin
committed_wal = refl

commit_recovered_example :
    (result : WalReadResult) × (rest : List WalRecord) × (read_all any_size
        committed.0.wal_writer.file
      ≡ some result)
    × (result.records ≡ (begin_record ∷ []) ++ rest)
    × (Map.contains 1 (committed_txn_ids result.records []) ≡ true)
unfolding committed Database.commit Database.begin Table.commit Table.begin Transaction.commit
    Transaction.begin append_mark append_record append_all stamped
commit_recovered_example =
    commit_recovered any_size begun.0 committed.0 begun.1 committed.1 (begin_record ∷ []) []
      committed.0.wal_writer.file [] committed.2 (λ e. cc) begun_file (begins-Loggable, tt)
      (commits-Loggable, tt) (sym (append-nil committed.0.wal_writer.file)) (omega arith)
