-- ===== src/Database.antt =====
-- include/coredb/db/database.h and src/db/database.cpp: a table whose writes go through the log.
pub mod Durability
pub mod Checkpoint
pub mod Tests
use coredb.Prelude.{
  ℕ, Bool, true, false, List, [], ◌∷◌, Option, none, some, ◌>>=◌, if◌then◌else◌, inc64,
}
use coredb.Storage.Types.{Row, Schema, Double}
use coredb.Storage.Segment.{Segment}
use coredb.Mvcc.Transaction.{Transaction}
use coredb.Table
use coredb.Table.{Table, create}
use coredb.Wal.WalRecordType
use coredb.Wal.Writer.{DurabilityMode, WalWriter, open_writer, append, append_mark, flush, last_lsn}
use coredb.Recovery.{RecoveryStats}
use coredb.Recovery.Checkpoint.{Files, System, join_path, write_checkpoint}
use coredb.Recovery.Manager.{RecoveryConfig, log_of, recover_files}

pub record Database : Type 0 where
  pub data_dir : List ℕ
  pub table : Table
  pub recovery_stats : RecoveryStats
  pub wal_writer : WalWriter

-- "wal.log", "checkpoint" and "manifest.txt"
abbrev pub wal_path : List ℕ → List ℕ
wal_path data_dir = join_path data_dir (0x77 ∷ 0x61 ∷ 0x6C ∷ 0x2E ∷ 0x6C ∷ 0x6F ∷ 0x67 ∷ [])

abbrev pub checkpoint_dir : List ℕ → List ℕ
checkpoint_dir data_dir =
    join_path data_dir (0x63 ∷ 0x68 ∷ 0x65 ∷ 0x63 ∷ 0x6B ∷ 0x70 ∷ 0x6F ∷ 0x69 ∷ 0x6E ∷ 0x74 ∷ [])

abbrev pub manifest_path : List ℕ → List ℕ
manifest_path data_dir =
    join_path (checkpoint_dir data_dir)
      (0x6D ∷ 0x61 ∷ 0x6E ∷ 0x69 ∷ 0x66 ∷ 0x65 ∷ 0x73 ∷ 0x74 ∷ 0x2E ∷ 0x74 ∷ 0x78 ∷ 0x74 ∷ [])

abbrev pub recovery_config : List ℕ → RecoveryConfig
recovery_config data_dir = record {
  wal_path = wal_path data_dir;
  checkpoint_manifest_path = manifest_path data_dir;
  segment_dir = checkpoint_dir data_dir;
  num_workers = 1;
}

-- What recovery gave, with a writer behind the log, if the log can be opened.
abbrev pub opened :
    System → List ℕ → DurabilityMode → List ℕ → Table × RecoveryStats → Option Database
opened system data_dir durability log (table, stats) = do
  wal_writer ←
      open_writer (system.opens (wal_path data_dir)) log durability (inc64 stats.last_wal_lsn)
  some (record {
    data_dir = data_dir;
    table = table;
    recovery_stats = stats;
    wal_writer = wal_writer;
  })

-- The constructor, over the files. `create_directories`, recovery and the writer may each throw. The
-- log of an open database is in its writer.
unfoldable pub open_database : System → Schema → DurabilityMode → List ℕ → Files → Option Database
open_database system user_schema durability data_dir files =
    if system.creates data_dir
    then (recover_files system.grants files (create user_schema) (recovery_config data_dir)
        >>= opened system data_dir durability (log_of (files (wal_path data_dir))))
    else none

unfoldable pub begin : Database → Database × Transaction
begin db =
    let begun = Table.begin db.table in
    (
      record db {
        table = begun.0;
        wal_writer = (append_mark db.wal_writer begun.1.txn_id WalRecordType.begin).0;
      },
      begun.1,
    )

unfoldable pub insert : Database → Transaction → Row → Database × ℕ
insert db txn row =
    let inserted = Table.insert db.table txn row in
    (
      record db {
        table = inserted.0;
        wal_writer = (append db.wal_writer txn.txn_id WalRecordType.insert inserted.1 row).0;
      },
      inserted.1,
    )

unfoldable pub update : Database → Transaction → ℕ → Row → Option (Database × Bool)
update db txn row_id new_row = do
  updated ← Table.update db.table txn row_id new_row
  some (
      if updated.1
      then (
        record db {
          table = updated.0;
          wal_writer = (append db.wal_writer txn.txn_id WalRecordType.update row_id new_row).0;
        },
        true,
      )
      else (record db { table = updated.0 }, false))

unfoldable pub delete : Database → Transaction → ℕ → Option (Database × Bool)
delete db txn row_id = do
  deleted ← Table.delete db.table txn row_id
  some (
      if deleted.1
      then (
        record db {
          table = deleted.0;
          wal_writer = (append db.wal_writer txn.txn_id WalRecordType.delete row_id []).0;
        },
        true,
      )
      else (record db { table = deleted.0 }, false))

unfoldable pub commit : Database → Transaction → Option (Database × Transaction)
commit db txn = do
  done ← Table.commit db.table txn
  some (
    record db {
      table = done.0;
      wal_writer = (append_mark db.wal_writer txn.txn_id WalRecordType.commit).0;
    },
    done.1,
  )

unfoldable pub abort : Database → Transaction → Option (Database × Transaction)
abort db txn = do
  done ← Table.abort db.table txn
  some (
    record db {
      table = done.0;
      wal_writer = (append_mark db.wal_writer txn.txn_id WalRecordType.abort).0;
    },
    done.1,
  )

-- The database and the files after the call, and whether there is a new checkpoint.
unfoldable pub checkpoint : Double → System → Database → Files → Option ((Database × Files) × Bool)
checkpoint d system db files = do
  let flushed = flush db.wal_writer
  written ←
      write_checkpoint d system db.table (checkpoint_dir db.data_dir) (manifest_path db.data_dir)
        (last_lsn flushed) files
  some ((record db { table = written.0.0; wal_writer = flushed }, written.0.1), written.1)
