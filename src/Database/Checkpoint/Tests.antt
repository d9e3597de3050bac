-- ===== src/Database/Checkpoint/Tests.antt =====
-- Instances of the theorems about `Database::Checkpoint` of src/db/database.cpp.
use coredb.Prelude.{◌≡◌, refl, true, false, [], ◌∷◌, none, some, ◌>>=◌, arith, ltb, inr, length}
use coredb.Util.Bytes.{le_bytes}
use coredb.Util.Crc32c.{crc32c_extend}
use coredb.Storage.Types.{ColumnType, Value, Double}
use coredb.Storage.Dictionary.{empty}
use coredb.Storage.Segment.{Column, Segment, compute_column_checksum}
use coredb.Storage.File.RoundTrip.{Storable, Savable}
use coredb.Storage.File.Save.{save_to_file}
use coredb.Table.Compaction.{compact}
use coredb.Table.{row_id_column, create}
use coredb.Wal.Writer.{sync_every_commit, writer_at, last_lsn}
use coredb.Recovery.{recover}
use coredb.Recovery.Checkpoint.{Files, System, write_file, write_checkpoint}
use coredb.Database.{Database, wal_path, opened, open_database, checkpoint}
use coredb.Database.Checkpoint.{checkpoint_reopened}

abbrev naturals : Double
naturals = record { of_int32 = λ i. i; of_int64 = λ i. i; less = ltb }

abbrev willing : System
willing = record { creates = λ p. true; opens = λ p. true; grants = λ n. true }

abbrev no_files : Files
no_files = λ p. none

abbrev ids : Column
ids = record {
  type = ColumnType.int64;
  validity = record { num_rows = 1; bytes = 1 ∷ [] };
  min = Value.int64 1;
  max = Value.int64 1;
  checksum = 115852236;
  int32_data = [];
  int64_data = 1 ∷ [];
  double_data = [];
  string_codes = [];
  dictionary = empty;
}

abbrev one_row : Segment
one_row = record { segment_id = 1; num_rows = 1; schema = row_id_column ∷ []; columns = ids ∷ [] }

ids-Storable : Storable 1 ids
unfolding compute_column_checksum crc32c_extend le_bytes
ids-Storable = record {
  rows = refl;
  bytes = refl;
  sized = refl;
  ranged = (omega arith, tt);
  bounds = inr (refl, refl, omega arith, omega arith);
  checksum = refl;
  checksum_fits = omega arith;
  entries = omega arith;
  short = tt;
  only = refl;
}

one_row-Savable : Savable one_row
one_row-Savable = record {
  segment_id = omega arith;
  num_rows = omega arith;
  num_columns = omega arith;
  typed = (refl, tt);
  columns = (ids-Storable, tt);
}

-- A database whose table has a base row, after 41 records.
abbrev running : Database
running = record {
  data_dir = 0x64 ∷ [];
  table = record (create []) { base_segments = one_row ∷ []; next_row_id = 2; next_segment_id = 2 };
  recovery_stats = record {
    checkpoint_found = false;
    checkpoint_lsn = 0;
    records_read = 0;
    committed_transactions = 0;
    operations_replayed = 0;
    truncated_tail = false;
    corrupt_tail = false;
    last_wal_lsn = 0;
    num_workers = 1;
    checksum_verification_passed = true;
    failed = false;
  };
  wal_writer = writer_at [] sync_every_commit 42;
}

abbrev checkpointed :
    (db' : Database) × (files' : Files) × (checkpoint naturals willing running no_files
      ≡ some ((db', files'), true))
unfolding checkpoint write_checkpoint compact save_to_file
checkpointed = (_, _, refl)

checkpoint_reopened_example :
    (checkpointed.0.wal_writer.synced ≡ length checkpointed.0.wal_writer.file)
    × (open_database willing [] sync_every_commit running.data_dir
          (write_file (wal_path running.data_dir) [] checkpointed.1)
        ≡ (recover willing.grants
              (create [])
              (some (last_lsn running.wal_writer, checkpointed.0.table.base_segments))
              []
              1
            >>= opened willing running.data_dir sync_every_commit []))
unfolding checkpointed checkpoint write_checkpoint compact save_to_file
checkpoint_reopened_example =
    checkpoint_reopened naturals willing running checkpointed.0 no_files checkpointed.1 []
      sync_every_commit [] willing checkpointed.2 (refl, one_row-Savable, tt, tt)
