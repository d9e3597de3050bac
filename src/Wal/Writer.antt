-- ===== src/Wal/Writer.antt =====
-- include/coredb/wal/wal_writer.h and src/wal/wal_writer.cpp: the writer. The file is the list of
-- its bytes; writes are taken to succeed, as the source does not test them.
use coredb.Prelude.{
  ℕ, ◌+◌, ◌%◌, ◌^◌, Option, none, some, Bool, true, false, List, [], ◌++◌, ◌==◌, if◌then◌else◌,
  length, inc64, ◌-◌, u64_mod,
}
use coredb.Util.Bytes.{le_bytes}
use coredb.Util.Crc32c.{crc32c}
use coredb.Storage.Types.{Row}
use coredb.Wal.WalRecordType
use coredb.Wal.Record.{WalRecord, encode_body}

pub data DurabilityMode : Type 0 where
  no_sync sync_every_commit sync_every_record : DurabilityMode

-- `synced` counts the bytes that the last `fsync` covered: what a crash leaves has them all.
pub record WalWriter : Type 0 where
  pub durability : DurabilityMode
  pub next_lsn : ℕ
  pub file : List ℕ
  pub synced : ℕ

-- A writer over a file that has the bytes already.
abbrev pub writer_at : List ℕ → DurabilityMode → ℕ → WalWriter
writer_at file durability starting_lsn = record {
  durability = durability;
  next_lsn = starting_lsn;
  file = file;
  synced = 0;
}

-- `WalWriter(path, config)`, which throws if the system does not open the file for appending.
unfoldable pub open_writer : Bool → List ℕ → DurabilityMode → ℕ → Option WalWriter
open_writer is_open file durability starting_lsn =
    if is_open then some (writer_at file durability starting_lsn) else none

-- The length, the checksum and the body of a record.
unfoldable pub frame : WalRecord → List ℕ
frame r =
    let body = encode_body r in
    le_bytes 4 ((4 + length body) % 2 ^ 32) ++ (le_bytes 4 (crc32c body) ++ body)

abbrev pub should_sync : DurabilityMode → ℕ → Bool
should_sync DurabilityMode.sync_every_record type = true
should_sync DurabilityMode.sync_every_commit type = type == WalRecordType.commit
should_sync DurabilityMode.no_sync type = false

unfoldable pub append_record : WalWriter → WalRecord → WalWriter × ℕ
append_record w r =
    let file = w.file ++ frame (record r { lsn = w.next_lsn }) in
    (
      record w {
        next_lsn = inc64 w.next_lsn;
        file = file;
        synced = if should_sync w.durability r.type then length file else w.synced;
      },
      w.next_lsn,
    )

-- The two overloads of `Append`.
unfoldable pub append : WalWriter → ℕ → ℕ → ℕ → Row → WalWriter × ℕ
append w txn_id type row_id row =
    append_record w (record { lsn = 0; txn_id = txn_id; type = type; row_id = row_id; row = row })

unfoldable pub append_mark : WalWriter → ℕ → ℕ → WalWriter × ℕ
append_mark w txn_id type =
    append_record w (record { lsn = 0; txn_id = txn_id; type = type; row_id = 0; row = [] })

unfoldable pub flush : WalWriter → WalWriter
flush w = record w { synced = length w.file }

abbrev pub last_lsn : WalWriter → ℕ
last_lsn w = (w.next_lsn + u64_mod - 1) % u64_mod
