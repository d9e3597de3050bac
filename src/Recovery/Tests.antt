-- ===== src/Recovery/Tests.antt =====
-- An instance of the theorem about the workers of src/recovery at a log of two transactions, with
-- two workers that take turns.
use coredb.Prelude.{
  Bool, true, none, some, ℕ, suc, ◌≡◌, refl, List, [], ◌∷◌, ◌==◌, arith, keep_if, zero,
}
use coredb.Storage.Types.{Value}
use coredb.Mvcc.Transaction
use coredb.Table
use coredb.Table.{Table}
use coredb.Wal.WalRecordType
use coredb.Wal.Record.{WalRecord, encode_body}
use coredb.Recovery.{
  run_workers, apply_ops, apply_op, apply_switch, committed_txn_ids, ops_of, shard, RecoveryStats,
  recover, install,
}
use coredb.Recovery.Replay.{is_replayed}
use coredb.Recovery.Schedule.{Replay, begins, writes, commits, Interleaving, spawn, later, Joined}
use coredb.Recovery.Schedule.Recovered.{recover-Interleaving}
use coredb.Wal.Reader.{WalReadResult, read_one, read_all}
use coredb.Wal.Writer.{frame}
use coredb.Wal.Decode
use coredb.Wal.Decode.{or_refuse, decode_body}
use coredb.Util.Bytes.{le_bytes, split_at, from_le, read_raw}
use coredb.Util.Crc32c.{crc32c}
use coredb.Wal.Crash.{frames}
use coredb.Recovery.Schedule.Order.{done_to, in_turn, replayed_in_order}

abbrev logged : ℕ → ℕ → ℕ → ℕ → WalRecord
logged lsn txn_id type row_id = record {
  lsn = lsn;
  txn_id = txn_id;
  type = type;
  row_id = row_id;
  row = Value.int64 lsn ∷ [];
}

-- Transaction 1 writes rows 4 and 5 and commits; transaction 2 writes row 8 and does not.
abbrev log : List WalRecord
log =
    logged 1 1 WalRecordType.insert 4
    ∷ logged 2 2 WalRecordType.insert 8
    ∷ logged 3 1 WalRecordType.insert 5
    ∷ logged 4 1 WalRecordType.commit 0
    ∷ []

abbrev replayed : List WalRecord
replayed = ops_of 0 (committed_txn_ids log []) log

abbrev empty_table : Table
empty_table = Table.create []

-- The second worker commits row 5 between the first one's insert of row 4 and its commit.
unfoldable interleaved : (s : Replay) × Interleaving empty_table 2 replayed s
unfolding shard ops_of committed_txn_ids apply_switch Table.commit Transaction.commit
    Table.insert_with_row_id Table.begin Transaction.begin Transaction.commit_state
interleaved =
    let both = later (later spawn (begins 0 (omega arith) refl)) (begins 1 (omega arith) refl) in
    let inserted =
      later (later both (writes 0 (omega arith) refl refl)) (writes 1 (omega arith) refl refl) in
    (
      _,
      later (later inserted (commits 1 (omega arith) refl refl))
          (commits 0 (omega arith) refl refl),
    )

interleaved-Joined : Joined interleaved.0
unfolding interleaved
interleaved-Joined zero = refl
interleaved-Joined (suc zero) = refl
interleaved-Joined (suc (suc w)) = refl

replayed_in_order_example :
    done_to 4 interleaved.0.trace
    ≡ in_turn (keep_if (λ r. r.row_id == 4) (keep_if (is_replayed 0 log) log))
replayed_in_order_example =
    replayed_in_order empty_table 2 0 log interleaved.0 4 (omega arith) interleaved.1
      interleaved-Joined

-- The log as a file.
abbrev log_file : List ℕ
log_file = frames log

abbrev any_size : ℕ → Bool
any_size n = true

recovered :
    (t' : Table) × (stats : RecoveryStats) × (recover any_size empty_table none log_file 2
      ≡ some (t', stats))
unfolding recover run_workers apply_ops apply_op apply_switch Table.commit Transaction.commit
    Transaction.commit_state Table.insert_with_row_id Table.begin Transaction.begin read_all frames
    frame le_bytes encode_body read_one split_at from_le read_raw crc32c decode_body Decode.◌>>=◌
    or_refuse
recovered = (_, _, refl)

recover-Interleaving_example :
    (installed : Table) × (wal : WalReadResult) × (s : Replay) × (install empty_table none
      ≡ some installed)
    × (read_all any_size log_file ≡ some wal)
    × Interleaving installed 2 (ops_of 0 (committed_txn_ids wal.records []) wal.records) s
    × (s.table ≡ recovered.0)
    × Joined s
    × ((row : ℕ)
        → done_to row s.trace
          ≡ in_turn
              (keep_if (λ r. r.row_id == row) (keep_if (is_replayed 0 wal.records) wal.records)))
recover-Interleaving_example =
    recover-Interleaving any_size empty_table none log_file 2 recovered.0 recovered.1 recovered.2
