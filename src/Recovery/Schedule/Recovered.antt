-- ===== src/Recovery/Schedule/Recovered.antt =====
-- What `RecoveryManager::Recover` of src/recovery/recovery_manager.cpp has replayed, row by row.
use coredb.Prelude.{
  ℕ, ◌<◌, ◌≡◌, Bool, List, [], Option, some, ◌==◌, replicate, keep_if, arith, Option-cases, inl,
  inr,
}
use coredb.Storage.Segment.{Segment}
use coredb.Table.{Table}
use coredb.Wal.Reader.{WalReadResult, read_all}
use coredb.Recovery.{
  RecoveryStats, committed_txn_ids, ops_of, shard, run_workers, at_least_one, install, lsn_of,
  recover,
}
use coredb.Recovery.Replay.{is_replayed}
use coredb.Recovery.Schedule.{Replay, Interleaving, Joined}
use coredb.Recovery.Schedule.Order.{done_to, in_turn, replayed_in_order}
use coredb.Recovery.Schedule.Sequential.{run_workers-Interleaving}

some_worker : (workers : ℕ) → 0 < at_least_one workers
some_worker workers = ground arith

module _ (grants : ℕ → Bool) (t : Table) (checkpoint : Option (ℕ × List Segment)) (file : List ℕ)
    (workers : ℕ) where
  -- The parts of a recovery that threw nothing.
  record Ran (t' : Table) : Type 0 where
    installed : Table
    wal : WalReadResult
    installs : install t checkpoint ≡ some installed
    reads : read_all grants file ≡ some wal
    runs :
        run_workers installed (
          shard
            (at_least_one workers)
            (replicate (at_least_one workers) [])
            (ops_of (lsn_of checkpoint) (committed_txn_ids wal.records []) wal.records))
        ≡ some t'

  recover-Ran :
      (t' : Table) (stats : RecoveryStats)
      → recover grants t checkpoint file workers ≡ some (t', stats)
      → Ran t'
  unfolding recover
  recover-Ran t' stats h = elim (Option-cases (install t checkpoint)) [
    | inl e ↦ absurd (ground (arith, h, e))
    | inr (installed, e) ↦ elim (Option-cases (read_all grants file)) [
      | inl f ↦ absurd (ground (arith, h, e, f))
      | inr (wal, f) ↦
          elim (Option-cases (
            run_workers installed (
              shard (at_least_one workers) (replicate (at_least_one workers) [])
                (ops_of (lsn_of checkpoint) (committed_txn_ids wal.records []) wal.records)))) [
                  | inl g ↦ absurd (ground (arith, h, e, f, g))
                  | inr (t1, g) ↦
                      let same : t1 ≡ t' = ground (arith, h, e, f, g) in
                      record {
                        installed = installed;
                        wal = wal;
                        installs = e;
                        reads = f;
                        runs = ground (arith, g, same);
                      }
                ]
    ]
  ]

  -- When Recover throws nothing, it has installed the segments of the checkpoint and read the log,
  -- and some interleaving of its workers' threads starts from there and ends with every thread
  -- joined and with the table that Recover gives. In it, what was done to each row is that each
  -- record of the row that is behind the checkpoint, writes a row, and belongs to a transaction
  -- that the log has a commit of, was begun, written and committed, one after the other in the
  -- order of the log, and no other record was.
  pub recover-Interleaving :
      (t' : Table) (stats : RecoveryStats)
      → recover grants t checkpoint file workers ≡ some (t', stats)
      → (installed : Table) × (wal : WalReadResult) × (s : Replay) × (install t checkpoint
          ≡ some installed)
        × (read_all grants file ≡ some wal)
        × Interleaving installed
            (at_least_one workers)
            (ops_of (lsn_of checkpoint) (committed_txn_ids wal.records []) wal.records)
            s
        × (s.table ≡ t')
        × Joined s
        × ((row : ℕ)
            → done_to row s.trace
              ≡ in_turn (
                  keep_if
                    (λ r. r.row_id == row)
                    (keep_if (is_replayed (lsn_of checkpoint) wal.records) wal.records)))
  recover-Interleaving t' stats h =
      let ran = recover-Ran t' stats h in
      let log = ran.wal.records in
      let n = at_least_one workers in
      let (s, reach, table, joined) =
        run_workers-Interleaving ran.installed n
          (ops_of (lsn_of checkpoint) (committed_txn_ids log []) log) t' ran.runs in
      (
        ran.installed,
        ran.wal,
        s,
        ran.installs,
        ran.reads,
        reach,
        table,
        joined,
        λ row.
            replayed_in_order ran.installed n (lsn_of checkpoint) log s row (some_worker workers)
              reach joined,
      )
