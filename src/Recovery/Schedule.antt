-- ===== src/Recovery/Schedule.antt =====
-- The recovery workers of src/recovery/recovery_manager.cpp as threads: every interleaving of what
-- `ApplyOp` does.
--
-- A call of the table or of its transaction manager is a step. That is coarser than the source for an
-- update, in which another worker may take the delta layer's lock between the claim and the insertion.
-- A call that throws ends the program and has no step.
pub mod Order
pub mod Sequential
pub mod Recovered
use coredb.Prelude.{
  ℕ, ◌+◌, ◌<◌, ◌≡◌, List, [], ◌∷◌, ◌++◌, map, some, length, get_or, set, replicate,
}
use coredb.Mvcc.Transaction.{Transaction}
use coredb.Table
use coredb.Table.{Table}
use coredb.Wal.Record.{WalRecord}
use coredb.Recovery.{apply_switch, shard}

-- Where a worker is in `ApplyOp`, with the variables that are live there.
pub data WorkerPhase : Type 0 where
  between : WorkerPhase
  begun applied : Transaction → WalRecord → WorkerPhase

pub record Worker : Type 0 where
  pub phase : WorkerPhase
  pub todo : List WalRecord

-- What is done to a row.
pub data Event : Type 0 where
  began wrote committed : WalRecord → Event

-- The trace is what has been done, in its order.
pub record Replay : Type 0 where
  pub table : Table
  pub workers : List Worker
  pub trace : List Event

abbrev pub finished : Worker
finished = record { phase = between; todo = [] }

abbrev pub worker_at : Replay → ℕ → Worker
worker_at s w = get_or s.workers w finished

-- Worker `w` has made a step.
abbrev pub moved : Replay → ℕ → Table → Worker → Event → Replay
moved s w t worker event = record {
  table = t;
  workers = set s.workers w worker;
  trace = s.trace ++ event ∷ [];
}

pub data WorkerStep (s : Replay) : Replay → Type 0 where
  begins :
      (w : ℕ) {op : WalRecord} {ops : List WalRecord}
      → w < length s.workers
      → worker_at s w ≡ record { phase = between; todo = op ∷ ops }
      → WorkerStep s (
          moved s w
            (Table.begin s.table).0
            (record { phase = begun (Table.begin s.table).1 op; todo = ops })
            (began op))
  writes :
      (w : ℕ) {txn : Transaction} {op : WalRecord} {ops : List WalRecord} {t : Table}
      → w < length s.workers
      → worker_at s w ≡ record { phase = begun txn op; todo = ops }
      → apply_switch s.table txn op ≡ some t
      → WorkerStep s (moved s w t (record { phase = applied txn op; todo = ops }) (wrote op))
  commits :
      (w : ℕ) {txn done_txn : Transaction} {op : WalRecord} {ops : List WalRecord} {t : Table}
      → w < length s.workers
      → worker_at s w ≡ record { phase = applied txn op; todo = ops }
      → Table.commit s.table txn ≡ some (t, done_txn)
      → WorkerStep s (moved s w t (record { phase = between; todo = ops }) (committed op))

-- The threads before their first step.
abbrev pub spawned : Table → ℕ → List WalRecord → Replay
spawned t num_workers ops = record {
  table = t;
  workers =
      map (λ ops. record { phase = between; todo = ops })
        (shard num_workers (replicate num_workers []) ops);
  trace = [];
}

pub data Interleaving (t : Table) (num_workers : ℕ) (ops : List WalRecord) : Replay → Type 0 where
  spawn : Interleaving t num_workers ops (spawned t num_workers ops)
  later :
      {s s' : Replay}
      → Interleaving t num_workers ops s
      → WorkerStep s s'
      → Interleaving t num_workers ops s'

-- `join` of every thread returns.
abbrev pub Joined : Replay → Type 0
Joined s = (w : ℕ) → worker_at s w ≡ finished
