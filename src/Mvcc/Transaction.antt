-- ===== src/Mvcc/Transaction.antt =====
-- include/coredb/mvcc/transaction.h and src/mvcc/transaction.cpp: the transaction manager. Each
-- method runs whole under the manager's mutex, so it is one function on the manager's state.
pub mod Invariant
use coredb.Prelude.{
  ℕ, Bool, true, false, ◌&&◌, Option, none, some, List, [], ◌∷◌, leb, ◌>>=◌, inc64, length, ◌≡◌,
  arith,
}
use coredb.Prelude.Map
use coredb.Prelude.Map.{insert_ordered, erase_one}

pub data TxnState : Type 0 where
  active committed aborted : TxnState

pub record Transaction : Type 0 where
  pub txn_id : ℕ
  pub snapshot_ts : ℕ
  pub commit_ts : ℕ
  pub state : TxnState

pub record TxnStatus : Type 0 where
  pub state : TxnState
  pub commit_ts : ℕ

pub record TransactionManager : Type 0 where
  pub next_id : ℕ
  pub last_commit_ts : ℕ
  pub active_snapshots : List ℕ
  pub active_txn_ids : List ℕ
  pub status : List (ℕ × TxnStatus)

abbrev pub init : TransactionManager
init = record {
  next_id = 1;
  last_commit_ts = 0;
  active_snapshots = [];
  active_txn_ids = [];
  status = [];
}

unfoldable pub begin : TransactionManager → TransactionManager × Transaction
begin m = (
  record m {
    next_id = inc64 m.next_id;
    active_snapshots = insert_ordered m.last_commit_ts m.active_snapshots;
    active_txn_ids = Map.add m.next_id m.active_txn_ids;
  },
  record { txn_id = m.next_id; snapshot_ts = m.last_commit_ts; commit_ts = 0; state = active },
)

-- The manager after a commit and after an abort, once one occurrence of the snapshot is erased.
unfoldable pub commit_state : TransactionManager → Transaction → List ℕ → TransactionManager
commit_state m txn snapshots = record {
  next_id = inc64 m.next_id;
  last_commit_ts = m.next_id;
  active_snapshots = snapshots;
  active_txn_ids = Map.erase txn.txn_id m.active_txn_ids;
  status = Map.put txn.txn_id (record { state = committed; commit_ts = m.next_id }) m.status;
}

unfoldable pub abort_state : TransactionManager → Transaction → List ℕ → TransactionManager
abort_state m txn snapshots = record m {
  active_snapshots = snapshots;
  active_txn_ids = Map.erase txn.txn_id m.active_txn_ids;
  status = Map.put txn.txn_id (record { state = aborted; commit_ts = 0 }) m.status;
}

-- `none` where the snapshot is not among the active ones: the source then erases `end()`.
unfoldable pub commit : TransactionManager → Transaction → Option (TransactionManager × Transaction)
commit m txn = do
  snapshots ← erase_one txn.snapshot_ts m.active_snapshots
  some (commit_state m txn snapshots, record txn { commit_ts = m.next_id; state = committed })

unfoldable pub abort : TransactionManager → Transaction → Option (TransactionManager × Transaction)
abort m txn = do
  snapshots ← erase_one txn.snapshot_ts m.active_snapshots
  some (abort_state m txn snapshots, record txn { state = aborted })

abbrev or_active : Option TxnStatus → TxnStatus
or_active none = record { state = active; commit_ts = 0 }
or_active (some st) = st

unfoldable pub get_status : TransactionManager → ℕ → TxnStatus
get_status m txn_id = or_active (Map.find txn_id m.status)

unfoldable pub oldest_active_snapshot : TransactionManager → ℕ
oldest_active_snapshot m = elim m.active_snapshots [ [] ↦ m.last_commit_ts | s ∷ _ ↦ s ]

unfoldable pub active_transaction_count : TransactionManager → ℕ
active_transaction_count m = length m.active_txn_ids

abbrev pub is_committed : TxnState → Bool
is_committed committed = true
is_committed _ = false

abbrev pub is_aborted : TxnState → Bool
is_aborted aborted = true
is_aborted _ = false

abbrev pub is_active : TxnState → Bool
is_active active = true
is_active _ = false

-- `st.state == TxnState::kCommitted && st.commit_ts <= ts` at the status of `txn_id`, the test
-- that visibility and compaction make
unfoldable pub committed_by : TransactionManager → ℕ → ℕ → Bool
unfolding get_status
committed_by m txn_id ts =
    is_committed (get_status m txn_id).state && leb (get_status m txn_id).commit_ts ts

module _ (m m' : TransactionManager) (txn txn' : Transaction) where
  pub commit_inversion :
      commit m txn ≡ some (m', txn')
      → (rest : List ℕ) × (erase_one txn.snapshot_ts m.active_snapshots ≡ some rest)
        × (m' ≡ commit_state m txn rest)
        × (txn' ≡ record txn { commit_ts = m.next_id; state = committed })
  unfolding commit
  commit_inversion h = ground arith

  pub abort_inversion :
      abort m txn ≡ some (m', txn')
      → (rest : List ℕ) × (erase_one txn.snapshot_ts m.active_snapshots ≡ some rest)
        × (m' ≡ abort_state m txn rest)
        × (txn' ≡ record txn { state = aborted })
  unfolding abort
  abort_inversion h = ground arith
