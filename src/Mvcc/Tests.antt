-- ===== src/Mvcc/Tests.antt =====
-- Instances of the theorems about src/mvcc at concrete histories.
use coredb.Prelude.{◌≤◌, ◌≡◌, refl, true, false, [], ◌∷◌, arith}
use coredb.Mvcc.Transaction.{
  Transaction, TransactionManager, active, init, begin, commit, commit_state,
  oldest_active_snapshot, committed_by, get_status,
}
use coredb.Mvcc.Transaction.Invariant.{IsValid, init-IsValid}
use coredb.Mvcc.History.{Step, Reach, begins, commits, here, next, Reach-IsValid}
use coredb.Mvcc.Delta.{DeltaRecord, is_visible, seen, conflict, claim_or_insert_base_tombstone}
use coredb.Mvcc.Delta.Conflict.{claim-conflict}
use coredb.Mvcc.Delta.Claim.{Effect, claim-Effect}
use coredb.Mvcc.Snapshot.{snapshot_stable, retired_invisible, promoted_visible}
use coredb.Mvcc.Snapshot.Watermark.{oldest-Reach}

-- Transaction 1 has begun; after that, it has committed at timestamp 2.
abbrev writer : Transaction
writer = record { txn_id = 1; snapshot_ts = 0; commit_ts = 0; state = active }

abbrev one_active : TransactionManager
one_active = record init { next_id = 2; active_snapshots = 0 ∷ []; active_txn_ids = 1 ∷ [] }

abbrev one_committed : TransactionManager
one_committed = commit_state one_active writer []

abbrev reader : Transaction
reader = record { txn_id = 3; snapshot_ts = 2; commit_ts = 0; state = active }

abbrev read_begun : TransactionManager
read_begun = (begin one_committed).0

one_active_begins : begin init ≡ (one_active, writer)
unfolding begin
one_active_begins = refl

one_active-Reach : Reach init one_active
one_active-Reach = next here (begins writer (omega arith) one_active_begins)

writer_commits : Step one_active one_committed
unfolding commit commit_state
writer_commits = commits writer _ (omega arith) refl refl

one_committed-Reach : Reach init one_committed
one_committed-Reach = next one_active-Reach writer_commits

one_committed-IsValid : IsValid one_committed
one_committed-IsValid = Reach-IsValid init-IsValid one_committed-Reach

reader_begins : Step one_committed read_begun
unfolding begin commit_state
reader_begins = begins reader (omega arith) refl

first_version : DeltaRecord
first_version = record {
  row_id = 7;
  created_txn = 1;
  deleted_txn = 0;
  row = [];
  is_base_tombstone = false;
}

Reach-IsValid_example : IsValid one_committed
Reach-IsValid_example = Reach-IsValid init-IsValid one_committed-Reach

-- The writer does not see its own commit any differently: it saw the row all along.
snapshot_stable_example :
    is_visible first_version writer one_committed ≡ is_visible first_version writer one_active
snapshot_stable_example =
    snapshot_stable init one_active one_committed writer first_version init-IsValid (omega arith)
      one_active_begins (next here writer_commits)

oldest-Reach_example : oldest_active_snapshot init ≤ oldest_active_snapshot one_committed
oldest-Reach_example = oldest-Reach init-IsValid one_committed-Reach

promoted_visible_example : is_visible first_version reader read_begun ≡ true
unfolding first_version begin commit_state committed_by oldest_active_snapshot
promoted_visible_example =
    promoted_visible one_committed-IsValid first_version reader refl refl (next here reader_begins)
      refl

retired_invisible_example :
    is_visible (record first_version { created_txn = 0; deleted_txn = 1 }) reader read_begun ≡ false
unfolding first_version begin commit_state committed_by oldest_active_snapshot
retired_invisible_example =
    retired_invisible one_committed-IsValid
      (record first_version { created_txn = 0; deleted_txn = 1 }) reader (omega arith) refl
      (next here reader_begins) refl

claim-Effect_example :
    Effect
      (first_version ∷ [])
      7
      reader
      read_begun
      false
      (claim_or_insert_base_tombstone (first_version ∷ []) 7 reader read_begun false)
claim-Effect_example = claim-Effect (first_version ∷ []) 7 reader read_begun (omega arith) false

-- Transactions 1 and 2 are active, and transaction 1 has updated row 7.
abbrev two_active : TransactionManager
two_active = (begin one_active).0

abbrev other_writer : Transaction
other_writer = (begin one_active).1

abbrev being_deleted : DeltaRecord
being_deleted = record first_version { created_txn = 0; deleted_txn = 1 }

claim-conflict_example :
    claim_or_insert_base_tombstone
      (being_deleted ∷ first_version ∷ [])
      7
      other_writer
      two_active
      true
    ≡ (being_deleted ∷ first_version ∷ [], conflict)
unfolding first_version begin get_status is_visible seen committed_by
claim-conflict_example =
    claim-conflict 7 other_writer two_active [] (first_version ∷ []) being_deleted true refl
      (record { marked = λ e. cc; foreign = λ e. cc; running = refl }) ((λ e. refl), tt)
