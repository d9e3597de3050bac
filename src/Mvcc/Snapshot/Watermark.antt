-- ===== src/Mvcc/Snapshot/Watermark.antt =====
-- `OldestActiveSnapshot` of src/mvcc/transaction.cpp is a lower bound of the active snapshots, and
-- never falls.
use coredb.Prelude.{ℕ, ◌≤◌, ◌≡◌, true, some, List, [], ◌∷◌, arith}
use coredb.Prelude.Map
use coredb.Prelude.Map.{Ordered, erase_one}
use coredb.Mvcc.Transaction.{
  Transaction, TransactionManager, begin, commit_state, abort_state, oldest_active_snapshot,
}
use coredb.Mvcc.Transaction.Invariant.{IsValid}
use coredb.Mvcc.History.{Step, Step_induction, Reach, here, next, Reach-IsValid}

-- `*active_snapshots_.begin()`, or `last` if there is none
abbrev oldest_of : ℕ → List ℕ → ℕ
oldest_of last [] = last
oldest_of last (s ∷ _) = s

oldest_of-contains :
    (last k : ℕ) (s : List ℕ) → Ordered 0 s → Map.contains k s ≡ true → oldest_of last s ≤ k
oldest_of-contains last k [] o h = cc
oldest_of-contains last k (j ∷ s) o h = Map.Ordered-contains j k (j ∷ s) (omega arith, o.1) h

module _ (m : TransactionManager) (v : IsValid m) where
  oldest_lem : oldest_active_snapshot m ≡ oldest_of m.last_commit_ts m.active_snapshots
  unfolding oldest_active_snapshot
  oldest_lem = ground arith

  -- The watermark is at most every active snapshot.
  pub oldest-le : (k : ℕ) → Map.contains k m.active_snapshots ≡ true → oldest_active_snapshot m ≤ k
  oldest-le k h =
      rw oldest_lem (oldest_of-contains m.last_commit_ts k m.active_snapshots v.ordered h)

  oldest_of-bounded :
      (s : List ℕ)
      → ((k : ℕ) → Map.contains k s ≡ true → k ≤ m.last_commit_ts)
      → oldest_of m.last_commit_ts s ≤ m.last_commit_ts
  oldest_of-bounded [] h = omega arith
  oldest_of-bounded (k ∷ s) h = h k (ground arith)

  pub oldest-le-last_commit : oldest_active_snapshot m ≤ m.last_commit_ts
  oldest-le-last_commit = rw oldest_lem (oldest_of-bounded m.active_snapshots v.reached)

  -- The list of snapshots after a call holds none that is new, but for the last commit.
  oldest_of_mono :
      (last' : ℕ) (s : List ℕ)
      → m.last_commit_ts ≤ last'
      → ((k : ℕ) → Map.contains k s ≡ true → oldest_active_snapshot m ≤ k)
      → oldest_active_snapshot m ≤ oldest_of last' s
  oldest_of_mono last' [] h k = omega (arith, oldest-le-last_commit)
  oldest_of_mono last' (j ∷ s) h k = k j (ground arith)

  oldest-begin : oldest_active_snapshot m ≤ oldest_active_snapshot (begin m).0
  unfolding begin oldest_active_snapshot
  oldest-begin =
      oldest_of_mono m.last_commit_ts (Map.insert_ordered m.last_commit_ts m.active_snapshots)
        (omega arith)
        λ k h. ground (
          arith,
          Map.contains-insert_ordered m.last_commit_ts k m.active_snapshots,
          oldest-le k,
          oldest-le-last_commit,
        )

  module _ (txn : Transaction) (rest : List ℕ)
      (left : erase_one txn.snapshot_ts m.active_snapshots ≡ some rest) where
    oldest-le_rest : (k : ℕ) → Map.contains k rest ≡ true → oldest_active_snapshot m ≤ k
    oldest-le_rest k h =
        oldest-le k (Map.contains-erase_one txn.snapshot_ts k m.active_snapshots rest left h)

    oldest-commit : oldest_active_snapshot m ≤ oldest_active_snapshot (commit_state m txn rest)
    unfolding commit_state oldest_active_snapshot
    oldest-commit = oldest_of_mono m.next_id rest (omega (arith, v.past)) oldest-le_rest

    oldest-abort : oldest_active_snapshot m ≤ oldest_active_snapshot (abort_state m txn rest)
    unfolding abort_state oldest_active_snapshot
    oldest-abort = oldest_of_mono m.last_commit_ts rest (omega arith) oldest-le_rest

  oldest-Step :
      {m' : TransactionManager} → Step m m' → oldest_active_snapshot m ≤ oldest_active_snapshot m'
  oldest-Step =
      Step_induction (λ n. oldest_active_snapshot m ≤ oldest_active_snapshot n) m
        (λ _. oldest-begin)
        λ txn rest _ left. (λ _. oldest-commit txn rest left, oldest-abort txn rest left)

-- From a valid manager, no history of begins, commits and aborts moves the oldest active snapshot
-- back.
pub oldest-Reach :
    {m m' : TransactionManager}
    → IsValid m
    → Reach m m'
    → oldest_active_snapshot m ≤ oldest_active_snapshot m'
oldest-Reach v here = omega arith
oldest-Reach v (next {m'} r st) =
    omega (arith, oldest-Reach v r, oldest-Step m' (Reach-IsValid v r) st)
