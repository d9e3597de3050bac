-- ===== src/Mvcc/Transaction/Invariant.antt =====
-- What the transaction manager of src/mvcc/transaction.cpp keeps between calls.
use coredb.Prelude.{
  ℕ, ◌+◌, ◌≤◌, ◌<◌, ◌≡◌, true, none, some, List, arith, inl, inr, u64_mod, Option-cases,
}
use coredb.Prelude.Map
use coredb.Prelude.Map.{insert_ordered, erase_one, Ordered}
use coredb.Mvcc.Transaction.{
  committed, aborted, Transaction, TxnStatus, TransactionManager, init, begin, commit_state,
  abort_state, is_committed,
}

-- Ids and timestamps come from one counter: every id in use and every commit timestamp is below
-- it, and no active id has a status.
pub record IsValid (m : TransactionManager) : Type 0 where
  pub past : m.last_commit_ts < m.next_id
  pub in_range : m.next_id < u64_mod
  pub ordered : Ordered 0 m.active_snapshots
  pub reached : (s : ℕ) → Map.contains s m.active_snapshots ≡ true → s ≤ m.last_commit_ts
  pub pending :
      (k : ℕ)
      → Map.contains k m.active_txn_ids ≡ true
      → (0 < k) × (k < m.next_id) × (Map.find k m.status ≡ none)
  pub settled :
      (k : ℕ) (st : TxnStatus)
      → Map.find k m.status ≡ some st
      → (0 < k) × (k < m.next_id) × (is_committed st.state ≡ true → st.commit_ts ≤ m.last_commit_ts)

pub init-IsValid : IsValid init
init-IsValid = record {
  past = omega arith;
  in_range = omega arith;
  ordered = tt;
  reached = λ s h. cc;
  pending = λ k h. cc;
  settled = λ k st h. cc;
}

module _ (m : TransactionManager) (v : IsValid m) where
  -- The next id has no status yet.
  pub fresh_status : (k : ℕ) → m.next_id ≤ k → Map.find k m.status ≡ none
  fresh_status k h = elim (Option-cases (Map.find k m.status)) [
    | inl e ↦ e
    | inr (st, e) ↦ absurd (omega (arith, v.settled k st e))
  ]

  -- While the counter has not run out, `begin` keeps the manager valid.
  pub begin-IsValid : m.next_id + 1 < u64_mod → IsValid (begin m).0
  unfolding begin
  begin-IsValid room = record {
    past = ground (arith, v.past);
    in_range = ground arith;
    ordered =
        Map.insert_ordered-Ordered 0 m.last_commit_ts m.active_snapshots (omega arith) v.ordered;
    reached = λ s h.
        ground
          (arith, Map.contains-insert_ordered m.last_commit_ts s m.active_snapshots, v.reached s);
    pending = λ k h.
        ground (
          arith,
          v.past,
          Map.contains-add m.next_id k m.active_txn_ids,
          v.pending k,
          fresh_status k,
        );
    settled = λ k st h.
        (ground (arith, v.settled k st h), ground (arith, v.settled k st h), (v.settled k st h).2);
  }

  -- So does the end of an active transaction, whose one snapshot is erased.
  module _ (txn : Transaction) (rest : List ℕ)
      (live : Map.contains txn.txn_id m.active_txn_ids ≡ true)
      (left : erase_one txn.snapshot_ts m.active_snapshots ≡ some rest) where
    reached-erase_one : (s : ℕ) → Map.contains s rest ≡ true → s ≤ m.last_commit_ts
    reached-erase_one s h =
        v.reached s (Map.contains-erase_one txn.snapshot_ts s m.active_snapshots rest left h)

    pub commit_state-IsValid : m.next_id + 1 < u64_mod → IsValid (commit_state m txn rest)
    unfolding commit_state
    commit_state-IsValid room = record {
      past = ground arith;
      in_range = ground arith;
      ordered = Map.erase_one-Ordered 0 txn.snapshot_ts m.active_snapshots rest v.ordered left;
      reached = λ s h. omega (arith, v.past, reached-erase_one s h);
      pending = λ k h. ground (
        arith,
        Map.contains-erase txn.txn_id k m.active_txn_ids,
        Map.find-put txn.txn_id k (record { state = committed; commit_ts = m.next_id }) m.status,
        v.pending k,
      );
      settled = λ k st h. ground (
        arith,
        Map.find-put txn.txn_id k (record { state = committed; commit_ts = m.next_id }) m.status,
        v.settled k st,
        v.pending txn.txn_id live,
        v.past,
      );
    }

    pub abort_state-IsValid : IsValid (abort_state m txn rest)
    unfolding abort_state
    abort_state-IsValid = record {
      past = v.past;
      in_range = v.in_range;
      ordered = Map.erase_one-Ordered 0 txn.snapshot_ts m.active_snapshots rest v.ordered left;
      reached = reached-erase_one;
      pending = λ k h. ground (
        arith,
        Map.contains-erase txn.txn_id k m.active_txn_ids,
        Map.find-put txn.txn_id k (record { state = aborted; commit_ts = 0 }) m.status,
        v.pending k,
      );
      settled = λ k st h. ground (
        arith,
        Map.find-put txn.txn_id k (record { state = aborted; commit_ts = 0 }) m.status,
        v.settled k st,
        v.pending txn.txn_id live,
        v.past,
      );
    }
