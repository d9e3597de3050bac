-- ===== src/Mvcc/Snapshot/Aborted.antt =====
-- What a transaction wrote that src/mvcc/transaction.cpp aborted stays unseen.
use coredb.Prelude.{ℕ, ◌≡◌, true, false, arith, ◌<◌, Option-cases, inl, inr}
use coredb.Prelude.Map
use coredb.Mvcc.Transaction.{
  Transaction, TransactionManager, committed, aborted, begin, commit_state, abort_state, get_status,
  committed_by,
}
use coredb.Mvcc.Transaction.Invariant.{IsValid}
use coredb.Mvcc.History.{Step, Step_induction, Reach, here, next, Reach-IsValid}
use coredb.Mvcc.Delta.{seen}

module _ {m m' : TransactionManager} (v : IsValid m) where
  -- An aborted transaction stays aborted.
  aborted-Step :
      (id : ℕ) → (get_status m id).state ≡ aborted → Step m m' → (get_status m' id).state ≡ aborted
  unfolding get_status begin commit_state abort_state
  aborted-Step id h =
      Step_induction (λ n. (get_status n id).state ≡ aborted) m (λ _. h)
        λ txn rest live _. (
          λ _. ground (
            arith,
            h,
            Map.find-put txn.txn_id id (record { state = committed; commit_ts = m.next_id })
                m.status,
            v.pending txn.txn_id live,
          ),
          ground (
            arith,
            h,
            Map.find-put txn.txn_id id (record { state = aborted; commit_ts = 0 }) m.status,
            v.pending txn.txn_id live,
          ),
        )

-- The id 0, which stands for no transaction, has no status.
pub aborted_real :
    {m : TransactionManager} → IsValid m → (id : ℕ) → (get_status m id).state ≡ aborted → 0 < id
unfolding get_status
aborted_real {m} v id h = elim (Option-cases (Map.find id m.status)) [
  | inl e ↦ absurd (ground (arith, e, h))
  | inr (st, e) ↦ (v.settled id st e).0
]

aborted_later :
    {m m' : TransactionManager}
    → IsValid m
    → (id : ℕ) → (get_status m id).state ≡ aborted
    → Reach m m'
    → (get_status m' id).state ≡ aborted
aborted_later v id h here = h
aborted_later v id h (next r s) = aborted-Step (Reach-IsValid v r) id (aborted_later v id h r) s

-- No transaction that is in progress at any later time sees what an aborted one did.
pub unseen_aborted :
    {m m' : TransactionManager}
    → IsValid m
    → (id : ℕ) (reader : Transaction) → (get_status m id).state ≡ aborted
    → Reach m m'
    → Map.contains reader.txn_id m'.active_txn_ids ≡ true
    → seen id reader m' ≡ false
unfolding seen committed_by get_status
unseen_aborted {m} {m'} v id reader h r live =
    ground (arith, aborted_later v id h r, (Reach-IsValid v r).pending reader.txn_id live)
