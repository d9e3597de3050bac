-- ===== src/Mvcc/History.antt =====
-- Histories of the transaction manager of src/mvcc/transaction.cpp: begins, commits and aborts, in
-- any order, of transactions that are active when they end.
use coredb.Prelude.{
  ℕ, ◌+◌, ◌<◌, ◌≤◌, ◌≡◌, refl, sym, ap, true, some, List, arith, u64_mod, inl, inr, ◌⊎◌,
}
use coredb.Prelude.Map
use coredb.Prelude.Map.{erase_one}
use coredb.Mvcc.Transaction.{
  Transaction, TransactionManager, committed, aborted, begin, commit, abort, commit_state,
  abort_state, commit_inversion, abort_inversion, committed_by,
}
use coredb.Mvcc.Transaction.Invariant.{
  IsValid, begin-IsValid, commit_state-IsValid, abort_state-IsValid,
}

-- One call, while ids are left. A transaction ends once: it is active before.
pub data Step (m m' : TransactionManager) : Type 0 where
  begins : (txn : Transaction) → m.next_id + 1 < u64_mod → begin m ≡ (m', txn) → Step m m'
  commits :
      (txn txn' : Transaction)
      → m.next_id + 1 < u64_mod
      → Map.contains txn.txn_id m.active_txn_ids ≡ true
      → commit m txn ≡ some (m', txn')
      → Step m m'
  aborts :
      (txn txn' : Transaction)
      → Map.contains txn.txn_id m.active_txn_ids ≡ true
      → abort m txn ≡ some (m', txn')
      → Step m m'

-- The state after a call is one of three.
pub Step_lem :
    {m m' : TransactionManager}
    → Step m m'
    → ((m' ≡ (begin m).0) × (m.next_id + 1 < u64_mod))
      ⊎ ((txn : Transaction) × (rest : List ℕ) × (Map.contains txn.txn_id m.active_txn_ids ≡ true)
          × (erase_one txn.snapshot_ts m.active_snapshots ≡ some rest)
          × ((m' ≡ commit_state m txn rest) × (m.next_id + 1 < u64_mod)
              ⊎ (m' ≡ abort_state m txn rest)))
Step_lem (begins txn room e) = inl (sym (ap (λ p. p.0) e), room)
Step_lem {m} {m'} (commits txn txn' room live done) =
    let (rest, left, e, _) = commit_inversion m m' txn txn' done in
    inr (txn, rest, live, left, inl (e, room))
Step_lem {m} {m'} (aborts txn txn' live done) =
    let (rest, left, e, _) = abort_inversion m m' txn txn' done in
    inr (txn, rest, live, left, inr e)

module _ {ℓ} (P : TransactionManager → Type ℓ) (m : TransactionManager) where
  -- To show a property of the state after any call, show it of the three.
  pub Step_induction :
      (m.next_id + 1 < u64_mod → P (begin m).0)
      → ((txn : Transaction) (rest : List ℕ)
          → Map.contains txn.txn_id m.active_txn_ids ≡ true
          → erase_one txn.snapshot_ts m.active_snapshots ≡ some rest
          → (m.next_id + 1 < u64_mod → P (commit_state m txn rest)) × P (abort_state m txn rest))
      → {m' : TransactionManager} → Step m m'
      → P m'
  Step_induction at_begin at_end st = elim (Step_lem st) [
    | inl (e, room) ↦ rw e (at_begin room)
    | inr (txn, rest, live, left, inl (e, room)) ↦ rw e ((at_end txn rest live left).0 room)
    | inr (txn, rest, live, left, inr e) ↦ rw e (at_end txn rest live left).1
  ]

pub data Reach (m : TransactionManager) : TransactionManager → Type 0 where
  here : Reach m m
  next : {m' m'' : TransactionManager} → Reach m m' → Step m' m'' → Reach m m''

-- Every call keeps the manager valid.
pub Step-IsValid : {m m' : TransactionManager} → IsValid m → Step m m' → IsValid m'
Step-IsValid {m} v = Step_induction IsValid m (begin-IsValid m v) λ txn rest live left.
    (commit_state-IsValid m v txn rest live left, abort_state-IsValid m v txn rest live left)

-- Any history of begins, commits and aborts, while ids are left and each transaction ends once,
-- keeps the manager valid: ids and timestamps below the counter, no active transaction with a
-- status, the active snapshots in order and none after the last commit.
pub Reach-IsValid : {m m' : TransactionManager} → IsValid m → Reach m m' → IsValid m'
Reach-IsValid v here = v
Reach-IsValid v (next r s) = Step-IsValid (Reach-IsValid v r) s

module _ (m : TransactionManager) (v : IsValid m) (id ts : ℕ) (known : ts ≤ m.last_commit_ts) where
  committed_by-begin : committed_by (begin m).0 id ts ≡ committed_by m id ts
  unfolding committed_by begin
  committed_by-begin = refl

  module _ (txn : Transaction) (rest : List ℕ)
      (live : Map.contains txn.txn_id m.active_txn_ids ≡ true) where
    committed_by-commit : committed_by (commit_state m txn rest) id ts ≡ committed_by m id ts
    unfolding committed_by commit_state
    committed_by-commit = ground (
      arith,
      Map.find-put txn.txn_id id (record { state = committed; commit_ts = m.next_id }) m.status,
      v.pending txn.txn_id live,
      v.past,
    )

    committed_by-abort : committed_by (abort_state m txn rest) id ts ≡ committed_by m id ts
    unfolding committed_by abort_state
    committed_by-abort = ground (
      arith,
      Map.find-put txn.txn_id id (record { state = aborted; commit_ts = 0 }) m.status,
      v.pending txn.txn_id live,
      v.past,
    )

module _ {m m' : TransactionManager} (v : IsValid m) where
  -- What is committed at or before a known timestamp never changes again.
  pub committed_by-Step :
      (id ts : ℕ) → ts ≤ m.last_commit_ts → Step m m' → committed_by m' id ts ≡ committed_by m id ts
  committed_by-Step id ts known =
      Step_induction (λ n. committed_by n id ts ≡ committed_by m id ts) m
        (λ _. committed_by-begin m v id ts known)
        λ txn rest live _. (
          λ _. committed_by-commit m v id ts known txn rest live,
          committed_by-abort m v id ts known txn rest live,
        )

  pub last_commit-Step : Step m m' → m.last_commit_ts ≤ m'.last_commit_ts
  unfolding begin commit_state abort_state
  last_commit-Step =
      Step_induction (λ n. m.last_commit_ts ≤ n.last_commit_ts) m (λ _. omega arith)
        λ txn rest _ _. (λ _. omega (arith, v.past), omega arith)
