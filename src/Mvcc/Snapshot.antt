-- ===== src/Mvcc/Snapshot.antt =====
-- Snapshot isolation over src/mvcc: what a reader sees does not change while others begin, commit
-- and abort, and what lies behind `OldestActiveSnapshot` is settled for every reader to come.
pub mod Watermark
pub mod Aborted
use coredb.Prelude.{
  ℕ, ◌+◌, ◌<◌, u64_mod, subst, ◌≤◌, ◌≢◌, ◌≡◌, refl, sym, ◌∙◌, ap, true, false, arith,
}
use coredb.Prelude.Map
use coredb.Mvcc.Transaction.{
  Transaction, TransactionManager, begin, committed_by, oldest_active_snapshot,
}
use coredb.Mvcc.Transaction.Invariant.{IsValid, begin-IsValid}
use coredb.Mvcc.History.{
  Step, Reach, here, next, Reach-IsValid, committed_by-Step, last_commit-Step,
}
use coredb.Mvcc.Delta.{DeltaRecord, seen, is_visible}
use Watermark.{oldest-le, oldest-le-last_commit, oldest-Reach}

committed_by_mono :
    (m : TransactionManager) (id a b : ℕ)
    → a ≤ b
    → committed_by m id a ≡ true
    → committed_by m id b ≡ true
unfolding committed_by
committed_by_mono m id a b h c = ground arith

module _ {m : TransactionManager} (v : IsValid m) where
  last_commit-Reach : {m' : TransactionManager} → Reach m m' → m.last_commit_ts ≤ m'.last_commit_ts
  last_commit-Reach here = omega arith
  last_commit-Reach (next r st) =
      omega (arith, last_commit-Reach r, last_commit-Step (Reach-IsValid v r) st)

  pub committed_by-Reach :
      (id ts : ℕ)
      → ts ≤ m.last_commit_ts
      → {m' : TransactionManager} → Reach m m'
      → committed_by m' id ts ≡ committed_by m id ts
  committed_by-Reach id ts known here = refl
  committed_by-Reach id ts known (next r st) =
      committed_by-Step (Reach-IsValid v r) id ts (omega (arith, last_commit-Reach r)) st
      ∙ committed_by-Reach id ts known r

  -- A reader whose snapshot is not ahead of the last commit sees the same versions after any
  -- history of other calls as before.
  pub is_visible-Reach :
      (rec : DeltaRecord) (reader : Transaction) {m' : TransactionManager}
      → reader.snapshot_ts ≤ m.last_commit_ts
      → Reach m m'
      → is_visible rec reader m' ≡ is_visible rec reader m
  unfolding is_visible
  is_visible-Reach rec reader known r = cc (
    committed_by-Reach rec.created_txn reader.snapshot_ts known r,
    committed_by-Reach rec.deleted_txn reader.snapshot_ts known r,
  )

  -- What was committed behind the watermark is seen by every reader active at any later time.
  pub seen-Reach :
      (id : ℕ) (reader : Transaction) {m' : TransactionManager}
      → committed_by m id (oldest_active_snapshot m) ≡ true
      → Reach m m'
      → Map.contains reader.snapshot_ts m'.active_snapshots ≡ true
      → seen id reader m' ≡ true
  unfolding seen
  seen-Reach id reader {m'} c r live =
      let held = committed_by-Reach id (oldest_active_snapshot m) (oldest-le-last_commit m v) r in
      let later =
        committed_by_mono m' id (oldest_active_snapshot m) reader.snapshot_ts
          (omega
            (arith, oldest-Reach v r, oldest-le m' (Reach-IsValid v r) reader.snapshot_ts live))
          (held ∙ c) in
      ground (arith, later)

  -- From a valid manager: a version whose deletion is committed at or before the oldest active
  -- snapshot is seen by no reader whose snapshot is active after any later history.
  pub retired_invisible :
      (rec : DeltaRecord) (reader : Transaction) {m' : TransactionManager}
      → rec.deleted_txn ≢ 0
      → committed_by m rec.deleted_txn (oldest_active_snapshot m) ≡ true
      → Reach m m'
      → Map.contains reader.snapshot_ts m'.active_snapshots ≡ true
      → is_visible rec reader m' ≡ false
  unfolding is_visible
  retired_invisible rec reader some_deleter c r live =
      ground (arith, seen-Reach rec.deleted_txn reader c r live)

  -- From a valid manager: a version that is not deleted and whose creation is committed at or
  -- before the oldest active snapshot is seen by every reader whose snapshot is active after any
  -- later history.
  pub promoted_visible :
      (rec : DeltaRecord) (reader : Transaction) {m' : TransactionManager}
      → rec.deleted_txn ≡ 0
      → committed_by m rec.created_txn (oldest_active_snapshot m) ≡ true
      → Reach m m'
      → Map.contains reader.snapshot_ts m'.active_snapshots ≡ true
      → is_visible rec reader m' ≡ true
  unfolding is_visible
  promoted_visible rec reader live_row c r live =
      ground (arith, seen-Reach rec.created_txn reader c r live)

-- From a valid manager with ids left: what a transaction sees of a version right after it begins
-- is what it sees of it after any history of begins, commits and aborts.
pub snapshot_stable :
    (m m' m'' : TransactionManager) (reader : Transaction) (rec : DeltaRecord)
    → IsValid m
    → m.next_id + 1 < u64_mod
    → begin m ≡ (m', reader)
    → Reach m' m''
    → is_visible rec reader m'' ≡ is_visible rec reader m'
unfolding begin
snapshot_stable m m' m'' reader rec v room e r =
    is_visible-Reach (subst IsValid (ap (λ p. p.0) e) (begin-IsValid m v room)) rec reader
      (ground arith) r
