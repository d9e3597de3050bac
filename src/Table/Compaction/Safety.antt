-- ===== src/Table/Compaction/Safety.antt =====
-- What `Table::Compact` of src/table/table.cpp decides on one record agrees with what every
-- transaction in progress, then or later, sees of it.
use coredb.Prelude.{ℕ, ◌≡◌, refl, Bool, true, false, arith}
use coredb.Prelude.Map
use coredb.Mvcc.Transaction.{
  Transaction, TransactionManager, aborted, get_status, committed_by, oldest_active_snapshot,
}
use coredb.Mvcc.Transaction.Invariant.{IsValid}
use coredb.Mvcc.History.{Reach}
use coredb.Mvcc.Snapshot.{seen-Reach}
use coredb.Mvcc.Snapshot.Aborted.{unseen_aborted, aborted_real}
use coredb.Mvcc.Delta.{DeltaRecord, is_visible, seen}
use coredb.Table.Compaction.{Fate, dropped, retained, promoted, purged, fate}

module _ {m m' : TransactionManager} (v : IsValid m) (rec : DeltaRecord) (reader : Transaction)
    (later : Reach m m') (snapshot : Map.contains reader.snapshot_ts m'.active_snapshots ≡ true)
    (running : Map.contains reader.txn_id m'.active_txn_ids ≡ true) where
  -- What a decision must know of the record: a version that is dropped is not seen, one that becomes
  -- a base row is seen, and the deletion of a base row that is purged is seen.
  abbrev pub Sound : Fate → Type 0
  Sound dropped = rec.is_base_tombstone ≡ false → is_visible rec reader m' ≡ false
  Sound retained = Unit
  Sound promoted = (rec.is_base_tombstone ≡ false) × (is_visible rec reader m' ≡ true)
  Sound purged = (rec.is_base_tombstone ≡ true) × (seen rec.deleted_txn reader m' ≡ true)

  seen_stable :
      (id : ℕ) → committed_by m id (oldest_active_snapshot m) ≡ true → seen id reader m' ≡ true
  seen_stable id c = seen-Reach v id reader c later snapshot

  unseen : (id : ℕ) → (get_status m id).state ≡ aborted → seen id reader m' ≡ false
  unseen id h = unseen_aborted v id reader h later running

  fate-Sound_of :
      (is_head : Bool) (f : Fate) → fate m (oldest_active_snapshot m) is_head rec ≡ f → Sound f
  unfolding fate is_visible
  fate-Sound_of is_head dropped e = λ h. ground (
    arith,
    e,
    h,
    aborted_real v rec.created_txn,
    unseen rec.created_txn,
    seen_stable rec.deleted_txn,
  )
  fate-Sound_of is_head retained e = tt
  fate-Sound_of is_head promoted e =
      (ground (arith, e), ground (arith, e, seen_stable rec.created_txn))
  fate-Sound_of is_head purged e =
      (ground (arith, e), ground (arith, e, seen_stable rec.deleted_txn))

  -- From a valid manager, for a transaction in progress after any later history: a version that
  -- compaction drops is not seen by it, one that becomes a base row is seen, and what purges a
  -- base row is a tombstone whose deletion is seen.
  pub fate-Sound : (is_head : Bool) → Sound (fate m (oldest_active_snapshot m) is_head rec)
  fate-Sound is_head = fate-Sound_of is_head _ refl
