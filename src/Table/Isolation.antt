-- ===== src/Table/Isolation.antt =====
-- What one transaction writes by src/table/table.cpp is not seen by the others before it commits.
use coredb.Prelude.{
  ℕ, ◌<◌, ◌≡◌, ◌≢◌, refl, ap, ◌∙◌, Bool, true, false, List, [], ◌∷◌, ◌++◌, Option, some, arith,
  Option-cases, inl, inr, ◌⊎◌,
}
use coredb.Prelude.Map
use coredb.Storage.Types.{Row}
use coredb.Mvcc.Transaction.{
  Transaction, TransactionManager, active, aborted, get_status, committed_by,
}
use coredb.Mvcc.Transaction.Invariant.{IsValid}
use coredb.Mvcc.Delta
use coredb.Mvcc.Delta.{
  DeltaRecord, DeltaLayer, WriteResult, ok, conflict, not_found, is_visible, seen, tombstone,
  claim_or_insert_base_tombstone,
}
use coredb.Mvcc.Delta.Claim.{OneClaimed, here, there, Claimable, Effect, claim-Effect}
use coredb.Table.{Table, insert, update, delete, claim, is_ok, row_id_exists_in_base}
use coredb.Table.Scan.{
  Merge, merge_record, merge_records, snapshot_for_scan, materialize_visible_rows,
}

-- Two transactions in progress.
pub record Concurrent (txm : TransactionManager) (writer reader : Transaction) : Type 0 where
  pub valid : IsValid txm
  pub real : 0 < writer.txn_id
  pub real_reader : 0 < reader.txn_id
  pub apart : writer.txn_id ≢ reader.txn_id
  pub writing : (get_status txm writer.txn_id).state ≡ active
  pub reading : (get_status txm reader.txn_id).state ≡ active

module _ (txm : TransactionManager) (writer reader : Transaction)
    (c : Concurrent txm writer reader) where
  unseen_writer : seen writer.txn_id reader txm ≡ false
  unfolding seen committed_by
  unseen_writer = ground (arith, c.apart, c.writing)

  unseen_aborted : (id : ℕ) → (get_status txm id).state ≡ aborted → seen id reader txm ≡ false
  unfolding seen committed_by
  unseen_aborted id h = ground (arith, c.reading)

  unseen_zero : seen 0 reader txm ≡ false
  unfolding seen committed_by
  unseen_zero = elim (Option-cases (Map.find 0 txm.status)) [
    | inl e ↦ ground (arith, c.real_reader)
    | inr (st, e) ↦ absurd (omega (arith, (c.valid).settled 0 st e))
  ]

  unseen_free :
      (row_id : ℕ) (r : DeltaRecord)
      → Claimable row_id writer txm r
      → seen r.deleted_txn reader txm ≡ false
  unseen_free row_id r k = ground (arith, k.unclaimed, unseen_zero, unseen_aborted r.deleted_txn)

  -- A claim changes nothing that the reader makes of a record.
  merge-claim :
      (row_id : ℕ) (r : DeltaRecord) (m : Merge)
      → Claimable row_id writer txm r
      → merge_record txm reader m (record r { deleted_txn = writer.txn_id })
        ≡ merge_record txm reader m r
  unfolding merge_record is_visible seen
  merge-claim row_id r m k = ground (arith, unseen_free row_id r k, unseen_writer, c.real)

  -- Nor does a version that the writer adds.
  merge-own :
      (r : DeltaRecord) (m : Merge)
      → r.created_txn ≡ writer.txn_id
      → r.is_base_tombstone ≡ false
      → merge_record txm reader m r ≡ m
  unfolding merge_record is_visible seen
  merge-own r m own version = ground (arith, unseen_writer, c.real)

  merge-tombstone :
      (row_id : ℕ) (m : Merge) → merge_record txm reader m (tombstone row_id writer.txn_id) ≡ m
  unfolding merge_record
  merge-tombstone row_id m = ground (arith, unseen_writer)

  merge-append :
      (rs : List DeltaRecord) (r : DeltaRecord) (m : Merge)
      → ((m' : Merge) → merge_record txm reader m' r ≡ m')
      → merge_records txm reader m (rs ++ r ∷ []) ≡ merge_records txm reader m rs
  unfolding merge_records
  merge-append [] r m h = h m
  merge-append (x ∷ rs) r m h = merge-append rs r (merge_record txm reader m x) h

  merge-OneClaimed :
      (row_id : ℕ) {rs ss : List DeltaRecord} (m : Merge)
      → OneClaimed (Claimable row_id writer txm) writer.txn_id rs ss
      → merge_records txm reader m ss ≡ merge_records txm reader m rs
  unfolding merge_records
  merge-OneClaimed row_id m (here {r = r} {rs = rs} k) =
      ap (λ n. merge_records txm reader n rs) (merge-claim row_id r m k)
  merge-OneClaimed row_id m (there {r = r} o) =
      merge-OneClaimed row_id (merge_record txm reader m r) o

  merge-Effect :
      (records : DeltaLayer) (row_id : ℕ) (base : Bool) (m : Merge) (after : DeltaLayer)
      (result : WriteResult)
      → Effect records row_id writer txm base (after, result)
      → merge_records txm reader m after ≡ merge_records txm reader m records
  merge-Effect records row_id base m after ok (inl o) = merge-OneClaimed row_id m o
  merge-Effect records row_id base m after ok (inr (_, _, e)) =
      rw e (merge-append records (tombstone row_id writer.txn_id) m (merge-tombstone row_id))
  merge-Effect records row_id base m after conflict (e, _) = rw e
  merge-Effect records row_id base m after not_found (e, _, _) = rw e

module _ (t t' : Table) (writer : Transaction) (row_id : ℕ) (b : Bool) where
  abbrev claimed_by : Bool → DeltaLayer × WriteResult
  claimed_by base = claim_or_insert_base_tombstone t.delta row_id writer t.txn_mgr base

  pub update_inversion :
      (row : Row)
      → update t writer row_id row ≡ some (t', b)
      → (base : Bool) × (row_id_exists_in_base row_id t.base_segments ≡ some base)
        × (((b ≡ true)
              × (is_ok (claimed_by base).1 ≡ true)
              × (t'
                  ≡ record t { delta = Delta.insert (claimed_by base).0 row_id writer.txn_id row }))
            ⊎ ((b ≡ false)
                × (is_ok (claimed_by base).1 ≡ false)
                × (t' ≡ record t { delta = (claimed_by base).0 })))
  unfolding update claim
  update_inversion row h = ground arith

  pub delete_inversion :
      delete t writer row_id ≡ some (t', b)
      → (base : Bool) × (row_id_exists_in_base row_id t.base_segments ≡ some base)
        × (b ≡ is_ok (claimed_by base).1)
        × (t' ≡ record t { delta = (claimed_by base).0 })
  unfolding delete claim
  delete_inversion h = ground arith

abbrev pub view_of : Table → Transaction → Option (List Row)
view_of t reader = materialize_visible_rows t (snapshot_for_scan t reader)

module _ (t : Table) (writer reader : Transaction) (c : Concurrent t.txn_mgr writer reader) where
  -- A table with other delta records that merge alike looks the same.
  same_view :
      (records : DeltaLayer) (next : ℕ)
      → ((m : Merge)
          → merge_records t.txn_mgr reader m records ≡ merge_records t.txn_mgr reader m t.delta)
      → view_of (record t { delta = records; next_row_id = next }) reader ≡ view_of t reader
  unfolding materialize_visible_rows snapshot_for_scan
  same_view records next h = rw h

  abbrev claim_result : ℕ → Bool → DeltaLayer × WriteResult
  claim_result row_id base = claim_or_insert_base_tombstone t.delta row_id writer t.txn_mgr base

  merge-claimed :
      (row_id : ℕ) (base : Bool) (m : Merge)
      → merge_records t.txn_mgr reader m (claim_result row_id base).0
        ≡ merge_records t.txn_mgr reader m t.delta
  merge-claimed row_id base m =
      merge-Effect t.txn_mgr writer reader c t.delta row_id base m (claim_result row_id base).0
        (claim_result row_id base).1 (claim-Effect t.delta row_id writer t.txn_mgr c.real base)

  merge-insert :
      (records : DeltaLayer) (row_id : ℕ) (row : Row) (m : Merge)
      → merge_records t.txn_mgr reader m (Delta.insert records row_id writer.txn_id row)
        ≡ merge_records t.txn_mgr reader m records
  unfolding Delta.insert
  merge-insert records row_id row m =
      merge-append t.txn_mgr writer reader c records _ m
        (λ m'. merge-own t.txn_mgr writer reader c _ m' refl refl)

  -- With a valid transaction manager, while two distinct transactions with ids above 0 are in
  -- progress, an insert by the one leaves the rows that a scan materializes for the other as they
  -- were.
  pub insert_isolated : (row : Row) → view_of (insert t writer row).0 reader ≡ view_of t reader
  unfolding insert
  insert_isolated row =
      same_view (Delta.insert t.delta t.next_row_id writer.txn_id row) _
        (merge-insert t.delta t.next_row_id row)

  -- With a valid transaction manager, while two distinct transactions with ids above 0 are in
  -- progress, an update by the one that throws nothing, whether it succeeds or not, leaves the
  -- rows that a scan materializes for the other as they were.
  pub update_isolated :
      (t' : Table) (row_id : ℕ) (row : Row) (b : Bool)
      → update t writer row_id row ≡ some (t', b)
      → view_of t' reader ≡ view_of t reader
  update_isolated t' row_id row b h =
      let (base, _, outcome) = update_inversion t t' writer row_id b row h in
      elim outcome [
        | inl (_, _, e) ↦ rw e (
            same_view (Delta.insert (claim_result row_id base).0 row_id writer.txn_id row)
              t.next_row_id
              (λ m.
                merge-insert (claim_result row_id base).0 row_id row m
                ∙ merge-claimed row_id base m))
        | inr (_, _, e) ↦
            rw e (same_view (claim_result row_id base).0 t.next_row_id (merge-claimed row_id base))
      ]

  -- With a valid transaction manager, while two distinct transactions with ids above 0 are in
  -- progress, a delete by the one that throws nothing, whether it succeeds or not, leaves the rows
  -- that a scan materializes for the other as they were.
  pub delete_isolated :
      (t' : Table) (row_id : ℕ) (b : Bool)
      → delete t writer row_id ≡ some (t', b)
      → view_of t' reader ≡ view_of t reader
  delete_isolated t' row_id b h =
      let (base, _, _, e) = delete_inversion t t' writer row_id b h in
      rw e (same_view (claim_result row_id base).0 t.next_row_id (merge-claimed row_id base))
