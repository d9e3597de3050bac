-- ===== src/Table/View/Own.antt =====
-- What a transaction reads of its own writes by src/table/table.cpp.
use coredb.Prelude.{
  ℕ, ◌<◌, ◌≡◌, ◌≢◌, refl, ap, sym, ◌∙◌, Bool, true, false, some, arith, ◌==◌, if◌then◌else◌, inl,
  inr,
}
use coredb.Storage.Types.{Row}
use coredb.Mvcc.Transaction.{Transaction}
use coredb.Mvcc.Delta
use coredb.Mvcc.Delta.{
  DeltaRecord, DeltaLayer, WriteResult, ok, conflict, not_found, is_visible, seen, tombstone,
  claim_or_insert_base_tombstone,
}
use coredb.Mvcc.Delta.Claim.{Effect, claim-Effect}
use coredb.Table.{Table, insert, update}
use coredb.Table.Isolation.{update_inversion}
use coredb.Table.View.{
  newest, covered, newest-append, covered-append, other_row, other_claim, version, scanned, read,
  scanned-read,
}

module _ (t : Table) (w : Transaction) (real : 0 < w.txn_id) (row : Row) where
  -- The reading after a version by the writer itself is appended to a layer in which other rows
  -- read as before.
  read-insert :
      (row_id : ℕ) (records : DeltaLayer) (next : ℕ) (j : ℕ)
      → (row_id ≢ j
          → (newest t.txn_mgr w j records ≡ newest t.txn_mgr w j t.delta)
            × (covered t.txn_mgr w j records ≡ covered t.txn_mgr w j t.delta))
      → read (record t { delta = Delta.insert records row_id w.txn_id row; next_row_id = next }) w j
        ≡ (if row_id == j then version row else read t w j)
  unfolding read Delta.insert is_visible seen
  read-insert row_id records next j same =
      let fresh : DeltaRecord = record {
        row_id = row_id;
        created_txn = w.txn_id;
        deleted_txn = 0;
        row = row;
        is_base_tombstone = false;
      } in
      ground (
        arith,
        newest-append t.txn_mgr w j records fresh,
        covered-append t.txn_mgr w j records fresh,
        same,
        real,
      )

  -- What a claim leaves of other rows, however it ends.
  others_after :
      (row_id : ℕ) (base : Bool) (after : DeltaLayer) (result : WriteResult)
      → Effect t.delta row_id w t.txn_mgr base (after, result)
      → (j : ℕ) → row_id ≢ j
      → (newest t.txn_mgr w j after ≡ newest t.txn_mgr w j t.delta)
        × (covered t.txn_mgr w j after ≡ covered t.txn_mgr w j t.delta)
  others_after row_id base after ok (inl o) j other = other_claim t.txn_mgr w j row_id w other o
  others_after row_id base after ok (inr (_, _, e)) j other =
      rw e (other_row t.txn_mgr w j t.delta (tombstone row_id w.txn_id) other)
  others_after row_id base after conflict (e, _) j other = rw e (refl, refl)
  others_after row_id base after not_found (e, _, _) j other = rw e (refl, refl)

  written :
      (row_id : ℕ) (records : DeltaLayer) (next : ℕ) (j : ℕ)
      → (row_id ≢ j
          → (newest t.txn_mgr w j records ≡ newest t.txn_mgr w j t.delta)
            × (covered t.txn_mgr w j records ≡ covered t.txn_mgr w j t.delta))
      → scanned
          (record t { delta = Delta.insert records row_id w.txn_id row; next_row_id = next })
          w
          j
        ≡ (if row_id == j then version row else scanned t w j)
  written row_id records next j same =
      scanned-read _ w j
      ∙ read-insert row_id records next j same
      ∙ ap (λ r. if row_id == j then version row else r) (sym (scanned-read t w j))

  -- For a transaction with an id above 0: an insert is an update of the map from row ids to what
  -- the transaction's scans merge for them. The id that it allocates reads as the new row, and
  -- every other row as before.
  pub insert_refines :
      (j : ℕ)
      → scanned (insert t w row).0 w j ≡ (if t.next_row_id == j then version row else scanned t w j)
  unfolding insert
  insert_refines j = written t.next_row_id t.delta _ j (λ _. (refl, refl))

  -- For a transaction with an id above 0: an update that succeeds is an update of the map from row
  -- ids to what the transaction's scans merge for them. Its row reads as the new version, and
  -- every other row as before.
  pub update_refines :
      (t' : Table) (row_id j : ℕ)
      → update t w row_id row ≡ some (t', true)
      → scanned t' w j ≡ (if row_id == j then version row else scanned t w j)
  update_refines t' row_id j h =
      let (base, _, outcome) = update_inversion t t' w row_id true row h in
      let claimed = claim_or_insert_base_tombstone t.delta row_id w t.txn_mgr base in
      elim outcome [
        | inr (wrong, _, _) ↦ cc
        | inl (_, _, e) ↦
            ap (λ s. scanned s w j) e
            ∙ written row_id claimed.0 t.next_row_id j (
                others_after row_id base claimed.0 claimed.1
                  (claim-Effect t.delta row_id w t.txn_mgr real base) j)
      ]
