-- ===== src/Mvcc/Delta/Conflict.antt =====
-- When `ClaimOrInsertBaseTombstone` of src/mvcc/delta.cpp reports a write-write conflict.
use mathlib.Core.List.{reverse-append, reverse-cons, append_assoc}
use coredb.Prelude.{
  ℕ, ◌≡◌, ◌≢◌, refl, ap, ◌∙◌, Bool, true, false, List, [], ◌∷◌, ◌++◌, reverse, ◌==◌, ◌⊎◌, inl, inr,
  All, All-reverse, Bool-cases, arith,
}
use coredb.Mvcc.Transaction.{active, Transaction, TransactionManager, get_status}
use coredb.Mvcc.Delta.{
  DeltaRecord, conflict, is_visible, Look, skip, blocked, free, look, conflicted, scan,
  claim_or_insert_base_tombstone,
}

-- Another transaction, still active, is deleting the version.
pub record Contended (w : Transaction) (txm : TransactionManager) (r : DeltaRecord) : Type 0 where
  pub marked : r.deleted_txn ≢ 0
  pub foreign : r.deleted_txn ≢ w.txn_id
  pub running : (get_status txm r.deleted_txn).state ≡ active

Look-cases : (l : Look) → (l ≡ skip) ⊎ (l ≡ blocked) ⊎ (l ≡ free)
Look-cases skip = inl refl
Look-cases blocked = inr (inl refl)
Look-cases free = inr (inr refl)

module _ (row_id : ℕ) (w : Transaction) (txm : TransactionManager) where
  -- If the record is a version of the row, the writer does not see it.
  abbrev pub OutOfSight : DeltaRecord → Type 0
  OutOfSight r = r.row_id ≡ row_id → is_visible r w txm ≡ false

  look-Contended : (r : DeltaRecord) → Contended w txm r → look r w txm ≡ blocked
  unfolding look
  look-Contended r h = ground (arith, h.marked, h.foreign, h.running)

  look_unseen : (r : DeltaRecord) → is_visible r w txm ≡ false → look r w txm ≢ free
  unfolding look
  look_unseen r h e = ground (arith, h, e)

  -- The scan goes past versions that the writer does not see until it is blocked.
  scan_past :
      (newer older : List DeltaRecord) (it : DeltaRecord) (touched : Bool)
      → All OutOfSight newer
      → it.row_id ≡ row_id
      → Contended w txm it
      → scan row_id w txm touched (newer ++ it ∷ older) ≡ conflicted
  unfolding scan
  scan_past [] older it touched unseen here h =
      let mine : (it.row_id == row_id) ≡ true = ground (arith, here) in
      rw (mine, look-Contended it h) refl
  scan_past (r ∷ newer) older it touched unseen here h = elim (Bool-cases (r.row_id == row_id)) [
    | inl mine ↦
        let rest = scan_past newer older it true unseen.1 here h in
        elim (Look-cases (look r w txm)) [
          | inl e ↦ rw (mine, e, rest) refl
          | inr (inl e) ↦ rw (mine, e) refl
          | inr (inr e) ↦ absurd (look_unseen r (unseen.0 (ground (arith, mine))) e)
        ]
    | inr other ↦ rw (other, scan_past newer older it touched unseen.1 here h) refl
  ]

  -- When another transaction that is active is deleting some version of the row, and the writer
  -- sees no version of the row behind it in the layer, ClaimOrInsertBaseTombstone returns a
  -- conflict and changes nothing.
  pub claim-conflict :
      (older newer : List DeltaRecord) (it : DeltaRecord) (exists_in_base : Bool)
      → it.row_id ≡ row_id
      → Contended w txm it
      → All OutOfSight newer
      → claim_or_insert_base_tombstone (older ++ it ∷ newer) row_id w txm exists_in_base
        ≡ (older ++ it ∷ newer, conflict)
  unfolding claim_or_insert_base_tombstone
  claim-conflict older newer it exists_in_base here h unseen =
      let newest_first : reverse (older ++ it ∷ newer) ≡ reverse newer ++ it ∷ reverse older =
        reverse-append older (it ∷ newer)
        ∙ ap (λ xs. xs ++ reverse older) (reverse-cons it newer)
        ∙ append_assoc (reverse newer) (it ∷ []) (reverse older) in
      rw
        (
          newest_first,
          scan_past (reverse newer) (reverse older) it false (All-reverse OutOfSight newer unseen)
              here h,
        )
        refl
