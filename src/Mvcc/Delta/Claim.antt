-- ===== src/Mvcc/Delta/Claim.antt =====
-- What `ClaimOrInsertBaseTombstone` of src/mvcc/delta.cpp may change.
use coredb.Prelude.{
  ℕ, ◌<◌, ◌≡◌, refl, sym, subst, ◌≢◌, Bool, true, false, List, [], ◌∷◌, ◌++◌, reverse, arith, ◌==◌,
  ◌⊎◌, inl, inr, All, All-map, Any, Any-of_reverse, All-of_reverse, ◌||◌, not, if◌then◌else◌,
}
use mathlib.Core.List.{reverse-cons, reverse-reverse}
use coredb.Mvcc.Transaction.{active, aborted, Transaction, TransactionManager, get_status}
use coredb.Mvcc.Delta.{
  DeltaRecord, DeltaLayer, WriteResult, ok, not_found, conflict, is_visible, Look, skip, blocked,
  free, look, respond, Scan, claimed, conflicted, exhausted, keep, scan, conclude, tombstone,
  claim_or_insert_base_tombstone,
}

-- A version that a writer may claim: one of the row, which it sees, and which no transaction
-- deleted but for another one that aborted.
pub record Claimable (row_id : ℕ) (w : Transaction) (txm : TransactionManager) (r : DeltaRecord)
    : Type 0 where
  pub same_row : r.row_id ≡ row_id
  pub in_sight : is_visible r w txm ≡ true
  pub unclaimed :
      (r.deleted_txn ≡ 0)
      ⊎ ((r.deleted_txn ≢ w.txn_id) × ((get_status txm r.deleted_txn).state ≡ aborted))

-- Some record is a version of the row.
unfoldable pub any_row : ℕ → List DeltaRecord → Bool
any_row row_id [] = false
any_row row_id (r ∷ rs) = r.row_id == row_id || any_row row_id rs

-- The second list is the first with `deleted_txn` set in one record that has the property.
pub data OneClaimed (P : DeltaRecord → Type 0) (w : ℕ)
    : List DeltaRecord → List DeltaRecord → Type 0 where
  here :
      {r : DeltaRecord} {rs : List DeltaRecord}
      → P r
      → OneClaimed P w (r ∷ rs) (record r { deleted_txn = w } ∷ rs)
  there :
      {r : DeltaRecord} {rs ss : List DeltaRecord}
      → OneClaimed P w rs ss
      → OneClaimed P w (r ∷ rs) (r ∷ ss)

module _ {P : DeltaRecord → Type 0} {w : ℕ} where
  OneClaimed-append :
      {rs ss : List DeltaRecord} (ts : List DeltaRecord)
      → OneClaimed P w rs ss
      → OneClaimed P w (rs ++ ts) (ss ++ ts)
  OneClaimed-append ts (here p) = here p
  OneClaimed-append ts (there c) = there (OneClaimed-append ts c)

  OneClaimed-prepend :
      {rs ss : List DeltaRecord} (ts : List DeltaRecord)
      → OneClaimed P w rs ss
      → OneClaimed P w (ts ++ rs) (ts ++ ss)
  OneClaimed-prepend [] c = c
  OneClaimed-prepend (t ∷ ts) c = there (OneClaimed-prepend ts c)

  OneClaimed-reverse :
      {rs ss : List DeltaRecord} → OneClaimed P w rs ss → OneClaimed P w (reverse rs) (reverse ss)
  OneClaimed-reverse (here {r = r} {rs = rs} p) =
      rw (reverse-cons r rs, reverse-cons (record r { deleted_txn = w }) rs)
        (OneClaimed-prepend (reverse rs) (here p))
  OneClaimed-reverse (there {r = r} {rs = rs} {ss = ss} c) =
      rw (reverse-cons r rs, reverse-cons r ss) (OneClaimed-append (r ∷ []) (OneClaimed-reverse c))

module _ (row_id : ℕ) (w : Transaction) (txm : TransactionManager) where
  -- A version of the row that another transaction is deleting.
  abbrev pub Contended : DeltaRecord → Type 0
  Contended r =
      (r.row_id ≡ row_id)
      × (r.deleted_txn ≢ 0)
      × (r.deleted_txn ≢ w.txn_id)
      × ((get_status txm r.deleted_txn).state ≡ active)

  look-Claimable :
      (r : DeltaRecord) → r.row_id ≡ row_id → look r w txm ≡ free → Claimable row_id w txm r
  unfolding look
  look-Claimable r e h = ground arith

  look-Contended : (r : DeltaRecord) → r.row_id ≡ row_id → look r w txm ≡ blocked → Contended r
  unfolding look
  look-Contended r e h = ground arith

  -- What the end of a scan says of the records that it went through.
  abbrev Outcome : Bool → List DeltaRecord → Scan → Type 0
  Outcome touched rs (claimed ss) = OneClaimed (Claimable row_id w txm) w.txn_id rs ss
  Outcome touched rs conflicted = Any Contended rs
  Outcome touched rs (exhausted t) =
      (t ≡ touched || any_row row_id rs) × All (λ r. r.row_id ≡ row_id → look r w txm ≡ skip) rs

  keep-Outcome :
      (touched : Bool) (r : DeltaRecord) (rs : List DeltaRecord) (s : Scan)
      → (r.row_id ≡ row_id → look r w txm ≡ skip)
      → Outcome (if r.row_id == row_id then true else touched) rs s
      → Outcome touched (r ∷ rs) (keep r s)
  unfolding any_row
  keep-Outcome touched r rs (claimed ss) k o = there o
  keep-Outcome touched r rs conflicted k o = inr o
  keep-Outcome touched r rs (exhausted t) k o = (ground (arith, o.0), (k, o.1))

  respond-Outcome :
      (touched : Bool) (l : Look) (r : DeltaRecord) (rs : List DeltaRecord) (s : Scan)
      → r.row_id ≡ row_id
      → look r w txm ≡ l
      → Outcome (if r.row_id == row_id then true else touched) rs s
      → Outcome touched (r ∷ rs) (respond l r w.txn_id rs s)
  respond-Outcome touched skip r rs s e h o = keep-Outcome touched r rs s (λ _. h) o
  respond-Outcome touched blocked r rs s e h o = inl (look-Contended r e h)
  respond-Outcome touched free r rs s e h o = here (look-Claimable r e h)

  body-Outcome :
      (touched mine : Bool) (r : DeltaRecord) (rs : List DeltaRecord) (s : Scan)
      → mine ≡ (r.row_id == row_id)
      → Outcome (if r.row_id == row_id then true else touched) rs s
      → Outcome touched (r ∷ rs) (if mine then respond (look r w txm) r w.txn_id rs s else keep r s)
  body-Outcome touched true r rs s e o =
      respond-Outcome touched (look r w txm) r rs s (ground arith) refl o
  body-Outcome touched false r rs s e o = keep-Outcome touched r rs s (λ h. ground arith) o

  scan-Outcome :
      (touched : Bool) (rs : List DeltaRecord) → Outcome touched rs (scan row_id w txm touched rs)
  unfolding scan any_row
  scan-Outcome touched [] = (ground arith, tt)
  scan-Outcome touched (r ∷ rs) =
      body-Outcome touched (r.row_id == row_id) r rs
        (scan row_id w txm (if r.row_id == row_id then true else touched) rs) refl
        (scan-Outcome (if r.row_id == row_id then true else touched) rs)

any_row-append :
    (row_id : ℕ) (xs ys : List DeltaRecord)
    → any_row row_id (xs ++ ys) ≡ any_row row_id xs || any_row row_id ys
unfolding any_row
any_row-append row_id [] ys = ground arith
any_row-append row_id (x ∷ xs) ys = ground (arith, any_row-append row_id xs ys)

pub any_row-reverse :
    (row_id : ℕ) (xs : List DeltaRecord) → any_row row_id (reverse xs) ≡ any_row row_id xs
unfolding any_row
any_row-reverse row_id [] = refl
any_row-reverse row_id (x ∷ xs) =
    rw (reverse-cons x xs, any_row-append row_id (reverse xs) (x ∷ []), any_row-reverse row_id xs)
      (ground arith)

-- What a call does, for each result: `base` is `exists_in_base`.
module _ (records : DeltaLayer) (row_id : ℕ) (w : Transaction) (txm : TransactionManager) where
  abbrev pub Effect : Bool → DeltaLayer × WriteResult → Type 0
  Effect base (after, ok) =
      OneClaimed (Claimable row_id w txm) w.txn_id records after
      ⊎ ((any_row row_id records ≡ false)
          × (base ≡ true)
          × (after ≡ records ++ tombstone row_id w.txn_id ∷ []))
  Effect base (after, conflict) = (after ≡ records) × Any (Contended row_id w txm) records
  Effect base (after, not_found) =
      (after ≡ records)
      × All (λ r. ¬ Claimable row_id w txm r) records
      × ((any_row row_id records || not base) ≡ true)

  look-skip :
      (r : DeltaRecord)
      → 0 < w.txn_id
      → (r.row_id ≡ row_id → look r w txm ≡ skip)
      → ¬ Claimable row_id w txm r
  unfolding look
  look-skip r real h c = ground (arith, h c.same_row, c.in_sight, c.unclaimed)

  module _ (real : 0 < w.txn_id) where
    exhausted-Effect :
        (t : Bool)
        → Outcome row_id w txm false (reverse records) (exhausted t)
        → (t ≡ any_row row_id records) × All (λ r. ¬ Claimable row_id w txm r) records
    exhausted-Effect t o = (
      ground (arith, o.0, any_row-reverse row_id records),
      All-map _ _ (λ r. look-skip r real) records (All-of_reverse _ records o.1),
    )

    conclude-Effect :
        (base : Bool) (s : Scan)
        → Outcome row_id w txm false (reverse records) s
        → Effect base (conclude records row_id w base s)
    conclude-Effect base (claimed ss) o = inl (
        subst (λ rs. OneClaimed (Claimable row_id w txm) w.txn_id rs (reverse ss))
          (reverse-reverse records) (OneClaimed-reverse o))
    conclude-Effect base conflicted o = (refl, Any-of_reverse (Contended row_id w txm) records o)
    conclude-Effect true (exhausted false) o = inr (sym (exhausted-Effect false o).0, refl, refl)
    conclude-Effect true (exhausted true) o =
        let (touched, none_free) = exhausted-Effect true o in (refl, none_free, ground arith)
    conclude-Effect false (exhausted false) o =
        let (touched, none_free) = exhausted-Effect false o in (refl, none_free, ground arith)
    conclude-Effect false (exhausted true) o =
        let (touched, none_free) = exhausted-Effect true o in (refl, none_free, ground arith)

    -- For a writer with a transaction id above 0: when ClaimOrInsertBaseTombstone returns ok,
    -- either one record is claimed, a version of the row that the writer sees and that no
    -- transaction deleted but for another one that aborted, or the layer holds no version of the
    -- row, the row is in the base, and one tombstone is appended; at a conflict nothing changes
    -- and some version of the row is being deleted by another transaction that is active; at not-
    -- found nothing changes, no record can be claimed, and the layer has a version of the row or
    -- the base lacks it.
    pub claim-Effect :
        (base : Bool) → Effect base (claim_or_insert_base_tombstone records row_id w txm base)
    unfolding claim_or_insert_base_tombstone
    claim-Effect base =
        conclude-Effect base (scan row_id w txm false (reverse records))
          (scan-Outcome row_id w txm false (reverse records))
