-- ===== src/Wal/Crash.antt =====
-- What src/wal/wal_reader.cpp makes of a log of which a crash left only the first bytes.
use mathlib.Core.List.{append-nil, append_assoc}
use coredb.Prelude.{
  ℕ, zero, suc, ◌+◌, ◌%◌, ◌<◌, ◌≤◌, ◌≡◌, refl, sym, ap, ◌∙◌, Bool, true, false, List, [], ◌∷◌, ◌++◌,
  some, inl, inr, All, length, length-append, arith, u64_mod,
}
use coredb.Wal.Record.{WalRecord}
use coredb.Wal.Writer.{frame}
use coredb.Wal.Reader.{WalReadResult, read_one, read_from, read_all, no_records}
use coredb.Wal.Frames.{Loggable, append_cut, read_one-frame, read_one_torn, length-frame}

-- The bytes of a log.
unfoldable pub frames : List WalRecord → List ℕ
frames [] = []
frames (r ∷ rs) = frame r ++ frames rs

-- The result after one more record.
abbrev push : WalRecord → WalReadResult → WalReadResult
push r result = record result {
  last_valid_lsn = r.lsn;
  bytes_read = (result.bytes_read + length (frame r)) % u64_mod;
  records = result.records ++ r ∷ [];
}

module _ (grants : ℕ → Bool) where
  read_from-frame :
      (r : WalRecord) (rest : List ℕ) (fuel : ℕ) (result : WalReadResult)
      → Loggable grants r
      → read_from grants (suc fuel) (frame r ++ rest) result
        ≡ read_from grants fuel rest (push r result)
  unfolding read_from
  read_from-frame r rest fuel result l =
      ground (arith, read_one-frame grants r l rest, length-frame grants r l)

  -- The loop on `kept` ends with the records `as'`, then some of `bs` from its first on, and does not
  -- take anything for corrupt.
  pub record Survived (as' bs : List WalRecord) (fuel : ℕ) (kept : List ℕ) (before : WalReadResult)
      : Type 0 where
    pub result : WalReadResult
    pub read : List WalRecord
    pub unread : List WalRecord
    pub split : bs ≡ read ++ unread
    pub run : read_from grants fuel kept before ≡ some result
    pub records : result.records ≡ before.records ++ (as' ++ read)
    pub intact : result.corrupt_record ≡ before.corrupt_record

  nothing_left :
      (kept lost : List ℕ) (fuel : ℕ) (before : WalReadResult) (bs : List WalRecord)
      → kept ≡ []
      → 0 < fuel
      → Survived [] bs fuel kept before
  unfolding read_from read_one
  nothing_left kept lost zero before bs e h = absurd (omega (arith, h))
  nothing_left kept lost (suc fuel) before bs e h = record {
    result = before;
    read = [];
    unread = bs;
    split = refl;
    run = rw e refl;
    records = sym (append-nil before.records);
    intact = refl;
  }

  -- The loop after the record `r`.
  after :
      (r : WalRecord) (as' bs : List WalRecord) (kept m : List ℕ) (fuel : ℕ)
      (before : WalReadResult)
      → Loggable grants r
      → kept ≡ frame r ++ m
      → Survived as' bs fuel m (push r before)
      → Survived (r ∷ as') bs (suc fuel) kept before
  after r as' bs kept m fuel before l e s = record {
    result = s.result;
    read = s.read;
    unread = s.unread;
    split = s.split;
    run = rw e (read_from-frame r m fuel before l ∙ s.run);
    records = s.records ∙ append_assoc before.records (r ∷ []) (as' ++ s.read);
    intact = s.intact;
  }

  torn :
      (r : WalRecord) (bs : List WalRecord) (kept missing : List ℕ) (x fuel : ℕ)
      (before : WalReadResult)
      → Loggable grants r
      → frame r ≡ kept ++ x ∷ missing
      → 0 < fuel
      → 0 < length kept
      → Survived [] bs fuel kept before
  unfolding read_from
  torn r bs kept missing x zero before l e h some_left = absurd (omega (arith, h))
  torn r bs kept missing x (suc fuel) before l e h some_left = record {
    result = record before { truncated_tail = true };
    read = [];
    unread = bs;
    split = refl;
    run = ground (arith, read_one_torn grants r l kept x missing e some_left);
    records = sym (append-nil before.records);
    intact = refl;
  }

  -- The read records of a cut log continue with `r`.
  promote :
      (r : WalRecord) (bs : List WalRecord) (fuel : ℕ) (kept : List ℕ) (before : WalReadResult)
      → Survived (r ∷ []) bs fuel kept before
      → Survived [] (r ∷ bs) fuel kept before
  promote r bs fuel kept before s = record {
    result = s.result;
    read = r ∷ s.read;
    unread = s.unread;
    split = ap (λ rs. r ∷ rs) s.split;
    run = s.run;
    records = s.records;
    intact = s.intact;
  }

  survivors :
      (as' bs : List WalRecord)
      → All (Loggable grants) as'
      → All (Loggable grants) bs
      → (kept lost : List ℕ) (fuel : ℕ) (before : WalReadResult) → frames (as' ++ bs) ≡ kept ++ lost
      → length (frames as') ≤ length kept
      → length kept < fuel
      → Survived as' bs fuel kept before
  unfolding frames
  survivors [] [] la lb [] lost fuel before e reach enough =
      nothing_left [] lost fuel before [] refl enough
  survivors [] [] la lb (k ∷ kept) lost fuel before e reach enough = absurd cc
  survivors [] (r ∷ bs) la lb [] lost fuel before e reach enough =
      nothing_left [] lost fuel before (r ∷ bs) refl enough
  survivors [] (r ∷ bs) la lb (k ∷ kept) lost zero before e reach enough =
      absurd (omega (arith, enough))
  survivors [] (r ∷ bs) la lb (k ∷ kept) lost (suc fuel) before e reach enough =
      elim (append_cut (k ∷ kept) lost (frame r) (frames bs) (sym e)) [
        | inl (m, p, q) ↦ promote r bs (suc fuel) (k ∷ kept) before (
            after r [] bs (k ∷ kept) m fuel before lb.0 p (
              survivors [] bs tt lb.1 m lost fuel (push r before) (sym q) (omega arith) (
                omega (
                  arith,
                  enough,
                  ap length p,
                  length-append (frame r) m,
                  length-frame grants r lb.0,
                ))))
        | inr (y, m, p) ↦
            torn r (r ∷ bs) (k ∷ kept) m y (suc fuel) before lb.0 p (omega arith) (omega arith)
      ]
  survivors (r ∷ as') bs la lb kept lost zero before e reach enough = absurd (omega (arith, enough))
  survivors (r ∷ as') bs la lb kept lost (suc fuel) before e reach enough =
      elim (append_cut kept lost (frame r) (frames (as' ++ bs)) (sym e)) [
        | inl (m, p, q) ↦ after r as' bs kept m fuel before la.0 p (
            survivors as' bs la.1 lb m lost fuel (push r before) (sym q)
              (omega (
                arith,
                reach,
                ap length p,
                length-append (frame r) m,
                length-append (frame r) (frames as'),
              ))
              (omega (
                arith,
                enough,
                ap length p,
                length-append (frame r) m,
                length-frame grants r la.0,
              )))
        | inr (y, m, p) ↦ absurd (
            omega (
              arith,
              reach,
              ap length p,
              length-append kept (y ∷ m),
              length-append (frame r) (frames as'),
            ))
      ]

  -- Of a log of loggable records that is cut anywhere behind its first records, the reader gives
  -- these records and then some of the later ones, from the first on, and takes none for corrupt.
  pub read_all_cut :
      (as' bs : List WalRecord) (kept lost : List ℕ)
      → All (Loggable grants) as'
      → All (Loggable grants) bs
      → frames (as' ++ bs) ≡ kept ++ lost
      → length (frames as') ≤ length kept
      → (result : WalReadResult) × (read unread : List WalRecord) × (bs ≡ read ++ unread)
        × (read_all grants kept ≡ some result)
        × (result.records ≡ as' ++ read)
        × (result.corrupt_record ≡ false)
  unfolding read_all
  read_all_cut as' bs kept lost la lb e reach =
      let s = survivors as' bs la lb kept lost (length kept + 1) no_records e reach (omega arith) in
      (s.result, s.read, s.unread, s.split, s.run, s.records, s.intact)
