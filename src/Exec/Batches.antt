-- ===== src/Exec/Batches.antt =====
-- The batches of src/exec/vectorized.cpp add up to one pass over the rows.
use coredb.Prelude.{
  ℕ, zero, suc, ◌+◌, ◌-◌, ◌%◌, ◌<◌, ◌≡◌, refl, sym, ap, ◌∙◌, Bool, true, false, List, some, ltb,
  if◌then◌else◌, get_or, inc64, u64_mod, arith, Bool-cases, inl, inr,
}
use coredb.Exec.{
  FilterSumResult, no_match, greater, filter_step, filter_from, filter_gt_sum, combine, run_batches,
}

-- Counts and sums that fit their words.
abbrev pub InRange : FilterSumResult → Type 0
InRange r = (r.matched_count < u64_mod) × (r.sum < u64_mod)

-- One more match, if there is one.
abbrev counted : Bool → ℕ → FilterSumResult → FilterSumResult
counted b x r =
    if b then record { sum = (r.sum + x) % u64_mod; matched_count = inc64 r.matched_count } else r

counted_lem :
    (b : Bool) (x : ℕ) (r s : FilterSumResult)
    → counted b x (combine r s) ≡ combine r (counted b x s)
counted_lem false x r s = refl
counted_lem true x r s =
    let count : ((r.matched_count + s.matched_count) % u64_mod + 1) % u64_mod
        ≡ (r.matched_count + (s.matched_count + 1) % u64_mod) % u64_mod =
      omega arith in
    let total : ((r.sum + s.sum) % u64_mod + x) % u64_mod
        ≡ (r.sum + (s.sum + x) % u64_mod) % u64_mod =
      omega arith in
    ground (arith, count, total)

counted-InRange : (b : Bool) (x : ℕ) (r : FilterSumResult) → InRange r → InRange (counted b x r)
counted-InRange false x r h = h
counted-InRange true x r h = (omega arith, omega arith)

module _ (pred agg : List ℕ) (threshold : ℕ) where
  filter_step-combine :
      (i : ℕ) (r s : FilterSumResult)
      → filter_step pred agg threshold i (combine r s)
        ≡ combine r (filter_step pred agg threshold i s)
  filter_step-combine i r s = counted_lem (greater (get_or pred i 0) threshold) (get_or agg i 0) r s

  filter_from-combine :
      (i n : ℕ) (r s : FilterSumResult)
      → filter_from pred agg threshold i n (combine r s)
        ≡ combine r (filter_from pred agg threshold i n s)
  unfolding filter_from
  filter_from-combine i zero r s = refl
  filter_from-combine i (suc n) r s =
      ap (filter_from pred agg threshold (i + 1) n) (filter_step-combine i r s)
      ∙ filter_from-combine (i + 1) n r (filter_step pred agg threshold i s)

  pub filter_step-InRange :
      (i : ℕ) (r : FilterSumResult) → InRange r → InRange (filter_step pred agg threshold i r)
  filter_step-InRange i r h =
      counted-InRange (greater (get_or pred i 0) threshold) (get_or agg i 0) r h

  pub filter_from-InRange :
      (i n : ℕ) (r : FilterSumResult) → InRange r → InRange (filter_from pred agg threshold i n r)
  unfolding filter_from
  filter_from-InRange i zero r h = h
  filter_from-InRange i (suc n) r h =
      filter_from-InRange (i + 1) n (filter_step pred agg threshold i r) (filter_step-InRange i r h)

  pub filter_from_add :
      (i a b : ℕ) (r : FilterSumResult)
      → filter_from pred agg threshold i (a + b) r
        ≡ filter_from pred agg threshold (i + a) b (filter_from pred agg threshold i a r)
  unfolding filter_from
  filter_from_add i zero b r =
      let e : i + 0 ≡ i = omega arith in let z : 0 + b ≡ b = omega arith in rw (e, z) refl
  filter_from_add i (suc a) b r =
      let e : i + 1 + a ≡ i + suc a = omega arith in
      let n : suc a + b ≡ suc (a + b) = omega arith in
      ap (λ n. filter_from pred agg threshold i n r) n
      ∙ filter_from_add (i + 1) a b (filter_step pred agg threshold i r)
      ∙ ap
          (λ j.
            filter_from pred agg threshold j b
              (filter_from pred agg threshold (i + 1) a (filter_step pred agg threshold i r)))
          e

  -- A batch added to a result is a pass that goes on from it.
  pub batch_lem :
      (offset count : ℕ) (r : FilterSumResult)
      → InRange r
      → combine r (filter_gt_sum pred agg offset count threshold)
        ≡ filter_from pred agg threshold offset count r
  unfolding filter_gt_sum
  batch_lem offset count r h =
      let same : combine r no_match ≡ r = ground (arith, h) in
      sym (filter_from-combine offset count r no_match)
      ∙ ap (filter_from pred agg threshold offset count) same

  module _ (num_rows batch_size : ℕ) (some_rows : 0 < batch_size) where
    abbrev Adds : ℕ → Type 0
    Adds fuel =
        (offset : ℕ) (r : FilterSumResult)
        → InRange r
        → 0 < fuel
        → num_rows < offset + fuel
        → run_batches pred agg threshold num_rows batch_size fuel offset r
          ≡ some (filter_from pred agg threshold offset (num_rows - offset) r)

    one_batch :
        (fuel offset count : ℕ) (r : FilterSumResult)
        → InRange r
        → num_rows < offset + suc fuel
        → offset < num_rows
        → Adds fuel
        → run_batches pred agg threshold num_rows batch_size fuel
            (offset + batch_size)
            (combine r (filter_gt_sum pred agg offset count threshold))
          ≡ some (
              filter_from pred agg threshold
                (offset + batch_size)
                (num_rows - (offset + batch_size))
                (filter_from pred agg threshold offset count r))
    one_batch fuel offset count r h enough inside ih =
        ap (run_batches pred agg threshold num_rows batch_size fuel (offset + batch_size))
          (batch_lem offset count r h)
        ∙ ih (offset + batch_size) (filter_from pred agg threshold offset count r)
            (filter_from-InRange offset count r h) (omega (arith, enough, inside))
            (omega (arith, enough, inside, some_rows))

    next_batch :
        (fuel offset : ℕ) (r : FilterSumResult)
        → InRange r
        → num_rows < offset + suc fuel
        → Adds fuel
        → run_batches pred agg threshold num_rows batch_size (suc fuel) offset r
          ≡ some (filter_from pred agg threshold offset (num_rows - offset) r)
    unfolding run_batches filter_from
    next_batch fuel offset r h enough ih = elim (Bool-cases (ltb offset num_rows)) [
      | inr e ↦ let none_left : num_rows - offset ≡ 0 = ground (arith, e) in rw (e, none_left) refl
      | inl e ↦
          let inside : offset < num_rows = ground (arith, e) in
          elim (Bool-cases (ltb (num_rows - offset) batch_size)) [
            | inl last ↦
                let after : num_rows - (offset + batch_size) ≡ 0 = ground (arith, last) in
                rw (e, last)
                  (one_batch fuel offset (num_rows - offset) r h enough inside ih ∙ rw after refl)
            | inr full ↦
                let split : batch_size + (num_rows - (offset + batch_size)) ≡ num_rows - offset =
                  ground (arith, full, inside) in
                rw (e, full)
                  (one_batch fuel offset batch_size r h enough inside ih
                    ∙ ap some (
                        sym (filter_from_add offset batch_size (num_rows - (offset + batch_size)) r)
                        ∙ ap (λ n. filter_from pred agg threshold offset n r) split))
          ]
    ]

    pub run_batches_lem :
        (fuel offset : ℕ) (r : FilterSumResult)
        → InRange r
        → 0 < fuel
        → num_rows < offset + fuel
        → run_batches pred agg threshold num_rows batch_size fuel offset r
          ≡ some (filter_from pred agg threshold offset (num_rows - offset) r)
    unfolding run_batches
    run_batches_lem zero offset r h some_fuel enough = absurd (omega (arith, some_fuel))
    run_batches_lem (suc fuel) offset r h some_fuel enough =
        next_batch fuel offset r h enough (run_batches_lem fuel)
