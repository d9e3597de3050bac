-- ===== src/Simd/Avx2/Scalar.antt =====
-- The kernels of src/simd/kernels_avx2.cpp give what the scalar ones give.
use coredb.Prelude.{
  ℕ, zero, suc, ◌+◌, ◌%◌, ◌<◌, ◌≡◌, refl, ap, sym, ◌∙◌, List, if◌then◌else◌, get_or, u64_mod, arith,
}
use coredb.Exec.{FilterSumResult, filter_from, filter_gt_sum, sum_from}
use coredb.Simd.{total, one, masked}
use coredb.Simd.Lanes.{
  total-add, sum_from-block, result, result_cong, matches, with_block, all_ones, select_lane,
  count_lane, filter_from-block,
}
use coredb.Simd.Avx2.{
  Avx2, Lanes, horizontal_sum, sum_loop, sum_avx2, filter_loop, filter_gt_sum_avx2,
}

module _ (a : Avx2) (l : Lanes a) where
  horizontal_sum-total : (v : a.M256i) → horizontal_sum a v ≡ total 4 (l.lane v) % u64_mod
  unfolding horizontal_sum
  horizontal_sum-total v =
      let low = a.castsi256_si128 v in
      let high = a.extracti128_si256 v 1 in
      omega (
        arith,
        l.cvtsi128 (a.add_epi64_128 low high),
        l.extract (a.add_epi64_128 low high) 1 (omega arith),
        l.add128 low high 0 (omega arith),
        l.add128 low high 1 (omega arith),
        l.castsi256 v 0 (omega arith),
        l.castsi256 v 1 (omega arith),
        l.extracti128 v 0 (omega arith),
        l.extracti128 v 1 (omega arith),
      )

  -- A block adds the sum of its elements.
  sum_block :
      (column : List ℕ) (i : ℕ) (acc : a.M256i)
      → horizontal_sum a (a.add_epi64 acc (a.loadu_si256 column i))
        ≡ (horizontal_sum a acc + total 4 (λ j. get_or column (i + j) 0)) % u64_mod
  sum_block column i acc =
      let after = a.add_epi64 acc (a.loadu_si256 column i) in
      let lanes =
        total-add 4 (l.lane acc) (l.lane after) (λ j. get_or column (i + j) 0)
          (λ j lt. omega (arith, l.add acc (a.loadu_si256 column i) j lt, l.loadu column i j lt)) in
      omega (arith, horizontal_sum-total after, horizontal_sum-total acc, lanes)

  sum-lt : (v : a.M256i) → horizontal_sum a v < u64_mod
  sum-lt v = omega (arith, horizontal_sum-total v)

  no_sum : horizontal_sum a a.setzero_si256 ≡ 0
  no_sum = omega (
    arith,
    horizontal_sum-total a.setzero_si256,
    l.setzero 0,
    l.setzero 1,
    l.setzero 2,
    l.setzero 3,
  )

  sum_loop_lem :
      (column : List ℕ) (n i : ℕ) (acc : a.M256i)
      → sum_loop a column i n acc ≡ sum_from column i n (horizontal_sum a acc)
  unfolding sum_loop
  sum_loop_lem column zero i acc = refl
  sum_loop_lem column (suc zero) i acc = refl
  sum_loop_lem column (suc (suc zero)) i acc = refl
  sum_loop_lem column (suc (suc (suc zero))) i acc = refl
  sum_loop_lem column (suc (suc (suc (suc n)))) i acc =
      sum_loop_lem column n (i + 4) (a.add_epi64 acc (a.loadu_si256 column i))
      ∙ ap (sum_from column (i + 4) n) (sum_block column i acc)
      ∙ sym (sum_from-block column 4 i n (horizontal_sum a acc) (sum-lt acc))
      ∙ ap (λ k. sum_from column i k (horizontal_sum a acc)) (omega arith)

  -- sum
  pub sum_avx2-sum_from :
      (column : List ℕ) (i n : ℕ) → sum_avx2 a column i n ≡ sum_from column i n 0
  unfolding sum_avx2
  sum_avx2-sum_from column i n =
      sum_loop_lem column n i a.setzero_si256 ∙ ap (sum_from column i n) no_sum

  module _ (pred out : List ℕ) (threshold : ℕ) where
    abbrev mask : ℕ → a.M256i
    mask i = a.cmpgt_epi64 (a.loadu_si256 pred i) (a.set1_epi64x threshold)

    mask_lane :
        (i j : ℕ)
        → j < 4
        → l.lane (mask i) j ≡ (if matches pred out threshold (i + j) then all_ones else 0)
    mask_lane i j lt =
        l.cmpgt (a.loadu_si256 pred i) (a.set1_epi64x threshold) j lt
        ∙ rw (l.loadu pred i j lt, l.set1 threshold j lt) refl

    masked_lane :
        (i j : ℕ)
        → j < 4
        → l.lane (a.and_si256 (mask i) (a.loadu_si256 out i)) j
          ≡ masked (matches pred out threshold (i + j)) (get_or out (i + j) 0)
    masked_lane i j lt =
        select_lane (matches pred out threshold (i + j)) (l.lane (mask i) j) (get_or out (i + j) 0)
          _ (mask_lane i j lt)
          (λ e. l.and_ones (mask i) (a.loadu_si256 out i) j lt e ∙ l.loadu out i j lt)
          (l.and_zeros (mask i) (a.loadu_si256 out i) j lt)

    counted_lane :
        (i j : ℕ) (count_acc : a.M256i)
        → j < 4
        → l.lane (a.sub_epi64 count_acc (mask i)) j
          ≡ (l.lane count_acc j + one (matches pred out threshold (i + j))) % u64_mod
    counted_lane i j count_acc lt =
        count_lane (matches pred out threshold (i + j)) (l.lane (mask i) j) (l.lane count_acc j) _
          (mask_lane i j lt) (l.sub count_acc (mask i) j lt)

    -- What the accumulators stand for.
    abbrev summed : a.M256i → a.M256i → FilterSumResult
    summed sum_acc count_acc = result (horizontal_sum a count_acc) (horizontal_sum a sum_acc)

    filter_block :
        (i : ℕ) (sum_acc count_acc : a.M256i)
        → summed
            (a.add_epi64 sum_acc (a.and_si256 (mask i) (a.loadu_si256 out i)))
            (a.sub_epi64 count_acc (mask i))
          ≡ with_block pred out threshold 4 i (summed sum_acc count_acc)
    filter_block i sum_acc count_acc =
        let taken = a.and_si256 (mask i) (a.loadu_si256 out i) in
        let sums =
          total-add 4 (l.lane sum_acc) (l.lane (a.add_epi64 sum_acc taken))
            (λ j. masked (matches pred out threshold (i + j)) (get_or out (i + j) 0))
            (λ j lt. omega (arith, l.add sum_acc taken j lt, masked_lane i j lt)) in
        let counts =
          total-add 4 (l.lane count_acc) (l.lane (a.sub_epi64 count_acc (mask i)))
            (λ j. one (matches pred out threshold (i + j)))
            (λ j lt. counted_lane i j count_acc lt) in
        result_cong _ _ _ _
          (omega (
            arith,
            horizontal_sum-total (a.sub_epi64 count_acc (mask i)),
            horizontal_sum-total count_acc,
            counts,
          ))
          (omega (
            arith,
            horizontal_sum-total (a.add_epi64 sum_acc taken),
            horizontal_sum-total sum_acc,
            sums,
          ))

    filter_loop_lem :
        (n i : ℕ) (sum_acc count_acc : a.M256i)
        → filter_loop a pred out threshold i n sum_acc count_acc
          ≡ filter_from pred out threshold i n (summed sum_acc count_acc)
    unfolding filter_loop
    filter_loop_lem zero i sum_acc count_acc = refl
    filter_loop_lem (suc zero) i sum_acc count_acc = refl
    filter_loop_lem (suc (suc zero)) i sum_acc count_acc = refl
    filter_loop_lem (suc (suc (suc zero))) i sum_acc count_acc = refl
    filter_loop_lem (suc (suc (suc (suc n)))) i sum_acc count_acc =
        filter_loop_lem n (i + 4) _ _
        ∙ ap (filter_from pred out threshold (i + 4) n) (filter_block i sum_acc count_acc)
        ∙ sym (
            filter_from-block pred out threshold 4 i n (summed sum_acc count_acc)
              (sum-lt count_acc, sum-lt sum_acc))
        ∙ ap (λ k. filter_from pred out threshold i k (summed sum_acc count_acc)) (omega arith)

    -- filter
    pub filter_gt_sum_avx2-filter_gt_sum :
        (i n : ℕ)
        → filter_gt_sum_avx2 a pred out i n threshold ≡ filter_gt_sum pred out i n threshold
    unfolding filter_gt_sum_avx2 filter_gt_sum
    filter_gt_sum_avx2-filter_gt_sum i n =
        filter_loop_lem n i a.setzero_si256 a.setzero_si256
        ∙ ap (filter_from pred out threshold i n) (result_cong _ _ _ _ no_sum no_sum)
