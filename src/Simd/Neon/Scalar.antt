-- ===== src/Simd/Neon/Scalar.antt =====
-- The kernels of src/simd/kernels_neon.cpp give what the scalar ones give.
use coredb.Prelude.{
  ℕ, zero, suc, ◌+◌, ◌%◌, ◌<◌, ◌≡◌, refl, ap, sym, ◌∙◌, List, if◌then◌else◌, get_or, u64_mod, arith,
}
use coredb.Exec.{FilterSumResult, filter_from, filter_gt_sum, sum_from}
use coredb.Simd.{total, one, masked}
use coredb.Simd.Lanes.{
  total-add, total-cong, sum_from-block, result, result_cong, matches, with_block, all_ones,
  select_lane, count_lane, filter_from-block,
}
use coredb.Simd.Neon.{Neon, Lanes, sum_loop, sum_neon, filter_loop, filter_gt_sum_neon}

module _ (a : Neon) (l : Lanes a) where
  sum-lt : (v : a.Int64x2) → a.vaddvq_s64 v < u64_mod
  sum-lt v = omega (arith, l.addv v)

  no_sum : a.vaddvq_s64 (a.vdupq_n_s64 0) ≡ 0
  no_sum = omega (arith, l.addv (a.vdupq_n_s64 0), l.dup 0 0 (omega arith), l.dup 0 1 (omega arith))

  -- The sum of both accumulators.
  abbrev both : a.Int64x2 → a.Int64x2 → ℕ
  both acc0 acc1 = a.vaddvq_s64 (a.vaddq_s64 acc0 acc1)

  both-total :
      (acc0 acc1 : a.Int64x2)
      → both acc0 acc1 ≡ (total 2 (l.lane acc0) + total 2 (l.lane acc1)) % u64_mod
  both-total acc0 acc1 = omega (
    arith,
    l.addv (a.vaddq_s64 acc0 acc1),
    l.add acc0 acc1 0 (omega arith),
    l.add acc0 acc1 1 (omega arith),
  )

  add_lanes :
      (acc v : a.Int64x2) (term : ℕ → ℕ)
      → ((j : ℕ) → j < 2 → l.lane v j ≡ term j)
      → total 2 (l.lane (a.vaddq_s64 acc v)) % u64_mod
        ≡ (total 2 (l.lane acc) % u64_mod + total 2 term) % u64_mod
  add_lanes acc v term h =
      total-add 2 (l.lane acc) (l.lane (a.vaddq_s64 acc v)) term
        (λ j lt. omega (arith, l.add acc v j lt, h j lt))

  sum_block :
      (column : List ℕ) (i : ℕ) (acc0 acc1 : a.Int64x2)
      → both
          (a.vaddq_s64 acc0 (a.vld1q_s64 column i))
          (a.vaddq_s64 acc1 (a.vld1q_s64 column (i + 2)))
        ≡ (both acc0 acc1 + total 4 (λ j. get_or column (i + j) 0)) % u64_mod
  sum_block column i acc0 acc1 =
      let first =
        add_lanes acc0 (a.vld1q_s64 column i) (λ j. get_or column (i + j) 0) (l.ld1 column i) in
      let second =
        add_lanes acc1 (a.vld1q_s64 column (i + 2)) (λ j. get_or column (i + 2 + j) 0)
          (l.ld1 column (i + 2)) in
      let shift =
        total-cong 2 (λ j. get_or column (i + 2 + j) 0) (λ j. get_or column (i + suc (suc j)) 0)
          (λ j lt. ap (λ k. get_or column k 0) (omega arith)) in
      omega (
        arith,
        first,
        second,
        shift,
        both-total acc0 acc1,
        both-total (a.vaddq_s64 acc0 (a.vld1q_s64 column i))
            (a.vaddq_s64 acc1 (a.vld1q_s64 column (i + 2))),
      )

  sum_loop_lem :
      (column : List ℕ) (n i : ℕ) (acc0 acc1 : a.Int64x2)
      → sum_loop a column i n acc0 acc1 ≡ sum_from column i n (both acc0 acc1)
  unfolding sum_loop
  sum_loop_lem column (suc (suc (suc (suc n)))) i acc0 acc1 =
      sum_loop_lem column n (i + 4) _ _
      ∙ ap (sum_from column (i + 4) n) (sum_block column i acc0 acc1)
      ∙ sym (sum_from-block column 4 i n (both acc0 acc1) (sum-lt (a.vaddq_s64 acc0 acc1)))
      ∙ ap (λ k. sum_from column i k (both acc0 acc1)) (omega arith)
  sum_loop_lem column n i acc0 acc1 = refl

  -- sum
  pub sum_neon-sum_from :
      (column : List ℕ) (i n : ℕ) → sum_neon a column i n ≡ sum_from column i n 0
  unfolding sum_neon
  sum_neon-sum_from column i n =
      let none_yet : both (a.vdupq_n_s64 0) (a.vdupq_n_s64 0) ≡ 0 = omega (
        arith,
        both-total (a.vdupq_n_s64 0) (a.vdupq_n_s64 0),
        l.dup 0 0 (omega arith),
        l.dup 0 1 (omega arith),
      ) in
      sum_loop_lem column n i (a.vdupq_n_s64 0) (a.vdupq_n_s64 0)
      ∙ ap (sum_from column i n) none_yet

  module _ (pred out : List ℕ) (threshold : ℕ) where
    abbrev mask : ℕ → a.Int64x2
    mask i = a.vreinterpretq_s64_u64 (a.vcgtq_s64 (a.vld1q_s64 pred i) (a.vdupq_n_s64 threshold))

    mask_lane :
        (i j : ℕ)
        → j < 2
        → l.lane (mask i) j ≡ (if matches pred out threshold (i + j) then all_ones else 0)
    mask_lane i j lt =
        l.cgt (a.vld1q_s64 pred i) (a.vdupq_n_s64 threshold) j lt
        ∙ rw (l.ld1 pred i j lt, l.dup threshold j lt) refl

    masked_lane :
        (i j : ℕ)
        → j < 2
        → l.lane (a.vandq_s64 (mask i) (a.vld1q_s64 out i)) j
          ≡ masked (matches pred out threshold (i + j)) (get_or out (i + j) 0)
    masked_lane i j lt =
        select_lane (matches pred out threshold (i + j)) (l.lane (mask i) j) (get_or out (i + j) 0)
          _ (mask_lane i j lt)
          (λ e. l.and_ones (mask i) (a.vld1q_s64 out i) j lt e ∙ l.ld1 out i j lt)
          (l.and_zeros (mask i) (a.vld1q_s64 out i) j lt)

    -- What the accumulators stand for.
    abbrev summed : a.Int64x2 → a.Int64x2 → FilterSumResult
    summed sum_acc count_acc = result (a.vaddvq_s64 count_acc) (a.vaddvq_s64 sum_acc)

    filter_block :
        (i : ℕ) (sum_acc count_acc : a.Int64x2)
        → summed
            (a.vaddq_s64 sum_acc (a.vandq_s64 (mask i) (a.vld1q_s64 out i)))
            (a.vsubq_s64 count_acc (mask i))
          ≡ with_block pred out threshold 2 i (summed sum_acc count_acc)
    filter_block i sum_acc count_acc =
        let taken = a.vandq_s64 (mask i) (a.vld1q_s64 out i) in
        let sums =
          add_lanes sum_acc taken
            (λ j. masked (matches pred out threshold (i + j)) (get_or out (i + j) 0))
            (masked_lane i) in
        let counts =
          total-add 2 (l.lane count_acc) (l.lane (a.vsubq_s64 count_acc (mask i)))
            (λ j. one (matches pred out threshold (i + j)))
            (λ j lt.
              count_lane (matches pred out threshold (i + j)) (l.lane (mask i) j)
                (l.lane count_acc j) _ (mask_lane i j lt) (l.sub count_acc (mask i) j lt)) in
        result_cong _ _ _ _
          (omega (arith, l.addv (a.vsubq_s64 count_acc (mask i)), l.addv count_acc, counts))
          (omega (arith, l.addv (a.vaddq_s64 sum_acc taken), l.addv sum_acc, sums))

    filter_loop_lem :
        (n i : ℕ) (sum_acc count_acc : a.Int64x2)
        → filter_loop a pred out threshold i n sum_acc count_acc
          ≡ filter_from pred out threshold i n (summed sum_acc count_acc)
    unfolding filter_loop
    filter_loop_lem zero i sum_acc count_acc = refl
    filter_loop_lem (suc zero) i sum_acc count_acc = refl
    filter_loop_lem (suc (suc n)) i sum_acc count_acc =
        filter_loop_lem n (i + 2) _ _
        ∙ ap (filter_from pred out threshold (i + 2) n) (filter_block i sum_acc count_acc)
        ∙ sym (
            filter_from-block pred out threshold 2 i n (summed sum_acc count_acc)
              (sum-lt count_acc, sum-lt sum_acc))
        ∙ ap (λ k. filter_from pred out threshold i k (summed sum_acc count_acc)) (omega arith)

    -- filter
    pub filter_gt_sum_neon-filter_gt_sum :
        (i n : ℕ)
        → filter_gt_sum_neon a pred out i n threshold ≡ filter_gt_sum pred out i n threshold
    unfolding filter_gt_sum_neon filter_gt_sum
    filter_gt_sum_neon-filter_gt_sum i n =
        filter_loop_lem n i (a.vdupq_n_s64 0) (a.vdupq_n_s64 0)
        ∙ ap (filter_from pred out threshold i n) (result_cong _ _ _ _ no_sum no_sum)
