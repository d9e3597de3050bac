-- ===== src/Simd/Avx512.antt =====
-- src/simd/kernels_avx512.cpp. A register of 512 bits has eight lanes of a `int64_t`, and a
-- comparison gives a mask of eight bits.
use coredb.Prelude.{
  ℕ, suc, ◌+◌, ◌%◌, ◌<◌, ◌≡◌, refl, ap, sym, ◌∙◌, Bool, List, get_or, u64_mod, arith,
}
use coredb.Exec.{FilterSumResult, greater, filter_from, filter_gt_sum, sum_from}
use coredb.Simd.{total, one, masked}
use coredb.Simd.Lanes.{
  total-add, total-cong, sum_from-block, result, result_cong, matches, with_block,
  filter_from-block,
}

-- The intrinsics, under the names that follow `_mm512_` and `__builtin_`.
pub record Avx512 : Type 1 where
  pub M512i : Type 0
  pub Mmask8 : Type 0
  pub setzero_si512 : M512i
  pub set1_epi64 : ℕ → M512i
  pub loadu_si512 : List ℕ → ℕ → M512i
  pub add_epi64 : M512i → M512i → M512i
  pub cmpgt_epi64_mask : M512i → M512i → Mmask8
  pub maskz_mov_epi64 : Mmask8 → M512i → M512i
  pub reduce_add_epi64 : M512i → ℕ
  pub popcount : Mmask8 → ℕ

module _ (a : Avx512) where
  -- The loop of `Sum_Avx512` with `n` elements to go at index `i`, and what follows it.
  unfoldable pub sum_loop : List ℕ → ℕ → ℕ → a.M512i → ℕ
  sum_loop column i (suc (suc (suc (suc (suc (suc (suc (suc n)))))))) acc =
      sum_loop column (i + 8) n (a.add_epi64 acc (a.loadu_si512 column i))
  sum_loop column i n acc = sum_from column i n (a.reduce_add_epi64 acc)

  unfoldable pub sum_avx512 : List ℕ → ℕ → ℕ → ℕ
  unfolding sum_loop
  sum_avx512 column i n = sum_loop column i n a.setzero_si512

  -- The loop of `FilterGtSum_Avx512` in the same way.
  unfoldable pub filter_loop : List ℕ → List ℕ → ℕ → ℕ → ℕ → a.M512i → ℕ → FilterSumResult
  filter_loop pred out threshold i (suc (suc (suc (suc (suc (suc (suc (suc n)))))))) sum_acc
        matched =
      let mask = a.cmpgt_epi64_mask (a.loadu_si512 pred i) (a.set1_epi64 threshold) in
      filter_loop pred out threshold (i + 8) n
        (a.add_epi64 sum_acc (a.maskz_mov_epi64 mask (a.loadu_si512 out i)))
        ((matched + a.popcount mask) % u64_mod)
  filter_loop pred out threshold i n sum_acc matched =
      filter_from pred out threshold i n
        (record { matched_count = matched; sum = a.reduce_add_epi64 sum_acc })

  unfoldable pub filter_gt_sum_avx512 : List ℕ → List ℕ → ℕ → ℕ → ℕ → FilterSumResult
  unfolding filter_loop
  filter_gt_sum_avx512 pred out i n threshold = filter_loop pred out threshold i n a.setzero_si512 0

-- What the manual says of the lanes of a result and the bits of a mask.
pub record Lanes (a : Avx512) : Type 0 where
  pub lane : a.M512i → ℕ → ℕ
  pub bit : a.Mmask8 → ℕ → Bool
  pub setzero : (j : ℕ) → lane a.setzero_si512 j ≡ 0
  pub set1 : (x j : ℕ) → j < 8 → lane (a.set1_epi64 x) j ≡ x
  pub loadu : (xs : List ℕ) (i j : ℕ) → j < 8 → lane (a.loadu_si512 xs i) j ≡ get_or xs (i + j) 0
  pub add :
      (v w : a.M512i) (j : ℕ) → j < 8 → lane (a.add_epi64 v w) j ≡ (lane v j + lane w j) % u64_mod
  pub cmpgt :
      (v w : a.M512i) (j : ℕ)
      → j < 8
      → bit (a.cmpgt_epi64_mask v w) j ≡ greater (lane v j) (lane w j)
  pub maskz_mov :
      (m : a.Mmask8) (v : a.M512i) (j : ℕ)
      → j < 8
      → lane (a.maskz_mov_epi64 m v) j ≡ masked (bit m j) (lane v j)
  pub reduce_add : (v : a.M512i) → a.reduce_add_epi64 v ≡ total 8 (lane v) % u64_mod
  pub popcount : (m : a.Mmask8) → a.popcount m ≡ total 8 (λ j. one (bit m j))

module _ (a : Avx512) (l : Lanes a) where
  sum-lt : (v : a.M512i) → a.reduce_add_epi64 v < u64_mod
  sum-lt v = omega (arith, l.reduce_add v)

  no_sum : a.reduce_add_epi64 a.setzero_si512 ≡ 0
  no_sum =
      let zeros = total-cong 8 (l.lane a.setzero_si512) (λ j. 0) (λ j lt. l.setzero j) in
      omega (arith, l.reduce_add a.setzero_si512, zeros)

  -- Lanes that each take a term.
  add_lanes :
      (acc v : a.M512i) (term : ℕ → ℕ)
      → ((j : ℕ) → j < 8 → l.lane v j ≡ term j)
      → a.reduce_add_epi64 (a.add_epi64 acc v) ≡ (a.reduce_add_epi64 acc + total 8 term) % u64_mod
  add_lanes acc v term h =
      let lanes =
        total-add 8 (l.lane acc) (l.lane (a.add_epi64 acc v)) term
          (λ j lt. omega (arith, l.add acc v j lt, h j lt)) in
      l.reduce_add (a.add_epi64 acc v)
      ∙ lanes
      ∙ ap (λ s. (s + total 8 term) % u64_mod) (sym (l.reduce_add acc))

  sum_loop_lem :
      (column : List ℕ) (n i : ℕ) (acc : a.M512i)
      → sum_loop a column i n acc ≡ sum_from column i n (a.reduce_add_epi64 acc)
  unfolding sum_loop
  sum_loop_lem column (suc (suc (suc (suc (suc (suc (suc (suc n)))))))) i acc =
      sum_loop_lem column n (i + 8) (a.add_epi64 acc (a.loadu_si512 column i))
      ∙ ap (sum_from column (i + 8) n)
          (add_lanes acc (a.loadu_si512 column i) (λ j. get_or column (i + j) 0) (l.loadu column i))
      ∙ sym (sum_from-block column 8 i n (a.reduce_add_epi64 acc) (sum-lt acc))
      ∙ ap (λ k. sum_from column i k (a.reduce_add_epi64 acc)) (omega arith)
  sum_loop_lem column n i acc = refl

  -- sum
  pub sum_avx512-sum_from :
      (column : List ℕ) (i n : ℕ) → sum_avx512 a column i n ≡ sum_from column i n 0
  unfolding sum_avx512
  sum_avx512-sum_from column i n =
      sum_loop_lem column n i a.setzero_si512 ∙ ap (sum_from column i n) no_sum

  module _ (pred out : List ℕ) (threshold : ℕ) where
    abbrev mask : ℕ → a.Mmask8
    mask i = a.cmpgt_epi64_mask (a.loadu_si512 pred i) (a.set1_epi64 threshold)

    mask_bit : (i j : ℕ) → j < 8 → l.bit (mask i) j ≡ matches pred out threshold (i + j)
    mask_bit i j lt =
        l.cmpgt (a.loadu_si512 pred i) (a.set1_epi64 threshold) j lt
        ∙ rw (l.loadu pred i j lt, l.set1 threshold j lt) refl

    filter_block :
        (i : ℕ) (sum_acc : a.M512i) (matched : ℕ)
        → result ((matched + a.popcount (mask i)) % u64_mod) (
            a.reduce_add_epi64
              (a.add_epi64 sum_acc (a.maskz_mov_epi64 (mask i) (a.loadu_si512 out i))))
          ≡ with_block pred out threshold 8 i (result matched (a.reduce_add_epi64 sum_acc))
    filter_block i sum_acc matched =
        let counts =
          total-cong 8 (λ j. one (l.bit (mask i) j)) (λ j. one (matches pred out threshold (i + j)))
            (λ j lt. ap one (mask_bit i j lt)) in
        result_cong _ _ _ _ (ap (λ c. (matched + c) % u64_mod) (l.popcount (mask i) ∙ counts)) (
          add_lanes sum_acc (a.maskz_mov_epi64 (mask i) (a.loadu_si512 out i))
            (λ j. masked (matches pred out threshold (i + j)) (get_or out (i + j) 0))
            (λ j lt.
              l.maskz_mov (mask i) (a.loadu_si512 out i) j lt
              ∙ ap (λ b. masked b (l.lane (a.loadu_si512 out i) j)) (mask_bit i j lt)
              ∙ ap (masked (matches pred out threshold (i + j))) (l.loadu out i j lt)))

    filter_loop_lem :
        (n i : ℕ) (sum_acc : a.M512i) (matched : ℕ)
        → matched < u64_mod
        → filter_loop a pred out threshold i n sum_acc matched
          ≡ filter_from pred out threshold i n (result matched (a.reduce_add_epi64 sum_acc))
    unfolding filter_loop
    filter_loop_lem (suc (suc (suc (suc (suc (suc (suc (suc n)))))))) i sum_acc matched h =
        filter_loop_lem n (i + 8) _ _ (omega arith)
        ∙ ap (filter_from pred out threshold (i + 8) n) (filter_block i sum_acc matched)
        ∙ sym (
            filter_from-block pred out threshold 8 i n (result matched (a.reduce_add_epi64 sum_acc))
              (h, sum-lt sum_acc))
        ∙ ap (λ k. filter_from pred out threshold i k (result matched (a.reduce_add_epi64 sum_acc)))
            (omega arith)
    filter_loop_lem n i sum_acc matched h = refl

    -- filter
    pub filter_gt_sum_avx512-filter_gt_sum :
        (i n : ℕ)
        → filter_gt_sum_avx512 a pred out i n threshold ≡ filter_gt_sum pred out i n threshold
    unfolding filter_gt_sum_avx512 filter_gt_sum
    filter_gt_sum_avx512-filter_gt_sum i n =
        filter_loop_lem n i a.setzero_si512 0 (omega arith)
        ∙ ap (filter_from pred out threshold i n) (result_cong _ _ _ _ refl no_sum)
