-- ===== src/Simd/Avx2.antt =====
-- src/simd/kernels_avx2.cpp. A register of 256 bits has four lanes of a `int64_t`.
pub mod Scalar
use coredb.Prelude.{
  ℕ, zero, suc, ◌+◌, ◌-◌, ◌%◌, ◌<◌, ◌≡◌, refl, ap, sym, ◌∙◌, List, if◌then◌else◌, get_or, u64_mod,
  arith,
}
use coredb.Exec.{FilterSumResult, greater, filter_from, filter_gt_sum, sum_from}
use coredb.Simd.{total, one, masked}
use coredb.Simd.Lanes.{
  total-add, sum_from-block, result, result_cong, matches, with_block, all_ones, select_lane,
  count_lane, filter_from-block,
}

-- The intrinsics, under the names that follow `_mm256_` and `_mm_`.
pub record Avx2 : Type 1 where
  pub M256i : Type 0
  pub M128i : Type 0
  pub setzero_si256 : M256i
  pub set1_epi64x : ℕ → M256i
  pub loadu_si256 : List ℕ → ℕ → M256i
  pub add_epi64 : M256i → M256i → M256i
  pub sub_epi64 : M256i → M256i → M256i
  pub and_si256 : M256i → M256i → M256i
  pub cmpgt_epi64 : M256i → M256i → M256i
  pub castsi256_si128 : M256i → M128i
  pub extracti128_si256 : M256i → ℕ → M128i
  pub add_epi64_128 : M128i → M128i → M128i
  pub cvtsi128_si64 : M128i → ℕ
  pub extract_epi64 : M128i → ℕ → ℕ

module _ (a : Avx2) where
  unfoldable pub horizontal_sum : a.M256i → ℕ
  horizontal_sum v =
      let sum128 = a.add_epi64_128 (a.castsi256_si128 v) (a.extracti128_si256 v 1) in
      (a.cvtsi128_si64 sum128 + a.extract_epi64 sum128 1) % u64_mod

  -- The loop of `Sum_Avx2` with `n` elements to go at index `i`, and what follows it.
  unfoldable pub sum_loop : List ℕ → ℕ → ℕ → a.M256i → ℕ
  unfolding horizontal_sum
  sum_loop column i (suc (suc (suc (suc n)))) acc =
      sum_loop column (i + 4) n (a.add_epi64 acc (a.loadu_si256 column i))
  sum_loop column i n acc = sum_from column i n (horizontal_sum acc)

  unfoldable pub sum_avx2 : List ℕ → ℕ → ℕ → ℕ
  unfolding sum_loop
  sum_avx2 column i n = sum_loop column i n a.setzero_si256

  -- The loop of `FilterGtSum_Avx2` in the same way.
  unfoldable pub filter_loop : List ℕ → List ℕ → ℕ → ℕ → ℕ → a.M256i → a.M256i → FilterSumResult
  unfolding horizontal_sum
  filter_loop pred out threshold i (suc (suc (suc (suc n)))) sum_acc count_acc =
      let mask = a.cmpgt_epi64 (a.loadu_si256 pred i) (a.set1_epi64x threshold) in
      filter_loop pred out threshold (i + 4) n
        (a.add_epi64 sum_acc (a.and_si256 mask (a.loadu_si256 out i))) (a.sub_epi64 count_acc mask)
  filter_loop pred out threshold i n sum_acc count_acc =
      filter_from pred out threshold i n
        (record { matched_count = horizontal_sum count_acc; sum = horizontal_sum sum_acc })

  unfoldable pub filter_gt_sum_avx2 : List ℕ → List ℕ → ℕ → ℕ → ℕ → FilterSumResult
  unfolding filter_loop
  filter_gt_sum_avx2 pred out i n threshold =
      filter_loop pred out threshold i n a.setzero_si256 a.setzero_si256

-- What the manual says of the lanes of a result.
pub record Lanes (a : Avx2) : Type 0 where
  pub lane : a.M256i → ℕ → ℕ
  pub lane128 : a.M128i → ℕ → ℕ
  pub setzero : (j : ℕ) → lane a.setzero_si256 j ≡ 0
  pub set1 : (x j : ℕ) → j < 4 → lane (a.set1_epi64x x) j ≡ x
  pub loadu : (xs : List ℕ) (i j : ℕ) → j < 4 → lane (a.loadu_si256 xs i) j ≡ get_or xs (i + j) 0
  pub add :
      (v w : a.M256i) (j : ℕ) → j < 4 → lane (a.add_epi64 v w) j ≡ (lane v j + lane w j) % u64_mod
  pub sub :
      (v w : a.M256i) (j : ℕ)
      → j < 4
      → lane w j < u64_mod
      → lane (a.sub_epi64 v w) j ≡ (lane v j + (u64_mod - lane w j)) % u64_mod
  pub and_ones :
      (v w : a.M256i) (j : ℕ) → j < 4 → lane v j ≡ all_ones → lane (a.and_si256 v w) j ≡ lane w j
  pub and_zeros : (v w : a.M256i) (j : ℕ) → j < 4 → lane v j ≡ 0 → lane (a.and_si256 v w) j ≡ 0
  pub cmpgt :
      (v w : a.M256i) (j : ℕ)
      → j < 4
      → lane (a.cmpgt_epi64 v w) j ≡ (if greater (lane v j) (lane w j) then all_ones else 0)
  pub castsi256 : (v : a.M256i) (j : ℕ) → j < 2 → lane128 (a.castsi256_si128 v) j ≡ lane v j
  pub extracti128 :
      (v : a.M256i) (j : ℕ) → j < 2 → lane128 (a.extracti128_si256 v 1) j ≡ lane v (2 + j)
  pub add128 :
      (v w : a.M128i) (j : ℕ)
      → j < 2
      → lane128 (a.add_epi64_128 v w) j ≡ (lane128 v j + lane128 w j) % u64_mod
  pub cvtsi128 : (v : a.M128i) → a.cvtsi128_si64 v ≡ lane128 v 0
  pub extract : (v : a.M128i) (j : ℕ) → j < 2 → a.extract_epi64 v j ≡ lane128 v j
