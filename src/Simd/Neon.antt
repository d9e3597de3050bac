-- ===== src/Simd/Neon.antt =====
-- src/simd/kernels_neon.cpp. A register has two lanes of a `int64_t`.
pub mod Scalar
use coredb.Prelude.{
  ℕ, zero, suc, ◌+◌, ◌-◌, ◌%◌, ◌<◌, ◌≡◌, refl, ap, sym, ◌∙◌, List, if◌then◌else◌, get_or, u64_mod,
  arith,
}
use coredb.Exec.{FilterSumResult, greater, filter_from, filter_gt_sum, sum_from}
use coredb.Simd.{total, one, masked}
use coredb.Simd.Lanes.{
  total-add, total-cong, sum_from-block, result, result_cong, matches, with_block, all_ones,
  select_lane, count_lane, filter_from-block,
}

-- The intrinsics; `vcgtq_s64` gives an unsigned register, which `vreinterpretq_s64_u64` reads as a
-- signed one.
pub record Neon : Type 1 where
  pub Int64x2 : Type 0
  pub Uint64x2 : Type 0
  pub vdupq_n_s64 : ℕ → Int64x2
  pub vld1q_s64 : List ℕ → ℕ → Int64x2
  pub vaddq_s64 : Int64x2 → Int64x2 → Int64x2
  pub vsubq_s64 : Int64x2 → Int64x2 → Int64x2
  pub vandq_s64 : Int64x2 → Int64x2 → Int64x2
  pub vcgtq_s64 : Int64x2 → Int64x2 → Uint64x2
  pub vreinterpretq_s64_u64 : Uint64x2 → Int64x2
  pub vaddvq_s64 : Int64x2 → ℕ

module _ (a : Neon) where
  -- The loop of `Sum_Neon` with `n` elements to go at index `i`, and what follows it.
  unfoldable pub sum_loop : List ℕ → ℕ → ℕ → a.Int64x2 → a.Int64x2 → ℕ
  sum_loop column i (suc (suc (suc (suc n)))) acc0 acc1 =
      sum_loop column (i + 4) n (a.vaddq_s64 acc0 (a.vld1q_s64 column i))
        (a.vaddq_s64 acc1 (a.vld1q_s64 column (i + 2)))
  sum_loop column i n acc0 acc1 = sum_from column i n (a.vaddvq_s64 (a.vaddq_s64 acc0 acc1))

  unfoldable pub sum_neon : List ℕ → ℕ → ℕ → ℕ
  unfolding sum_loop
  sum_neon column i n = sum_loop column i n (a.vdupq_n_s64 0) (a.vdupq_n_s64 0)

  -- The loop of `FilterGtSum_Neon` in the same way.
  unfoldable pub filter_loop : List ℕ → List ℕ → ℕ → ℕ → ℕ → a.Int64x2 → a.Int64x2 → FilterSumResult
  filter_loop pred out threshold i (suc (suc n)) sum_acc count_acc =
      let mask =
        a.vreinterpretq_s64_u64 (a.vcgtq_s64 (a.vld1q_s64 pred i) (a.vdupq_n_s64 threshold)) in
      filter_loop pred out threshold (i + 2) n
        (a.vaddq_s64 sum_acc (a.vandq_s64 mask (a.vld1q_s64 out i))) (a.vsubq_s64 count_acc mask)
  filter_loop pred out threshold i n sum_acc count_acc =
      filter_from pred out threshold i n
        (record { matched_count = a.vaddvq_s64 count_acc; sum = a.vaddvq_s64 sum_acc })

  unfoldable pub filter_gt_sum_neon : List ℕ → List ℕ → ℕ → ℕ → ℕ → FilterSumResult
  unfolding filter_loop
  filter_gt_sum_neon pred out i n threshold =
      filter_loop pred out threshold i n (a.vdupq_n_s64 0) (a.vdupq_n_s64 0)

-- What the manual says of the lanes of a result.
pub record Lanes (a : Neon) : Type 0 where
  pub lane : a.Int64x2 → ℕ → ℕ
  pub dup : (x j : ℕ) → j < 2 → lane (a.vdupq_n_s64 x) j ≡ x
  pub ld1 : (xs : List ℕ) (i j : ℕ) → j < 2 → lane (a.vld1q_s64 xs i) j ≡ get_or xs (i + j) 0
  pub add :
      (v w : a.Int64x2) (j : ℕ) → j < 2 → lane (a.vaddq_s64 v w) j ≡ (lane v j + lane w j) % u64_mod
  pub sub :
      (v w : a.Int64x2) (j : ℕ)
      → j < 2
      → lane w j < u64_mod
      → lane (a.vsubq_s64 v w) j ≡ (lane v j + (u64_mod - lane w j)) % u64_mod
  pub and_ones :
      (v w : a.Int64x2) (j : ℕ) → j < 2 → lane v j ≡ all_ones → lane (a.vandq_s64 v w) j ≡ lane w j
  pub and_zeros : (v w : a.Int64x2) (j : ℕ) → j < 2 → lane v j ≡ 0 → lane (a.vandq_s64 v w) j ≡ 0
  pub cgt :
      (v w : a.Int64x2) (j : ℕ)
      → j < 2
      → lane (a.vreinterpretq_s64_u64 (a.vcgtq_s64 v w)) j
        ≡ (if greater (lane v j) (lane w j) then all_ones else 0)
  pub addv : (v : a.Int64x2) → a.vaddvq_s64 v ≡ total 2 (lane v) % u64_mod
