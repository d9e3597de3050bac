-- ===== src/Simd/Dispatch/Tests.antt =====
-- Instances of the theorems about src/simd, with a register as the function from lanes to values.
use Prim.Native.Nat.{bit_and}
use coredb.Prelude.{
  ℕ, ◌+◌, ◌-◌, ◌%◌, ◌≡◌, refl, Bool, true, List, [], ◌∷◌, none, some, if◌then◌else◌, get_or,
  u64_mod, ◌==◌, arith,
}
use coredb.Exec.{greater, filter_from, filter_gt_sum, sum_from}
use coredb.Simd.{total, one, masked}
use coredb.Simd.Lanes.{all_ones}
use coredb.Simd.Avx2
use coredb.Simd.Avx512
use coredb.Simd.Neon
use coredb.Simd.Avx2.{Avx2}
use coredb.Simd.Avx512.{Avx512}
use coredb.Simd.Neon.{Neon}
use coredb.Simd.Dispatch.{
  x86_64, linux, Host, chosen, can_run, Kernels, Documented, sum, filter_gt_sum_best, best-scalar,
  chosen-can_run,
}

abbrev Register : Type 0
Register = ℕ → ℕ

abbrev add_lanes : Register → Register → Register
add_lanes v w = λ j. (v j + w j) % u64_mod

abbrev sub_lanes : Register → Register → Register
sub_lanes v w = λ j. (v j + (u64_mod - w j)) % u64_mod

-- The bits that two words share, where the first is a mask at once.
abbrev and_words : ℕ → ℕ → ℕ
and_words a b = if a == all_ones then b else if a == 0 then 0 else bit_and a b

abbrev and_lanes : Register → Register → Register
and_lanes v w = λ j. and_words (v j) (w j)

abbrev cmpgt_lanes : Register → Register → Register
cmpgt_lanes v w = λ j. if greater (v j) (w j) then all_ones else 0

and_words-ones : (a b : ℕ) → a ≡ all_ones → and_words a b ≡ b
and_words-ones a b e = ground arith

and_words-zeros : (a b : ℕ) → a ≡ 0 → and_words a b ≡ 0
and_words-zeros a b e = ground arith

abbrev avx2_unit : Avx2
avx2_unit = record {
  M256i = Register;
  M128i = Register;
  setzero_si256 = λ j. 0;
  set1_epi64x = λ x j. x;
  loadu_si256 = λ xs i j. get_or xs (i + j) 0;
  add_epi64 = add_lanes;
  sub_epi64 = sub_lanes;
  and_si256 = and_lanes;
  cmpgt_epi64 = cmpgt_lanes;
  castsi256_si128 = λ v. v;
  extracti128_si256 = λ v h j. if h == 0 then v j else v (2 + j);
  add_epi64_128 = add_lanes;
  cvtsi128_si64 = λ v. v 0;
  extract_epi64 = λ v j. v j;
}

avx2-Lanes : Avx2.Lanes avx2_unit
avx2-Lanes = record {
  lane = λ v. v;
  lane128 = λ v. v;
  setzero = λ j. refl;
  set1 = λ x j lt. refl;
  loadu = λ xs i j lt. refl;
  add = λ v w j lt. refl;
  sub = λ v w j lt small. refl;
  and_ones = λ v w j lt e. and_words-ones (v j) (w j) e;
  and_zeros = λ v w j lt e. and_words-zeros (v j) (w j) e;
  cmpgt = λ v w j lt. refl;
  castsi256 = λ v j lt. refl;
  extracti128 = λ v j lt. refl;
  add128 = λ v w j lt. refl;
  cvtsi128 = λ v. refl;
  extract = λ v j lt. refl;
}

abbrev avx512_unit : Avx512
avx512_unit = record {
  M512i = Register;
  Mmask8 = ℕ → Bool;
  setzero_si512 = λ j. 0;
  set1_epi64 = λ x j. x;
  loadu_si512 = λ xs i j. get_or xs (i + j) 0;
  add_epi64 = add_lanes;
  cmpgt_epi64_mask = λ v w j. greater (v j) (w j);
  maskz_mov_epi64 = λ m v j. masked (m j) (v j);
  reduce_add_epi64 = λ v. total 8 v % u64_mod;
  popcount = λ m. total 8 (λ j. one (m j));
}

avx512-Lanes : Avx512.Lanes avx512_unit
avx512-Lanes = record {
  lane = λ v. v;
  bit = λ m. m;
  setzero = λ j. refl;
  set1 = λ x j lt. refl;
  loadu = λ xs i j lt. refl;
  add = λ v w j lt. refl;
  cmpgt = λ v w j lt. refl;
  maskz_mov = λ m v j lt. refl;
  reduce_add = λ v. refl;
  popcount = λ m. refl;
}

abbrev neon_unit : Neon
neon_unit = record {
  Int64x2 = Register;
  Uint64x2 = Register;
  vdupq_n_s64 = λ x j. x;
  vld1q_s64 = λ xs i j. get_or xs (i + j) 0;
  vaddq_s64 = add_lanes;
  vsubq_s64 = sub_lanes;
  vandq_s64 = and_lanes;
  vcgtq_s64 = cmpgt_lanes;
  vreinterpretq_s64_u64 = λ v. v;
  vaddvq_s64 = λ v. total 2 v % u64_mod;
}

neon-Lanes : Neon.Lanes neon_unit
neon-Lanes = record {
  lane = λ v. v;
  dup = λ x j lt. refl;
  ld1 = λ xs i j lt. refl;
  add = λ v w j lt. refl;
  sub = λ v w j lt small. refl;
  and_ones = λ v w j lt e. and_words-ones (v j) (w j) e;
  and_zeros = λ v w j lt e. and_words-zeros (v j) (w j) e;
  cgt = λ v w j lt. refl;
  addv = λ v. refl;
}

abbrev units : Kernels
units = record { avx2 = avx2_unit; avx512 = avx512_unit; neon = neon_unit }

units-Documented : Documented units
units-Documented = record { avx2 = avx2-Lanes; avx512 = avx512-Lanes; neon = neon-Lanes }

-- A server with all of AVX-512.
abbrev server : Host
server = record {
  target = x86_64;
  os = linux;
  cores = some 16;
  memory = none;
  pages = some 4194304;
  page_size = some 4096;
  has_avx2 = true;
  has_avx512f = true;
  has_avx512bw = true;
  has_avx512dq = true;
}

abbrev ten : List ℕ
ten = 4 ∷ 9 ∷ 7 ∷ 1 ∷ 8 ∷ 2 ∷ 6 ∷ 3 ∷ 5 ∷ 10 ∷ []

best-scalar_example :
    (sum units server ten 0 10 ≡ sum_from ten 0 10 0)
    × (filter_gt_sum_best units server ten ten 0 10 5 ≡ filter_gt_sum ten ten 0 10 5)
best-scalar_example = best-scalar units units-Documented server ten ten 0 10 5

chosen-can_run_example : can_run server (chosen server) ≡ true
chosen-can_run_example = chosen-can_run server

-- The wide kernels on these columns, with elements left over.
wide :
    Avx512.filter_gt_sum_avx512 avx512_unit ten ten 0 10 5 ≡ record { matched_count = 5; sum = 40 }
unfolding Avx512.filter_gt_sum_avx512 filter_from
wide = refl

narrow : Neon.filter_gt_sum_neon neon_unit ten ten 1 9 5 ≡ record { matched_count = 5; sum = 40 }
unfolding Neon.filter_gt_sum_neon filter_from
narrow = refl
