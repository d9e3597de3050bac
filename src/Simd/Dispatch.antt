-- ===== src/Simd/Dispatch.antt =====
-- src/simd/dispatch.cpp, and `Probe` of src/util/cpu_features.cpp, whose result it goes by. What the
-- build targets and what the system and the processor answer are parameters, the record `Host`.
mod Tests
use coredb.Prelude.{
  ℕ, ◌*◌, ◌%◌, ◌≡◌, refl, Bool, true, false, ◌&&◌, List, Option, none, some, if◌then◌else◌, ltb,
  u64_mod, ◌∙◌, arith,
}
use coredb.Exec.{FilterSumResult, filter_gt_sum, sum_from}
use coredb.Simd.Avx2
use coredb.Simd.Avx512
use coredb.Simd.Neon
use coredb.Simd.Avx2.{Avx2, sum_avx2, filter_gt_sum_avx2}
use coredb.Simd.Avx2.Scalar.{sum_avx2-sum_from, filter_gt_sum_avx2-filter_gt_sum}
use coredb.Simd.Avx512.{
  Avx512, sum_avx512, filter_gt_sum_avx512, sum_avx512-sum_from, filter_gt_sum_avx512-filter_gt_sum,
}
use coredb.Simd.Neon.{Neon, sum_neon, filter_gt_sum_neon}
use coredb.Simd.Neon.Scalar.{sum_neon-sum_from, filter_gt_sum_neon-filter_gt_sum}

pub data Target : Type 0 where
  arm64 x86_64 unknown : Target

pub data Os : Type 0 where
  apple linux other : Os

pub data SimdLevel : Type 0 where
  scalar neon avx2 avx512 : SimdLevel

-- `none` is a call that failed, or that answered below 0.
pub record Host : Type 0 where
  pub target : Target
  pub os : Os
  pub cores : Option ℕ
  pub memory : Option ℕ
  pub pages : Option ℕ
  pub page_size : Option ℕ
  pub has_avx2 : Bool
  pub has_avx512f : Bool
  pub has_avx512bw : Bool
  pub has_avx512dq : Bool

pub record CpuCapabilities : Type 0 where
  pub architecture : Target
  pub logical_cores : ℕ
  pub total_memory_bytes : ℕ
  pub best_available : SimdLevel
  pub neon_available : Bool
  pub avx2_available : Bool
  pub avx512_available : Bool

abbrev count_or_one : Option ℕ → ℕ
count_or_one none = 1
count_or_one (some n) = if ltb 0 n then n else 1

abbrev detect_logical_cores : Host → ℕ
detect_logical_cores host = elim host.os [ other ↦ 1 | _ ↦ count_or_one host.cores ]

abbrev memory_of : Option ℕ → Option ℕ → ℕ
memory_of (some pages) (some page_size) =
    if ltb 0 pages && ltb 0 page_size then pages * page_size % u64_mod else 0
memory_of pages page_size = 0

abbrev or_zero : Option ℕ → ℕ
or_zero none = 0
or_zero (some n) = n

abbrev detect_total_memory_bytes : Host → ℕ
detect_total_memory_bytes host = elim host.os [
  | apple ↦ or_zero host.memory
  | linux ↦ memory_of host.pages host.page_size
  | other ↦ 0
]

abbrev pub probe_avx512 : Host → Bool
probe_avx512 host = host.has_avx512f && host.has_avx512bw && host.has_avx512dq

-- A snapshot before the instruction sets are known.
abbrev no_simd : Host → CpuCapabilities
no_simd host = record {
  architecture = host.target;
  logical_cores = detect_logical_cores host;
  total_memory_bytes = detect_total_memory_bytes host;
  best_available = scalar;
  neon_available = false;
  avx2_available = false;
  avx512_available = false;
}

unfoldable pub probe : Host → CpuCapabilities
probe host = elim host.target [
  | arm64 ↦ record (no_simd host) { neon_available = true; best_available = neon }
  | x86_64 ↦ record (no_simd host) {
    avx2_available = host.has_avx2;
    avx512_available = probe_avx512 host;
    best_available = if probe_avx512 host then avx512 else if host.has_avx2 then avx2 else scalar;
  }
  | unknown ↦ no_simd host
]

-- The kernel that is called at a level, as far as it is compiled for the target.
unfoldable pub tier : Target → SimdLevel → SimdLevel
tier x86_64 avx512 = avx512
tier x86_64 avx2 = avx2
tier arm64 neon = neon
tier target level = scalar

pub record Kernels : Type 1 where
  pub avx2 : Avx2
  pub avx512 : Avx512
  pub neon : Neon

unfoldable pub chosen : Host → SimdLevel
unfolding tier probe
chosen host = tier host.target (probe host).best_available

module _ (k : Kernels) where
  abbrev sum_at : SimdLevel → List ℕ → ℕ → ℕ → ℕ
  sum_at scalar column i n = sum_from column i n 0
  sum_at neon column i n = sum_neon k.neon column i n
  sum_at avx2 column i n = sum_avx2 k.avx2 column i n
  sum_at avx512 column i n = sum_avx512 k.avx512 column i n

  abbrev filter_gt_sum_at : SimdLevel → List ℕ → List ℕ → ℕ → ℕ → ℕ → FilterSumResult
  filter_gt_sum_at scalar pred out i n threshold = filter_gt_sum pred out i n threshold
  filter_gt_sum_at neon pred out i n threshold = filter_gt_sum_neon k.neon pred out i n threshold
  filter_gt_sum_at avx2 pred out i n threshold = filter_gt_sum_avx2 k.avx2 pred out i n threshold
  filter_gt_sum_at avx512 pred out i n threshold =
      filter_gt_sum_avx512 k.avx512 pred out i n threshold

  -- `Sum(column + i, n)`
  unfoldable pub sum : Host → List ℕ → ℕ → ℕ → ℕ
  sum host column i n = sum_at (chosen host) column i n

  -- `FilterGtSum(pred + i, out + i, n, threshold)`
  unfoldable pub filter_gt_sum_best : Host → List ℕ → List ℕ → ℕ → ℕ → ℕ → FilterSumResult
  filter_gt_sum_best host pred out i n threshold =
      filter_gt_sum_at (chosen host) pred out i n threshold

-- What the manuals say of the intrinsics.
pub record Documented (k : Kernels) : Type 0 where
  pub avx2 : Avx2.Lanes k.avx2
  pub avx512 : Avx512.Lanes k.avx512
  pub neon : Neon.Lanes k.neon

module _ (k : Kernels) (doc : Documented k) where
  at_level :
      (level : SimdLevel) (pred out : List ℕ) (i n threshold : ℕ)
      → (sum_at k level out i n ≡ sum_from out i n 0)
        × (filter_gt_sum_at k level pred out i n threshold ≡ filter_gt_sum pred out i n threshold)
  at_level scalar pred out i n threshold = (refl, refl)
  at_level neon pred out i n threshold = (
    sum_neon-sum_from k.neon doc.neon out i n,
    filter_gt_sum_neon-filter_gt_sum k.neon doc.neon pred out threshold i n,
  )
  at_level avx2 pred out i n threshold = (
    sum_avx2-sum_from k.avx2 doc.avx2 out i n,
    filter_gt_sum_avx2-filter_gt_sum k.avx2 doc.avx2 pred out threshold i n,
  )
  at_level avx512 pred out i n threshold = (
    sum_avx512-sum_from k.avx512 doc.avx512 out i n,
    filter_gt_sum_avx512-filter_gt_sum k.avx512 doc.avx512 pred out threshold i n,
  )

  -- With intrinsics that do in each lane what their manuals say, and whatever the processor and
  -- the build, the kernels that Sum and FilterGtSum dispatch to give the results of the scalar
  -- kernels, the sums with wrap-around, on columns of any length.
  pub best-scalar :
      (host : Host) (pred out : List ℕ) (i n threshold : ℕ)
      → (sum k host out i n ≡ sum_from out i n 0)
        × (filter_gt_sum_best k host pred out i n threshold ≡ filter_gt_sum pred out i n threshold)
  unfolding sum filter_gt_sum_best
  best-scalar host = at_level (chosen host)

-- Whether a processor has the instructions of a kernel.
abbrev is_arm64 : Target → Bool
is_arm64 arm64 = true
is_arm64 target = false

abbrev is_x86_64 : Target → Bool
is_x86_64 x86_64 = true
is_x86_64 target = false

unfoldable pub can_run : Host → SimdLevel → Bool
can_run host scalar = true
can_run host neon = is_arm64 host.target
can_run host avx2 = is_x86_64 host.target && host.has_avx2
can_run host avx512 =
    is_x86_64 host.target && host.has_avx512f && host.has_avx512bw && host.has_avx512dq

-- The kernel that is dispatched to is one that the build's target has and whose instruction sets
-- the processor reports, all three for AVX-512.
pub chosen-can_run : (host : Host) → can_run host (chosen host) ≡ true
unfolding chosen can_run tier probe
chosen-can_run host = ground arith
