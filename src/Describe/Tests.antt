-- ===== src/Describe/Tests.antt =====
-- What `DescribeCapabilities` of src/util/cpu_features.cpp prints on two machines.
use coredb.Prelude.{ℕ, ◌≡◌, refl, ◌*◌, ◌^◌, List, true, false, ◌/◌, []}
use coredb.Recovery.Manifest.{to_string, digits}
use coredb.Simd.Dispatch.{SimdLevel, Target, CpuCapabilities}
use coredb.Describe.{codes, describe_capabilities}

-- Whole numbers of GiB, which a stream prints without a point.
abbrev whole : ℕ → List ℕ
whole bytes = to_string (bytes / 2 ^ 30) []

abbrev phone : CpuCapabilities
phone = record {
  architecture = Target.arm64;
  logical_cores = 8;
  total_memory_bytes = 16 * 2 ^ 30;
  best_available = SimdLevel.neon;
  neon_available = true;
  avx2_available = false;
  avx512_available = false;
}

phone_text :
    describe_capabilities whole phone
    ≡ codes
        "architecture: arm64\nlogical_cores: 8\nmemory: 16 GiB\nsimd: neon (AVX2/AVX-512 unavailable: not an x86_64 target)"
unfolding describe_capabilities digits
phone_text = refl
