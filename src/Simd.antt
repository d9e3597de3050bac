-- ===== src/Simd.antt =====
-- src/simd: the vector kernels, and which of them the dispatcher calls.
--
-- The compiler's intrinsics are parameters, a record for each instruction set, with what its manual
-- says of each lane. A pointer into a column is the column and an index.
pub mod Lanes
pub mod Avx2
pub mod Avx512
pub mod Neon
pub mod Dispatch
use coredb.Prelude.{ℕ, zero, suc, ◌+◌, Bool, if◌then◌else◌}

-- The sum of the first `w` lanes.
abbrev pub total : ℕ → (ℕ → ℕ) → ℕ
total zero lane = 0
total (suc w) lane = lane 0 + total w (λ j. lane (suc j))

abbrev pub one : Bool → ℕ
one b = if b then 1 else 0

-- What a masked lane holds.
abbrev pub masked : Bool → ℕ → ℕ
masked b x = if b then x else 0
