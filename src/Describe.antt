-- ===== src/Describe.antt =====
-- The texts of the `ToString` functions, of src/storage/types.cpp, src/wal/record.cpp,
-- src/wal/wal_writer.cpp and src/util/cpu_features.cpp, and of `DescribeCapabilities` there.
--
-- A text is the list of its bytes. How a stream prints a double is a parameter.
mod Tests
use Prim.Native.Char.{code}
use Prim.Native.String.{String}
use coredb.Prelude.{ℕ, Bool, List, [], ◌∷◌, ◌++◌, ◌==◌, if◌then◌else◌}
use coredb.Storage.Types.{ColumnType, PredicateOp}
use coredb.Wal.WalRecordType
use coredb.Wal.Writer.{DurabilityMode}
use coredb.Recovery.Manifest.{to_string}
use coredb.Simd.Dispatch.{SimdLevel, Target, CpuCapabilities}

abbrev pub codes : String → List ℕ
codes String.[] = []
codes (String.◌∷◌ c s) = code c ∷ codes s

abbrev pub column_type_name : ColumnType → List ℕ
column_type_name ColumnType.int32 = codes "int32"
column_type_name ColumnType.int64 = codes "int64"
column_type_name ColumnType.double = codes "double"
column_type_name ColumnType.string = codes "string"

abbrev pub predicate_op_name : PredicateOp → List ℕ
predicate_op_name PredicateOp.eq = codes "="
predicate_op_name PredicateOp.ne = codes "!="
predicate_op_name PredicateOp.lt = codes "<"
predicate_op_name PredicateOp.le = codes "<="
predicate_op_name PredicateOp.gt = codes ">"
predicate_op_name PredicateOp.ge = codes ">="

abbrev pub wal_record_type_name : ℕ → List ℕ
wal_record_type_name type =
    if type == WalRecordType.begin
    then codes "BEGIN"
    else if type == WalRecordType.insert
    then codes "INSERT"
    else if type == WalRecordType.update
    then codes "UPDATE"
    else if type == WalRecordType.delete
    then codes "DELETE"
    else if type == WalRecordType.commit
    then codes "COMMIT"
    else if type == WalRecordType.abort
    then codes "ABORT"
    else codes "UNKNOWN"

abbrev pub durability_mode_name : DurabilityMode → List ℕ
durability_mode_name DurabilityMode.no_sync = codes "no_sync"
durability_mode_name DurabilityMode.sync_every_commit = codes "sync_every_commit"
durability_mode_name DurabilityMode.sync_every_record = codes "sync_every_record"

abbrev pub simd_level_name : SimdLevel → List ℕ
simd_level_name SimdLevel.scalar = codes "scalar"
simd_level_name SimdLevel.neon = codes "neon"
simd_level_name SimdLevel.avx2 = codes "avx2"
simd_level_name SimdLevel.avx512 = codes "avx512"

-- What `DetectArchitectureString` returns.
abbrev pub architecture_name : Target → List ℕ
architecture_name Target.arm64 = codes "arm64"
architecture_name Target.x86_64 = codes "x86_64"
architecture_name Target.unknown = codes "unknown"

abbrev pub yes_or_no : Bool → List ℕ
yes_or_no b = if b then codes "yes" else codes "no"

-- The bytes of memory as a double, divided by 1024 three times over, are printed by the parameter.
unfoldable pub describe_capabilities : (ℕ → List ℕ) → CpuCapabilities → List ℕ
describe_capabilities print_gib caps =
    codes "architecture: "
    ++ architecture_name caps.architecture
    ++ 10 ∷ codes "logical_cores: "
    ++ to_string caps.logical_cores (
        10 ∷ codes "memory: "
        ++ print_gib caps.total_memory_bytes
        ++ codes " GiB"
        ++ 10 ∷ codes "simd: "
        ++ simd_level_name caps.best_available
        ++ elim caps.architecture [
          | Target.arm64 ↦ codes " (AVX2/AVX-512 unavailable: not an x86_64 target)"
          | Target.x86_64 ↦
              codes " (avx2="
              ++ yes_or_no caps.avx2_available
              ++ codes ", avx512="
              ++ yes_or_no caps.avx512_available
              ++ codes ")"
          | Target.unknown ↦ []
        ])
