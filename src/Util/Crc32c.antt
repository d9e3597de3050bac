-- ===== src/Util/Crc32c.antt =====
-- include/coredb/util/crc32c.h and src/util/crc32c.cpp: the table-driven CRC-32C.
use Prim.Native.Nat.{bit_and, bit_xor}
use coredb.Prelude.{
  ℕ, zero, suc, ◌+◌, ◌-◌, ◌/◌, ◌^◌, ◌≡◌, refl, List, [], ◌∷◌, ◌==◌, if◌then◌else◌, get_or,
}

abbrev pub poly : ℕ
poly = 0x82F63B78

shift_step : ℕ → ℕ
shift_step crc = if bit_and crc 1 == 1 then bit_xor (crc / 2) poly else crc / 2

rounds : ℕ → ℕ → ℕ
rounds zero crc = crc
rounds (suc n) crc = rounds n (shift_step crc)

-- `table[i], ..., table[i + n - 1]`
table_from : ℕ → ℕ → List ℕ
table_from zero i = []
table_from (suc n) i = rounds 8 i ∷ table_from n (i + 1)

unfoldable pub build_table : List ℕ
unfolding table_from rounds shift_step
build_table = table_from 256 0

-- `~x` on a `uint32_t`
abbrev pub complement32 : ℕ → ℕ
complement32 x = 2 ^ 32 - 1 - x

unfoldable pub crc_loop : List ℕ → ℕ → List ℕ → ℕ
crc_loop table crc [] = crc
crc_loop table crc (b ∷ bs) =
    crc_loop table (bit_xor (get_or table (bit_and (bit_xor crc b) 255) 0) (crc / 2 ^ 8)) bs

unfoldable pub crc32c_extend : ℕ → List ℕ → ℕ
unfolding crc_loop build_table
crc32c_extend partial_crc bytes =
    complement32 (crc_loop build_table (complement32 partial_crc) bytes)

unfoldable pub crc32c : List ℕ → ℕ
unfolding crc32c_extend
crc32c bytes = crc32c_extend 0 bytes

-- The check value of "123456789".
crc32c_check :
    crc32c (0x31 ∷ 0x32 ∷ 0x33 ∷ 0x34 ∷ 0x35 ∷ 0x36 ∷ 0x37 ∷ 0x38 ∷ 0x39 ∷ []) ≡ 0xE3069283
unfolding crc32c
crc32c_check = refl
