-- ===== src/Util/Bitmap/Bits.antt =====
-- The bits of one byte, by evaluation over all bytes.
use Prim.Native.Nat.{bit_and}
use coredb.Prelude.{
  ℕ, zero, suc, ◌-◌, ◌^◌, not, ◌||◌, ◌<◌, ◌≡◌, refl, Bool, true, false, ◌&&◌, arith, ◌==◌, ltb,
  if◌then◌else◌,
}
use coredb.Util.Bitmap.{bit_at, with_bit}

-- No number below the bound fails the test, counted down from it.
pub fails_nowhere : ℕ → (ℕ → Bool) → Bool
fails_nowhere zero test = true
fails_nowhere (suc top) test = if fails_nowhere top test then test top else false

pub fails_nowhere_sound :
    (bound : ℕ) (test : ℕ → Bool) (at : ℕ)
    → fails_nowhere bound test ≡ true
    → at < bound
    → test at ≡ true
unfolding fails_nowhere
fails_nowhere_sound (suc top) test at passed below = ground (arith, fails_nowhere_sound top test at)
fails_nowhere_sound zero test at passed below = absurd (omega (arith, below))

abbrev same : Bool → Bool → Bool
same true b = b
same false true = false
same false false = true

same_sound : (a b : Bool) → same a b ≡ true → a ≡ b
same_sound a b h = ground arith

abbrev written : ℕ → ℕ → Bool → ℕ → Bool
written b k v j =
    same (bit_at (with_bit b k v) j) (if k == j then v else bit_at b j) && ltb (with_bit b k v) 256

abbrev written_all : Bool → Bool
written_all v = fails_nowhere 256 λ b. fails_nowhere 8 λ k. fails_nowhere 8 λ j. written b k v j

table_set : written_all true ≡ true
unfolding fails_nowhere bit_at with_bit
table_set = refl

table_clear : written_all false ≡ true
unfolding fails_nowhere bit_at with_bit
table_clear = refl

written_lem :
    (b k j : ℕ) (v : Bool) → b < 256 → k < 8 → j < 8 → written_all v ≡ true → written b k v j ≡ true
written_lem b k j v hb hk hj t =
    fails_nowhere_sound 8 (written b k v) j
      (fails_nowhere_sound 8 (λ k'. fails_nowhere 8 (written b k' v)) k
        (fails_nowhere_sound 256 (λ b'. fails_nowhere 8 λ k'. fails_nowhere 8 (written b' k' v)) b t
          hb)
        hk)
      hj

bit_or_here : (b k j : ℕ) (v : Bool) → b < 256 → k < 8 → j < 8 → written b k v j ≡ true
bit_or_here b k j true hb hk hj = written_lem b k j true hb hk hj table_set
bit_or_here b k j false hb hk hj = written_lem b k j false hb hk hj table_clear

module _ (b k j : ℕ) (v : Bool) (hb : b < 256) (hk : k < 8) (hj : j < 8) where
  pub bit_at-with_bit : bit_at (with_bit b k v) j ≡ (if k == j then v else bit_at b j)
  bit_at-with_bit = same_sound _ _ (ground (arith, bit_or_here b k j v hb hk hj))

pub with_bit-lt : (b k : ℕ) (v : Bool) → b < 256 → k < 8 → with_bit b k v < 256
with_bit-lt b k v hb hk = ground (arith, bit_or_here b k 0 v hb hk (omega arith))

-- `LastByteMask` at `num_rows % 8`, and whether bit `k` of the last byte belongs to a row.
abbrev pub mask_of : ℕ → ℕ
mask_of used = if used == 0 then 255 else 2 ^ used - 1

abbrev pub in_use : ℕ → ℕ → Bool
in_use used k = if used == 0 then true else ltb k used

abbrev cleared : ℕ → ℕ → Bool
cleared used k =
    same (bit_at (bit_and 255 (mask_of used)) k) (in_use used k)
    && same (bit_at (bit_and 0 (mask_of used)) k) false
    && ltb (bit_and 255 (mask_of used)) 256
    && ltb (bit_and 0 (mask_of used)) 256

cleared_table : (fails_nowhere 8 λ used. fails_nowhere 8 λ k. cleared used k) ≡ true
unfolding fails_nowhere bit_at
cleared_table = refl

bit_and_here : (used k : ℕ) → used < 8 → k < 8 → cleared used k ≡ true
bit_and_here used k hu hk =
    fails_nowhere_sound 8 (cleared used) k
      (fails_nowhere_sound 8 (λ u. fails_nowhere 8 (cleared u)) used cleared_table hu) hk

-- The masked last byte of a fresh bitmap.
module _ (used k : ℕ) (hu : used < 8) (hk : k < 8) where
  pub bit_at-mask_full : bit_at (bit_and 255 (mask_of used)) k ≡ in_use used k
  bit_at-mask_full = same_sound _ _ (ground (arith, bit_and_here used k hu hk))

  pub bit_at-mask_empty : bit_at (bit_and 0 (mask_of used)) k ≡ false
  bit_at-mask_empty = same_sound _ _ (ground (arith, bit_and_here used k hu hk))

pub mask_full-lt : (used : ℕ) → used < 8 → bit_and 255 (mask_of used) < 256
mask_full-lt used hu = ground (arith, bit_and_here used 0 hu (omega arith))

pub mask_empty-lt : (used : ℕ) → used < 8 → bit_and 0 (mask_of used) < 256
mask_empty-lt used hu = ground (arith, bit_and_here used 0 hu (omega arith))

-- The bits of a byte that are in use are all set exactly if the mask says so.
abbrev all_bits : ℕ → ℕ → Bool
all_bits used b = fails_nowhere 8 λ k. not (in_use used k) || bit_at b k

masked_table :
    (fails_nowhere 256 λ b.
      fails_nowhere 8 λ used. same (bit_and b (mask_of used) == mask_of used) (all_bits used b))
    ≡ true
unfolding fails_nowhere bit_at
masked_table = refl

byte_table : (fails_nowhere 256 λ b. same (b == 255) (all_bits 0 b)) ≡ true
unfolding fails_nowhere bit_at
byte_table = refl

pub masked_lem :
    (b used : ℕ) → b < 256 → used < 8 → (bit_and b (mask_of used) == mask_of used) ≡ all_bits used b
masked_lem b used hb hu = same_sound _ _ (
    fails_nowhere_sound 8 (λ u. same (bit_and b (mask_of u) == mask_of u) (all_bits u b)) used
      (fails_nowhere_sound 256
        (λ b'. fails_nowhere 8 λ u. same (bit_and b' (mask_of u) == mask_of u) (all_bits u b')) b
        masked_table hb)
      hu)

pub byte_lem : (b : ℕ) → b < 256 → (b == 255) ≡ all_bits 0 b
byte_lem b hb =
    same_sound _ _
      (fails_nowhere_sound 256 (λ b'. same (b' == 255) (all_bits 0 b')) b byte_table hb)

pub fails_nowhere_complete :
    (n : ℕ) (p : ℕ → Bool) → ((x : ℕ) → x < n → p x ≡ true) → fails_nowhere n p ≡ true
unfolding fails_nowhere
fails_nowhere_complete zero p h = refl
fails_nowhere_complete (suc n) p h =
    ground (arith, h n (omega arith), fails_nowhere_complete n p (λ x lt. h x (omega arith)))

pub all_bits_sound :
    (used b k : ℕ) → all_bits used b ≡ true → k < 8 → in_use used k ≡ true → bit_at b k ≡ true
all_bits_sound used b k h hk u =
    ground (arith, fails_nowhere_sound 8 (λ j. not (in_use used j) || bit_at b j) k h hk)

pub all_bits_complete :
    (used b : ℕ)
    → ((k : ℕ) → k < 8 → in_use used k ≡ true → bit_at b k ≡ true)
    → all_bits used b ≡ true
all_bits_complete used b h =
    fails_nowhere_complete 8 (λ j. not (in_use used j) || bit_at b j)
      (λ k hk. ground (arith, h k hk))
