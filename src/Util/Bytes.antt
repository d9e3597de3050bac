-- ===== src/Util/Bytes.antt =====
-- The bytes of an unsigned word as `reinterpret_cast` and `memcpy` see them on the little-endian
-- hosts that the source is built for.
use native.Mathlib.Nat.{pow-suc}
use coredb.Prelude.{
  ℕ, zero, suc, ◌+◌, ◌*◌, ◌/◌, ◌%◌, ◌^◌, ◌<◌, ◌≡◌, refl, ap, List, [], ◌∷◌, ◌++◌, arith, All,
  length, Option, none, some, ◌>>=◌,
}

-- The `w` low bytes of `x`, lowest first.
unfoldable pub le_bytes : ℕ → ℕ → List ℕ
le_bytes zero x = []
le_bytes (suc w) x = x % 256 ∷ le_bytes w (x / 256)

unfoldable pub from_le : List ℕ → ℕ
from_le [] = 0
from_le (b ∷ bs) = b + 256 * from_le bs

pub length-le_bytes : (w x : ℕ) → length (le_bytes w x) ≡ w
unfolding le_bytes
length-le_bytes zero x = refl
length-le_bytes (suc w) x = omega (arith, length-le_bytes w (x / 256))

pub le_bytes-All : (w x : ℕ) → All (λ b. b < 256) (le_bytes w x)
unfolding le_bytes
le_bytes-All zero x = tt
le_bytes-All (suc w) x = (omega arith, le_bytes-All w (x / 256))

-- A word is read back from its bytes.
pub from_le-le_bytes : (w x : ℕ) → x < 256 ^ w → from_le (le_bytes w x) ≡ x
unfolding le_bytes from_le
from_le-le_bytes zero x h = omega arith
from_le-le_bytes (suc w) x h =
    let small : x / 256 < 256 ^ w = omega (arith, pow-suc 256 w) in
    omega (arith, from_le-le_bytes w (x / 256) small)

-- The first `n` elements and the rest, if there are so many.
unfoldable pub split_at {ℓ} : {A : Type ℓ} → ℕ → List A → Option (List A × List A)
split_at zero xs = some ([], xs)
split_at (suc n) [] = none
split_at (suc n) (x ∷ xs) = split_at n xs >>= λ p. some (x ∷ p.0, p.1)

pub split_at-append {ℓ} :
    {A : Type ℓ} (xs ys : List A) (n : ℕ) → length xs ≡ n → split_at n (xs ++ ys) ≡ some (xs, ys)
unfolding split_at
split_at-append [] ys zero h = refl
split_at-append [] ys (suc n) h = absurd (omega arith)
split_at-append (x ∷ xs) ys zero h = absurd (omega arith)
split_at-append (x ∷ xs) ys (suc n) h = rw (split_at-append xs ys n (omega arith))

-- A word of `width` bytes and the bytes after it.
unfoldable pub read_raw : ℕ → List ℕ → Option (ℕ × List ℕ)
read_raw width buf = split_at width buf >>= λ p. some (from_le p.0, p.1)

pub read_raw-le_bytes :
    (w x : ℕ) (rest : List ℕ) → x < 256 ^ w → read_raw w (le_bytes w x ++ rest) ≡ some (x, rest)
unfolding read_raw
read_raw-le_bytes w x rest h =
    rw (split_at-append (le_bytes w x) rest w (length-le_bytes w x), from_le-le_bytes w x h) refl

pub read_raw-byte : (b : ℕ) (rest : List ℕ) → read_raw 1 (b ∷ rest) ≡ some (b, rest)
unfolding read_raw split_at from_le
read_raw-byte b rest = ap (λ n. some (n, rest)) (omega arith)
