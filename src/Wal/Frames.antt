-- ===== src/Wal/Frames.antt =====
-- One pass of src/wal/wal_reader.cpp over what src/wal/wal_writer.cpp wrote, whole or cut.
use mathlib.Core.List.{append-nil, append_assoc}
use coredb.Prelude.{
  ℕ, zero, suc, ◌+◌, ◌%◌, ◌^◌, ◌<◌, ◌≡◌, refl, sym, ap, ◌∙◌, Bool, true, List, [], ◌∷◌, ◌++◌, none,
  some, ◌==◌, ◌⊎◌, inl, inr, length, length-append, arith,
}
use coredb.Util.Bytes.{
  read_raw, read_raw-le_bytes, le_bytes, from_le, split_at, split_at-append, length-le_bytes,
  from_le-le_bytes,
}
use coredb.Util.Crc32c.{crc32c, crc32c_extend}
use coredb.Wal.Record.{WalRecord, encode_body}
use coredb.Wal.Decode.{Decoded, decode_body}
use coredb.Wal.RoundTrip.{WellFormed, decode_body-encode_body}
use coredb.Wal.Writer.{frame}
use coredb.Wal.Reader.{parsed, truncated, read_one, take_header}

pub crc32c-lt : (bytes : List ℕ) → crc32c bytes < 2 ^ 32
unfolding crc32c crc32c_extend
crc32c-lt bytes = omega arith

split_at_short {ℓ} : {A : Type ℓ} (n : ℕ) (xs : List A) → length xs < n → split_at n xs ≡ none
unfolding split_at
split_at_short zero xs h = absurd (omega (arith, h))
split_at_short (suc n) [] h = refl
split_at_short (suc n) (x ∷ xs) h = rw (split_at_short n xs (omega (arith, h))) refl

-- Two ways to cut one list: the first part reaches the second cut, or ends before it.
pub append_cut {ℓ} :
    {A : Type ℓ} (xs ys zs ws : List A)
    → xs ++ ys ≡ zs ++ ws
    → ((m : List A) × (xs ≡ zs ++ m) × (m ++ ys ≡ ws))
      ⊎ ((x : A) × (m : List A) × (zs ≡ xs ++ x ∷ m))
append_cut xs ys [] ws e = inl (xs, refl, e)
append_cut [] ys (z ∷ zs) ws e = inr (z, zs, refl)
append_cut (x ∷ xs) ys (z ∷ zs) ws e =
    let same : x ≡ z = cc in
    let tails : xs ++ ys ≡ zs ++ ws = cc in
    elim (append_cut xs ys zs ws tails) [
      | inl (m, p, q) ↦ inl (m, cc, q)
      | inr (y, m, p) ↦ inr (y, m, cc)
    ]

-- A record whose frame has a length that fits its header.
pub record Loggable (grants : ℕ → Bool) (r : WalRecord) : Type 0 where
  pub well_formed : WellFormed grants r
  pub short : 4 + length (encode_body r) < 2 ^ 32

read_one_lem :
    (grants : ℕ → Bool) (buf : List ℕ)
    → 0 < length buf
    → read_one grants buf ≡ take_header grants (split_at 4 buf)
unfolding read_one
read_one_lem grants [] h = absurd (omega (arith, h))
read_one_lem grants (b ∷ bs) h = refl

module _ (grants : ℕ → Bool) (r : WalRecord) (l : Loggable grants r) where
  abbrev total : ℕ
  total = 4 + length (encode_body r)

  abbrev payload : List ℕ
  payload = le_bytes 4 (crc32c (encode_body r)) ++ encode_body r

  frame_lem : frame r ≡ le_bytes 4 total ++ payload
  unfolding frame
  frame_lem = let small : total % 2 ^ 32 ≡ total = omega (arith, l.short) in rw small refl

  length-payload : length payload ≡ total
  length-payload = omega (
    arith,
    length-append (le_bytes 4 (crc32c (encode_body r))) (encode_body r),
    length-le_bytes 4 (crc32c (encode_body r)),
  )

  header : from_le (le_bytes 4 total) ≡ total
  header = from_le-le_bytes 4 total (omega (arith, l.short))

  decoded : decode_body grants (encode_body r) ≡ Decoded.decoded r
  decoded =
      ap (decode_body grants) (sym (append-nil (encode_body r)))
      ∙ decode_body-encode_body grants r l.well_formed []

  pub read_one-frame :
      (rest : List ℕ) → read_one grants (frame r ++ rest) ≡ parsed r (4 + total) rest
  read_one-frame rest =
      let body : split_at total (payload ++ rest) ≡ some (payload, rest) =
        split_at-append payload rest total length-payload in
      let stored : read_raw 4 payload ≡ some (crc32c (encode_body r), encode_body r) =
        read_raw-le_bytes 4 (crc32c (encode_body r)) (encode_body r) (crc32c-lt (encode_body r)) in
      let same : (crc32c (encode_body r) == crc32c (encode_body r)) ≡ true = ground arith in
      rw
        (
          frame_lem,
          append_assoc (le_bytes 4 total) payload rest,
          read_one_lem grants (le_bytes 4 total ++ (payload ++ rest)) (
              omega (
                arith,
                length-append (le_bytes 4 total) (payload ++ rest),
                length-le_bytes 4 total,
              )),
          split_at-append (le_bytes 4 total) (payload ++ rest) 4 (length-le_bytes 4 total),
          header,
          body,
          stored,
          same,
          decoded,
        )
        refl

  pub length-frame : length (frame r) ≡ 4 + total
  length-frame = rw frame_lem (
      omega
        (arith, length-append (le_bytes 4 total) payload, length-le_bytes 4 total, length-payload))

  -- A frame that lacks its end, but not all of it, is found to be truncated.
  pub read_one_torn :
      (kept : List ℕ) (x : ℕ) (missing : List ℕ)
      → frame r ≡ kept ++ x ∷ missing
      → 0 < length kept
      → read_one grants kept ≡ truncated
  read_one_torn kept x missing e some_left =
      elim (append_cut kept (x ∷ missing) (le_bytes 4 total) payload (sym e ∙ frame_lem)) [
        | inl (m, p, q) ↦
            let cut : split_at total m ≡ none =
              split_at_short total m
                (omega (arith, length-append m (x ∷ missing), ap length q, length-payload)) in
            rw
              (
                read_one_lem grants kept some_left,
                p,
                split_at-append (le_bytes 4 total) m 4 (length-le_bytes 4 total),
                header,
                cut,
              )
              refl
        | inr (y, m, p) ↦
            let cut : split_at 4 kept ≡ none =
              split_at_short 4 kept
                (omega (arith, length-append kept (y ∷ m), ap length p, length-le_bytes 4 total)) in
            rw (read_one_lem grants kept some_left, cut) refl
      ]
