-- ===== src/Wal/Total.antt =====
-- The loop of src/wal/wal_reader.cpp ends on any file: each pass takes bytes.
use coredb.Prelude.{
  ◌%◌, ◌^◌, ◌++◌, u64_mod, ℕ, zero, suc, ◌+◌, ◌<◌, ◌≡◌, refl, Bool, true, false, List, [], ◌∷◌,
  Option, none, some, ◌==◌, if◌then◌else◌, length, arith,
}
use coredb.Util.Bytes.{read_raw, from_le, split_at}
use coredb.Util.Crc32c.{crc32c}
use coredb.Wal.Record.{WalRecord}
use coredb.Wal.Decode.{Decoded, refused, decoded, decode_body}
use coredb.Wal.Calm.{AreBytes, split_at-Parts, read_raw-back, Calm, decode_body-Calm}
use coredb.Wal.Reader.{
  WalReadResult, Pass, at_end, truncated, corrupt, threw, parsed, parse_body, check_payload,
  take_payload, take_header, read_one, read_from, read_all, no_records,
}

-- A pass throws nothing, and after a record fewer bytes are left.
abbrev Shorter : ℕ → Pass → Type 0
Shorter n (parsed r len rest) = (length rest < n) × AreBytes rest
Shorter n at_end = Unit
Shorter n truncated = Unit
Shorter n corrupt = Unit
Shorter n threw = ⊥

parse_body-Shorter :
    (o : Decoded WalRecord) (len : ℕ) (rest : List ℕ) (n : ℕ)
    → Calm o
    → (length rest < n) × AreBytes rest
    → Shorter n (parse_body o len rest)
parse_body-Shorter refused len rest n c h = tt
parse_body-Shorter Decoded.threw len rest n c h = absurd c
parse_body-Shorter (decoded r) len rest n c h = h

module _ (grants : ℕ → Bool) (granted : (n : ℕ) → n < 2 ^ 32 → grants n ≡ true) where
  check_payload-Shorter :
      (o : Option (ℕ × List ℕ)) (len : ℕ) (rest : List ℕ) (n : ℕ)
      → ((k : ℕ) (body : List ℕ) → o ≡ some (k, body) → AreBytes body)
      → (length rest < n) × AreBytes rest
      → Shorter n (check_payload grants o len rest)
  check_payload-Shorter none len rest n b h = tt
  check_payload-Shorter (some (k, body)) len rest n b h =
      checked (crc32c body == k) (decode_body grants body)
        (decode_body-Calm grants granted body (b k body refl))
    where
      checked :
          (same : Bool) (o : Decoded WalRecord)
          → Calm o
          → Shorter n (if same then parse_body o len rest else corrupt)
      checked true o c = parse_body-Shorter o len rest n c h
      checked false o c = tt

  take_payload-Shorter :
      (o : Option (List ℕ × List ℕ)) (total_len n : ℕ)
      → ((p rest : List ℕ) → o ≡ some (p, rest) → AreBytes p × ((length rest < n) × AreBytes rest))
      → Shorter n (take_payload grants o total_len)
  take_payload-Shorter none total_len n h = tt
  take_payload-Shorter (some (p, rest)) total_len n h =
      let (front, back) = h p rest refl in
      check_payload-Shorter (read_raw 4 p) (4 + total_len) rest n
        (λ k body e. read_raw-back 4 p body k front e) back

  take_header-Shorter :
      (o : Option (List ℕ × List ℕ)) (n : ℕ)
      → ((p rest : List ℕ) → o ≡ some (p, rest) → (length rest < n) × AreBytes rest)
      → Shorter n (take_header grants o)
  take_header-Shorter none n h = tt
  take_header-Shorter (some (header, rest)) n h =
      let (fewer, bytes) = h header rest refl in
      take_payload-Shorter (split_at (from_le header) rest) (from_le header) n λ p ws e.
        let parts = split_at-Parts (from_le header) rest p ws bytes e in
        (parts.front, (omega (arith, fewer, parts.counted), parts.back))

  read_one-Shorter : (buf : List ℕ) → AreBytes buf → Shorter (length buf) (read_one grants buf)
  unfolding read_one
  read_one-Shorter [] h = tt
  read_one-Shorter (b ∷ bs) h =
      take_header-Shorter (split_at 4 (b ∷ bs)) (length (b ∷ bs)) λ p rest e.
        let parts = split_at-Parts 4 (b ∷ bs) p rest h e in
        (omega (arith, parts.counted), parts.back)

  abbrev Ends : ℕ → List ℕ → WalReadResult → Type 0
  Ends fuel buf result =
      (result' : WalReadResult) × (read_from grants fuel buf result ≡ some result')

  pass_total :
      (fuel : ℕ) (buf : List ℕ) (result : WalReadResult)
      → length buf < suc fuel
      → ((rest : List ℕ) (r : WalReadResult)
          → length rest < fuel
          → AreBytes rest
          → Ends fuel rest r)
      → (p : Pass) → read_one grants buf ≡ p
      → Shorter (length buf) p
      → Ends (suc fuel) buf result
  unfolding read_from
  pass_total fuel buf result h ih at_end e s = (result, ground (arith, e))
  pass_total fuel buf result h ih truncated e s =
      (record result { truncated_tail = true }, ground (arith, e))
  pass_total fuel buf result h ih corrupt e s =
      (record result { corrupt_record = true }, ground (arith, e))
  pass_total fuel buf result h ih threw e s = absurd s
  pass_total fuel buf result h ih (parsed r len rest) e s =
      let more = record result {
        last_valid_lsn = r.lsn;
        bytes_read = (result.bytes_read + len) % u64_mod;
        records = result.records ++ r ∷ [];
      } in
      let (result', run) = ih rest more (omega (arith, h, s.0)) s.1 in
      (result', ground (arith, e, run))

  read_from_total :
      (fuel : ℕ) (buf : List ℕ) (result : WalReadResult)
      → length buf < fuel
      → AreBytes buf
      → Ends fuel buf result
  read_from_total zero buf result h b = absurd (omega (arith, h))
  read_from_total (suc fuel) buf result h b =
      pass_total fuel buf result h (read_from_total fuel) (read_one grants buf) refl
        (read_one-Shorter buf b)

  -- Where memory can be had for as many values as 32 bits can count, the reader ends with a result
  -- on any file of bytes.
  pub read_all_total :
      (file : List ℕ)
      → AreBytes file
      → (result : WalReadResult) × (read_all grants file ≡ some result)
  unfolding read_all
  read_all_total file b = read_from_total (length file + 1) file no_records (omega arith) b
