-- ===== src/Recovery/Manifest/RoundTrip.antt =====
-- What `WriteCheckpoint` of src/recovery/checkpoint.cpp prints, `LoadManifest` reads.
use mathlib.Core.List.{append_assoc, append-nil}
use native.Mathlib.Nat.{pow-suc}
use coredb.Prelude.{
  ℕ, zero, suc, ◌+◌, ◌/◌, ◌%◌, ◌^◌, ◌<◌, ◌≤◌, ◌≡◌, ◌≢◌, refl, subst, ◌∙◌, false, List, [], ◌∷◌,
  ◌++◌, some, ◌==◌, ==_iff, ltb, All, arith, Bool-cases, inl, inr,
}
use coredb.Storage.Dictionary.{string_eq}
use coredb.Recovery.Manifest.{
  ManifestResult, newline, lsn_tag, digits, to_string, lines, manifest_text, split_lines,
  skip_spaces, take_word, read_digits, read_u64, non_empty, parse_manifest, load_manifest,
}

abbrev pub IsDigit : ℕ → Type 0
IsDigit c = (48 ≤ c) × (c < 58)

-- A character that ends no line.
abbrev pub IsPlain : ℕ → Type 0
IsPlain c = (c == newline) ≡ false

pub digit-IsPlain : (c : ℕ) → IsDigit c → IsPlain c
digit-IsPlain c digit = elim (Bool-cases (c == newline)) [
  | inl ends ↦ let is_newline : c ≡ newline = (==_iff c newline).0 ends in absurd (omega arith)
  | inr plain ↦ plain
]

-- A printed number starts with a digit.
pub digits-starts :
    (fuel n : ℕ) (out : List ℕ)
    → 0 < fuel
    → n < 10 ^ fuel
    → (c : ℕ) × (s : List ℕ) × (digits fuel n out ≡ c ∷ s) × IsDigit c
unfolding digits
digits-starts zero n out pos h = absurd (omega arith)
digits-starts (suc zero) n out pos h = (48 + n, out, ground arith, (omega arith, omega arith))
digits-starts (suc (suc fuel)) n out pos h = elim (Bool-cases (ltb n 10)) [
  | inl small ↦ (48 + n, out, rw small refl, (ground arith, ground arith))
  | inr large ↦
      let fewer : n / 10 < 10 ^ suc fuel = omega (arith, pow-suc 10 (suc fuel)) in
      let (c, s, at, digit) =
        digits-starts (suc fuel) (n / 10) ((48 + n % 10) ∷ out) (omega arith) fewer in
      (c, s, ground (arith, large, at), digit)
]

pub digits-All :
    (P : ℕ → Type 0) (fuel n : ℕ) (out : List ℕ)
    → ((c : ℕ) → IsDigit c → P c)
    → All P out
    → All P (digits fuel n out)
unfolding digits
digits-All P zero n out p h = h
digits-All P (suc fuel) n out p h = elim (Bool-cases (ltb n 10)) [
  | inl small ↦ rw small (p (48 + n) (omega arith, ground arith), h)
  | inr large ↦ rw large (
      digits-All P fuel (n / 10) ((48 + n % 10) ∷ out) p
        (p (48 + n % 10) (omega arith, omega arith), h))
]

-- A printed number is read back in front of what follows.
pub read_digits-digits :
    (fuel n : ℕ) (out : List ℕ)
    → 0 < fuel
    → n < 10 ^ fuel
    → read_digits (digits fuel n out) 0 ≡ read_digits out n
unfolding digits read_digits
read_digits-digits zero n out pos h = absurd (omega arith)
read_digits-digits (suc zero) n out pos h = ground arith
read_digits-digits (suc (suc fuel)) n out pos h =
    let fewer : n / 10 < 10 ^ suc fuel = omega (arith, pow-suc 10 (suc fuel)) in
    ground (arith, read_digits-digits (suc fuel) (n / 10) ((48 + n % 10) ∷ out) (omega arith) fewer)

-- A line
split_lines-line :
    (line f text : List ℕ)
    → All IsPlain f
    → split_lines line (f ++ newline ∷ text) ≡ (line ++ f) ∷ split_lines [] text
unfolding split_lines
split_lines-line [] [] text h = refl
split_lines-line (b ∷ line) [] text h = rw (append-nil line) refl
split_lines-line line (c ∷ f) text h =
    let shifted : (line ++ c ∷ []) ++ f ≡ line ++ c ∷ f = append_assoc line (c ∷ []) f in
    ground (arith, h.0, split_lines-line (line ++ c ∷ []) f text h.1, shifted)

abbrev pub IsFilename : List ℕ → Type 0
IsFilename f = (f ≢ []) × All IsPlain f

split_lines-lines : (fs : List (List ℕ)) → All IsFilename fs → split_lines [] (lines fs) ≡ fs
unfolding lines split_lines
split_lines-lines [] h = refl
split_lines-lines (f ∷ fs) h =
    rw (split_lines-line [] f (lines fs) h.0.1, split_lines-lines fs h.1) refl

non_empty-lines : (fs : List (List ℕ)) → All IsFilename fs → non_empty fs ≡ fs
non_empty-lines [] h = refl
non_empty-lines ([] ∷ fs) h = absurd (h.0.0 refl)
non_empty-lines ((c ∷ f) ∷ fs) h = rw (non_empty-lines fs h.1) refl

digits-append :
    (fuel n : ℕ) (out more : List ℕ) → digits fuel n (out ++ more) ≡ digits fuel n out ++ more
unfolding digits
digits-append zero n out more = refl
digits-append (suc fuel) n out more =
    ground (arith, digits-append fuel (n / 10) ((48 + n % 10) ∷ out) more)

no_digits : (n : ℕ) → read_digits [] n ≡ n
unfolding read_digits
no_digits n = refl

-- A number that a stream prints is the number that it reads.
read_u64-to_string : (n : ℕ) → n < 2 ^ 64 → read_u64 (skip_spaces (to_string n [])) ≡ n
unfolding read_u64 skip_spaces
read_u64-to_string n small =
    let fits : n < 10 ^ 20 = omega arith in
    let (c, s, at, digit) = digits-starts 20 n [] (omega arith) fits in
    let value : read_digits (c ∷ s) 0 ≡ n =
      subst (λ t. read_digits t 0 ≡ n) at
        (read_digits-digits 20 n [] (omega arith) fits ∙ no_digits n) in
    rw at (ground (arith, value, digit))

abbrev first_line : ℕ → List ℕ
first_line wal_lsn = lsn_tag ++ 0x20 ∷ to_string wal_lsn []

first_line-no_newline : (wal_lsn : ℕ) → All IsPlain (first_line wal_lsn)
first_line-no_newline wal_lsn =
    let number = digits-All IsPlain 20 wal_lsn [] digit-IsPlain tt in
    (refl, (refl, (refl, (refl, number))))

parse_manifest-first_line :
    (wal_lsn : ℕ) (ls : List (List ℕ))
    → wal_lsn < 2 ^ 64
    → parse_manifest (first_line wal_lsn ∷ ls)
      ≡ ManifestResult.manifest (record { last_lsn = wal_lsn; segment_files = non_empty ls })
unfolding parse_manifest take_word skip_spaces string_eq
parse_manifest-first_line wal_lsn ls small = rw (read_u64-to_string wal_lsn small) refl

-- A manifest printed for an LSN below 2 ^ 64 and for file names that are not empty and have no
-- line break is read back with this LSN and these names.
pub load_manifest-manifest_text :
    (wal_lsn : ℕ) (filenames : List (List ℕ))
    → wal_lsn < 2 ^ 64
    → All IsFilename filenames
    → load_manifest (some (manifest_text wal_lsn filenames))
      ≡ ManifestResult.manifest (record { last_lsn = wal_lsn; segment_files = filenames })
unfolding load_manifest manifest_text
load_manifest-manifest_text wal_lsn filenames small h =
    rw
      (
        digits-append 20 wal_lsn [] (newline ∷ lines filenames),
        split_lines-line [] (first_line wal_lsn) (lines filenames) (first_line-no_newline wal_lsn),
        split_lines-lines filenames h,
        parse_manifest-first_line wal_lsn filenames small,
        non_empty-lines filenames h,
      )
      refl
