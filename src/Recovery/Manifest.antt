-- ===== src/Recovery/Manifest.antt =====
-- The checkpoint manifest of src/recovery/checkpoint.cpp as text: a first line with the last LSN, and
-- a line for each segment file. Characters are their codes, and a stream's `>>` and `<<` are the
-- standard library's, for a decimal `uint64_t`.
pub mod RoundTrip
mod Tests
use coredb.Prelude.{
  ℕ, zero, suc, ◌+◌, ◌-◌, ◌*◌, ◌/◌, ◌%◌, ◌^◌, Bool, true, false, ◌&&◌, ◌||◌, List, [], ◌∷◌, ◌++◌,
  Option, none, some, ◌==◌, ltb, leb, if◌then◌else◌, u64_mod,
}
use coredb.Storage.Dictionary.{string_eq}

pub record CheckpointManifest : Type 0 where
  pub last_lsn : ℕ
  pub segment_files : List (List ℕ)

-- What `LoadManifest` returns, or the text it leaves in `*error`.
pub data ManifestResult : Type 0 where
  manifest : CheckpointManifest → ManifestResult
  no_file empty_file no_header : ManifestResult

abbrev pub newline : ℕ
newline = 10

-- "LSN"
abbrev pub lsn_tag : List ℕ
lsn_tag = 0x4C ∷ 0x53 ∷ 0x4E ∷ []

-- The decimal digits of a number in front of `out`, the last one first.
unfoldable pub digits : ℕ → ℕ → List ℕ → List ℕ
digits zero n out = out
digits (suc fuel) n out =
    let more = digits fuel (n / 10) ((48 + n % 10) ∷ out) in
    if ltb n 10 then (48 + n) ∷ out else more

-- `std::to_string`, and `<<`, of a `uint64_t`, which has at most 20 digits
abbrev pub to_string : ℕ → List ℕ → List ℕ
to_string n out = digits 20 n out

unfoldable pub lines : List (List ℕ) → List ℕ
lines [] = []
lines (f ∷ fs) = f ++ newline ∷ lines fs

unfoldable pub manifest_text : ℕ → List (List ℕ) → List ℕ
unfolding lines
manifest_text wal_lsn filenames = (lsn_tag ++ 0x20 ∷ to_string wal_lsn (newline ∷ lines filenames))

-- The lines that `std::getline` gives one after the other; `line` is what it has of the first.
unfoldable pub split_lines : List ℕ → List ℕ → List (List ℕ)
split_lines [] [] = []
split_lines (c ∷ line) [] = (c ∷ line) ∷ []
split_lines line (c ∷ text) =
    let here = split_lines (line ++ c ∷ []) text in
    let next = split_lines [] text in if c == newline then line ∷ next else here

abbrev pub is_space : ℕ → Bool
is_space c = c == 0x20 || (leb 9 c && leb c 13)

abbrev pub is_digit : ℕ → Bool
is_digit c = leb 48 c && leb c 57

unfoldable pub skip_spaces : List ℕ → List ℕ
skip_spaces [] = []
skip_spaces (c ∷ s) = let rest = skip_spaces s in if is_space c then rest else c ∷ s

-- The characters up to the next space, and the rest.
unfoldable pub take_word : List ℕ → List ℕ × List ℕ
take_word [] = ([], [])
take_word (c ∷ s) =
    let rest = take_word s in if is_space c then ([], c ∷ s) else (c ∷ rest.0, rest.1)

-- The number that the digits at the front stand for, behind the digits of `n`.
unfoldable pub read_digits : List ℕ → ℕ → ℕ
read_digits [] n = n
read_digits (c ∷ s) n =
    let more = read_digits s (n * 10 + (c - 48)) in if is_digit c then more else n

-- Without a digit a number is 0, and one that does not fit is the largest.
abbrev pub fitted : List ℕ → ℕ
fitted [] = 0
fitted (c ∷ s) =
    if is_digit c
    then (let n = read_digits (c ∷ s) 0 in if ltb n u64_mod then n else u64_mod - 1)
    else 0

-- `>> last_lsn`, which takes a sign
unfoldable pub read_u64 : List ℕ → ℕ
unfolding read_digits
read_u64 [] = 0
read_u64 (c ∷ s) =
    if c == 0x2D
    then (if ltb (read_digits s 0) u64_mod then (u64_mod - fitted s) % u64_mod else u64_mod - 1)
    else if c == 0x2B
    then fitted s
    else fitted (c ∷ s)

abbrev pub non_empty : List (List ℕ) → List (List ℕ)
non_empty [] = []
non_empty ([] ∷ ls) = non_empty ls
non_empty ((c ∷ l) ∷ ls) = (c ∷ l) ∷ non_empty ls

unfoldable pub parse_manifest : List (List ℕ) → ManifestResult
unfolding take_word skip_spaces read_u64
parse_manifest [] = ManifestResult.empty_file
parse_manifest (first_line ∷ lines) =
    let tag = take_word (skip_spaces first_line) in
    if string_eq tag.0 lsn_tag
    then ManifestResult.manifest
        (record { last_lsn = read_u64 (skip_spaces tag.1); segment_files = non_empty lines })
    else ManifestResult.no_header

-- `LoadManifest`, on what the file holds, if there is one
unfoldable pub load_manifest : Option (List ℕ) → ManifestResult
unfolding parse_manifest split_lines
load_manifest none = ManifestResult.no_file
load_manifest (some text) = parse_manifest (split_lines [] text)
