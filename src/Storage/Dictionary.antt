-- ===== src/Storage/Dictionary.antt =====
-- include/coredb/storage/dictionary.h: the codes of a string column. A string is its bytes.
pub mod Laws
pub mod Indexed
use coredb.Prelude.{
  ℕ, zero, suc, ◌+◌, ◌%◌, ◌^◌, Bool, true, false, ◌&&◌, List, [], ◌∷◌, ◌++◌, Option, none, some,
  ◌==◌, if◌then◌else◌, length, get_elem?,
}

unfoldable pub string_eq : List ℕ → List ℕ → Bool
string_eq [] [] = true
string_eq [] (b ∷ bs) = false
string_eq (a ∷ s) [] = false
string_eq (a ∷ s) (b ∷ t) = a == b && string_eq s t

-- `std::unordered_map<std::string, uint32_t>`
abbrev pub CodeMap : Type 0
CodeMap = List (List ℕ × ℕ)

unfoldable pub find_code : List ℕ → CodeMap → Option ℕ
find_code value [] = none
find_code value ((s, code) ∷ m) = if string_eq s value then some code else find_code value m

-- `emplace` leaves a key that is there alone.
unfoldable pub emplace : List ℕ → ℕ → CodeMap → CodeMap
emplace value code [] = (value, code) ∷ []
emplace value code ((s, c) ∷ m) =
    if string_eq s value then (s, c) ∷ m else (s, c) ∷ emplace value code m

pub record Dictionary : Type 0 where
  pub values : List (List ℕ)
  pub code_of : CodeMap

abbrev pub empty : Dictionary
empty = record { values = []; code_of = [] }

abbrev size32 : List (List ℕ) → ℕ
size32 values = length values % 2 ^ 32

unfoldable pub intern_or_get : Dictionary → List ℕ → Dictionary × ℕ
intern_or_get dict value = elim (find_code value dict.code_of) [
  | some code ↦ (dict, code)
  | none ↦ (
    record {
      values = dict.values ++ value ∷ [];
      code_of = emplace value (size32 dict.values) dict.code_of;
    },
    size32 dict.values,
  )
]

unfoldable pub try_get_code : Dictionary → List ℕ → Option ℕ
try_get_code dict value = find_code value dict.code_of

-- `values_.at(code)`: `none` is `std::out_of_range`.
unfoldable pub value_of : Dictionary → ℕ → Option (List ℕ)
value_of dict code = get_elem? dict.values code

emplace_all : ℕ → List (List ℕ) → CodeMap → CodeMap
emplace_all code [] m = m
emplace_all code (v ∷ vs) m = emplace_all (code + 1) vs (emplace v code m)

unfoldable pub from_values : List (List ℕ) → Dictionary
unfolding emplace_all
from_values values = record { values = values; code_of = emplace_all 0 values [] }
