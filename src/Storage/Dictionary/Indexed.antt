-- ===== src/Storage/Dictionary/Indexed.antt =====
-- Interning in include/coredb/storage/dictionary.h builds the map that `FromValues` builds.
use coredb.Prelude.{
  ℕ, suc, ◌+◌, ◌%◌, ◌^◌, ◌<◌, ◌≡◌, refl, ap, ◌∙◌, List, [], ◌∷◌, ◌++◌, none, some, arith, length,
  Option-cases, inl, inr,
}
use coredb.Storage.Dictionary.{
  Dictionary, CodeMap, find_code, emplace, emplace_all, intern_or_get, from_values,
}

emplace_all-snoc :
    (k : ℕ) (vs : List (List ℕ)) (v : List ℕ) (m : CodeMap)
    → emplace_all k (vs ++ v ∷ []) m ≡ emplace v (k + length vs) (emplace_all k vs m)
unfolding emplace_all
emplace_all-snoc k [] v m = let e : k + 0 ≡ k = omega arith in rw e refl
emplace_all-snoc k (u ∷ vs) v m =
    let e : k + 1 + length vs ≡ k + suc (length vs) = omega arith in
    emplace_all-snoc (k + 1) vs v (emplace u k m)
    ∙ ap (λ n. emplace v n (emplace_all (k + 1) vs (emplace u k m))) e

-- A dictionary as `from_values` makes it of its values.
abbrev pub IsIndexed : Dictionary → Type 0
IsIndexed dict = dict ≡ from_values dict.values

pub intern_known :
    (dict : Dictionary) (value : List ℕ) (code : ℕ)
    → find_code value dict.code_of ≡ some code
    → intern_or_get dict value ≡ (dict, code)
unfolding intern_or_get
intern_known dict value code e = ground (arith, e)

pub intern_new :
    (dict : Dictionary) (value : List ℕ)
    → find_code value dict.code_of ≡ none
    → intern_or_get dict value ≡ (
      record {
        values = dict.values ++ value ∷ [];
        code_of = emplace value (length dict.values % 2 ^ 32) dict.code_of;
      },
      length dict.values % 2 ^ 32,
    )
unfolding intern_or_get
intern_new dict value e = ground (arith, e)

pub intern_or_get-IsIndexed :
    (dict : Dictionary) (value : List ℕ)
    → length dict.values < 2 ^ 32
    → IsIndexed dict
    → IsIndexed (intern_or_get dict value).0
unfolding from_values
intern_or_get-IsIndexed dict value small h = elim (Option-cases (find_code value dict.code_of)) [
  | inr (code, e) ↦ rw (intern_known dict value code e) h
  | inl e ↦
      let size : length dict.values % 2 ^ 32 ≡ 0 + length dict.values = omega (arith, small) in
      let codes : dict.code_of ≡ emplace_all 0 dict.values [] = ap (λ x. x.code_of) h in
      rw (intern_new dict value e, emplace_all-snoc 0 dict.values value [], size, codes) refl
]
