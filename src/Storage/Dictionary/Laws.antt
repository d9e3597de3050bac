-- ===== src/Storage/Dictionary/Laws.antt =====
-- Codes and values of include/coredb/storage/dictionary.h are inverse to one another.
use coredb.Prelude.{
  ℕ, zero, suc, ◌+◌, ◌%◌, ◌^◌, ◌<◌, ◌≤◌, ◌≡◌, ◌↔◌, refl, true, List, [], ◌∷◌, ◌++◌, none, some,
  arith, ◌==◌, if◌then◌else◌, length, length-append, get_elem?, Option-cases, inl, inr,
}
use coredb.Storage.Dictionary.{
  Dictionary, CodeMap, string_eq, find_code, emplace, empty, intern_or_get, value_of,
}

pub string_eq_iff : (s t : List ℕ) → (string_eq s t ≡ true) ↔ (s ≡ t)
unfolding string_eq
string_eq_iff [] [] = ground arith
string_eq_iff [] (b ∷ t) = ground arith
string_eq_iff (a ∷ s) [] = ground arith
string_eq_iff (a ∷ s) (b ∷ t) = ground (arith, string_eq_iff s t)

find_code-emplace :
    (v w : List ℕ) (c : ℕ) (m : CodeMap)
    → find_code w (emplace v c m) ≡ (
        if string_eq v w
        then (elim (find_code w m) [ none ↦ some c | some d ↦ some d ])
        else find_code w m)
unfolding find_code emplace
find_code-emplace v w c [] = ground arith
find_code-emplace v w c ((s, d) ∷ m) =
    ground
      (arith, find_code-emplace v w c m, string_eq_iff v w, string_eq_iff s v, string_eq_iff s w)

-- A code stands for a value exactly if the map gives it, and codes fit in 32 bits.
pub record IsValid (dict : Dictionary) : Type 0 where
  pub coded :
      (v : List ℕ) (c : ℕ) → find_code v dict.code_of ≡ some c → get_elem? dict.values c ≡ some v
  pub decoded :
      (v : List ℕ) (c : ℕ) → get_elem? dict.values c ≡ some v → find_code v dict.code_of ≡ some c
  pub fits : length dict.values < 2 ^ 32

pub empty-IsValid : IsValid empty
unfolding find_code
empty-IsValid = record { coded = λ v c h. cc; decoded = λ v c h. cc; fits = omega arith }

-- `xs ++ [x]` at an index
get_elem?-snoc {ℓ} :
    {A : Type ℓ} (xs : List A) (x : A) (i : ℕ)
    → get_elem? (xs ++ x ∷ []) i ≡ (if i == length xs then some x else get_elem? xs i)
get_elem?-snoc [] x zero = refl
get_elem?-snoc [] x (suc i) = ground arith
get_elem?-snoc (y ∷ xs) x zero = ground arith
get_elem?-snoc (y ∷ xs) x (suc i) = ground (arith, get_elem?-snoc xs x i)

pub get_elem?-lt {ℓ} :
    {A : Type ℓ} (xs : List A) (i : ℕ) (x : A) → get_elem? xs i ≡ some x → i < length xs
get_elem?-lt [] i x h = cc
get_elem?-lt (y ∷ xs) zero x h = omega arith
get_elem?-lt (y ∷ xs) (suc i) x h = omega (arith, get_elem?-lt xs i x h)

module _ (dict : Dictionary) (d : IsValid dict) (value : List ℕ) where
  -- What interning a new value does.
  fresh_value :
      find_code value dict.code_of ≡ none
      → (v : List ℕ) (c : ℕ)
      → (find_code v (emplace value (length dict.values) dict.code_of) ≡ some c)
        ↔ (get_elem? (dict.values ++ value ∷ []) c ≡ some v)
  fresh_value new v c = ground (
    arith,
    find_code-emplace value v (length dict.values) dict.code_of,
    get_elem?-snoc dict.values value c,
    string_eq_iff value v,
    d.coded v c,
    d.decoded v c,
    get_elem?-lt dict.values c v,
  )

  intern_new :
      find_code value dict.code_of ≡ none
      → length dict.values < 2 ^ 32
      → intern_or_get dict value ≡ (
        record {
          values = dict.values ++ value ∷ [];
          code_of = emplace value (length dict.values) dict.code_of;
        },
        length dict.values,
      )
  unfolding intern_or_get
  intern_new new fits =
      let code : length dict.values % 2 ^ 32 ≡ length dict.values = omega arith in
      ground (arith, new, code)

  intern_known :
      (c : ℕ) → find_code value dict.code_of ≡ some c → intern_or_get dict value ≡ (dict, c)
  unfolding intern_or_get
  intern_known c old = ground (arith, old)

  module _ (room : length dict.values + 1 < 2 ^ 32) where
    -- Interning keeps a dictionary valid while its codes fit in 32 bits: the map gives a code to
    -- exactly the values that the list has there.
    pub intern_or_get-IsValid : IsValid (intern_or_get dict value).0
    intern_or_get-IsValid = elim (Option-cases (find_code value dict.code_of)) [
      | inl new ↦ rw (intern_new new d.fits) (record {
        coded = λ v c. (fresh_value new v c).0;
        decoded = λ v c. (fresh_value new v c).1;
        fits = omega (arith, length-append dict.values (value ∷ []));
      })
      | inr (c, old) ↦ rw (intern_known c old) d
    ]

  -- In a valid dictionary, the code that interning a value gives stands for that value.
  pub value_of-intern_or_get :
      value_of (intern_or_get dict value).0 (intern_or_get dict value).1 ≡ some value
  unfolding value_of
  value_of-intern_or_get = elim (Option-cases (find_code value dict.code_of)) [
    | inl new ↦
        rw (intern_new new d.fits)
          (ground (arith, get_elem?-snoc dict.values value (length dict.values)))
    | inr (c, old) ↦ rw (intern_known c old) (d.coded value c old)
  ]

  pub value_of-intern_old :
      (c : ℕ) (v : List ℕ)
      → value_of dict c ≡ some v
      → value_of (intern_or_get dict value).0 c ≡ some v
  unfolding value_of
  value_of-intern_old c v h = elim (Option-cases (find_code value dict.code_of)) [
    | inl new ↦
        rw (intern_new new d.fits)
          (ground (arith, get_elem?-snoc dict.values value c, get_elem?-lt dict.values c v h))
    | inr (k, old) ↦ rw (intern_known k old) h
  ]

  pub length-intern : length (intern_or_get dict value).0.values ≤ length dict.values + 1
  length-intern = elim (Option-cases (find_code value dict.code_of)) [
    | inl new ↦ rw (intern_new new d.fits) (omega (arith, length-append dict.values (value ∷ [])))
    | inr (k, old) ↦ rw (intern_known k old) (omega arith)
  ]
