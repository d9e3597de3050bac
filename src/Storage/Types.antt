-- ===== src/Storage/Types.antt =====
-- include/coredb/storage/types.h and src/storage/types.cpp: cell values, and how two are compared.
--
-- An `int32_t`, an `int64_t` and a `double` are the bit patterns that hold them, numbers below
-- 2 ^ 32 and 2 ^ 64; a `std::string` is the list of its bytes.
use coredb.Prelude.{
  ◌<◌, ◌^◌, length, ℕ, Bool, true, false, Option, none, some, List, [], ◌∷◌, ltb, ◌>>=◌,
  if◌then◌else◌,
}

pub data ColumnType : Type 0 where
  int32 int64 double string : ColumnType

pub record ColumnSchema : Type 0 where
  pub name : List ℕ
  pub type : ColumnType

abbrev pub Schema : Type 0
Schema = List ColumnSchema

-- `std::variant<std::monostate, int32_t, int64_t, double, std::string>`
pub data Value : Type 0 where
  null : Value
  int32 int64 double : ℕ → Value
  string : List ℕ → Value

abbrev pub Row : Type 0
Row = List Value

pub data PredicateOp : Type 0 where
  eq ne lt le gt ge : PredicateOp

-- What the processor's doubles do: the conversions `static_cast<double>`, from patterns to
-- patterns, and `<`.
pub record Double : Type 0 where
  pub of_int32 : ℕ → ℕ
  pub of_int64 : ℕ → ℕ
  pub less : ℕ → ℕ → Bool

-- The results -1, 0 and 1 of a three-way comparison.
pub data Comparison : Type 0 where
  below equal above : Comparison

-- `operator<` of `std::string`
unfoldable pub string_less : List ℕ → List ℕ → Bool
string_less [] [] = false
string_less [] (b ∷ bs) = true
string_less (a ∷ as') [] = false
string_less (a ∷ as') (b ∷ bs) =
    let rest = string_less as' bs in if ltb a b then true else if ltb b a then false else rest

unfoldable pub three_way {ℓ} : {A : Type ℓ} → (A → A → Bool) → A → A → Comparison
three_way less a b = if less a b then below else if less b a then above else equal

module _ (d : Double) where
  -- `AsDouble` where `IsNumeric` holds, and `none` where it does not
  unfoldable pub as_double : Value → Option ℕ
  as_double (int32 i) = some (d.of_int32 i)
  as_double (int64 i) = some (d.of_int64 i)
  as_double (double x) = some x
  as_double v = none

  -- `none` is the `std::logic_error` on incompatible or NULL operands.
  unfoldable pub compare_values : Value → Value → Option Comparison
  unfolding as_double three_way
  compare_values (string a) (string b) = some (three_way string_less a b)
  compare_values lhs rhs = do a ← as_double lhs; b ← as_double rhs; some (three_way d.less a b)

abbrev pub holds : PredicateOp → Comparison → Bool
holds eq c = elim c [ equal ↦ true | _ ↦ false ]
holds ne c = elim c [ equal ↦ false | _ ↦ true ]
holds lt c = elim c [ below ↦ true | _ ↦ false ]
holds le c = elim c [ above ↦ false | _ ↦ true ]
holds gt c = elim c [ above ↦ true | _ ↦ false ]
holds ge c = elim c [ below ↦ false | _ ↦ true ]

module _ (d : Double) where
  unfoldable pub evaluate_predicate : Value → PredicateOp → Value → Option Bool
  evaluate_predicate null op literal = some false
  evaluate_predicate column_value op literal = do
    cmp ← compare_values d column_value literal
    some (holds op cmp)

-- A cell whose bit pattern fits its width; the length of a string fits 32 bits.
abbrev pub InRange : Value → Type 0
InRange null = Unit
InRange (int32 i) = i < 2 ^ 32
InRange (int64 i) = i < 2 ^ 64
InRange (double d) = d < 2 ^ 64
InRange (string s) = length s < 2 ^ 32
