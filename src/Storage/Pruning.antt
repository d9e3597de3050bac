-- ===== src/Storage/Pruning.antt =====
-- `Segment::CanSkip` of src/storage/segment.cpp against the values of the column.
pub mod Range
pub mod Spans
pub mod Built
use coredb.Prelude.{ℕ, ◌≡◌, refl, Bool, true, false, List, [], ◌∷◌, some, get_elem?, arith, All, ap}
use coredb.Storage.Types.{
  PredicateOp, eq, ne, lt, le, gt, ge, Value, null, int32, int64, double, string, Double, three_way,
  string_less, compare_values, evaluate_predicate, as_double, holds,
}
use coredb.Storage.Segment.{Segment, Column, can_skip, skips}

-- `<` among the values with the property: nothing is below what is below it, and not to be below
-- is transitive, as for the doubles but NaN.
pub record IsOrder {ℓ} {A : Type ℓ} (less : A → A → Bool) (ordinary : A → Bool) : Type ℓ where
  pub asym : (a b : A) → ordinary a ≡ true → ordinary b ≡ true → less a b ≡ true → less b a ≡ false
  pub not_less :
      (a b c : A)
      → ordinary a ≡ true
      → ordinary b ≡ true
      → ordinary c ≡ true
      → less a b ≡ false
      → less b c ≡ false
      → less a c ≡ false

module _ {ℓ} {A : Type ℓ} (less : A → A → Bool) (ordinary : A → Bool)
    (o : IsOrder less ordinary) where
  -- A value between the bounds fails the predicate that the bounds let skip.
  skips_sound :
      (op : PredicateOp) (x lo hi l : A)
      → ordinary x ≡ true
      → ordinary lo ≡ true
      → ordinary hi ≡ true
      → ordinary l ≡ true
      → less x lo ≡ false
      → less hi x ≡ false
      → skips op (three_way less l lo) (three_way less l hi) ≡ true
      → holds op (three_way less x l) ≡ false
  unfolding three_way
  skips_sound eq x lo hi l ox olo ohi ol above_lo below_hi s =
      ground (arith, o.not_less l x lo, o.not_less hi x l, o.asym l lo, o.asym hi l)
  skips_sound ne x lo hi l ox olo ohi ol above_lo below_hi s = cc
  skips_sound lt x lo hi l ox olo ohi ol above_lo below_hi s =
      ground (arith, o.not_less x lo l, o.asym l lo)
  skips_sound le x lo hi l ox olo ohi ol above_lo below_hi s =
      ground (arith, o.not_less l x lo, o.asym l x)
  skips_sound gt x lo hi l ox olo ohi ol above_lo below_hi s = ground (arith, o.not_less l hi x)
  skips_sound ge x lo hi l ox olo ohi ol above_lo below_hi s = ground (arith, o.not_less hi x l)

string_less_asym : (a b : List ℕ) → string_less a b ≡ true → string_less b a ≡ false
unfolding string_less
string_less_asym [] [] h = cc
string_less_asym [] (b ∷ t) h = refl
string_less_asym (a ∷ s) [] h = cc
string_less_asym (a ∷ s) (b ∷ t) h = ground (arith, string_less_asym s t)

string_less_not :
    (a b c : List ℕ) → string_less a b ≡ false → string_less b c ≡ false → string_less a c ≡ false
unfolding string_less
string_less_not [] b [] h k = refl
string_less_not (a ∷ s) b [] h k = refl
string_less_not [] [] (c ∷ u) h k = cc
string_less_not [] (b ∷ t) (c ∷ u) h k = cc
string_less_not (a ∷ s) [] (c ∷ u) h k = cc
string_less_not (a ∷ s) (b ∷ t) (c ∷ u) h k = ground (arith, string_less_not s t u)

string_less-IsOrder : IsOrder string_less (λ s. true)
string_less-IsOrder = record {
  asym = λ a b _ _. string_less_asym a b;
  not_less = λ a b c _ _ _. string_less_not a b c;
}

module _ (d : Double) where
  pub compare_numeric :
      (a b : Value) {x y : ℕ}
      → as_double d a ≡ some x
      → as_double d b ≡ some y
      → compare_values d a b ≡ some (three_way d.less x y)
  unfolding compare_values as_double
  compare_numeric (int32 i) b p q = ground (arith, p, q)
  compare_numeric (int64 i) b p q = ground (arith, p, q)
  compare_numeric (double i) b p q = ground (arith, p, q)
  compare_numeric a b p q = cc

  evaluate_numeric :
      (v : Value) (op : PredicateOp) (l : Value) {x y : ℕ}
      → as_double d v ≡ some x
      → as_double d l ≡ some y
      → evaluate_predicate d v op l ≡ some (holds op (three_way d.less x y))
  unfolding evaluate_predicate
  evaluate_numeric null op l p q = unfold as_double in cc
  evaluate_numeric (int32 i) op l p q = rw (compare_numeric (int32 i) l p q)
  evaluate_numeric (int64 i) op l p q = rw (compare_numeric (int64 i) l p q)
  evaluate_numeric (double i) op l p q = rw (compare_numeric (double i) l p q)
  evaluate_numeric (string s) op l p q = unfold as_double in cc

  module _ (ordinary : ℕ → Bool) (o : IsOrder d.less ordinary) where
    -- Where CanSkip lets a scan skip a segment, a numeric value fails the predicate if it is not
    -- below the recorded minimum of the column nor above the recorded maximum, all of them convert
    -- to doubles, and the order of doubles is strict and its complement transitive on these four.
    pub can_skip_sound :
        (seg : Segment) (idx : ℕ) (col : Column) (op : PredicateOp) (literal v : Value)
        (lo hi l x : ℕ)
        → get_elem? seg.columns idx ≡ some col
        → as_double d col.min ≡ some lo
        → as_double d col.max ≡ some hi
        → as_double d literal ≡ some l
        → as_double d v ≡ some x
        → All (λ y. ordinary y ≡ true) (x ∷ lo ∷ hi ∷ l ∷ [])
        → d.less x lo ≡ false
        → d.less hi x ≡ false
        → can_skip d seg idx op literal ≡ some true
        → evaluate_predicate d v op literal ≡ some false
    unfolding can_skip
    can_skip_sound seg idx col op literal v lo hi l x at plo phi pl px ok above_lo below_hi s =
        rw (evaluate_numeric v op literal px pl) (
          ap some (
            skips_sound d.less ordinary o op x lo hi l ok.0 ok.1.0 ok.1.1.0 ok.1.1.1.0 above_lo
              below_hi
              (ground (
                arith,
                at,
                compare_numeric literal col.min pl plo,
                compare_numeric literal col.max pl phi,
              ))))
