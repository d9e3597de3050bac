-- ===== src/Storage/Pruning/Range.antt =====
-- The bounds that `Segment::Build` of src/storage/segment.cpp widens take in every value that is not
-- NULL, in a column of numbers.
use coredb.Prelude.{
  ℕ, ◌≡◌, refl, Bool, true, false, some, if◌then◌else◌, arith, Bool-cases, inl, inr,
}
use coredb.Storage.Types.{Value, Double, three_way, as_double}
use coredb.Storage.Segment.{Column, widen, is_below, is_above}
use coredb.Storage.Segment.Widen.{widen_by}
use coredb.Storage.Pruning.{IsOrder, compare_numeric}

module _ (d : Double) (ordinary : ℕ → Bool) (o : IsOrder d.less ordinary) where
  -- The bounds, as doubles.
  pub record Range (col : Column) : Type 0 where
    pub lo : ℕ
    pub hi : ℕ
    pub min : as_double d col.min ≡ some lo
    pub max : as_double d col.max ≡ some hi
    pub ordinary_lo : ordinary lo ≡ true
    pub ordinary_hi : ordinary hi ≡ true

  abbrev pub IsWithin : (col : Column) → Range col → ℕ → Type 0
  IsWithin col range x =
      (ordinary x ≡ true) × (d.less x range.lo ≡ false) × (d.less range.hi x ≡ false)

  irreflexive : (x : ℕ) → ordinary x ≡ true → d.less x x ≡ false
  irreflexive x ox = elim (Bool-cases (d.less x x)) [ inl e ↦ o.asym x x ox ox e | inr e ↦ e ]

  below_lem : (x y : ℕ) → is_below (three_way d.less x y) ≡ d.less x y
  unfolding three_way
  below_lem x y = ground arith

  above_lem :
      (x y : ℕ)
      → ordinary x ≡ true
      → ordinary y ≡ true
      → is_above (three_way d.less x y) ≡ d.less y x
  unfolding three_way
  above_lem x y ox oy = ground (arith, o.asym x y ox oy, o.asym y x oy ox)

  -- The smaller and the larger of a bound and a new value.
  abbrev lower : ℕ → ℕ → ℕ
  lower x lo = if d.less x lo then x else lo

  abbrev upper : ℕ → ℕ → ℕ
  upper x hi = if d.less hi x then x else hi

  lower_lem :
      (x lo y : ℕ)
      → ordinary x ≡ true
      → ordinary lo ≡ true
      → ordinary y ≡ true
      → d.less y lo ≡ false
      → d.less y (lower x lo) ≡ false
  lower_lem x lo y ox ol oy h = elim (Bool-cases (d.less x lo)) [
    | inl e ↦ rw e (o.not_less y lo x oy ol ox h (o.asym x lo ox ol e))
    | inr e ↦ rw e h
  ]

  upper_lem :
      (x hi y : ℕ)
      → ordinary x ≡ true
      → ordinary hi ≡ true
      → ordinary y ≡ true
      → d.less hi y ≡ false
      → d.less (upper x hi) y ≡ false
  upper_lem x hi y ox oh oy h = elim (Bool-cases (d.less hi x)) [
    | inl e ↦ rw e (o.not_less x hi y ox oh oy (o.asym hi x oh ox e) h)
    | inr e ↦ rw e h
  ]

  lower_self : (x lo : ℕ) → ordinary x ≡ true → d.less x (lower x lo) ≡ false
  lower_self x lo ox = elim (Bool-cases (d.less x lo)) [
    | inl e ↦ rw e (irreflexive x ox)
    | inr e ↦ rw e e
  ]

  upper_self : (x hi : ℕ) → ordinary x ≡ true → d.less (upper x hi) x ≡ false
  upper_self x hi ox = elim (Bool-cases (d.less hi x)) [
    | inl e ↦ rw e (irreflexive x ox)
    | inr e ↦ rw e e
  ]

  -- What widening the bounds by a number gives: the number is within them, and what was still is.
  pub record Widens (col : Column) (old : Range col) (col' : Column) (x : ℕ) : Type 0 where
    pub range : Range col'
    pub here : IsWithin col' range x
    pub there : (y : ℕ) → IsWithin col old y → IsWithin col' range y

  -- Either bound, as a double, after a choice between the old one and the value.
  chosen :
      (b : Bool) (v w : Value) (x y : ℕ)
      → as_double d v ≡ some x
      → as_double d w ≡ some y
      → as_double d (if b then v else w) ≡ some (if b then x else y)
  chosen true v w x y p q = p
  chosen false v w x y p q = q

  chosen-ordinary :
      (b : Bool) (x y : ℕ)
      → ordinary x ≡ true
      → ordinary y ≡ true
      → ordinary (if b then x else y) ≡ true
  chosen-ordinary true x y p q = p
  chosen-ordinary false x y p q = q

  module _ (v : Value) (x : ℕ) (e : as_double d v ≡ some x) (ox : ordinary x ≡ true) where
    pub extend_bounds :
        (col : Column)
        → (old : Range col)
        → (col' : Column) × (widen d true col v ≡ some col') × Widens col old col' x
    extend_bounds col old =
        let lo = three_way d.less x old.lo in
        let hi = three_way d.less x old.hi in
        let below_lo = below_lem x old.lo in
        let above_hi = above_lem x old.hi ox old.ordinary_hi in
        (
          _,
          widen_by d col v lo hi (compare_numeric d v col.min e old.min)
              (compare_numeric d v col.max e old.max),
          record {
            range = record {
              lo = lower x old.lo;
              hi = upper x old.hi;
              min = rw below_lo (chosen (d.less x old.lo) v col.min x old.lo e old.min);
              max = rw above_hi (chosen (d.less old.hi x) v col.max x old.hi e old.max);
              ordinary_lo = chosen-ordinary (d.less x old.lo) x old.lo ox old.ordinary_lo;
              ordinary_hi = chosen-ordinary (d.less old.hi x) x old.hi ox old.ordinary_hi;
            };
            here = (ox, lower_self x old.lo ox, upper_self x old.hi ox);
            there = λ y h. (
              h.0,
              lower_lem x old.lo y ox old.ordinary_lo h.0 h.1,
              upper_lem x old.hi y ox old.ordinary_hi h.0 h.2,
            );
          },
        )

    pub set_bounds :
        (col : Column)
        → (col' : Column) × (widen d false col v ≡ some col')
          × (range : Range col') × IsWithin col' range x
    unfolding widen
    set_bounds col = (
      _,
      refl,
      record { lo = x; hi = x; min = e; max = e; ordinary_lo = ox; ordinary_hi = ox },
      (ox, irreflexive x ox, irreflexive x ox),
    )
