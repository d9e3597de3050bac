-- ===== src/Storage/File/Keeps.antt =====
-- The loop of `Segment::Build` in src/storage/segment.cpp keeps a column that can be saved.
use coredb.Prelude.{
  ℕ, suc, ◌+◌, ◌^◌, ◌<◌, ◌≡◌, ◌⊎◌, refl, sym, ◌∙◌, subst, Bool, true, false, List, [], ◌∷◌, some,
  if◌then◌else◌, get_elem?, length, arith, Option-cases, inl, inr, All,
}
use coredb.Util.Bitmap.{set_valid}
use coredb.Storage.Types.{ColumnType, Value, null, Row, Double, InRange}
use coredb.Storage.Segment.{Column, widen, fill_cell, fill_rows, is_below, is_above}
use coredb.Storage.Segment.Store.{matches, fits, store_total}
use coredb.Storage.Segment.Widen.{compare_total, widen_by}
use coredb.Storage.Segment.Fill.{Filling, fill_total, fill_cell_value}
use coredb.Storage.File.Words.{Words, kept-Words, store-Words}

-- Bounds that fit their widths, if there are some.
abbrev Bounded : Column × Bool → Type 0
Bounded s =
    ((s.1 ≡ false) × ((s.0).min ≡ null) × ((s.0).max ≡ null))
    ⊎ ((s.1 ≡ true) × InRange (s.0).min × InRange (s.0).max)

abbrev pub Keeps : ColumnType → Column × Bool → Type 0
Keeps t s = Words t s.0 × Bounded s

chosen-InRange : (b : Bool) (v w : Value) → InRange v → InRange w → InRange (if b then v else w)
chosen-InRange true v w h k = h
chosen-InRange false v w h k = k

moved-Bounded :
    (col col' : Column) (b : Bool)
    → col'.min ≡ col.min
    → col'.max ≡ col.max
    → Bounded (col, b)
    → Bounded (col', b)
moved-Bounded col col' b p q (inl (has, lo, hi)) = inl (has, p ∙ lo, q ∙ hi)
moved-Bounded col col' b p q (inr (has, lo, hi)) =
    inr (has, subst InRange (sym p) lo, subst InRange (sym q) hi)

module _ (d : Double) (t : ColumnType) where
  widen-Keeps :
      (b : Bool) (col col' : Column) (v : Value)
      → matches t v ≡ true
      → InRange v
      → (b ≡ true → (matches t col.min ≡ true) × (matches t col.max ≡ true))
      → widen d b col v ≡ some col'
      → Keeps t (col, b)
      → Keeps t (col', true)
  unfolding widen
  widen-Keeps false col col' v m h typed e (w, bounds) =
      let same : record col { min = v; max = v } ≡ col' = ground (arith, e) in
      subst (λ k. Keeps t (k, true)) same
        (kept-Words t col col.validity v v col.checksum w, inr (refl, h, h))
  widen-Keeps true col col' v m h typed e (w, inl (no_bounds, lo, hi)) = cc
  widen-Keeps true col col' v m h typed e (w, inr (has, lo_fits, hi_fits)) =
      let (lo, p) = compare_total d t v col.min m (typed refl).0 in
      let (hi, q) = compare_total d t v col.max m (typed refl).1 in
      let same : record col {
        min = if is_below lo then v else col.min;
        max = if is_above hi then v else col.max;
      }
          ≡ col' =
        ground (arith, e, widen_by d col v lo hi p q) in
      subst (λ k. Keeps t (k, true)) same
        (
          kept-Words t col col.validity (if is_below lo then v else col.min)
              (if is_above hi then v else col.max) col.checksum w,
          inr (
            refl,
            chosen-InRange (is_below lo) v col.min h lo_fits,
            chosen-InRange (is_above hi) v col.max h hi_fits,
          ),
        )

  module _ (n r : ℕ) (s s' : Column × Bool) (f : Filling t n r s) (inside : r < n)
      (small : n < 2 ^ 32) where
    fill-value :
        (v : Value)
        → matches t v ≡ true
        → InRange v
        → fill_cell d r s v ≡ some s'
        → Keeps t s
        → Keeps t s'
    fill-value v m h e (w, bounds) =
        let (stored, st) =
          store_total t s.0 r v f.dict (omega (arith, f.room, inside, small)) m
            (omega (arith, f.sized, inside)) in
        let words = store-Words t s.0 stored r v f.dict h st.done w in
        elim (Option-cases (widen d s.1 stored v)) [
          | inl threw ↦
              absurd (ground (arith, e, fill_cell_value d t r s v m, f.type, st.done, threw))
          | inr (widened, ok) ↦
              let same : (widened, true) ≡ s' =
                ground (arith, e, fill_cell_value d t r s v m, f.type, st.done, ok) in
              subst (Keeps t) same (
                widen-Keeps s.1 stored widened v m h (λ has. rw (st.min, st.max) (f.bounds has)) ok
                  (words, moved-Bounded s.0 stored s.1 st.min st.max bounds))
        ]

    fill-null : fill_cell d r s null ≡ some s' → Keeps t s → Keeps t s'
    unfolding fill_cell
    fill-null e (w, bounds) =
        let validity = set_valid (s.0).validity r false in
        let col = record (s.0) { validity = validity } in
        let same : (col, s.1) ≡ s' = ground (arith, e) in
        subst (Keeps t) same (
          kept-Words t s.0 validity (s.0).min (s.0).max (s.0).checksum w,
          moved-Bounded s.0 col s.1 refl refl bounds,
        )

    fill-Keeps :
        (v : Value)
        → fits t v ≡ true
        → InRange v
        → fill_cell d r s v ≡ some s'
        → Keeps t s
        → Keeps t s'
    fill-Keeps null m h e k = fill-null e k
    fill-Keeps (Value.int32 x) m h e k = fill-value (Value.int32 x) m h e k
    fill-Keeps (Value.int64 x) m h e k = fill-value (Value.int64 x) m h e k
    fill-Keeps (Value.double x) m h e k = fill-value (Value.double x) m h e k
    fill-Keeps (Value.string x) m h e k = fill-value (Value.string x) m h e k

  -- Cell `c` of the row fits the type and its width.
  abbrev pub CellStorable : ℕ → Row → Type 0
  CellStorable c row = (v : Value) × (get_elem? row c ≡ some v) × (fits t v ≡ true) × InRange v

  pub fill_rows-Keeps :
      (c n r : ℕ) (s s' : Column × Bool) (rows : List Row)
      → n < 2 ^ 32
      → Filling t n r s
      → r + length rows ≡ n
      → All (CellStorable c) rows
      → fill_rows d c r s rows ≡ some s'
      → Keeps t s
      → Filling t n n s' × Keeps t s'
  unfolding fill_rows
  fill_rows-Keeps c n r s s' [] small f e h done k =
      let same : s ≡ s' = ground (arith, done) in
      let last : r ≡ n = omega (arith, e) in
      (subst (Filling t n n) same (subst (λ r. Filling t n r s) last f), subst (Keeps t) same k)
  fill_rows-Keeps c n r s s' (row ∷ rows) small f e h done k =
      let (v, at, ok, ranged) = h.0 in
      let (s1, one) = fill_total d t n r s f (omega (arith, e)) small v ok in
      let rest : fill_rows d c (r + 1) s1 rows ≡ some s' = ground (arith, done, at, one.done) in
      let next : suc r ≡ r + 1 = omega arith in
      fill_rows-Keeps c n (r + 1) s1 s' rows small (subst (λ r. Filling t n r s1) next one.filling)
        (omega (arith, e)) h.1 rest
        (fill-Keeps n r s s1 f (omega (arith, e)) small v ok ranged one.done k)
