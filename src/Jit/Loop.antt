-- ===== src/Jit/Loop.antt =====
-- The whole loop of the function that src/jit/query_jit.cpp builds, and its exit.
use coredb.Prelude.{
  ℕ, zero, suc, ◌+◌, ◌%◌, ◌<◌, ◌≡◌, refl, ap, ◌∙◌, true, false, List, some, if◌then◌else◌, get_or,
  u64_mod, ltb, ◌==◌, arith, Bool-cases, inl, inr, subst,
}
use coredb.Exec.{FilterSumResult, greater, filter_step, filter_from}
use coredb.Exec.Batches.{InRange, filter_step-InRange}
use coredb.Jit.{
  sum_ptr, count_ptr, count_final, sum_final, out_count_ptr, out_sum_ptr, loop_cond, store, load,
  Label, build_module, same,
}
use coredb.Jit.Llvm.{Llvm, Semantics, Stores, straight}
use coredb.Jit.Locals.{Layout, IsLaidOut, Ready, Left, defined-Ready, stored-Named}
use coredb.Jit.Body.{
  Tested, header-Tested, comparing, masking, summing, counting, comparing-Matched, masking-Matched,
  summing-Matched, counting-Matched, advancing-Ready,
}

-- What the body makes of the result is what the scalar loop makes of it.
filter_step-flag :
    (pred out : List ℕ) (i limit : ℕ) (r : FilterSumResult)
    → InRange r
    → record {
      matched_count =
          (r.matched_count + (if greater (get_or pred i 0) limit then 1 else 0)) % u64_mod;
      sum = (r.sum + (if greater (get_or pred i 0) limit then get_or out i 0 else 0)) % u64_mod;
    }
      ≡ filter_step pred out limit i r
filter_step-flag pred out i limit r h = elim (Bool-cases (greater (get_or pred i 0) limit)) [
  | inl e ↦ rw e refl
  | inr e ↦ rw e (ground (arith, h))
]

-- The blocks that are passed with `n` rows to go, from the loop's header on.
unfoldable pub blocks : ℕ → ℕ
blocks zero = 2
blocks (suc n) = suc (suc (blocks n))

module _ (l : Llvm) (sem : Semantics l) (a : Layout) (pred out : List ℕ) (rows limit : ℕ)
    (w : IsLaidOut l a pred out rows limit) where
  body-Ready :
      (s : l.State) (i : ℕ) (r : FilterSumResult)
      → i < rows
      → rows < u64_mod
      → InRange r
      → Tested l sem a pred out rows limit s i r
      → Ready l a pred out rows limit
          (straight l (build_module Label.loop_body).instructions s)
          (i + 1)
          (filter_step pred out limit i r)
  unfolding build_module
  body-Ready s i r lt fit small h =
      let s1 = straight l (comparing l sem a pred out rows limit) s in
      let h1 = comparing-Matched l sem a pred out rows limit w s i r lt h in
      let s2 = straight l (masking l sem a pred out rows limit) s1 in
      let (h2, masked) = masking-Matched l sem a pred out rows limit w s1 i r lt h1 in
      let s3 = straight l (summing l sem a pred out rows limit) s2 in
      let h3 = summing-Matched l sem a pred out rows limit w s2 i r _ h2 masked in
      let s4 = straight l (counting l sem a pred out rows limit) s3 in
      let h4 = counting-Matched l sem a pred out rows limit w s3 i _ h3 in
      subst (Ready l a pred out rows limit _ (i + 1)) (filter_step-flag pred out i limit r small)
        (advancing-Ready l sem a pred out rows limit w s4 i _ (omega (arith, lt, fit)) h4)

  exit-Left :
      (s : l.State) (i : ℕ) (r : FilterSumResult)
      → Ready l a pred out rows limit s i r
      → Left l a pred out rows limit (straight l (build_module Label.exit).instructions s) r
  unfolding build_module same
  exit-Left s i r h =
      let d1 = sem.loads s count_final count_ptr in
      let s1 = l.exec (load count_final count_ptr) s in
      let h1 = defined-Ready l a pred out rows limit _ count_final s _ i r d1 refl h in
      let e1 : l.word s1 count_final ≡ r.matched_count =
        d1.word count_final ∙ ap (l.cell s) h.0.count_ptr ∙ h.1.count in
      let d2 : Stores l (store count_final out_count_ptr) s1 r.matched_count a.out_count =
        rw (e1, h1.0.out_count_ptr) at (sem.stores s1 count_final out_count_ptr) in
      let s2 = l.exec (store count_final out_count_ptr) s1 in
      let n2 = stored-Named l a pred out rows limit _ s1 _ _ d2 h1.0 in
      let d3 = sem.loads s2 sum_final sum_ptr in
      let s3 = l.exec (load sum_final sum_ptr) s2 in
      let e3 : l.word s3 sum_final ≡ r.sum =
        d3.word sum_final ∙ ap (l.cell s2) n2.sum_ptr ∙ d2.there a.sum w.sum_out ∙ h1.1.sum in
      let p3 : l.word s3 out_sum_ptr ≡ a.out_sum = d3.word out_sum_ptr ∙ n2.out_sum_ptr in
      let d4 : Stores l (store sum_final out_sum_ptr) s3 r.sum a.out_sum =
        rw (e3, p3) at (sem.stores s3 sum_final out_sum_ptr) in
      record { count = d4.there a.out_count w.outs ∙ d3.cell a.out_count ∙ d2.here; sum = d4.here }

  abbrev Returns : ℕ → Label → l.State → FilterSumResult → Type 0
  Returns k b s r =
      (s' : l.State) × (l.enter k build_module b s ≡ some s') × Left l a pred out rows limit s' r

  -- The header goes on to the body exactly if there are rows left.
  header_lem :
      (k i : ℕ) (s : l.State) (r : FilterSumResult)
      → Ready l a pred out rows limit s i r
      → l.enter (suc k) build_module Label.loop_header s ≡ (
          if ltb i rows
          then l.enter k build_module Label.loop_body
              (straight l (build_module Label.loop_header).instructions s)
          else l.enter k build_module Label.exit
              (straight l (build_module Label.loop_header).instructions s))
  unfolding build_module
  header_lem k i s r h =
      let t = header-Tested l sem a pred out rows limit s i r h in
      let cond : (l.word (straight l (build_module Label.loop_header).instructions s) loop_cond
            == 1)
          ≡ ltb i rows =
        ap (λ x. x == 1) t.loop_cond ∙ ground arith in
      sem.enters build_module k Label.loop_header s ∙ rw cond refl

  exits :
      (i : ℕ) (s : l.State) (r : FilterSumResult)
      → Ready l a pred out rows limit s i r
      → ltb i rows ≡ false
      → Returns 2 Label.loop_header s r
  unfolding build_module
  exits i s r h last =
      let t = header-Tested l sem a pred out rows limit s i r h in
      (
        _,
        header_lem 1 i s r h ∙ rw last (sem.enters build_module 0 Label.exit _),
        exit-Left _ i r t.ready,
      )

  again :
      (k i : ℕ) (s : l.State) (r : FilterSumResult)
      → Ready l a pred out rows limit s i r
      → InRange r
      → rows < u64_mod
      → i < rows
      → (s2 : l.State) × Ready l a pred out rows limit s2 (i + 1) (filter_step pred out limit i r)
        × (l.enter (suc (suc k)) build_module Label.loop_header s
            ≡ l.enter k build_module Label.loop_header s2)
  unfolding build_module
  again k i s r h small fit lt =
      let t = header-Tested l sem a pred out rows limit s i r h in
      let inside : ltb i rows ≡ true = ground (arith, lt) in
      (
        _,
        body-Ready _ i r lt fit small t,
        header_lem (suc k) i s r h ∙ rw inside (sem.enters build_module k Label.loop_body _),
      )

  -- From the header on, with `n` rows to go, the call returns what the scalar loop gives.
  pub loop-Returns :
      (i n : ℕ) (s : l.State) (r : FilterSumResult)
      → i + n ≡ rows
      → rows < u64_mod
      → InRange r
      → Ready l a pred out rows limit s i r
      → Returns (blocks n) Label.loop_header s (filter_from pred out limit i n r)
  unfolding blocks filter_from
  loop-Returns i zero s r e fit small h = exits i s r h (ground (arith, e))
  loop-Returns i (suc n) s r e fit small h =
      let (s2, h2, enters) = again (blocks n) i s r h small fit (omega (arith, e)) in
      let (s', returned, left) =
        loop-Returns (i + 1) n s2 (filter_step pred out limit i r) (omega (arith, e)) fit
          (filter_step-InRange pred out limit i r small) h2 in
      (s', enters ∙ returned, left)
