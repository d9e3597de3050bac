-- ===== src/Jit/Body.antt =====
-- One pass through the loop of the function that src/jit/query_jit.cpp builds.
use coredb.Prelude.{
  ℕ, ◌+◌, ◌*◌, ◌%◌, ◌<◌, ◌≤◌, ◌≡◌, refl, ap, ◌∙◌, List, [], ◌∷◌, if◌then◌else◌, get_or, u64_mod,
  ltb, arith,
}
use coredb.Exec.{FilterSumResult, greater}
use coredb.Jit.{
  IrValue, int64, pred_ptr, out_ptr, i_ptr, sum_ptr, count_ptr, i_val, loop_cond, pred_elem_ptr,
  pred_val, matched, out_elem_ptr, out_val, masked_val, sum_cur, new_sum, masked_one, count_cur,
  new_count, i_next, Instruction, store, load, icmp_sgt, gep, select, add, Label, build_module,
  same,
}
use coredb.Jit.Llvm.{Llvm, Semantics, Stores, straight}
use coredb.Jit.Locals.{
  Layout, IsLaidOut, Ready, defined-Ready, stored_sum-Ready, stored_count-Ready, stored_index-Ready,
}

module _ (l : Llvm) (sem : Semantics l) (a : Layout) (pred out : List ℕ) (rows limit : ℕ) where
  abbrev Here : l.State → ℕ → FilterSumResult → Type 0
  Here = Ready l a pred out rows limit

  -- After the instructions of `loop.header`.
  pub record Tested (s : l.State) (i : ℕ) (r : FilterSumResult) : Type 0 where
    pub ready : Here s i r
    pub i_val : l.word s IrValue.i_val ≡ i
    pub loop_cond : l.word s IrValue.loop_cond ≡ (if ltb i rows then 1 else 0)

  pub header-Tested :
      (s : l.State) (i : ℕ) (r : FilterSumResult)
      → Here s i r
      → Tested (straight l (build_module Label.loop_header).instructions s) i r
  unfolding build_module same
  header-Tested s i r h =
      let one = sem.loads s i_val i_ptr in
      let s1 = l.exec (load i_val i_ptr) s in
      let two = sem.ult s1 loop_cond i_val IrValue.n in
      let h1 = defined-Ready l a pred out rows limit _ i_val s _ i r one refl h in
      let value : l.word s1 i_val ≡ i = one.word i_val ∙ ap (l.cell s) h.0.i_ptr ∙ h.1.index in
      record {
        ready = defined-Ready l a pred out rows limit _ loop_cond s1 _ i r two refl h1;
        i_val = two.word i_val ∙ value;
        loop_cond = two.word loop_cond ∙ rw (value, h1.0.num_rows) refl;
      }

  -- `matched` and `masked_val` for the row at `i`.
  abbrev pub flag : ℕ → ℕ
  flag i = if greater (get_or pred i 0) limit then 1 else 0

  abbrev pub masked_out : ℕ → ℕ
  masked_out i = if greater (get_or pred i 0) limit then get_or out i 0 else 0

  -- With the row's comparison done.
  pub record Matched (s : l.State) (i : ℕ) (r : FilterSumResult) : Type 0 where
    ready : Here s i r
    i_val : l.word s IrValue.i_val ≡ i
    matched : l.word s IrValue.matched ≡ flag i

  abbrev pub comparing : List Instruction
  comparing =
      gep pred_elem_ptr pred_ptr i_val
      ∷ load pred_val pred_elem_ptr
      ∷ icmp_sgt matched pred_val IrValue.threshold
      ∷ []

  abbrev pub masking : List Instruction
  masking =
      gep out_elem_ptr out_ptr i_val
      ∷ load out_val out_elem_ptr
      ∷ select masked_val matched out_val (int64 0)
      ∷ []

  abbrev pub summing : List Instruction
  summing = load sum_cur sum_ptr ∷ add new_sum sum_cur masked_val ∷ store new_sum sum_ptr ∷ []

  abbrev pub counting : List Instruction
  counting =
      select masked_one matched (int64 1) (int64 0)
      ∷ load count_cur count_ptr
      ∷ add new_count count_cur masked_one
      ∷ store new_count count_ptr
      ∷ []

  abbrev pub advancing : List Instruction
  advancing = add i_next i_val (int64 1) ∷ store i_next i_ptr ∷ []

  element_lem : (p i : ℕ) → p + 8 * rows ≤ u64_mod → i < rows → (p + 8 * i) % u64_mod ≡ p + 8 * i
  element_lem p i fit lt = omega arith

  module _ (w : IsLaidOut l a pred out rows limit) (s : l.State) (i : ℕ) (r : FilterSumResult) where
    pub comparing-Matched : i < rows → Tested s i r → Matched (straight l comparing s) i r
    unfolding same
    comparing-Matched lt h =
        let d1 = sem.geps s pred_elem_ptr pred_ptr i_val in
        let s1 = l.exec (gep pred_elem_ptr pred_ptr i_val) s in
        let h1 = defined-Ready l a pred out rows limit _ pred_elem_ptr s _ i r d1 refl h.ready in
        let e1 : l.word s1 pred_elem_ptr ≡ a.pred + 8 * i =
          d1.word pred_elem_ptr
          ∙ rw (h.ready.0.pred_ptr, h.i_val) (element_lem a.pred i w.pred_fits lt) in
        let d2 = sem.loads s1 pred_val pred_elem_ptr in
        let s2 = l.exec (load pred_val pred_elem_ptr) s1 in
        let h2 = defined-Ready l a pred out rows limit _ pred_val s1 _ i r d2 refl h1 in
        let e2 : l.word s2 pred_val ≡ get_or pred i 0 =
          d2.word pred_val ∙ ap (l.cell s1) e1 ∙ h1.1.pred_cells i lt in
        let d3 = sem.sgt s2 matched pred_val IrValue.threshold in
        record {
          ready = defined-Ready l a pred out rows limit _ matched s2 _ i r d3 refl h2;
          i_val = d3.word i_val ∙ d2.word i_val ∙ d1.word i_val ∙ h.i_val;
          matched = d3.word matched ∙ rw (e2, h2.0.threshold) refl;
        }

    pub masking-Matched :
        i < rows
        → Matched s i r
        → Matched (straight l masking s) i r
          × (l.word (straight l masking s) masked_val ≡ masked_out i)
    unfolding same
    masking-Matched lt h =
        let d1 = sem.geps s out_elem_ptr out_ptr i_val in
        let s1 = l.exec (gep out_elem_ptr out_ptr i_val) s in
        let h1 = defined-Ready l a pred out rows limit _ out_elem_ptr s _ i r d1 refl h.ready in
        let e1 : l.word s1 out_elem_ptr ≡ a.out + 8 * i =
          d1.word out_elem_ptr
          ∙ rw (h.ready.0.out_ptr, h.i_val) (element_lem a.out i w.out_fits lt) in
        let d2 = sem.loads s1 out_val out_elem_ptr in
        let s2 = l.exec (load out_val out_elem_ptr) s1 in
        let h2 = defined-Ready l a pred out rows limit _ out_val s1 _ i r d2 refl h1 in
        let e2 : l.word s2 out_val ≡ get_or out i 0 =
          d2.word out_val ∙ ap (l.cell s1) e1 ∙ h1.1.out_cells i lt in
        let m2 : l.word s2 matched ≡ flag i = d2.word matched ∙ d1.word matched ∙ h.matched in
        let d3 = sem.selects s2 masked_val matched out_val (int64 0) in
        (
          record {
            ready = defined-Ready l a pred out rows limit _ masked_val s2 _ i r d3 refl h2;
            i_val = d3.word i_val ∙ d2.word i_val ∙ d1.word i_val ∙ h.i_val;
            matched = d3.word matched ∙ m2;
          },
          d3.word masked_val ∙ rw (m2, e2, sem.constant s2 0 (omega arith)) (ground arith),
        )

    pub summing-Matched :
        (x : ℕ)
        → Matched s i r
        → l.word s masked_val ≡ x
        → Matched (straight l summing s) i (record r { sum = (r.sum + x) % u64_mod })
    unfolding same
    summing-Matched x h e =
        let d1 = sem.loads s sum_cur sum_ptr in
        let s1 = l.exec (load sum_cur sum_ptr) s in
        let h1 = defined-Ready l a pred out rows limit _ sum_cur s _ i r d1 refl h.ready in
        let e1 : l.word s1 sum_cur ≡ r.sum =
          d1.word sum_cur ∙ ap (l.cell s) h.ready.0.sum_ptr ∙ h.ready.1.sum in
        let d2 = sem.adds s1 new_sum sum_cur masked_val in
        let s2 = l.exec (add new_sum sum_cur masked_val) s1 in
        let h2 = defined-Ready l a pred out rows limit _ new_sum s1 _ i r d2 refl h1 in
        let e2 : l.word s2 new_sum ≡ (r.sum + x) % u64_mod =
          d2.word new_sum ∙ rw (e1, d1.word masked_val, e) refl in
        let d3 : Stores l (store new_sum sum_ptr) s2 ((r.sum + x) % u64_mod) a.sum =
          rw (e2, h2.0.sum_ptr) at (sem.stores s2 new_sum sum_ptr) in
        record {
          ready = stored_sum-Ready l a pred out rows limit w _ s2 _ i r d3 h2;
          i_val = d3.word i_val ∙ d2.word i_val ∙ d1.word i_val ∙ h.i_val;
          matched = d3.word matched ∙ d2.word matched ∙ d1.word matched ∙ h.matched;
        }

    pub counting-Matched :
        Matched s i r
        → Matched
            (straight l counting s)
            i
            (record r { matched_count = (r.matched_count + flag i) % u64_mod })
    unfolding same
    counting-Matched h =
        let d0 = sem.selects s masked_one matched (int64 1) (int64 0) in
        let s0 = l.exec (select masked_one matched (int64 1) (int64 0)) s in
        let h0 = defined-Ready l a pred out rows limit _ masked_one s _ i r d0 refl h.ready in
        let e0 : l.word s0 masked_one ≡ flag i =
          d0.word masked_one
          ∙ rw (h.matched, sem.constant s 1 (omega arith), sem.constant s 0 (omega arith))
              (ground arith) in
        let d1 = sem.loads s0 count_cur count_ptr in
        let s1 = l.exec (load count_cur count_ptr) s0 in
        let h1 = defined-Ready l a pred out rows limit _ count_cur s0 _ i r d1 refl h0 in
        let e1 : l.word s1 count_cur ≡ r.matched_count =
          d1.word count_cur ∙ ap (l.cell s0) h0.0.count_ptr ∙ h0.1.count in
        let d2 = sem.adds s1 new_count count_cur masked_one in
        let s2 = l.exec (add new_count count_cur masked_one) s1 in
        let h2 = defined-Ready l a pred out rows limit _ new_count s1 _ i r d2 refl h1 in
        let e2 : l.word s2 new_count ≡ (r.matched_count + flag i) % u64_mod =
          d2.word new_count ∙ rw (e1, d1.word masked_one, e0) refl in
        let d3 : Stores l (store new_count count_ptr) s2 ((r.matched_count + flag i) % u64_mod)
            a.count =
          rw (e2, h2.0.count_ptr) at (sem.stores s2 new_count count_ptr) in
        record {
          ready = stored_count-Ready l a pred out rows limit w _ s2 _ i r d3 h2;
          i_val = d3.word i_val ∙ d2.word i_val ∙ d1.word i_val ∙ d0.word i_val ∙ h.i_val;
          matched =
              d3.word matched ∙ d2.word matched ∙ d1.word matched ∙ d0.word matched ∙ h.matched;
        }

    pub advancing-Ready : i + 1 < u64_mod → Matched s i r → Here (straight l advancing s) (i + 1) r
    unfolding same
    advancing-Ready lt h =
        let d1 = sem.adds s i_next i_val (int64 1) in
        let s1 = l.exec (add i_next i_val (int64 1)) s in
        let h1 = defined-Ready l a pred out rows limit _ i_next s _ i r d1 refl h.ready in
        let e1 : l.word s1 i_next ≡ i + 1 =
          d1.word i_next ∙ rw (h.i_val, sem.constant s 1 (omega arith)) (omega (arith, lt)) in
        let d2 : Stores l (store i_next i_ptr) s1 (i + 1) a.index =
          rw (e1, h1.0.i_ptr) at (sem.stores s1 i_next i_ptr) in
        stored_index-Ready l a pred out rows limit w _ s1 _ i r d2 h1
