-- ===== src/Jit/Native.antt =====
-- The scalar kernel as the native code of the function, on the machine that runs the instructions.
use coredb.Prelude.{
  ℕ, zero, suc, ◌+◌, ◌*◌, ◌-◌, ◌/◌, ◌^◌, ◌<◌, ◌≡◌, refl, ap, ◌∙◌, List, Option, some, arith, inl,
}
use coredb.Exec.{FilterSumResult, filter_gt_sum}
use coredb.Jit.{Label, Terminator, br, cond_br, ret_void, Function, FusedFn, build_module}
use coredb.Jit.Llvm.{Called, IsCompiled}
use coredb.Jit.Correct.{call_returns}
use coredb.Jit.Machine.{Machine, next, all_steps, enter, start, machine, machine-Semantics}

next_more :
    (go go' : Label → Machine → Option Machine) (s' : Machine) (t : Terminator) (u : Machine)
    → ((c : Label) (v : Machine) → go c v ≡ some s' → go' c v ≡ some s')
    → next go t u ≡ some s'
    → next go' t u ≡ some s'
next_more go go' s' (br c) u h e = h c u e
next_more go go' s' (cond_br v c c') u h e = ground (arith, e, h c u, h c' u)
next_more go go' s' ret_void u h e = e

-- A call that has returned returns the same with more blocks.
enter_more :
    (f : Function) (k j : ℕ) (b : Label) (s s' : Machine)
    → enter k f b s ≡ some s'
    → enter (k + j) f b s ≡ some s'
unfolding enter
enter_more f zero j b s s' e = cc
enter_more f (suc k) j b s s' e =
    let one : suc k + j ≡ suc (k + j) = omega arith in
    ap (λ n. enter n f b s) one
    ∙ next_more (enter k f) (enter (k + j) f) s' (f b).terminator (all_steps (f b).instructions s)
        (λ c u. enter_more f k j c u s') e

enter_same :
    (f : Function) (k j : ℕ) (b : Label) (s s1 s2 : Machine)
    → enter k f b s ≡ some s1
    → enter j f b s ≡ some s2
    → s1 ≡ s2
enter_same f k j b s s1 s2 e1 e2 =
    let left = enter_more f k j b s s1 e1 in
    let right = enter_more f j k b s s2 e2 in
    let order : k + j ≡ j + k = omega arith in ground (arith, left, right, order)

columns-Called :
    (pred out : List ℕ) (rows limit : ℕ) (r : FilterSumResult)
    → rows < 2 ^ 32
    → Called machine (start pred out rows limit r) pred out rows limit
columns-Called pred out rows limit r small = record {
  pred_cells = record {
    fits = omega (arith, small);
    cells = λ k lt. let at : (0 + 8 * k) / 8 ≡ k = omega arith in ground (arith, lt, at);
    live = λ k lt. omega (arith, lt);
  };
  out_cells = record {
    fits = omega (arith, small);
    cells = λ k lt.
        let at : (8 * rows + 8 * k - 8 * rows) / 8 ≡ k = omega arith in ground (arith, lt, at);
    live = λ k lt. omega (arith, lt);
  };
  num_rows = refl;
  limit = refl;
  count_live = omega arith;
  sum_live = omega arith;
  apart = inl (omega arith);
}

-- What the machine makes of the function, as native code.
abbrev pub scalar : FusedFn
scalar pred out rows limit r = filter_gt_sum pred out 0 rows limit

pub scalar-IsCompiled : IsCompiled machine build_module scalar
unfolding filter_gt_sum
scalar-IsCompiled = record {
  called = λ pred out rows limit r ok. columns-Called pred out rows limit r ok.0;
  returned = λ pred out rows limit r k s ok e.
      let c = columns-Called pred out rows limit r ok.0 in
      let (s', returned, left) =
        call_returns machine machine-Semantics pred out rows limit (start pred out rows limit r) c
          (omega (arith, ok.0)) in
      let ends =
        enter_same build_module k _ Label.entry (start pred out rows limit r) s s' e returned in
      rw ends (ground (arith, left.count, left.sum));
}
