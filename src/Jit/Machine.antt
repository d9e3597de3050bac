-- ===== src/Jit/Machine.antt =====
-- A machine that runs the instructions, of which the hypotheses about LLVM hold.
use coredb.Prelude.{
  ℕ, zero, suc, ◌+◌, ◌*◌, ◌-◌, ◌/◌, ◌%◌, ◌≤◌, ◌≡◌, refl, ap, ◌∙◌, true, false, List, [], ◌∷◌,
  Option, none, some, if◌then◌else◌, get_or, u64_mod, ltb, ◌==◌, arith, inl,
}
use coredb.Exec.{FilterSumResult, greater}
use coredb.Jit.{
  IrValue, int64, Instruction, alloca, store, load, icmp_ult, icmp_sgt, gep, select, add, Label,
  Terminator, br, cond_br, ret_void, Function, same,
}
use coredb.Jit.Llvm.{Llvm, Semantics, straight, follow}

-- The cells from `top` on are free.
pub record Machine : Type 0 where
  pub words : IrValue → ℕ
  pub cells : ℕ → ℕ
  pub top : ℕ

abbrev pub read : Machine → IrValue → ℕ
read s (int64 x) = x % u64_mod
read s v = s.words v

abbrev pub define : Machine → IrValue → ℕ → Machine
define s v x = record s { words = λ w. if same w v then x else s.words w }

abbrev pub step : Instruction → Machine → Machine
step (alloca v) s = record (define s v s.top) { top = s.top + 8 }
step (store v p) s = record s { cells = λ a. if a == read s p then read s v else s.cells a }
step (load v p) s = define s v (s.cells (read s p))
step (icmp_ult v a b) s = define s v (if ltb (read s a) (read s b) then 1 else 0)
step (icmp_sgt v a b) s = define s v (if greater (read s a) (read s b) then 1 else 0)
step (gep v p i) s = define s v ((read s p + 8 * read s i) % u64_mod)
step (select v c a b) s = define s v (if read s c == 1 then read s a else read s b)
step (add v a b) s = define s v ((read s a + read s b) % u64_mod)

abbrev pub all_steps : List Instruction → Machine → Machine
all_steps [] s = s
all_steps (i ∷ is) s = all_steps is (step i s)

abbrev pub next : (Label → Machine → Option Machine) → Terminator → Machine → Option Machine
next go (br b) s = go b s
next go (cond_br c b b') s = if read s c == 1 then go b s else go b' s
next go ret_void s = some s

unfoldable pub enter : ℕ → Function → Label → Machine → Option Machine
enter zero f b s = none
enter (suc k) f b s = next (enter k f) (f b).terminator (all_steps (f b).instructions s)

-- The columns, one behind the other, and the caller's two variables.
abbrev pub start : List ℕ → List ℕ → ℕ → ℕ → FilterSumResult → Machine
start pred out rows limit r = record {
  words = λ v. elim v [
    | IrValue.pred_ptr ↦ 0
    | IrValue.out_ptr ↦ 8 * rows
    | IrValue.n ↦ rows
    | IrValue.threshold ↦ limit
    | IrValue.out_count_ptr ↦ 16 * rows
    | IrValue.out_sum_ptr ↦ 16 * rows + 8
    | _ ↦ 0
  ];
  cells = λ a.
      if ltb a (8 * rows)
      then get_or pred (a / 8) 0
      else if ltb a (16 * rows)
      then get_or out ((a - 8 * rows) / 8) 0
      else if a == 16 * rows
      then r.matched_count
      else r.sum;
  top = 16 * rows + 16;
}

abbrev pub machine : Llvm
machine = record {
  State = Machine;
  word = read;
  cell = λ s. s.cells;
  Live = λ s p. p + 8 ≤ s.top;
  exec = step;
  enter = enter;
  start = start;
}

read-define :
    (s : Machine) (v : IrValue) (x : ℕ) (w : IrValue)
    → read (define s v x) w ≡ (if same w v then x else read s w)
unfolding same
read-define s v x (int64 y) = refl
read-define s v x w = refl

read-top : (s : Machine) (v : IrValue) → same v v ≡ true → read (step (alloca v) s) v ≡ s.top
unfolding same
read-top s (int64 x) self = cc
read-top s v self = refl

read-alloca :
    (s : Machine) (v w : IrValue) → same w v ≡ false → read (step (alloca v) s) w ≡ read s w
unfolding same
read-alloca s v (int64 x) ne = refl
read-alloca s v w ne = rw ne refl

read-cells :
    (s : Machine) (cells : ℕ → ℕ) (w : IrValue) → read (record s { cells = cells }) w ≡ read s w
read-cells s cells (int64 x) = refl
read-cells s cells w = refl

all_steps-straight : (is : List Instruction) (s : Machine) → all_steps is s ≡ straight machine is s
all_steps-straight [] s = refl
all_steps-straight (i ∷ is) s = all_steps-straight is (step i s)

next-follow :
    (f : Function) (k : ℕ) (t : Terminator) (s : Machine)
    → next (enter k f) t s ≡ follow machine f k t s
next-follow f k (br b) s = refl
next-follow f k (cond_br c b b') s = refl
next-follow f k ret_void s = refl

pub machine-Semantics : Semantics machine
unfolding same enter
machine-Semantics = record {
  constant = λ s x lt. omega (arith, lt);
  allocas = λ s v self. record {
    word = read-alloca s v;
    cell = λ a live. refl;
    live = rw (read-top s v self) (omega arith);
    kept = λ a live. omega (arith, live);
    fresh = λ a live. rw (read-top s v self) (inl live);
  };
  stores = λ s v p. record {
    word = read-cells s (λ a. if a == read s p then read s v else s.cells a);
    here = ground arith;
    there = λ a apart. ground (arith, apart);
  };
  loads = λ s v p. record { word = read-define s v _; cell = λ a. refl };
  ult = λ s v a b. record { word = read-define s v _; cell = λ a. refl };
  sgt = λ s v a b. record { word = read-define s v _; cell = λ a. refl };
  geps = λ s v p i. record { word = read-define s v _; cell = λ a. refl };
  selects = λ s v c a b. record { word = read-define s v _; cell = λ a. refl };
  adds = λ s v a b. record { word = read-define s v _; cell = λ a. refl };
  enters = λ f k b s.
      next-follow f k (f b).terminator (all_steps (f b).instructions s)
      ∙ ap (follow machine f k (f b).terminator) (all_steps-straight (f b).instructions s);
}
