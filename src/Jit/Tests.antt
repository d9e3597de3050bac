-- ===== src/Jit/Tests.antt =====
-- Instances of the theorem about src/jit and src/exec/jit_exec.cpp, with a machine for LLVM.
use coredb.Prelude.{
  ℕ, suc, ◌≡◌, refl, ap, sym, subst, true, List, [], ◌∷◌, Option, none, some, length, get_elem?,
  arith,
}
use coredb.Storage.Segment.{Column, fresh_column}
use coredb.Exec.{no_match, run_vectorized}
use coredb.Exec.Tests.{naturals, three_rows, above_five}
use coredb.Jit.{Label, Toolchain, QueryJit, Function, build_module, same, compile, verified_module}
use coredb.Jit.Llvm.{IsCompiled}
use coredb.Jit.Loop.{blocks}
use coredb.Jit.Run.{IsFaithful, run_jit, run_jit-run_vectorized}
use coredb.Jit.Machine.{enter, start, machine, machine-Semantics}
use coredb.Jit.Native.{scalar, scalar-IsCompiled}

-- A compiler that accepts and finds everything.
abbrev toolchain : Toolchain
toolchain = record {
  Module = Function;
  LlJit = List Function;
  create_module = λ f. f;
  verifies = λ f. true;
  optimize_module = λ f. f;
  create = some [];
  add_ir_module = λ jit f. some (f ∷ jit);
  lookup = λ jit name. some scalar;
}

abbrev compiled : QueryJit
compiled = record { compiled_fn = scalar }

compiles : compile toolchain ≡ some compiled
unfolding compile verified_module
compiles = refl

toolchain-IsFaithful : IsFaithful toolchain machine
toolchain-IsFaithful = record {
  looked_up = λ created jit fn ok e1 e2 e3.
      subst (IsCompiled machine build_module) (ground (arith, e3)) scalar-IsCompiled;
}

words_of : Option Column → ℕ
words_of none = 0
words_of (some col) = length col.int64_data

three_words : (col : Column) → get_elem? three_rows.columns 0 ≡ some col → length col.int64_data ≡ 3
unfolding words_of fresh_column
three_words col e = sym (ap words_of e)

-- The instructions themselves, run over three rows: the count and the sum of the values above 5.
variables_of : Option machine.State → List ℕ
variables_of none = []
variables_of (some s) = s.cells 48 ∷ s.cells 56 ∷ []

two_of_three :
    variables_of (
      enter
        (suc (blocks 3))
        build_module
        Label.entry
        (start (4 ∷ 9 ∷ 7 ∷ []) (4 ∷ 9 ∷ 7 ∷ []) 3 5 no_match))
    ≡ 2 ∷ 16 ∷ []
unfolding variables_of enter blocks build_module same
two_of_three = refl

run_jit-run_vectorized_example :
    run_jit naturals (three_rows ∷ []) above_five compiled no_match
    ≡ run_vectorized naturals (three_rows ∷ []) above_five 2 no_match
run_jit-run_vectorized_example =
    run_jit-run_vectorized naturals machine machine-Semantics toolchain compiled (three_rows ∷ [])
      above_five 2 no_match toolchain-IsFaithful compiles (omega arith, omega arith)
      (
        (λ pred agg e1 e2.
            (omega arith, omega (arith, three_words pred e1), omega (arith, three_words agg e2))),
        tt,
      )
      (omega arith)
