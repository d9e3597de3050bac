-- ===== src/Compactor.antt =====
-- src/compaction/compactor.cpp: the thread that compacts a table in the background, and its end.
--
-- The thread goes from one access of the shared state to the next: it tests `stop_`, then it polls the
-- table and sleeps. Between its steps others write to the table, and may call `Stop`.
use coredb.Prelude.{
  ℕ, suc, ◌-◌, ◌≤◌, ◌≡◌, ◌⊎◌, refl, Bool, true, false, Option, some, leb, if◌then◌else◌, ◌>>=◌,
  arith, Option-cases, inl, inr,
}
use coredb.Storage.Types.{Double}
use coredb.Mvcc.Delta.{size}
use coredb.Table.{Table}
use coredb.Table.Compaction.{compact}

-- Where the thread is.
pub data Phase : Type 0 where
  testing polling ended : Phase

pub record BackgroundCompactor : Type 0 where
  pub table : Table
  pub delta_row_threshold : ℕ
  pub stop : Bool
  pub thread : Phase

-- `BackgroundCompactor(table, config)`
abbrev pub start : Table → ℕ → BackgroundCompactor
start table delta_row_threshold = record {
  table = table;
  delta_row_threshold = delta_row_threshold;
  stop = false;
  thread = testing;
}

-- What `Stop` does before it waits for the thread.
abbrev pub request_stop : BackgroundCompactor → BackgroundCompactor
request_stop c = record c { stop = true }

module _ (d : Double) where
  unfoldable pub poll : ℕ → Table → Option Table
  poll threshold table = if leb threshold (size table.delta) then compact d table else some table

  -- One step of `Run`; `none` is an exception, which ends the process.
  unfoldable pub run_step : BackgroundCompactor → Option BackgroundCompactor
  unfolding poll
  run_step c = elim c.thread [
    | testing ↦ some (record c { thread = if c.stop then ended else polling })
    | polling ↦ do
      table ← poll c.delta_row_threshold c.table
      some (record c { table = table; thread = testing })
    | ended ↦ some c
  ]

  -- A history in which the thread takes so many steps.
  pub data History : ℕ → BackgroundCompactor → BackgroundCompactor → Type 0 where
    done : {c : BackgroundCompactor} → History 0 c c
    ran :
        {n : ℕ} {c c' c'' : BackgroundCompactor}
        → run_step c ≡ some c'
        → History n c' c''
        → History (suc n) c c''
    stopped : {n : ℕ} {c c' : BackgroundCompactor} → History n (request_stop c) c' → History n c c'
    served :
        {n : ℕ} {c c' : BackgroundCompactor} (table : Table)
        → History n (record c { table = table }) c'
        → History n c c'

-- The steps that the thread has before it, once it is to stop.
abbrev steps_left : Phase → ℕ
steps_left testing = 1
steps_left polling = 2
steps_left ended = 0

Phase-cases : (p : Phase) → (p ≡ testing) ⊎ (p ≡ polling) ⊎ (p ≡ ended)
Phase-cases testing = inl refl
Phase-cases polling = inr (inl refl)
Phase-cases ended = inr (inr refl)

module _ (d : Double) where
  step_left :
      (c c' : BackgroundCompactor)
      → run_step d c ≡ some c'
      → c.stop ≡ true
      → (c'.stop ≡ true) × (steps_left c'.thread ≤ steps_left c.thread - 1)
  unfolding run_step
  step_left c c' h stop = elim (Phase-cases c.thread) [
    | inl here ↦ (ground (arith, here), ground (arith, here))
    | inr (inl here) ↦ elim (Option-cases (poll d c.delta_row_threshold c.table)) [
      | inl thrown ↦ ground (arith, here, thrown)
      | inr (table, polled) ↦ (ground (arith, here, polled), ground (arith, here, polled))
    ]
    | inr (inr here) ↦ (ground (arith, here), ground (arith, here))
  ]

  none_left : (p : Phase) → steps_left p ≤ 0 → p ≡ ended
  none_left testing h = absurd (omega arith)
  none_left polling h = absurd (omega arith)
  none_left ended h = refl

  ends_after :
      {n : ℕ} {c c' : BackgroundCompactor}
      → History d n c c'
      → c.stop ≡ true
      → steps_left c.thread ≤ n
      → c'.thread ≡ ended
  ends_after (done {c = c}) stop left = none_left c.thread left
  ends_after (ran {n = n} {c = c} {c' = c'} h rest) stop left =
      let (still, fewer) = step_left c c' h stop in
      ends_after rest still (omega (arith, fewer, left))
  ends_after (stopped rest) stop left = ends_after rest refl left
  ends_after (served table rest) stop left = ends_after rest stop left

  two_at_most : (p : Phase) → steps_left p ≤ 2
  two_at_most testing = omega arith
  two_at_most polling = omega arith
  two_at_most ended = omega arith

  -- Once the flag is set, the thread has ended after two more steps that threw nothing.
  stop_ends :
      (c : BackgroundCompactor) {n : ℕ} {c' : BackgroundCompactor}
      → History d n (request_stop c) c'
      → 2 ≤ n
      → c'.thread ≡ ended
  stop_ends c h enough = ends_after h refl (omega (arith, two_at_most c.thread))
