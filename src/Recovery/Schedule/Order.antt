-- ===== src/Recovery/Schedule/Order.antt =====
-- The workers of src/recovery/recovery_manager.cpp keep the order of the log for each row.
use coredb.Prelude.{
  ℕ, zero, suc, ◌%◌, ◌<◌, ◌≡◌, refl, sym, ap, subst, ◌∙◌, false, List, [], ◌∷◌, ◌++◌, map, ◌==◌,
  length, get_or, replicate, keep_if, keep_if-append, length-set, length-replicate, All,
  if◌then◌else◌, get_or-set, arith, Bool-cases, inl, inr,
}
use mathlib.Core.List.{append-nil, append_assoc}
use coredb.Table.{Table}
use coredb.Wal.Record.{WalRecord}
use coredb.Recovery.{shard, ops_of, committed_txn_ids}
use coredb.Recovery.Replay.{is_replayed, ops_of_lem, shard-replicate, length-shard}
use coredb.Recovery.Schedule.{
  between, begun, applied, Worker, Event, began, wrote, committed, Replay, finished, worker_at,
  moved, WorkerStep, begins, writes, commits, spawned, Interleaving, spawn, later, Joined,
}

abbrev pub record_of : Event → WalRecord
record_of (began op) = op
record_of (wrote op) = op
record_of (committed op) = op

-- One operation after the other, each committed before the next begins.
unfoldable pub in_turn : List WalRecord → List Event
in_turn [] = []
in_turn (op ∷ ops) = began op ∷ wrote op ∷ committed op ∷ in_turn ops

-- What is done to a row, in its order.
abbrev pub done_to : ℕ → List Event → List Event
done_to row = keep_if (λ e. (record_of e).row_id == row)

-- What a worker has still to do.
abbrev left : Worker → List Event
left k = elim k.phase [
  | between ↦ in_turn k.todo
  | begun txn op ↦ wrote op ∷ committed op ∷ in_turn k.todo
  | applied txn op ↦ committed op ∷ in_turn k.todo
]

done_to-in_turn :
    (row : ℕ) (ops : List WalRecord)
    → done_to row (in_turn ops) ≡ in_turn (keep_if (λ r. r.row_id == row) ops)
unfolding in_turn
done_to-in_turn row [] = refl
done_to-in_turn row (op ∷ ops) = ground (arith, done_to-in_turn row ops)

-- Each worker has what is left of its rows to do, and no other.
record Keeps (n : ℕ) (ops : List WalRecord) (s : Replay) : Type 0 where
  count : length s.workers ≡ n
  own : (w : ℕ) → w < n → All (λ e. (record_of e).row_id % n ≡ w) (left (worker_at s w))
  rows :
      (row : ℕ)
      → done_to row s.trace ++ done_to row (left (worker_at s (row % n)))
        ≡ done_to row (in_turn ops)

worker_at-moved :
    (s : Replay) (w v : ℕ) (t : Table) (after : Worker) (event : Event)
    → w < length s.workers
    → worker_at (moved s w t after event) v ≡ (if w == v then after else worker_at s v)
worker_at-moved s w v t after event inside = get_or-set s.workers w v after finished inside

-- An event moves from what is left to what is done.
done_to-snoc :
    (row : ℕ) (trace rest : List Event) (event : Event)
    → done_to row (trace ++ event ∷ []) ++ done_to row rest
      ≡ done_to row trace ++ done_to row (event ∷ rest)
done_to-snoc row trace rest event =
    ap (λ es. es ++ done_to row rest)
      (keep_if-append (λ e. (record_of e).row_id == row) trace (event ∷ []))
    ∙ append_assoc (done_to row trace) (done_to row (event ∷ [])) (done_to row rest)
    ∙ ap (λ es. done_to row trace ++ es)
        (sym (keep_if-append (λ e. (record_of e).row_id == row) (event ∷ []) rest))

-- An event of another row is not among what is done to the row.
done_to-other :
    (row : ℕ) (trace : List Event) (event : Event)
    → ((record_of event).row_id == row) ≡ false
    → done_to row (trace ++ event ∷ []) ≡ done_to row trace
done_to-other row trace event other =
    keep_if-append (λ e. (record_of e).row_id == row) trace (event ∷ [])
    ∙ rw other (append-nil (done_to row trace))

other_row : (a row n w : ℕ) → a % n ≡ w → (w == row % n) ≡ false → (a == row) ≡ false
other_row a row n w own e = elim (Bool-cases (a == row)) [
  | inl same ↦ let eq : a ≡ row = ground (arith, same) in absurd (ground (arith, own, e, eq))
  | inr other ↦ other
]

module _ (n : ℕ) (ops : List WalRecord) where
  module _ (s : Replay) (w : ℕ) (t : Table) (before after : Worker) (event : Event)
      (inside : w < length s.workers) (at : worker_at s w ≡ before)
      (step : left before ≡ event ∷ left after) (h : Keeps n ops s) where
    moved_own :
        (v : ℕ)
        → v < n
        → All (λ e. (record_of e).row_id % n ≡ v) (left (worker_at (moved s w t after event) v))
    moved_own v lt =
        let mine =
          subst (All (λ e. (record_of e).row_id % n ≡ w)) (ap left at ∙ step)
            (h.own w (omega (arith, inside, h.count))) in
        elim (Bool-cases (w == v)) [
          | inl e ↦
              let same : w ≡ v = ground (arith, e) in
              rw (worker_at-moved s w v t after event inside, e)
                (subst (λ v. All (λ e. (record_of e).row_id % n ≡ v) (left after)) same mine.1)
          | inr e ↦ rw (worker_at-moved s w v t after event inside, e) (h.own v lt)
        ]

    moved_rows :
        (row : ℕ)
        → done_to row (s.trace ++ event ∷ [])
            ++ done_to row (left (worker_at (moved s w t after event) (row % n)))
          ≡ done_to row (in_turn ops)
    moved_rows row =
        let mine =
          subst (All (λ e. (record_of e).row_id % n ≡ w)) (ap left at ∙ step)
            (h.own w (omega (arith, inside, h.count))) in
        elim (Bool-cases (w == row % n)) [
          | inl e ↦
              let same : row % n ≡ w = ground (arith, e) in
              rw (worker_at-moved s w (row % n) t after event inside, e)
                (done_to-snoc row s.trace (left after) event
                  ∙ ap (λ es. done_to row s.trace ++ done_to row es)
                      (sym (ap (λ v. left (worker_at s v)) same ∙ ap left at ∙ step))
                  ∙ h.rows row)
          | inr e ↦
              let other : ((record_of event).row_id == row) ≡ false =
                other_row (record_of event).row_id row n w mine.0 e in
              rw
                (
                  worker_at-moved s w (row % n) t after event inside,
                  e,
                  done_to-other row s.trace event other,
                )
                (h.rows row)
        ]

    moved-Keeps : Keeps n ops (moved s w t after event)
    moved-Keeps = record {
      count = length-set s.workers w after ∙ h.count;
      own = moved_own;
      rows = moved_rows;
    }

  step-Keeps : (s s' : Replay) → Keeps n ops s → WorkerStep s s' → Keeps n ops s'
  unfolding in_turn
  step-Keeps s _ h (begins w inside at) = moved-Keeps s w _ _ _ _ inside at refl h
  step-Keeps s _ h (writes w inside at e) = moved-Keeps s w _ _ _ _ inside at refl h
  step-Keeps s _ h (commits w inside at e) = moved-Keeps s w _ _ _ _ inside at refl h

get_or-map :
    {A B : Type 0} (f : A → B) (xs : List A) (i : ℕ) (d : A)
    → get_or (map f xs) i (f d) ≡ f (get_or xs i d)
get_or-map f [] i d = refl
get_or-map f (x ∷ xs) zero d = refl
get_or-map f (x ∷ xs) (suc i) d = get_or-map f xs i d

length-map : {A B : Type 0} (f : A → B) (xs : List A) → length (map f xs) ≡ length xs
length-map f [] = refl
length-map f (x ∷ xs) = ap suc (length-map f xs)

-- The rows of a worker that are the row, of those that are the worker's.
keep_row :
    (n row : ℕ) (ops : List WalRecord)
    → keep_if (λ r. r.row_id == row) (keep_if (λ r. r.row_id % n == row % n) ops)
      ≡ keep_if (λ r. r.row_id == row) ops
keep_row n row [] = refl
keep_row n row (op ∷ ops) =
    ground (arith, keep_row n row ops, other_row op.row_id row n (op.row_id % n) refl)

in_turn-own :
    (n w : ℕ) (ops : List WalRecord)
    → All (λ e. (record_of e).row_id % n ≡ w) (in_turn (keep_if (λ r. r.row_id % n == w) ops))
unfolding in_turn
in_turn-own n w [] = tt
in_turn-own n w (op ∷ ops) = elim (Bool-cases (op.row_id % n == w)) [
  | inl e ↦
      let here : op.row_id % n ≡ w = ground (arith, e) in
      rw e (here, (here, (here, in_turn-own n w ops)))
  | inr e ↦ rw e (in_turn-own n w ops)
]

module _ (t : Table) (n : ℕ) (ops : List WalRecord) (some_workers : 0 < n) where
  left-spawned :
      (w : ℕ)
      → w < n
      → left (worker_at (spawned t n ops) w) ≡ in_turn (keep_if (λ r. r.row_id % n == w) ops)
  left-spawned w lt =
      ap left (
        get_or-map (λ ops. record { phase = between; todo = ops }) (shard n (replicate n []) ops) w
          [])
      ∙ ap in_turn (shard-replicate n ops w lt)

  spawned-Keeps : Keeps n ops (spawned t n ops)
  spawned-Keeps = record {
    count =
        length-map (λ ops. record { phase = between; todo = ops }) (shard n (replicate n []) ops)
        ∙ length-shard n ops (replicate n [])
        ∙ length-replicate n [];
    own = λ w lt. rw (left-spawned w lt) (in_turn-own n w ops);
    rows = λ row. rw (left-spawned (row % n) (omega (arith, some_workers))) (
        done_to-in_turn row (keep_if (λ r. r.row_id % n == row % n) ops)
        ∙ ap in_turn (keep_row n row ops)
        ∙ sym (done_to-in_turn row ops));
  }

  Interleaving-Keeps : {s : Replay} → Interleaving t n ops s → Keeps n ops s
  Interleaving-Keeps spawn = spawned-Keeps
  Interleaving-Keeps (later {s} {s'} r step) = step-Keeps n ops s s' (Interleaving-Keeps r) step

-- Of a log, however the threads of the recovery workers take turns, a begin, a write and a commit
-- being a step each: when all threads are joined, what was done to a row is that each record of
-- the row that is behind the checkpoint, writes a row, and belongs to a transaction that the log
-- has a commit of, was begun, written and committed, one after the other in the order of the log,
-- and no other record was.
pub replayed_in_order :
    (t : Table) (num_workers checkpoint_lsn : ℕ) (log : List WalRecord) (s : Replay) (row : ℕ)
    → 0 < num_workers
    → Interleaving t num_workers (ops_of checkpoint_lsn (committed_txn_ids log []) log) s
    → Joined s
    → done_to row s.trace
      ≡ in_turn (keep_if (λ r. r.row_id == row) (keep_if (is_replayed checkpoint_lsn log) log))
unfolding in_turn
replayed_in_order t n lsn log s row some_workers reach joined =
    let ops = ops_of lsn (committed_txn_ids log []) log in
    let nothing : left (worker_at s (row % n)) ≡ [] = ap left (joined (row % n)) in
    let kept = (Interleaving-Keeps t n ops some_workers reach).rows row in
    sym (append-nil (done_to row s.trace))
    ∙ ap (λ es. done_to row s.trace ++ done_to row es) (sym nothing)
    ∙ kept
    ∙ done_to-in_turn row ops
    ∙ ap (λ rs. in_turn (keep_if (λ r. r.row_id == row) rs)) (ops_of_lem lsn log log)
