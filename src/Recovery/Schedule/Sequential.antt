-- ===== src/Recovery/Schedule/Sequential.antt =====
-- To run the workers of src/recovery/recovery_manager.cpp one after the other is one of the
-- interleavings of their threads.
use coredb.Prelude.{
  ℕ, zero, suc, ◌<◌, ◌≡◌, refl, sym, ap, subst, ◌∙◌, List, [], ◌∷◌, ◌++◌, map, some, length, get_or,
  set, length-set, replicate, arith, Option-cases, inl, inr, get_or-set,
}
use mathlib.Core.List.{append-nil}
use coredb.Table
use coredb.Table.{Table}
use coredb.Wal.Record.{WalRecord}
use coredb.Recovery.{apply_switch, apply_op, apply_ops, run_workers, shard}
use coredb.Recovery.Schedule.{
  between, begun, applied, Worker, began, wrote, committed, Replay, finished, worker_at, moved,
  begins, writes, commits, spawned, Interleaving, spawn, later, Joined,
}

set-set : {A : Type 0} (xs : List A) (i : ℕ) (a b : A) → set (set xs i a) i b ≡ set xs i b
set-set [] i a b = refl
set-set (x ∷ xs) zero a b = refl
set-set (x ∷ xs) (suc i) a b = ap (λ ys. x ∷ ys) (set-set xs i a b)

set-get_or : {A : Type 0} (xs : List A) (i : ℕ) (d : A) → set xs i (get_or xs i d) ≡ xs
set-get_or [] i d = refl
set-get_or (x ∷ xs) zero d = refl
set-get_or (x ∷ xs) (suc i) d = ap (λ ys. x ∷ ys) (set-get_or xs i d)

get_or-set_same :
    {A : Type 0} (xs : List A) (i : ℕ) (v d : A) → i < length xs → get_or (set xs i v) i d ≡ v
get_or-set_same xs i v d inside = ground (arith, get_or-set xs i i v d inside)

abbrev idle : List WalRecord → Worker
idle ops = record { phase = between; todo = ops }

module _ (t0 : Table) (n : ℕ) (log : List WalRecord) where
  -- A later state with the table, in which one worker has these operations left.
  record Ran (s : Replay) (w : ℕ) (t : Table) (left : List WalRecord) : Type 0 where
    state : Replay
    reached : Interleaving t0 n log state
    table : state.table ≡ t
    workers : state.workers ≡ set s.workers w (idle left)

  one_op :
      (s : Replay) (w : ℕ) (op : WalRecord) (ops : List WalRecord) (t : Table)
      → Interleaving t0 n log s
      → w < length s.workers
      → worker_at s w ≡ idle (op ∷ ops)
      → apply_op s.table op ≡ some t
      → Ran s w t ops
  unfolding apply_op
  one_op s w op ops t reach inside at e =
      let txn = (Table.begin s.table).1 in
      elim (Option-cases (apply_switch (Table.begin s.table).0 txn op)) [
        | inl threw ↦ absurd (ground (arith, e, threw))
        | inr (t1, e1) ↦ elim (Option-cases (Table.commit t1 txn)) [
          | inl threw ↦ absurd (ground (arith, e, e1, threw))
          | inr ((t2, txn2), e2) ↦
              let k1 : Worker = record { phase = begun txn op; todo = ops } in
              let k2 : Worker = record { phase = applied txn op; todo = ops } in
              let s1 = moved s w (Table.begin s.table).0 k1 (began op) in
              let s2 = moved s1 w t1 k2 (wrote op) in
              let in1 : w < length s1.workers = omega (arith, inside, length-set s.workers w k1) in
              let in2 : w < length s2.workers = omega (arith, in1, length-set s1.workers w k2) in
              let at1 : worker_at s1 w ≡ k1 = get_or-set_same s.workers w k1 finished inside in
              let at2 : worker_at s2 w ≡ k2 = get_or-set_same s1.workers w k2 finished in1 in
              record {
                state = moved s2 w t2 (idle ops) (committed op);
                reached =
                    later (later (later reach (begins w inside at)) (writes w in1 at1 e1))
                      (commits w in2 at2 e2);
                table = ground (arith, e, e1, e2);
                workers =
                    set-set (set s.workers w k1) w k2 (idle ops)
                    ∙ set-set s.workers w k1 (idle ops);
              }
        ]
      ]

  all_ops :
      (ops : List WalRecord) (s : Replay) (w : ℕ) (t : Table)
      → Interleaving t0 n log s
      → w < length s.workers
      → worker_at s w ≡ idle ops
      → apply_ops s.table ops ≡ some t
      → Ran s w t []
  unfolding apply_ops
  all_ops [] s w t reach inside at e = record {
    state = s;
    reached = reach;
    table = ground (arith, e);
    workers = sym (ap (set s.workers w) (sym at) ∙ set-get_or s.workers w finished);
  }
  all_ops (op ∷ ops) s w t reach inside at e = elim (Option-cases (apply_op s.table op)) [
    | inl threw ↦ absurd (ground (arith, e, threw))
    | inr (t1, e1) ↦
        let one = one_op s w op ops t1 reach inside at e1 in
        let at1 : worker_at one.state w ≡ idle ops =
          ap (λ ks. get_or ks w finished) one.workers
          ∙ get_or-set_same s.workers w (idle ops) finished inside in
        let in1 : w < length one.state.workers =
          omega (arith, inside, ap length one.workers, length-set s.workers w (idle ops)) in
        let rest =
          all_ops ops one.state w t one.reached in1 at1 (ground (arith, e, e1, one.table)) in
        record {
          state = rest.state;
          reached = rest.reached;
          table = rest.table;
          workers =
              rest.workers
              ∙ ap (λ ks. set ks w finished) one.workers
              ∙ set-set s.workers w (idle ops) finished;
        }
  ]

-- The workers that have finished, in front of the others.
front_at : {A : Type 0} (k : ℕ) (f x d : A) (ys : List A) → get_or (replicate k f ++ x ∷ ys) k d ≡ x
front_at zero f x d ys = refl
front_at (suc k) f x d ys = front_at k f x d ys

front_set :
    {A : Type 0} (k : ℕ) (f x v : A) (ys : List A)
    → set (replicate k f ++ x ∷ ys) k v ≡ replicate k f ++ v ∷ ys
front_set zero f x v ys = refl
front_set (suc k) f x v ys = ap (λ zs. f ∷ zs) (front_set k f x v ys)

front_next :
    {A : Type 0} (k : ℕ) (f : A) (ys : List A) → replicate k f ++ f ∷ ys ≡ replicate (suc k) f ++ ys
front_next zero f ys = refl
front_next (suc k) f ys = ap (λ zs. f ∷ zs) (front_next k f ys)

front_inside : {A : Type 0} (k : ℕ) (f x : A) (ys : List A) → k < length (replicate k f ++ x ∷ ys)
front_inside zero f x ys = omega arith
front_inside (suc k) f x ys = omega (arith, front_inside k f x ys)

front_get : {A : Type 0} (k w : ℕ) (f : A) → get_or (replicate k f) w f ≡ f
front_get zero w f = refl
front_get (suc k) zero f = refl
front_get (suc k) (suc w) f = front_get k w f

module _ (t0 : Table) (n : ℕ) (log : List WalRecord) where
  all_workers :
      (shards : List (List WalRecord)) (k : ℕ) (s : Replay) (t : Table)
      → Interleaving t0 n log s
      → s.workers ≡ replicate k finished ++ map idle shards
      → run_workers s.table shards ≡ some t
      → (s' : Replay) × Interleaving t0 n log s' × (s'.table ≡ t) × Joined s'
  unfolding run_workers
  all_workers [] k s t reach ws e = (
    s,
    reach,
    ground (arith, e),
    λ w.
        ap (λ ks. get_or ks w finished) (ws ∙ append-nil (replicate k finished))
        ∙ front_get k w finished,
  )
  all_workers (ops ∷ shards) k s t reach ws e = elim (Option-cases (apply_ops s.table ops)) [
    | inl threw ↦ absurd (ground (arith, e, threw))
    | inr (t1, e1) ↦
        let inside : k < length s.workers =
          subst (λ ks. k < length ks) (sym ws)
            (front_inside k finished (idle ops) (map idle shards)) in
        let at : worker_at s k ≡ idle ops =
          ap (λ ks. get_or ks k finished) ws
          ∙ front_at k finished (idle ops) finished (map idle shards) in
        let ran = all_ops t0 n log ops s k t1 reach inside at e1 in
        all_workers shards (suc k) ran.state t ran.reached
          (ran.workers
            ∙ ap (λ ks. set ks k finished) ws
            ∙ front_set k finished (idle ops) finished (map idle shards)
            ∙ front_next k finished (map idle shards))
          (ground (arith, e, e1, ran.table))
  ]

  -- When the workers, run one after the other, replay their operations without an exception, some
  -- interleaving of their threads ends with every thread joined, and with the same table.
  pub run_workers-Interleaving :
      (t : Table)
      → run_workers t0 (shard n (replicate n []) log) ≡ some t
      → (s : Replay) × Interleaving t0 n log s × (s.table ≡ t) × Joined s
  run_workers-Interleaving t e =
      all_workers (shard n (replicate n []) log) 0 (spawned t0 n log) t spawn refl e
