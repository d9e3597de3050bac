-- ===== src/Recovery/Replay.antt =====
-- Which records src/recovery/recovery_manager.cpp replays, and in what order for each row.
use mathlib.Core.List.{append-nil, append_assoc}
use coredb.Prelude.{
  sym, ℕ, ◌%◌, ◌<◌, ◌≡◌, refl, ap, ◌∙◌, Bool, false, not, ◌&&◌, ◌||◌, List, [], ◌∷◌, ◌++◌, ◌==◌,
  leb, if◌then◌else◌, length, get_or, set, replicate, keep_if, length-set, get_or-set,
  length-replicate, get_or-replicate, arith,
}
use coredb.Prelude.Map
use coredb.Wal.WalRecordType
use coredb.Wal.Record.{WalRecord}
use coredb.Recovery.{committed_txn_ids, is_operation, ops_of, shard}

-- A log has a commit of the transaction.
unfoldable pub has_commit : ℕ → List WalRecord → Bool
has_commit txn_id [] = false
has_commit txn_id (rec ∷ recs) =
    rec.type == WalRecordType.commit && rec.txn_id == txn_id || has_commit txn_id recs

pub contains-committed :
    (txn_id : ℕ) (recs : List WalRecord) (ids : List ℕ)
    → Map.contains txn_id (committed_txn_ids recs ids)
      ≡ Map.contains txn_id ids || has_commit txn_id recs
unfolding committed_txn_ids has_commit
contains-committed txn_id [] ids = ground arith
contains-committed txn_id (rec ∷ recs) ids = ground (
  arith,
  contains-committed txn_id recs ids,
  contains-committed txn_id recs (Map.add rec.txn_id ids),
  Map.contains-add rec.txn_id txn_id ids,
)

-- What the log has behind the checkpoint of a transaction that it has a commit of, if it writes a
-- row.
abbrev pub is_replayed : ℕ → List WalRecord → WalRecord → Bool
is_replayed checkpoint_lsn log r =
    not (leb r.lsn checkpoint_lsn) && is_operation r.type && has_commit r.txn_id log

pub ops_of_lem :
    (checkpoint_lsn : ℕ) (recs log : List WalRecord)
    → ops_of checkpoint_lsn (committed_txn_ids log []) recs
      ≡ keep_if (is_replayed checkpoint_lsn log) recs
unfolding ops_of
ops_of_lem lsn [] log = refl
ops_of_lem lsn (rec ∷ recs) log =
    ground (arith, contains-committed rec.txn_id log [], ops_of_lem lsn recs log)

place :
    (shards : List (List WalRecord)) (here w : ℕ) (op : WalRecord) (rest : List WalRecord)
    → here < length shards
    → get_or (set shards here (get_or shards here [] ++ op ∷ [])) w [] ++ rest
      ≡ get_or shards w [] ++ (if here == w then op ∷ rest else rest)
place shards here w op rest inside = ground (
  arith,
  get_or-set shards here w (get_or shards here [] ++ op ∷ []) [] inside,
  append_assoc (get_or shards here []) (op ∷ []) rest,
)

-- A worker has the operations it had before and those of its rows, in their order.
shard_lem :
    (n : ℕ) (ops : List WalRecord) (shards : List (List WalRecord)) (w : ℕ)
    → 0 < n
    → length shards ≡ n
    → w < n
    → get_or (shard n shards ops) w [] ≡ get_or shards w [] ++ keep_if (λ r. r.row_id % n == w) ops
unfolding shard
shard_lem n [] shards w pos len lt = sym (append-nil (get_or shards w []))
shard_lem n (op ∷ ops) shards w pos len lt =
    let here = op.row_id % n in
    let bucket = get_or shards here [] ++ op ∷ [] in
    let inside : here < length shards = omega (arith, pos, len) in
    shard_lem n ops (set shards here bucket) w pos
      (omega (arith, len, length-set shards here bucket)) lt
    ∙ place shards here w op (keep_if (λ r. r.row_id % n == w) ops) inside

-- A worker gets the operations on its rows, in their order.
pub shard-replicate :
    (n : ℕ) (ops : List WalRecord) (w : ℕ)
    → w < n
    → get_or (shard n (replicate n []) ops) w [] ≡ keep_if (λ r. r.row_id % n == w) ops
shard-replicate n ops w inside =
    shard_lem n ops (replicate n []) w (omega (arith, inside)) (length-replicate n []) inside
    ∙ ap (λ xs. xs ++ keep_if (λ r. r.row_id % n == w) ops) (get_or-replicate n w [] [] inside)

pub length-shard :
    (n : ℕ) (ops : List WalRecord) (shards : List (List WalRecord))
    → length (shard n shards ops) ≡ length shards
unfolding shard
length-shard n [] shards = refl
length-shard n (op ∷ ops) shards =
    let here = op.row_id % n in
    let bucket = get_or shards here [] ++ op ∷ [] in
    length-shard n ops (set shards here bucket) ∙ length-set shards here bucket
