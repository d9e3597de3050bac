-- ===== src/Lib.antt =====
-- coredb: a columnar table store with multi-version concurrency control and a write-ahead log.
--
-- A `Table` (src/table/table.cpp) joins immutable columnar segments (src/storage), a delta layer of
-- row versions (src/mvcc/delta.cpp) and a transaction manager (src/mvcc/transaction.cpp). A writer
-- claims the newest version of a row in the delta layer and appends a new one; a scan merges the
-- versions that its snapshot sees with the base rows they do not hide; compaction moves versions
-- that no reader can tell apart any more into a rebuilt base segment.
--
-- The files, and what they model:
--   Prelude               numbers, Booleans, lists and association lists that the others share
--   Util/Bitmap           include/coredb/util/bitmap.h: `Bitmap`; Bits, Laws and AllValid prove
--   Util/Bytes            a word's bytes, as memory and files hold them
--   Util/Crc32c           src/util/crc32c.cpp: `BuildTable`, `Crc32cExtend`, `Crc32c`
--   Storage/Types         src/storage/types.cpp: `Value`, `CompareValues`, `EvaluatePredicate`
--   Storage/Dictionary    include/coredb/storage/dictionary.h: `Dictionary`; Laws proves
--   Storage/Segment       src/storage/segment.cpp: `Column`, `Segment::Build`, `ValueAt`, `CanSkip`,
--                         `VerifyIntegrity`; Store, Widen, Fill and Build prove the round trip
--   Storage/File          the segment file of src/storage/segment.cpp: `SaveToFile` (Save) and
--                         `LoadFromFile` (Load); Columns, RoundTrip, Parsers, Integrity, Typed and Torn
--                         prove what is read back, accepted and refused; Words, Keeps, BuiltColumn and
--                         Built join it with `Segment::Build`
--   Storage/Pruning       proves `CanSkip` against `EvaluatePredicate`; Range, Spans and Built follow the
--                         bounds through `Segment::Build`
--   Mvcc/Transaction      src/mvcc/transaction.cpp: `TransactionManager`; Invariant proves
--   Mvcc/Delta            src/mvcc/delta.cpp: `IsVisible`, `DeltaLayer`; Claim and Conflict prove
--   Mvcc/History          histories of calls of the manager, as a step relation
--   Mvcc/Snapshot         snapshot isolation and the watermark over such histories, and aborted writes
--   Table                 src/table/table.cpp: the calls that read and write rows
--   Table/Scan            `SnapshotForScan`, `MaterializeVisibleRows`
--   Table/Compaction      `Compact`; Safety and Stale prove what it decides
--   Table/View            proves what a scan makes of the delta layer, row by row, and in Own what a
--                         transaction reads of its own writes
--   Table/Isolation       proves that writers do not disturb readers
--   Wal/Record            src/wal/record.cpp: `EncodeBody`; Decode is `DecodeBody`, RoundTrip and Calm
--                         prove
--   Wal/Writer            src/wal/wal_writer.cpp: `WalWriter`
--   Wal/Reader            src/wal/wal_reader.cpp: `ReadAll`; Frames, Crash, Total and Durability
--                         prove what it makes of a whole log, a cut log, any file, synced bytes
--   Recovery              src/recovery/recovery_manager.cpp: `Recover` over a checkpoint as loaded;
--                         Replay proves what it replays, Manager is `Recover` over the files
--   Recovery/Schedule     the threads of `Recover`, as steps that interleave; Order,
--                         Sequential and Recovered prove
--   Recovery/Manifest     src/recovery/checkpoint.cpp: the manifest as text, `LoadManifest`
--   Recovery/Checkpoint   src/recovery/checkpoint.cpp: `WriteCheckpoint`; Saved proves
--   Database              src/db/database.cpp: `Database`; Durability joins the log and recovery,
--                         Checkpoint the checkpoint and the reopened database
--   Compactor             src/compaction/compactor.cpp: `BackgroundCompactor`, as steps of its thread
--   Exec                  src/exec/vectorized.cpp: `RunVectorized`, src/simd/kernels_scalar.cpp;
--                         Batches, OnePass and Bounds prove
--   Exec/Volcano          src/exec/volcano.cpp: `RunVolcano`; Rows proves
--   Jit                   src/jit/query_jit.cpp: `BuildModule`, `QueryJit::Compile`, `QueryJit::Run`, and
--                         `RunJit` of src/exec/jit_exec.cpp (Run). Llvm is what the code relies on of
--                         LLVM; Locals, Body, Loop and Correct prove a call against the scalar kernel;
--                         Machine and Native are a machine of which the hypotheses hold
--   Describe              the texts of the `ToString` functions, and `DescribeCapabilities` of
--                         src/util/cpu_features.cpp
--   Simd                  src/simd: the kernels of each instruction set (Avx2, Avx512, Neon), against
--                         the scalar ones of Exec, by way of Lanes; Dispatch is
--                         src/simd/dispatch.cpp and `Probe` of src/util/cpu_features.cpp
--
-- State is passed explicitly: a method of the source is a function from the object before to the
-- object after. Each method of the manager and of the delta layer runs whole under a lock, so a
-- history of calls is a sequence of them. A call of the table is taken whole as well, which is coarser
-- than the source: writers share the table's lock, and `Update` takes that of the delta layer once to
-- claim the old version and once to insert the new one. A word of w bits is a number below 2 ^ w, with its
-- wrap-around written out; counters of the manager are kept below 2 ^ 64 by a condition on each
-- step. An integer or a double in a cell is its bit pattern, and what the processor does with
-- doubles is a parameter, the record `Double`. A hash map or set is an association list, so the
-- order in which the source walks one is one of the possible orders. An exception is `none`.
-- Files are a function from paths to bytes; what the system answers to a request to create or open
-- one, or for memory for the values of a log record, is a parameter, the record `System`.
-- A loop is a structural recursion but for four, which have fuel. To run out is `none` in three of them,
-- as an exception is:
-- the log reader has a unit for each byte of the file and one more, since a pass takes a byte at
-- least, the batched query has one for each row of a segment and one more, since a batch is not empty,
-- and the iterators have one for each row of all segments and one more, since a call of `Next` that
-- goes on gives a row. The digits of a printed 64-bit number are at most 20, so that its fuel of 20 is
-- enough, and to run out would drop digits.
--
-- Not modelled: writes that fail halfway, memory that runs out but in `DecodeBody`, where a short
-- record can ask for much, threads and locks themselves, the wait of `Stop` for the thread, clocks, and the texts of
-- errors. The intrinsics of the vector kernels are parameters, a record for each instruction
-- set, and what the manuals say of the lanes are hypotheses. So are the instructions of LLVM, with what
-- its reference says of them, and its compiler, of which the hypothesis is that the native code leaves
-- in the caller's variables what the instructions leave there.
pub mod Prelude
pub mod Util
pub mod Storage
pub mod Mvcc
pub mod Table
pub mod Wal
pub mod Recovery
pub mod Database
pub mod Describe
pub mod Exec
pub mod Jit
pub mod Simd
pub mod Compactor
