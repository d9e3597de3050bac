-- ===== src/Recovery/Checkpoint.antt =====
-- `WriteCheckpoint` of src/recovery/checkpoint.cpp, and the part of `Recover` in
-- src/recovery/recovery_manager.cpp that loads the segments again.
--
-- The files are a function from paths to what they hold. Which directories can be created and which
-- files opened for writing is the system's answer, a parameter, as is for how many values of a row
-- there is memory.
pub mod Saved
use coredb.Prelude.{
  ℕ, zero, suc, Bool, true, false, not, List, [], ◌∷◌, ◌++◌, Option, none, some, map, ◌==◌,
  if◌then◌else◌, ◌>>=◌,
}
use coredb.Storage.Types.{Double, Schema}
use coredb.Storage.Dictionary.{string_eq}
use coredb.Storage.Segment.{Segment}
use coredb.Storage.File.{Result, ok, err}
use coredb.Storage.File.Save.{save_to_file}
use coredb.Storage.File.Load.{load_from_file}
use coredb.Table.{Table}
use coredb.Table.Compaction.{compact}
use coredb.Recovery.Manifest.{to_string, manifest_text}

abbrev pub Files : Type 0
Files = List ℕ → Option (List ℕ)

pub record System : Type 0 where
  pub creates : List ℕ → Bool
  pub opens : List ℕ → Bool
  pub grants : ℕ → Bool

abbrev pub write_file : List ℕ → List ℕ → Files → Files
write_file path bytes files = λ p. if string_eq p path then some bytes else files p

abbrev pub slash : ℕ
slash = 0x2F

-- What `operator/` of `fs::path` puts behind a directory.
abbrev pub separated : List ℕ → List ℕ
separated [] = []
separated (c ∷ []) = if c == slash then c ∷ [] else c ∷ slash ∷ []
separated (c ∷ b ∷ dir) = c ∷ separated (b ∷ dir)

abbrev pub join_path : List ℕ → List ℕ → List ℕ
join_path dir [] = separated dir
join_path dir (c ∷ f) = if c == slash then c ∷ f else separated dir ++ c ∷ f

-- "segment_" and ".seg"
abbrev pub segment_filename : ℕ → List ℕ
segment_filename id =
    0x73
    ∷ 0x65
    ∷ 0x67
    ∷ 0x6D
    ∷ 0x65
    ∷ 0x6E
    ∷ 0x74
    ∷ 0x5F
    ∷ to_string id (0x2E ∷ 0x73 ∷ 0x65 ∷ 0x67 ∷ [])

module _ (system : System) (dir : List ℕ) where
  -- The files after the loop, and the names, or `none` if a segment could not be saved. The outer
  -- `none` is an exception.
  unfoldable pub save_segments : Files → List Segment → Option (Files × Option (List (List ℕ)))
  save_segments files [] = some (files, some [])
  save_segments files (seg ∷ segs) =
      let filename = segment_filename seg.segment_id in
      let full_path = join_path dir filename in
      if not (system.opens full_path) then some (files, none) else do
        bytes ← save_to_file seg
        rest ← save_segments (write_file full_path bytes files) segs
        some (rest.0, rest.1 >>= λ names. some (filename ∷ names))

module _ (d : Double) (system : System) where
  -- The manifest is written once every segment is.
  abbrev write_manifest :
      List ℕ → ℕ → Table → Files × Option (List (List ℕ)) → (Table × Files) × Bool
  write_manifest manifest_path wal_lsn table (files, none) = ((table, files), false)
  write_manifest manifest_path wal_lsn table (files, some filenames) =
      if system.opens manifest_path
      then ((table, write_file manifest_path (manifest_text wal_lsn filenames) files), true)
      else ((table, files), false)

  unfoldable pub write_checkpoint :
      Table → List ℕ → List ℕ → ℕ → Files → Option ((Table × Files) × Bool)
  unfolding save_segments
  write_checkpoint table dir manifest_path wal_lsn files =
      if not (system.creates dir) then some ((table, files), false) else do
        compacted ← compact d table
        saved ← save_segments system dir files compacted.base_segments
        some (write_manifest manifest_path wal_lsn compacted saved)

abbrev pub loaded : Result Segment → Option Segment
loaded (ok seg) = some seg
loaded (err e) = none

-- The segments of a manifest; `none` is a file that is missing or refused.
unfoldable pub load_segments : Schema → Files → List ℕ → List (List ℕ) → Option (List Segment)
load_segments schema files segment_dir [] = some []
load_segments schema files segment_dir (filename ∷ filenames) = do
  file ← files (join_path segment_dir filename)
  seg ← loaded (load_from_file schema file)
  segs ← load_segments schema files segment_dir filenames
  some (seg ∷ segs)
