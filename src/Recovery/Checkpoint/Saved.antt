-- ===== src/Recovery/Checkpoint/Saved.antt =====
-- What `WriteCheckpoint` of src/recovery/checkpoint.cpp saves, recovery loads again.
use coredb.Prelude.{
  ℕ, ◌^◌, ◌<◌, ◌≡◌, ◌≢◌, refl, sym, ap, subst, ◌∙◌, true, List, [], ◌∷◌, ◌++◌, none, some, All,
  drop, arith, Bool-cases, Option-cases, inl, inr,
}
use coredb.Storage.Types.{Double, Schema}
use coredb.Storage.Dictionary.Laws.{string_eq_iff}
use coredb.Storage.Segment.{Segment}
use coredb.Storage.File.{ok}
use coredb.Storage.File.Save.{save_to_file}
use coredb.Storage.File.Load.{load_from_file}
use coredb.Storage.File.RoundTrip.{Savable, load_from_file-save_to_file}
use coredb.Table.{Table}
use coredb.Table.Compaction.{compact}
use coredb.Recovery.Manifest.{ManifestResult, read_digits, manifest_text, load_manifest}
use coredb.Recovery.Manifest.RoundTrip.{
  IsPlain, digit-IsPlain, IsFilename, digits-All, read_digits-digits, load_manifest-manifest_text,
}
use coredb.Recovery.Checkpoint.{
  Files, System, write_file, separated, join_path, segment_filename, save_segments,
  write_checkpoint, load_segments,
}

-- The number in a file's name.
id_in_name : (i : ℕ) → i < 2 ^ 64 → read_digits (drop 8 (segment_filename i)) 0 ≡ i
unfolding read_digits
id_in_name i small =
    read_digits-digits 20 i (0x2E ∷ 0x73 ∷ 0x65 ∷ 0x67 ∷ []) (omega arith) (omega arith)

pub cancel_prefix : (p a b : List ℕ) → p ++ a ≡ p ++ b → a ≡ b
cancel_prefix [] a b e = e
cancel_prefix (c ∷ p) a b e = cancel_prefix p a b (ground arith)

abbrev pub path_of : List ℕ → Segment → List ℕ
path_of dir seg = join_path dir (segment_filename seg.segment_id)

-- Segments with different ids have different files.
path_of-injective :
    (dir : List ℕ) (a b : Segment)
    → a.segment_id < 2 ^ 64
    → b.segment_id < 2 ^ 64
    → path_of dir a ≡ path_of dir b
    → a.segment_id ≡ b.segment_id
path_of-injective dir a b small_a small_b e =
    let names =
      cancel_prefix (separated dir) (segment_filename a.segment_id) (segment_filename b.segment_id)
        e in
    sym (id_in_name a.segment_id small_a)
    ∙ (ap (λ f. read_digits (drop 8 f) 0) names ∙ id_in_name b.segment_id small_b)

segment_filename-IsFilename : (i : ℕ) → IsFilename (segment_filename i)
segment_filename-IsFilename i =
    let ending =
      digits-All IsPlain 20 i (0x2E ∷ 0x73 ∷ 0x65 ∷ 0x67 ∷ []) digit-IsPlain
        (refl, (refl, (refl, (refl, tt)))) in
    (λ e. cc, (refl, (refl, (refl, (refl, (refl, (refl, (refl, (refl, ending)))))))))

-- Segments of a schema that can be saved, each with an id of its own.
abbrev pub AreSavable : Schema → List Segment → Type 0
AreSavable schema [] = Unit
AreSavable schema (seg ∷ segs) =
    (seg.schema ≡ schema)
    × Savable seg
    × All (λ other. seg.segment_id ≢ other.segment_id) segs
    × AreSavable schema segs

module _ (system : System) (dir : List ℕ) where
  -- What the loop did if it came to its end.
  save_split :
      (files files' : Files) (seg : Segment) (segs : List Segment) (names : List (List ℕ))
      → save_segments system dir files (seg ∷ segs) ≡ some (files', some names)
      → (bytes : List ℕ) × (names' : List (List ℕ)) × (save_to_file seg ≡ some bytes)
        × (save_segments system dir (write_file (path_of dir seg) bytes files) segs
            ≡ some (files', some names'))
        × (names ≡ segment_filename seg.segment_id ∷ names')
  unfolding save_segments
  save_split files files' seg segs names h = elim (Bool-cases (system.opens (path_of dir seg))) [
    | inr closed ↦ ground (arith, closed)
    | inl opened ↦ elim (Option-cases (save_to_file seg)) [
      | inl thrown ↦ ground (arith, opened, thrown)
      | inr (bytes, wrote) ↦
          elim (Option-cases
            (save_segments system dir (write_file (path_of dir seg) bytes files) segs)) [
              | inl thrown ↦ ground (arith, opened, wrote, thrown)
              | inr ((after, none), rest) ↦ ground (arith, opened, wrote, rest)
              | inr ((after, some names'), rest) ↦ (
                bytes,
                names',
                wrote,
                ground (arith, opened, wrote, rest),
                ground (arith, opened, wrote, rest),
              )
            ]
    ]
  ]

  unwritten :
      (files : Files) (seg : Segment) (bytes path : List ℕ)
      → path_of dir seg ≢ path
      → write_file (path_of dir seg) bytes files path ≡ files path
  unwritten files seg bytes path other = ground (arith, string_eq_iff path (path_of dir seg))

  -- A file that is none of the segments' stays as it is.
  save_keeps :
      (files files' : Files) (segs : List Segment) (names : List (List ℕ)) (path : List ℕ)
      → save_segments system dir files segs ≡ some (files', some names)
      → All (λ seg. path_of dir seg ≢ path) segs
      → files' path ≡ files path
  unfolding save_segments
  save_keeps files files' [] names path h others =
      let same : files ≡ files' = ground arith in ap (λ f. f path) (sym same)
  save_keeps files files' (seg ∷ segs) names path h others =
      let (bytes, names', wrote, rest, e) = save_split files files' seg segs names h in
      save_keeps (write_file (path_of dir seg) bytes files) files' segs names' path rest others.1
      ∙ unwritten files seg bytes path others.0

  other_paths :
      (schema : Schema) (seg : Segment) (segs : List Segment)
      → Savable seg
      → AreSavable schema segs
      → All (λ other. seg.segment_id ≢ other.segment_id) segs
      → All (λ other. path_of dir other ≢ path_of dir seg) segs
  other_paths schema seg [] s savable ids = tt
  other_paths schema seg (other ∷ segs) s savable ids = (
    λ e. ids.0 (sym (path_of-injective dir other seg savable.1.segment_id s.segment_id e)),
    other_paths schema seg segs s savable.3 ids.1,
  )

  -- What is saved is named, and loaded from files that have not changed since.
  load_segments-save_segments :
      (schema : Schema) (segs : List Segment) (files files' : Files) (names : List (List ℕ))
      (disk : Files)
      → AreSavable schema segs
      → save_segments system dir files segs ≡ some (files', some names)
      → All (λ seg. disk (path_of dir seg) ≡ files' (path_of dir seg)) segs
      → (load_segments schema disk dir names ≡ some segs) × All IsFilename names
  unfolding load_segments save_segments
  load_segments-save_segments schema [] files files' names disk savable h same =
      let nil : [] ≡ names = ground arith in
      subst (λ ns. (load_segments schema disk dir ns ≡ some []) × All IsFilename ns) nil (refl, tt)
  load_segments-save_segments schema (seg ∷ segs) files files' names disk savable h same =
      let (bytes, names', wrote, rest, e) = save_split files files' seg segs names h in
      let (saved, wrote_saved, loads) = load_from_file-save_to_file seg savable.1 in
      let kept =
        save_keeps _ files' segs names' (path_of dir seg) rest
          (other_paths schema seg segs savable.1 savable.3 savable.2) in
      let there : disk (path_of dir seg) ≡ some bytes =
        same.0 ∙ kept ∙ ground (arith, string_eq_iff (path_of dir seg) (path_of dir seg)) in
      let one : saved ≡ bytes = ground (arith, wrote, wrote_saved) in
      let read : load_from_file schema bytes ≡ ok seg =
        subst (λ b. load_from_file schema b ≡ ok seg) one
          (subst (λ s. load_from_file s saved ≡ ok seg) savable.0 loads) in
      let (others, filenames) =
        load_segments-save_segments schema segs (write_file (path_of dir seg) bytes files) files'
          names' disk savable.3 rest same.1 in
      rw e (rw (there, read, others) refl, (segment_filename-IsFilename seg.segment_id, filenames))

module _ (d : Double) (system : System) where
  checkpoint_split :
      (t t' : Table) (dir manifest_path : List ℕ) (wal_lsn : ℕ) (files files' : Files)
      → write_checkpoint d system t dir manifest_path wal_lsn files ≡ some ((t', files'), true)
      → (saved : Files) × (names : List (List ℕ)) × (save_segments system dir files t'.base_segments
          ≡ some (saved, some names))
        × (write_file manifest_path (manifest_text wal_lsn names) saved ≡ files')
  unfolding write_checkpoint
  checkpoint_split t t' dir manifest_path wal_lsn files files' h =
      elim (Bool-cases (system.creates dir)) [
        | inr refused ↦ ground (arith, refused)
        | inl created ↦ elim (Option-cases (compact d t)) [
          | inl thrown ↦ ground (arith, created, thrown)
          | inr (compacted, done) ↦
              elim (Option-cases (save_segments system dir files compacted.base_segments)) [
                | inl thrown ↦ ground (arith, created, done, thrown)
                | inr ((saved, none), stopped) ↦ ground (arith, created, done, stopped)
                | inr ((saved, some names), stored) ↦
                    elim (Bool-cases (system.opens manifest_path)) [
                      | inr closed ↦ ground (arith, created, done, stored, closed)
                      | inl opened ↦
                          let same : compacted ≡ t' =
                            ground (arith, created, done, stored, opened) in
                          (
                            saved,
                            names,
                            subst
                                (λ c.
                                  save_segments system dir files c.base_segments
                                  ≡ some (saved, some names))
                                same stored,
                            ground (arith, created, done, stored, opened),
                          )
                    ]
              ]
        ]
      ]

  -- What the segments' files hold has not changed since the last of them was saved.
  unchanged :
      (dir manifest_path text : List ℕ) (saved disk : Files) (segs : List Segment)
      → All (λ seg. path_of dir seg ≢ manifest_path) segs
      → All
          (λ seg. disk (path_of dir seg) ≡ write_file manifest_path text saved (path_of dir seg))
          segs
      → All (λ seg. disk (path_of dir seg) ≡ saved (path_of dir seg)) segs
  unchanged dir manifest_path text saved disk [] apart same = tt
  unchanged dir manifest_path text saved disk (seg ∷ segs) apart same = (
    same.0 ∙ ground (arith, apart.0, string_eq_iff (path_of dir seg) manifest_path),
    unchanged dir manifest_path text saved disk segs apart.1 same.1,
  )

  -- The files that a checkpoint leaves are those that recovery starts from, while they stay as they
  -- are.
  pub write_checkpoint-saved :
      (t t' : Table) (dir manifest_path : List ℕ) (wal_lsn : ℕ) (files files' disk : Files)
      (schema : Schema)
      → write_checkpoint d system t dir manifest_path wal_lsn files ≡ some ((t', files'), true)
      → wal_lsn < 2 ^ 64
      → AreSavable schema t'.base_segments
      → All (λ seg. path_of dir seg ≢ manifest_path) t'.base_segments
      → disk manifest_path ≡ files' manifest_path
      → All (λ seg. disk (path_of dir seg) ≡ files' (path_of dir seg)) t'.base_segments
      → (names : List (List ℕ)) × (load_manifest (disk manifest_path)
          ≡ ManifestResult.manifest (record { last_lsn = wal_lsn; segment_files = names }))
        × (load_segments schema disk dir names ≡ some t'.base_segments)
  write_checkpoint-saved t t' dir manifest_path wal_lsn files files' disk schema h small savable
        apart same_manifest same =
      let (saved, names, stored, wrote) =
        checkpoint_split t t' dir manifest_path wal_lsn files files' h in
      let text = manifest_text wal_lsn names in
      let kept = unchanged dir manifest_path text saved disk t'.base_segments apart (
        subst (λ f. All (λ seg. disk (path_of dir seg) ≡ f (path_of dir seg)) t'.base_segments)
          (sym wrote) same) in
      let (loads, filenames) =
        load_segments-save_segments system dir schema t'.base_segments files saved names disk
          savable stored kept in
      let written : disk manifest_path ≡ some text =
        same_manifest
        ∙ (ap (λ f. f manifest_path) (sym wrote)
            ∙ rw ((string_eq_iff manifest_path manifest_path).1 refl) refl) in
      (names, rw (written, load_manifest-manifest_text wal_lsn names small filenames) refl, loads)
