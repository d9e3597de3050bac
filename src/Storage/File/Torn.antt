-- ===== src/Storage/File/Torn.antt =====
-- A file that `SaveToFile` of src/storage/segment.cpp was stopped in is one `LoadFromFile` refuses.
use mathlib.Core.List.{append-nil}
use coredb.Prelude.{ℕ, ◌≡◌, ◌≢◌, refl, subst, ◌∙◌, List, [], ◌∷◌, ◌++◌, some, inl, inr, arith}
use coredb.Storage.Segment.{Segment}
use coredb.Storage.File
use coredb.Storage.File.{Result, ok, err, FileError}
use coredb.Storage.File.Save.{save_to_file}
use coredb.Storage.File.Load.{load_segment, load_from_file}
use coredb.Storage.File.Parsers.{Result-cases}
use coredb.Storage.File.RoundTrip.{Savable, load_segment-save_to_file}
use coredb.Storage.File.Integrity.{load_segment-Parses}

all_used :
    (seg other : Segment) (left more : List ℕ) (r : Result (Segment × List ℕ))
    → r ≡ ok (other, left ++ more)
    → r ≡ ok (seg, [])
    → more ≡ []
all_used seg other [] more r h k = ground arith
all_used seg other (b ∷ left) more r h k = ground arith

-- The whole file is loaded to its end, so that nothing of it was lost.
nothing_lost :
    (seg other : Segment) (written lost left : List ℕ)
    → Savable seg
    → save_to_file seg ≡ some (written ++ lost)
    → load_segment seg.schema written ≡ ok (other, left)
    → lost ≡ []
nothing_lost seg other written lost left s saved loaded =
    let (bytes, wrote, read) = load_segment-save_to_file seg s in
    let whole : bytes ++ [] ≡ written ++ lost = append-nil bytes ∙ ground (arith, wrote, saved) in
    all_used seg other left lost (load_segment seg.schema (written ++ lost))
      ((load_segment-Parses seg.schema).extends written left lost other loaded)
      (subst (λ b. load_segment seg.schema b ≡ ok (seg, [])) whole (read []))

-- Of the file of such a segment, a part that was written before the rest was lost is refused with
-- an error, wherever the file was cut off.
pub load_from_file-torn :
    (seg : Segment) (written lost : List ℕ)
    → Savable seg
    → save_to_file seg ≡ some (written ++ lost)
    → lost ≢ []
    → (e : FileError) × (load_from_file seg.schema written ≡ err e)
unfolding load_from_file File.◌>>=◌
load_from_file-torn seg written lost s saved torn =
    elim (Result-cases (load_segment seg.schema written)) [
      | inl (e, failed) ↦ (e, rw failed refl)
      | inr ((other, left), loaded) ↦
          absurd (torn (nothing_lost seg other written lost left s saved loaded))
    ]
