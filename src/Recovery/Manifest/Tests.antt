-- ===== src/Recovery/Manifest/Tests.antt =====
-- An instance of the theorem about the manifest of src/recovery/checkpoint.cpp.
use coredb.Prelude.{ℕ, ◌≡◌, refl, List, [], ◌∷◌, some, arith}
use coredb.Recovery.Manifest.{ManifestResult, manifest_text, load_manifest}
use coredb.Recovery.Manifest.RoundTrip.{load_manifest-manifest_text}

-- "a.seg" and "b"
abbrev two_names : List (List ℕ)
two_names = (0x61 ∷ 0x2E ∷ 0x73 ∷ 0x65 ∷ 0x67 ∷ []) ∷ (0x62 ∷ []) ∷ []

load_manifest-manifest_text_example :
    load_manifest (some (manifest_text 1234 two_names))
    ≡ ManifestResult.manifest (record { last_lsn = 1234; segment_files = two_names })
load_manifest-manifest_text_example =
    load_manifest-manifest_text 1234 two_names (omega arith)
      (((λ e. cc), (refl, (refl, (refl, (refl, (refl, tt)))))), (((λ e. cc), (refl, tt)), tt))
