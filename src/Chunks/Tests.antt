-- ===== src/Chunks/Tests.antt =====
-- Chunks of concrete handles.
use libambix.Base.{
  ℕ, ◌≡◌, ◌≢◌, refl, arith, true, some, none, List, [], ◌∷◌, ◌++◌, replicate, done, fault,
}
use libambix.Handle.{Ambix, unknown}
use libambix.Handle.Tests.{intro, coda, verse, handle}
use libambix.Handle.Markers.{Holds}
use libambix.Chunks.Fields.{put4, put_stringid}
use libambix.Chunks.Write.{chunks_of}
use libambix.Chunks.Read.{read_strings_chunk, read_chunks, read_all}
use libambix.Chunks.Whole.{chunks_of-fault}
use libambix.Chunks.Persist.{read_all-chunks_of}
use libambix.Chunks.Roundtrip.{IsName}
use libambix.Chunks.Safety.{read_all-total, read_strings_chunk-fault}

-- A handle with two markers and a region.
abbrev marked : Ambix ℕ (Unit {0})
marked = record handle {
  num_markers = 2;
  markers = some (intro ∷ coda ∷ []);
  num_regions = 1;
  regions = some (verse ∷ []);
}

-- A handle with none.
abbrev blank : Ambix ℕ (Unit {0})
blank = record handle { num_markers = 0; markers = none }

single-IsName : (x : ℕ) → x ≢ 0 → IsName (x ∷ [])
single-IsName x h = record { no_nul = (h, tt); short = omega arith }

read_all-chunks_of_example :
    (mark regn strg : List ℕ) × (chunks_of marked 3 ≡ done (mark, regn, strg))
    × (c : Ambix ℕ (Unit {0})) × (read_all (strg ∷ []) (mark ∷ []) (regn ∷ []) blank
        ≡ done (c, unknown))
    × Holds c (intro ∷ coda ∷ [], verse ∷ [])
read_all-chunks_of_example =
    read_all-chunks_of marked blank (refl, refl) (omega arith) (omega arith)
      (
        record { position-lt = omega arith; name = single-IsName b'a' (omega arith) },
        (record { position-lt = omega arith; name = single-IsName b'b' (omega arith) }, tt),
      )
      (
        record {
          start-lt = omega arith;
          end-lt = omega arith;
          name = record { no_nul = tt; short = omega arith };
        },
        tt,
      )
      refl (refl, (refl, refl), refl, refl)

-- A name of 255 bytes beside another one.
abbrev long_name : List ℕ
long_name = replicate 255 b'x'

abbrev overfull : Ambix ℕ (Unit {0})
overfull = record handle {
  num_markers = 2;
  markers = some (intro ∷ record { position = 1; name = long_name } ∷ []);
}

chunks_of-fault_example : chunks_of overfull 2 ≡ fault
chunks_of-fault_example =
    chunks_of-fault overfull _ _ (refl, refl) refl refl (omega arith) (omega arith)

read_strings_chunk-fault_example :
    read_strings_chunk true (put4 true 1 ++ (put_stringid true 7 0 ++ b'a' ∷ b'b' ∷ [])) [] ≡ fault
read_strings_chunk-fault_example =
    read_strings_chunk-fault true 7 (b'a' ∷ b'b' ∷ []) [] (omega arith) (omega arith)
      (refl, (refl, tt))

-- Chunks of markers and regions that end early.
abbrev cut_off : List (List ℕ)
cut_off = (put4 true 0 ++ (put4 true 1 ++ replicate 33 1)) ∷ []

read_all-total_example :
    (c : Ambix ℕ (Unit {0})) × (read_all [] cut_off cut_off blank ≡ done (c, unknown))
    × (c.realinfo ≡ blank.realinfo)
unfolding read_chunks
read_all-total_example = read_all-total [] cut_off cut_off blank [] refl
