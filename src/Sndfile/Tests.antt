-- ===== src/Sndfile/Tests.antt =====
-- Concrete constants of libsndfile, as sndfile.h has them, and a CAF file with two chunks.
use libambix.Base.{
  ℕ, ◌≡◌, refl, arith, Bool, true, false, ◌==◌, if◌then◌else◌, none, some, List, [], ◌∷◌, done,
  collect,
}
use libambix.Matrix.{Accumulator, Matrix, read}
use libambix.Matrix.Fuma.{Weights}
use libambix.Matrix.Writes.{IsFilled}
use libambix.Words.Bytes.{store4, store_words}
use libambix.Uuid.{get_uuid, row_words, matrix_to_uuid1}
use libambix.Uuid.Tests.{unit_float, unit_bits}
use libambix.Handle.{Ambix, Info, extended}
use libambix.Sndfile.{Constants, Chunk, Opened, read_chunk, sndfile_open}
use libambix.Sndfile.Formats.{IsDistinct}
use libambix.Sndfile.Reading.{sndfile_open-matrix_to_uuid1}

-- Every format of these tests is in a CAF file.
abbrev constants : Constants
constants = record {
  pcm_16 = 2;
  pcm_24 = 3;
  pcm_32 = 4;
  float = 6;
  double = 7;
  caf = 0x180000;
  with_subtype = λ c s. s;
  subtype = λ f. f;
  container = λ f. 0x180000;
}

constants-IsDistinct : IsDistinct constants
constants-IsDistinct = record {
  s16-s24 = λ e. omega (arith, e);
  s16-s32 = λ e. omega (arith, e);
  s16-f = λ e. omega (arith, e);
  s16-d = λ e. omega (arith, e);
  s24-s32 = λ e. omega (arith, e);
  s24-f = λ e. omega (arith, e);
  s24-d = λ e. omega (arith, e);
  s32-f = λ e. omega (arith, e);
  s32-d = λ e. omega (arith, e);
  f-d = λ e. omega (arith, e);
  subtype-with_subtype = λ c s. refl;
}

abbrev five_channels : Info
five_channels = record {
  frames = 10;
  samplerate = 48000;
  sampleformat = 3;
  fileformat = extended;
  extrachannels = 1;
  ambichannels = 4;
}

instance abbrev unit_weights : Weights Bool
unit_weights = record {
  sqrt2 = true;
  sqrt3_4 = true;
  sqrt5_8 = true;
  sqrt32_45 = true;
  sqrt5_9 = true;
  sqrt1_2 = true;
  sqrt4_3 = true;
  sqrt8_5 = true;
  sqrt45_32 = true;
  sqrt9_5 = true;
  neg = λ b. b;
}

abbrev any_of : Accumulator Bool Bool Bool
any_of = record { start = false; step = λ s m x. if m then x else s; finish = λ s. s }

abbrev unit_row : Matrix Bool
unit_row = record { rows = 1; cols = 2; cell = λ r c. c == 0 }

-- The chunk of `unit_row`, low bytes first.
abbrev unit_chunk : List ℕ
unit_chunk =
    26 ∷ 211 ∷ 24 ∷ 195 ∷ 0 ∷ 229 ∷ 85 ∷ 118 ∷ 190 ∷ 45 ∷ 13 ∷ 202 ∷ 36 ∷ 96 ∷ 188 ∷ 137 ∷ 1 ∷ 0 ∷ 0
    ∷ 0 ∷ 2 ∷ 0 ∷ 0 ∷ 0 ∷ 0 ∷ 0 ∷ 128 ∷ 63 ∷ 0 ∷ 0 ∷ 0 ∷ 0 ∷ []

abbrev short_chunk : Chunk
short_chunk = record { has_size = true; bytes = 1 ∷ 2 ∷ []; has_data = true }

abbrev two_chunks : Opened ℕ
two_chunks = record {
  sf_file = 0;
  sf_info = record {
    frames = 10;
    samplerate = 48000;
    channels = 2;
    format = 4;
    sections = 1;
    seekable = 1;
  };
  needs_endswap = false;
  is_b_format = false;
  uuid_chunks = short_chunk ∷ record { has_size = true; bytes = unit_chunk; has_data = true } ∷ [];
}

behind_last : read_chunk (short_chunk ∷ []) 1 ≡ none
unfolding read_chunk
behind_last = refl

unit_chunk_written : matrix_to_uuid1 unit_row false ≡ done unit_chunk
unfolding matrix_to_uuid1 get_uuid row_words collect read store_words store4
unit_chunk_written = refl

sndfile_open-matrix_to_uuid1_example :
    (a : Ambix Bool ℕ) × (sndfile_open any_of
        (λ n. n)
        (λ n. true)
        (λ n. true)
        constants
        (λ mode info. some two_chunks)
        (record { reads = true; writes = false })
        five_channels
      ≡ done a)
    × (a.is_ambix ≡ true)
    × (a.format ≡ extended)
    × IsFilled 1 2 (λ r c. c == 0) a.matrix
sndfile_open-matrix_to_uuid1_example =
    sndfile_open-matrix_to_uuid1 any_of (λ n. n) (λ n. true) (λ n. true) constants
      (λ mode info. some two_chunks) (record { reads = true; writes = false }) five_channels
      two_chunks (short_chunk ∷ []) [] unit_row unit_chunk refl refl refl (refl, tt)
      unit_chunk_written
      (record {
        rows-pos = omega arith;
        rows-lt = omega arith;
        cols-pos = omega arith;
        cols-lt = omega arith;
        small = omega arith;
      })
