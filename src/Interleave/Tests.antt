-- ===== src/Interleave/Tests.antt =====
-- A mono and a stereo file of three frames, copied in blocks of two.
use libambix.Base.{
  ℕ, ◌+◌, ◌<◌, ◌≡◌, refl, arith, Bool, true, true, ltb, ◌||◌, if◌then◌else◌, ◌⊎◌, some, List, [],
  ◌∷◌, ◌++◌, done, table, frames_from, ◌*◌, collect,
}
use libambix.Matrix.Fill.{n3d, sid}
use libambix.Handle.{extended}
use libambix.Interleave.{Interleave, deinterleaver, copy, collect_rows}
use libambix.Interleave.Block.{inputs_at}
use libambix.Interleave.Written.{writef_of, copy-samples}
use libambix.Channels.{is_fullset}
use libambix.Channels.Tests.{floor_sqrt}
use libambix.Handle.{Ambix, max_u64}
use libambix.Handle.Backend.{Stream}
use libambix.Session.Buffer.{IsRoomy}
use libambix.Session.Tests.{File, memory, selection, session}
use libambix.Uuid.Tests.{unit_float, unit_bits}
use libambix.Interleave.Format.{
  input_frames, ai_matrix_predefined, starts, name_n3d, name_sid, Layout, channel_sets, layout,
  layout-add, ai_matrix_predefined-shadowed,
}

turned : deinterleaver {T = ℕ} (1 ∷ 2 ∷ 3 ∷ 4 ∷ 5 ∷ 6 ∷ []) 3 2 ≡ done (1 ∷ 3 ∷ 5 ∷ 2 ∷ 4 ∷ 6 ∷ [])
unfolding deinterleaver collect_rows collect
turned = refl

-- A handle of a sound file is its number of channels and the frame that is next. The sample of frame f and
-- channel c is 10 * f + c.
abbrev Handle : Type 0
Handle = ℕ × ℕ

abbrev sample : ℕ → ℕ → ℕ
sample f c = 10 * f + c

abbrev sf_readf_float : Handle → (frames : ℕ) → Handle × List ℕ × ℕ
sf_readf_float (channels, at) frames =
    ((channels, at + frames), frames_from frames at (λ f. table channels 0 (sample f)), frames)

abbrev file_of : ℕ → libambix.Interleave.Block.File sf_readf_float
file_of channels = record {
  channels = channels;
  total = 3;
  sample = sample;
  at = λ p. (channels, p);
  reads = λ p n fits. refl;
}

-- What is written goes behind the samples of the file.
abbrev appending : Stream File ℕ
appending = record {
  itemsize = 4;
  read_frames = λ file frames. (file, file.1, frames);
  write_frames = λ file buffer frames. ((file.0, file.1 ++ buffer), frames);
}

abbrev three_channels : Interleave Handle (Ambix Bool File)
three_channels = record {
  inputs = inputs_at 0 sf_readf_float (file_of 1 ∷ file_of 2 ∷ []) 0;
  outhandle = session;
  ambichannels = 2;
  extrachannels = 1;
  frames = 3;
  blocksize = 2;
}

full_set : is_fullset floor_sqrt 4 ≡ true
unfolding is_fullset floor_sqrt
full_set = refl

session-IsRoomy : IsRoomy 4 session 2
unfolding max_u64
session-IsRoomy = (omega arith, omega arith, omega arith)

shortest_input : 3 ≡ input_frames 0 (3 ∷ 3 ∷ [])
unfolding input_frames
shortest_input = refl

-- An empty input in front of another is forgotten.
first_empty : input_frames 0 (0 ∷ 3 ∷ []) ≡ 3
unfolding input_frames
first_empty = refl

copy-samples_example :
    (done_ai : Interleave Handle (Ambix Bool File)) × (copy sf_readf_float
        (writef_of selection memory appending floor_sqrt)
        three_channels
      ≡ done done_ai)
    × (done_ai.outhandle.private_data.1 ≡ 0 ∷ 0 ∷ 1 ∷ 10 ∷ 10 ∷ 11 ∷ 20 ∷ 20 ∷ 21 ∷ [])
copy-samples_example =
    copy-samples selection memory appending floor_sqrt (λ file. file.1) 0 sf_readf_float
      (file_of 1 ∷ file_of 2 ∷ []) three_channels (λ file buffer n size. (refl, refl)) refl refl
      shortest_input (omega arith, (omega arith, tt))
      (record {
        plain = refl;
        clean = refl;
        full = rw full_set refl;
        ambichannels_same = refl;
        extrachannels_same = refl;
        info_small = omega arith;
        realinfo_small = omega arith;
        roomy = session-IsRoomy;
      })

abbrev two_and_one : Layout
two_and_one = record { fileformat = extended; ambichannels = 2; extrachannels = 1 }

three_of_two : layout (λ n. n) 3 (some 2) 0 ≡ some two_and_one
unfolding layout channel_sets
three_of_two = refl

layout-add_example :
    (two_and_one.ambichannels + two_and_one.extrachannels ≡ 3)
    × (0 < 3)
    × ((two_and_one.fileformat ≡ extended) ⊎ (two_and_one.extrachannels ≡ 0))
layout-add_example = layout-add (λ n. n) 3 (some 2) 0 two_and_one three_of_two

-- `N3D`
abbrev name : List ℕ
name = b'N' ∷ b'3' ∷ b'D' ∷ []

abbrev tolower : ℕ → ℕ
tolower c = if ltb c b'a' then (if ltb c b'A' then c else c + 32) else c

abbreviates :
    (starts (b'n' ∷ b'3' ∷ b'd' ∷ []) name_n3d || starts (b'n' ∷ b'3' ∷ b'd' ∷ []) name_sid) ≡ true
unfolding starts
abbreviates = refl

ai_matrix_predefined-shadowed_example : ai_matrix_predefined tolower name ≡ some (n3d, sid)
ai_matrix_predefined-shadowed_example =
    ai_matrix_predefined-shadowed tolower name b'n' (b'3' ∷ b'd' ∷ []) refl abbreviates
