-- ===== src/Interleave.antt =====
-- The tool of utils/ambix-interleave.c: it copies sound files, block by block, to the ambisonics and extra
-- channels of an ambiX file. Sound files are read by `sf_readf_float`, a parameter:
-- it gives the handle, what the buffer then holds, and the number of frames that were read. `writef`, which is
-- `ambix_writef_float32` of Session, is a parameter of the copying too. Sizes in bytes fit their words.
pub mod Rows
pub mod Block
pub mod Copy
pub mod Written
pub mod Format
pub mod Tests
use libambix.Base.{
  ℕ, zero, suc, ◌+◌, ◌-◌, ◌*◌, ◌<◌, ◌==◌, ltb, leb, Bool, true, false, not, ◌&&◌, ◌||◌,
  if◌then◌else◌, Option, none, some, List, [], ◌∷◌, ◌++◌, length, take, drop, get_elem?, map, ℤ,
  pos, negsuc, Outcome, done, null, fault, ◌>>=◌, access, collect,
}

abbrev pub default_blocksize : ℕ
default_blocksize = 1024

module _ {T : Type 0} where
  -- `for(r=from; r<from+rows; r++) for(c=0; c<cols; c++) *dest++=value(r, c);`
  unfoldable pub collect_rows : (rows cols from : ℕ) → (ℕ → ℕ → Outcome T) → Outcome (List T)
  collect_rows zero cols from value = done []
  collect_rows (suc rows) cols from value = collect cols 0 (value from) >>= λ row.
      collect_rows rows cols (from + 1) value >>= λ rest. done (row ++ rest)

  unfoldable pub deinterleaver : List T → (frames channels : ℕ) → Outcome (List T)
  deinterleaver source frames channels =
      collect_rows channels frames 0
        (λ channel frame. access (get_elem? source (frame * channels + channel)))

  unfoldable pub interleaver : List T → (frames channels : ℕ) → Outcome (List T)
  interleaver source frames channels =
      collect_rows frames channels 0
        (λ frame channel. access (get_elem? source (channel * frames + frame)))

-- An input: what `sf_open` gives, with its number of channels.
pub record Input (SF : Type 0) : Type 0 where
  pub handle : SF
  pub channels : ℕ

-- `ai_t`, as far as copying goes.
pub record Interleave (SF H : Type 0) : Type 0 where
  pub inputs : List (Input SF)
  pub outhandle : H
  pub ambichannels : ℕ
  pub extrachannels : ℕ
  pub frames : ℕ
  pub blocksize : ℕ

-- The buffers of `ai_copy`, by how many samples they hold; none for NULL.
pub record Buffers : Type 0 where
  pub sourcedata : Option ℕ
  pub ambidata : Option ℕ
  pub extradata : Option ℕ
  pub interleavebuffer : ℕ

-- `for(i=0; i<ai->numIns; i++) if(c>maxchannels)maxchannels=c;`
unfoldable pub max_inchannels : {SF : Type 0} → (maxchannels : ℕ) → List (Input SF) → ℕ
max_inchannels maxchannels [] = maxchannels
max_inchannels maxchannels (input ∷ inputs) =
    max_inchannels (if ltb maxchannels input.channels then input.channels else maxchannels) inputs

abbrev pub source_size : (maxchannels blocksize : ℕ) → Option ℕ
source_size maxchannels blocksize =
    if ltb 1 maxchannels then some (maxchannels * blocksize) else none

abbrev pub set_size : (channels blocksize : ℕ) → Option ℕ
set_size channels blocksize = if ltb 0 channels then some (channels * blocksize) else none

abbrev pub allocated :
    {SF : Type 0} → List (Input SF) → (ambichannels extrachannels blocksize : ℕ) → Buffers
allocated inputs ambichannels extrachannels blocksize = record {
  sourcedata = source_size (max_inchannels 0 inputs) blocksize;
  ambidata = set_size ambichannels blocksize;
  extradata = set_size extrachannels blocksize;
  interleavebuffer = (ambichannels + extrachannels) * blocksize;
}

-- From what was read into `sourcedata`, or at once into the buffer of all channels.
unfoldable pub cooked :
    {T : Type 0}
    → (sourcedata : Option ℕ) → (inchannels : ℕ) → List T
    → (frames readframes : ℕ) → Outcome (List T)
cooked none inchannels source frames readframes = done source
cooked (some size) inchannels source frames readframes =
    if ltb 1 inchannels
    then (if ltb size (length source)
        then fault
        else if not (readframes == 0)
        then deinterleaver source frames inchannels
        else done source)
    else done source

-- `if(dest) interleaver(dest, source, frames, channels);`
unfoldable pub channel_set :
    {T : Type 0} → (dest : Option ℕ) → List T → (frames channels : ℕ) → Outcome (List T)
channel_set none source frames channels = done []
channel_set (some size) source frames channels = interleaver source frames channels >>= λ samples.
    if ltb size (length samples) then fault else done samples

module _ {SF T : Type 0} (sf_readf_float : SF → (frames : ℕ) → SF × List T × ℕ) where
  -- The samples of all inputs, one channel after the other; NULL if an input has not all the frames.
  -- `room` is what is left of the buffer for all channels.
  unfoldable pub read_inputs :
      List (Input SF)
      → (sourcedata : Option ℕ) → (frames room : ℕ) → Outcome (List (Input SF) × List T)
  read_inputs [] sourcedata frames room = done ([], [])
  read_inputs (input ∷ inputs) sourcedata frames room =
      let (handle, source, readframes) = sf_readf_float input.handle frames in
      cooked sourcedata input.channels source frames readframes >>= λ samples.
      if ltb room (length samples)
      then fault
      else if not (frames == readframes)
      then null
      else (read_inputs inputs sourcedata frames (room - length samples) >>= λ (rest, others).
          done (record input { handle = handle } ∷ rest, samples ++ others))

  module _ {H : Type 0}
      (writef : H → (ambidata otherdata : List T) → (frames : ℕ) → Outcome (H × ℤ)) where
    unfoldable pub copy_block : Interleave SF H → Buffers → (frames : ℕ) → Outcome (Interleave SF H)
    copy_block ai buffers frames =
        read_inputs ai.inputs buffers.sourcedata frames buffers.interleavebuffer
        >>= λ (inputs, deinterleaved).
            channel_set buffers.ambidata deinterleaved frames ai.ambichannels >>= λ ambidata.
            channel_set buffers.extradata (drop (frames * ai.ambichannels) deinterleaved) frames
              ai.extrachannels
            >>= λ extradata.
                writef ai.outhandle ambidata extradata frames >>= λ (outhandle, written).
                (elim written [
                  | negsuc n ↦ null
                  | pos n ↦
                      if n == frames
                      then done (record ai { inputs = inputs; outhandle = outhandle })
                      else null
                ])

    -- `while(frames>blocksize)`, and the last block; each round copies a frame at least.
    unfoldable pub copy_blocks :
        (fuel : ℕ) → Interleave SF H → Buffers → (blocksize frames : ℕ) → Outcome (Interleave SF H)
    copy_blocks zero ai buffers blocksize frames = null
    copy_blocks (suc fuel) ai buffers blocksize frames = elim (ltb blocksize frames) [
      | true ↦ copy_block ai buffers blocksize >>= λ next.
          copy_blocks fuel next buffers blocksize (frames - blocksize)
      | false ↦ copy_block ai buffers frames
    ]

    unfoldable pub copy : Interleave SF H → Outcome (Interleave SF H)
    copy ai =
        let blocksize = if ltb ai.blocksize 1 then default_blocksize else ai.blocksize in
        copy_blocks (suc ai.frames) ai
          (allocated ai.inputs ai.ambichannels ai.extrachannels blocksize) blocksize ai.frames
