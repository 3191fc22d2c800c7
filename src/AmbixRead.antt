-- ===== src/AmbixRead.antt =====
-- The Pure Data object ambix_read~ of samples/pd/ambix_read~.c: a ring of frames that a child thread fills
-- from a file and that the audio callback empties. A step is what a thread does while it holds the
-- mutex, or one thing that it does without it: a thread that waits for a condition may test it again at any
-- time, so the signals are left out. A frame has a sample for each outlet. Pd's part, the
-- outlets and messages that only print or report, is left out.
pub mod Child
pub mod Callback
pub mod Steps
pub mod Ring
pub mod Bounds
pub mod Safety
pub mod Events
pub mod Playing
pub mod Order
pub mod Playback
pub mod Filling
pub mod Idle
pub mod Heard
pub mod Waiting
pub mod Failures
pub mod Tests
use libambix.Base.{
  ℕ, zero, suc, ◌+◌, ◌-◌, ◌*◌, ◌%◌, ◌==◌, ltb, leb, Bool, true, false, not, ◌&&◌, ◌||◌,
  if◌then◌else◌, Option, none, some, List, [], ◌∷◌, ◌++◌, length, take, drop, replicate, ℤ, pos,
  negsuc, Outcome, done, null, fault, ◌>>=◌,
}

abbrev pub max_channels : ℕ
max_channels = 64

abbrev pub default_vecsize : ℕ
default_vecsize = 128

abbrev pub readframes : ℕ
readframes = 16384

abbrev pub default_bufframes : ℕ
default_bufframes = 65536

abbrev pub max_bufframes : ℕ
max_bufframes = 4194304

pub data State : Type 0 where
  idle startup stream : State

pub data Request : Type 0 where
  nothing open_request close_request quit busy : Request

abbrev pub is_busy : Request → Bool
is_busy busy = true
is_busy _ = false

abbrev pub is_stream : State → Bool
is_stream stream = true
is_stream _ = false

-- What `ambix_open`, and `ambix_seek` to the onset, give of a file: whether it has a matrix, and its
-- frames, each with its ambisonics and its extra samples.
pub record Source (T : Type 0) : Type 0 where
  pub has_matrix : Bool
  pub frames : List (List T × List T)

-- Where the child thread is.
pub data Phase (T : Type 0) : Type 0 where
  -- at the top of its loop
  fielding : Phase T
  opening : Option (Source T) → Phase T
  -- at the top of the loop that feeds the ring
  feeding : Phase T
  -- before `ambix_readf_float32`
  reading : (fifohead wantframes : ℕ) → Phase T
  -- in `merge_samples`, with the frames that are left
  merging : (fifohead sysrtn f : ℕ) → List (List T × List T) → Phase T
  returned : (sysrtn : ℤ) → Phase T
  closing : Phase T
  quitting : Phase T
  finished : Phase T

-- `t_ambix_read`, with the phase of its child thread.
pub record Player (T : Type 0) : Type 0 where
  pub buf : ℕ → List T
  pub bufframes : ℕ
  pub ambichannels : ℕ
  pub xtrachannels : ℕ
  pub vecsize : ℕ
  pub state : State
  pub requestcode : Request
  pub filename : Option (Source T)
  pub fileerror : Bool
  pub ambix_t : Option (Source T)
  pub f_eof : Bool
  pub f_matrix : Bool
  pub f_ambix : Bool
  pub fifosize : ℕ
  pub fifohead : ℕ
  pub fifotail : ℕ
  pub eof : Bool
  pub phase : Phase T

-- What the audio callback gives the outlets: it waits for the child, it gives nothing but zeros, a block
-- of frames, or the last frames and then zeros.
pub data Performed (T : Type 0) : Type 0 where
  waits : Performed T
  silent : Performed T
  block : List (List T) → Performed T
  last : List (List T) → Performed T

-- `merge_samples`, for one frame.
unfoldable pub merge_samples :
    {T : Type 0} → (silence : T) → (want1 want2 : ℕ) → List T × List T → List T
merge_samples silence want1 want2 (buf1, buf2) =
    let left1 = if ltb (length buf1) want1 then want1 - length buf1 else 0 in
    let left2 = if ltb (length buf2) want2 then want2 - length buf2 else 0 in
    let use1 = if ltb (length buf1) want1 then length buf1 else want1 in
    let use2 = if ltb (length buf2) want2 then length buf2 else want2 in
    take use1 buf1 ++ (replicate left1 silence ++ (take use2 buf2 ++ replicate left2 silence))

-- `n` frames of the buffer.
abbrev pub frames_at : {T : Type 0} → (ℕ → List T) → (from n : ℕ) → List (List T)
frames_at buf from zero = []
frames_at buf from (suc n) = buf from ∷ frames_at buf (from + 1) n
