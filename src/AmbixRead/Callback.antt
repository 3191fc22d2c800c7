-- ===== src/AmbixRead/Callback.antt =====
-- The audio callback `ambix_read_perform`, and the messages to the object.
use libambix.Base.{
  ℕ, suc, to_u32, ◌+◌, ◌-◌, ◌*◌, ◌==◌, ltb, leb, Bool, true, false, not, ◌&&◌, ◌||◌, if◌then◌else◌,
  Option, none, List, ℤ, pos, negsuc, Outcome, done, fault, ◌>>=◌,
}
use libambix.AmbixRead.{
  Performed, Player, Source, State, block, close_request, default_bufframes, default_vecsize,
  fielding, frames_at, idle, is_stream, last, max_bufframes, max_channels, nothing, open_request,
  quit, readframes, silent, startup, stream, waits,
}

-- `deinterleave_samples` of `n` frames from the tail, into vectors of `vecsize` samples.
unfoldable pub deinterleave_samples : {T : Type 0} → Player T → (n : ℕ) → Outcome (List (List T))
deinterleave_samples x n =
    if ltb x.vecsize n
    then fault
    else if ltb x.bufframes (x.fifotail + n)
    then fault
    else done (frames_at x.buf x.fifotail n)

-- The ring is about to drain, by the test of the code.
abbrev pub is_low : {T : Type 0} → Player T → Bool
is_low x = leb x.fifotail x.fifohead && ltb x.fifohead (x.fifotail + x.vecsize - 1)

-- After the last frames, and after a block.
abbrev pub drained : {T : Type 0} → Player T → Player T
drained x = record x { f_eof = true; state = idle }

abbrev pub moved_on : {T : Type 0} → Player T → Player T
moved_on x = record x {
  fifotail = if leb x.fifosize (x.fifotail + x.vecsize) then 0 else x.fifotail + x.vecsize;
}

unfoldable pub perform : {T : Type 0} → Player T → Outcome (Player T × Performed T)
perform x =
    if x.f_matrix || x.f_ambix
    then done (x, silent)
    else if not (is_stream x.state)
    then done (x, silent)
    else if not x.eof && is_low x
    then done (x, waits)
    else if x.eof && is_low x
    then (deinterleave_samples x (x.fifohead - x.fifotail + 1) >>= λ frames.
        done (drained x, last frames))
    else (deinterleave_samples x x.vecsize >>= λ frames. done (moved_on x, block frames))

-- The messages to the object.
module _ {T : Type 0} where
  unfoldable pub start_at : Player T → State → Player T
  start_at x startup = record x { state = stream }
  start_at x idle = x
  start_at x stream = x

  unfoldable pub start : Player T → Player T
  start x = start_at x x.state

  unfoldable pub stop : Player T → Player T
  stop x = record x { state = idle; requestcode = close_request }

  unfoldable pub open_file : Player T → Option (Source T) → Player T
  open_file x file = record x {
    requestcode = open_request;
    filename = file;
    fifotail = 0;
    fifohead = 0;
    eof = false;
    fileerror = false;
    state = startup;
  }

  unfoldable pub tick : Player T → Player T
  tick x = record x { f_eof = false; f_matrix = false; f_ambix = false }

  unfoldable pub dsp : Player T → (vecsize : ℕ) → Player T
  dsp x vecsize = record x { vecsize = vecsize }

  unfoldable pub free : Player T → Player T
  free x = record x { requestcode = quit }

-- The frames of the buffer, from the argument of the object.
unfoldable pub buffer_frames : ℤ → ℕ
buffer_frames (negsuc n) = default_bufframes
buffer_frames (pos n) =
    if n == 0
    then default_bufframes
    else if ltb n (4 * readframes)
    then 4 * readframes
    else if ltb max_bufframes n
    then max_bufframes
    else n

-- `achannels+xchannels>MAXSFCHANS`
unfoldable pub too_many : (achannels xchannels : ℤ) → Bool
too_many (pos a) (pos b) = ltb max_channels (a + b)
too_many (pos a) (negsuc b) = ltb (max_channels + suc b) a
too_many (negsuc a) (pos b) = ltb (max_channels + suc a) b
too_many (negsuc a) (negsuc b) = false

-- The numbers of channels, as far as there may be so many.
unfoldable pub limited : (achannels xchannels : ℤ) → ℤ × ℤ
limited (pos a) xchannels =
    if too_many (pos a) xchannels
    then (if ltb max_channels a then (pos max_channels, pos 0) else (pos a, pos (max_channels - a)))
    else (pos a, xchannels)
limited (negsuc a) xchannels =
    if too_many (negsuc a) xchannels
    then (negsuc a, pos (max_channels + suc a))
    else (negsuc a, xchannels)

-- `ambix_read_new`: a negative number of channels becomes a large uint32_t.
unfoldable pub new :
    {T : Type 0} → (buf : ℕ → List T) → (achannels xchannels : ℤ) → (bufframes : ℤ) → Player T
new buf achannels xchannels bufframes = record {
  buf = buf;
  bufframes = buffer_frames bufframes;
  ambichannels = to_u32 (limited achannels xchannels).0;
  xtrachannels = to_u32 (limited achannels xchannels).1;
  vecsize = default_vecsize;
  state = idle;
  requestcode = nothing;
  filename = none;
  fileerror = false;
  ambix_t = none;
  f_eof = false;
  f_matrix = false;
  f_ambix = false;
  fifosize = 0;
  fifohead = 0;
  fifotail = 0;
  eof = false;
  phase = fielding;
}
