-- ===== src/AmbixRead/Child.antt =====
-- The child thread, `ambix_read_child_main`: it opens a file and puts its frames in the ring.
use libambix.Base.{
  ℕ, ◌+◌, ◌-◌, ◌*◌, ◌%◌, ◌==◌, ltb, leb, true, false, not, ◌||◌, if◌then◌else◌, Option, none, some,
  List, [], ◌∷◌, length, take, drop, ℤ, pos, negsuc, Outcome, done, fault,
}
use libambix.AmbixRead.{
  Phase, Player, Request, Source, busy, close_request, closing, feeding, fielding, finished,
  is_busy, merge_samples, merging, nothing, open_request, opening, quit, quitting, readframes,
  reading, returned,
}

module _ {T : Type 0} where
  -- The end of a request to open: behind `lost`.
  unfoldable pub lost : Player T → Player T
  lost x = record x {
    requestcode = if is_busy x.requestcode then nothing else x.requestcode;
    ambix_t = none;
    phase = fielding;
  }

  unfoldable pub field : Player T → Request → Player T
  field x nothing = x
  field x open_request = record x {
    requestcode = busy;
    fileerror = false;
    phase = opening x.filename;
  }
  field x close_request = record x { phase = closing }
  field x quit = record x { phase = quitting }
  field x busy = x

  -- The frames that the ring has room for; none if the child waits.
  unfoldable pub room : Player T → Option ℕ
  room x =
      if leb x.fifotail x.fifohead
      then (if not (x.fifotail == 0) || ltb readframes (x.fifosize - x.fifohead)
          then (if ltb readframes (x.fifosize - x.fifohead)
              then some readframes
              else some (x.fifosize - x.fifohead))
          else none)
      else if ltb (x.fifotail - x.fifohead - 1) readframes
      then none
      else some readframes

  unfoldable pub feed : Player T → Player T
  feed x = if not (is_busy x.requestcode) then lost x else if x.eof then lost x else elim (room x) [
    | none ↦ x
    | some wantframes ↦ record x { phase = reading x.fifohead wantframes }
  ]

  -- `ambix_readf_float32`: `answer` is an error, or how many frames it would give; it gives no more than
  -- are wanted, and than are left.
  unfoldable pub got_from :
      Player T → (fifohead wantframes : ℕ) → (answer : ℤ) → Source T → Player T
  got_from x fifohead wantframes (negsuc n) file = record x { phase = returned (negsuc n) }
  got_from x fifohead wantframes (pos n) file =
      let count = if ltb n wantframes then n else wantframes in
      let got = take count file.frames in
      let y = record x { ambix_t = some (record file { frames = drop count file.frames }) } in
      record y {
        phase = if length got == 0 then returned (pos 0) else merging fifohead (length got) 0 got;
      }

  -- `ambibuf` and `xtrabuf` have been made large enough for `fifosize` frames.
  unfoldable pub read_source :
      Player T → (fifohead wantframes : ℕ) → (answer : ℤ) → Option (Source T) → Outcome (Player T)
  read_source x fifohead wantframes answer none = fault
  read_source x fifohead wantframes answer (some file) =
      if ltb x.fifosize wantframes then fault else done (got_from x fifohead wantframes answer file)

  -- Back under the mutex, with what the reading returned.
  unfoldable pub commit : Player T → (sysrtn : ℤ) → Player T
  commit x (negsuc n) =
      if not (is_busy x.requestcode) then lost x else lost (record x { fileerror = true })
  commit x (pos n) =
      if not (is_busy x.requestcode)
      then lost x
      else if n == 0
      then lost (record x { eof = true })
      else record x {
        fifohead = if (x.fifohead + n) == x.fifosize then 0 else x.fifohead + n;
        phase = feeding;
      }

-- `clear` is what `memset` of `bufsize` bytes does to the buffer.
module _ {T : Type 0} (silence : T) (clear : (bufsize : ℕ) → (ℕ → List T) → ℕ → List T) where
  -- Back under the mutex, with the handle or NULL.
  unfoldable pub open_done : Player T → Option (Source T) → Player T
  open_done x none = lost (record x { ambix_t = none; fileerror = true; eof = true })
  open_done x (some file) =
      if is_busy x.requestcode
      then record x {
        ambix_t = some file;
        f_matrix = file.has_matrix || x.f_matrix;
        f_ambix = true;
        buf = clear (x.bufframes * (x.ambichannels + x.xtrachannels)) x.buf;
        fifohead = 0;
        fifosize = x.bufframes - x.bufframes % x.vecsize;
        phase = feeding;
      }
      else lost (record x { ambix_t = some file })

  -- Writing the frame at `out` of the ring.
  unfoldable pub merge_at :
      Player T → (out fifohead sysrtn f : ℕ) → List T × List T → List (List T × List T) → Player T
  merge_at x out fifohead sysrtn f frame left = record x {
    buf = λ i.
        if i == out then merge_samples silence x.ambichannels x.xtrachannels frame else x.buf i;
    phase = merging fifohead sysrtn (f + 1) left;
  }

  unfoldable pub merge :
      Player T → (fifohead sysrtn f : ℕ) → List (List T × List T) → Outcome (Player T)
  merge x fifohead sysrtn f [] = done (commit x (pos sysrtn))
  merge x fifohead sysrtn f (frame ∷ left) =
      let out = (fifohead + f) % x.bufframes in
      if ltb out x.bufframes then done (merge_at x out fifohead sysrtn f frame left) else fault

  -- The next step of `ambix_read_child_main`.
  unfoldable pub child_at : Player T → (answer : ℤ) → Phase T → Outcome (Player T)
  child_at x answer fielding = done (field x x.requestcode)
  child_at x answer (opening file) = done (open_done x file)
  child_at x answer feeding = done (feed x)
  child_at x answer (reading fifohead wantframes) =
      read_source x fifohead wantframes answer x.ambix_t
  child_at x answer (merging fifohead sysrtn f left) = merge x fifohead sysrtn f left
  child_at x answer (returned sysrtn) = done (commit x sysrtn)
  child_at x answer closing = done (record x {
    ambix_t = none;
    requestcode = elim x.requestcode [ close_request ↦ nothing | r ↦ r ];
    phase = fielding;
  })
  child_at x answer quitting =
      done (record x { ambix_t = none; requestcode = nothing; phase = finished })
  child_at x answer finished = done x

  unfoldable pub child : Player T → (answer : ℤ) → Outcome (Player T)
  child x answer = child_at x answer x.phase
