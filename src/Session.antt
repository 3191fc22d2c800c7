-- ===== src/Session.antt =====
-- A handle in use: writing its header, its frames, reading them, seeking and closing, of
-- libambix/src/libambix.c. The number of frames is an int64_t. The adaptor buffer is the list of what
-- was stored in it; more than its size is a fault. What is written to a caller's buffer is a list, whose
-- length says how much room the caller has to give.
pub mod Outcomes
pub mod Buffer
pub mod Header
pub mod Steps
pub mod Invariant
pub mod Frames
pub mod Roundtrip
pub mod Mixed
pub mod Reduced
pub mod Tests
use libambix.Base.{
  ℕ, zero, suc, ◌+◌, ◌-◌, ◌*◌, ◌/◌, ◌%◌, ◌^◌, ◌==◌, ltb, Bool, true, false, not, ◌&&◌,
  if◌then◌else◌, List, [], ◌∷◌, ◌++◌, length, take, Option, none, some, ℤ, pos, negsuc, Outcome,
  done, null, fault, ◌>>=◌,
}
use libambix.Words.{u32}
use libambix.Channels.{is_fullset}
use libambix.Matrix.{Accumulator, Float, Matrix}
use libambix.Adaptor.{split_adaptor, split_adaptor_matrix, merge_adaptor, merge_adaptor_matrix}
use libambix.Uuid.{Bits, uuid1_size, matrix_to_uuid1}
use libambix.Handle.{
  Ambix, Err, success, unknown, invalid_handle, invalid_file, invalid_dimension, is_extended,
  is_success, failure, adaptorbuffer_resize, delete_markers, delete_regions,
}
use libambix.Handle.Backend.{Backend, Stream}
use libambix.Chunks.Write.{buffer, write_markersregions}

-- A conversion of an int64_t to uint64_t, and the rounds of a loop below it.
abbrev pub to_u64 : ℤ → ℕ
to_u64 (pos n) = n % 2 ^ 64
to_u64 (negsuc n) = (2 ^ 64 - 1) - n % 2 ^ 64

abbrev pub rounds : ℤ → ℕ
rounds (pos n) = n
rounds (negsuc n) = 0

module _ {F B : Type 0} (backend : Backend F B) where
  -- The chunk of the matrix. The buffer for it is a number of words.
  unfoldable pub write_matrix :
      ⦃fl : Float F⦄ ⦃bits : Bits F⦄ → Ambix F B → Outcome (Ambix F B × Err)
  write_matrix a =
      let datalen = uuid1_size a.matrix in
      if ltb datalen 1 then done (a, unknown) else (do
        uuid ← matrix_to_uuid1 a.matrix a.byteswap
        bytes ← buffer ((1 + datalen / 4) * 4) uuid
        let (file, res) = backend.write_uuidchunk a.private_data (take datalen bytes)
        let b = record a { private_data = file }
        done (if is_success res then record b { pending_headers = false } else b, res))

  -- What writing the markers and regions returns counts in a file that is not EXTENDED only.
  unfoldable pub write_header :
      ⦃fl : Float F⦄ ⦃bits : Bits F⦄ → Ambix F B → Outcome (Ambix F B × Err)
  write_header a =
      if a.filemode.writes
      then (write_markersregions backend a >>= λ (b, res).
          if is_extended a.realinfo.fileformat
          then write_matrix b
          else done (if is_success res then record b { pending_headers = false } else b, res))
      else done (a, invalid_file)

  unfoldable pub check_write :
      ⦃fl : Float F⦄ ⦃bits : Bits F⦄ → (sqrt : ℕ → ℕ) → Ambix F B → Outcome (Ambix F B × Err)
  check_write sqrt a =
      if is_extended a.realinfo.fileformat && not (is_fullset sqrt a.matrix.rows)
      then done (a, invalid_dimension)
      else if a.pending_headers
      then (write_header a >>= λ (b, res).
          if is_success res
          then done (record b { started_writing = true }, success)
          else done (b, res))
      else done (record a { started_writing = true }, success)

  unfoldable pub check_read : Ambix F B → Ambix F B × Err
  check_read a = (record a { started_reading = true }, success)

  unfoldable pub seek : Ambix F B → (frames : ℤ) → (whence : ℕ) → Ambix F B × ℤ
  seek a frames whence =
      let (file, position) = backend.seek_file a.private_data frames whence in
      (record a { private_data = file }, position)

  -- What closing leaves of the file. The rest of the handle is freed.
  unfoldable pub close :
      ⦃fl : Float F⦄ ⦃bits : Bits F⦄ → Option (Ambix F B) → Outcome (Option B × Err)
  close none = done (none, invalid_handle)
  close (some a) =
      (if a.filemode.writes && a.pending_headers then write_header a else done (a, success))
      >>= λ (b, _). let (file, res) = backend.close_file b.private_data in done (some file, res)

-- The samples of the frames, from and to the adaptor buffer.
module _ {F B T S : Type 0} (acc : Accumulator F T S) where
  unfoldable pub split_frames : Ambix F B → List T → (frames : ℕ) → Outcome (List T × List T)
  split_frames a source frames =
      let channels = u32 (a.realinfo.ambichannels + a.realinfo.extrachannels) in
      if a.use_matrix == 1
      then split_adaptor_matrix acc source channels a.matrix frames
      else if a.use_matrix == 2
      then split_adaptor_matrix acc source channels a.matrix2 frames
      else split_adaptor source channels a.realinfo.ambichannels frames

  unfoldable pub merge_frames :
      Ambix F B → (ambidata otherdata : List T) → (frames : ℕ) → Outcome (List T)
  merge_frames a ambidata otherdata frames =
      if a.use_matrix == 1
      then merge_adaptor_matrix acc ambidata a.matrix otherdata a.info.extrachannels frames
      else if a.use_matrix == 2
      then merge_adaptor_matrix acc ambidata a.matrix2 otherdata a.info.extrachannels frames
      else merge_adaptor ambidata a.info.ambichannels otherdata a.info.extrachannels frames

-- The data fits the adaptor buffer.
abbrev pub within : {F B T : Type 0} → Ambix F B → (itemsize : ℕ) → List T → Outcome (List T)
within a itemsize samples =
    if ltb a.adaptorbuffersize (length samples * itemsize) then fault else done samples

module _ {F B T S : Type 0} (acc : Accumulator F T S) (backend : Backend F B)
    (stream : Stream B T) where
  -- What is written to `ambidata` and `otherdata`, and the number of frames or an error.
  unfoldable pub readf : Ambix F B → (frames : ℤ) → Outcome (Ambix F B × (List T × List T) × ℤ)
  readf a frames =
      let (b, _) = check_read backend a in
      let (c, err) = adaptorbuffer_resize b (to_u64 frames) stream.itemsize in
      if is_success err
      then (let (file, samples, realframes) = stream.read_frames c.private_data frames in
          let d = record c { private_data = file } in
          within d stream.itemsize samples >>= λ adaptorbuffer.
          split_frames acc d adaptorbuffer (rounds realframes) >>= λ out. done (d, out, realframes))
      else done (c, ([], []), failure err)

  unfoldable pub writef :
      ⦃fl : Float F⦄ ⦃bits : Bits F⦄
      → (sqrt : ℕ → ℕ) → Ambix F B
      → (ambidata otherdata : List T) → (frames : ℤ) → Outcome (Ambix F B × ℤ)
  writef sqrt a ambidata otherdata frames = check_write backend sqrt a >>= λ (b, err).
      if is_success err
      then (let (c, res) = adaptorbuffer_resize b (to_u64 frames) stream.itemsize in
          if is_success res
          then (merge_frames acc c ambidata otherdata (rounds frames) >>= λ samples.
              within c stream.itemsize samples >>= λ adaptorbuffer.
              let (file, realframes) = stream.write_frames c.private_data adaptorbuffer frames in
              done (record c { private_data = file }, realframes))
          else done (c, failure res))
      else done (b, failure err)
