-- ===== src/Session/Frames.antt =====
-- Frames through the adaptor buffer: `ambix_readf_` and `ambix_writef_` of libambix/src/libambix.c. One
-- sample type stands for each of the four.
use native.Mathlib.Nat.{mul-le-mul_right}
use libambix.Base.{
  ℕ, ◌-◌, ◌*◌, ◌^◌, ◌<◌, ◌≤◌, ◌≡◌, refl, sym, ap, ◌∙◌, arith, true, false, le→ltb, if◌then◌else◌,
  List, [], length, ℤ, pos, negsuc, Outcome, done, ◌>>=◌,
}
use libambix.Words.{u32}
use libambix.Channels.{is_fullset}
use libambix.Matrix.{Accumulator, Float}
use libambix.Adaptor.{split_adaptor, merge_adaptor}
use libambix.Adaptor.Plain.{merge_adaptor-split_adaptor}
use libambix.Uuid.{Bits}
use libambix.Handle.{Ambix, Err, success, is_extended, is_success, failure, adaptorbuffer_resize}
use libambix.Handle.Backend.{Backend, Stream}
use libambix.Session.{
  to_u64, rounds, within, check_read, check_write, split_frames, merge_frames, readf, writef,
}
use libambix.Session.Buffer.{
  buffer_channels, resize-Fits, file_channels, IsRoomy, transferred, few_samples, caller_channels,
}

bytes : (k l i size : ℕ) → k ≤ l → l * i ≤ size → k * i ≤ size
bytes k l i size le room = omega (arith, room, mul-le-mul_right i le)

module _ {F B T S : Type 0} (acc : Accumulator F T S) (backend : Backend F B)
    (stream : Stream B T) where
  -- What follows the resizing of the buffer.
  abbrev reading : Ambix F B → B × List T × ℤ → Outcome (Ambix F B × (List T × List T) × ℤ)
  reading c (file, samples, realframes) =
      let d = record c { private_data = file } in
      within d stream.itemsize samples >>= λ adaptorbuffer.
      split_frames acc d adaptorbuffer (rounds realframes) >>= λ out. done (d, out, realframes)

  abbrev resized : ℤ → Ambix F B × Err → Outcome (Ambix F B × (List T × List T) × ℤ)
  resized frames (c, err) =
      if is_success err
      then reading c (stream.read_frames c.private_data frames)
      else done (c, ([], []), failure err)

  readf-resized :
      (a : Ambix F B) (frames : ℤ)
      → readf acc backend stream a frames
        ≡ resized frames (
            adaptorbuffer_resize
              (record a { started_reading = true })
              (to_u64 frames)
              stream.itemsize)
  unfolding readf check_read
  readf-resized a frames = refl

  pub readf-split :
      (a : Ambix F B) (n : ℕ) (file : B) (samples : List T) (realframes : ℤ)
      → IsRoomy stream.itemsize a n
      → stream.read_frames a.private_data (pos n) ≡ (file, samples, realframes)
      → length samples ≤ buffer_channels a * n
      → (size : ℕ) × (readf acc backend stream a (pos n) ≡ (
          split_frames acc
            (record (transferred a size file) { started_reading = true })
            samples
            (rounds realframes)
          >>= λ out.
              done (record (transferred a size file) { started_reading = true }, out, realframes)))
  readf-split a n file samples realframes (small, pos_size, fits) e few =
      let b : Ambix F B = record a { started_reading = true } in
      let (size, f, room, _) = resize-Fits b n stream.itemsize fits pos_size in
      (
        size,
        readf-resized a (pos n)
            ∙ ap (λ k. resized (pos n) (adaptorbuffer_resize b k stream.itemsize))
                {x = to_u64 (pos n)} {y = n} (omega arith)
            ∙ ap (resized (pos n)) f
            ∙ ap (reading (record b { adaptorbuffersize = size })) e
            ∙ rw (
                le→ltb size (length samples * stream.itemsize)
                  (bytes (length samples) (buffer_channels a * n) stream.itemsize size few room)),
      )

  pub split_frames-plain :
      (a : Ambix F B) (samples : List T) (frames : ℕ)
      → a.use_matrix ≡ 0
      → file_channels a < 2 ^ 31
      → split_frames acc a samples frames
        ≡ split_adaptor samples (file_channels a) a.realinfo.ambichannels frames
  unfolding split_frames
  split_frames-plain a samples frames plain small = simp plain (
      ap (λ c. split_adaptor samples c a.realinfo.ambichannels frames) {x = u32 (file_channels a)}
        {y = file_channels a} (omega (arith, small)))

  -- Reading without a matrix. If the backend stores `k` frames of all channels of the file in the buffer,
  -- at most as many as asked for, then both of the caller's sets get as many frames of their channels,
  -- and merging the sets gives the samples of the file.
  pub readf-split_adaptor :
      (a : Ambix F B) (n k : ℕ) (file : B) (samples : List T)
      → IsRoomy stream.itemsize a n
      → a.use_matrix ≡ 0
      → file_channels a < 2 ^ 31
      → caller_channels a < 2 ^ 31
      → k ≤ n
      → stream.read_frames a.private_data (pos n) ≡ (file, samples, pos k)
      → length samples ≡ file_channels a * k
      → (size : ℕ) × (ambi other : List T) × (readf acc backend stream a (pos n)
          ≡ done
              (record (transferred a size file) { started_reading = true }, (ambi, other), pos k))
        × (length ambi ≡ a.realinfo.ambichannels * k)
        × (length other ≡ a.realinfo.extrachannels * k)
        × (merge_adaptor ambi a.realinfo.ambichannels other a.realinfo.extrachannels k
            ≡ done samples)
  readf-split_adaptor a n k file samples roomy plain small small' le e full =
      let (size, f) =
        readf-split a n file samples (pos k) roomy e (few_samples a small small' n k le full) in
      let extra : file_channels a - a.realinfo.ambichannels ≡ a.realinfo.extrachannels =
        omega arith in
      let d : Ambix F B = record (transferred a size file) { started_reading = true } in
      let (ambi, other, g, la, lo, back) =
        merge_adaptor-split_adaptor samples (file_channels a) a.realinfo.ambichannels k
          (omega arith) full in
      (
        size,
        ambi,
        other,
        f
            ∙ ap (λ o. o >>= λ out. done (d, out, pos k))
                (split_frames-plain d samples k plain small ∙ g),
        la,
        lo ∙ ap (λ c. c * k) extra,
        ap (λ c. merge_adaptor ambi a.realinfo.ambichannels other c k) (sym extra) ∙ back,
      )

  -- What follows the resizing of the buffer, and what follows the check.
  abbrev writing : Ambix F B → (ambidata otherdata : List T) → ℤ → Outcome (Ambix F B × ℤ)
  writing c ambidata otherdata frames =
      merge_frames acc c ambidata otherdata (rounds frames) >>= λ samples.
      within c stream.itemsize samples >>= λ adaptorbuffer.
      let (file, realframes) = stream.write_frames c.private_data adaptorbuffer frames in
      done (record c { private_data = file }, realframes)

  abbrev buffered : (ambidata otherdata : List T) → ℤ → Ambix F B × Err → Outcome (Ambix F B × ℤ)
  buffered ambidata otherdata frames (c, res) =
      if is_success res then writing c ambidata otherdata frames else done (c, failure res)

  abbrev checked : (ambidata otherdata : List T) → ℤ → Ambix F B × Err → Outcome (Ambix F B × ℤ)
  checked ambidata otherdata frames (b, err) =
      if is_success err
      then buffered ambidata otherdata frames
          (adaptorbuffer_resize b (to_u64 frames) stream.itemsize)
      else done (b, failure err)

  merge_frames-plain :
      (a : Ambix F B) (ambidata otherdata : List T) (frames : ℕ)
      → a.use_matrix ≡ 0
      → merge_frames acc a ambidata otherdata frames
        ≡ merge_adaptor ambidata a.info.ambichannels otherdata a.info.extrachannels frames
  unfolding merge_frames
  merge_frames-plain a ambidata otherdata frames plain = simp plain refl

  module _ ⦃fl : Float F⦄ ⦃bits : Bits F⦄ (sqrt : ℕ → ℕ) where
    writef-checked :
        (a : Ambix F B) (ambidata otherdata : List T) (frames : ℤ)
        → writef acc backend stream sqrt a ambidata otherdata frames
          ≡ (check_write backend sqrt a >>= λ r. checked ambidata otherdata frames r)
    unfolding writef
    writef-checked a ambidata otherdata frames = refl

    -- An EXTENDED file whose matrix does not have the rows of a full set is refused: nothing is written, the
    -- handle is as it was, and the result is the error for a dimension.
    pub writef-refused :
        (a : Ambix F B) (ambidata otherdata : List T) (frames : ℤ)
        → is_extended a.realinfo.fileformat ≡ true
        → is_fullset sqrt a.matrix.rows ≡ false
        → writef acc backend stream sqrt a ambidata otherdata frames ≡ done (a, negsuc 2)
    unfolding check_write
    writef-refused a ambidata otherdata frames ext short =
        writef-checked a ambidata otherdata frames ∙ simp (ext, short) refl

    pub writef-merge_adaptor :
        (a b : Ambix F B) (n : ℕ) (ambi other merged : List T)
        → IsRoomy stream.itemsize b n
        → b.use_matrix ≡ 0
        → check_write backend sqrt a ≡ done (b, success)
        → merge_adaptor ambi b.info.ambichannels other b.info.extrachannels n ≡ done merged
        → length merged ≤ buffer_channels b * n
        → (size : ℕ) × (writef acc backend stream sqrt a ambi other (pos n)
            ≡ done (
              transferred b size (stream.write_frames b.private_data merged (pos n)).0,
              (stream.write_frames b.private_data merged (pos n)).1,
            ))
    writef-merge_adaptor a b n ambi other merged (small, pos_size, fits) plain ok e few =
        let (size, f, room, _) = resize-Fits b n stream.itemsize fits pos_size in
        let c : Ambix F B = record b { adaptorbuffersize = size } in
        (
          size,
          writef-checked a ambi other (pos n)
              ∙ ap (λ o. o >>= λ r. checked ambi other (pos n) r) ok
              ∙ ap (λ k. buffered ambi other (pos n) (adaptorbuffer_resize b k stream.itemsize))
                  {x = to_u64 (pos n)} {y = n} (omega arith)
              ∙ ap (buffered ambi other (pos n)) f
              ∙ ap
                  (λ o. o >>= λ samples. within c stream.itemsize samples >>= λ adaptorbuffer.
                    done (
                      record c {
                        private_data = (stream.write_frames c.private_data adaptorbuffer (pos n)).0;
                      },
                      (stream.write_frames c.private_data adaptorbuffer (pos n)).1,
                    ))
                  (merge_frames-plain c ambi other n plain ∙ e)
              ∙ rw (
                  le→ltb size (length merged * stream.itemsize)
                    (bytes (length merged) (buffer_channels b * n) stream.itemsize size few room)),
        )
