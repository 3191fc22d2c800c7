-- ===== src/Interleave/Written.antt =====
-- The copying into an ambiX file without a matrix that is applied: `ambix_writef_float32` is that of Session.
use native.Mathlib.Nat.{mul-le-mul_right, mul-le-mul_left}
use mathlib.Core.List.{append_assoc}
use libambix.Base.{
  map, subst, [], ◌∷◌, ℕ, zero, suc, ◌+◌, ◌*◌, ◌^◌, ◌<◌, ◌≤◌, ◌≡◌, refl, sym, ap, ap₂, ◌∙◌, arith,
  true, false, not, ◌&&◌, List, ◌++◌, All, length, ℤ, pos, Outcome, done, table, frames_from,
  length-frames_from, length-append,
}
use libambix.Channels.{is_fullset}
use libambix.Matrix.{Accumulator, Float}
use libambix.Adaptor.{merge_adaptor}
use libambix.Adaptor.Plain.{merge_frame}
use libambix.Uuid.{Bits}
use libambix.Handle.{Ambix, success, is_extended}
use libambix.Handle.Backend.{Backend, Stream}
use libambix.Session.{check_write, writef}
use libambix.Session.Buffer.{
  IsRoomy, transferred, buffer_channels, file_channels, caller_channels, caller_channels-le,
}
use libambix.Session.Frames.{writef-merge_adaptor}
use libambix.Interleave.{Interleave, copy}
use libambix.Interleave.Block.{File, inputs_at, all_channels, combined}
use libambix.Interleave.Format.{input_frames, input_frames-All}
use libambix.Interleave.Copy.{Writer, block_frames, copy-Wrote}

merge_adaptor-frames_from :
    {T : Type 0} (n p c1 c2 : ℕ) (a e : ℕ → List T)
    → ((f : ℕ) → length (a f) ≡ c1)
    → ((f : ℕ) → length (e f) ≡ c2)
    → merge_adaptor (frames_from n p a) c1 (frames_from n p e) c2 n
      ≡ done (frames_from n p (λ f. a f ++ e f))
merge_adaptor-frames_from zero p c1 c2 a e la le = unfold merge_adaptor in refl
merge_adaptor-frames_from (suc n) p c1 c2 a e la le =
    merge_frame (a p) (e p) (frames_from n (p + 1) a) (frames_from n (p + 1) e) c1 c2 n (la p)
      (le p) (merge_adaptor-frames_from n (p + 1) c1 c2 a e la le)
    ∙ ap done (sym (append_assoc (a p) (e p) (frames_from n (p + 1) (λ f. a f ++ e f))))

no_longer :
    {SF T : Type 0} (sf_readf_float : SF → (frames : ℕ) → SF × List T × ℕ) (k : ℕ)
    (files : List (File sf_readf_float))
    → All (λ n. k ≤ n) (map File.total files)
    → All (λ file. k ≤ File.total file) files
no_longer sf_readf_float k [] long = tt
no_longer sf_readf_float k (file ∷ files) (first, long) =
    (first, no_longer sf_readf_float k files long)

module _ {F B T S : Type 0} (acc : Accumulator F T S) (backend : Backend F B) (stream : Stream B T)
    ⦃fl : Float F⦄ ⦃bits : Bits F⦄ (sqrt : ℕ → ℕ) where
  abbrev pub writef_of :
      Ambix F B → (ambidata otherdata : List T) → (frames : ℕ) → Outcome (Ambix F B × ℤ)
  writef_of a ambidata otherdata frames =
      writef acc backend stream sqrt a ambidata otherdata (pos frames)

  -- A handle that is written, with these channels, no headers to write, no matrix to apply, and room for the frames.
  pub record IsOpen (ambichannels extrachannels limit : ℕ) (a : Ambix F B) : Type 0 where
    pub plain : a.use_matrix ≡ 0
    pub clean : a.pending_headers ≡ false
    pub full : (is_extended a.realinfo.fileformat && not (is_fullset sqrt a.matrix.rows)) ≡ false
    pub ambichannels_same : a.info.ambichannels ≡ ambichannels
    pub extrachannels_same : a.info.extrachannels ≡ extrachannels
    pub info_small : caller_channels a < 2 ^ 31
    pub realinfo_small : file_channels a < 2 ^ 31
    pub roomy : IsRoomy stream.itemsize a limit

  check_write-clean :
      (a : Ambix F B)
      → (is_extended a.realinfo.fileformat && not (is_fullset sqrt a.matrix.rows)) ≡ false
      → a.pending_headers ≡ false
      → check_write backend sqrt a ≡ done (record a { started_writing = true }, success)
  unfolding check_write
  check_write-clean a full clean = simp (full, clean) refl

  fewer-IsRoomy :
      (a : Ambix F B) (limit n : ℕ)
      → n ≤ limit
      → IsRoomy stream.itemsize a limit
      → IsRoomy stream.itemsize a n
  fewer-IsRoomy a limit n few (small, some, fits) = (
    omega (arith, few, small),
    some,
    omega (arith, fits, mul-le-mul_right stream.itemsize (mul-le-mul_left (buffer_channels a) few)),
  )

module _ {F B T S : Type 0} (acc : Accumulator F T S) (backend : Backend F B) (stream : Stream B T)
    ⦃fl : Float F⦄ ⦃bits : Bits F⦄ (sqrt : ℕ → ℕ) (samples : B → List T) where
  -- Frames of that many channels that are written go behind the samples of the file, and all are written.
  abbrev pub Appends : (channels : ℕ) → Type 0
  Appends channels =
      (file : B) (buffer : List T) (n : ℕ)
      → length buffer ≡ n * channels
      → (samples (stream.write_frames file buffer (pos n)).0 ≡ samples file ++ buffer)
        × ((stream.write_frames file buffer (pos n)).1 ≡ pos n)

  writef-IsOpen :
      (amb extra limit : ℕ) (h : Ambix F B) (n p : ℕ) (a e : ℕ → List T)
      → Appends (amb + extra)
      → IsOpen acc backend stream sqrt amb extra limit h
      → n ≤ limit
      → ((f : ℕ) → length (a f) ≡ amb)
      → ((f : ℕ) → length (e f) ≡ extra)
      → (h' : Ambix F B) × (writef_of acc backend stream sqrt h
            (frames_from n p a)
            (frames_from n p e)
            n
          ≡ done (h', pos n))
        × IsOpen acc backend stream sqrt amb extra limit h'
        × (samples h'.private_data ≡ samples h.private_data ++ frames_from n p (λ f. a f ++ e f))
  writef-IsOpen amb extra limit h n p a e appends opened few la le =
      let b : Ambix F B = record h { started_writing = true } in
      let merged : List T = frames_from n p (λ f. a f ++ e f) in
      let whole : length merged ≡ n * (amb + extra) =
        length-frames_from (amb + extra) n p (λ f. a f ++ e f)
          (λ f. omega (arith, length-append {0} (a f) (e f), la f, le f)) in
      let channels : caller_channels b ≡ amb + extra =
        ap₂ ◌+◌ opened.ambichannels_same opened.extrachannels_same in
      let room : length merged ≤ buffer_channels b * n = omega (
        arith,
        whole,
        ap (λ k. k * n) channels,
        mul-le-mul_right n (caller_channels-le b opened.realinfo_small opened.info_small),
      ) in
      let (size, written) =
        writef-merge_adaptor acc backend stream sqrt h b n (frames_from n p a) (frames_from n p e)
          merged (fewer-IsRoomy acc backend stream sqrt b limit n few opened.roomy) opened.plain
          (check_write-clean acc backend stream sqrt h opened.full opened.clean)
          (ap₂ (λ c d. merge_adaptor (frames_from n p a) c (frames_from n p e) d n)
              opened.ambichannels_same opened.extrachannels_same
            ∙ merge_adaptor-frames_from n p amb extra a e la le)
          room in
      let (content, all) = appends b.private_data merged n whole in
      let file : B = (stream.write_frames b.private_data merged (pos n)).0 in
      (
        transferred b size file,
        written ∙ ap (λ k. done (transferred b size file, k)) all,
        record {
          plain = opened.plain;
          clean = opened.clean;
          full = opened.full;
          ambichannels_same = opened.ambichannels_same;
          extrachannels_same = opened.extrachannels_same;
          info_small = opened.info_small;
          realinfo_small = opened.realinfo_small;
          roomy = opened.roomy;
        },
        content,
      )

  -- The handle of an ambiX file takes the frames of a block.
  abbrev file_writer :
      (amb extra limit : ℕ)
      → Appends (amb + extra)
      → Writer (writef_of acc backend stream sqrt) amb extra limit
  file_writer amb extra limit appends = record {
    IsReady = IsOpen acc backend stream sqrt amb extra limit;
    taken = λ h. samples h.private_data;
    takes = λ h n p a e opened few la le.
        writef-IsOpen amb extra limit h n p a e appends opened few la le;
  }

  -- Copying into a file. Let the channels of all inputs be as many as the ambisonics and the extra channels of
  -- the handle, let no input be empty and the frames be those of opening the inputs, and let the handle be open for writing with no
  -- headers to write, no matrix to apply and room for the frames of a block, in a file behind whose samples
  -- all frames go. Then, whatever the size of a block is, the copy goes through, reads and writes nothing outside of the
  -- buffers that it allocates, and the file has got, of each frame in turn, the channels of the inputs, one input after the other.
  pub copy-samples :
      {SF : Type 0} (silence : T) (sf_readf_float : SF → (frames : ℕ) → SF × List T × ℕ)
      (files : List (File sf_readf_float)) (ai : Interleave SF (Ambix F B))
      → Appends (ai.ambichannels + ai.extrachannels)
      → ai.inputs ≡ inputs_at silence sf_readf_float files 0
      → all_channels silence sf_readf_float files ≡ ai.ambichannels + ai.extrachannels
      → ai.frames ≡ input_frames 0 (map File.total files)
      → All (λ n. 0 < n) (map File.total files)
      → IsOpen acc backend stream sqrt ai.ambichannels ai.extrachannels
          (block_frames ai)
          ai.outhandle
      → (done_ai : Interleave SF (Ambix F B)) × (copy sf_readf_float
            (writef_of acc backend stream sqrt)
            ai
          ≡ done done_ai)
        × (samples done_ai.outhandle.private_data
            ≡ samples ai.outhandle.private_data
              ++ frames_from ai.frames 0 (λ f.
                table
                  (ai.ambichannels + ai.extrachannels)
                  0
                  (combined silence sf_readf_float files f)))
  copy-samples silence sf_readf_float files ai appends inputs_eq all_eq frames_eq more opened =
      let shortest : All (λ n. ai.frames ≤ n) (map File.total files) =
        subst (λ k. All (λ n. k ≤ n) (map File.total files)) (sym frames_eq)
          (input_frames-All (map File.total files) more) in
      copy-Wrote silence sf_readf_float (writef_of acc backend stream sqrt) files ai
        (file_writer ai.ambichannels ai.extrachannels (block_frames ai) appends) inputs_eq all_eq
        (no_longer sf_readf_float ai.frames files shortest) opened
