-- ===== src/Session/Roundtrip.antt =====
-- Frames that `ambix_writef_` of libambix/src/libambix.c wrote to a file, and `ambix_readf_` reads from it.
use native.Mathlib.Nat.{mul-le-mul_right}
use libambix.Base.{
  ℕ, ◌+◌, ◌*◌, ◌^◌, ◌<◌, ◌≡◌, sym, ap, ◌∙◌, arith, List, length, ap₂, true, ℤ, pos, done, ◌>>=◌,
}
use libambix.Matrix.{Accumulator, Float}
use libambix.Adaptor.{split_adaptor}
use libambix.Adaptor.Plain.{split_adaptor-merge_adaptor}
use libambix.Uuid.{Bits}
use libambix.Handle.{Ambix, success}
use libambix.Handle.Backend.{Backend, Stream}
use libambix.Session.{check_write, readf, writef}
use libambix.Session.Buffer.{
  IsRoomy, transferred, file_channels, caller_channels, caller_channels-le, few_samples,
}
use libambix.Session.Frames.{readf-split, split_frames-plain, writef-merge_adaptor}

module _ {F B T S : Type 0} (acc : Accumulator F T S) (backend : Backend F B) (stream : Stream B T)
    ⦃fl : Float F⦄ ⦃bits : Bits F⦄ (sqrt : ℕ → ℕ) (reopen : B → B) where
  -- Frames of that many channels that are written to a file are read when it is opened again.
  abbrev pub Keeps : B → (channels n : ℕ) → Type 0
  Keeps file channels n =
      (buffer : List T)
      → length buffer ≡ channels * n
      → (later : B) × (stream.read_frames (reopen (stream.write_frames file buffer (pos n)).0)
            (pos n)
          ≡ (later, buffer, pos n))

  -- The two handles have the same channels, no matrix to apply, and room for the frames.
  pub record Agree (b c : Ambix F B) (n : ℕ) : Type 0 where
    pub writer_roomy : IsRoomy stream.itemsize b n
    pub reader_roomy : IsRoomy stream.itemsize c n
    pub writer_plain : b.use_matrix ≡ 0
    pub reader_plain : c.use_matrix ≡ 0
    pub ambichannels_same : c.realinfo.ambichannels ≡ b.info.ambichannels
    pub extrachannels_same : c.realinfo.extrachannels ≡ b.info.extrachannels
    pub info_small : caller_channels b < 2 ^ 31
    pub realinfo_small : file_channels b < 2 ^ 31
    pub reader_small : caller_channels c < 2 ^ 31

  -- Writing and reading. If a handle accepts samples, after the headers where they are pending, and the
  -- file gives back the frames that are written to it when it is opened again, then `writef` of the
  -- caller's two sets returns, and `readf` of as many frames, on a handle of that file with the same
  -- channels, returns both sets as they were. Neither reads or writes outside of a buffer.
  pub readf-writef :
      (a b c : Ambix F B) (n : ℕ) (ambi other : List T)
      → check_write backend sqrt a ≡ done (b, success)
      → Agree b c n
      → Keeps b.private_data (b.info.ambichannels + b.info.extrachannels) n
      → length ambi ≡ b.info.ambichannels * n
      → length other ≡ b.info.extrachannels * n
      → (w : Ambix F B) × (r : ℤ) × (writef acc backend stream sqrt a ambi other (pos n)
          ≡ done (w, r))
        × (d : Ambix F B) × (readf acc backend stream
              (record c { private_data = reopen w.private_data })
              (pos n)
            ≡ done (d, (ambi, other), pos n))
  readf-writef a b c n ambi other ok agree keeps la lo =
      let (merged, e, size, back) =
        split_adaptor-merge_adaptor ambi other b.info.ambichannels b.info.extrachannels n la lo in
      let (wsize, f) =
        writef-merge_adaptor acc backend stream sqrt a b n ambi other merged agree.writer_roomy
          agree.writer_plain ok e
          (omega (
            arith,
            size,
            mul-le-mul_right n (caller_channels-le b agree.realinfo_small agree.info_small),
          )) in
      let (file, r) = stream.write_frames b.private_data merged (pos n) in
      let w : Ambix F B = transferred b wsize file in
      let (later, g) = keeps merged size in
      let reader : Ambix F B = record c { private_data = reopen file } in
      let channels : file_channels reader ≡ caller_channels b =
        ap₂ ◌+◌ agree.ambichannels_same agree.extrachannels_same in
      let few : file_channels reader < 2 ^ 31 = omega (arith, channels, agree.info_small) in
      let (rsize, h) =
        readf-split acc backend stream reader n later merged (pos n) agree.reader_roomy g (
          few_samples reader few agree.reader_small n n (omega arith)
            (size ∙ ap (λ k. k * n) (sym channels))) in
      let d : Ambix F B = record (transferred reader rsize later) { started_reading = true } in
      (
        w,
        r,
        f,
        d,
        h
            ∙ ap (λ o. o >>= λ out. done (d, out, pos n))
                (split_frames-plain acc backend stream d merged n agree.reader_plain few
                  ∙ ap₂ (λ s ac. split_adaptor merged s ac n) channels agree.ambichannels_same
                  ∙ back),
      )
