-- ===== src/Sndfile/Formats.antt =====
-- The sample formats and the information on a file, to libsndfile and back.
use libambix.Base.{ℕ, ◌+◌, ◌^◌, ◌<◌, ◌≤◌, ◌≡◌, ◌≢◌, refl, ap, ◌∙◌, arith}
use libambix.Handle.{Info}
use libambix.Sndfile.{
  Constants, sndfile2ambix_sampleformat, ambix2sndfile_sampleformat, ambix2sndfile_info,
  sndfile2ambix_info,
}

-- The subtypes are different, and are read back from a format.
pub record IsDistinct (sf : Constants) : Type 0 where
  pub s16-s24 : sf.pcm_16 ≢ sf.pcm_24
  pub s16-s32 : sf.pcm_16 ≢ sf.pcm_32
  pub s16-f : sf.pcm_16 ≢ sf.float
  pub s16-d : sf.pcm_16 ≢ sf.double
  pub s24-s32 : sf.pcm_24 ≢ sf.pcm_32
  pub s24-f : sf.pcm_24 ≢ sf.float
  pub s24-d : sf.pcm_24 ≢ sf.double
  pub s32-f : sf.pcm_32 ≢ sf.float
  pub s32-d : sf.pcm_32 ≢ sf.double
  pub f-d : sf.float ≢ sf.double
  pub subtype-with_subtype : (c s : ℕ) → sf.subtype (sf.with_subtype c s) ≡ s

module _ (sf : Constants) (distinct : IsDistinct sf) where
  sampleformat_back :
      (s : ℕ) → 0 < s → s ≤ 5 → sndfile2ambix_sampleformat sf (ambix2sndfile_sampleformat sf s) ≡ s
  unfolding sndfile2ambix_sampleformat ambix2sndfile_sampleformat
  sampleformat_back s pos small = ground (
    arith, distinct.s16-s24, distinct.s16-s32, distinct.s16-f, distinct.s16-d, distinct.s24-s32,
    distinct.s24-f, distinct.s24-d, distinct.s32-f, distinct.s32-d, distinct.f-d,
  )

  -- A sample format that ambiX knows, given to libsndfile with the rest of the information on a file and read
  -- back, is the same, and so are the frames and the sample rate; all channels are counted as extra
  -- channels then.
  pub sndfile2ambix_info-ambix2sndfile_info :
      (info : Info)
      → 0 < info.sampleformat
      → info.sampleformat ≤ 5
      → info.ambichannels + info.extrachannels < 2 ^ 32
      → ((sndfile2ambix_info sf (ambix2sndfile_info sf info)).frames ≡ info.frames)
        × ((sndfile2ambix_info sf (ambix2sndfile_info sf info)).samplerate ≡ info.samplerate)
        × ((sndfile2ambix_info sf (ambix2sndfile_info sf info)).sampleformat ≡ info.sampleformat)
        × ((sndfile2ambix_info sf (ambix2sndfile_info sf info)).extrachannels
            ≡ info.ambichannels + info.extrachannels)
  unfolding sndfile2ambix_info ambix2sndfile_info
  sndfile2ambix_info-ambix2sndfile_info info pos small few = (
    refl,
    refl,
    ap (sndfile2ambix_sampleformat sf)
          (distinct.subtype-with_subtype sf.caf (ambix2sndfile_sampleformat sf info.sampleformat))
        ∙ sampleformat_back info.sampleformat pos small,
    omega arith,
  )
