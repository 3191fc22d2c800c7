-- ===== src/Session/Mixed.antt =====
-- Reading an EXTENDED file as BASIC: `ambix_readf_` of libambix/src/libambix.c with a matrix to apply.
use libambix.Base.{
  ℕ, ◌+◌, ◌-◌, ◌*◌, ◌^◌, ◌<◌, ◌≤◌, ◌≡◌, ap, ◌∙◌, arith, true, List, length, pos, done, ◌>>=◌, table,
  frames_from, get_or,
}
use libambix.Words.{u32}
use libambix.Matrix.{Accumulator}
use libambix.Adaptor.{split_adaptor_matrix}
use libambix.Adaptor.Mixed.{mixed, split_adaptor_matrix-table}
use libambix.Handle.{Ambix}
use libambix.Handle.Backend.{Backend, Stream}
use libambix.Session.{split_frames, readf}
use libambix.Session.Buffer.{IsRoomy, transferred, file_channels, caller_channels, few_samples}
use libambix.Session.Frames.{readf-split}

module _ {F B T S : Type 0} (acc : Accumulator F T S) (backend : Backend F B)
    (stream : Stream B T) where
  split_frames-matrix :
      (a : Ambix F B) (samples : List T) (frames : ℕ)
      → a.use_matrix ≡ 1
      → file_channels a < 2 ^ 31
      → split_frames acc a samples frames
        ≡ split_adaptor_matrix acc samples (file_channels a) a.matrix frames
  unfolding split_frames
  split_frames-matrix a samples frames one small = simp one (
      ap (λ c. split_adaptor_matrix acc samples c a.matrix frames) {x = u32 (file_channels a)}
        {y = file_channels a} (omega (arith, small)))

  -- Reading with the matrix of the file. If the backend stores `k` frames of all channels of the file in the
  -- buffer, at most as many as asked for, and the file has the channels that the matrix expands, then
  -- each frame of the caller's ambisonics set is the sums of products of the matrix's rows with
  -- those channels, and the other channels are as they are in the file.
  pub readf-mixed :
      (a : Ambix F B) (n k : ℕ) (file : B) (samples : List T) (d : T)
      → IsRoomy stream.itemsize a n
      → a.use_matrix ≡ 1
      → a.matrix.cols ≤ file_channels a
      → file_channels a < 2 ^ 31
      → caller_channels a < 2 ^ 31
      → k ≤ n
      → stream.read_frames a.private_data (pos n) ≡ (file, samples, pos k)
      → length samples ≡ file_channels a * k
      → (size : ℕ) × (readf acc backend stream a (pos n)
          ≡ done (
            record (transferred a size file) { started_reading = true },
            (
              frames_from k 0 (λ f. mixed acc a.matrix d samples (file_channels a * f)),
              frames_from k 0 (λ f.
                  table
                    (file_channels a - a.matrix.cols)
                    a.matrix.cols
                    (λ c. get_or samples (file_channels a * f + c) d)),
            ),
            pos k,
          ))
  readf-mixed a n k file samples d roomy one cols small small' le e full =
      let (size, f) =
        readf-split acc backend stream a n file samples (pos k) roomy e
          (few_samples a small small' n k le full) in
      let after : Ambix F B = record (transferred a size file) { started_reading = true } in
      (
        size,
        f
            ∙ ap (λ o. o >>= λ out. done (after, out, pos k))
                (split_frames-matrix after samples k one small
                  ∙ split_adaptor_matrix-table acc a.matrix d samples (file_channels a) k cols
                      (omega (arith, full))),
      )
