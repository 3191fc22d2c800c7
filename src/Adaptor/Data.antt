-- ===== src/Adaptor/Data.antt =====
-- Multiplying interleaved data with a matrix: `ambix_matrix_multiply_float32` and `_float64` of
-- libambix/src/matrix.c, generic in the sample type and in the arithmetic: both sum in double here, while the adaptor
-- of float32_t sums in float32_t.
use libambix.Base.{
  ◌≤◌, ◌∙◌, ◌∷◌, length, frames_from, frames_congr, ℕ, zero, suc, ◌+◌, ◌*◌, ◌≡◌, refl, ap, arith,
  List, [], ◌++◌, get_elem?, Outcome, done, ◌>>=◌, access, collect,
}
use libambix.Matrix.{Accumulator, Matrix, read, sum_loop}
use libambix.Adaptor.{mix_frame, transfer, merge_matrix_from, merge_adaptor_matrix}
use libambix.Adaptor.Mixed.{mixed, merge_adaptor_matrix-table}

module _ {F T S : Type 0} (acc : Accumulator F T S) where
  -- The frames from `frame` on.
  unfoldable pub multiply_data_from : Matrix F → List T → (left frame : ℕ) → Outcome (List T)
  multiply_data_from m source zero frame = done []
  multiply_data_from m source (suc left) frame = do
    dst ← collect m.rows 0 (λ outchan.
        sum_loop acc m.cols (read m outchan)
          (λ inchan. access (get_elem? source (frame * m.cols + inchan))))
    rest ← multiply_data_from m source left (frame + 1)
    done (dst ++ rest)

  unfoldable pub multiply_data : Matrix F → List T → (frames : ℕ) → Outcome (List T)
  multiply_data m source frames = multiply_data_from m source frames 0

  data_frame :
      (m : Matrix F) (source : List T) (frame : ℕ)
      → collect m.rows 0 (λ outchan.
        sum_loop acc m.cols
          (read m outchan)
          (λ inchan. access (get_elem? source (frame * m.cols + inchan))))
        ≡ mix_frame acc m source (m.cols * frame)
  unfolding mix_frame
  data_frame m source frame =
      ap
        (λ k. collect m.rows 0 (λ outchan.
          sum_loop acc m.cols (read m outchan) (λ inchan. access (get_elem? source (k + inchan)))))
        {x = frame * m.cols} {y = m.cols * frame} (omega arith)

  multiply_data_from-merge_matrix_from :
      (m : Matrix F) (source : List T) (left frame : ℕ)
      → multiply_data_from m source left frame ≡ merge_matrix_from acc source m [] 0 left frame
  unfolding multiply_data_from merge_matrix_from transfer
  multiply_data_from-merge_matrix_from m source zero frame = refl
  multiply_data_from-merge_matrix_from m source (suc left) frame =
      rw (data_frame m source frame, multiply_data_from-merge_matrix_from m source left (frame + 1))
        refl

  append_nothing : (xs : List T) → xs ++ [] ≡ xs
  append_nothing [] = refl
  append_nothing (x ∷ xs) = ap (λ l. x ∷ l) (append_nothing xs)

  -- Multiplying data of at least the frames of a matrix's columns reads nothing behind it, and gives for each
  -- frame the sums of products of the rows of the matrix with the samples of the frame.
  pub multiply_data-table :
      (m : Matrix F) (d : T) (source : List T) (frames : ℕ)
      → m.cols * frames ≤ length source
      → multiply_data m source frames
        ≡ done (frames_from frames 0 (λ f. mixed acc m d source (m.cols * f)))
  unfolding multiply_data merge_adaptor_matrix
  multiply_data-table m d source frames enough =
      multiply_data_from-merge_matrix_from m source frames 0
      ∙ merge_adaptor_matrix-table acc m d source [] 0 frames enough (omega arith)
      ∙ ap done (
          frames_congr frames 0 _ _ (λ f lo hi. append_nothing (mixed acc m d source (m.cols * f))))
