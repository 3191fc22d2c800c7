-- ===== src/Adaptor/Mixed.antt =====
-- The adaptors with a matrix: what they write, and that a routing matrix moves channels only.
use libambix.Base.{
  ℕ, zero, suc, ◌+◌, ◌-◌, ◌*◌, ◌≤◌, ◌≡◌, refl, ap, ◌∙◌, arith, List, ◌++◌, length, drop, get_elem?,
  get_or, done, access, table, frames_from, collect-table,
}
use mathlib.Core.List.{append_assoc}
use libambix.Matrix.{Accumulator, Matrix, read}
use libambix.Matrix.Writes.{read-done}
use libambix.Matrix.Products.{dot, sum_loop-dot}
use libambix.Adaptor.{
  mix_frame, split_matrix_from, split_adaptor_matrix, merge_matrix_from, merge_adaptor_matrix,
}
use libambix.Adaptor.Tables.{access-done, transfer_at}

module _ {F T S : Type 0} (acc : Accumulator F T S) (m : Matrix F) (d : T) where
  -- The frame at `src`: for each row its sum of products with the samples from `src` on.
  abbrev pub mixed : List T → ℕ → List T
  mixed source src =
      table m.rows 0 (λ r. dot acc m.cols (m.cell r) (λ i. get_or source (src + i) d))

  pub mix_frame-mixed :
      (source : List T) (src : ℕ)
      → src + m.cols ≤ length source
      → mix_frame acc m source src ≡ done (mixed source src)
  unfolding mix_frame
  mix_frame-mixed source src h =
      collect-table m.rows 0 _ (λ r. dot acc m.cols (m.cell r) (λ i. get_or source (src + i) d))
        λ r lo hi.
          sum_loop-dot acc m.cols (read m r) (λ i. access (get_elem? source (src + i))) (m.cell r)
            (λ i. get_or source (src + i) d) (λ i q. read-done m r i (omega arith) q)
            (λ i q. access-done source (src + i) d (omega arith))

  split_matrix_from-table :
      (source : List T) (sc left f : ℕ)
      → m.cols ≤ sc
      → sc * (f + left) ≤ length source
      → split_matrix_from acc source sc m left f
        ≡ done (
          frames_from left f (λ f. mixed source (sc * f)),
          frames_from left f (λ f. table (sc - m.cols) m.cols (λ c. get_or source (sc * f + c) d)),
        )
  unfolding split_matrix_from
  split_matrix_from-table source sc zero f le h = refl
  split_matrix_from-table source sc (suc left) f le h = rw (
    mix_frame-mixed source (sc * f) (omega arith),
    collect-table (sc - m.cols) m.cols (λ c. access (get_elem? source (sc * f + c)))
        (λ c. get_or source (sc * f + c) d)
        (λ c lo hi. access-done source (sc * f + c) d (omega arith)),
    split_matrix_from-table source sc left (f + 1) le (omega arith),
  )

  -- On a source of at least `frames` frames that have the matrix's columns the splitter succeeds;
  -- frame by frame it writes the sums of products of the rows with the first channels, and the
  -- other channels as they are.
  pub split_adaptor_matrix-table :
      (source : List T) (sc frames : ℕ)
      → m.cols ≤ sc
      → sc * frames ≤ length source
      → split_adaptor_matrix acc source sc m frames
        ≡ done (
          frames_from frames 0 (λ f. mixed source (sc * f)),
          frames_from frames 0
              (λ f. table (sc - m.cols) m.cols (λ c. get_or source (sc * f + c) d)),
        )
  unfolding split_adaptor_matrix
  split_adaptor_matrix-table source sc frames le h =
      split_matrix_from-table source sc frames 0 le (omega arith)

  merge_matrix_from-table :
      (ambi other : List T) (oc left f : ℕ)
      → m.cols * (f + left) ≤ length ambi
      → oc * (f + left) ≤ length other
      → merge_matrix_from acc ambi m (drop (oc * f) other) oc left f
        ≡ done (
            frames_from left f
              (λ f. mixed ambi (m.cols * f) ++ table oc 0 (λ c. get_or other (oc * f + c) d)))
  unfolding merge_matrix_from
  merge_matrix_from-table ambi other oc zero f h k = refl
  merge_matrix_from-table ambi other oc (suc left) f h k =
      rw
        (
          mix_frame-mixed ambi (m.cols * f) (omega arith),
          transfer_at oc (oc * f) 0 other d {i = oc * f} {j = oc * (f + 1)} (omega arith)
              (omega arith) (omega arith),
          merge_matrix_from-table ambi other oc left (f + 1) (omega arith) (omega arith),
        )
        (rw append_assoc)

  -- From sources that have all frames the merger succeeds; each frame is the sums of products of the
  -- matrix's rows with the channels of one source, then the channels of the other as they are.
  pub merge_adaptor_matrix-table :
      (ambi other : List T) (oc frames : ℕ)
      → m.cols * frames ≤ length ambi
      → oc * frames ≤ length other
      → merge_adaptor_matrix acc ambi m other oc frames
        ≡ done (
            frames_from frames 0
              (λ f. mixed ambi (m.cols * f) ++ table oc 0 (λ c. get_or other (oc * f + c) d)))
  unfolding merge_adaptor_matrix
  merge_adaptor_matrix-table ambi other oc frames h k =
      ap (λ j. merge_matrix_from acc ambi m (drop j other) oc frames 0) {x = 0} {y = oc * 0}
        (omega arith)
      ∙ merge_matrix_from-table ambi other oc frames 0 (omega arith) (omega arith)
