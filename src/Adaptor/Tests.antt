-- ===== src/Adaptor/Tests.antt =====
-- The adaptors on two frames of concrete samples.
use libambix.Base.{
  ℕ, ◌+◌, ◌-◌, ◌*◌, ◌≡◌, refl, arith, if◌then◌else◌, ◌==◌, List, [], ◌∷◌, ◌++◌, length, get_or,
  done, table, frames_from, collect, for_loop,
}
use libambix.Matrix.{Matrix, read, sum_loop}
use libambix.Matrix.Tests.{number_float, number_sums, Exact, number_sums-IsExact, two_rows}
use libambix.Matrix.Routes.Tests.{rotation_matrix}
use libambix.Adaptor.{
  split_matrix_from, mix_frame, split_adaptor, merge_adaptor, split_adaptor_matrix,
  merge_adaptor_matrix,
}
use libambix.Adaptor.Plain.{split_adaptor-merge_adaptor, merge_adaptor-split_adaptor}
use libambix.Adaptor.Mixed.{mixed, split_adaptor_matrix-table, merge_adaptor_matrix-table}
use libambix.Adaptor.Data.{multiply_data, multiply_data-table}
use libambix.Adaptor.Routing.{split_adaptor_matrix_unit, merge_adaptor_matrix_unit}

-- Two frames of four channels.
abbrev frames : List ℕ
frames = 1 ∷ 2 ∷ 3 ∷ 4 ∷ 5 ∷ 6 ∷ 7 ∷ 8 ∷ []

abbrev singles : List ℕ
singles = 9 ∷ 10 ∷ []

rotated :
    split_adaptor_matrix number_sums frames 4 rotation_matrix 2
    ≡ done (3 ∷ 1 ∷ 2 ∷ 7 ∷ 5 ∷ 6 ∷ [], 4 ∷ 8 ∷ [])
unfolding split_adaptor_matrix split_matrix_from mix_frame collect sum_loop for_loop read
rotated = refl

split_adaptor-merge_adaptor_example :
    (merged : List ℕ) × (merge_adaptor frames 4 singles 1 2 ≡ done merged)
    × (length merged ≡ 5 * 2)
    × (split_adaptor merged 5 4 2 ≡ done (frames, singles))
split_adaptor-merge_adaptor_example = split_adaptor-merge_adaptor frames singles 4 1 2 refl refl

merge_adaptor-split_adaptor_example :
    (ambi other : List ℕ) × (split_adaptor frames 4 3 2 ≡ done (ambi, other))
    × (length ambi ≡ 3 * 2)
    × (length other ≡ (4 - 3) * 2)
    × (merge_adaptor ambi 3 other (4 - 3) 2 ≡ done frames)
merge_adaptor-split_adaptor_example = merge_adaptor-split_adaptor frames 4 3 2 (omega arith) refl

split_adaptor_matrix-table_example :
    split_adaptor_matrix number_sums frames 4 two_rows 2
    ≡ done (
      frames_from 2 0 (λ f. mixed number_sums two_rows 0 frames (4 * f)),
      frames_from 2 0 (λ f. table (4 - 3) 3 (λ c. get_or frames (4 * f + c) 0)),
    )
split_adaptor_matrix-table_example =
    split_adaptor_matrix-table number_sums two_rows 0 frames 4 2 (omega arith) (omega arith)

merge_adaptor_matrix-table_example :
    merge_adaptor_matrix number_sums frames two_rows singles 1 2
    ≡ done (
        frames_from 2 0 (λ f.
          mixed number_sums two_rows 0 frames (3 * f)
          ++ table 1 0 (λ c. get_or singles (1 * f + c) 0)))
merge_adaptor_matrix-table_example =
    merge_adaptor_matrix-table number_sums two_rows 0 frames singles 1 2 (omega arith) (omega arith)

abbrev unit : Matrix ℕ
unit = record { rows = 3; cols = 3; cell = λ r c. if c == r then 1 else 0 }

split_adaptor_matrix_unit_example :
    split_adaptor_matrix number_sums frames 4 unit 2 ≡ split_adaptor frames 4 3 2
split_adaptor_matrix_unit_example =
    split_adaptor_matrix_unit number_sums Exact number_sums-IsExact 3 unit
      (record { has_rows = refl; has_cols = refl; cells = λ r c h k. refl }) 0 frames 4 2
      (omega arith) (omega arith) (λ i. tt)

merge_adaptor_matrix_unit_example :
    merge_adaptor_matrix number_sums frames unit singles 1 2 ≡ merge_adaptor frames 3 singles 1 2
merge_adaptor_matrix_unit_example =
    merge_adaptor_matrix_unit number_sums Exact number_sums-IsExact 3 unit
      (record { has_rows = refl; has_cols = refl; cells = λ r c h k. refl }) 0 frames singles 1 2
      (omega arith) (omega arith) (λ i. tt)

multiply_data-table_example :
    multiply_data number_sums two_rows (1 ∷ 2 ∷ 3 ∷ 4 ∷ 5 ∷ 6 ∷ []) 2
    ≡ done
        (frames_from 2 0 (λ f. mixed number_sums two_rows 0 (1 ∷ 2 ∷ 3 ∷ 4 ∷ 5 ∷ 6 ∷ []) (3 * f)))
multiply_data-table_example =
    multiply_data-table number_sums two_rows 0 (1 ∷ 2 ∷ 3 ∷ 4 ∷ 5 ∷ 6 ∷ []) 2 (omega arith)
