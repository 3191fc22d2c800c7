-- ===== src/Matrix/Copies.antt =====
-- `ambix_matrix_copy` and `_ambix_matrix_transpose`: no fault, and every cell.
use libambix.Base.{ℕ, ◌≡◌, refl, ◌∙◌, arith, Option, none, some, done}
use libambix.Matrix.{Float, Matrix, read, init, sized, copy, transpose}
use libambix.Matrix.Writes.{IsFilled, read-done}
use libambix.Matrix.Cells.{for_cells-IsFilled, for_cells-transposed}

module _ {F : Type 0} ⦃fl : Float F⦄ where
  pub sized_size :
      (rows cols : ℕ) (dest : Option (Matrix F))
      → ((sized rows cols dest).rows ≡ rows) × ((sized rows cols dest).cols ≡ cols)
  unfolding sized init
  sized_size rows cols none = (refl, refl)
  sized_size rows cols (some m) = ground arith

  -- A copy of a matrix succeeds whatever the destination is, and has the size and the cells of the
  -- source.
  pub copy-IsFilled :
      (src : Matrix F) (dest : Option (Matrix F))
      → (m : Matrix F) × (copy (some src) dest ≡ done m) × IsFilled src.rows src.cols src.cell m
  unfolding copy
  copy-IsFilled src dest =
      for_cells-IsFilled src.rows src.cols src.cell (read src) (sized src.rows src.cols dest)
        (read-done src) (sized_size src.rows src.cols dest).0 (sized_size src.rows src.cols dest).1

  -- A transposition into a new matrix, or into one of the transposed size, succeeds and swaps rows
  -- and columns.
  pub transpose-IsFilled :
      (m : Matrix F)
      → (t : Matrix F) × (transpose m none ≡ done t) × IsFilled m.cols m.rows (λ r c. m.cell c r) t
  unfolding transpose init
  transpose-IsFilled m =
      for_cells-transposed m.cols m.rows (λ r c. m.cell c r) (read m) (init m.cols m.rows)
        (read-done m) refl refl

  -- Transposing into a new matrix, and the result into another, succeeds and gives the size and the
  -- cells back.
  pub transpose-transpose :
      (m : Matrix F)
      → (t : Matrix F) × (transpose m none ≡ done t)
        × (u : Matrix F) × (transpose t none ≡ done u)
        × IsFilled m.rows m.cols m.cell u
  transpose-transpose m =
      let (t, e, filled) = transpose-IsFilled m in
      let (u, f, back) = transpose-IsFilled t in
      (
        t,
        e,
        u,
        f,
        record {
          has_rows = back.has_rows ∙ filled.has_cols;
          has_cols = back.has_cols ∙ filled.has_rows;
          cells = λ r c h k.
              back.cells r c (omega (arith, filled.has_cols)) (omega (arith, filled.has_rows))
              ∙ filled.cells c r k h;
        },
      )
