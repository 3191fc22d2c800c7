-- ===== src/Matrix/Invert.antt =====
-- The inversion of matrices: the Gauss-Jordan elimination and `_ambix_matrix_pinvert_cholesky` of
-- libambix/src/matrix_invert.c, and `_ambix_matrix_pinv` of libambix/src/matrix.c. The Cholesky
-- decomposition and the inverse from it are the code of another project, and a parameter here. A
-- matrix that a function changes and its caller then frees is not part of the result.
pub mod Loops
pub mod Algebra
pub mod Inverse
pub mod Tests
use libambix.Base.{
  ℕ, zero, suc, ◌+◌, ◌<◌, ltb, ◌==◌, not, Bool, true, false, if◌then◌else◌, Option, none, some,
  Outcome, done, null, fault, ◌>>=◌, for_loop,
}
use libambix.Matrix.{
  Accumulator, Float, Matrix, int_rounds, read, write, init, transpose, copy, multiply,
}
use libambix.Matrix.Fuma.{fill_identity}

-- The operations of float32_t, each with its rounding: `x+y`, `x*y`, `-x`, `1./x`, and the test
-- `x>-eps && x<eps`.
pub record Arithmetic (F : Type 0) : Type 0 where
  pub add : F → F → F
  pub mul : F → F → F
  pub neg : F → F
  pub recip : F → F
  pub within : (eps : F) → F → Bool

module _ {F : Type 0} ⦃fl : Float F⦄ (ar : Arithmetic F) where
  -- `original[k][i] *= i_diagel; inverted[k][i] *= i_diagel;` of the rows left from `i` on.
  unfoldable pub normalize_row :
      (row k : ℕ) (i_diagel : F) → Matrix F × Matrix F → Outcome (Matrix F × Matrix F)
  normalize_row row k i_diagel start =
      for_loop row 0
        (λ i (original, inverted). do
          x ← read original k i
          original' ← write original k i (ar.mul x i_diagel)
          y ← read inverted k i
          inverted' ← write inverted k i (ar.mul y i_diagel)
          done (original', inverted'))
        start

  -- `for(j=left-1; j>=0; j--)`, on row `i`.
  unfoldable pub add_row :
      (f : F) (i k left : ℕ) → Matrix F × Matrix F → Outcome (Matrix F × Matrix F)
  add_row f i k zero s = done s
  add_row f i k (suc j) (original, inverted) = do
    x ← read original i j
    p ← read original k j
    original' ← write original i j (ar.add x (ar.mul f p))
    y ← read inverted i j
    q ← read inverted k j
    inverted' ← write inverted i j (ar.add y (ar.mul f q))
    add_row f i k j (original', inverted')

  unfoldable pub eliminate : (row k : ℕ) → Matrix F × Matrix F → Outcome (Matrix F × Matrix F)
  eliminate row k start =
      for_loop row 0
        (λ i s. if i == k then done s else (read s.0 i k >>= λ x. add_row (ar.neg x) i k row s))
        start

  -- One round of the elimination, with the count of errors.
  unfoldable pub pivot :
      (eps : F) (row k : ℕ) → ℕ × Matrix F × Matrix F → Outcome (ℕ × Matrix F × Matrix F)
  pivot eps row k (errors, original, inverted) = do
    diagel ← read original k k
    let small = ar.within eps diagel
    s ← normalize_row row k (if small then fl.zero else ar.recip diagel) (original, inverted)
    (original', inverted') ← eliminate row k s
    done (if small then suc errors else errors, original', inverted')

  unfoldable pub invert_gaussjordan :
      (input inverse : Option (Matrix F)) (eps : F) → Outcome (Matrix F)
  invert_gaussjordan none inverse eps = null
  invert_gaussjordan (some input) inverse eps = if not (input.cols == input.rows) then null else (do
    start ← fill_identity (elim inverse [ none ↦ init input.rows input.cols | some m ↦ m ])
    (errors, original, inverted) ←
        for_loop (int_rounds input.rows) 0 (pivot eps (int_rounds input.rows)) (0, input, start)
    if ltb 0 errors then null else done inverted)

module _ {F S : Type 0} ⦃fl : Float F⦄ (ar : Arithmetic F) (acc : Accumulator F F S)
    (cholesky_inverse : F → Matrix F → Outcome (Matrix F)) where
  -- `cholesky_inverse` decomposes a matrix with a tolerance, and inverts it in place.
  unfoldable pub pinvert_cholesky :
      Matrix F → Option (Matrix F) → (tolerance : F) → Outcome (Matrix F)
  pinvert_cholesky input inverse tolerance = do
    trans ← transpose input none
    if ltb input.cols input.rows
        then (do
          product ← multiply acc (some trans) (some input) none
          chinv ← cholesky_inverse tolerance product
          multiply acc (some chinv) (some trans) inverse)
        else (do
          product ← multiply acc (some input) (some trans) none
          chinv ← cholesky_inverse tolerance product
          multiply acc (some trans) (some chinv) inverse)

  -- The inversion by Gauss-Jordan, of the matrix or of its product with its transposed one.
  unfoldable pub pinv_gaussjordan : Matrix F → Option (Matrix F) → (eps : F) → Outcome (Matrix F)
  pinv_gaussjordan a p eps =
      if a.rows == a.cols
      then (copy (some a) none >>= λ ax. invert_gaussjordan ar (some ax) p eps)
      else (do
        at ← transpose a none
        if ltb a.cols a.rows
            then (do
              temp ← multiply acc (some at) (some a) none
              temp2 ← invert_gaussjordan ar (some temp) none eps
              multiply acc (some temp2) (some at) p)
            else (do
              temp ← multiply acc (some a) (some at) none
              temp2 ← invert_gaussjordan ar (some temp) none eps
              multiply acc (some at) (some temp2) p))

  abbrev pub or_else : Outcome (Matrix F) → Outcome (Matrix F) → Outcome (Matrix F)
  or_else (done m) other = done m
  or_else null other = other
  or_else fault other = fault

  unfoldable pub pinv : Matrix F → Option (Matrix F) → (eps : F) → Outcome (Matrix F)
  pinv a p eps = or_else (pinvert_cholesky a p eps) (pinv_gaussjordan a p eps)
