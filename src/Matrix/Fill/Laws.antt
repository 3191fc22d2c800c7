-- ===== src/Matrix/Fill/Laws.antt =====
-- The standard matrices.
use libambix.Base.{ℕ, ◌^◌, ◌<◌, ◌≡◌, refl, arith, ◌==◌, if◌then◌else◌, done}
use libambix.Matrix.{Float, Matrix, int_rounds}
use libambix.Matrix.Writes.{IsFilled}
use libambix.Matrix.Cells.{for_cells-IsFilled}
use libambix.Matrix.Fuma.{fill_identity}
use libambix.Matrix.Fill.{fill_constant}

pub int_rounds-small : (n : ℕ) → n < 2 ^ 31 → int_rounds n ≡ n
int_rounds-small n h = ground arith

module _ {F : Type 0} ⦃fl : Float F⦄ where
  -- Filling a matrix of fewer than 2 ^ 31 rows and columns with the identity succeeds, keeps its size,
  -- and leaves 1 on the diagonal and 0 elsewhere.
  pub fill_identity-IsFilled :
      (m : Matrix F)
      → m.rows < 2 ^ 31
      → m.cols < 2 ^ 31
      → (s : Matrix F) × (fill_identity m ≡ done s)
        × IsFilled m.rows m.cols (λ r c. if r == c then fl.one else fl.zero) s
  unfolding fill_identity
  fill_identity-IsFilled m h k =
      rw (int_rounds-small m.rows h, int_rounds-small m.cols k)
        (for_cells-IsFilled m.rows m.cols _ _ m (λ r c p q. refl) refl refl)

  -- Filling with a constant sets every cell of a matrix of fewer than 2 ^ 31 rows and columns.
  pub fill_constant-IsFilled :
      (v : F) (m : Matrix F)
      → m.rows < 2 ^ 31
      → m.cols < 2 ^ 31
      → (s : Matrix F) × (fill_constant v m ≡ done s) × IsFilled m.rows m.cols (λ r c. v) s
  unfolding fill_constant
  fill_constant-IsFilled v m h k =
      rw (int_rounds-small m.rows h, int_rounds-small m.cols k)
        (for_cells-IsFilled m.rows m.cols (λ r c. v) _ m (λ r c p q. refl) refl refl)
