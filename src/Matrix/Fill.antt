-- ===== src/Matrix/Fill.antt =====
-- `ambix_matrix_fill` of libambix/src/matrix.c, and the functions that copy data into a matrix.
pub mod Laws
pub mod Orderings
pub mod Data
pub mod Tests
use libambix.Base.{
  ℕ, zero, suc, ◌+◌, ◌*◌, ◌^◌, Bool, true, false, ltb, ◌==◌, if◌then◌else◌, Option, none, some,
  List, [], ◌∷◌, ◌++◌, map, Outcome, done, null, fault, ◌>>=◌, for_loop, ℤ, pos, negsuc, replicate,
}
use libambix.Words.{swap4}
use libambix.Channels.{channels2order}
use libambix.Sid.{sid2acn}
use libambix.Matrix.{Accumulator, Float, Matrix, write, for_cells, int_rounds, copy}
use libambix.Matrix.Routes.{diag, router}
use libambix.Matrix.Fuma.{Weights, fill_identity, fuma2ambix, ambix2fuma}

-- `ambix_matrixtype_t`; `ambix` and `to_ambix` are no matrices of their own.
pub data MatrixType : Type 0 where
  invalid zeros ones identity ambix n3d sid fuma to_ambix to_n3d to_sid to_fuma : MatrixType

-- `*w_++=w` for the 2 * o + 1 channels of each order, by the orders left.
unfoldable pub weights_from : {F : Type 0} → (ℕ → F) → ℕ → ℕ → List F
weights_from weight zero o = []
weights_from weight (suc left) o =
    replicate (2 * o + 1) (weight o) ++ weights_from weight left (o + 1)

module _ {F : Type 0} ⦃fl : Float F⦄ where
  unfoldable pub fill_constant : F → Matrix F → Outcome (Matrix F)
  fill_constant v m = for_cells (int_rounds m.rows) (int_rounds m.cols) (λ r c. done v) m

  -- `sqrt` is the integer root of channel counts.
  unfoldable pub fill_sid : (ℕ → ℕ) → Bool → Matrix F → Outcome (Matrix F)
  fill_sid sqrt swap m = elim (sid2acn sqrt m.rows) [
    | none ↦ null
    | some ordering ↦ router (some m) (map pos ordering) m.rows swap
  ]

  unfoldable pub fill_n3d : (ℕ → ℕ) → (ℕ → F) → Matrix F → Outcome (Matrix F)
  fill_n3d sqrt weight m = elim (channels2order sqrt m.rows) [
    | negsuc _ ↦ null
    | pos order ↦ diag (some m) (weights_from weight (order + 1) 0) m.rows
  ]

-- `divided o` is `(float32_t)(1./sqrt(2.*o+1.))` and `multiplied o` is `(float32_t)(sqrt(2.*o+1.))`.
module _ {F S : Type 0} ⦃fl : Float F⦄ ⦃w : Weights F⦄ (acc : Accumulator F F S) (sqrt : ℕ → ℕ)
    (divided multiplied : ℕ → F) where
  unfoldable pub fill : Matrix F → MatrixType → Outcome (Matrix F)
  fill m zeros = fill_constant fl.zero m
  fill m ones = fill_constant fl.one m
  fill m identity = fill_identity m
  fill m fuma = fuma2ambix acc m.cols >>= λ result. copy (some result) (some m)
  fill m to_fuma = ambix2fuma acc m.rows >>= λ result. copy (some result) (some m)
  fill m sid = fill_sid sqrt false m
  fill m to_sid = fill_sid sqrt true m
  fill m n3d = fill_n3d sqrt divided m
  fill m to_n3d = fill_n3d sqrt multiplied m
  fill m invalid = null
  fill m ambix = null
  fill m to_ambix = null

-- `matrix[r][c]=*data++`, each value converted, with the data that is left.
unfoldable pub fill_next :
    {A F : Type 0} → (A → F) → ℕ → ℕ → Matrix F × List A → Outcome (Matrix F × List A)
fill_next convert r c (s, []) = fault
fill_next convert r c (s, v ∷ rest) = write s r c (convert v) >>= λ t. done (t, rest)

unfoldable pub fill_from : {A F : Type 0} → (A → F) → Matrix F → List A → Outcome (Matrix F)
fill_from convert m values =
    for_loop m.rows 0 (λ r. for_loop m.cols 0 (fill_next convert r)) (m, values) >>= λ s. done s.0

unfoldable pub fill_data : {F : Type 0} → Matrix F → List F → Outcome (Matrix F)
fill_data = fill_from (λ v. v)

-- The data are words in the other byte order; `of_bits` reads a `number32_t` as a float.
unfoldable pub fill_data_byteswapped :
    {F : Type 0} → (ℕ → F) → Matrix F → List ℕ → Outcome (Matrix F)
fill_data_byteswapped of_bits = fill_from (λ d. of_bits (swap4 d))
