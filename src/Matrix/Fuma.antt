-- ===== src/Matrix/Fuma.antt =====
-- The Furse-Malham conversions: libambix/src/adaptor_fuma.c.
use libambix.Base.{
  ℕ, ◌-◌, true, false, ltb, ◌==◌, if◌then◌else◌, Option, none, some, List, [], ◌∷◌, ◌++◌, map,
  Outcome, done, null, fault, ◌>>=◌, pos, replicate, length, get_elem?,
}
use libambix.Matrix.{Accumulator, Float, Matrix, init, multiply, for_cells, int_rounds}
use libambix.Matrix.Routes.{diag, router, permutate}

-- The constants, each rounded to float32_t, and negation.
pub record Weights (F : Type 0) : Type 0 where
  pub sqrt2 : F
  pub sqrt3_4 : F
  pub sqrt5_8 : F
  pub sqrt32_45 : F
  pub sqrt5_9 : F
  pub sqrt1_2 : F
  pub sqrt4_3 : F
  pub sqrt8_5 : F
  pub sqrt45_32 : F
  pub sqrt9_5 : F
  pub neg : F → F

-- `order` of both weightorder functions.
abbrev pub fuma_order : List ℕ
fuma_order = 0 ∷ 2 ∷ 3 ∷ 1 ∷ 8 ∷ 6 ∷ 4 ∷ 5 ∷ 7 ∷ 15 ∷ 13 ∷ 11 ∷ 9 ∷ 10 ∷ 12 ∷ 14 ∷ []

-- `reducer_v`: the FuMa channels that a set of the given size has. C fills each row with zeros.
unfoldable pub reducer : ℕ → List ℕ
reducer size =
    let channels : List ℕ =
      if size == 3
      then 0 ∷ 1 ∷ 2 ∷ []
      else if size == 4
      then 0 ∷ 1 ∷ 2 ∷ 3 ∷ []
      else if size == 5
      then 0 ∷ 1 ∷ 2 ∷ 7 ∷ 8 ∷ []
      else if size == 6
      then 0 ∷ 1 ∷ 2 ∷ 3 ∷ 7 ∷ 8 ∷ []
      else if size == 7
      then 0 ∷ 1 ∷ 2 ∷ 7 ∷ 8 ∷ 14 ∷ 15 ∷ []
      else if size == 8
      then 0 ∷ 1 ∷ 2 ∷ 3 ∷ 7 ∷ 8 ∷ 14 ∷ 15 ∷ []
      else if size == 9
      then 0 ∷ 1 ∷ 2 ∷ 3 ∷ 4 ∷ 5 ∷ 6 ∷ 7 ∷ 8 ∷ []
      else if size == 11
      then 0 ∷ 1 ∷ 2 ∷ 3 ∷ 4 ∷ 5 ∷ 6 ∷ 7 ∷ 8 ∷ 14 ∷ 15 ∷ []
      else if size == 16
      then 0 ∷ 1 ∷ 2 ∷ 3 ∷ 4 ∷ 5 ∷ 6 ∷ 7 ∷ 8 ∷ 9 ∷ 10 ∷ 11 ∷ 12 ∷ 13 ∷ 14 ∷ 15 ∷ []
      else [] in
    channels ++ replicate (16 - length channels) 0

-- `rows_v` and `cols_v`: the full set that holds the channels; 0 where there is no such set.
abbrev pub full_sets : List ℕ
full_sets = 0 ∷ 1 ∷ 0 ∷ 4 ∷ 4 ∷ 9 ∷ 9 ∷ 16 ∷ 16 ∷ 9 ∷ 0 ∷ 16 ∷ 0 ∷ 0 ∷ 0 ∷ 0 ∷ 16 ∷ []

-- The entry of a table for a size that was checked against it: none for a size above 16.
unfoldable pub full_set : ℕ → ℕ
full_set size = elim (get_elem? full_sets size) [ none ↦ 0 | some n ↦ n ]

module _ {F : Type 0} ⦃fl : Float F⦄ where
  -- `ambix_matrix_fill(m, AMBIX_MATRIX_IDENTITY)`
  unfoldable pub fill_identity : Matrix F → Outcome (Matrix F)
  fill_identity m =
      for_cells (int_rounds m.rows) (int_rounds m.cols)
        (λ r c. done (if r == c then fl.one else fl.zero)) m

module _ {F : Type 0} ⦃fl : Float F⦄ ⦃w : Weights F⦄ where
  unfoldable pub fuma2ambix_weights : List F
  fuma2ambix_weights =
      w.sqrt2
      ∷ w.neg fl.one
      ∷ fl.one
      ∷ w.neg fl.one
      ∷ w.sqrt3_4
      ∷ w.neg w.sqrt3_4
      ∷ fl.one
      ∷ w.neg w.sqrt3_4
      ∷ w.sqrt3_4
      ∷ w.neg w.sqrt5_8
      ∷ w.sqrt5_9
      ∷ w.neg w.sqrt32_45
      ∷ fl.one
      ∷ w.neg w.sqrt32_45
      ∷ w.sqrt5_9
      ∷ w.neg w.sqrt5_8
      ∷ []

  unfoldable pub ambix2fuma_weights : List F
  ambix2fuma_weights =
      w.sqrt1_2
      ∷ w.neg fl.one
      ∷ fl.one
      ∷ w.neg fl.one
      ∷ w.sqrt4_3
      ∷ w.neg w.sqrt4_3
      ∷ fl.one
      ∷ w.neg w.sqrt4_3
      ∷ w.sqrt4_3
      ∷ w.neg w.sqrt8_5
      ∷ w.sqrt9_5
      ∷ w.neg w.sqrt45_32
      ∷ fl.one
      ∷ w.neg w.sqrt45_32
      ∷ w.sqrt9_5
      ∷ w.neg w.sqrt8_5
      ∷ []

module _ {F S : Type 0} ⦃fl : Float F⦄ ⦃w : Weights F⦄ (acc : Accumulator F F S) where
  unfoldable pub fuma2ambix_weightorder : Outcome (Matrix F)
  fuma2ambix_weightorder = do
    weight_m ← diag none fuma2ambix_weights 16
    order_m ← router none (map pos fuma_order) 16 true
    multiply acc (some weight_m) (some order_m) none

  unfoldable pub ambix2fuma_weightorder : Outcome (Matrix F)
  ambix2fuma_weightorder = do
    weight_m ← diag none ambix2fuma_weights 16
    order_m ← router none (map pos fuma_order) 16 false
    multiply acc (some order_m) (some weight_m) none

  -- A first product that is refused is destroyed through a NULL pointer.
  unfoldable pub multiply3 : Matrix F → Matrix F → Matrix F → Option (Matrix F) → Outcome (Matrix F)
  multiply3 mtx1 mtx2 mtx3 result = elim (multiply acc (some mtx1) (some mtx2) none) [
    | done tmp ↦ multiply acc (some tmp) (some mtx3) result
    | null ↦ fault
    | fault ↦ fault
  ]

  unfoldable pub ambix2fuma : ℕ → Outcome (Matrix F)
  ambix2fuma cols =
      if ltb 16 cols
      then null
      else if ltb 0 (full_set cols)
      then (do
        expand_m ← fill_identity (init 16 (full_set cols))
        weightorder_m ← ambix2fuma_weightorder
        reduce_m ← permutate (init cols 16) (map pos (reducer cols)) false
        multiply3 reduce_m weightorder_m expand_m none)
      else null

  unfoldable pub fuma2ambix : ℕ → Outcome (Matrix F)
  fuma2ambix rows =
      if ltb 16 rows
      then null
      else if ltb 0 (full_set rows)
      then (do
        expand_m ← fill_identity (init (full_set rows) 16)
        weightorder_m ← fuma2ambix_weightorder
        reduce_m ← permutate (init 16 rows) (map pos (reducer rows)) true
        multiply3 expand_m weightorder_m reduce_m none)
      else null
