-- ===== src/Matrix/Routes.antt =====
-- Diagonal and permutation matrices: `_matrix_diag`, `_matrix_router` and `_matrix_permutate` of
-- libambix/src/matrix.c. The entries of a route are floats with integer values, here integers.
pub mod Laws
pub mod Inverse
pub mod Tests
use libambix.Base.{
  ℕ, Bool, true, false, ltb, ◌||◌, if◌then◌else◌, Option, none, some, List, get_elem?, Outcome,
  done, null, fault, ◌>>=◌, access, for_loop, ℤ, pos, negsuc, is_negative,
}
use libambix.Matrix.{Float, Matrix, write, init}

-- `(uint32_t)x`, which C leaves undefined for a negative x.
abbrev pub cast_u32 : ℤ → Outcome ℕ
cast_u32 (pos n) = done n
cast_u32 (negsuc n) = fault

-- The first loop of `router`: no entry may be negative or above `limit`.
unfoldable pub check_route : List ℤ → ℕ → ℕ → Outcome (Unit {0})
check_route route size limit =
    for_loop size 0
      (λ i u. access (get_elem? route i) >>= λ x.
        cast_u32 x >>= λ o. if is_negative x || ltb limit o then null else done u)
      tt

module _ {F : Type 0} ⦃fl : Float F⦄ where
  -- The old matrix, if any, is resized; what it held is gone.
  unfoldable pub diag : Option (Matrix F) → List F → ℕ → Outcome (Matrix F)
  diag orgmatrix diagonal size =
      for_loop size 0 (λ i m. access (get_elem? diagonal i) >>= λ v. write m i i v) (init size size)

  -- The second loop: a 1 for each entry.
  unfoldable pub place_route : List ℤ → ℕ → Bool → Matrix F → Outcome (Matrix F)
  place_route route size swap = for_loop size 0 λ i m. access (get_elem? route i) >>= λ x.
      cast_u32 x >>= λ o. if swap then write m o i fl.one else write m i o fl.one

  unfoldable pub router : Option (Matrix F) → List ℤ → ℕ → Bool → Outcome (Matrix F)
  router orgmatrix route size swap =
      check_route route size size >>= λ _. place_route route size swap (init size size)

  -- `if(route[i]>=-0.1)` holds of every entry that could be converted.
  unfoldable pub permutate : Matrix F → List ℤ → Bool → Outcome (Matrix F)
  permutate m route swap =
      let size = if swap then m.cols else m.rows in
      let maxroute = if swap then m.rows else m.cols in
      check_route route size maxroute >>= λ _. place_route route size swap m
