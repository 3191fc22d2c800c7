-- ===== src/Matrix.antt =====
-- Matrices: `ambix_matrix_t` of libambix/ambix/ambix.h and the operations of
-- libambix/src/matrix.c. `data` is a function of a row and a column; each access is checked
-- against the size that was allocated, and one outside of it is a fault. Allocation succeeds.
-- Distinct arguments are distinct matrices.
pub mod Writes
pub mod Cells
pub mod Copies
pub mod Exact
pub mod Products
pub mod Routes
pub mod Fuma
pub mod Fill
pub mod Invert
pub mod Tests
use libambix.Base.{
  ℕ, zero, suc, ◌+◌, ◌*◌, ◌^◌, Bool, ◌&&◌, ◌||◌, not, ltb, ◌==◌, if◌then◌else◌, Option, none, some,
  List, [], ◌∷◌, get_elem?, Outcome, done, null, fault, ◌>>=◌, access, for_loop, ℤ, pos, negsuc,
  is_negative,
}

-- What the code uses of float32_t beside its arithmetic: the constants 0. and 1.
pub record Float (F : Type 0) : Type 0 where
  pub zero : F
  pub one : F

-- The arithmetic of one `sum += m * x` loop, at the C types of `m`, `x` and `sum`: the start `0.`,
-- a round with all its conversions and roundings, and the conversion of the final sum.
pub record Accumulator (F T S : Type 0) : Type 0 where
  pub start : S
  pub step : S → F → T → S
  pub finish : S → T

pub record Matrix (F : Type 0) : Type 0 where
  pub rows : ℕ
  pub cols : ℕ
  pub cell : ℕ → ℕ → F

-- The size of a matrix as an int32_t: the loops make no round on a size that is negative so.
abbrev pub int_rounds : ℕ → ℕ
int_rounds n = if ltb n (2 ^ 31) then n else 0

module _ {F : Type 0} where
  -- `mtx->data[r][c]`, read and written.
  unfoldable pub read : Matrix F → ℕ → ℕ → Outcome F
  read m r c = if ltb r m.rows && ltb c m.cols then done (m.cell r c) else fault

  unfoldable pub write : Matrix F → ℕ → ℕ → F → Outcome (Matrix F)
  write m r c v =
      if ltb r m.rows && ltb c m.cols
      then done (record m { cell = λ i j. if i == r && (j == c) then v else m.cell i j })
      else fault

  -- `for(r) for(c) m[r][c] = value(r, c);`
  unfoldable pub for_cells : ℕ → ℕ → (ℕ → ℕ → Outcome F) → Matrix F → Outcome (Matrix F)
  for_cells rows cols value =
      for_loop rows 0 λ r. for_loop cols 0 λ c m. value r c >>= λ v. write m r c v

-- `sum=0.; for(i=0; i<n; i++) sum += left(i)*right(i);`
unfoldable pub sum_loop :
    {F T S : Type 0} → Accumulator F T S → ℕ → (ℕ → Outcome F) → (ℕ → Outcome T) → Outcome T
sum_loop acc n left right =
    for_loop n 0 (λ i s. left i >>= λ l. right i >>= λ r. done (acc.step s l r)) acc.start >>= λ s.
    done (acc.finish s)

module _ {F : Type 0} ⦃fl : Float F⦄ where
  -- `ambix_matrix_init`: the old data is freed, and the new is all zero.
  unfoldable pub init : ℕ → ℕ → Matrix F
  init rows cols = record { rows = rows; cols = cols; cell = λ r c. fl.zero }

  unfoldable pub create : Matrix F
  create = init 0 0

  -- `ambix_matrix_deinit` leaves no data.
  unfoldable pub deinit : Matrix F → Matrix F
  deinit m = init 0 0

  -- The destination of `copy` and `multiply`: resized unless it has the size already.
  unfoldable pub sized : ℕ → ℕ → Option (Matrix F) → Matrix F
  sized rows cols none = init rows cols
  sized rows cols (some m) = if m.rows == rows && (m.cols == cols) then m else init rows cols

  unfoldable pub transpose : Matrix F → Option (Matrix F) → Outcome (Matrix F)
  transpose m dest =
      for_loop m.rows 0 (λ r. for_loop m.cols 0 λ c x. read m r c >>= λ v. write x c r v)
        (elim dest [ none ↦ init m.cols m.rows | some x ↦ x ])

  unfoldable pub copy : Option (Matrix F) → Option (Matrix F) → Outcome (Matrix F)
  copy none dest = null
  copy (some src) dest = for_cells src.rows src.cols (read src) (sized src.rows src.cols dest)

  unfoldable pub multiply :
      {S : Type 0}
      → Accumulator F F S
      → Option (Matrix F)
      → Option (Matrix F)
      → Option (Matrix F)
      → Outcome (Matrix F)
  multiply acc none right dest = null
  multiply acc (some left) none dest = null
  multiply acc (some left) (some right) dest =
      if left.cols == right.rows
      then for_cells left.rows right.cols
          (λ r c. sum_loop acc left.cols (read left r) (λ i. read right i c))
          (sized left.rows right.cols dest)
      else null
