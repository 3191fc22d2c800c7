-- ===== src/Matrix/Tests.antt =====
-- A concrete arithmetic, and the operations on concrete matrices.
use libambix.Base.{ℕ, ◌+◌, ◌*◌, ◌≡◌, refl, arith, none, some, done}
use libambix.Matrix.{Accumulator, Float, Matrix, multiply}
use libambix.Matrix.Writes.{IsFilled}
use libambix.Matrix.Exact.{IsExact}
use libambix.Matrix.Products.{dot, multiply-IsFilled}

-- Numbers in the place of floats: every sum of them is exact.
instance abbrev pub number_float : Float ℕ
number_float = record { zero = 0; one = 1 }

abbrev pub number_sums : Accumulator ℕ ℕ ℕ
number_sums = record { start = 0; step = λ s m x. s + m * x; finish = λ s. s }

abbrev pub Exact : ℕ → Type 0
Exact x = Unit

pub number_sums-IsExact : IsExact number_float number_sums Exact
number_sums-IsExact = record { skip = λ s x e. omega arith; take = λ x e. omega arith }

-- Two rows of three cells.
abbrev pub two_rows : Matrix ℕ
two_rows = record { rows = 2; cols = 3; cell = λ r c. r * 3 + c }

abbrev three_rows : Matrix ℕ
three_rows = record { rows = 3; cols = 2; cell = λ r c. r + c }

multiply-IsFilled_example :
    (m : Matrix ℕ) × (multiply number_sums (some two_rows) (some three_rows) none ≡ done m)
    × IsFilled 2 2 (λ r c. dot number_sums 3 (λ i. r * 3 + i) (λ i. i + c)) m
multiply-IsFilled_example = multiply-IsFilled number_sums two_rows three_rows none refl
