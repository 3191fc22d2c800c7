-- ===== src/Matrix/Fill/Tests.antt =====
-- Standard matrices of a concrete size.
use libambix.Base.{
  ℕ, ◌≡◌, refl, arith, if◌then◌else◌, ◌==◌, true, false, none, some, List, [], ◌∷◌, get_or, done,
}
use libambix.Channels.Tests.{floor_sqrt, floor_sqrt-IsFloorSqrt}
use libambix.Sid.{sid2acn}
use libambix.Matrix.{Matrix, multiply}
use libambix.Matrix.Writes.{IsFilled}
use libambix.Matrix.Tests.{number_float, number_sums, Exact, number_sums-IsExact, two_rows}
use libambix.Matrix.Fill.{fill_constant, fill_sid}
use libambix.Matrix.Fill.Laws.{fill_constant-IsFilled}
use libambix.Matrix.Fill.Orderings.{fill_sid-inverse}

fill_constant-IsFilled_example :
    (s : Matrix ℕ) × (fill_constant 4 two_rows ≡ done s) × IsFilled 2 3 (λ r c. 4) s
fill_constant-IsFilled_example = fill_constant-IsFilled 4 two_rows (omega arith) (omega arith)

abbrev values : List ℕ
values = 1 ∷ 2 ∷ 3 ∷ 4 ∷ 5 ∷ 6 ∷ []

-- Four rows, the full set of order 1.
abbrev four_rows : Matrix ℕ
four_rows = record { rows = 4; cols = 1; cell = λ r c. 0 }

fill_sid-inverse_example :
    (ordering : List ℕ) × (sid2acn floor_sqrt 4 ≡ some ordering)
    × (to_acn : Matrix ℕ) × (fill_sid floor_sqrt false four_rows ≡ done to_acn)
    × (to_sid : Matrix ℕ) × (fill_sid floor_sqrt true four_rows ≡ done to_sid)
    × (unit : Matrix ℕ) × (multiply number_sums (some to_acn) (some to_sid) none ≡ done unit)
    × IsFilled 4 4 (λ r c. if c == get_or ordering r 0 then 1 else 0) to_acn
    × IsFilled 4 4 (λ r c. if r == get_or ordering c 0 then 1 else 0) to_sid
    × IsFilled 4 4 (λ r c. if r == c then 1 else 0) unit
fill_sid-inverse_example =
    fill_sid-inverse number_sums Exact number_sums-IsExact floor_sqrt floor_sqrt-IsFloorSqrt 1
      four_rows none refl (omega arith) tt tt
