-- ===== src/Matrix/Invert/Tests.antt =====
-- Inversion over the field of two elements.
use libambix.Base.{
  ℕ, ◌+◌, ◌<◌, ◌≡◌, refl, arith, ltb, ◌==◌, not, Bool, true, false, if◌then◌else◌, none, some,
  Outcome, done, null, ◌⊎◌,
}
use libambix.Matrix.{Accumulator, Float, Matrix, multiply}
use libambix.Matrix.Writes.{IsFilled}
use libambix.Matrix.Tests.{number_float}
use libambix.Uuid.Tests.{unit_float}
use libambix.Matrix.Invert.{Arithmetic, invert_gaussjordan, pinv, pinvert_cholesky}
use libambix.Matrix.Invert.Algebra.{IsField, field_sums}
use libambix.Matrix.Invert.Inverse.{IsStuck, Proceeds, invert_gaussjordan-inverse}

abbrev xor : Bool → Bool → Bool
xor true y = not y
xor false y = y

abbrev both : Bool → Bool → Bool
both true y = y
both false y = false

abbrev two : Arithmetic Bool
two = record { add = xor; mul = both; neg = λ x. x; recip = λ x. x; within = λ eps x. not x }

two-IsField : IsField unit_float two false
two-IsField = record {
  add_assoc = λ x y z. ground arith;
  add_comm = λ x y. ground arith;
  add_zero = λ x. ground arith;
  add_neg = λ x. ground arith;
  mul_assoc = λ x y z. ground arith;
  mul_comm = λ x y. ground arith;
  mul_one = λ x. ground arith;
  mul_zero = λ x. ground arith;
  distrib = λ x y z. ground arith;
  mul_recip = λ x e. ground arith;
}

-- Rows 1 1 and 0 1, which are their own inverse.
abbrev shear : Matrix Bool
shear = record { rows = 2; cols = 2; cell = λ r c. not (ltb c r) }

-- Rows 0 1 and 1 0, which are their own inverse too, and whose first pivot is 0: NULL.
abbrev exchange : Matrix Bool
exchange = record { rows = 2; cols = 2; cell = λ r c. not (r == c) }

invert_gaussjordan-inverse_example :
    ((invert_gaussjordan two (some shear) none false ≡ null)
      × IsStuck two false two-IsField 2 shear.cell)
    ⊎ (Proceeds two false two-IsField 2 shear.cell 2
        × (inverse : Matrix Bool) × (invert_gaussjordan two (some shear) none false ≡ done inverse)
        × (p : Matrix Bool) × (multiply (field_sums unit_float two) (some inverse) (some shear) none
            ≡ done p)
        × IsFilled 2 2 (λ r c. if r == c then true else false) p)
invert_gaussjordan-inverse_example =
    invert_gaussjordan-inverse two false two-IsField shear none refl (omega arith) tt

numbers : Arithmetic ℕ
numbers = record {
  add = ◌+◌;
  mul = λ x y. x;
  neg = λ x. x;
  recip = λ x. x;
  within = λ eps x. false;
}

refused_exchange : invert_gaussjordan two (some exchange) none false ≡ null
unfolding invert_gaussjordan libambix.Matrix.Fuma.fill_identity libambix.Matrix.for_cells
    libambix.Base.for_loop libambix.Matrix.init libambix.Matrix.write libambix.Matrix.Invert.pivot
    libambix.Matrix.read libambix.Matrix.Invert.normalize_row libambix.Matrix.Invert.eliminate
    libambix.Matrix.Invert.add_row
refused_exchange = refl
