-- ===== src/Matrix/Exact.antt =====
-- Sums in which one factor is 1 and all others are 0. The two laws hold of IEEE arithmetic for the
-- values that `Exact` admits: finite ones, and for integers those that fit the mantissa, up to the
-- sign of zero.
use libambix.Base.{ℕ, zero, suc, ◌<◌, ◌≡◌, ap, ◌∙◌, arith, ◌==◌, if◌then◌else◌, ltb}
use libambix.Matrix.{Accumulator, Float}
use libambix.Matrix.Products.{partial_sum, dot}

pub record IsExact {F T S : Type 0} (fl : Float F) (acc : Accumulator F T S) (Exact : T → Type 0)
    : Type 0 where
  -- Adding 0 times a sample changes no sum.
  pub skip : (s : S) (x : T) → Exact x → acc.step s fl.zero x ≡ s
  -- A sum of 1 times a sample alone is the sample.
  pub take : (x : T) → Exact x → acc.finish (acc.step acc.start fl.one x) ≡ x

module _ {F T S : Type 0} (fl : Float F) (acc : Accumulator F T S) (Exact : T → Type 0)
    (laws : IsExact fl acc Exact) where
  abbrev unit_row : ℕ → ℕ → F
  unit_row k i = if i == k then fl.one else fl.zero

  partial_sum-unit_row :
      (k n : ℕ) (r : ℕ → T)
      → ((i : ℕ) → i < n → Exact (r i))
      → partial_sum acc n (unit_row k) r
        ≡ (if ltb k n then acc.step acc.start fl.one (r k) else acc.start)
  partial_sum-unit_row k zero r exact = ground arith
  partial_sum-unit_row k (suc n) r exact = ground (
    arith,
    partial_sum-unit_row k n r (λ i h. exact i (omega arith)),
    laws.skip (partial_sum acc n (unit_row k) r) (r n) (exact n (omega arith)),
  )

  -- The product of row k of an identity with a column is entry k of the column.
  pub dot-unit_row :
      (k n : ℕ) (r : ℕ → T)
      → k < n
      → ((i : ℕ) → i < n → Exact (r i))
      → dot acc n (unit_row k) r ≡ r k
  dot-unit_row k n r h exact =
      ap acc.finish (partial_sum-unit_row k n r exact ∙ ground arith) ∙ laws.take (r k) (exact k h)
