-- ===== src/Matrix/Invert/Algebra.antt =====
-- Arithmetic without roundings, and sums of products in it.
use libambix.Base.{ℕ, zero, suc, ◌≡◌, sym, ap, ap₂, ◌∙◌, false}
use libambix.Matrix.{Accumulator, Float}
use libambix.Matrix.Exact.{IsExact}
use libambix.Matrix.Products.{partial_sum}
use libambix.Matrix.Invert.{Arithmetic}

-- The laws of a field, with an inverse for the values that are not within `eps` of 0.
pub record IsField {F : Type 0} (fl : Float F) (ar : Arithmetic F) (eps : F) : Type 0 where
  pub add_assoc : (x y z : F) → ar.add (ar.add x y) z ≡ ar.add x (ar.add y z)
  pub add_comm : (x y : F) → ar.add x y ≡ ar.add y x
  pub add_zero : (x : F) → ar.add x fl.zero ≡ x
  pub add_neg : (x : F) → ar.add x (ar.neg x) ≡ fl.zero
  pub mul_assoc : (x y z : F) → ar.mul (ar.mul x y) z ≡ ar.mul x (ar.mul y z)
  pub mul_comm : (x y : F) → ar.mul x y ≡ ar.mul y x
  pub mul_one : (x : F) → ar.mul x fl.one ≡ x
  pub mul_zero : (x : F) → ar.mul x fl.zero ≡ fl.zero
  pub distrib : (x y z : F) → ar.mul x (ar.add y z) ≡ ar.add (ar.mul x y) (ar.mul x z)
  pub mul_recip : (x : F) → ar.within eps x ≡ false → ar.mul x (ar.recip x) ≡ fl.one

-- The sums that `_ambix_matrix_multiply` takes, in that arithmetic.
abbrev pub field_sums : {F : Type 0} → Float F → Arithmetic F → Accumulator F F F
field_sums fl ar = record {
  start = fl.zero;
  step = λ s m x. ar.add s (ar.mul m x);
  finish = λ s. s;
}

abbrev pub Any : {F : Type 0} → F → Type 0
Any x = Unit

module _ {F : Type 0} (fl : Float F) (ar : Arithmetic F) (eps : F) (laws : IsField fl ar eps) where
  pub zero_add : (x : F) → ar.add fl.zero x ≡ x
  zero_add x = laws.add_comm fl.zero x ∙ laws.add_zero x

  pub zero_mul : (x : F) → ar.mul fl.zero x ≡ fl.zero
  zero_mul x = laws.mul_comm fl.zero x ∙ laws.mul_zero x

  pub field_sums-IsExact : IsExact fl (field_sums fl ar) Any
  field_sums-IsExact = record {
    skip = λ s x e. ap (ar.add s) (zero_mul x) ∙ laws.add_zero s;
    take = λ x e. zero_add (ar.mul fl.one x) ∙ (laws.mul_comm fl.one x ∙ laws.mul_one x);
  }

  distrib_right : (x y d : F) → ar.mul (ar.add x y) d ≡ ar.add (ar.mul x d) (ar.mul y d)
  distrib_right x y d =
      laws.mul_comm (ar.add x y) d
      ∙ laws.distrib d x y
      ∙ ap₂ ar.add (laws.mul_comm d x) (laws.mul_comm d y)

  swap_last : (l d r : F) → ar.mul (ar.mul l d) r ≡ ar.mul (ar.mul l r) d
  swap_last l d r =
      laws.mul_assoc l d r ∙ ap (ar.mul l) (laws.mul_comm d r) ∙ sym (laws.mul_assoc l r d)

  interchange : (p x y z : F) → ar.add (ar.add p x) (ar.add y z) ≡ ar.add (ar.add p y) (ar.add x z)
  interchange p x y z =
      laws.add_assoc p x (ar.add y z)
      ∙ ap (ar.add p) (
          sym (laws.add_assoc x y z)
          ∙ ap (λ s. ar.add s z) (laws.add_comm x y)
          ∙ laws.add_assoc y x z)
      ∙ sym (laws.add_assoc p y (ar.add x z))

  -- A common factor of a row.
  pub partial_sum-scale :
      (n : ℕ) (l r : ℕ → F) (d : F)
      → partial_sum (field_sums fl ar) n (λ i. ar.mul (l i) d) r
        ≡ ar.mul (partial_sum (field_sums fl ar) n l r) d
  partial_sum-scale zero l r d = sym (zero_mul d)
  partial_sum-scale (suc n) l r d =
      ap₂ ar.add (partial_sum-scale n l r d) (swap_last (l n) d (r n))
      ∙ sym (distrib_right (partial_sum (field_sums fl ar) n l r) (ar.mul (l n) (r n)) d)

  -- A multiple of one row added to another.
  pub partial_sum-combine :
      (n : ℕ) (l k r : ℕ → F) (f : F)
      → partial_sum (field_sums fl ar) n (λ i. ar.add (l i) (ar.mul f (k i))) r
        ≡ ar.add
            (partial_sum (field_sums fl ar) n l r)
            (ar.mul f (partial_sum (field_sums fl ar) n k r))
  partial_sum-combine zero l k r f = sym (zero_add (ar.mul f fl.zero) ∙ laws.mul_zero f)
  partial_sum-combine (suc n) l k r f =
      let p = partial_sum (field_sums fl ar) n l r in
      let q = partial_sum (field_sums fl ar) n k r in
      ap₂ ar.add (partial_sum-combine n l k r f) (
        distrib_right (l n) (ar.mul f (k n)) (r n)
        ∙ ap (ar.add (ar.mul (l n) (r n))) (laws.mul_assoc f (k n) (r n)))
      ∙ interchange p (ar.mul f q) (ar.mul (l n) (r n)) (ar.mul f (ar.mul (k n) (r n)))
      ∙ ap (ar.add (ar.add p (ar.mul (l n) (r n)))) (sym (laws.distrib f q (ar.mul (k n) (r n))))
