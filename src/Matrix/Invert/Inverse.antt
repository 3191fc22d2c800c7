-- ===== src/Matrix/Invert/Inverse.antt =====
-- Without roundings the Gauss-Jordan elimination of libambix/src/matrix_invert.c finds the inverse.
use libambix.Base.{
  ℕ, zero, suc, ◌+◌, ◌^◌, ◌<◌, ◌≡◌, ◌≢◌, refl, sym, subst, ap, ap₂, ◌∙◌, arith, ltb, lt→ltb, ◌==◌,
  Bool, true, false, if◌then◌else◌, Option, none, some, done, null, for_loop, for_inv, Bool-cases,
  inl, inr, ◌⊎◌, ℕ_discrete,
}
use libambix.Matrix.{Float, Matrix, init, multiply}
use libambix.Matrix.Writes.{IsFilled}
use libambix.Matrix.Fill.Laws.{fill_identity-IsFilled, int_rounds-small}
use libambix.Matrix.Exact.{dot-unit_row}
use libambix.Matrix.Products.{dot, dot_congr, multiply-IsFilled}
use libambix.Matrix.Invert.{Arithmetic, pivot, invert_gaussjordan}
use libambix.Matrix.Invert.Loops.{
  Are, scaled, eliminated, congr-IsFilled, read-IsFilled, normalize_row-Are, eliminate-Are,
}
use libambix.Matrix.Invert.Algebra.{
  IsField, field_sums, Any, field_sums-IsExact, zero_mul, partial_sum-scale, partial_sum-combine,
}

module _ {F : Type 0} ⦃fl : Float F⦄ (ar : Arithmetic F) (eps : F) (laws : IsField fl ar eps)
    (n : ℕ) (input : ℕ → ℕ → F) where
  abbrev pub unit : ℕ → ℕ → F
  unit r c = if r == c then fl.one else fl.zero

  -- Row `r` of `h` times column `c` of the input.
  abbrev pub product : (h : ℕ → ℕ → F) → ℕ → ℕ → F
  product h r c = dot (field_sums fl ar) n (h r) (λ i. input i c)

  -- The one matrix is the other times the input, and its columns below `k` are those of the identity.
  abbrev pub Solved : (k : ℕ) (g h : ℕ → ℕ → F) → Type 0
  Solved k g h =
      ((r c : ℕ) → r < n → c < n → g r c ≡ product h r c)
      × ((r c : ℕ) → r < n → c < k → g r c ≡ unit r c)

  -- The cells of `w` after a round that takes `g k k` away from the other rows.
  abbrev swept : (k : ℕ) (d : F) (g w : ℕ → ℕ → F) → ℕ → ℕ → F
  swept k d g w r c =
      if r == k
      then ar.mul (w r c) d
      else ar.add (w r c) (ar.mul (ar.neg (g r k)) (ar.mul (w k c) d))

  eliminated-swept :
      (k : ℕ) (d : F) (g w : ℕ → ℕ → F) (r c : ℕ)
      → k < n
      → r < n
      → c < n
      → eliminated ar n k n (scaled ar n k n d g) (scaled ar n k n d w) r c ≡ swept k d g w r c
  eliminated-swept k d g w r c hk hr hc = ground arith

  module _ (k : ℕ) (d : F) (g : ℕ → ℕ → F) where
    swept_row : (w : ℕ → ℕ → F) (r c : ℕ) → (r == k) ≡ true → swept k d g w r c ≡ ar.mul (w r c) d
    swept_row w r c e = rw e

    swept_other :
        (w : ℕ → ℕ → F) (r c : ℕ)
        → (r == k) ≡ false
        → swept k d g w r c ≡ ar.add (w r c) (ar.mul (ar.neg (g r k)) (ar.mul (w k c) d))
    swept_other w r c e = rw e

    product_row :
        (h : ℕ → ℕ → F) (r c : ℕ)
        → (r == k) ≡ true
        → product (swept k d g h) r c ≡ ar.mul (product h r c) d
    product_row h r c e =
        dot_congr (field_sums fl ar) n (swept k d g h r) (λ i. ar.mul (h r i) d) (λ i. input i c)
          (λ i. input i c) (λ i lt. swept_row h r i e) (λ i lt. refl)
        ∙ partial_sum-scale fl ar eps laws n (h r) (λ i. input i c) d

    product_other :
        (h : ℕ → ℕ → F) (r c : ℕ)
        → (r == k) ≡ false
        → product (swept k d g h) r c
          ≡ ar.add (product h r c) (ar.mul (ar.neg (g r k)) (ar.mul (product h k c) d))
    product_other h r c e =
        dot_congr (field_sums fl ar) n (swept k d g h r)
          (λ i. ar.add (h r i) (ar.mul (ar.neg (g r k)) (ar.mul (h k i) d))) (λ i. input i c)
          (λ i. input i c) (λ i lt. swept_other h r i e) (λ i lt. refl)
        ∙ partial_sum-combine fl ar eps laws n (h r) (λ i. ar.mul (h k i) d) (λ i. input i c)
            (ar.neg (g r k))
        ∙ ap (λ p. ar.add (product h r c) (ar.mul (ar.neg (g r k)) p))
            (partial_sum-scale fl ar eps laws n (h k) (λ i. input i c) d)

  cleared : (x y : F) → y ≡ fl.one → ar.add x (ar.mul (ar.neg x) y) ≡ fl.zero
  cleared x y e =
      ap (λ z. ar.add x (ar.mul (ar.neg x) z)) e
      ∙ ap (ar.add x) (laws.mul_one (ar.neg x))
      ∙ laws.add_neg x

  kept : (x f y : F) → y ≡ fl.zero → ar.add x (ar.mul f y) ≡ x
  kept x f y e =
      ap (λ z. ar.add x (ar.mul f z)) e ∙ ap (ar.add x) (laws.mul_zero f) ∙ laws.add_zero x

  unit_same : (r c k : ℕ) → r ≡ k → c ≡ k → unit r c ≡ fl.one
  unit_same r c k p q = ground arith

  unit_other : (r c : ℕ) → r ≢ c → unit r c ≡ fl.zero
  unit_other r c ne = ground arith

  module _ (k : ℕ) (g h : ℕ → ℕ → F) (hk : k < n) (large : ar.within eps (g k k) ≡ false)
      (solved : Solved k g h) where
    abbrev d : F
    d = ar.recip (g k k)

    swept-product : (r c : ℕ) → r < n → c < n → swept k d g g r c ≡ product (swept k d g h) r c
    swept-product r c hr hc = elim (Bool-cases (r == k)) [
      | inl e ↦
          swept_row k d g g r c e
          ∙ ap (λ x. ar.mul x d) (solved.0 r c hr hc)
          ∙ sym (product_row k d g h r c e)
      | inr e ↦
          swept_other k d g g r c e
          ∙ ap₂ (λ x y. ar.add x (ar.mul (ar.neg (g r k)) (ar.mul y d))) (solved.0 r c hr hc)
              (solved.0 k c hk hc)
          ∙ sym (product_other k d g h r c e)
    ]

    -- Column `k`, and the columns below it.
    swept_pivot : (r c : ℕ) → r < n → c ≡ k → swept k d g g r c ≡ unit r c
    swept_pivot r c hr ec = elim (ℕ_discrete r k) [
      | yes er ↦
          swept_row k d g g r c (ground arith)
          ∙ ap (λ x. ar.mul x d) (ap₂ g er ec)
          ∙ laws.mul_recip (g k k) large
          ∙ sym (unit_same r c k er ec)
      | no ne ↦
          swept_other k d g g r c (ground arith)
          ∙ ap (λ j. ar.add (g r j) (ar.mul (ar.neg (g r k)) (ar.mul (g k j) d))) ec
          ∙ cleared (g r k) (ar.mul (g k k) d) (laws.mul_recip (g k k) large)
          ∙ sym (unit_other r c (λ e. ne (e ∙ ec)))
    ]

    swept_below : (r c : ℕ) → r < n → c < k → swept k d g g r c ≡ unit r c
    swept_below r c hr lt = elim (ℕ_discrete r k) [
      | yes er ↦
          swept_row k d g g r c (ground arith)
          ∙ ap (λ x. ar.mul x d) (solved.1 r c hr lt ∙ unit_other r c (omega arith))
          ∙ zero_mul fl ar eps laws d
          ∙ sym (unit_other r c (omega arith))
      | no ne ↦
          swept_other k d g g r c (ground arith)
          ∙ kept (g r c) (ar.neg (g r k)) (ar.mul (g k c) d) (
              ap (λ x. ar.mul x d) (solved.1 k c hk lt ∙ unit_other k c (omega arith))
              ∙ zero_mul fl ar eps laws d)
          ∙ solved.1 r c hr lt
    ]

    swept-Solved : Solved (k + 1) (swept k d g g) (swept k d g h)
    swept-Solved = (
      swept-product,
      (λ r c hr lt. elim (ℕ_discrete c k) [
        | yes e ↦ swept_pivot r c hr e
        | no ne ↦ swept_below r c hr (omega arith)
      ]),
    )

  -- The cells after the first rounds of an elimination without exchange: round `k` makes column k that of the
  -- identity by the row operations on its diagonal cell.
  abbrev pub reduced : (rounds : ℕ) → ℕ → ℕ → F
  reduced zero = input
  reduced (suc k) = swept k (ar.recip (reduced k k k)) (reduced k) (reduced k)

  -- The diagonal cells of the first rounds are not within `eps` of 0.
  abbrev pub Proceeds : ℕ → Type 0
  Proceeds k = (i : ℕ) → i < k → ar.within eps (reduced i i i) ≡ false

  -- The first round whose diagonal cell is within `eps` of 0.
  abbrev pub IsStuck : Type 0
  IsStuck = (j : ℕ) × (j < n) × Proceeds j × (ar.within eps (reduced j j j) ≡ true)

  -- What is known before round `k` without errors.
  abbrev Clean : (k : ℕ) (g h : ℕ → ℕ → F) → Type 0
  Clean k g h = Solved k g h × (g ≡ reduced k) × Proceeds k

  -- Before round `k`: matrices of the size, and what `Solved` says, or an error at a stage that was stuck.
  abbrev Inv : (k : ℕ) → ℕ × Matrix F × Matrix F → Type 0
  Inv k (errors, original, inverted) =
      (g h : ℕ → ℕ → F) × Are n g h (original, inverted)
      × (errors ≡ 0 → Clean k g h)
      × (0 < errors → IsStuck)

  pivot-Are :
      (k errors : ℕ) (s : Matrix F × Matrix F) (g h : ℕ → ℕ → F) (small : Bool)
      → ar.within eps (g k k) ≡ small
      → k < n
      → Are n g h s
      → let d = if small then fl.zero else ar.recip (g k k) in
        (t : Matrix F × Matrix F) × (pivot ar eps n k (errors, s.0, s.1)
          ≡ done (if small then suc errors else errors, t.0, t.1))
        × Are n (swept k d g g) (swept k d g h) t
  unfolding pivot
  pivot-Are k errors s g h small e hk (p, q) =
      let d : F = if small then fl.zero else ar.recip (g k k) in
      let (u, f, are) = normalize_row-Are ar n k d g h s hk (p, q) in
      let (v, f', (p', q')) =
        eliminate-Are ar n k (scaled ar n k n d g) (scaled ar n k n d h) u hk are in
      (
        v,
        rw (read-IsFilled ar n s.0 g k k hk hk p) (rw e (rw f (rw f' refl))),
        (
          congr-IsFilled ar n v.0 _ _ (λ r c hr hc. eliminated-swept k d g g r c hk hr hc) p',
          congr-IsFilled ar n v.1 _ _ (λ r c hr hc. eliminated-swept k d g h r c hk hr hc) q',
        ),
      )

  first_stuck :
      (errors k : ℕ) (g h : ℕ → ℕ → F)
      → k < n
      → (errors ≡ 0 → Clean k g h)
      → (0 < errors → IsStuck)
      → ar.within eps (g k k) ≡ true
      → IsStuck
  first_stuck zero k g h hk clean stuck small =
      let (solved, same, before) = clean refl in
      (k, hk, before, ap (λ f. ar.within eps (f k k)) (sym same) ∙ small)
  first_stuck (suc errors) k g h hk clean stuck small = stuck (omega arith)

  -- A round without an error.
  swept-Clean :
      (k : ℕ) (g h : ℕ → ℕ → F)
      → k < n
      → ar.within eps (g k k) ≡ false
      → Clean k g h
      → Clean (k + 1) (swept k (ar.recip (g k k)) g g) (swept k (ar.recip (g k k)) g h)
  swept-Clean k g h hk large (solved, same, before) =
      let next : suc k ≡ k + 1 = omega arith in
      (
        swept-Solved k g h hk large solved,
        ap (λ f. swept k (ar.recip (f k k)) f f) same ∙ ap reduced next,
        λ i lt. elim (ℕ_discrete i k) [
          | yes e ↦
              ap (λ j. ar.within eps (reduced j j j)) e
              ∙ ap (λ f. ar.within eps (f k k)) (sym same)
              ∙ large
          | no ne ↦ before i (omega (arith, lt, ne))
        ],
      )

  pivot-Inv :
      (k : ℕ) (s : ℕ × Matrix F × Matrix F)
      → k < n
      → Inv k s
      → (t : ℕ × Matrix F × Matrix F) × (pivot ar eps n k s ≡ done t) × Inv (k + 1) t
  pivot-Inv k (errors, original, inverted) hk (g, h, are, solved, stuck) =
      elim (Bool-cases (ar.within eps (g k k))) [
        | inl small ↦
            let (t, e, after) = pivot-Are k errors (original, inverted) g h true small hk are in
            (
              (suc errors, t.0, t.1),
              e,
              (
                _,
                _,
                after,
                (λ no. absurd (omega arith)),
                (λ _. first_stuck errors k g h hk solved stuck small),
              ),
            )
        | inr large ↦
            let (t, e, after) = pivot-Are k errors (original, inverted) g h false large hk are in
            (
              (errors, t.0, t.1),
              e,
              (_, _, after, (λ no. swept-Clean k g h hk large (solved no)), stuck),
            )
      ]

  begin-Solved : Solved 0 input unit
  begin-Solved = (
    (λ r c hr hc. sym (
        dot_congr (field_sums fl ar) n (unit r) (λ i. if i == r then fl.one else fl.zero)
          (λ i. input i c) (λ i. input i c) (λ i lt. ground arith) (λ i lt. refl)
        ∙ dot-unit_row fl (field_sums fl ar) Any (field_sums-IsExact fl ar eps laws) r n
            (λ i. input i c) hr (λ i lt. tt))),
    (λ r c hr lt. absurd (omega arith)),
  )

  loop-Inv :
      (m start : Matrix F)
      → Are n input unit (m, start)
      → (t : ℕ × Matrix F × Matrix F) × (for_loop n 0 (pivot ar eps n) (0, m, start) ≡ done t)
        × Inv n t
  loop-Inv m start are =
      let (t, e, f) =
        for_inv Inv (pivot ar eps n) n 0 (λ k s lo hi h. pivot-Inv k s (omega arith) h)
          (0, m, start)
          (
            input,
            unit,
            are,
            (λ no. (begin-Solved, refl, (λ i lt. absurd (omega (arith, lt))))),
            (λ over. absurd (omega arith)),
          ) in
      (t, e, subst (λ j. Inv j t) {x = 0 + n} {y = n} (omega arith) f)

  -- The identity, if there were no errors.
  solved-inverse :
      (m : Matrix F) (t : ℕ × Matrix F × Matrix F)
      → IsFilled n n input m
      → Inv n t
      → t.0 ≡ 0
      → (p : Matrix F) × (multiply (field_sums fl ar) (some t.2) (some m) none ≡ done p)
        × IsFilled n n unit p
  solved-inverse m t filled (g, h, (p, q), solved, stuck) none_small =
      let ((times, units), _, _) = solved none_small in
      let (x, e, f) =
        multiply-IsFilled (field_sums fl ar) t.2 m none
          (omega (arith, q.has_cols, filled.has_rows)) in
      (
        x,
        e,
        record {
          has_rows = f.has_rows ∙ q.has_rows;
          has_cols = f.has_cols ∙ filled.has_cols;
          cells = λ r c hr hc.
              f.cells r c (omega (arith, hr, q.has_rows)) (omega (arith, hc, filled.has_cols))
              ∙ ap (λ j. dot (field_sums fl ar) j (t.2.cell r) (λ i. m.cell i c)) q.has_cols
              ∙ dot_congr (field_sums fl ar) n (t.2.cell r) (h r) (λ i. m.cell i c) (λ i. input i c)
                  (λ i lt. q.cells r i hr lt) (λ i lt. filled.cells i c lt hc)
              ∙ sym (times r c hr hc)
              ∙ units r c hr hc;
        },
      )

square_test : {F : Type 0} (m : Matrix F) → m.cols ≡ m.rows → (m.cols == m.rows) ≡ true
square_test m square = ground arith

module _ {F : Type 0} ⦃fl : Float F⦄ (ar : Arithmetic F) (eps : F) (laws : IsField fl ar eps) where
  -- A destination of the size of the input, or none.
  abbrev pub HasSize : ℕ → Option (Matrix F) → Type 0
  HasSize n none = Unit
  HasSize n (some m) = (m.rows ≡ n) × (m.cols ≡ n)

  abbrev destination : Matrix F → Option (Matrix F) → Matrix F
  destination m dest = elim dest [ none ↦ init m.rows m.cols | some d ↦ d ]

  destination_size :
      (m : Matrix F) (dest : Option (Matrix F))
      → m.cols ≡ m.rows
      → HasSize m.rows dest
      → ((destination m dest).rows ≡ m.rows) × ((destination m dest).cols ≡ m.rows)
  unfolding init
  destination_size m none square size = (refl, square)
  destination_size m (some d) square size = size

  pub invert_gaussjordan-inverse :
      (m : Matrix F) (dest : Option (Matrix F))
      → m.cols ≡ m.rows
      → m.rows < 2 ^ 31
      → HasSize m.rows dest
      → ((invert_gaussjordan ar (some m) dest eps ≡ null) × IsStuck ar eps laws m.rows m.cell)
        ⊎ (Proceeds ar eps laws m.rows m.cell m.rows
            × (inverse : Matrix F) × (invert_gaussjordan ar (some m) dest eps ≡ done inverse)
            × (p : Matrix F) × (multiply (field_sums fl ar) (some inverse) (some m) none ≡ done p)
            × IsFilled m.rows m.rows (λ r c. if r == c then fl.one else fl.zero) p)
  unfolding invert_gaussjordan
  invert_gaussjordan-inverse m dest square small size =
      let (rows, cols) = destination_size m dest square size in
      let (start, e, f) =
        fill_identity-IsFilled (destination m dest) (omega (arith, rows, small))
          (omega (arith, cols, small)) in
      let filled : IsFilled m.rows m.rows m.cell m = record {
        has_rows = refl;
        has_cols = square;
        cells = λ r c hr hc. refl;
      } in
      let begin : IsFilled m.rows m.rows (λ r c. if r == c then fl.one else fl.zero) start =
        record {
          has_rows = f.has_rows ∙ rows;
          has_cols = f.has_cols ∙ cols;
          cells = λ r c hr hc. f.cells r c (omega (arith, hr, rows)) (omega (arith, hc, cols));
        } in
      let (t, e', inv) = loop-Inv ar eps laws m.rows m.cell m start (filled, begin) in
      let ran : invert_gaussjordan ar (some m) dest eps ≡ (if ltb 0 t.0 then null else done t.2) =
        rw (square_test m square, int_rounds-small m.rows small) (rw e (rw e' refl)) in
      elim (ℕ_discrete t.0 0) [
        | yes zero_errors ↦
            let (p, g, h) = solved-inverse ar eps laws m.rows m.cell m t filled inv zero_errors in
            let (reached, after, are, clean, stuck) = inv in
            let (solved, same, proceeds) = clean zero_errors in
            inr (
              proceeds,
              t.2,
              ran ∙ ap (λ k. if ltb 0 k then null else done t.2) zero_errors,
              p,
              g,
              h,
            )
        | no errors ↦
            let (g, h, are, solved, stuck) = inv in
            inl (ran ∙ rw (lt→ltb 0 t.0 (omega (arith, errors))), stuck (omega (arith, errors)))
      ]
