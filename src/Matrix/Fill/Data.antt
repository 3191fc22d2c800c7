-- ===== src/Matrix/Fill/Data.antt =====
-- Filling a matrix from an array of its cells.
use libambix.Base.{
  ℕ, suc, ◌+◌, ◌*◌, ◌≤◌, ◌<◌, ◌≡◌, ap, ap₂, ◌∙◌, arith, List, ◌∷◌, drop, drop_next, length, get_or,
  done, ◌>>=◌, for_loop, for_inv, ℕ_discrete, subst,
}
use libambix.Matrix.{Matrix}
use libambix.Matrix.Writes.{IsFilled, updated, write-done}
use libambix.Matrix.Fill.{fill_next, fill_from}

module _ {A F : Type 0} (convert : A → F) (rows cols : ℕ) (values : List A) (d : A)
    (enough : rows * cols ≤ length values) where
  abbrev value : ℕ → ℕ → F
  value r c = convert (get_or values (r * cols + c) d)

  -- Row `r` is written up to column `k`, all rows above it are, and the rest is left.
  record Upto (r k : ℕ) (s : Matrix F × List A) : Type 0 where
    has_rows : s.0.rows ≡ rows
    has_cols : s.0.cols ≡ cols
    above : (i c : ℕ) → i < r → c < cols → s.0.cell i c ≡ value i c
    here : (c : ℕ) → c < k → s.0.cell r c ≡ value r c
    rest : s.1 ≡ drop (r * cols + k) values

  index_inside : (r k : ℕ) → r < rows → k < cols → r * cols + k < length values
  index_inside r k h j = let low : r * cols + k < rows * cols = grind arith in omega arith

  next_step :
      (r k : ℕ) (s : Matrix F × List A)
      → r < rows
      → k < cols
      → Upto r k s
      → (t : Matrix F × List A) × (fill_next convert r k s ≡ done t) × Upto r (k + 1) t
  unfolding fill_next
  next_step r k (m, xs) h j u =
      let at : ℕ = r * cols + k in
      let inside : at < length values = index_inside r k h j in
      let opened : xs ≡ get_or values at d ∷ drop (suc at) values =
        u.rest ∙ drop_next at values d inside in
      (
        (updated m r k (value r k), drop (suc at) values),
        rw opened (
            rw (
              write-done m r k (value r k) (omega (arith, u.has_rows))
                (omega (arith, u.has_cols)))),
        record {
          has_rows = u.has_rows;
          has_cols = u.has_cols;
          above = λ i c p q. ground (arith, u.above i c p q);
          here = λ c p. ground (arith, u.here c);
          rest = ap (λ n. drop n values) {x = suc at} {y = r * cols + (k + 1)} (omega arith);
        },
      )

  row_done :
      (r : ℕ) (s : Matrix F × List A)
      → Upto r (0 + cols) s
      → (i c : ℕ) → i < r + 1
      → c < cols
      → s.0.cell i c ≡ value i c
  row_done r s u i c h k = elim (ℕ_discrete r i) [
    | yes e ↦ subst (λ j. s.0.cell j c ≡ value j c) e (u.here c (omega arith))
    | no ne ↦ u.above i c (omega arith) k
  ]

  -- From at least `rows * cols` values the loops fill a matrix of that size without a fault: cell (r, c)
  -- is the conversion of value `r * cols + c`.
  pub fill_from-IsFilled :
      (m : Matrix F)
      → m.rows ≡ rows
      → m.cols ≡ cols
      → (s : Matrix F) × (fill_from convert m values ≡ done s)
        × IsFilled rows cols (λ r c. convert (get_or values (r * cols + c) d)) s
  unfolding fill_from
  fill_from-IsFilled m p q =
      let (s, e, u) =
        for_inv (λ r s. Upto r 0 s) (λ r. for_loop cols 0 (fill_next convert r)) rows 0 row
          (m, values)
          (record {
            has_rows = p;
            has_cols = q;
            above = λ i c h. absurd (omega arith);
            here = λ c h. absurd (omega arith);
            rest = ap (λ n. drop n values) {x = 0} {y = 0 * cols + 0} (omega arith);
          }) in
      (
        s.0,
        ap₂
              (λ a b. for_loop a 0 (λ r. for_loop b 0 (fill_next convert r)) (m, values) >>= λ x.
                done x.0)
              p q
            ∙ ap (λ x. x >>= λ y. done y.0) e,
        record {
          has_rows = u.has_rows;
          has_cols = u.has_cols;
          cells = λ r c h. u.above r c (omega arith);
        },
      )
    where
      row :
          (r : ℕ) (s : Matrix F × List A)
          → 0 ≤ r
          → r < 0 + rows
          → Upto r 0 s
          → (t : Matrix F × List A) × (for_loop cols 0 (fill_next convert r) s ≡ done t)
            × Upto (r + 1) 0 t
      row r s lo hi u =
          let (t, e, w) =
            for_inv (Upto r) (fill_next convert r) cols 0
              (λ k x a b. next_step r k x (omega arith) (omega arith)) s u in
          (
            t,
            e,
            record {
              has_rows = w.has_rows;
              has_cols = w.has_cols;
              above = row_done r t w;
              here = λ c h. absurd (omega arith);
              rest =
                  w.rest
                  ∙ ap (λ n. drop n values) {x = r * cols + (0 + cols)} {y = (r + 1) * cols + 0}
                      (omega arith);
            },
          )
