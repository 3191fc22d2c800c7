-- ===== src/Matrix/Cells.antt =====
-- The nested loops over all cells of a matrix, row by row.
use libambix.Base.{ℕ, ◌+◌, ◌≤◌, ◌<◌, ◌≡◌, ap, ◌∙◌, arith, Outcome, done, ◌>>=◌, for_loop, for_inv}
use libambix.Matrix.{Matrix, write, for_cells}
use libambix.Matrix.Writes.{IsFilled, col_writes, row_writes}

module _ {F : Type 0} (rows cols : ℕ) (g : ℕ → ℕ → F) where
  -- The rows below `k` of `s` are written.
  record Upto (k : ℕ) (s : Matrix F) : Type 0 where
    has_rows : s.rows ≡ rows
    has_cols : s.cols ≡ cols
    cells : (r c : ℕ) → r < k → c < cols → s.cell r c ≡ g r c

  -- The columns below `k` of `s` are written.
  record ColsUpto (k : ℕ) (s : Matrix F) : Type 0 where
    has_rows : s.rows ≡ rows
    has_cols : s.cols ≡ cols
    cells : (r c : ℕ) → r < rows → c < k → s.cell r c ≡ g r c

  -- The loops write `g r c` to each cell, and leave a matrix that is filled with it.
  pub for_cells-IsFilled :
      (value : ℕ → ℕ → Outcome F) (m : Matrix F)
      → ((r c : ℕ) → r < rows → c < cols → value r c ≡ done (g r c))
      → m.rows ≡ rows
      → m.cols ≡ cols
      → (s : Matrix F) × (for_cells rows cols value m ≡ done s) × IsFilled rows cols g s
  unfolding for_cells
  for_cells-IsFilled value m values p q =
      let (s, e, u) = for_inv Upto (λ r. for_loop cols 0 (row r)) rows 0 round m begin in
      (
        s,
        e,
        record {
          has_rows = u.has_rows;
          has_cols = u.has_cols;
          cells = λ r c h. u.cells r c (omega arith);
        },
      )
    where
      row : ℕ → ℕ → Matrix F → Outcome (Matrix F)
      row r c s = value r c >>= λ v. write s r c v

      begin : Upto 0 m
      begin = record { has_rows = p; has_cols = q; cells = λ r c h. absurd (omega arith) }

      round :
          (k : ℕ) (s : Matrix F)
          → 0 ≤ k
          → k < 0 + rows
          → Upto k s
          → (s' : Matrix F) × (for_loop cols 0 (row k) s ≡ done s') × Upto (k + 1) s'
      round k s lo hi u =
          let (s', e, w) =
            col_writes cols s (λ c. k) (g k) (row k)
              (λ c t h. ap (λ x. x >>= λ v. write t k c v) (values k c (omega arith) h))
              (λ c h. (omega (arith, u.has_rows), omega (arith, u.has_cols))) in
          (
            s',
            e,
            record {
              has_rows = w.same_rows ∙ u.has_rows;
              has_cols = w.same_cols ∙ u.has_cols;
              cells = λ r c h j. ground (arith, w.at r c, u.cells r c);
            },
          )

  -- The same for loops over the columns that write cell (c, r) in round (r, c).
  pub for_cells-transposed :
      (value : ℕ → ℕ → Outcome F) (m : Matrix F)
      → ((r c : ℕ) → r < cols → c < rows → value r c ≡ done (g c r))
      → m.rows ≡ rows
      → m.cols ≡ cols
      → (s : Matrix F) × (for_loop cols 0
            (λ r. for_loop rows 0 λ c x. value r c >>= λ v. write x c r v)
            m
          ≡ done s)
        × IsFilled rows cols g s
  for_cells-transposed value m values p q =
      let (s, e, u) = for_inv ColsUpto (λ r. for_loop rows 0 (column r)) cols 0 round m begin in
      (
        s,
        e,
        record {
          has_rows = u.has_rows;
          has_cols = u.has_cols;
          cells = λ r c h k. u.cells r c h (omega arith);
        },
      )
    where
      column : ℕ → ℕ → Matrix F → Outcome (Matrix F)
      column r c s = value r c >>= λ v. write s c r v

      begin : ColsUpto 0 m
      begin = record { has_rows = p; has_cols = q; cells = λ r c h k. absurd (omega arith) }

      round :
          (k : ℕ) (s : Matrix F)
          → 0 ≤ k
          → k < 0 + cols
          → ColsUpto k s
          → (s' : Matrix F) × (for_loop rows 0 (column k) s ≡ done s') × ColsUpto (k + 1) s'
      round k s lo hi u =
          let (s', e, w) =
            row_writes rows s (λ r. k) (λ r. g r k) (column k)
              (λ r t h. ap (λ x. x >>= λ v. write t r k v) (values k r (omega arith) h))
              (λ r h. (omega (arith, u.has_rows), omega (arith, u.has_cols))) in
          (
            s',
            e,
            record {
              has_rows = w.same_rows ∙ u.has_rows;
              has_cols = w.same_cols ∙ u.has_cols;
              cells = λ r c h j. ground (arith, w.at r c, u.cells r c);
            },
          )
