-- ===== src/Matrix/Writes.antt =====
-- Loops that write one cell of each row, or of each column.
use libambix.Base.{
  ℕ, ◌+◌, ◌<◌, ◌≡◌, refl, ◌∙◌, arith, ◌&&◌, ltb, ◌==◌, if◌then◌else◌, Outcome, done, for_loop,
  for_inv, lt→ltb,
}
use libambix.Matrix.{Matrix, read, write}

module _ {F : Type 0} where
  -- `m` has the size and the cells that are written out.
  pub record IsFilled (rows cols : ℕ) (g : ℕ → ℕ → F) (m : Matrix F) : Type 0 where
    pub has_rows : m.rows ≡ rows
    pub has_cols : m.cols ≡ cols
    pub cells : (r c : ℕ) → r < rows → c < cols → m.cell r c ≡ g r c

  pub read-done :
      (m : Matrix F) (r c : ℕ) → r < m.rows → c < m.cols → read m r c ≡ done (m.cell r c)
  unfolding read
  read-done m r c h k = ground arith

  abbrev pub updated : Matrix F → ℕ → ℕ → F → Matrix F
  updated m r c v = record m { cell = λ i j. if i == r && (j == c) then v else m.cell i j }

  pub write-done :
      (m : Matrix F) (r c : ℕ) (v : F)
      → r < m.rows
      → c < m.cols
      → write m r c v ≡ done (updated m r c v)
  unfolding write
  write-done m r c v h k = rw (lt→ltb r m.rows h, lt→ltb c m.cols k)

  -- What holds of the matrix `s` after the rows below `k` were written at their column `o`.
  pub record RowsWritten (m : Matrix F) (o : ℕ → ℕ) (v : ℕ → F) (k : ℕ) (s : Matrix F)
      : Type 0 where
    pub same_rows : s.rows ≡ m.rows
    pub same_cols : s.cols ≡ m.cols
    pub at : (r c : ℕ) → s.cell r c ≡ (if ltb r k && (c == o r) then v r else m.cell r c)

  pub record ColsWritten (m : Matrix F) (o : ℕ → ℕ) (v : ℕ → F) (k : ℕ) (s : Matrix F)
      : Type 0 where
    pub same_rows : s.rows ≡ m.rows
    pub same_cols : s.cols ≡ m.cols
    pub at : (r c : ℕ) → s.cell r c ≡ (if ltb c k && (r == o c) then v c else m.cell r c)

  module _ (n : ℕ) (m : Matrix F) (o : ℕ → ℕ) (v : ℕ → F)
      (body : ℕ → Matrix F → Outcome (Matrix F)) where
    pub row_writes :
        ((i : ℕ) (s : Matrix F) → i < n → body i s ≡ write s i (o i) (v i))
        → ((i : ℕ) → i < n → (i < m.rows) × (o i < m.cols))
        → (s : Matrix F) × (for_loop n 0 body m ≡ done s) × RowsWritten m o v (0 + n) s
    row_writes acts inside =
        for_inv (RowsWritten m o v) body n 0
          (λ k s lo hi w. (
            updated s k (o k) (v k),
            acts k s (omega arith)
                ∙ write-done s k (o k) (v k) (omega (arith, inside k (omega arith), w.same_rows))
                    (omega (arith, inside k (omega arith), w.same_cols)),
            record {
              same_rows = w.same_rows;
              same_cols = w.same_cols;
              at = λ r c. ground (arith, w.at r c);
            },
          ))
          m (record { same_rows = refl; same_cols = refl; at = λ r c. ground arith })

    pub col_writes :
        ((i : ℕ) (s : Matrix F) → i < n → body i s ≡ write s (o i) i (v i))
        → ((i : ℕ) → i < n → (o i < m.rows) × (i < m.cols))
        → (s : Matrix F) × (for_loop n 0 body m ≡ done s) × ColsWritten m o v (0 + n) s
    col_writes acts inside =
        for_inv (ColsWritten m o v) body n 0
          (λ k s lo hi w. (
            updated s (o k) k (v k),
            acts k s (omega arith)
                ∙ write-done s (o k) k (v k) (omega (arith, inside k (omega arith), w.same_rows))
                    (omega (arith, inside k (omega arith), w.same_cols)),
            record {
              same_rows = w.same_rows;
              same_cols = w.same_cols;
              at = λ r c. ground (arith, w.at r c);
            },
          ))
          m (record { same_rows = refl; same_cols = refl; at = λ r c. ground arith })
