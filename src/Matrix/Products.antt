-- ===== src/Matrix/Products.antt =====
-- `_ambix_matrix_multiply`: the result, cell by cell.
use libambix.Base.{
  ℕ, zero, suc, ◌+◌, ◌<◌, ◌≡◌, ◌≢◌, ◌↔◌, refl, ap, ◌∙◌, arith, Option, some, Outcome, done, null,
  ◌>>=◌, for_inv, ◌==◌, true,
}
use libambix.Matrix.{Accumulator, Float, Matrix, read, sized, sum_loop, multiply}
use libambix.Matrix.Writes.{IsFilled, read-done}
use libambix.Matrix.Cells.{for_cells-IsFilled}
use libambix.Matrix.Copies.{sized_size}

module _ {F T S : Type 0} (acc : Accumulator F T S) where
  -- The sum of the first `n` products, in the order of the loop.
  abbrev pub partial_sum : ℕ → (ℕ → F) → (ℕ → T) → S
  partial_sum zero l r = acc.start
  partial_sum (suc n) l r = acc.step (partial_sum n l r) (l n) (r n)

  abbrev pub dot : ℕ → (ℕ → F) → (ℕ → T) → T
  dot n l r = acc.finish (partial_sum n l r)

  partial_sum_congr :
      (n : ℕ) (l l' : ℕ → F) (r r' : ℕ → T)
      → ((i : ℕ) → i < n → l i ≡ l' i)
      → ((i : ℕ) → i < n → r i ≡ r' i)
      → partial_sum n l r ≡ partial_sum n l' r'
  partial_sum_congr zero l l' r r' hl hr = refl
  partial_sum_congr (suc n) l l' r r' hl hr = cc (
    partial_sum_congr n l l' r r' (λ i h. hl i (omega arith)) (λ i h. hr i (omega arith)),
    hl n (omega arith),
    hr n (omega arith),
  )

  -- A sum of products depends on the factors that it reads alone.
  pub dot_congr :
      (n : ℕ) (l l' : ℕ → F) (r r' : ℕ → T)
      → ((i : ℕ) → i < n → l i ≡ l' i)
      → ((i : ℕ) → i < n → r i ≡ r' i)
      → dot n l r ≡ dot n l' r'
  dot_congr n l l' r r' hl hr = ap acc.finish (partial_sum_congr n l l' r r' hl hr)

  pub sum_loop-dot :
      (n : ℕ) (left : ℕ → Outcome F) (right : ℕ → Outcome T) (l : ℕ → F) (r : ℕ → T)
      → ((i : ℕ) → i < n → left i ≡ done (l i))
      → ((i : ℕ) → i < n → right i ≡ done (r i))
      → sum_loop acc n left right ≡ done (dot n l r)
  unfolding sum_loop
  sum_loop-dot n left right l r hl hr =
      let (s, e, q) =
        for_inv (λ k t. t ≡ partial_sum k l r)
          (λ i s. left i >>= λ x. right i >>= λ y. done (acc.step s x y)) n 0
          (λ k t lo hi p. (
            acc.step t (l k) (r k),
            rw (hl k (omega arith), hr k (omega arith)),
            ap (λ s. acc.step s (l k) (r k)) p
                ∙ ap (λ j. partial_sum j l r) {x = suc k} (omega arith),
          ))
          acc.start refl in
      rw (e, q) (ap (λ j. done (dot j l r)) {x = 0 + n} (omega arith))

module _ {F S : Type 0} ⦃fl : Float F⦄ (acc : Accumulator F F S) where
  -- If the inner sizes agree then the product succeeds whatever the destination is, has the rows
  -- of the left and the columns of the right factor, and each cell is the sum of products of its
  -- row and its column, in the order of the loop.
  pub multiply-IsFilled :
      (left right : Matrix F) (dest : Option (Matrix F))
      → left.cols ≡ right.rows
      → (m : Matrix F) × (multiply acc (some left) (some right) dest ≡ done m)
        × IsFilled left.rows right.cols
            (λ r c. dot acc left.cols (left.cell r) (λ i. right.cell i c))
            m
  unfolding multiply
  multiply-IsFilled left right dest same = rw (same_test) (
      for_cells-IsFilled left.rows right.cols
        (λ r c. dot acc left.cols (left.cell r) (λ i. right.cell i c))
        (λ r c. sum_loop acc left.cols (read left r) (λ i. read right i c))
        (sized left.rows right.cols dest)
        (λ r c h k.
          sum_loop-dot acc left.cols (read left r) (λ i. read right i c) (left.cell r)
            (λ i. right.cell i c) (λ i p. read-done left r i h p)
            (λ i p. read-done right i c (omega (arith, same)) k))
        (sized_size left.rows right.cols dest).0 (sized_size left.rows right.cols dest).1)
    where
      same_test : (left.cols == right.rows) ≡ true
      same_test = ground arith

  -- The product of two matrices is refused with NULL exactly if the inner sizes differ.
  pub multiply-null_iff :
      (left right : Matrix F) (dest : Option (Matrix F))
      → (multiply acc (some left) (some right) dest ≡ null) ↔ (left.cols ≢ right.rows)
  multiply-null_iff left right dest = (to, from)
    where
      to : multiply acc (some left) (some right) dest ≡ null → left.cols ≢ right.rows
      to e same = let (m, f, _) = multiply-IsFilled left right dest same in cc

      from : left.cols ≢ right.rows → multiply acc (some left) (some right) dest ≡ null
      from ne = unfold multiply in ground arith
