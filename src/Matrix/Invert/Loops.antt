-- ===== src/Matrix/Invert/Loops.antt =====
-- The loops of the Gauss-Jordan elimination, cell by cell.
use libambix.Base.{
  ℕ, zero, suc, ◌+◌, ◌<◌, ◌≤◌, ◌≡◌, ◌≢◌, refl, ap, ◌∙◌, subst, arith, ltb, ◌==◌, ◌&&◌, true, false,
  if◌then◌else◌, done, ◌>>=◌, for_inv, ℕ_discrete, not,
}
use libambix.Matrix.{Float, Matrix, read, write}
use libambix.Matrix.Writes.{IsFilled, read-done, write-done, updated}
use libambix.Matrix.Invert.{Arithmetic, normalize_row, add_row, eliminate}

-- Two square matrices with the cells that are written out.
abbrev pub Are : {F : Type 0} → (n : ℕ) (g h : ℕ → ℕ → F) → Matrix F × Matrix F → Type 0
Are n g h s = IsFilled n n g s.0 × IsFilled n n h s.1

module _ {F : Type 0} ⦃fl : Float F⦄ (ar : Arithmetic F) (n : ℕ) where
  -- Writing one cell of a filled matrix.
  write-IsFilled :
      (m : Matrix F) (g g' : ℕ → ℕ → F) (r c : ℕ) (v : F)
      → r < n
      → c < n
      → IsFilled n n g m
      → ((i j : ℕ) → (if i == r && (j == c) then v else g i j) ≡ g' i j)
      → (write m r c v ≡ done (updated m r c v)) × IsFilled n n g' (updated m r c v)
  write-IsFilled m g g' r c v hr hc f same = (
    write-done m r c v (omega (arith, f.has_rows)) (omega (arith, f.has_cols)),
    record {
      has_rows = f.has_rows;
      has_cols = f.has_cols;
      cells = λ i j hi hj. ground (arith, f.cells i j hi hj, same i j);
    },
  )

  pub read-IsFilled :
      (m : Matrix F) (g : ℕ → ℕ → F) (r c : ℕ)
      → r < n
      → c < n
      → IsFilled n n g m
      → read m r c ≡ done (g r c)
  read-IsFilled m g r c hr hc f =
      read-done m r c (omega (arith, f.has_rows)) (omega (arith, f.has_cols))
      ∙ ap done (f.cells r c hr hc)

  -- Row `k` scaled, in the columns below `j`.
  abbrev pub scaled : (k j : ℕ) (d : F) → (ℕ → ℕ → F) → ℕ → ℕ → F
  scaled k j d g r c = if r == k && ltb c j then ar.mul (g r c) d else g r c

  next_scaled :
      (k i : ℕ) (d : F) (g : ℕ → ℕ → F) (r c : ℕ)
      → (if r == k && (c == i) then ar.mul (scaled k i d g k i) d else scaled k i d g r c)
        ≡ scaled k (i + 1) d g r c
  next_scaled k i d g r c = ground arith

  unscaled :
      (m : Matrix F) (k : ℕ) (d : F) (g : ℕ → ℕ → F)
      → IsFilled n n g m
      → IsFilled n n (scaled k 0 d g) m
  unscaled m k d g f = record {
    has_rows = f.has_rows;
    has_cols = f.has_cols;
    cells = λ r c hr hc. ground (arith, f.cells r c hr hc);
  }

  pub normalize_row-Are :
      (k : ℕ) (d : F) (g h : ℕ → ℕ → F) (s : Matrix F × Matrix F)
      → k < n
      → Are n g h s
      → (t : Matrix F × Matrix F) × (normalize_row ar n k d s ≡ done t)
        × Are n (scaled k n d g) (scaled k n d h) t
  unfolding normalize_row
  normalize_row-Are k d g h s hk (f, f') =
      let (t, e, p) =
        for_inv (λ j t. Are n (scaled k j d g) (scaled k j d h) t) _ n 0
          (λ i t lo hi (p, q).
            let x = scaled k i d g k i in
            let y = scaled k i d h k i in
            let (e, p') =
              write-IsFilled t.0 (scaled k i d g) (scaled k (i + 1) d g) k i (ar.mul x d) hk
                (omega arith) p (λ r c. next_scaled k i d g r c) in
            let (e', q') =
              write-IsFilled t.1 (scaled k i d h) (scaled k (i + 1) d h) k i (ar.mul y d) hk
                (omega arith) q (λ r c. next_scaled k i d h r c) in
            (
              (updated t.0 k i (ar.mul x d), updated t.1 k i (ar.mul y d)),
              rw (read-IsFilled t.0 (scaled k i d g) k i hk (omega arith) p, e)
                  (rw (read-IsFilled t.1 (scaled k i d h) k i hk (omega arith) q, e')),
              (p', q'),
            ))
          s (unscaled s.0 k d g f, unscaled s.1 k d h f') in
      (
        t,
        e,
        subst (λ j. Are n (scaled k j d g) (scaled k j d h) t) {x = 0 + n} {y = n} (omega arith) p,
      )

  -- `f` times row `k`, added to row `i` in the columns below `j`.
  abbrev pub added : (f : F) (i k j : ℕ) → (ℕ → ℕ → F) → ℕ → ℕ → F
  added f i k j g r c = if r == i && ltb c j then ar.add (g r c) (ar.mul f (g k c)) else g r c

  abbrev added_cell : (f : F) (i k j : ℕ) → (ℕ → ℕ → F) → ℕ → ℕ → F
  added_cell f i k j g r c = if r == i && (c == j) then ar.add (g i j) (ar.mul f (g k j)) else g r c

  next_added :
      (f : F) (i k j : ℕ) (g : ℕ → ℕ → F)
      → i ≢ k
      → (r c : ℕ) → added f i k j (added_cell f i k j g) r c ≡ added f i k (suc j) g r c
  next_added f i k j g ne r c = ground arith

  pub congr-IsFilled :
      (m : Matrix F) (g g' : ℕ → ℕ → F)
      → ((r c : ℕ) → r < n → c < n → g r c ≡ g' r c)
      → IsFilled n n g m
      → IsFilled n n g' m
  congr-IsFilled m g g' same f = record {
    has_rows = f.has_rows;
    has_cols = f.has_cols;
    cells = λ r c hr hc. f.cells r c hr hc ∙ same r c hr hc;
  }

  add_row-Are :
      (f : F) (i k j : ℕ) (g h : ℕ → ℕ → F) (s : Matrix F × Matrix F)
      → i < n
      → k < n
      → i ≢ k
      → j ≤ n
      → Are n g h s
      → (t : Matrix F × Matrix F) × (add_row ar f i k j s ≡ done t)
        × Are n (added f i k j g) (added f i k j h) t
  unfolding add_row
  add_row-Are f i k zero g h s hi hk ne hj (p, q) = (
    s,
    refl,
    (
      congr-IsFilled s.0 g _ (λ r c hr hc. ground arith) p,
      congr-IsFilled s.1 h _ (λ r c hr hc. ground arith) q,
    ),
  )
  add_row-Are f i k (suc j) g h s hi hk ne hj (p, q) =
      let (e, p') =
        write-IsFilled s.0 g (added_cell f i k j g) i j (ar.add (g i j) (ar.mul f (g k j))) hi
          (omega arith) p (λ r c. refl) in
      let (e', q') =
        write-IsFilled s.1 h (added_cell f i k j h) i j (ar.add (h i j) (ar.mul f (h k j))) hi
          (omega arith) q (λ r c. refl) in
      let (t, u, (v, w)) =
        add_row-Are f i k j (added_cell f i k j g) (added_cell f i k j h)
          (
            updated s.0 i j (ar.add (g i j) (ar.mul f (g k j))),
            updated s.1 i j (ar.add (h i j) (ar.mul f (h k j))),
          )
          hi hk ne (omega arith) (p', q') in
      (
        t,
        rw
            (
              read-IsFilled s.0 g i j hi (omega arith) p,
              read-IsFilled s.0 g k j hk (omega arith) p,
              e,
            )
            (rw
              (
                read-IsFilled s.1 h i j hi (omega arith) q,
                read-IsFilled s.1 h k j hk (omega arith) q,
                e',
              )
              u),
        (
          congr-IsFilled t.0 _ _ (λ r c hr hc. next_added f i k j g ne r c) v,
          congr-IsFilled t.1 _ _ (λ r c hr hc. next_added f i k j h ne r c) w,
        ),
      )

  -- The rows below `i` but `k`, each with column `k` of `g` times row `k` taken away.
  abbrev pub eliminated : (k i : ℕ) (g w : ℕ → ℕ → F) → ℕ → ℕ → F
  eliminated k i g w r c =
      if not (r == k) && ltb r i then ar.add (w r c) (ar.mul (ar.neg (g r k)) (w k c)) else w r c

  next_eliminated :
      (k i : ℕ) (g w : ℕ → ℕ → F)
      → i ≢ k
      → (r c : ℕ) → c < n
      → added (ar.neg (g i k)) i k n (eliminated k i g w) r c ≡ eliminated k (i + 1) g w r c
  next_eliminated k i g w ne r c hc = ground arith

  skip_eliminated :
      (k i : ℕ) (g w : ℕ → ℕ → F)
      → i ≡ k
      → (r c : ℕ) → eliminated k i g w r c ≡ eliminated k (i + 1) g w r c
  skip_eliminated k i g w e r c = ground arith

  round_Are :
      (k i : ℕ) (g h : ℕ → ℕ → F) (s : Matrix F × Matrix F)
      → k < n
      → i < n
      → Are n (eliminated k i g g) (eliminated k i g h) s
      → (t : Matrix F × Matrix F) × ((if i == k
            then done s
            else (read s.0 i k >>= λ x. add_row ar (ar.neg x) i k n s))
          ≡ done t)
        × Are n (eliminated k (i + 1) g g) (eliminated k (i + 1) g h) t
  round_Are k i g h s hk hi (p, q) = elim (ℕ_discrete i k) [
    | yes e ↦ (
      s,
      rw (same e),
      (
        congr-IsFilled s.0 _ _ (λ r c hr hc. skip_eliminated k i g g e r c) p,
        congr-IsFilled s.1 _ _ (λ r c hr hc. skip_eliminated k i g h e r c) q,
      ),
    )
    | no ne ↦
        let (t, u, (v, w)) =
          add_row-Are (ar.neg (g i k)) i k n (eliminated k i g g) (eliminated k i g h) s hi hk ne
            (omega arith) (p, q) in
        (
          t,
          rw (other ne, read-IsFilled s.0 (eliminated k i g g) i k hi hk p, still) u,
          (
            congr-IsFilled t.0 _ _ (λ r c hr hc. next_eliminated k i g g ne r c hc) v,
            congr-IsFilled t.1 _ _ (λ r c hr hc. next_eliminated k i g h ne r c hc) w,
          ),
        )
  ]
    where
      same : i ≡ k → (i == k) ≡ true
      same e = ground arith

      other : i ≢ k → (i == k) ≡ false
      other ne = ground arith

      still : eliminated k i g g i k ≡ g i k
      still = ground arith

  pub eliminate-Are :
      (k : ℕ) (g h : ℕ → ℕ → F) (s : Matrix F × Matrix F)
      → k < n
      → Are n g h s
      → (t : Matrix F × Matrix F) × (eliminate ar n k s ≡ done t)
        × Are n (eliminated k n g g) (eliminated k n g h) t
  unfolding eliminate
  eliminate-Are k g h s hk (p, q) =
      let (t, e, f) =
        for_inv (λ i t. Are n (eliminated k i g g) (eliminated k i g h) t)
          (λ i s. if i == k then done s else (read s.0 i k >>= λ x. add_row ar (ar.neg x) i k n s))
          n 0 (λ i t lo hi both. round_Are k i g h t hk (omega arith) both) s
          (
            congr-IsFilled s.0 g _ (λ r c hr hc. ground arith) p,
            congr-IsFilled s.1 h _ (λ r c hr hc. ground arith) q,
          ) in
      (
        t,
        e,
        subst (λ j. Are n (eliminated k j g g) (eliminated k j g h) t) {x = 0 + n} {y = n}
            (omega arith) f,
      )
