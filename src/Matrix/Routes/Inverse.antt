-- ===== src/Matrix/Routes/Inverse.antt =====
-- A routing matrix permutes the rows of what it is multiplied with, and its transpose undoes it.
use libambix.Base.{
  ℕ, ◌<◌, ◌≡◌, refl, sym, ap, ◌∙◌, arith, ◌==◌, if◌then◌else◌, Option, some, done, subst, List, ℤ,
  pos, Bool, true, false,
}
use libambix.Matrix.{Accumulator, Float, Matrix, multiply}
use libambix.Matrix.Exact.{IsExact, dot-unit_row}
use libambix.Matrix.Products.{multiply-IsFilled, dot_congr}
use libambix.Matrix.Writes.{IsFilled}
use libambix.Matrix.Routes.{router}
use libambix.Matrix.Routes.Laws.{Entries, router-IsFilled, router-swap-IsFilled}

-- `o` lists each channel below `size` once: it stays below `size` and meets no value twice.
pub record IsRoute (size : ℕ) (o : ℕ → ℕ) : Type 0 where
  pub inside : (i : ℕ) → i < size → o i < size
  pub distinct : (i j : ℕ) → i < size → j < size → o i ≡ o j → i ≡ j

module _ {F S : Type 0} ⦃fl : Float F⦄ (acc : Accumulator F F S) (Exact : F → Type 0)
    (laws : IsExact fl acc Exact) (size : ℕ) (o : ℕ → ℕ) (p : Matrix F)
    (routes : IsFilled size size (λ r c. if c == o r then fl.one else fl.zero) p) where
  -- If all entries of a route are below the size, `m` has that many rows, and its cells are exact, the
  -- product of the routing matrix with `m` succeeds and has row `o r` of `m` as its row r.
  pub router-multiply :
      (m : Matrix F) (dest : Option (Matrix F))
      → m.rows ≡ size
      → ((i : ℕ) → i < size → o i < size)
      → ((i c : ℕ) → i < size → c < m.cols → Exact (m.cell i c))
      → (s : Matrix F) × (multiply acc (some p) (some m) dest ≡ done s)
        × IsFilled size m.cols (λ r c. m.cell (o r) c) s
  router-multiply m dest same inside exact =
      let (s, e, u) = multiply-IsFilled acc p m dest (routes.has_cols ∙ sym same) in
      (
        s,
        e,
        record {
          has_rows = u.has_rows ∙ routes.has_rows;
          has_cols = u.has_cols;
          cells = λ r c h k.
              u.cells r c (omega (arith, routes.has_rows)) k
              ∙ dot_congr acc p.cols (p.cell r) _ (λ i. m.cell i c) (λ i. m.cell i c)
                  (λ i q. routes.cells r i h (omega (arith, routes.has_cols))) (λ i q. refl)
              ∙ dot-unit_row fl acc Exact laws (o r) p.cols (λ i. m.cell i c)
                  (omega (arith, inside r h, routes.has_cols))
                  (λ i q. exact i c (omega (arith, routes.has_cols)) k);
        },
      )

  pub router-inverse :
      (q : Matrix F) (dest : Option (Matrix F))
      → IsRoute size o
      → IsFilled size size (λ r c. if r == o c then fl.one else fl.zero) q
      → Exact fl.one
      → Exact fl.zero
      → (s : Matrix F) × (multiply acc (some p) (some q) dest ≡ done s)
        × IsFilled size size (λ r c. if r == c then fl.one else fl.zero) s
  router-inverse q dest route back one_exact zero_exact =
      let (s, e, u) = router-multiply q dest back.has_rows route.inside exact in
      (
        s,
        e,
        record {
          has_rows = u.has_rows;
          has_cols = u.has_cols ∙ back.has_cols;
          cells = λ r c h k.
              u.cells r c h (omega (arith, back.has_cols))
              ∙ back.cells (o r) c (route.inside r h) k
              ∙ ap (λ b. if b then fl.one else fl.zero) (same_test r c h k);
        },
      )
    where
      one_or_zero : (b : Bool) → Exact (if b then fl.one else fl.zero)
      one_or_zero true = one_exact
      one_or_zero false = zero_exact

      exact : (i c : ℕ) → i < size → c < q.cols → Exact (q.cell i c)
      exact i c h k =
          subst Exact (sym (back.cells i c h (omega (arith, back.has_cols))))
            (one_or_zero (i == o c))

      same_test : (r c : ℕ) → r < size → c < size → (o r == o c) ≡ (r == c)
      same_test r c h k = ground (arith, route.distinct r c h k)

module _ {F S : Type 0} ⦃fl : Float F⦄ (acc : Accumulator F F S) (Exact : F → Type 0)
    (laws : IsExact fl acc Exact) where
  -- Routing. If a route lists each channel below its size once, the router makes of it a matrix and, with `swap`,
  -- a second one, without leaving a matrix; the first times a matrix of as many rows with exact cells
  -- is that matrix with its row o r as row r, for the entry o r of the route; and the first times the
  -- second is the identity, if 0 and 1 are exact.
  pub router-restored :
      (route : List ℤ) (size : ℕ) (o : ℕ → ℕ) (org : Option (Matrix F)) (m : Matrix F)
      (dest : Option (Matrix F))
      → Entries route size (λ i. pos (o i))
      → IsRoute size o
      → m.rows ≡ size
      → ((i c : ℕ) → i < size → c < m.cols → Exact (m.cell i c))
      → Exact fl.one
      → Exact fl.zero
      → (p : Matrix F) × (router org route size false ≡ done p)
        × (q : Matrix F) × (router org route size true ≡ done q)
        × ((s : Matrix F) × (multiply acc (some p) (some m) dest ≡ done s)
            × IsFilled size m.cols (λ r c. m.cell (o r) c) s)
        × ((s : Matrix F) × (multiply acc (some p) (some q) dest ≡ done s)
            × IsFilled size size (λ r c. if r == c then fl.one else fl.zero) s)
  router-restored route size o org m dest entries is_route same exact one_exact zero_exact =
      let (p, ep, fp) = router-IsFilled org route size o entries is_route.inside in
      let (q, eq, fq) = router-swap-IsFilled org route size o entries is_route.inside in
      (
        p,
        ep,
        q,
        eq,
        router-multiply acc Exact laws size o p fp m dest same is_route.inside exact,
        router-inverse acc Exact laws size o p fp q dest is_route fq one_exact zero_exact,
      )
