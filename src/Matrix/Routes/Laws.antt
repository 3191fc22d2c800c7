-- ===== src/Matrix/Routes/Laws.antt =====
-- What the routing matrices hold.
use libambix.Base.{
  ℕ, ◌+◌, ◌≤◌, ◌<◌, ◌≡◌, refl, ◌∙◌, arith, Bool, true, false, ltb, ◌==◌, ◌||◌, if◌then◌else◌,
  Option, some, List, get_elem?, done, null, fault, ◌>>=◌, access, for_inv, ℤ, pos, le→ltb, lt→ltb,
  is_negative, for_stop,
}
use libambix.Matrix.{Float, Matrix, write, init}
use libambix.Matrix.Writes.{
  IsFilled, updated, write-done, row_writes, col_writes, RowsWritten, ColsWritten,
}
use libambix.Matrix.Routes.{diag, cast_u32, check_route, place_route, router}

-- The first `size` entries of a list are the values of `o`.
abbrev pub Entries : {A : Type 0} → List A → ℕ → (ℕ → A) → Type 0
Entries xs size o = (i : ℕ) → i < size → get_elem? xs i ≡ some (o i)

-- What the check of a route does with a list of entries that are not negative.
module _ (route : List ℤ) (size limit : ℕ) (o : ℕ → ℕ)
    (entries : Entries route size (λ i. pos (o i))) where
  check_step :
      (i : ℕ) (u : Unit {0})
      → i < size
      → (access (get_elem? route i) >>= λ x.
          cast_u32 x >>= λ p. if is_negative x || ltb limit p then null else done u)
        ≡ (if ltb limit (o i) then null else done u)
  check_step i u h = rw (entries i h)

  pub check_route-done : ((i : ℕ) → i < size → o i ≤ limit) → check_route route size limit ≡ done tt
  unfolding check_route
  check_route-done bound =
      (for_inv (λ i u. Unit {0}) _ size 0
        (λ i u lo hi p.
          (u, check_step i u (omega arith) ∙ rw (le→ltb limit (o i) (bound i (omega arith))), tt))
        tt tt).1

  -- An entry above the limit is refused.
  pub check_route-null :
      (j : ℕ)
      → j < size
      → limit < o j
      → ((i : ℕ) → i < j → o i ≤ limit)
      → check_route route size limit ≡ null
  unfolding check_route
  check_route-null j h above bound =
      for_stop (λ i u. Unit {0}) _ null j (λ f. refl)
        (λ u p. check_step j u h ∙ rw (lt→ltb limit (o j) above)) size 0
        (λ i u lo hi p.
          (u, check_step i u (omega arith) ∙ rw (le→ltb limit (o i) (bound i (omega arith))), tt))
        (omega arith) (omega arith) tt tt

module _ {F : Type 0} ⦃fl : Float F⦄ where
  -- From an array of at least `size` values the diagonal matrix is built, whatever matrix is given to
  -- hold it: square, with the values on the diagonal and 0 elsewhere.
  pub diag-IsFilled :
      (orgmatrix : Option (Matrix F)) (diagonal : List F) (size : ℕ) (d : ℕ → F)
      → Entries diagonal size d
      → (m : Matrix F) × (diag orgmatrix diagonal size ≡ done m)
        × IsFilled size size (λ r c. if c == r then d r else fl.zero) m
  unfolding diag init
  diag-IsFilled orgmatrix diagonal size d entries =
      let (m, e, w) =
        row_writes size (init size size) (λ i. i) d
          (λ i s. access (get_elem? diagonal i) >>= λ v. write s i i v) (λ i s h. rw (entries i h))
          (λ i h. (h, h)) in
      (
        m,
        e,
        record {
          has_rows = w.same_rows;
          has_cols = w.same_cols;
          cells = λ r c h k. ground (arith, w.at r c);
        },
      )

  module _ (size : ℕ) (m : Matrix F) (route : List ℤ) (o : ℕ → ℕ)
      (entries : Entries route size (λ i. pos (o i))) where
    pub place_route-rows :
        ((i : ℕ) → i < size → (i < m.rows) × (o i < m.cols))
        → (s : Matrix F) × (place_route route size false m ≡ done s)
          × RowsWritten m o (λ i. fl.one) (0 + size) s
    unfolding place_route
    place_route-rows inside = row_writes size m o (λ i. fl.one) _ (λ i s h. rw (entries i h)) inside

    pub place_route-cols :
        ((i : ℕ) → i < size → (o i < m.rows) × (i < m.cols))
        → (s : Matrix F) × (place_route route size true m ≡ done s)
          × ColsWritten m o (λ i. fl.one) (0 + size) s
    unfolding place_route
    place_route-cols inside = col_writes size m o (λ i. fl.one) _ (λ i s h. rw (entries i h)) inside

  module _ (orgmatrix : Option (Matrix F)) (route : List ℤ) (size : ℕ) (o : ℕ → ℕ)
      (entries : Entries route size (λ i. pos (o i))) where
    -- For a route whose first `size` entries `o i` are all below the size, the router succeeds, and row r
    -- of the square matrix has a 1 in column `o r` and 0 elsewhere.
    pub router-IsFilled :
        ((i : ℕ) → i < size → o i < size)
        → (m : Matrix F) × (router orgmatrix route size false ≡ done m)
          × IsFilled size size (λ r c. if c == o r then fl.one else fl.zero) m
    unfolding router init
    router-IsFilled inside =
        let (m, e, w) =
          place_route-rows size (init size size) route o entries (λ i h. (h, inside i h)) in
        (
          m,
          rw (check_route-done route size size o entries (λ i h. omega (arith, inside i h))) e,
          record {
            has_rows = w.same_rows;
            has_cols = w.same_cols;
            cells = λ r c h k. ground (arith, w.at r c);
          },
        )

    -- With `swap`, under the same condition, column c has a 1 in row `o c` and 0 elsewhere.
    pub router-swap-IsFilled :
        ((i : ℕ) → i < size → o i < size)
        → (m : Matrix F) × (router orgmatrix route size true ≡ done m)
          × IsFilled size size (λ r c. if r == o c then fl.one else fl.zero) m
    unfolding router init
    router-swap-IsFilled inside =
        let (m, e, w) =
          place_route-cols size (init size size) route o entries (λ i h. (inside i h, h)) in
        (
          m,
          rw (check_route-done route size size o entries (λ i h. omega (arith, inside i h))) e,
          record {
            has_rows = w.same_rows;
            has_cols = w.same_cols;
            cells = λ r c h k. ground (arith, w.at r c);
          },
        )

    -- One round of the second loop on a matrix of `size` rows and columns: it returns for an entry
    -- below the size, and writes outside of the data for an entry that equals it.
    place_inside :
        (swap : Bool) (i : ℕ) (s : Matrix F)
        → i < size
        → o i < size
        → (s.rows ≡ size) × (s.cols ≡ size)
        → (t : Matrix F) × ((if swap then write s (o i) i fl.one else write s i (o i) fl.one)
            ≡ done t)
          × ((t.rows ≡ size) × (t.cols ≡ size))
    place_inside true i s h k d =
        (updated s (o i) i fl.one, write-done s (o i) i fl.one (omega arith) (omega arith), d)
    place_inside false i s h k d =
        (updated s i (o i) fl.one, write-done s i (o i) fl.one (omega arith) (omega arith), d)

    place_outside :
        (swap : Bool) (i : ℕ) (s : Matrix F)
        → o i ≡ size
        → (s.rows ≡ size) × (s.cols ≡ size)
        → (if swap then write s (o i) i fl.one else write s i (o i) fl.one) ≡ fault
    unfolding write
    place_outside true i s e d = rw (le→ltb (o i) s.rows (omega arith))
    place_outside false i s e d = ground (arith, le→ltb (o i) s.cols)

    -- If some entry equals the size, those before it are below and those after it not above, then
    -- the check lets the route pass, and a cell outside of the matrix is written.
    pub router_overrun :
        (j : ℕ) (swap : Bool)
        → j < size
        → o j ≡ size
        → ((i : ℕ) → i < size → o i ≤ size)
        → ((i : ℕ) → i < j → o i < size)
        → router orgmatrix route size swap ≡ fault
    unfolding router place_route init
    router_overrun j swap h e bound before = rw (check_route-done route size size o entries bound) (
        for_stop (λ i s. (s.rows ≡ size) × (s.cols ≡ size)) _ fault j (λ f. refl)
          (λ s d. rw (entries j h) (place_outside swap j s e d)) size 0
          (λ i s lo hi d.
            rw (entries i (omega arith)) (place_inside swap i s (omega arith) (before i hi) d))
          (omega arith) (omega arith) (init size size) (refl, refl))
