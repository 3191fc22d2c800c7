-- ===== src/Matrix/Fill/Orderings.antt =====
-- The SID matrices: the routing by `_matrix_sid2acn`, and back.
use libambix.Base.{
  ℕ, ◌+◌, ◌*◌, ◌^◌, ◌≤◌, ◌<◌, ◌≡◌, sym, ap, ◌∙◌, arith, Bool, true, false, ltb, ◌==◌, if◌then◌else◌,
  Option, none, some, List, map, length, count, count-pos, count_twice, get_elem?, get_or,
  get_elem?-eq-get_or, get_elem?-map, done, null, pos, dec_lt,
}
use libambix.Channels.{IsFloorSqrt}
use libambix.Sid.{sid2acn}
use libambix.Sid.Laws.{sid2acn_permutes}
use libambix.Matrix.{Accumulator, Float, Matrix, multiply}
use libambix.Matrix.Exact.{IsExact}
use libambix.Matrix.Writes.{IsFilled}
use libambix.Matrix.Routes.{router}
use libambix.Matrix.Routes.Laws.{Entries, router-IsFilled, router-swap-IsFilled}
use libambix.Matrix.Routes.Inverse.{IsRoute, router-inverse}
use libambix.Matrix.Fill.{fill_sid}

module _ (ordering : List ℕ) (size : ℕ) (full : length ordering ≡ size)
    (once : (a : ℕ) → count a ordering ≡ (if ltb a size then 1 else 0)) where
  abbrev pub entry : ℕ → ℕ
  entry i = get_or ordering i 0

  entry_there : (i : ℕ) → i < size → get_elem? ordering i ≡ some (entry i)
  entry_there i h = get_elem?-eq-get_or ordering i 0 (omega arith)

  entries : Entries (map pos ordering) size (λ i. pos (entry i))
  entries i h = get_elem?-map pos ordering i (entry_there i h)

  entry-IsRoute : IsRoute size entry
  entry-IsRoute = record {
    inside = λ i h. ground (arith, count-pos ordering i (entry_there i h), once (entry i));
    distinct = λ i j h k e. elim (dec_lt i j) [
      | yes lt ↦ absurd (twice i j lt h k e)
      | no ge ↦ elim (dec_lt j i) [
        | yes gt ↦ absurd (twice j i gt k h (sym e))
        | no le ↦ omega arith
      ]
    ];
  }
    where
      twice : (i j : ℕ) → i < j → i < size → j < size → entry i ≡ entry j → ⊥
      twice i j lt h k e =
          let two : 2 ≤ count (entry i) ordering =
            count_twice ordering i j lt (entry_there i h) (entry_there j k ∙ ap some (sym e)) in
          ground (arith, once (entry i))

fill_sid-router :
    {F : Type 0} ⦃fl : Float F⦄ (sqrt : ℕ → ℕ) (swap : Bool) (m : Matrix F) (size : ℕ)
    (ordering : List ℕ)
    → m.rows ≡ size
    → sid2acn sqrt size ≡ some ordering
    → fill_sid sqrt swap m ≡ router (some m) (map pos ordering) size swap
unfolding fill_sid
fill_sid-router sqrt swap m size ordering same written =
    ap (λ r. elim (sid2acn sqrt r) [ none ↦ null | some o ↦ router (some m) (map pos o) r swap ])
      same
    ∙ ap (λ l. elim l [ none ↦ null | some o ↦ router (some m) (map pos o) size swap ]) written

module _ {F S : Type 0} ⦃fl : Float F⦄ (acc : Accumulator F F S) (Exact : F → Type 0)
    (laws : IsExact fl acc Exact) (sqrt : ℕ → ℕ) (floor : IsFloorSqrt sqrt) where
  -- For a matrix with `(n + 1) * (n + 1)` rows, at most 2 ^ 24, whatever its columns are: filling it
  -- by SID and by TO_SID succeeds, the first has a 1 in row r exactly in the column that the
  -- ordering of `_matrix_sid2acn` names at r and 0 elsewhere, the second is its transpose, and
  -- their product is the identity, in an arithmetic in which 0 and 1 are exact.
  pub fill_sid-inverse :
      (n : ℕ) (m : Matrix F) (dest : Option (Matrix F))
      → m.rows ≡ (n + 1) * (n + 1)
      → (n + 1) * (n + 1) ≤ 2 ^ 24
      → Exact fl.one
      → Exact fl.zero
      → (ordering : List ℕ) × (sid2acn sqrt ((n + 1) * (n + 1)) ≡ some ordering)
        × (to_acn : Matrix F) × (fill_sid sqrt false m ≡ done to_acn)
        × (to_sid : Matrix F) × (fill_sid sqrt true m ≡ done to_sid)
        × (unit : Matrix F) × (multiply acc (some to_acn) (some to_sid) dest ≡ done unit)
        × IsFilled
            ((n + 1) * (n + 1))
            ((n + 1) * (n + 1))
            (λ r c. if c == get_or ordering r 0 then fl.one else fl.zero)
            to_acn
        × IsFilled
            ((n + 1) * (n + 1))
            ((n + 1) * (n + 1))
            (λ r c. if r == get_or ordering c 0 then fl.one else fl.zero)
            to_sid
        × IsFilled
            ((n + 1) * (n + 1))
            ((n + 1) * (n + 1))
            (λ r c. if r == c then fl.one else fl.zero)
            unit
  fill_sid-inverse n m dest same small one_exact zero_exact =
      let (ordering, written, full, once) = sid2acn_permutes sqrt floor n small in
      let size : ℕ = (n + 1) * (n + 1) in
      let route = entry-IsRoute ordering size full once in
      let (p, ep, fp) =
        router-IsFilled (some m) (map pos ordering) size (entry ordering size full once)
          (entries ordering size full once) route.inside in
      let (q, eq, fq) =
        router-swap-IsFilled (some m) (map pos ordering) size (entry ordering size full once)
          (entries ordering size full once) route.inside in
      let (s, es, fs) =
        router-inverse acc Exact laws size (entry ordering size full once) p fp q dest route fq
          one_exact zero_exact in
      (
        ordering,
        written,
        p,
        fill_sid-router sqrt false m size ordering same written ∙ ep,
        q,
        fill_sid-router sqrt true m size ordering same written ∙ eq,
        s,
        es,
        fp,
        fq,
        fs,
      )
