-- ===== src/Adaptor/Routing.antt =====
-- A routing matrix in an adaptor moves channels, and the identity makes it the plain adaptor.
use libambix.Base.{
  ℕ, ◌+◌, ◌-◌, ◌*◌, ◌≤◌, ◌<◌, ◌≡◌, refl, sym, ap, ap₂, ◌∙◌, arith, subst, List, ◌++◌, length,
  get_or, drop, done, ◌==◌, if◌then◌else◌, table, frames_from, table_congr, frames_congr,
}
use libambix.Matrix.{Accumulator, Float, Matrix}
use libambix.Matrix.Writes.{IsFilled}
use libambix.Matrix.Products.{dot, dot_congr}
use libambix.Matrix.Exact.{IsExact, dot-unit_row}
use libambix.Adaptor.{split_adaptor, merge_adaptor, split_adaptor_matrix, merge_adaptor_matrix}
use libambix.Adaptor.Tables.{split_adaptor-table, merge_adaptor-table}
use libambix.Adaptor.Mixed.{mixed, split_adaptor_matrix-table, merge_adaptor_matrix-table}

module _ {F T S : Type 0} ⦃fl : Float F⦄ (acc : Accumulator F T S) (Exact : T → Type 0)
    (laws : IsExact fl acc Exact) (ac : ℕ) (o : ℕ → ℕ) (m : Matrix F)
    (routes : IsFilled ac ac (λ r c. if c == o r then fl.one else fl.zero) m)
    (inside : (r : ℕ) → r < ac → o r < ac) (d : T) where
  mixed-route :
      (source : List T) (src : ℕ)
      → ((i : ℕ) → Exact (get_or source i d))
      → mixed acc m d source src ≡ table ac 0 (λ r. get_or source (src + o r) d)
  mixed-route source src exact =
      ap (λ n. table n 0 (λ r. dot acc m.cols (m.cell r) (λ i. get_or source (src + i) d)))
        routes.has_rows
      ∙ table_congr ac 0 _ _ (λ r lo hi.
        dot_congr acc m.cols (m.cell r) _ _ (λ i. get_or source (src + i) d)
          (λ i q. routes.cells r i (omega arith) (omega (arith, routes.has_cols))) (λ i q. refl)
        ∙ dot-unit_row fl acc Exact laws (o r) m.cols (λ i. get_or source (src + i) d)
            (omega (arith, inside r (omega arith), routes.has_cols)) (λ i q. exact (src + i)))

  -- On a source that has all its frames a splitter with a routing matrix of `ac` channels puts channel `o r` of each frame at place r
  -- and leaves the other channels, if all samples are exact.
  pub split_adaptor_matrix-route :
      (source : List T) (sc frames : ℕ)
      → ac ≤ sc
      → sc * frames ≤ length source
      → ((i : ℕ) → Exact (get_or source i d))
      → split_adaptor_matrix acc source sc m frames
        ≡ done (
          frames_from frames 0 (λ f. table ac 0 (λ r. get_or source (sc * f + o r) d)),
          frames_from frames 0 (λ f. table (sc - ac) ac (λ c. get_or source (sc * f + c) d)),
        )
  split_adaptor_matrix-route source sc frames le h exact =
      split_adaptor_matrix-table acc m d source sc frames (omega (arith, routes.has_cols)) h
      ∙ ap₂ (λ x y. done (x, y))
          (frames_congr frames 0 _ _ (λ f lo hi. mixed-route source (sc * f) exact))
          (ap
            (λ n. frames_from frames 0 (λ f. table (sc - n) n (λ c. get_or source (sc * f + c) d)))
            routes.has_cols)

module _ {F T S : Type 0} ⦃fl : Float F⦄ (acc : Accumulator F T S) (Exact : T → Type 0)
    (laws : IsExact fl acc Exact) (ac : ℕ) (m : Matrix F)
    (unit : IsFilled ac ac (λ r c. if c == r then fl.one else fl.zero) m) (d : T) where
  -- With the identity of `ac` channels, on a source of exact samples that has all its frames, the
  -- splitter with a matrix does what the splitter without one does.
  pub split_adaptor_matrix_unit :
      (source : List T) (sc frames : ℕ)
      → ac ≤ sc
      → sc * frames ≤ length source
      → ((i : ℕ) → Exact (get_or source i d))
      → split_adaptor_matrix acc source sc m frames ≡ split_adaptor source sc ac frames
  split_adaptor_matrix_unit source sc frames le h exact =
      split_adaptor_matrix-route acc Exact laws ac (λ r. r) m unit (λ r q. q) d source sc frames le
        h exact
      ∙ sym (split_adaptor-table source sc ac d le frames 0 (omega arith))
      ∙ ap (λ j. split_adaptor (drop j source) sc ac frames) {x = sc * 0} {y = 0} (omega arith)

  -- With the identity of `ac` channels, on exact samples and sources that have all frames, the merger
  -- with a matrix does what the merger without one does.
  pub merge_adaptor_matrix_unit :
      (ambi other : List T) (oc frames : ℕ)
      → ac * frames ≤ length ambi
      → oc * frames ≤ length other
      → ((i : ℕ) → Exact (get_or ambi i d))
      → merge_adaptor_matrix acc ambi m other oc frames ≡ merge_adaptor ambi ac other oc frames
  merge_adaptor_matrix_unit ambi other oc frames h k exact =
      merge_adaptor_matrix-table acc m d ambi other oc frames
        (subst (λ n. n * frames ≤ length ambi) (sym unit.has_cols) h) k
      ∙ ap done (
          frames_congr frames 0 _
            (λ f.
              table ac 0 (λ c. get_or ambi (ac * f + c) d)
              ++ table oc 0 (λ c. get_or other (oc * f + c) d))
            λ f lo hi.
              ap (λ row. row ++ table oc 0 (λ c. get_or other (oc * f + c) d))
                (ap (λ n. mixed acc m d ambi (n * f)) unit.has_cols
                  ∙ mixed-route acc Exact laws ac (λ r. r) m unit (λ r q. q) d ambi (ac * f) exact))
      ∙ sym (merge_adaptor-table ambi other ac oc d frames 0 (omega arith) (omega arith))
      ∙ ap₂ (λ i j. merge_adaptor (drop i ambi) ac (drop j other) oc frames) {x = ac * 0} {y = 0}
          {u = oc * 0} {v = 0} (omega arith) (omega arith)
