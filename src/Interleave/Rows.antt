-- ===== src/Interleave/Rows.antt =====
-- Samples by rows, and the two loops that turn them.
use libambix.Base.{
  ℕ, zero, suc, ◌+◌, ◌*◌, ◌<◌, ◌≤◌, ◌≡◌, refl, sym, ap, ap₂, ◌∙◌, arith, List, [], ◌∷◌, ◌++◌,
  length, drop, get_elem?, get_elem?-eq-get_or, Outcome, done, access, collect-table, table,
  length-table, get_or-table, frames_from, get_or-frames_from, length-frames_from,
}
use mathlib.Core.List.{append_assoc}
use native.Mathlib.Nat.{mul_comm}
use libambix.Interleave.{collect_rows, deinterleaver, interleaver}

entry-lt : (rows cols r c : ℕ) → r < rows → c < cols → r * cols + c < rows * cols
entry-lt rows cols r c p q = grind arith

module _ {T : Type 0} where
  collect_rows-frames_from :
      (rows cols from : ℕ) (value : ℕ → ℕ → Outcome T) (g : ℕ → ℕ → T)
      → ((r c : ℕ) → r < from + rows → c < cols → value r c ≡ done (g r c))
      → collect_rows rows cols from value ≡ done (frames_from rows from (λ r. table cols 0 (g r)))
  unfolding collect_rows
  collect_rows-frames_from zero cols from value g same = refl
  collect_rows-frames_from (suc rows) cols from value g same =
      rw
        (
          collect-table cols 0 (value from) (g from)
              (λ c p q. same from c (omega arith) (omega arith)),
          collect_rows-frames_from rows cols (from + 1) value g
              (λ r c p q. same r c (omega arith) q),
        )
        refl

  pub frames_from-add :
      (n k from : ℕ) (row : ℕ → List T)
      → frames_from (n + k) from row ≡ frames_from n from row ++ frames_from k (from + n) row
  frames_from-add zero k from row =
      let e : 0 + k ≡ k = omega arith in
      let f : from ≡ from + 0 = omega arith in ap₂ (λ m i. frames_from m i row) e f
  frames_from-add (suc n) k from row =
      let e : suc n + k ≡ suc (n + k) = omega arith in
      let f : from + 1 + n ≡ from + suc n = omega arith in
      ap (λ m. frames_from m from row) e
      ∙ ap (λ rest. row from ++ rest)
          (frames_from-add n k (from + 1) row
            ∙ ap (λ i. frames_from n (from + 1) row ++ frames_from k i row) f)
      ∙ sym (
          append_assoc (row from) (frames_from n (from + 1) row) (frames_from k (from + suc n) row))

  pub frames_from_shift :
      (n from by : ℕ) (row : ℕ → List T)
      → frames_from n (by + from) row ≡ frames_from n from (λ i. row (by + i))
  frames_from_shift zero from by row = refl
  frames_from_shift (suc n) from by row =
      let e : by + from + 1 ≡ by + (from + 1) = omega arith in
      ap (λ rest. row (by + from) ++ rest)
        (ap (λ f. frames_from n f row) e ∙ frames_from_shift n (from + 1) by row)

  table_shift : (n from by : ℕ) (g : ℕ → T) → table n (by + from) g ≡ table n from (λ i. g (by + i))
  table_shift zero from by g = refl
  table_shift (suc n) from by g =
      let e : by + from + 1 ≡ by + (from + 1) = omega arith in
      ap (λ rest. g (by + from) ∷ rest) (ap (λ f. table n f g) e ∙ table_shift n (from + 1) by g)

  table-add :
      (n k from : ℕ) (g : ℕ → T)
      → table (n + k) from g ≡ table n from g ++ table k 0 (λ c. g (from + n + c))
  table-add zero k from g =
      let e : 0 + k ≡ k = omega arith in
      let f : from ≡ from + 0 + 0 = omega arith in
      ap₂ (λ m i. table m i g) e f ∙ table_shift k 0 (from + 0) g
  table-add (suc n) k from g =
      let e : suc n + k ≡ suc (n + k) = omega arith in
      let f : from + 1 + n ≡ from + suc n = omega arith in
      ap (λ m. table m from g) e
      ∙ ap (λ rest. g from ∷ rest)
          (table-add n k (from + 1) g
            ∙ ap (λ i. table n (from + 1) g ++ table k 0 (λ c. g (i + c))) f)

  pub table_split :
      (n k : ℕ) (g : ℕ → T) → table (n + k) 0 g ≡ table n 0 g ++ table k 0 (λ c. g (n + c))
  table_split n k g =
      let f : 0 + n ≡ n = omega arith in
      table-add n k 0 g ∙ ap (λ i. table n 0 g ++ table k 0 (λ c. g (i + c))) f

  -- An entry of the rows, as the loops reach it.
  access-frames_from :
      (cols rows r c : ℕ) (g : ℕ → ℕ → T)
      → r < rows
      → c < cols
      → access (get_elem? (frames_from rows 0 (λ i. table cols 0 (g i))) (r * cols + c))
        ≡ done (g r c)
  access-frames_from cols rows r c g hr hc =
      let rows_of : ℕ → List T = λ i. table cols 0 (g i) in
      let even : (i : ℕ) → length (rows_of i) ≡ cols = λ i. length-table cols 0 (g i) in
      let inside : r * cols + c < length (frames_from rows 0 rows_of) =
        omega (arith, length-frames_from cols rows 0 rows_of even, entry-lt rows cols r c hr hc) in
      ap access (get_elem?-eq-get_or (frames_from rows 0 rows_of) (r * cols + c) (g r c) inside)
      ∙ ap done (
          get_or-frames_from cols rows 0 r c rows_of (g r c) even hr hc
          ∙ get_or-table cols 0 c (g (0 + r)) (g r c) hc
          ∙ ap₂ g (omega arith) (omega arith))

  -- What `sf_readf_float` gives, by channels.
  pub deinterleaver-frames_from :
      (frames channels : ℕ) (g : ℕ → ℕ → T)
      → deinterleaver (frames_from frames 0 (λ f. table channels 0 (g f))) frames channels
        ≡ done (frames_from channels 0 (λ c. table frames 0 (λ f. g f c)))
  unfolding deinterleaver
  deinterleaver-frames_from frames channels g =
      collect_rows-frames_from channels frames 0 _ (λ c f. g f c)
        (λ c f p q. access-frames_from channels frames f c g q (omega (arith, p)))

  -- The first channels of a buffer, by frames.
  pub interleaver-frames_from :
      (frames channels all : ℕ) (g : ℕ → ℕ → T)
      → channels ≤ all
      → interleaver (frames_from all 0 (λ c. table frames 0 (g c))) frames channels
        ≡ done (frames_from frames 0 (λ f. table channels 0 (λ c. g c f)))
  unfolding interleaver
  interleaver-frames_from frames channels all g few =
      collect_rows-frames_from frames channels 0 _ (λ f c. g c f)
        (λ f c p q. access-frames_from frames all c f g (omega (arith, q, few)) (omega (arith, p)))

  -- Without the first channels.
  drop-append : (xs ys : List T) (n : ℕ) → n ≡ length xs → drop n (xs ++ ys) ≡ ys
  drop-append [] ys zero e = refl
  drop-append [] ys (suc n) e = absurd (omega (arith, e))
  drop-append (x ∷ xs) ys zero e = absurd (omega (arith, e))
  drop-append (x ∷ xs) ys (suc n) e = drop-append xs ys n (omega (arith, e))

  pub drop-frames_from :
      (frames n k : ℕ) (g : ℕ → ℕ → T)
      → drop (frames * n) (frames_from (n + k) 0 (λ c. table frames 0 (g c)))
        ≡ frames_from k 0 (λ c. table frames 0 (g (n + c)))
  drop-frames_from frames n k g =
      let rows_of : ℕ → List T = λ c. table frames 0 (g c) in
      let size : frames * n ≡ length (frames_from n 0 rows_of) = sym (
        length-frames_from frames n 0 rows_of (λ c. length-table frames 0 (g c))
        ∙ mul_comm n frames) in
      ap (drop (frames * n)) (frames_from-add n k 0 rows_of)
      ∙ drop-append (frames_from n 0 rows_of) (frames_from k (0 + n) rows_of) (frames * n) size
      ∙ ap (λ i. frames_from k i rows_of) (omega arith)
      ∙ frames_from_shift k 0 n rows_of
