-- ===== src/Base/Collect.antt =====
-- Loops that append one value a round to a buffer, and what they write.
use Prim.Native.Nat.{ℕ, zero, suc, ◌+◌, ◌*◌, ◌≤◌, ◌<◌}
use mathlib.Core.Path.{◌≡◌, refl, ap, ap₂, ◌∙◌}
use mathlib.Core.List.{List, [], ◌∷◌, ◌++◌}
use native.Mathlib.Omega.{arith}
use libambix.Base.Lists.{length, length-append, get_or}
use libambix.Base.Loop.{Outcome, done, ◌>>=◌}

module _ {T : Type 0} where
  -- `for(chan=from; chan<from+left; chan++) *dest++=value(chan);`
  unfoldable pub collect : ℕ → ℕ → (ℕ → Outcome T) → Outcome (List T)
  collect zero from value = done []
  collect (suc left) from value =
      value from >>= λ x. collect left (from + 1) value >>= λ xs. done (x ∷ xs)

  -- `g from, g (from + 1), …`, `n` values.
  abbrev pub table : ℕ → ℕ → (ℕ → T) → List T
  table zero from g = []
  table (suc n) from g = g from ∷ table n (from + 1) g

  -- The rows of the frames `f, f + 1, …`, `left` frames.
  abbrev pub frames_from : ℕ → ℕ → (ℕ → List T) → List T
  frames_from zero f row = []
  frames_from (suc left) f row = row f ++ frames_from left (f + 1) row

  pub table_congr :
      (n from : ℕ) (g h : ℕ → T)
      → ((i : ℕ) → from ≤ i → i < from + n → g i ≡ h i)
      → table n from g ≡ table n from h
  table_congr zero from g h same = refl
  table_congr (suc n) from g h same =
      ap₂ ◌∷◌ (same from (omega arith) (omega arith))
        (table_congr n (from + 1) g h (λ i p q. same i (omega arith) (omega arith)))

  pub frames_congr :
      (left f : ℕ) (row row' : ℕ → List T)
      → ((i : ℕ) → f ≤ i → i < f + left → row i ≡ row' i)
      → frames_from left f row ≡ frames_from left f row'
  frames_congr zero f row row' same = refl
  frames_congr (suc left) f row row' same =
      ap₂ ◌++◌ (same f (omega arith) (omega arith))
        (frames_congr left (f + 1) row row' (λ i p q. same i (omega arith) (omega arith)))

  pub collect-table :
      (n from : ℕ) (value : ℕ → Outcome T) (g : ℕ → T)
      → ((i : ℕ) → from ≤ i → i < from + n → value i ≡ done (g i))
      → collect n from value ≡ done (table n from g)
  unfolding collect
  collect-table zero from value g values = refl
  collect-table (suc n) from value g values = rw (
    values from (omega arith) (omega arith),
    collect-table n (from + 1) value g (λ i p q. values i (omega arith) (omega arith)),
  )

  pub length-table : (n from : ℕ) (g : ℕ → T) → length (table n from g) ≡ n
  length-table zero from g = refl
  length-table (suc n) from g = ap suc (length-table n (from + 1) g)

  pub get_or-table :
      (n from i : ℕ) (g : ℕ → T) (d : T) → i < n → get_or (table n from g) i d ≡ g (from + i)
  get_or-table zero from i g d h = absurd (omega arith)
  get_or-table (suc n) from zero g d h = ap g {x = from} {y = from + 0} (omega arith)
  get_or-table (suc n) from (suc i) g d h =
      get_or-table n (from + 1) i g d (omega arith) ∙ ap g {x = from + 1 + i} (omega arith)

  get_or-append_left :
      (xs ys : List T) (i : ℕ) (d : T) → i < length xs → get_or (xs ++ ys) i d ≡ get_or xs i d
  get_or-append_left [] ys i d h = absurd (omega arith)
  get_or-append_left (x ∷ xs) ys zero d h = refl
  get_or-append_left (x ∷ xs) ys (suc i) d h = get_or-append_left xs ys i d (omega arith)

  get_or-append_right :
      (xs ys : List T) (i j : ℕ) (d : T) → i ≡ length xs + j → get_or (xs ++ ys) i d ≡ get_or ys j d
  get_or-append_right [] ys i j d e = ap (λ k. get_or ys k d) {x = i} {y = j} (omega arith)
  get_or-append_right (x ∷ xs) ys zero j d e = absurd (omega arith)
  get_or-append_right (x ∷ xs) ys (suc i) j d e = get_or-append_right xs ys i j d (omega arith)

  -- Entry `r * cols + c` of rows of `cols` entries is entry c of row r.
  pub get_or-frames_from :
      (cols left f r c : ℕ) (row : ℕ → List T) (d : T)
      → ((i : ℕ) → length (row i) ≡ cols)
      → r < left
      → c < cols
      → get_or (frames_from left f row) (r * cols + c) d ≡ get_or (row (f + r)) c d
  get_or-frames_from cols zero f r c row d even h k = absurd (omega arith)
  get_or-frames_from cols (suc left) f zero c row d even h k =
      ap (λ i. get_or (row f ++ frames_from left (f + 1) row) i d) {x = 0 * cols + c} {y = c}
        (omega arith)
      ∙ get_or-append_left (row f) _ c d (omega (arith, even f))
      ∙ ap (λ i. get_or (row i) c d) {x = f} {y = f + 0} (omega arith)
  get_or-frames_from cols (suc left) f (suc r) c row d even h k =
      get_or-append_right (row f) _ (suc r * cols + c) (r * cols + c) d (omega (arith, even f))
      ∙ get_or-frames_from cols left (f + 1) r c row d even (omega arith) k
      ∙ ap (λ i. get_or (row i) c d) {x = f + 1 + r} (omega arith)

  pub length-frames_from :
      (cols left f : ℕ) (row : ℕ → List T)
      → ((i : ℕ) → length (row i) ≡ cols)
      → length (frames_from left f row) ≡ left * cols
  length-frames_from cols zero f row even = omega arith
  length-frames_from cols (suc left) f row even = omega (
    arith,
    length-append {0} (row f) (frames_from left (f + 1) row),
    even f,
    length-frames_from cols left (f + 1) row even,
  )
