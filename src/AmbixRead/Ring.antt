-- ===== src/AmbixRead/Ring.antt =====
-- The ring as a list of frames: the ones from the tail on, going round at its size.
use libambix.Base.{
  ℕ, zero, suc, ◌+◌, ◌-◌, ◌≤◌, ◌<◌, ◌≡◌, ◌≢◌, refl, ap, ap₂, ◌∙◌, arith, ◌==◌, ltb, if◌then◌else◌,
  List, [], ◌∷◌, ◌++◌, length,
}
use libambix.AmbixRead.{frames_at}

-- The place `i` frames behind `from`.
unfoldable pub place : (size from i : ℕ) → ℕ
place size from i = if ltb (from + i) size then from + i else from + i - size

place-ne :
    (size from i k : ℕ) → from < size → i < k → k < size → place size from i ≢ place size from k
unfolding place
place-ne size from i k hf hi hk e = ground (arith, e)

pub place-lt : (size from i : ℕ) → from < size → i < size → place size from i < size
unfolding place
place-lt size from i hf hi = ground arith

pub place-place :
    (size from v i : ℕ)
    → from < size
    → v + i < size
    → place size (place size from v) i ≡ place size from (v + i)
unfolding place
place-place size from v i hf hn = ground arith

module _ {T : Type 0} where
  -- The `n` frames that start `i` frames behind `from`.
  unfoldable pub window : (ℕ → List T) → (size from i n : ℕ) → List (List T)
  window buf size from i zero = []
  window buf size from i (suc n) = buf (place size from i) ∷ window buf size from (suc i) n

  pub length-window : (buf : ℕ → List T) (size from i n : ℕ) → length (window buf size from i n) ≡ n
  unfolding window
  length-window buf size from i zero = refl
  length-window buf size from i (suc n) = ap suc (length-window buf size from (suc i) n)

  pub window-add :
      (buf : ℕ → List T) (size from i n k : ℕ)
      → window buf size from i (n + k) ≡ window buf size from i n ++ window buf size from (i + n) k
  unfolding window
  window-add buf size from i zero k =
      let e : 0 + k ≡ k = omega arith in let f : i + 0 ≡ i = omega arith in rw (e, f) refl
  window-add buf size from i (suc n) k =
      let e : suc n + k ≡ suc (n + k) = omega arith in
      let f : i + suc n ≡ suc i + n = omega arith in
      rw (e, f) (ap (λ w. buf (place size from i) ∷ w) (window-add buf size from (suc i) n k))

  -- A frame that is written behind the window is not seen in it.
  pub window-write :
      (buf : ℕ → List T) (frame : List T) (size from i n k : ℕ)
      → from < size
      → i + n ≤ k
      → k < size
      → window (λ j. if j == place size from k then frame else buf j) size from i n
        ≡ window buf size from i n
  unfolding window
  window-write buf frame size from i zero k hf hn hk = refl
  window-write buf frame size from i (suc n) k hf hn hk =
      ap₂ ◌∷◌ (ground (arith, place-ne size from i k hf))
        (window-write buf frame size from (suc i) n k hf (omega arith) hk)

  -- The window from a later tail.
  pub window_later :
      (buf : ℕ → List T) (size from v i n : ℕ)
      → from < size
      → v + (i + n) ≤ size
      → window buf size (place size from v) i n ≡ window buf size from (v + i) n
  unfolding window
  window_later buf size from v i zero hf hn = refl
  window_later buf size from v i (suc n) hf hn =
      let e : v + suc i ≡ suc (v + i) = omega arith in
      ap₂ ◌∷◌ (ap buf (place-place size from v i hf (omega arith))) (
        window_later buf size from v (suc i) n hf (omega arith)
        ∙ ap (λ j. window buf size from j n) e)

  -- Frames before the end of the ring are in one piece.
  pub window-eq-frames_at :
      (buf : ℕ → List T) (size from i n : ℕ)
      → from + (i + n) ≤ size
      → window buf size from i n ≡ frames_at buf (from + i) n
  unfolding window place
  window-eq-frames_at buf size from i zero h = refl
  window-eq-frames_at buf size from i (suc n) h =
      let e : from + suc i ≡ from + i + 1 = omega arith in
      ap₂ ◌∷◌ (ap buf (ground arith))
        (window-eq-frames_at buf size from (suc i) n (omega arith) ∙ ap (λ j. frames_at buf j n) e)

  pub window_congr :
      (buf : ℕ → List T) (size from i i' n n' : ℕ)
      → i ≡ i'
      → n ≡ n'
      → window buf size from i n ≡ window buf size from i' n'
  window_congr buf size from i i' n n' e f = ap₂ (λ j k. window buf size from j k) e f
