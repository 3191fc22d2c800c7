-- ===== src/AmbixRead/Playing.antt =====
-- The ring while a file plays: what it holds is what comes next in the file.
use libambix.Base.{
  ℕ, ◌+◌, ◌-◌, ◌≤◌, ◌<◌, ◌≡◌, sym, ap, ap₂, ◌∙◌, arith, ◌==◌, leb, if◌then◌else◌, List, [], ◌∷◌,
  ◌++◌,
}
use libambix.AmbixRead.{frames_at}
use libambix.AmbixRead.Bounds.{IsWhole, IsWhole-lt, IsWhole-add}
use libambix.Session.Outcomes.{if-holds}
use libambix.AmbixRead.Ring.{
  place, place-lt, window, window-add, window-write, window_later, window-eq-frames_at,
}

-- The head is `level` frames behind the tail.
pub record Counters (v vecsize bufframes size tail head level : ℕ) : Type 0 where
  pub vector : vecsize ≡ v
  pub vector-lt : 1 < v
  pub inside : size ≤ bufframes
  pub size-IsWhole : IsWhole v size
  pub tail-IsWhole : IsWhole v tail
  pub tail-lt : tail < size
  pub level-lt : level < size
  pub head-eq : head ≡ place size tail level

pub tail-add-le :
    {v c b size tail head level : ℕ} → Counters v c b size tail head level → tail + v ≤ size
tail-add-le {v} {c} {b} {size} {tail} r =
    IsWhole-lt v tail size r.tail-IsWhole r.size-IsWhole r.tail-lt

pub head-lt : {v c b size tail head level : ℕ} → Counters v c b size tail head level → head < size
head-lt {v} {c} {b} {size} {tail} {head} {level} r =
    omega (arith, r.head-eq, place-lt size tail level r.tail-lt r.level-lt)

-- After a block of `v` frames.
pub Counters-block :
    {v c b size tail head level : ℕ}
    → Counters v c b size tail head level
    → v ≤ level
    → Counters v c b size (if leb size (tail + c) then 0 else tail + c) head (level - v)
unfolding place
Counters-block {v} {c} {b} {size} {tail} {head} {level} r enough =
    let fits = tail-add-le r in
    record {
      vector = r.vector;
      vector-lt = r.vector-lt;
      inside = r.inside;
      size-IsWhole = r.size-IsWhole;
      tail-IsWhole =
          if-holds (IsWhole v) (leb size (tail + c)) 0 (tail + c) (λ _. (0, omega arith))
            (λ _. IsWhole-add v tail c r.tail-IsWhole (1, omega (arith, r.vector)));
      tail-lt = ground (arith, r.vector, r.tail-lt, r.vector-lt);
      level-lt = omega (arith, r.level-lt);
      head-eq = ground (arith, r.vector, r.head-eq, r.level-lt, r.tail-lt);
    }

place_block :
    {v c b size tail head level : ℕ}
    → Counters v c b size tail head level
    → place size tail v ≡ (if leb size (tail + c) then 0 else tail + c)
unfolding place
place_block r = ground (arith, r.vector, tail-add-le r, r.vector-lt)

-- After the child has put `n` frames behind the head.
pub Counters-commit :
    {v c b size tail head level : ℕ} (n : ℕ)
    → Counters v c b size tail head level
    → head + n ≤ size
    → level + n < size
    → Counters v c b size tail (if (head + n) == size then 0 else head + n) (level + n)
unfolding place
Counters-commit n r fits free = record {
  vector = r.vector;
  vector-lt = r.vector-lt;
  inside = r.inside;
  size-IsWhole = r.size-IsWhole;
  tail-IsWhole = r.tail-IsWhole;
  tail-lt = r.tail-lt;
  level-lt = free;
  head-eq = ground (arith, r.head-eq, r.level-lt, r.tail-lt);
}

module _ {T : Type 0} where
  -- The frames at the tail, in one piece, and the ring behind them.
  pub window_block :
      (buf : ℕ → List T) {v c b size tail head level : ℕ} (k : ℕ)
      → Counters v c b size tail head level
      → v ≤ k
      → k ≤ size
      → window buf size tail 0 k
        ≡ frames_at buf tail c
          ++ window buf size (if leb size (tail + c) then 0 else tail + c) 0 (k - v)
  window_block buf {v} {c} {b} {size} {tail} {head} {level} k r enough small =
      let fits = tail-add-le r in
      let parts : window buf size tail 0 k
          ≡ window buf size tail 0 v ++ window buf size tail v (k - v) =
        ap (window buf size tail 0) (omega (arith, enough))
        ∙ window-add buf size tail 0 v (k - v)
        ∙ ap (λ j. window buf size tail 0 v ++ window buf size tail j (k - v)) (omega arith) in
      let piece : window buf size tail 0 v ≡ frames_at buf tail c =
        window-eq-frames_at buf size tail 0 v (omega (arith, fits))
        ∙ ap₂ (frames_at buf) (omega arith) (sym r.vector) in
      let behind : window buf size (place size tail v) 0 (k - v) ≡ window buf size tail v (k - v) =
        window_later buf size tail v 0 (k - v) r.tail-lt (omega (arith, enough, small))
        ∙ ap (λ j. window buf size tail j (k - v)) (omega arith) in
      let tail' : place size tail v ≡ (if leb size (tail + c) then 0 else tail + c) =
        place_block r in
      parts ∙ ap₂ ◌++◌ piece (sym behind ∙ ap (λ t. window buf size t 0 (k - v)) tail')

  -- A frame that is put behind `k` frames is the next one.
  pub window_next :
      (buf : ℕ → List T) (frame : List T) {size tail : ℕ} (k at : ℕ)
      → tail < size
      → k < size
      → at ≡ place size tail k
      → window (λ j. if j == at then frame else buf j) size tail 0 (k + 1)
        ≡ window buf size tail 0 k ++ (frame ∷ [])
  unfolding window
  window_next buf frame {size} {tail} k at ht hk e =
      let buf' : ℕ → List T = λ j. if j == at then frame else buf j in
      let same : window buf' size tail 0 k ≡ window buf size tail 0 k =
        ap (λ p. window (λ j. if j == p then frame else buf j) size tail 0 k) e
        ∙ window-write buf frame size tail 0 k k ht (omega arith) hk in
      let last : place size tail (0 + k) ≡ at = ap (place size tail) (omega arith) ∙ sym e in
      let new : buf' (place size tail (0 + k)) ≡ frame = ground (arith, last) in
      window-add buf' size tail 0 k 1 ∙ ap₂ (λ w f. w ++ (f ∷ [])) same new
