-- ===== src/AmbixRead/Filling.antt =====
-- The steps of the child thread while a file plays: the ring gets what comes next in the file.
use mathlib.Core.List.{append_assoc}
use native.Mathlib.Nat.{mod-eq_of_lt, mod-lt, mul-sub}
use libambix.Base.{
  ℕ, zero, suc, ◌+◌, ◌-◌, ◌%◌, ◌≤◌, ◌<◌, ◌≡◌, ◌≢◌, ◌⊎◌, inl, inr, refl, sym, ap, ap₂, subst, ◌∙◌,
  arith, true, false, not, ◌==◌, ltb, if◌then◌else◌, some, List, [], ◌∷◌, ◌++◌, map, length, take,
  drop, take-append-drop, ℤ, pos, negsuc, Returns,
}
use libambix.Session.Outcomes.{if-holds}
use libambix.AmbixRead.{
  Request, nothing, open_request, close_request, quit, busy, is_busy, Phase, fielding, opening,
  feeding, reading, merging, returned, closing, quitting, finished, Player, readframes,
  merge_samples,
}
use libambix.AmbixRead.Child.{
  room, lost, field, feed, got_from, read_source, commit, merge, merge_at, child_at,
}
use libambix.AmbixRead.Bounds.{IsWhole, IsWhole-add}
use libambix.AmbixRead.Safety.{elim-meets}
use libambix.AmbixRead.Ring.{place, window}
use libambix.AmbixRead.Playing.{Counters, Counters-commit, window_next}
use libambix.AmbixRead.Order.{view, Settled, Stage, Playing}

length-take_le {ℓ} : {A : Type ℓ} (n : ℕ) (xs : List A) → length (take n xs) ≤ n
length-take_le zero xs = omega arith
length-take_le (suc n) [] = omega arith
length-take_le (suc n) (x ∷ xs) = omega (arith, length-take_le n xs)

take-nil {ℓ} : {A : Type ℓ} (n : ℕ) (xs : List A) → xs ≡ [] → length (take n xs) ≡ 0
take-nil {A = A} n xs e = ap (λ l. length (take n l)) e ∙ take-nothing n
  where
    take-nothing : (n : ℕ) → length (take {A = A} n []) ≡ 0
    take-nothing zero = refl
    take-nothing (suc n) = refl

-- As many as asked for are taken, or none are left.
length-take_cases {ℓ} :
    {A : Type ℓ} (n : ℕ) (xs : List A) → (length (take n xs) ≡ n) ⊎ (drop n xs ≡ [])
length-take_cases zero xs = inl refl
length-take_cases (suc n) [] = inr refl
length-take_cases (suc n) (x ∷ xs) = elim (length-take_cases n xs) [
  | inl e ↦ inl (ap suc e)
  | inr e ↦ inr e
]

IsWhole-minus : (v a b : ℕ) → IsWhole v a → IsWhole v b → IsWhole v (a - b)
IsWhole-minus v a b (q, e) (r, f) = (q - r, omega (arith, e, f, mul-sub v q r))

-- The room behind the head, when the ring holds whole blocks.
room-IsWhole :
    {T : Type 0} (v : ℕ) (x : Player T) {level w : ℕ}
    → Counters v x.vecsize x.bufframes x.fifosize x.fifotail x.fifohead level
    → IsWhole v readframes
    → IsWhole v level
    → room x ≡ some w
    → IsWhole v w
unfolding room place
room-IsWhole v x {level} {w} r many whole e =
    let behind : IsWhole v (x.fifotail + level) =
      IsWhole-add v x.fifotail level r.tail-IsWhole whole in
    let head-IsWhole : IsWhole v x.fifohead = subst (IsWhole v) (sym r.head-eq) (
      if-holds (IsWhole v) (ltb (x.fifotail + level) x.fifosize) _ _ (λ _. behind)
        (λ _. IsWhole-minus v _ _ behind r.size-IsWhole)) in
    let space : IsWhole v (x.fifosize - x.fifohead) =
      IsWhole-minus v _ _ r.size-IsWhole head-IsWhole in
    let cases : (w ≡ readframes) ⊎ (w ≡ x.fifosize - x.fifohead) = ground (arith, e) in
    elim cases [ inl f ↦ subst (IsWhole v) (sym f) many | inr f ↦ subst (IsWhole v) (sym f) space ]

room-free :
    {T : Type 0} (v : ℕ) (x : Player T) {level w : ℕ}
    → Counters v x.vecsize x.bufframes x.fifosize x.fifotail x.fifohead level
    → room x ≡ some w
    → (x.fifohead + w ≤ x.fifosize) × (level + w < x.fifosize)
unfolding room place
room-free v x r e = ground (arith, e, r.head-eq, r.level-lt, r.tail-lt)

-- The frames that are put in the ring follow what is in it.
at_place :
    {v c b size tail head level : ℕ} (f : ℕ)
    → Counters v c b size tail head level
    → head + f < size
    → (head + f) % b ≡ place size tail (level + f)
unfolding place
at_place {v} {c} {b} {size} {tail} {head} {level} f r h =
    mod-eq_of_lt (omega (arith, h, r.inside)) ∙ ground (arith, r.head-eq, r.level-lt, r.tail-lt)

module _ {T : Type 0} (v : ℕ) (all : List (List T)) (silence : T) where
  lost-Playing :
      (x : Player T) (out : List (List T)) (p : Playing v all silence x out)
      (left : List (List T × List T))
      → x.requestcode ≡ busy
      → Settled v all (view silence x) out p.level left
      → Playing v all silence (lost x) out
  unfolding lost
  lost-Playing x out p left e settled = record {
    level = p.level;
    counters = p.counters;
    whole = p.whole;
    stage = (ap (λ r. if is_busy r then nothing else r) e, left, settled);
  }

  feed-Playing :
      (x : Player T) (out : List (List T)) (p : Playing v all silence x out)
      → IsWhole v readframes
      → Stage v all (view silence x) out p.level feeding
      → Playing v all silence (feed x) out
  unfolding feed
  feed-Playing x out p many (e, left, rd, (makes, w)) =
      if-holds (λ y. Playing v all silence y out) (not (is_busy x.requestcode)) _ _
        (λ _. lost-Playing x out p left e (makes, w))
        (λ _.
          if-holds (λ y. Playing v all silence y out) x.eof _ _
            (λ _. lost-Playing x out p left e (makes, w))
            (λ _.
              elim-meets (λ y. Playing v all silence y out) (room x) x
                (λ n. record x { phase = reading x.fifohead n }) p
                (λ n f.
                  let (fits, free) = room-free v x p.counters f in
                  record {
                    level = p.level;
                    counters = p.counters;
                    whole = p.whole;
                    stage = (
                      e,
                      refl,
                      fits,
                      free,
                      left,
                      rd,
                      (makes, w),
                      elim w [ inl a ↦ inl (room-IsWhole v x p.counters many a f) | inr a ↦ inr a ],
                    );
                  })))

  field-Playing :
      (x : Player T) (out : List (List T)) (r : Request)
      → x.requestcode ≡ nothing
      → x.requestcode ≡ r
      → Playing v all silence x out
      → Playing v all silence (field x r) out
  unfolding field
  field-Playing x out nothing e f p = p
  field-Playing x out busy e f p = p
  field-Playing x out open_request e f p = absurd (ground (arith, e, f))
  field-Playing x out close_request e f p = absurd (ground (arith, e, f))
  field-Playing x out quit e f p = absurd (ground (arith, e, f))

  read_source-Playing :
      (x : Player T) (out : List (List T)) (p : Playing v all silence x out) (h w : ℕ) (answer : ℤ)
      → ((n : ℕ) → answer ≡ pos n → IsWhole v n)
      → Stage v all (view silence x) out p.level (reading h w)
      → Returns (λ y. Playing v all silence y out) (read_source x h w answer x.ambix_t)
  unfolding read_source got_from
  read_source-Playing x out p h w answer whole
        (e, a, fits, free, left, (file, handle, same), (makes, s), d) =
      subst (λ o. Returns (λ y. Playing v all silence y out) (read_source x h w answer o))
        (sym handle)
        (if-holds (Returns (λ y. Playing v all silence y out)) (ltb x.fifosize w) _ _
          (λ over. absurd (ground (arith, over, fits))) (λ _. read_file answer whole))
    where
      none_got :
          (n : ℕ) → (length (take (if ltb n w then n else w) file.frames) == 0) ≡ false → left ≢ []
      none_got n more z =
          ground (arith, more, take-nil (if ltb n w then n else w) file.frames (same ∙ z))

      read_file :
          (answer : ℤ)
          → ((n : ℕ) → answer ≡ pos n → IsWhole v n)
          → Playing v all silence (got_from x h w answer file) out
      read_file (negsuc n) whole = record {
        level = p.level;
        counters = p.counters;
        whole = p.whole;
        stage = (e, λ m f. cc, left, (makes, s));
      }
      read_file (pos n) whole =
          let count = if ltb n w then n else w in
          let got = take count file.frames in
          let behind = drop count file.frames in
          let y = record x { ambix_t = some (record file { frames = behind }) } in
          if-holds (λ q. Playing v all silence (record y { phase = q }) out) (length got == 0)
            (returned (pos 0)) (merging h (length got) 0 got)
            (λ _. record {
              level = p.level;
              counters = p.counters;
              whole = p.whole;
              stage = (e, λ m f. ground (arith, f), left, (makes, s));
            })
            (λ more. record {
              level = p.level;
              counters = p.counters;
              whole = p.whole;
              stage = (
                e,
                a,
                ground (arith, length-take_le count file.frames, fits),
                ground (arith, length-take_le count file.frames, free),
                ground (arith, more),
                omega arith,
                elim s [ inl b ↦ b | inr z ↦ absurd (none_got n more z) ],
                behind,
                (record file { frames = behind }, refl, refl),
                elim d [
                  | inr z ↦ absurd (none_got n more z)
                  | inl b ↦ elim (length-take_cases count file.frames) [
                    | inr z ↦ inr z
                    | inl c ↦ inl (
                        subst (IsWhole v) (sym c)
                          (if-holds (IsWhole v) (ltb n w) n w (λ _. whole n refl) (λ _. b)))
                  ]
                ],
                ap₂
                      (λ k l.
                        out
                        ++ (window x.buf x.fifosize x.fifotail 0 k
                            ++ map (merge_samples silence x.ambichannels x.xtrachannels) l))
                      (omega arith) (take-append-drop count file.frames ∙ same)
                    ∙ makes,
              );
            })

  commit-Playing :
      (x : Player T) (out : List (List T)) (p : Playing v all silence x out) (z : ℤ)
      → Stage v all (view silence x) out p.level (returned z)
      → Playing v all silence (commit x z) out
  unfolding commit
  commit-Playing x out p (negsuc n) (e, a, left, settled) =
      if-holds (λ y. Playing v all silence y out) (not (is_busy x.requestcode)) _ _
        (λ _. lost-Playing x out p left e settled)
        (λ _.
          lost-Playing (record x { fileerror = true }) out
            (record { level = p.level; counters = p.counters; whole = p.whole; stage = p.stage })
            left e settled)
  commit-Playing x out p (pos n) (e, a, left, settled) =
      if-holds (λ y. Playing v all silence y out) (not (is_busy x.requestcode)) _ _
        (λ _. lost-Playing x out p left e settled)
        (λ _.
          if-holds (λ y. Playing v all silence y out) (n == 0) _ _
            (λ _.
              lost-Playing (record x { eof = true }) out
                (record {
                  level = p.level;
                  counters = p.counters;
                  whole = p.whole;
                  stage = p.stage;
                })
                left e settled)
            (λ more. absurd (none n more a)))
    where
      none : (n : ℕ) → (n == 0) ≡ false → ((m : ℕ) → pos n ≢ pos (suc m)) → ⊥
      none zero more a = cc
      none (suc n) more a = a n refl

  merge-Playing :
      (clear : (bufsize : ℕ) → (ℕ → List T) → ℕ → List T) (x : Player T) (out : List (List T))
      (p : Playing v all silence x out) (h n f : ℕ) (todo : List (List T × List T))
      → Stage v all (view silence x) out p.level (merging h n f todo)
      → Returns (λ y. Playing v all silence y out) (merge silence clear x h n f todo)
  unfolding merge merge_at commit
  merge-Playing clear x out p h n f [] (e, a, fits, free, more, sum, w, left, rd, s, makes) =
      if-holds (λ y. Playing v all silence y out) (not (is_busy x.requestcode)) _ _
        (λ q. absurd (ground (arith, q, e)))
        (λ _.
          if-holds (λ y. Playing v all silence y out) (n == 0) _ _
            (λ q. absurd (ground (arith, q, more)))
            (λ _. record {
              level = p.level + n;
              counters = Counters-commit n p.counters fits free;
              whole = p.whole;
              stage = (
                e,
                left,
                rd,
                (
                  ap
                        (λ k.
                          out
                          ++ (window x.buf x.fifosize x.fifotail 0 k
                              ++ map (merge_samples silence x.ambichannels x.xtrachannels) left))
                        (omega (arith, sum))
                      ∙ makes,
                  elim s [ inl b ↦ inl (IsWhole-add v p.level n w b) | inr z ↦ inr z ],
                ),
              );
            }))
  merge-Playing clear x out p h n f (frame ∷ todo)
        (e, a, fits, free, more, sum, w, left, rd, s, makes) =
      let m = merge_samples silence x.ambichannels x.xtrachannels in
      let at : (h + f) % x.bufframes ≡ place x.fifosize x.fifotail (p.level + f) =
        ap (λ j. (j + f) % x.bufframes) a ∙ at_place f p.counters (omega (arith, fits, sum)) in
      let next =
        window_next x.buf (m frame) (p.level + f) ((h + f) % x.bufframes) p.counters.tail-lt
          (omega (arith, free, sum)) at in
      if-holds (Returns (λ y. Playing v all silence y out))
        (ltb ((h + f) % x.bufframes) x.bufframes) _ _
        (λ _. record {
          level = p.level;
          counters = p.counters;
          whole = p.whole;
          stage = (
            e,
            a,
            fits,
            free,
            more,
            omega (arith, sum),
            w,
            left,
            rd,
            s,
            let buf' : ℕ → List T = λ j. if j == (h + f) % x.bufframes then m frame else x.buf j in
                ap (λ w. out ++ (w ++ map m (todo ++ left)))
                  (ap (window buf' x.fifosize x.fifotail 0) (omega arith) ∙ next)
                ∙ ap (λ w. out ++ w)
                    (append_assoc (window x.buf x.fifosize x.fifotail 0 (p.level + f))
                      (m frame ∷ []) (map m (todo ++ left)))
                ∙ makes,
          );
        })
        (λ over. absurd (
          ground (
            arith,
            over,
            mod-lt (h + f) {m = x.bufframes} (omega (arith, p.counters.inside, p.counters.tail-lt)),
          )))

  -- A step of the child thread, when the backend answers with whole blocks or with an error.
  pub child-Playing :
      (clear : (bufsize : ℕ) → (ℕ → List T) → ℕ → List T) (x : Player T) (out : List (List T))
      (answer : ℤ) (q : Phase T)
      → IsWhole v readframes
      → ((n : ℕ) → answer ≡ pos n → IsWhole v n)
      → (p : Playing v all silence x out) → Stage v all (view silence x) out p.level q
      → Returns (λ y. Playing v all silence y out) (child_at silence clear x answer q)
  unfolding child_at
  child-Playing clear x out answer fielding many whole p s =
      field-Playing x out x.requestcode s.0 refl p
  child-Playing clear x out answer feeding many whole p s = feed-Playing x out p many s
  child-Playing clear x out answer (reading h w) many whole p s =
      read_source-Playing x out p h w answer whole s
  child-Playing clear x out answer (merging h n f todo) many whole p s =
      merge-Playing clear x out p h n f todo s
  child-Playing clear x out answer (returned z) many whole p s = commit-Playing x out p z s
  child-Playing clear x out answer (opening file) many whole p s = elim s [ ]
  child-Playing clear x out answer closing many whole p s = elim s [ ]
  child-Playing clear x out answer quitting many whole p s = elim s [ ]
  child-Playing clear x out answer finished many whole p s = elim s [ ]
