-- ===== src/AmbixRead/Playback.antt =====
-- Each step while a file plays: what is heard is what comes next in the file.
use mathlib.Core.List.{append-nil, append_assoc}
use libambix.Base.{
  ◌⊎◌, ◌<◌, ◌∙◌, inl, inr, ◌∷◌, map, ℕ, zero, suc, ◌+◌, ◌-◌, ◌≤◌, ◌≡◌, refl, sym, ap, subst, arith,
  true, false, not, ◌&&◌, ◌||◌, List, [], ◌++◌, length, length-append, Outcome, Returns,
  bind-Returns,
}
use libambix.Session.Outcomes.{if-holds}
use libambix.AmbixRead.{
  is_stream, idle, Player, Performed, Phase, frames_at, fielding, opening, feeding, reading,
  merging, returned, closing, quitting, finished,
}
use libambix.AmbixRead.Ring.{place, window, window-add, window-eq-frames_at}
use libambix.AmbixRead.Callback.{is_low, deinterleave_samples, perform, moved_on}
use libambix.AmbixRead.Steps.{heard}
use libambix.AmbixRead.Bounds.{IsWhole, IsWhole-add}
use libambix.AmbixRead.Events.{deinterleave_samples-Returns}
use libambix.AmbixRead.Playing.{Counters-block, tail-add-le, head-lt}
use libambix.AmbixRead.Order.{Shared, Stage, view, Playing, level-ne, level-le, Stage-block}

length-frames_at : {T : Type 0} (buf : ℕ → List T) (from n : ℕ) → length (frames_at buf from n) ≡ n
length-frames_at buf from zero = refl
length-frames_at buf from (suc n) = ap suc (length-frames_at buf (from + 1) n)

module _ {T : Type 0} where
  frames_at-snoc :
      (buf : ℕ → List T) (from n : ℕ)
      → frames_at buf from (suc n) ≡ frames_at buf from n ++ (buf (from + n) ∷ [])
  frames_at-snoc buf from zero = ap (λ k. buf k ∷ []) (omega arith)
  frames_at-snoc buf from (suc n) =
      let e : from + 1 + n ≡ from + suc n = omega arith in
      ap (λ l. buf from ∷ l)
        (frames_at-snoc buf (from + 1) n ∙ ap (λ k. frames_at buf (from + 1) n ++ (buf k ∷ [])) e)

  -- The `n` frames up to the head, and the one at the head.
  pub frames_at-head :
      (x : Player T) (n k : ℕ)
      → x.fifohead ≡ x.fifotail + n
      → k ≡ suc n
      → frames_at x.buf x.fifotail k ≡ frames_at x.buf x.fifotail n ++ (x.buf x.fifohead ∷ [])
  frames_at-head x n k h e =
      ap (frames_at x.buf x.fifotail) e
      ∙ frames_at-snoc x.buf x.fifotail n
      ∙ ap (λ j. frames_at x.buf x.fifotail n ++ (x.buf j ∷ [])) (sym h)

module _ {T : Type 0} (v : ℕ) (all : List (List T)) (silence : T)
    (odd : ¬ IsWhole v (length all + 1)) where
  silent-Playing :
      (x : Player T) (out : List (List T))
      → Playing v all silence x out
      → Playing v all silence x (out ++ [])
  silent-Playing x out p = subst (Playing v all silence x) (sym (append-nil out)) p

  -- The frames of the ring, up to the head, come next.
  Stage-window :
      (s : Shared T) (out : List (List T)) (level : ℕ) (p : Phase T)
      → Stage v all s out level p
      → (rest : List (List T)) × (out ++ (window s.buf s.size s.tail 0 level ++ rest) ≡ all)
  Stage-window s out level fielding (e, left, (m, w)) = (_, m)
  Stage-window s out level feeding (e, left, rd, (m, w)) = (_, m)
  Stage-window s out level (reading h n) (e, a, b, c, left, rd, (m, w), d) = (_, m)
  Stage-window s out level (merging h n f todo) (e, a, b, c, d, g, w, left, rd, q, m) = (
    window s.buf s.size s.tail (0 + level) f ++ map s.frame_of (todo ++ left),
    ap (λ l. out ++ l)
          (sym (
              append_assoc (window s.buf s.size s.tail 0 level)
                (window s.buf s.size s.tail (0 + level) f) (map s.frame_of (todo ++ left)))
            ∙ ap (λ w. w ++ map s.frame_of (todo ++ left))
                (sym (window-add s.buf s.size s.tail 0 level f)))
        ∙ m,
  )
  Stage-window s out level (returned z) (e, a, left, (m, w)) = (_, m)
  Stage-window s out level (opening file) q = elim q [ ]
  Stage-window s out level closing q = elim q [ ]
  Stage-window s out level quitting q = elim q [ ]
  Stage-window s out level finished q = elim q [ ]

  -- What has been heard once the end was seen: the first frames, and one frame more.
  abbrev pub Ended : (out : List (List T)) → Type 0
  Ended out =
      (played : List (List T)) × (stale : List T) × (out ≡ played ++ (stale ∷ []))
      × (rest : List (List T)) × (played ++ rest ≡ all)

  -- What has been heard is whole blocks, or the object is idle after the end.
  abbrev pub Hears : Player T → (out : List (List T)) → Type 0
  Hears x out =
      (blocks : List (List T)) × Playing v all silence x blocks
      × ((out ≡ blocks) ⊎ ((x.state ≡ idle) × Ended out))

  low_level :
      (x : Player T) (out : List (List T)) (p : Playing v all silence x out)
      → is_low x ≡ true
      → (x.fifohead ≡ x.fifotail + p.level) × (x.fifotail + p.level < x.fifosize)
  unfolding place
  low_level x out p low =
      ground (arith, low, p.counters.head-eq, p.counters.level-lt, p.counters.tail-lt)

  -- The last frames are those of the ring, and the one at the head.
  last-Ended :
      (x : Player T) (out : List (List T)) (p : Playing v all silence x out)
      → is_low x ≡ true
      → Ended (out ++ frames_at x.buf x.fifotail (x.fifohead - x.fifotail + 1))
  last-Ended x out p low =
      let (at, inside) = low_level x out p low in
      let kept = window x.buf x.fifosize x.fifotail 0 p.level in
      let (rest, makes) = Stage-window (view silence x) out p.level x.phase p.stage in
      let frames : frames_at x.buf x.fifotail (x.fifohead - x.fifotail + 1)
          ≡ kept ++ (x.buf x.fifohead ∷ []) =
        frames_at-head x p.level (x.fifohead - x.fifotail + 1) at (omega (arith, at))
        ∙ ap (λ l. l ++ (x.buf x.fifohead ∷ []))
            (ap (λ t. frames_at x.buf t p.level) {x = x.fifotail} {y = x.fifotail + 0} (omega arith)
              ∙ sym (
                  window-eq-frames_at x.buf x.fifosize x.fifotail 0 p.level
                    (omega (arith, inside)))) in
      (
        out ++ kept,
        x.buf x.fifohead,
        ap (λ l. out ++ l) frames ∙ sym (append_assoc out kept (x.buf x.fifohead ∷ [])),
        rest,
        append_assoc out kept rest ∙ makes,
      )

  -- The audio callback.
  pub perform-Hears :
      (x : Player T) (out : List (List T))
      → Playing v all silence x out
      → Returns (λ r. Hears r.0 (out ++ heard r.1)) (perform x)
  unfolding perform
  perform-Hears x out p =
      if-holds R (x.f_matrix || x.f_ambix) _ _ (λ _. (out, p, inl (append-nil out)))
        (λ _.
          if-holds R (not (is_stream x.state)) _ _ (λ _. (out, p, inl (append-nil out)))
            (λ _.
              if-holds R (not x.eof && is_low x) _ _ (λ _. (out, p, inl (append-nil out)))
                (λ going.
                  if-holds R (x.eof && is_low x) _ _
                    (λ low.
                      bind-Returns
                        (λ frames.
                          frames ≡ frames_at x.buf x.fifotail (x.fifohead - x.fifotail + 1))
                        Q (deinterleave_samples x (x.fifohead - x.fifotail + 1)) _
                        (deinterleave_samples-Returns x (x.fifohead - x.fifotail + 1)
                          (ground (arith, low)) (last-fits low))
                        (λ frames e. (
                          out,
                          record {
                            level = p.level;
                            counters = p.counters;
                            whole = p.whole;
                            stage = p.stage;
                          },
                          inr (
                            refl,
                            subst (λ fr. Ended (out ++ fr)) (sym e)
                                (last-Ended x out p (ground (arith, low))),
                          ),
                        )))
                    (λ more.
                      bind-Returns (λ frames. frames ≡ frames_at x.buf x.fifotail x.vecsize) Q
                        (deinterleave_samples x x.vecsize) _
                        (deinterleave_samples-Returns x x.vecsize (omega arith) (
                          omega
                            (arith, tail-add-le p.counters, p.counters.vector, p.counters.inside)))
                        (λ frames e. (
                          out ++ frames_at x.buf x.fifotail x.vecsize,
                          block_heard (enough going more),
                          inl (ap (λ fr. out ++ fr) e),
                        ))))))
    where
      Q : Player T × Performed T → Type 0
      Q r = Hears r.0 (out ++ heard r.1)

      R : Outcome (Player T × Performed T) → Type 0
      R = Returns (λ r. Hears r.0 (out ++ heard r.1))

      last-fits :
          (x.eof && is_low x) ≡ true → x.fifotail + (x.fifohead - x.fifotail + 1) ≤ x.bufframes
      last-fits low = ground (arith, low, head-lt p.counters, p.counters.inside)

      enough : (not x.eof && is_low x) ≡ false → (x.eof && is_low x) ≡ false → v ≤ p.level
      enough going more =
          let high : is_low x ≡ false = ground (arith, going, more) in
          omega (
            arith,
            level-le v all p.counters high,
            level-ne v all (view silence x) out p.level x.phase p.counters.vector-lt odd p.whole
                p.stage,
          )

      block_heard :
          v ≤ p.level
          → Playing v all silence (moved_on x) (out ++ frames_at x.buf x.fifotail x.vecsize)
      block_heard h = record {
        level = p.level - v;
        counters = Counters-block p.counters h;
        whole = subst (IsWhole v) (sym (length-append out (frames_at x.buf x.fifotail x.vecsize))) (
            IsWhole-add v (length out) _ p.whole
              (1, omega (arith, length-frames_at x.buf x.fifotail x.vecsize, p.counters.vector)));
        stage = Stage-block v all (view silence x) out x.phase p.counters h p.stage;
      }
