-- ===== src/AmbixRead/Failures.antt =====
-- Where the object does not do what it means to: the last frames of a file, a reading that fails, and a file
-- that cannot be opened.
use libambix.Base.{
  ℕ, ◌+◌, ◌-◌, ◌<◌, ◌≡◌, refl, sym, ap, ap₂, subst, ◌∙◌, arith, true, false, not, ◌&&◌, ◌||◌,
  if◌then◌else◌, none, some, List, [], ◌∷◌, ◌++◌, All, ℤ, pos, negsuc, Outcome, done, Returns,
  Returns-done, bind-Returns,
}
use libambix.AmbixRead.{
  State, idle, startup, stream, nothing, busy, is_busy, is_stream, Source, Phase, fielding, opening,
  feeding, reading, merging, returned, closing, quitting, finished, Player, Performed, block, last,
  frames_at,
}
use libambix.AmbixRead.Child.{lost, field, feed, commit, open_done, child_at, child}
use libambix.AmbixRead.Callback.{
  is_low, perform, drained, moved_on, start, start_at, tick, open_file,
}
use libambix.AmbixRead.Steps.{
  heard, Event, child_step, performed, started, stopped, ticked, opened, step, run,
}
use libambix.Session.Outcomes.{if-holds}
use libambix.AmbixRead.Heard.{IsPlayback}
use libambix.AmbixRead.Playback.{frames_at-head}
use libambix.AmbixRead.Waiting.{IsStreaming, perform-block, perform-last}

module _ {T : Type 0} where
  -- The test for a block counts one frame too few. Let the ring hold `n` frames from the tail up to the head,
  -- one less than a block. Then the callback does not wait: it plays them with the frame at the head, which
  -- the child has not written.
  pub perform-stale :
      (x : Player T) (n : ℕ)
      → IsStreaming x
      → x.fifohead ≡ x.fifotail + n
      → x.fifohead < x.bufframes
      → n + 1 ≡ x.vecsize
      → perform x
        ≡ done (moved_on x, block (frames_at x.buf x.fifotail n ++ (x.buf x.fifohead ∷ [])))
  perform-stale x n s h fits e =
      perform-block x s (ground (arith, h, e)) (omega (arith, h, fits, e))
      ∙ ap (λ l. done (moved_on x, block l)) (frames_at-head x n x.vecsize h (omega (arith, e)))

  -- When the file has ended and the ring holds `n` frames, from the tail up to the head and at least two less
  -- than a block, the last frames that the callback plays are those and the one at the head, which
  -- the child has not written.
  pub perform-stale_last :
      (x : Player T) (n : ℕ)
      → IsStreaming x
      → x.eof ≡ true
      → x.fifohead ≡ x.fifotail + n
      → x.fifohead < x.bufframes
      → n + 1 < x.vecsize
      → perform x ≡ done (drained x, last (frames_at x.buf x.fifotail n ++ (x.buf x.fifohead ∷ [])))
  perform-stale_last x n s ended h fits less =
      perform-last x s ended (ground (arith, h, less)) fits
      ∙ ap (λ l. done (drained x, last l))
          (frames_at-head x n (x.fifohead - x.fifotail + 1) h (omega (arith, h)))

  -- A reading has failed, or the child has given up after one, and the ring is low.
  abbrev IsHung : Player T → Phase T → Type 0
  IsHung x (returned (negsuc n)) = (x.requestcode ≡ busy) × (x.eof ≡ false) × (is_low x ≡ true)
  IsHung x fielding = (x.requestcode ≡ nothing) × (x.eof ≡ false) × (is_low x ≡ true)
  IsHung x _ = ⊥

  hung_low : (x : Player T) (p : Phase T) → IsHung x p → (x.eof ≡ false) × (is_low x ≡ true)
  hung_low x fielding (e, f, g) = (f, g)
  hung_low x (returned (negsuc n)) (e, f, g) = (f, g)
  hung_low x (returned (pos n)) h = elim h [ ]
  hung_low x (opening file) h = elim h [ ]
  hung_low x feeding h = elim h [ ]
  hung_low x (reading h w) q = elim q [ ]
  hung_low x (merging h n f todo) q = elim q [ ]
  hung_low x closing h = elim h [ ]
  hung_low x quitting h = elim h [ ]
  hung_low x finished h = elim h [ ]

module _ {T : Type 0} (silence : T) (clear : (bufsize : ℕ) → (ℕ → List T) → ℕ → List T) where
  -- The object is hung, and the outlets have got no frame.
  abbrev Quiet : Player T × Performed T → Type 0
  Quiet r = IsHung r.0 r.0.phase × (heard r.1 ≡ [])

  child-IsHung :
      (x : Player T) (answer : ℤ) (p : Phase T)
      → x.phase ≡ p
      → IsHung x p
      → Returns (λ y. IsHung y y.phase) (child_at silence clear x answer p)
  unfolding child_at field commit lost
  child-IsHung x answer fielding e (f, g, h) =
      subst (λ r. IsHung (field x r) (field x r).phase) (sym f) (subst (IsHung x) (sym e) (f, g, h))
  child-IsHung x answer (returned (negsuc n)) e (f, g, h) =
      if-holds (λ (y : Player T). IsHung y y.phase) (not (is_busy x.requestcode)) _ _
        (λ t. absurd (ground (arith, t, f)))
        (λ _. (ap (λ r. if is_busy r then nothing else r) f, g, h))
  child-IsHung x answer (returned (pos n)) e h = elim h [ ]
  child-IsHung x answer (opening file) e h = elim h [ ]
  child-IsHung x answer feeding e h = elim h [ ]
  child-IsHung x answer (reading h w) e q = elim q [ ]
  child-IsHung x answer (merging h n f todo) e q = elim q [ ]
  child-IsHung x answer closing e h = elim h [ ]
  child-IsHung x answer quitting e h = elim h [ ]
  child-IsHung x answer finished e h = elim h [ ]

  perform-IsHung : (x : Player T) → IsHung x x.phase → Returns Quiet (perform x)
  unfolding perform
  perform-IsHung x h =
      let (not_seen, low) = hung_low x x.phase h in
      if-holds (Returns Quiet) (x.f_matrix || x.f_ambix) _ _ (λ _. (h, refl))
        (λ _.
          if-holds (Returns Quiet) (not (is_stream x.state)) _ _ (λ _. (h, refl))
            (λ _.
              if-holds (Returns Quiet) (not x.eof && is_low x) _ _ (λ _. (h, refl))
                (λ t. absurd (ground (arith, t, not_seen, low)))))

  -- The hanging depends on the phase, the request and the ring alone.
  IsHung-as :
      (x y : Player T) (p : Phase T)
      → x.requestcode ≡ y.requestcode
      → x.eof ≡ y.eof
      → is_low x ≡ is_low y
      → IsHung x p
      → IsHung y p
  IsHung-as x y fielding a b c (e, f, g) = (sym a ∙ e, sym b ∙ f, sym c ∙ g)
  IsHung-as x y (returned (negsuc n)) a b c (e, f, g) = (sym a ∙ e, sym b ∙ f, sym c ∙ g)
  IsHung-as x y (returned (pos n)) a b c h = elim h [ ]
  IsHung-as x y (opening file) a b c h = elim h [ ]
  IsHung-as x y feeding a b c h = elim h [ ]
  IsHung-as x y (reading h w) a b c q = elim q [ ]
  IsHung-as x y (merging h n f todo) a b c q = elim q [ ]
  IsHung-as x y closing a b c h = elim h [ ]
  IsHung-as x y quitting a b c h = elim h [ ]
  IsHung-as x y finished a b c h = elim h [ ]

  step-IsHung :
      (v : ℕ) (x : Player T) (e : Event T)
      → IsPlayback v e
      → IsHung x x.phase
      → Returns Quiet (step silence clear x e)
  unfolding step child start start_at tick
  step-IsHung v x (child_step answer) ok h =
      bind-Returns (λ y. IsHung y y.phase) Quiet (child silence clear x answer) _
        (child-IsHung x answer x.phase refl h) (λ y q. (q, refl))
  step-IsHung v x performed ok h = perform-IsHung x h
  step-IsHung v x started ok h = (start_from x.state, refl)
    where
      start_from : (state : State) → IsHung (start_at x state) (start_at x state).phase
      start_from idle = h
      start_from stream = h
      start_from startup = IsHung-as x (record x { state = stream }) x.phase refl refl refl h
  step-IsHung v x ticked ok h = (IsHung-as x (tick x) x.phase refl refl refl h, refl)
  step-IsHung v x stopped ok h = elim ok [ ]
  step-IsHung v x (opened file) ok h = elim ok [ ]

  run-Quiet :
      (v : ℕ) (events : List (Event T)) (x : Player T)
      → All (IsPlayback v) events
      → IsHung x x.phase
      → Returns (λ r. (IsHung r.0 r.0.phase) × (r.1 ≡ [])) (run silence clear x events)
  unfolding run
  run-Quiet v [] x ok h = (h, refl)
  run-Quiet v (e ∷ events) x (ok, oks) h =
      bind-Returns Quiet (λ r. (IsHung r.0 r.0.phase) × (r.1 ≡ [])) (step silence clear x e) _
        (step-IsHung v x e ok h)
        (λ r (q, none_heard).
          bind-Returns (λ s. (IsHung s.0 s.0.phase) × (s.1 ≡ []))
            (λ s. (IsHung s.0 s.0.phase) × (s.1 ≡ [])) (run silence clear r.0 events) _
            (run-Quiet v events r.0 oks q)
            (λ s (t, nothing_heard). (t, ap₂ ◌++◌ none_heard nothing_heard)))

  -- A reading that fails hangs the object. Let the backend have returned an error while the head is not
  -- behind the tail and at most v - 2 frames from it, for blocks of v frames: the ring is low by the test of the
  -- callback. Then, however often the two threads take their steps and the object is
  -- started, no frame is heard any more and the callback never finds the end of the file: until another
  -- request is made, the ring stays low with the end not seen, so that the callback waits.
  pub run-hung :
      (v n : ℕ) (events : List (Event T)) (x : Player T)
      → x.phase ≡ returned (negsuc n)
      → x.requestcode ≡ busy
      → x.eof ≡ false
      → is_low x ≡ true
      → All (IsPlayback v) events
      → (y : Player T) × (run silence clear x events ≡ done (y, []))
        × (y.eof ≡ false)
        × (is_low y ≡ true)
  run-hung v n events x p e f g ok =
      let (r, q, (h, nothing_heard)) =
        Returns-done (λ r. (IsHung r.0 r.0.phase) × (r.1 ≡ [])) _
          (run-Quiet v events x ok (subst (IsHung x) (sym p) (e, f, g))) in
      let (not_seen, low) = hung_low r.0 r.0.phase h in
      (r.0, q ∙ ap (λ l. done (r.0, l)) nothing_heard, not_seen, low)

  -- A file that cannot be opened spoils the next one. If another file is opened while the child thread
  -- is about to learn that the first one cannot be, then, also when the second one can be opened, four
  -- steps later the child has closed it, has taken the request as done, and the end of the file is set,
  -- before a frame has been read.
  pub run-spoiled :
      (x : Player T) (file : Source T) (a b c d : ℤ)
      → x.phase ≡ opening none
      → (y : Player T) × (run silence clear x
            (opened (some file) ∷ child_step a ∷ child_step b ∷ child_step c ∷ child_step d ∷ [])
          ≡ done (y, []))
        × (y.eof ≡ true)
        × (y.ambix_t ≡ none)
        × (y.requestcode ≡ nothing)
        × (y.fifohead ≡ y.fifotail)
  unfolding run step child child_at open_file open_done lost field feed
  run-spoiled x file a b c d p =
      subst
        (λ q. Spoiled (
          run silence clear (record x { phase = q })
            (opened (some file) ∷ child_step a ∷ child_step b ∷ child_step c ∷ child_step d ∷ [])))
        (sym p) (_, refl, refl, refl, refl, refl)
    where
      Spoiled : Outcome (Player T × List (List T)) → Type 0
      Spoiled o =
          (y : Player T) × (o ≡ done (y, []))
          × (y.eof ≡ true)
          × (y.ambix_t ≡ none)
          × (y.requestcode ≡ nothing)
          × (y.fifohead ≡ y.fifotail)
