-- ===== src/AmbixRead/Events.antt =====
-- The object never leaves its buffers, whatever its threads do and in whatever order.
use libambix.Base.{
  ℕ, ◌+◌, ◌-◌, ◌≤◌, ◌<◌, ◌≡◌, inl, refl, sym, ◌∙◌, arith, true, not, ◌&&◌, ◌||◌, le→ltb, Option,
  List, [], ◌∷◌, ℤ, pos, negsuc, Outcome, done, Returns, bind-Returns, Returns-done,
}
use libambix.Session.Outcomes.{if-holds}
use libambix.AmbixRead.Bounds.{size-le, block-fits, tail_moved, head_reset}
use libambix.AmbixRead.Safety.{IsPlaced, IsSafe, child-IsSafe}
use libambix.AmbixRead.{
  State, idle, startup, stream, is_busy, is_stream, Source, Phase, fielding, opening, feeding,
  reading, merging, returned, closing, quitting, finished, Player, Performed, frames_at,
}
use libambix.AmbixRead.Child.{child}
use libambix.AmbixRead.Callback.{
  drained, moved_on, deinterleave_samples, is_low, perform, start, start_at, stop, open_file, tick,
  dsp, buffer_frames, new,
}
use libambix.AmbixRead.Steps.{
  Event, child_step, performed, started, stopped, ticked, opened, step, run,
}

module _ {T : Type 0} where
  -- The placing depends on the handle, the request and the counters alone.
  IsPlaced-as :
      (x y : Player T) (p : Phase T)
      → x.ambix_t ≡ y.ambix_t
      → x.fifosize ≡ y.fifosize
      → (is_busy y.requestcode ≡ true
          → (is_busy x.requestcode ≡ true) × (x.fifohead ≡ y.fifohead) × (x.fifosize ≡ y.fifosize))
      → IsPlaced x p
      → IsPlaced y p
  IsPlaced-as x y fielding e same f q = tt
  IsPlaced-as x y (opening file) e same f q = tt
  IsPlaced-as x y feeding e same f ((file, h), q) =
      ((file, sym e ∙ h), λ b. omega (arith, q (f b).0, f b))
  IsPlaced-as x y (reading fifohead wantframes) e same f ((file, h), w, q) =
      ((file, sym e ∙ h), omega (arith, w, same), λ b. omega (arith, q (f b).0, f b))
  IsPlaced-as x y (merging fifohead sysrtn g left) e same f ((file, h), q) =
      ((file, sym e ∙ h), λ b. omega (arith, q (f b).0, f b))
  IsPlaced-as x y (returned (pos n)) e same f ((file, h), q) =
      ((file, sym e ∙ h), λ b. omega (arith, q (f b).0, f b))
  IsPlaced-as x y (returned (negsuc n)) e same f q = tt
  IsPlaced-as x y closing e same f q = tt
  IsPlaced-as x y quitting e same f q = tt
  IsPlaced-as x y finished e same f q = tt

  pub deinterleave_samples-Returns :
      (x : Player T) (n : ℕ)
      → n ≤ x.vecsize
      → x.fifotail + n ≤ x.bufframes
      → Returns (λ frames. frames ≡ frames_at x.buf x.fifotail n) (deinterleave_samples x n)
  unfolding deinterleave_samples
  deinterleave_samples-Returns x n small fits =
      rw (le→ltb x.vecsize n small, le→ltb x.bufframes (x.fifotail + n) fits) refl

  perform-IsSafe : (v : ℕ) (x : Player T) → IsSafe v x → Returns (λ r. IsSafe v r.0) (perform x)
  unfolding perform
  perform-IsSafe v x s =
      if-holds R (x.f_matrix || x.f_ambix) _ _ (λ _. s)
        (λ _.
          if-holds R (not (is_stream x.state)) _ _ (λ _. s)
            (λ _.
              if-holds R (not x.eof && is_low x) _ _ (λ _. s)
                (λ _.
                  if-holds R (x.eof && is_low x) _ _
                    (λ low.
                      bind-Returns
                        (λ frames.
                          frames ≡ frames_at x.buf x.fifotail (x.fifohead - x.fifotail + 1))
                        (λ r. IsSafe v r.0) (deinterleave_samples x (x.fifohead - x.fifotail + 1)) _
                        (deinterleave_samples-Returns x (x.fifohead - x.fifotail + 1)
                          (ground (arith, low)) (last-fits low))
                        (λ frames e. record {
                          bounds = s.bounds;
                          placed =
                              IsPlaced-as x (drained x) x.phase refl refl (λ b. (b, refl, refl))
                                s.placed;
                        }))
                    (λ _.
                      bind-Returns (λ frames. frames ≡ frames_at x.buf x.fifotail x.vecsize)
                        (λ r. IsSafe v r.0) (deinterleave_samples x x.vecsize) _
                        (deinterleave_samples-Returns x x.vecsize (omega arith)
                          (omega (arith, block-fits s.bounds, s.bounds.vector)))
                        (λ frames e. record {
                          bounds = tail_moved s.bounds;
                          placed =
                              IsPlaced-as x (moved_on x) x.phase refl refl (λ b. (b, refl, refl))
                                s.placed;
                        })))))
    where
      R : Outcome (Player T × Performed T) → Type 0
      R = Returns (λ r. IsSafe v r.0)

      last-fits :
          (x.eof && is_low x) ≡ true → x.fifotail + (x.fifohead - x.fifotail + 1) ≤ x.bufframes
      last-fits low =
          ground (arith, low, s.bounds.head, size-le s.bounds, s.bounds.buffer, s.bounds.vector-pos)

  stop-IsSafe : (v : ℕ) (x : Player T) → IsSafe v x → IsSafe v (stop x)
  unfolding stop
  stop-IsSafe v x s = record {
    bounds = s.bounds;
    placed = IsPlaced-as x (stop x) x.phase refl refl (λ b. cc) s.placed;
  }

  open_file-IsSafe :
      (v : ℕ) (x : Player T) (file : Option (Source T)) → IsSafe v x → IsSafe v (open_file x file)
  unfolding open_file
  open_file-IsSafe v x file s = record {
    bounds = head_reset s.bounds;
    placed = IsPlaced-as x (open_file x file) x.phase refl refl (λ b. cc) s.placed;
  }

  tick-IsSafe : (v : ℕ) (x : Player T) → IsSafe v x → IsSafe v (tick x)
  unfolding tick
  tick-IsSafe v x s = record {
    bounds = s.bounds;
    placed = IsPlaced-as x (tick x) x.phase refl refl (λ b. (b, refl, refl)) s.placed;
  }

  start-IsSafe : (v : ℕ) (x : Player T) → IsSafe v x → IsSafe v (start x)
  unfolding start start_at
  start-IsSafe v x s = start_from x.state
    where
      start_from : (state : State) → IsSafe v (start_at x state)
      start_from idle = s
      start_from stream = s
      start_from startup = record {
        bounds = s.bounds;
        placed =
            IsPlaced-as x (record x { state = stream }) x.phase refl refl (λ b. (b, refl, refl))
              s.placed;
      }

module _ {T : Type 0} (silence : T) (clear : (bufsize : ℕ) → (ℕ → List T) → ℕ → List T) where
  step-IsSafe :
      (v : ℕ) (x : Player T) (e : Event T)
      → IsSafe v x
      → Returns (λ r. IsSafe v r.0) (step silence clear x e)
  unfolding step child
  step-IsSafe v x (child_step answer) s =
      bind-Returns (IsSafe v) (λ r. IsSafe v r.0) (child silence clear x answer) _
        (child-IsSafe silence clear v x answer x.phase s s.placed) (λ y t. t)
  step-IsSafe v x performed s = perform-IsSafe v x s
  step-IsSafe v x started s = start-IsSafe v x s
  step-IsSafe v x stopped s = stop-IsSafe v x s
  step-IsSafe v x ticked s = tick-IsSafe v x s
  step-IsSafe v x (opened file) s = open_file-IsSafe v x file s

  run-Returns :
      (v : ℕ) (events : List (Event T)) (x : Player T)
      → IsSafe v x
      → Returns (λ r. IsSafe v r.0) (run silence clear x events)
  unfolding run
  run-Returns v [] x s = s
  run-Returns v (e ∷ events) x s =
      bind-Returns (λ r. IsSafe v r.0) (λ r. IsSafe v r.0) (step silence clear x e) _
        (step-IsSafe v x e s)
        (λ r t.
          bind-Returns (λ r. IsSafe v r.0) (λ r. IsSafe v r.0) (run silence clear r.0 events) _
            (run-Returns v events r.0 t) (λ q u. u))

buffer_frames-bounds : (n : ℤ) → (65536 ≤ buffer_frames n) × (buffer_frames n ≤ 4194304)
unfolding buffer_frames
buffer_frames-bounds (negsuc n) = omega arith
buffer_frames-bounds (pos n) = ground arith

pub new-IsSafe :
    {T : Type 0} (buf : ℕ → List T) (achannels xchannels : ℤ) (bufframes : ℤ) (v : ℕ)
    → 0 < v
    → v ≤ 65536
    → IsSafe v (dsp (new buf achannels xchannels bufframes) v)
unfolding new dsp
new-IsSafe buf achannels xchannels bufframes v more small = record {
  bounds = record {
    vector = refl;
    vector-pos = more;
    buffer = omega (arith, buffer_frames-bounds bufframes);
    size = inl refl;
    head = omega arith;
    tail = omega arith;
    tail-IsWhole = (0, omega arith);
  };
  placed = tt;
}

module _ {T : Type 0} (silence : T) (clear : (bufsize : ℕ) → (ℕ → List T) → ℕ → List T) where
  pub run-IsSafe :
      (buf : ℕ → List T) (achannels xchannels : ℕ) (bufframes : ℤ) (v : ℕ) (events : List (Event T))
      → 0 < v
      → v ≤ 65536
      → (r : Player T × List (List T)) × (run silence clear
            (dsp (new buf (pos achannels) (pos xchannels) bufframes) v)
            events
          ≡ done r)
        × IsSafe v r.0
  run-IsSafe buf achannels xchannels bufframes v events more small =
      Returns-done (λ r. IsSafe v r.0) _
        (run-Returns silence clear v events _
          (new-IsSafe buf (pos achannels) (pos xchannels) bufframes v more small))
