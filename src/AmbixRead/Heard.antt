-- ===== src/AmbixRead/Heard.antt =====
-- What is heard of a file, in whatever order the threads take their steps.
use mathlib.Core.List.{append_assoc, append-nil}
use libambix.Base.{
  inr, ◌⊎◌, ap, ◌∙◌, ℕ, ◌+◌, ◌≤◌, ◌<◌, ◌≡◌, refl, sym, subst, arith, inl, false, some, List, [],
  ◌∷◌, ◌++◌, All, map, length, length-map, ℤ, pos, done, Returns, bind-Returns, Returns-done,
}
use libambix.AmbixRead.{
  State, idle, startup, stream, Source, Phase, Player, readframes, merge_samples, fielding, feeding,
  reading, merging, returned, closing, quitting, finished, busy, opening,
}
use libambix.AmbixRead.Child.{field, open_done, child_at, child}
use libambix.AmbixRead.Callback.{perform, start, start_at, tick, new, dsp, buffer_frames, open_file}
use libambix.AmbixRead.Steps.{
  Event, child_step, performed, started, stopped, ticked, opened, heard, step, run,
}
use libambix.AmbixRead.Bounds.{IsWhole, IsWhole-lt, ring_opened, whole_frames-IsWhole}
use libambix.AmbixRead.Ring.{place, window}
use libambix.AmbixRead.Safety.{IsSafe}
use libambix.AmbixRead.Events.{new-IsSafe}
use libambix.AmbixRead.Order.{Stage, view, Playing}
use libambix.AmbixRead.Playback.{Ended, Hears, perform-Hears}
use libambix.AmbixRead.Idle.{Returns-also, child_at-state, perform-idle}
use libambix.AmbixRead.Filling.{child-Playing}

-- An event while a file plays: the backend answers with whole blocks or with an error, and nothing else is
-- requested.
abbrev pub IsPlayback : {T : Type 0} → (v : ℕ) → Event T → Type 0
IsPlayback v (child_step answer) = (n : ℕ) → answer ≡ pos n → IsWhole v n
IsPlayback v performed = Unit
IsPlayback v started = Unit
IsPlayback v ticked = Unit
IsPlayback v stopped = ⊥
IsPlayback v (opened file) = ⊥

module _ {T : Type 0} (v : ℕ) (all : List (List T)) (silence : T)
    (clear : (bufsize : ℕ) → (ℕ → List T) → ℕ → List T)
    (odd_all : ¬ IsWhole v (length all + 1)) where
  start-Playing :
      (x : Player T) (out : List (List T))
      → Playing v all silence x out
      → (state : State) → Playing v all silence (start_at x state) out
  unfolding start_at
  start-Playing x out p idle = p
  start-Playing x out p stream = p
  start-Playing x out p startup = record {
    level = p.level;
    counters = p.counters;
    whole = p.whole;
    stage = p.stage;
  }

  start-idle : (x : Player T) → x.state ≡ idle → (start_at x x.state).state ≡ idle
  unfolding start_at
  start-idle x e = ap (λ q. (start_at x q).state) e ∙ e

  -- What has been heard does not change in a step that plays nothing.
  heard_before :
      (x y : Player T) (out : List (List T)) (blocks : List (List T))
      → Playing v all silence y blocks
      → (x.state ≡ idle → y.state ≡ idle)
      → ((out ≡ blocks) ⊎ ((x.state ≡ idle) × Ended v all silence odd_all out))
      → Hears v all silence odd_all y (out ++ [])
  heard_before x y out blocks p kept (inl e) = (blocks, p, inl (append-nil out ∙ e))
  heard_before x y out blocks p kept (inr (e, f)) =
      (blocks, p, inr (kept e, subst (Ended v all silence odd_all) (sym (append-nil out)) f))

  perform-heard :
      (x : Player T) (out blocks : List (List T))
      → Playing v all silence x blocks
      → ((out ≡ blocks) ⊎ ((x.state ≡ idle) × Ended v all silence odd_all out))
      → Returns (λ r. Hears v all silence odd_all r.0 (out ++ heard r.1)) (perform x)
  perform-heard x out blocks p (inl e) =
      subst (λ o. Returns (λ r. Hears v all silence odd_all r.0 (o ++ heard r.1)) (perform x))
        (sym e) (perform-Hears v all silence odd_all x blocks p)
  perform-heard x out blocks p (inr (e, f)) =
      subst (Returns (λ r. Hears v all silence odd_all r.0 (out ++ heard r.1)))
        (sym (perform-idle x e)) (heard_before x x out blocks p (λ q. q) (inr (e, f)))

  step-Hears :
      (x : Player T) (out : List (List T)) (e : Event T)
      → IsWhole v readframes
      → IsPlayback v e
      → Hears v all silence odd_all x out
      → Returns (λ r. Hears v all silence odd_all r.0 (out ++ heard r.1)) (step silence clear x e)
  unfolding step child start tick
  step-Hears x out (child_step answer) many ok (blocks, p, h) =
      bind-Returns (λ y. Playing v all silence y blocks × (y.state ≡ x.state))
        (λ r. Hears v all silence odd_all r.0 (out ++ heard r.1)) (child silence clear x answer) _
        (Returns-also (λ y. Playing v all silence y blocks) (λ y. y.state ≡ x.state)
          (child_at silence clear x answer x.phase)
          (child-Playing v all silence clear x blocks answer x.phase many ok p p.stage)
          (child_at-state silence clear x answer x.phase))
        (λ y (q, same). heard_before x y out blocks q (λ e. same ∙ e) h)
  step-Hears x out performed many ok (blocks, p, h) = perform-heard x out blocks p h
  step-Hears x out started many ok (blocks, p, h) =
      heard_before x (start_at x x.state) out blocks (start-Playing x blocks p x.state)
        (start-idle x) h
  step-Hears x out ticked many ok (blocks, p, h) =
      heard_before x (tick x) out blocks
        (record { level = p.level; counters = p.counters; whole = p.whole; stage = p.stage })
        (λ e. e) h
  step-Hears x out stopped many ok h = elim ok [ ]
  step-Hears x out (opened file) many ok h = elim ok [ ]

  run-Hears :
      (events : List (Event T)) (x : Player T) (out : List (List T))
      → IsWhole v readframes
      → All (IsPlayback v) events
      → Hears v all silence odd_all x out
      → Returns (λ r. Hears v all silence odd_all r.0 (out ++ r.1)) (run silence clear x events)
  unfolding run
  run-Hears [] x out many ok h = subst (Hears v all silence odd_all x) (sym (append-nil out)) h
  run-Hears (e ∷ events) x out many (ok, oks) h =
      bind-Returns (λ r. Hears v all silence odd_all r.0 (out ++ heard r.1))
        (λ r. Hears v all silence odd_all r.0 (out ++ r.1)) (step silence clear x e) _
        (step-Hears x out e many ok h)
        (λ r q.
          bind-Returns (λ s. Hears v all silence odd_all s.0 ((out ++ heard r.1) ++ s.1))
            (λ s. Hears v all silence odd_all s.0 (out ++ s.1)) (run silence clear r.0 events) _
            (run-Hears events r.0 (out ++ heard r.1) many oks q)
            (λ s t. subst (Hears v all silence odd_all s.0) (append_assoc out (heard r.1) s.1) t))

  Stage-rest :
      (x : Player T) (out : List (List T)) (p : Playing v all silence x out)
      → (q : Phase T) → Stage v all (view silence x) out p.level q
      → (rest : List (List T)) × (out ++ rest ≡ all)
  Stage-rest x out p fielding (e, left, (m, w)) = (_, m)
  Stage-rest x out p feeding (e, left, rd, (m, w)) = (_, m)
  Stage-rest x out p (reading h n) (e, a, b, c, left, rd, (m, w), d) = (_, m)
  Stage-rest x out p (merging h n f todo) (e, a, b, c, d, g, w, left, rd, s, m) = (_, m)
  Stage-rest x out p (returned z) (e, a, left, (m, w)) = (_, m)
  Stage-rest x out p (opening file) s = elim s [ ]
  Stage-rest x out p closing s = elim s [ ]
  Stage-rest x out p quitting s = elim s [ ]
  Stage-rest x out p finished s = elim s [ ]

-- A new object that has been told to open a file, after two steps of its child.
abbrev pub opening_file :
    {T : Type 0} → Source T → (answer answer' : ℤ) → List (Event T) → List (Event T)
opening_file file answer answer' events =
    opened (some file) ∷ child_step answer ∷ child_step answer' ∷ events

-- The frames of a file as the object plays them.
abbrev pub frames_of : {T : Type 0} → (silence : T) → Player T → Source T → List (List T)
frames_of silence x file = map (merge_samples silence x.ambichannels x.xtrachannels) file.frames

module _ {T : Type 0} (silence : T) (clear : (bufsize : ℕ) → (ℕ → List T) → ℕ → List T) where
  -- The object once the file is open.
  abbrev opening_player : Player T → Source T → Player T
  opening_player x file = record (open_file x (some file)) {
    requestcode = busy;
    fileerror = false;
    phase = opening (some file);
  }

  run-opening :
      (buf : ℕ → List T) (achannels xchannels : ℤ) (bufframes : ℤ) (v : ℕ) (file : Source T)
      (answer answer' : ℤ) (events : List (Event T)) (P : Player T × List (List T) → Type 0)
      → Returns P (
          run silence clear
            (open_done silence clear
              (opening_player (dsp (new buf achannels xchannels bufframes) v) file)
              (some file))
            events)
      → Returns P (
          run silence clear
            (dsp (new buf achannels xchannels bufframes) v)
            (opening_file file answer answer' events))
  unfolding run step child child_at open_file field new dsp
  run-opening buf achannels xchannels bufframes v file answer answer' events P h =
      bind-Returns P P _ _ (bind-Returns P P _ _ (bind-Returns P P _ _ h (λ r q. q)) (λ r q. q))
        (λ r q. q)

  opened-Playing :
      (buf : ℕ → List T) (achannels xchannels : ℤ) (bufframes : ℤ) (v : ℕ) (file : Source T)
      → 1 < v
      → IsWhole v readframes
      → let x = dsp (new buf achannels xchannels bufframes) v in
        Playing v
          (frames_of silence x file)
          silence
          (open_done silence clear (opening_player x file) (some file))
          []
  unfolding open_done open_file new dsp window place
  opened-Playing buf achannels xchannels bufframes v file more many =
      let small : v ≤ 65536 =
        omega (arith, IsWhole-lt v 0 readframes (0, omega arith) many (omega arith)) in
      let (bounds, larger) = ring_opened (
        IsSafe.bounds
          (new-IsSafe buf achannels xchannels bufframes v (omega (arith, more)) small)) in
      record {
        level = 0;
        counters = record {
          vector = refl;
          vector-lt = more;
          inside = omega arith;
          size-IsWhole = whole_frames-IsWhole (buffer_frames bufframes) v;
          tail-IsWhole = (0, omega arith);
          tail-lt = larger;
          level-lt = larger;
          head-eq = ground (arith, larger);
        };
        whole = (0, omega arith);
        stage = (refl, file.frames, (file, refl, refl), (refl, inl (0, omega arith)));
      }

  pub run-prefix :
      (buf : ℕ → List T) (achannels xchannels : ℕ) (bufframes : ℤ) (v : ℕ) (file : Source T)
      (answer answer' : ℤ) (events : List (Event T))
      → 1 < v
      → IsWhole v readframes
      → ¬ IsWhole v (length file.frames + 1)
      → All (IsPlayback v) events
      → let x = dsp (new buf (pos achannels) (pos xchannels) bufframes) v in
        (r : Player T × List (List T)) × (run silence clear x
            (opening_file file answer answer' events)
          ≡ done r)
        × (played rest : List (List T)) × (played ++ rest ≡ frames_of silence x file)
        × (((r.1 ≡ played) × IsWhole v (length played))
            ⊎ ((more : List T) × (r.1 ≡ played ++ (more ∷ []))))
  run-prefix buf achannels xchannels bufframes v file answer answer' events more many odd ok =
      let x = dsp (new buf (pos achannels) (pos xchannels) bufframes) v in
      let all = frames_of silence x file in
      let odd_all : ¬ IsWhole v (length all + 1) = λ w. odd (
        subst (λ n. IsWhole v (n + 1))
          (length-map file.frames (merge_samples silence x.ambichannels x.xtrachannels)) w) in
      let (r, e, (blocks, p, h)) =
        Returns-done (λ r. Hears v all silence odd_all r.0 r.1)
          (run silence clear x (opening_file file answer answer' events))
          (run-opening buf (pos achannels) (pos xchannels) bufframes v file answer answer' events
            (λ r. Hears v all silence odd_all r.0 r.1)
            (run-Hears v all silence clear odd_all events _ [] many ok (
              [],
              opened-Playing buf (pos achannels) (pos xchannels) bufframes v file more many,
              inl refl,
            ))) in
      elim h [
        | inl same ↦
            let (rest, f) = Stage-rest v all silence clear odd_all r.0 blocks p r.0.phase p.stage in
            (r, e, blocks, rest, f, inl (same, p.whole))
        | inr (still, (played, stale, out, rest, f)) ↦ (r, e, played, rest, f, inr (stale, out))
      ]
