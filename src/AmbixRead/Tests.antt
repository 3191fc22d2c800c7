-- ===== src/AmbixRead/Tests.antt =====
-- An object with one outlet, and a file of two frames.
use libambix.Base.{
  ◌⊎◌, ℕ, ◌+◌, ◌<◌, ◌≤◌, ◌≡◌, refl, arith, true, false, inr, none, some, List, [], ◌∷◌, ◌++◌,
  length, pos, negsuc, done,
}
use libambix.AmbixRead.{
  stream, nothing, busy, Source, opening, feeding, reading, returned, Player, waits, block, last,
  merge_samples,
}
use libambix.AmbixRead.Child.{
  room, child, child_at, field, open_done, feed, read_source, got_from, merge, merge_at, commit,
}
use libambix.AmbixRead.Callback.{
  is_low, deinterleave_samples, moved_on, drained, perform, new, limited, too_many, dsp, open_file,
  start, start_at, tick, buffer_frames,
}
use libambix.AmbixRead.Steps.{Event, child_step, performed, started, ticked, opened, run, step}
use libambix.AmbixRead.Bounds.{IsWhole, Bounds}
use libambix.AmbixRead.Safety.{IsSafe}
use libambix.AmbixRead.Events.{run-IsSafe}
use libambix.AmbixRead.Heard.{opening_file, frames_of, run-prefix}
use libambix.AmbixRead.Waiting.{IsStreaming, perform-waits}
use libambix.AmbixRead.Failures.{perform-stale, perform-stale_last, run-hung, run-spoiled}

-- A frame of one channel for an object with three ambisonics and two extra channels.
padded : merge_samples {T = ℕ} 0 3 2 (1 ∷ [], 7 ∷ 8 ∷ 9 ∷ []) ≡ 1 ∷ 0 ∷ 0 ∷ 7 ∷ 8 ∷ []
unfolding merge_samples
padded = refl

abbrev clear : (bufsize : ℕ) → (ℕ → List ℕ) → ℕ → List ℕ
clear bufsize buf i = []

abbrev two_frames : Source ℕ
two_frames = record { has_matrix = false; frames = (5 ∷ [], []) ∷ (6 ∷ [], []) ∷ [] }

abbrev no_frames : ℕ → List ℕ
no_frames i = []

-- The child puts the two frames in the ring, and the callback plays them.
abbrev playback : List (Event ℕ)
playback =
    started
    ∷ ticked
    ∷ child_step (pos 0)
    ∷ child_step (pos 2)
    ∷ child_step (pos 0)
    ∷ child_step (pos 0)
    ∷ child_step (pos 0)
    ∷ performed
    ∷ []

run-IsSafe_example :
    (r : Player ℕ × List (List ℕ)) × (run 0 clear
        (dsp (new no_frames (pos 1) (pos 0) (pos 0)) 64)
        (opened none ∷ playback)
      ≡ done r)
    × IsSafe 64 r.0
run-IsSafe_example =
    run-IsSafe 0 clear no_frames 1 0 (pos 0) 64 (opened none ∷ playback) (omega arith) (omega arith)

run-prefix_example :
    (r : Player ℕ × List (List ℕ)) × (run 0 clear
        (dsp (new no_frames (pos 1) (pos 0) (pos 0)) 2)
        (opening_file two_frames (pos 0) (pos 0) playback)
      ≡ done r)
    × (played rest : List (List ℕ)) × (played ++ rest
        ≡ frames_of 0 (dsp (new no_frames (pos 1) (pos 0) (pos 0)) 2) two_frames)
    × (((r.1 ≡ played) × IsWhole 2 (length played))
        ⊎ ((more : List ℕ) × (r.1 ≡ played ++ (more ∷ []))))
run-prefix_example =
    run-prefix 0 clear no_frames 1 0 (pos 0) 2 two_frames (pos 0) (pos 0) playback (omega arith)
      (8192, refl) (λ w. omega arith)
      (
        tt,
        (
          tt,
          (
            λ n e. (0, ground (arith, e)),
            (
              λ n e. (1, ground (arith, e)),
              (
                λ n e. (0, ground (arith, e)),
                (λ n e. (0, ground (arith, e)), (λ n e. (0, ground (arith, e)), (tt, tt))),
              ),
            ),
          ),
        ),
      )

two_heard :
    (r : Player ℕ × List (List ℕ)) × (run 0 clear
        (dsp (new no_frames (pos 1) (pos 0) (pos 0)) 2)
        (opening_file two_frames (pos 0) (pos 0) playback)
      ≡ done r)
    × (r.1 ≡ (5 ∷ []) ∷ (6 ∷ []) ∷ [])
unfolding run step child child_at field open_file open_done feed room read_source got_from merge
    merge_samples merge_at commit perform start start_at tick deinterleave_samples new limited
    too_many dsp buffer_frames
two_heard = (_, refl, refl)

-- A ring with nothing in it, or with three frames.
abbrev player : (vecsize fifohead : ℕ) → Player ℕ
player vecsize fifohead = record {
  buf = λ i. i ∷ [];
  bufframes = 65536;
  ambichannels = 1;
  xtrachannels = 0;
  vecsize = vecsize;
  state = stream;
  requestcode = busy;
  filename = some two_frames;
  fileerror = false;
  ambix_t = some two_frames;
  f_eof = false;
  f_matrix = false;
  f_ambix = false;
  fifosize = 65536;
  fifohead = fifohead;
  fifotail = 0;
  eof = false;
  phase = feeding;
}

player-IsStreaming : (vecsize fifohead : ℕ) → IsStreaming (player vecsize fifohead)
player-IsStreaming vecsize fifohead = record {
  matrix_sent = refl;
  ambix_sent = refl;
  streaming = refl;
}

low_waits : perform (player 64 0) ≡ done (player 64 0, waits)
unfolding perform
low_waits = refl

perform-waits_example :
    (wantframes : ℕ) × (child 0 clear (player 64 0) (pos 0)
      ≡ done (record (player 64 0) { phase = reading 0 wantframes }))
    × (0 < wantframes)
    × (0 + wantframes ≤ 65536)
perform-waits_example =
    perform-waits 0 clear (player 64 0) (pos 0) low_bounds (omega arith) (player-IsStreaming 64 0)
      refl refl refl low_waits
  where
    low_bounds : Bounds 64 64 65536 65536 0 0
    low_bounds = record {
      vector = refl;
      vector-pos = omega arith;
      buffer = omega arith;
      size = inr refl;
      head = omega arith;
      tail = omega arith;
      tail-IsWhole = (0, refl);
    }

perform-stale_example :
    perform (player 4 3)
    ≡ done (moved_on (player 4 3), block (((0 ∷ []) ∷ (1 ∷ []) ∷ (2 ∷ []) ∷ []) ++ ((3 ∷ []) ∷ [])))
perform-stale_example =
    perform-stale (player 4 3) 3 (player-IsStreaming 4 3) refl (omega arith) refl

abbrev ended : Player ℕ
ended = record (player 64 1) { eof = true }

perform-stale_last_example :
    perform ended ≡ done (drained ended, last (((0 ∷ []) ∷ []) ++ ((1 ∷ []) ∷ [])))
perform-stale_last_example =
    perform-stale_last ended 1 (record { matrix_sent = refl; ambix_sent = refl; streaming = refl })
      refl refl (omega arith) (omega arith)

run-hung_example :
    (y : Player ℕ) × (run 0 clear
        (record (player 64 1) { phase = returned (negsuc 4) })
        (child_step (pos 0) ∷ performed ∷ performed ∷ [])
      ≡ done (y, []))
    × (y.eof ≡ false)
    × (is_low y ≡ true)
run-hung_example =
    run-hung 0 clear 64 4 (child_step (pos 0) ∷ performed ∷ performed ∷ [])
      (record (player 64 1) { phase = returned (negsuc 4) }) refl refl refl refl
      (λ n e. (0, ground (arith, e)), (tt, (tt, tt)))

run-spoiled_example :
    (y : Player ℕ) × (run 0 clear
        (record (player 64 0) { phase = opening none })
        (opened (some two_frames)
          ∷ child_step (pos 0)
          ∷ child_step (pos 0)
          ∷ child_step (pos 0)
          ∷ child_step (pos 0)
          ∷ [])
      ≡ done (y, []))
    × (y.eof ≡ true)
    × (y.ambix_t ≡ none)
    × (y.requestcode ≡ nothing)
    × (y.fifohead ≡ y.fifotail)
run-spoiled_example =
    run-spoiled 0 clear (record (player 64 0) { phase = opening none }) two_frames (pos 0) (pos 0)
      (pos 0) (pos 0) refl
