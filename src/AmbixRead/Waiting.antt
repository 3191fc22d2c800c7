-- ===== src/AmbixRead/Waiting.antt =====
-- What the audio callback does with its ring, and when the two threads wait for each other.
use libambix.Base.{
  ℕ, ◌+◌, ◌-◌, ◌≤◌, ◌<◌, ◌≡◌, ◌≢◌, inl, inr, ap, ◌∙◌, arith, true, false, Bool-cases, Option-cases,
  none, List, ℤ, done, Returns-done,
}
use libambix.AmbixRead.{
  stream, busy, feeding, reading, Player, waits, block, last, readframes, frames_at,
}
use libambix.AmbixRead.Child.{room, feed, child_at, child}
use libambix.AmbixRead.Callback.{is_low, perform, drained, moved_on}
use libambix.AmbixRead.Bounds.{Bounds, block-fits}
use libambix.AmbixRead.Events.{deinterleave_samples-Returns}
use libambix.AmbixRead.Safety.{room-fits}

-- The object plays, and nothing keeps it from its ring.
pub record IsStreaming {T : Type 0} (x : Player T) : Type 0 where
  pub matrix_sent : x.f_matrix ≡ false
  pub ambix_sent : x.f_ambix ≡ false
  pub streaming : x.state ≡ stream

module _ {T : Type 0} where
  pub perform-block :
      (x : Player T)
      → IsStreaming x
      → is_low x ≡ false
      → x.fifotail + x.vecsize ≤ x.bufframes
      → perform x ≡ done (moved_on x, block (frames_at x.buf x.fifotail x.vecsize))
  unfolding perform
  perform-block x s high fits =
      let (frames, e, f) =
        Returns-done (λ fr. fr ≡ frames_at x.buf x.fifotail x.vecsize) _
          (deinterleave_samples-Returns x x.vecsize (omega arith) fits) in
      ground (arith, s.matrix_sent, s.ambix_sent, s.streaming, high, e, f)

  pub perform-last :
      (x : Player T)
      → IsStreaming x
      → x.eof ≡ true
      → is_low x ≡ true
      → x.fifohead < x.bufframes
      → perform x
        ≡ done (drained x, last (frames_at x.buf x.fifotail (x.fifohead - x.fifotail + 1)))
  unfolding perform
  perform-last x s e low fits =
      let (frames, f, g) =
        Returns-done (λ fr. fr ≡ frames_at x.buf x.fifotail (x.fifohead - x.fifotail + 1)) _
          (deinterleave_samples-Returns x (x.fifohead - x.fifotail + 1) (ground (arith, low))
            (ground (arith, low, fits))) in
      ground (arith, s.matrix_sent, s.ambix_sent, s.streaming, low, e, f, g)

  has_room :
      (x : Player T) (v : ℕ)
      → Bounds v x.vecsize x.bufframes x.fifosize x.fifohead x.fifotail
      → readframes + v ≤ x.fifosize
      → is_low x ≡ true
      → room x ≢ none
  unfolding room
  has_room x v r large low f = ground (arith, r.vector, large, low, f)

  -- The two threads never wait for each other: let the child thread be at the top of the loop that feeds
  -- the ring, in a ring with room for 16384 frames and a block, with the end of the file not seen. If the
  -- audio callback waits for frames, the next step of the child is to go and read some, in
  -- a place that is inside the ring.
  pub perform-waits :
      {v : ℕ} (silence : T) (clear : (bufsize : ℕ) → (ℕ → List T) → ℕ → List T) (x : Player T)
      (answer : ℤ)
      → Bounds v x.vecsize x.bufframes x.fifosize x.fifohead x.fifotail
      → readframes + v ≤ x.fifosize
      → IsStreaming x
      → x.phase ≡ feeding
      → x.requestcode ≡ busy
      → x.eof ≡ false
      → perform x ≡ done (x, waits)
      → (wantframes : ℕ) × (child silence clear x answer
          ≡ done (record x { phase = reading x.fifohead wantframes }))
        × (0 < wantframes)
        × (x.fifohead + wantframes ≤ x.fifosize)
  unfolding child child_at feed
  perform-waits {v} silence clear x answer r large s p e not_seen waiting =
      elim (Bool-cases (is_low x)) [
        | inr high ↦
            absurd
              (not_waiting waiting (perform-block x s high (omega (arith, block-fits r, r.vector))))
        | inl low ↦ elim (Option-cases (room x)) [
          | inl f ↦ absurd (has_room x v r large low f)
          | inr (w, f) ↦
              let (fits, more) = room-fits x r.head r.tail (omega (arith, large)) f in
              let reads : feed x ≡ record x { phase = reading x.fifohead w } =
                ground (arith, e, not_seen, f) in
              (w, ap (child_at silence clear x answer) p ∙ ap done reads, more, fits)
        ]
      ]
    where
      not_waiting :
          {z : Player T} {frames : List (List T)}
          → perform x ≡ done (x, waits)
          → perform x ≡ done (z, block frames)
          → ⊥
      not_waiting a b = cc
