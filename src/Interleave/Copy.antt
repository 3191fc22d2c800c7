-- ===== src/Interleave/Copy.antt =====
-- All blocks of a copy: what is written does not depend on the size of a block.
use native.Mathlib.Nat.{mul-le-mul_left}
use mathlib.Core.List.{append_assoc}
use libambix.Base.{
  length-frames_from, le→ltb, length, false, ◌∷◌, [], ℕ, zero, suc, ◌+◌, ◌-◌, ◌*◌, ◌<◌, ◌≤◌, ◌≡◌,
  refl, sym, ap, subst, ◌∙◌, arith, true, false, ==_self, ltb, ltb→lt, ltb→le, if◌then◌else◌,
  Bool-cases, inl, inr, List, [], ◌∷◌, ◌++◌, All, length, drop, ℤ, pos, Outcome, done, ◌>>=◌, table,
  length-table, frames_from, frames_congr,
}
use libambix.Interleave.{
  Interleave, Buffers, max_inchannels, set_size, allocated, channel_set, default_blocksize,
  interleaver, read_inputs, copy_block, copy_blocks, copy,
}
use libambix.Interleave.Rows.{
  frames_from-add, frames_from_shift, interleaver-frames_from, drop-frames_from, table_split,
}
use libambix.Interleave.Block.{
  File, inputs_at, all_channels, combined, read_inputs-done, max_inchannels-All,
}

-- A handle that is ready takes up to `limit` frames of the two channel sets at once, and puts the samples of each frame
-- one after the other.
pub record Writer {H T : Type 0}
    (writef : H → (ambidata otherdata : List T) → (frames : ℕ) → Outcome (H × ℤ))
    (ambichannels extrachannels limit : ℕ) : Type 1 where
  pub IsReady : H → Type 0
  pub taken : H → List T
  pub takes :
      (h : H) (n p : ℕ) (a e : ℕ → List T)
      → IsReady h
      → n ≤ limit
      → ((f : ℕ) → length (a f) ≡ ambichannels)
      → ((f : ℕ) → length (e f) ≡ extrachannels)
      → (h' : H) × (writef h (frames_from n p a) (frames_from n p e) n ≡ done (h', pos n))
        × IsReady h'
        × (taken h' ≡ taken h ++ frames_from n p (λ f. a f ++ e f))

-- The set that is interleaved fits its buffer.
channel_set-done :
    {T : Type 0} (n channels b : ℕ) (source samples : List T)
    → n ≤ b
    → length samples ≡ n * channels
    → interleaver source n channels ≡ done samples
    → channel_set (set_size channels b) source n channels ≡ done samples
unfolding channel_set
channel_set-done n channels b source samples small size e = elim (Bool-cases (ltb 0 channels)) [
  | inr none_there ↦
      let empty : length samples ≡ 0 = ground (arith, none_there, size) in
      rw none_there (ap done (sym (nothing samples empty)))
  | inl there ↦
      let room : length samples ≤ channels * b =
        omega (arith, size, mul-le-mul_left channels small) in
      rw (there, e, le→ltb (channels * b) (length samples) room) refl
]
  where
    nothing : {A : Type 0} (xs : List A) → length xs ≡ 0 → xs ≡ []
    nothing [] h = refl
    nothing (x ∷ xs) h = absurd (omega (arith, h))

-- The frames of a block.
abbrev pub block_frames : {SF H : Type 0} → Interleave SF H → ℕ
block_frames ai = if ltb ai.blocksize 1 then default_blocksize else ai.blocksize

module _ {SF H T : Type 0} (silence : T) (sf_readf_float : SF → (frames : ℕ) → SF × List T × ℕ)
    (writef : H → (ambidata otherdata : List T) → (frames : ℕ) → Outcome (H × ℤ))
    (files : List (File sf_readf_float)) (ai : Interleave SF H) (limit : ℕ)
    (writer : Writer writef ai.ambichannels ai.extrachannels limit) where
  abbrev S : ℕ → ℕ → T
  S = combined silence sf_readf_float files

  abbrev ambi_row : ℕ → List T
  ambi_row f = table ai.ambichannels 0 (S f)

  abbrev extra_row : ℕ → List T
  extra_row f = table ai.extrachannels 0 (λ c. S f (ai.ambichannels + c))

  -- The frames of all channels.
  abbrev pub all_frames : (n p : ℕ) → List T
  all_frames n p = frames_from n p (λ f. ambi_row f ++ extra_row f)

  -- The handles of a copy at a frame.
  abbrev pub at_frame : (p : ℕ) → H → Interleave SF H
  at_frame p h = record ai { inputs = inputs_at silence sf_readf_float files p; outhandle = h }

  -- What has been written since `h`.
  abbrev pub Wrote : (h h' : H) → (n p : ℕ) → Type 0
  Wrote h h' n p = writer.IsReady h' × (writer.taken h' ≡ writer.taken h ++ all_frames n p)

  by_frames :
      (n p : ℕ) (row : ℕ → List T) → frames_from n 0 (λ i. row (p + i)) ≡ frames_from n p row
  by_frames n p row =
      sym (frames_from_shift n 0 p row) ∙ ap (λ q. frames_from n q row) (omega arith)

  -- The buffers for blocks of `b` frames.
  abbrev pub buffers : ℕ → Buffers
  buffers b =
      allocated (inputs_at silence sf_readf_float files 0) ai.ambichannels ai.extrachannels b

  copy_block-Wrote :
      (b p n : ℕ) (h : H)
      → all_channels silence sf_readf_float files ≡ ai.ambichannels + ai.extrachannels
      → n ≤ b
      → n ≤ limit
      → writer.IsReady h
      → All (λ file. p + n ≤ File.total file) files
      → (h' : H) × (copy_block sf_readf_float writef (at_frame p h) (buffers b) n
          ≡ done (at_frame (p + n) h'))
        × Wrote h h' n p
  unfolding copy_block
  copy_block-Wrote b p n h all_eq small few ready long =
      let rows : ℕ → ℕ → T = λ c f. S (p + f) c in
      let amb = ai.ambichannels in
      let extra = ai.extrachannels in
      let buffer : List T = frames_from (amb + extra) 0 (λ c. table n 0 (rows c)) in
      let read : read_inputs sf_readf_float (inputs_at silence sf_readf_float files p)
            (buffers b).sourcedata n (buffers b).interleavebuffer
          ≡ done (inputs_at silence sf_readf_float files (p + n), buffer) =
        read_inputs-done silence sf_readf_float files p n (buffers b).interleavebuffer
          (max_inchannels 0 (inputs_at silence sf_readf_float files 0)) b
          (omega (arith, ap (λ k. k * n) all_eq, mul-le-mul_left (amb + extra) small)) small
          (max_inchannels-All silence sf_readf_float 0 0 files) long
        ∙ ap
            (λ k. done (
              inputs_at silence sf_readf_float files (p + n),
              frames_from k 0 (λ c. table n 0 (rows c)),
            ))
            all_eq in
      let first : channel_set (set_size amb b) buffer n amb ≡ done (frames_from n p ambi_row) =
        channel_set-done n amb b buffer (frames_from n p ambi_row) small
          (length-frames_from amb n p _ (λ f. length-table amb 0 (S f)))
          (interleaver-frames_from n amb (amb + extra) rows (omega arith)
            ∙ ap done (by_frames n p ambi_row)) in
      let second : channel_set (set_size extra b) (drop (n * amb) buffer) n extra
          ≡ done (frames_from n p extra_row) =
        channel_set-done n extra b (drop (n * amb) buffer) (frames_from n p extra_row) small
          (length-frames_from extra n p _ (λ f. length-table extra 0 (λ c. S f (amb + c))))
          (ap (λ l. interleaver l n extra) (drop-frames_from n amb extra rows)
            ∙ interleaver-frames_from n extra extra (λ c. rows (amb + c)) (omega arith)
            ∙ ap done (by_frames n p extra_row)) in
      let (h', taken, ready', now) =
        writer.takes h n p ambi_row extra_row ready few (λ f. length-table amb 0 (S f))
          (λ f. length-table extra 0 (λ c. S f (amb + c))) in
      (h', rw (read, first, second, taken, ==_self n) refl, (ready', now))

  Wrote-both :
      (h h' h'' : H) (n k p : ℕ) → Wrote h h' n p → Wrote h' h'' k (p + n) → Wrote h h'' (n + k) p
  Wrote-both h h' h'' n k p (_, a) (ready, c) = (
    ready,
    c
        ∙ ap (λ l. l ++ all_frames k (p + n)) a
        ∙ append_assoc (writer.taken h) (all_frames n p) (all_frames k (p + n))
        ∙ ap (λ l. writer.taken h ++ l)
            (sym (frames_from-add n k p (λ f. ambi_row f ++ extra_row f))),
  )

  All-shorter :
      (l : List (File sf_readf_float)) (m k : ℕ)
      → k ≤ m
      → All (λ file. m ≤ File.total file) l
      → All (λ file. k ≤ File.total file) l
  All-shorter [] m k h long = tt
  All-shorter (file ∷ l) m k h (fits, long) = (omega (arith, h, fits), All-shorter l m k h long)

  another_block :
      (fuel : ℕ) (x : Interleave SF H) (sizes : Buffers) (b m : ℕ)
      → ltb b m ≡ true
      → copy_blocks sf_readf_float writef (suc fuel) x sizes b m ≡ (
          copy_block sf_readf_float writef x sizes b >>= λ next.
          copy_blocks sf_readf_float writef fuel next sizes b (m - b))
  unfolding copy_blocks
  another_block fuel x sizes b m e = rw (e, copy_blocks) refl

  last_block :
      (fuel : ℕ) (x : Interleave SF H) (sizes : Buffers) (b m : ℕ)
      → ltb b m ≡ false
      → copy_blocks sf_readf_float writef (suc fuel) x sizes b m
        ≡ copy_block sf_readf_float writef x sizes m
  unfolding copy_blocks
  last_block fuel x sizes b m e = rw (e, copy_blocks) refl

  copy_blocks-Wrote :
      (fuel b p m : ℕ) (h : H)
      → all_channels silence sf_readf_float files ≡ ai.ambichannels + ai.extrachannels
      → 0 < b
      → b ≤ limit
      → writer.IsReady h
      → m < fuel
      → All (λ file. p + m ≤ File.total file) files
      → (h' : H) × (copy_blocks sf_readf_float writef fuel (at_frame p h) (buffers b) b m
          ≡ done (at_frame (p + m) h'))
        × Wrote h h' m p
  unfolding copy_blocks
  copy_blocks-Wrote zero b p m h all_eq more few ready enough long = absurd (omega (arith, enough))
  copy_blocks-Wrote (suc fuel) b p m h all_eq more few ready enough long =
      elim (Bool-cases (ltb b m)) [
        | inr e ↦
            let (h', copied, wrote) =
              copy_block-Wrote b p m h all_eq (ltb→le b m e) (omega (arith, few, ltb→le b m e))
                ready long in
            (h', last_block fuel (at_frame p h) (buffers b) b m e ∙ copied, wrote)
        | inl e ↦
            let less : b < m = ltb→lt b m e in
            let (h', copied, wrote) =
              copy_block-Wrote b p b h all_eq (omega arith) few ready
                (All-shorter files (p + m) (p + b) (omega (arith, less)) long) in
            let whole : p + b + (m - b) ≡ p + m = omega (arith, less) in
            let (h'', rest, wrote_rest) =
              copy_blocks-Wrote fuel b (p + b) (m - b) h' all_eq more few wrote.0
                (omega (arith, less, more, enough))
                (All-shorter files (p + m) (p + b + (m - b)) (omega (arith, whole)) long) in
            (
              h'',
              another_block fuel (at_frame p h) (buffers b) b m e
                  ∙ ap
                      (λ o. o >>= λ next.
                        copy_blocks sf_readf_float writef fuel next (buffers b) b (m - b))
                      copied
                  ∙ rest
                  ∙ ap (λ q. done (at_frame q h'')) whole,
              subst (λ k. Wrote h h'' k p) (omega (arith, less))
                  (Wrote-both h h' h'' b (m - b) p wrote wrote_rest),
            )
      ]

-- Copying. Let the channels of all inputs be as many as the ambisonics and the extra channels, let each input
-- have all the frames, and let the handle take the frames of a block. Then, whatever the size of a block
-- is, the copy goes through, reads nothing outside of its buffers, and the handle has taken, of each frame
-- in turn, the channels of the inputs, one file after the other.
pub copy-Wrote :
    {SF H T : Type 0} (silence : T) (sf_readf_float : SF → (frames : ℕ) → SF × List T × ℕ)
    (writef : H → (ambidata otherdata : List T) → (frames : ℕ) → Outcome (H × ℤ))
    (files : List (File sf_readf_float)) (ai : Interleave SF H)
    (writer : Writer writef ai.ambichannels ai.extrachannels (block_frames ai))
    → ai.inputs ≡ inputs_at silence sf_readf_float files 0
    → all_channels silence sf_readf_float files ≡ ai.ambichannels + ai.extrachannels
    → All (λ file. ai.frames ≤ File.total file) files
    → writer.IsReady ai.outhandle
    → (done_ai : Interleave SF H) × (copy sf_readf_float writef ai ≡ done done_ai)
      × (writer.taken done_ai.outhandle
          ≡ writer.taken ai.outhandle
            ++ frames_from ai.frames 0 (λ f.
              table
                (ai.ambichannels + ai.extrachannels)
                0
                (combined silence sf_readf_float files f)))
unfolding copy
copy-Wrote silence sf_readf_float writef files ai writer inputs_eq all_eq long ready =
    let b = block_frames ai in
    let (h', copied, wrote) =
      copy_blocks-Wrote silence sf_readf_float writef files ai b writer (suc ai.frames) b 0
        ai.frames ai.outhandle all_eq (ground arith) (omega arith) ready (omega arith)
        (All-shorter silence sf_readf_float writef files ai b writer files ai.frames (0 + ai.frames)
          (omega arith) long) in
    (
      at_frame silence sf_readf_float writef files ai b writer (0 + ai.frames) h',
      ap
            (λ i.
              copy_blocks sf_readf_float writef (suc ai.frames) (record ai { inputs = i })
                (allocated i ai.ambichannels ai.extrachannels b) b ai.frames)
            inputs_eq
          ∙ copied,
      wrote.1
          ∙ ap (λ l. writer.taken ai.outhandle ++ l)
              (frames_congr ai.frames 0 _ _ (λ f p q. sym (
                table_split ai.ambichannels ai.extrachannels
                  (combined silence sf_readf_float files f)))),
    )
