-- ===== src/Interleave/Block.antt =====
-- One block of all inputs.
use libambix.Base.{
  ◌*◌, length-frames_from, length-table, length, ℕ, zero, suc, ◌+◌, ◌-◌, ◌≤◌, ◌≡◌, refl, sym, ap,
  ap₂, ◌∙◌, arith, false, not, ◌&&◌, ◌==◌, ==_self, ltb, le→ltb, lt→ltb, if◌then◌else◌, Bool-cases,
  inl, inr, List, [], ◌∷◌, ◌++◌, All, done, table, table_congr, frames_from, frames_congr,
}
use libambix.Interleave.{Input, deinterleaver, source_size, cooked, max_inchannels, read_inputs}
use native.Mathlib.Nat.{mul-le-mul_left, mul-le-mul_right}
use libambix.Interleave.Rows.{frames_from-add, frames_from_shift, deinterleaver-frames_from}

module _ {T : Type 0} where
  no_columns : (n from : ℕ) (g : ℕ → ℕ → T) → frames_from n from (λ f. table 0 0 (g f)) ≡ []
  no_columns zero from g = refl
  no_columns (suc n) from g = no_columns n (from + 1) g

  one_column :
      (n from : ℕ) (g : ℕ → ℕ → T)
      → frames_from n from (λ f. table 1 0 (g f)) ≡ table n from (λ f. g f 0)
  one_column zero from g = refl
  one_column (suc n) from g = ap (λ l. g from 0 ∷ l) (one_column n (from + 1) g)

  append-nil : (xs : List T) → xs ++ [] ≡ xs
  append-nil [] = refl
  append-nil (x ∷ xs) = ap (λ l. x ∷ l) (append-nil xs)

  -- Nothing is to be turned where there is one channel at most, or no frame.
  same_turned :
      (n channels : ℕ) (g : ℕ → ℕ → T)
      → (ltb 1 channels && not (n == 0)) ≡ false
      → frames_from n 0 (λ f. table channels 0 (g f))
        ≡ frames_from channels 0 (λ c. table n 0 (λ f. g f c))
  same_turned n zero g e = no_columns n 0 g
  same_turned n (suc zero) g e = one_column n 0 g ∙ sym (append-nil (table n 0 (λ f. g f 0)))
  same_turned zero (suc (suc channels)) g e = sym (no_columns (suc (suc channels)) 0 (λ c f. g f c))
  same_turned (suc n) (suc (suc channels)) g e = absurd (ground (arith, e))

  turned :
      (n channels p : ℕ) (g : ℕ → ℕ → T)
      → (if ltb 1 channels && not (n == 0)
          then deinterleaver (frames_from n p (λ f. table channels 0 (g f))) n channels
          else done (frames_from n p (λ f. table channels 0 (g f))))
        ≡ done (frames_from channels 0 (λ c. table n 0 (λ f. g (p + f) c)))
  turned n channels p g =
      let source : frames_from n p (λ f. table channels 0 (g f))
          ≡ frames_from n 0 (λ f. table channels 0 (g (p + f))) =
        ap (λ q. frames_from n q (λ f. table channels 0 (g f))) (omega arith)
        ∙ frames_from_shift n 0 p (λ f. table channels 0 (g f)) in
      ap (λ s. if ltb 1 channels && not (n == 0) then deinterleaver s n channels else done s) source
      ∙ elim (Bool-cases (ltb 1 channels && not (n == 0))) [
        | inl e ↦ rw e (deinterleaver-frames_from n channels (λ f. g (p + f)))
        | inr e ↦ rw e (ap done (same_turned n channels (λ f. g (p + f)) e))
      ]

-- The buffer that all files with more than one channel are read to.
cooked-turned :
    {T : Type 0} (m b n channels : ℕ) (source : List T)
    → channels ≤ m
    → n ≤ b
    → length source ≡ n * channels
    → cooked (source_size m b) channels source n n
      ≡ (if ltb 1 channels && not (n == 0) then deinterleaver source n channels else done source)
unfolding cooked
cooked-turned m b n channels source few small size = elim (Bool-cases (ltb 1 m)) [
  | inr e ↦ let single : ltb 1 channels ≡ false = ground (arith, e, few) in rw (e, single) refl
  | inl e ↦
      let room : length source ≤ m * b =
        omega (arith, size, mul-le-mul_left n few, mul-le-mul_right m small) in
      elim (Bool-cases (ltb 1 channels)) [
        | inl c ↦ rw (e, c, le→ltb (m * b) (length source) room) refl
        | inr c ↦ rw (e, c) refl
      ]
]

-- A sound file: its samples by frame and channel, and the handle at a frame. Reading gives the next frames
-- of its length.
pub record File {SF T : Type 0} (sf_readf_float : SF → (frames : ℕ) → SF × List T × ℕ)
    : Type 0 where
  pub channels : ℕ
  pub total : ℕ
  pub sample : ℕ → ℕ → T
  pub at : ℕ → SF
  pub reads :
      (p n : ℕ)
      → p + n ≤ total
      → sf_readf_float (at p) n
        ≡ (at (p + n), frames_from n p (λ f. table channels 0 (sample f)), n)

module _ {SF T : Type 0} (silence : T) (sf_readf_float : SF → (frames : ℕ) → SF × List T × ℕ) where
  abbrev pub inputs_at : List (File sf_readf_float) → (p : ℕ) → List (Input SF)
  inputs_at [] p = []
  inputs_at (file ∷ files) p =
      record { handle = file.at p; channels = file.channels } ∷ inputs_at files p

  abbrev pub all_channels : List (File sf_readf_float) → ℕ
  all_channels [] = 0
  all_channels (file ∷ files) = file.channels + all_channels files

  -- The channels of all files, one file after the other.
  abbrev pub combined : List (File sf_readf_float) → (frame channel : ℕ) → T
  combined [] f c = silence
  combined (file ∷ files) f c =
      if ltb c file.channels then file.sample f c else combined files f (c - file.channels)

  by_file :
      (file : File sf_readf_float) (files : List (File sf_readf_float)) (p n : ℕ)
      → frames_from
          (file.channels + all_channels files)
          0
          (λ c. table n 0 (λ f. combined (file ∷ files) (p + f) c))
        ≡ frames_from file.channels 0 (λ c. table n 0 (λ f. file.sample (p + f) c))
          ++ frames_from (all_channels files) 0 (λ c. table n 0 (λ f. combined files (p + f) c))
  by_file file files p n =
      let rows : ℕ → List T = λ c. table n 0 (λ f. combined (file ∷ files) (p + f) c) in
      frames_from-add file.channels (all_channels files) 0 rows
      ∙ ap₂ ◌++◌
          (frames_congr file.channels 0 rows (λ c. table n 0 (λ f. file.sample (p + f) c))
            (λ c a b.
              table_congr n 0 _ _ (λ f d e. rw (lt→ltb c file.channels (omega (arith, b))) refl)))
          (ap (λ i. frames_from (all_channels files) i rows) (omega arith)
            ∙ frames_from_shift (all_channels files) 0 file.channels rows
            ∙ frames_congr (all_channels files) 0 _ (λ c. table n 0 (λ f. combined files (p + f) c))
                (λ c a b. table_congr n 0 _ _ (λ f d e.
                  rw (le→ltb (file.channels + c) file.channels (omega arith))
                    (ap (combined files (p + f)) (omega arith)))))

  pub read_inputs-done :
      (files : List (File sf_readf_float)) (p n room m b : ℕ)
      → all_channels files * n ≤ room
      → n ≤ b
      → All (λ file. File.channels file ≤ m) files
      → All (λ file. p + n ≤ File.total file) files
      → read_inputs sf_readf_float (inputs_at files p) (source_size m b) n room
        ≡ done (
          inputs_at files (p + n),
          frames_from (all_channels files) 0 (λ c. table n 0 (λ f. combined files (p + f) c)),
        )
  unfolding read_inputs
  read_inputs-done [] p n room m b fitting small most long = refl
  read_inputs-done (file ∷ files) p n room m b fitting small (few, most) (fits, long) =
      let samples : List T =
        frames_from file.channels 0 (λ c. table n 0 (λ f. file.sample (p + f) c)) in
      let size : length samples ≡ file.channels * n =
        length-frames_from n file.channels 0 _
          (λ c. length-table n 0 (λ f. file.sample (p + f) c)) in
      rw
        (
          file.reads p n fits,
          cooked-turned m b n file.channels
              (frames_from n p (λ f. table file.channels 0 (file.sample f))) few small
              (length-frames_from file.channels n p _
                (λ f. length-table file.channels 0 (file.sample f))),
          turned n file.channels p file.sample,
          le→ltb room (length samples) (omega (arith, size, fitting)),
          ==_self n,
          read_inputs-done files p n (room - length samples) m b (omega (arith, size, fitting))
              small most long,
        )
        (ap (λ l. done (inputs_at (file ∷ files) (p + n), l)) (sym (by_file file files p n)))

  max_inchannels-grows :
      (m p : ℕ) (files : List (File sf_readf_float)) → m ≤ max_inchannels m (inputs_at files p)
  unfolding max_inchannels
  max_inchannels-grows m p [] = omega arith
  max_inchannels-grows m p (file ∷ files) =
      ground
        (arith, max_inchannels-grows (if ltb m file.channels then file.channels else m) p files)

  -- No file has more channels than the most.
  pub max_inchannels-All :
      (m p : ℕ) (files : List (File sf_readf_float))
      → All (λ file. File.channels file ≤ max_inchannels m (inputs_at files p)) files
  unfolding max_inchannels
  max_inchannels-All m p [] = tt
  max_inchannels-All m p (file ∷ files) =
      let next = if ltb m file.channels then file.channels else m in
      (ground (arith, max_inchannels-grows next p files), max_inchannels-All next p files)
