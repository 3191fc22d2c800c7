-- ===== src/Interleave/Format.antt =====
-- The options of a copy: the predefined matrices, the frames of the inputs, and the channels of the file that is
-- written.
use libambix.Base.{
  ℕ, ◌+◌, ◌-◌, ◌<◌, ◌≤◌, ◌≡◌, ◌⊎◌, inl, inr, refl, arith, Bool, true, false, not, ◌&&◌, ◌||◌, ◌==◌,
  ltb, if◌then◌else◌, Option, none, some, List, [], ◌∷◌, ◌++◌, All, take, map, Option-cases,
  Bool-cases,
}
use libambix.Channels.{is_fullset}
use libambix.Matrix.Fill.{MatrixType, identity, fuma, n3d, sid}
use libambix.Handle.{FileFormat, basic, extended}

-- The characters of a name, to the first NUL.
abbrev pub name_fuma : List ℕ
name_fuma = b'f' ∷ b'u' ∷ b'm' ∷ b'a' ∷ []

abbrev pub name_n3d : List ℕ
name_n3d = b'n' ∷ b'3' ∷ b'd' ∷ []

abbrev pub name_sn3d : List ℕ
name_sn3d = b's' ∷ name_n3d

abbrev pub name_sid : List ℕ
name_sid = b's' ∷ b'i' ∷ b'd' ∷ []

abbrev pub name_acn : List ℕ
name_acn = b'a' ∷ b'c' ∷ b'n' ∷ []

-- `first|second`
abbrev pub both : (first second : List ℕ) → List ℕ
both first second = first ++ (b'|' ∷ second)

-- `!strncmp(fmt, name, len)` for the `len` characters of `fmt`.
unfoldable pub starts : (fmt name : List ℕ) → Bool
starts [] name = true
starts (x ∷ fmt) [] = false
starts (x ∷ fmt) (y ∷ name) = x == y && starts fmt name

-- The normalisation and the routing matrix.
unfoldable pub ai_matrix_predefined :
    (tolower : ℕ → ℕ) → (format : List ℕ) → Option (MatrixType × MatrixType)
ai_matrix_predefined tolower format =
    let fmt = map tolower (take 10 format) in
    if starts fmt name_fuma
    then some (fuma, fuma)
    else if starts fmt (both name_n3d name_sid) || starts fmt (both name_sid name_n3d)
    then some (n3d, sid)
    else if starts fmt name_sid
        || (starts fmt (both name_sn3d name_sid) || starts fmt (both name_sid name_sn3d))
    then some (identity, sid)
    else if starts fmt name_n3d
        || (starts fmt (both name_sn3d name_acn) || starts fmt (both name_acn name_sn3d))
    then some (n3d, identity)
    else none

-- The format and the channels of the file: `matrix` is the size of the adaptor matrix, `order_channels` are
-- the channels of the order that is asked for, or 0.
pub record Layout : Type 0 where
  pub fileformat : FileFormat
  pub ambichannels : ℕ
  pub extrachannels : ℕ

unfoldable pub channel_sets :
    (sqrt : ℕ → ℕ)
    → (channels : ℕ) → (matrix_cols : Option ℕ) → (order_channels : ℕ) → Option Layout
channel_sets sqrt channels (some cols) order_channels =
    if ltb channels cols
    then none
    else some
        (record { fileformat = extended; ambichannels = cols; extrachannels = channels - cols })
channel_sets sqrt channels none order_channels =
    if ltb 0 order_channels
    then (if ltb order_channels channels
        then some (record {
          fileformat = extended;
          ambichannels = order_channels;
          extrachannels = channels - order_channels;
        })
        else if order_channels == channels
        then some (record { fileformat = basic; ambichannels = channels; extrachannels = 0 })
        else none)
    else if not (is_fullset sqrt channels)
    then none
    else some (record { fileformat = basic; ambichannels = channels; extrachannels = 0 })

unfoldable pub layout :
    (sqrt : ℕ → ℕ)
    → (channels : ℕ) → (matrix_cols : Option ℕ) → (order_channels : ℕ) → Option Layout
layout sqrt channels matrix_cols order_channels =
    elim (channel_sets sqrt channels matrix_cols order_channels) [
      | none ↦ none
      | some l ↦ if ltb l.ambichannels 1 && ltb l.extrachannels 1 then none else some l
    ]

-- The frames of the copy: those of the inputs that are opened one after the other.
unfoldable pub input_frames : (frames : ℕ) → (inputs : List ℕ) → ℕ
input_frames frames [] = frames
input_frames frames (input ∷ inputs) =
    input_frames (if (frames == 0) || ltb input frames then input else frames) inputs

channel_sets-add :
    (sqrt : ℕ → ℕ) (channels : ℕ) (matrix_cols : Option ℕ) (order_channels : ℕ) (l : Layout)
    → channel_sets sqrt channels matrix_cols order_channels ≡ some l
    → (l.ambichannels + l.extrachannels ≡ channels)
      × ((l.fileformat ≡ extended) ⊎ (l.extrachannels ≡ 0))
unfolding channel_sets
channel_sets-add sqrt channels (some cols) order_channels l e = ground (arith, e)
channel_sets-add sqrt channels none order_channels l e = ground (arith, e)

-- The two channel sets of the file that is written are all channels of the inputs, at least one; a BASIC file
-- has no extra channels.
pub layout-add :
    (sqrt : ℕ → ℕ) (channels : ℕ) (matrix_cols : Option ℕ) (order_channels : ℕ) (l : Layout)
    → layout sqrt channels matrix_cols order_channels ≡ some l
    → (l.ambichannels + l.extrachannels ≡ channels)
      × (0 < channels)
      × ((l.fileformat ≡ extended) ⊎ (l.extrachannels ≡ 0))
unfolding layout
layout-add sqrt channels matrix_cols order_channels l e =
    elim (Option-cases (channel_sets sqrt channels matrix_cols order_channels)) [
      | inl f ↦ absurd (ground (arith, e, f))
      | inr (k, f) ↦
          ground (arith, e, f, channel_sets-add sqrt channels matrix_cols order_channels k)
    ]

-- What abbreviates a name abbreviates the name with more behind it.
starts-append : (fmt name more : List ℕ) → starts fmt name ≡ true → starts fmt (name ++ more) ≡ true
unfolding starts
starts-append [] name more h = refl
starts-append (x ∷ fmt) [] more h = absurd cc
starts-append (x ∷ fmt) (y ∷ name) more h = elim (Bool-cases (x == y)) [
  | inl e ↦ rw e (starts-append fmt name more (rw e at h))
  | inr e ↦ absurd (ground (arith, e, h))
]

other_than_fuma :
    (c : ℕ) (fmt : List ℕ)
    → (starts (c ∷ fmt) name_n3d || starts (c ∷ fmt) name_sid) ≡ true
    → starts (c ∷ fmt) name_fuma ≡ false
unfolding starts
other_than_fuma c fmt h = ground (arith, h)

both_first :
    (fmt : List ℕ)
    → (starts fmt name_n3d || starts fmt name_sid) ≡ true
    → (starts fmt (both name_n3d name_sid) || starts fmt (both name_sid name_n3d)) ≡ true
both_first fmt h = elim (Bool-cases (starts fmt name_n3d)) [
  | inl e ↦ rw (starts-append fmt name_n3d (b'|' ∷ name_sid) e) refl
  | inr e ↦
      let f : starts fmt name_sid ≡ true = rw e at h in
      ground (arith, starts-append fmt name_sid (b'|' ∷ name_n3d) f)
]

-- Whatever name has a first character, and abbreviates `n3d` or `sid` in lower case with its first ten characters,
-- these two names included, gets the N3D normalisation with the SID ordering: no such name gets the
-- matrix of `n3d` or of `sid` alone.
pub ai_matrix_predefined-shadowed :
    (tolower : ℕ → ℕ) (format : List ℕ) (c : ℕ) (fmt : List ℕ)
    → map tolower (take 10 format) ≡ c ∷ fmt
    → (starts (c ∷ fmt) name_n3d || starts (c ∷ fmt) name_sid) ≡ true
    → ai_matrix_predefined tolower format ≡ some (n3d, sid)
unfolding ai_matrix_predefined
ai_matrix_predefined-shadowed tolower format c fmt e h =
    rw (e, other_than_fuma c fmt h, both_first (c ∷ fmt) h) refl

-- Once there are frames, inputs that are not empty leave no more than there were, nor than one of them has.
input_frames-le :
    (frames : ℕ) (inputs : List ℕ)
    → 0 < frames
    → All (λ n. 0 < n) inputs
    → (input_frames frames inputs ≤ frames) × All (λ n. input_frames frames inputs ≤ n) inputs
unfolding input_frames
input_frames-le frames [] before more = (omega arith, tt)
input_frames-le frames (input ∷ inputs) before (first, more) =
    let next = if (frames == 0) || ltb input frames then input else frames in
    let (few, all) = input_frames-le next inputs (ground (arith, before, first)) more in
    (ground (arith, before, few), (ground (arith, before, few), all))

-- If no input is empty, the copy has no more frames than any of them.
pub input_frames-All :
    (inputs : List ℕ) → All (λ n. 0 < n) inputs → All (λ n. input_frames 0 inputs ≤ n) inputs
unfolding input_frames
input_frames-All [] more = tt
input_frames-All (input ∷ inputs) (first, more) = input_frames-le input inputs first more
