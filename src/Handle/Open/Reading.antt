-- ===== src/Handle/Open/Reading.antt =====
-- A handle opened for reading: `ambix_open` of libambix/src/libambix.c returns it, and divides the channels
-- of the file.
use libambix.Base.{
  ℕ, ◌+◌, ◌^◌, ◌<◌, ◌≡◌, refl, ap, ap₂, ◌∙◌, [], arith, true, false, ◌&&◌, if◌then◌else◌, done,
  null, ◌>>=◌, Bool-cases, inl, inr,
}
use libambix.Matrix.{Float, init}
use libambix.Handle.Backend.{Backend}
use libambix.Chunks.Write.{strg_id, mark_id, regn_id}
use libambix.Chunks.Read.{StringsBuffer, read_strings_chunk, read_chunks, read_markersregions}
use libambix.Chunks.Safety.{read_all-total}
use libambix.Matrix.Fill.Laws.{fill_identity-IsFilled}
use libambix.Handle.{
  Ambix, Err, unknown, FileFormat, FileMode, Info, none_format, is_basic, is_extended, is_success,
  adaptorbuffer_resize,
}
use libambix.Handle.Open.{
  info_set, set_read, set_format, as_basic, as_extended, set_wanted, finish_open, open_as,
  ambix_open,
}

module _ {F B : Type 0} ⦃fl : Float F⦄ where
  set_wanted-done :
      (a : Ambix F B) (want : FileFormat)
      → a.realinfo.ambichannels < 2 ^ 31
      → (b : Ambix F B) × (set_wanted a want ≡ done b)
        × (b.realinfo ≡ a.realinfo)
        × (b.filemode ≡ a.filemode)
  unfolding set_wanted init
  set_wanted-done a want small =
      elim (Bool-cases (is_basic want && is_extended a.realinfo.fileformat)) [
        | inl e ↦ (as_basic a, rw e refl, refl, refl)
        | inr e ↦ elim (Bool-cases (is_extended want && is_basic a.realinfo.fileformat)) [
          | inl f ↦
              let (m, g, _) =
                fill_identity-IsFilled
                  (init {F = F} a.realinfo.ambichannels a.realinfo.ambichannels) small small in
              (as_extended a m, rw (e, f, g) refl, refl, refl)
          | inr f ↦ (a, rw (e, f) refl, refl, refl)
        ]
      ]

-- 64 frames of float32_t fit the buffer's size for every number of channels.
adaptorbuffer_resize-success :
    {F B : Type 0} (a : Ambix F B)
    → (is_success (adaptorbuffer_resize a 64 4).1 ≡ true)
      × ((adaptorbuffer_resize a 64 4).0.realinfo ≡ a.realinfo)
      × ((adaptorbuffer_resize a 64 4).0.filemode ≡ a.filemode)
unfolding adaptorbuffer_resize
adaptorbuffer_resize-success a = ground arith

finish_open-done :
    {F B : Type 0} ⦃fl : Float F⦄ (a : Ambix F B) (mode : FileMode) (want : FileFormat)
    → a.realinfo.ambichannels < 2 ^ 31
    → (b : Ambix F B) × (finish_open a mode want ≡ done b)
      × (b.realinfo ≡ a.realinfo)
      × (b.filemode ≡ mode)
unfolding finish_open
finish_open-done a mode want small =
    let (b, e, same, kept) =
      set_wanted-done (record a { filemode = mode; info = a.realinfo }) want small in
    let (fits, same', kept') = adaptorbuffer_resize-success b in
    (
      (adaptorbuffer_resize b 64 4).0,
      ap
            (λ o. o >>= λ b.
              let (c, err) = adaptorbuffer_resize b 64 4 in if is_success err then done c else null)
            e
          ∙ ap (λ t. if t then done (adaptorbuffer_resize b 64 4).0 else null) fits,
      same' ∙ same,
      kept' ∙ kept,
    )

module _ {F B : Type 0} ⦃fl : Float F⦄ (sqrt : ℕ → ℕ) (backend : Backend F B) where
  -- The strings of the file are read without a fault.
  abbrev HasNames : Ambix F B → StringsBuffer → Type 0
  HasNames a table =
      read_chunks (read_strings_chunk a.byteswap) (backend.chunks a.private_data strg_id) []
      ≡ done table

  -- Every channel of the file is an ambisonics channel or an extra one.
  abbrev IsDivided : ℕ → Info → Type 0
  IsDivided channels info = info.ambichannels + info.extrachannels ≡ channels

  set_read-IsDivided : (a : Ambix F B) → IsDivided a.channels (set_read sqrt a).realinfo
  unfolding set_read info_set
  set_read-IsDivided a = ground arith

  -- What reading markers and regions starts from.
  set_read-kept :
      (a : Ambix F B)
      → ((set_read sqrt a).byteswap ≡ a.byteswap)
        × ((set_read sqrt a).private_data ≡ a.private_data)
  unfolding set_read info_set
  set_read-kept a = ground arith

  read_markersregions-realinfo :
      (a : Ambix F B) (table : StringsBuffer)
      → HasNames a table
      → (b : Ambix F B) × (err : Err) × (read_markersregions backend a ≡ done (b, err))
        × (b.realinfo ≡ a.realinfo)
  unfolding read_markersregions
  read_markersregions-realinfo a table names =
      let (b, e, same) =
        read_all-total (backend.chunks a.private_data strg_id)
          (backend.chunks a.private_data mark_id) (backend.chunks a.private_data regn_id) a table
          names in
      (b, unknown, e, same)

  set_format-set_read :
      (a : Ambix F B) (mode : FileMode) (info : Info)
      → a.is_ambix ≡ true
      → mode.writes ≡ false
      → set_format sqrt backend a mode info
        ≡ (read_markersregions backend (set_read sqrt a) >>= λ (b, _). done b)
  unfolding set_format
  set_format-set_read a mode info is reading = simp (is, reading) refl

  set_format-none :
      (a : Ambix F B) (mode : FileMode) (info : Info)
      → a.is_ambix ≡ false
      → set_format sqrt backend a mode info ≡ done (info_set sqrt a none_format a.channels 0 0)
  unfolding set_format
  set_format-none a mode info is = simp is refl

  set_format-IsDivided :
      (a : Ambix F B) (mode : FileMode) (info : Info) (table : StringsBuffer)
      → mode.writes ≡ false
      → HasNames a table
      → (b : Ambix F B) × (set_format sqrt backend a mode info ≡ done b)
        × IsDivided a.channels b.realinfo
  unfolding info_set
  set_format-IsDivided a mode info table reading names =
      let (swap, file) = set_read-kept a in
      let (b, err, e, same) = read_markersregions-realinfo (set_read sqrt a) table (
        ap₂ (λ w d. read_chunks (read_strings_chunk w) (backend.chunks d strg_id) []) swap file
        ∙ names) in
      elim (Bool-cases a.is_ambix) [
        | inl is ↦ (
          b,
          set_format-set_read a mode info is reading ∙ ap (λ o. o >>= λ (c, _). done c) e,
          ap (λ i. i.ambichannels + i.extrachannels) same ∙ set_read-IsDivided a,
        )
        | inr not_ambix ↦ (
          info_set sqrt a none_format a.channels 0 0,
          set_format-none a mode info not_ambix,
          omega arith,
        )
      ]

  ambix_open-open_as :
      (mode : FileMode) (info : Info)
      → mode.writes ≡ false
      → ambix_open sqrt backend mode info ≡ open_as sqrt backend mode info info.fileformat
  unfolding ambix_open
  ambix_open-open_as mode info reading = simp reading refl

  open_as-finish_open :
      (mode : FileMode) (info : Info) (want : FileFormat) (a : Ambix F B)
      → backend.open_file mode info ≡ done a
      → open_as sqrt backend mode info want
        ≡ (set_format sqrt backend a mode info >>= λ b. finish_open b mode want)
  unfolding open_as
  open_as-finish_open mode info want a opened =
      ap (λ o. o >>= λ b. set_format sqrt backend b mode info >>= λ c. finish_open c mode want)
        opened

  -- Reading. If the backend opens a file with fewer than 2 ^ 31 channels, and the names of its markers
  -- are read without a fault, then a handle is returned, whatever format was asked for and whatever the
  -- chunks of markers and regions hold. Each channel of the file is an ambisonics channel or an extra one
  -- of it.
  pub ambix_open-IsDivided :
      (mode : FileMode) (info : Info) (a : Ambix F B) (table : StringsBuffer)
      → mode.writes ≡ false
      → backend.open_file mode info ≡ done a
      → HasNames a table
      → a.channels < 2 ^ 31
      → (b : Ambix F B) × (ambix_open sqrt backend mode info ≡ done b)
        × (b.realinfo.ambichannels + b.realinfo.extrachannels ≡ a.channels)
        × (b.filemode ≡ mode)
  ambix_open-IsDivided mode info a table reading opened names small =
      let (formatted, f, divided) = set_format-IsDivided a mode info table reading names in
      let (b, e, same, kept) =
        finish_open-done formatted mode info.fileformat (omega (arith, divided, small)) in
      (
        b,
        ambix_open-open_as mode info reading
            ∙ open_as-finish_open mode info info.fileformat a opened
            ∙ ap (λ o. o >>= λ c. finish_open c mode info.fileformat) f
            ∙ e,
        ap (λ i. i.ambichannels + i.extrachannels) same ∙ divided,
        kept,
      )
