-- ===== src/Handle/Open.antt =====
-- What `ambix_open` of libambix/src/libambix.c makes of a file that the backend has opened:
-- `_check_write_ambixinfo`, `_ambix_info_set`, the format of the file, and the format that the caller
-- asked for.
pub mod Reading
use libambix.Base.{
  ℕ, ◌+◌, ◌-◌, ◌^◌, ◌≤◌, ◌<◌, ◌≡◌, refl, ap, ◌∙◌, arith, Bool, true, false, not, ◌&&◌, ltb, leb,
  if◌then◌else◌, Option, none, some, Outcome, done, null, fault, ◌>>=◌, to_u32, Bool-cases, inl,
  inr,
}
use libambix.Channels.{channels2order, is_fullset}
use libambix.Matrix.{Float, Matrix, init}
use libambix.Handle.Backend.{Backend}
use libambix.Chunks.Read.{read_markersregions}
use libambix.Matrix.Fuma.{fill_identity}
use libambix.Matrix.Fill.Laws.{fill_identity-IsFilled}
use libambix.Handle.{
  Ambix, Err, FileFormat, FileMode, Info, none_format, basic, extended, success, unknown,
  invalid_format, is_basic, is_extended, is_success, adaptorbuffer_resize,
}

module _ (sqrt : ℕ → ℕ) where
  unfoldable pub check_write_ambixinfo : Info → Err
  check_write_ambixinfo info = elim info.fileformat [
    | none_format ↦ if ltb 0 info.ambichannels then invalid_format else success
    | basic ↦
        if ltb 0 info.extrachannels
        then invalid_format
        else if not (is_fullset sqrt info.ambichannels)
        then invalid_format
        else success
    | extended ↦ success
  ]

  module _ {F B : Type 0} where
    -- `ambix->realinfo` and `ambix->ambisonics_order`; the counts are int32_t in the code.
    abbrev with_info :
        Ambix F B → FileFormat → (otherchannels ambichannels fullambichannels : ℕ) → Ambix F B
    with_info a format otherchannels ambichannels fullambichannels = record a {
      realinfo = record a.realinfo {
        fileformat = format;
        ambichannels = ambichannels;
        extrachannels = otherchannels;
      };
      ambisonics_order =
          if ltb 0 fullambichannels && ltb fullambichannels (2 ^ 31)
          then to_u32 (channels2order sqrt fullambichannels)
          else 0;
    }

    unfoldable pub info_set :
        Ambix F B → FileFormat → (otherchannels ambichannels fullambichannels : ℕ) → Ambix F B
    info_set a none_format otherchannels ambichannels fullambichannels =
        with_info a none_format otherchannels 0 0
    info_set a basic otherchannels ambichannels fullambichannels =
        with_info a basic 0 ambichannels fullambichannels
    info_set a extended otherchannels ambichannels fullambichannels =
        with_info a extended otherchannels ambichannels fullambichannels

    -- A file that is written has the format that was asked for.
    unfoldable pub set_written : Ambix F B → Info → Ambix F B
    set_written a info = elim info.fileformat [
      | none_format ↦ info_set a none_format a.channels 0 0
      | basic ↦ info_set a basic 0 a.channels a.channels
      | extended ↦ info_set a extended info.extrachannels info.ambichannels 0
    ]

    -- A file that is read has the format that its channels and its matrix allow.
    unfoldable pub set_read : Ambix F B → Ambix F B
    set_read a =
        if is_extended a.format
        then (if leb a.matrix.cols a.channels && is_fullset sqrt a.matrix.rows
            then info_set a extended (a.channels - a.matrix.cols) a.matrix.cols a.matrix.rows
            else info_set a none_format a.channels 0 0)
        else if is_fullset sqrt a.channels
        then info_set a basic 0 a.channels a.channels
        else info_set a none_format a.channels 0 0

    -- What reading the markers and regions returns is not looked at.
    unfoldable pub set_format : Backend F B → Ambix F B → FileMode → Info → Outcome (Ambix F B)
    set_format backend a mode info =
        if a.is_ambix
        then (read_markersregions backend (if mode.writes then set_written a info else set_read a)
            >>= λ (b, err). done b)
        else done (info_set a none_format a.channels 0 0)

-- An EXTENDED file as BASIC, and a BASIC file as EXTENDED.
abbrev pub as_basic : {F B : Type 0} → Ambix F B → Ambix F B
as_basic a = record a {
  info = record a.info { fileformat = basic; ambichannels = a.matrix.rows };
  use_matrix = 1;
}

abbrev pub as_extended : {F B : Type 0} → Ambix F B → Matrix F → Ambix F B
as_extended a m = record a {
  matrix = m;
  info = record a.info { fileformat = extended };
  use_matrix = 0;
}

-- The caller's view of a file of another format than the one asked for.
unfoldable pub set_wanted :
    {F B : Type 0} ⦃fl : Float F⦄ → Ambix F B → FileFormat → Outcome (Ambix F B)
set_wanted a want =
    if is_basic want && is_extended a.realinfo.fileformat
    then done (as_basic a)
    else if is_extended want && is_basic a.realinfo.fileformat
    then (fill_identity (init a.realinfo.ambichannels a.realinfo.ambichannels) >>= λ m.
        done (as_extended a m))
    else done a

-- The adaptor buffer is for 64 frames of float32_t.
unfoldable pub finish_open :
    {F B : Type 0} ⦃fl : Float F⦄ → Ambix F B → FileMode → FileFormat → Outcome (Ambix F B)
finish_open a mode want = set_wanted (record a { filemode = mode; info = a.realinfo }) want >>= λ b.
    let (c, err) = adaptorbuffer_resize b 64 4 in if is_success err then done c else null

-- `ambixinfo` has the handle's `info` when the result is a handle.
module _ {F B : Type 0} ⦃fl : Float F⦄ (sqrt : ℕ → ℕ) (backend : Backend F B) where
  unfoldable pub open_as : FileMode → Info → FileFormat → Outcome (Ambix F B)
  open_as mode info want = backend.open_file mode info >>= λ a.
      set_format sqrt backend a mode info >>= λ b. finish_open b mode want

  unfoldable pub ambix_open : FileMode → Info → Outcome (Ambix F B)
  ambix_open mode info =
      if mode.writes && mode.reads
      then null
      else if not mode.writes
      then open_as mode info info.fileformat
      else if is_success (check_write_ambixinfo sqrt info)
      then open_as mode info info.fileformat
      else if is_basic info.fileformat
      then (let forced = record info { fileformat = extended } in
          if is_success (check_write_ambixinfo sqrt forced)
          then open_as mode forced basic
          else null)
      else null
