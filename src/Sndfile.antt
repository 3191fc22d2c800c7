-- ===== src/Sndfile.antt =====
-- The backend of libambix/src/sndfile.c. libsndfile is a parameter: its constants, and what it gives of a
-- file. A chunk is what the iterator over the chunks with an id gives of it. Allocation succeeds.
pub mod Formats
pub mod Reading
pub mod Tests
use libambix.Base.{
  ℕ, zero, suc, ◌+◌, ◌-◌, ◌==◌, ltb, not, ◌&&◌, Bool, true, false, if◌then◌else◌, Option, none,
  some, List, [], ◌∷◌, length, take, drop, get_elem?, Outcome, done, null, fault, ◌>>=◌,
}
use libambix.Words.{u32}
use libambix.Channels.{order2channels}
use libambix.Matrix.{Accumulator, Float, Matrix, create, init}
use libambix.Matrix.Fuma.{Weights}
use libambix.Matrix.Fill.{MatrixType, fuma, fill}
use libambix.Uuid.{Bits, check_uuid, uuid1_to_matrix}
use libambix.Handle.{
  Ambix, Err, success, unknown, FileMode, FileFormat, none_format, basic, extended, Info,
  is_success,
}

-- The constants of sndfile.h, and `SF_FORMAT_CAF | subtype` with its parts.
pub record Constants : Type 0 where
  pub pcm_16 : ℕ
  pub pcm_24 : ℕ
  pub pcm_32 : ℕ
  pub float : ℕ
  pub double : ℕ
  pub caf : ℕ
  pub with_subtype : (container subtype : ℕ) → ℕ
  pub subtype : ℕ → ℕ
  pub container : ℕ → ℕ

-- `ambix_sampleformat_t`
abbrev pub no_sampleformat : ℕ
no_sampleformat = 0

abbrev pub pcm16 : ℕ
pcm16 = 1

abbrev pub pcm24 : ℕ
pcm24 = 2

abbrev pub pcm32 : ℕ
pcm32 = 3

abbrev pub float32 : ℕ
float32 = 4

abbrev pub float64 : ℕ
float64 = 5

-- `SF_INFO`
pub record SfInfo : Type 0 where
  pub frames : ℕ
  pub samplerate : ℕ
  pub channels : ℕ
  pub format : ℕ
  pub sections : ℕ
  pub seekable : ℕ

module _ (sf : Constants) where
  unfoldable pub sndfile2ambix_sampleformat : ℕ → ℕ
  sndfile2ambix_sampleformat sformat =
      if sformat == sf.pcm_16
      then pcm16
      else if sformat == sf.pcm_24
      then pcm24
      else if sformat == sf.pcm_32
      then pcm32
      else if sformat == sf.float
      then float32
      else if sformat == sf.double
      then float64
      else no_sampleformat

  unfoldable pub ambix2sndfile_sampleformat : ℕ → ℕ
  ambix2sndfile_sampleformat asformat =
      if asformat == pcm16
      then sf.pcm_16
      else if asformat == pcm24
      then sf.pcm_24
      else if asformat == pcm32
      then sf.pcm_32
      else if asformat == float32
      then sf.float
      else if asformat == float64
      then sf.double
      else sf.pcm_24

  unfoldable pub ambix2sndfile_info : Info → SfInfo
  ambix2sndfile_info axinfo = record {
    frames = axinfo.frames;
    samplerate = axinfo.samplerate;
    channels = u32 (axinfo.ambichannels + axinfo.extrachannels);
    format = sf.with_subtype sf.caf (ambix2sndfile_sampleformat axinfo.sampleformat);
    sections = 0;
    seekable = 0;
  }

  -- Into an `ambix_info_t` of zeros.
  unfoldable pub sndfile2ambix_info : SfInfo → Info
  sndfile2ambix_info sfinfo = record {
    frames = sfinfo.frames;
    samplerate = sfinfo.samplerate;
    sampleformat = sndfile2ambix_sampleformat (sf.subtype sfinfo.format);
    fileformat = none_format;
    extrachannels = sfinfo.channels;
    ambichannels = 0;
  }

-- A chunk of the iterator: whether its size is given, its data, and whether they are.
pub record Chunk : Type 0 where
  pub has_size : Bool
  pub bytes : List ℕ
  pub has_data : Bool

-- `_ambix_read_chunk`, by the chunks with the id; none is NULL and size 0.
unfoldable pub read_chunk : List Chunk → (chunk_it : ℕ) → Option (List ℕ)
read_chunk chunks chunk_it = elim (get_elem? chunks chunk_it) [
  | none ↦ none
  | some c ↦ if length c.bytes == 0 then none else some c.bytes
]

module _ {F : Type 0} ⦃fl : Float F⦄ ⦃bits : Bits F⦄ where
  -- The matrix of the first chunk that has one, and whether there is one.
  unfoldable pub read_uuidchunk : Bool → List Chunk → Matrix F → Outcome (Matrix F × Err)
  read_uuidchunk byteswap [] m = done (m, unknown)
  read_uuidchunk byteswap (c ∷ chunks) m =
      let next = read_uuidchunk byteswap chunks m in
      if not c.has_size
      then next
      else if ltb (length c.bytes) 16
      then next
      else if not c.has_data
      then next
      else if check_uuid (take 16 c.bytes) == 1
      then (elim (uuid1_to_matrix (drop 16 c.bytes) (length c.bytes - 16) (some m) byteswap) [
        | done mtx ↦ done (mtx, success)
        | null ↦ next
        | fault ↦ fault
      ])
      else next

-- The size of the matrix for a number of B-format channels.
unfoldable pub b_format_matrix : {F : Type 0} ⦃fl : Float F⦄ → ℕ → Matrix F → Matrix F
b_format_matrix channels m =
    if channels == 3
    then init (order2channels 1) channels
    else if channels == 4
    then init (order2channels 1) channels
    else if channels == 5
    then init (order2channels 2) channels
    else if channels == 6
    then init (order2channels 2) channels
    else if channels == 7
    then init (order2channels 3) channels
    else if channels == 8
    then init (order2channels 3) channels
    else if channels == 9
    then init (order2channels 2) channels
    else if channels == 11
    then init (order2channels 3) channels
    else if channels == 16
    then init (order2channels 3) channels
    else m

-- What `sf_open` and `sf_command` give of a file.
pub record Opened (SF : Type 0) : Type 0 where
  pub sf_file : SF
  pub sf_info : SfInfo
  pub needs_endswap : Bool
  pub is_b_format : Bool
  pub uuid_chunks : List Chunk

module _ {F S SF : Type 0} ⦃fl : Float F⦄ ⦃bits : Bits F⦄ ⦃w : Weights F⦄ (acc : Accumulator F F S)
    (sqrt : ℕ → ℕ) (divided multiplied : ℕ → F) (sf : Constants) where
  -- The handle from calloc, with what is known of every file.
  abbrev pub fresh : Opened SF → Ambix F SF
  fresh file = record {
    private_data = file.sf_file;
    is_ambix = false;
    format = none_format;
    filemode = record { reads = false; writes = false };
    byteswap = file.needs_endswap;
    channels = file.sf_info.channels;
    info = record {
      frames = 0;
      samplerate = 0;
      sampleformat = 0;
      fileformat = none_format;
      extrachannels = 0;
      ambichannels = 0;
    };
    realinfo = sndfile2ambix_info sf file.sf_info;
    matrix = create;
    matrix2 = create;
    use_matrix = 0;
    adaptorbuffersize = 0;
    ambisonics_order = 0;
    num_markers = 0;
    markers = none;
    num_regions = 0;
    regions = none;
    started_reading = false;
    started_writing = false;
    pending_headers = false;
  }

  -- A file that is no CAF file is ambisonics if it says that it is B-format, and there is a matrix for it.
  unfoldable pub open_b_format : Ambix F SF → Outcome (Ambix F SF)
  open_b_format a =
      elim (fill acc sqrt divided multiplied (b_format_matrix a.channels a.matrix) fuma) [
        | done m ↦ done (record a { matrix = m; is_ambix = true; format = extended })
        | null ↦ done (record a {
          matrix = b_format_matrix a.channels a.matrix;
          is_ambix = false;
          format = none_format;
        })
        | fault ↦ fault
      ]

  -- What is known of a file that libsndfile has opened; NULL is a file that it cannot open.
  unfoldable pub handle_of : Option (Opened SF) → Outcome (Ambix F SF)
  handle_of none = null
  handle_of (some file) =
      let a = fresh file in
      if sf.container file.sf_info.format == sf.caf
      then (read_uuidchunk a.byteswap file.uuid_chunks a.matrix >>= λ (m, err). done (record a {
        matrix = m;
        is_ambix = true;
        format = if is_success err then extended else basic;
      }))
      else if file.is_b_format
      then open_b_format a
      else done a

  unfoldable pub sndfile_open :
      (sf_open : FileMode → SfInfo → Option (Opened SF)) → FileMode → Info → Outcome (Ambix F SF)
  sndfile_open sf_open mode info = handle_of (sf_open mode (ambix2sndfile_info sf info))
