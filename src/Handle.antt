-- ===== src/Handle.antt =====
-- The handle `ambix_t` of libambix/src/private.h and the operations on its state of
-- libambix/src/libambix.c and `_ambix_adaptorbuffer_resize` of libambix/src/adaptor.c. Positions,
-- the sample rate and the sample format are carried as words. Allocation succeeds.
pub mod Backend
pub mod Markers
pub mod Open
pub mod Adaptormatrix
pub mod Tests
use libambix.Base.{
  ℕ, zero, suc, ◌+◌, ◌*◌, ◌%◌, ◌^◌, Bool, true, false, not, ◌&&◌, ◌||◌, ltb, ◌==◌, if◌then◌else◌,
  Option, none, some, List, [], ◌∷◌, ◌++◌, get_elem?, ℤ, pos, negsuc,
}
use libambix.Words.{u32, u64}
use libambix.Matrix.{Matrix}

-- `ambix_err_t`
pub data Err : Type 0 where
  unknown success invalid_handle invalid_file invalid_dimension invalid_format invalid_matrix : Err

-- The values of the error codes, and `(err>0)?-err:err`.
abbrev pub failure : Err → ℤ
failure unknown = negsuc 0
failure success = pos 0
failure invalid_handle = negsuc 0
failure invalid_file = negsuc 1
failure invalid_dimension = negsuc 2
failure invalid_format = negsuc 3
failure invalid_matrix = negsuc 4

abbrev pub is_success : Err → Bool
is_success success = true
is_success _ = false

-- `ambix_fileformat_t`
pub data FileFormat : Type 0 where
  none_format basic extended : FileFormat

abbrev pub is_basic : FileFormat → Bool
is_basic basic = true
is_basic _ = false

abbrev pub is_extended : FileFormat → Bool
is_extended extended = true
is_extended _ = false

-- `ambix_filemode_t`, the bits AMBIX_READ and AMBIX_WRITE.
pub record FileMode : Type 0 where
  pub reads : Bool
  pub writes : Bool

-- `ambix_info_t`
pub record Info : Type 0 where
  pub frames : ℕ
  pub samplerate : ℕ
  pub sampleformat : ℕ
  pub fileformat : FileFormat
  pub extrachannels : ℕ
  pub ambichannels : ℕ

-- `ambix_marker_t` and `ambix_region_t`
pub record Marker : Type 0 where
  pub position : ℕ
  pub name : List ℕ

pub record Region : Type 0 where
  pub start_position : ℕ
  pub end_position : ℕ
  pub name : List ℕ

-- `ambix_t`; `private_data` is the backend's.
pub record Ambix (F B : Type 0) : Type 0 where
  pub private_data : B
  pub is_ambix : Bool
  pub format : FileFormat
  pub filemode : FileMode
  pub byteswap : Bool
  pub channels : ℕ
  pub info : Info
  pub realinfo : Info
  pub matrix : Matrix F
  pub matrix2 : Matrix F
  pub use_matrix : ℕ
  pub adaptorbuffersize : ℕ
  pub ambisonics_order : ℕ
  pub num_markers : ℕ
  pub markers : Option (List Marker)
  pub num_regions : ℕ
  pub regions : Option (List Region)
  pub started_reading : Bool
  pub started_writing : Bool
  pub pending_headers : Bool

-- The array behind the pointer, grown by one entry; NULL where it should hold entries is refused.
unfoldable pub appended : {A : Type 0} → ℕ → Option (List A) → A → Option (List A)
appended zero old x = some (x ∷ [])
appended (suc n) none x = none
appended (suc n) (some xs) x = some (xs ++ x ∷ [])

unfoldable pub max_u64 : ℕ → ℕ → ℕ
max_u64 a b = if ltb b a then a else b

module _ {F B : Type 0} where
  unfoldable pub get_num_markers : Ambix F B → ℕ
  get_num_markers a = a.num_markers

  unfoldable pub get_num_regions : Ambix F B → ℕ
  get_num_regions a = a.num_regions

  -- `&ambix->markers[id]`, or NULL.
  unfoldable pub get_marker : Ambix F B → ℕ → Option Marker
  get_marker a id =
      if ltb id a.num_markers
      then (elim a.markers [ none ↦ none | some ms ↦ get_elem? ms id ])
      else none

  unfoldable pub get_region : Ambix F B → ℕ → Option Region
  get_region a id =
      if ltb id a.num_regions
      then (elim a.regions [ none ↦ none | some rs ↦ get_elem? rs id ])
      else none

  unfoldable pub add_marker : Ambix F B → Option Marker → Ambix F B × Err
  add_marker a none = (a, unknown)
  add_marker a (some marker) =
      if a.started_writing then (a, unknown) else (elim (appended a.num_markers a.markers marker) [
        | none ↦ (a, unknown)
        | some ms ↦ (
          record a {
            num_markers = u32 (a.num_markers + 1);
            markers = some ms;
            pending_headers = true;
          },
          success,
        )
      ])

  unfoldable pub add_region : Ambix F B → Option Region → Ambix F B × Err
  add_region a none = (a, unknown)
  add_region a (some region) =
      if a.started_writing then (a, unknown) else (elim (appended a.num_regions a.regions region) [
        | none ↦ (a, unknown)
        | some rs ↦ (
          record a {
            num_regions = u32 (a.num_regions + 1);
            regions = some rs;
            pending_headers = true;
          },
          success,
        )
      ])

  -- The array is freed, and the pointer to it is kept.
  unfoldable pub delete_markers : Ambix F B → Ambix F B × Err
  delete_markers a =
      if ltb 0 a.num_markers
      then (elim a.markers [
        | none ↦ (a, unknown)
        | some ms ↦ (record a { num_markers = 0 }, success)
      ])
      else (a, unknown)

  unfoldable pub delete_regions : Ambix F B → Ambix F B × Err
  delete_regions a =
      if ltb 0 a.num_regions
      then (elim a.regions [
        | none ↦ (a, unknown)
        | some rs ↦ (record a { num_regions = 0 }, success)
      ])
      else (a, unknown)

  -- `_ambix_adaptorbuffer_resize`; the products are in uint64_t, the channel count in uint32_t.
  unfoldable pub adaptorbuffer_resize : Ambix F B → (frames itemsize : ℕ) → Ambix F B × Err
  adaptorbuffer_resize a frames itemsize =
      let ambichannels = max_u64 a.info.ambichannels a.realinfo.ambichannels in
      let extrachannels = max_u64 a.info.extrachannels a.realinfo.extrachannels in
      let channels = u32 (ambichannels + extrachannels) in
      let size = u64 (u64 (channels * frames) * itemsize) in
      if ltb frames 1 || ltb channels 1
      then (a, success)
      else if ltb size 1
      then (a, unknown)
      else if ltb a.adaptorbuffersize size
      then (record a { adaptorbuffersize = size }, success)
      else (a, success)
