-- ===== src/Session/Steps.antt =====
-- The calls that a program makes on an open handle, as steps, and what holds after any number of them.
use libambix.Base.{ℕ, ◌≡◌, Option, List, ℤ, Outcome, done}
use libambix.Matrix.{Accumulator, Float, Matrix}
use libambix.Uuid.{Bits}
use libambix.Handle.{
  Ambix, Err, Marker, Region, add_marker, add_region, delete_markers, delete_regions,
}
use libambix.Handle.Backend.{Backend, Stream}
use libambix.Handle.Adaptormatrix.{set_adaptormatrix}
use libambix.Session.{readf, writef, seek}

-- The sample types for which `ambix_readf_` and `ambix_writef_` are made.
pub data SampleType : Type 0 where
  int16 int32 float32 float64 : SampleType

-- The samples of a type, the sums of their products, and the backend's frames of them.
pub record Samples (F B : Type 0) : Type 1 where
  pub Sample : SampleType → Type 0
  pub Sum : SampleType → Type 0
  pub arithmetic : (t : SampleType) → Accumulator F (Sample t) (Sum t)
  pub stream : (t : SampleType) → Stream B (Sample t)

module _ {F B S : Type 0} ⦃fl : Float F⦄ ⦃bits : Bits F⦄ (acc : Accumulator F F S) (sqrt : ℕ → ℕ)
    (pinv : Matrix F → Outcome (Matrix F)) (backend : Backend F B) (samples : Samples F B) where
  -- A call that returns.
  pub data Step : Ambix F B → Ambix F B → Type 0 where
    marker_added : (a : Ambix F B) (m : Option Marker) → Step a (add_marker a m).0
    region_added : (a : Ambix F B) (r : Option Region) → Step a (add_region a r).0
    markers_deleted : (a : Ambix F B) → Step a (delete_markers a).0
    regions_deleted : (a : Ambix F B) → Step a (delete_regions a).0
    matrix_set :
        (a b : Ambix F B) (matrix : Matrix F) (err : Err)
        → set_adaptormatrix acc sqrt pinv a matrix ≡ done (b, err)
        → Step a b
    sought : (a : Ambix F B) (frames : ℤ) (whence : ℕ) → Step a (seek backend a frames whence).0
    frames_read :
        (t : SampleType) (a b : Ambix F B) (frames realframes : ℤ)
        (out : List (samples.Sample t) × List (samples.Sample t))
        → readf (samples.arithmetic t) backend (samples.stream t) a frames
          ≡ done (b, out, realframes)
        → Step a b
    frames_written :
        (t : SampleType) (a b : Ambix F B) (frames realframes : ℤ)
        (ambidata otherdata : List (samples.Sample t))
        → writef (samples.arithmetic t) backend (samples.stream t) sqrt a ambidata otherdata frames
          ≡ done (b, realframes)
        → Step a b

  pub data Reach (a : Ambix F B) : Ambix F B → Type 0 where
    here : Reach a a
    next : {b c : Ambix F B} → Reach a b → Step b c → Reach a c
