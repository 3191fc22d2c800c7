-- ===== src/Handle/Adaptormatrix.antt =====
-- Setting the adaptor matrix of a handle: `ambix_set_adaptormatrix` and `ambix_get_adaptormatrix` of
-- libambix/src/libambix.c.
use libambix.Base.{
  ℕ, ◌≡◌, refl, true, false, not, ◌&&◌, ◌==◌, ==_self, if◌then◌else◌, Option, none, some, Outcome,
  done, null, fault,
}
use libambix.Channels.{is_fullset}
use libambix.Matrix.{Accumulator, Float, Matrix, copy, multiply}
use libambix.Matrix.Writes.{IsFilled}
use libambix.Matrix.Copies.{copy-IsFilled}
use libambix.Handle.{
  Ambix, Err, basic, extended, success, unknown, invalid_dimension, invalid_matrix, is_basic,
  is_extended,
}

unfoldable pub get_adaptormatrix : {F B : Type 0} → Ambix F B → Option (Matrix F)
get_adaptormatrix a = if is_extended a.info.fileformat then some a.matrix else none

-- The result of copying or multiplying into a matrix: NULL gives `err`, a matrix is stored.
abbrev pub stored :
    {F B : Type 0}
    → Outcome (Matrix F)
    → Ambix F B
    → Err
    → (Matrix F → Outcome (Ambix F B × Err))
    → Outcome (Ambix F B × Err)
stored (done m) a err next = next m
stored null a err next = done (a, err)
stored fault a err next = fault

-- The handle that writes `m2` times the `rows` channels of the caller, and `m` to the header.
abbrev pub reduced : {F B : Type 0} → Ambix F B → (rows : ℕ) → (m m2 : Matrix F) → Ambix F B
reduced a rows m m2 = record a {
  matrix = m;
  matrix2 = m2;
  realinfo = record a.realinfo { fileformat = extended };
  info = record a.info { ambichannels = rows };
  use_matrix = 2;
  pending_headers = true;
}

-- `sqrt` is the integer root of channel counts, and `pinv` the pseudo-inverse of a matrix, or NULL.
module _ {F B S : Type 0} ⦃fl : Float F⦄ (acc : Accumulator F F S) (sqrt : ℕ → ℕ)
    (pinv : Matrix F → Outcome (Matrix F)) where
  -- The file is read as BASIC.
  unfoldable pub set_for_reading : Ambix F B → Matrix F → Outcome (Ambix F B × Err)
  set_for_reading a matrix =
      if is_extended a.realinfo.fileformat
      then stored (multiply acc (some matrix) (some a.matrix) (some a.matrix2)) a unknown
          (λ m. done (record a { matrix2 = m; use_matrix = 2 }, success))
      else if matrix.cols == a.realinfo.ambichannels
      then stored (copy (some matrix) (some a.matrix2)) a unknown
          (λ m. done (record a { matrix2 = m; use_matrix = 2 }, unknown))
      else done (a, invalid_dimension)

  -- The caller's BASIC channels are reduced by the pseudo-inverse and written as EXTENDED.
  unfoldable pub set_reduction : Ambix F B → Matrix F → Outcome (Ambix F B × Err)
  set_reduction a matrix =
      if a.realinfo.ambichannels == matrix.cols
      then (stored (pinv matrix) a invalid_matrix λ p.
          stored (copy (some p) (some a.matrix2)) a unknown λ m2.
            stored (copy (some matrix) (some a.matrix)) (record a { matrix2 = m2 }) unknown
              λ m. done (reduced a matrix.rows m m2, success))
      else done (a, invalid_dimension)

  unfoldable pub set_for_writing : Ambix F B → Matrix F → Outcome (Ambix F B × Err)
  set_for_writing a matrix =
      if not (is_extended a.info.fileformat) && not (is_basic a.info.fileformat)
      then done (a, unknown)
      else if a.started_writing
      then done (a, unknown)
      else if not (is_fullset sqrt matrix.rows)
      then done (a, invalid_dimension)
      else if is_basic a.info.fileformat
      then set_reduction a matrix
      else stored (copy (some matrix) (some a.matrix)) a unknown
          λ m. done (record a { matrix = m; pending_headers = true }, success)

  unfoldable pub set_adaptormatrix : Ambix F B → Matrix F → Outcome (Ambix F B × Err)
  set_adaptormatrix a matrix =
      if a.filemode.reads && is_basic a.info.fileformat
      then set_for_reading a matrix
      else if a.filemode.writes
      then set_for_writing a matrix
      else done (a, unknown)

  -- On a handle that is open for writing as BASIC and has not started to write, a matrix that expands
  -- to a full set, has as many columns as the file has ambisonics channels, and has a pseudo-inverse
  -- makes the file EXTENDED: the matrix is copied to the handle, its pseudo-inverse becomes the matrix
  -- that is used, the caller has as many ambisonics channels as the matrix has rows, and the header is
  -- pending.
  pub set_adaptormatrix-reduced :
      (a : Ambix F B) (matrix inverse : Matrix F)
      → a.filemode.reads ≡ false
      → a.filemode.writes ≡ true
      → a.info.fileformat ≡ basic
      → a.started_writing ≡ false
      → is_fullset sqrt matrix.rows ≡ true
      → a.realinfo.ambichannels ≡ matrix.cols
      → pinv matrix ≡ done inverse
      → (m m2 : Matrix F) × (set_adaptormatrix a matrix
          ≡ done (reduced a matrix.rows m m2, success))
        × IsFilled matrix.rows matrix.cols matrix.cell m
        × IsFilled inverse.rows inverse.cols inverse.cell m2
  unfolding set_adaptormatrix set_for_writing set_reduction
  set_adaptormatrix-reduced a matrix inverse reads writes x idle full same inverted =
      let (m2, e2, filled2) = copy-IsFilled inverse (some a.matrix2) in
      let (m, e, filled) = copy-IsFilled matrix (some a.matrix) in
      (
        m,
        m2,
        simp (reads, writes, x, idle, full, same, ==_self, inverted, e2, e) refl,
        filled,
        filled2,
      )
