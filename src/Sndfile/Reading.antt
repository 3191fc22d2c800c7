-- ===== src/Sndfile/Reading.antt =====
-- Opening a CAF file whose chunks hold a matrix.
use libambix.Base.{
  ℕ, ◌+◌, ◌-◌, ◌*◌, ◌≤◌, ◌≡◌, refl, sym, ap, ◌∙◌, arith, Bool, true, false, not, ltb, le→ltb, ◌==◌,
  if◌then◌else◌, Option, some, List, [], ◌∷◌, ◌++◌, All, length, take, drop, Outcome, done, null,
  fault, Bool-cases, inl, inr,
}
use libambix.Matrix.{Accumulator, Float, Matrix, create}
use libambix.Matrix.Fuma.{Weights}
use libambix.Matrix.Writes.{IsFilled}
use libambix.Uuid.{Bits, check_uuid, uuid1_to_matrix, matrix_to_uuid1}
use libambix.Uuid.Roundtrip.{IsStorable, uuid1_roundtrip}
use libambix.Session.Header.{matrix_to_uuid1-length}
use libambix.Session.Outcomes.{done-OnDone}
use libambix.Handle.{Ambix, success, extended, FileMode, Info}
use libambix.Sndfile.{
  Constants, Chunk, SfInfo, Opened, ambix2sndfile_info, read_uuidchunk, fresh, handle_of,
  sndfile_open,
}

-- A chunk that is passed over: not read, too short, or with another UUID.
abbrev pub is_foreign : Chunk → Bool
is_foreign c =
    if not c.has_size
    then true
    else if ltb (length c.bytes) 16
    then true
    else if not c.has_data
    then true
    else not (check_uuid (take 16 c.bytes) == 1)

module _ {F : Type 0} ⦃fl : Float F⦄ ⦃bits : Bits F⦄ where
  skip_foreign :
      (byteswap : Bool) (c : Chunk) (chunks : List Chunk) (m : Matrix F)
      → is_foreign c ≡ true
      → read_uuidchunk byteswap (c ∷ chunks) m ≡ read_uuidchunk byteswap chunks m
  unfolding read_uuidchunk
  skip_foreign byteswap c chunks m h = elim (Bool-cases c.has_size) [
    | inr e ↦ rw e refl
    | inl e ↦ elim (Bool-cases (ltb (length c.bytes) 16)) [
      | inl f ↦ rw (e, f) refl
      | inr f ↦ elim (Bool-cases c.has_data) [
        | inr g ↦ rw (e, f, g) refl
        | inl g ↦ rw (e, f, g, other e f g) refl
      ]
    ]
  ]
    where
      other :
          c.has_size ≡ true
          → ltb (length c.bytes) 16 ≡ false
          → c.has_data ≡ true
          → (check_uuid (take 16 c.bytes) == 1) ≡ false
      other e f g = ground (arith, h)

  found :
      (byteswap : Bool) (bytes : List ℕ) (chunks : List Chunk) (m back : Matrix F)
      → 16 ≤ length bytes
      → check_uuid (take 16 bytes) ≡ 1
      → uuid1_to_matrix (drop 16 bytes) (length bytes - 16) (some m) byteswap ≡ done back
      → read_uuidchunk byteswap
          (record { has_size = true; bytes = bytes; has_data = true } ∷ chunks)
          m
        ≡ done (back, success)
  unfolding read_uuidchunk
  found byteswap bytes chunks m back long version e =
      rw (le→ltb (length bytes) 16 long, version, e) refl

  -- The matrix behind any number of other chunks.
  read_uuidchunk-matrix_to_uuid1 :
      (byteswap : Bool) (others chunks : List Chunk) (m old : Matrix F)
      → IsStorable m
      → All (λ c. is_foreign c ≡ true) others
      → (bytes : List ℕ) × (matrix_to_uuid1 m byteswap ≡ done bytes)
        × (back : Matrix F) × (read_uuidchunk byteswap
              (others ++ record { has_size = true; bytes = bytes; has_data = true } ∷ chunks)
              old
            ≡ done (back, success))
        × IsFilled m.rows m.cols m.cell back
  read_uuidchunk-matrix_to_uuid1 byteswap [] chunks m old fits none_left =
      let (bytes, e, size, version, back, f, filled) = uuid1_roundtrip m byteswap (some old) fits in
      (
        bytes,
        e,
        back,
        found byteswap bytes chunks old back
            (omega (
              arith,
              done-OnDone (λ b. length b ≡ 24 + 4 * (m.rows * m.cols)) _ e
                  (matrix_to_uuid1-length m byteswap),
            ))
            version f,
        filled,
      )
  read_uuidchunk-matrix_to_uuid1 byteswap (c ∷ others) chunks m old fits (foreign, rest) =
      let (bytes, e, back, f, filled) =
        read_uuidchunk-matrix_to_uuid1 byteswap others chunks m old fits rest in
      (
        bytes,
        e,
        back,
        skip_foreign byteswap c
              (others ++ record { has_size = true; bytes = bytes; has_data = true } ∷ chunks) old
              foreign
            ∙ f,
        filled,
      )

abbrev value_or : {A : Type 0} → A → Outcome A → A
value_or d (done x) = x
value_or d null = d
value_or d fault = d

module _ {F S SF : Type 0} ⦃fl : Float F⦄ ⦃bits : Bits F⦄ ⦃w : Weights F⦄ (acc : Accumulator F F S)
    (sqrt : ℕ → ℕ) (divided multiplied : ℕ → F) (sf : Constants) where
  -- Opening an EXTENDED file. Let libsndfile open a CAF file whose chunks are any without an ambiX matrix, then
  -- the one that is written for a matrix that fits it, in the byte order of the file, then any. Then the
  -- handle is an ambiX file, EXTENDED, and holds a matrix of the same size with the same cells.
  pub sndfile_open-matrix_to_uuid1 :
      (sf_open : FileMode → SfInfo → Option (Opened SF)) (mode : FileMode) (info : Info)
      (file : Opened SF) (others chunks : List Chunk) (m : Matrix F) (bytes : List ℕ)
      → sf_open mode (ambix2sndfile_info sf info) ≡ some file
      → (sf.container file.sf_info.format == sf.caf) ≡ true
      → file.uuid_chunks
        ≡ others ++ record { has_size = true; bytes = bytes; has_data = true } ∷ chunks
      → All (λ c. is_foreign c ≡ true) others
      → matrix_to_uuid1 m file.needs_endswap ≡ done bytes
      → IsStorable m
      → (a : Ambix F SF) × (sndfile_open acc sqrt divided multiplied sf sf_open mode info ≡ done a)
        × (a.is_ambix ≡ true)
        × (a.format ≡ extended)
        × IsFilled m.rows m.cols m.cell a.matrix
  unfolding sndfile_open handle_of
  sndfile_open-matrix_to_uuid1 sf_open mode info file others chunks m bytes opened caf has foreign
        written fits =
      let (bytes', e, back, f, filled) =
        read_uuidchunk-matrix_to_uuid1 file.needs_endswap others chunks m create fits foreign in
      let same : bytes' ≡ bytes = ap (value_or []) (sym e ∙ written) in
      let read : read_uuidchunk file.needs_endswap file.uuid_chunks create ≡ done (back, success) =
        ap (λ cs. read_uuidchunk file.needs_endswap cs create)
          (has
            ∙ ap (λ b. others ++ record { has_size = true; bytes = b; has_data = true } ∷ chunks)
                (sym same))
        ∙ f in
      (
        record (fresh acc sqrt divided multiplied sf file) {
          matrix = back;
          is_ambix = true;
          format = extended;
        },
        ap (handle_of acc sqrt divided multiplied sf) opened ∙ rw (caf, read) refl,
        refl,
        refl,
        filled,
      )
