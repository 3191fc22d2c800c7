-- ===== src/Uuid.antt =====
-- The UUID chunk that holds the adaptor matrix: libambix/src/uuid_chunk.c. A chunk is a list of
-- bytes; the host stores the low byte of a word first, so `swap` gives the big-endian order of a
-- CAF file. Allocation succeeds.
pub mod Roundtrip
pub mod Tests
use libambix.Base.{
  ℕ, zero, suc, ◌+◌, ◌*◌, ◌-◌, ◌/◌, ◌%◌, ◌^◌, ◌<◌, ◌≡◌, Bool, true, false, ltb, ◌==◌, ◌&&◌, ◌||◌,
  if◌then◌else◌, Option, none, some, List, [], ◌∷◌, ◌++◌, map, take, Outcome, done, null, fault,
  ◌>>=◌, collect,
}
use libambix.Words.{u64, swap4, swap4array}
use libambix.Words.Bytes.{load4, load_words, store_words}
use libambix.Matrix.{Float, Matrix, read, init}
use libambix.Matrix.Fill.{fill_data, fill_data_byteswapped}

-- A float32_t and the word at its place, as in `number32_t`.
pub record Bits (F : Type 0) : Type 0 where
  pub to_bits : F → ℕ
  pub of_bits : ℕ → F
  pub to_bits-lt : (x : F) → to_bits x < 2 ^ 32
  pub of_bits-to_bits : (x : F) → of_bits (to_bits x) ≡ x

-- `_ambix_uuid_v1`, and the older `_ambix_uuid_v1_`, "IEM.AT/AMBIX/XML".
abbrev pub uuid_v1 : List ℕ
uuid_v1 =
    0x1a ∷ 0xd3 ∷ 0x18 ∷ 0xc3 ∷ 0x00 ∷ 0xe5 ∷ 0x55 ∷ 0x76 ∷ 0xbe ∷ 0x2d ∷ 0x0d ∷ 0xca ∷ 0x24 ∷ 0x60
    ∷ 0xbc ∷ 0x89 ∷ []

abbrev pub uuid_v1_compat : List ℕ
uuid_v1_compat =
    b'I' ∷ b'E' ∷ b'M' ∷ b'.' ∷ b'A' ∷ b'T' ∷ b'/' ∷ b'A' ∷ b'M' ∷ b'B' ∷ b'I' ∷ b'X' ∷ b'/' ∷ b'X'
    ∷ b'M' ∷ b'L' ∷ []

unfoldable pub get_uuid : ℕ → Option (List ℕ)
get_uuid version = if version == 1 then some uuid_v1 else none

-- `!memcmp(a, b, n)`, for arrays of n bytes.
unfoldable pub same_bytes : List ℕ → List ℕ → Bool
same_bytes [] [] = true
same_bytes (x ∷ xs) (y ∷ ys) = x == y && same_bytes xs ys
same_bytes _ _ = false

-- The version that the 16 bytes name, or 0.
unfoldable pub check_uuid : List ℕ → ℕ
check_uuid uuid =
    if same_bytes uuid uuid_v1 then 1 else if same_bytes uuid uuid_v1_compat then 1 else 0

module _ {F : Type 0} ⦃fl : Float F⦄ ⦃bits : Bits F⦄ where
  -- Reading the cells that follow the header.
  unfoldable pub fill_cells : Matrix F → List ℕ → Bool → Outcome (Matrix F)
  fill_cells m cdata true = fill_data_byteswapped bits.of_bits m (load_words cdata)
  fill_cells m cdata false = fill_data m (map bits.of_bits (load_words cdata))

  -- `data` has `datasize` bytes behind the UUID. The tests are in uint64_t.
  unfoldable pub uuid1_to_matrix :
      List ℕ → (datasize : ℕ) → Option (Matrix F) → Bool → Outcome (Matrix F)
  uuid1_to_matrix cdata datasize orgmtx swap =
      if ltb datasize 8
      then null
      else (load4 cdata >>= λ s. load4 s.1 >>= λ t.
          let rows = if swap then swap4 s.0 else s.0 in
          let cols = if swap then swap4 t.0 else t.0 in
          let size = u64 (rows * cols) in
          if ltb rows 1 || (ltb cols 1 || ltb size 1)
          then null
          else if ltb datasize (u64 (size * 4))
          then null
          else fill_cells (init rows cols) t.1 swap)

  -- The size of the chunk, UUID included, as the call with no buffer returns it.
  unfoldable pub uuid1_size : Matrix F → ℕ
  uuid1_size m = u64 (24 + u64 (u64 (m.rows * m.cols) * 4))

  -- `memcpy(cdata+index, mtx[r], cols*sizeof(float32_t))` of the rows from `r` on. A matrix with no
  -- columns has no data, and `mtx[r]` is a fault.
  unfoldable pub row_words : Matrix F → (left r : ℕ) → Outcome (List ℕ)
  row_words m zero r = done []
  row_words m (suc left) r =
      (if ltb 0 m.cols
        then collect m.cols 0 (λ c. read m r c >>= λ v. done (bits.to_bits v))
        else fault)
      >>= λ ws. row_words m left (r + 1) >>= λ rest. done (ws ++ rest)

  -- What is written to the buffer: the UUID, then the words, swapped where asked.
  unfoldable pub matrix_to_uuid1 : Matrix F → Bool → Outcome (List ℕ)
  matrix_to_uuid1 m swap = elim (get_uuid 1) [
    | none ↦ done []
    | some uuid ↦ row_words m m.rows 0 >>= λ cells.
        let words = m.rows ∷ m.cols ∷ cells in
        done (uuid ++ store_words (if swap then swap4array words else words))
  ]
