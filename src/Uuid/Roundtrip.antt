-- ===== src/Uuid/Roundtrip.antt =====
-- A matrix written to a chunk is read back from it.
use libambix.Base.{
  ℕ, zero, suc, ◌+◌, ◌*◌, ◌-◌, ◌%◌, ◌^◌, ◌≤◌, ◌<◌, ◌≡◌, refl, ap, ◌∙◌, arith, Bool, true, false,
  lt→ltb, le→ltb, if◌then◌else◌, Option, List, [], ◌∷◌, ◌++◌, map, take, drop, length, length-map,
  get_or, get_or-map, All, table, frames_from, collect-table, length-table, get_or-table,
  get_or-frames_from, length-frames_from, done, ◌>>=◌,
}
use libambix.Words.{swap4, swap4array}
use libambix.Words.Swap.{swap4-lt, swap4-swap4}
use libambix.Words.Bytes.{
  store4, store_words, load4-store4, load_words-store_words, length-store_words,
}
use libambix.Matrix.{Float, Matrix, read, init}
use libambix.Matrix.Writes.{IsFilled, read-done}
use libambix.Matrix.Fill.{fill_data, fill_data_byteswapped}
use libambix.Matrix.Fill.Data.{fill_from-IsFilled}
use libambix.Uuid.{
  Bits, uuid_v1, get_uuid, check_uuid, same_bytes, fill_cells, uuid1_to_matrix, uuid1_size,
  row_words, matrix_to_uuid1,
}

-- There are cells, the sizes are words, and the size of the chunk does not wrap.
pub record IsStorable {F : Type 0} (m : Matrix F) : Type 0 where
  pub rows-pos : 0 < m.rows
  pub rows-lt : m.rows < 2 ^ 32
  pub cols-pos : 0 < m.cols
  pub cols-lt : m.cols < 2 ^ 32
  pub small : m.rows * m.cols < 2 ^ 60

header_accepted :
    {F : Type 0} ⦃fl : Float F⦄ ⦃bits : Bits F⦄ (a b rows cols : ℕ) (rest : List ℕ) (swap : Bool)
    (orgmtx : Option (Matrix F)) (datasize : ℕ)
    → a < 2 ^ 32
    → b < 2 ^ 32
    → (if swap then swap4 a else a) ≡ rows
    → (if swap then swap4 b else b) ≡ cols
    → 0 < rows
    → 0 < cols
    → rows * cols < 2 ^ 60
    → datasize ≡ 8 + 4 * (rows * cols)
    → uuid1_to_matrix (store4 a ++ (store4 b ++ rest)) datasize orgmtx swap
      ≡ fill_cells (init rows cols) rest swap
unfolding uuid1_to_matrix
header_accepted a b rows cols rest swap orgmtx datasize ha hb er ec pr pc small e =
    rw
      (
        le→ltb datasize 8 (omega arith),
        load4-store4 a (store4 b ++ rest) ha,
        load4-store4 b rest hb,
        er,
        ec,
      )
      (rw (le→ltb rows 1 pr, le→ltb cols 1 pc, wrap, le→ltb (rows * cols) 1 some_cells)
        (rw (le→ltb datasize (rows * cols * 4 % 2 ^ 64) (omega arith))))
  where
    wrap : rows * cols % 2 ^ 64 ≡ rows * cols
    wrap = omega arith

    some_cells : 1 ≤ rows * cols
    some_cells = grind arith

module _ {F : Type 0} ⦃fl : Float F⦄ ⦃bits : Bits F⦄ (m : Matrix F) where
  abbrev cell_row : ℕ → List ℕ
  cell_row r = table m.cols 0 (λ c. bits.to_bits (m.cell r c))

  abbrev cell_words : List ℕ
  cell_words = frames_from m.rows 0 cell_row

  row_words-table :
      (left r : ℕ)
      → 0 < m.cols
      → r + left ≤ m.rows
      → row_words m left r ≡ done (frames_from left r cell_row)
  unfolding row_words
  row_words-table zero r pos h = refl
  row_words-table (suc left) r pos h = rw (
    lt→ltb 0 m.cols pos,
    collect-table m.cols 0 (λ c. read m r c >>= λ v. done (bits.to_bits v))
        (λ c. bits.to_bits (m.cell r c))
        (λ c lo hi. rw (read-done m r c (omega arith) (omega arith))),
    row_words-table left (r + 1) pos (omega arith),
  )

  words-lt :
      (n from : ℕ) (g : ℕ → ℕ) → ((i : ℕ) → g i < 2 ^ 32) → All (λ w. w < 2 ^ 32) (table n from g)
  words-lt zero from g h = tt
  words-lt (suc n) from g h = (h from, words-lt n (from + 1) g h)

  All-append :
      (xs ys : List ℕ)
      → All (λ w. w < 2 ^ 32) xs
      → All (λ w. w < 2 ^ 32) ys
      → All (λ w. w < 2 ^ 32) (xs ++ ys)
  All-append [] ys h k = k
  All-append (x ∷ xs) ys h k = (h.0, All-append xs ys h.1 k)

  cells-lt : (left r : ℕ) → All (λ w. w < 2 ^ 32) (frames_from left r cell_row)
  cells-lt zero r = tt
  cells-lt (suc left) r =
      All-append (cell_row r) _ (words-lt m.cols 0 _ (λ c. bits.to_bits-lt (m.cell r c)))
        (cells-lt left (r + 1))

  -- The word of cell (r, c).
  cell_word :
      (r c : ℕ)
      → r < m.rows
      → c < m.cols
      → get_or cell_words (r * m.cols + c) 0 ≡ bits.to_bits (m.cell r c)
  cell_word r c h k =
      get_or-frames_from m.cols m.rows 0 r c cell_row 0 (λ i. length-table m.cols 0 _) h k
      ∙ get_or-table m.cols 0 c (λ c. bits.to_bits (m.cell (0 + r) c)) 0 k
      ∙ ap (λ i. bits.to_bits (m.cell i (0 + c))) {x = 0 + r} {y = r} (omega arith)
      ∙ ap (λ i. bits.to_bits (m.cell r i)) {x = 0 + c} {y = c} (omega arith)

  cell_count : length cell_words ≡ m.rows * m.cols
  cell_count = length-frames_from m.cols m.rows 0 cell_row (λ i. length-table m.cols 0 _)

  -- The words of the chunk behind the UUID.
  abbrev chunk_words : Bool → List ℕ
  chunk_words swap =
      let words = m.rows ∷ m.cols ∷ cell_words in if swap then swap4array words else words

  written :
      (swap : Bool)
      → 0 < m.cols
      → matrix_to_uuid1 m swap ≡ done (uuid_v1 ++ store_words (chunk_words swap))
  unfolding matrix_to_uuid1 get_uuid
  written swap pos = rw (row_words-table m.rows 0 pos (omega arith))

  length-chunk_words : (swap : Bool) → length (chunk_words swap) ≡ m.rows * m.cols + 2
  unfolding swap4array
  length-chunk_words true = omega (arith, length-map cell_words swap4, cell_count)
  length-chunk_words false = omega (arith, cell_count)

  -- The cells are read back from their words.
  cells_back :
      (swap : Bool)
      → (s : Matrix F) × (fill_cells
            (init m.rows m.cols)
            (store_words (if swap then swap4array cell_words else cell_words))
            swap
          ≡ done s)
        × IsFilled m.rows m.cols m.cell s
  unfolding fill_cells fill_data fill_data_byteswapped swap4array init
  cells_back true =
      let (s, e, u) =
        fill_from-IsFilled (λ w. bits.of_bits (swap4 w)) m.rows m.cols (map swap4 cell_words)
          (swap4 0) (omega (arith, length-map cell_words swap4, cell_count)) (init m.rows m.cols)
          refl refl in
      (
        s,
        rw (load_words-store_words (map swap4 cell_words) (swapped-lt cell_words)) e,
        record {
          has_rows = u.has_rows;
          has_cols = u.has_cols;
          cells = λ r c h k.
              u.cells r c h k
              ∙ ap (λ w. bits.of_bits (swap4 w))
                  (get_or-map swap4 cell_words (r * m.cols + c) 0 ∙ ap swap4 (cell_word r c h k))
              ∙ ap bits.of_bits (swap4-swap4 _ (bits.to_bits-lt (m.cell r c)))
              ∙ bits.of_bits-to_bits (m.cell r c);
        },
      )
    where
      swapped-lt : (ws : List ℕ) → All (λ w. w < 2 ^ 32) (map swap4 ws)
      swapped-lt [] = tt
      swapped-lt (w ∷ ws) = (swap4-lt w, swapped-lt ws)
  cells_back false =
      let (s, e, u) =
        fill_from-IsFilled (λ v. v) m.rows m.cols (map bits.of_bits cell_words) (bits.of_bits 0)
          (omega (arith, length-map cell_words bits.of_bits, cell_count)) (init m.rows m.cols) refl
          refl in
      (
        s,
        rw (load_words-store_words cell_words (cells-lt m.rows 0)) e,
        record {
          has_rows = u.has_rows;
          has_cols = u.has_cols;
          cells = λ r c h k.
              u.cells r c h k
              ∙ get_or-map bits.of_bits cell_words (r * m.cols + c) 0
              ∙ ap bits.of_bits (cell_word r c h k)
              ∙ bits.of_bits-to_bits (m.cell r c);
        },
      )

  -- The header is read back, and passes the tests.
  read_back :
      (swap : Bool) (orgmtx : Option (Matrix F)) (datasize : ℕ)
      → IsStorable m
      → datasize ≡ 8 + 4 * (m.rows * m.cols)
      → uuid1_to_matrix (store_words (chunk_words swap)) datasize orgmtx swap
        ≡ fill_cells
            (init m.rows m.cols)
            (store_words (if swap then swap4array cell_words else cell_words))
            swap
  unfolding store_words swap4array
  read_back true orgmtx datasize fits e =
      header_accepted (swap4 m.rows) (swap4 m.cols) m.rows m.cols _ true orgmtx datasize
        (swap4-lt m.rows) (swap4-lt m.cols) (swap4-swap4 m.rows fits.rows-lt)
        (swap4-swap4 m.cols fits.cols-lt) fits.rows-pos fits.cols-pos fits.small e
  read_back false orgmtx datasize fits e =
      header_accepted m.rows m.cols m.rows m.cols _ false orgmtx datasize fits.rows-lt fits.cols-lt
        refl refl fits.rows-pos fits.cols-pos fits.small e

  -- For a matrix with cells whose size fits the words of the header, in either byte order and
  -- whatever the destination is: the chunk is written, it has the size that the call without a
  -- buffer announces, its UUID is recognised as version 1, and reading what follows the UUID gives
  -- a matrix of the same size with the same cells.
  pub uuid1_roundtrip :
      (swap : Bool) (orgmtx : Option (Matrix F))
      → IsStorable m
      → (chunk : List ℕ) × (matrix_to_uuid1 m swap ≡ done chunk)
        × (length chunk ≡ uuid1_size m)
        × (check_uuid (take 16 chunk) ≡ 1)
        × (back : Matrix F) × (uuid1_to_matrix (drop 16 chunk) (length chunk - 16) orgmtx swap
            ≡ done back)
        × IsFilled m.rows m.cols m.cell back
  unfolding uuid1_size check_uuid same_bytes
  uuid1_roundtrip swap orgmtx fits =
      let (back, e, filled) = cells_back swap in
      let size : length (store_words (chunk_words swap)) ≡ 8 + 4 * (m.rows * m.cols) =
        omega (arith, length-store_words (chunk_words swap), length-chunk_words swap) in
      (
        uuid_v1 ++ store_words (chunk_words swap),
        written swap fits.cols-pos,
        omega (arith, size, fits.small),
        refl,
        back,
        read_back swap orgmtx _ fits (omega (arith, size)) ∙ e,
        filled,
      )
